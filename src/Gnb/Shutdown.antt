-- ===== src/Gnb/Shutdown.antt =====
-- The process of the gNB simulator (gnb-sim/main.go) with its two goroutines: `main`, call by call, and the one
-- that waits for SIGINT or SIGTERM, closes the connection and ends the process.
pub mod Run
pub mod Invariant
pub mod Safety
use openmvn.Common.{ℕ, ◌≡◌, Bool, true, false, Option, none, some, List, [], ◌∷◌, ◌++◌, String}
use openmvn.Common.Clock.{Time}
use openmvn.Events.{Bytes}
use openmvn.Amf.Ngap.{NgapResponse}
use openmvn.Gnb.{
  Coder, Flags, SctpAddr, peer_of, registration, Report, dial_failed, marshal_failed, write_failed,
  read_failed, report_of, into_buffer,
}

-- Where `main` is: before a call, or for ever in `select {}`.
pub data Main : Type 0 where
  dialling notifying marshalling : Main
  writing reading : Bytes → Main
  unmarshalling : Bytes → Main
  kept_alive : Report → Main

-- The goroutine of the signals: not started, waiting on its channel, before `conn.Close`, before
-- `os.Exit(0)`.
pub data Handler : Type 0 where
  absent armed closing exiting : Handler

-- `log.Fatalf`, `os.Exit(0)`, or a signal before `signal.Notify` has been called.
pub data Exit : Type 0 where
  fatal : Report → Exit
  interrupted killed : Exit

pub record Process : Type 0 where
  pub main : Main
  pub handler : Handler
  pub connected : Bool
  pub written : List Bytes
  pub exit : Option Exit

abbrev pub started : Process
started = record { main = dialling; handler = absent; connected = false; written = []; exit = none }

-- `net.ParseIP`, which calls succeed, and what the peer sends to what has been written.
pub record Calls : Type 0 where
  pub parse_ip : String → Option Bytes
  pub dials : SctpAddr → Bool
  pub writes : Bool
  pub answer : Bytes → Option Bytes

abbrev pub fails : Report → Process → Process
fails r p = record p { exit = some (fatal r) }

-- After `DialSCTP`.
abbrev pub dialled : Bool → Process → Process
dialled true p = record p { main = notifying; connected = true }
dialled false p = fails dial_failed p

-- After `signal.Notify` and the start of the goroutine. The channel keeps a signal that comes between
-- the two.
abbrev pub notified : Process → Process
notified p = record p { main = marshalling; handler = armed }

abbrev pub marshalled : Option Bytes → Process → Process
marshalled none p = fails marshal_failed p
marshalled (some payload) p = record p { main = writing payload }

abbrev pub wrote : Bool → Bytes → Process → Process
wrote true payload p = record p { main = reading payload; written = p.written ++ payload ∷ [] }
wrote false payload p = fails write_failed p

abbrev pub received : Option Bytes → Process → Process
received none p = fails read_failed p
received (some bytes) p = record p { main = unmarshalling (into_buffer bytes) }

abbrev pub unmarshalled : Option NgapResponse → Process → Process
unmarshalled none p = fails (report_of none) p
unmarshalled (some resp) p = record p { main = kept_alive (report_of (some resp)) }

-- A closed connection can neither be written nor read.
abbrev pub if_connected : {A : Type 0} → Bool → A → A → A
if_connected true a b = a
if_connected false a b = b

module _ (coder : Coder) (flags : Flags) (ueid : ℕ) (now : Time) where
  -- The next call of `main`.
  unfoldable pub call : Calls → Main → Process → Process
  call c dialling p = dialled (c.dials (peer_of c.parse_ip flags)) p
  call c notifying p = notified p
  call c marshalling p = marshalled (coder.marshal (registration flags ueid now)) p
  call c (writing payload) p = wrote (if_connected p.connected c.writes false) payload p
  call c (reading payload) p = received (if_connected p.connected (c.answer payload) none) p
  call c (unmarshalling bytes) p = unmarshalled (coder.unmarshal bytes) p
  call c (kept_alive r) p = p

  -- A call of `main`, a signal, or a step of the goroutine that handles it, until the process ends.
  pub data Step (p : Process) : Process → Type 0 where
    calls : (c : Calls) → p.exit ≡ none → Step p (call c p.main p)
    kill : p.exit ≡ none → p.handler ≡ absent → Step p (record p { exit = some killed })
    notify : p.exit ≡ none → p.handler ≡ armed → Step p (record p { handler = closing })
    close :
        p.exit ≡ none
        → p.handler ≡ closing
        → Step p (record p { handler = exiting; connected = false })
    exit : p.exit ≡ none → p.handler ≡ exiting → Step p (record p { exit = some interrupted })

  pub data Reach (s : Process) : Process → Type 0 where
    here : Reach s s
    next : {t u : Process} → Reach s t → Step t u → Reach s u
