-- ===== src/Gnb/Shutdown/Invariant.antt =====
-- The invariant of the process of the gNB simulator (gnb-sim/main.go), and that the calls of `main` keep
-- it.
use openmvn.Common.{
  ℕ, ◌≡◌, refl, sym, ap, ◌∙◌, Bool, true, false, ◌&&◌, not, Option, none, some, List, [], ◌∷◌, ◌++◌,
}
use mathlib.Core.Path.{subst}
use openmvn.Common.Clock.{Time}
use openmvn.Events.{Bytes}
use openmvn.Amf.Ngap.{NgapResponse}
use openmvn.Gnb.{
  Coder, Flags, peer_of, registration, Report, dial_failed, marshal_failed, write_failed,
  read_failed, report_of, into_buffer,
}
use openmvn.Gnb.Shutdown.{
  Main, dialling, notifying, marshalling, writing, reading, unmarshalling, kept_alive, Handler,
  absent, armed, closing, exiting, Exit, fatal, interrupted, killed, Process, Calls, fails, dialled,
  notified, marshalled, wrote, received, unmarshalled, if_connected, call,
}

abbrev pub has_closed : Handler → Bool
has_closed exiting = true
has_closed _ = false

abbrev pub has_dialled : Main → Bool
has_dialled dialling = false
has_dialled _ = true

abbrev pub has_notified : Main → Bool
has_notified dialling = false
has_notified notifying = false
has_notified _ = true

abbrev pub is_started : Handler → Bool
is_started absent = false
is_started _ = true

-- What has been written, by what `main` does next.
abbrev pub WrittenAt : Coder → Flags → ℕ → Time → Main → List Bytes → Type 0
WrittenAt coder flags ueid now dialling l = l ≡ []
WrittenAt coder flags ueid now notifying l = l ≡ []
WrittenAt coder flags ueid now marshalling l = l ≡ []
WrittenAt coder flags ueid now (writing payload) l =
    (coder.marshal (registration flags ueid now) ≡ some payload) × (l ≡ [])
WrittenAt coder flags ueid now _ l =
    (payload : Bytes) × (coder.marshal (registration flags ueid now) ≡ some payload)
    × (l ≡ payload ∷ [])

-- Behind `os.Exit(0)` the connection is closed, and a process that has been killed has written nothing.
abbrev pub EndsAt : Option Exit → Process → Type 0
EndsAt none p = Unit
EndsAt (some (fatal r)) p = Unit
EndsAt (some interrupted) p = p.connected ≡ false
EndsAt (some killed) p = p.written ≡ []

pub alive : (p q : Process) → p.exit ≡ none → EndsAt p.exit q
alive p q runs = subst (λ e. EndsAt e q) (sym runs) tt

not_closed : (h : Handler) → is_started h ≡ false → has_closed h ≡ false
not_closed absent e = refl
not_closed armed e = refl
not_closed closing e = refl
not_closed exiting e = e

module _ (coder : Coder) (flags : Flags) (ueid : ℕ) (now : Time) where
  pub record IsSound (p : Process) : Type 0 where
    pub connection : p.connected ≡ (not (has_closed p.handler) && has_dialled p.main)
    pub started : is_started p.handler ≡ has_notified p.main
    pub written : WrittenAt coder flags ueid now p.main p.written
    pub ending : EndsAt p.exit p

  fails-IsSound : (r : Report) (p : Process) → IsSound p → IsSound (fails r p)
  fails-IsSound r p h = record {
    connection = h.connection;
    started = h.started;
    written = h.written;
    ending = tt;
  }

  -- `main` moves on from a place behind `signal.Notify` to another.
  moves_on :
      (p : Process) (m : Main) (l : List Bytes)
      → p.exit ≡ none
      → has_dialled p.main ≡ has_dialled m
      → has_notified p.main ≡ has_notified m
      → WrittenAt coder flags ueid now m l
      → IsSound p
      → IsSound (record p { main = m; written = l })
  moves_on p m l runs same also wrote h = record {
    connection = h.connection ∙ ap (λ b. not (has_closed p.handler) && b) same;
    started = h.started ∙ also;
    written = wrote;
    ending = alive p (record p { main = m; written = l }) runs;
  }

  -- Before `signal.Notify` the handler has closed nothing.
  open_yet :
      (p : Process) (m : Main)
      → p.main ≡ m
      → has_notified m ≡ false
      → IsSound p
      → has_closed p.handler ≡ false
  open_yet p m at before h = not_closed p.handler (h.started ∙ ap has_notified at ∙ before)

  dialled-IsSound :
      (b : Bool) (p : Process)
      → p.main ≡ dialling
      → p.exit ≡ none
      → p.written ≡ []
      → IsSound p
      → IsSound (dialled b p)
  dialled-IsSound true p at runs nothing h = record {
    connection = sym (ap (λ b. not b && true) (open_yet p dialling at refl h));
    started = h.started ∙ ap has_notified at;
    written = nothing;
    ending = alive p (dialled true p) runs;
  }
  dialled-IsSound false p at runs nothing h = fails-IsSound dial_failed p h

  notified-IsSound :
      (p : Process)
      → p.main ≡ notifying
      → p.exit ≡ none
      → p.written ≡ []
      → IsSound p
      → IsSound (notified p)
  notified-IsSound p at runs nothing h = record {
    connection =
        h.connection
        ∙ ap (λ b. not b && has_dialled p.main) (open_yet p notifying at refl h)
        ∙ ap has_dialled at;
    started = refl;
    written = nothing;
    ending = alive p (notified p) runs;
  }

  marshalled-IsSound :
      (o : Option Bytes) (p : Process)
      → coder.marshal (registration flags ueid now) ≡ o
      → p.main ≡ marshalling
      → p.exit ≡ none
      → p.written ≡ []
      → IsSound p
      → IsSound (marshalled o p)
  marshalled-IsSound none p e at runs nothing h = fails-IsSound marshal_failed p h
  marshalled-IsSound (some payload) p e at runs nothing h =
      moves_on p (writing payload) p.written runs (ap has_dialled at) (ap has_notified at)
        (e, nothing) h

  wrote-IsSound :
      (b : Bool) (payload : Bytes) (p : Process)
      → p.main ≡ writing payload
      → p.exit ≡ none
      → WrittenAt coder flags ueid now (writing payload) p.written
      → IsSound p
      → IsSound (wrote b payload p)
  wrote-IsSound false payload p at runs w h = fails-IsSound write_failed p h
  wrote-IsSound true payload p at runs (e, nothing) h =
      moves_on p (reading payload) (p.written ++ payload ∷ []) runs (ap has_dialled at)
        (ap has_notified at) (payload, e, ap (λ l. l ++ payload ∷ []) nothing) h

  received-IsSound :
      (o : Option Bytes) (payload : Bytes) (p : Process)
      → p.main ≡ reading payload
      → p.exit ≡ none
      → WrittenAt coder flags ueid now (reading payload) p.written
      → IsSound p
      → IsSound (received o p)
  received-IsSound none payload p at runs w h = fails-IsSound read_failed p h
  received-IsSound (some bytes) payload p at runs w h =
      moves_on p (unmarshalling (into_buffer bytes)) p.written runs (ap has_dialled at)
        (ap has_notified at) w h

  unmarshalled-IsSound :
      (o : Option NgapResponse) (bytes : Bytes) (p : Process)
      → p.main ≡ unmarshalling bytes
      → p.exit ≡ none
      → WrittenAt coder flags ueid now (unmarshalling bytes) p.written
      → IsSound p
      → IsSound (unmarshalled o p)
  unmarshalled-IsSound none bytes p at runs w h = fails-IsSound (report_of none) p h
  unmarshalled-IsSound (some resp) bytes p at runs w h =
      moves_on p (kept_alive (report_of (some resp))) p.written runs (ap has_dialled at)
        (ap has_notified at) w h

  written_at :
      (p : Process) (m : Main) → p.main ≡ m → IsSound p → WrittenAt coder flags ueid now m p.written
  written_at p m at h = subst (λ x. WrittenAt coder flags ueid now x p.written) at h.written

  pub call-IsSound :
      (c : Calls) (m : Main) (p : Process)
      → p.main ≡ m
      → p.exit ≡ none
      → IsSound p
      → IsSound (call coder flags ueid now c m p)
  unfolding call
  call-IsSound c dialling p at runs h =
      dialled-IsSound (c.dials (peer_of c.parse_ip flags)) p at runs (written_at p dialling at h) h
  call-IsSound c notifying p at runs h = notified-IsSound p at runs (written_at p notifying at h) h
  call-IsSound c marshalling p at runs h =
      marshalled-IsSound (coder.marshal (registration flags ueid now)) p refl at runs
        (written_at p marshalling at h) h
  call-IsSound c (writing payload) p at runs h =
      wrote-IsSound (if_connected p.connected c.writes false) payload p at runs
        (written_at p (writing payload) at h) h
  call-IsSound c (reading payload) p at runs h =
      received-IsSound (if_connected p.connected (c.answer payload) none) payload p at runs
        (written_at p (reading payload) at h) h
  call-IsSound c (unmarshalling bytes) p at runs h =
      unmarshalled-IsSound (coder.unmarshal bytes) bytes p at runs
        (written_at p (unmarshalling bytes) at h) h
  call-IsSound c (kept_alive r) p at runs h = h
