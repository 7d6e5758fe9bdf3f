-- ===== src/Gnb/Shutdown/Run.antt =====
-- Runs of the process of the gNB simulator (gnb-sim/main.go): without a signal, and with one while it waits for
-- the answer.
use openmvn.Common.{
  ℕ, zero, suc, ◌≡◌, refl, Bool, true, false, Option, none, some, List, [], ◌∷◌, if◌then◌else◌,
}
use mathlib.Core.Path.{subst}
use openmvn.Common.Clock.{Time}
use openmvn.Events.{Bytes}
use openmvn.Amf.Ngap.{NgapResponse}
use openmvn.Gnb.{
  Coder, Flags, peer_of, registration, Report, marshal_failed, write_failed, read_failed, report_of,
  read_response, into_buffer, gnb_main,
}
use openmvn.Gnb.Shutdown.{
  Main, notifying, marshalling, writing, reading, unmarshalling, kept_alive, absent, armed, exiting,
  Exit, fatal, killed, Process, started, Calls, dialled, marshalled, wrote, received, unmarshalled,
  call, calls, kill, notify, close, Reach, here, next,
}

-- The report that `main` has come to.
abbrev pub reported : Main → Option Exit → Option Report
reported m (some (fatal r)) = some r
reported (kept_alive r) _ = some r
reported _ _ = none

abbrev pub first : List Bytes → Option Bytes
first [] = none
first (b ∷ bs) = some b

-- What has been written, and the report.
abbrev pub Agrees : Process → Option Bytes × Report → Type 0
Agrees p end = (first p.written ≡ end.0) × (reported p.main p.exit ≡ some end.1)

module _ (coder : Coder) (flags : Flags) (ueid : ℕ) (now : Time) where
  -- A call of `main`, unless the process has ended.
  unfoldable pub go_on : Calls → Process → Process
  unfolding call
  go_on c p = elim p.exit [ none ↦ call coder flags ueid now c p.main p | some e ↦ p ]

  -- The process without signals, for so many calls.
  unfoldable pub run : ℕ → Calls → Process → Process
  unfolding go_on
  run zero c p = p
  run (suc n) c p = run n c (go_on c p)

  -- The connected process, before its next call.
  abbrev connected_at : Main → List Bytes → Process
  connected_at m l = record {
    main = m;
    handler = armed;
    connected = true;
    written = l;
    exit = none;
  }

  run-unmarshalled :
      (c : Calls) (l : List Bytes) (m : Main) (o : Option NgapResponse)
      → Agrees (unmarshalled o (connected_at m l)) (first l, report_of o)
  run-unmarshalled c l m none = (refl, refl)
  run-unmarshalled c l m (some resp) = (refl, refl)

  run-received :
      (c : Calls) (l : List Bytes) (m : Main) (o : Option Bytes)
      → Agrees (run 1 c (received o (connected_at m l))) (first l, read_response coder o)
  unfolding run go_on call
  run-received c l m none = (refl, refl)
  run-received c l m (some bytes) =
      run-unmarshalled c l (unmarshalling (into_buffer bytes)) (coder.unmarshal (into_buffer bytes))

  run-wrote :
      (c : Calls) (payload : Bytes) (m : Main) (b : Bool)
      → Agrees (run 2 c (wrote b payload (connected_at m []))) (
          if b
          then (some payload, read_response coder (c.answer payload))
          else (none, write_failed))
  unfolding run go_on call
  run-wrote c payload m true = run-received c (payload ∷ []) (reading payload) (c.answer payload)
  run-wrote c payload m false = (refl, refl)

  run-marshalled :
      (c : Calls) (m : Main) (o : Option Bytes)
      → Agrees
          (run 3 c (marshalled o (connected_at m [])))
          (elim o as (λ _. Option Bytes × Report) [
            | none ↦ (none, marshal_failed)
            | some payload ↦
                if c.writes
                then (some payload, read_response coder (c.answer payload))
                else (none, write_failed)
          ])
  unfolding run go_on call
  run-marshalled c m none = (refl, refl)
  run-marshalled c m (some payload) = run-wrote c payload (writing payload) c.writes

  -- Six calls without a signal are all of `main`: what has been written, and the report, are those
  -- of `gnb_main`.
  pub run-gnb_main :
      (c : Calls)
      → Agrees
          (run 6 c started)
          (gnb_main coder flags ueid now (c.dials (peer_of c.parse_ip flags)) c.writes c.answer)
  unfolding run go_on call gnb_main
  run-gnb_main c = run-dialled c (c.dials (peer_of c.parse_ip flags))
    where
      run-dialled :
          (c : Calls) (b : Bool)
          → Agrees (run 5 c (dialled b started)) (gnb_main coder flags ueid now b c.writes c.answer)
      run-dialled c true =
          run-marshalled c marshalling (coder.marshal (registration flags ueid now))
      run-dialled c false = (refl, refl)

  -- A signal that comes while `main` waits for the answer can end the process by `log.Fatalf`, behind
  -- the `conn.Close` of the handler and before its `os.Exit(0)`, with a read error.
  pub interrupted_read :
      (payload : Bytes)
      → coder.marshal (registration flags ueid now) ≡ some payload
      → Reach coder flags ueid now started (record {
        main = reading payload;
        handler = exiting;
        connected = false;
        written = payload ∷ [];
        exit = some (fatal read_failed);
      })
  unfolding call
  interrupted_read payload made =
      let c : Calls = record {
        parse_ip = λ name. none;
        dials = λ peer. true;
        writes = true;
        answer = λ b. none;
      } in
      let dialling_done : Reach coder flags ueid now started (connected_at marshalling []) =
        next (next here (calls c refl)) (calls c refl) in
      let encoded : Reach coder flags ueid now started (connected_at (writing payload) []) =
        subst (λ o. Reach coder flags ueid now started (marshalled o (connected_at marshalling [])))
          made (next dialling_done (calls c refl)) in
      let written : Reach coder flags ueid now started
          (connected_at (reading payload) (payload ∷ [])) =
        next encoded (calls c refl) in
      next (next (next written (notify refl refl)) (close refl refl)) (calls c refl)

  -- A signal between the dialling and `signal.Notify` kills the process with its connection open.
  pub killed_connected : Reach coder flags ueid now started (record {
    main = notifying;
    handler = absent;
    connected = true;
    written = [];
    exit = some killed;
  })
  unfolding call
  killed_connected =
      let c : Calls = record {
        parse_ip = λ name. none;
        dials = λ peer. true;
        writes = true;
        answer = λ b. none;
      } in
      next (next here (calls c refl)) (kill refl refl)
