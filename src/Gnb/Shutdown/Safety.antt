-- ===== src/Gnb/Shutdown/Safety.antt =====
-- What holds of the process of the gNB simulator (gnb-sim/main.go), whenever a signal comes.
use openmvn.Common.{ℕ, ◌≡◌, refl, sym, ap, ◌∙◌, false, ◌&&◌, not, arith, none, List, []}
use openmvn.Common.Clock.{Time}
use openmvn.Events.{Bytes}
use openmvn.Gnb.{Coder, Flags}
use openmvn.Gnb.Shutdown.{
  Main, dialling, notifying, marshalling, writing, reading, unmarshalling, kept_alive, armed,
  closing, exiting, Process, started, Step, calls, kill, notify, close, exit, Reach, here, next,
}
use openmvn.Gnb.Shutdown.Invariant.{
  has_closed, has_dialled, has_notified, is_started, WrittenAt, alive, IsSound, call-IsSound,
}

module _ (coder : Coder) (flags : Flags) (ueid : ℕ) (now : Time) where
  -- The goroutine of the signals moves on, without closing the connection or by closing it.
  closing_soon :
      (p : Process)
      → p.exit ≡ none
      → p.handler ≡ armed
      → IsSound coder flags ueid now p
      → IsSound coder flags ueid now (record p { handler = closing })
  closing_soon p runs at h = record {
    connection = h.connection ∙ ap (λ x. not (has_closed x) && has_dialled p.main) at;
    started = sym (ap is_started at) ∙ h.started;
    written = h.written;
    ending = alive p (record p { handler = closing }) runs;
  }

  closed :
      (p : Process)
      → p.exit ≡ none
      → p.handler ≡ closing
      → IsSound coder flags ueid now p
      → IsSound coder flags ueid now (record p { handler = exiting; connected = false })
  closed p runs at h = record {
    connection = refl;
    started = sym (ap is_started at) ∙ h.started;
    written = h.written;
    ending = alive p (record p { handler = exiting; connected = false }) runs;
  }

  nothing_written :
      (m : Main) (l : List Bytes)
      → has_notified m ≡ false
      → WrittenAt coder flags ueid now m l
      → l ≡ []
  nothing_written dialling l before w = w
  nothing_written notifying l before w = w
  nothing_written marshalling l before w = w
  nothing_written (writing payload) l before w = w.1
  nothing_written (reading payload) l before w = absurd (ground arith)
  nothing_written (unmarshalling bytes) l before w = absurd (ground arith)
  nothing_written (kept_alive r) l before w = absurd (ground arith)

  Step-IsSound :
      {p q : Process}
      → IsSound coder flags ueid now p
      → Step coder flags ueid now p q
      → IsSound coder flags ueid now q
  Step-IsSound {p} h (calls c runs) = call-IsSound coder flags ueid now c p.main p refl runs h
  Step-IsSound {p} h (kill runs at) = record {
    connection = h.connection;
    started = h.started;
    written = h.written;
    ending = nothing_written p.main p.written (sym h.started ∙ ap is_started at) h.written;
  }
  Step-IsSound {p} h (notify runs at) = closing_soon p runs at h
  Step-IsSound {p} h (close runs at) = closed p runs at h
  Step-IsSound {p} h (exit runs at) = record {
    connection = h.connection;
    started = h.started;
    written = h.written;
    ending = h.connection ∙ ap (λ x. not (has_closed x) && has_dialled p.main) at;
  }

  -- Whenever a signal comes, and whichever calls fail: the connection is open exactly from the
  -- dialling until the handler of the signal closes it, no other end of the process closes it; the
  -- handler is there exactly once `signal.Notify` has been called; what has been written is the encoded
  -- registration, once, or nothing; where the process exits with 0 the connection is closed, and where a
  -- signal kills it nothing has been written.
  pub Reach-IsSound :
      {p : Process} → Reach coder flags ueid now started p → IsSound coder flags ueid now p
  Reach-IsSound here = record { connection = refl; started = refl; written = refl; ending = tt }
  Reach-IsSound (next path step) = Step-IsSound (Reach-IsSound path) step
