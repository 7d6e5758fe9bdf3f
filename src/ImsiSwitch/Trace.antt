-- ===== src/ImsiSwitch/Trace.antt =====
-- Sequences of messages and requests, in the order in which they take the lock: how often a device
-- can end its wait.
use openmvn.Common.{
  ℕ, ◌+◌, ◌≤◌, ◌&&◌, Option, none, some, List, [], ◌∷◌, String, arith, ◌==◌, if◌then◌else◌, length,
  string_key,
}
use text.Mathlib.TextEquality.{eq_iff}
use openmvn.Common.Map.{lookup, lookup-insert, lookup-delete}
use openmvn.ImsiSwitch.{SwitchDecision, Receiver, on_switch, respond, is_final}
use openmvn.ImsiSwitch.Invariant.{IsValid, on_switch-IsValid, respond-IsValid}

-- What reaches the receiver: a message of the stream, a response of a device, a `GET`.
pub data Request : Type 0 where
  event : Option SwitchDecision → Request
  response : String → Option String → Request
  query : String → Request

unfoldable pub step : Request → Receiver → Receiver
step (event e) r = on_switch e r
step (response device body) r = (respond device body r).0
step (query device) r = r

unfoldable pub run : List Request → Receiver → Receiver
run [] r = r
run (req ∷ rest) r = run rest (step req r)

-- Whatever arrives, every pending entry points at a decision of its own device.
pub trace-IsValid : (reqs : List Request) (r : Receiver) → IsValid r → IsValid (run reqs r)
unfolding run step
trace-IsValid [] r h = h
trace-IsValid (event e ∷ rest) r h = trace-IsValid rest (on_switch e r) (on_switch-IsValid e r h)
trace-IsValid (response device body ∷ rest) r h =
    trace-IsValid rest (respond device body r).0 (respond-IsValid device body r h)
trace-IsValid (query device ∷ rest) r h = trace-IsValid rest r h

-- 1 for a message that brings a decision for the device.
abbrev pub brings : String → Request → ℕ
brings k (event (some e)) = if e.device_id == k then 1 else 0
brings k _ = 0

-- 1 for a final response of the device that is answered 200.
abbrev pub ends : String → Request → Receiver → ℕ
ends k (response device (some status)) r =
    if (device == k) && is_final status
    then elim (lookup device r.pending) [ none ↦ 0 | some _ ↦ 1 ]
    else 0
ends k _ r = 0

abbrev pub waiting : String → Receiver → ℕ
waiting k r = elim (lookup k r.pending) [ none ↦ 0 | some _ ↦ 1 ]

abbrev pub brought : String → List Request → ℕ
brought k [] = 0
brought k (req ∷ rest) = brings k req + brought k rest

abbrev pub ended : String → List Request → Receiver → ℕ
ended k [] r = 0
ended k (req ∷ rest) r = ends k req r + ended k rest (step req r)

respond-waiting :
    (k device status : String) (r : Receiver)
    → ends k (response device (some status)) r + waiting k (respond device (some status) r).0
      ≤ waiting k r
unfolding respond
respond-waiting k device status r =
    ground (arith, eq_iff device k, lookup-delete device k r.pending)

step-waiting :
    (k : String) (req : Request) (r : Receiver)
    → ends k req r + waiting k (step req r) ≤ brings k req + waiting k r
unfolding step on_switch
step-waiting k (event none) r = omega arith
step-waiting k (event (some e)) r =
    ground (arith, lookup-insert e.device_id k (length r.heap) r.pending)
step-waiting k (response device none) r = unfold respond in omega arith
step-waiting k (response device (some status)) r = omega (arith, respond-waiting k device status r)
step-waiting k (query device) r = omega arith

-- However messages, responses and queries interleave, a device ends its wait by a final response at
-- most once for each decision that was brought for it, counting one that waits at the start.
pub ended-le-brought :
    (k : String) (reqs : List Request) (r : Receiver)
    → ended k reqs r ≤ brought k reqs + waiting k r
ended-le-brought k [] r = omega arith
ended-le-brought k (req ∷ rest) r =
    omega (arith, step-waiting k req r, ended-le-brought k rest (step req r))
