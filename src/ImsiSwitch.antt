-- ===== src/ImsiSwitch.antt =====
-- The IMSI switch receiver (imsi-switch-receiver/main.go): decisions that wait for a device. The map
-- holds pointers, so decisions live on a heap: `GET` reads the decision after it has released the
-- lock. Bodies and messages enter as what the JSON decoder gives for them.
pub mod Answers
pub mod Invariant
pub mod Trace
mod Tests
use openmvn.Common.{
  ℕ, ◌+◌, Bool, true, false, ◌||◌, Option, none, some, List, [], ◌∷◌, ◌++◌, String, length,
  get_elem?, set, ◌==◌, if◌then◌else◌, string_key,
}
use openmvn.Common.Map.{Map, lookup, insert, delete}
use openmvn.Common.Clock.{Time}
use openmvn.Common.Http.{
  nothing, text, json, Response, http_error, status_ok, status_bad_request, status_not_found,
}

pub record SwitchDecision : Type 0 where
  pub imsi : String
  pub old_imsi : String
  pub device_id : String
  pub reason : String
  pub time : Time
  pub status : String

-- An address is an index of the heap, which only grows; `pending` is `pendingSwitches`.
pub record Receiver : Type 0 where
  pub heap : List SwitchDecision
  pub pending : Map String ℕ

-- The handler of a message on `imsi.switch`.
unfoldable pub on_switch : Option SwitchDecision → Receiver → Receiver
on_switch none r = r
on_switch (some event) r = record {
  heap = r.heap ++ event ∷ [];
  pending = insert event.device_id (length r.heap) r.pending;
}

-- `GET /switches/{deviceID}` under the lock: the pointer.
unfoldable pub find_switch : String → Receiver → Option ℕ
find_switch device r = lookup device r.pending

-- `GET /switches/{deviceID}` after the lock: the decision is read and encoded.
unfoldable pub show_switch : Option ℕ → Receiver → Response SwitchDecision
show_switch none r = http_error "No pending switch found" status_not_found
show_switch (some p) r = elim (get_elem? r.heap p) [
  | none ↦ record { status = status_ok; body = nothing }
  | some decision ↦ record { status = status_ok; body = json decision }
]

-- A `GET` that nothing interrupts.
unfoldable pub get_switch : String → Receiver → Response SwitchDecision
unfolding find_switch show_switch
get_switch device r = show_switch (find_switch device r) r

abbrev pub is_final : String → Bool
is_final status = status == "accepted" || status == "rejected"

-- `decision.Status = response.Status`, through the pointer.
abbrev pub set_status : ℕ → String → List SwitchDecision → List SwitchDecision
set_status p status heap = elim (get_elem? heap p) [
  | none ↦ heap
  | some decision ↦ set heap p (record decision { status = status })
]

-- The part of the response handler under the lock.
decide : String → String → ℕ → Receiver → Receiver
decide device status p r = record {
  heap = set_status p status r.heap;
  pending = if is_final status then delete device r.pending else r.pending;
}

-- `POST /switches/{deviceID}/respond`
unfoldable pub respond : String → Option String → Receiver → Receiver × Response (Unit {0})
unfolding decide
respond device none r = (r, http_error "Invalid request body" status_bad_request)
respond device (some status) r = elim (lookup device r.pending) [
  | none ↦ (r, http_error "No pending switch found" status_not_found)
  | some p ↦ (decide device status p r, record { status = status_ok; body = nothing })
]

unfoldable pub health : Response (Unit {0})
health = record { status = status_ok; body = text "OK" }
