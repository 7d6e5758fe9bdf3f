-- ===== src/SmfSession/Expiry/Tests.antt =====
-- The theorem on expiring sessions (pkg/smf/session.go) at a Redis that is a function from keys, with
-- sessions that are their own encoding.
use openmvn.Common.{
  ℕ, ◌+◌, ◌++◌, ◌-◌, ◌<◌, ◌≤◌, ◌≡◌, ◌≢◌, refl, sym, ap, true, Option, none, some, List, [], ◌∷◌,
  String, arith, inl, ◌==◌, string_key, if◌then◌else◌, ltb, beq_self, beq→eq, Bool-cases, inr,
  lt→ltb, le→ltb,
}
use mathlib.Core.Option.{some-injective}
use openmvn.Common.Clock.{Time}
use openmvn.SmfSession.{
  modifying, Session, Reply, found, missing, Redis, Json, Request, new_session, create_request,
  modify_request,
}
use openmvn.SmfSession.Store.{Laws}
use openmvn.SmfSession.Handlers.{IsKeyed}
use openmvn.SmfSession.Refinement.{Works, answer_of}
use openmvn.SmfSession.Expiry.{Expires, Event, call, pause, lasting_effects}
use openmvn.SmfSession.Expiry.Refinement.{view, happen_all, happen_all-refines}

abbrev Db : Type 0
Db = String → Option (Session × ℕ)

abbrev value : Option (Session × ℕ) → Option Session
value none = none
value (some (s, left)) = some s

abbrev left_of : Option (Session × ℕ) → ℕ
left_of none = 0
left_of (some (s, left)) = left

abbrev answer : Option Session → Reply Session
answer none = missing
answer (some s) = found s

abbrev put : String → Option (Session × ℕ) → Db → Db
put k o db j = if k == j then o else db j

abbrev redis : Redis Db Session
redis = record {
  get = λ db k. answer (value (db k));
  set = λ db k b ttl. (put k (some (b, ttl)) db, true);
  del = λ db k. (put k none db, true);
}

abbrev json : Json Session
json = record { marshal = λ s. some s; unmarshal = λ s. some s }

put_own : (k : String) (o : Option (Session × ℕ)) (db : Db) → put k o db k ≡ o
put_own k o db = rw (beq_self k) refl

put_other : (k k' : String) (o : Option (Session × ℕ)) (db : Db) → k' ≢ k → put k o db k' ≡ db k'
put_other k k' o db ne = elim (Bool-cases (k == k')) [
  | inl same ↦ absurd (ne (sym (beq→eq k k' same)))
  | inr other ↦ rw other refl
]

answer-found : (o : Option Session) (b : Session) → answer o ≡ found b → o ≡ some b
answer-found none b h = ground arith
answer-found (some s) b h = ground arith

laws : Laws redis json
laws = record {
  contents = λ db k. value (db k);
  get_found = λ db k b h. answer-found (value (db k)) b h;
  set_done = λ db k b ttl h. ap value (put_own k (some (b, ttl)) db);
  set_either = λ db k b ttl. inl (ap value (put_own k (some (b, ttl)) db));
  set_other = λ db k k' b ttl ne. ap value (put_other k k' (some (b, ttl)) db ne);
  del_done = λ db k h. ap value (put_own k none db);
  del_either = λ db k. inl (ap value (put_own k none db));
  del_other = λ db k k' ne. ap value (put_other k k' none db ne);
  round_trip = λ s b h. ap some (sym (some-injective _ _ h));
}

abbrev pass : ℕ → Option (Session × ℕ) → Option (Session × ℕ)
pass d none = none
pass d (some (s, left)) = if ltb d left then some (s, left - d) else none

pass_keeps :
    (d : ℕ) (o : Option (Session × ℕ))
    → d < left_of o
    → (value (pass d o) ≡ value o) × (left_of (pass d o) ≡ left_of o - d)
pass_keeps d none h = elim h [ ]
pass_keeps d (some (s, left)) h = rw (lt→ltb d left h) (refl, refl)

pass_drops : (d : ℕ) (o : Option (Session × ℕ)) → left_of o ≤ d → value (pass d o) ≡ none
pass_drops d none h = refl
pass_drops d (some (s, left)) h = rw (le→ltb d left h) refl

answer-answer_of : (o : Option Session) → answer o ≡ answer_of o
answer-answer_of none = refl
answer-answer_of (some s) = refl

redis-Works : Works redis json laws
unfolding laws
redis-Works = record {
  gets = λ db k. answer-answer_of (value (db k));
  sets = λ db k b ttl. refl;
  dels = λ db k. refl;
  encodes = λ s. (s, refl);
}

expires : Expires redis json laws
unfolding laws
expires = record {
  wait = λ d db k. pass d (db k);
  remaining = λ db k. left_of (db k);
  set_starts = λ db k b ttl done. ap left_of (put_own k (some (b, ttl)) db);
  set_elsewhere = λ db k k' b ttl ne. ap left_of (put_other k k' (some (b, ttl)) db ne);
  del_elsewhere = λ db k k' ne. ap left_of (put_other k k' none db ne);
  wait_keeps = λ d db k early. pass_keeps d (db k) early;
  wait_drops = λ d db k late. pass_drops d (db k) late;
}

abbrev empty : Db
empty k = none

empty-IsKeyed : IsKeyed redis json laws empty
unfolding laws
empty-IsKeyed imsi s h = ground arith

abbrev subscriber : String
subscriber = "001010000000001"

abbrev req : Request
req = record { imsi = some subscriber; sender_teid = 7; sender_addr = "192.0.2.7:2123" }

abbrev clock : ℕ → Time
clock i = 100 + i

abbrev fresh : Session
fresh = new_session subscriber 7 "192.0.2.7:2123" "6f1c2d3e" clock

-- An attach, and a bearer that is modified within the 24 hours of the attach.
abbrev day : List Event
day =
    call (create_request req "6f1c2d3e" clock)
    ∷ pause 80000
    ∷ call (modify_request req clock)
    ∷ pause 80000
    ∷ []

-- The session is there, and is gone 6400 seconds later.
kept :
    lasting_effects subscriber day none
    ≡ some (record fresh { state = modifying; last_updated = clock 1 }, 6400)
kept = refl

gone : lasting_effects subscriber (day ++ pause 6400 ∷ []) none ≡ none
gone = refl

happen_all-refines_example :
    view redis json laws redis-Works expires
      (happen_all redis json laws redis-Works expires day empty)
      subscriber
    ≡ lasting_effects subscriber day (view redis json laws redis-Works expires empty subscriber)
happen_all-refines_example =
    happen_all-refines redis json laws redis-Works expires subscriber day empty empty-IsKeyed
