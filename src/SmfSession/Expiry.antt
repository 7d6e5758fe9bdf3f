-- ===== src/SmfSession/Expiry.antt =====
-- The sessions of pkg/smf/session.go in time: each write gives Redis an expiry of 24 hours.
pub mod Refinement
mod Tests
use openmvn.Common.{
  ◌<◌, ◌≤◌, if◌then◌else◌, ℕ, ◌-◌, ◌≡◌, ◌≢◌, refl, sym, ◌∙◌, true, false, Option, none, some, List,
  [], ◌∷◌, String, arith, ltb,
}
use mathlib.Core.Option.{some-injective}
use openmvn.SmfSession.{
  modifying, Session, Redis, Json, Result, ok, error, new_session, get_session, Call,
  create_request, delete_request, modify_request, session_ttl,
}
use openmvn.SmfSession.Store.{Laws, get_session-stored}
use openmvn.SmfSession.Handlers.{IsKeyed}
use openmvn.SmfSession.Refinement.{names}
use openmvn.SmfSession.Interleaving.{Write, no_write, store, remove, after_read}

-- Redis counts down the seconds that each key has left: a `Set` that succeeds starts its count, no other
-- key's count is touched, and a key whose count has run out is gone. `wait d` is Redis `d` seconds later.
pub record Expires {Db Bytes : Type 0} (r : Redis Db Bytes) (j : Json Bytes) (laws : Laws r j)
    : Type 0 where
  pub wait : ℕ → Db → Db
  pub remaining : Db → String → ℕ
  pub set_starts :
      (db : Db) (k : String) (b : Bytes) (ttl : ℕ)
      → (r.set db k b ttl).1 ≡ true
      → remaining (r.set db k b ttl).0 k ≡ ttl
  pub set_elsewhere :
      (db : Db) (k k' : String) (b : Bytes) (ttl : ℕ)
      → k' ≢ k
      → remaining (r.set db k b ttl).0 k' ≡ remaining db k'
  pub del_elsewhere :
      (db : Db) (k k' : String) → k' ≢ k → remaining (r.del db k).0 k' ≡ remaining db k'
  pub wait_keeps :
      (d : ℕ) (db : Db) (k : String)
      → d < remaining db k
      → (laws.contents (wait d db) k ≡ laws.contents db k)
        × (remaining (wait d db) k ≡ remaining db k - d)
  pub wait_drops :
      (d : ℕ) (db : Db) (k : String) → remaining db k ≤ d → laws.contents (wait d db) k ≡ none

-- A request, or some seconds without one.
pub data Event : Type 0 where
  call : Call → Event
  pause : ℕ → Event

-- What a request that names the IMSI makes of its session and the seconds it has left.
abbrev pub own_lasting : String → Call → Option (Session × ℕ) → Option (Session × ℕ)
own_lasting k (create_request req uuid now) none =
    some (new_session k req.sender_teid req.sender_addr uuid now, session_ttl)
own_lasting k (create_request req uuid now) (some p) = some p
own_lasting k (delete_request req) o = none
own_lasting k (modify_request req now) none = none
own_lasting k (modify_request req now) (some (s, left)) =
    some (record s { state = modifying; last_updated = now 1 }, session_ttl)

abbrev pub elapse : ℕ → Option (Session × ℕ) → Option (Session × ℕ)
elapse d none = none
elapse d (some (s, left)) = if ltb d left then some (s, left - d) else none

abbrev pub lasting_effect : String → Event → Option (Session × ℕ) → Option (Session × ℕ)
lasting_effect k (call c) o = if names k c then own_lasting k c o else o
lasting_effect k (pause d) o = elapse d o

abbrev pub lasting_effects : String → List Event → Option (Session × ℕ) → Option (Session × ℕ)
lasting_effects k [] o = o
lasting_effects k (e ∷ es) o = lasting_effects k es (lasting_effect k e o)

abbrev pub lasting : Option Session → ℕ → Option (Session × ℕ)
lasting none left = none
lasting (some s) left = some (s, left)

pub elapse_kept :
    (d left : ℕ) (o : Option Session)
    → ltb d left ≡ true
    → lasting o (left - d) ≡ elapse d (lasting o left)
elapse_kept d left none h = refl
elapse_kept d left (some s) h = rw h refl

pub elapse_gone :
    (d left : ℕ) (o : Option Session) → ltb d left ≡ false → none ≡ elapse d (lasting o left)
elapse_gone d left none h = refl
elapse_gone d left (some s) h = rw h refl
