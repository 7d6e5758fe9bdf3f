-- ===== src/SmfSession/Tests.antt =====
-- The theorems on the session manager (pkg/smf/session.go) at a Redis that is a map, with sessions that
-- are their own encoding.
use openmvn.Common.{
  ℕ, ◌+◌, ◌≡◌, ◌≢◌, beq→ne, refl, sym, ap, true, Option, none, some, List, [], ◌∷◌, String, arith,
  inl, nat_key, string_key,
}
use mathlib.Core.Option.{some-injective}
use openmvn.Common.Map.{
  Map, lookup, insert, delete, lookup-insert_self, lookup-insert_ne, lookup-delete_self,
  lookup-delete_ne,
}
use openmvn.Common.Clock.{Time}
use openmvn.SmfSession.{
  Session, Reply, found, missing, Redis, Json, Error, ok, error, Request, new_session, get_session,
  handle_create_session_request, handle_delete_session_request, handle_modify_bearer_request, Call,
  create_request, delete_request, modify_request, modifying, serve_all, session_key,
}
use openmvn.SmfSession.Store.{Laws, stored}
use openmvn.SmfSession.Handlers.{IsKeyed}
use openmvn.SmfSession.Refinement.{Works, answer_of, effects}
use openmvn.SmfSession.Interleaving.{
  touched, Write, read, write, World, Reach, starts, ends, here, next, Reach-IsKeyed,
}
use openmvn.SmfSession.Races.{idle, both_read, modify_undoes_delete}
use openmvn.SmfSession.Keyed.{serve_all-IsKeyed}
use openmvn.SmfSession.Serial.{
  Serial, begins, other_starts, other_ends, own_starts, own_ends, touched-read, Serial-effects,
}

abbrev Db : Type 0
Db = Map String Session

abbrev answer : Option Session → Reply Session
answer none = missing
answer (some s) = found s

abbrev redis : Redis Db Session
redis = record {
  get = λ db k. answer (lookup k db);
  set = λ db k b ttl. (insert k b db, true);
  del = λ db k. (delete k db, true);
}

abbrev json : Json Session
json = record { marshal = λ s. some s; unmarshal = λ s. some s }

answer-found : (o : Option Session) (b : Session) → answer o ≡ found b → o ≡ some b
answer-found none b h = ground arith
answer-found (some s) b h = ground arith

laws : Laws redis json
laws = record {
  contents = λ db k. lookup k db;
  get_found = λ db k b h. answer-found (lookup k db) b h;
  set_done = λ db k b ttl h. lookup-insert_self k b db;
  set_either = λ db k b ttl. inl (lookup-insert_self k b db);
  set_other = λ db k k' b ttl ne. lookup-insert_ne k k' b db λ e. ne (sym e);
  del_done = λ db k h. lookup-delete_self k db;
  del_either = λ db k. inl (lookup-delete_self k db);
  del_other = λ db k k' ne. lookup-delete_ne k k' db λ e. ne (sym e);
  round_trip = λ s b h. ap some (sym (some-injective _ _ h));
}

abbrev subscriber : String
subscriber = "001010000000001"

abbrev req : Request
req = record { imsi = some subscriber; sender_teid = 7; sender_addr = "192.0.2.7:2123" }

abbrev uuid : String
uuid = "6f1c2d3e"

abbrev clock : ℕ → Time
clock i = 100 + i

abbrev fresh : Session
fresh = new_session subscriber 7 "192.0.2.7:2123" uuid clock

abbrev attached : Db
attached = (session_key subscriber, fresh) ∷ []

unknown : get_session redis json subscriber [] ≡ error Error.not_found
unfolding get_session lookup
unknown = refl

created : (handle_create_session_request redis json req uuid clock []).1 ≡ ok fresh
unfolding handle_create_session_request lookup
created = refl

empty-IsKeyed : IsKeyed redis json laws []
unfolding lookup laws
empty-IsKeyed imsi s h = absurd (nothing_there s h)
  where
    nothing_there : (x : Session) → Path (Option Session) none (some x) → ⊥
    nothing_there x p = ground arith

abbrev attach_and_modify : List Call
attach_and_modify = create_request req uuid clock ∷ modify_request req clock ∷ []

abbrev after_attach : Db
after_attach = serve_all redis json (create_request req uuid clock ∷ []) []

modified : (handle_modify_bearer_request redis json req clock after_attach).1 ≡ ok tt
unfolding handle_modify_bearer_request handle_create_session_request serve_all lookup insert
modified = refl

deleted : (handle_delete_session_request redis json req after_attach).1 ≡ ok tt
unfolding handle_delete_session_request handle_create_session_request serve_all lookup insert
deleted = refl

answer-answer_of : (o : Option Session) → answer o ≡ answer_of o
answer-answer_of none = refl
answer-answer_of (some s) = refl

redis-Works : Works redis json laws
unfolding laws
redis-Works = record {
  gets = λ db k. answer-answer_of (lookup k db);
  sets = λ db k b ttl. refl;
  dels = λ db k. refl;
  encodes = λ s. (s, refl);
}

after_attach-IsKeyed : IsKeyed redis json laws after_attach
after_attach-IsKeyed =
    serve_all-IsKeyed redis json laws (create_request req uuid clock ∷ []) [] empty-IsKeyed

is_attached : stored redis json laws after_attach subscriber ≡ some fresh
unfolding serve_all handle_create_session_request lookup insert laws
is_attached = refl

modify_undoes_delete_example :
    Reach redis json
      (idle redis json after_attach)
      (both_read redis json (delete_request req) (modify_request req clock) after_attach)
    × (stored redis json laws
          (both_read redis json (delete_request req) (modify_request req clock) after_attach).db
          subscriber
        ≡ some (record fresh { state = modifying; last_updated = clock 1 }))
    × (stored redis json laws
          (serve_all redis json (delete_request req ∷ modify_request req clock ∷ []) after_attach)
          subscriber
        ≡ none)
    × (stored redis json laws
          (serve_all redis json (modify_request req clock ∷ delete_request req ∷ []) after_attach)
          subscriber
        ≡ none)
modify_undoes_delete_example =
    modify_undoes_delete redis json laws redis-Works req req clock subscriber after_attach fresh
      after_attach-IsKeyed refl refl is_attached

-- A modification by its two halves.
abbrev before : World Db
before = record { db = after_attach; pending = [] }

abbrev has_read : Write
has_read = read redis json (modify_request req clock) after_attach

abbrev after : World Db
after = record { db = write redis json has_read after_attach; pending = [] }

modifies : Reach redis json before after
modifies = next (next here (starts (modify_request req clock))) (ends [] [] has_read refl)

Reach-IsKeyed_example : IsKeyed redis json laws after.db
Reach-IsKeyed_example =
    Reach-IsKeyed redis json laws {s = before} {w = after} after_attach-IsKeyed modifies

-- A modification for one IMSI, with the creation of a session for another between its halves.
abbrev other_imsi : String
other_imsi = "001010000000002"

abbrev other_request : Call
other_request =
    create_request
      (record { imsi = some other_imsi; sender_teid = 8; sender_addr = "192.0.2.8:2123" }) "7a"
      clock

apart : some other_imsi ≢ some subscriber
apart e = beq→ne other_imsi subscriber refl (some-injective _ _ e)

abbrev other_write : Write
other_write = read redis json other_request after_attach

other_write-apart : touched other_write ≢ some subscriber
other_write-apart =
    touched-read redis json laws other_request subscriber after_attach after_attach-IsKeyed apart

abbrev overlapped : World Db
overlapped = record {
  db = write redis json has_read (write redis json other_write after_attach);
  pending = [];
}

overlaps : Serial redis json subscriber before overlapped (modify_request req clock ∷ []) none
overlaps =
    own_ends
      (other_ends
        (other_starts (own_starts begins (modify_request req clock) refl) other_request apart) []
        (has_read ∷ []) other_write refl other_write-apart)
      [] [] refl

Serial-effects_example :
    stored redis json laws overlapped.db subscriber
    ≡ effects subscriber
        (modify_request req clock ∷ [])
        (stored redis json laws before.db subscriber)
Serial-effects_example =
    Serial-effects redis json laws redis-Works subscriber after_attach-IsKeyed overlaps
