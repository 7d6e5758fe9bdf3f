-- ===== src/SmfSession/Refinement.antt =====
-- The session manager of pkg/smf/session.go on a Redis that works, against a specification that knows
-- one IMSI and its session, and neither keys nor encodings.
use openmvn.Common.{
  true≢false, none≢some, ℕ, ◌≡◌, ◌≢◌, refl, sym, ap, ◌∙◌, Bool, true, false, Option, none, some,
  List, [], ◌∷◌, String, arith, if◌then◌else◌, inl, inr, Option-cases, ◌==◌, string_key, beq→eq,
  beq_self, Bool-cases,
}
use mathlib.Core.Path.{subst}
use openmvn.Common.Clock.{Time}
use openmvn.SmfSession.{
  modifying, Session, Reply, found, missing, failed, Redis, Json, Error, Result, ok, error, Request,
  new_session, store_session, create_session, get_session, delete_session,
  handle_create_session_request, handle_delete_session_request, handle_modify_bearer_request, Call,
  create_request, delete_request, modify_request, serve, serve_all, session_key, session_ttl,
  decoded,
}
use openmvn.SmfSession.Store.{
  Laws, stored, decode, get_session-stored, store_session-done, delete_session-done,
}
use openmvn.SmfSession.Handlers.{
  Result-cases, create_known, create_new, delete_known, delete_unknown, modify_known,
  modify_unknown, IsKeyed,
}
use openmvn.SmfSession.Keyed.{imsi_of, serve-other, serve-IsKeyed}

abbrev pub names_imsi : String → Option String → Bool
names_imsi k none = false
names_imsi k (some imsi) = imsi == k

-- The request names the IMSI.
abbrev pub names : String → Call → Bool
names k c = names_imsi k (imsi_of c)

-- What a request that names the IMSI makes of its session.
abbrev pub own_effect : String → Call → Option Session → Option Session
own_effect k (create_request req uuid now) none =
    some (new_session k req.sender_teid req.sender_addr uuid now)
own_effect k (create_request req uuid now) (some s) = some s
own_effect k (delete_request req) o = none
own_effect k (modify_request req now) none = none
own_effect k (modify_request req now) (some s) =
    some (record s { state = modifying; last_updated = now 1 })

abbrev pub effect : String → Call → Option Session → Option Session
effect k c o = if names k c then own_effect k c o else o

abbrev pub effects : String → List Call → Option Session → Option Session
effects k [] o = o
effects k (c ∷ cs) o = effects k cs (effect k c o)

abbrev pub answer_of : {Bytes : Type 0} → Option Bytes → Reply Bytes
answer_of none = missing
answer_of (some b) = found b

-- Redis answers every call, and every session can be encoded.
pub record Works {Db Bytes : Type 0} (r : Redis Db Bytes) (j : Json Bytes) (laws : Laws r j)
    : Type 0 where
  pub gets : (db : Db) (k : String) → r.get db k ≡ answer_of (laws.contents db k)
  pub sets : (db : Db) (k : String) (b : Bytes) (ttl : ℕ) → (r.set db k b ttl).1 ≡ true
  pub dels : (db : Db) (k : String) → (r.del db k).1 ≡ true
  pub encodes : (s : Session) → (b : Bytes) × (j.marshal s ≡ some b)

pub names_imsi-other : (k : String) (o : Option String) → names_imsi k o ≡ false → o ≢ some k
names_imsi-other k o h e = true≢false (sym (ap (names_imsi k) e ∙ beq_self k) ∙ h)

pub names_imsi-own : (k : String) (o : Option String) → names_imsi k o ≡ true → o ≡ some k
names_imsi-own k none h = ground arith
names_imsi-own k (some imsi) h = ap some (beq→eq imsi k h)

module _ {Db Bytes : Type 0} (r : Redis Db Bytes) (j : Json Bytes) (laws : Laws r j)
    (w : Works r j laws) where
  pub get_session-none :
      (k : String) (db : Db)
      → stored r j laws db k ≡ none
      → (e : Error) × (get_session r j k db ≡ error e)
  get_session-none k db h = elim (Result-cases (get_session r j k db)) [
    | inl bad ↦ bad
    | inr (s, got) ↦ absurd (none≢some (sym h ∙ get_session-stored r j laws k db s got))
  ]

  pub get_session-some :
      (k : String) (db : Db) (s : Session)
      → stored r j laws db k ≡ some s
      → get_session r j k db ≡ ok s
  unfolding get_session
  get_session-some k db s h =
      rw (get_session, w.gets db (session_key k)) (go (laws.contents db (session_key k)) h)
    where
      go :
          (o : Option Bytes)
          → decode r j laws o ≡ some s
          → elim (answer_of o) as (λ _. Result Session) [
            | found bytes ↦ decoded r j (j.unmarshal bytes)
            | missing ↦ error Error.not_found
            | failed ↦ error Error.get_failed
          ]
            ≡ ok s
      go none p = ground arith
      go (some b) p = rw p refl

  pub store_session-works : (s : Session) (db : Db) → (store_session r j s db).1 ≡ ok tt
  unfolding store_session
  store_session-works s db =
      let (b, e) = w.encodes s in
      rw (store_session, e, w.sets db (session_key s.imsi) b session_ttl) refl

  pub delete_session-works : (k : String) (db : Db) → (delete_session r j k db).1 ≡ ok tt
  unfolding delete_session
  delete_session-works k db = rw (w.dels db (session_key k)) refl

  create-effect :
      (req : Request) (uuid : String) (now : ℕ → Time) (k : String) (db : Db)
      → req.imsi ≡ some k
      → stored r j laws (handle_create_session_request r j req uuid now db).0 k
        ≡ own_effect k (create_request req uuid now) (stored r j laws db k)
  unfolding create_session
  create-effect req uuid now k db named = elim (Option-cases (stored r j laws db k)) [
    | inr (s, there) ↦
        ap (λ p. stored r j laws p.0 k)
          (create_known r j req k uuid now db s named (get_session-some k db s there))
        ∙ there
        ∙ sym (ap (own_effect k (create_request req uuid now)) there)
    | inl absent ↦
        let (e, got) = get_session-none k db absent in
        let new = new_session k req.sender_teid req.sender_addr uuid now in
        ap (λ p. stored r j laws p.0 k) (create_new r j req k uuid now db e named got)
        ∙ store_session-done r j laws new db (store_session-works new db)
        ∙ sym (ap (own_effect k (create_request req uuid now)) absent)
  ]

  delete-effect :
      (req : Request) (k : String) (db : Db)
      → req.imsi ≡ some k
      → stored r j laws (handle_delete_session_request r j req db).0 k ≡ none
  delete-effect req k db named = elim (Option-cases (stored r j laws db k)) [
    | inr (s, there) ↦
        ap (λ p. stored r j laws p.0 k)
          (delete_known r j req k db s named (get_session-some k db s there))
        ∙ delete_session-done r j laws k db (delete_session-works k db)
    | inl absent ↦
        let (e, got) = get_session-none k db absent in
        ap (λ p. stored r j laws p.0 k) (delete_unknown r j req k db e named got) ∙ absent
  ]

  modify-effect :
      (req : Request) (now : ℕ → Time) (k : String) (db : Db)
      → IsKeyed r j laws db
      → req.imsi ≡ some k
      → stored r j laws (handle_modify_bearer_request r j req now db).0 k
        ≡ own_effect k (modify_request req now) (stored r j laws db k)
  modify-effect req now k db keyed named = elim (Option-cases (stored r j laws db k)) [
    | inr (s, there) ↦
        let new = record s { state = modifying; last_updated = now 1 } in
        let known = modify_known r j req k now db s named (get_session-some k db s there) in
        let kept = store_session-done r j laws new db (store_session-works new db) in
        ap (λ p. stored r j laws p.0 k) known
        ∙ subst (λ i. stored r j laws (store_session r j new db).0 i ≡ some new) (keyed k s there)
            kept
        ∙ sym (ap (own_effect k (modify_request req now)) there)
    | inl absent ↦
        let (e, got) = get_session-none k db absent in
        ap (λ p. stored r j laws p.0 k) (modify_unknown r j req k now db e named got)
        ∙ absent
        ∙ sym (ap (own_effect k (modify_request req now)) absent)
  ]

  serve-own :
      (c : Call) (k : String) (db : Db)
      → IsKeyed r j laws db
      → imsi_of c ≡ some k
      → stored r j laws (serve r j c db) k ≡ own_effect k c (stored r j laws db k)
  unfolding serve
  serve-own (create_request req uuid now) k db keyed named = create-effect req uuid now k db named
  serve-own (delete_request req) k db keyed named = delete-effect req k db named
  serve-own (modify_request req now) k db keyed named = modify-effect req now k db keyed named

  serve-effect :
      (c : Call) (k : String) (db : Db)
      → IsKeyed r j laws db
      → stored r j laws (serve r j c db) k ≡ effect k c (stored r j laws db k)
  serve-effect c k db keyed = elim (Bool-cases (names k c)) [
    | inl own ↦ rw own (serve-own c k db keyed (names_imsi-own k (imsi_of c) own))
    | inr other ↦
        rw other (serve-other r j laws c db k keyed (names_imsi-other k (imsi_of c) other))
  ]

  -- On a Redis that works, any sequence of requests leaves for an IMSI what the requests that name it
  -- make of its session, in their order: the first creation makes it, a modification marks it, a
  -- deletion removes it, and requests for other IMSIs do not matter.
  pub serve_all-refines :
      (k : String) (cs : List Call) (db : Db)
      → IsKeyed r j laws db
      → stored r j laws (serve_all r j cs db) k ≡ effects k cs (stored r j laws db k)
  unfolding serve_all
  serve_all-refines k [] db keyed = refl
  serve_all-refines k (c ∷ cs) db keyed =
      serve_all-refines k cs (serve r j c db) (serve-IsKeyed r j laws c db keyed)
      ∙ ap (effects k cs) (serve-effect c k db keyed)
