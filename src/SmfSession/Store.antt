-- ===== src/SmfSession/Store.antt =====
-- What pkg/smf/session.go relies on of Redis and of the JSON encoder, and the store of sessions that
-- its methods make of them.
use openmvn.Common.{
  ℕ, ◌≡◌, ◌≢◌, refl, Bool, true, false, Option, none, some, String, arith, if◌then◌else◌, ◌⊎◌, inl,
  inr, Option-cases,
}
use text.Mathlib.TextLemmas.{append_cancel_left}
use openmvn.SmfSession.{
  Session, Reply, found, missing, failed, Redis, Json, Error, Result, ok, error, session_key,
  session_ttl, set_outcome, store_session, get_session, decoded, delete_session,
}

-- Redis as a map from keys to values, no value expiring in between: a `Get` that answers tells what is
-- there; a `Set` or a `Del` touches its own key alone, has its effect if it succeeds, and has it or not
-- if it fails. A session that has been encoded is decoded to itself.
pub record Laws {Db Bytes : Type 0} (r : Redis Db Bytes) (j : Json Bytes) : Type 0 where
  pub contents : Db → String → Option Bytes
  pub get_found : (db : Db) (k : String) (b : Bytes) → r.get db k ≡ found b → contents db k ≡ some b
  pub set_done :
      (db : Db) (k : String) (b : Bytes) (ttl : ℕ)
      → (r.set db k b ttl).1 ≡ true
      → contents (r.set db k b ttl).0 k ≡ some b
  pub set_either :
      (db : Db) (k : String) (b : Bytes) (ttl : ℕ)
      → (contents (r.set db k b ttl).0 k ≡ some b)
        ⊎ (contents (r.set db k b ttl).0 k ≡ contents db k)
  pub set_other :
      (db : Db) (k k' : String) (b : Bytes) (ttl : ℕ)
      → k' ≢ k
      → contents (r.set db k b ttl).0 k' ≡ contents db k'
  pub del_done : (db : Db) (k : String) → (r.del db k).1 ≡ true → contents (r.del db k).0 k ≡ none
  pub del_either :
      (db : Db) (k : String)
      → (contents (r.del db k).0 k ≡ none) ⊎ (contents (r.del db k).0 k ≡ contents db k)
  pub del_other : (db : Db) (k k' : String) → k' ≢ k → contents (r.del db k).0 k' ≡ contents db k'
  pub round_trip : (s : Session) (b : Bytes) → j.marshal s ≡ some b → j.unmarshal b ≡ some s

pub session_key-ne : (a b : String) → a ≢ b → session_key a ≢ session_key b
session_key-ne a b ne e = ne (append_cancel_left "session:" a b e)

module _ {Db Bytes : Type 0} (r : Redis Db Bytes) (j : Json Bytes) (laws : Laws r j) where
  -- What a value decodes to.
  abbrev pub decode : Option Bytes → Option Session
  decode none = none
  decode (some b) = j.unmarshal b

  -- The session that is stored for an IMSI.
  abbrev pub stored : Db → String → Option Session
  stored db imsi = decode (laws.contents db (session_key imsi))

  pub get_session-stored :
      (imsi : String) (db : Db) (s : Session)
      → get_session r j imsi db ≡ ok s
      → stored db imsi ≡ some s
  unfolding get_session
  get_session-stored imsi db s e = go (r.get db (session_key imsi)) refl e
    where
      ended : (o : Option Session) → decoded r j o ≡ ok s → o ≡ some s
      ended none h = ground arith
      ended (some t) h = ground arith

      go :
          (reply : Reply Bytes)
          → r.get db (session_key imsi) ≡ reply
          → elim reply as (λ _. Result Session) [
            | found bytes ↦ decoded r j (j.unmarshal bytes)
            | missing ↦ error Error.not_found
            | failed ↦ error Error.get_failed
          ]
            ≡ ok s
          → stored db imsi ≡ some s
      go (found b) got h = rw (laws.get_found db (session_key imsi) b got) (ended (j.unmarshal b) h)
      go missing got h = ground arith
      go failed got h = ground arith

  store_session-cases :
      (s : Session) (db : Db)
      → (store_session r j s db ≡ (db, error Error.marshal_failed))
        ⊎ ((b : Bytes) × (j.marshal s ≡ some b)
            × (store_session r j s db ≡ set_outcome (r.set db (session_key s.imsi) b session_ttl)))
  unfolding store_session
  store_session-cases s db = elim (Option-cases (j.marshal s)) [
    | inl fails ↦ inl (rw (store_session, fails) refl)
    | inr (b, e) ↦ inr (b, e, rw (store_session, e) refl)
  ]

  fails : {e : Error} → Path (Result (Unit {0})) (error e) (ok tt) → ⊥
  fails h = ground arith

  sent :
      (e : Error) (b : Bool)
      → Path (Result (Unit {0})) (if b then ok tt else error e) (ok tt)
      → b ≡ true
  sent e true h = refl
  sent e false h = absurd (fails h)

  -- Storing: the session is what is stored for its IMSI from then on, if the method succeeds.
  pub store_session-done :
      (s : Session) (db : Db)
      → (store_session r j s db).1 ≡ ok tt
      → stored (store_session r j s db).0 s.imsi ≡ some s
  store_session-done s db h = elim (store_session-cases s db) [
    | inl e ↦ absurd (fails (rw e at h))
    | inr (b, m, e) ↦
        rw
          (
            e,
            laws.set_done db (session_key s.imsi) b session_ttl
                (sent _ (r.set db (session_key s.imsi) b session_ttl).1 (rw e at h)),
          )
          (laws.round_trip s b m)
  ]

  -- Whether it succeeds or not, no other IMSI is touched.
  pub store_session-other :
      (s : Session) (db : Db) (imsi : String)
      → imsi ≢ s.imsi
      → stored (store_session r j s db).0 imsi ≡ stored db imsi
  store_session-other s db imsi ne = elim (store_session-cases s db) [
    | inl e ↦ rw e refl
    | inr (b, _, e) ↦
        rw
          (
            e,
            laws.set_other db (session_key s.imsi) (session_key imsi) b session_ttl
                (session_key-ne imsi s.imsi ne),
          )
          refl
  ]

  -- If it fails, the IMSI has the session or what it had.
  pub store_session-either :
      (s : Session) (db : Db)
      → (stored (store_session r j s db).0 s.imsi ≡ some s)
        ⊎ (stored (store_session r j s db).0 s.imsi ≡ stored db s.imsi)
  store_session-either s db = elim (store_session-cases s db) [
    | inl e ↦ inr (rw e refl)
    | inr (b, m, e) ↦ rw e (elim (laws.set_either db (session_key s.imsi) b session_ttl) [
      | inl written ↦ inl (rw written (laws.round_trip s b m))
      | inr kept ↦ inr (rw kept refl)
    ])
  ]

  pub delete_session-done :
      (imsi : String) (db : Db)
      → (delete_session r j imsi db).1 ≡ ok tt
      → stored (delete_session r j imsi db).0 imsi ≡ none
  unfolding delete_session
  delete_session-done imsi db h =
      rw (laws.del_done db (session_key imsi) (sent _ (r.del db (session_key imsi)).1 h)) refl

  pub delete_session-other :
      (imsi : String) (db : Db) (imsi' : String)
      → imsi' ≢ imsi
      → stored (delete_session r j imsi db).0 imsi' ≡ stored db imsi'
  unfolding delete_session
  delete_session-other imsi db imsi' ne =
      rw (laws.del_other db (session_key imsi) (session_key imsi') (session_key-ne imsi' imsi ne))
        refl

  pub delete_session-either :
      (imsi : String) (db : Db)
      → (stored (delete_session r j imsi db).0 imsi ≡ none)
        ⊎ (stored (delete_session r j imsi db).0 imsi ≡ stored db imsi)
  unfolding delete_session
  delete_session-either imsi db = elim (laws.del_either db (session_key imsi)) [
    | inl gone ↦ inl (rw gone refl)
    | inr kept ↦ inr (rw kept refl)
  ]
