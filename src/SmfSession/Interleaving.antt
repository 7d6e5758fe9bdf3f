-- ===== src/SmfSession/Interleaving.antt =====
-- The handlers of pkg/smf/session.go run in goroutines of their own, and the mutex of the manager is never
-- locked: between a handler's read of Redis and its write, other handlers run.
use openmvn.Common.{
  none≢some, ◌≢◌, ◌≡◌, refl, sym, ap, ◌∙◌, Option, none, some, List, ◌∷◌, ◌++◌, String, inl, inr,
  Option-cases,
}
use openmvn.SmfSession.{
  modifying, Session, Redis, Json, Result, ok, error, new_session, store_session, get_session,
  delete_session, Call, create_request, delete_request, modify_request, serve, create_session,
}
use mathlib.Core.Option.{some-injective}
use openmvn.SmfSession.Store.{Laws, get_session-stored}
use openmvn.SmfSession.Handlers.{
  create_unnamed, delete_unnamed, modify_unnamed, create_known, create_new, delete_known,
  delete_unknown, modify_known, modify_unknown, IsKeyed,
}
use openmvn.SmfSession.Keyed.{imsi_of, store-IsKeyed, remove-IsKeyed}

-- What a handler has still to write after its read.
pub data Write : Type 0 where
  no_write : Write
  store : Session → Write
  remove : String → Write

abbrev pub after_read : Call → String → Result Session → Write
after_read (create_request req uuid now) imsi (ok _) = no_write
after_read (create_request req uuid now) imsi (error _) =
    store (new_session imsi req.sender_teid req.sender_addr uuid now)
after_read (delete_request req) imsi (ok _) = remove imsi
after_read (delete_request req) imsi (error _) = no_write
after_read (modify_request req now) imsi (ok s) =
    store (record s { state = modifying; last_updated = now 1 })
after_read (modify_request req now) imsi (error _) = no_write

-- The IMSI that a write touches.
abbrev pub touched : Write → Option String
touched no_write = none
touched (store s) = some s.imsi
touched (remove imsi) = some imsi

module _ {Db Bytes : Type 0} (r : Redis Db Bytes) (j : Json Bytes) where
  read_named : Option String → Call → Db → Write
  unfolding get_session
  read_named none c db = no_write
  read_named (some imsi) c db = after_read c imsi (get_session r j imsi db)

  -- The first half of a handler.
  unfoldable pub read : Call → Db → Write
  unfolding read_named
  read c db = read_named (imsi_of c) c db

  -- The second half.
  unfoldable pub write : Write → Db → Db
  unfolding store_session delete_session
  write no_write db = db
  write (store s) db = (store_session r j s db).0
  write (remove imsi) db = (delete_session r j imsi db).0

  pub read-named :
      (c : Call) (imsi : String) (db : Db)
      → imsi_of c ≡ some imsi
      → read c db ≡ after_read c imsi (get_session r j imsi db)
  unfolding read read_named
  read-named c imsi db named = rw (read, named) refl

  pub read-unnamed : (c : Call) (db : Db) → imsi_of c ≡ none → read c db ≡ no_write
  unfolding read read_named
  read-unnamed c db unnamed = rw (read, unnamed) refl

  pub halves :
      (c : Call) (imsi : String) (db : Db) (x : Result Session)
      → imsi_of c ≡ some imsi
      → get_session r j imsi db ≡ x
      → serve r j c db ≡ write (after_read c imsi x) db
  unfolding serve write create_session
  halves (create_request req uuid now) imsi db (ok old) named got =
      ap (λ p. p.0) (create_known r j req imsi uuid now db old named got)
  halves (create_request req uuid now) imsi db (error e) named got =
      ap (λ p. p.0) (create_new r j req imsi uuid now db e named got)
  halves (delete_request req) imsi db (ok old) named got =
      ap (λ p. p.0) (delete_known r j req imsi db old named got)
  halves (delete_request req) imsi db (error e) named got =
      ap (λ p. p.0) (delete_unknown r j req imsi db e named got)
  halves (modify_request req now) imsi db (ok old) named got =
      ap (λ p. p.0) (modify_known r j req imsi now db old named got)
  halves (modify_request req now) imsi db (error e) named got =
      ap (λ p. p.0) (modify_unknown r j req imsi now db e named got)

  pub halves_unnamed : (c : Call) (db : Db) → imsi_of c ≡ none → serve r j c db ≡ db
  unfolding serve
  halves_unnamed (create_request req uuid now) db unnamed =
      ap (λ p. p.0) (create_unnamed r j req uuid now db unnamed)
  halves_unnamed (delete_request req) db unnamed = ap (λ p. p.0) (delete_unnamed r j req db unnamed)
  halves_unnamed (modify_request req now) db unnamed =
      ap (λ p. p.0) (modify_unnamed r j req now db unnamed)

  -- Without interruption, the two halves are the handler.
  pub write-read : (c : Call) (db : Db) → write (read c db) db ≡ serve r j c db
  unfolding write
  write-read c db = elim (Option-cases (imsi_of c)) [
    | inl unnamed ↦
        ap (λ w. write w db) (read-unnamed c db unnamed) ∙ sym (halves_unnamed c db unnamed)
    | inr (imsi, named) ↦
        ap (λ w. write w db) (read-named c imsi db named)
        ∙ sym (halves c imsi db (get_session r j imsi db) named refl)
  ]

-- Redis, and the handlers that have read and not yet written.
pub record World (Db : Type 0) : Type 0 where
  pub db : Db
  pub pending : List Write

module _ {Db Bytes : Type 0} (r : Redis Db Bytes) (j : Json Bytes) where
  -- A handler starts and reads, or one of the others writes and ends.
  pub data Step (w : World Db) : World Db → Type 0 where
    starts : (c : Call) → Step w (record w { pending = read r j c w.db ∷ w.pending })
    ends :
        (xs ys : List Write) (x : Write)
        → w.pending ≡ xs ++ x ∷ ys
        → Step w (record { db = write r j x w.db; pending = xs ++ ys })

  pub data Reach (s : World Db) : World Db → Type 0 where
    here : Reach s s
    next : {t u : World Db} → Reach s t → Step t u → Reach s u

module _ {Db Bytes : Type 0} (r : Redis Db Bytes) (j : Json Bytes) (laws : Laws r j) where
  write-IsKeyed : (x : Write) (db : Db) → IsKeyed r j laws db → IsKeyed r j laws (write r j x db)
  unfolding write
  write-IsKeyed no_write db h = h
  write-IsKeyed (store s) db h = store-IsKeyed r j laws s db h
  write-IsKeyed (remove imsi) db h = remove-IsKeyed r j laws imsi db h

  -- However the reads and writes of the handlers interleave, and whichever calls of Redis fail, every
  -- stored session stays under its own IMSI.
  pub Reach-IsKeyed :
      {s w : World Db} → IsKeyed r j laws s.db → Reach r j s w → IsKeyed r j laws w.db
  Reach-IsKeyed h here = h
  Reach-IsKeyed h (next path (starts c)) = Reach-IsKeyed h path
  Reach-IsKeyed h (next {t} path (ends xs ys x e)) = write-IsKeyed x t.db (Reach-IsKeyed h path)

module _ {Db Bytes : Type 0} (r : Redis Db Bytes) (j : Json Bytes) (laws : Laws r j) where
  -- A write touches the IMSI of its request, or nothing.
  pub touched-after_read :
      (c : Call) (i k : String) (db : Db) (x : Result Session)
      → IsKeyed r j laws db
      → get_session r j i db ≡ x
      → i ≢ k
      → touched (after_read c i x) ≢ some k
  touched-after_read (create_request req uuid now) i k db (ok s) keyed got ne = λ e. none≢some e
  touched-after_read (create_request req uuid now) i k db (error f) keyed got ne =
      λ e. ne (some-injective _ _ e)
  touched-after_read (delete_request req) i k db (ok s) keyed got ne =
      λ e. ne (some-injective _ _ e)
  touched-after_read (delete_request req) i k db (error f) keyed got ne = λ e. none≢some e
  touched-after_read (modify_request req now) i k db (ok s) keyed got ne =
      λ e. ne (sym (keyed i s (get_session-stored r j laws i db s got)) ∙ some-injective _ _ e)
  touched-after_read (modify_request req now) i k db (error f) keyed got ne = λ e. none≢some e
