-- ===== src/SmfSession/Handlers.antt =====
-- What the handlers of the session manager (pkg/smf/session.go) promise of the stored sessions.
use openmvn.Common.{
  ℕ, ◌≡◌, refl, sym, ap, ◌∙◌, none, some, String, arith, ◌⊎◌, inl, inr, string_key,
}
use mathlib.Core.Path.{subst}
use openmvn.Common.Clock.{Time}
use openmvn.SmfSession.{
  modifying, Session, Redis, Json, Error, Result, ok, error, Request, new_session, with_session,
  store_session, create_session, get_session, update_session, delete_session,
  handle_create_session_request, handle_delete_session_request, handle_modify_bearer_request,
}
use openmvn.SmfSession.Store.{
  Laws, stored, get_session-stored, store_session-done, delete_session-done,
}

pub Result-cases :
    {A : Type 0} (x : Result A) → ((e : Error) × (x ≡ error e)) ⊎ ((a : A) × (x ≡ ok a))
Result-cases (error e) = inl (e, refl)
Result-cases (ok a) = inr (a, refl)

not_ok : {A : Type 0} (e : Error) (a : A) → Path (Result A) (error e) (ok a) → ⊥
not_ok e a h = ground arith

pub with_session-ok :
    (s t : Session) (x : Result (Unit {0})) → with_session s x ≡ ok t → (x ≡ ok tt) × (t ≡ s)
with_session-ok s t (ok u) h = (refl, ground arith)
with_session-ok s t (error e) h = absurd (not_ok e t h)

module _ {Db Bytes : Type 0} (r : Redis Db Bytes) (j : Json Bytes) where
  pub create_unnamed :
      (req : Request) (uuid : String) (now : ℕ → Time) (db : Db)
      → req.imsi ≡ none
      → handle_create_session_request r j req uuid now db ≡ (db, error Error.no_imsi)
  unfolding handle_create_session_request
  create_unnamed req uuid now db unnamed = rw (handle_create_session_request, unnamed) refl

  pub delete_unnamed :
      (req : Request) (db : Db)
      → req.imsi ≡ none
      → handle_delete_session_request r j req db ≡ (db, error Error.no_imsi)
  unfolding handle_delete_session_request
  delete_unnamed req db unnamed = rw (handle_delete_session_request, unnamed) refl

  pub modify_unnamed :
      (req : Request) (now : ℕ → Time) (db : Db)
      → req.imsi ≡ none
      → handle_modify_bearer_request r j req now db ≡ (db, error Error.no_imsi)
  unfolding handle_modify_bearer_request
  modify_unnamed req now db unnamed = rw (handle_modify_bearer_request, unnamed) refl

  pub create_known :
      (req : Request) (imsi uuid : String) (now : ℕ → Time) (db : Db) (old : Session)
      → req.imsi ≡ some imsi
      → get_session r j imsi db ≡ ok old
      → handle_create_session_request r j req uuid now db ≡ (db, ok old)
  unfolding handle_create_session_request
  create_known req imsi uuid now db old named got =
      rw (handle_create_session_request, named, got) refl

  pub create_new :
      (req : Request) (imsi uuid : String) (now : ℕ → Time) (db : Db) (e : Error)
      → req.imsi ≡ some imsi
      → get_session r j imsi db ≡ error e
      → handle_create_session_request r j req uuid now db
        ≡ create_session r j imsi req.sender_teid req.sender_addr uuid now db
  unfolding handle_create_session_request create_session
  create_new req imsi uuid now db e named got = rw (handle_create_session_request, named, got) refl

  pub delete_known :
      (req : Request) (imsi : String) (db : Db) (old : Session)
      → req.imsi ≡ some imsi
      → get_session r j imsi db ≡ ok old
      → handle_delete_session_request r j req db ≡ delete_session r j imsi db
  unfolding handle_delete_session_request delete_session
  delete_known req imsi db old named got = rw (handle_delete_session_request, named, got) refl

  pub delete_unknown :
      (req : Request) (imsi : String) (db : Db) (e : Error)
      → req.imsi ≡ some imsi
      → get_session r j imsi db ≡ error e
      → handle_delete_session_request r j req db ≡ (db, error e)
  unfolding handle_delete_session_request
  delete_unknown req imsi db e named got = rw (handle_delete_session_request, named, got) refl

  pub modify_known :
      (req : Request) (imsi : String) (now : ℕ → Time) (db : Db) (old : Session)
      → req.imsi ≡ some imsi
      → get_session r j imsi db ≡ ok old
      → handle_modify_bearer_request r j req now db
        ≡ store_session r j (record old { state = modifying; last_updated = now 1 }) db
  unfolding handle_modify_bearer_request update_session
  modify_known req imsi now db old named got = rw (handle_modify_bearer_request, named, got) refl

  pub modify_unknown :
      (req : Request) (imsi : String) (now : ℕ → Time) (db : Db) (e : Error)
      → req.imsi ≡ some imsi
      → get_session r j imsi db ≡ error e
      → handle_modify_bearer_request r j req now db ≡ (db, error e)
  unfolding handle_modify_bearer_request
  modify_unknown req imsi now db e named got = rw (handle_modify_bearer_request, named, got) refl

module _ {Db Bytes : Type 0} (r : Redis Db Bytes) (j : Json Bytes) (laws : Laws r j) where
  -- A Create Session Request that succeeds returns the session that is stored for its IMSI from then
  -- on: the one that was there, where the store can tell it, or a new one.
  pub handle_create-stores :
      (req : Request) (imsi uuid : String) (now : ℕ → Time) (db : Db) (s : Session)
      → req.imsi ≡ some imsi
      → (handle_create_session_request r j req uuid now db).1 ≡ ok s
      → stored r j laws (handle_create_session_request r j req uuid now db).0 imsi ≡ some s
  unfolding create_session
  handle_create-stores req imsi uuid now db s named h =
      elim (Result-cases (get_session r j imsi db)) [
        | inr (old, got) ↦
            let same = create_known r j req imsi uuid now db old named got in
            rw same (get_session-stored r j laws imsi db s (got ∙ (rw same at h)))
        | inl (e, got) ↦
            let new = new_session imsi req.sender_teid req.sender_addr uuid now in
            let (done, same) =
              with_session-ok new s (store_session r j new db).1
                (rw (create_new r j req imsi uuid now db e named got) at h) in
            rw (create_new r j req imsi uuid now db e named got)
              (store_session-done r j laws new db done ∙ ap some (sym same))
      ]

  -- Any error of the lookup counts as the absence of a session: after a request that succeeds, a new
  -- session stands in the place of the stored one.
  pub handle_create-overwrites :
      (req : Request) (imsi uuid : String) (now : ℕ → Time) (db : Db) (e : Error) (s : Session)
      → req.imsi ≡ some imsi
      → get_session r j imsi db ≡ error e
      → (handle_create_session_request r j req uuid now db).1 ≡ ok s
      → (s ≡ new_session imsi req.sender_teid req.sender_addr uuid now)
        × (stored r j laws (handle_create_session_request r j req uuid now db).0 imsi
            ≡ some (new_session imsi req.sender_teid req.sender_addr uuid now))
  unfolding create_session
  handle_create-overwrites req imsi uuid now db e s named got h =
      let new = new_session imsi req.sender_teid req.sender_addr uuid now in
      let (done, same) =
        with_session-ok new s (store_session r j new db).1
          (rw (create_new r j req imsi uuid now db e named got) at h) in
      (
        same,
        rw (create_new r j req imsi uuid now db e named got)
            (store_session-done r j laws new db done),
      )

  -- A Delete Session Request that succeeds: a session was stored for its IMSI, and none is any more.
  pub handle_delete-removes :
      (req : Request) (imsi : String) (db : Db)
      → req.imsi ≡ some imsi
      → (handle_delete_session_request r j req db).1 ≡ ok tt
      → ((s : Session) × (stored r j laws db imsi ≡ some s))
        × (stored r j laws (handle_delete_session_request r j req db).0 imsi ≡ none)
  handle_delete-removes req imsi db named h = elim (Result-cases (get_session r j imsi db)) [
    | inl (e, got) ↦ absurd (not_ok e tt (rw (delete_unknown r j req imsi db e named got) at h))
    | inr (old, got) ↦ (
      (old, get_session-stored r j laws imsi db old got),
      rw (delete_known r j req imsi db old named got) (
          delete_session-done r j laws imsi db
            (rw (delete_known r j req imsi db old named got) at h)),
    )
  ]

  -- Each session is stored for its own IMSI.
  abbrev pub IsKeyed : Db → Type 0
  IsKeyed db = (imsi : String) (s : Session) → stored r j laws db imsi ≡ some s → s.imsi ≡ imsi

  -- A Modify Bearer Request that succeeds, each session being stored for its own IMSI: the session that
  -- was stored for the IMSI stays so, in the state MODIFYING and with the time of the update.
  pub handle_modify-stores :
      (req : Request) (imsi : String) (now : ℕ → Time) (db : Db)
      → IsKeyed db
      → req.imsi ≡ some imsi
      → (handle_modify_bearer_request r j req now db).1 ≡ ok tt
      → (s : Session) × (stored r j laws db imsi ≡ some s)
        × (stored r j laws (handle_modify_bearer_request r j req now db).0 imsi
            ≡ some (record s { state = modifying; last_updated = now 1 }))
  handle_modify-stores req imsi now db keyed named h =
      elim (Result-cases (get_session r j imsi db)) [
        | inl (e, got) ↦
            absurd (not_ok e tt (rw (modify_unknown r j req imsi now db e named got) at h))
        | inr (s, got) ↦
            let there = get_session-stored r j laws imsi db s got in
            let new = record s { state = modifying; last_updated = now 1 } in
            let kept =
              store_session-done r j laws new db
                (rw (modify_known r j req imsi now db s named got) at h) in
            (
              s,
              there,
              rw (modify_known r j req imsi now db s named got) (
                  subst (λ i. stored r j laws (store_session r j new db).0 i ≡ some new)
                    (keyed imsi s there) kept),
            )
      ]
