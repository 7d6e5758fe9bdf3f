-- ===== src/SmfSession/Keyed.antt =====
-- The session manager of pkg/smf/session.go stores each session for its own IMSI, and answers a Create
-- Session Request.
use openmvn.Common.{
  none≢some, ◌≢◌, ℕ, ◌≡◌, refl, sym, ap, ◌∙◌, true, Option, some, List, [], ◌∷◌, String, ◌⊎◌, inl,
  inr, Option-cases, ◌==◌, string_key, beq→eq, beq→ne, Bool-cases,
}
use mathlib.Core.Option.{some-injective}
use openmvn.Common.Clock.{Time}
use openmvn.SmfSession.{
  modifying, Session, Redis, Json, Error, ok, error, Request, new_session, store_session,
  create_session, get_session, session_key, session_ttl, delete_session,
  handle_create_session_request, Call, create_request, delete_request, modify_request, serve,
  serve_all,
}
use openmvn.SmfSession.Store.{
  get_session-stored, Laws, stored, store_session-other, store_session-either, delete_session-other,
  delete_session-either,
}
use openmvn.SmfSession.Handlers.{
  Result-cases, create_unnamed, delete_unnamed, modify_unnamed, create_known, create_new,
  delete_known, delete_unknown, modify_known, modify_unknown, IsKeyed, handle_create-stores,
}

-- The IMSI that a request names.
abbrev pub imsi_of : Call → Option String
imsi_of (create_request req uuid now) = req.imsi
imsi_of (delete_request req) = req.imsi
imsi_of (modify_request req now) = req.imsi

elsewhere :
    (o : Option String) (imsi other : String) → o ≡ some imsi → o ≢ some other → other ≢ imsi
elsewhere o imsi other e ne same = ne (e ∙ ap some (sym same))

module _ {Db Bytes : Type 0} (r : Redis Db Bytes) (j : Json Bytes) (laws : Laws r j) where
  pub store-IsKeyed :
      (s : Session) (db : Db) → IsKeyed r j laws db → IsKeyed r j laws (store_session r j s db).0
  store-IsKeyed s db keyed imsi t h = elim (Bool-cases (imsi == s.imsi)) [
    | inr apart ↦
        keyed imsi t (sym (store_session-other r j laws s db imsi (beq→ne imsi s.imsi apart)) ∙ h)
    | inl same ↦ own (beq→eq imsi s.imsi same)
  ]
    where
      own : imsi ≡ s.imsi → t.imsi ≡ imsi
      own e = elim (store_session-either r j laws s db) [
        | inl written ↦ ap (λ x. x.imsi) (some-injective _ _ (sym (here e) ∙ written)) ∙ sym e
        | inr kept ↦ keyed imsi t (ap (stored r j laws db) e ∙ sym kept ∙ here e)
      ]
        where
          here : imsi ≡ s.imsi → stored r j laws (store_session r j s db).0 s.imsi ≡ some t
          here e = sym (ap (stored r j laws (store_session r j s db).0) e) ∙ h

  pub remove-IsKeyed :
      (imsi : String) (db : Db)
      → IsKeyed r j laws db
      → IsKeyed r j laws (delete_session r j imsi db).0
  remove-IsKeyed imsi db keyed other t h = elim (Bool-cases (other == imsi)) [
    | inr apart ↦
        keyed other t
          (sym (delete_session-other r j laws imsi db other (beq→ne other imsi apart)) ∙ h)
    | inl same ↦ own (beq→eq other imsi same)
  ]
    where
      own : other ≡ imsi → t.imsi ≡ other
      own e = elim (delete_session-either r j laws imsi db) [
        | inl gone ↦ absurd (none≢some (sym gone ∙ here e))
        | inr kept ↦ keyed other t (ap (stored r j laws db) e ∙ sym kept ∙ here e)
      ]
        where
          here : other ≡ imsi → stored r j laws (delete_session r j imsi db).0 imsi ≡ some t
          here e = sym (ap (stored r j laws (delete_session r j imsi db).0) e) ∙ h

  pub serve-IsKeyed : (c : Call) (db : Db) → IsKeyed r j laws db → IsKeyed r j laws (serve r j c db)
  unfolding serve create_session
  serve-IsKeyed (create_request req uuid now) db keyed = elim (Option-cases req.imsi) [
    | inl unnamed ↦ rw (serve, create_unnamed r j req uuid now db unnamed) keyed
    | inr (imsi, named) ↦ elim (Result-cases (get_session r j imsi db)) [
      | inl (e, got) ↦
          rw (serve, create_new r j req imsi uuid now db e named got)
            (store-IsKeyed (new_session imsi req.sender_teid req.sender_addr uuid now) db keyed)
      | inr (old, got) ↦ rw (serve, create_known r j req imsi uuid now db old named got) keyed
    ]
  ]
  serve-IsKeyed (delete_request req) db keyed = elim (Option-cases req.imsi) [
    | inl unnamed ↦ rw (serve, delete_unnamed r j req db unnamed) keyed
    | inr (imsi, named) ↦ elim (Result-cases (get_session r j imsi db)) [
      | inl (e, got) ↦ rw (serve, delete_unknown r j req imsi db e named got) keyed
      | inr (old, got) ↦
          rw (serve, delete_known r j req imsi db old named got) (remove-IsKeyed imsi db keyed)
    ]
  ]
  serve-IsKeyed (modify_request req now) db keyed = elim (Option-cases req.imsi) [
    | inl unnamed ↦ rw (serve, modify_unnamed r j req now db unnamed) keyed
    | inr (imsi, named) ↦ elim (Result-cases (get_session r j imsi db)) [
      | inl (e, got) ↦ rw (serve, modify_unknown r j req imsi now db e named got) keyed
      | inr (old, got) ↦
          rw (serve, modify_known r j req imsi now db old named got) (store-IsKeyed _ db keyed)
    ]
  ]

  -- Whatever requests come, and whichever of Redis's calls fail, each session stays stored for its own
  -- IMSI.
  pub serve_all-IsKeyed :
      (cs : List Call) (db : Db) → IsKeyed r j laws db → IsKeyed r j laws (serve_all r j cs db)
  unfolding serve_all
  serve_all-IsKeyed [] db keyed = keyed
  serve_all-IsKeyed (c ∷ cs) db keyed = serve_all-IsKeyed cs _ (serve-IsKeyed c db keyed)

  -- A request touches no IMSI but its own, whether it succeeds or fails, if each session is stored for
  -- its own IMSI.
  pub serve-other :
      (c : Call) (db : Db) (other : String)
      → IsKeyed r j laws db
      → imsi_of c ≢ some other
      → stored r j laws (serve r j c db) other ≡ stored r j laws db other
  unfolding serve create_session
  serve-other (create_request req uuid now) db other keyed ne = elim (Option-cases req.imsi) [
    | inl unnamed ↦ rw (serve, create_unnamed r j req uuid now db unnamed) refl
    | inr (imsi, named) ↦ elim (Result-cases (get_session r j imsi db)) [
      | inl (e, got) ↦
          rw (serve, create_new r j req imsi uuid now db e named got)
            (store_session-other r j laws
              (new_session imsi req.sender_teid req.sender_addr uuid now) db other
              (elsewhere req.imsi imsi other named ne))
      | inr (old, got) ↦ rw (serve, create_known r j req imsi uuid now db old named got) refl
    ]
  ]
  serve-other (delete_request req) db other keyed ne = elim (Option-cases req.imsi) [
    | inl unnamed ↦ rw (serve, delete_unnamed r j req db unnamed) refl
    | inr (imsi, named) ↦ elim (Result-cases (get_session r j imsi db)) [
      | inl (e, got) ↦ rw (serve, delete_unknown r j req imsi db e named got) refl
      | inr (old, got) ↦
          rw (serve, delete_known r j req imsi db old named got)
            (delete_session-other r j laws imsi db other (elsewhere req.imsi imsi other named ne))
    ]
  ]
  serve-other (modify_request req now) db other keyed ne = elim (Option-cases req.imsi) [
    | inl unnamed ↦ rw (serve, modify_unnamed r j req now db unnamed) refl
    | inr (imsi, named) ↦ elim (Result-cases (get_session r j imsi db)) [
      | inl (e, got) ↦ rw (serve, modify_unknown r j req imsi now db e named got) refl
      | inr (old, got) ↦
          rw (serve, modify_known r j req imsi now db old named got)
            (store_session-other r j laws (record old { state = modifying; last_updated = now 1 })
              db other
              λ same.
                elsewhere req.imsi imsi other named ne
                  (same ∙ keyed imsi old (get_session-stored r j laws imsi db old got)))
    ]
  ]

  -- Where Redis takes what it is given and every session can be encoded, a Create Session Request with
  -- an IMSI succeeds, and the session that it returns is the stored one.
  pub handle_create-succeeds :
      (req : Request) (imsi uuid : String) (now : ℕ → Time) (db : Db)
      → req.imsi ≡ some imsi
      → ((k : String) (b : Bytes) (ttl : ℕ) → (r.set db k b ttl).1 ≡ true)
      → ((s : Session) → (b : Bytes) × (j.marshal s ≡ some b))
      → (s : Session) × ((handle_create_session_request r j req uuid now db).1 ≡ ok s)
        × (stored r j laws (handle_create_session_request r j req uuid now db).0 imsi ≡ some s)
  unfolding create_session store_session
  handle_create-succeeds req imsi uuid now db named accepts encodes =
      let (s, done) = returns (Result-cases (get_session r j imsi db)) in
      (s, done, handle_create-stores r j laws req imsi uuid now db s named done)
    where
      new : Session
      new = new_session imsi req.sender_teid req.sender_addr uuid now

      returns :
          ((e : Error) × (get_session r j imsi db ≡ error e))
            ⊎ ((a : Session) × (get_session r j imsi db ≡ ok a))
          → (s : Session) × ((handle_create_session_request r j req uuid now db).1 ≡ ok s)
      returns (inr (old, got)) =
          (old, rw (create_known r j req imsi uuid now db old named got) refl)
      returns (inl (e, got)) =
          let (b, encoded) = encodes new in
          (
            new,
            rw (create_new r j req imsi uuid now db e named got)
                (rw (store_session, encoded, accepts (session_key imsi) b session_ttl) refl),
          )
