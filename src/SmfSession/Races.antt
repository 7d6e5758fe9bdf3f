-- ===== src/SmfSession/Races.antt =====
-- Interleavings of two handlers of pkg/smf/session.go that no order of the two explains, on a Redis that
-- works.
use openmvn.Common.{
  ℕ, ◌≡◌, refl, ap, ◌∙◌, Option, none, some, [], ◌∷◌, String, string_key, beq_self,
}
use mathlib.Core.Path.{subst}
use openmvn.Common.Clock.{Time}
use openmvn.SmfSession.{
  ok, modifying, Session, Redis, Json, Request, new_session, store_session, create_session,
  with_session, Call, create_request, delete_request, modify_request, serve_all,
}
use openmvn.SmfSession.Store.{Laws, stored, store_session-done}
use openmvn.SmfSession.Handlers.{IsKeyed}
use openmvn.SmfSession.Keyed.{imsi_of}
use openmvn.SmfSession.Refinement.{
  Works, own_effect, effect, get_session-some, get_session-none, store_session-works,
  serve_all-refines,
}
use openmvn.SmfSession.Interleaving.{
  store, after_read, read, write, read-named, World, Reach, starts, ends, here, next,
}

pub effect_own :
    (k : String) (c : Call) (o : Option Session)
    → imsi_of c ≡ some k
    → effect k c o ≡ own_effect k c o
effect_own k c o named = rw (effect, named, beq_self k) refl

module _ {Db Bytes : Type 0} (r : Redis Db Bytes) (j : Json Bytes) where
  abbrev pub idle : Db → World Db
  idle db = record { db = db; pending = [] }

  -- Both read, then the first writes, then the second.
  abbrev pub both_read : Call → Call → Db → World Db
  both_read c d db = idle (write r j (read r j d db) (write r j (read r j c db) db))

  both_read-Reach : (c d : Call) (db : Db) → Reach r j (idle db) (both_read c d db)
  both_read-Reach c d db =
      next
        (next (next (next here (starts c)) (starts d))
          (ends (read r j d db ∷ []) [] (read r j c db) refl))
        (ends [] [] (read r j d db) refl)

module _ {Db Bytes : Type 0} (r : Redis Db Bytes) (j : Json Bytes) (laws : Laws r j)
    (works : Works r j laws) where
  in_order :
      (c d : Call) (k : String) (db : Db)
      → IsKeyed r j laws db
      → imsi_of c ≡ some k
      → imsi_of d ≡ some k
      → stored r j laws (serve_all r j (c ∷ d ∷ []) db) k
        ≡ own_effect k d (own_effect k c (stored r j laws db k))
  in_order c d k db keyed c_named d_named =
      serve_all-refines r j laws works k (c ∷ d ∷ []) db keyed
      ∙ effect_own k d _ d_named
      ∙ ap (own_effect k d) (effect_own k c _ c_named)

  -- What the second handler stores is there in the end, whatever the first has written.
  both_read-stored :
      (c d : Call) (k : String) (db : Db) (s : Session)
      → read r j d db ≡ store s
      → s.imsi ≡ k
      → stored r j laws (both_read r j c d db).db k ≡ some s
  unfolding write
  both_read-stored c d k db s e own =
      let before = write r j (read r j c db) db in
      ap (λ x. stored r j laws (write r j x before) k) e
      ∙ subst (λ i. stored r j laws (store_session r j s before).0 i ≡ some s) own
          (store_session-done r j laws s before (store_session-works r j laws works s before))

  -- On a Redis that works, a deletion can be undone: where a Modify Bearer Request reads the session
  -- before a Delete Session Request removes it, and writes after it, the session is stored again
  -- when both have ended. In either order of the two requests it is gone.
  pub modify_undoes_delete :
      (del change : Request) (now : ℕ → Time) (k : String) (db : Db) (s : Session)
      → IsKeyed r j laws db
      → del.imsi ≡ some k
      → change.imsi ≡ some k
      → stored r j laws db k ≡ some s
      → let d = delete_request del in
        let m = modify_request change now in
        Reach r j (idle r j db) (both_read r j d m db)
        × (stored r j laws (both_read r j d m db).db k
            ≡ some (record s { state = modifying; last_updated = now 1 }))
        × (stored r j laws (serve_all r j (d ∷ m ∷ []) db) k ≡ none)
        × (stored r j laws (serve_all r j (m ∷ d ∷ []) db) k ≡ none)
  modify_undoes_delete del change now k db s keyed d_named m_named there =
      let d = delete_request del in
      let m = modify_request change now in
      (
        both_read-Reach r j d m db,
        both_read-stored d m k db (record s { state = modifying; last_updated = now 1 })
            (read-named r j m k db m_named
              ∙ ap (after_read m k) (get_session-some r j laws works k db s there))
            (keyed k s there),
        in_order d m k db keyed d_named m_named,
        in_order m d k db keyed m_named d_named,
      )

  create_session-succeeds :
      (k : String) (teid : ℕ) (addr uuid : String) (now : ℕ → Time) (db : Db)
      → (create_session r j k teid addr uuid now db).1 ≡ ok (new_session k teid addr uuid now)
  unfolding create_session
  create_session-succeeds k teid addr uuid now db =
      ap (with_session (new_session k teid addr uuid now))
        (store_session-works r j laws works (new_session k teid addr uuid now) db)

  -- On a Redis that works, two Create Session Requests for one IMSI can both store a session: where both
  -- read before either writes, each succeeds with a session of its own, and that of the second is
  -- stored in the end. In their order, the session of the first stays.
  pub create_overwrites_create :
      (first second : Request) (u v : String) (now later : ℕ → Time) (k : String) (db : Db)
      → IsKeyed r j laws db
      → first.imsi ≡ some k
      → second.imsi ≡ some k
      → stored r j laws db k ≡ none
      → let c = create_request first u now in
        let d = create_request second v later in
        Reach r j (idle r j db) (both_read r j c d db)
        × (stored r j laws (both_read r j c d db).db k
            ≡ some (new_session k second.sender_teid second.sender_addr v later))
        × ((create_session r j k first.sender_teid first.sender_addr u now db).1
            ≡ ok (new_session k first.sender_teid first.sender_addr u now))
        × ((create_session r j k second.sender_teid second.sender_addr v later
              (write r j (read r j c db) db)).1
            ≡ ok (new_session k second.sender_teid second.sender_addr v later))
        × (stored r j laws (serve_all r j (c ∷ d ∷ []) db) k
            ≡ some (new_session k first.sender_teid first.sender_addr u now))
  create_overwrites_create first second u v now later k db keyed c_named d_named absent =
      let c = create_request first u now in
      let d = create_request second v later in
      let (e, got) = get_session-none r j laws works k db absent in
      (
        both_read-Reach r j c d db,
        both_read-stored c d k db (new_session k second.sender_teid second.sender_addr v later)
            (read-named r j d k db d_named ∙ ap (after_read d k) got) refl,
        create_session-succeeds k first.sender_teid first.sender_addr u now db,
        create_session-succeeds k second.sender_teid second.sender_addr v later
            (write r j (read r j c db) db),
        in_order c d k db keyed c_named d_named
            ∙ ap (λ o. own_effect k d (own_effect k c o)) absent,
      )
