-- ===== src/SmfSession/Serial.antt =====
-- Handlers of pkg/smf/session.go that overlap, but not on one IMSI: each finds what the one before it for the
-- same IMSI has left.
use openmvn.Common.{
  none≢some, ◌≡◌, ◌≢◌, refl, sym, ap, ◌∙◌, Option, none, some, List, [], ◌∷◌, ◌++◌, String, inl,
  inr, Option-cases, string_key,
}
use mathlib.Core.Path.{subst}
use openmvn.SmfSession.{
  modifying, Session, Redis, Json, Error, ok, error, new_session, store_session, get_session, Call,
  create_request, delete_request, modify_request,
}
use openmvn.SmfSession.Store.{
  Laws, stored, store_session-done, store_session-other, delete_session-done, delete_session-other,
}
use openmvn.SmfSession.Handlers.{IsKeyed}
use openmvn.SmfSession.Keyed.{imsi_of}
use openmvn.SmfSession.Refinement.{
  Works, own_effect, effect, effects, get_session-some, get_session-none, store_session-works,
  delete_session-works,
}
use openmvn.SmfSession.Interleaving.{
  touched, touched-after_read, Write, no_write, store, remove, after_read, read, write, read-named,
  read-unnamed, World, Reach, starts, ends, here, next, Reach-IsKeyed,
}
use openmvn.SmfSession.Races.{effect_own}

-- The runs in which no two handlers for the IMSI overlap, while those for other IMSIs start and end as
-- they like: with the requests for the IMSI whose handlers have ended, in their order, and the one whose
-- handler has read and not written.
module _ {Db Bytes : Type 0} (r : Redis Db Bytes) (j : Json Bytes) (k : String) where
  pub data Serial (s : World Db) : World Db → List Call → Option (Call × Write) → Type 0 where
    begins : Serial s s [] none
    other_starts :
        {w : World Db} {cs : List Call} {o : Option (Call × Write)}
        → Serial s w cs o
        → (c : Call) → imsi_of c ≢ some k
        → Serial s (record w { pending = read r j c w.db ∷ w.pending }) cs o
    other_ends :
        {w : World Db} {cs : List Call} {o : Option (Call × Write)}
        → Serial s w cs o
        → (xs ys : List Write) (x : Write) → w.pending ≡ xs ++ x ∷ ys
        → touched x ≢ some k
        → Serial s (record { db = write r j x w.db; pending = xs ++ ys }) cs o
    own_starts :
        {w : World Db} {cs : List Call}
        → Serial s w cs none
        → (c : Call) → imsi_of c ≡ some k
        → Serial s
            (record w { pending = read r j c w.db ∷ w.pending })
            cs
            (some (c, read r j c w.db))
    own_ends :
        {w : World Db} {cs : List Call} {c : Call} {x : Write}
        → Serial s w cs (some (c, x))
        → (xs ys : List Write) → w.pending ≡ xs ++ x ∷ ys
        → Serial s (record { db = write r j x w.db; pending = xs ++ ys }) (cs ++ c ∷ []) none

  pub Serial-Reach :
      {s w : World Db} {cs : List Call} {o : Option (Call × Write)}
      → Serial s w cs o
      → Reach r j s w
  Serial-Reach begins = here
  Serial-Reach (other_starts path c ne) = next (Serial-Reach path) (starts c)
  Serial-Reach (other_ends path xs ys x e ne) = next (Serial-Reach path) (ends xs ys x e)
  Serial-Reach (own_starts path c e) = next (Serial-Reach path) (starts c)
  Serial-Reach (own_ends {x = x} path xs ys e) = next (Serial-Reach path) (ends xs ys x e)

effects-snoc :
    (k : String) (cs : List Call) (c : Call) (o : Option Session)
    → effects k (cs ++ c ∷ []) o ≡ effect k c (effects k cs o)
effects-snoc k [] c o = refl
effects-snoc k (d ∷ cs) c o = effects-snoc k cs c (effect k d o)

module _ {Db Bytes : Type 0} (r : Redis Db Bytes) (j : Json Bytes) (laws : Laws r j) where
  write-other :
      (x : Write) (k : String) (db : Db)
      → touched x ≢ some k
      → stored r j laws (write r j x db) k ≡ stored r j laws db k
  unfolding write
  write-other no_write k db ne = refl
  write-other (store s) k db ne = store_session-other r j laws s db k (λ e. ne (ap some (sym e)))
  write-other (remove imsi) k db ne =
      delete_session-other r j laws imsi db k (λ e. ne (ap some (sym e)))

  -- What a handler for another IMSI writes leaves this one alone.
  pub touched-read :
      (c : Call) (k : String) (db : Db)
      → IsKeyed r j laws db
      → imsi_of c ≢ some k
      → touched (read r j c db) ≢ some k
  touched-read c k db keyed ne = elim (Option-cases (imsi_of c)) [
    | inl unnamed ↦ λ e. none≢some (sym (ap touched (read-unnamed r j c db unnamed)) ∙ e)
    | inr (i, named) ↦ λ e.
        touched-after_read r j laws c i k db (get_session r j i db) keyed refl
          (λ same. ne (named ∙ ap some same)) (sym (ap touched (read-named r j c i db named)) ∙ e)
  ]

module _ {Db Bytes : Type 0} (r : Redis Db Bytes) (j : Json Bytes) (laws : Laws r j)
    (works : Works r j laws) where
  write-store :
      (s : Session) (k : String) (db : Db)
      → s.imsi ≡ k
      → stored r j laws (write r j (store s) db) k ≡ some s
  unfolding write
  write-store s k db own =
      subst (λ i. stored r j laws (store_session r j s db).0 i ≡ some s) own
        (store_session-done r j laws s db (store_session-works r j laws works s db))

  write-remove : (k : String) (db : Db) → stored r j laws (write r j (remove k) db) k ≡ none
  unfolding write
  write-remove k db = delete_session-done r j laws k db (delete_session-works r j laws works k db)

  write-known :
      (c : Call) (k : String) (db : Db) (s : Session)
      → s.imsi ≡ k
      → stored r j laws db k ≡ some s
      → stored r j laws (write r j (after_read c k (ok s)) db) k ≡ own_effect k c (some s)
  unfolding write
  write-known (create_request req uuid now) k db s own there = there
  write-known (delete_request req) k db s own there = write-remove k db
  write-known (modify_request req now) k db s own there =
      write-store (record s { state = modifying; last_updated = now 1 }) k db own

  write-unknown :
      (c : Call) (k : String) (db : Db) (e : Error)
      → stored r j laws db k ≡ none
      → stored r j laws (write r j (after_read c k (error e)) db) k ≡ own_effect k c none
  unfolding write
  write-unknown (create_request req uuid now) k db e absent =
      write-store (new_session k req.sender_teid req.sender_addr uuid now) k db refl
  write-unknown (delete_request req) k db e absent = absent
  write-unknown (modify_request req now) k db e absent = absent

  -- A handler that has read in one state of Redis, and writes in another with the same session.
  write-read_own :
      (c : Call) (k : String) (before db : Db)
      → IsKeyed r j laws before
      → imsi_of c ≡ some k
      → stored r j laws db k ≡ stored r j laws before k
      → stored r j laws (write r j (read r j c before) db) k ≡ effect k c (stored r j laws before k)
  write-read_own c k before db keyed named same = elim (Option-cases (stored r j laws before k)) [
    | inr (s, there) ↦
        ap (λ x. stored r j laws (write r j x db) k)
          (read-named r j c k before named
            ∙ ap (after_read c k) (get_session-some r j laws works k before s there))
        ∙ write-known c k db s (keyed k s there) (same ∙ there)
        ∙ sym (effect_own k c (stored r j laws before k) named ∙ ap (own_effect k c) there)
    | inl absent ↦
        let (e, got) = get_session-none r j laws works k before absent in
        ap (λ x. stored r j laws (write r j x db) k)
          (read-named r j c k before named ∙ ap (after_read c k) got)
        ∙ write-unknown c k db e (same ∙ absent)
        ∙ sym (effect_own k c (stored r j laws before k) named ∙ ap (own_effect k c) absent)
  ]

  -- The handler that is open has read what the requests before it have left.
  abbrev Open : String → Option Session → List Call → World Db → Option (Call × Write) → Type 0
  Open k old cs w none = Unit
  Open k old cs w (some (c, x)) =
      (before : Db) × IsKeyed r j laws before
      × (imsi_of c ≡ some k)
      × (x ≡ read r j c before)
      × (stored r j laws before k ≡ effects k cs old)

  Follows : String → Option Session → List Call → World Db → Option (Call × Write) → Type 0
  Follows k old cs w o = (stored r j laws w.db k ≡ effects k cs old) × Open k old cs w o

  Serial-Follows :
      (k : String) {s w : World Db} {cs : List Call} {o : Option (Call × Write)}
      → IsKeyed r j laws s.db
      → Serial r j k s w cs o
      → Follows k (stored r j laws s.db k) cs w o
  unfolding Follows
  Serial-Follows k keyed begins = (refl, tt)
  Serial-Follows k keyed (other_starts path c ne) = Serial-Follows k keyed path
  Serial-Follows k keyed (other_ends {w} {o = o} path xs ys x e ne) =
      let (same, open_one) = Serial-Follows k keyed path in
      (write-other r j laws x k w.db ne ∙ same, open_one)
  Serial-Follows k keyed (own_starts {w} path c named) =
      let (same, _) = Serial-Follows k keyed path in
      (same, (w.db, Reach-IsKeyed r j laws keyed (Serial-Reach r j k path), named, refl, same))
  Serial-Follows k {s} keyed (own_ends {w} {cs} {c} {x} path xs ys e) =
      let (same, (before, keyed_before, named, made, found)) = Serial-Follows k keyed path in
      (
        ap (λ y. stored r j laws (write r j y w.db) k) made
            ∙ write-read_own c k before w.db keyed_before named (same ∙ sym found)
            ∙ ap (effect k c) found
            ∙ sym (effects-snoc k cs c (stored r j laws s.db k)),
        tt,
      )

  -- On a Redis that works: where no two handlers for an IMSI overlap, its session is in the end what
  -- its requests, one after another in the order of their handlers, make of it, however the handlers for
  -- other IMSIs run in between.
  pub Serial-effects :
      (k : String) {s w : World Db} {cs : List Call}
      → IsKeyed r j laws s.db
      → Serial r j k s w cs none
      → stored r j laws w.db k ≡ effects k cs (stored r j laws s.db k)
  unfolding Follows
  Serial-effects k keyed path = (Serial-Follows k keyed path).0
