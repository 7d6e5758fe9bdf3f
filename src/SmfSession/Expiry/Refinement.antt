-- ===== src/SmfSession/Expiry/Refinement.antt =====
-- The sessions of pkg/smf/session.go in time, against a specification of one IMSI and its seconds left.
use openmvn.Common.{
  none≢some, ℕ, ◌≡◌, ◌≢◌, refl, sym, ap, ◌∙◌, Option, none, some, List, [], ◌∷◌, String, ltb,
  ltb→lt, ltb→le, inl, inr, Option-cases, Bool-cases,
}
use mathlib.Core.Path.{subst, ap₂}
use openmvn.SmfSession.{
  modifying, Session, Redis, Json, Error, ok, error, new_session, store_session, get_session,
  delete_session, Call, create_request, delete_request, modify_request, serve, session_key,
  session_ttl,
}
use openmvn.SmfSession.Store.{
  Laws, stored, decode, store_session-done, delete_session-done, session_key-ne,
}
use openmvn.SmfSession.Handlers.{IsKeyed}
use openmvn.SmfSession.Keyed.{imsi_of, serve-other, serve-IsKeyed}
use openmvn.SmfSession.Refinement.{
  Works, names, names_imsi-other, names_imsi-own, get_session-some, get_session-none,
  store_session-works, delete_session-works,
}
use openmvn.SmfSession.Interleaving.{
  touched, touched-after_read, Write, no_write, store, remove, after_read, write, halves,
  halves_unnamed,
}
use openmvn.SmfSession.Expiry.{
  Expires, Event, call, pause, own_lasting, elapse, lasting_effect, lasting_effects, lasting,
  elapse_kept, elapse_gone,
}

module _ {Db Bytes : Type 0} (r : Redis Db Bytes) (j : Json Bytes) (laws : Laws r j)
    (works : Works r j laws) (expires : Expires r j laws) where
  -- The session of an IMSI, and the seconds it has left.
  abbrev pub view : Db → String → Option (Session × ℕ)
  view db k = lasting (stored r j laws db k) (expires.remaining db (session_key k))

  abbrev pub happen : Event → Db → Db
  happen (call c) db = serve r j c db
  happen (pause d) db = expires.wait d db

  abbrev pub happen_all : List Event → Db → Db
  happen_all [] db = db
  happen_all (e ∷ es) db = happen_all es (happen e db)

  store_session-starts :
      (s : Session) (db : Db)
      → expires.remaining (store_session r j s db).0 (session_key s.imsi) ≡ session_ttl
  unfolding store_session
  store_session-starts s db =
      let (b, e) = works.encodes s in
      rw (store_session, e)
        (expires.set_starts db (session_key s.imsi) b session_ttl
          (works.sets db (session_key s.imsi) b session_ttl))

  view-store_session :
      (s : Session) (k : String) (db : Db)
      → s.imsi ≡ k
      → view (store_session r j s db).0 k ≡ some (s, session_ttl)
  view-store_session s k db own =
      subst (λ i. view (store_session r j s db).0 i ≡ some (s, session_ttl)) own
        (ap₂ lasting (store_session-done r j laws s db (store_session-works r j laws works s db))
          (store_session-starts s db))

  remaining-write :
      (w : Write) (k : String) (db : Db)
      → touched w ≢ some k
      → expires.remaining (write r j w db) (session_key k) ≡ expires.remaining db (session_key k)
  unfolding write store_session delete_session
  remaining-write no_write k db ne = refl
  remaining-write (remove imsi) k db ne =
      expires.del_elsewhere db (session_key imsi) (session_key k)
        (session_key-ne k imsi (λ e. ne (ap some (sym e))))
  remaining-write (store s) k db ne =
      let (b, e) = works.encodes s in
      rw (write, store_session, e)
        (expires.set_elsewhere db (session_key s.imsi) (session_key k) b session_ttl
          (session_key-ne k s.imsi (λ e. ne (ap some (sym e)))))

  view-some :
      (k : String) (db : Db) (s : Session)
      → stored r j laws db k ≡ some s
      → view db k ≡ some (s, expires.remaining db (session_key k))
  view-some k db s there = ap (λ o. lasting o (expires.remaining db (session_key k))) there

  view-none : (k : String) (db : Db) → stored r j laws db k ≡ none → view db k ≡ none
  view-none k db absent = ap (λ o. lasting o (expires.remaining db (session_key k))) absent

  own-known :
      (c : Call) (k : String) (db : Db) (s : Session)
      → IsKeyed r j laws db
      → imsi_of c ≡ some k
      → stored r j laws db k ≡ some s
      → view (write r j (after_read c k (ok s)) db) k
        ≡ own_lasting k c (some (s, expires.remaining db (session_key k)))
  unfolding write
  own-known (create_request req uuid now) k db s keyed named there = view-some k db s there
  own-known (delete_request req) k db s keyed named there =
      view-none k (delete_session r j k db).0
        (delete_session-done r j laws k db (delete_session-works r j laws works k db))
  own-known (modify_request req now) k db s keyed named there =
      view-store_session (record s { state = modifying; last_updated = now 1 }) k db
        (keyed k s there)

  own-unknown :
      (c : Call) (k : String) (db : Db) (e : Error)
      → stored r j laws db k ≡ none
      → view (write r j (after_read c k (error e)) db) k ≡ own_lasting k c none
  unfolding write
  own-unknown (create_request req uuid now) k db e absent =
      view-store_session (new_session k req.sender_teid req.sender_addr uuid now) k db refl
  own-unknown (delete_request req) k db e absent = view-none k db absent
  own-unknown (modify_request req now) k db e absent = view-none k db absent

  view-own :
      (c : Call) (k : String) (db : Db)
      → IsKeyed r j laws db
      → imsi_of c ≡ some k
      → view (serve r j c db) k ≡ own_lasting k c (view db k)
  view-own c k db keyed named = elim (Option-cases (stored r j laws db k)) [
    | inr (s, there) ↦
        ap (λ x. view x k)
          (halves r j c k db (ok s) named (get_session-some r j laws works k db s there))
        ∙ own-known c k db s keyed named there
        ∙ sym (ap (own_lasting k c) (view-some k db s there))
    | inl absent ↦
        let (e, got) = get_session-none r j laws works k db absent in
        ap (λ x. view x k) (halves r j c k db (error e) named got)
        ∙ own-unknown c k db e absent
        ∙ sym (ap (own_lasting k c) (view-none k db absent))
  ]

  remaining-serve :
      (c : Call) (k : String) (db : Db)
      → IsKeyed r j laws db
      → imsi_of c ≢ some k
      → expires.remaining (serve r j c db) (session_key k) ≡ expires.remaining db (session_key k)
  remaining-serve c k db keyed ne = elim (Option-cases (imsi_of c)) [
    | inl unnamed ↦ ap (λ x. expires.remaining x (session_key k)) (halves_unnamed r j c db unnamed)
    | inr (i, named) ↦
        ap (λ x. expires.remaining x (session_key k))
          (halves r j c i db (get_session r j i db) named refl)
        ∙ remaining-write (after_read c i (get_session r j i db)) k db (
            touched-after_read r j laws c i k db (get_session r j i db) keyed refl
              (λ e. ne (named ∙ ap some e)))
  ]

  view-call :
      (c : Call) (k : String) (db : Db)
      → IsKeyed r j laws db
      → view (serve r j c db) k ≡ lasting_effect k (call c) (view db k)
  view-call c k db keyed = elim (Bool-cases (names k c)) [
    | inl own ↦ rw own (view-own c k db keyed (names_imsi-own k (imsi_of c) own))
    | inr other ↦
        let apart = names_imsi-other k (imsi_of c) other in
        rw other (
          ap₂ lasting (serve-other r j laws c db k keyed apart)
            (remaining-serve c k db keyed apart))
  ]

  view-pause : (d : ℕ) (k : String) (db : Db) → view (expires.wait d db) k ≡ elapse d (view db k)
  view-pause d k db = elim (Bool-cases (ltb d (expires.remaining db (session_key k)))) [
    | inl in_time ↦
        let (kept, less) = expires.wait_keeps d db (session_key k) (ltb→lt _ _ in_time) in
        ap₂ (λ b left. lasting (decode r j laws b) left) kept less
        ∙ elapse_kept d _ (stored r j laws db k) in_time
    | inr late ↦
        ap
          (λ b. lasting (decode r j laws b) (expires.remaining (expires.wait d db) (session_key k)))
          (expires.wait_drops d db (session_key k) (ltb→le _ _ late))
        ∙ elapse_gone d _ (stored r j laws db k) late
  ]

  wait-IsKeyed : (d : ℕ) (db : Db) → IsKeyed r j laws db → IsKeyed r j laws (expires.wait d db)
  wait-IsKeyed d db keyed imsi s h =
      elim (Bool-cases (ltb d (expires.remaining db (session_key imsi)))) [
        | inl in_time ↦ keyed imsi s (
            sym (
              ap (decode r j laws)
                (expires.wait_keeps d db (session_key imsi) (ltb→lt _ _ in_time)).0)
            ∙ h)
        | inr late ↦ absurd (
            none≢some (
              sym (
                ap (decode r j laws) (expires.wait_drops d db (session_key imsi) (ltb→le _ _ late)))
              ∙ h))
      ]

  happen-IsKeyed : (e : Event) (db : Db) → IsKeyed r j laws db → IsKeyed r j laws (happen e db)
  happen-IsKeyed (call c) db keyed = serve-IsKeyed r j laws c db keyed
  happen-IsKeyed (pause d) db keyed = wait-IsKeyed d db keyed

  view-happen :
      (e : Event) (k : String) (db : Db)
      → IsKeyed r j laws db
      → view (happen e db) k ≡ lasting_effect k e (view db k)
  view-happen (call c) k db keyed = view-call c k db keyed
  view-happen (pause d) k db keyed = view-pause d k db

  -- On a Redis that works and counts down, any sequence of requests and pauses leaves for an IMSI what
  -- those that concern it make of its session and of the seconds that it has left: a creation and a
  -- modification start 24 hours anew, a creation that finds a session does not, a session is gone
  -- once its time has run out, and requests for other IMSIs do not matter.
  pub happen_all-refines :
      (k : String) (es : List Event) (db : Db)
      → IsKeyed r j laws db
      → view (happen_all es db) k ≡ lasting_effects k es (view db k)
  happen_all-refines k [] db keyed = refl
  happen_all-refines k (e ∷ es) db keyed =
      happen_all-refines k es (happen e db) (happen-IsKeyed e db keyed)
      ∙ ap (lasting_effects k es) (view-happen e k db keyed)
