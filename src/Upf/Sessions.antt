-- ===== src/Upf/Sessions.antt =====
-- The sessions of the UPF, seen from one SEID, and their number.
use openmvn.Common.{
  ℕ, ◌+◌, ◌≡◌, refl, ap, ◌∙◌, Bool, Option, none, some, List, [], ◌∷◌, String, arith, if◌then◌else◌,
  nat_key, ◌==◌, Option-cases, inl, inr, nat_beq_iff,
}
use openmvn.Common.Map.{
  lookup, insert, size, lookup-insert, lookup-delete, IsUnique, insert-IsUnique, delete-IsUnique,
  size-insert_new, size-insert_old, size-delete, delete_absent, Entries, insert-Entries,
  delete-Entries, lookup-Entries,
}
use openmvn.Common.Clock.{Time}
use openmvn.Pfcp.{
  Message, session_establishment_request, session_modification_request, session_deletion_request,
}
use openmvn.Upf.{
  handle_session_modification_request, Session, Sessions, Upf, get_session_count, new_session,
  dispatch, handle_pfcp, Received, read_error, parse_error, message, serve_pfcp,
}

-- What a message does to the session of one SEID.
abbrev pub effect : ℕ → Message → (ℕ → Time) → Option Session → Option Session
effect k (session_establishment_request req _) now s =
    if req.seid == k then some (new_session req.seid now) else s
effect k (session_modification_request req _) now none = none
effect k (session_modification_request req _) now (some s) =
    if req.seid == k then some (record s { updated_at = now 0 }) else some s
effect k (session_deletion_request req _) now s = if req.seid == k then none else s
effect k _ now s = s

abbrev pub effects : ℕ → List Received → Option Session → Option Session
effects k [] s = s
effects k (message msg _ _ now ∷ rest) s = effects k rest (effect k msg now s)
effects k (_ ∷ rest) s = effects k rest s

pub dispatch-effect :
    (k : ℕ) (msg : Message) (now : ℕ → Time) (s : Sessions)
    → lookup k (dispatch msg now s).0 ≡ effect k msg now (lookup k s)
unfolding dispatch
dispatch-effect k (session_establishment_request req _) now s =
    lookup-insert req.seid k (new_session req.seid now) s
dispatch-effect k (session_modification_request req _) now s =
    elim (Option-cases (lookup req.seid s)) [
      | inl absent ↦ ground (arith, nat_beq_iff req.seid k)
      | inr (old, e) ↦ ground (
        arith,
        nat_beq_iff req.seid k,
        lookup-insert req.seid k (record old { updated_at = now 0 }) s,
      )
    ]
dispatch-effect k (session_deletion_request req _) now s = lookup-delete req.seid k s
dispatch-effect k _ now s = refl

-- Whatever is received, the session of a SEID is what the messages for that SEID make of it, in
-- their order: an establishment replaces it, a modification of an existing one sets its time of
-- update, a deletion removes it; read errors, parse errors and other messages do nothing.
pub serve_pfcp-refines :
    (k : ℕ) (rs : List Received) (u : Upf)
    → lookup k (serve_pfcp rs u).sessions ≡ effects k rs (lookup k u.sessions)
unfolding serve_pfcp handle_pfcp
serve_pfcp-refines k [] u = refl
serve_pfcp-refines k (read_error ∷ rest) u = serve_pfcp-refines k rest u
serve_pfcp-refines k (parse_error ∷ rest) u = serve_pfcp-refines k rest u
serve_pfcp-refines k (message msg addr write_ok now ∷ rest) u =
    serve_pfcp-refines k rest (handle_pfcp msg addr write_ok now u)
    ∙ ap (effects k rest) (dispatch-effect k msg now u.sessions)

-- A session stands under its own SEID and is established, and no SEID is listed twice.
pub record IsSession (k : ℕ) (s : Session) : Type 0 where
  pub keyed : s.seid ≡ k
  pub established : s.state ≡ "ESTABLISHED"

pub record IsValid (s : Sessions) : Type 0 where
  pub unique : IsUnique s
  pub sessions : Entries IsSession s

insert-IsValid :
    (k : ℕ) (session : Session) (s : Sessions)
    → IsSession k session
    → IsValid s
    → IsValid (insert k session s)
insert-IsValid k session s p h = record {
  unique = insert-IsUnique k session s h.unique;
  sessions = insert-Entries IsSession k session s p h.sessions;
}

pub dispatch-IsValid :
    (msg : Message) (now : ℕ → Time) (s : Sessions) → IsValid s → IsValid (dispatch msg now s).0
unfolding dispatch
dispatch-IsValid (session_establishment_request req _) now s h =
    insert-IsValid req.seid (new_session req.seid now) s
      (record { keyed = refl; established = refl }) h
dispatch-IsValid (session_modification_request req _) now s h =
    elim (Option-cases (lookup req.seid s)) [
      | inl absent ↦ rw (absent, handle_session_modification_request) h
      | inr (old, e) ↦
          let p = lookup-Entries IsSession req.seid s h.sessions e in
          rw (e, handle_session_modification_request)
            (insert-IsValid req.seid (record old { updated_at = now 0 }) s
              (record { keyed = p.keyed; established = p.established }) h)
    ]
dispatch-IsValid (session_deletion_request req _) now s h = record {
  unique = delete-IsUnique req.seid s h.unique;
  sessions = delete-Entries IsSession req.seid s h.sessions;
}
dispatch-IsValid _ now s h = h

-- Whatever is received, every session stands under its own SEID and is established.
pub serve_pfcp-IsValid :
    (rs : List Received) (u : Upf) → IsValid u.sessions → IsValid (serve_pfcp rs u).sessions
unfolding serve_pfcp handle_pfcp
serve_pfcp-IsValid [] u h = h
serve_pfcp-IsValid (read_error ∷ rest) u h = serve_pfcp-IsValid rest u h
serve_pfcp-IsValid (parse_error ∷ rest) u h = serve_pfcp-IsValid rest u h
serve_pfcp-IsValid (message msg addr write_ok now ∷ rest) u h =
    serve_pfcp-IsValid rest (handle_pfcp msg addr write_ok now u)
      (dispatch-IsValid msg now u.sessions h)

-- 1 where the SEID has a session, and else 0.
abbrev pub held : ℕ → Sessions → ℕ
held k s = elim (lookup k s) [ none ↦ 0 | some _ ↦ 1 ]

-- How a message changes the number of sessions.
abbrev pub Counts : Message → Sessions → ℕ → ℕ → Type 0
Counts (session_establishment_request req _) s before after = after + held req.seid s ≡ before + 1
Counts (session_deletion_request req _) s before after = after + held req.seid s ≡ before
Counts _ s before after = after ≡ before

-- The session count grows by one with the establishment of a new session and not with that of a SEID
-- that has one, which it replaces; it falls by one with the deletion of a session that exists; no
-- other message changes it.
pub handle_pfcp-count :
    (msg : Message) (addr : String) (write_ok : Bool) (now : ℕ → Time) (u : Upf)
    → IsUnique u.sessions
    → Counts msg u.sessions
        (get_session_count u)
        (get_session_count (handle_pfcp msg addr write_ok now u))
unfolding handle_pfcp get_session_count
handle_pfcp-count (session_establishment_request req _) addr write_ok now u h =
    elim (Option-cases (lookup req.seid u.sessions)) [
      | inl new ↦ ground (arith, size-insert_new req.seid (new_session req.seid now) u.sessions new)
      | inr (old, e) ↦
          ground (arith, size-insert_old req.seid (new_session req.seid now) old u.sessions e)
    ]
handle_pfcp-count (session_modification_request req _) addr write_ok now u h =
    elim (Option-cases (lookup req.seid u.sessions)) [
      | inl absent ↦ ground arith
      | inr (old, e) ↦
          ground
            (arith, size-insert_old req.seid (record old { updated_at = now 0 }) old u.sessions e)
    ]
handle_pfcp-count (session_deletion_request req _) addr write_ok now u h =
    elim (Option-cases (lookup req.seid u.sessions)) [
      | inl absent ↦ ground (arith, ap (λ m. size m) (delete_absent req.seid u.sessions absent))
      | inr (old, e) ↦ ground (arith, size-delete req.seid old u.sessions h e)
    ]
handle_pfcp-count _ addr write_ok now u h = refl
