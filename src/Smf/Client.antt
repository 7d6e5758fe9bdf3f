-- ===== src/Smf/Client.antt =====
-- What the success of the PFCP client's `CreateSession` (smf/main.go) means.
use openmvn.Common.{
  true≢false, ℕ, ◌≡◌, ◌↔◌, refl, sym, ap, ◌∙◌, Bool, true, false, Option, none, some, List, [], ◌∷◌,
  ◌++◌, arith, take, ◌⊎◌, inl, inr, Option-cases,
}
use mathlib.Core.Path.{ap₂}
use mathlib.Core.List.{append-nil}
use openmvn.Pfcp.{Message}
use openmvn.Smf.{
  Bytes, Libraries, Socket, Outcome, ok, marshal_error, write_error, no_response,
  is_establishment_response, establishment_request, is_ok, judge, read_reply, create_session,
}

-- The datagram is a Session Establishment Response, as far as it fits into 1500 bytes.
abbrev pub IsResponse : Libraries → Bytes → Type 0
IsResponse lib d =
    (m : Message) × (lib.parse (take 1500 d) ≡ some m) × (is_establishment_response m ≡ true)

judge-ok :
    (o : Option Message)
    → judge o ≡ ok
    → (m : Message) × (o ≡ some m) × (is_establishment_response m ≡ true)
judge-ok none h = ground arith
judge-ok (some m) h = (m, refl, ground arith)

pub ok-judge :
    (o : Option Message) (m : Message)
    → o ≡ some m
    → is_establishment_response m ≡ true
    → judge o ≡ ok
ok-judge o m e h = rw (e, h) refl

pub sending :
    (lib : Libraries) (seid : ℕ) (ue_ip : Bytes) (teid : ℕ) (arrivals : List Bytes) (s : Socket)
    (buf : Bytes)
    → lib.marshal (establishment_request seid (lib.show_ip ue_ip) teid) ≡ some buf
    → create_session lib seid ue_ip teid true arrivals s
      ≡ read_reply lib (record s { inbox = s.inbox ++ arrivals; written = s.written ++ buf ∷ [] })
unfolding create_session
sending lib seid ue_ip teid arrivals s buf e = rw (create_session, e) refl

reading :
    (lib : Libraries) (s : Socket) (d : Bytes) (ds : List Bytes)
    → s.inbox ≡ d ∷ ds
    → read_reply lib s ≡ (record s { inbox = ds }, judge (lib.parse (take 1500 d)))
unfolding read_reply
reading lib s d ds e = rw (read_reply, e) refl

reading_nothing : (lib : Libraries) (s : Socket) → s.inbox ≡ [] → (read_reply lib s).1 ≡ no_response
unfolding read_reply
reading_nothing lib s e = rw (read_reply, e) refl

unmarshalled :
    (lib : Libraries) (seid : ℕ) (ue_ip : Bytes) (teid : ℕ) (writes : Bool) (arrivals : List Bytes)
    (s : Socket)
    → lib.marshal (establishment_request seid (lib.show_ip ue_ip) teid) ≡ none
    → create_session lib seid ue_ip teid writes arrivals s ≡ (s, marshal_error)
unfolding create_session
unmarshalled lib seid ue_ip teid writes arrivals s e = rw (create_session, e) refl

unwritten :
    (lib : Libraries) (seid : ℕ) (ue_ip : Bytes) (teid : ℕ) (arrivals : List Bytes) (s : Socket)
    (buf : Bytes)
    → lib.marshal (establishment_request seid (lib.show_ip ue_ip) teid) ≡ some buf
    → create_session lib seid ue_ip teid false arrivals s ≡ (s, write_error)
unfolding create_session
unwritten lib seid ue_ip teid arrivals s buf e = rw (create_session, e) refl

failed : {o : Outcome} → is_ok o ≡ false → o ≡ ok → ⊥
failed h e = true≢false (sym (ap is_ok e) ∙ h)

List-cases : {A : Type 0} (xs : List A) → (xs ≡ []) ⊎ ((x : A) × (ys : List A) × (xs ≡ x ∷ ys))
List-cases [] = inl refl
List-cases (x ∷ ys) = inr (x, ys, refl)

-- All that has to go well.
abbrev pub GoesWell : Libraries → ℕ → Bytes → ℕ → Bool → List Bytes → Socket → Type 0
GoesWell lib seid ue_ip teid writes arrivals s =
    (buf : Bytes) × (d : Bytes) × (ds : List Bytes) × (lib.marshal
        (establishment_request seid (lib.show_ip ue_ip) teid)
      ≡ some buf)
    × (writes ≡ true)
    × (s.inbox ++ arrivals ≡ d ∷ ds)
    × IsResponse lib d

goes_well :
    (lib : Libraries) (seid : ℕ) (ue_ip : Bytes) (teid : ℕ) (writes : Bool) (arrivals : List Bytes)
    (s : Socket)
    → (create_session lib seid ue_ip teid writes arrivals s).1 ≡ ok
    → GoesWell lib seid ue_ip teid writes arrivals s
goes_well lib seid ue_ip teid writes arrivals s h =
    elim (Option-cases (lib.marshal (establishment_request seid (lib.show_ip ue_ip) teid))) [
      | inl e ↦ absurd (
          failed refl
            (sym (ap (λ r. r.1) (unmarshalled lib seid ue_ip teid writes arrivals s e)) ∙ h))
      | inr (buf, e) ↦ written writes buf e h
    ]
  where
    written :
        (b : Bool) (buf : Bytes)
        → lib.marshal (establishment_request seid (lib.show_ip ue_ip) teid) ≡ some buf
        → (create_session lib seid ue_ip teid b arrivals s).1 ≡ ok
        → GoesWell lib seid ue_ip teid b arrivals s
    written false buf e h =
        absurd
          (failed refl (sym (ap (λ r. r.1) (unwritten lib seid ue_ip teid arrivals s buf e)) ∙ h))
    written true buf e h =
        let t : Socket = record s {
          inbox = s.inbox ++ arrivals;
          written = s.written ++ buf ∷ [];
        } in
        let read : (read_reply lib t).1 ≡ ok =
          sym (ap (λ r. r.1) (sending lib seid ue_ip teid arrivals s buf e)) ∙ h in
        elim (List-cases (s.inbox ++ arrivals)) [
          | inl nothing ↦ absurd (failed refl (sym (reading_nothing lib t nothing) ∙ read))
          | inr (d, ds, there) ↦ (
            buf,
            d,
            ds,
            e,
            refl,
            there,
            judge-ok (lib.parse (take 1500 d))
                (sym (ap (λ r. r.1) (reading lib t d ds there)) ∙ read),
          )
        ]

-- A call takes the first datagram that waits for its answer, whichever request that one answers: it
-- succeeds exactly if its request can be marshalled and written and the first datagram of those that
-- had been waiting and those that arrive in time is a Session Establishment Response.
pub create_session-ok_iff :
    (lib : Libraries) (seid : ℕ) (ue_ip : Bytes) (teid : ℕ) (writes : Bool) (arrivals : List Bytes)
    (s : Socket)
    → ((create_session lib seid ue_ip teid writes arrivals s).1 ≡ ok)
      ↔ GoesWell lib seid ue_ip teid writes arrivals s
create_session-ok_iff lib seid ue_ip teid writes arrivals s = (
  goes_well lib seid ue_ip teid writes arrivals s,
  (λ w.
      let (buf, d, ds, e, sends, there, (m, parsed, response)) = w in
      rw (sends, sending lib seid ue_ip teid arrivals s buf e)
        (ap (λ r. r.1)
            (reading lib (record s { inbox = s.inbox ++ arrivals; written = s.written ++ buf ∷ [] })
              d ds there)
          ∙ ok-judge (lib.parse (take 1500 d)) m parsed response)),
)

-- A Session Establishment Response that had been waiting, such as the late answer to a request that
-- timed out, makes a call succeed though nothing has arrived in answer to it.
pub create_session-stale :
    (lib : Libraries) (seid : ℕ) (ue_ip : Bytes) (teid : ℕ) (s : Socket) (buf d : Bytes)
    (ds : List Bytes)
    → lib.marshal (establishment_request seid (lib.show_ip ue_ip) teid) ≡ some buf
    → s.inbox ≡ d ∷ ds
    → IsResponse lib d
    → create_session lib seid ue_ip teid true [] s
      ≡ (record { inbox = ds; written = s.written ++ buf ∷ [] }, ok)
create_session-stale lib seid ue_ip teid s buf d ds e waits (m, parsed, response) =
    sending lib seid ue_ip teid [] s buf e
    ∙ reading lib (record s { inbox = s.inbox ++ []; written = s.written ++ buf ∷ [] }) d (ds ++ [])
        (ap (λ l. l ++ []) waits)
    ∙ ap₂ (λ l o. (record { inbox = l; written = s.written ++ buf ∷ [] }, o)) (append-nil ds)
        (ok-judge (lib.parse (take 1500 d)) m parsed response)
