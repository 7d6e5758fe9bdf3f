-- ===== src/Upf/Responses.antt =====
-- The responses of the UPF.
use openmvn.Common.{ℕ, ◌≡◌, refl, inl, inr, Option, none, some, List, nat_key, Option-cases}
use mathlib.Core.List.{Memᴰ}
use mathlib.Core.Path.{subst}
use openmvn.Common.Map.{lookup}
use openmvn.Common.Clock.{Time}
use openmvn.Pfcp.{
  Header, Ie, cause_request_accepted, Message, heartbeat_request, heartbeat_response,
  association_setup_request, association_setup_response, session_establishment_request,
  session_establishment_response, session_modification_request, session_modification_response,
  session_deletion_request, session_deletion_response, other,
}
use openmvn.Upf.{Session, Sessions, response_header, dispatch, handle_session_modification_request}

-- The response carries the SEID and the sequence number of the request.
pub record Echoes (req res : Header) : Type 0 where
  pub same_seid : res.seid ≡ req.seid
  pub same_sequence : res.sequence_number ≡ req.sequence_number

-- The acceptance is among the elements.
abbrev pub Accepts : List Ie → Type 0
Accepts ies = Memᴰ cause_request_accepted ies

-- A message is the response to another: of its kind, for its session and sequence number, and with
-- the cause of acceptance where the kind carries a cause.
pub data Answers : Message → Message → Type 0 where
  heartbeat :
      (seq : ℕ) (ies : List Ie) → Answers (heartbeat_request seq) (heartbeat_response seq ies)
  association :
      (seq : ℕ) (ies : List Ie)
      → Accepts ies
      → Answers (association_setup_request seq) (association_setup_response seq ies)
  establishment :
      (req res : Header) (asked ies : List Ie)
      → Echoes req res
      → Accepts ies
      → Answers (session_establishment_request req asked) (session_establishment_response res ies)
  modification :
      (req res : Header) (asked ies : List Ie)
      → Echoes req res
      → Accepts ies
      → Answers (session_modification_request req asked) (session_modification_response res ies)
  deletion :
      (req res : Header) (asked ies : List Ie)
      → Echoes req res
      → Accepts ies
      → Answers (session_deletion_request req asked) (session_deletion_response res ies)

-- The messages that are never answered: those that are no request, and the modification of a
-- session that the UPF does not have.
abbrev pub IsUnanswered : Message → Sessions → Type 0
IsUnanswered (heartbeat_request _) s = ⊥
IsUnanswered (association_setup_request _) s = ⊥
IsUnanswered (session_establishment_request _ _) s = ⊥
IsUnanswered (session_modification_request req _) s = lookup req.seid s ≡ none
IsUnanswered (session_deletion_request _ _) s = ⊥
IsUnanswered _ s = Unit

-- The messages that are answered: the requests, but a modification only where the session exists.
abbrev pub IsAnswerable : Message → Sessions → Type 0
IsAnswerable (heartbeat_request _) s = Unit
IsAnswerable (association_setup_request _) s = Unit
IsAnswerable (session_establishment_request _ _) s = Unit
IsAnswerable (session_modification_request req _) s =
    (old : Session) × (lookup req.seid s ≡ some old)
IsAnswerable (session_deletion_request _ _) s = Unit
IsAnswerable _ s = ⊥

abbrev pub Responds : Message → Sessions → Option Message → Type 0
Responds msg s none = IsUnanswered msg s
Responds msg s (some res) = IsAnswerable msg s × Answers msg res

echoed : (req : Header) → Echoes req (response_header req)
echoed req = record { same_seid = refl; same_sequence = refl }

pub dispatch-Responds :
    (msg : Message) (now : ℕ → Time) (s : Sessions) → Responds msg s (dispatch msg now s).1
unfolding dispatch
dispatch-Responds (heartbeat_request seq) now s = (tt, heartbeat seq _)
dispatch-Responds (association_setup_request seq) now s =
    (tt, association seq _ (Memᴰ.tail (Memᴰ.head refl)))
dispatch-Responds (session_establishment_request req asked) now s =
    (tt, establishment req (response_header req) asked _ (echoed req) (Memᴰ.tail (Memᴰ.head refl)))
dispatch-Responds (session_modification_request req asked) now s =
    elim (Option-cases (lookup req.seid s)) [
      | inl absent ↦ rw (absent, handle_session_modification_request) absent
      | inr (old, e) ↦
          rw (e, handle_session_modification_request)
            (
              (old, e),
              modification req (response_header req) asked _ (echoed req)
                  (Memᴰ.tail (Memᴰ.head refl)),
            )
    ]
dispatch-Responds (session_deletion_request req asked) now s =
    (tt, deletion req (response_header req) asked _ (echoed req) (Memᴰ.tail (Memᴰ.head refl)))
dispatch-Responds (heartbeat_response _ _) now s = tt
dispatch-Responds (association_setup_response _ _) now s = tt
dispatch-Responds (session_establishment_response _ _) now s = tt
dispatch-Responds (session_modification_response _ _) now s = tt
dispatch-Responds (session_deletion_response _ _) now s = tt
dispatch-Responds other now s = tt

pub dispatch-Answers :
    (msg : Message) (now : ℕ → Time) (s : Sessions) {res : Message}
    → (dispatch msg now s).1 ≡ some res
    → Answers msg res
dispatch-Answers msg now s e = (subst (Responds msg s) e (dispatch-Responds msg now s)).1
