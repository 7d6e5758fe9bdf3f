-- ===== src/Upf/Orders.antt =====
-- Messages to the UPF (upf/pkg/upf/upf.go) that concern different sessions, in another order. Each message has
-- a goroutine of its own, so the order in which they take the lock is not that of their arrival.
pub mod Exchange
use openmvn.Common.{
  ℕ, ◌≡◌, refl, sym, ap, ◌∙◌, Bool, true, false, Option, none, some, List, [], ◌∷◌, nat_key, ◌++◌,
  String, arith, ◌==◌, if◌then◌else◌, Option-cases, inl, inr,
}
use mathlib.Core.Path.{fun_ext, ap₂}
use mathlib.Core.List.{Permᴰ, append-nil}
use mathlib.Core.List.Permᴰ
use mathlib.Core.Quot
use mathlib.Core.Quot.{Quot}
use openmvn.Common.Map.{lookup}
use openmvn.Common.Clock.{Time}
use openmvn.Pfcp.{
  Header, Message, session_establishment_request, session_modification_request,
  session_deletion_request,
}
use openmvn.Upf.{
  Session, Sessions, Upf, dispatch, handle_session_modification_request, send_pfcp, handle_pfcp,
  Received, read_error, parse_error, message,
}
use openmvn.Upf.Sessions.{effect, dispatch-effect}

-- The SEID of the session that a message is about.
abbrev pub concern : Message → Option ℕ
concern (session_establishment_request req _) = some req.seid
concern (session_modification_request req _) = some req.seid
concern (session_deletion_request req _) = some req.seid
concern _ = none

abbrev pub differ : Option ℕ → Option ℕ → Bool
differ none _ = true
differ (some k) none = true
differ (some k) (some j) = if k == j then false else true

-- The SEID of what is read; errors are about no session.
abbrev pub concern_of : Received → Option ℕ
concern_of read_error = none
concern_of parse_error = none
concern_of (message msg _ _ _) = concern msg

-- The same reads up to exchanges of neighbours that are about different sessions.
pub data Reordered : List Received → List Received → Type 0 where
  same : (rs : List Received) → Reordered rs rs
  exchange :
      (xs ys : List Received) (a b : Received)
      → differ (concern_of a) (concern_of b) ≡ true
      → Reordered (xs ++ a ∷ b ∷ ys) (xs ++ b ∷ a ∷ ys)
  both : {rs ss ts : List Received} → Reordered rs ss → Reordered ss ts → Reordered rs ts

-- The UPF without the representation of its map, and the order of its responses.
abbrev pub View : Type 0
View = (ℕ → Option Session) × Quot (Permᴰ {A = String × Message})

abbrev pub view : Upf → View
view u = ((λ k. lookup k u.sessions), Quot.mk u.sent)

pub record Same (u v : Upf) : Type 0 where
  pub sessions : (k : ℕ) → lookup k u.sessions ≡ lookup k v.sessions
  pub sent : Permᴰ u.sent v.sent

pub view-Same : (u v : Upf) → Same u v → view u ≡ view v
view-Same u v h = ap₂ (λ f q. (f, q)) (fun_ext h.sessions) (Quot.sound h.sent)

pub effect_apart :
    (k : ℕ) (msg : Message) (now : ℕ → Time) (o : Option Session)
    → differ (concern msg) (some k) ≡ true
    → effect k msg now o ≡ o
effect_apart k (session_establishment_request req _) now o apart = ground arith
effect_apart k (session_modification_request req _) now none apart = refl
effect_apart k (session_modification_request req _) now (some s) apart = ground arith
effect_apart k (session_deletion_request req _) now o apart = ground arith
effect_apart k _ now o apart = refl

dispatch-apart :
    (k : ℕ) (msg : Message) (now : ℕ → Time) (s : Sessions)
    → differ (concern msg) (some k) ≡ true
    → lookup k (dispatch msg now s).0 ≡ lookup k s
dispatch-apart k msg now s apart =
    dispatch-effect k msg now s ∙ effect_apart k msg now (lookup k s) apart

-- The response to a message depends on the session that it is about, and no other.
modification_response :
    (req : Header) (now : ℕ → Time) (s t : Sessions)
    → lookup req.seid s ≡ lookup req.seid t
    → (handle_session_modification_request req now s).1
      ≡ (handle_session_modification_request req now t).1
unfolding handle_session_modification_request
modification_response req now s t e = elim (Option-cases (lookup req.seid t)) [
  | inl absent ↦ rw (handle_session_modification_request, e, absent) refl
  | inr (old, there) ↦ rw (handle_session_modification_request, e, there) refl
]

dispatch-response :
    (msg : Message) (now : ℕ → Time) (s t : Sessions)
    → ((k : ℕ) → concern msg ≡ some k → lookup k s ≡ lookup k t)
    → (dispatch msg now s).1 ≡ (dispatch msg now t).1
unfolding dispatch
dispatch-response (session_modification_request req _) now s t e =
    modification_response req now s t (e req.seid refl)
dispatch-response _ now s t e = refl

-- A response joins those already sent.
send_pfcp-append :
    (addr : String) (write_ok : Bool) (res : Option Message) (sent : List (String × Message))
    → send_pfcp addr write_ok res sent ≡ sent ++ send_pfcp addr write_ok res []
unfolding send_pfcp
send_pfcp-append addr write_ok none sent = sym (append-nil sent)
send_pfcp-append addr true (some res) sent = refl
send_pfcp-append addr false (some res) sent = sym (append-nil sent)

module _ (msg : Message) (addr : String) (write_ok : Bool) (now : ℕ → Time) where
  abbrev pub answers : Sessions → List (String × Message)
  answers s = send_pfcp addr write_ok (dispatch msg now s).1 []

  pub handle_pfcp-sent :
      (u : Upf) → (handle_pfcp msg addr write_ok now u).sent ≡ u.sent ++ answers u.sessions
  unfolding handle_pfcp
  handle_pfcp-sent u = send_pfcp-append addr write_ok (dispatch msg now u.sessions).1 u.sent

  pub handle_pfcp-lookup :
      (k : ℕ) (u : Upf)
      → lookup k (handle_pfcp msg addr write_ok now u).sessions
        ≡ effect k msg now (lookup k u.sessions)
  unfolding handle_pfcp
  handle_pfcp-lookup k u = dispatch-effect k msg now u.sessions

  pub answers-eq :
      (s t : Sessions)
      → ((k : ℕ) → concern msg ≡ some k → lookup k s ≡ lookup k t)
      → answers s ≡ answers t
  answers-eq s t e = ap (λ res. send_pfcp addr write_ok res []) (dispatch-response msg now s t e)

  pub handle_pfcp-Same :
      (u v : Upf)
      → Same u v
      → Same (handle_pfcp msg addr write_ok now u) (handle_pfcp msg addr write_ok now v)
  handle_pfcp-Same u v h = record {
    sessions = λ k.
        handle_pfcp-lookup k u
        ∙ ap (effect k msg now) (h.sessions k)
        ∙ sym (handle_pfcp-lookup k v);
    sent =
        rw
          (
            handle_pfcp-sent u,
            handle_pfcp-sent v,
            answers-eq u.sessions v.sessions (λ k e. h.sessions k),
          )
          (Permᴰ.append_right (answers v.sessions) h.sent);
  }
