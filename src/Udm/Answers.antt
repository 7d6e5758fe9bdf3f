-- ===== src/Udm/Answers.antt =====
-- What the UDM answers, and how its verdict compares with that of the AMF.
use Prim.Native.String.{len}
use text.Mathlib.TextEquality.{eq_iff}
use mathlib.Core.Path.{subst}
use mathlib.Core.Option.{some-injective}
use openmvn.Common.{
  ◌≤◌, ◌<◌, ◌≡◌, ◌↔◌, refl, sym, ap, ◌∙◌, ◌⊎◌, inl, inr, true, false, Option, none, some, String,
  arith, ltb, ltb→lt, ltb→le, Option-cases, Bool-cases, string_key,
}
use openmvn.Common.Map.{lookup}
use openmvn.Common.Http.{Response, json}
use openmvn.Udm.{AuthRequest, AuthResponse, db, is_authorized, auth_handler}
use openmvn.Amf.Auth.{udm_db, authenticate, authenticate_iff}

-- The answers to a request: 400 for one that does not decode or has a short IMSI, otherwise 200 with
-- a verdict, which is positive exactly if the table holds the token for the IMSI.
abbrev pub AuthAnswers : Option AuthRequest → Response AuthResponse → Type 0
AuthAnswers body r =
    ((r.status ≡ 400) × ((req : AuthRequest) → body ≡ some req → len req.imsi < 10))
    ⊎ ((req : AuthRequest) × (verdict : AuthResponse) × (body ≡ some req)
        × (10 ≤ len req.imsi)
        × (r.status ≡ 200)
        × (r.body ≡ json verdict)
        × ((verdict.authorized ≡ true) ↔ (lookup req.imsi db ≡ some req.token))
        × (verdict.authorized ≡ true → verdict.reason ≡ "")
        × (verdict.authorized ≡ false → verdict.reason ≡ "Invalid IMSI or token"))

pub is_authorized_iff :
    (req : AuthRequest) → (is_authorized req ≡ true) ↔ (lookup req.imsi db ≡ some req.token)
unfolding is_authorized
is_authorized_iff req = elim (Option-cases (lookup req.imsi db)) [
  | inl unknown ↦ (λ h. ground arith, λ h. ground arith)
  | inr (expected, e) ↦ (
    λ h. ground (arith, eq_iff expected req.token),
    λ h. ground (arith, eq_iff expected req.token),
  )
]

-- Every request is answered 400, if it does not decode or its IMSI has fewer than ten bytes, or 200
-- with a verdict that is positive exactly if the table holds the token for the IMSI.
pub auth_handler-answers : (body : Option AuthRequest) → AuthAnswers body (auth_handler body)
unfolding auth_handler
auth_handler-answers none = inl (refl, λ req e. absurd (ground arith))
auth_handler-answers (some req) = elim (Bool-cases (ltb (len req.imsi) 10)) [
  | inl short ↦
      rw short
        (inl (refl, λ r e. subst (λ x. len x.imsi < 10) (some-injective _ _ e) (ltb→lt _ _ short)))
  | inr long ↦ rw long (
      inr (
        req,
        _,
        refl,
        ltb→le _ _ long,
        refl,
        refl,
        is_authorized_iff req,
        λ h. rw h refl,
        λ h. rw h refl,
      ))
]

tables_forth : (k t : String) → lookup k db ≡ some t → lookup k udm_db ≡ some t
unfolding lookup
tables_forth k t h = ground arith

tables_back :
    (k t : String) → lookup k udm_db ≡ some t → (lookup k db ≡ some t) ⊎ (k ≡ "001010111222333")
unfolding lookup
tables_back k t h = ground (arith, eq_iff "001010111222333" k)

only_third : lookup "001010111222333" udm_db ≡ some "test789"
unfolding lookup
only_third = refl

unknown_third : lookup "001010111222333" db ≡ none
unfolding lookup
unknown_third = refl

refused : (req : AuthRequest) → lookup req.imsi db ≡ none → is_authorized req ≡ false
unfolding is_authorized
refused req e = rw (is_authorized, e) refl

-- The AMF's copy of the subscriber table accepts what the UDM authorizes and the credentials of one
-- IMSI more, and nothing else; that IMSI the UDM does not know, and refuses whatever the token.
pub udm_agrees_with_amf :
    (req : AuthRequest)
    → (authenticate req.imsi req.token ≡ true
        ↔ ((is_authorized req ≡ true) ⊎ ((req.imsi ≡ "001010111222333") × (req.token ≡ "test789"))))
      × (lookup "001010111222333" db ≡ none)
      × (is_authorized (record req { imsi = "001010111222333" }) ≡ false)
udm_agrees_with_amf req = (
  (
    λ h.
        let held = (authenticate_iff req.imsi req.token).0 h in
        elim (tables_back req.imsi req.token held) [
          | inl same ↦ inl ((is_authorized_iff req).1 same)
          | inr third ↦
              inr (
                third,
                some-injective _ _ (sym held ∙ ap (λ k. lookup k udm_db) third ∙ only_third),
              )
        ],
    λ h. elim h [
      | inl same ↦
          (authenticate_iff req.imsi req.token).1
            (tables_forth req.imsi req.token ((is_authorized_iff req).0 same))
      | inr (third, token) ↦
          (authenticate_iff req.imsi req.token).1
            (ap (λ k. lookup k udm_db) third ∙ only_third ∙ ap some (sym token))
    ],
  ),
  unknown_third,
  refused (record req { imsi = "001010111222333" }) unknown_third,
)
