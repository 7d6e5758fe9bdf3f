-- ===== src/Amf/Auth.antt =====
-- Authentication in the AMF (amf/main.go): the in-memory subscriber table, the test of a message's
-- credentials, and the text of the reason.
use Prim.Native.String
use openmvn.Common.{
  ◌≡◌, ◌≢◌, ◌↔◌, inl, inr, Bool, true, false, none, some, [], ◌∷◌, String, arith, ◌==◌,
  if◌then◌else◌, string_key, Option-cases,
}
use text.Mathlib.TextEquality.{eq_iff}
use openmvn.Common.Map.{Map, lookup, has}

-- `udmDB`
abbrev pub udm_db : Map String String
udm_db =
    ("001010123456789", "secret123")
    ∷ ("001010987654321", "pass456")
    ∷ ("001010111222333", "test789")
    ∷ []

-- `ok && msg.NASMsg.Auth == expectedAuth`
unfoldable pub authenticate : String → String → Bool
authenticate imsi auth = elim (lookup imsi udm_db) [
  | none ↦ false
  | some expected ↦ auth == expected
]

unfoldable pub get_auth_reason : Bool → String → String
get_auth_reason auth_passed imsi =
    if auth_passed
    then String.◌++◌ "Authentication successful for IMSI " imsi
    else if has imsi udm_db
    then String.◌++◌ "Invalid authentication for IMSI " imsi
    else String.◌++◌ "Unknown IMSI " imsi

-- A message passes exactly if the table holds its credentials for its IMSI.
pub authenticate_iff :
    (imsi auth : String) → (authenticate imsi auth ≡ true) ↔ (lookup imsi udm_db ≡ some auth)
unfolding authenticate
authenticate_iff imsi auth = elim (Option-cases (lookup imsi udm_db)) [
  | inl unknown ↦ (λ h. ground arith, λ h. ground arith)
  | inr (expected, e) ↦
      (λ h. ground (arith, eq_iff auth expected), λ h. ground (arith, eq_iff auth expected))
]

-- The reason of a response tells the three cases apart: the table holds the credentials, it holds
-- others for the IMSI, or it does not know the IMSI.
pub get_auth_reason_branches :
    (imsi auth : String)
    → let reason = get_auth_reason (authenticate imsi auth) imsi in
      (lookup imsi udm_db ≡ some auth
        → reason ≡ String.◌++◌ "Authentication successful for IMSI " imsi)
      × ((expected : String)
          → lookup imsi udm_db ≡ some expected
          → expected ≢ auth
          → reason ≡ String.◌++◌ "Invalid authentication for IMSI " imsi)
      × (lookup imsi udm_db ≡ none → reason ≡ String.◌++◌ "Unknown IMSI " imsi)
unfolding authenticate get_auth_reason has
get_auth_reason_branches imsi auth = (
  λ h. ground (arith, eq_iff auth auth),
  λ expected h ne. ground (arith, eq_iff auth expected),
  λ h. ground arith,
)
