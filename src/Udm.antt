-- ===== src/Udm.antt =====
-- The Unified Data Management service (udm/main.go): authentication of an IMSI and a token. The body
-- of a request enters as what the JSON decoder gives for it. The table is never written.
pub mod Answers
pub mod Middleware
mod Tests
use Prim.Native.String.{len}
use openmvn.Common.{
  Bool, true, false, Option, none, some, [], ◌∷◌, String, ltb, ◌==◌, if◌then◌else◌, string_key,
}
use openmvn.Common.Map.{Map, lookup}
use openmvn.Common.Http.{text, json, Response, http_error, status_ok, status_bad_request}

pub record AuthRequest : Type 0 where
  pub imsi : String
  pub token : String

pub record AuthResponse : Type 0 where
  pub authorized : Bool
  pub reason : String

-- `db`
abbrev pub db : Map String String
db = ("001010123456789", "secret123") ∷ ("001010987654321", "pass456") ∷ []

-- `exists && expected == req.Token`
unfoldable pub is_authorized : AuthRequest → Bool
is_authorized req = elim (lookup req.imsi db) [
  | none ↦ false
  | some expected ↦ expected == req.token
]

unfoldable pub auth_handler : Option AuthRequest → Response AuthResponse
auth_handler none = http_error "invalid request" status_bad_request
auth_handler (some req) =
    if ltb (len req.imsi) 10 then http_error "invalid IMSI format" status_bad_request else record {
      status = status_ok;
      body = json (record {
        authorized = is_authorized req;
        reason = if is_authorized req then "" else "Invalid IMSI or token";
      });
    }

unfoldable pub health_handler : Response (Unit {0})
health_handler = record { status = status_ok; body = text "OK" }
