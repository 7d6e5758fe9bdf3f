-- ===== src/Common/Http.antt =====
-- What a handler writes to its `http.ResponseWriter`.
use Prim.Native.Nat.{ℕ}
use Prim.Native.String.{String}

-- `message s` is what `http.Error` writes for `s`, `text s` the bytes of `s`, `json a` the
-- encoding of `a`, and `octets` the marshalled protocol message `a`.
pub data Body (A : Type 0) : Type 0 where
  nothing : Body A
  message text : String → Body A
  json octets : A → Body A

pub record Response (A : Type 0) : Type 0 where
  pub status : ℕ
  pub body : Body A

abbrev pub status_ok : ℕ
status_ok = 200

abbrev pub status_created : ℕ
status_created = 201

abbrev pub status_no_content : ℕ
status_no_content = 204

abbrev pub status_bad_request : ℕ
status_bad_request = 400

abbrev pub status_not_found : ℕ
status_not_found = 404

abbrev pub status_conflict : ℕ
status_conflict = 409

abbrev pub status_internal_server_error : ℕ
status_internal_server_error = 500

-- `http.Error(w, msg, code)`
abbrev pub http_error : {A : Type 0} → String → ℕ → Response A
http_error msg code = record { status = code; body = message msg }

-- What a handler does: it returns a response, or it panics.
pub data Served (A : Type 0) : Type 0 where
  returned : Response A → Served A
  panicked : Served A

-- What the logging middleware writes for a request.
pub record LogLine : Type 0 where
  pub http_method : String
  pub request_uri : String
  pub duration : ℕ
