-- ===== src/Amf/Api.antt =====
-- The management API of the AMF (amf/main.go). The path variable `gnb_addr` is read as a uint64 and
-- looked up among the UE ids. `encodes` says whether the JSON encoder accepts a context.
pub mod Answers
pub mod RoundTrip
use openmvn.Common.{ℕ, Bool, Option, none, some, List, String, if◌then◌else◌}
use openmvn.Common.Decimal.{parse_uint}
use openmvn.Common.Http.{
  nothing, json, Response, http_error, status_ok, status_no_content, status_bad_request,
  status_not_found, status_internal_server_error,
}
use openmvn.Amf.Store.{UeContext, UeStore, get, delete_context, list}

-- The tail of `GetUE`, after the path variable has been parsed.
get_parsed : (UeContext → Bool) → ℕ → UeStore → Response UeContext
get_parsed encodes ueid s = elim (get ueid s) [
  | none ↦ http_error "UE not found" status_not_found
  | some ue ↦
      if encodes ue
      then record { status = status_ok; body = json ue }
      else http_error "Internal server error" status_internal_server_error
]

unfoldable pub get_ue : (UeContext → Bool) → String → UeStore → Response UeContext
unfolding get_parsed
get_ue encodes gnb_addr s = elim (parse_uint gnb_addr) [
  | none ↦ http_error "invalid gnb_addr" status_bad_request
  | some ueid ↦ get_parsed encodes ueid s
]

-- The tail of `DeleteUE`: a lookup, then the deletion.
delete_parsed : ℕ → UeStore → UeStore × Response (Unit {0})
delete_parsed ueid s = elim (get ueid s) [
  | none ↦ (s, http_error "UE not found" status_not_found)
  | some _ ↦ (delete_context ueid s, record { status = status_no_content; body = nothing })
]

unfoldable pub delete_ue : String → UeStore → UeStore × Response (Unit {0})
unfolding delete_parsed
delete_ue gnb_addr s = elim (parse_uint gnb_addr) [
  | none ↦ (s, http_error "invalid gnb_addr" status_bad_request)
  | some ueid ↦ delete_parsed ueid s
]

unfoldable pub list_ues : UeStore → Response (List UeContext)
list_ues s = record { status = status_ok; body = json (list s) }
