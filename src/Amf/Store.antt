-- ===== src/Amf/Store.antt =====
-- The UE contexts of the AMF and their store (amf/main.go). Each method of `UEStore` holds its lock
-- from the first access to the return, so a call is one step.
use openmvn.Common.{ℕ, Bool, Option, List, String, if◌then◌else◌, nat_key}
use openmvn.Common.Map.{Map, lookup, insert, delete, values}
use openmvn.Common.Clock.{Time, is_zero}

pub record UeContext : Type 0 where
  pub ueid : ℕ
  pub gnb_addr : String
  pub imsi : String
  pub auth_pass : Bool
  pub status : String
  pub last_seen : Time
  pub created_at : Time
  pub supi : String
  pub amf_id : String
  pub guami : String
  pub plmn_id : String
  pub rat_type : String
  pub cell_id : String

abbrev pub UeStore : Type 0
UeStore = Map ℕ UeContext

-- What `Register` makes of its argument: `now` is its reading of the clock.
abbrev pub seen : Time → UeContext → UeContext
seen now ue = record ue {
  last_seen = now;
  created_at = if is_zero ue.created_at then now else ue.created_at;
}

unfoldable pub register : UeContext → Time → UeStore → UeStore
register ue now s = insert ue.ueid (seen now ue) s

unfoldable pub get : ℕ → UeStore → Option UeContext
get ueid s = lookup ueid s

unfoldable pub delete_context : ℕ → UeStore → UeStore
delete_context ueid s = delete ueid s

-- `List`: the order of a Go map is not specified; here it is that of the association list.
unfoldable pub list : UeStore → List UeContext
list s = values s
