-- ===== src/Amf/Api/Answers.antt =====
-- What the management API answers and changes.
use openmvn.Common.{
  ℕ, ◌+◌, ◌≤◌, ◌≡◌, ◌≢◌, refl, ap, ◌⊎◌, inl, inr, Bool, true, false, none, some, List, String,
  arith, nat_key, Option-cases, Bool-cases, length,
}
use mathlib.Core.List.{Memᴰ}
use openmvn.Common.Map.{
  lookup, size, values, IsUnique, lookup-delete_self, lookup-delete_ne, size-delete, delete,
  mem-lookup, lookup-mem, length-values,
}
use openmvn.Common.Decimal.{max_uint64, print_uint, parse_uint}
use openmvn.Common.Decimal.RoundTrip.{parse_uint-print_uint}
use openmvn.Common.Http.{nothing, http_error, json, Response}
use openmvn.Amf.Store.{UeContext, UeStore, get, delete_context, list}
use openmvn.Amf.Api.{get_ue, delete_ue, list_ues}

-- The answers of GetUE: 400 for a path that is no uint64, 404 for an id without a context, 200 with
-- the context, and 500 where the context cannot be encoded.
abbrev pub GetAnswers : (UeContext → Bool) → String → UeStore → Response UeContext → Type 0
GetAnswers encodes path s r =
    ((parse_uint path ≡ none) × (r.status ≡ 400))
    ⊎ ((ueid : ℕ) × (parse_uint path ≡ some ueid) × (lookup ueid s ≡ none) × (r.status ≡ 404))
    ⊎ ((ueid : ℕ) × (ue : UeContext) × (parse_uint path ≡ some ueid)
        × (lookup ueid s ≡ some ue)
        × (((encodes ue ≡ true) × (r.status ≡ 200) × (r.body ≡ json ue))
            ⊎ ((encodes ue ≡ false) × (r.status ≡ 500))))

-- GetUE answers 400, 404, 200 or 500, each exactly in its case, and 200 carries the context stored
-- under the number that the path denotes.
pub get_ue-answers :
    (encodes : UeContext → Bool) (path : String) (s : UeStore)
    → GetAnswers encodes path s (get_ue encodes path s)
unfolding get_ue get
get_ue-answers encodes path s = elim (Option-cases (parse_uint path)) [
  | inl bad ↦ inl (bad, ground arith)
  | inr (ueid, e) ↦ elim (Option-cases (lookup ueid s)) [
    | inl absent ↦ inr (inl (ueid, e, absent, ground arith))
    | inr (ue, f) ↦ elim (Bool-cases (encodes ue)) [
      | inl fine ↦ inr (inr (ueid, ue, e, f, inl (fine, ground arith, ground arith)))
      | inr fails ↦ inr (inr (ueid, ue, e, f, inr (fails, ground arith)))
    ]
  ]
]

-- A registered UE is found under the decimal text of its id, the text that its registration event
-- carries, if its context can be encoded.
pub get_ue-print_uint :
    (encodes : UeContext → Bool) (ueid : ℕ) (s : UeStore) {ue : UeContext}
    → ueid ≤ max_uint64
    → lookup ueid s ≡ some ue
    → encodes ue ≡ true
    → get_ue encodes (print_uint ueid) s ≡ record { status = 200; body = json ue }
unfolding get_ue get
get_ue-print_uint encodes ueid s fits e fine =
    rw (parse_uint-print_uint ueid fits, get_ue) (ground arith)

delete_ue_found :
    (path : String) (ueid : ℕ) (ue : UeContext) (s : UeStore)
    → parse_uint path ≡ some ueid
    → lookup ueid s ≡ some ue
    → delete_ue path s ≡ (delete ueid s, record { status = 204; body = nothing })
unfolding delete_ue get delete_context
delete_ue_found path ueid ue s p e = ground arith

delete_ue_absent :
    (path : String) (ueid : ℕ) (s : UeStore)
    → parse_uint path ≡ some ueid
    → lookup ueid s ≡ none
    → delete_ue path s ≡ (s, http_error "UE not found" 404)
unfolding delete_ue get
delete_ue_absent path ueid s p e = ground arith

-- Deleting the context of a registered UE by the decimal text of its id answers 204, removes that
-- context, keeps every other, and leaves one context less; what follows for that UE is 404.
pub delete_ue-removes :
    (ueid : ℕ) (s : UeStore) {ue : UeContext}
    → ueid ≤ max_uint64
    → IsUnique s
    → lookup ueid s ≡ some ue
    → let (s', r) = delete_ue (print_uint ueid) s in
      (r.status ≡ 204)
      × (lookup ueid s' ≡ none)
      × ((k : ℕ) → ueid ≢ k → lookup k s' ≡ lookup k s)
      × (size s' + 1 ≡ size s)
      × ((delete_ue (print_uint ueid) s').1.status ≡ 404)
delete_ue-removes ueid s {ue} fits u e =
    let gone : lookup ueid (delete ueid s) ≡ none = lookup-delete_self ueid s in
    let path_ok = parse_uint-print_uint ueid fits in
    rw (delete_ue_found (print_uint ueid) ueid ue s path_ok e) (
      refl,
      gone,
      λ k ne. lookup-delete_ne ueid k s ne,
      size-delete ueid ue s u e,
      ap (λ p. p.1.status) (delete_ue_absent (print_uint ueid) ueid (delete ueid s) path_ok gone),
    )

-- A deletion that does not answer 204 changes nothing: the path is no uint64 or names no context.
pub delete_ue-refused :
    (path : String) (s : UeStore)
    → (delete_ue path s).1.status ≢ 204
    → ((delete_ue path s).0 ≡ s) × ((ueid : ℕ) → parse_uint path ≡ some ueid → lookup ueid s ≡ none)
unfolding delete_ue get delete_context
delete_ue-refused path s h = (ground arith, λ ueid e. ground arith)

-- The listing answers 200 with exactly the contexts that the store holds, each once: a context is
-- listed if and only if it is stored under some id, and there are as many as ids.
pub list_ues-lists :
    (s : UeStore)
    → IsUnique s
    → (ues : List UeContext) × (list_ues s ≡ record { status = 200; body = json ues })
      × (length ues ≡ size s)
      × ((ue : UeContext) → Memᴰ ue ues → (ueid : ℕ) × (lookup ueid s ≡ some ue))
      × ((ue : UeContext) (ueid : ℕ) → lookup ueid s ≡ some ue → Memᴰ ue ues)
unfolding list_ues list
list_ues-lists s u = (
  values s,
  refl,
  length-values s,
  λ ue h. mem-lookup ue s u h,
  λ ue ueid h. lookup-mem ueid ue s h,
)
