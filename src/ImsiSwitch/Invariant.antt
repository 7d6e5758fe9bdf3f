-- ===== src/ImsiSwitch/Invariant.antt =====
-- Every pending entry points into the heap at a decision of its own device.
use openmvn.Common.{
  ℕ, zero, suc, ◌≡◌, ◌≢◌, refl, sym, ap, ◌∙◌, Bool, true, false, Option, none, some, List, [], ◌∷◌,
  ◌++◌, String, arith, length, get_elem?, set, Option-cases, inl, inr, string_key, if◌then◌else◌,
}
use native.Mathlib.Decide.{ℕ_discrete}
use mathlib.Core.Path.{subst}
use openmvn.Common.Map.{
  lookup, delete, IsUnique, insert-IsUnique, delete-IsUnique, Entries, insert-Entries,
  delete-Entries, Entries-mono,
}
use openmvn.ImsiSwitch.{SwitchDecision, Receiver, on_switch, respond, is_final, set_status}

-- The address `p` holds a decision for the device.
abbrev pub IsPending : List SwitchDecision → String → ℕ → Type 0
IsPending heap device p =
    (d : SwitchDecision) × (get_elem? heap p ≡ some d) × (d.device_id ≡ device)

pub record IsValid (r : Receiver) : Type 0 where
  pub unique : IsUnique r.pending
  pub pointers : Entries (IsPending r.heap) r.pending

pub get_elem?-last :
    (h : List SwitchDecision) (d : SwitchDecision) → get_elem? (h ++ d ∷ []) (length h) ≡ some d
get_elem?-last [] d = refl
get_elem?-last (x ∷ h) d = get_elem?-last h d

pub get_elem?-append :
    (h t : List SwitchDecision) (p : ℕ) {d : SwitchDecision}
    → get_elem? h p ≡ some d
    → get_elem? (h ++ t) p ≡ some d
get_elem?-append [] t p e = absurd (ground arith)
get_elem?-append (x ∷ h) t zero e = e
get_elem?-append (x ∷ h) t (suc p) e = get_elem?-append h t p e

pub get_elem?-set_self :
    (h : List SwitchDecision) (p : ℕ) (d : SwitchDecision) {old : SwitchDecision}
    → get_elem? h p ≡ some old
    → get_elem? (set h p d) p ≡ some d
get_elem?-set_self [] p d e = absurd (ground arith)
get_elem?-set_self (x ∷ h) zero d e = refl
get_elem?-set_self (x ∷ h) (suc p) d e = get_elem?-set_self h p d e

pub get_elem?-set_ne :
    (h : List SwitchDecision) (p q : ℕ) (d : SwitchDecision)
    → p ≢ q
    → get_elem? (set h p d) q ≡ get_elem? h q
get_elem?-set_ne [] p q d ne = refl
get_elem?-set_ne (x ∷ h) zero zero d ne = absurd (ne refl)
get_elem?-set_ne (x ∷ h) zero (suc q) d ne = refl
get_elem?-set_ne (x ∷ h) (suc p) zero d ne = refl
get_elem?-set_ne (x ∷ h) (suc p) (suc q) d ne = get_elem?-set_ne h p q d (λ e. ne (ap suc e))

set_status_found :
    (h : List SwitchDecision) (p : ℕ) (status : String) {d : SwitchDecision}
    → get_elem? h p ≡ some d
    → set_status p status h ≡ set h p (record d { status = status })
set_status_found h p status e = ground arith

set_status_dangling :
    (h : List SwitchDecision) (p : ℕ) (status : String)
    → get_elem? h p ≡ none
    → set_status p status h ≡ h
set_status_dangling h p status e = ground arith

pub set_status_self :
    (h : List SwitchDecision) (p : ℕ) (status : String) {d : SwitchDecision}
    → get_elem? h p ≡ some d
    → get_elem? (set_status p status h) p ≡ some (record d { status = status })
set_status_self h p status {d} e =
    ap (λ x. get_elem? x p) (set_status_found h p status e)
    ∙ get_elem?-set_self h p (record d { status = status }) e

pub set_status-ne :
    (h : List SwitchDecision) (p q : ℕ) (status : String)
    → p ≢ q
    → get_elem? (set_status p status h) q ≡ get_elem? h q
set_status-ne h p q status ne = elim (Option-cases (get_elem? h p)) [
  | inl out ↦ ap (λ x. get_elem? x q) (set_status_dangling h p status out)
  | inr (d, e) ↦
      ap (λ x. get_elem? x q) (set_status_found h p status e)
      ∙ get_elem?-set_ne h p q (record d { status = status }) ne
]

set_status-IsPending :
    (h : List SwitchDecision) (p : ℕ) (status : String) (device : String) (q : ℕ)
    → IsPending h device q
    → IsPending (set_status p status h) device q
set_status-IsPending h p status device q (d, e, same) = elim (ℕ_discrete p q) [
  | yes here ↦ (
    record d { status = status },
    subst (λ x. get_elem? (set_status p status h) x ≡ some (record d { status = status })) here
        (set_status_self h p status (subst (λ x. get_elem? h x ≡ some d) (sym here) e)),
    same,
  )
  | no there ↦ (d, set_status-ne h p q status there ∙ e, same)
]

-- A switch event keeps the receiver valid.
pub on_switch-IsValid :
    (event : Option SwitchDecision) (r : Receiver) → IsValid r → IsValid (on_switch event r)
unfolding on_switch
on_switch-IsValid none r h = h
on_switch-IsValid (some event) r h =
    let heap : List SwitchDecision = r.heap ++ event ∷ [] in
    record {
      unique = insert-IsUnique event.device_id (length r.heap) r.pending h.unique;
      pointers =
          insert-Entries (IsPending heap) event.device_id (length r.heap) r.pending
            (event, get_elem?-last r.heap event, refl)
            (Entries-mono r.pending
              (λ k p w. (w.0, get_elem?-append r.heap (event ∷ []) p w.1, w.2)) h.pointers);
    }

-- A response keeps the receiver valid.
pub respond-IsValid :
    (device : String) (body : Option String) (r : Receiver)
    → IsValid r
    → IsValid (respond device body r).0
unfolding respond
respond-IsValid device none r h = h
respond-IsValid device (some status) r h = elim (Option-cases (lookup device r.pending)) [
  | inl absent ↦ rw (absent, respond) h
  | inr (p, e) ↦
      rw (e, respond)
        (record { unique = kept (is_final status); pointers = moved p (is_final status) })
]
  where
    kept : (b : Bool) → IsUnique (if b then delete device r.pending else r.pending)
    kept true = delete-IsUnique device r.pending h.unique
    kept false = h.unique

    moved :
        (p : ℕ) (b : Bool)
        → Entries
            (IsPending (set_status p status r.heap))
            (if b then delete device r.pending else r.pending)
    moved p b =
        elim b
          as (λ c.
            Entries (IsPending (set_status p status r.heap))
              (if c then delete device r.pending else r.pending)) [
                | true ↦
                    delete-Entries (IsPending (set_status p status r.heap)) device r.pending (all p)
                | false ↦ all p
              ]
      where
        all : (p : ℕ) → Entries (IsPending (set_status p status r.heap)) r.pending
        all p =
            Entries-mono r.pending (λ k q w. set_status-IsPending r.heap p status k q w) h.pointers
