-- ===== src/Common/Map/Every.antt =====
-- A predicate that holds of every entry of a map.
use mathlib.Core.Path.{◌≡◌, subst}
use mathlib.Core.Bool.{true}
use mathlib.Core.Option.{some}
use mathlib.Core.List.{[], ◌∷◌}
use mathlib.Core.Logic.{inl, inr}
use native.Mathlib.Omega.{arith}
use openmvn.Common.Tests.{Bool-cases}
use openmvn.Common.Key.{Key, ◌==◌, beq→eq}
use openmvn.Common.Map.Defs.{Map, lookup, insert, delete}

module _ {ℓ κ μ} {K : Type ℓ} {V : Type κ} (P : K → V → Type μ) where
  abbrev pub Entries : Map K V → Type μ
  Entries [] = Unit
  Entries ((k, v) ∷ m) = P k v × Entries m

module _ {ℓ κ μ} {K : Type ℓ} {V : Type κ} ⦃e : Key K⦄ (P : K → V → Type μ) where
  pub insert-Entries :
      (k : K) (v : V) (m : Map K V) → P k v → Entries P m → Entries P (insert k v m)
  unfolding insert
  insert-Entries k v [] p h = (p, tt)
  insert-Entries k v ((j, w) ∷ m) p h = elim (Bool-cases (j == k)) [
    | inl same ↦ rw same (p, h.1)
    | inr other ↦ rw other (h.0, insert-Entries k v m p h.1)
  ]

  pub delete-Entries : (k : K) (m : Map K V) → Entries P m → Entries P (delete k m)
  unfolding delete
  delete-Entries k [] h = tt
  delete-Entries k ((j, w) ∷ m) h = elim (Bool-cases (j == k)) [
    | inl same ↦ rw same (delete-Entries k m h.1)
    | inr other ↦ rw other (h.0, delete-Entries k m h.1)
  ]

  pub lookup-Entries : (k : K) {v : V} (m : Map K V) → Entries P m → lookup k m ≡ some v → P k v
  unfolding lookup
  lookup-Entries k [] h q = absurd (ground arith)
  lookup-Entries k {v} ((j, w) ∷ m) h q = elim (Bool-cases (j == k)) [
    | inl same ↦ subst (λ x. P k x) (found same) (subst (λ x. P x w) (beq→eq j k same) h.0)
    | inr other ↦ lookup-Entries k m h.1 (rw other at q)
  ]
    where
      found : (j == k) ≡ true → w ≡ v
      found same = ground arith

module _ {ℓ κ μ} {K : Type ℓ} {V : Type κ} {P Q : K → V → Type μ} where
  pub Entries-mono : (m : Map K V) → ((k : K) (v : V) → P k v → Q k v) → Entries P m → Entries Q m
  Entries-mono [] f h = tt
  Entries-mono ((k, v) ∷ m) f h = (f k v h.0, Entries-mono m f h.1)
