-- ===== src/Common/Map/Values.antt =====
-- The values of a map are what its keys hold.
use mathlib.Core.Path.{◌≡◌, refl, sym, ap}
use mathlib.Core.Logic.{inl, inr}
use mathlib.Core.Bool.{true}
use mathlib.Core.Option.{some}
use mathlib.Core.List.{[], ◌∷◌, Memᴰ}
use native.Mathlib.Omega.{arith}
use openmvn.Common.Tests.{Bool-cases}
use openmvn.Common.Key.{Key, ◌==◌, beq_self, beq→eq}
use openmvn.Common.Lists.{length}
use openmvn.Common.Map.Defs.{Map, lookup, values, size}
use openmvn.Common.Map.Size.{IsUnique}

module _ {ℓ κ} {K : Type ℓ} {V : Type κ} ⦃e : Key K⦄ where
  pub lookup-mem : (k : K) (v : V) (m : Map K V) → lookup k m ≡ some v → Memᴰ v (values m)
  unfolding lookup
  lookup-mem k v [] h = absurd (ground arith)
  lookup-mem k v ((j, w) ∷ m) h = elim (Bool-cases (j == k)) [
    | inl same ↦ Memᴰ.head (found same)
    | inr other ↦ Memᴰ.tail (lookup-mem k v m (rw other at h))
  ]
    where
      found : (j == k) ≡ true → v ≡ w
      found same = ground arith

  pub mem-lookup :
      (v : V) (m : Map K V) → IsUnique m → Memᴰ v (values m) → (k : K) × (lookup k m ≡ some v)
  unfolding lookup
  mem-lookup v [] u h = elim h [ ]
  mem-lookup v ((j, w) ∷ m) u (Memᴰ.head p) = (j, rw (beq_self j) (ap some (sym p)))
  mem-lookup v ((j, w) ∷ m) u (Memᴰ.tail h) =
      let (k, q) = mem-lookup v m u.1 h in
      elim (Bool-cases (j == k)) [
        | inl same ↦ absurd (clash k q (beq→eq j k same))
        | inr other ↦ (k, rw other q)
      ]
    where
      clash : (k : K) → lookup k m ≡ some v → j ≡ k → ⊥
      clash k q p = ground arith

module _ {ℓ κ} {K : Type ℓ} {V : Type κ} where
  pub length-values : (m : Map K V) → length (values m) ≡ size m
  length-values [] = refl
  length-values ((k, v) ∷ m) = omega (arith, length-values m)
