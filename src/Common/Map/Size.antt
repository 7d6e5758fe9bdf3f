-- ===== src/Common/Map/Size.antt =====
-- Keys occur once, entries satisfy a predicate, and how the operations change the size.
use Prim.Native.Nat.{◌+◌}
use mathlib.Core.Path.{◌≡◌, refl, subst}
use mathlib.Core.Option.{none, some}
use mathlib.Core.List.{[], ◌∷◌}
use native.Mathlib.Omega.{arith}
use openmvn.Common.Key.{Key}
use openmvn.Common.Map.Defs.{Map, lookup, insert, delete, size}
use openmvn.Common.Map.Laws.{lookup-insert_ne, lookup-delete, delete_absent}

module _ {ℓ κ} {K : Type ℓ} {V : Type κ} ⦃e : Key K⦄ where
  -- No key is listed twice.
  abbrev pub IsUnique : Map K V → Type κ
  IsUnique [] = Unit
  IsUnique ((k, v) ∷ m) = (lookup k m ≡ none) × IsUnique m

  pub insert-IsUnique : (k : K) (v : V) (m : Map K V) → IsUnique m → IsUnique (insert k v m)
  unfolding insert lookup
  insert-IsUnique k v [] h = (refl, tt)
  insert-IsUnique k v ((j, w) ∷ m) h =
      ground
        (arith, e.beq_iff j k, e.beq_iff k j, insert-IsUnique k v m h.1, lookup-insert_ne k j v m)

  pub delete-IsUnique : (k : K) (m : Map K V) → IsUnique m → IsUnique (delete k m)
  unfolding delete
  delete-IsUnique k [] h = tt
  delete-IsUnique k ((j, w) ∷ m) h =
      ground (arith, e.beq_iff k j, e.beq_iff j k, delete-IsUnique k m h.1, lookup-delete k j m)

  pub size-insert_new :
      (k : K) (v : V) (m : Map K V) → lookup k m ≡ none → size (insert k v m) ≡ size m + 1
  unfolding insert lookup
  size-insert_new k v [] h = refl
  size-insert_new k v ((j, w) ∷ m) h = ground (arith, size-insert_new k v m)

  pub size-insert_old :
      (k : K) (v w : V) (m : Map K V) → lookup k m ≡ some w → size (insert k v m) ≡ size m
  unfolding insert lookup
  size-insert_old k v w [] h = ground arith
  size-insert_old k v w ((j, u) ∷ m) h = ground (arith, size-insert_old k v w m)

  pub size-delete :
      (k : K) (w : V) (m : Map K V)
      → IsUnique m
      → lookup k m ≡ some w
      → size (delete k m) + 1 ≡ size m
  unfolding delete lookup
  size-delete k w [] h p = ground arith
  size-delete k w ((j, u) ∷ m) h p = ground (
    arith,
    e.beq_iff j k,
    size-delete k w m h.1,
    λ (q : j ≡ k). delete_absent k m (subst (λ x. lookup x m ≡ none) q h.0),
  )
