-- ===== src/Common/Lists.antt =====
-- Lists measured by native numbers, and predicates over them.
use Prim.Native.Nat.{ℕ, zero, suc, ◌+◌}
use mathlib.Core.Path.{◌≡◌, refl, ap, ◌∙◌}
use mathlib.Core.Logic.{◌≢◌}
use mathlib.Core.List.{List, [], ◌∷◌, ◌++◌}
use mathlib.Core.Option.{Option, none, some}
use native.Mathlib.Omega.{arith}

module _ {ℓ} {A : Type ℓ} where
  abbrev pub length : List A → ℕ
  length [] = 0
  length (x ∷ xs) = suc (length xs)

  abbrev pub get_elem? : List A → ℕ → Option A
  get_elem? [] i = none
  get_elem? (x ∷ xs) zero = some x
  get_elem? (x ∷ xs) (suc i) = get_elem? xs i

  abbrev pub take : ℕ → List A → List A
  take zero xs = []
  take (suc n) [] = []
  take (suc n) (x ∷ xs) = x ∷ take n xs

  abbrev pub get_or : List A → ℕ → A → A
  get_or [] i d = d
  get_or (x ∷ xs) zero d = x
  get_or (x ∷ xs) (suc i) d = get_or xs i d

  -- A write out of bounds changes nothing.
  abbrev pub set : List A → ℕ → A → List A
  set [] i v = []
  set (x ∷ xs) zero v = v ∷ xs
  set (x ∷ xs) (suc i) v = x ∷ set xs i v

  abbrev pub replicate : ℕ → A → List A
  replicate zero a = []
  replicate (suc n) a = a ∷ replicate n a

  pub length-append : (xs ys : List A) → length (xs ++ ys) ≡ length xs + length ys
  length-append [] ys = omega arith
  length-append (x ∷ xs) ys = omega (arith, length-append xs ys)

  -- A list without one of its entries.
  pub length-taken :
      (l xs ys : List A) (x : A) → l ≡ xs ++ x ∷ ys → length l ≡ length (xs ++ ys) + 1
  length-taken l xs ys x e =
      ap length e ∙ omega (arith, length-append xs (x ∷ ys), length-append xs ys)

  pub taken≢nil : (xs ys : List A) (x : A) → [] ≢ xs ++ x ∷ ys
  taken≢nil xs ys x e = omega (arith, length-taken [] xs ys x e)

module _ {ℓ κ} {A : Type ℓ} (P : A → Type κ) where
  -- The predicate holds of every entry.
  abbrev pub All : List A → Type κ
  All [] = Unit
  All (x ∷ xs) = P x × All xs

  pub All-append : (xs ys : List A) → All xs → All ys → All (xs ++ ys)
  All-append [] ys _ h = h
  All-append (x ∷ xs) ys (p, hs) h = (p, All-append xs ys hs h)

  pub All-split : (xs ys : List A) (x : A) → All (xs ++ x ∷ ys) → P x × All (xs ++ ys)
  All-split [] ys x h = h
  All-split (z ∷ xs) ys x (p, h) = let (q, r) = All-split xs ys x h in (q, (p, r))

module _ {ℓ κ} {A : Type ℓ} {P Q : A → Type κ} where
  pub All_mono : (xs : List A) → ((x : A) → P x → Q x) → All P xs → All Q xs
  All_mono [] f h = tt
  All_mono (x ∷ xs) f h = (f x h.0, All_mono xs f h.1)

module _ {ℓ} {A : Type ℓ} where
  pub length-set : (xs : List A) (i : ℕ) (v : A) → length (set xs i v) ≡ length xs
  length-set [] i v = refl
  length-set (x ∷ xs) zero v = refl
  length-set (x ∷ xs) (suc i) v = ap suc (length-set xs i v)

-- The lengths of lists that are put together and taken apart.
pub ruleset lengths = (arith, length-append, length-taken)
