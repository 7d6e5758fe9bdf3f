-- ===== src/Common/Decimal/RoundTrip.antt =====
-- What is printed parses back, and what parses is in range.
use Prim.Native.Nat.{ℕ, zero, suc, ◌+◌, ◌*◌, ◌/◌, ◌%◌, ◌^◌, ◌≤◌, ◌<◌}
use Prim.Native.Char.{Char, code}
use Prim.Native.String.{String, [], ◌∷◌}
use mathlib.Core.Path.{◌≡◌, refl, ap, ◌∙◌}
use mathlib.Core.Logic.{inl, inr}
use mathlib.Core.Option.{some}
use native.Mathlib.Nat.{pow-suc}
use native.Mathlib.Omega.{arith}
use openmvn.Common.Tests.{ltb, Bool-cases, Option-cases, ltb→lt, lt→ltb}
use openmvn.Common.Decimal.{
  max_uint64, digit, print_from, print_uint, push_digit, parse_from, parse_uint,
}

code-digit : (d : ℕ) → d < 10 → code (digit d) ≡ b'0' + d
unfolding digit
code-digit zero h = refl
code-digit (suc zero) h = refl
code-digit (suc (suc zero)) h = refl
code-digit (suc (suc (suc zero))) h = refl
code-digit (suc (suc (suc (suc zero)))) h = refl
code-digit (suc (suc (suc (suc (suc zero))))) h = refl
code-digit (suc (suc (suc (suc (suc (suc zero)))))) h = refl
code-digit (suc (suc (suc (suc (suc (suc (suc zero))))))) h = refl
code-digit (suc (suc (suc (suc (suc (suc (suc (suc zero)))))))) h = refl
code-digit (suc (suc (suc (suc (suc (suc (suc (suc (suc zero))))))))) h = refl
code-digit (suc (suc (suc (suc (suc (suc (suc (suc (suc (suc d)))))))))) h = absurd (omega arith)

push_digit-digit :
    (n d : ℕ) → d < 10 → n * 10 + d ≤ max_uint64 → push_digit n (code (digit d)) ≡ some (n * 10 + d)
unfolding push_digit
push_digit-digit n d h fits = rw (code-digit d h) (ground arith)

parse_from-digit :
    (n d : ℕ) (s : String)
    → d < 10
    → n * 10 + d ≤ max_uint64
    → parse_from n (digit d ∷ s) ≡ parse_from (n * 10 + d) s
unfolding parse_from
parse_from-digit n d s h fits = rw (push_digit-digit n d h fits, parse_from)

-- The first digit starts the value.
parse_from-first : (d : ℕ) (s : String) → d < 10 → parse_from 0 (digit d ∷ s) ≡ parse_from d s
parse_from-first d s h =
    parse_from-digit 0 d s h (omega arith) ∙ ap (λ k. parse_from k s) (omega arith)

tenth_lt : (n m : ℕ) → n < m * 10 → n / 10 < m
tenth_lt n m h = omega arith

parse_from_nil : (n : ℕ) → parse_from n [] ≡ some n
unfolding parse_from
parse_from_nil n = refl

-- Reading back what the formatter has put in front of a text.
parse_from-print_from :
    (fuel n : ℕ) (s : String)
    → n ≤ max_uint64
    → n < 10 ^ suc fuel
    → parse_from 0 (print_from (suc fuel) n s) ≡ parse_from n s
unfolding print_from
parse_from-print_from zero n s fits h = rw (lt→ltb n 10 h) (parse_from-first n s h)
parse_from-print_from (suc f) n s fits h = elim (Bool-cases (ltb n 10)) [
  | inl small ↦ rw small (parse_from-first n s (ltb→lt n 10 small))
  | inr large ↦
      let q : n / 10 < 10 ^ suc f = tenth_lt n (10 ^ suc f) (rw pow-suc at h) in
      rw large (
        parse_from-print_from f (n / 10) (digit (n % 10) ∷ s) (omega arith) q
        ∙ parse_from-digit (n / 10) (n % 10) s (omega arith) (omega arith)
        ∙ ap (λ k. parse_from k s) (omega arith))
]

print_from-ne-nil :
    (fuel n : ℕ) (s : String) (c : Char)
    → (d : Char) × (t : String) × (print_from fuel n (c ∷ s) ≡ d ∷ t)
unfolding print_from
print_from-ne-nil zero n s c = (c, s, refl)
print_from-ne-nil (suc f) n s c = elim (Bool-cases (ltb n 10)) [
  | inl small ↦ (digit n, c ∷ s, rw small)
  | inr large ↦ rw large (print_from-ne-nil f (n / 10) (c ∷ s) (digit (n % 10)))
]

print_from_cons : (fuel n : ℕ) → (d : Char) × (t : String) × (print_from (suc fuel) n [] ≡ d ∷ t)
unfolding print_from
print_from_cons f n = elim (Bool-cases (ltb n 10)) [
  | inl small ↦ (digit n, [], rw small)
  | inr large ↦ rw large (print_from-ne-nil f (n / 10) [] (digit (n % 10)))
]

-- On a text that is not empty the parser starts its loop at 0.
parse_uint_cons :
    (s : String) → ((d : Char) × (t : String) × (s ≡ d ∷ t)) → parse_uint s ≡ parse_from 0 s
unfolding parse_uint
parse_uint_cons s (d, t, e) = rw e refl

-- Every uint64 is read back from its decimal text.
pub parse_uint-print_uint : (n : ℕ) → n ≤ max_uint64 → parse_uint (print_uint n) ≡ some n
unfolding print_uint
parse_uint-print_uint n fits =
    parse_uint_cons (print_from 20 n []) (print_from_cons 19 n)
    ∙ parse_from-print_from 19 n [] fits (omega arith)
    ∙ parse_from_nil n

push_digit-le : (n c : ℕ) {m : ℕ} → push_digit n c ≡ some m → m ≤ max_uint64
unfolding push_digit
push_digit-le n c h = ground arith

parse_from-le :
    (n : ℕ) (s : String) {m : ℕ} → n ≤ max_uint64 → parse_from n s ≡ some m → m ≤ max_uint64
unfolding parse_from
parse_from-le n [] fits h = ground arith
parse_from-le n (c ∷ s) {m} fits h = elim (Option-cases (push_digit n (code c))) [
  | inl bad ↦ absurd (ground arith)
  | inr (k, e) ↦ parse_from-le k s (push_digit-le n (code c) e) (rw (e, parse_from) at h)
]

-- What parses is a uint64.
pub parse_uint-le : (s : String) {m : ℕ} → parse_uint s ≡ some m → m ≤ max_uint64
unfolding parse_uint
parse_uint-le [] h = absurd (ground arith)
parse_uint-le (c ∷ s) h = parse_from-le 0 (c ∷ s) (omega arith) h
