-- ===== src/Common/Int64.antt =====
-- Go's `int` on a 64-bit machine, as its bit pattern, with the integer that it stands for.
use Prim.Native.Nat.{ℕ, ◌+◌, ◌-◌, ◌%◌, ◌^◌, ◌≤◌, ◌<◌}
use mathlib.Core.Path.{◌≡◌}
use mathlib.Core.Logic.{◌↔◌, ◌⊎◌}
use mathlib.Core.Bool.{Bool, false, ◌||◌}
use native.Mathlib.Omega.{arith}
use openmvn.Common.Tests.{ltb, leb, nat_beq, if◌then◌else◌}

abbrev pub word : ℕ
word = 2 ^ 64

abbrev pub sign_bit : ℕ
sign_bit = 2 ^ 63

-- `a + b` on `int`: the sum of the bit patterns, modulo 2 ^ 64.
unfoldable pub add_int : ℕ → ℕ → ℕ
add_int a b = (a + b) % word

-- `a <= 0`: zero, or the sign bit is set.
unfoldable pub is_nonpositive : ℕ → Bool
is_nonpositive a = nat_beq a 0 || leb sign_bit a

-- The integer of a pattern, as a difference of two naturals: `value a` is `above a - below a`.
abbrev pub above : ℕ → ℕ
above a = if ltb a sign_bit then a else 0

abbrev pub below : ℕ → ℕ
below a = if ltb a sign_bit then 0 else word - a

-- The integer of `a` is negative.
abbrev pub IsNegative : ℕ → Type 0
IsNegative a = sign_bit ≤ a

-- A pattern in the range of the machine word.
abbrev pub IsWord : ℕ → Type 0
IsWord a = a < word

pub add_int-IsWord : (a b : ℕ) → IsWord (add_int a b)
unfolding add_int
add_int-IsWord a b = omega arith

-- Without overflow the integers add up.
pub add_int_value :
    (a b : ℕ)
    → IsWord a
    → b < sign_bit
    → (a < sign_bit → a + b < sign_bit)
    → above (add_int a b) + below a ≡ above a + b + below (add_int a b)
unfolding add_int
add_int_value a b wa pb fits = ground arith

-- Two positive numbers whose sum leaves the range add up to a negative one.
pub add_int_overflow :
    (a b : ℕ) → a < sign_bit → b < sign_bit → sign_bit ≤ a + b → IsNegative (add_int a b)
unfolding add_int
add_int_overflow a b pa pb big = omega arith

-- Adding twice is adding the sum.
pub add_int-sum : (a b c : ℕ) → add_int (add_int a b) c ≡ add_int a (b + c)
unfolding add_int
add_int-sum a b c = omega arith

pub add_int_zero : (a : ℕ) → IsWord a → add_int a 0 ≡ a
unfolding add_int
add_int_zero a h = omega arith

pub is_nonpositive-false : (a : ℕ) → is_nonpositive a ≡ false → a < sign_bit
unfolding is_nonpositive
is_nonpositive-false a h = ground arith

-- The sum of a number and a positive one is negative exactly if it leaves the range, or the first
-- number is negative and its amount is larger.
pub add_int-IsNegative :
    (a b : ℕ)
    → IsWord a
    → b < sign_bit
    → IsNegative (add_int a b)
      ↔ (((a < sign_bit) × (sign_bit ≤ a + b)) ⊎ (IsNegative a × (a + b < word)))
unfolding add_int
add_int-IsNegative a b wa pb = (λ h. ground arith, λ h. ground arith)
