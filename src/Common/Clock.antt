-- ===== src/Common/Clock.antt =====
-- Readings of the clock. A handler takes what its calls of `time.Now()` give as arguments.
use Prim.Native.Nat.{ℕ}
use mathlib.Core.Bool.{Bool}
use openmvn.Common.Tests.{nat_beq}

-- `time.Time`; 0 is Go's zero time.
abbrev pub Time : Type 0
Time = ℕ

-- `t.IsZero()`
abbrev pub is_zero : Time → Bool
is_zero t = nat_beq t 0
