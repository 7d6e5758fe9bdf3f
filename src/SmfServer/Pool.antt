-- ===== src/SmfServer/Pool.antt =====
-- The pool of UE addresses (`initIPPool` of cmd/smf/main.go).
use openmvn.Common.{
  tests, ℕ, zero, suc, ◌+◌, ◌*◌, ◌^◌, ◌≤◌, ◌<◌, ◌≡◌, ◌≢◌, refl, ap, ◌∙◌, Bool, true, false, ◌&&◌,
  List, [], ◌∷◌, arith, length, map, All, ◌==◌, nat_key, if◌then◌else◌, Bool-cases, inl, inr,
}
use mathlib.Core.Path.{subst, ap₂}
use native.Mathlib.Decide.{dec_lt}
use native.Mathlib.Nat.{mod-eq_of_lt}
use openmvn.SmfServer.Ip.{Ip, value, IsByte, next_ip, next_ip-value, value-lt}

-- `ip.Equal(end)`, for addresses of one length.
unfoldable pub ip_equal : Ip → Ip → Bool
ip_equal [] [] = true
ip_equal [] (_ ∷ _) = false
ip_equal (_ ∷ _) [] = false
ip_equal (x ∷ xs) (y ∷ ys) = (x == y) && ip_equal xs ys

-- The loop `for ip := start; !ip.Equal(end); ip = nextIP(ip)`.
unfoldable pub pool_from : ℕ → Ip → Ip → List Ip
unfolding ip_equal
pool_from zero ip end = []
pool_from (suc fuel) ip end =
    let rest = pool_from fuel (next_ip ip) end in if ip_equal ip end then [] else ip ∷ rest

abbrev pub ip_pool_start : Ip
ip_pool_start = 10 ∷ 0 ∷ 0 ∷ 1 ∷ []

abbrev pub ip_pool_end : Ip
ip_pool_end = 10 ∷ 0 ∷ 0 ∷ 254 ∷ []

unfoldable pub init_ip_pool : List Ip
init_ip_pool = pool_from 256 ip_pool_start ip_pool_end

ip_equal→eq : (xs ys : Ip) → ip_equal xs ys ≡ true → xs ≡ ys
unfolding ip_equal
ip_equal→eq [] [] h = refl
ip_equal→eq [] (y ∷ ys) h = absurd (ground arith)
ip_equal→eq (x ∷ xs) [] h = absurd (ground arith)
ip_equal→eq (x ∷ xs) (y ∷ ys) h = grind (tests, ip_equal→eq xs ys)

ip_equal_self : (xs : Ip) → ip_equal xs xs ≡ true
unfolding ip_equal
ip_equal_self [] = refl
ip_equal_self (x ∷ xs) = grind (tests, ip_equal_self xs)

reached : (xs ys : Ip) → xs ≡ ys → ip_equal xs ys ≡ true
reached xs ys e = subst (λ z. ip_equal xs z ≡ true) e (ip_equal_self xs)

apart : (xs ys : Ip) → xs ≢ ys → ip_equal xs ys ≡ false
apart xs ys ne = elim (Bool-cases (ip_equal xs ys)) [
  | inl same ↦ absurd (ne (ip_equal→eq xs ys same))
  | inr other ↦ other
]

-- With a smaller leading digit the number is smaller.
digit_order : (p x y v w : ℕ) → v < p → x < y → x * p + v < y * p + w
digit_order p x y v w hv lt = let room : suc x * p ≤ y * p = grind arith in omega (arith, room)

digits_unique : (p x y v w : ℕ) → v < p → w < p → x * p + v ≡ y * p + w → (x ≡ y) × (v ≡ w)
digits_unique p x y v w hv hw e = elim (dec_lt x y) [
  | yes less ↦ absurd (omega (arith, digit_order p x y v w hv less))
  | no not_less ↦ elim (dec_lt y x) [
    | yes more ↦ absurd (omega (arith, digit_order p y x w v hw more))
    | no not_more ↦
        let same : x ≡ y = omega arith in (same, omega (arith, ap (λ (t : ℕ). t * p) same))
  ]
]

-- Addresses of one length with the same number are the same.
pub value-injective :
    (xs ys : Ip)
    → All IsByte xs
    → All IsByte ys
    → length xs ≡ length ys
    → value xs ≡ value ys
    → xs ≡ ys
value-injective [] [] ha hb l e = refl
value-injective [] (y ∷ ys) ha hb l e = absurd (omega arith)
value-injective (x ∷ xs) [] ha hb l e = absurd (omega arith)
value-injective (x ∷ xs) (y ∷ ys) (hx, rx) (hy, ry) l e =
    let same : length xs ≡ length ys = omega arith in
    let split =
      digits_unique (256 ^ length ys) x y (value xs) (value ys) (rw same at (value-lt xs rx))
        (value-lt ys ry) (rw same at e) in
    ap₂ (λ d r. d ∷ r) split.0 (value-injective xs ys rx ry same split.1)

-- `n` numbers from `s` on.
abbrev pub range_from : ℕ → ℕ → List ℕ
range_from s zero = []
range_from s (suc n) = s ∷ range_from (s + 1) n

next_ip_below :
    (ip : Ip) → All IsByte ip → value ip + 1 < 256 ^ length ip → value (next_ip ip) ≡ value ip + 1
next_ip_below ip h lt = (next_ip-value ip h).0 ∙ mod-eq_of_lt lt

-- With the fuel above the distance from start to end, the loop reaches the end: the pool holds, in
-- order, the addresses of all numbers from that of the start up to that of the end, the end excluded.
pub pool_from-range :
    (fuel n : ℕ) (start end : Ip)
    → All IsByte start
    → All IsByte end
    → length start ≡ length end
    → value start + n ≡ value end
    → n < fuel
    → map value (pool_from fuel start end) ≡ range_from (value start) n
unfolding pool_from
pool_from-range zero n start end hs he l e lt = elim lt [ ]
pool_from-range (suc f) zero start end hs he l e lt =
    let same : start ≡ end = value-injective start end hs he l (omega arith) in
    rw (reached start end same)
pool_from-range (suc f) (suc n) start end hs he l e lt =
    let (_, same_length, bytes) = next_ip-value start hs in
    let step : value (next_ip start) ≡ value start + 1 =
      next_ip_below start hs (rw l (omega (arith, value-lt end he))) in
    rw (apart start end (λ same. omega (arith, ap value same))) (
      ap (λ r. value start ∷ r)
        (pool_from-range f n (next_ip start) end bytes he (same_length ∙ l) (omega (arith, step))
            (omega arith)
          ∙ ap (λ s. range_from s n) step))

-- The pool of the server: 253 addresses, numbered from 10.0.0.1 on; 10.0.0.254, the declared end of
-- the pool, is not among them.
pub init_ip_pool-range : map value init_ip_pool ≡ range_from (value ip_pool_start) 253
unfolding init_ip_pool
init_ip_pool-range =
    pool_from-range 256 253 ip_pool_start ip_pool_end (omega arith) (omega arith) refl refl
      (omega arith)
