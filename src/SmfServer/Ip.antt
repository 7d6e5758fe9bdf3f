-- ===== src/SmfServer/Ip.antt =====
-- The successor of an IP address (`nextIP` of cmd/smf/main.go), and the number that an address is.
use openmvn.Common.{
  ℕ, zero, suc, ◌+◌, ◌*◌, ◌%◌, ◌^◌, ◌<◌, ◌≡◌, refl, ◌∙◌, Bool, true, false, ◌&&◌, List, [], ◌∷◌,
  arith, length, length-set, get_or, set, All, ◌==◌, nat_key, if◌then◌else◌, Bool-cases, inl, inr,
}
use native.Mathlib.Nat.{pow-suc}

-- `net.IP`: its bytes, the first the most significant.
abbrev pub Ip : Type 0
Ip = List ℕ

-- `next[i]++` on a byte.
abbrev pub bump : ℕ → ℕ
bump b = (b + 1) % 256

-- The loop of `nextIP` with `n` for `i + 1`: it ends at the first byte that does not wrap to 0.
unfoldable pub next_from : ℕ → Ip → Ip
next_from zero next = next
next_from (suc i) next =
    let next' : Ip = set next i (bump (get_or next i 0)) in
    let rest = next_from i next' in if bump (get_or next i 0) == 0 then rest else next'

unfoldable pub next_ip : Ip → Ip
unfolding next_from
next_ip ip = next_from (length ip) ip

-- The number that the bytes denote.
abbrev pub value : Ip → ℕ
value [] = 0
value (b ∷ bs) = b * 256 ^ length bs + value bs

abbrev pub IsByte : ℕ → Type 0
IsByte b = b < 256

-- Whether the loop runs off the front of the bytes.
carry : ℕ → Ip → Bool
carry zero bs = true
carry (suc i) bs =
    let rest = carry i (set bs i (bump (get_or bs i 0))) in
    if bump (get_or bs i 0) == 0 then rest else false

-- A byte in front is bumped exactly if the loop over the others carries.
next_from-cons :
    (k b : ℕ) (bs : Ip)
    → next_from (suc k) (b ∷ bs)
      ≡ (if carry k bs then bump b ∷ next_from k bs else b ∷ next_from k bs)
unfolding next_from carry
next_from-cons zero b bs = ground arith
next_from-cons (suc i) b bs = elim (Bool-cases (bump (get_or bs i 0) == 0)) [
  | inl wraps ↦ rw wraps (next_from-cons i b (set bs i (bump (get_or bs i 0))))
  | inr stays ↦ rw stays refl
]

carry-cons : (k b : ℕ) (bs : Ip) → carry (suc k) (b ∷ bs) ≡ (carry k bs && (bump b == 0))
unfolding carry
carry-cons zero b bs = ground arith
carry-cons (suc i) b bs = elim (Bool-cases (bump (get_or bs i 0) == 0)) [
  | inl wraps ↦ rw wraps (carry-cons i b (set bs i (bump (get_or bs i 0))))
  | inr stays ↦ rw stays refl
]

length-next_from : (k : ℕ) (bs : Ip) → length (next_from k bs) ≡ length bs
unfolding next_from
length-next_from zero bs = refl
length-next_from (suc i) bs = elim (Bool-cases (bump (get_or bs i 0) == 0)) [
  | inl wraps ↦ rw wraps (
      length-next_from i (set bs i (bump (get_or bs i 0))) ∙ length-set bs i (bump (get_or bs i 0)))
  | inr stays ↦ rw stays (length-set bs i (bump (get_or bs i 0)))
]

digit_stays : (p b v w : ℕ) → v + 0 ≡ w + 1 → b * p + v + 0 ≡ b * p + w + 1
digit_stays p b v w h = omega arith

digit_wraps :
    (p b v w : ℕ)
    → b < 256
    → (bump b == 0) ≡ true
    → v + p ≡ w + 1
    → bump b * p + v + p * 256 ≡ b * p + w + 1
digit_wraps p b v w hb wraps h = let e : b ≡ 255 = ground arith in rw e (omega arith)

digit_grows :
    (p b v w : ℕ)
    → b < 256
    → (bump b == 0) ≡ false
    → v + p ≡ w + 1
    → bump b * p + v + 0 ≡ b * p + w + 1
digit_grows p b v w hb grows h = let e : bump b ≡ b + 1 = ground arith in rw e (omega arith)

-- The number goes up by one, with the carry as the digit in front.
next_from-value :
    (bs : Ip)
    → All IsByte bs
    → value (next_from (length bs) bs) + (if carry (length bs) bs then 256 ^ length bs else 0)
      ≡ value bs + 1
next_from-value [] h = unfold next_from carry in refl
next_from-value (b ∷ bs) (hb, h) =
    let ih = next_from-value bs h in
    rw (next_from-cons (length bs) b bs, carry-cons (length bs) b bs)
      (elim (Bool-cases (carry (length bs) bs)) [
        | inr stays ↦
            rw (stays, length-next_from (length bs) bs)
              (digit_stays (256 ^ length bs) b _ _ (rw stays at ih))
        | inl carries ↦ elim (Bool-cases (bump b == 0)) [
          | inl wraps ↦
              rw (carries, wraps, length-next_from (length bs) bs, pow-suc 256 (length bs))
                (digit_wraps (256 ^ length bs) b _ _ hb wraps (rw carries at ih))
          | inr grows ↦
              rw (carries, grows, length-next_from (length bs) bs)
                (digit_grows (256 ^ length bs) b _ _ hb grows (rw carries at ih))
        ]
      ])

pub value-lt : (bs : Ip) → All IsByte bs → value bs < 256 ^ length bs
value-lt [] h = omega arith
value-lt (b ∷ bs) (hb, h) = rw (pow-suc 256 (length bs)) (digit_lt _ b _ hb (value-lt bs h))
  where
    digit_lt : (p b v : ℕ) → b < 256 → v < p → b * p + v < p * 256
    digit_lt p b v hb hv = grind arith

pub length-next_ip : (ip : Ip) → length (next_ip ip) ≡ length ip
unfolding next_ip
length-next_ip ip = length-next_from (length ip) ip

next_from-IsByte : (k : ℕ) (bs : Ip) → All IsByte bs → All IsByte (next_from k bs)
unfolding next_from
next_from-IsByte zero bs h = h
next_from-IsByte (suc i) bs h = elim (Bool-cases (bump (get_or bs i 0) == 0)) [
  | inl wraps ↦
      rw wraps (next_from-IsByte i (set bs i (bump (get_or bs i 0))) (kept bs i _ (omega arith) h))
  | inr stays ↦ rw stays (kept bs i _ (omega arith) h)
]
  where
    kept : (bs : Ip) (i v : ℕ) → v < 256 → All IsByte bs → All IsByte (set bs i v)
    kept [] i v lt h = tt
    kept (b ∷ bs) zero v lt (hb, h) = (lt, h)
    kept (b ∷ bs) (suc i) v lt (hb, h) = (hb, kept bs i v lt h)

pub next_ip-IsByte : (ip : Ip) → All IsByte ip → All IsByte (next_ip ip)
unfolding next_ip
next_ip-IsByte ip h = next_from-IsByte (length ip) ip h

next_ip-lt : (ip : Ip) → All IsByte ip → value (next_ip ip) < 256 ^ length ip
next_ip-lt ip h = rw length-next_ip at (value-lt (next_ip ip) (next_ip-IsByte ip h))

mod_of_carry : (p v w : ℕ) (c : Bool) → v < p → v + (if c then p else 0) ≡ w + 1 → v ≡ (w + 1) % p
mod_of_carry p v w false lt e = grind arith
mod_of_carry p v w true lt e = grind arith

-- The next address is the number of the address plus one, modulo 256 to the number of its bytes, in
-- as many bytes: the last address wraps around to zero.
pub next_ip-value :
    (ip : Ip)
    → All IsByte ip
    → (value (next_ip ip) ≡ (value ip + 1) % 256 ^ length ip)
      × (length (next_ip ip) ≡ length ip)
      × All IsByte (next_ip ip)
next_ip-value ip h = (
  mod_of_carry (256 ^ length ip) (value (next_ip ip)) (value ip) (carry (length ip) ip)
      (next_ip-lt ip h) (unfold next_ip in next_from-value ip h),
  length-next_ip ip,
  next_ip-IsByte ip h,
)
