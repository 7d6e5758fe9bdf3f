-- ===== src/SmfServer/Allocation.antt =====
-- Calls of `allocateIP` (cmd/smf/main.go) one after another, by goroutines that do not hold the lock.
use openmvn.Common.{
  ℕ, zero, suc, ◌+◌, ◌≤◌, ◌<◌, ◌≡◌, refl, sym, ap, ◌∙◌, ◌⊎◌, inl, inr, none, some, List, [], ◌∷◌,
  arith, length, map, get_elem?, leb, if◌then◌else◌, Bool-cases,
}
use native.Mathlib.Decide.{dec_lt}
use openmvn.SmfServer.Ip.{Ip, value}
use openmvn.SmfServer.Pool.{range_from, init_ip_pool, ip_pool_start, init_ip_pool-range}
use openmvn.SmfServer.Manager.{Manager, done, new_session_manager, allocate_ip}

-- The manager after `n` calls.
abbrev pub allocated : ℕ → Manager → Manager
allocated zero s = s
allocated (suc n) s = (allocate_ip (allocated n s)).0

abbrev indexed : ℕ → Manager
indexed i = record new_session_manager { next_ip_index = i }

length-map : (xs : List Ip) → length (map value xs) ≡ length xs
length-map [] = refl
length-map (x ∷ xs) = omega (arith, length-map xs)

length-range_from : (s n : ℕ) → length (range_from s n) ≡ n
length-range_from s zero = refl
length-range_from s (suc n) = omega (arith, length-range_from (s + 1) n)

pool_length : length init_ip_pool ≡ 253
pool_length =
    sym (length-map init_ip_pool)
    ∙ ap length init_ip_pool-range
    ∙ length-range_from (value ip_pool_start) 253

abbrev head_or : ℕ → List ℕ → ℕ
head_or d [] = d
head_or d (x ∷ xs) = x

abbrev tail : List ℕ → List ℕ
tail [] = []
tail (x ∷ xs) = xs

-- The entry of a list of addresses at an index that its numbers reach.
entry :
    (xs : List Ip) (s n i : ℕ)
    → map value xs ≡ range_from s n
    → i < n
    → (ip : Ip) × (get_elem? xs i ≡ some ip) × (value ip ≡ s + i)
entry [] s zero i e lt = absurd (omega arith)
entry [] s (suc n) i e lt = absurd (omega (arith, ap length e))
entry (x ∷ xs) s zero i e lt = absurd (omega arith)
entry (x ∷ xs) s (suc n) zero e lt =
    let first : value x ≡ s = ap (head_or s) e in (x, refl, omega (arith, first))
entry (x ∷ xs) s (suc n) (suc i) e lt =
    let (ip, there, v) = entry xs (s + 1) n i (ap tail e) (omega arith) in
    (ip, there, omega (arith, v))

allocate_ip-indexed :
    (i : ℕ)
    → allocate_ip (indexed i) ≡ (
        if leb 253 i
        then (indexed i, done none)
        else (indexed (i + 1), done (get_elem? init_ip_pool i)))
unfolding allocate_ip new_session_manager
allocate_ip-indexed i = elim (Bool-cases (leb 253 i)) [
  | inl full ↦ rw (pool_length, full) refl
  | inr left ↦ rw (pool_length, left) refl
]

allocate_ip-left :
    (i : ℕ) → i < 253 → allocate_ip (indexed i) ≡ (indexed (i + 1), done (get_elem? init_ip_pool i))
allocate_ip-left i lt = allocate_ip-indexed i ∙ ground arith

at_end : (n : ℕ) → n ≤ 253 → ¬ (n < 253) → n ≡ 253
at_end n le not_less = omega arith

plus_one : (n : ℕ) → n + 1 ≡ suc n
plus_one n = omega arith

-- The index after `n` calls.
index_after :
    (n : ℕ)
    → ((n ≤ 253) × (allocated n new_session_manager ≡ indexed n))
      ⊎ ((253 ≤ n) × (allocated n new_session_manager ≡ indexed 253))
unfolding new_session_manager
index_after zero = inl (omega arith, refl)
index_after (suc n) = elim (index_after n) [
  | inr (le, e) ↦
      inr (omega arith, ap (λ s. (allocate_ip s).0) e ∙ ap (λ r. r.0) (allocate_ip-indexed 253))
  | inl (le, e) ↦ elim (dec_lt n 253) [
    | yes less ↦ inl (
      omega arith,
      ap (λ s. (allocate_ip s).0) e
          ∙ ap (λ r. r.0) (allocate_ip-left n less)
          ∙ ap indexed (plus_one n),
    )
    | no not_less ↦ inr (
      omega arith,
      ap (λ s. (allocate_ip s).0) (e ∙ ap indexed (at_end n le not_less))
          ∙ ap (λ r. r.0) (allocate_ip-indexed 253),
    )
  ]
]

-- Call number `n` of allocateIP, counted from 0, hands out the address that is numbered `n` after
-- 10.0.0.1, if `n` is below 253, so no address goes to two calls; every later call gets nil, and no call
-- has to wait for the lock.
pub allocate_ip-nth :
    (n : ℕ)
    → ((n < 253)
        × (ip : Ip) × ((allocate_ip (allocated n new_session_manager)).1 ≡ done (some ip))
        × (value ip ≡ value ip_pool_start + n))
      ⊎ ((253 ≤ n) × ((allocate_ip (allocated n new_session_manager)).1 ≡ done none))
allocate_ip-nth n = elim (index_after n) [
  | inr (le, e) ↦ inr (le, ap (λ s. (allocate_ip s).1) e ∙ ap (λ r. r.1) (allocate_ip-indexed 253))
  | inl (le, e) ↦ elim (dec_lt n 253) [
    | no not_less ↦ inr (
      omega arith,
      ap (λ s. (allocate_ip s).1) (e ∙ ap indexed (at_end n le not_less))
          ∙ ap (λ r. r.1) (allocate_ip-indexed 253),
    )
    | yes less ↦
        let (ip, there, v) =
          entry init_ip_pool (value ip_pool_start) 253 n init_ip_pool-range less in
        inl (
          less,
          ip,
          ap (λ s. (allocate_ip s).1) e ∙ ap (λ r. r.1) (allocate_ip-left n less) ∙ ap done there,
          v,
        )
  ]
]
