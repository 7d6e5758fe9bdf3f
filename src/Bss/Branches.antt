-- ===== src/Bss/Branches.antt =====
-- What each handler of the BSS answers and changes, branch by branch.
use Prim.Native.String.{len}
use openmvn.Common.{
  ℕ, ◌+◌, ◌<◌, ◌≤◌, ◌≡◌, ◌≢◌, ◌↔◌, refl, ◌⊎◌, inl, inr, none, some, Option, String, arith,
  Option-cases, Bool-cases, true, false, ltb, ltb→lt, ltb→le, string_key,
}
use mathlib.Core.Path.{subst}
use mathlib.Core.Option.{some-injective}
use openmvn.Common.Map.{lookup, lookup-insert_self, lookup-insert_ne}
use openmvn.Common.Int64.{
  is_nonpositive, sign_bit, word, above, below, IsWord, IsNegative, add_int_value,
  add_int-IsNegative, is_nonpositive-false,
}
use openmvn.Common.Clock.{Time}
use openmvn.Common.Http.{json, Response}
use openmvn.Bss.{
  Subscriber, TopUpRequest, TopUpResponse, SimDb, register_handler, top_up_handler, credit,
  add_subscriber, add_balance,
}

-- The subscriber that a registration at `now` stores.
abbrev pub stamped : Time → Subscriber → Subscriber
stamped now sub = record sub { created = now; updated = now }

-- The step of a registration under the lock.
add_branches :
    (sub : Subscriber) (db : SimDb)
    → let (db', r) = add_subscriber sub db in
      ((lookup sub.imsi db ≡ none)
        × (r.status ≡ 201)
        × (r.body ≡ json sub)
        × (lookup sub.imsi db' ≡ some sub)
        × ((k : String) → sub.imsi ≢ k → lookup k db' ≡ lookup k db))
      ⊎ ((lookup sub.imsi db ≢ none) × (db' ≡ db) × (r.status ≡ 409))
unfolding add_subscriber
add_branches sub db = elim (Option-cases (lookup sub.imsi db)) [
  | inl new ↦
      rw (new, add_subscriber)
        (inl (
          refl,
          refl,
          refl,
          lookup-insert_self sub.imsi sub db,
          λ k ne. lookup-insert_ne sub.imsi k sub db ne,
        ))
  | inr (old, e) ↦ rw (e, add_subscriber) (inr (λ q. cc, refl, refl))
]

-- The answers of a registration: 201 stores the decoded subscriber, stamped, under an IMSI of ten
-- bytes or more that was not known, and leaves every other IMSI alone; 400 and 409 change nothing.
abbrev pub RegisterAnswers : Option Subscriber → Time → SimDb → SimDb × Response Subscriber → Type 0
RegisterAnswers body now db (db', r) =
    ((sub : Subscriber) × (body ≡ some sub)
      × (10 ≤ len sub.imsi)
      × (lookup sub.imsi db ≡ none)
      × (r.status ≡ 201)
      × (r.body ≡ json (stamped now sub))
      × (lookup sub.imsi db' ≡ some (stamped now sub))
      × ((k : String) → sub.imsi ≢ k → lookup k db' ≡ lookup k db))
    ⊎ ((sub : Subscriber) × (body ≡ some sub)
        × (10 ≤ len sub.imsi)
        × (lookup sub.imsi db ≢ none)
        × (db' ≡ db)
        × (r.status ≡ 409))
    ⊎ ((db' ≡ db) × (r.status ≡ 400) × ((sub : Subscriber) → body ≡ some sub → len sub.imsi < 10))

-- A registration answers 201 for a subscriber with an IMSI of ten bytes or more that is not known,
-- and stores it, stamped, changing no other IMSI; it answers 409 for one that is known, and 400 for
-- a shorter one or a body that does not decode, and then leaves the table as it was.
pub register_branches :
    (body : Option Subscriber) (now : Time) (db : SimDb)
    → RegisterAnswers body now db (register_handler body now db)
unfolding register_handler
register_branches none now db = inr (inr (refl, refl, λ sub e. absurd (ground arith)))
register_branches (some sub) now db = elim (Bool-cases (ltb (len sub.imsi) 10)) [
  | inl short ↦ rw short (
      inr (
        inr (
          refl,
          refl,
          λ s e. subst (λ x. len x.imsi < 10) (some-injective _ _ e) (ltb→lt _ _ short),
        )))
  | inr long ↦ elim (add_branches (stamped now sub) db) [
    | inl (new, st, bd, got, rest) ↦
        rw long (inl (sub, refl, ltb→le _ _ long, new, st, bd, got, rest))
    | inr (old, same, conflict) ↦
        rw long (inr (inl (sub, refl, ltb→le _ _ long, old, same, conflict)))
  ]
]

-- The step of a top-up under the lock.
balance_branches :
    (req : TopUpRequest) (now : Time) (db : SimDb)
    → let (db', r) = add_balance req now db in
      ((sub : Subscriber) × (lookup req.imsi db ≡ some sub)
        × (r.status ≡ 200)
        × (lookup req.imsi db' ≡ some (credit req.amount now sub))
        × ((k : String) → req.imsi ≢ k → lookup k db' ≡ lookup k db))
      ⊎ ((lookup req.imsi db ≡ none) × (db' ≡ db) × (r.status ≡ 404))
unfolding add_balance
balance_branches req now db = elim (Option-cases (lookup req.imsi db)) [
  | inl absent ↦ rw (absent, add_balance) (inr (refl, refl, refl))
  | inr (sub, e) ↦
      rw (e, add_balance)
        (inl (
          sub,
          refl,
          refl,
          lookup-insert_self req.imsi (credit req.amount now sub) db,
          λ k ne. lookup-insert_ne req.imsi k (credit req.amount now sub) db ne,
        ))
]

-- The answers of a top-up: 200 credits the amount to the subscriber and leaves every other IMSI
-- alone; 404 and 400 change nothing.
abbrev pub TopUpAnswers :
    Option TopUpRequest → Time → SimDb → SimDb × Response TopUpResponse → Type 0
TopUpAnswers body now db (db', r) =
    ((req : TopUpRequest) × (sub : Subscriber) × (body ≡ some req)
      × (is_nonpositive req.amount ≡ false)
      × (lookup req.imsi db ≡ some sub)
      × (r.status ≡ 200)
      × (lookup req.imsi db' ≡ some (credit req.amount now sub))
      × ((k : String) → req.imsi ≢ k → lookup k db' ≡ lookup k db))
    ⊎ ((req : TopUpRequest) × (body ≡ some req)
        × (is_nonpositive req.amount ≡ false)
        × (lookup req.imsi db ≡ none)
        × (db' ≡ db)
        × (r.status ≡ 404))
    ⊎ ((db' ≡ db)
        × (r.status ≡ 400)
        × ((req : TopUpRequest) → body ≡ some req → is_nonpositive req.amount ≡ true))

-- A top-up of a positive amount answers 200 for a known IMSI and adds the amount to the balance of
-- that subscriber alone, in 64-bit arithmetic, and answers 404 for an unknown one; where the body
-- does not decode or the amount is not positive it answers 400. A refusal changes nothing.
pub top_up_branches :
    (body : Option TopUpRequest) (now : Time) (db : SimDb)
    → TopUpAnswers body now db (top_up_handler body now db)
unfolding top_up_handler
top_up_branches none now db = inr (inr (refl, refl, λ req e. absurd (ground arith)))
top_up_branches (some req) now db = elim (Bool-cases (is_nonpositive req.amount)) [
  | inl bad ↦ rw bad (
      inr (
        inr (
          refl,
          refl,
          λ r e. subst (λ x. is_nonpositive x.amount ≡ true) (some-injective _ _ e) bad,
        )))
  | inr good ↦ elim (balance_branches req now db) [
    | inl (sub, e, st, got, rest) ↦ rw good (inl (req, sub, refl, good, e, st, got, rest))
    | inr (absent, same, st) ↦ rw good (inr (inl (req, refl, good, absent, same, st)))
  ]
]

-- Where the sum stays in the range of an int, a top-up raises the integer that the balance stands
-- for by exactly the amount; `above` and `below` are its positive and its negative part.
pub credit_exact :
    (amount : ℕ) (now : Time) (sub : Subscriber)
    → IsWord sub.balance
    → is_nonpositive amount ≡ false
    → (sub.balance < sign_bit → sub.balance + amount < sign_bit)
    → let new = (credit amount now sub).balance in
      above new + below sub.balance ≡ above sub.balance + amount + below new
credit_exact amount now sub w pos fits =
    add_int_value sub.balance amount w (is_nonpositive-false amount pos) fits

-- A top-up of a positive amount for a known IMSI is accepted, whatever the balance, and can leave the
-- balance negative: this happens exactly where a balance that is not negative and the amount add up
-- to 2 ^ 63 or more, or where a negative balance is not made up for by the amount.
pub top_up_overflow :
    (req : TopUpRequest) (now : Time) (db : SimDb) (sub : Subscriber)
    → is_nonpositive req.amount ≡ false
    → lookup req.imsi db ≡ some sub
    → IsWord sub.balance
    → let (db', r) = top_up_handler (some req) now db in
      (r.status ≡ 200)
      × (after : Subscriber) × (lookup req.imsi db' ≡ some after)
      × (IsNegative after.balance ↔ (
          ((sub.balance < sign_bit) × (sign_bit ≤ sub.balance + req.amount))
          ⊎ (IsNegative sub.balance × (sub.balance + req.amount < word))))
unfolding top_up_handler add_balance
top_up_overflow req now db sub pos e fits =
    rw (pos, e, add_balance)
      (
        refl,
        credit req.amount now sub,
        lookup-insert_self req.imsi (credit req.amount now sub) db,
        add_int-IsNegative sub.balance req.amount fits (is_nonpositive-false req.amount pos),
      )
