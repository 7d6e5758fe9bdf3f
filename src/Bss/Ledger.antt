-- ===== src/Bss/Ledger.antt =====
-- The BSS table against a ledger of one account: what a sequence of requests does to the balance of
-- an IMSI, read off the requests alone.
use Prim.Native.String.{len}
use mathlib.Core.Option
use openmvn.Common.{
  ℕ, ◌+◌, ◌≡◌, refl, ◌∙◌, ap, sym, not, ◌&&◌, Option, none, some, List, [], ◌∷◌, String, arith, ltb,
  ◌==◌, if◌then◌else◌, string_key, Option-cases, inl, inr,
}
use text.Mathlib.TextEquality.{eq_iff}
use openmvn.Common.Map.{lookup, lookup-insert}
use openmvn.Common.Int64.{
  add_int, is_nonpositive, IsWord, add_int-IsWord, add_int-sum, add_int_zero,
}
use openmvn.Common.Clock.{Time}
use openmvn.Bss.{
  Subscriber, TopUpRequest, SimDb, Request, register, top_up, get_subscriber, health,
  add_subscriber, add_balance, serve, run, credit,
}

-- The balance of an IMSI, if it is registered.
abbrev pub account : String → SimDb → Option ℕ
account k db = Option.map (λ (s : Subscriber). s.balance) (lookup k db)

-- A registration opens the account of its IMSI, unless it is open.
abbrev pub opening : String → Subscriber → Option ℕ → Option ℕ
opening k sub (some b) = some b
opening k sub none =
    if (sub.imsi == k) && not (ltb (len sub.imsi) 10) then some sub.balance else none

-- The amount that a request adds to the account of `k`.
abbrev pub amount_for : String → Request → ℕ
amount_for k (top_up (some req)) =
    if (req.imsi == k) && not (is_nonpositive req.amount) then req.amount else 0
amount_for k _ = 0

-- What one request does to an account.
abbrev pub post : String → Request → Option ℕ → Option ℕ
post k (register (some sub)) acc = opening k sub acc
post k (top_up (some req)) acc =
    if (req.imsi == k) && not (is_nonpositive req.amount)
    then Option.map (λ b. add_int b req.amount) acc
    else acc
post k _ acc = acc

abbrev pub post_all : String → List (Request × Time) → Option ℕ → Option ℕ
post_all k [] acc = acc
post_all k ((req, _) ∷ rest) acc = post_all k rest (post k req acc)

account-add_subscriber :
    (k : String) (sub : Subscriber) (db : SimDb)
    → account k (add_subscriber sub db).0 ≡ elim (account k db) [
      | some b ↦ some b
      | none ↦ if sub.imsi == k then some sub.balance else none
    ]
unfolding add_subscriber
account-add_subscriber k sub db = ground (arith, eq_iff sub.imsi k, lookup-insert sub.imsi k sub db)

account-add_balance :
    (k : String) (req : TopUpRequest) (now : Time) (db : SimDb)
    → account k (add_balance req now db).0 ≡ (
        if req.imsi == k
        then Option.map (λ b. add_int b req.amount) (account k db)
        else account k db)
unfolding add_balance
account-add_balance k req now db = elim (Option-cases (lookup req.imsi db)) [
  | inl absent ↦ ground (arith, eq_iff req.imsi k)
  | inr (sub, e) ↦
      ground (arith, eq_iff req.imsi k, lookup-insert req.imsi k (credit req.amount now sub) db)
]

-- A request changes an account as the ledger says.
account-serve :
    (k : String) (req : Request) (now : Time) (db : SimDb)
    → account k (serve req now db).0 ≡ post k req (account k db)
unfolding serve
account-serve k (register none) now db = refl
account-serve k (register (some sub)) now db = ground (
  arith,
  eq_iff sub.imsi k,
  account-add_subscriber k (record sub { created = now; updated = now }) db,
)
account-serve k (top_up none) now db = refl
account-serve k (top_up (some req)) now db = ground (arith, account-add_balance k req now db)
account-serve k (get_subscriber imsi) now db = refl
account-serve k health now db = refl

-- Any sequence of requests leaves in the account of any IMSI what the ledger of that IMSI gives,
-- so no request on another IMSI matters to it.
pub run-refines-ledger :
    (k : String) (reqs : List (Request × Time)) (db : SimDb)
    → account k (run reqs db) ≡ post_all k reqs (account k db)
unfolding run
run-refines-ledger k [] db = refl
run-refines-ledger k ((req, now) ∷ rest) db =
    run-refines-ledger k rest (serve req now db).0
    ∙ ap (post_all k rest) (account-serve k req now db)

-- The sum of the amounts that the requests add to an account, as a natural number.
abbrev pub credits : String → List (Request × Time) → ℕ
credits k [] = 0
credits k ((req, _) ∷ rest) = amount_for k req + credits k rest

post-open :
    (k : String) (req : Request) (b : ℕ)
    → IsWord b
    → post k req (some b) ≡ some (add_int b (amount_for k req))
post-open k (register none) b w = ap some (sym (add_int_zero b w))
post-open k (register (some sub)) b w = ap some (sym (add_int_zero b w))
post-open k (top_up none) b w = ap some (sym (add_int_zero b w))
post-open k (top_up (some req)) b w = ground (arith, add_int_zero b w)
post-open k (get_subscriber imsi) b w = ap some (sym (add_int_zero b w))
post-open k health b w = ap some (sym (add_int_zero b w))

post_all-open :
    (k : String) (reqs : List (Request × Time)) (b : ℕ)
    → IsWord b
    → post_all k reqs (some b) ≡ some (add_int b (credits k reqs))
post_all-open k [] b w = ap some (sym (add_int_zero b w))
post_all-open k ((req, t) ∷ rest) b w =
    ap (post_all k rest) (post-open k req b w)
    ∙ post_all-open k rest (add_int b (amount_for k req)) (add_int-IsWord b (amount_for k req))
    ∙ ap some (add_int-sum b (amount_for k req) (credits k rest))

-- Once an IMSI is registered, any sequence of requests leaves it registered, and its balance is the
-- balance before plus the sum of all positive amounts topped up for that IMSI, modulo 2 ^ 64: no
-- accepted amount is lost or counted twice, and repeated registrations change nothing.
pub run_balance :
    (k : String) (reqs : List (Request × Time)) (db : SimDb) {b : ℕ}
    → account k db ≡ some b
    → IsWord b
    → account k (run reqs db) ≡ some (add_int b (credits k reqs))
run_balance k reqs db {b} e w =
    run-refines-ledger k reqs db ∙ ap (post_all k reqs) e ∙ post_all-open k reqs b w
