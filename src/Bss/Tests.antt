-- ===== src/Bss/Tests.antt =====
-- The BSS at concrete requests.
use openmvn.Common.{
  ℕ, ◌+◌, ◌-◌, ◌^◌, ◌≤◌, ◌<◌, ◌≡◌, ◌↔◌, ◌⊎◌, refl, some, List, [], ◌∷◌, arith, string_key,
}
use openmvn.Common.Map.{lookup, insert}
use openmvn.Common.Int64.{add_int, is_nonpositive, sign_bit, word, IsNegative}
use openmvn.Common.Clock.{Time}
use openmvn.Bss.{
  Subscriber, TopUpRequest, SimDb, Request, register, top_up, top_up_handler, register_handler,
  serve, run,
}
use openmvn.Bss.Branches.{
  top_up_overflow, RegisterAnswers, register_branches, TopUpAnswers, top_up_branches,
}
use openmvn.Bss.Invariant.{IsValid, run-IsValid}
use openmvn.Bss.Ledger.{account, post_all, run-refines-ledger}

abbrev alice : Subscriber
alice = record {
  imsi = "001010123456789";
  token = "secret123";
  balance = 100;
  created = 0;
  updated = 0;
}

abbrev top : ℕ → TopUpRequest
top n = record { imsi = "001010123456789"; amount = n }

abbrev day : List (Request × Time)
day =
    (register (some alice), 5)
    ∷ (top_up (some (top 50)), 6)
    ∷ (register (some (record alice { balance = 7 })), 7)
    ∷ (top_up (some (top 0)), 8)
    ∷ (top_up (some (top 25)), 9)
    ∷ []

day_db :
    run day [] ≡ ("001010123456789", record alice { balance = 175; created = 5; updated = 9 }) ∷ []
unfolding run serve lookup insert add_int is_nonpositive
day_db = refl

abbrev known : SimDb
known = ("001010123456789", alice) ∷ []

run-IsValid_example : IsValid 9 (run day [])
run-IsValid_example = run-IsValid day 0 [] (omega arith) (record { unique = tt; entries = tt })

top_up_overflow_example :
    let (db', r) = top_up_handler (some (top (2 ^ 63 - 1))) 6 known in
    (r.status ≡ 200)
    × (after : Subscriber) × (lookup "001010123456789" db' ≡ some after)
    × (IsNegative after.balance ↔ (
        ((100 < sign_bit) × (sign_bit ≤ 100 + (2 ^ 63 - 1)))
        ⊎ (IsNegative 100 × (100 + (2 ^ 63 - 1) < word))))
unfolding lookup is_nonpositive
top_up_overflow_example = top_up_overflow (top (2 ^ 63 - 1)) 6 known alice refl refl (omega arith)

register_branches_example : RegisterAnswers (some alice) 5 [] (register_handler (some alice) 5 [])
register_branches_example = register_branches (some alice) 5 []

top_up_branches_example :
    TopUpAnswers (some (top 50)) 6 known (top_up_handler (some (top 50)) 6 known)
top_up_branches_example = top_up_branches (some (top 50)) 6 known

run-refines-ledger_example :
    account "001010123456789" (run day [])
    ≡ post_all "001010123456789" day (account "001010123456789" [])
run-refines-ledger_example = run-refines-ledger "001010123456789" day []
