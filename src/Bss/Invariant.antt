-- ===== src/Bss/Invariant.antt =====
-- What holds of the BSS table between two requests.
use Prim.Native.String.{len}
use openmvn.Common.{
  ◌≤◌, ◌≡◌, refl, none, some, List, [], ◌∷◌, String, arith, Option-cases, Bool-cases, inl, inr, ltb,
  ltb→le, string_key,
}
use openmvn.Common.Map.{
  lookup, insert, IsUnique, insert-IsUnique, Entries, insert-Entries, lookup-Entries, Entries-mono,
}
use openmvn.Common.Int64.{IsWord, is_nonpositive, add_int-IsWord}
use openmvn.Common.Clock.{Time}
use openmvn.Bss.{
  Subscriber, TopUpRequest, SimDb, Request, register, top_up, get_subscriber, health, credit,
  add_subscriber, add_balance, serve, run,
}

-- A subscriber stands under its own IMSI, which has ten bytes or more; its balance is an int, and it
-- was created before its last update, which lies in the past.
pub record IsEntry (now : Time) (k : String) (sub : Subscriber) : Type 0 where
  pub keyed : sub.imsi ≡ k
  pub long : 10 ≤ len sub.imsi
  pub typed : IsWord sub.balance
  pub ordered : sub.created ≤ sub.updated
  pub past : sub.updated ≤ now

-- The table at a time: one entry for each IMSI, and every entry is in order.
pub record IsValid (now : Time) (db : SimDb) : Type 0 where
  pub unique : IsUnique db
  pub entries : Entries (IsEntry now) db

-- The decoder gives a balance that fits an int.
abbrev pub IsTyped : Request → Type 0
IsTyped (register (some sub)) = IsWord sub.balance
IsTyped _ = Unit

insert-IsValid :
    (now : Time) (sub : Subscriber) (db : SimDb)
    → IsEntry now sub.imsi sub
    → IsValid now db
    → IsValid now (insert sub.imsi sub db)
insert-IsValid now sub db p h = record {
  unique = insert-IsUnique sub.imsi sub db h.unique;
  entries = insert-Entries (IsEntry now) sub.imsi sub db p h.entries;
}

later-IsValid : (t now : Time) (db : SimDb) → t ≤ now → IsValid t db → IsValid now db
later-IsValid t now db le h = record {
  unique = h.unique;
  entries = Entries-mono db (λ k sub p. later k sub p) h.entries;
}
  where
    later : (k : String) (sub : Subscriber) → IsEntry t k sub → IsEntry now k sub
    later k sub p = ground arith

add_subscriber-IsValid :
    (now : Time) (sub : Subscriber) (db : SimDb)
    → IsEntry now sub.imsi sub
    → IsValid now db
    → IsValid now (add_subscriber sub db).0
unfolding add_subscriber
add_subscriber-IsValid now sub db p h = elim (Option-cases (lookup sub.imsi db)) [
  | inl new ↦ rw (new, add_subscriber) (insert-IsValid now sub db p h)
  | inr (old, e) ↦ rw (e, add_subscriber) h
]

add_balance-IsValid :
    (now : Time) (req : TopUpRequest) (db : SimDb)
    → IsValid now db
    → IsValid now (add_balance req now db).0
unfolding add_balance
add_balance-IsValid now req db h = elim (Option-cases (lookup req.imsi db)) [
  | inl absent ↦ rw (absent, add_balance) h
  | inr (sub, e) ↦
      rw (e, add_balance)
        (record {
          unique = insert-IsUnique req.imsi (credit req.amount now sub) db h.unique;
          entries =
              insert-Entries (IsEntry now) req.imsi (credit req.amount now sub) db
                (credited sub (lookup-Entries (IsEntry now) req.imsi db h.entries e)) h.entries;
        })
]
  where
    credited :
        (sub : Subscriber)
        → IsEntry now req.imsi sub
        → IsEntry now req.imsi (credit req.amount now sub)
    credited sub p = ground (arith, add_int-IsWord sub.balance req.amount)

-- Every request keeps the table valid, if the clock does not run backwards.
pub serve-IsValid :
    (req : Request) (t now : Time) (db : SimDb)
    → IsTyped req
    → t ≤ now
    → IsValid t db
    → IsValid now (serve req now db).0
unfolding serve
serve-IsValid (register none) t now db w le h = later-IsValid t now db le h
serve-IsValid (register (some sub)) t now db w le h = elim (Bool-cases (ltb (len sub.imsi) 10)) [
  | inl short ↦ rw short (later-IsValid t now db le h)
  | inr long ↦ rw long (
      add_subscriber-IsValid now (record sub { created = now; updated = now }) db
        (record {
          keyed = refl;
          long = ltb→le _ _ long;
          typed = w;
          ordered = omega arith;
          past = omega arith;
        })
        (later-IsValid t now db le h))
]
serve-IsValid (top_up none) t now db w le h = later-IsValid t now db le h
serve-IsValid (top_up (some req)) t now db w le h = elim (Bool-cases (is_nonpositive req.amount)) [
  | inl bad ↦ rw bad (later-IsValid t now db le h)
  | inr good ↦ rw good (add_balance-IsValid now req db (later-IsValid t now db le h))
]
serve-IsValid (get_subscriber imsi) t now db w le h = later-IsValid t now db le h
serve-IsValid health t now db w le h = later-IsValid t now db le h

-- The requests are well typed and come in the order of their times, the first not before `t`.
abbrev pub InOrder : Time → List (Request × Time) → Type 0
InOrder t [] = Unit
InOrder t ((req, now) ∷ rest) = (t ≤ now) × IsTyped req × InOrder now rest

abbrev pub last_time : Time → List (Request × Time) → Time
last_time t [] = t
last_time t ((_, now) ∷ rest) = last_time now rest

-- From a valid table, any sequence of requests in the order of their times leads to a valid table.
pub run-IsValid :
    (reqs : List (Request × Time)) (t : Time) (db : SimDb)
    → InOrder t reqs
    → IsValid t db
    → IsValid (last_time t reqs) (run reqs db)
unfolding run
run-IsValid [] t db o h = h
run-IsValid ((req, now) ∷ rest) t db (le, w, o) h =
    run-IsValid rest now (serve req now db).0 o (serve-IsValid req t now db w le h)
