-- ===== src/SmfServer/Deadlock.antt =====
-- The lock of the session manager: which calls return, and which wait for ever.
use openmvn.Common.{
  ℕ, ◌+◌, ◌<◌, ◌≤◌, ◌≡◌, refl, true, false, none, some, String, arith, length, get_elem?, leb,
  nat_key, string_key, ◌⊎◌, inl, inr, Bool-cases, ap, sym, ◌∙◌,
}
use openmvn.Common.Map.{lookup, delete}
use openmvn.Common.Clock.{Time}
use openmvn.SmfServer.Manager.{
  Manager, done, blocked, M, allocate_ip, lock, unlock, pure, ◌>>◌, proceed, release, locked,
  create_locked, create_session, get_session, delete_session,
}

-- Nobody holds the lock.
pub record IsFree (s : Manager) : Type 0 where
  pub no_writer : s.writer ≡ false
  pub no_reader : s.readers ≡ 0

lock-free : (s : Manager) → IsFree s → lock s ≡ (record s { writer = true }, done tt)
lock-free s h = rw (h.no_writer, h.no_reader) refl

-- A locked body of which the outcome is known.
locked_done :
    {A : Type 0} (body : M A) (s t : Manager) (a : A)
    → IsFree s
    → body (record s { writer = true }) ≡ (t, done a)
    → locked body s ≡ (record t { writer = false }, done a)
locked_done body s t a h e =
    ap (proceed λ _. release body) (lock-free s h) ∙ ap (proceed λ r. unlock >> pure r) e

locked_blocked :
    {A : Type 0} (body : M A) (s t : Manager)
    → IsFree s
    → body (record s { writer = true }) ≡ (t, blocked)
    → locked body s ≡ (t, blocked)
locked_blocked body s t h e =
    ap (proceed λ _. release body) (lock-free s h) ∙ ap (proceed λ r. unlock >> pure r) e

create_locked-existing :
    (imsi : String) (teid : ℕ) (peer : String) (now : ℕ → Time) (s : Manager) {p : ℕ}
    → lookup imsi s.sessions ≡ some p
    → create_locked imsi teid peer now s ≡ (s, done (some p))
unfolding create_locked
create_locked-existing imsi teid peer now s e = rw (e, create_locked) refl

create_locked-deadlocks :
    (imsi : String) (teid : ℕ) (peer : String) (now : ℕ → Time) (s : Manager)
    → s.writer ≡ true
    → lookup imsi s.sessions ≡ none
    → create_locked imsi teid peer now s ≡ (s, blocked)
unfolding create_locked
create_locked-deadlocks imsi teid peer now s w e =
    rw (e, create_locked) (unfold allocate_ip in rw w refl)

-- A new session is never created: for an IMSI without a session the call waits for the lock that it
-- holds itself, for ever; the lock stays taken, and neither a session nor an address has been used.
pub create_session-deadlocks :
    (imsi : String) (teid : ℕ) (peer : String) (now : ℕ → Time) (s : Manager)
    → IsFree s
    → lookup imsi s.sessions ≡ none
    → create_session imsi teid peer now s ≡ (record s { writer = true }, blocked)
unfolding create_session
create_session-deadlocks imsi teid peer now s h e =
    locked_blocked (create_locked imsi teid peer now) s _ h
      (create_locked-deadlocks imsi teid peer now (record s { writer = true }) refl e)

-- For an IMSI with a session the call returns that session and changes nothing.
pub create_session-existing :
    (imsi : String) (teid : ℕ) (peer : String) (now : ℕ → Time) (s : Manager) {p : ℕ}
    → IsFree s
    → lookup imsi s.sessions ≡ some p
    → create_session imsi teid peer now s ≡ (s, done (some p))
unfolding create_session
create_session-existing imsi teid peer now s {p = p} h e =
    locked_done (create_locked imsi teid peer now) s _ (some p) h
      (create_locked-existing imsi teid peer now (record s { writer = true }) e)
    ∙ ap (λ w. (record s { writer = w }, done (some p))) (sym h.no_writer)

-- Once the lock is held for ever, every method waits for ever and changes nothing.
pub held_blocks :
    (imsi : String) (teid : ℕ) (peer : String) (now : ℕ → Time) (s : Manager)
    → s.writer ≡ true
    → (create_session imsi teid peer now s ≡ (s, blocked))
      × (get_session imsi s ≡ (s, blocked))
      × (delete_session imsi s ≡ (s, blocked))
      × (allocate_ip s ≡ (s, blocked))
unfolding create_session get_session delete_session allocate_ip
held_blocks imsi teid peer now s h = (rw h refl, rw h refl, rw h refl, rw h refl)

-- Where the lock is free, a lookup and a deletion return, and the deletion removes the session of its
-- IMSI alone; the lock is free again.
pub free_returns :
    (imsi : String) (s : Manager)
    → IsFree s
    → (get_session imsi s ≡ (s, done (lookup imsi s.sessions)))
      × (delete_session imsi s ≡ (record s { sessions = delete imsi s.sessions }, done tt))
unfolding get_session delete_session
free_returns imsi s h = (rw (h.no_writer, h.no_reader) refl, rw (h.no_writer, h.no_reader) refl)

-- A call of `allocateIP` by itself, with the lock free: it hands out the address at the index and
-- moves the index on, or returns nil once the pool is used up.
pub allocate_ip-free :
    (s : Manager)
    → IsFree s
    → ((s.next_ip_index < length s.ip_pool)
        × (allocate_ip s ≡ (
          record s { next_ip_index = s.next_ip_index + 1 },
          done (get_elem? s.ip_pool s.next_ip_index),
        )))
      ⊎ ((length s.ip_pool ≤ s.next_ip_index) × (allocate_ip s ≡ (s, done none)))
unfolding allocate_ip
allocate_ip-free s h = elim (Bool-cases (leb (length s.ip_pool) s.next_ip_index)) [
  | inl used_up ↦ inr (ground arith, rw (h.no_writer, h.no_reader, used_up) refl)
  | inr left ↦ inl (ground arith, rw (h.no_writer, h.no_reader, left) refl)
]
