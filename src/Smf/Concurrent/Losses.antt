-- ===== src/Smf/Concurrent/Losses.antt =====
-- What lost datagrams cost the calls of `CreateSession` (smf/main.go) that run at once.
use openmvn.Common.{
  ℕ, ◌+◌, ◌≤◌, ◌≡◌, refl, ap, Bool, true, false, Option, none, some, List, [], ◌∷◌, String, arith,
  length, lengths, take,
}
use openmvn.Pfcp.{Message}
use openmvn.Upf.{Upf, send_pfcp, dispatch}
use openmvn.Smf.{Bytes, Libraries, is_ok, judge, read_reply}
use openmvn.Smf.Concurrent.{
  World, Step, writes, cannot_marshal, cannot_write, handles, loses_request, arrives, loses_reply,
  reads, times_out, Reach, here, next, one_if, successes, idle,
}

-- The datagrams that a call can still succeed with.
abbrev pub under_way : World → ℕ
under_way w = length w.socket.inbox + (length w.replies + length w.requests)

abbrev IsPaid : World → Type 0
IsPaid w = successes w.ended + (under_way w + w.lost) ≤ length w.socket.written

length-send_pfcp :
    (to : String) (write_ok : Bool) (o : Option Message) → length (send_pfcp to write_ok o []) ≤ 1
unfolding send_pfcp
length-send_pfcp to write_ok none = omega arith
length-send_pfcp to true (some m) = omega arith
length-send_pfcp to false (some m) = omega arith

one_if_small : (b : Bool) → one_if b ≤ 1
one_if_small true = omega arith
one_if_small false = omega arith

-- A read that succeeds takes a datagram away.
read_reply-length :
    (lib : Libraries) (inbox written : List Bytes)
    → let (after, o) = read_reply lib (record { inbox = inbox; written = written }) in
      (one_if (is_ok o) + length after.inbox ≤ length inbox) × (after.written ≡ written)
unfolding read_reply
read_reply-length lib [] written = (omega arith, refl)
read_reply-length lib (d ∷ ds) written =
    (omega (arith, one_if_small (is_ok (judge (lib.parse (take 1500 d))))), refl)

module _ (lib : Libraries) (smf : String) where
  Step-IsPaid : {w v : World} → IsPaid w → Step lib smf w v → IsPaid v
  Step-IsPaid {w} h (writes j b e) = grind lengths
  Step-IsPaid h (cannot_marshal j e) = omega (arith, h)
  Step-IsPaid h (cannot_write j b e) = omega (arith, h)
  Step-IsPaid {w} h (handles xs ys d msg write_ok now e heard) =
      grind (lengths, length-send_pfcp smf write_ok (dispatch msg now w.upf.sessions).1)
  Step-IsPaid {w} h (loses_request xs ys d e) = grind lengths
  Step-IsPaid {w} h (arrives xs ys to msg b e sent) = grind lengths
  Step-IsPaid {w} h (loses_reply xs ys p e) = grind lengths
  Step-IsPaid {w} h (reads xs ys j e) =
      let (taken, same) = read_reply-length lib w.socket.inbox w.socket.written in
      omega (arith, h, taken, ap length same)
  Step-IsPaid h (times_out xs ys j e) = omega (arith, h)

  -- However many calls run at once, and whatever the network loses and delays: the calls that have
  -- succeeded, the datagrams still under way in either direction, and those lost are together at
  -- most as many as the requests written.
  pub Reach-lost :
      (u : Upf) (w : World)
      → Reach lib smf (idle u) w
      → successes w.ended + (under_way w + w.lost) ≤ length w.socket.written
  Reach-lost u w here = omega arith
  Reach-lost u w (next {t} path step) = Step-IsPaid (Reach-lost u t path) step
