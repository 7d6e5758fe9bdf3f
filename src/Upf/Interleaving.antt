-- ===== src/Upf/Interleaving.antt =====
-- The UPF with its handlers running at once: each message has a goroutine, which takes the lock of
-- the sessions at some moment, and writes its response at some later one.
use openmvn.Common.{
  ℕ, ◌≡◌, refl, Bool, true, false, Option, none, some, List, [], ◌∷◌, ◌++◌, String, nat_key,
  Option-cases, inl, inr, All, All-append, All_mono, All-split,
}
use mathlib.Core.List.{Memᴰ}
use mathlib.Core.Path.{subst}
use openmvn.Common.Map.{
  lookup, Entries, insert-Entries, delete-Entries, lookup-Entries, Entries-mono,
}
use openmvn.Common.Clock.{Time}
use openmvn.Pfcp.{
  Header, Ie, Message, session_establishment_request, session_modification_request,
  session_deletion_request,
}
use openmvn.Upf.{
  Session, Sessions, new_session, dispatch, handle_session_modification_request, send_pfcp,
}
use openmvn.Upf.Responses.{Answers, dispatch-Answers}

-- The messages received so far, those whose goroutine has not yet taken the lock, the sessions, the
-- responses that are to be written, and those that were.
pub record World : Type 0 where
  pub received : List (Message × String)
  pub waiting : List (Message × String)
  pub sessions : Sessions
  pub outgoing : List (String × Message)
  pub sent : List (String × Message)

abbrev pub respond_to : String → Option Message → List (String × Message) → List (String × Message)
respond_to addr none out = out
respond_to addr (some res) out = (addr, res) ∷ out

-- A message is received and its goroutine started; any goroutine runs its handler under the lock;
-- any response is written, or its write fails.
pub data Step (w : World) : World → Type 0 where
  receive :
      (msg : Message) (addr : String)
      → Step w (record w { received = (msg, addr) ∷ w.received; waiting = (msg, addr) ∷ w.waiting })
  handle :
      (xs ys : List (Message × String)) (msg : Message) (addr : String) (now : ℕ → Time)
      → w.waiting ≡ xs ++ (msg, addr) ∷ ys
      → Step w (record w {
        waiting = xs ++ ys;
        sessions = (dispatch msg now w.sessions).0;
        outgoing = respond_to addr (dispatch msg now w.sessions).1 w.outgoing;
      })
  write :
      (xs ys : List (String × Message)) (addr : String) (res : Message) (write_ok : Bool)
      → w.outgoing ≡ xs ++ (addr, res) ∷ ys
      → Step w (record w { outgoing = xs ++ ys; sent = send_pfcp addr write_ok (some res) w.sent })

pub data Reach (s : World) : World → Type 0 where
  here : Reach s s
  next : {t u : World} → Reach s t → Step t u → Reach s u

-- Some establishment request for the SEID was received.
abbrev pub IsRequested : List (Message × String) → ℕ → Session → Type 0
IsRequested received k s =
    (req : Header) × (ies : List Ie) × (addr : String) × Memᴰ
      (session_establishment_request req ies, addr) received
    × (req.seid ≡ k)

-- The response answers a message that was received from the address that it goes to.
abbrev pub IsCaused : List (Message × String) → String × Message → Type 0
IsCaused received (addr, res) = (msg : Message) × Memᴰ (msg, addr) received × Answers msg res

pub record IsValid (w : World) : Type 0 where
  pub waiting : All (λ m. Memᴰ m w.received) w.waiting
  pub sessions : Entries (IsRequested w.received) w.sessions
  pub outgoing : All (IsCaused w.received) w.outgoing
  pub sent : All (IsCaused w.received) w.sent

receive-IsValid :
    (w : World) (msg : Message) (addr : String)
    → IsValid w
    → IsValid (record w { received = (msg, addr) ∷ w.received; waiting = (msg, addr) ∷ w.waiting })
receive-IsValid w msg addr h = record {
  waiting = (Memᴰ.head refl, All_mono w.waiting (λ m q. Memᴰ.tail q) h.waiting);
  sessions =
      Entries-mono w.sessions (λ k s (req, ies, a, q, e). (req, ies, a, Memᴰ.tail q, e)) h.sessions;
  outgoing = All_mono w.outgoing (λ p (m, q, a). (m, Memᴰ.tail q, a)) h.outgoing;
  sent = All_mono w.sent (λ p (m, q, a). (m, Memᴰ.tail q, a)) h.sent;
}

dispatch-IsRequested :
    (received : List (Message × String)) (msg : Message) (addr : String) (now : ℕ → Time)
    (s : Sessions)
    → Memᴰ (msg, addr) received
    → Entries (IsRequested received) s
    → Entries (IsRequested received) (dispatch msg now s).0
unfolding dispatch
dispatch-IsRequested received (session_establishment_request req ies) addr now s m h =
    insert-Entries (IsRequested received) req.seid (new_session req.seid now) s
      (req, ies, addr, m, refl) h
dispatch-IsRequested received (session_modification_request req _) addr now s m h =
    elim (Option-cases (lookup req.seid s)) [
      | inl absent ↦ rw (absent, handle_session_modification_request) h
      | inr (old, e) ↦
          rw (e, handle_session_modification_request)
            (insert-Entries (IsRequested received) req.seid (record old { updated_at = now 0 }) s
              (lookup-Entries (IsRequested received) req.seid s h e) h)
    ]
dispatch-IsRequested received (session_deletion_request req _) addr now s m h =
    delete-Entries (IsRequested received) req.seid s h
dispatch-IsRequested received _ addr now s m h = h

respond_to-IsCaused :
    (received : List (Message × String)) (msg : Message) (addr : String) (now : ℕ → Time)
    (s : Sessions) (out : List (String × Message))
    → Memᴰ (msg, addr) received
    → All (IsCaused received) out
    → All (IsCaused received) (respond_to addr (dispatch msg now s).1 out)
respond_to-IsCaused received msg addr now s out m h = elim (Option-cases (dispatch msg now s).1) [
  | inl silent ↦ rw silent h
  | inr (res, e) ↦ rw e ((msg, m, dispatch-Answers msg now s e), h)
]

-- Every step keeps the world valid.
Step-IsValid : {w v : World} → Step w v → IsValid w → IsValid v
Step-IsValid {w} (receive msg addr) h = receive-IsValid w msg addr h
Step-IsValid {w} (handle xs ys msg addr now e) h =
    let (m, rest) =
      All-split (λ x. Memᴰ x w.received) xs ys (msg, addr)
        (subst (All (λ x. Memᴰ x w.received)) e h.waiting) in
    record {
      waiting = rest;
      sessions = dispatch-IsRequested w.received msg addr now w.sessions m h.sessions;
      outgoing = respond_to-IsCaused w.received msg addr now w.sessions w.outgoing m h.outgoing;
      sent = h.sent;
    }
Step-IsValid {w} (write xs ys addr res write_ok e) h =
    let (cause, rest) =
      All-split (IsCaused w.received) xs ys (addr, res)
        (subst (All (IsCaused w.received)) e h.outgoing) in
    record {
      waiting = h.waiting;
      sessions = h.sessions;
      outgoing = rest;
      sent = written write_ok cause;
    }
  where
    written :
        (b : Bool)
        → IsCaused w.received (addr, res)
        → All (IsCaused w.received) (send_pfcp addr b (some res) w.sent)
    written true cause =
        unfold send_pfcp in All-append (IsCaused w.received) w.sent _ h.sent (cause, tt)
    written false cause = unfold send_pfcp in h.sent

abbrev pub start : World
start = record { received = []; waiting = []; sessions = []; outgoing = []; sent = [] }

-- However the goroutines interleave, from the start on: every session has a SEID for which an
-- establishment request was received, and every response written goes to the address of a message
-- that was received and that it answers.
pub Reach-IsValid : {w : World} → Reach start w → IsValid w
Reach-IsValid here = record { waiting = tt; sessions = tt; outgoing = tt; sent = tt }
Reach-IsValid (next r st) = Step-IsValid st (Reach-IsValid r)
