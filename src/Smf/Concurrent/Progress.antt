-- ===== src/Smf/Concurrent/Progress.antt =====
-- Calls of `CreateSession` (smf/main.go) that run at once, and go on until none of them waits.
use openmvn.Common.{ℕ, ◌+◌, ◌≡◌, refl, ap, ◌∙◌, true, List, [], ◌∷◌, String, arith, All, length}
use mathlib.Core.Path.{subst}
use openmvn.Common.Clock.{Time}
use openmvn.Pfcp.{Message}
use openmvn.Upf.{Upf}
use openmvn.Smf.{Bytes, Libraries}
use openmvn.Smf.Concurrent.{Job, World, request_of, has_handled, has_arrived, has_read, idle}
use openmvn.Smf.Concurrent.Sessions.{IsRequest, CarriesRequests}
use openmvn.Smf.Concurrent.Smooth.{
  Smooth, here, handles, arrives, reads, CarriesAnswers, IsAnswer, HasSucceeded, IsFine,
  reads_response, Smooth-IsFine, idle-IsFine,
}

abbrev some_time : ℕ → Time
some_time i = 0

-- All calls that have written.
abbrev written_calls : World → ℕ
written_calls w = length w.ended + length w.waiting

module _ (lib : Libraries) (smf : String) (requests : CarriesRequests lib smf)
    (answers : CarriesAnswers lib smf) (s : World) (fine : IsFine lib smf s) where
  -- From here the calls go on smoothly to a world with so many of them.
  abbrev GoesOn : (World → Type 0) → ℕ → Type 0
  GoesOn P n = (v : World) × Smooth lib smf s v × P v × (written_calls v ≡ n)

  Smooth-IsFine_here : {w : World} → Smooth lib smf s w → IsFine lib smf w
  Smooth-IsFine_here path = Smooth-IsFine lib smf requests answers fine path

  abbrev NoRequests : World → Type 0
  NoRequests w = w.requests ≡ []

  abbrev NoReplies : World → Type 0
  NoReplies w = NoRequests w × (w.replies ≡ [])

  abbrev NoDatagrams : World → Type 0
  NoDatagrams w = NoReplies w × (w.socket.inbox ≡ [])

  -- The UPF handles the requests, one after another.
  drain_requests :
      (l : List Bytes) (w : World)
      → w.requests ≡ l
      → Smooth lib smf s w
      → GoesOn NoRequests (written_calls w)
  drain_requests [] w e path = (w, path, e, refl)
  drain_requests (d ∷ rest) w e path =
      let ((j, made), _) = subst (All (IsRequest lib smf)) e (Smooth-IsFine_here path).requests in
      drain_requests rest (has_handled lib smf rest (request_of lib smf j) true some_time w) refl
        (handles path [] rest d (request_of lib smf j) some_time e (requests j d made))

  -- The answers arrive, one after another.
  drain_replies :
      (l : List (String × Message)) (w : World)
      → w.replies ≡ l
      → NoRequests w
      → Smooth lib smf s w
      → GoesOn NoReplies (written_calls w)
  drain_replies [] w e quiet path = (w, path, (quiet, e), refl)
  drain_replies ((to, msg) ∷ rest) w e quiet path =
      let ((now, same), _) = subst (All (IsAnswer lib smf)) e (Smooth-IsFine_here path).replies in
      let (reply, (made, _)) = answers now in
      drain_replies rest (has_arrived lib smf rest reply w) refl quiet
        (arrives path [] rest to msg reply e (ap lib.marshal same ∙ made))

  -- A call that waits reads an answer.
  drain_inbox :
      (l : List Bytes) (waits : List Job) (w : World)
      → w.socket.inbox ≡ l
      → w.waiting ≡ waits
      → NoReplies w
      → Smooth lib smf s w
      → GoesOn NoDatagrams (written_calls w)
  drain_inbox [] waits w e f quiet path = (w, path, (quiet, e), refl)
  drain_inbox (d ∷ rest) [] w e f quiet path =
      absurd (omega (arith, (Smooth-IsFine_here path).balance, ap length e, ap length f))
  drain_inbox (d ∷ rest) (j ∷ others) w e f quiet path =
      let got = reads_response lib smf w.socket d rest e (Smooth-IsFine_here path).inbox in
      let (v, on, empty, same) =
        drain_inbox rest others (has_read lib smf others j w) (ap (λ p. p.0.inbox) got) refl quiet
          (reads path [] others j d rest f e) in
      (v, on, empty, omega (arith, same, ap length f))

  drain : (w : World) → Smooth lib smf s w → GoesOn NoDatagrams (written_calls w)
  drain w path =
      let (v, on_v, handled, same_v) = drain_requests w.requests w refl path in
      let (x, on_x, arrived, same_x) = drain_replies v.replies v refl handled on_v in
      let (y, on_y, empty, same_y) =
        drain_inbox x.socket.inbox x.waiting x refl refl arrived on_x in
      (y, on_y, empty, same_y ∙ same_x ∙ same_v)

-- Where the library carries the requests and the answers: however many calls have started at once while
-- nothing went wrong, and wherever they are, they can go on so until no call waits; then all that
-- have written their request have ended, and every one has succeeded.
pub Smooth-progress :
    (lib : Libraries) (smf : String) (u : Upf) (w : World)
    → CarriesRequests lib smf
    → CarriesAnswers lib smf
    → Smooth lib smf (idle u) w
    → (v : World) × Smooth lib smf w v
      × (length v.waiting ≡ 0)
      × (length v.ended ≡ length w.ended + length w.waiting)
      × All (HasSucceeded lib smf) v.ended
Smooth-progress lib smf u w requests answers path =
    let fine = Smooth-IsFine lib smf requests answers (idle-IsFine lib smf u) path in
    let (v, on, ((no_requests, no_replies), empty), same) =
      drain lib smf requests answers w fine w here in
    let end = Smooth-IsFine lib smf requests answers fine on in
    let still : length v.waiting ≡ 0 =
      end.balance ∙ omega (arith, ap length no_requests, ap length no_replies, ap length empty) in
    (v, on, still, omega (arith, same, still), end.ended)
