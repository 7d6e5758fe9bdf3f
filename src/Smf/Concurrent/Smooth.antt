-- ===== src/Smf/Concurrent/Smooth.antt =====
-- Calls of `CreateSession` (smf/main.go) that run at once while nothing goes wrong: no datagram is lost, no
-- write fails and no deadline passes.
use openmvn.Common.{
  lengths, ℕ, ◌+◌, ◌≡◌, refl, sym, ap, ◌∙◌, true, some, List, [], ◌∷◌, ◌++◌, String, All,
  All-append, All-split, length, take, nat_key,
}
use mathlib.Core.Path.{subst}
use mathlib.Core.Option.{some-injective}
use openmvn.Common.Clock.{Time}
use openmvn.Pfcp.{Message}
use openmvn.Upf.{Upf, dispatch, send_pfcp, handle_session_establishment_request}
use openmvn.Smf.{Bytes, Libraries, Socket, Outcome, ok, read_reply, only_seid}
use openmvn.Smf.Attach.{Carries, establishment_answer}
use openmvn.Smf.Client.{IsResponse, ok-judge}
use openmvn.Smf.Concurrent.{
  Job, World, request_of, has_written, has_handled, has_arrived, has_read, Step, Reach, idle,
}
use openmvn.Smf.Concurrent.Sessions.{IsRequest, CarriesRequests}

module _ (lib : Libraries) (smf : String) where
  -- A run in which nothing goes wrong.
  pub data Smooth (s : World) : World → Type 0 where
    here : Smooth s s
    writes :
        {t : World}
        → Smooth s t
        → (j : Job) (b : Bytes) → lib.marshal (request_of lib smf j) ≡ some b
        → Smooth s (has_written lib smf j b t)
    handles :
        {t : World}
        → Smooth s t
        → (xs ys : List Bytes) (d : Bytes) (msg : Message) (now : ℕ → Time)
        → t.requests ≡ xs ++ d ∷ ys
        → lib.parse (take 1500 d) ≡ some msg
        → Smooth s (has_handled lib smf (xs ++ ys) msg true now t)
    arrives :
        {t : World}
        → Smooth s t
        → (xs ys : List (String × Message)) (to : String) (msg : Message) (b : Bytes)
        → t.replies ≡ xs ++ (to, msg) ∷ ys
        → lib.marshal msg ≡ some b
        → Smooth s (has_arrived lib smf (xs ++ ys) b t)
    reads :
        {t : World}
        → Smooth s t
        → (xs ys : List Job) (j : Job) (d : Bytes) (ds : List Bytes) → t.waiting ≡ xs ++ j ∷ ys
        → t.socket.inbox ≡ d ∷ ds
        → Smooth s (has_read lib smf (xs ++ ys) j t)

  pub Smooth-Reach : {s w : World} → Smooth s w → Reach lib smf s w
  Smooth-Reach here = Reach.here
  Smooth-Reach (writes path j b e) = Reach.next (Smooth-Reach path) (Step.writes j b e)
  Smooth-Reach (handles path xs ys d msg now e heard) =
      Reach.next (Smooth-Reach path) (Step.handles xs ys d msg true now e heard)
  Smooth-Reach (arrives path xs ys to msg b e sent) =
      Reach.next (Smooth-Reach path) (Step.arrives xs ys to msg b e sent)
  Smooth-Reach (reads path xs ys j d ds e f) = Reach.next (Smooth-Reach path) (Step.reads xs ys j e)

  -- The library encodes the answer of the UPF, and decodes what it has encoded.
  abbrev pub CarriesAnswers : Type 0
  CarriesAnswers =
      (now : ℕ → Time) → (reply : Bytes) × Carries lib (establishment_answer only_seid now) reply

  abbrev pub IsAnswer : String × Message → Type 0
  IsAnswer p = (now : ℕ → Time) × (p.1 ≡ establishment_answer only_seid now)

  abbrev pub HasSucceeded : Job × Outcome → Type 0
  HasSucceeded p = p.1 ≡ ok

  -- Each call that waits has a datagram under way, and all that has ended has ended well.
  pub record IsFine (w : World) : Type 0 where
    pub requests : All (IsRequest lib smf) w.requests
    pub replies : All IsAnswer w.replies
    pub inbox : All (IsResponse lib) w.socket.inbox
    pub ended : All HasSucceeded w.ended
    pub balance : length w.waiting ≡ length w.socket.inbox + (length w.replies + length w.requests)

  answers_request :
      (j : Job) (now : ℕ → Time) (w : World)
      → send_pfcp smf true (dispatch (request_of lib smf j) now w.upf.sessions).1 []
        ≡ (smf, establishment_answer only_seid now) ∷ []
  unfolding dispatch send_pfcp handle_session_establishment_request
  answers_request j now w = refl

  read_reply-IsResponse :
      (d : Bytes) (ds written : List Bytes)
      → IsResponse lib d
      → read_reply lib (record { inbox = d ∷ ds; written = written })
        ≡ (record { inbox = ds; written = written }, ok)
  unfolding read_reply
  read_reply-IsResponse d ds written (m, e, h) =
      ap (λ o. (record { inbox = ds; written = written }, o))
        (ok-judge (lib.parse (take 1500 d)) m e h)

  pub reads_response :
      (s : Socket) (d : Bytes) (ds : List Bytes)
      → s.inbox ≡ d ∷ ds
      → All (IsResponse lib) s.inbox
      → read_reply lib s ≡ (record { inbox = ds; written = s.written }, ok)
  reads_response s d ds e h =
      ap (λ l. read_reply lib (record { inbox = l; written = s.written })) e
      ∙ read_reply-IsResponse d ds s.written (subst (All (IsResponse lib)) e h).0

  handled-IsFine :
      (w : World) (xs ys : List Bytes) (d : Bytes) (msg : Message) (now : ℕ → Time)
      → CarriesRequests lib smf
      → w.requests ≡ xs ++ d ∷ ys
      → lib.parse (take 1500 d) ≡ some msg
      → IsFine w
      → IsFine (has_handled lib smf (xs ++ ys) msg true now w)
  handled-IsFine w xs ys d msg now carries e heard h =
      let ((j, made), rest) =
        All-split (IsRequest lib smf) xs ys d (subst (All (IsRequest lib smf)) e h.requests) in
      let asked = some-injective _ _ (sym heard ∙ carries j d made) in
      let answer =
        ap (λ m. send_pfcp smf true (dispatch m now w.upf.sessions).1 []) asked
        ∙ answers_request j now w in
      record {
        requests = rest;
        replies =
            subst (λ l. All IsAnswer (w.replies ++ l)) (sym answer)
              (All-append IsAnswer w.replies ((smf, establishment_answer only_seid now) ∷ [])
                h.replies ((now, refl), tt));
        inbox = h.inbox;
        ended = h.ended;
        balance = grind (lengths, ap length answer);
      }

  arrived-IsFine :
      (w : World) (xs ys : List (String × Message)) (to : String) (msg : Message) (b : Bytes)
      → CarriesAnswers
      → w.replies ≡ xs ++ (to, msg) ∷ ys
      → lib.marshal msg ≡ some b
      → IsFine w
      → IsFine (has_arrived lib smf (xs ++ ys) b w)
  arrived-IsFine w xs ys to msg b carries e sent h =
      let ((now, same), rest) =
        All-split IsAnswer xs ys (to, msg) (subst (All IsAnswer) e h.replies) in
      let (reply, (made, understood)) = carries now in
      let encoded = some-injective _ _ (sym made ∙ sym (ap lib.marshal same) ∙ sent) in
      record {
        requests = h.requests;
        replies = rest;
        inbox = All-append (IsResponse lib) w.socket.inbox (b ∷ []) h.inbox (
          (
            establishment_answer only_seid now,
            subst (λ x. lib.parse (take 1500 x) ≡ some (establishment_answer only_seid now)) encoded
                understood,
            refl,
          ),
          tt,
        );
        ended = h.ended;
        balance = grind lengths;
      }

  read-IsFine :
      (w : World) (xs ys : List Job) (j : Job) (d : Bytes) (ds : List Bytes)
      → w.waiting ≡ xs ++ j ∷ ys
      → w.socket.inbox ≡ d ∷ ds
      → IsFine w
      → IsFine (has_read lib smf (xs ++ ys) j w)
  read-IsFine w xs ys j d ds e f h =
      let got = reads_response w.socket d ds f h.inbox in
      let left = ap (λ p. p.0.inbox) got in
      record {
        requests = h.requests;
        replies = h.replies;
        inbox = subst (All (IsResponse lib)) (sym left) (subst (All (IsResponse lib)) f h.inbox).1;
        ended = (ap (λ p. p.1) got, h.ended);
        balance = grind (lengths, ap length f, ap length left);
      }

  pub Smooth-IsFine :
      CarriesRequests lib smf → CarriesAnswers → {s w : World} → IsFine s → Smooth s w → IsFine w
  Smooth-IsFine requests answers h here = h
  Smooth-IsFine requests answers h (writes {t} path j b e) =
      let fine = Smooth-IsFine requests answers h path in
      record {
        requests = All-append (IsRequest lib smf) t.requests (b ∷ []) fine.requests ((j, e), tt);
        replies = fine.replies;
        inbox = fine.inbox;
        ended = fine.ended;
        balance = grind (lengths, fine.balance);
      }
  Smooth-IsFine requests answers h (handles {t} path xs ys d msg now e heard) =
      handled-IsFine t xs ys d msg now requests e heard (Smooth-IsFine requests answers h path)
  Smooth-IsFine requests answers h (arrives {t} path xs ys to msg b e sent) =
      arrived-IsFine t xs ys to msg b answers e sent (Smooth-IsFine requests answers h path)
  Smooth-IsFine requests answers h (reads {t} path xs ys j d ds e f) =
      read-IsFine t xs ys j d ds e f (Smooth-IsFine requests answers h path)

  pub idle-IsFine : (u : Upf) → IsFine (idle u)
  idle-IsFine u = record { requests = tt; replies = tt; inbox = tt; ended = tt; balance = refl }
