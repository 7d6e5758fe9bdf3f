-- ===== src/Smf/Concurrent/Mixups.antt =====
-- Two calls of `CreateSession` (smf/main.go) that share the socket of the client: the answer to the one is
-- read by the other.
use openmvn.Common.{ℕ, ◌≡◌, refl, true, some, List, [], ◌∷◌, String, take, nat_key}
use mathlib.Core.Path.{subst}
use openmvn.Common.Clock.{Time}
use openmvn.Upf.{Upf, handle_pfcp, dispatch, send_pfcp, handle_session_establishment_request}
use openmvn.Smf.{Bytes, Libraries, ok, no_response, read_reply, only_seid}
use openmvn.Smf.Attach.{Carries, establishment_answer}
use openmvn.Smf.Concurrent.{
  Job, World, request_of, writes, handles, loses_request, arrives, reads, times_out, Reach, here,
  next, idle, has_written, has_handled, has_arrived,
}

module _ (lib : Libraries) (smf : String) where
  -- The request of `lost` is lost, that of `handled` is handled; `lost` reads the answer.
  abbrev pub mixed_up : Job → Job → Bytes → Bytes → (ℕ → Time) → Upf → World
  mixed_up lost handled a b now u = record {
    upf = handle_pfcp (request_of lib smf handled) smf true now u;
    socket = record { inbox = []; written = a ∷ b ∷ [] };
    requests = [];
    replies = [];
    waiting = [];
    ended = (handled, no_response) ∷ (lost, ok) ∷ [];
    lost = 1;
  }

  both_wrote : Job → Job → Bytes → Bytes → Upf → World
  both_wrote first second a b u =
      has_written lib smf second b (has_written lib smf first a (idle u))

  both_wrote-Reach :
      (first second : Job) (a b : Bytes) (u : Upf)
      → lib.marshal (request_of lib smf first) ≡ some a
      → lib.marshal (request_of lib smf second) ≡ some b
      → Reach lib smf (idle u) (both_wrote first second a b u)
  unfolding both_wrote
  both_wrote-Reach first second a b u made sends =
      next (next here (writes first a made)) (writes second b sends)

  -- The first request is lost, the second handled.
  one_handled : Job → Job → Bytes → Bytes → (ℕ → Time) → Upf → World
  unfolding both_wrote
  one_handled first second a b now u =
      has_handled lib smf [] (request_of lib smf second) true now
        (record (both_wrote first second a b u) { requests = b ∷ []; lost = 1 })

  one_handled-Reach :
      (first second : Job) (a b : Bytes) (now : ℕ → Time) (u : Upf)
      → lib.parse (take 1500 b) ≡ some (request_of lib smf second)
      → Reach lib smf (idle u) (both_wrote first second a b u)
      → Reach lib smf (idle u) (one_handled first second a b now u)
  unfolding both_wrote one_handled
  one_handled-Reach first second a b now u heard path =
      next (next path (loses_request [] (b ∷ []) a refl))
        (handles [] [] b (request_of lib smf second) true now refl heard)

  -- The answer has arrived.
  answered : Job → Job → Bytes → Bytes → Bytes → (ℕ → Time) → Upf → World
  unfolding one_handled
  answered first second a b reply now u =
      has_arrived lib smf [] reply (one_handled first second a b now u)

  answered-Reach :
      (first second : Job) (a b reply : Bytes) (now : ℕ → Time) (u : Upf)
      → lib.marshal (establishment_answer only_seid now) ≡ some reply
      → Reach lib smf (idle u) (one_handled first second a b now u)
      → Reach lib smf (idle u) (answered first second a b reply now u)
  unfolding both_wrote one_handled answered dispatch handle_session_establishment_request send_pfcp
  answered-Reach first second a b reply now u answers path =
      next path (arrives [] [] smf (establishment_answer only_seid now) reply refl answers)

  reads_the_answer :
      (reply : Bytes) (now : ℕ → Time) (written : List Bytes)
      → lib.parse (take 1500 reply) ≡ some (establishment_answer only_seid now)
      → read_reply lib (record { inbox = reply ∷ []; written = written })
        ≡ (record { inbox = []; written = written }, ok)
  unfolding read_reply
  reads_the_answer reply now written understood = rw (read_reply, understood) refl

  -- Where the library carries the requests and the answer, two calls that run at once can end so,
  -- from any UPF: the request of the first is lost and never handled, and its call succeeds; the
  -- request of the second is the only one handled, and its call ends without an answer.
  pub mixed_up-Reach :
      (first second : Job) (a b reply : Bytes) (now : ℕ → Time) (u : Upf)
      → lib.marshal (request_of lib smf first) ≡ some a
      → Carries lib (request_of lib smf second) b
      → Carries lib (establishment_answer only_seid now) reply
      → Reach lib smf (idle u) (mixed_up first second a b now u)
  unfolding both_wrote one_handled answered
  mixed_up-Reach first second a b reply now u made (sends, heard) (answers, understood) =
      let path = answered-Reach first second a b reply now u answers (
        one_handled-Reach first second a b now u heard
          (both_wrote-Reach first second a b u made sends)) in
      let finished =
        next (next path (reads (second ∷ []) [] first refl)) (times_out [] [] second refl) in
      subst
        (λ p. Reach lib smf (idle u) (record (mixed_up first second a b now u) {
          socket = p.0;
          ended = (second, no_response) ∷ (first, p.1) ∷ [];
        }))
        (reads_the_answer reply now (a ∷ b ∷ []) understood) finished
