-- ===== src/Smf/Concurrent/Tests.antt =====
-- The theorems on concurrent calls of `CreateSession` (smf/main.go) at two calls, with a stand-in for the
-- PFCP library that carries the TEID of a request and the time of an answer.
use openmvn.Common.{
  ℕ, ◌+◌, ◌≤◌, ◌≡◌, refl, sym, ap, All, Option, none, some, List, [], ◌∷◌, take, length, arith,
}
use mathlib.Core.Option.{some-injective}
use openmvn.Common.Clock.{Time}
use openmvn.Pfcp.{
  Ie, create_pdr, recovery_time_stamp, Message, session_establishment_request,
  session_establishment_response,
}
use openmvn.Upf.{Upf}
use openmvn.Smf.{Bytes, Libraries, establishment_request}
use openmvn.Smf.Attach.{establishment_answer}
use openmvn.Smf.Concurrent.{Job, World, Reach, has_written, successes, idle}
use openmvn.Smf.Concurrent.Losses.{Reach-lost, under_way}
use openmvn.Smf.Concurrent.Sessions.{HasSession, CarriesRequests, Reach-session}
use openmvn.Smf.Concurrent.Smooth.{Smooth, here, writes, CarriesAnswers, HasSucceeded}
use openmvn.Smf.Concurrent.Progress.{Smooth-progress}
use openmvn.Smf.Concurrent.Mixups.{mixed_up, mixed_up-Reach}

abbrev clock : ℕ → Time
clock i = 600 + i

abbrev teid_of : List Ie → ℕ
teid_of [] = 0
teid_of (create_pdr p ∷ rest) = p.teid
teid_of (_ ∷ rest) = teid_of rest

abbrev time_of : List Ie → Time
time_of [] = 0
time_of (recovery_time_stamp t ∷ rest) = t
time_of (_ ∷ rest) = time_of rest

abbrev marshal : Message → Option Bytes
marshal (session_establishment_request h ies) = some (50 ∷ teid_of ies ∷ [])
marshal (session_establishment_response h ies) = some (51 ∷ time_of ies ∷ 0 ∷ [])
marshal _ = none

abbrev parse : Bytes → Option Message
parse (b ∷ teid ∷ []) = some (establishment_request 1 "10.45.0.2" teid)
parse (b ∷ c ∷ d ∷ bs) = some (establishment_answer 1 (λ i. c))
parse _ = none

abbrev carrier : Libraries
carrier = record {
  marshal = marshal;
  parse = parse;
  show_ip = λ ip. "10.45.0.2";
  event_json = λ e. some (123 ∷ 125 ∷ []);
}

abbrev idle_upf : Upf
idle_upf = record { sessions = []; sent = [] }

abbrev first : Job
first = record { ue_ip = 10 ∷ 45 ∷ 0 ∷ 2 ∷ []; teid = 7 }

abbrev second : Job
second = record first { teid = 8 }

-- The request of the first call is lost, and it reads the answer to the second.
abbrev after : World
after = mixed_up carrier "smf" first second (50 ∷ 7 ∷ []) (50 ∷ 8 ∷ []) clock idle_upf

mixed_up-Reach_example : Reach carrier "smf" (idle idle_upf) after
mixed_up-Reach_example =
    mixed_up-Reach carrier "smf" first second (50 ∷ 7 ∷ []) (50 ∷ 8 ∷ []) (51 ∷ 602 ∷ 0 ∷ []) clock
      idle_upf refl (refl, refl) (refl, refl)

path : Reach carrier "smf" (idle idle_upf) after
path =
    mixed_up-Reach carrier "smf" first second (50 ∷ 7 ∷ []) (50 ∷ 8 ∷ []) (51 ∷ 602 ∷ 0 ∷ []) clock
      idle_upf refl (refl, refl) (refl, refl)

Reach-lost_example :
    successes after.ended + (under_way after + after.lost) ≤ length after.socket.written
Reach-lost_example = Reach-lost carrier "smf" idle_upf after path

carrier-CarriesRequests : CarriesRequests carrier "smf"
carrier-CarriesRequests j d e = ap (λ x. parse (take 1500 x)) (sym (some-injective _ _ e))

Reach-session_example : HasSession after.upf
Reach-session_example =
    Reach-session carrier "smf" idle_upf after carrier-CarriesRequests path (omega arith)

carrier-CarriesAnswers : CarriesAnswers carrier "smf"
carrier-CarriesAnswers now = (51 ∷ now 2 ∷ 0 ∷ [], (refl, refl))

-- Both calls have written.
abbrev both_wait : World
both_wait =
    has_written carrier "smf" second (50 ∷ 8 ∷ [])
      (has_written carrier "smf" first (50 ∷ 7 ∷ []) (idle idle_upf))

both_wait-Smooth : Smooth carrier "smf" (idle idle_upf) both_wait
both_wait-Smooth = writes (writes here first (50 ∷ 7 ∷ []) refl) second (50 ∷ 8 ∷ []) refl

Smooth-progress_example :
    (v : World) × Smooth carrier "smf" both_wait v
    × (length v.waiting ≡ 0)
    × (length v.ended ≡ 0 + 2)
    × All (HasSucceeded carrier "smf") v.ended
Smooth-progress_example =
    Smooth-progress carrier "smf" idle_upf both_wait carrier-CarriesRequests carrier-CarriesAnswers
      both_wait-Smooth
