-- ===== src/Smf/Concurrent.antt =====
-- Calls of `CreateSession` (smf/main.go) that run at once. Each HTTP request has a goroutine of its own, and
-- all use the one socket of the one PFCP client: whichever call reads next takes the datagram that
-- has waited longest. The network loses datagrams and reorders them, and does not duplicate them.
pub mod Losses
pub mod Sessions
pub mod Mixups
pub mod Smooth
pub mod Progress
mod Tests
use openmvn.Common.{
  ℕ, ◌+◌, ◌≡◌, ap, ◌∙◌, Bool, true, none, some, List, [], ◌∷◌, ◌++◌, String, take, if◌then◌else◌,
}
use mathlib.Core.List.{append-nil}
use openmvn.Common.Clock.{Time}
use openmvn.Pfcp.{Message}
use openmvn.Upf.{Upf, dispatch, handle_pfcp, send_pfcp}
use openmvn.Smf.{
  Bytes, Libraries, Socket, Outcome, marshal_error, write_error, no_response, is_ok,
  establishment_request, only_seid, read_reply, create_session,
}
use openmvn.Smf.Client.{sending}

-- The arguments of a call that differ between calls.
pub record Job : Type 0 where
  pub ue_ip : Bytes
  pub teid : ℕ

-- The UPF, the client's socket, the datagrams under way to the UPF and the messages under way back, the
-- calls that wait for an answer, those that have ended, and the number of datagrams lost.
pub record World : Type 0 where
  pub upf : Upf
  pub socket : Socket
  pub requests : List Bytes
  pub replies : List (String × Message)
  pub waiting : List Job
  pub ended : List (Job × Outcome)
  pub lost : ℕ

module _ (lib : Libraries) (smf : String) where
  abbrev pub request_of : Job → Message
  request_of j = establishment_request only_seid (lib.show_ip j.ue_ip) j.teid

  abbrev pub has_written : Job → Bytes → World → World
  has_written j b w = record w {
    socket = record { inbox = w.socket.inbox; written = w.socket.written ++ b ∷ [] };
    requests = w.requests ++ b ∷ [];
    waiting = j ∷ w.waiting;
  }

  abbrev pub has_failed : Job → Outcome → World → World
  has_failed j o w = record w { ended = (j, o) ∷ w.ended }

  abbrev pub has_handled : List Bytes → Message → Bool → (ℕ → Time) → World → World
  has_handled rest msg write_ok now w = record w {
    upf = handle_pfcp msg smf write_ok now w.upf;
    requests = rest;
    replies = w.replies ++ send_pfcp smf write_ok (dispatch msg now w.upf.sessions).1 [];
  }

  abbrev pub has_arrived : List (String × Message) → Bytes → World → World
  has_arrived rest b w = record w {
    socket = record { inbox = w.socket.inbox ++ b ∷ []; written = w.socket.written };
    replies = rest;
  }

  abbrev pub has_read : List Job → Job → World → World
  has_read rest j w = record w {
    socket = (read_reply lib w.socket).0;
    waiting = rest;
    ended = (j, (read_reply lib w.socket).1) ∷ w.ended;
  }

  -- A call writes its request, or fails to; the UPF takes a datagram, and the answer comes back; the
  -- network loses the one or the other; a call that waits reads, or its deadline passes.
  pub data Step (w : World) : World → Type 0 where
    writes :
        (j : Job) (b : Bytes) → lib.marshal (request_of j) ≡ some b → Step w (has_written j b w)
    cannot_marshal :
        (j : Job) → lib.marshal (request_of j) ≡ none → Step w (has_failed j marshal_error w)
    cannot_write :
        (j : Job) (b : Bytes)
        → lib.marshal (request_of j) ≡ some b
        → Step w (has_failed j write_error w)
    handles :
        (xs ys : List Bytes) (d : Bytes) (msg : Message) (write_ok : Bool) (now : ℕ → Time)
        → w.requests ≡ xs ++ d ∷ ys
        → lib.parse (take 1500 d) ≡ some msg
        → Step w (has_handled (xs ++ ys) msg write_ok now w)
    loses_request :
        (xs ys : List Bytes) (d : Bytes)
        → w.requests ≡ xs ++ d ∷ ys
        → Step w (record w { requests = xs ++ ys; lost = w.lost + 1 })
    arrives :
        (xs ys : List (String × Message)) (to : String) (msg : Message) (b : Bytes)
        → w.replies ≡ xs ++ (to, msg) ∷ ys
        → lib.marshal msg ≡ some b
        → Step w (has_arrived (xs ++ ys) b w)
    loses_reply :
        (xs ys : List (String × Message)) (p : String × Message)
        → w.replies ≡ xs ++ p ∷ ys
        → Step w (record w { replies = xs ++ ys; lost = w.lost + 1 })
    reads :
        (xs ys : List Job) (j : Job) → w.waiting ≡ xs ++ j ∷ ys → Step w (has_read (xs ++ ys) j w)
    times_out :
        (xs ys : List Job) (j : Job)
        → w.waiting ≡ xs ++ j ∷ ys
        → Step w (record w { waiting = xs ++ ys; ended = (j, no_response) ∷ w.ended })

  pub data Reach (s : World) : World → Type 0 where
    here : Reach s s
    next : {t u : World} → Reach s t → Step t u → Reach s u

  -- Without other calls in between, a write and a read are the call.
  has_read-has_written :
      (j : Job) (b : Bytes) (w : World)
      → lib.marshal (request_of j) ≡ some b
      → create_session lib only_seid j.ue_ip j.teid true [] w.socket
        ≡ read_reply lib (has_written j b w).socket
  has_read-has_written j b w e =
      sending lib only_seid j.ue_ip j.teid [] w.socket b e
      ∙ ap (λ l. read_reply lib (record { inbox = l; written = w.socket.written ++ b ∷ [] }))
          (append-nil w.socket.inbox)

-- The number of calls that ended without an error.
abbrev pub one_if : Bool → ℕ
one_if b = if b then 1 else 0

abbrev pub successes : List (Job × Outcome) → ℕ
successes [] = 0
successes ((j, o) ∷ rest) = one_if (is_ok o) + successes rest

-- No call under way, and nothing on the network.
abbrev pub idle : Upf → World
idle u = record {
  upf = u;
  socket = record { inbox = []; written = [] };
  requests = [];
  replies = [];
  waiting = [];
  ended = [];
  lost = 0;
}
