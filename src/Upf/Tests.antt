-- ===== src/Upf/Tests.antt =====
-- The UPF at concrete messages.
use openmvn.Common.{
  ℕ, ◌+◌, ◌≡◌, refl, true, false, List, [], ◌∷◌, String, nat_key, arith, string_key,
}
use openmvn.Common.Map.{lookup, insert, delete}
use openmvn.Common.Clock.{Time}
use openmvn.Pfcp.{
  Header, Message, session_establishment_request, session_modification_request,
  session_deletion_request, heartbeat_request,
}
use openmvn.Upf.{
  Upf, new_session, dispatch, handle_pfcp, Received, read_error, parse_error, message, serve_pfcp,
}
use openmvn.Upf.Sessions.{effects, serve_pfcp-refines}
use openmvn.Upf.Orders.{Reordered, exchange, view}
use openmvn.Upf.Orders.Exchange.{serve_pfcp-Reordered}
use openmvn.Upf.Widths.{UpfFits, serve_pfcp-Fits, establishment_request-Fits}
use openmvn.Smf.{establishment_request}
use openmvn.Upf.Interleaving
use openmvn.Upf.Interleaving.{World, Step, Reach, receive, handle, here, next, start}
use openmvn.Upf.Linear.{Handled, IsLinear, Reach-IsLinear}

abbrev header : ℕ → ℕ → Header
header seid seq = record {
  mp = 0;
  fo = 0;
  seid = seid;
  sequence_number = seq;
  message_priority = 0;
}

abbrev clock : ℕ → Time
clock i = 100 + i

abbrev idle : Upf
idle = record { sessions = []; sent = [] }

-- Establish two sessions, delete one, modify the other.
abbrev traffic : List Received
traffic =
    message (session_establishment_request (header 1 10) []) "smf" true clock
    ∷ read_error
    ∷ message (session_establishment_request (header 2 11) []) "smf" false clock
    ∷ parse_error
    ∷ message (session_deletion_request (header 1 12) []) "smf" true clock
    ∷ message (session_modification_request (header 2 300) []) "smf" true (λ i. 500)
    ∷ message (session_modification_request (header 1 14) []) "smf" true clock
    ∷ []

traffic_sessions :
    (serve_pfcp traffic idle).sessions ≡ (2, record (new_session 2 clock) { updated_at = 500 }) ∷ []
unfolding serve_pfcp handle_pfcp lookup insert delete
traffic_sessions = refl

serve_pfcp-refines_example :
    lookup 2 (serve_pfcp traffic idle).sessions ≡ effects 2 traffic (lookup 2 idle.sessions)
serve_pfcp-refines_example = serve_pfcp-refines 2 traffic idle

abbrev one : Upf
one = record { sessions = (1, new_session 1 clock) ∷ []; sent = [] }

-- Two messages are received, and the goroutine of the first runs.
abbrev first : Message × String
first = (session_establishment_request (header 1 3) [], "smf")

abbrev after_two : World
after_two = record start {
  received = (heartbeat_request 4, "smf") ∷ first ∷ [];
  waiting = (heartbeat_request 4, "smf") ∷ first ∷ [];
}

abbrev after_first : World
after_first = record after_two {
  waiting = (heartbeat_request 4, "smf") ∷ [];
  sessions = (dispatch (session_establishment_request (header 1 3) []) clock []).0;
  outgoing =
      Interleaving.respond_to "smf"
        (dispatch (session_establishment_request (header 1 3) []) clock []).1 [];
}

reaches : Reach start after_first
reaches =
    next
      (next (next here (receive (session_establishment_request (header 1 3) []) "smf"))
        (receive (heartbeat_request 4) "smf"))
      (handle ((heartbeat_request 4, "smf") ∷ []) [] (session_establishment_request (header 1 3) [])
        "smf" clock refl)

Reach-IsLinear_example :
    (hs : List Handled) × (lost : List (String × Message)) × IsLinear idle after_first hs lost
Reach-IsLinear_example = Reach-IsLinear idle reaches

-- A request of the SMF, and one whose sequence number is above 255.
abbrev requests : List Received
requests =
    message (establishment_request 1 "10.45.0.2" 7) "smf" true clock
    ∷ read_error
    ∷ message (session_deletion_request (header 1 3000) []) "smf" true clock
    ∷ []

serve_pfcp-Fits_example : UpfFits (serve_pfcp requests idle)
serve_pfcp-Fits_example =
    serve_pfcp-Fits requests idle
      (
        establishment_request-Fits 1 "10.45.0.2" 7 (omega arith) (omega arith),
        (tt, (((omega arith, omega arith, omega arith, omega arith, omega arith), tt), tt)),
      )
      (tt, tt)

-- Two sessions, one of which is deleted before or after the other is established.
abbrev establish_first : Received
establish_first = message (session_establishment_request (header 1 1) []) "smf" true clock

abbrev establish_second : Received
establish_second = message (session_establishment_request (header 2 2) []) "smf" true clock

abbrev delete_first : Received
delete_first = message (session_deletion_request (header 1 3) []) "smf" true clock

later :
    Reordered
      (establish_first ∷ delete_first ∷ establish_second ∷ [])
      (establish_first ∷ establish_second ∷ delete_first ∷ [])
later = exchange (establish_first ∷ []) [] delete_first establish_second refl

serve_pfcp-Reordered_example :
    view (serve_pfcp (establish_first ∷ delete_first ∷ establish_second ∷ []) idle)
    ≡ view (serve_pfcp (establish_first ∷ establish_second ∷ delete_first ∷ []) idle)
serve_pfcp-Reordered_example = serve_pfcp-Reordered _ _ idle later
