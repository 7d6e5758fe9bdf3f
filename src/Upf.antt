-- ===== src/Upf.antt =====
-- The User Plane Function (upf/pkg/upf/upf.go): its PFCP sessions and the handling of PFCP messages.
-- A handler is a step under the lock of the sessions, which also settles the response, and then the
-- write of that response. `now i` is the reading of call number `i` of `time.Now()` in a handler.
pub mod Sessions
pub mod Responses
pub mod Interleaving
pub mod Lifecycle
pub mod UserPlane
pub mod Widths
pub mod Orders
pub mod Linear
mod Tests
use openmvn.Common.{
  ℕ, ◌%◌, Bool, true, false, Option, none, some, List, [], ◌∷◌, ◌++◌, String, if◌then◌else◌,
  nat_key,
}
use openmvn.Common.Map.{Map, lookup, insert, delete, size}
use openmvn.Common.Clock.{Time}
use openmvn.Pfcp.{
  Header, Ie, node_id, f_seid, cause_request_accepted, recovery_time_stamp, Message,
  heartbeat_request, heartbeat_response, association_setup_request, association_setup_response,
  session_establishment_request, session_establishment_response, session_modification_request,
  session_modification_response, session_deletion_request, session_deletion_response,
}

-- `UEIP` is nil where it is `none`.
pub record Session : Type 0 where
  pub seid : ℕ
  pub ue_ip : Option (List ℕ)
  pub teid : ℕ
  pub created_at : Time
  pub updated_at : Time
  pub state : String

abbrev pub Sessions : Type 0
Sessions = Map ℕ Session

-- The sessions, and the messages written to the socket with their addresses.
pub record Upf : Type 0 where
  pub sessions : Sessions
  pub sent : List (String × Message)

unfoldable pub get_session_count : Upf → ℕ
get_session_count u = size u.sessions

-- The five arguments in front of the elements of a session response.
abbrev pub response_header : Header → Header
response_header req = record {
  mp = req.sequence_number % 256;
  fo = req.message_priority % 256;
  seid = req.seid;
  sequence_number = req.sequence_number;
  message_priority = req.message_priority % 256;
}

abbrev pub new_session : ℕ → (ℕ → Time) → Session
new_session seid now = record {
  seid = seid;
  ue_ip = none;
  teid = 0;
  created_at = now 0;
  updated_at = now 1;
  state = "ESTABLISHED";
}

unfoldable pub handle_heartbeat_request : ℕ → (ℕ → Time) → Sessions → Sessions × Option Message
handle_heartbeat_request seq now s =
    (s, some (heartbeat_response seq (recovery_time_stamp (now 0) ∷ [])))

unfoldable pub handle_association_setup_request :
    ℕ → (ℕ → Time) → Sessions → Sessions × Option Message
handle_association_setup_request seq now s = (
  s,
  some (
      association_setup_response seq
        (node_id "upf.local" ∷ cause_request_accepted ∷ recovery_time_stamp (now 0) ∷ [])),
)

unfoldable pub handle_session_establishment_request :
    Header → (ℕ → Time) → Sessions → Sessions × Option Message
handle_session_establishment_request req now s = (
  insert req.seid (new_session req.seid now) s,
  some (
      session_establishment_response (response_header req) (
        node_id "upf.local"
        ∷ cause_request_accepted
        ∷ recovery_time_stamp (now 2)
        ∷ f_seid req.seid "127.0.0.1"
        ∷ [])),
)

-- An unknown session is logged, and not answered.
unfoldable pub handle_session_modification_request :
    Header → (ℕ → Time) → Sessions → Sessions × Option Message
handle_session_modification_request req now s = elim (lookup req.seid s) [
  | none ↦ (s, none)
  | some session ↦ (
    insert req.seid (record session { updated_at = now 0 }) s,
    some (
        session_modification_response (response_header req)
          (node_id "upf.local" ∷ cause_request_accepted ∷ [])),
  )
]

unfoldable pub handle_session_deletion_request :
    Header → (ℕ → Time) → Sessions → Sessions × Option Message
handle_session_deletion_request req now s = (
  delete req.seid s,
  some (
      session_deletion_response (response_header req)
        (node_id "upf.local" ∷ cause_request_accepted ∷ [])),
)

-- The switch of `handlePFCP`: what its handler does to the sessions, and its response.
unfoldable pub dispatch : Message → (ℕ → Time) → Sessions → Sessions × Option Message
unfolding handle_heartbeat_request handle_association_setup_request
    handle_session_establishment_request handle_session_modification_request
    handle_session_deletion_request
dispatch (heartbeat_request seq) now s = handle_heartbeat_request seq now s
dispatch (association_setup_request seq) now s = handle_association_setup_request seq now s
dispatch (session_establishment_request req _) now s =
    handle_session_establishment_request req now s
dispatch (session_modification_request req _) now s = handle_session_modification_request req now s
dispatch (session_deletion_request req _) now s = handle_session_deletion_request req now s
dispatch _ now s = (s, none)

-- A write that fails is logged.
unfoldable pub send_pfcp :
    String → Bool → Option Message → List (String × Message) → List (String × Message)
send_pfcp addr write_ok none sent = sent
send_pfcp addr write_ok (some res) sent = if write_ok then sent ++ (addr, res) ∷ [] else sent

unfoldable pub handle_pfcp : Message → String → Bool → (ℕ → Time) → Upf → Upf
unfolding dispatch send_pfcp
handle_pfcp msg addr write_ok now u =
    let (s, res) = dispatch msg now u.sessions in
    record { sessions = s; sent = send_pfcp addr write_ok res u.sent }

-- What `servePFCP` reads: an error, bytes that do not parse, or a message, with the outcome of the
-- write of its handler and the clock of that handler.
pub data Received : Type 0 where
  read_error parse_error : Received
  message : Message → String → Bool → (ℕ → Time) → Received

-- The loop of `servePFCP`, for handlers that run one after another.
unfoldable pub serve_pfcp : List Received → Upf → Upf
serve_pfcp [] u = u
serve_pfcp (read_error ∷ rest) u = serve_pfcp rest u
serve_pfcp (parse_error ∷ rest) u = serve_pfcp rest u
serve_pfcp (message msg addr write_ok now ∷ rest) u =
    serve_pfcp rest (handle_pfcp msg addr write_ok now u)
