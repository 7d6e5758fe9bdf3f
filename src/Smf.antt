-- ===== src/Smf.antt =====
-- The SMF service (smf/main.go): its PFCP client towards the UPF, and the HTTP endpoint that GTP-C Create
-- Session Requests come in at. Encodings, the parser of GTP-C and the text form of an IP address are
-- parameters: the source takes them from libraries.
pub mod Client
pub mod Endpoint
pub mod Sessions
pub mod Attach
pub mod Concurrent
mod Tests
use openmvn.Common.{
  ℕ, Bool, true, false, Option, none, some, List, [], ◌∷◌, ◌++◌, String, take, if◌then◌else◌,
}
use openmvn.Common.Decimal.{print_uint}
use openmvn.Common.Clock.{Time}
use openmvn.Common.Http.{
  Response, nothing, octets, http_error, status_ok, status_bad_request,
  status_internal_server_error,
}
use openmvn.Events.{Bus, Marshal, publish_pfcp_created}
use openmvn.Pfcp.{
  Header, CreatePdr, CreateFar, access, core, Ie, node_id, f_seid, create_pdr, create_far, Message,
  heartbeat_request, heartbeat_response, association_setup_request, association_setup_response,
  session_establishment_request, session_establishment_response, session_modification_request,
  session_modification_response, session_deletion_request, session_deletion_response, other,
}

abbrev pub Bytes : Type 0
Bytes = List ℕ

-- The libraries that the service calls: PFCP's `Marshal` and `Parse`, `IP.String`, and the
-- `json.Marshal` of the publisher.
pub record Libraries : Type 0 where
  pub marshal : Message → Option Bytes
  pub parse : Bytes → Option Message
  pub show_ip : Bytes → String
  pub event_json : Marshal

-- The client's UDP socket: the datagrams that wait to be read, and those that have been written.
pub record Socket : Type 0 where
  pub inbox : List Bytes
  pub written : List Bytes

-- How `CreateSession` ends: nil, or one of its errors.
pub data Outcome : Type 0 where
  ok marshal_error write_error no_response parse_failed unexpected : Outcome

abbrev pub is_ok : Outcome → Bool
is_ok ok = true
is_ok marshal_error = false
is_ok write_error = false
is_ok no_response = false
is_ok parse_failed = false
is_ok unexpected = false

-- The request that `CreateSession` builds.
abbrev pub establishment_request : ℕ → String → ℕ → Message
establishment_request seid ue_ip teid =
    session_establishment_request
      (record { mp = 0; fo = 0; seid = seid; sequence_number = 1; message_priority = 0 })
      (node_id "smf.local"
        ∷ f_seid seid "127.0.0.1"
        ∷ create_pdr (record {
          pdr_id = 1;
          precedence = 255;
          source_interface = access;
          ue_ip = ue_ip;
          teid = teid;
          outer_header_removal = 0;
        })
        ∷ create_far (record { far_id = 1; apply_action = 2; destination_interface = core })
        ∷ [])

-- The type test of `CreateSession`.
abbrev pub is_establishment_response : Message → Bool
is_establishment_response (session_establishment_response h ies) = true
is_establishment_response (heartbeat_request n) = false
is_establishment_response (heartbeat_response n ies) = false
is_establishment_response (association_setup_request n) = false
is_establishment_response (association_setup_response n ies) = false
is_establishment_response (session_establishment_request h ies) = false
is_establishment_response (session_modification_request h ies) = false
is_establishment_response (session_modification_response h ies) = false
is_establishment_response (session_deletion_request h ies) = false
is_establishment_response (session_deletion_response h ies) = false
is_establishment_response other = false

-- What the client makes of a datagram.
abbrev pub judge : Option Message → Outcome
judge none = parse_failed
judge (some parsed) = if is_establishment_response parsed then ok else unexpected

-- `conn.Read` into 1500 bytes: the first datagram that waits, its end cut off, or the timeout.
unfoldable pub read_reply : Libraries → Socket → Socket × Outcome
read_reply lib s = elim s.inbox [
  | [] ↦ (s, no_response)
  | d ∷ ds ↦ (record s { inbox = ds }, judge (lib.parse (take 1500 d)))
]

-- `CreateSession`: `writes` says whether `conn.Write` succeeds, and `arrivals` are the datagrams that
-- come in until the deadline.
unfoldable pub create_session :
    Libraries → ℕ → Bytes → ℕ → Bool → List Bytes → Socket → Socket × Outcome
unfolding read_reply
create_session lib seid ue_ip teid writes arrivals s =
    elim (lib.marshal (establishment_request seid (lib.show_ip ue_ip) teid)) [
      | none ↦ (s, marshal_error)
      | some buf ↦
          if writes
          then read_reply lib
              (record s { inbox = s.inbox ++ arrivals; written = s.written ++ buf ∷ [] })
          else (s, write_error)
    ]

-- What reading an information element gives: the request has none, and the method is called on a nil
-- pointer, which panics; an error; or the value.
pub data Field (A : Type 0) : Type 0 where
  missing invalid : Field A
  value : A → Field A

-- What the handler reads of a Create Session Request; the IMSI is only logged, and its
-- `String` is taken not to panic.
pub record GtpRequest : Type 0 where
  pub imsi : String
  pub paa : Field Bytes
  pub sender_teid : Field ℕ
  pub sequence : ℕ
  pub teid : ℕ

-- What the body of the HTTP request is: it cannot be read, is not a GTP-C message, or is one.
pub data Input : Type 0 where
  unreadable malformed : Input
  create_session_request : GtpRequest → Input
  other_message : Input

-- The arguments of `NewCreateSessionResponse`.
pub record GtpResponse : Type 0 where
  pub teid : ℕ
  pub sequence : ℕ

pub record Smf : Type 0 where
  pub socket : Socket
  pub bus : Bus

-- The constant SEID of the handler.
abbrev pub only_seid : ℕ
only_seid = 1

-- The rest of the handler, once the UPF has answered; `encodes` says whether the response can be
-- marshalled. The arguments of the event stand as in the source, in the order TEID, address, "".
unfoldable pub finish :
    Libraries
    → GtpRequest
    → Bytes
    → ℕ
    → Bool
    → Time
    → Socket × Outcome
    → Bus
    → Smf × Response GtpResponse
finish lib req ue_ip teid encodes now (socket, outcome) bus =
    if is_ok outcome
    then if encodes
      then (
        record {
          socket = socket;
          bus =
              publish_pfcp_created lib.event_json (print_uint teid) (lib.show_ip ue_ip) "" now bus;
        },
        record {
          status = status_ok;
          body = octets (record { teid = req.sequence; sequence = req.teid });
        },
      )
      else (
        record { socket = socket; bus = bus },
        http_error "Internal server error" status_internal_server_error,
      )
    else (
      record { socket = socket; bus = bus },
      http_error "PFCP session creation failed" status_internal_server_error,
    )

-- What happens outside in one request.
pub record Outside : Type 0 where
  pub writes : Bool
  pub arrivals : List Bytes
  pub encodes : Bool
  pub now : Time

-- What `middleware.Recoverer` answers for a handler that panics.
abbrev pub recovered : Response GtpResponse
recovered = record { status = status_internal_server_error; body = nothing }

unfoldable pub handle_request : Libraries → Outside → GtpRequest → Smf → Smf × Response GtpResponse
unfolding create_session finish
handle_request lib out req s = elim req.paa [
  | missing ↦ (s, recovered)
  | invalid ↦ (s, http_error "Invalid UE IP" status_bad_request)
  | value ue_ip ↦ elim req.sender_teid [
    | missing ↦ (s, recovered)
    | invalid ↦ (s, http_error "Invalid F-TEID" status_bad_request)
    | value teid ↦
        finish lib req ue_ip teid out.encodes out.now
          (create_session lib only_seid ue_ip teid out.writes out.arrivals s.socket) s.bus
  ]
]

-- The handler of `/gtpc/v1/create-session`.
unfoldable pub serve : Libraries → Outside → Input → Smf → Smf × Response GtpResponse
unfolding handle_request
serve lib out unreadable s = (s, http_error "Failed to read request" status_bad_request)
serve lib out malformed s = (s, http_error "Invalid message format" status_bad_request)
serve lib out other_message s = (s, http_error "Unsupported message type" status_bad_request)
serve lib out (create_session_request req) s = handle_request lib out req s
