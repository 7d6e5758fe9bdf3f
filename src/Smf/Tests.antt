-- ===== src/Smf/Tests.antt =====
-- The theorems on the SMF (smf/main.go) at concrete inputs.
use mathlib.Core.Option.{some-injective}
use openmvn.Common.{
  ℕ, ◌+◌, ◌<◌, ◌≡◌, ◌↔◌, refl, sym, ap, true, Option, none, some, List, [], ◌∷◌, ◌⊎◌, nat_key, take,
  length,
}
use openmvn.Common.Map.{insert}
use openmvn.Common.Clock.{Time}
use openmvn.Pfcp.{
  Ie, create_pdr, Message, session_establishment_request, session_establishment_response,
}
use openmvn.Upf.{
  get_session_count, new_session, serve_pfcp, handle_pfcp, dispatch, send_pfcp,
  handle_session_establishment_request,
}
use openmvn.Smf.{
  Bytes, Libraries, Socket, ok, create_session, value, Input, create_session_request, Smf, Outside,
  establishment_request, read_reply, finish, handle_request,
}
use openmvn.Smf.Client.{IsResponse, GoesWell, create_session-ok_iff}
use openmvn.Smf.Endpoint.{Accepted, Refused, Panicked, Failed, serve_branches}
use openmvn.Smf.Sessions.{Attach, Core, CarriesRequests, attach_all, attach_all-count}

abbrev accepted : Message
accepted =
    session_establishment_response
      (record { mp = 1; fo = 0; seid = 1; sequence_number = 1; message_priority = 0 }) []

abbrev parse : Bytes → Option Message
parse [] = none
parse (b ∷ bs) = some accepted

-- Stand-ins for the libraries: a datagram with a byte in it is the response.
abbrev libraries : Libraries
libraries = record {
  marshal = λ m. some (50 ∷ []);
  parse = parse;
  show_ip = λ ip. "10.45.0.2";
  event_json = λ e. some (123 ∷ 125 ∷ []);
}

abbrev response_bytes : Bytes
response_bytes = 51 ∷ 0 ∷ []

abbrev response_bytes-IsResponse : IsResponse libraries response_bytes
response_bytes-IsResponse = (accepted, refl, refl)

abbrev ue_ip : Bytes
ue_ip = 10 ∷ 45 ∷ 0 ∷ 2 ∷ []

abbrev idle_socket : Socket
idle_socket = record { inbox = []; written = [] }

create_session-ok_iff_example :
    ((create_session libraries 1 ue_ip 7 true (response_bytes ∷ []) idle_socket).1 ≡ ok)
    ↔ GoesWell libraries 1 ue_ip 7 true (response_bytes ∷ []) idle_socket
create_session-ok_iff_example =
    create_session-ok_iff libraries 1 ue_ip 7 true (response_bytes ∷ []) idle_socket

abbrev request : Input
request = create_session_request (record {
  imsi = "001010000000001";
  paa = value ue_ip;
  sender_teid = value 7;
  sequence = 21;
  teid = 0;
})

abbrev outside : Outside
outside = record { writes = true; arrivals = response_bytes ∷ []; encodes = true; now = 500 }

abbrev smf : Smf
smf = record { socket = idle_socket; bus = [] }

serve_branches_example :
    Accepted libraries outside request smf
    ⊎ Refused libraries outside request smf
    ⊎ Panicked libraries outside request smf
    ⊎ Failed libraries outside request smf
serve_branches_example = serve_branches libraries outside request smf

abbrev clock : ℕ → Time
clock i = 600 + i

-- Stand-ins for the libraries that carry the establishment requests, with their SEID and their TEID.
abbrev teid_of : List Ie → ℕ
teid_of (_ ∷ _ ∷ create_pdr p ∷ _) = p.teid
teid_of _ = 0

abbrev carrier_marshal : Message → Option Bytes
carrier_marshal (session_establishment_request h ies) = some (h.seid ∷ teid_of ies ∷ [])
carrier_marshal _ = none

abbrev carrier_parse : Bytes → Option Message
carrier_parse (seid ∷ teid ∷ []) = some (establishment_request seid "10.45.0.2" teid)
carrier_parse _ = some accepted

abbrev carrier : Libraries
carrier = record libraries { marshal = carrier_marshal; parse = carrier_parse }

carrier-CarriesRequests : CarriesRequests carrier
carrier-CarriesRequests seid ip teid b e =
    ap (λ x. carrier_parse (take 1500 x)) (sym (some-injective _ _ e))

abbrev first_ue : Attach
first_ue = record {
  request = record {
    imsi = "001010000000001";
    paa = value ue_ip;
    sender_teid = value 7;
    sequence = 21;
    teid = 0;
  };
  outside = record { writes = true; arrivals = (51 ∷ 0 ∷ 0 ∷ []) ∷ []; encodes = true; now = 500 };
  smf_addr = "192.0.2.3:40000";
  write_ok = true;
  now = clock;
}

abbrev second_ue : Attach
second_ue = record first_ue { request = record first_ue.request { sender_teid = value 8 } }

abbrev idle : Core
idle = record { smf = smf; upf = record { sessions = []; sent = [] } }

-- The requests are answered 200, and the UPF has one session.
first_answered : (handle_request carrier first_ue.outside first_ue.request smf).1.status ≡ 200
unfolding handle_request create_session read_reply finish
first_answered = refl

one_session :
    (attach_all carrier (first_ue ∷ second_ue ∷ []) idle).upf.sessions
    ≡ (1, new_session 1 clock) ∷ []
unfolding handle_request create_session read_reply finish serve_pfcp handle_pfcp dispatch
    handle_session_establishment_request send_pfcp insert
one_session = refl

attach_all-count_example :
    let after = attach_all carrier (first_ue ∷ second_ue ∷ []) idle in
    ((get_session_count after.upf ≡ 0) × (after.smf.socket.written ≡ []))
    ⊎ ((get_session_count after.upf ≡ 1) × (0 < length after.smf.socket.written))
attach_all-count_example =
    attach_all-count carrier carrier-CarriesRequests (first_ue ∷ second_ue ∷ []) idle refl
