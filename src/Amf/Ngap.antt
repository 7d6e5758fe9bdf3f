-- ===== src/Amf/Ngap.antt =====
-- The NGAP side of the AMF (amf/main.go): the messages, the handling of one message and the read
-- loop of a connection. ASN.1 and JSON coding are parameters. A reading `now i` is what the call of
-- `time.Now()` number `i` in the handling of one message gives.
pub mod Messages
pub mod Safety
pub mod Interleaving
pub mod History
use openmvn.Common.{ℕ, Bool, Option, none, some, List, [], ◌∷◌, ◌++◌, String, if◌then◌else◌}
use openmvn.Common.Clock.{Time}
use openmvn.Common.Decimal.{print_uint}
use openmvn.Events.{Bytes, Event, Marshal, Bus, publish_ue_registered}
use openmvn.Amf.Store.{UeContext, UeStore, register}
use openmvn.Amf.Auth.{authenticate, get_auth_reason}

pub record Nas : Type 0 where
  pub imsi : String
  pub auth : String

-- `NGAPMessage`
pub record NgapMessage : Type 0 where
  pub message_type : ℕ
  pub ueid : ℕ
  pub nas_msg : Nas
  pub timestamp : Time

-- `NGAPResponse`
pub record NgapResponse : Type 0 where
  pub message_type : ℕ
  pub success : Bool
  pub reason : String
  pub timestamp : Time

-- What the AMF uses of `asn1` and of `json`.
pub record Codec : Type 0 where
  pub decode : Bytes → Option NgapMessage
  pub encode : NgapResponse → Option Bytes
  pub marshal : Marshal

-- The store, what has been written to the connections (the peer and the bytes), and the bus.
pub record Amf : Type 0 where
  pub store : UeStore
  pub sent : List (String × Bytes)
  pub bus : Bus

-- The context that a message leads to, before `Register` stamps it.
abbrev pub context_of : String → NgapMessage → (ℕ → Time) → UeContext
context_of peer msg now =
    let auth_passed : Bool = authenticate msg.nas_msg.imsi msg.nas_msg.auth in
    record {
      ueid = msg.ueid;
      gnb_addr = peer;
      imsi = msg.nas_msg.imsi;
      auth_pass = auth_passed;
      status = if auth_passed then "REGISTERED" else "AUTH_FAILED";
      last_seen = now 0;
      created_at = now 1;
      supi = "";
      amf_id = "";
      guami = "";
      plmn_id = "";
      rat_type = "";
      cell_id = "";
    }

abbrev pub response_of : NgapMessage → (ℕ → Time) → NgapResponse
response_of msg now =
    let auth_passed : Bool = authenticate msg.nas_msg.imsi msg.nas_msg.auth in
    record {
      message_type = 2;
      success = auth_passed;
      reason = get_auth_reason auth_passed msg.nas_msg.imsi;
      timestamp = now 3;
    }

-- After a response went out: a registration event, if the UE has passed.
unfoldable pub announce : Codec → NgapMessage → (ℕ → Time) → Amf → Amf
announce c msg now amf =
    if authenticate msg.nas_msg.imsi msg.nas_msg.auth
    then record amf {
      bus = publish_ue_registered c.marshal (print_uint msg.ueid) msg.nas_msg.imsi (now 4) amf.bus;
    }
    else amf

-- Sending the response: `continue` if it cannot be encoded or the write fails.
respond : Codec → String → NgapMessage → Bool → (ℕ → Time) → Amf → Amf
unfolding announce
respond c peer msg write_ok now amf = elim (c.encode (response_of msg now)) [
  | none ↦ amf
  | some payload ↦
      if write_ok
      then announce c msg now (record amf { sent = amf.sent ++ (peer, payload) ∷ [] })
      else amf
]

-- One round of the loop for a message that decodes.
unfoldable pub handle_message : Codec → String → NgapMessage → Bool → (ℕ → Time) → Amf → Amf
unfolding respond
handle_message c peer msg write_ok now amf =
    respond c peer msg write_ok now
      (record amf { store = register (context_of peer msg now) (now 2) amf.store })

-- What a read gives: an error, or bytes, with the outcome of the write and the clock of that round.
pub data Read : Type 0 where
  read_error : Read
  packet : Bytes → Bool → (ℕ → Time) → Read

-- One round for bytes that were read: those that do not decode are skipped.
unfoldable pub handle_packet : Codec → String → Bytes → Bool → (ℕ → Time) → Amf → Amf
unfolding handle_message
handle_packet c peer bytes write_ok now amf = elim (c.decode bytes) [
  | none ↦ amf
  | some msg ↦ handle_message c peer msg write_ok now amf
]

-- The loop over what the reads give; it ends at a read error.
unfoldable pub handle_ngap : Codec → String → List Read → Amf → Amf
handle_ngap c peer [] amf = amf
handle_ngap c peer (read_error ∷ rest) amf = amf
handle_ngap c peer (packet bytes write_ok now ∷ rest) amf =
    handle_ngap c peer rest (handle_packet c peer bytes write_ok now amf)
