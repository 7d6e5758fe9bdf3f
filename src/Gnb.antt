-- ===== src/Gnb.antt =====
-- The gNB simulator (gnb-sim/main.go): one registration, sent to the AMF, and the report on its answer.
-- The ASN.1 coder is a parameter, and its messages are those of the AMF, declared twice in the source.
pub mod AmfAnswer
pub mod Exchange
pub mod Shutdown
mod Tests
use openmvn.Common.{
  ℕ, Bool, true, false, Option, none, some, List, [], ◌∷◌, String, take, if◌then◌else◌,
}
use openmvn.Common.Clock.{Time}
use openmvn.Events.{Bytes}
use openmvn.Amf.Ngap.{Nas, NgapMessage, NgapResponse}

-- `asn1.Marshal` of a message and `asn1.Unmarshal` into a response.
pub record Coder : Type 0 where
  pub marshal : NgapMessage → Option Bytes
  pub unmarshal : Bytes → Option NgapResponse

-- The flags of the command line.
pub record Flags : Type 0 where
  pub amf : String
  pub imsi : String
  pub auth : String

abbrev pub default_flags : Flags
default_flags = record { amf = "localhost"; imsi = "001010123456789"; auth = "secret123" }

-- The address that is dialled: `net.ParseIP` gives nil for what is no IP address.
pub record SctpAddr : Type 0 where
  pub ip : Option Bytes
  pub port : ℕ

abbrev pub peer_of : (String → Option Bytes) → Flags → SctpAddr
peer_of parse_ip flags = record { ip = parse_ip flags.amf; port = 38412 }

-- The message that is sent; the UE id is the random number.
abbrev pub registration : Flags → ℕ → Time → NgapMessage
registration flags ueid now = record {
  message_type = 1;
  ueid = ueid;
  nas_msg = record { imsi = flags.imsi; auth = flags.auth };
  timestamp = now;
}

-- How the simulator ends, or what it reports before it keeps the connection open.
pub data Report : Type 0 where
  dial_failed marshal_failed write_failed read_failed unmarshal_failed : Report
  successful failed : String → Report

abbrev pub report_of : Option NgapResponse → Report
report_of none = unmarshal_failed
report_of (some resp) = if resp.success then successful resp.reason else failed resp.reason

-- `conn.Read` into a buffer of 1024 bytes, here and in the AMF.
unfoldable pub into_buffer : Bytes → Bytes
into_buffer bytes = take 1024 bytes

-- `conn.Read`, and what follows; `none` is a read error.
abbrev pub read_response : Coder → Option Bytes → Report
read_response coder none = read_failed
read_response coder (some bytes) = report_of (coder.unmarshal (into_buffer bytes))

-- `main` up to its report, with what it writes to the connection; `answer` is what the peer sends to what
-- has been written.
unfoldable pub gnb_main :
    Coder
    → Flags
    → ℕ
    → Time
    → (dials writes : Bool) → (Bytes → Option Bytes)
    → Option Bytes × Report
gnb_main coder flags ueid now dials writes answer =
    if dials
    then elim (coder.marshal (registration flags ueid now)) [
      | none ↦ (none, marshal_failed)
      | some payload ↦
          if writes
          then (some payload, read_response coder (answer payload))
          else (none, write_failed)
    ]
    else (none, dial_failed)
