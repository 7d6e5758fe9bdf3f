-- ===== src/Amf/Api/RoundTrip.antt =====
-- From the NGAP handler of the AMF to its management API (amf/main.go).
use openmvn.Common.{ℕ, ◌≤◌, ◌≡◌, Bool, true, String, nat_key}
use openmvn.Common.Http.{json}
use openmvn.Common.Clock.{Time}
use openmvn.Common.Decimal.{print_uint, max_uint64}
use openmvn.Amf.Store.{UeContext, seen}
use openmvn.Amf.Ngap.{NgapMessage, Codec, Amf, context_of, handle_message}
use openmvn.Amf.Ngap.Messages.{handle_message-registers}
use openmvn.Amf.Api.{get_ue}
use openmvn.Amf.Api.Answers.{get_ue-print_uint}

-- The context that a message registers comes back from `GET /ue/:ueid` under the decimal text of the
-- UE id, the text that the registration event carries, if the id fits in 64 bits and the context can
-- be encoded: the body is the context made from the message and its sender, stamped, also where
-- the response could not be written.
pub get_ue-handle_message :
    (encodes : UeContext → Bool) (c : Codec) (peer : String) (msg : NgapMessage) (write_ok : Bool)
    (now : ℕ → Time) (amf : Amf)
    → msg.ueid ≤ max_uint64
    → encodes (seen (now 2) (context_of peer msg now)) ≡ true
    → get_ue encodes (print_uint msg.ueid) (handle_message c peer msg write_ok now amf).store
      ≡ record { status = 200; body = json (seen (now 2) (context_of peer msg now)) }
get_ue-handle_message encodes c peer msg write_ok now amf fits fine =
    get_ue-print_uint encodes msg.ueid (handle_message c peer msg write_ok now amf).store fits
      (handle_message-registers c peer msg write_ok now amf).0 fine
