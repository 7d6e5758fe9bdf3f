-- ===== src/Gnb/Tests.antt =====
-- The gNB simulator and the AMF at one registration.
use openmvn.Common.{
  ℕ, ◌≡◌, ◌↔◌, refl, Bool, true, false, Option, none, some, List, [], ◌∷◌, String, if◌then◌else◌,
}
use openmvn.Events.{Bytes}
use openmvn.Amf.Ngap.{NgapMessage, NgapResponse, Codec, Amf}
use openmvn.Gnb.{Coder, default_flags, read_failed, into_buffer, gnb_main, successful}
use openmvn.Gnb.AmfAnswer.{amf_answer}
use openmvn.Gnb.Exchange.{Accepted, gnb_main-amf_answer}
use openmvn.Gnb.Shutdown.{Calls, Reach, reading, exiting, fatal, started}
use openmvn.Gnb.Shutdown.Run.{Agrees, run, run-gnb_main, interrupted_read}
use openmvn.Gnb.Shutdown.Invariant.{IsSound}
use openmvn.Gnb.Shutdown.Safety.{Reach-IsSound}

-- One byte is a message of the default flags.
toy_decode : Bytes → Option NgapMessage
toy_decode [] = none
toy_decode (id ∷ _) = some (record {
  message_type = 1;
  ueid = id;
  nas_msg = record { imsi = "001010123456789"; auth = "secret123" };
  timestamp = 0;
})

toy_unmarshal : Bytes → Option NgapResponse
toy_unmarshal [] = none
toy_unmarshal (b ∷ _) =
    some (record { message_type = 2; success = true; reason = "welcome"; timestamp = 0 })

abbrev toy_coder : Coder
toy_coder = record { marshal = λ m. some (m.ueid ∷ []); unmarshal = toy_unmarshal }

abbrev toy_codec : Codec
toy_codec = record {
  decode = toy_decode;
  encode = λ r. some ((if r.success then 1 else 0) ∷ []);
  marshal = λ e. some [];
}

abbrev calls : Calls
calls = record {
  parse_ip = λ name. none;
  dials = λ peer. true;
  writes = true;
  answer = λ b. some b;
}

abbrev idle : Amf
idle = record { store = []; sent = []; bus = [] }

gnb_main-amf_answer_example :
    ((gnb_main toy_coder default_flags 7 5 true true
        (amf_answer toy_codec "gnb" true (λ i. i) idle)).1
      ≡ successful "welcome")
    ↔ Accepted toy_coder toy_codec default_flags 7 5 true true true (λ i. i) "welcome"
gnb_main-amf_answer_example =
    gnb_main-amf_answer toy_coder toy_codec default_flags 7 5 true true "gnb" true (λ i. i) idle
      "welcome"

-- And they do accept it.
registers : Accepted toy_coder toy_codec default_flags 7 5 true true true (λ i. i) "welcome"
unfolding into_buffer toy_decode toy_unmarshal openmvn.Amf.Auth.authenticate
    openmvn.Common.Map.lookup
registers = (7 ∷ [], _, 1 ∷ [], _, refl, refl, refl, refl, refl, refl, refl, refl, refl)

-- The process is interrupted while it waits for the answer.
late_signal : Reach toy_coder default_flags 7 5 started (record {
  main = reading (7 ∷ []);
  handler = exiting;
  connected = false;
  written = (7 ∷ []) ∷ [];
  exit = some (fatal read_failed);
})
late_signal = interrupted_read toy_coder default_flags 7 5 (7 ∷ []) refl

Reach-IsSound_example : IsSound toy_coder default_flags 7 5 (record {
  main = reading (7 ∷ []);
  handler = exiting;
  connected = false;
  written = (7 ∷ []) ∷ [];
  exit = some (fatal read_failed);
})
Reach-IsSound_example = Reach-IsSound toy_coder default_flags 7 5 late_signal

without_signal :
    Agrees
      (run toy_coder default_flags 7 5 6 calls started)
      (gnb_main toy_coder default_flags 7 5 true true calls.answer)
without_signal = run-gnb_main toy_coder default_flags 7 5 calls
