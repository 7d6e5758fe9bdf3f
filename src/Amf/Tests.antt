-- ===== src/Amf/Tests.antt =====
-- The AMF at concrete messages.
use openmvn.Common.{
  ℕ, ◌+◌, ◌≡◌, ◌≢◌, refl, true, false, Option, none, some, List, [], ◌∷◌, arith, if◌then◌else◌,
  nat_key, string_key, length,
}
use openmvn.Common.Map.{lookup, insert}
use openmvn.Common.Http.{json}
use openmvn.Common.Decimal.{print_uint, parse_uint}
use openmvn.Events.{Bytes, publish, publish_ue_registered}
use openmvn.Amf.Store.{seen, UeContext, UeStore, register}
use openmvn.Amf.Auth.{authenticate}
use openmvn.Amf.Ngap.{
  NgapMessage, Codec, Amf, Read, read_error, packet, context_of, announce, handle_message,
  handle_packet, handle_ngap,
}
use openmvn.Amf.Ngap.Messages.{Answers, handle_message-Answers}
use openmvn.Amf.Ngap.Safety.{IsSound, handle_ngap-IsSound, Silent}
use openmvn.Amf.Ngap.History.{History, IsHistory, Reach-IsHistory}
use openmvn.Amf.Ngap.Interleaving.{
  Job, World, register_context, write_response, publish_event, here, next, IsSoundWorld, Reach,
  Reach-IsSoundWorld,
}
use openmvn.Amf.Api.RoundTrip.{get_ue-handle_message}
use openmvn.Amf.Api.{get_ue, delete_ue}

-- A toy coding: one byte is the UE id of a message that passes, two are one that fails.
toy_decode : Bytes → Option NgapMessage
toy_decode [] = none
toy_decode (id ∷ []) = some (record {
  message_type = 1;
  ueid = id;
  nas_msg = record { imsi = "001010123456789"; auth = "secret123" };
  timestamp = 0;
})
toy_decode (id ∷ _ ∷ _) = some (record {
  message_type = 1;
  ueid = id;
  nas_msg = record { imsi = "001010123456789"; auth = "guess" };
  timestamp = 0;
})

abbrev toy : Codec
toy = record {
  decode = toy_decode;
  encode = λ r. some ((if r.success then 1 else 0) ∷ []);
  marshal = λ e. some (length e ∷ []);
}

abbrev clock : ℕ → ℕ
clock i = 100 + i

abbrev start : Amf
start = record { store = []; sent = []; bus = [] }

abbrev good : NgapMessage
good = record {
  message_type = 1;
  ueid = 7;
  nas_msg = record { imsi = "001010123456789"; auth = "secret123" };
  timestamp = 0;
}

abbrev bad : NgapMessage
bad = record good { nas_msg = record { imsi = "001010123456789"; auth = "guess" } }

-- The store after the good message: its context, stamped.
abbrev registered : UeContext
registered = record {
  ueid = 7;
  gnb_addr = "gnb";
  imsi = "001010123456789";
  auth_pass = true;
  status = "REGISTERED";
  last_seen = 102;
  created_at = 101;
  supi = "";
  amf_id = "";
  guami = "";
  plmn_id = "";
  rat_type = "";
  cell_id = "";
}

abbrev one_ue : UeStore
one_ue = (7, registered) ∷ []

abbrev after_good : Amf
after_good = record {
  store = one_ue;
  sent = ("gnb", 1 ∷ []) ∷ [];
  bus = ("ue.registered", 4 ∷ []) ∷ [];
}

-- Junk is skipped, a good message is answered and announced, and a read error ends the loop.
session_run :
    handle_ngap toy "gnb"
      (packet [] true clock
        ∷ packet (7 ∷ []) true clock
        ∷ read_error
        ∷ packet (9 ∷ []) true clock
        ∷ [])
      start
    ≡ after_good
unfolding handle_ngap handle_packet toy_decode authenticate lookup register insert
    publish_ue_registered publish
session_run = refl

good_passes : authenticate "001010123456789" "secret123" ≡ true
unfolding authenticate lookup
good_passes = refl

bad_fails : authenticate "001010123456789" "guess" ≡ false
unfolding authenticate lookup
bad_fails = refl

stored : lookup 7 one_ue ≡ some registered
unfolding lookup
stored = refl

start-IsSound : IsSound toy start
start-IsSound = record { unique = tt; contexts = tt; published = tt; answered = omega arith }

handle_message-Answers_example :
    Answers toy "gnb" good true clock start (handle_message toy "gnb" good true clock start)
handle_message-Answers_example = handle_message-Answers toy "gnb" good true clock start

abbrev reads : List Read
reads = packet (7 ∷ []) true clock ∷ packet (7 ∷ 0 ∷ []) false clock ∷ packet [] true clock ∷ []

handle_ngap-IsSound_example : IsSound toy (handle_ngap toy "gnb" reads start)
handle_ngap-IsSound_example = handle_ngap-IsSound toy "gnb" reads start start-IsSound

nine-Silent : Silent toy 7 (packet (9 ∷ []) true clock ∷ [])
unfolding toy_decode
nine-Silent = (λ msg e same. ground arith, tt)

bad_path : (delete_ue "seven" one_ue).1.status ≢ 204
unfolding delete_ue parse_uint
bad_path = λ e. omega arith

-- Two connections: the second registers before the first has its response and its event.
abbrev first_job : Job
first_job = record { peer = "gnb"; msg = good; now = clock }

abbrev second_job : Job
second_job = record { peer = "other"; msg = bad; now = clock }

abbrev before : World
before = record { amf = start; registered = []; answered = [] }

before-IsSoundWorld : IsSoundWorld toy before
before-IsSoundWorld = record { unique = tt; contexts = tt; published = tt; answered = omega arith }

abbrev both_registered : Amf
both_registered = record start {
  store =
      register (context_of "other" bad clock) (clock 2)
        (register (context_of "gnb" good clock) (clock 2) []);
}

abbrev after : World
after = record {
  amf = announce toy good clock (record both_registered { sent = ("gnb", 1 ∷ []) ∷ [] });
  registered = second_job ∷ [];
  answered = [];
}

interleaved : Reach toy before after
unfolding authenticate lookup
interleaved =
    next
      (next (next (next here (register_context first_job)) (register_context second_job))
        (write_response (second_job ∷ []) [] first_job (1 ∷ []) refl refl))
      (publish_event [] [] first_job refl)

Reach-IsSoundWorld_example : IsSoundWorld toy after
Reach-IsSoundWorld_example = Reach-IsSoundWorld before-IsSoundWorld interleaved

Reach-IsHistory_example : (h : History) × IsHistory toy start after h
Reach-IsHistory_example = Reach-IsHistory toy start interleaved

-- The response to this registration could not be written.
get_ue-handle_message_example :
    get_ue (λ _. true) (print_uint 7) (handle_message toy "gnb" good false clock start).store
    ≡ record { status = 200; body = json (seen 102 (context_of "gnb" good clock)) }
get_ue-handle_message_example =
    get_ue-handle_message (λ _. true) toy "gnb" good false clock start (omega arith) refl
