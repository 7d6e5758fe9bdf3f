-- ===== src/ImsiSwitch/Tests.antt =====
-- The receiver at concrete messages and responses.
use openmvn.Common.{ℕ, ◌+◌, ◌≤◌, ◌≡◌, refl, none, some, List, [], ◌∷◌, String, string_key}
use openmvn.ImsiSwitch.{SwitchDecision, Receiver, on_switch, get_switch, respond}
use openmvn.ImsiSwitch.Invariant.{IsValid}
use openmvn.ImsiSwitch.Answers.{RespondAnswers, respond-answers}
use openmvn.ImsiSwitch.Trace.{
  Request, event, response, query, run, trace-IsValid, ended, brought, waiting, ended-le-brought,
}
use openmvn.Common.Map.{lookup, insert, delete}

abbrev decision : SwitchDecision
decision = record {
  imsi = "001010123456789";
  old_imsi = "001010000000000";
  device_id = "test-device-1";
  reason = "test switch";
  time = 7;
  status = "pending";
}

abbrev empty : Receiver
empty = record { heap = []; pending = [] }

empty-IsValid : IsValid empty
empty-IsValid = record { unique = tt; pointers = tt }

-- The flow of the integration test: a decision arrives, is shown, is accepted, and is gone.
abbrev waiting_receiver : Receiver
waiting_receiver = record { heap = decision ∷ []; pending = ("test-device-1", 0) ∷ [] }

waiting_receiver-IsValid : IsValid waiting_receiver
waiting_receiver-IsValid = record {
  unique = (lookup_nil, tt);
  pointers = ((decision, refl, refl), tt);
}
  where
    lookup_nil : lookup {K = String} {V = ℕ} "test-device-1" [] ≡ none
    lookup_nil = unfold lookup in refl

arrives : on_switch (some decision) empty ≡ waiting_receiver
unfolding on_switch insert
arrives = refl

accepted_is_gone :
    (get_switch "test-device-1"
      (respond "test-device-1" (some "accepted") waiting_receiver).0).status
    ≡ 404
unfolding get_switch respond lookup delete
accepted_is_gone = refl

respond-answers_example :
    RespondAnswers "test-device-1"
      (some "rejected")
      waiting_receiver
      (respond "test-device-1" (some "rejected") waiting_receiver)
respond-answers_example =
    respond-answers "test-device-1" (some "rejected") waiting_receiver waiting_receiver-IsValid

abbrev traffic : List Request
traffic =
    event (some decision)
    ∷ query "test-device-1"
    ∷ response "test-device-1" (some "later")
    ∷ response "test-device-1" (some "accepted")
    ∷ response "test-device-1" (some "rejected")
    ∷ []

trace-IsValid_example : IsValid (run traffic empty)
trace-IsValid_example = trace-IsValid traffic empty empty-IsValid

ended-le-brought_example :
    ended "test-device-1" traffic empty
    ≤ brought "test-device-1" traffic + waiting "test-device-1" empty
ended-le-brought_example = ended-le-brought "test-device-1" traffic empty
