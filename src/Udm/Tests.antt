-- ===== src/Udm/Tests.antt =====
-- The UDM at concrete requests.
use openmvn.Common.{◌≡◌, ◌↔◌, ◌⊎◌, refl, true, false, none, some, string_key}
use openmvn.Common.Map.{lookup}
use openmvn.Udm.{AuthRequest, db, is_authorized, auth_handler}
use openmvn.Udm.Answers.{AuthAnswers, auth_handler-answers, udm_agrees_with_amf}
use openmvn.Amf.Auth.{authenticate}

abbrev good : AuthRequest
good = record { imsi = "001010123456789"; token = "secret123" }

good_passes : is_authorized good ≡ true
unfolding is_authorized lookup
good_passes = refl

-- The AMF takes credentials that the UDM refuses.
only_amf : is_authorized (record { imsi = "001010111222333"; token = "test789" }) ≡ false
unfolding is_authorized lookup
only_amf = refl

only_amf_passes : authenticate "001010111222333" "test789" ≡ true
unfolding authenticate lookup
only_amf_passes = refl

auth_handler-answers_example : AuthAnswers (some good) (auth_handler (some good))
auth_handler-answers_example = auth_handler-answers (some good)

udm_agrees_with_amf_example :
    (authenticate "001010123456789" "secret123" ≡ true ↔ (
      (is_authorized good ≡ true) ⊎ ((good.imsi ≡ "001010111222333") × (good.token ≡ "test789"))))
    × (lookup "001010111222333" db ≡ none)
    × (is_authorized (record good { imsi = "001010111222333" }) ≡ false)
udm_agrees_with_amf_example = udm_agrees_with_amf good
