-- ===== src/Gnb/Exchange.antt =====
-- The gNB simulator (gnb-sim/main.go) and the AMF (amf/main.go) together.
use openmvn.Common.{
  true≢false, ℕ, ◌≡◌, ◌↔◌, refl, sym, ap, ◌∙◌, Bool, true, false, Option, none, some, String,
  if◌then◌else◌, inl, inr, Bool-cases, Option-cases,
}
use openmvn.Common.Clock.{Time}
use openmvn.Events.{Bytes}
use openmvn.Amf.Ngap.{NgapMessage, NgapResponse, Codec, Amf, response_of}
use openmvn.Gnb.{
  Coder, Flags, registration, Report, dial_failed, marshal_failed, write_failed, read_failed,
  unmarshal_failed, successful, failed, report_of, read_response, into_buffer, gnb_main,
}
use openmvn.Gnb.AmfAnswer.{amf_answer, amf_answer-eq-expected_answer, expected_answer-some}

-- All that has to go well between the two.
abbrev pub Accepted :
    Coder → Codec → Flags → ℕ → Time → (dials writes write_ok : Bool) → (ℕ → Time) → String → Type 0
Accepted coder c flags ueid sent dials writes write_ok now reason =
    (payload : Bytes) × (msg : NgapMessage) × (reply : Bytes) × (resp : NgapResponse) × (dials
      ≡ true)
    × (writes ≡ true)
    × (write_ok ≡ true)
    × (coder.marshal (registration flags ueid sent) ≡ some payload)
    × (c.decode (into_buffer payload) ≡ some msg)
    × (c.encode (response_of msg now) ≡ some reply)
    × (coder.unmarshal (into_buffer reply) ≡ some resp)
    × (resp.success ≡ true)
    × (resp.reason ≡ reason)

abbrev is_successful : Report → Bool
is_successful (successful _) = true
is_successful _ = false

abbrev reason_of : Report → String
reason_of (successful reason) = reason
reason_of _ = ""

unsuccessful :
    {A : Type 0} (r : Report) (reason : String)
    → is_successful r ≡ false
    → r ≡ successful reason
    → A
unsuccessful r reason fails e = absurd (true≢false (sym (ap is_successful e) ∙ fails))

report_of-successful :
    (o : Option NgapResponse) (reason : String)
    → report_of o ≡ successful reason
    → (resp : NgapResponse) × (o ≡ some resp) × (resp.success ≡ true) × (resp.reason ≡ reason)
report_of-successful none reason h = unsuccessful unmarshal_failed reason refl h
report_of-successful (some resp) reason h = elim (Bool-cases resp.success) [
  | inl passes ↦ (
    resp,
    refl,
    passes,
    ap reason_of
        (sym (ap (λ b. if b then successful resp.reason else failed resp.reason) passes) ∙ h),
  )
  | inr fails ↦
      unsuccessful (report_of (some resp)) reason
        (ap (λ b. is_successful (if b then successful resp.reason else failed resp.reason)) fails) h
]

read_response-successful :
    (coder : Coder) (o : Option Bytes) (reason : String)
    → read_response coder o ≡ successful reason
    → (reply : Bytes) × (resp : NgapResponse) × (o ≡ some reply)
      × (coder.unmarshal (into_buffer reply) ≡ some resp)
      × (resp.success ≡ true)
      × (resp.reason ≡ reason)
read_response-successful coder none reason h = unsuccessful read_failed reason refl h
read_response-successful coder (some reply) reason h =
    let (resp, e, passes, why) =
      report_of-successful (coder.unmarshal (into_buffer reply)) reason h in
    (reply, resp, refl, e, passes, why)

gnb_main-encoded :
    (coder : Coder) (flags : Flags) (ueid : ℕ) (sent : Time) (writes : Bool)
    (answer : Bytes → Option Bytes) (payload : Bytes)
    → coder.marshal (registration flags ueid sent) ≡ some payload
    → (gnb_main coder flags ueid sent true writes answer).1
      ≡ (if writes then read_response coder (answer payload) else write_failed)
unfolding gnb_main
gnb_main-encoded coder flags ueid sent false answer payload e = rw (gnb_main, e) refl
gnb_main-encoded coder flags ueid sent true answer payload e = rw (gnb_main, e) refl

gnb_main-unencoded :
    (coder : Coder) (flags : Flags) (ueid : ℕ) (sent : Time) (writes : Bool)
    (answer : Bytes → Option Bytes)
    → coder.marshal (registration flags ueid sent) ≡ none
    → (gnb_main coder flags ueid sent true writes answer).1 ≡ marshal_failed
unfolding gnb_main
gnb_main-unencoded coder flags ueid sent writes answer e = rw (gnb_main, e) refl

gnb_main-successful :
    (coder : Coder) (flags : Flags) (ueid : ℕ) (sent : Time) (dials writes : Bool)
    (answer : Bytes → Option Bytes) (reason : String)
    → (gnb_main coder flags ueid sent dials writes answer).1 ≡ successful reason
    → (payload : Bytes) × (dials ≡ true)
      × (writes ≡ true)
      × (coder.marshal (registration flags ueid sent) ≡ some payload)
      × (read_response coder (answer payload) ≡ successful reason)
unfolding gnb_main
gnb_main-successful coder flags ueid sent false writes answer reason h =
    unsuccessful dial_failed reason refl h
gnb_main-successful coder flags ueid sent true writes answer reason h =
    elim (Option-cases (coder.marshal (registration flags ueid sent))) [
      | inl e ↦
          unsuccessful marshal_failed reason refl
            ((sym (gnb_main-unencoded coder flags ueid sent writes answer e) ∙ h))
      | inr (payload, e) ↦ elim (Bool-cases writes) [
        | inr w ↦ unsuccessful write_failed reason refl (
            sym (ap (λ b. if b then read_response coder (answer payload) else write_failed) w)
            ∙ sym (gnb_main-encoded coder flags ueid sent writes answer payload e)
            ∙ h)
        | inl w ↦ (
          payload,
          refl,
          w,
          e,
          sym (ap (λ b. if b then read_response coder (answer payload) else write_failed) w)
              ∙ sym (gnb_main-encoded coder flags ueid sent writes answer payload e)
              ∙ h,
        )
      ]
    ]

-- The simulator reports the answer of the AMF as a success exactly where everything goes well: it
-- dials and encodes and writes the registration, the AMF decodes what it reads of it, encodes and writes its response, and
-- what the simulator reads of that decodes to a success with the reported reason.
pub gnb_main-amf_answer :
    (coder : Coder) (c : Codec) (flags : Flags) (ueid : ℕ) (sent : Time) (dials writes : Bool)
    (peer : String) (write_ok : Bool) (now : ℕ → Time) (amf : Amf) (reason : String)
    → ((gnb_main coder flags ueid sent dials writes (amf_answer c peer write_ok now amf)).1
        ≡ successful reason)
      ↔ Accepted coder c flags ueid sent dials writes write_ok now reason
unfolding gnb_main
gnb_main-amf_answer coder c flags ueid sent dials writes peer write_ok now amf reason = (
  (λ h.
      let (payload, dial, write, enc, read) =
        gnb_main-successful coder flags ueid sent dials writes (amf_answer c peer write_ok now amf)
          reason h in
      let (reply, resp, replied, dec, passes, why) =
        read_response-successful coder (amf_answer c peer write_ok now amf payload) reason read in
      let (msg, heard, wrote, answered) =
        expected_answer-some c write_ok now (c.decode (into_buffer payload)) reply
          (sym (amf_answer-eq-expected_answer c peer write_ok now amf payload) ∙ replied) in
      (payload, msg, reply, resp, dial, write, wrote, enc, heard, answered, dec, passes, why)),
  (λ w.
      let (payload, msg, reply, resp, dial, write, wrote, enc, heard, answered, dec, passes, why) =
        w in
      rw
        (
          gnb_main,
          dial,
          enc,
          write,
          amf_answer-eq-expected_answer c peer write_ok now amf payload,
          heard,
          wrote,
          answered,
          dec,
          passes,
          why,
        )
        refl),
)
