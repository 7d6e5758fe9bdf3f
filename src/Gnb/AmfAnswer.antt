-- ===== src/Gnb/AmfAnswer.antt =====
-- What the AMF (amf/main.go) sends in answer to what it reads from the gNB simulator.
use openmvn.Common.{
  none≢some, ℕ, zero, suc, ◌≡◌, refl, sym, ap, ◌∙◌, Bool, true, false, Option, none, some, List, [],
  ◌∷◌, ◌++◌, String, arith, length, if◌then◌else◌, ◌⊎◌, inl, inr, Option-cases,
}
use openmvn.Common.Clock.{Time}
use openmvn.Events.{Bytes}
use openmvn.Amf.Ngap.{NgapMessage, Codec, Amf, response_of, handle_packet}
use openmvn.Amf.Ngap.Messages.{handle_message-Answers}
use openmvn.Gnb.{into_buffer}

abbrev pub drop : {A : Type 0} → ℕ → List A → List A
drop zero xs = xs
drop (suc n) [] = []
drop (suc n) (x ∷ xs) = drop n xs

abbrev pub first_bytes : List (String × Bytes) → Option Bytes
first_bytes [] = none
first_bytes ((peer, bytes) ∷ rest) = some bytes

-- What the AMF sends in answer to bytes: what it has sent after the round of its loop and not before. It
-- reads 1024 bytes.
abbrev pub amf_answer : Codec → String → Bool → (ℕ → Time) → Amf → Bytes → Option Bytes
amf_answer c peer write_ok now amf bytes =
    first_bytes
      (drop (length amf.sent) (handle_packet c peer (into_buffer bytes) write_ok now amf).sent)

drop-append : {A : Type 0} (xs ys : List A) → drop (length xs) (xs ++ ys) ≡ ys
drop-append [] ys = refl
drop-append (x ∷ xs) ys = drop-append xs ys

drop_all : {A : Type 0} (xs : List A) → drop (length xs) xs ≡ []
drop_all [] = refl
drop_all (x ∷ xs) = drop_all xs

-- The answer to what the bytes decode to.
abbrev pub expected_answer : Codec → Bool → (ℕ → Time) → Option NgapMessage → Option Bytes
expected_answer c write_ok now none = none
expected_answer c write_ok now (some msg) =
    if write_ok then c.encode (response_of msg now) else none

unanswered :
    (c : Codec) (write_ok : Bool) (msg : NgapMessage) (now : ℕ → Time)
    → (c.encode (response_of msg now) ≡ none) ⊎ (write_ok ≡ false)
    → expected_answer c write_ok now (some msg) ≡ none
unanswered c write_ok msg now why = ground arith

pub amf_answer-eq-expected_answer :
    (c : Codec) (peer : String) (write_ok : Bool) (now : ℕ → Time) (amf : Amf) (bytes : Bytes)
    → amf_answer c peer write_ok now amf bytes
      ≡ expected_answer c write_ok now (c.decode (into_buffer bytes))
unfolding handle_packet
amf_answer-eq-expected_answer c peer write_ok now amf bytes =
    elim (Option-cases (c.decode (into_buffer bytes))) [
      | inl junk ↦ rw (amf_answer, handle_packet, junk) (ap first_bytes (drop_all amf.sent))
      | inr (msg, e) ↦ elim (handle_message-Answers c peer msg write_ok now amf).1 [
        | inl (payload, enc, ok, sent, _) ↦
            rw (amf_answer, handle_packet, e, sent, enc, ok)
              (ap first_bytes (drop-append amf.sent ((peer, payload) ∷ [])))
        | inr (why, sent, _) ↦
            rw (amf_answer, handle_packet, e, sent)
              (ap first_bytes (drop_all amf.sent) ∙ sym (unanswered c write_ok msg now why))
      ]
    ]

pub expected_answer-some :
    (c : Codec) (write_ok : Bool) (now : ℕ → Time) (o : Option NgapMessage) (reply : Bytes)
    → expected_answer c write_ok now o ≡ some reply
    → (msg : NgapMessage) × (o ≡ some msg)
      × (write_ok ≡ true)
      × (c.encode (response_of msg now) ≡ some reply)
expected_answer-some c write_ok now none reply h = absurd (none≢some h)
expected_answer-some c false now (some msg) reply h = absurd (none≢some h)
expected_answer-some c true now (some msg) reply h = (msg, refl, refl, h)
