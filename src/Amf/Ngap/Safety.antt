-- ===== src/Amf/Ngap/Safety.antt =====
-- What holds of the AMF however many messages arrive, in any order.
use openmvn.Common.{
  ℕ, ◌+◌, ◌≤◌, ◌≡◌, ◌≢◌, refl, ◌∙◌, ap, inl, inr, Bool, true, false, none, some, List, [], ◌∷◌,
  String, arith, nat_key, Option-cases, Bool-cases, All, All-append, length, length-append,
  string_key,
}
use openmvn.Common.Map.{lookup, IsUnique, insert-IsUnique, Entries, insert-Entries}
use openmvn.Common.Clock.{Time}
use openmvn.Common.Decimal.{print_uint}
use openmvn.Events.{Bytes, Bus, Marshal, ue_registered, publish_cases, publish_ue_registered}
use openmvn.Amf.Store.{UeContext, register, seen}
use openmvn.Amf.Auth.{udm_db, authenticate, authenticate_iff}
use openmvn.Amf.Ngap.{
  NgapMessage, Codec, Amf, Read, read_error, packet, context_of, handle_message, handle_packet,
  handle_ngap,
}
use openmvn.Amf.Ngap.Messages.{
  handle_message-store, handle_message-Answers, handle_message-registers,
}

-- A context stands under its own UE id, and its status says whether the credentials passed; where
-- they passed, the table knows the IMSI.
pub record IsContext (k : ℕ) (ue : UeContext) : Type 0 where
  pub keyed : ue.ueid ≡ k
  pub passed : ue.auth_pass ≡ true → (ue.status ≡ "REGISTERED") × (lookup ue.imsi udm_db ≢ none)
  pub failed : ue.auth_pass ≡ false → ue.status ≡ "AUTH_FAILED"

-- A publication is the registration event of a UE whose IMSI the table knows.
abbrev pub IsRegistration : Marshal → String × Bytes → Type 0
IsRegistration marshal (subject, bytes) =
    (subject ≡ "ue.registered")
    × (ueid : ℕ) × (imsi : String) × (now : Time) × (marshal
          (ue_registered (print_uint ueid) imsi now)
        ≡ some bytes)
    × (lookup imsi udm_db ≢ none)

pub record IsSound (c : Codec) (amf : Amf) : Type 0 where
  pub unique : IsUnique amf.store
  pub contexts : Entries IsContext amf.store
  pub published : All (IsRegistration c.marshal) amf.bus
  pub answered : length amf.bus ≤ length amf.sent

pub known : (imsi auth : String) → authenticate imsi auth ≡ true → lookup imsi udm_db ≢ none
known imsi auth h q = ground (arith, (authenticate_iff imsi auth).0 h)

pub context_of-IsContext :
    (peer : String) (msg : NgapMessage) (now : ℕ → Time)
    → IsContext msg.ueid (seen (now 2) (context_of peer msg now))
context_of-IsContext peer msg now = record {
  keyed = refl;
  passed = λ h. (rw h refl, known msg.nas_msg.imsi msg.nas_msg.auth h);
  failed = λ h. rw h refl;
}

-- Publishing the event of a known IMSI adds at most one entry, and that is a registration.
pub publish_ue_registered_bound :
    (marshal : Marshal) (ueid : ℕ) (imsi : String) (now : Time) (bus : Bus)
    → lookup imsi udm_db ≢ none
    → All (IsRegistration marshal) bus
    → let after = publish_ue_registered marshal (print_uint ueid) imsi now bus in
      All (IsRegistration marshal) after × (length after ≤ length bus + 1)
unfolding publish_ue_registered
publish_ue_registered_bound marshal ueid imsi now bus in_table h =
    elim (publish_cases marshal "ue.registered" (ue_registered (print_uint ueid) imsi now) bus) [
      | inl (_, same) ↦ rw same (h, omega arith)
      | inr (bytes, e, more) ↦ rw more (
        All-append (IsRegistration marshal) bus _ h ((refl, ueid, imsi, now, e, in_table), tt),
        omega (arith, length-append bus (("ue.registered", bytes) ∷ [])),
      )
    ]

handle_message-bus :
    (c : Codec) (peer : String) (msg : NgapMessage) (write_ok : Bool) (now : ℕ → Time) (amf : Amf)
    → IsSound c amf
    → let after = handle_message c peer msg write_ok now amf in
      All (IsRegistration c.marshal) after.bus × (length after.bus ≤ length after.sent)
handle_message-bus c peer msg write_ok now amf h =
    elim (handle_message-Answers c peer msg write_ok now amf).1 [
      | inr (_, same_sent, same_bus) ↦ rw (same_sent, same_bus) (h.published, h.answered)
      | inl (payload, _, _, sent, bus) ↦
          elim (Bool-cases (authenticate msg.nas_msg.imsi msg.nas_msg.auth)) [
            | inl passes ↦
                let (regs, few) =
                  publish_ue_registered_bound c.marshal msg.ueid msg.nas_msg.imsi (now 4) amf.bus
                    (known msg.nas_msg.imsi msg.nas_msg.auth passes) h.published in
                rw (sent, bus, passes)
                  (
                    regs,
                    omega (arith, few, h.answered, length-append amf.sent ((peer, payload) ∷ [])),
                  )
            | inr fails ↦
                rw (sent, bus, fails)
                  (
                    h.published,
                    omega (arith, h.answered, length-append amf.sent ((peer, payload) ∷ [])),
                  )
          ]
    ]

handle_message-IsSound :
    (c : Codec) (peer : String) (msg : NgapMessage) (write_ok : Bool) (now : ℕ → Time) (amf : Amf)
    → IsSound c amf
    → IsSound c (handle_message c peer msg write_ok now amf)
unfolding register
handle_message-IsSound c peer msg write_ok now amf h =
    let ue : UeContext = seen (now 2) (context_of peer msg now) in
    let (regs, few) = handle_message-bus c peer msg write_ok now amf h in
    record {
      unique = rw handle_message-store (insert-IsUnique msg.ueid ue amf.store h.unique);
      contexts = rw handle_message-store (
          insert-Entries IsContext msg.ueid ue amf.store (context_of-IsContext peer msg now)
            h.contexts);
      published = regs;
      answered = few;
    }

handle_packet_junk :
    (c : Codec) (peer : String) (bytes : Bytes) (write_ok : Bool) (now : ℕ → Time) (amf : Amf)
    → c.decode bytes ≡ none
    → handle_packet c peer bytes write_ok now amf ≡ amf
unfolding handle_packet
handle_packet_junk c peer bytes write_ok now amf junk = rw (junk, handle_packet)

handle_packet_message :
    (c : Codec) (peer : String) (bytes : Bytes) (write_ok : Bool) (now : ℕ → Time) (amf : Amf)
    {msg : NgapMessage}
    → c.decode bytes ≡ some msg
    → handle_packet c peer bytes write_ok now amf ≡ handle_message c peer msg write_ok now amf
unfolding handle_packet
handle_packet_message c peer bytes write_ok now amf e = rw (e, handle_packet)

handle_packet-IsSound :
    (c : Codec) (peer : String) (bytes : Bytes) (write_ok : Bool) (now : ℕ → Time) (amf : Amf)
    → IsSound c amf
    → IsSound c (handle_packet c peer bytes write_ok now amf)
handle_packet-IsSound c peer bytes write_ok now amf h = elim (Option-cases (c.decode bytes)) [
  | inl junk ↦ rw (handle_packet_junk c peer bytes write_ok now amf junk) h
  | inr (msg, e) ↦
      rw (handle_packet_message c peer bytes write_ok now amf e)
        (handle_message-IsSound c peer msg write_ok now amf h)
]

-- Whatever a connection sends: every context in the store tells its own UE id and whether its
-- credentials passed, a context that passed has an IMSI that the table knows, every event on the bus
-- is the registration of such an IMSI, and there are no more events than responses.
pub handle_ngap-IsSound :
    (c : Codec) (peer : String) (reads : List Read) (amf : Amf)
    → IsSound c amf
    → IsSound c (handle_ngap c peer reads amf)
unfolding handle_ngap
handle_ngap-IsSound c peer [] amf h = h
handle_ngap-IsSound c peer (read_error ∷ rest) amf h = h
handle_ngap-IsSound c peer (packet bytes write_ok now ∷ rest) amf h =
    handle_ngap-IsSound c peer rest (handle_packet c peer bytes write_ok now amf)
      (handle_packet-IsSound c peer bytes write_ok now amf h)

-- No read of the list decodes.
abbrev pub AllJunk : Codec → List Read → Type 0
AllJunk c [] = Unit
AllJunk c (read_error ∷ rest) = Unit
AllJunk c (packet bytes _ _ ∷ rest) = (c.decode bytes ≡ none) × AllJunk c rest

-- A connection whose packets never decode has no effect at all: no context, no response, no event.
pub handle_ngap-junk :
    (c : Codec) (peer : String) (reads : List Read) (amf : Amf)
    → AllJunk c reads
    → handle_ngap c peer reads amf ≡ amf
unfolding handle_ngap
handle_ngap-junk c peer [] amf h = refl
handle_ngap-junk c peer (read_error ∷ rest) amf h = refl
handle_ngap-junk c peer (packet bytes write_ok now ∷ rest) amf (junk, h) =
    rw (handle_packet_junk c peer bytes write_ok now amf junk) (handle_ngap-junk c peer rest amf h)

-- The UE ids of the messages that the reads decode to, up to the first read error.
abbrev pub Silent : Codec → ℕ → List Read → Type 0
Silent c ueid [] = Unit
Silent c ueid (read_error ∷ rest) = Unit
Silent c ueid (packet bytes _ _ ∷ rest) =
    ((msg : NgapMessage) → c.decode bytes ≡ some msg → msg.ueid ≢ ueid) × Silent c ueid rest

handle_packet-frame :
    (c : Codec) (peer : String) (ueid : ℕ) (bytes : Bytes) (write_ok : Bool) (now : ℕ → Time)
    (amf : Amf)
    → ((msg : NgapMessage) → c.decode bytes ≡ some msg → msg.ueid ≢ ueid)
    → lookup ueid (handle_packet c peer bytes write_ok now amf).store ≡ lookup ueid amf.store
handle_packet-frame c peer ueid bytes write_ok now amf other =
    elim (Option-cases (c.decode bytes)) [
      | inl junk ↦
          ap (λ a. lookup ueid a.store) (handle_packet_junk c peer bytes write_ok now amf junk)
      | inr (msg, e) ↦
          ap (λ a. lookup ueid a.store) (handle_packet_message c peer bytes write_ok now amf e)
          ∙ (handle_message-registers c peer msg write_ok now amf).1 ueid (other msg e)
    ]

-- A connection changes the context of no UE id that its messages do not name.
pub handle_ngap-frame :
    (c : Codec) (peer : String) (ueid : ℕ) (reads : List Read) (amf : Amf)
    → Silent c ueid reads
    → lookup ueid (handle_ngap c peer reads amf).store ≡ lookup ueid amf.store
unfolding handle_ngap
handle_ngap-frame c peer ueid [] amf h = refl
handle_ngap-frame c peer ueid (read_error ∷ rest) amf h = refl
handle_ngap-frame c peer ueid (packet bytes write_ok now ∷ rest) amf (other, h) =
    handle_ngap-frame c peer ueid rest (handle_packet c peer bytes write_ok now amf) h
    ∙ handle_packet-frame c peer ueid bytes write_ok now amf other
