-- ===== src/Amf/Ngap/Messages.antt =====
-- What the handling of one message does.
use openmvn.Common.{
  ℕ, ◌≡◌, ◌≢◌, refl, ◌⊎◌, inl, inr, Bool, true, false, none, some, [], ◌∷◌, ◌++◌, String, arith,
  if◌then◌else◌, nat_key, Option-cases,
}
use openmvn.Common.Map.{lookup, lookup-insert_self, lookup-insert_ne}
use openmvn.Common.Clock.{Time}
use openmvn.Common.Decimal.{print_uint}
use openmvn.Events.{Bytes, publish_ue_registered}
use openmvn.Amf.Store.{UeContext, register, seen}
use openmvn.Amf.Auth.{authenticate}
use openmvn.Amf.Ngap.{NgapMessage, Codec, Amf, context_of, response_of, respond, handle_message}

respond-store :
    (c : Codec) (peer : String) (msg : NgapMessage) (write_ok : Bool) (now : ℕ → Time) (amf : Amf)
    → (respond c peer msg write_ok now amf).store ≡ amf.store
unfolding respond
respond-store c peer msg write_ok now amf = ground arith

pub handle_message-store :
    (c : Codec) (peer : String) (msg : NgapMessage) (write_ok : Bool) (now : ℕ → Time) (amf : Amf)
    → (handle_message c peer msg write_ok now amf).store
      ≡ register (context_of peer msg now) (now 2) amf.store
unfolding handle_message
handle_message-store c peer msg write_ok now amf = respond-store c peer msg write_ok now _

-- A message stores a context made from that message alone under its UE id, whatever the store held
-- there before and whether or not the response goes out; no other UE is touched.
pub handle_message-registers :
    (c : Codec) (peer : String) (msg : NgapMessage) (write_ok : Bool) (now : ℕ → Time) (amf : Amf)
    → let after = (handle_message c peer msg write_ok now amf).store in
      (lookup msg.ueid after ≡ some (seen (now 2) (context_of peer msg now)))
      × ((k : ℕ) → msg.ueid ≢ k → lookup k after ≡ lookup k amf.store)
unfolding register
handle_message-registers c peer msg write_ok now amf = rw handle_message-store (
  lookup-insert_self msg.ueid (seen (now 2) (context_of peer msg now)) amf.store,
  λ k ne. lookup-insert_ne msg.ueid k (seen (now 2) (context_of peer msg now)) amf.store ne,
)

-- Any peer can end the registration of a UE: a message with its UE id and credentials that do not
-- pass replaces a context that had passed by one with the status AUTH_FAILED.
pub failed_auth_overwrites :
    (c : Codec) (peer : String) (msg : NgapMessage) (write_ok : Bool) (now : ℕ → Time) (amf : Amf)
    {old : UeContext}
    → lookup msg.ueid amf.store ≡ some old
    → old.auth_pass ≡ true
    → authenticate msg.nas_msg.imsi msg.nas_msg.auth ≡ false
    → (new : UeContext) × (lookup msg.ueid (handle_message c peer msg write_ok now amf).store
        ≡ some new)
      × (new.auth_pass ≡ false)
      × (new.status ≡ "AUTH_FAILED")
failed_auth_overwrites c peer msg write_ok now amf e passed fails = (
  seen (now 2) (context_of peer msg now),
  (handle_message-registers c peer msg write_ok now amf).0,
  fails,
  rw fails refl,
)

-- What a message does: the context that it makes is stored in any case, and what it adds to the bytes
-- sent and to the bus.
abbrev pub Answers : Codec → String → NgapMessage → Bool → (ℕ → Time) → Amf → Amf → Type 0
Answers c peer msg write_ok now before after =
    (after.store ≡ register (context_of peer msg now) (now 2) before.store)
    × (((payload : Bytes) × (c.encode (response_of msg now) ≡ some payload)
          × (write_ok ≡ true)
          × (after.sent ≡ before.sent ++ (peer, payload) ∷ [])
          × (after.bus ≡ (
              if authenticate msg.nas_msg.imsi msg.nas_msg.auth
              then publish_ue_registered c.marshal (print_uint msg.ueid) msg.nas_msg.imsi (now 4)
                  before.bus
              else before.bus)))
        ⊎ (((c.encode (response_of msg now) ≡ none) ⊎ (write_ok ≡ false))
            × (after.sent ≡ before.sent)
            × (after.bus ≡ before.bus)))

-- The context of a message is stored in any case. The message is answered once, to the peer that sent
-- it, and the registration event is published if the credentials pass; where the response cannot be
-- encoded or written, nothing is sent and nothing published, although the context is stored.
pub handle_message-Answers :
    (c : Codec) (peer : String) (msg : NgapMessage) (write_ok : Bool) (now : ℕ → Time) (amf : Amf)
    → Answers c peer msg write_ok now amf (handle_message c peer msg write_ok now amf)
unfolding handle_message
handle_message-Answers c peer msg true now amf = (
  handle_message-store c peer msg true now amf,
  elim (Option-cases (c.encode (response_of msg now))) [
    | inl fails ↦ inr (inl fails, ground arith, ground arith)
    | inr (payload, e) ↦ inl (payload, e, refl, ground arith, ground arith)
  ],
)
handle_message-Answers c peer msg false now amf =
    (handle_message-store c peer msg false now amf, inr (inr refl, ground arith, ground arith))
