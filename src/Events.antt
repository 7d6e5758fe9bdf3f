-- ===== src/Events.antt =====
-- The event publisher that the AMF and the SMF have a copy of each (amf/publisher.go,
-- smf/publisher.go). The bus is the sequence of the calls of `nc.Publish`: a subject and the bytes.
-- What `json.Marshal` gives for an event is a parameter, with `none` for an error.
use openmvn.Common.{
  arith, ◌≡◌, ◌⊎◌, inl, inr, Option-cases, ℕ, Option, none, some, List, [], ◌∷◌, ◌++◌, String,
}
use openmvn.Common.Clock.{Time}

-- The values of a `map[string]interface{}`.
pub data Value : Type 0 where
  text : String → Value
  number : ℕ → Value
  stamp : Time → Value

abbrev pub Event : Type 0
Event = List (String × Value)

abbrev pub Bytes : Type 0
Bytes = List ℕ

abbrev pub Marshal : Type 0
Marshal = Event → Option Bytes

abbrev pub Bus : Type 0
Bus = List (String × Bytes)

-- `publish`: an event that cannot be marshalled is dropped.
unfoldable pub publish : Marshal → String → Event → Bus → Bus
publish marshal subject msg bus = elim (marshal msg) [
  | none ↦ bus
  | some bytes ↦ bus ++ (subject, bytes) ∷ []
]

abbrev pub ue_registered : String → String → Time → Event
ue_registered ueid imsi now =
    ("event", text "ue.registered")
    ∷ ("ueid", text ueid)
    ∷ ("imsi", text imsi)
    ∷ ("timestamp", stamp now)
    ∷ []

unfoldable pub publish_ue_registered : Marshal → String → String → Time → Bus → Bus
publish_ue_registered marshal ueid imsi now =
    publish marshal "ue.registered" (ue_registered ueid imsi now)

abbrev pub pfcp_created : String → String → String → Time → Event
pfcp_created session_id teid ue_ip now =
    ("event", text "pfcp.session.created")
    ∷ ("session_id", text session_id)
    ∷ ("teid", text teid)
    ∷ ("ue_ip", text ue_ip)
    ∷ ("timestamp", stamp now)
    ∷ []

unfoldable pub publish_pfcp_created : Marshal → String → String → String → Time → Bus → Bus
publish_pfcp_created marshal session_id teid ue_ip now =
    publish marshal "pfcp.session.created" (pfcp_created session_id teid ue_ip now)

abbrev pub quota_deducted : String → ℕ → ℕ → Event
quota_deducted imsi deducted remaining =
    ("imsi", text imsi) ∷ ("deducted", number deducted) ∷ ("remaining", number remaining) ∷ []

unfoldable pub publish_quota_deducted : Marshal → String → ℕ → ℕ → Bus → Bus
publish_quota_deducted marshal imsi deducted remaining bus =
    elim (marshal (quota_deducted imsi deducted remaining)) [
      | none ↦ bus
      | some bytes ↦ bus ++ ("quota.deducted", bytes) ∷ []
    ]

-- A publication adds one call to the bus, or none where the event cannot be marshalled.
pub publish_cases :
    (marshal : Marshal) (subject : String) (msg : Event) (bus : Bus)
    → ((marshal msg ≡ none) × (publish marshal subject msg bus ≡ bus))
      ⊎ ((bytes : Bytes) × (marshal msg ≡ some bytes)
          × (publish marshal subject msg bus ≡ bus ++ (subject, bytes) ∷ []))
unfolding publish
publish_cases marshal subject msg bus = elim (Option-cases (marshal msg)) [
  | inl fails ↦ inl (fails, ground arith)
  | inr (bytes, e) ↦ inr (bytes, e, ground arith)
]
