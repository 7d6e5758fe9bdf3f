-- ===== src/Ocs.antt =====
-- The OCS (ocs/publisher.go, ocs/main.go): its publisher and its loop. The JetStream context of the NATS
-- library is a parameter `J`; how a call of its `Publish` ends is an argument. The bus is the sequence of
-- the messages that have been sent, whether or not their acknowledgement arrives.
pub mod Deductions
mod Tests
use openmvn.Common.{ℕ, Option, none, some, List, [], ◌∷◌, ◌++◌, String}
use openmvn.Common.Clock.{Time}
use openmvn.Events.{Bytes, Event, Marshal, Bus, text, number, stamp}

pub record EventPublisher (J : Type 0) : Type 0 where
  pub js : J

-- `NewPublisher`; the argument is what `nc.JetStream()` gives.
abbrev pub new_publisher : {J : Type 0} → Option J → Option (EventPublisher J)
new_publisher none = none
new_publisher (some js) = some (record { js = js })

-- `Publish` fails before the message is sent, fails because no acknowledgement arrives, or succeeds.
pub data Publication : Type 0 where
  not_sent unacknowledged acknowledged : Publication

-- What the publisher logs: an event that cannot be marshalled, and an error of `Publish`, with the subject
-- or without.
pub data LogEntry : Type 0 where
  marshal_error failed_to_publish : LogEntry
  failed_to_publish_on : String → LogEntry

pub record Output : Type 0 where
  pub bus : Bus
  pub log : List LogEntry

abbrev pub logged : LogEntry → Output → Output
logged entry o = record o { log = o.log ++ entry ∷ [] }

abbrev pub sent : String → Bytes → Output → Output
sent subject bytes o = record o { bus = o.bus ++ (subject, bytes) ∷ [] }

-- A call of `js.Publish`, and the logging of its error.
abbrev pub js_publish : Publication → LogEntry → String → Bytes → Output → Output
js_publish not_sent entry subject bytes o = logged entry o
js_publish unacknowledged entry subject bytes o = logged entry (sent subject bytes o)
js_publish acknowledged entry subject bytes o = sent subject bytes o

unfoldable pub publish : Marshal → Publication → String → Event → Output → Output
publish marshal p subject msg o = elim (marshal msg) [
  | none ↦ logged marshal_error o
  | some bytes ↦ js_publish p (failed_to_publish_on subject) subject bytes o
]

unfoldable pub publish_ue_registered :
    Marshal → Publication → String → String → Time → Output → Output
publish_ue_registered marshal p ueid imsi now = publish marshal p "ue.registered" (
    ("event", text "ue.registered")
    ∷ ("ueid", text ueid)
    ∷ ("imsi", text imsi)
    ∷ ("timestamp", stamp now)
    ∷ [])

unfoldable pub publish_pfcp_created :
    Marshal → Publication → String → String → String → Time → Output → Output
publish_pfcp_created marshal p session_id teid ue_ip now =
    publish marshal p "pfcp.session.created" (
      ("event", text "pfcp.session.created")
      ∷ ("session_id", text session_id)
      ∷ ("teid", text teid)
      ∷ ("ue_ip", text ue_ip)
      ∷ ("timestamp", stamp now)
      ∷ [])

abbrev pub quota_deducted : String → ℕ → ℕ → Time → Event
quota_deducted imsi amount remaining now =
    ("event", text "quota.deducted")
    ∷ ("imsi", text imsi)
    ∷ ("amount_mb", number amount)
    ∷ ("remaining", number remaining)
    ∷ ("timestamp", stamp now)
    ∷ []

unfoldable pub publish_quota_deducted :
    Marshal → Publication → String → ℕ → ℕ → Time → Output → Output
publish_quota_deducted marshal p imsi amount remaining now o =
    elim (marshal (quota_deducted imsi amount remaining now)) [
      | none ↦ logged marshal_error o
      | some bytes ↦ js_publish p failed_to_publish "quota.deducted" bytes o
    ]

-- A round of the loop of `main`: how its publication ends, and the clock.
pub record Round : Type 0 where
  pub publication : Publication
  pub now : Time

-- The loop of `main`, which does not end, for the rounds that have passed.
unfoldable pub run_rounds : Marshal → List Round → Output → Output
unfolding publish_quota_deducted
run_rounds marshal [] o = o
run_rounds marshal (round ∷ rest) o =
    run_rounds marshal rest
      (publish_quota_deducted marshal round.publication "123456789012345" 100 900 round.now o)
