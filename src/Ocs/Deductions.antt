-- ===== src/Ocs/Deductions.antt =====
-- What the loop of the OCS (ocs/main.go) publishes and logs.
use openmvn.Common.{Option, none, some, List, [], ◌∷◌, ◌++◌}
use openmvn.Events.{Bytes, Marshal, Bus}
use openmvn.Ocs.{
  quota_deducted, Publication, not_sent, unacknowledged, acknowledged, LogEntry, marshal_error,
  failed_to_publish, Output, Round,
}

-- The messages of a round: one if it has been sent, also without an acknowledgement.
abbrev pub messages : Publication → Option Bytes → Bus
messages p none = []
messages not_sent (some bytes) = []
messages unacknowledged (some bytes) = ("quota.deducted", bytes) ∷ []
messages acknowledged (some bytes) = ("quota.deducted", bytes) ∷ []

-- The log entries of a round: one unless its message has been acknowledged.
abbrev pub entries : Publication → Option Bytes → List LogEntry
entries p none = marshal_error ∷ []
entries not_sent (some bytes) = failed_to_publish ∷ []
entries unacknowledged (some bytes) = failed_to_publish ∷ []
entries acknowledged (some bytes) = []

abbrev pub encoded_event : Marshal → Round → Option Bytes
encoded_event marshal round = marshal (quota_deducted "123456789012345" 100 900 round.now)

abbrev pub deductions : Marshal → List Round → Bus
deductions marshal [] = []
deductions marshal (round ∷ rest) =
    messages round.publication (encoded_event marshal round) ++ deductions marshal rest

abbrev pub complaints : Marshal → List Round → List LogEntry
complaints marshal [] = []
complaints marshal (round ∷ rest) =
    entries round.publication (encoded_event marshal round) ++ complaints marshal rest

abbrev add : Output → Bus → List LogEntry → Output
add o bus log = record { bus = o.bus ++ bus; log = o.log ++ log }
