-- ===== src/Ocs/Tests.antt =====
-- The OCS at concrete rounds and events.
use openmvn.Common.{ℕ, ◌≡◌, refl, Option, none, some, List, [], ◌∷◌, length}
use openmvn.Events.{Event, Bytes}
use openmvn.Ocs.{
  Round, Output, new_publisher, not_sent, unacknowledged, acknowledged, failed_to_publish,
}
use openmvn.Ocs.Deductions.{deductions, complaints}

abbrev encode : Event → Option Bytes
encode e = some (length e ∷ [])

-- The first of three rounds is not sent, and the second is not acknowledged.
abbrev rounds : List Round
rounds =
    record { publication = not_sent; now = 1 }
    ∷ record { publication = unacknowledged; now = 6 }
    ∷ record { publication = acknowledged; now = 11 }
    ∷ []

two_published :
    deductions encode rounds ≡ ("quota.deducted", 5 ∷ []) ∷ ("quota.deducted", 5 ∷ []) ∷ []
two_published = refl

two_logged : complaints encode rounds ≡ failed_to_publish ∷ failed_to_publish ∷ []
two_logged = refl

abbrev quiet : Output
quiet = record { bus = []; log = [] }

no_context : new_publisher {J = ℕ} none ≡ none
no_context = refl
