-- ===== src/Containers/Tests.antt =====
-- The theorems on the container manager (integration_test/containers.go) at concrete inputs.
use openmvn.Common.{
  ℕ, string_key, nat_key, ◌≡◌, refl, ◌⊎◌, Bool, true, false, not, ◌==◌, some, List, [], ◌∷◌, String,
}
use openmvn.Containers.{
  Docker, ready, not_ready, start_infrastructure, service_of, start_service, cleanup,
}
use openmvn.Containers.Cleanup.{member, recorded, start_all, lost_in_all, cleanup-leaves}

abbrev good : Docker
good = record { creation = ready; host = some "localhost"; port = some "32768" }

-- The SMF is not ready in time.
abbrev slow : Docker
slow = record good { creation = not_ready }

-- The BSS is started twice, the SMF is lost, and the AMF refuses to be ended.
abbrev calls : List (String × Docker)
calls = ("bss", good) ∷ ("amf", good) ∷ ("smf", slow) ∷ ("bss", good) ∷ []

abbrev ends : ℕ → Bool
ends c = not (c == 3)

slow_smf_runs : member 4 (cleanup ends (start_all good good calls)).running ≡ true
unfolding cleanup start_service service_of start_infrastructure
slow_smf_runs = refl

amf_runs : member 3 (cleanup ends (start_all good good calls)).running ≡ true
unfolding cleanup start_service service_of start_infrastructure
amf_runs = refl

lost_containers : lost_in_all good good calls ≡ 2 ∷ 4 ∷ []
unfolding start_service service_of start_infrastructure
lost_containers = refl

cleanup-leaves_example :
    (member 4 (lost_in_all good good calls) ≡ true)
    ⊎ ((recorded 4 (start_all good good calls).manager ≡ true) × (ends 4 ≡ false))
cleanup-leaves_example = cleanup-leaves ends good good calls 4 slow_smf_runs
