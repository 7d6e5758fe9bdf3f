-- ===== src/Containers/Probes.antt =====
-- The probes of the integration tests (integration_test/containers.go) against the processes of the
-- services: where a service answers `GET /health`, and where it is asked.
use openmvn.Common.{
  ◌≡◌, Bool, false, ◌&&◌, ◌||◌, not, List, [], ◌∷◌, String, arith, ◌==◌, string_key,
}
use Prim.Native.String.{◌++◌ as ◌<>◌}
use openmvn.Services.Process.{Listener, run_main}
use openmvn.Services.Mains.{Env, main_of}
use openmvn.Services.Mains
use openmvn.Services.Exits.{comes_up}
use openmvn.Containers.{Service, amf, smf, ocs, bss, exposed_port}

-- The process that runs in the container of a service.
abbrev pub process_of : Service → Mains.Service
process_of amf = Mains.amf
process_of smf = Mains.smf
process_of ocs = Mains.ocs
process_of bss = Mains.bss

abbrev pub has_health : List (String × String) → Bool
has_health [] = false
has_health ((method, path) ∷ rest) = method == "GET" && path == "/health" || has_health rest

abbrev pub answers_health : String → List Listener → Bool
answers_health addr [] = false
answers_health addr (l ∷ ls) = l.addr == addr && has_health l.routes || answers_health addr ls

-- What the process of a service listens at until a signal arrives.
abbrev pub listeners : Service → Env → List Listener
listeners sv env = (run_main (main_of (process_of sv) (record env { signal = false }))).0.listening

-- Where a service answers `GET /health` once it is up: "" for nowhere.
abbrev pub health_addr : Service → String
health_addr amf = ""
health_addr smf = ":2123"
health_addr ocs = ""
health_addr bss = ":8083"

abbrev pub not_empty : String → Bool
not_empty addr = not (addr == "")

-- Until a signal arrives, the SMF and the BSS answer `GET /health` at one address exactly if they are up,
-- and the AMF and the OCS at none; no service ever answers at the port that its container exposes and
-- the probe asks.
pub probe_misses :
    (sv : Service) (env : Env) (addr : String)
    → (answers_health addr (listeners sv env)
        ≡ (not_empty (health_addr sv) && (health_addr sv == addr && comes_up (process_of sv) env)))
      × (answers_health (":" <> exposed_port sv) (listeners sv env) ≡ false)
unfolding main_of
probe_misses amf env addr = ground arith
probe_misses smf env addr = ground arith
probe_misses ocs env addr = ground arith
probe_misses bss env addr = ground arith
