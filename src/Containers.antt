-- ===== src/Containers.antt =====
-- The container manager of the integration tests (integration_test/containers.go). Docker is the set of
-- the containers that run; what its calls give is an argument of the operations.
pub mod Cleanup
pub mod Probes
mod Tests
use openmvn.Common.{
  ℕ, ◌+◌, ◌≡◌, Bool, true, false, Option, none, some, List, [], ◌∷◌, String, ◌==◌, nat_key,
  string_key, if◌then◌else◌,
}
use openmvn.Common.Map.{Map, lookup, insert}
use Prim.Native.String.{◌++◌ as ◌<>◌}

-- The names that `StartService` knows.
pub data Service : Type 0 where
  amf smf ocs bss : Service

-- A container is a number. `ports` is the map of the addresses.
pub record Manager : Type 0 where
  pub redis_container : Option ℕ
  pub nats_container : Option ℕ
  pub amf_container : Option ℕ
  pub smf_container : Option ℕ
  pub ocs_container : Option ℕ
  pub bss_container : Option ℕ
  pub ports : Map String String

-- The manager, and Docker: the containers that run, and the number of the next one.
pub record World : Type 0 where
  pub manager : Manager
  pub running : List ℕ
  pub fresh : ℕ

abbrev pub new_container_manager : Manager
new_container_manager = record {
  redis_container = none;
  nats_container = none;
  amf_container = none;
  smf_container = none;
  ocs_container = none;
  bss_container = none;
  ports = [];
}

abbrev pub start : World
start = record { manager = new_container_manager; running = []; fresh = 0 }

-- How `GenericContainer` with `Started: true` ends: with an error and no container that runs, with an error
-- because the wait strategy does not succeed, while the container runs, or without an error.
pub data Creation : Type 0 where
  not_running not_ready ready : Creation

-- What the calls for one container give: `GenericContainer`, `Host` and `MappedPort`.
pub record Docker : Type 0 where
  pub creation : Creation
  pub host : Option String
  pub port : Option String

pub data Error : Type 0 where
  not_started no_host no_port unknown_service : Error

-- `GenericContainer` with `Started: true`, where it leaves a container that runs.
abbrev pub launch : World → World
launch w = record w { running = w.fresh ∷ w.running; fresh = w.fresh + 1 }

abbrev pub address : String → String → String
address host port = host <> (":" <> port)

-- The part of `StartInfrastructure` after both containers have been started.
unfoldable pub connect_infrastructure : Docker → Docker → World → World × Option Error
connect_infrastructure r n w = elim r.host [
  | none ↦ (w, some no_host)
  | some redis_host ↦ elim r.port [
    | none ↦ (w, some no_port)
    | some redis_port ↦ elim n.host [
      | none ↦ (w, some no_host)
      | some nats_host ↦ elim n.port [
        | none ↦ (w, some no_port)
        | some nats_port ↦ (
          record w {
            manager = record w.manager {
              ports =
                  insert "nats" (address nats_host nats_port)
                    (insert "redis" (address redis_host redis_port) w.manager.ports);
            };
          },
          none,
        )
      ]
    ]
  ]
]

unfoldable pub start_infrastructure : Docker → Docker → World → World × Option Error
unfolding connect_infrastructure
start_infrastructure r n w =
    let w1 : World = record (launch w) {
      manager = record w.manager { redis_container = some w.fresh };
    } in
    let w2 : World = record (launch w1) {
      manager = record w1.manager { nats_container = some w1.fresh };
    } in
    elim r.creation [
      | not_running ↦ (w, some not_started)
      | not_ready ↦ (launch w, some not_started)
      | ready ↦ elim n.creation [
        | not_running ↦ (w1, some not_started)
        | not_ready ↦ (launch w1, some not_started)
        | ready ↦ connect_infrastructure r n w2
      ]
    ]

-- The cases of the `switch`, and its default.
unfoldable pub service_of : String → Option Service
service_of name =
    if name == "amf"
    then some amf
    else if name == "smf"
    then some smf
    else if name == "ocs"
    then some ocs
    else if name == "bss"
    then some bss
    else none

-- The port that a container exposes, and that the probe of `/health` asks.
abbrev pub exposed_port : Service → String
exposed_port amf = "8081"
exposed_port smf = "8805"
exposed_port ocs = "8082"
exposed_port bss = "8084"

abbrev pub image : Service → String
image amf = "openmvcore_amf"
image smf = "openmvcore_smf"
image ocs = "openmvcore_ocs"
image bss = "openmvcore_bss"

-- A missing key of the map gives "".
abbrev pub port_of : String → Manager → String
port_of k m = elim (lookup k m.ports) [ none ↦ "" | some a ↦ a ]

-- The request for the container of a service.
pub record ContainerRequest : Type 0 where
  pub image_name : String
  pub exposed : String
  pub redis_addr : String
  pub nats_url : String

unfoldable pub request_for : Service → Manager → ContainerRequest
request_for sv m = record {
  image_name = image sv;
  exposed = exposed_port sv;
  redis_addr = port_of "redis" m;
  nats_url = "nats://" <> port_of "nats" m;
}

unfoldable pub record_container : Service → ℕ → Manager → Manager
record_container amf c m = record m { amf_container = some c }
record_container smf c m = record m { smf_container = some c }
record_container ocs c m = record m { ocs_container = some c }
record_container bss c m = record m { bss_container = some c }

-- `StartService` for a service that it knows: the container is recorded once its host and its port are
-- known; where `GenericContainer` gives an error, the container that it may have started is dropped.
unfoldable pub start_known : String → Service → Docker → World → World × Option Error
unfolding record_container
start_known name sv d w = elim d.creation [
  | not_running ↦ (w, some not_started)
  | not_ready ↦ (launch w, some not_started)
  | ready ↦ elim d.host [
    | none ↦ (launch w, some no_host)
    | some host ↦ elim d.port [
      | none ↦ (launch w, some no_port)
      | some port ↦ (
        record (launch w) {
          manager = record (record_container sv w.fresh w.manager) {
            ports = insert name (address host port) w.manager.ports;
          };
        },
        none,
      )
    ]
  ]
]

unfoldable pub start_service : String → Docker → World → World × Option Error
unfolding start_known
start_service name d w = elim (service_of name) [
  | none ↦ (w, some unknown_service)
  | some sv ↦ start_known name sv d w
]

unfoldable pub get_service_url : String → Manager → String
get_service_url name m = "http://" <> port_of name m

abbrev pub remove : ℕ → List ℕ → List ℕ
remove c [] = []
remove c (x ∷ xs) = let rest = remove c xs in if x == c then rest else x ∷ rest

-- `if c != nil { c.Terminate(ctx) }`; `terminates` says of which containers that succeeds.
abbrev pub terminate : (ℕ → Bool) → Option ℕ → List ℕ → List ℕ
terminate terminates none running = running
terminate terminates (some c) running = if terminates c then remove c running else running

unfoldable pub cleanup : (ℕ → Bool) → World → World
cleanup terminates w =
    let m = w.manager in
    record w {
      running = terminate terminates m.bss_container (
          terminate terminates m.ocs_container (
            terminate terminates m.smf_container (
              terminate terminates m.amf_container (
                terminate terminates m.nats_container
                  (terminate terminates m.redis_container w.running)))));
    }
