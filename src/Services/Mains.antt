-- ===== src/Services/Mains.antt =====
-- The `main` functions of the services, in the order of their calls. Logging, and the numbers of the
-- timeouts, are left out.
use openmvn.Common.{Bool, true, false, List, [], ◌∷◌, String}
use openmvn.Services.Process.{
  nats, redis, postgres, gtpc_socket, pfcp_socket, sctp_listener, Completion, returns, M, pure,
  ◌>>◌, require, attempt, acquire, try_acquire, defer_close, subscribe, listen, await,
  stop_listening, serve_forever,
}

-- What reading the configuration file gives.
pub data ConfigRead : Type 0 where
  loaded not_found unreadable : ConfigRead

-- Which calls succeed, and whether SIGINT or SIGTERM arrives, which it does, in this model, once the
-- service is up: behind the calls of `main`, also behind `signal.Notify` where there is one, and behind an
-- error of `ListenAndServe`.
pub record Env : Type 0 where
  pub config : ConfigRead
  pub nats_connects : Bool
  pub jet_stream : Bool
  pub stream_added : Bool
  pub subscribes : Bool
  pub redis_pings : Bool
  pub postgres_opens : Bool
  pub postgres_pings : Bool
  pub upf_dials : Bool
  pub gtpc_binds : Bool
  pub sctp_binds : Bool
  pub listens : Bool
  pub signal : Bool
  pub shuts_down : Bool

abbrev pub bss_routes : List (String × String)
bss_routes =
    ("POST", "/register")
    ∷ ("POST", "/topup")
    ∷ ("GET", "/subscriber/{imsi}")
    ∷ ("GET", "/health")
    ∷ []

unfoldable pub bss_main : Env → M Completion
bss_main env = do
  acquire env.nats_connects nats
  defer_close nats
  require env.jet_stream
  subscribe env.subscribes "ue.registered"
  listen env.listens (record { addr = ":8083"; routes = bss_routes })
  await env.signal (do stop_listening; require env.shuts_down; pure returns)

abbrev pub udm_routes : List (String × String)
udm_routes = ("POST", "/auth") ∷ ("GET", "/health") ∷ []

unfoldable pub udm_main : Env → M Completion
udm_main env = do
  listen env.listens (record { addr = ":8082"; routes = udm_routes })
  await env.signal (do stop_listening; require env.shuts_down; pure returns)

-- The SCTP listener has no deferred close, the loop that accepts connections never ends, and there is
-- no handling of signals.
unfoldable pub amf_main : Env → M Completion
amf_main env = do
  acquire env.sctp_binds sctp_listener
  acquire env.nats_connects nats
  defer_close nats
  serve_forever env.signal

abbrev pub amf_routes : List (String × String)
amf_routes =
    ("GET", "/ue/{gnb_addr}")
    ∷ ("DELETE", "/ue/{gnb_addr}")
    ∷ ("GET", "/ue")
    ∷ ("GET", "/health")
    ∷ []

-- `startHTTP`, which no function of the repository calls; `ListenAndServe` blocks.
unfoldable pub start_http : Env → M Completion
start_http env = do
  listen env.listens (record { addr = ":8081"; routes = amf_routes })
  serve_forever env.signal

abbrev pub smf_routes : List (String × String)
smf_routes = ("POST", "/gtpc/v1/create-session") ∷ ("GET", "/health") ∷ []

-- A missing configuration file is no error.
abbrev pub config_usable : ConfigRead → Bool
config_usable loaded = true
config_usable not_found = true
config_usable unreadable = false

-- The end of `main` of the SMF: an error of `Shutdown` is only logged.
unfoldable pub smf_serve : Env → M Completion
smf_serve env = do
  listen env.listens (record { addr = ":2123"; routes = smf_routes })
  await env.signal (do stop_listening; pure returns)

-- A Redis that does not answer is done without.
unfoldable pub smf_main : Env → M Completion
unfolding smf_serve
smf_main env = do
  require (config_usable env.config)
  try_acquire env.redis_pings redis
  acquire env.upf_dials pfcp_socket
  defer_close pfcp_socket
  acquire env.nats_connects nats
  defer_close nats
  require env.jet_stream
  subscribe env.subscribes "ue.registered"
  smf_serve env

unfoldable pub init_redis : Env → M (Unit {0})
init_redis env = acquire env.redis_pings redis

unfoldable pub init_postgres : Env → M (Unit {0})
init_postgres env = do require env.postgres_opens; acquire env.postgres_pings postgres

-- `init` of cmd/smf panics where the file cannot be read, also where it is missing.
abbrev pub config_loaded : ConfigRead → Bool
config_loaded loaded = true
config_loaded not_found = false
config_loaded unreadable = false

-- The GTP-C server has handlers for two message types; an error of `Serve` is only logged.
unfoldable pub smf_server_main : Env → M Completion
unfolding init_redis init_postgres
smf_server_main env = do
  require (config_loaded env.config)
  init_redis env
  init_postgres env
  defer_close postgres
  acquire env.gtpc_binds gtpc_socket
  defer_close gtpc_socket
  await env.signal (pure returns)

abbrev pub imsi_switch_routes : List (String × String)
imsi_switch_routes =
    ("GET", "/health")
    ∷ ("GET", "/switches/{deviceID}")
    ∷ ("POST", "/switches/{deviceID}/respond")
    ∷ []

-- `ListenAndServe` blocks, and there is no handling of signals.
unfoldable pub imsi_switch_serve : Env → M Completion
imsi_switch_serve env = do
  listen env.listens (record { addr = ":8080"; routes = imsi_switch_routes })
  serve_forever env.signal

unfoldable pub imsi_switch_main : Env → M Completion
unfolding imsi_switch_serve
imsi_switch_main env = do
  acquire env.nats_connects nats
  defer_close nats
  require env.jet_stream
  attempt env.stream_added
  require env.subscribes
  subscribe true "imsi.switch"
  imsi_switch_serve env

-- `InitRedis` of upf/redis_client.go; the other services have the same file, and their `main`
-- functions do not call it.
unfoldable pub connect_redis : Env → M (Unit {0})
connect_redis env = acquire env.redis_pings redis

-- `StartPFCPAgent` and `SetupTunnels` only log.
unfoldable pub start_pfcp_agent : M (Unit {0})
start_pfcp_agent = pure tt

unfoldable pub setup_tunnels : M (Unit {0})
setup_tunnels = pure tt

-- The loop never ends.
unfoldable pub upf_main : Env → M Completion
unfolding connect_redis start_pfcp_agent setup_tunnels
upf_main env = do connect_redis env; start_pfcp_agent; setup_tunnels; serve_forever env.signal

-- `NewPublisher` gives nil where there is no JetStream context, and `main` then ends.
unfoldable pub ocs_main : Env → M Completion
ocs_main env = do
  acquire env.nats_connects nats
  defer_close nats
  require env.jet_stream
  serve_forever env.signal

pub data Service : Type 0 where
  bss udm amf smf smf_server imsi_switch upf ocs : Service

unfoldable pub main_of : Service → Env → M Completion
unfolding bss_main udm_main amf_main smf_main smf_server_main imsi_switch_main upf_main ocs_main
main_of bss env = bss_main env
main_of udm env = udm_main env
main_of amf env = amf_main env
main_of smf env = smf_main env
main_of smf_server env = smf_server_main env
main_of imsi_switch env = imsi_switch_main env
main_of upf env = upf_main env
main_of ocs env = ocs_main env
