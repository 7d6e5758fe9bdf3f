-- ===== src/Services/Exits.antt =====
-- How the processes of the services end, and what they leave open.
use openmvn.Common.{◌≡◌, Bool, true, false, ◌&&◌, List, [], ◌∷◌, arith, if◌then◌else◌, All}
use openmvn.Services.Process.{
  Resource, redis, resource_eq, Exit, returned, exited, running, killed, run_main,
}
use openmvn.Services.Mains.{
  Env, config_usable, config_loaded, Service, bss, udm, amf, smf, smf_server, imsi_switch, upf, ocs,
  main_of,
}

-- The calls that have to succeed before a service is up.
abbrev pub comes_up : Service → Env → Bool
comes_up bss env = env.nats_connects && (env.jet_stream && env.listens)
comes_up udm env = env.listens
comes_up amf env = env.sctp_binds && env.nats_connects
comes_up smf env =
    config_usable env.config
    && (env.upf_dials && (env.nats_connects && (env.jet_stream && env.listens)))
comes_up smf_server env =
    config_loaded env.config
    && (env.redis_pings && (env.postgres_opens && (env.postgres_pings && env.gtpc_binds)))
comes_up imsi_switch env = env.nats_connects && (env.jet_stream && (env.subscribes && env.listens))
comes_up upf env = env.redis_pings
comes_up ocs env = env.nats_connects && env.jet_stream

-- Whether the service handles SIGINT and SIGTERM.
abbrev pub handles_signal : Service → Bool
handles_signal bss = true
handles_signal udm = true
handles_signal smf = true
handles_signal smf_server = true
handles_signal amf = false
handles_signal imsi_switch = false
handles_signal upf = false
handles_signal ocs = false

-- Whether the end is orderly: an error of `Shutdown` is fatal for the BSS and the UDM.
abbrev pub ends_orderly : Service → Env → Bool
ends_orderly bss env = env.shuts_down
ends_orderly udm env = env.shuts_down
ends_orderly _ env = true

abbrev pub expected_exit : Service → Env → Exit
expected_exit sv env =
    if comes_up sv env
    then if env.signal
      then if handles_signal sv then if ends_orderly sv env then returned else exited else killed
      else running
    else exited

-- Every service ends, or runs, as these conditions say: it ends by a fatal error if a call that it
-- needs fails, or if a signal makes the BSS or the UDM shut down and the shutdown fails; otherwise, on a
-- signal that arrives once it is up, it returns if it handles signals and is killed if it does not, as
-- four of the services; and without a signal it runs on.
pub main-exit : (sv : Service) (env : Env) → (run_main (main_of sv env)).1 ≡ expected_exit sv env
unfolding main_of
main-exit bss env = ground arith
main-exit udm env = ground arith
main-exit amf env = ground arith
main-exit smf env = ground arith
main-exit smf_server env = ground arith
main-exit imsi_switch env = ground arith
main-exit upf env = ground arith
main-exit ocs env = ground arith

-- What a service opens and does not close by itself: the Redis clients of the two SMF processes.
abbrev pub left_open : Service → Env → List Resource
left_open smf env = if env.redis_pings then redis ∷ [] else []
left_open smf_server env = redis ∷ []
left_open _ env = []

-- A service that returns has closed all that it opened, but its Redis client, and no longer listens.
pub main-closes :
    (sv : Service) (env : Env)
    → (run_main (main_of sv env)).1 ≡ returned
    → ((run_main (main_of sv env)).0.opened ≡ left_open sv env)
      × ((run_main (main_of sv env)).0.listening ≡ [])
unfolding main_of
main-closes bss env h = ground arith
main-closes udm env h = ground arith
main-closes amf env h = ground arith
main-closes smf env h = ground arith
main-closes smf_server env h = ground arith
main-closes imsi_switch env h = ground arith
main-closes upf env h = ground arith
main-closes ocs env h = ground arith

abbrev pub is_open : Resource → List Resource → Bool
is_open r [] = false
is_open r (x ∷ xs) = if resource_eq x r then true else is_open r xs

-- A service that ends by a fatal error runs none of its deferred closes: each resource that it was to
-- close is still open then.
pub main-abandons :
    (sv : Service) (env : Env)
    → (run_main (main_of sv env)).1 ≡ exited
    → All
        (λ r. is_open r (run_main (main_of sv env)).0.opened ≡ true)
        (run_main (main_of sv env)).0.defers
unfolding main_of
main-abandons bss env h = ground arith
main-abandons udm env h = ground arith
main-abandons amf env h = ground arith
main-abandons smf env h = ground arith
main-abandons smf_server env h = ground arith
main-abandons imsi_switch env h = ground arith
main-abandons upf env h = ground arith
main-abandons ocs env h = ground arith
