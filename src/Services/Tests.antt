-- ===== src/Services/Tests.antt =====
-- The theorems on the processes of the services, in one environment.
use openmvn.Common.{◌≡◌, refl, true, false, [], ◌∷◌}
use openmvn.Services.Process.{nats, sctp_listener, run_main, returned, exited, killed}
use openmvn.Services.Mains.{Env, not_found, main_of, bss, smf, amf}
use openmvn.Services.Exits.{expected_exit, main-exit}

abbrev fine : Env
fine = record {
  config = not_found;
  nats_connects = true;
  jet_stream = true;
  stream_added = true;
  subscribes = true;
  redis_pings = true;
  postgres_opens = true;
  postgres_pings = true;
  upf_dials = true;
  gtpc_binds = true;
  sctp_binds = true;
  listens = true;
  signal = true;
  shuts_down = true;
}

-- A shutdown that takes too long.
abbrev hurried : Env
hurried = record fine { shuts_down = false }

main-exit_example : (run_main (main_of amf fine)).1 ≡ expected_exit amf fine
main-exit_example = main-exit amf fine

amf_killed : expected_exit amf fine ≡ killed
amf_killed = refl

amf_keeps_nats : (run_main (main_of amf fine)).0.opened ≡ nats ∷ sctp_listener ∷ []
unfolding main_of
amf_keeps_nats = refl

smf_returns : (run_main (main_of smf fine)).1 ≡ returned
smf_returns = main-exit smf fine

bss_exits : (run_main (main_of bss hurried)).1 ≡ exited
bss_exits = main-exit bss hurried

bss_leaves_nats : (run_main (main_of bss hurried)).0.opened ≡ nats ∷ []
unfolding main_of
bss_leaves_nats = refl
