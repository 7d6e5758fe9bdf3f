-- ===== src/SmfServer/Tests.antt =====
-- The theorems on the SMF server (cmd/smf/main.go) at concrete inputs.
use openmvn.Common.{
  ℕ, ◌+◌, ◌≡◌, refl, true, false, none, some, List, [], ◌∷◌, String, arith, map, All, nat_key,
  string_key, ◌⊎◌, ◌<◌, ◌≤◌,
}
use openmvn.Common.Map.{lookup}
use openmvn.Common.Clock.{Time}
use openmvn.SmfServer.Ip.{Ip, value, IsByte, next_ip}
use openmvn.SmfServer.Pool.{pool_from, pool_from-range, range_from, ip_pool_start}
use openmvn.SmfServer.Manager.{
  Session, Manager, done, blocked, allocate_ip, create_session, new_session_manager, new_session,
}
use openmvn.SmfServer.Allocation.{allocated, allocate_ip-nth}
use openmvn.SmfServer.Deadlock.{IsFree, create_session-deadlocks}
use openmvn.SmfServer.Handlers.{
  Request, Server, new_server, Call, create_request, delete_request, serve_all,
}
use openmvn.SmfServer.Serving.{never_serves}

abbrev last_of_block : Ip
last_of_block = 10 ∷ 0 ∷ 0 ∷ 255 ∷ []

last_of_block-IsByte : All IsByte last_of_block
last_of_block-IsByte = omega arith

next_of_last : next_ip last_of_block ≡ 10 ∷ 0 ∷ 1 ∷ 0 ∷ []
unfolding next_ip
next_of_last = refl

abbrev first_of_next : Ip
first_of_next = 10 ∷ 0 ∷ 1 ∷ 1 ∷ []

pool_from-range_example :
    map value (pool_from 5 last_of_block first_of_next) ≡ range_from (value last_of_block) 2
pool_from-range_example =
    pool_from-range 5 2 last_of_block first_of_next last_of_block-IsByte (omega arith) refl refl
      (omega arith)

abbrev subscriber : String
subscriber = "001010000000001"

abbrev peer : String
peer = "192.0.2.7:2123"

new_manager-IsFree : IsFree new_session_manager
unfolding new_session_manager
new_manager-IsFree = record { no_writer = refl; no_reader = refl }

nothing_known : lookup subscriber new_session_manager.sessions ≡ none
unfolding new_session_manager lookup
nothing_known = refl

abbrev clock : ℕ → Time
clock i = 100 + i

create_session-deadlocks_example :
    create_session subscriber 7 peer clock new_session_manager
    ≡ (record new_session_manager { writer = true }, blocked)
create_session-deadlocks_example =
    create_session-deadlocks subscriber 7 peer clock new_session_manager new_manager-IsFree
      nothing_known

abbrev stored : Session
stored = new_session subscriber 3 peer clock last_of_block

-- A manager that holds a session.
abbrev holding : Manager
holding = record {
  heap = stored ∷ [];
  sessions = (subscriber, 0) ∷ [];
  ip_pool = last_of_block ∷ [];
  next_ip_index = 1;
  writer = false;
  readers = 0;
}

subscriber_known : lookup subscriber holding.sessions ≡ some 0
unfolding lookup
subscriber_known = refl

abbrev attach : Request
attach = record { imsi = some subscriber; sender_teid = 7; sequence = 21; sender = peer }

abbrev calls : List Call
calls = create_request attach true clock ∷ delete_request attach true ∷ []

never_serves_example :
    ((serve_all calls new_server).manager.sessions ≡ []) × ((serve_all calls new_server).sent ≡ [])
never_serves_example = never_serves calls

abbrev server : Server
server = record { manager = holding; sent = [] }

-- The last address, and none after it.
allocate_ip-nth_example :
    ((252 < 253)
      × (ip : Ip) × ((allocate_ip (allocated 252 new_session_manager)).1 ≡ done (some ip))
      × (value ip ≡ value ip_pool_start + 252))
    ⊎ ((253 ≤ 252) × ((allocate_ip (allocated 252 new_session_manager)).1 ≡ done none))
allocate_ip-nth_example = allocate_ip-nth 252
