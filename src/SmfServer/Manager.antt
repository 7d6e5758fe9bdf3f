-- ===== src/SmfServer/Manager.antt =====
-- The session manager of the SMF server (cmd/smf/main.go). Its mutex is a `sync.RWMutex`, which is not
-- reentrant: a `Lock` waits while anybody holds it, also the goroutine that waits. A call that waits
-- for a lock that nobody else can release has the outcome `blocked`, and keeps what it holds.
use openmvn.Common.{
  ℕ, ◌+◌, Bool, true, false, ◌||◌, not, Option, none, some, List, [], ◌∷◌, ◌++◌, String, length,
  get_elem?, leb, ◌==◌, if◌then◌else◌, nat_key, string_key,
}
use openmvn.Common.Map.{Map, lookup, insert, delete}
use openmvn.Common.Clock.{Time}
use openmvn.SmfServer.Ip.{Ip}
use openmvn.SmfServer.Pool.{init_ip_pool}

-- `SessionState`
pub data State : Type 0 where
  initializing active deleting deleted : State

pub record Session : Type 0 where
  pub imsi : String
  pub ue_ip : Ip
  pub teid : ℕ
  pub peer_addr : String
  pub created_at : Time
  pub last_updated : Time
  pub state : State
  pub bearer_id : ℕ
  pub qci : ℕ
  pub arp : ℕ

-- The map holds pointers into the heap, which only grows. `writer` and `readers` say who holds `mu`.
pub record Manager : Type 0 where
  pub heap : List Session
  pub sessions : Map String ℕ
  pub ip_pool : List Ip
  pub next_ip_index : ℕ
  pub writer : Bool
  pub readers : ℕ

pub data Outcome (A : Type 0) : Type 0 where
  done : A → Outcome A
  blocked : Outcome A

abbrev pub M : Type 0 → Type 0
M A = Manager → Manager × Outcome A

-- What follows a step that has ended so.
abbrev pub proceed : {A B : Type 0} → (A → M B) → Manager × Outcome A → Manager × Outcome B
proceed f (s, done a) = f a s
proceed f (s, blocked) = (s, blocked)

infixl 5 ◌>>=◌ ◌>>◌
abbrev pub ◌>>=◌ : {B A : Type 0} → M A → (A → M B) → M B
◌>>=◌ first then_ s = proceed then_ (first s)

abbrev pub ◌>>◌ : {B : Type 0} → M (Unit {0}) → M B → M B
m >> k = m >>= λ _. k

abbrev pub pure : {A : Type 0} → A → M A
pure a s = (s, done a)

-- `mu.Lock()` and `mu.Unlock()`
abbrev pub lock : Manager → Manager × Outcome (Unit {0})
lock s =
    if s.writer || not (s.readers == 0) then (s, blocked) else (record s { writer = true }, done tt)

abbrev pub unlock : Manager → Manager × Outcome (Unit {0})
unlock s = (record s { writer = false }, done tt)

-- `mu.RLock()` and `mu.RUnlock()` around a body that does not change the state.
abbrev pub read_locked : {A : Type 0} → (Manager → A) → Manager → Manager × Outcome A
read_locked f s = if s.writer then (s, blocked) else (s, done (f s))

-- `mu.Lock(); defer mu.Unlock()` around a body.
abbrev pub release : {A : Type 0} → M A → M A
release body = do a ← body; unlock; pure a

abbrev pub locked : {A : Type 0} → M A → M A
locked body = do lock; release body

unfoldable pub new_session_manager : Manager
new_session_manager = record {
  heap = [];
  sessions = [];
  ip_pool = init_ip_pool;
  next_ip_index = 0;
  writer = false;
  readers = 0;
}

-- The body of `allocateIP`: nil where the pool is used up.
abbrev pub take_ip : Manager → Manager × Outcome (Option Ip)
take_ip s = if leb (length s.ip_pool) s.next_ip_index then (s, done none) else (
  record s { next_ip_index = s.next_ip_index + 1 },
  done (get_elem? s.ip_pool s.next_ip_index),
)

unfoldable pub allocate_ip : M (Option Ip)
allocate_ip = locked take_ip

abbrev pub default_qci : ℕ
default_qci = 9

abbrev pub default_arp : ℕ
default_arp = 1

abbrev pub new_session : String → ℕ → String → (ℕ → Time) → Ip → Session
new_session imsi teid peer now ip = record {
  imsi = imsi;
  ue_ip = ip;
  teid = teid;
  peer_addr = peer;
  created_at = now 0;
  last_updated = now 1;
  state = initializing;
  bearer_id = 5;
  qci = default_qci;
  arp = default_arp;
}

-- The end of `createSession`, after the address has been allocated: `none` is the error.
unfoldable pub store_session : String → ℕ → String → (ℕ → Time) → Option Ip → M (Option ℕ)
store_session imsi teid peer now none s = (s, done none)
store_session imsi teid peer now (some ip) s = (
  record s {
    heap = s.heap ++ new_session imsi teid peer now ip ∷ [];
    sessions = insert imsi (length s.heap) s.sessions;
  },
  done (some (length s.heap)),
)

-- The body of `createSession`, under the lock: it calls `allocateIP`, which takes the lock itself.
unfoldable pub create_locked : String → ℕ → String → (ℕ → Time) → M (Option ℕ)
unfolding allocate_ip store_session
create_locked imsi teid peer now s = elim (lookup imsi s.sessions) [
  | some existing ↦ (s, done (some existing))
  | none ↦ (do ip ← allocate_ip; store_session imsi teid peer now ip) s
]

unfoldable pub create_session : String → ℕ → String → (ℕ → Time) → M (Option ℕ)
unfolding create_locked
create_session imsi teid peer now = locked (create_locked imsi teid peer now)

unfoldable pub get_session : String → M (Option ℕ)
get_session imsi = read_locked (λ s. lookup imsi s.sessions)

unfoldable pub delete_session : String → M (Unit {0})
delete_session imsi = locked (λ s. (record s { sessions = delete imsi s.sessions }, done tt))
