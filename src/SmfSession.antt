-- ===== src/SmfSession.antt =====
-- The session manager of the SMF library (pkg/smf/session.go), which keeps its sessions in Redis as
-- JSON. The Redis client and the JSON encoder are parameters: `Redis Db Bytes` and `Json Bytes`. A
-- handler takes what its calls of `time.Now()` and `uuid.New()` give as arguments.
pub mod Store
pub mod Handlers
pub mod Keyed
pub mod Refinement
pub mod Interleaving
pub mod Races
pub mod Serial
pub mod Expiry
mod Tests
use openmvn.Common.{
  ℕ, zero, ◌+◌, Bool, true, false, Option, none, some, List, [], ◌∷◌, String, if◌then◌else◌,
}
use Prim.Native.String.{◌++◌ as ◌<>◌}
use openmvn.Common.Clock.{Time}

-- `SessionState`; the zero value of the string type is `unset`.
pub data State : Type 0 where
  unset initializing active modifying deleting deleted : State

pub record Qos : Type 0 where
  pub qci : ℕ
  pub arp : ℕ
  pub priority_level : ℕ
  pub preemption_cap : Bool
  pub preemption_vuln : Bool
  pub max_bit_rate_ul : ℕ
  pub max_bit_rate_dl : ℕ
  pub guaranteed_bit_rate_ul : ℕ
  pub guaranteed_bit_rate_dl : ℕ

-- The fields of `Session`, its unused mutex left out.
pub record Session : Type 0 where
  pub imsi : String
  pub teid : ℕ
  pub session_id : String
  pub created_at : Time
  pub last_updated : Time
  pub state : State
  pub bearer_id : ℕ
  pub qos : Option Qos
  pub apn : String
  pub upf_node_id : String
  pub upf_teid : ℕ
  pub pfcp_fseid : ℕ
  pub amf_addr : String
  pub upf_addr : String

-- What a `Get` gives: the bytes, `redis.Nil`, or another error.
pub data Reply (Bytes : Type 0) : Type 0 where
  found : Bytes → Reply Bytes
  missing failed : Reply Bytes

-- The calls of the Redis client; `set` takes the expiry in seconds, and `set` and `del` say whether
-- they succeed.
pub record Redis (Db Bytes : Type 0) : Type 0 where
  pub get : Db → String → Reply Bytes
  pub set : Db → String → Bytes → ℕ → Db × Bool
  pub del : Db → String → Db × Bool

-- `json.Marshal` of a session and `json.Unmarshal` into one.
pub record Json (Bytes : Type 0) : Type 0 where
  pub marshal : Session → Option Bytes
  pub unmarshal : Bytes → Option Session

pub data Error : Type 0 where
  no_imsi not_found get_failed bad_json marshal_failed set_failed del_failed : Error

pub data Result (A : Type 0) : Type 0 where
  ok : A → Result A
  error : Error → Result A

-- `fmt.Sprintf("session:%s", imsi)`
abbrev pub session_key : String → String
session_key imsi = "session:" <> imsi

-- `24*time.Hour`
abbrev pub session_ttl : ℕ
session_ttl = 86400

-- What the handlers read of a request: `IMSI()`, which can fail, `SenderTEID()` and `SenderAddr()`.
pub record Request : Type 0 where
  pub imsi : Option String
  pub sender_teid : ℕ
  pub sender_addr : String

abbrev pub new_session : String → ℕ → String → String → (ℕ → Time) → Session
new_session imsi teid amf_addr uuid now = record {
  imsi = imsi;
  teid = teid;
  session_id = uuid;
  created_at = now 0;
  last_updated = now 1;
  state = initializing;
  bearer_id = 0;
  qos = none;
  apn = "";
  upf_node_id = "";
  upf_teid = 0;
  pfcp_fseid = 0;
  amf_addr = amf_addr;
  upf_addr = "";
}

abbrev pub set_outcome : {Db : Type 0} → Db × Bool → Db × Result (Unit {0})
set_outcome (db, sent) = (db, (if sent then ok tt else error set_failed))

abbrev pub del_outcome : {Db : Type 0} → Db × Bool → Db × Result (Unit {0})
del_outcome (db, sent) = (db, (if sent then ok tt else error del_failed))

-- `createSession` returns the session unless it could not be stored.
abbrev pub with_session : Session → Result (Unit {0}) → Result Session
with_session session (ok _) = ok session
with_session session (error e) = error e

-- A request to a handler, with its readings of the clock and its new UUID.
pub data Call : Type 0 where
  create_request : Request → String → (ℕ → Time) → Call
  delete_request : Request → Call
  modify_request : Request → (ℕ → Time) → Call

module _ {Db Bytes : Type 0} (r : Redis Db Bytes) (j : Json Bytes) where
  unfoldable pub store_session : Session → Db → Db × Result (Unit {0})
  store_session session db = elim (j.marshal session) [
    | none ↦ (db, error marshal_failed)
    | some bytes ↦ set_outcome (r.set db (session_key session.imsi) bytes session_ttl)
  ]

  unfoldable pub create_session :
      String → ℕ → String → String → (ℕ → Time) → Db → Db × Result Session
  unfolding store_session
  create_session imsi teid amf_addr uuid now db =
      let session = new_session imsi teid amf_addr uuid now in
      let (db', r') = store_session session db in (db', with_session session r')

  abbrev pub decoded : Option Session → Result Session
  decoded none = error bad_json
  decoded (some session) = ok session

  unfoldable pub get_session : String → Db → Result Session
  get_session imsi db = elim (r.get db (session_key imsi)) [
    | found bytes ↦ decoded (j.unmarshal bytes)
    | missing ↦ error not_found
    | failed ↦ error get_failed
  ]

  unfoldable pub update_session : Session → Time → Db → Db × Result (Unit {0})
  unfolding store_session
  update_session session now db = store_session (record session { last_updated = now }) db

  unfoldable pub delete_session : String → Db → Db × Result (Unit {0})
  delete_session imsi db = del_outcome (r.del db (session_key imsi))

  unfoldable pub handle_create_session_request :
      Request → String → (ℕ → Time) → Db → Db × Result Session
  unfolding create_session get_session
  handle_create_session_request req uuid now db = elim req.imsi [
    | none ↦ (db, error no_imsi)
    | some imsi ↦ elim (get_session imsi db) [
      | ok existing ↦ (db, ok existing)
      | error _ ↦ create_session imsi req.sender_teid req.sender_addr uuid now db
    ]
  ]

  -- The new state of the session is in a local copy that the deletion drops.
  unfoldable pub handle_delete_session_request : Request → Db → Db × Result (Unit {0})
  unfolding delete_session get_session
  handle_delete_session_request req db = elim req.imsi [
    | none ↦ (db, error no_imsi)
    | some imsi ↦ elim (get_session imsi db) [
      | ok session ↦ delete_session imsi db
      | error e ↦ (db, error e)
    ]
  ]

  unfoldable pub handle_modify_bearer_request : Request → (ℕ → Time) → Db → Db × Result (Unit {0})
  unfolding update_session get_session
  handle_modify_bearer_request req now db = elim req.imsi [
    | none ↦ (db, error no_imsi)
    | some imsi ↦ elim (get_session imsi db) [
      | ok session ↦
          update_session (record session { state = modifying; last_updated = now 0 }) (now 1) db
      | error e ↦ (db, error e)
    ]
  ]

  unfoldable pub serve : Call → Db → Db
  serve (create_request req uuid now) db = (handle_create_session_request req uuid now db).0
  serve (delete_request req) db = (handle_delete_session_request req db).0
  serve (modify_request req now) db = (handle_modify_bearer_request req now db).0

  unfoldable pub serve_all : List Call → Db → Db
  unfolding serve
  serve_all [] db = db
  serve_all (c ∷ cs) db = serve_all cs (serve c db)
