-- ===== src/Bss.antt =====
-- The Business Support System (bss/main.go): the table of subscribers and the handlers over it.
-- The body of a request enters as what the JSON decoder gives for it: `none` is a decoding error.
-- Every handler holds the lock of the table from its first access to its return, so a call is one
-- step. An `int` is its 64-bit pattern. Logging has no effect on the state and is left out.
pub mod Branches
pub mod Invariant
pub mod Ledger
pub mod Middleware
mod Tests
use Prim.Native.String.{len}
use openmvn.Common.{
  ℕ, Bool, true, false, Option, none, some, List, [], ◌∷◌, String, ltb, if◌then◌else◌, string_key,
}
use openmvn.Common.Map.{Map, lookup, insert}
use openmvn.Common.Int64.{add_int, is_nonpositive}
use openmvn.Common.Clock.{Time}
use openmvn.Common.Http.{
  Served, returned, panicked, Body, nothing, text, json, Response, http_error, status_ok,
  status_created, status_bad_request, status_not_found, status_conflict,
  status_internal_server_error,
}

pub record Subscriber : Type 0 where
  pub imsi : String
  pub token : String
  pub balance : ℕ
  pub created : Time
  pub updated : Time

pub record TopUpRequest : Type 0 where
  pub imsi : String
  pub amount : ℕ

pub record TopUpResponse : Type 0 where
  pub imsi : String
  pub balance : ℕ
  pub message : String

-- `simDB`
abbrev pub SimDb : Type 0
SimDb = Map String Subscriber

-- The part of `registerHandler` under the lock.
unfoldable pub add_subscriber : Subscriber → SimDb → SimDb × Response Subscriber
add_subscriber sub db = elim (lookup sub.imsi db) [
  | some _ ↦ (db, http_error "subscriber already registered" status_conflict)
  | none ↦ (insert sub.imsi sub db, record { status = status_created; body = json sub })
]

unfoldable pub register_handler : Option Subscriber → Time → SimDb → SimDb × Response Subscriber
unfolding add_subscriber
register_handler none now db = (db, http_error "invalid request" status_bad_request)
register_handler (some sub) now db =
    if ltb (len sub.imsi) 10
    then (db, http_error "invalid IMSI format" status_bad_request)
    else add_subscriber (record sub { created = now; updated = now }) db

-- `sub.Balance += req.Amount` and `sub.Updated = time.Now()`
abbrev pub credit : ℕ → Time → Subscriber → Subscriber
credit amount now sub = record sub { balance = add_int sub.balance amount; updated = now }

-- The part of `topUpHandler` under the lock.
unfoldable pub add_balance : TopUpRequest → Time → SimDb → SimDb × Response TopUpResponse
add_balance req now db = elim (lookup req.imsi db) [
  | none ↦ (db, http_error "subscriber not found" status_not_found)
  | some sub ↦ (
    insert req.imsi (credit req.amount now sub) db,
    record {
      status = status_ok;
      body = json (record {
        imsi = sub.imsi;
        balance = add_int sub.balance req.amount;
        message = "Top-up successful";
      });
    },
  )
]

unfoldable pub top_up_handler : Option TopUpRequest → Time → SimDb → SimDb × Response TopUpResponse
unfolding add_balance
top_up_handler none now db = (db, http_error "invalid request" status_bad_request)
top_up_handler (some req) now db =
    if is_nonpositive req.amount
    then (db, http_error "invalid amount" status_bad_request)
    else add_balance req now db

unfoldable pub get_subscriber_handler : String → SimDb → Response Subscriber
get_subscriber_handler imsi db = elim (lookup imsi db) [
  | none ↦ http_error "subscriber not found" status_not_found
  | some sub ↦ record { status = status_ok; body = json sub }
]

unfoldable pub health_handler : Response (Unit {0})
health_handler = record { status = status_ok; body = text "OK" }

-- `recoveryMiddleware`: a panic becomes a response.
unfoldable pub recovery_middleware : {A : Type 0} → Served A → Response A
recovery_middleware (returned r) = r
recovery_middleware panicked = http_error "Internal Server Error" status_internal_server_error

-- The routes that `main` registers.
pub data Request : Type 0 where
  register : Option Subscriber → Request
  top_up : Option TopUpRequest → Request
  get_subscriber : String → Request
  health : Request

pub data Reply : Type 0 where
  registered found : Response Subscriber → Reply
  topped_up : Response TopUpResponse → Reply
  healthy : Response (Unit {0}) → Reply

-- The router, behind the middleware: no handler panics.
unfoldable pub serve : Request → Time → SimDb → SimDb × Reply
unfolding register_handler top_up_handler get_subscriber_handler health_handler recovery_middleware
serve (register body) now db =
    let (db', r) = register_handler body now db in
    (db', registered (recovery_middleware (returned r)))
serve (top_up body) now db =
    let (db', r) = top_up_handler body now db in (db', topped_up (recovery_middleware (returned r)))
serve (get_subscriber imsi) now db =
    (db, found (recovery_middleware (returned (get_subscriber_handler imsi db))))
serve health now db = (db, healthy (recovery_middleware (returned health_handler)))

-- The requests that the server has answered, in the order in which they took the lock.
unfoldable pub run : List (Request × Time) → SimDb → SimDb
run [] db = db
run ((req, now) ∷ rest) db = run rest (serve req now db).0
