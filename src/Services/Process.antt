-- ===== src/Services/Process.antt =====
-- A Go process, as far as the `main` functions of the repository use one: the resources that are open,
-- the stack of deferred closes, and the ways to end. `log.Fatalf` and a signal that is not handled end
-- the process at once, and no deferred call runs.
use openmvn.Common.{Bool, true, false, List, [], ◌∷◌, String, if◌then◌else◌}

-- What a service opens.
pub data Resource : Type 0 where
  nats redis postgres gtpc_socket pfcp_socket sctp_listener : Resource

-- A server that listens: its address, and the methods and paths of its routes.
pub record Listener : Type 0 where
  pub addr : String
  pub routes : List (String × String)

pub record Process : Type 0 where
  pub opened : List Resource
  pub defers : List Resource
  pub subscriptions : List String
  pub listening : List Listener

abbrev pub started : Process
started = record { opened = []; defers = []; subscriptions = []; listening = [] }

-- A step goes on, or ends the process by `log.Fatalf`.
pub data Result (A : Type 0) : Type 0 where
  next : A → Result A
  fatal : Result A

-- A `main` that is not ended by `log.Fatalf` returns, runs for ever, or is killed by a signal that the
-- process does not handle.
pub data Completion : Type 0 where
  returns runs_on killed_by_signal : Completion

pub data Exit : Type 0 where
  returned exited running killed : Exit

abbrev pub M : Type 0 → Type 0
M A = Process → Process × Result A

abbrev pub bind_result :
    {A B : Type 0} → (A → Process → Process × Result B) → Process × Result A → Process × Result B
bind_result f (p, next a) = f a p
bind_result f (p, fatal) = (p, fatal)

infixl 5 ◌>>=◌ ◌>>◌
abbrev pub ◌>>=◌ : {B A : Type 0} → M A → (A → M B) → M B
◌>>=◌ step rest p = bind_result rest (step p)

abbrev pub ◌>>◌ : {B : Type 0} → M (Unit {0}) → M B → M B
step >> rest = step >>= λ _. rest

abbrev pub pure : {A : Type 0} → A → M A
pure a p = (p, next a)

-- A call whose error ends the process.
abbrev pub require : Bool → Process → Process × Result (Unit {0})
require ok p = if ok then (p, next tt) else (p, fatal)

-- A call whose error is only logged.
abbrev pub attempt : Bool → Process → Process × Result (Unit {0})
attempt ok p = (p, next tt)

-- The same as `require` for a call that opens something.
abbrev pub acquire : Bool → Resource → Process → Process × Result (Unit {0})
acquire ok r p = if ok then (record p { opened = r ∷ p.opened }, next tt) else (p, fatal)

-- A call that opens something, whose error is only logged.
abbrev pub try_acquire : Bool → Resource → Process → Process × Result (Unit {0})
try_acquire ok r p = if ok then (record p { opened = r ∷ p.opened }, next tt) else (p, next tt)

-- `defer r.Close()`
abbrev pub defer_close : Resource → Process → Process × Result (Unit {0})
defer_close r p = (record p { defers = r ∷ p.defers }, next tt)

-- A subscription whose error is logged.
abbrev pub subscribe : Bool → String → Process → Process × Result (Unit {0})
subscribe ok subject p =
    if ok then (record p { subscriptions = subject ∷ p.subscriptions }, next tt) else (p, next tt)

-- `go srv.ListenAndServe()`, an error of which is fatal.
abbrev pub listen : Bool → Listener → Process → Process × Result (Unit {0})
listen ok l p = if ok then (record p { listening = l ∷ p.listening }, next tt) else (p, fatal)

-- `<-quit`: the rest of `main` runs once a signal has arrived.
abbrev pub await : Bool → M Completion → Process → Process × Result Completion
await signal rest p = if signal then rest p else (p, next runs_on)

-- The loop or the server at the end of a `main` that does not handle signals: SIGINT and SIGTERM then
-- have their default action.
abbrev pub serve_forever : Bool → Process → Process × Result Completion
serve_forever signal p = if signal then (p, next killed_by_signal) else (p, next runs_on)

-- `srv.Shutdown`: the process no longer listens.
abbrev pub stop_listening : Process → Process × Result (Unit {0})
stop_listening p = (record p { listening = [] }, next tt)

abbrev pub resource_eq : Resource → Resource → Bool
resource_eq nats nats = true
resource_eq redis redis = true
resource_eq postgres postgres = true
resource_eq gtpc_socket gtpc_socket = true
resource_eq pfcp_socket pfcp_socket = true
resource_eq sctp_listener sctp_listener = true
resource_eq _ _ = false

abbrev pub close : Resource → List Resource → List Resource
close r [] = []
close r (x ∷ xs) = if resource_eq x r then xs else x ∷ close r xs

-- The deferred closes, the last one first.
abbrev pub close_all : List Resource → List Resource → List Resource
close_all [] opened = opened
close_all (r ∷ rs) opened = close_all rs (close r opened)

abbrev pub finish : Process × Result Completion → Process × Exit
finish (p, next returns) =
    (record p { opened = close_all p.defers p.opened; defers = [] }, returned)
finish (p, next runs_on) = (p, running)
finish (p, next killed_by_signal) = (p, killed)
finish (p, fatal) = (p, exited)

-- A `main`, from the start of its process on.
abbrev pub run_main : M Completion → Process × Exit
run_main main = finish (main started)
