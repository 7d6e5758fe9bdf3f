-- ===== src/SmfServer/Handlers.antt =====
-- The GTP-C handlers of the SMF server (`handleCreateSessionRequest` and `handleDeleteSessionRequest`
-- of cmd/smf/main.go).
use openmvn.Common.{
  ℕ, Bool, Option, none, some, List, [], ◌∷◌, String, get_elem?, set, if◌then◌else◌, nat_key,
  string_key,
}
use openmvn.Common.Clock.{Time}
use openmvn.SmfServer.Ip.{Ip}
use openmvn.SmfServer.Manager.{
  active, Session, Manager, Outcome, done, blocked, create_session, get_session, delete_session,
  new_session_manager,
}

-- What the handlers read of a request: `IMSI()`, which can fail, `SenderTEID()` and `Sequence()`.
pub record Request : Type 0 where
  pub imsi : Option String
  pub sender_teid : ℕ
  pub sequence : ℕ
  pub sender : String

-- The responses, with the cause `RequestAccepted`: the fields that the source fills in.
pub data Response : Type 0 where
  create_session_response :
      (teid sequence : ℕ) (imsi : String) (fteid : ℕ) (ue_ip : Ip) (bearer_id qci arp : ℕ)
      → Response
  delete_session_response : (teid sequence : ℕ) (imsi : String) → Response

-- How a handler ends: nil, one of its errors, a wait for ever on the lock, or a panic on a nil pointer.
pub data Ending : Type 0 where
  ok no_imsi no_ip not_found not_sent hangs panics : Ending

-- The server: its manager and the responses it has sent, the last one first.
pub record Server : Type 0 where
  pub manager : Manager
  pub sent : List Response

abbrev pub new_server : Server
new_server = record { manager = new_session_manager; sent = [] }

abbrev pub create_response : Request → String → Session → Response
create_response req imsi session =
    create_session_response req.sender_teid req.sequence imsi session.teid session.ue_ip
      session.bearer_id session.qci session.arp

-- `session.State = SessionStateActive; session.LastUpdated = time.Now()`, through the pointer.
abbrev pub activate : ℕ → Session → Time → Manager → Manager
activate p session now m = record m {
  heap = set m.heap p (record session { state = active; last_updated = now });
}

-- The rest of the handler, with the session that the pointer leads to; `sends` says whether
-- `RespondTo` succeeds.
unfoldable pub answer_create : Request → String → Bool → Time → ℕ → Server → Server × Ending
answer_create req imsi sends now p s = elim (get_elem? s.manager.heap p) [
  | none ↦ (s, panics)
  | some session ↦
      if sends
      then (
        record s {
          manager = activate p session now s.manager;
          sent = create_response req imsi session ∷ s.sent;
        },
        ok,
      )
      else (s, not_sent)
]

-- What the handler does with the outcome of `createSession`.
unfoldable pub after_create :
    Request → String → Bool → Time → List Response → Manager × Outcome (Option ℕ) → Server × Ending
unfolding answer_create
after_create req imsi sends now sent (m, blocked) = (record { manager = m; sent = sent }, hangs)
after_create req imsi sends now sent (m, done none) = (record { manager = m; sent = sent }, no_ip)
after_create req imsi sends now sent (m, done (some p)) =
    answer_create req imsi sends now p (record { manager = m; sent = sent })

-- `now i` is what the i-th call of `time.Now` gives.
unfoldable pub handle_create_session_request :
    Request → Bool → (ℕ → Time) → Server → Server × Ending
unfolding after_create
handle_create_session_request req sends now s = elim req.imsi [
  | none ↦ (s, no_imsi)
  | some imsi ↦
      after_create req imsi sends (now 2) s.sent
        (create_session imsi req.sender_teid req.sender now s.manager)
]

-- The end of the handler, after the response has been sent.
unfoldable pub after_delete : List Response → Manager × Outcome (Unit {0}) → Server × Ending
after_delete sent (m, done _) = (record { manager = m; sent = sent }, ok)
after_delete sent (m, blocked) = (record { manager = m; sent = sent }, hangs)

-- What the handler does with the outcome of `getSession`.
unfoldable pub after_get :
    Request → String → Bool → List Response → Manager × Outcome (Option ℕ) → Server × Ending
unfolding after_delete
after_get req imsi sends sent (m, blocked) = (record { manager = m; sent = sent }, hangs)
after_get req imsi sends sent (m, done none) = (record { manager = m; sent = sent }, not_found)
after_get req imsi sends sent (m, done (some p)) =
    if sends
    then after_delete (delete_session_response req.sender_teid req.sequence imsi ∷ sent)
        (delete_session imsi m)
    else (record { manager = m; sent = sent }, not_sent)

unfoldable pub handle_delete_session_request : Request → Bool → Server → Server × Ending
unfolding after_get
handle_delete_session_request req sends s = elim req.imsi [
  | none ↦ (s, no_imsi)
  | some imsi ↦ after_get req imsi sends s.sent (get_session imsi s.manager)
]

-- A request to the server, with the answers of the network and of the clock.
pub data Call : Type 0 where
  create_request : Request → Bool → (ℕ → Time) → Call
  delete_request : Request → Bool → Call

unfoldable pub serve : Call → Server → Server × Ending
serve (create_request req sends now) s = handle_create_session_request req sends now s
serve (delete_request req sends) s = handle_delete_session_request req sends s

unfoldable pub serve_all : List Call → Server → Server
unfolding serve
serve_all [] s = s
serve_all (c ∷ cs) s = serve_all cs (serve c s).0
