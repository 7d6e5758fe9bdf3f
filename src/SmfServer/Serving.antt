-- ===== src/SmfServer/Serving.antt =====
-- What the GTP-C handlers of the SMF server (cmd/smf/main.go) do with the sessions, and what the lock
-- of the manager makes of them.
use openmvn.Common.{
  ℕ, ◌≡◌, refl, Bool, none, some, List, [], ◌∷◌, String, get_elem?, if◌then◌else◌, nat_key,
  string_key, ◌⊎◌, inl, inr, Bool-cases, Option-cases,
}
use openmvn.Common.Map.{lookup, delete}
use openmvn.Common.Clock.{Time}
use openmvn.SmfServer.Manager.{Session, Manager, new_session_manager}
use openmvn.SmfServer.Deadlock.{
  IsFree, create_session-deadlocks, create_session-existing, held_blocks, free_returns,
}
use openmvn.SmfServer.Handlers.{
  Request, delete_session_response, ok, no_imsi, not_found, not_sent, Server, new_server,
  create_response, activate, answer_create, after_create, handle_create_session_request,
  after_delete, after_get, handle_delete_session_request, Call, create_request, delete_request,
  serve, serve_all,
}

-- No session is stored, nobody reads under the lock, and nothing has been sent.
pub record IsIdle (s : Server) : Type 0 where
  pub no_session : s.manager.sessions ≡ []
  pub no_reader : s.manager.readers ≡ 0
  pub silent : s.sent ≡ []

absent : (imsi : String) (m : Manager) → m.sessions ≡ [] → lookup imsi m.sessions ≡ none
unfolding lookup
absent imsi m e = rw e refl

create-IsIdle :
    (req : Request) (sends : Bool) (now : ℕ → Time) (s : Server)
    → IsIdle s
    → IsIdle (handle_create_session_request req sends now s).0
unfolding handle_create_session_request after_create
create-IsIdle req sends now s h = elim (Option-cases req.imsi) [
  | inl no_name ↦ rw no_name h
  | inr (imsi, e) ↦ rw e (elim (Bool-cases s.manager.writer) [
    | inl held ↦
        rw ((held_blocks imsi req.sender_teid req.sender now s.manager held).0)
          (record { no_session = h.no_session; no_reader = h.no_reader; silent = h.silent })
    | inr free ↦
        rw
          (create_session-deadlocks imsi req.sender_teid req.sender now s.manager
            (record { no_writer = free; no_reader = h.no_reader })
            (absent imsi s.manager h.no_session))
          (record { no_session = h.no_session; no_reader = h.no_reader; silent = h.silent })
  ])
]

delete-IsIdle :
    (req : Request) (sends : Bool) (s : Server)
    → IsIdle s
    → IsIdle (handle_delete_session_request req sends s).0
unfolding handle_delete_session_request after_get
delete-IsIdle req sends s h = elim (Option-cases req.imsi) [
  | inl no_name ↦ rw no_name h
  | inr (imsi, e) ↦ rw e (elim (Bool-cases s.manager.writer) [
    | inl held ↦
        rw ((held_blocks imsi 0 req.sender (λ _. 0) s.manager held).1)
          (record { no_session = h.no_session; no_reader = h.no_reader; silent = h.silent })
    | inr free ↦
        rw
          (
            (free_returns imsi s.manager (record { no_writer = free; no_reader = h.no_reader })).0,
            absent imsi s.manager h.no_session,
          )
          (record { no_session = h.no_session; no_reader = h.no_reader; silent = h.silent })
  ])
]

serve_all-IsIdle : (cs : List Call) (s : Server) → IsIdle s → IsIdle (serve_all cs s)
unfolding serve_all serve
serve_all-IsIdle [] s h = h
serve_all-IsIdle (create_request req sends now ∷ cs) s h =
    serve_all-IsIdle cs _ (create-IsIdle req sends now s h)
serve_all-IsIdle (delete_request req sends ∷ cs) s h =
    serve_all-IsIdle cs _ (delete-IsIdle req sends s h)

-- Whatever requests a server gets after it has been started, it never stores a session and never sends
-- a response.
pub never_serves :
    (cs : List Call)
    → ((serve_all cs new_server).manager.sessions ≡ []) × ((serve_all cs new_server).sent ≡ [])
unfolding new_session_manager
never_serves cs =
    let h =
      serve_all-IsIdle cs new_server
        (record { no_session = refl; no_reader = refl; silent = refl }) in
    (h.no_session, h.silent)

answer_create-known :
    (req : Request) (imsi : String) (sends : Bool) (now : Time) (p : ℕ) (s : Server)
    (session : Session)
    → get_elem? s.manager.heap p ≡ some session
    → answer_create req imsi sends now p s ≡ (
        if sends
        then (
          record s {
            manager = activate p session now s.manager;
            sent = create_response req imsi session ∷ s.sent;
          },
          ok,
        )
        else (s, not_sent))
unfolding answer_create
answer_create-known req imsi sends now p s session e = rw (e, answer_create) refl

-- A Create Session Request for an IMSI that has a session, the lock being free: if the response can be
-- sent, it tells the TEID and the address of the session that is there, not the sender's, and the
-- session becomes active at the time of the response; otherwise nothing changes.
pub handle_create-existing :
    (req : Request) (imsi : String) (sends : Bool) (now : ℕ → Time) (s : Server) (p : ℕ)
    (session : Session)
    → IsFree s.manager
    → req.imsi ≡ some imsi
    → lookup imsi s.manager.sessions ≡ some p
    → get_elem? s.manager.heap p ≡ some session
    → handle_create_session_request req sends now s ≡ (
        if sends
        then (
          record s {
            manager = activate p session (now 2) s.manager;
            sent = create_response req imsi session ∷ s.sent;
          },
          ok,
        )
        else (s, not_sent))
unfolding handle_create_session_request
handle_create-existing req imsi sends now s p session free named known there =
    rw (named, create_session-existing imsi req.sender_teid req.sender now s.manager free known)
      (unfold after_create in answer_create-known req imsi sends (now 2) p s session there)

-- A Delete Session Request, the lock being free: without an IMSI, or for an IMSI without a session, it
-- is refused and nothing changes; if the response cannot be sent the session stays; otherwise the
-- response is sent and the session of this IMSI alone is removed.
pub handle_delete_branches :
    (req : Request) (sends : Bool) (s : Server)
    → IsFree s.manager
    → ((req.imsi ≡ none) × (handle_delete_session_request req sends s ≡ (s, no_imsi)))
      ⊎ ((imsi : String) × (req.imsi ≡ some imsi)
          × (((lookup imsi s.manager.sessions ≡ none)
                × (handle_delete_session_request req sends s ≡ (s, not_found)))
              ⊎ ((p : ℕ) × (lookup imsi s.manager.sessions ≡ some p)
                  × (handle_delete_session_request req sends s ≡ (
                      if sends
                      then (
                        record s {
                          manager = record s.manager { sessions = delete imsi s.manager.sessions };
                          sent = delete_session_response req.sender_teid req.sequence imsi ∷ s.sent;
                        },
                        ok,
                      )
                      else (s, not_sent))))))
unfolding handle_delete_session_request after_get after_delete
handle_delete_branches req sends s free = elim (Option-cases req.imsi) [
  | inl no_name ↦ inl (no_name, rw no_name refl)
  | inr (imsi, e) ↦ inr (
    imsi,
    e,
    elim (Option-cases (lookup imsi s.manager.sessions)) [
      | inl missing ↦ inl (missing, rw (e, (free_returns imsi s.manager free).0, missing) refl)
      | inr (p, known) ↦ inr (
        p,
        known,
        rw (e, (free_returns imsi s.manager free).0, known, (free_returns imsi s.manager free).1)
            refl,
      )
    ],
  )
]
