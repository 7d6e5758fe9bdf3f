-- ===== src/Udm/Middleware.antt =====
-- The middleware of the UDM (udm/main.go), a copy of that of the BSS (bss/main.go).
use openmvn.Common.{◌-◌, ◌≡◌, refl, List, [], ◌∷◌, ◌++◌, String}
use openmvn.Common.Clock.{Time}
use openmvn.Common.Http.{
  Response, message, Served, returned, panicked, LogLine, http_error, status_internal_server_error,
}
use openmvn.Bss.Middleware.{behind_middleware as bss_behind_middleware}

-- `recoveryMiddleware`
unfoldable pub recovery_middleware : {A : Type 0} → Served A → Served A
recovery_middleware (returned r) = returned r
recovery_middleware panicked =
    returned (http_error "Internal Server Error" status_internal_server_error)

-- `loggingMiddleware`: a panic passes through it, and no line is written.
unfoldable pub logging_middleware :
    {A : Type 0}
    → String
    → String
    → (start finish : Time) → Served A
    → List LogLine
    → Served A × List LogLine
logging_middleware m uri start finish (returned r) log = (
  returned r,
  log ++ record { http_method = m; request_uri = uri; duration = finish - start } ∷ [],
)
logging_middleware m uri start finish panicked log = (panicked, log)

-- The two calls of `Use` in `main`.
unfoldable pub behind_middleware :
    {A : Type 0}
    → String
    → String
    → (start finish : Time) → Served A
    → List LogLine
    → Served A × List LogLine
unfolding recovery_middleware logging_middleware
behind_middleware m uri start finish handled log =
    logging_middleware m uri start finish (recovery_middleware handled) log

-- The response that a client gets.
abbrev pub final_response : {A : Type 0} → Served A → Response A
final_response (returned r) = r
final_response panicked = record { status = 500; body = message "Internal Server Error" }

-- Every request is answered, and logged exactly once, though its handler panics: a panic is answered
-- 500 before the line is written. The BSS does the same.
pub behind_middleware-answers :
    {A : Type 0} (m uri : String) (start finish : Time) (handled : Served A) (log : List LogLine)
    → let line : LogLine = record {
      http_method = m;
      request_uri = uri;
      duration = finish - start;
    } in
      (behind_middleware m uri start finish handled log
        ≡ (returned (final_response handled), log ++ line ∷ []))
      × (bss_behind_middleware m uri start finish handled log
          ≡ behind_middleware m uri start finish handled log)
unfolding behind_middleware bss_behind_middleware
behind_middleware-answers m uri start finish (returned r) log = (refl, refl)
behind_middleware-answers m uri start finish panicked log = (refl, refl)
