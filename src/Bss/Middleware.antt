-- ===== src/Bss/Middleware.antt =====
-- The middleware of the BSS (bss/main.go). A handler is what it does with one request: it returns a
-- response or it panics before it has written one. The log is the sequence of its lines.
use openmvn.Common.{◌-◌, List, [], ◌∷◌, ◌++◌, String}
use openmvn.Common.Clock.{Time}
use openmvn.Common.Http.{Served, returned, panicked, LogLine}
use openmvn.Bss.{recovery_middleware}

-- `loggingMiddleware`: the line is written after the handler has returned, so not where it panics.
unfoldable pub logging_middleware :
    {A : Type 0}
    → String
    → String
    → (start finish : Time) → Served A
    → List LogLine
    → Served A × List LogLine
logging_middleware m uri start finish (returned r) log = (
  returned r,
  log ++ record { http_method = m; request_uri = uri; duration = finish - start } ∷ [],
)
logging_middleware m uri start finish panicked log = (panicked, log)

-- The two calls of `Use`: the first is the outer one.
unfoldable pub behind_middleware :
    {A : Type 0}
    → String
    → String
    → (start finish : Time) → Served A
    → List LogLine
    → Served A × List LogLine
unfolding recovery_middleware logging_middleware
behind_middleware m uri start finish handled log =
    logging_middleware m uri start finish (returned (recovery_middleware handled)) log
