-- ===== src/Apperr/Status.antt =====
-- The statuses of HTTP and gRPC that a kind of error is mapped to (internal/apperr/codes.go).
use kyoci_agent.Prelude.{◌≤◌, ◌<◌, ◌≡◌, ◌↔◌, arith}
use kyoci_agent.Apperr.{Kind, code_to_http, code_to_grpc}

-- Two kinds have the same status in HTTP exactly when they have the same code in gRPC, and the
-- status is always that of an error: 4xx or 5xx.
pub code_to_http_agrees :
    (k j : Kind)
    → ((code_to_http k ≡ code_to_http j) ↔ ((code_to_grpc k).0 ≡ (code_to_grpc j).0))
      × (400 ≤ code_to_http k)
      × (code_to_http k < 600)
unfolding code_to_http code_to_grpc
code_to_http_agrees k j = ground arith
