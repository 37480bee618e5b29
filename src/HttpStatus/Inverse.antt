-- ===== src/HttpStatus/Inverse.antt =====
-- How far the two maps of internal/httpstatus/httpstatus.go undo one another.
use argos.Base.{ℕ, ◌≡◌, ◌≢◌, ◌↔◌, ◌⊎◌, arith}
use argos.Status.{Code, ok, unknown}
use argos.HttpStatus.{to_http, from_http}

-- Codes to HTTP and back: the code that comes back has the same HTTP status, and the status is
-- 200 for OK alone.
pub to_http-from_http :
    (c : Code) → (to_http (from_http (to_http c)) ≡ to_http c) × (to_http c ≡ 200 ↔ c ≡ ok)
unfolding to_http from_http
to_http-from_http c = ground arith

-- HTTP to codes and back: every status that `FromHTTP` lists, but 408, comes back; only 200 is
-- read as success.
pub from_http-to_http :
    (h : ℕ) → (h ≡ 500) ⊎ (from_http h ≢ unknown) → h ≢ 408 → (to_http (from_http h) ≡ h)
unfolding to_http from_http
from_http-to_http h listed k = ground arith
