-- ===== src/HttpStatus.antt =====
-- internal/httpstatus/httpstatus.go: the maps between HTTP status codes and status codes.
pub mod Inverse
use argos.Base.{ℕ, ◌==◌, if◌then◌else◌, ◌||◌}
use argos.Status.{
  Code, ok, canceled, unknown, invalid_argument, deadline_exceeded, not_found, already_exists,
  permission_denied, resource_exhausted, failed_precondition, aborted, out_of_range, unimplemented,
  internal, unavailable, data_loss, unauthenticated,
}

unfoldable pub to_http : Code → ℕ
to_http c =
    if c == ok
    then 200
    else if c == canceled
    then 499
    else if c == unknown
    then 500
    else if c == invalid_argument
    then 400
    else if c == deadline_exceeded
    then 504
    else if c == not_found
    then 404
    else if c == already_exists
    then 409
    else if c == permission_denied
    then 403
    else if c == resource_exhausted
    then 429
    else if c == failed_precondition
    then 400
    else if c == aborted
    then 409
    else if c == out_of_range
    then 400
    else if c == unimplemented
    then 501
    else if c == internal
    then 500
    else if c == unavailable
    then 503
    else if c == data_loss
    then 500
    else if c == unauthenticated
    then 401
    else 500

unfoldable pub from_http : ℕ → Code
from_http h =
    if h == 200
    then ok
    else if h == 400
    then invalid_argument
    else if h == 401
    then unauthenticated
    else if h == 403
    then permission_denied
    else if h == 404
    then not_found
    else if h == 408 || h == 499
    then canceled
    else if h == 409
    then already_exists
    else if h == 429
    then resource_exhausted
    else if h == 500
    then unknown
    else if h == 501
    then unimplemented
    else if h == 503
    then unavailable
    else if h == 504
    then deadline_exceeded
    else unknown
