-- ===== src/Status.antt =====
-- status/status.go: codes, errors, and the errors that wrap them.
--
-- A Go error is one of: an error with no status in it (`errors.New`, or `fmt.Errorf` with no `%w`),
-- known by its identity and text; a StatusError with no cause; a StatusError with a cause; an error
-- that wraps others (`fmt.Errorf` with `%w`). A nil error is `none`. A nil slice of details and an
-- empty one are one list here; no caller tells them apart.
pub mod Details
use argos.Base.{
  ℕ, ◌==◌, ◌≡◌, ◌≢◌, refl, Bool, true, false, ◌&&◌, if◌then◌else◌, List, [], ◌∷◌, ◌++◌, Option,
  none, some, map, arith,
}
use argos.Base.Bytes.{Bytes, codes}

abbrev pub Code : Type 0
Code = ℕ

abbrev pub ok : Code
ok = 0

abbrev pub canceled : Code
canceled = 1

abbrev pub unknown : Code
unknown = 2

abbrev pub invalid_argument : Code
invalid_argument = 3

abbrev pub deadline_exceeded : Code
deadline_exceeded = 4

abbrev pub not_found : Code
not_found = 5

abbrev pub already_exists : Code
already_exists = 6

abbrev pub permission_denied : Code
permission_denied = 7

abbrev pub resource_exhausted : Code
resource_exhausted = 8

abbrev pub failed_precondition : Code
failed_precondition = 9

abbrev pub aborted : Code
aborted = 10

abbrev pub out_of_range : Code
out_of_range = 11

abbrev pub unimplemented : Code
unimplemented = 12

abbrev pub internal : Code
internal = 13

abbrev pub unavailable : Code
unavailable = 14

abbrev pub data_loss : Code
data_loss = 15

abbrev pub unauthenticated : Code
unauthenticated = 16

pub record Detail : Type 0 where
  pub type_url : Bytes
  pub value : Bytes

pub data Error : Type 0 where
  plain : ℕ → Bytes → Error
  status : Code → Bytes → List Detail → Error
  caused : Code → Bytes → List Detail → Error → Error
  wraps : Bytes → Error → Error
  wraps_two : Bytes → Error → Error → Error

-- The first StatusError that `errors.As` meets: its code, message, details and cause.
pub record StatusError : Type 0 where
  pub code : Code
  pub msg : Bytes
  pub details : List Detail
  pub cause : Option Error

abbrev pub or_else {ℓ} : {A : Type ℓ} → Option A → Option A → Option A
or_else none b = b
or_else (some a) b = some a

unfoldable pub as_status : Error → Option StatusError
as_status (plain i t) = none
as_status (status c m ds) = some (record { code = c; msg = m; details = ds; cause = none })
as_status (caused c m ds e) = some (record { code = c; msg = m; details = ds; cause = some e })
as_status (wraps t e) = as_status e
as_status (wraps_two t e f) = or_else (as_status e) (as_status f)

-- `Error(code, msg)`.
abbrev pub error : Code → Bytes → Error
error c m = status c m []

-- `CodeOf`.
unfoldable pub code_of : Option Error → Code
code_of none = ok
code_of (some e) = elim (as_status e) [ some se ↦ se.code | none ↦ unknown ]

-- `(*StatusError).Error`, whose last line prints the code through `shows`, and `Error` of the rest.
abbrev pub is_empty {ℓ} : {A : Type ℓ} → List A → Bool
is_empty [] = true
is_empty (x ∷ xs) = false

module _ (shows : ℕ → Bytes) where
  unfoldable pub text : Error → Bytes
  text (plain i t) = t
  text (status c m ds) = if is_empty m then codes "status: code = " ++ shows c else m
  text (caused c m ds e) = if is_empty m then text e else m
  text (wraps t e) = t
  text (wraps_two t e f) = t

  -- `WithDetails`.
  unfoldable pub with_details : Option Error → List Detail → Error
  unfolding text
  with_details none ds = status internal (codes "status: WithDetails called with nil error") []
  with_details (some e) ds = elim (as_status e) [
    | none ↦ caused unknown (text e) ds e
    | some se ↦ elim se.cause [
      | none ↦ status se.code se.msg (se.details ++ ds)
      | some c ↦ caused se.code se.msg (se.details ++ ds) c
    ]
  ]

-- `DetailsOf`.
unfoldable pub details_of : Option Error → List Detail
details_of none = []
details_of (some e) = elim (as_status e) [ some se ↦ se.details | none ↦ [] ]

-- The sentinels: their private causes are known by identity.
abbrev pub err_cardinality : Error
err_cardinality =
    caused internal (codes "status: cardinality mismatch") []
      (plain 1 (codes "status: cardinality mismatch"))

abbrev pub err_sessions_exhausted : Error
err_sessions_exhausted =
    caused resource_exhausted (codes "status: sessions exhausted") []
      (plain 2 (codes "status: sessions exhausted"))

abbrev pub err_calls_exhausted : Error
err_calls_exhausted =
    caused resource_exhausted (codes "status: calls exhausted") []
      (plain 3 (codes "status: calls exhausted"))

-- `(*StatusError).Is`. `same` is `e.cause == t.cause`, the identity of two error values.
unfoldable pub is_status : (Error → Error → Bool) → StatusError → StatusError → Bool
is_status same e t = elim e.cause [
  | none ↦ elim t.cause [ none ↦ e.code == t.code | some d ↦ false ]
  | some c ↦ elim t.cause [ none ↦ false | some d ↦ same c d && e.code == t.code ]
]
