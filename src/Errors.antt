-- ===== src/Errors.antt =====
-- pkg/errors/errors.go: application errors with a code and an HTTP status, the sentinels, the
-- wrapping constructors and the tests by `errors.Is`. Messages are left out.
use Prim.Native.Nat.{ℕ}
use Prim.Native.String.{String}
use mathlib.Core.Bool.{Bool, true, false}
use mathlib.Core.Option.{Option, none, some}

-- A pointer to an `AppError` is one of the eight sentinels, or made by `NewAppError` or
-- `NewAppErrorWithCause`. `foreign` is an error of another package.
pub data Error : Type 0 where
  not_found unauthorized forbidden bad_request conflict internal validation : Error
  too_many_requests : Error
  app : String → ℕ → Error
  caused : String → ℕ → Error → Error
  foreign : String → Error

-- `GetAppError(err).Code`; `none` where no `AppError` is in the chain.
unfoldable pub code : Error → Option String
code not_found = some "NOT_FOUND"
code unauthorized = some "UNAUTHORIZED"
code forbidden = some "FORBIDDEN"
code bad_request = some "BAD_REQUEST"
code conflict = some "CONFLICT"
code internal = some "INTERNAL_ERROR"
code validation = some "VALIDATION_ERROR"
code too_many_requests = some "RATE_LIMIT_EXCEEDED"
code (app c _) = some c
code (caused c _ _) = some c
code (foreign _) = none

-- `GetAppError(err).HTTPStatus`.
unfoldable pub status : Error → Option ℕ
status not_found = some 404
status unauthorized = some 401
status forbidden = some 403
status bad_request = some 400
status conflict = some 409
status internal = some 500
status validation = some 422
status too_many_requests = some 429
status (app _ n) = some n
status (caused _ n _) = some n
status (foreign _) = none

-- The wrapping constructors of the file.
abbrev pub wrap_not_found : Error → Error
wrap_not_found e = caused "NOT_FOUND" 404 e

abbrev pub wrap_unauthorized : Error → Error
wrap_unauthorized e = caused "UNAUTHORIZED" 401 e

abbrev pub wrap_internal : Error → Error
wrap_internal e = caused "INTERNAL_ERROR" 500 e

-- `errors.Is(err, ErrNotFound)`: the sentinel itself stands in the chain of causes.
unfoldable pub is_not_found : Error → Bool
is_not_found not_found = true
is_not_found (caused _ _ e) = is_not_found e
is_not_found _ = false

unfoldable pub is_conflict : Error → Bool
is_conflict conflict = true
is_conflict (caused _ _ e) = is_conflict e
is_conflict _ = false

unfoldable pub is_unauthorized : Error → Bool
is_unauthorized unauthorized = true
is_unauthorized (caused _ _ e) = is_unauthorized e
is_unauthorized _ = false

unfoldable pub is_forbidden : Error → Bool
is_forbidden forbidden = true
is_forbidden (caused _ _ e) = is_forbidden e
is_forbidden _ = false
