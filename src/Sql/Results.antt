-- ===== src/Sql/Results.antt =====
-- What the repositories make of the results of GORM: the missing record, other errors, and the number
-- of changed rows.
use base_go_api.Prelude.{ℕ, ◌==◌, str_eq, if◌then◌else◌}
use base_go_api.Prelude.Outcome.{Call, pure, fail}
use base_go_api.Errors.{Error, foreign, not_found, wrap_internal}

-- `if err == gorm.ErrRecordNotFound { return errors.ErrNotFound }; return errors.WrapInternal(err)`
unfoldable pub missing_or_internal : Error → Error
missing_or_internal (foreign s) =
    if str_eq s "record not found" then not_found else wrap_internal (foreign s)
missing_or_internal e = wrap_internal e

-- `if result.RowsAffected == 0 { return errors.ErrNotFound }`
abbrev pub at_least_one : {S : Type 0} → ℕ → Call S (Unit {0})
at_least_one n = if n == 0 then fail not_found else pure tt
