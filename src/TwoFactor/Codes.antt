-- ===== src/TwoFactor/Codes.antt =====
-- The recovery codes of internal/domain/two_factor_recovery_code.go and their table,
-- internal/repository/two_factor_recovery_code.go.
use base_go_api.Prelude.{ℕ, ◌==◌, ◌&&◌, Bool, true, false, not, Option, none, some}
use base_go_api.Prelude.Bytes.{Bytes, bytes_eq}
use base_go_api.Prelude.Outcome.{Call, ◌>>=◌, pure, map_err}
use base_go_api.Errors.{wrap_internal}
use base_go_api.Sql.Table.{Table}
use base_go_api.Sql.Results.{missing_or_internal, at_least_one}

pub record RecoveryCode : Type 0 where
  pub id : ℕ
  pub user_id : ℕ
  pub code_hash : Bytes
  pub used_at : Option ℕ

abbrev pub is_used : RecoveryCode → Bool
is_used c = elim c.used_at [ none ↦ false | some at ↦ true ]

module _ {S : Type 0} (codes : Table S RecoveryCode) where
  unfoldable pub create_code : RecoveryCode → Call S (Unit {0})
  create_code c = map_err wrap_internal (codes.create c)

  unfoldable pub find_by_user_and_hash : ℕ → Bytes → Call S RecoveryCode
  find_by_user_and_hash user hash =
      map_err missing_or_internal
        (codes.first (λ c. c.user_id == user && (bytes_eq c.code_hash hash && not (is_used c))))

  unfoldable pub mark_code_used : ℕ → ℕ → Call S (Unit {0})
  mark_code_used now id =
      map_err wrap_internal (codes.update (λ c. c.id == id) (λ c. record c { used_at = some now }))
      >>= at_least_one

  unfoldable pub delete_all_by_user : ℕ → Call S (Unit {0})
  delete_all_by_user user =
      map_err wrap_internal (codes.delete (λ c. c.user_id == user)) >>= λ _. pure tt

  unfoldable pub count_unused_by_user : ℕ → Call S ℕ
  count_unused_by_user user =
      map_err wrap_internal (codes.count_where (λ c. c.user_id == user && not (is_used c)))
