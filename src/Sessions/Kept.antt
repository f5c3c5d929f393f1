-- ===== src/Sessions/Kept.antt =====
-- Properties of the state that the statements on the tables of accounts keep, and with them the methods
-- of internal/repository/refresh_token.go and of the repositories beside it.
use base_go_api.Prelude.{ℕ, ◌==◌, ◌&&◌, ◌≡◌, String, Bool, false, not, str_eq}
use base_go_api.Prelude.Keeping.{Keeps, bind-Keeps, map_err-Keeps, if-Keeps}
use base_go_api.Prelude.Outcome.{pure, fail, map_err}
use base_go_api.Errors.{not_found, wrap_internal}
use base_go_api.Sql.Table.{Table}
use base_go_api.Sql.Results.{missing_or_internal}
use base_go_api.Sessions.Token.{RefreshToken, is_revoked, PasswordResetToken, User, is_used}
use base_go_api.Sessions.Repository.{
  revoke, use_up, create, find_by_hash, find_by_id, mark_revoked, revoke_all_by_user, at_least_one,
  revoke_family, revoke_resets_by_user, find_user_by_id, update_user,
}

-- A property of the state that the statements on the tables keep: a row of the refresh tokens is only
-- revoked, and a new one is not pending; a row of the reset tokens is only used up.
pub record Kept {S : Type 0} (P : S → Type 0) (tokens : Table S RefreshToken)
    (resets : Table S PasswordResetToken) (users : Table S User) : Type 0 where
  pub creates : (t : RefreshToken) → t.is_2fa_pending ≡ false → Keeps P (tokens.create t)
  pub revokes : (p : RefreshToken → Bool) (now : ℕ) → Keeps P (tokens.update p (revoke now))
  pub firsts : (p : RefreshToken → Bool) → Keeps P (tokens.first p)
  pub finds : (p : RefreshToken → Bool) → Keeps P (tokens.find p)
  pub user_firsts : (p : User → Bool) → Keeps P (users.first p)
  pub user_updates : (p : User → Bool) (f : User → User) → Keeps P (users.update p f)
  pub reset_firsts : (p : PasswordResetToken → Bool) → Keeps P (resets.first p)
  pub reset_updates :
      (p : PasswordResetToken → Bool) (now : ℕ) → Keeps P (resets.update p (use_up now))

module _ {S : Type 0} (P : S → Type 0) where
  pub at_least_one-Keeps : (n : ℕ) → Keeps P (at_least_one n)
  at_least_one-Keeps n = if-Keeps P (n == 0) (fail not_found) (pure tt) (λ s h. h) (λ s h. h)

module _ {S : Type 0} (tokens : Table S RefreshToken) (resets : Table S PasswordResetToken)
    (users : Table S User) (P : S → Type 0) (kept : Kept P tokens resets users) where
  open kept use {
    creates, revokes, firsts, finds, user_firsts, user_updates, reset_firsts, reset_updates,
  }

  pub create-Keeps : (t : RefreshToken) → t.is_2fa_pending ≡ false → Keeps P (create tokens t)
  unfolding create
  create-Keeps t plain = map_err-Keeps P wrap_internal (tokens.create t) (creates t plain)

  pub mark_revoked-Keeps : (now : ℕ) (hash : String) → Keeps P (mark_revoked tokens now hash)
  unfolding mark_revoked
  mark_revoked-Keeps now hash =
      let m = tokens.update (λ t. str_eq t.token_hash hash) (revoke now) in
      bind-Keeps P (map_err wrap_internal m) at_least_one
        (map_err-Keeps P wrap_internal m (revokes (λ t. str_eq t.token_hash hash) now))
        (at_least_one-Keeps P)

  pub revoke_all_by_user-Keeps : (now user : ℕ) → Keeps P (revoke_all_by_user tokens now user)
  unfolding revoke_all_by_user
  revoke_all_by_user-Keeps now user =
      let p = λ (t : RefreshToken). t.user_id == user && not (is_revoked t) in
      bind-Keeps P (map_err wrap_internal (tokens.update p (revoke now))) (λ _. pure tt)
        (map_err-Keeps P wrap_internal (tokens.update p (revoke now)) (revokes p now)) (λ n s h. h)

  pub revoke_family-Keeps : (now family : ℕ) → Keeps P (revoke_family tokens now family)
  unfolding revoke_family
  revoke_family-Keeps now family =
      let p = λ (t : RefreshToken). t.family_id == family && not (is_revoked t) in
      bind-Keeps P (map_err wrap_internal (tokens.update p (revoke now))) (λ _. pure tt)
        (map_err-Keeps P wrap_internal (tokens.update p (revoke now)) (revokes p now)) (λ n s h. h)

  pub find_by_hash-Keeps : (hash : String) → Keeps P (find_by_hash tokens hash)
  unfolding find_by_hash
  find_by_hash-Keeps hash =
      map_err-Keeps P missing_or_internal (tokens.first (λ t. str_eq t.token_hash hash))
        (firsts (λ t. str_eq t.token_hash hash))

  pub find_by_id-Keeps : (id : ℕ) → Keeps P (find_by_id tokens id)
  unfolding find_by_id
  find_by_id-Keeps id =
      map_err-Keeps P missing_or_internal (tokens.first (λ t. t.id == id))
        (firsts (λ t. t.id == id))

  pub find_user_by_id-Keeps : (id : ℕ) → Keeps P (find_user_by_id users id)
  unfolding find_user_by_id
  find_user_by_id-Keeps id =
      map_err-Keeps P missing_or_internal (users.first (λ u. u.id == id))
        (user_firsts (λ u. u.id == id))

  pub update_user-Keeps : (u : User) → Keeps P (update_user users u)
  unfolding update_user
  update_user-Keeps u =
      let m = users.update (λ v. v.id == u.id) (λ _. u) in
      bind-Keeps P (map_err wrap_internal m) (λ _. pure tt)
        (map_err-Keeps P wrap_internal m (user_updates (λ v. v.id == u.id) (λ _. u))) (λ n s h. h)

  pub revoke_resets_by_user-Keeps : (now user : ℕ) → Keeps P (revoke_resets_by_user resets now user)
  unfolding revoke_resets_by_user
  revoke_resets_by_user-Keeps now user =
      let p = λ (t : PasswordResetToken). t.user_id == user && not (is_used t) in
      bind-Keeps P (map_err wrap_internal (resets.update p (use_up now))) (λ _. pure tt)
        (map_err-Keeps P wrap_internal (resets.update p (use_up now)) (reset_updates p now))
        (λ n s h. h)
