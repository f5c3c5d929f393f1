-- ===== src/Sessions/Resets.antt =====
-- ResetPassword of internal/service/auth.go and the rows of its reset token.
use base_go_api.Prelude.{
  ℕ, ◌==◌, ◌&&◌, ◌≡◌, refl, ap, sym, ◌∙◌, subst, String, true, not, List, [], ◌∷◌, arith, str_eq,
  inl, inr, Bool-cases,
}
use base_go_api.Prelude.Outcome.{Outcome, ok, err, map_err, map_err-eq-ok, map_err-eq-err}
use base_go_api.Prelude.Keeping.{bind_ends}
use base_go_api.Errors.{Error, is_not_found, not_found, wrap_internal}
use base_go_api.Sql.Table.{Table, Laws, IsReliable, Apart, In, count, updated, record_not_found}
use base_go_api.Sql.Effects.{update_runs_lem}
use base_go_api.Sessions.Token.{
  RefreshToken, is_revoked, PasswordResetToken, is_used, is_usable, User,
}
use base_go_api.Sessions.Repository.{
  use_up, revoke, at_least_one, missing_or_internal, find_reset_by_hash, mark_used,
  revoke_all_by_user, update_user, find_user_by_id,
}
use base_go_api.Sessions.Service.{Crypto, Config, invalid_reset_token, unknown_reset, lift}
use base_go_api.Sessions.Recovery.{
  close_reset, save_password, set_password, reset_with, reset_password,
}

-- Each row of a hash has been used.
abbrev pub UsedUp : String → List PasswordResetToken → Type 0
UsedUp hash rows =
    (t : PasswordResetToken) → In t rows → str_eq t.token_hash hash ≡ true → is_used t ≡ true

updated-UsedUp :
    (hash : String) (now : ℕ) (l : List PasswordResetToken)
    → UsedUp hash (updated (λ t. str_eq t.token_hash hash) (use_up now) l)
updated-UsedUp hash now [] t there named = elim there [ ]
updated-UsedUp hash now (u ∷ l) t (inl same) named = ground arith
updated-UsedUp hash now (u ∷ l) t (inr there) named = updated-UsedUp hash now l t there named

module _ (crypto : Crypto) (cfg : Config) {S : Type 0} (tokens : Table S RefreshToken)
    (resets : Table S PasswordResetToken) (users : Table S User) (laws : Laws resets)
    (sound : IsReliable resets laws) (apart_u : Apart resets laws users)
    (apart_t : Apart resets laws tokens) where
  open laws use {rows, first_ok, first_rows}

  reset_with_used :
      (checked used revoked : ℕ) (hash password : String) (t : PasswordResetToken) (s : S)
      → is_used t ≡ true
      → (reset_with crypto cfg tokens resets users checked used revoked hash password t s).0
        ≡ err invalid_reset_token
  unfolding reset_with
  reset_with_used checked used revoked hash password t s h = rw h refl

  find_reset_missing :
      (hash : String) (s : S) (e : Error)
      → (find_reset_by_hash resets hash s).0 ≡ err e
      → e ≡ not_found
  unfolding find_reset_by_hash missing_or_internal
  find_reset_missing hash s e h =
      let p = λ (t : PasswordResetToken). str_eq t.token_hash hash in
      go (resets.first p s) (λ x i. sound.first_runs p s x i) h
    where
      go :
          (r : Outcome PasswordResetToken × S)
          → ((x : Error) → r.0 ≡ err x → x ≡ record_not_found)
          → (map_err missing_or_internal (λ (u : S). r) s).0 ≡ err e
          → e ≡ not_found
      go (ok t, u) i k = cc
      go (err x, u) i k = let same = i x refl in ground arith

  -- A reset token that has been used is refused.
  pub used_refused :
      (checked used revoked : ℕ) (token password : String) (s : S)
      → UsedUp (crypto.hash_token token) (rows s)
      → (reset_password crypto cfg tokens resets users checked used revoked token password s).0
        ≡ err invalid_reset_token
  unfolding reset_password find_reset_by_hash is_not_found
  used_refused checked used revoked token password s h =
      let hash = crypto.hash_token token in
      let p = λ (t : PasswordResetToken). str_eq t.token_hash hash in
      bind_ends (λ r. r.0 ≡ err invalid_reset_token)
        (map_err unknown_reset (find_reset_by_hash resets hash))
        (reset_with crypto cfg tokens resets users checked used revoked hash password) s
        (λ e x.
          let (y, missing, same) =
            map_err-eq-err unknown_reset (find_reset_by_hash resets hash) s x in
          let none_there = find_reset_missing hash s y missing in
          ap err (same ∙ ap unknown_reset none_there))
        (λ t x.
          let (named, there) = first_ok p s t (
            map_err-eq-ok missing_or_internal (resets.first p) s
              (map_err-eq-ok unknown_reset (find_reset_by_hash resets hash) s x)) in
          reset_with_used checked used revoked hash password t _ (h t there named))

  mark_used-UsedUp :
      (now : ℕ) (hash : String) (s : S) → UsedUp hash (rows (mark_used resets now hash s).1)
  unfolding mark_used
  mark_used-UsedUp now hash s =
      let p = λ (t : PasswordResetToken). str_eq t.token_hash hash in
      let e = update_runs_lem resets laws sound wrap_internal p (use_up now) at_least_one s in
      let left : (at_least_one (count p (rows s)) (resets.update p (use_up now) s).1).1
          ≡ (resets.update p (use_up now) s).1 =
        ground arith in
      subst (UsedUp hash)
        (sym (
          ap (λ x. rows x.1) e
          ∙ ap rows left
          ∙ (laws.update_ok p (use_up now) s _ (sound.update_runs p (use_up now) s)).1))
        (updated-UsedUp hash now (rows s))

  revoke_all_by_user_rows :
      (now user : ℕ) (s : S) → rows (revoke_all_by_user tokens now user s).1 ≡ rows s
  unfolding revoke_all_by_user
  revoke_all_by_user_rows now user s =
      ground
        (arith, apart_t.update_apart (λ t. t.user_id == user && not (is_revoked t)) (revoke now) s)

  close_reset-UsedUp :
      (used revoked : ℕ) (hash : String) (user : User) (s : S)
      → UsedUp hash (rows (close_reset crypto cfg tokens resets users used revoked hash user s).1)
  unfolding close_reset
  close_reset-UsedUp used revoked hash user s =
      let s1 = (mark_used resets used hash s).1 in
      subst (UsedUp hash) (sym (revoke_all_by_user_rows revoked user.id s1))
        (mark_used-UsedUp used hash s)

  -- The reset is over once the call has succeeded.
  abbrev pub Closed : String → Outcome (Unit {0}) × S → Type 0
  Closed hash r = r.0 ≡ ok tt → UsedUp hash (rows r.1)

  set_password-Closed :
      (used revoked : ℕ) (hash password : String) (user : User) (s : S)
      → Closed hash (set_password crypto cfg tokens resets users used revoked hash password user s)
  unfolding set_password save_password
  set_password-Closed used revoked hash password user s =
      bind_ends (Closed hash) (map_err wrap_internal (lift (crypto.hash_password password)))
        (save_password crypto cfg tokens resets users used revoked hash user) s (λ e x y. cc)
        (λ hashed x.
          bind_ends (Closed hash) (update_user users (record user { password_hash = hashed }))
            (λ _. close_reset crypto cfg tokens resets users used revoked hash user)
            (map_err wrap_internal (lift (crypto.hash_password password)) s).1 (λ e y z. cc)
            (λ u y z. close_reset-UsedUp used revoked hash user _))

  pub reset_password-Closed :
      (checked used revoked : ℕ) (token password : String) (s : S)
      → Closed
          (crypto.hash_token token)
          (reset_password crypto cfg tokens resets users checked used revoked token password s)
  unfolding reset_password reset_with
  reset_password-Closed checked used revoked token password s =
      let hash = crypto.hash_token token in
      bind_ends (Closed hash) (map_err unknown_reset (find_reset_by_hash resets hash))
        (reset_with crypto cfg tokens resets users checked used revoked hash password) s
        (λ e x y. cc)
        (λ t x. elim (Bool-cases (is_usable checked t)) [
          | inl usable ↦ rw usable (
              bind_ends (Closed hash) (find_user_by_id users t.user_id)
                (set_password crypto cfg tokens resets users used revoked hash password)
                (map_err unknown_reset (find_reset_by_hash resets hash) s).1 (λ e y z. cc)
                (λ user y. set_password-Closed used revoked hash password user _))
          | inr stale ↦ rw stale (λ y. cc)
        ])
