-- ===== src/Sessions/Requests.antt =====
-- The rows of a reset token under the statements of internal/repository/password_reset_token.go, and under
-- RequestPasswordReset of internal/service/auth.go.
use base_go_api.Prelude.{
  ℕ, ◌+◌, ◌≡◌, refl, sym, subst, String, Bool, true, false, none, List, [], ◌∷◌, arith, inl, inr,
  str_eq, keep, if◌then◌else◌, ltb,
}
use base_go_api.Prelude.Keeping.{Keeps, bind-Keeps, map_err-Keeps, if-Keeps}
use base_go_api.Prelude.Outcome.{Outcome, ok, err, Call, ◌>>=◌, pure, fail, map_err, attempt}
use base_go_api.Errors.{wrap_internal, is_not_found}
use base_go_api.Sql.Table.{Table, Laws, Apart, In, updated}
use base_go_api.Sql.Results.{missing_or_internal}
use base_go_api.Sessions.Token.{RefreshToken, PasswordResetToken, is_used, User}
use base_go_api.Sessions.Repository.{
  revoke, use_up, create_reset, revoke_resets_by_user, find_user_by_email, delete_expired_resets,
}
use base_go_api.Sessions.Service.{Crypto, Config}
use base_go_api.Sessions.Recovery.{open_reset, request_password_reset}
use base_go_api.Sessions.Kept.{Kept, revoke_resets_by_user-Keeps}
use base_go_api.Sessions.Resets.{UsedUp}

-- Rows that are used up, removed, or of another hash leave the rows of the hash used.
use_up-UsedUp :
    (hash : String) (p : PasswordResetToken → Bool) (now : ℕ) (l : List PasswordResetToken)
    → UsedUp hash l
    → UsedUp hash (updated p (use_up now) l)
use_up-UsedUp hash p now [] h t there named = elim there [ ]
use_up-UsedUp hash p now (u ∷ l) h t (inl same) named = let before = h u (inl refl) in ground arith
use_up-UsedUp hash p now (u ∷ l) h t (inr there) named =
    use_up-UsedUp hash p now l (λ v k. h v (inr k)) t there named

keep-In :
    (p : PasswordResetToken → Bool) (l : List PasswordResetToken) (t : PasswordResetToken)
    → In t (keep p l)
    → In t l
keep-In p [] t h = h
keep-In p (u ∷ l) t h = go (p u) (keep-In p l t) h
  where
    go :
        (b : Bool)
        → (In t (keep p l) → In t l)
        → In t (if b then u ∷ keep p l else keep p l)
        → In t (u ∷ l)
    go true ih (inl same) = inl same
    go true ih (inr rest) = inr (ih rest)
    go false ih rest = inr (ih rest)

module _ (crypto : Crypto) (cfg : Config) {S : Type 0} (tokens : Table S RefreshToken)
    (resets : Table S PasswordResetToken) (users : Table S User) (laws : Laws resets)
    (apart_u : Apart resets laws users) (apart_t : Apart resets laws tokens) (hash : String) where
  open laws use {
    rows, first_rows, create_ok, create_err, update_ok, update_err, delete_ok, delete_err,
  }

  abbrev pub Spent : S → Type 0
  Spent s = UsedUp hash (rows s)

  pub same_rows : {s e : S} → rows e ≡ rows s → Spent s → Spent e
  same_rows same h = subst (UsedUp hash) (sym same) h

  use_up-Spent :
      (p : PasswordResetToken → Bool) (now : ℕ) → Keeps Spent (resets.update p (use_up now))
  use_up-Spent p now s h = go (resets.update p (use_up now) s).0 refl
    where
      go :
          (o : Outcome ℕ)
          → (resets.update p (use_up now) s).0 ≡ o
          → Spent (resets.update p (use_up now) s).1
      go (ok n) e =
          subst (UsedUp hash) (sym (update_ok p (use_up now) s n e).1)
            (use_up-UsedUp hash p now (rows s) h)
      go (err x) e = same_rows (update_err p (use_up now) s x e) h

  delete-Spent : (p : PasswordResetToken → Bool) → Keeps Spent (resets.delete p)
  delete-Spent p s h = go (resets.delete p s).0 refl
    where
      go : (o : Outcome ℕ) → (resets.delete p s).0 ≡ o → Spent (resets.delete p s).1
      go (ok n) e =
          subst (UsedUp hash) (sym (delete_ok p s n e))
            (λ t there. h t (keep-In _ (rows s) t there))
      go (err x) e = same_rows (delete_err p s x e) h

  create-Spent :
      (r : PasswordResetToken) → str_eq r.token_hash hash ≡ false → Keeps Spent (resets.create r)
  create-Spent r other s h = go (resets.create r s).0 refl
    where
      in_new :
          (t : PasswordResetToken)
          → In t (r ∷ rows s)
          → str_eq t.token_hash hash ≡ true
          → is_used t ≡ true
      in_new t (inl same) named = cc
      in_new t (inr there) named = h t there named

      go : (o : Outcome (Unit {0})) → (resets.create r s).0 ≡ o → Spent (resets.create r s).1
      go (ok u) e = subst (UsedUp hash) (sym (create_ok r s e)) in_new
      go (err x) e = same_rows (create_err r s x e) h

  pub kept : Kept Spent tokens resets users
  kept = record {
    creates = λ t plain s h. same_rows (apart_t.create_apart t s) h;
    revokes = λ p now s h. same_rows (apart_t.update_apart p (revoke now) s) h;
    firsts = λ p s h. same_rows (apart_t.first_apart p s) h;
    finds = λ p s h. same_rows (apart_t.find_apart p s) h;
    user_firsts = λ p s h. same_rows (apart_u.first_apart p s) h;
    user_updates = λ p f s h. same_rows (apart_u.update_apart p f s) h;
    reset_firsts = λ p s h. same_rows (first_rows p s) h;
    reset_updates = use_up-Spent;
  }

  pub delete_expired_resets-Keeps : (now : ℕ) → Keeps Spent (delete_expired_resets resets now)
  unfolding delete_expired_resets
  delete_expired_resets-Keeps now =
      let m = resets.delete (λ t. ltb t.expires_at now) in
      bind-Keeps Spent (map_err wrap_internal m) (λ _. pure tt)
        (map_err-Keeps Spent wrap_internal m (delete-Spent (λ t. ltb t.expires_at now)))
        (λ n s h. h)

  -- The generated token, if there is one, has another hash.
  abbrev pub IsOther : Outcome String → Type 0
  IsOther random =
      (token : String) → random ≡ ok token → str_eq (crypto.hash_token token) hash ≡ false

  open_reset-Keeps :
      (revoked issued row : ℕ) (random : Outcome String) (user : User)
      → IsOther random
      → Keeps Spent (open_reset crypto cfg tokens resets users revoked issued row random user)
  unfolding open_reset create_reset
  open_reset-Keeps revoked issued row (err e) user other = λ s h. h
  open_reset-Keeps revoked issued row (ok token) user other =
      let fresh : PasswordResetToken = record {
        id = row;
        user_id = user.id;
        token_hash = crypto.hash_token token;
        expires_at = issued + cfg.password_reset_expiry;
        used_at = none;
      } in
      let created = map_err wrap_internal (map_err wrap_internal (resets.create fresh)) in
      let revokes = attempt (revoke_resets_by_user resets revoked user.id) >>= λ _. pure tt in
      bind-Keeps Spent revokes (λ _. created >>= λ _. pure token)
        (bind-Keeps Spent (attempt (revoke_resets_by_user resets revoked user.id)) (λ _. pure tt)
          (revoke_resets_by_user-Keeps tokens resets users Spent kept revoked user.id) (λ o s h. h))
        (λ _.
          bind-Keeps Spent created (λ _. pure token)
            (map_err-Keeps Spent wrap_internal (map_err wrap_internal (resets.create fresh)) (
              map_err-Keeps Spent wrap_internal (resets.create fresh)
                (create-Spent fresh (other token refl))))
            (λ u s h. h))

  -- What follows the look-up of the user.
  abbrev answered : ℕ → ℕ → ℕ → Outcome String → Outcome User → Call S String
  answered revoked issued row random o = elim o [
    | ok user ↦ open_reset crypto cfg tokens resets users revoked issued row random user
    | err e ↦ if is_not_found e then pure "" else fail e
  ]

  answered-Keeps :
      (revoked issued row : ℕ) (random : Outcome String) (o : Outcome User)
      → IsOther random
      → Keeps Spent (answered revoked issued row random o)
  answered-Keeps revoked issued row random (ok user) other =
      open_reset-Keeps revoked issued row random user other
  answered-Keeps revoked issued row random (err e) other =
      if-Keeps Spent (is_not_found e) (pure "") (fail {A = String} e) (λ s h. h) (λ s h. h)

  pub request_password_reset-Keeps :
      (revoked issued row : ℕ) (random : Outcome String) (email : String)
      → IsOther random
      → Keeps Spent
          (request_password_reset crypto cfg tokens resets users revoked issued row random email)
  unfolding request_password_reset find_user_by_email
  request_password_reset-Keeps revoked issued row random email other =
      let find = users.first (λ u. str_eq u.email email) in
      bind-Keeps Spent (attempt (map_err missing_or_internal find))
        (answered revoked issued row random)
        (map_err-Keeps Spent missing_or_internal find
          (λ s h. same_rows (apart_u.first_apart (λ u. str_eq u.email email) s) h))
        (λ o. answered-Keeps revoked issued row random o other)
