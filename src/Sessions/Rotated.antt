-- ===== src/Sessions/Rotated.antt =====
-- The families of refresh tokens under the calls of internal/repository/refresh_token.go.
use base_go_api.Prelude.{ℕ, ◌==◌, ◌&&◌, ◌≡◌, refl, ap, sym, subst, String, Bool, not, ◌∷◌, str_eq}
use base_go_api.Prelude.Keeping.{Keeps, bind-Keeps, map_err-Keeps, if-Keeps}
use base_go_api.Prelude.Outcome.{Outcome, ok, err, Call, ◌>>=◌, pure, fail, map_err, map_err_state}
use base_go_api.Errors.{not_found, wrap_internal}
use base_go_api.Sql.Table.{Table, Laws}
use base_go_api.Sessions.Token.{RefreshToken, is_revoked}
use base_go_api.Sessions.Repository.{
  at_least_one, revoke, missing_or_internal, create, find_by_hash, find_by_id, mark_revoked,
  revoke_all_by_user, find_by_user_id, revoke_family,
}
use base_go_api.Sessions.Families.{IsRotated, revoke-IsRotated}

module _ {S : Type 0} (tokens : Table S RefreshToken) (laws : Laws tokens) where
  open laws use {rows, first_rows, find_rows, create_ok, create_err, update_ok, update_err}

  -- The table is rotated.
  abbrev pub Rotated : S → Type 0
  Rotated s = IsRotated (rows s)

  update-Keeps : (p : RefreshToken → Bool) (now : ℕ) → Keeps Rotated (tokens.update p (revoke now))
  update-Keeps p now s h = go ((tokens.update p (revoke now) s).0) refl
    where
      go :
          (o : Outcome ℕ)
          → (tokens.update p (revoke now) s).0 ≡ o
          → Rotated (tokens.update p (revoke now) s).1
      go (ok n) e =
          subst IsRotated (sym (update_ok p (revoke now) s n e).1)
            (revoke-IsRotated p now (rows s) h)
      go (err x) e = subst IsRotated (sym (update_err p (revoke now) s x e)) h

  first-Keeps : (p : RefreshToken → Bool) → Keeps Rotated (tokens.first p)
  first-Keeps p s h = subst IsRotated (sym (first_rows p s)) h

  update_then-Keeps :
      (p : RefreshToken → Bool) (now : ℕ) (k : ℕ → Call S (Unit {0}))
      → ((n : ℕ) → Keeps Rotated (k n))
      → Keeps Rotated (map_err wrap_internal (tokens.update p (revoke now)) >>= k)
  update_then-Keeps p now k h =
      bind-Keeps Rotated (map_err wrap_internal (tokens.update p (revoke now))) k
        (map_err-Keeps Rotated wrap_internal (tokens.update p (revoke now)) (update-Keeps p now)) h

  pub mark_revoked-Keeps : (now : ℕ) (hash : String) → Keeps Rotated (mark_revoked tokens now hash)
  unfolding mark_revoked
  mark_revoked-Keeps now hash =
      update_then-Keeps (λ t. str_eq t.token_hash hash) now at_least_one
        (λ n. if-Keeps Rotated (n == 0) (fail not_found) (pure tt) (λ s h. h) (λ s h. h))

  pub revoke_all_by_user-Keeps : (now user : ℕ) → Keeps Rotated (revoke_all_by_user tokens now user)
  unfolding revoke_all_by_user
  revoke_all_by_user-Keeps now user =
      update_then-Keeps (λ t. t.user_id == user && not (is_revoked t)) now (λ _. pure tt)
        (λ n s h. h)

  pub revoke_family-Keeps : (now family : ℕ) → Keeps Rotated (revoke_family tokens now family)
  unfolding revoke_family
  revoke_family-Keeps now family =
      update_then-Keeps (λ t. t.family_id == family && not (is_revoked t)) now (λ _. pure tt)
        (λ n s h. h)

  pub find_by_hash-Keeps : (hash : String) → Keeps Rotated (find_by_hash tokens hash)
  unfolding find_by_hash
  find_by_hash-Keeps hash =
      let p = λ (t : RefreshToken). str_eq t.token_hash hash in
      map_err-Keeps Rotated missing_or_internal (tokens.first p) (first-Keeps p)

  pub find_by_id-Keeps : (id : ℕ) → Keeps Rotated (find_by_id tokens id)
  unfolding find_by_id
  find_by_id-Keeps id =
      let p = λ (t : RefreshToken). t.id == id in
      map_err-Keeps Rotated missing_or_internal (tokens.first p) (first-Keeps p)

  pub find_by_user_id-Keeps : (user : ℕ) → Keeps Rotated (find_by_user_id tokens user)
  unfolding find_by_user_id
  find_by_user_id-Keeps user =
      let p = λ (t : RefreshToken). t.user_id == user in
      map_err-Keeps Rotated wrap_internal (tokens.find p)
        (λ s h. subst IsRotated (sym (find_rows p s)) h)

  -- A token of which each family allows one more.
  pub create-Keeps :
      (t : RefreshToken) (s : S)
      → Rotated s
      → IsRotated (t ∷ rows s)
      → Rotated (create tokens t s).1
  unfolding create
  create-Keeps t s h more =
      subst IsRotated (sym (ap rows (map_err_state wrap_internal (tokens.create t) s)))
        (go (tokens.create t s).0 refl)
    where
      go : (o : Outcome (Unit {0})) → (tokens.create t s).0 ≡ o → Rotated (tokens.create t s).1
      go (ok tt) e = subst IsRotated (sym (create_ok t s e)) more
      go (err x) e = subst IsRotated (sym (create_err t s x e)) h
