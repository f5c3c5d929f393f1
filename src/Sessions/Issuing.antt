-- ===== src/Sessions/Issuing.antt =====
-- The families of refresh tokens under Login and Refresh of internal/service/auth.go.
use base_go_api.Prelude.{
  ℕ, ◌==◌, ◌≡◌, refl, ap, sym, ◌∙◌, subst, String, Bool, true, false, ◌∷◌, str_eq, ltb, inl, inr,
  Bool-cases,
}
use base_go_api.Prelude.Keeping.{Keeps, map_err-Keeps, bind_leads}
use base_go_api.Prelude.Outcome.{pure, map_err, map_err-eq-ok, map_err_state}
use base_go_api.Sql.Table.{Table, Laws, Apart, In, count}
use base_go_api.Sessions.Token.{RefreshToken, is_revoked, is_in_family, PasswordResetToken, User}
use base_go_api.Sessions.Repository.{
  missing_or_internal, create, find_by_hash, mark_revoked, find_user_by_email, find_user_by_id,
}
use base_go_api.Sessions.Service.{
  Crypto, Config, Draws, lift, unknown, invalid_credentials, invalid_refresh_token, new_token,
  store, draw, issue, login_user, login, rotate, refresh_stored, refresh,
}
use base_go_api.Sessions.Effects.{find_by_hash-ok, mark_revoked-ok}
use base_go_api.Sessions.Families.{IsRotated, rotate-IsRotated, login-IsRotated}
use base_go_api.Sessions.Rotated.{
  Rotated, mark_revoked-Keeps, revoke_family-Keeps, find_by_hash-Keeps, create-Keeps,
}

module _ (crypto : Crypto) (cfg : Config) {S : Type 0} (tokens : Table S RefreshToken)
    (resets : Table S PasswordResetToken) (users : Table S User) (laws : Laws tokens)
    (apart_u : Apart tokens laws users) (apart_r : Apart tokens laws resets) where
  open laws use {rows}
  open apart_u use {first_apart}

  issue-Keeps :
      (t : Draws) (family : ℕ) (user : User) (s : S)
      → Rotated tokens laws s
      → ((hash : String) → IsRotated (new_token cfg t user.id family hash ∷ rows s))
      → Rotated tokens laws (issue crypto cfg tokens resets users t family user s).1
  unfolding issue draw store
  issue-Keeps t family user s h more =
      bind_leads (Rotated tokens laws) (lift (crypto.access_token user))
        (draw crypto cfg tokens resets users t family user) s (λ e x. h)
        (λ access x.
          bind_leads (Rotated tokens laws) (lift t.generated)
            (store crypto cfg tokens resets users t family user access) s (λ e y. h)
            (λ g y.
              let made =
                create-Keeps tokens laws (new_token cfg t user.id family g.1) s h (more g.1) in
              bind_leads (Rotated tokens laws) (create tokens (new_token cfg t user.id family g.1))
                (λ _. pure (user, (access, g.0))) s (λ e z. made) (λ _ z. made)))

  user_rows :
      (p : User → Bool) (s : S) → rows (map_err missing_or_internal (users.first p) s).1 ≡ rows s
  user_rows p s = ap rows (map_err_state missing_or_internal (users.first p) s) ∙ first_apart p s

  user-Keeps :
      (p : User → Bool) → Keeps (Rotated tokens laws) (map_err missing_or_internal (users.first p))
  user-Keeps p s h = subst IsRotated (sym (user_rows p s)) h

  -- A login whose family is new.
  pub login-Keeps :
      (t : Draws) (family : ℕ) (email password : String) (s : S)
      → Rotated tokens laws s
      → count (is_in_family family) (rows s) ≡ 0
      → Rotated tokens laws (login crypto cfg tokens resets users t family email password s).1
  unfolding login login_user find_user_by_email
  login-Keeps t family email password s h fresh =
      let p = λ (u : User). str_eq u.email email in
      let look = map_err missing_or_internal (users.first p) in
      let m = map_err (unknown invalid_credentials) look in
      let same : rows (m s).1 ≡ rows s =
        ap rows (map_err_state (unknown invalid_credentials) look s) ∙ user_rows p s in
      let kept : Rotated tokens laws (m s).1 = subst IsRotated (sym same) h in
      bind_leads (Rotated tokens laws) m
        (login_user crypto cfg tokens resets users t family password) s (λ e x. kept)
        (λ user x. elim (Bool-cases (crypto.verify user.password_hash password)) [
          | inl right ↦ rw right (
              issue-Keeps t family user (m s).1 kept (λ hash.
                login-IsRotated (rows (m s).1) (new_token cfg t user.id family hash) kept
                  (ap (λ l. count (is_in_family family) l) same ∙ fresh)))
          | inr wrong ↦ rw wrong kept
        ])

  rotate-Keeps :
      (t : Draws) (hash : String) (stored : RefreshToken) (user : User) (s : S)
      → Rotated tokens laws s
      → In stored (rows s)
      → str_eq stored.token_hash hash ≡ true
      → is_revoked stored ≡ false
      → Rotated tokens laws (rotate crypto cfg tokens resets users t hash stored user s).1
  unfolding rotate
  rotate-Keeps t hash stored user s h there named alive =
      let m = mark_revoked tokens t.written hash in
      let kept : Rotated tokens laws (m s).1 = mark_revoked-Keeps tokens laws t.written hash s h in
      bind_leads (Rotated tokens laws) m
        (λ _. issue crypto cfg tokens resets users t stored.family_id user) s (λ e x. kept)
        (λ _ marked. issue-Keeps t stored.family_id user (m s).1 kept (λ new.
          subst (λ l. IsRotated (new_token cfg t user.id stored.family_id new ∷ l))
            (sym (mark_revoked-ok tokens laws t.written hash s marked))
            (rotate-IsRotated (λ u. str_eq u.token_hash hash) t.written (rows s) stored
              (new_token cfg t user.id stored.family_id new) h there named alive refl)))

  refresh_stored-Keeps :
      (t : Draws) (hash : String) (stored : RefreshToken) (s : S)
      → Rotated tokens laws s
      → In stored (rows s)
      → str_eq stored.token_hash hash ≡ true
      → Rotated tokens laws (refresh_stored crypto cfg tokens resets users t hash stored s).1
  unfolding refresh_stored find_user_by_id
  refresh_stored-Keeps t hash stored s h there named = elim (Bool-cases (is_revoked stored)) [
    | inl reused ↦ rw reused (revoke_family-Keeps tokens laws t.written stored.family_id s h)
    | inr alive ↦ elim (Bool-cases (ltb stored.expires_at t.checked)) [
      | inl late ↦ rw (alive, late) h
      | inr fresh ↦
          let p = λ (u : User). u.id == stored.user_id in
          let same = user_rows p s in
          let kept = user-Keeps p s h in
          rw (alive, fresh)
            (bind_leads (Rotated tokens laws) (map_err missing_or_internal (users.first p))
              (rotate crypto cfg tokens resets users t hash stored) s (λ e x. kept)
              (λ user x.
                rotate-Keeps t hash stored user _ kept (subst (λ l. In stored l) (sym same) there)
                  named alive))
    ]
  ]

  pub refresh-Keeps :
      (t : Draws) (token : String)
      → Keeps (Rotated tokens laws) (refresh crypto cfg tokens resets users t token)
  unfolding refresh
  refresh-Keeps t token s h =
      let hash = crypto.hash_token token in
      let m = map_err (unknown invalid_refresh_token) (find_by_hash tokens hash) in
      let kept : Rotated tokens laws (m s).1 =
        map_err-Keeps (Rotated tokens laws) (unknown invalid_refresh_token)
          (find_by_hash tokens hash) (find_by_hash-Keeps tokens laws hash) s h in
      bind_leads (Rotated tokens laws) m (refresh_stored crypto cfg tokens resets users t hash) s
        (λ e x. kept)
        (λ stored x.
          let (same, named, there) =
            find_by_hash-ok tokens laws hash s
              (map_err-eq-ok (unknown invalid_refresh_token) (find_by_hash tokens hash) s x) in
          let same2 : rows (m s).1 ≡ rows s =
            ap rows (map_err_state (unknown invalid_refresh_token) (find_by_hash tokens hash) s)
            ∙ same in
          refresh_stored-Keeps t hash stored (m s).1 kept
            (subst (λ l. In stored l) (sym same2) there) named)
