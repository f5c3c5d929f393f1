-- ===== src/Sessions/Effects.antt =====
-- What the calls of the authentication service that succeed have done to the table of refresh tokens.
use base_go_api.Prelude.{
  ℕ, ◌==◌, ◌&&◌, ◌≡◌, refl, ap, sym, ◌∙◌, String, true, false, not, ◌∷◌, arith, str_eq, ltb,
}
use base_go_api.Prelude.Outcome.{ok, ◌>>=◌, map_err, >>=-eq-ok, map_err-eq-ok, map_err_state, pure}
use base_go_api.Errors.{wrap_internal}
use base_go_api.Sql.Table.{Table, Laws, Apart, In, updated}
use base_go_api.Sql.Effects.{first-ok, update-ok}
use base_go_api.Sessions.Token.{RefreshToken, is_revoked, PasswordResetToken, User}
use base_go_api.Sessions.Repository.{
  create, find_by_hash, find_by_id, mark_revoked, revoke_all_by_user, revoke, at_least_one,
  missing_or_internal, find_user_by_email, find_user_by_id,
}
use base_go_api.Sessions.Service.{
  Crypto, Config, Draws, Issued, lift, new_token, issue, draw, store, login_user, login, rotate,
  refresh_stored, refresh, unknown, invalid_credentials, invalid_refresh_token,
}

module _ {S : Type 0} (tokens : Table S RefreshToken) (laws : Laws tokens) where
  open laws use {rows, create_ok, first_rows, first_ok, update_ok}

  pub create-ok :
      (t : RefreshToken) (s : S)
      → (create tokens t s).0 ≡ ok tt
      → rows (create tokens t s).1 ≡ t ∷ rows s
  unfolding create
  create-ok t s h = ground (arith, create_ok t s)

  pub find_by_hash-ok :
      (hash : String) (s : S) {t : RefreshToken}
      → (find_by_hash tokens hash s).0 ≡ ok t
      → (rows (find_by_hash tokens hash s).1 ≡ rows s)
        × (str_eq t.token_hash hash ≡ true)
        × In t (rows s)
  unfolding find_by_hash
  find_by_hash-ok hash s h = first-ok tokens laws missing_or_internal _ s h

  pub find_by_id-ok :
      (id : ℕ) (s : S) {t : RefreshToken}
      → (find_by_id tokens id s).0 ≡ ok t
      → (rows (find_by_id tokens id s).1 ≡ rows s) × ((t.id == id) ≡ true) × In t (rows s)
  unfolding find_by_id
  find_by_id-ok id s h = first-ok tokens laws missing_or_internal _ s h

  pub mark_revoked-ok :
      (now : ℕ) (hash : String) (s : S)
      → (mark_revoked tokens now hash s).0 ≡ ok tt
      → rows (mark_revoked tokens now hash s).1
        ≡ updated (λ t. str_eq t.token_hash hash) (revoke now) (rows s)
  unfolding mark_revoked
  mark_revoked-ok now hash s h =
      update-ok tokens laws wrap_internal _ _ at_least_one s (λ n u. ground arith) h

  pub revoke_all_by_user-ok :
      (now user : ℕ) (s : S)
      → (revoke_all_by_user tokens now user s).0 ≡ ok tt
      → rows (revoke_all_by_user tokens now user s).1
        ≡ updated (λ t. t.user_id == user && not (is_revoked t)) (revoke now) (rows s)
  unfolding revoke_all_by_user
  revoke_all_by_user-ok now user s h =
      update-ok tokens laws wrap_internal _ _ (λ n. pure tt) s (λ n u. refl) h

module _ (crypto : Crypto) (cfg : Config) {S : Type 0} (tokens : Table S RefreshToken)
    (resets : Table S PasswordResetToken) (users : Table S User) (laws : Laws tokens) where
  open laws use {rows}

  pub issue-ok :
      (t : Draws) (family : ℕ) (user : User) (s : S) {r : Issued}
      → (issue crypto cfg tokens resets users t family user s).0 ≡ ok r
      → (g : String × String) × (t.generated ≡ ok g)
        × ((r.0 ≡ user) × (r.1.1 ≡ g.0))
        × (rows (issue crypto cfg tokens resets users t family user s).1
            ≡ new_token cfg t user.id family g.1 ∷ rows s)
  unfolding issue draw store
  issue-ok t family user s h =
      let (access, signed, same, rest) =
        >>=-eq-ok (lift (crypto.access_token user))
          (draw crypto cfg tokens resets users t family user) s h in
      let (g, drawn, same2, rest2) =
        >>=-eq-ok (lift t.generated) (store crypto cfg tokens resets users t family user access) s
          rest in
      (
        g,
        drawn,
        ground arith,
        rw (same, same2)
            (ground (arith, create-ok tokens laws (new_token cfg t user.id family g.1) s)),
      )

  login_user-ok :
      (t : Draws) (family : ℕ) (password : String) (user : User) (s : S) {r : Issued}
      → (login_user crypto cfg tokens resets users t family password user s).0 ≡ ok r
      → (crypto.verify user.password_hash password ≡ true)
        × (login_user crypto cfg tokens resets users t family password user s
            ≡ issue crypto cfg tokens resets users t family user s)
  unfolding login_user
  login_user-ok t family password user s h = ground arith

  -- A stored token that is rotated: it is neither revoked nor expired.
  refresh_stored-ok :
      (t : Draws) (hash : String) (stored : RefreshToken) (s : S) {r : Issued}
      → (refresh_stored crypto cfg tokens resets users t hash stored s).0 ≡ ok r
      → (is_revoked stored ≡ false)
        × (ltb stored.expires_at t.checked ≡ false)
        × (refresh_stored crypto cfg tokens resets users t hash stored s
            ≡ (find_user_by_id users stored.user_id
                  >>= rotate crypto cfg tokens resets users t hash stored)
                s)
  unfolding refresh_stored
  refresh_stored-ok t hash stored s h = ground arith

  pub rotate-ok :
      (t : Draws) (hash : String) (stored : RefreshToken) (user : User) (s : S) {r : Issued}
      → (rotate crypto cfg tokens resets users t hash stored user s).0 ≡ ok r
      → (g : String × String) × (t.generated ≡ ok g)
        × ((r.0 ≡ user) × (r.1.1 ≡ g.0))
        × (rows (rotate crypto cfg tokens resets users t hash stored user s).1
            ≡ new_token cfg t user.id stored.family_id g.1
              ∷ updated (λ u. str_eq u.token_hash hash) (revoke t.written) (rows s))
  unfolding rotate
  rotate-ok t hash stored user s h =
      let m = mark_revoked tokens t.written hash in
      let (u, marked, same, rest) =
        >>=-eq-ok m (λ _. issue crypto cfg tokens resets users t stored.family_id user) s h in
      let (g, drawn, gives, after) = issue-ok t stored.family_id user (m s).1 rest in
      (
        g,
        drawn,
        gives,
        ap (λ x. rows x.1) same
            ∙ after
            ∙ ap (λ l. new_token cfg t user.id stored.family_id g.1 ∷ l)
                (mark_revoked-ok tokens laws t.written hash s marked),
      )

  module _ (laws_u : Laws users) (apart : Apart tokens laws users) where
    open apart use {first_apart}

    find_user_by_id-ok :
        (id : ℕ) (s : S) {u : User}
        → (find_user_by_id users id s).0 ≡ ok u
        → (rows (find_user_by_id users id s).1 ≡ rows s) × ((u.id == id) ≡ true)
    unfolding find_user_by_id
    find_user_by_id-ok id s h =
        let (same, passes, there) = first-ok users laws_u missing_or_internal _ s h in
        (
          ap rows (map_err_state missing_or_internal (users.first (λ u. u.id == id)) s)
              ∙ first_apart (λ u. u.id == id) s,
          passes,
        )

    -- `Login` that succeeds: the password is that of the user who is returned, and the refresh token
    -- returned is stored as the only token of its family that this call writes.
    pub login-ok :
        (t : Draws) (family : ℕ) (email password : String) (s : S) {r : Issued}
        → (login crypto cfg tokens resets users t family email password s).0 ≡ ok r
        → (g : String × String) × (t.generated ≡ ok g)
          × ((crypto.verify r.0.password_hash password ≡ true) × (r.1.1 ≡ g.0))
          × (rows (login crypto cfg tokens resets users t family email password s).1
              ≡ new_token cfg t r.0.id family g.1 ∷ rows s)
    unfolding login find_user_by_email
    login-ok t family email password s {r} h =
        let m = map_err (unknown invalid_credentials) (find_user_by_email users email) in
        let (user, found, same, rest) =
          >>=-eq-ok m (login_user crypto cfg tokens resets users t family password) s h in
        let before : rows (m s).1 ≡ rows s =
          ground (arith, first_apart (λ u. str_eq u.email email) s) in
        let (right, same2) = login_user-ok t family password user (m s).1 rest in
        let logged : (issue crypto cfg tokens resets users t family user (m s).1).0 ≡ ok r =
          ap (λ x. x.0) (sym same2) ∙ rest in
        let (g, drawn, (who, token), after) = issue-ok t family user (m s).1 logged in
        (
          g,
          drawn,
          (ap (λ (v : User). crypto.verify v.password_hash password) who ∙ right, token),
          ap (λ x. rows x.1) (same ∙ same2)
              ∙ after
              ∙ ap (λ l. new_token cfg t user.id family g.1 ∷ l) before
              ∙ ap (λ (v : User). new_token cfg t v.id family g.1 ∷ rows s) (sym who),
        )

    -- `Refresh` that succeeds: the token presented was stored, not revoked and not expired; it is
    -- revoked, and its successor stored for the same user in the same family.
    pub refresh-ok :
        (t : Draws) (token : String) (s : S) {r : Issued}
        → (refresh crypto cfg tokens resets users t token s).0 ≡ ok r
        → (stored : RefreshToken) × (In stored (rows s)
            × (str_eq stored.token_hash (crypto.hash_token token) ≡ true))
          × ((is_revoked stored ≡ false) × (ltb stored.expires_at t.checked ≡ false))
          × ((g : String × String) × ((t.generated ≡ ok g)
                × (r.1.1 ≡ g.0)
                × ((r.0.id == stored.user_id) ≡ true))
              × (rows (refresh crypto cfg tokens resets users t token s).1
                  ≡ new_token cfg t r.0.id stored.family_id g.1
                    ∷ updated
                        (λ u. str_eq u.token_hash (crypto.hash_token token))
                        (revoke t.written)
                        (rows s)))
    unfolding refresh
    refresh-ok t token s {r} h =
        let hash = crypto.hash_token token in
        let m = map_err (unknown invalid_refresh_token) (find_by_hash tokens hash) in
        let (stored, found, same, rest) =
          >>=-eq-ok m (refresh_stored crypto cfg tokens resets users t hash) s h in
        let (keeps, passes, there) =
          find_by_hash-ok tokens laws hash s
            (map_err-eq-ok (unknown invalid_refresh_token) (find_by_hash tokens hash) s found) in
        let before : rows (m s).1 ≡ rows s =
          ap rows (map_err_state (unknown invalid_refresh_token) (find_by_hash tokens hash) s)
          ∙ keeps in
        let (live, fresh, same2) = refresh_stored-ok t hash stored (m s).1 rest in
        let n = find_user_by_id users stored.user_id in
        let (user, known, same3, rest3) =
          >>=-eq-ok n (rotate crypto cfg tokens resets users t hash stored) (m s).1
            (ap (λ x. x.0) (sym same2) ∙ rest) in
        let (keeps2, owner) = find_user_by_id-ok stored.user_id (m s).1 known in
        let successor = λ (v : User) (x : String). new_token cfg t v.id stored.family_id x in
        let used_up = λ (u : RefreshToken). str_eq u.token_hash hash in
        let (g, drawn, (who, given), after) = rotate-ok t hash stored user (n (m s).1).1 rest3 in
        (
          stored,
          (there, passes),
          (live, fresh),
          (
            g,
            (drawn, given, ap (λ (v : User). v.id == stored.user_id) who ∙ owner),
            ap (λ x. rows x.1) (same ∙ same2 ∙ same3)
                ∙ after
                ∙ ap (λ l. successor user g.1 ∷ updated used_up (revoke t.written) l)
                    (keeps2 ∙ before)
                ∙ ap (λ (v : User). successor v g.1 ∷ updated used_up (revoke t.written) (rows s))
                    (sym who),
          ),
        )
