-- ===== src/TwoFactor/Verified.antt =====
-- What a second step of a login that succeeds has found and written.
use base_go_api.Prelude.{ℕ, ◌==◌, ◌≡◌, ap, sym, ◌∙◌, String, true, ◌∷◌, arith, str_eq}
use base_go_api.Prelude.Bytes.{Bytes}
use base_go_api.Prelude.Outcome.{ok, ◌>>=◌, pure, map_err, >>=-eq-ok, map_err-eq-ok, map_err_state}
use base_go_api.Errors.{wrap_internal}
use base_go_api.Sql.Table.{Table, Laws, Apart, In, updated}
use base_go_api.Sql.Effects.{first-ok}
use base_go_api.Sessions.Token.{RefreshToken, is_valid, User}
use base_go_api.Sessions.Repository.{
  create, find_by_hash, mark_revoked, revoke, find_user_by_id, update_user, missing_or_internal,
}
use base_go_api.Sessions.Service.{Crypto, Config, Issued, lift, unknown, new_token}
use base_go_api.Sessions.Effects.{create-ok, find_by_hash-ok, mark_revoked-ok}
use base_go_api.TwoFactor.Ciphers.{Library}
use base_go_api.TwoFactor.Codes.{RecoveryCode}
use base_go_api.TwoFactor.Service.{check_totp}
use base_go_api.TwoFactor.Login.{
  LoginDraws, invalid_pending_token, verified_at, enabled_user, pending_user, read_pending,
  open_session, draw_session, store_session, complete, verify_user, verify_2fa_login,
}

-- A token on which a second step may build.
abbrev pub IsOpen : ℕ → String → RefreshToken → Type 0
IsOpen now hash t =
    (str_eq t.token_hash hash ≡ true) × (t.is_2fa_pending ≡ true) × (is_valid now t ≡ true)

module _ (lib : Library) (key : Bytes) (crypto : Crypto) (cfg : Config) {S : Type 0}
    (tokens : Table S RefreshToken) (users : Table S User) (codes : Table S RecoveryCode)
    (laws : Laws tokens) (laws_u : Laws users) (apart : Apart tokens laws users) where
  open laws use {rows}
  open apart use {first_apart, update_apart}

  enabled_user-ok :
      (user v : User) (s : S)
      → (enabled_user lib key crypto cfg tokens users codes user s).0 ≡ ok v
      → (v ≡ user)
        × (user.two_factor_enabled ≡ true)
        × ((enabled_user lib key crypto cfg tokens users codes user s).1 ≡ s)
  unfolding enabled_user
  enabled_user-ok user v s h = ground arith

  pending_user_branch :
      (now : ℕ) (t : RefreshToken) (s : S) {v : User}
      → (pending_user lib key crypto cfg tokens users codes now t s).0 ≡ ok v
      → (t.is_2fa_pending ≡ true)
        × (is_valid now t ≡ true)
        × (pending_user lib key crypto cfg tokens users codes now t s
            ≡ (find_user_by_id users t.user_id
                  >>= enabled_user lib key crypto cfg tokens users codes)
                s)
  unfolding pending_user
  pending_user_branch now t s h = ground arith

  find_user_by_id-ok :
      (id : ℕ) (s : S) {u : User}
      → (find_user_by_id users id s).0 ≡ ok u
      → (rows (find_user_by_id users id s).1 ≡ rows s) × ((u.id == id) ≡ true)
  unfolding find_user_by_id
  find_user_by_id-ok id s h =
      let (same, passes, there) = first-ok users laws_u missing_or_internal _ s h in
      (
        ap rows (map_err_state missing_or_internal (users.first (λ u. u.id == id)) s)
            ∙ first_apart (λ u. u.id == id) s,
        passes,
      )

  -- The user that a pending token leads to.
  pub read_pending-ok :
      (now : ℕ) (hash : String) (s : S) {v : User}
      → (read_pending lib key crypto cfg tokens users codes now hash s).0 ≡ ok v
      → (t : RefreshToken) × (In t (rows s) × IsOpen now hash t)
        × (((v.id == t.user_id) ≡ true) × (v.two_factor_enabled ≡ true))
        × (rows (read_pending lib key crypto cfg tokens users codes now hash s).1 ≡ rows s)
  unfolding read_pending
  read_pending-ok now hash s {v} h =
      let m = map_err (unknown invalid_pending_token) (find_by_hash tokens hash) in
      let (t, found, same, rest) =
        >>=-eq-ok m (pending_user lib key crypto cfg tokens users codes now) s h in
      let (keeps, named, there) =
        find_by_hash-ok tokens laws hash s
          (map_err-eq-ok (unknown invalid_pending_token) (find_by_hash tokens hash) s found) in
      let before : rows (m s).1 ≡ rows s =
        ap rows (map_err_state (unknown invalid_pending_token) (find_by_hash tokens hash) s)
        ∙ keeps in
      let (is_pending, valid, same2) = pending_user_branch now t (m s).1 rest in
      let n = find_user_by_id users t.user_id in
      let (u, known, same3, rest3) =
        >>=-eq-ok n (enabled_user lib key crypto cfg tokens users codes) (m s).1
          (ap (λ x. x.0) (sym same2) ∙ rest) in
      let (keeps2, owner) = find_user_by_id-ok t.user_id (m s).1 known in
      let (who, enabled, left) = enabled_user-ok u v (n (m s).1).1 rest3 in
      (
        t,
        (there, (named, is_pending, valid)),
        (
          ap (λ (x : User). x.id == t.user_id) who ∙ owner,
          ap (λ (x : User). x.two_factor_enabled) who ∙ enabled,
        ),
        ap (λ x. rows x.1) (same ∙ same2 ∙ same3) ∙ ap rows left ∙ keeps2 ∙ before,
      )

  update_user_rows : (u : User) (s : S) → rows (update_user users u s).1 ≡ rows s
  unfolding update_user
  update_user_rows u s = ground (arith, update_apart (λ v. v.id == u.id) (λ _. u) s)

  store_session-ok :
      (d : LoginDraws) (user : User) (access : String) (g : String × String) (s : S) {r : Issued}
      → (store_session lib key crypto cfg tokens users codes d user access g s).0 ≡ ok r
      → ((r.0 ≡ user) × (r.1.1 ≡ g.0))
        × (rows (store_session lib key crypto cfg tokens users codes d user access g s).1
            ≡ new_token cfg d.session user.id 0 g.1 ∷ rows s)
  unfolding store_session
  store_session-ok d user access g s h =
      let t = new_token cfg d.session user.id 0 g.1 in
      let (u, stored, after, rest) =
        >>=-eq-ok {B = Issued} (create tokens t) (λ _. pure (user, (access, g.0))) s h in
      (ground arith, ap (λ x. rows x.1) after ∙ create-ok tokens laws t s stored)

  open_session-ok :
      (d : LoginDraws) (user : User) (s : S) {r : Issued}
      → (open_session lib key crypto cfg tokens users codes d user s).0 ≡ ok r
      → (g : String × String) × (d.session.generated ≡ ok g)
        × ((r.0 ≡ user) × (r.1.1 ≡ g.0))
        × (rows (open_session lib key crypto cfg tokens users codes d user s).1
            ≡ new_token cfg d.session user.id 0 g.1 ∷ rows s)
  unfolding open_session draw_session
  open_session-ok d user s h =
      let a = map_err wrap_internal (lift (crypto.access_token user)) in
      let (access, signed, same, rest) =
        >>=-eq-ok a (draw_session lib key crypto cfg tokens users codes d user) s h in
      let o = map_err wrap_internal (lift d.session.generated) in
      let (g, drawn, same2, rest2) =
        >>=-eq-ok o (store_session lib key crypto cfg tokens users codes d user access) (a s).1
          rest in
      let (gives, after) = store_session-ok d user access g (o (a s).1).1 rest2 in
      (
        g,
        map_err-eq-ok wrap_internal (lift d.session.generated) (a s).1 drawn,
        gives,
        ap (λ x. rows x.1) (same ∙ same2)
            ∙ after
            ∙ ap (λ l. new_token cfg d.session user.id 0 g.1 ∷ l)
                (ap rows (map_err_state wrap_internal (lift d.session.generated) (a s).1)
                  ∙ ap rows (map_err_state wrap_internal (lift (crypto.access_token user)) s)),
      )

  -- The end of a second step: the pending token is revoked and a session without a family stored.
  pub complete-ok :
      (d : LoginDraws) (hash : String) (user : User) (s : S) {r : Issued}
      → (complete lib key crypto cfg tokens users codes d hash user s).0 ≡ ok r
      → (g : String × String) × (d.session.generated ≡ ok g)
        × ((r.0 ≡ verified_at d.verified user) × (r.1.1 ≡ g.0))
        × (rows (complete lib key crypto cfg tokens users codes d hash user s).1
            ≡ new_token cfg d.session user.id 0 g.1
              ∷ updated (λ t. str_eq t.token_hash hash) (revoke d.session.written) (rows s))
  unfolding complete
  complete-ok d hash user s h =
      let v = verified_at d.verified user in
      let opened = λ (u : Unit {0}). open_session lib key crypto cfg tokens users codes d v in
      let m = mark_revoked tokens d.session.written hash in
      let (u, marked, same, rest) =
        >>=-eq-ok m (λ (x : Unit {0}). update_user users v >>= opened) s h in
      let (w, saved, same2, rest2) = >>=-eq-ok (update_user users v) opened (m s).1 rest in
      let (g, drawn, gives, after) = open_session-ok d v (update_user users v (m s).1).1 rest2 in
      (
        g,
        drawn,
        gives,
        ap (λ x. rows x.1) (same ∙ same2)
            ∙ after
            ∙ ap (λ l. new_token cfg d.session user.id 0 g.1 ∷ l)
                (update_user_rows v (m s).1
                  ∙ mark_revoked-ok tokens laws d.session.written hash s marked),
      )

  -- A second step by a one-time password that succeeds: the token presented was stored, pending and
  -- valid; its user has a second factor, whose secret accepts the code; the rows of the token are
  -- revoked, and the token returned is stored for that user, as one of the family 0.
  pub verify_2fa_login-ok :
      (d : LoginDraws) (token : String) (code : Bytes) (s : S) {r : Issued}
      → (verify_2fa_login lib key crypto cfg tokens users codes d token code s).0 ≡ ok r
      → (stored : RefreshToken) × (In stored (rows s)
          × IsOpen d.session.checked (crypto.hash_token token) stored)
        × ((user : User) × (((user.id == stored.user_id) ≡ true)
              × (user.two_factor_enabled ≡ true)
              × (check_totp lib key user.two_factor_secret code d.at ≡ ok tt)
              × (r.0 ≡ verified_at d.verified user))
            × ((g : String × String) × ((d.session.generated ≡ ok g) × (r.1.1 ≡ g.0))
                × (rows (verify_2fa_login lib key crypto cfg tokens users codes d token code s).1
                    ≡ new_token cfg d.session user.id 0 g.1
                      ∷ updated
                          (λ t. str_eq t.token_hash (crypto.hash_token token))
                          (revoke d.session.written)
                          (rows s))))
  unfolding verify_2fa_login verify_user
  verify_2fa_login-ok d token code s h =
      let hash = crypto.hash_token token in
      let m = read_pending lib key crypto cfg tokens users codes d.session.checked hash in
      let (user, known, same, rest) =
        >>=-eq-ok m (verify_user lib key crypto cfg tokens users codes d hash code) s h in
      let (stored, found, (owner, enabled), before) =
        read_pending-ok d.session.checked hash s known in
      let (u, right, same2, rest2) =
        >>=-eq-ok (lift (check_totp lib key user.two_factor_secret code d.at))
          (λ _. complete lib key crypto cfg tokens users codes d hash user) (m s).1 rest in
      let (g, drawn, (who, given), after) = complete-ok d hash user (m s).1 rest2 in
      (
        stored,
        found,
        (
          user,
          (owner, enabled, ground arith, who),
          (
            g,
            (drawn, given),
            ap (λ x. rows x.1) (same ∙ same2)
                ∙ after
                ∙ ap
                    (λ l.
                      new_token cfg d.session user.id 0 g.1
                      ∷ updated (λ t. str_eq t.token_hash hash) (revoke d.session.written) l)
                    before,
          ),
        ),
      )
