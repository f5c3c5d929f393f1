-- ===== src/Sessions/Revocation.antt =====
-- What Refresh leaves where a revoked token is presented, and RevokeSession: internal/service/auth.go over
-- internal/repository/refresh_token.go.
use base_go_api.Prelude.{
  ℕ, ◌==◌, ◌&&◌, ◌≡◌, refl, ap, sym, ◌∙◌, subst, String, true, false, not, List, [], ◌∷◌, arith,
  str_eq, eq_iff,
}
use base_go_api.Prelude.Outcome.{ok, err, pure}
use base_go_api.Errors.{wrap_internal}
use base_go_api.Sql.Table.{Table, Laws, IsReliable, In, count, updated}
use base_go_api.Sql.Effects.{count-In, update_runs_lem}
use base_go_api.Sessions.Token.{RefreshToken, is_revoked, PasswordResetToken, User}
use base_go_api.Sessions.Repository.{
  revoke, at_least_one, find_by_hash, find_by_id, revoke_family, mark_revoked,
}
use base_go_api.Sessions.Service.{
  Crypto, Config, Draws, refresh_stored, refresh, invalid_refresh_token, not_owner, revoke_owned,
  revoke_session,
}
use base_go_api.Sessions.Effects.{find_by_id-ok}
use base_go_api.Sessions.Families.{live}

module _ {S : Type 0} (tokens : Table S RefreshToken) (laws : Laws tokens)
    (sound : IsReliable tokens laws) where
  open laws use {rows}

  pub revoke_family_runs :
      (now family : ℕ) (s : S)
      → ((revoke_family tokens now family s).0 ≡ ok tt)
        × (rows (revoke_family tokens now family s).1
            ≡ updated (λ t. t.family_id == family && not (is_revoked t)) (revoke now) (rows s))
  unfolding revoke_family
  revoke_family_runs now family s =
      let p = λ (t : RefreshToken). t.family_id == family && not (is_revoked t) in
      let e = update_runs_lem tokens laws sound wrap_internal p (revoke now) (λ n. pure tt) s in
      (
        ap (λ x. x.0) e,
        ap (λ x. rows x.1) e
            ∙ (laws.update_ok p (revoke now) s _ (sound.update_runs p (revoke now) s)).1,
      )

dead_family :
    (now family : ℕ) (l : List RefreshToken)
    → count
        (live family)
        (updated (λ t. t.family_id == family && not (is_revoked t)) (revoke now) l)
      ≡ 0
dead_family now family [] = refl
dead_family now family (t ∷ l) = ground (arith, dead_family now family l)

module _ (crypto : Crypto) (cfg : Config) {S : Type 0} (tokens : Table S RefreshToken)
    (resets : Table S PasswordResetToken) (users : Table S User) (laws : Laws tokens)
    (sound : IsReliable tokens laws) where
  open laws use {rows}

  refresh_runs :
      (t : Draws) (token : String) (s : S) {stored : RefreshToken}
      → (find_by_hash tokens (crypto.hash_token token) s).0 ≡ ok stored
      → refresh crypto cfg tokens resets users t token s
        ≡ refresh_stored crypto cfg tokens resets users t
            (crypto.hash_token token)
            stored
            (find_by_hash tokens (crypto.hash_token token) s).1
  unfolding refresh
  refresh_runs t token s h = ground arith

  refresh_stored_revoked :
      (t : Draws) (hash : String) (stored : RefreshToken) (s : S)
      → is_revoked stored ≡ true
      → ((refresh_stored crypto cfg tokens resets users t hash stored s).0
          ≡ err invalid_refresh_token)
        × ((refresh_stored crypto cfg tokens resets users t hash stored s).1
            ≡ (revoke_family tokens t.written stored.family_id s).1)
  unfolding refresh_stored
  refresh_stored_revoked t hash stored s h = rw h (refl, refl)

  -- On a reliable database: where the token presented to `Refresh` is found revoked, the call is
  -- refused with INVALID_REFRESH_TOKEN, and afterwards no token of its family is live: neither the
  -- thief nor the owner can go on with it.
  pub reuse_ends_family :
      (t : Draws) (token : String) (s : S) {stored : RefreshToken}
      → (find_by_hash tokens (crypto.hash_token token) s).0 ≡ ok stored
      → is_revoked stored ≡ true
      → ((refresh crypto cfg tokens resets users t token s).0 ≡ err invalid_refresh_token)
        × (count (live stored.family_id) (rows (refresh crypto cfg tokens resets users t token s).1)
            ≡ 0)
  reuse_ends_family t token s {stored} found was =
      let s1 = (find_by_hash tokens (crypto.hash_token token) s).1 in
      let (refused, left) = refresh_stored_revoked t (crypto.hash_token token) stored s1 was in
      let (runs, gone) = revoke_family_runs tokens laws sound t.written stored.family_id s1 in
      let same = refresh_runs t token s found in
      (
        ap (λ x. x.0) same ∙ refused,
        ap (λ x. count (live stored.family_id) (rows x.1)) same
            ∙ ap (λ x. count (live stored.family_id) (rows x)) left
            ∙ ap (λ l. count (live stored.family_id) l) gone
            ∙ dead_family t.written stored.family_id (rows s1),
      )

  mark_revoked_runs :
      (now : ℕ) (hash : String) (s : S) (t : RefreshToken)
      → In t (rows s)
      → str_eq t.token_hash hash ≡ true
      → ((mark_revoked tokens now hash s).0 ≡ ok tt)
        × (rows (mark_revoked tokens now hash s).1
            ≡ updated (λ u. str_eq u.token_hash hash) (revoke now) (rows s))
  unfolding mark_revoked
  mark_revoked_runs now hash s t there named =
      let p = λ (u : RefreshToken). str_eq u.token_hash hash in
      let e = update_runs_lem tokens laws sound wrap_internal p (revoke now) at_least_one s in
      let some_there = count-In p (rows s) t there named in
      rw (e, some_there)
        (refl, (laws.update_ok p (revoke now) s _ (sound.update_runs p (revoke now) s)).1)

  revoke_session_runs :
      (now user session : ℕ) (s : S) {t : RefreshToken}
      → (find_by_id tokens session s).0 ≡ ok t
      → revoke_session crypto cfg tokens resets users now user session s
        ≡ revoke_owned crypto cfg tokens resets users now user t (find_by_id tokens session s).1
  unfolding revoke_session
  revoke_session_runs now user session s h = ground arith

  -- On a reliable database: a session that is found is revoked by `RevokeSession`, and only it and the
  -- rows with its hash, if the caller owns it; the call of any other user is refused with FORBIDDEN and
  -- changes no session.
  pub revoke_session_lem :
      (now user session : ℕ) (s : S) {t : RefreshToken}
      → (find_by_id tokens session s).0 ≡ ok t
      → let r = revoke_session crypto cfg tokens resets users now user session s in
        ((t.user_id == user) ≡ true
          → (r.0 ≡ ok tt)
            × (rows r.1 ≡ updated (λ u. str_eq u.token_hash t.token_hash) (revoke now) (rows s)))
        × ((t.user_id == user) ≡ false → (r.0 ≡ err not_owner) × (rows r.1 ≡ rows s))
  unfolding revoke_owned
  revoke_session_lem now user session s {t} found =
      let s1 = (find_by_id tokens session s).1 in
      let (same, named, there) = find_by_id-ok tokens laws session s found in
      let run = revoke_session_runs now user session s found in
      (
        λ own.
            let (done, left) =
              mark_revoked_runs now t.token_hash s1 t (subst (λ l. In t l) (sym same) there)
                ((eq_iff t.token_hash t.token_hash).1 refl) in
            rw (run, own)
              (
                done,
                left
                    ∙ ap (λ l. updated (λ u. str_eq u.token_hash t.token_hash) (revoke now) l) same,
              ),
        λ other. rw (run, other) (refl, same),
      )
