-- ===== src/Sessions/Histories.antt =====
-- Histories of the service: calls in any order, by any users, with any outcome, and what holds of
-- the families of refresh tokens after each.
use base_go_api.Prelude.{
  ℕ, suc, ◌==◌, ◌&&◌, ◌||◌, ◌≡◌, sym, subst, String, Bool, not, List, [], ◌∷◌, str_eq,
  if◌then◌else◌,
}
use base_go_api.Prelude.Keeping.{Keeps, bind-Keeps, map_err-Keeps, if-Keeps}
use base_go_api.Prelude.Outcome.{Outcome, ok, err, ◌>>=◌, pure, fail, map_err, attempt}
use base_go_api.Errors.{wrap_internal}
use base_go_api.Sql.Table.{Table, Laws, Apart, count}
use base_go_api.Sessions.Token.{
  RefreshToken, is_revoked, is_in_family, PasswordResetToken, is_used, User,
}
use base_go_api.Sessions.Repository.{
  use_up, find_by_id, mark_revoked, revoke_all_by_user, find_by_user_id, revoke_resets_by_user,
}
use base_go_api.Sessions.Service.{
  Crypto, Config, Draws, login, logout, refresh, revoke_owned, revoke_session, revoke_others,
  current_hash, revoke_all_other_sessions, not_owner,
}
use base_go_api.Sessions.Families.{IsRotated}
use base_go_api.Sessions.Rotated.{
  Rotated, mark_revoked-Keeps, revoke_all_by_user-Keeps, find_by_id-Keeps, find_by_user_id-Keeps,
}
use base_go_api.Sessions.Issuing.{login-Keeps, refresh-Keeps}

module _ (crypto : Crypto) (cfg : Config) {S : Type 0} (tokens : Table S RefreshToken)
    (resets : Table S PasswordResetToken) (users : Table S User) (laws : Laws tokens)
    (apart_u : Apart tokens laws users) (apart_r : Apart tokens laws resets) where
  open laws use {rows}
  open apart_u use {first_apart}

  logout-Keeps :
      (now later : ℕ) (has_resets : Bool) (user : ℕ)
      → Keeps
          (Rotated tokens laws)
          (logout crypto cfg tokens resets users now later has_resets user)
  unfolding logout revoke_resets_by_user
  logout-Keeps now later has_resets user =
      let q = λ (t : PasswordResetToken). t.user_id == user && not (is_used t) in
      let after = map_err wrap_internal (resets.update q (use_up later)) >>= (λ _. pure tt) in
      let again =
        bind-Keeps (Rotated tokens laws) (map_err wrap_internal (resets.update q (use_up later)))
          (λ _. pure tt)
          (map_err-Keeps (Rotated tokens laws) wrap_internal (resets.update q (use_up later))
            (λ s h. subst IsRotated (sym (apart_r.update_apart q (use_up later) s)) h))
          (λ n s h. h) in
      bind-Keeps (Rotated tokens laws) (revoke_all_by_user tokens now user)
        (λ _. if has_resets then attempt after >>= (λ _. pure tt) else pure tt)
        (revoke_all_by_user-Keeps tokens laws now user)
        (λ u.
          if-Keeps (Rotated tokens laws) has_resets (attempt after >>= (λ _. pure tt)) (pure tt)
            (bind-Keeps (Rotated tokens laws) (attempt after) (λ _. pure tt) again (λ o s h. h))
            (λ s h. h))

  revoke_session-Keeps :
      (now user session : ℕ)
      → Keeps (Rotated tokens laws) (revoke_session crypto cfg tokens resets users now user session)
  unfolding revoke_session revoke_owned
  revoke_session-Keeps now user session =
      bind-Keeps (Rotated tokens laws) (find_by_id tokens session)
        (revoke_owned crypto cfg tokens resets users now user)
        (find_by_id-Keeps tokens laws session)
        (λ t.
          if-Keeps (Rotated tokens laws) (t.user_id == user) (mark_revoked tokens now t.token_hash)
            (fail not_owner) (mark_revoked-Keeps tokens laws now t.token_hash) (λ s h. h))

  revoke_others-Keeps :
      (at : RefreshToken → ℕ) (current : String) (ts : List RefreshToken)
      → Keeps (Rotated tokens laws) (revoke_others crypto cfg tokens resets users at current ts)
  unfolding revoke_others
  revoke_others-Keeps at current [] = λ s h. h
  revoke_others-Keeps at current (t ∷ ts) =
      let rest = revoke_others crypto cfg tokens resets users at current ts in
      let kept = revoke_others-Keeps at current ts in
      let next = λ (result : Outcome (Unit {0})).
        rest >>= λ n. pure (elim result [ ok _ ↦ suc n | err e ↦ n ]) in
      if-Keeps (Rotated tokens laws) (str_eq t.token_hash current || is_revoked t) rest
        (attempt (mark_revoked tokens (at t) t.token_hash) >>= next) kept
        (bind-Keeps (Rotated tokens laws) (attempt (mark_revoked tokens (at t) t.token_hash)) next
          (mark_revoked-Keeps tokens laws (at t) t.token_hash)
          (λ result.
            bind-Keeps (Rotated tokens laws) rest
              (λ n. pure (elim result [ ok _ ↦ suc n | err e ↦ n ])) kept (λ n s h. h)))

  current_hash-Keeps :
      (session : ℕ)
      → Keeps (Rotated tokens laws) (current_hash crypto cfg tokens resets users session)
  unfolding current_hash
  current_hash-Keeps session =
      let answer =
        λ (o : Outcome RefreshToken). pure (elim o [ ok t ↦ t.token_hash | err e ↦ "" ]) in
      if-Keeps (Rotated tokens laws) (session == 0) (pure "")
        (attempt (find_by_id tokens session) >>= answer) (λ s h. h)
        (bind-Keeps (Rotated tokens laws) (attempt (find_by_id tokens session)) answer
          (find_by_id-Keeps tokens laws session) (λ o s h. h))

  revoke_all_other_sessions-Keeps :
      (at : RefreshToken → ℕ) (user session : ℕ)
      → Keeps
          (Rotated tokens laws)
          (revoke_all_other_sessions crypto cfg tokens resets users at user session)
  unfolding revoke_all_other_sessions
  revoke_all_other_sessions-Keeps at user session =
      let rest = λ (ts : List RefreshToken).
        current_hash crypto cfg tokens resets users session >>= λ c.
        revoke_others crypto cfg tokens resets users at c ts in
      bind-Keeps (Rotated tokens laws) (find_by_user_id tokens user) rest
        (find_by_user_id-Keeps tokens laws user)
        (λ ts.
          bind-Keeps (Rotated tokens laws) (current_hash crypto cfg tokens resets users session)
            (λ c. revoke_others crypto cfg tokens resets users at c ts) (current_hash-Keeps session)
            (λ c. revoke_others-Keeps at c ts))

  -- A call of the service, or of the clean-up, and the state after it, with whatever outcome. The
  -- family that `uuid.New` draws for a login is new.
  pub data Step (s : S) (e : S) : Type 0 where
    logged_in :
        (t : Draws) (family : ℕ) (email password : String)
        → count (is_in_family family) (rows s) ≡ 0
        → (login crypto cfg tokens resets users t family email password s).1 ≡ e
        → Step s e
    refreshed :
        (t : Draws) (token : String)
        → (refresh crypto cfg tokens resets users t token s).1 ≡ e
        → Step s e
    logged_out :
        (now later : ℕ) (has_resets : Bool) (user : ℕ)
        → (logout crypto cfg tokens resets users now later has_resets user s).1 ≡ e
        → Step s e
    session_revoked :
        (now user session : ℕ)
        → (revoke_session crypto cfg tokens resets users now user session s).1 ≡ e
        → Step s e
    others_revoked :
        (at : RefreshToken → ℕ) (user session : ℕ)
        → (revoke_all_other_sessions crypto cfg tokens resets users at user session s).1 ≡ e
        → Step s e

  pub data Reach (s : S) : S → Type 0 where
    here : Reach s s
    next : {e f : S} → Reach s e → Step e f → Reach s f

  Step-IsRotated : {s e : S} → Step s e → Rotated tokens laws s → Rotated tokens laws e
  Step-IsRotated {s} (logged_in t family email password fresh h) i = subst (Rotated tokens laws) h (
      login-Keeps crypto cfg tokens resets users laws apart_u apart_r t family email password s i
        fresh)
  Step-IsRotated {s} (refreshed t token h) i =
      subst (Rotated tokens laws) h
        (refresh-Keeps crypto cfg tokens resets users laws apart_u apart_r t token s i)
  Step-IsRotated {s} (logged_out now later has_resets user h) i =
      subst (Rotated tokens laws) h (logout-Keeps now later has_resets user s i)
  Step-IsRotated {s} (session_revoked now user session h) i =
      subst (Rotated tokens laws) h (revoke_session-Keeps now user session s i)
  Step-IsRotated {s} (others_revoked at user session h) i =
      subst (Rotated tokens laws) h (revoke_all_other_sessions-Keeps at user session s i)

  -- Whatever calls were made one after the other, and whatever failed on the way, no family of
  -- refresh tokens has more than one token that is not revoked, if none had at the start and each
  -- login drew a new family.
  pub Reach-IsRotated : {s e : S} → IsRotated (rows s) → Reach s e → IsRotated (rows e)
  Reach-IsRotated i here = i
  Reach-IsRotated i (next r step) = Step-IsRotated step (Reach-IsRotated i r)
