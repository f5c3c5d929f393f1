-- ===== src/TwoFactor/Pending.antt =====
-- Pending tokens under the methods of internal/service/auth.go and of internal/service/two_factor.go.
use base_go_api.Prelude.{
  ℕ, ◌≡◌, refl, sym, subst, String, Bool, false, not, List, [], ◌∷◌, All, arith, inl, inr,
  if◌then◌else◌,
}
use base_go_api.Prelude.Bytes.{Bytes}
use base_go_api.Prelude.Keeping.{Keeps, bind-Keeps, map_err-Keeps, if-Keeps, bind_leads}
use base_go_api.Prelude.Outcome.{Outcome, ok, err, Call, ◌>>=◌, map_err, pure, fail, >>=-eq-ok}
use base_go_api.Sql.Table.{Table, Laws, Apart, In, updated}
use base_go_api.Sessions.Token.{RefreshToken, PasswordResetToken, User, is_valid}
use base_go_api.Sessions.Repository.{revoke, use_up, find_by_hash, find_user_by_id}
use base_go_api.Sessions.Service.{
  Crypto, Config, Draws, Issued, login, logout, refresh, revoke_session, revoke_all_other_sessions,
  unknown,
}
use base_go_api.Sessions.Recovery.{reset_password}
use base_go_api.TwoFactor.Ciphers.{Library}
use base_go_api.TwoFactor.Codes.{RecoveryCode}
use base_go_api.TwoFactor.Login.{
  LoginDraws, read_pending, verify_user, recover_user, verify_2fa_login, use_recovery_code,
  invalid_pending_token, token_expired, enabled_user, pending_user,
}
use base_go_api.TwoFactor.Service.{not_enabled}
use base_go_api.Sessions.Kept.{Kept, find_by_hash-Keeps, find_user_by_id-Keeps}
use base_go_api.Sessions.Calls.{
  login-Keeps, refresh-Keeps, logout-Keeps, revoke_session-Keeps, revoke_all_other_sessions-Keeps,
  reset_password-Keeps,
}
use base_go_api.TwoFactor.Verified.{read_pending-ok}

abbrev pub NonePending : List RefreshToken → Type 0
NonePending = All (λ t. t.is_2fa_pending ≡ false)

updated-NonePending :
    (p : RefreshToken → Bool) (now : ℕ) (l : List RefreshToken)
    → NonePending l
    → NonePending (updated p (revoke now) l)
updated-NonePending p now [] h = h
updated-NonePending p now (t ∷ l) h = (ground arith, updated-NonePending p now l h.1)

In-NonePending :
    (l : List RefreshToken) (t : RefreshToken) → NonePending l → In t l → t.is_2fa_pending ≡ false
In-NonePending [] t h there = elim there [ ]
In-NonePending (u ∷ l) t h (inl same) = cc
In-NonePending (u ∷ l) t h (inr there) = In-NonePending l t h.1 there

module _ (lib : Library) (key : Bytes) (crypto : Crypto) (cfg : Config) {S : Type 0}
    (tokens : Table S RefreshToken) (resets : Table S PasswordResetToken) (users : Table S User)
    (codes : Table S RecoveryCode) (laws : Laws tokens) (laws_u : Laws users)
    (apart_u : Apart tokens laws users) (apart_r : Apart tokens laws resets) where
  open laws use {rows, create_ok, create_err, first_rows, find_rows, update_ok, update_err}

  abbrev pub Undecided : S → Type 0
  Undecided s = NonePending (rows s)

  creates : (t : RefreshToken) → t.is_2fa_pending ≡ false → Keeps Undecided (tokens.create t)
  creates t plain s h = go (tokens.create t s).0 refl
    where
      go : (o : Outcome (Unit {0})) → (tokens.create t s).0 ≡ o → Undecided (tokens.create t s).1
      go (ok u) e = subst NonePending (sym (create_ok t s e)) (plain, h)
      go (err x) e = subst NonePending (sym (create_err t s x e)) h

  revokes : (p : RefreshToken → Bool) (now : ℕ) → Keeps Undecided (tokens.update p (revoke now))
  revokes p now s h = go (tokens.update p (revoke now) s).0 refl
    where
      go :
          (o : Outcome ℕ)
          → (tokens.update p (revoke now) s).0 ≡ o
          → Undecided (tokens.update p (revoke now) s).1
      go (ok n) e =
          subst NonePending (sym (update_ok p (revoke now) s n e).1)
            (updated-NonePending p now (rows s) h)
      go (err x) e = subst NonePending (sym (update_err p (revoke now) s x e)) h

  statements-Kept : Kept Undecided tokens resets users
  statements-Kept = record {
    creates = creates;
    revokes = revokes;
    firsts = λ p s h. subst NonePending (sym (first_rows p s)) h;
    finds = λ p s h. subst NonePending (sym (find_rows p s)) h;
    user_firsts = λ p s h. subst NonePending (sym (apart_u.first_apart p s)) h;
    user_updates = λ p f s h. subst NonePending (sym (apart_u.update_apart p f s)) h;
    reset_firsts = λ p s h. subst NonePending (sym (apart_r.first_apart p s)) h;
    reset_updates = λ p now s h. subst NonePending (sym (apart_r.update_apart p (use_up now) s)) h;
  }

  nobody_waits :
      (now : ℕ) (hash : String) (s : S) {v : User}
      → Undecided s
      → ¬ ((read_pending lib key crypto cfg tokens users codes now hash s).0 ≡ ok v)
  nobody_waits now hash s i h =
      let (t, (there, (named, waits, valid)), owned, same) =
        read_pending-ok lib key crypto cfg tokens users codes laws laws_u apart_u now hash s h in
      let plain = In-NonePending (rows s) t i there in cc

  -- A second step reads, and ends there.
  pending_user-Keeps :
      (now : ℕ) (t : RefreshToken)
      → Keeps Undecided (pending_user lib key crypto cfg tokens users codes now t)
  unfolding pending_user enabled_user
  pending_user-Keeps now t =
      let checked = enabled_user lib key crypto cfg tokens users codes in
      let read = find_user_by_id users t.user_id >>= checked in
      if-Keeps Undecided (not t.is_2fa_pending) (fail {A = User} invalid_pending_token)
        (if not (is_valid now t) then fail token_expired else read) (λ s h. h)
        (if-Keeps Undecided (not (is_valid now t)) (fail {A = User} token_expired) read (λ s h. h)
          (bind-Keeps Undecided (find_user_by_id users t.user_id) checked
            (find_user_by_id-Keeps tokens resets users Undecided statements-Kept t.user_id)
            (λ u.
              if-Keeps Undecided (not u.two_factor_enabled) (fail {A = User} not_enabled) (pure u)
                (λ s h. h) (λ s h. h))))

  read_pending-Keeps :
      (now : ℕ) (hash : String)
      → Keeps Undecided (read_pending lib key crypto cfg tokens users codes now hash)
  unfolding read_pending
  read_pending-Keeps now hash =
      bind-Keeps Undecided (map_err (unknown invalid_pending_token) (find_by_hash tokens hash))
        (pending_user lib key crypto cfg tokens users codes now)
        (map_err-Keeps Undecided (unknown invalid_pending_token) (find_by_hash tokens hash)
          (find_by_hash-Keeps tokens resets users Undecided statements-Kept hash))
        (pending_user-Keeps now)

  second_step-Keeps :
      (now : ℕ) (hash : String) (rest : User → Call S Issued)
      → Keeps Undecided (read_pending lib key crypto cfg tokens users codes now hash >>= rest)
  second_step-Keeps now hash rest s i =
      bind_leads Undecided (read_pending lib key crypto cfg tokens users codes now hash) rest s
        (λ e x. read_pending-Keeps now hash s i) (λ v x. absurd (nobody_waits now hash s i x))

  -- A call, with whatever outcome, or a statement on another table: an account created, a second factor
  -- set up, enabled or disabled.
  pub data Step (s : S) (e : S) : Type 0 where
    logged_in :
        (t : Draws) (family : ℕ) (email password : String)
        → (login crypto cfg tokens resets users t family email password s).1 ≡ e
        → Step s e
    refreshed :
        (t : Draws) (token : String)
        → (refresh crypto cfg tokens resets users t token s).1 ≡ e
        → Step s e
    logged_out :
        (now later : ℕ) (has_resets : Bool) (user : ℕ)
        → (logout crypto cfg tokens resets users now later has_resets user s).1 ≡ e
        → Step s e
    session_revoked :
        (now user session : ℕ)
        → (revoke_session crypto cfg tokens resets users now user session s).1 ≡ e
        → Step s e
    others_revoked :
        (at : RefreshToken → ℕ) (user session : ℕ)
        → (revoke_all_other_sessions crypto cfg tokens resets users at user session s).1 ≡ e
        → Step s e
    password_reset :
        (checked used revoked : ℕ) (token password : String)
        → (reset_password crypto cfg tokens resets users checked used revoked token password s).1
          ≡ e
        → Step s e
    verified :
        (d : LoginDraws) (token : String) (code : Bytes)
        → (verify_2fa_login lib key crypto cfg tokens users codes d token code s).1 ≡ e
        → Step s e
    recovered :
        (d : LoginDraws) (salt : Bytes) (token : String) (code : Bytes)
        → (use_recovery_code lib key crypto cfg tokens users codes d salt token code s).1 ≡ e
        → Step s e
    elsewhere : rows e ≡ rows s → Step s e

  pub data Reach (s : S) : S → Type 0 where
    here : Reach s s
    next : {e f : S} → Reach s e → Step e f → Reach s f

  Step-Undecided : {s e : S} → Step s e → Undecided s → Undecided e
  unfolding verify_2fa_login use_recovery_code
  Step-Undecided {s} (logged_in t family email password h) i = subst Undecided h (
      login-Keeps crypto cfg tokens resets users Undecided statements-Kept t family email password s
        i)
  Step-Undecided {s} (refreshed t token h) i =
      subst Undecided h
        (refresh-Keeps crypto cfg tokens resets users Undecided statements-Kept t token s i)
  Step-Undecided {s} (logged_out now later has_resets user h) i = subst Undecided h (
      logout-Keeps crypto cfg tokens resets users Undecided statements-Kept now later has_resets
        user s i)
  Step-Undecided {s} (session_revoked now user session h) i = subst Undecided h (
      revoke_session-Keeps crypto cfg tokens resets users Undecided statements-Kept now user session
        s i)
  Step-Undecided {s} (others_revoked at user session h) i = subst Undecided h (
      revoke_all_other_sessions-Keeps crypto cfg tokens resets users Undecided statements-Kept at
        user session s i)
  Step-Undecided {s} (password_reset checked used revoked token password h) i = subst Undecided h (
      reset_password-Keeps crypto cfg tokens resets users Undecided statements-Kept checked used
        revoked token password s i)
  Step-Undecided {s} (verified d token code h) i =
      let hash = crypto.hash_token token in
      subst Undecided h (
        second_step-Keeps d.session.checked hash
          (verify_user lib key crypto cfg tokens users codes d hash code) s i)
  Step-Undecided {s} (recovered d salt token code h) i =
      let hash = crypto.hash_token token in
      subst Undecided h (
        second_step-Keeps d.session.checked hash
          (recover_user lib key crypto cfg tokens users codes d salt hash code) s i)
  Step-Undecided (elsewhere same) i = subst NonePending (sym same) i

  Reach-Undecided : {s e : S} → Undecided s → Reach s e → Undecided e
  Reach-Undecided i here = i
  Reach-Undecided i (next r step) = Step-Undecided step (Reach-Undecided i r)

  -- From a database with no pending token, whatever sessions are opened, refreshed and closed, passwords
  -- reset and second steps tried, and whatever else is written to the other tables, no second step of
  -- a login succeeds afterwards, neither by a one-time password nor by a recovery code.
  pub second_step_refused :
      {s e : S}
      → NonePending (rows s)
      → Reach s e
      → (d : LoginDraws) (salt : Bytes) (token : String) (code : Bytes) (r : Issued)
      → (¬ ((verify_2fa_login lib key crypto cfg tokens users codes d token code e).0 ≡ ok r))
        × (¬ (
            (use_recovery_code lib key crypto cfg tokens users codes d salt token code e).0 ≡ ok r))
  unfolding verify_2fa_login use_recovery_code
  second_step_refused {s} {e} i reached d salt token code r =
      let hash = crypto.hash_token token in
      let m = read_pending lib key crypto cfg tokens users codes d.session.checked hash in
      let none_left = Reach-Undecided i reached in
      (
        λ h.
            let (v, known, same, rest) =
              >>=-eq-ok m (verify_user lib key crypto cfg tokens users codes d hash code) e h in
            nobody_waits d.session.checked hash e none_left known,
        λ h.
            let (v, known, same, rest) =
              >>=-eq-ok m (recover_user lib key crypto cfg tokens users codes d salt hash code) e
                h in
            nobody_waits d.session.checked hash e none_left known,
      )
