-- ===== src/Sessions/Spent.antt =====
-- What becomes of a reset token after it has reset a password: the later calls of
-- internal/service/auth.go, in any order.
use base_go_api.Prelude.{ℕ, ◌≡◌, subst, String, Bool}
use base_go_api.Prelude.Outcome.{Outcome, ok, err}
use base_go_api.Sql.Table.{Table, Laws, IsReliable, Apart}
use base_go_api.Sessions.Token.{RefreshToken, PasswordResetToken, User}
use base_go_api.Sessions.Repository.{delete_expired_resets}
use base_go_api.Sessions.Service.{
  Crypto, Config, Draws, login, logout, refresh, revoke_session, revoke_all_other_sessions,
  invalid_reset_token,
}
use base_go_api.Sessions.Recovery.{request_password_reset, reset_password}
use base_go_api.Sessions.Kept.{Kept}
use base_go_api.Sessions.Calls.{
  login-Keeps, refresh-Keeps, logout-Keeps, revoke_session-Keeps, revoke_all_other_sessions-Keeps,
  reset_password-Keeps,
}
use base_go_api.Sessions.Resets.{used_refused, reset_password-Closed}
use base_go_api.Sessions.Requests.{
  Spent, same_rows, kept, IsOther, delete_expired_resets-Keeps, request_password_reset-Keeps,
}

module _ (crypto : Crypto) (cfg : Config) {S : Type 0} (tokens : Table S RefreshToken)
    (resets : Table S PasswordResetToken) (users : Table S User) (laws : Laws resets)
    (apart_u : Apart resets laws users) (apart_t : Apart resets laws tokens) (hash : String) where
  open laws use {rows}

  abbrev AllSpent : S → Type 0
  AllSpent = Spent crypto cfg tokens resets users laws apart_u apart_t hash

  statements : Kept AllSpent tokens resets users
  statements = kept crypto cfg tokens resets users laws apart_u apart_t hash

  -- A call of the service or of the clean-up, with whatever outcome, or a statement on another table. A
  -- reset that is requested draws a token with another hash.
  pub data Step (s : S) (e : S) : Type 0 where
    requested :
        (revoked issued row : ℕ) (random : Outcome String) (email : String)
        → IsOther crypto cfg tokens resets users laws apart_u apart_t hash random
        → (request_password_reset crypto cfg tokens resets users revoked issued row random email
            s).1
          ≡ e
        → Step s e
    password_reset :
        (checked used revoked : ℕ) (token password : String)
        → (reset_password crypto cfg tokens resets users checked used revoked token password s).1
          ≡ e
        → Step s e
    logged_in :
        (t : Draws) (family : ℕ) (email password : String)
        → (login crypto cfg tokens resets users t family email password s).1 ≡ e
        → Step s e
    refreshed :
        (t : Draws) (token : String)
        → (refresh crypto cfg tokens resets users t token s).1 ≡ e
        → Step s e
    logged_out :
        (now later : ℕ) (has_resets : Bool) (user : ℕ)
        → (logout crypto cfg tokens resets users now later has_resets user s).1 ≡ e
        → Step s e
    session_revoked :
        (now user session : ℕ)
        → (revoke_session crypto cfg tokens resets users now user session s).1 ≡ e
        → Step s e
    others_revoked :
        (at : RefreshToken → ℕ) (user session : ℕ)
        → (revoke_all_other_sessions crypto cfg tokens resets users at user session s).1 ≡ e
        → Step s e
    cleaned : (now : ℕ) → (delete_expired_resets resets now s).1 ≡ e → Step s e
    elsewhere : rows e ≡ rows s → Step s e

  pub data Reach (s : S) : S → Type 0 where
    here : Reach s s
    next : {e f : S} → Reach s e → Step e f → Reach s f

  Step-Spent : {s e : S} → Step s e → AllSpent s → AllSpent e
  Step-Spent {s} (requested revoked issued row random email other h) i = subst AllSpent h (
      request_password_reset-Keeps crypto cfg tokens resets users laws apart_u apart_t hash revoked
        issued row random email other s i)
  Step-Spent {s} (password_reset checked used revoked token password h) i = subst AllSpent h (
      reset_password-Keeps crypto cfg tokens resets users AllSpent statements checked used revoked
        token password s i)
  Step-Spent {s} (logged_in t family email password h) i =
      subst AllSpent h
        (login-Keeps crypto cfg tokens resets users AllSpent statements t family email password s i)
  Step-Spent {s} (refreshed t token h) i =
      subst AllSpent h
        (refresh-Keeps crypto cfg tokens resets users AllSpent statements t token s i)
  Step-Spent {s} (logged_out now later has_resets user h) i = subst AllSpent h (
      logout-Keeps crypto cfg tokens resets users AllSpent statements now later has_resets user s i)
  Step-Spent {s} (session_revoked now user session h) i =
      subst AllSpent h (
        revoke_session-Keeps crypto cfg tokens resets users AllSpent statements now user session s
          i)
  Step-Spent {s} (others_revoked at user session h) i = subst AllSpent h (
      revoke_all_other_sessions-Keeps crypto cfg tokens resets users AllSpent statements at user
        session s i)
  Step-Spent {s} (cleaned now h) i =
      subst AllSpent h (
        delete_expired_resets-Keeps crypto cfg tokens resets users laws apart_u apart_t hash now s
          i)
  Step-Spent (elsewhere same) i =
      same_rows crypto cfg tokens resets users laws apart_u apart_t hash same i

  pub Reach-Spent : {s e : S} → Reach s e → AllSpent s → AllSpent e
  Reach-Spent here i = i
  Reach-Spent (next r step) i = Step-Spent step (Reach-Spent r i)

module _ (crypto : Crypto) (cfg : Config) {S : Type 0} (tokens : Table S RefreshToken)
    (resets : Table S PasswordResetToken) (users : Table S User) (laws : Laws resets)
    (sound : IsReliable resets laws) (apart_u : Apart resets laws users)
    (apart_t : Apart resets laws tokens) where
  -- On a database whose table of reset tokens reports no error: once `ResetPassword` has succeeded
  -- with a token, each call with the same token after any sequence of calls of the service and
  -- clean-ups, whatever their outcome, and of statements on other tables, is refused with
  -- INVALID_RESET_TOKEN, if no reset that was requested meanwhile drew a token with the same hash.
  pub reset_password_once :
      (checked used revoked checked' used' revoked' : ℕ) (token password password' : String) (s : S)
      {e : S}
      → (reset_password crypto cfg tokens resets users checked used revoked token password s).0
        ≡ ok tt
      → Reach crypto cfg tokens resets users laws apart_u apart_t
          (crypto.hash_token token)
          (reset_password crypto cfg tokens resets users checked used revoked token password s).1
          e
      → (reset_password crypto cfg tokens resets users checked' used' revoked' token password' e).0
        ≡ err invalid_reset_token
  reset_password_once checked used revoked checked' used' revoked' token password password' s {e} h
        r =
      used_refused crypto cfg tokens resets users laws sound apart_u apart_t checked' used' revoked'
        token password' e
        (Reach-Spent crypto cfg tokens resets users laws apart_u apart_t (crypto.hash_token token) r
          (reset_password-Closed crypto cfg tokens resets users laws sound apart_u apart_t checked
            used revoked token password s h))
