-- ===== src/Sessions/Tests.antt =====
-- The authentication service on a small database in memory.
use base_go_api.Prelude.{
  ℕ, ◌≡◌, refl, subst, String, true, false, List, [], ◌∷◌, none, arith, str_eq, ◌==◌, ap, ltb,
}
use base_go_api.Prelude.Outcome.{Outcome, ok, err}
use base_go_api.Sql.Table.{Table, Laws, IsReliable, Apart, In, count, updated}
use base_go_api.Sql.Memory.{list_table, list-Laws, list-IsReliable}
use base_go_api.Sessions.Token.{RefreshToken, is_revoked, PasswordResetToken, User}
use base_go_api.Sessions.Repository.{
  revoke, find_by_hash, find_by_id, create, mark_revoked, find_user_by_email, find_user_by_id,
  find_reset_by_hash, revoke_all_by_user, update_user,
}
use base_go_api.Sessions.Service.{
  Crypto, Config, Draws, Issued, new_token, new_user, login, login_user, issue, draw, store, logout,
  refresh, refresh_stored, rotate, revoke_session, invalid_refresh_token, invalid_reset_token,
  not_owner,
}
use base_go_api.Sessions.Recovery.{
  request_password_reset, reset_password, reset_with, set_password, save_password, close_reset,
}
use base_go_api.Sessions.Families.{live, IsRotated}
use base_go_api.Sessions.Effects.{refresh-ok}
use base_go_api.Sessions.Histories.{logged_in, refreshed, here, next, Reach-IsRotated}
use base_go_api.Sessions.Revocation.{reuse_ends_family, revoke_session_lem}
use base_go_api.Sessions.Spent
use base_go_api.Sessions.Spent.{requested, reset_password_once}
use base_go_api.Sessions.Races.{open_for, logout_ends_sessions}

record Tables : Type 0 where
  sessions : List RefreshToken
  reset_tokens : List PasswordResetToken
  accounts : List User

abbrev tokens : Table Tables RefreshToken
tokens = list_table (λ d. d.sessions) (λ l d. record d { sessions = l })

abbrev resets : Table Tables PasswordResetToken
resets = list_table (λ d. d.reset_tokens) (λ l d. record d { reset_tokens = l })

abbrev users : Table Tables User
users = list_table (λ d. d.accounts) (λ l d. record d { accounts = l })

abbrev tokens-Laws : Laws tokens
tokens-Laws = list-Laws (λ d. d.sessions) (λ l d. record d { sessions = l }) (λ l d. refl)

abbrev tokens-IsReliable : IsReliable tokens tokens-Laws
tokens-IsReliable =
    list-IsReliable (λ d. d.sessions) (λ l d. record d { sessions = l }) (λ l d. refl)

abbrev resets-Laws : Laws resets
resets-Laws = list-Laws (λ d. d.reset_tokens) (λ l d. record d { reset_tokens = l }) (λ l d. refl)

abbrev resets-IsReliable : IsReliable resets resets-Laws
resets-IsReliable =
    list-IsReliable (λ d. d.reset_tokens) (λ l d. record d { reset_tokens = l }) (λ l d. refl)

abbrev users-Laws : Laws users
users-Laws = list-Laws (λ d. d.accounts) (λ l d. record d { accounts = l }) (λ l d. refl)

users-Apart : Apart tokens tokens-Laws users
users-Apart = record {
  first_apart = λ p d. refl;
  find_apart = λ p d. refl;
  update_apart = λ p f d. refl;
  count_where_apart = λ p d. refl;
  delete_apart = λ p d. refl;
  create_apart = λ r d. refl;
}

resets-Apart : Apart tokens tokens-Laws resets
resets-Apart = record {
  first_apart = λ p d. refl;
  find_apart = λ p d. refl;
  update_apart = λ p f d. refl;
  count_where_apart = λ p d. refl;
  delete_apart = λ p d. refl;
  create_apart = λ r d. refl;
}

resets-Apart-users : Apart resets resets-Laws users
resets-Apart-users = record {
  first_apart = λ p d. refl;
  find_apart = λ p d. refl;
  update_apart = λ p f d. refl;
  count_where_apart = λ p d. refl;
  delete_apart = λ p d. refl;
  create_apart = λ r d. refl;
}

resets-Apart-tokens : Apart resets resets-Laws tokens
resets-Apart-tokens = record {
  first_apart = λ p d. refl;
  find_apart = λ p d. refl;
  update_apart = λ p f d. refl;
  count_where_apart = λ p d. refl;
  delete_apart = λ p d. refl;
  create_apart = λ r d. refl;
}

-- Token and password hashes that are the text itself.
abbrev plain : Crypto
plain = record {
  hash_token = λ t. t;
  hash_password = λ p. ok p;
  verify = λ h p. str_eq h p;
  access_token = λ u. ok u.email;
}

abbrev cfg : Config
cfg = record { refresh_expiry = 1000; password_reset_expiry = 100 }

abbrev ann : User
ann = new_user 1 "ann" "secret"

abbrev draws : ℕ → String → Draws
draws at token = record {
  checked = at;
  written = at;
  issued = at;
  generated = ok (token, token);
  row = at;
}

abbrev start : Tables
start = record {
  sessions = [];
  reset_tokens =
      record { id = 1; user_id = 1; token_hash = "reset"; expires_at = 50; used_at = none } ∷ [];
  accounts = ann ∷ [];
}

abbrev token_a : RefreshToken
token_a = new_token cfg (draws 10 "a") 1 7 "a"

abbrev token_b : RefreshToken
token_b = new_token cfg (draws 20 "b") 1 7 "b"

-- After a login at 10, and after a refresh at 20.
abbrev logged : Tables
logged = record start { sessions = token_a ∷ [] }

abbrev rotated : Tables
rotated = record start { sessions = token_b ∷ revoke 20 token_a ∷ [] }

abbrev refresh_at : ℕ → String → Tables → Outcome Issued × Tables
refresh_at at new = refresh plain cfg tokens resets users (draws at new) "a"

login_run :
    login plain cfg tokens resets users (draws 10 "a") 7 "ann" "secret" start
    ≡ (ok (ann, ("ann", "a")), logged)
unfolding login login_user find_user_by_email issue draw store create
login_run = refl

refresh_run : refresh_at 20 "b" logged ≡ (ok (ann, ("ann", "b")), rotated)
unfolding refresh refresh_stored find_by_hash find_user_by_id rotate mark_revoked issue draw store
    create
refresh_run = refl

refresh-ok_example :
    (stored : RefreshToken) × (In stored logged.sessions × (str_eq stored.token_hash "a" ≡ true))
    × ((is_revoked stored ≡ false) × (ltb stored.expires_at 20 ≡ false))
    × ((g : String × String) × ((ok ("b", "b") ≡ ok g)
          × ("b" ≡ g.0)
          × ((1 == stored.user_id) ≡ true))
        × ((refresh_at 20 "b" logged).1.sessions
            ≡ new_token cfg (draws 20 "b") 1 stored.family_id g.1
              ∷ updated (λ u. str_eq u.token_hash "a") (revoke 20) logged.sessions))
refresh-ok_example =
    refresh-ok plain cfg tokens resets users tokens-Laws users-Laws users-Apart (draws 20 "b") "a"
      logged {r = (ann, ("ann", "b"))} (ap (λ x. x.0) refresh_run)

Reach-IsRotated_example : IsRotated rotated.sessions
Reach-IsRotated_example =
    Reach-IsRotated plain cfg tokens resets users tokens-Laws users-Apart resets-Apart {s = start}
      {e = rotated} (λ family. omega arith)
      (next (next here (logged_in (draws 10 "a") 7 "ann" "secret" refl (ap (λ x. x.1) login_run)))
        (refreshed (draws 20 "b") "a" (ap (λ x. x.1) refresh_run)))

stolen : (find_by_hash tokens "a" rotated).0 ≡ ok (revoke 20 token_a)
unfolding find_by_hash
stolen = refl

reuse_ends_family_example :
    ((refresh_at 30 "c" rotated).0 ≡ err invalid_refresh_token)
    × (count (live 7) (refresh_at 30 "c" rotated).1.sessions ≡ 0)
reuse_ends_family_example =
    reuse_ends_family plain cfg tokens resets users tokens-Laws tokens-IsReliable (draws 30 "c") "a"
      rotated {stored = revoke 20 token_a} stolen refl

session_b : (find_by_id tokens 20 rotated).0 ≡ ok token_b
unfolding find_by_id
session_b = refl

revoke_session_example :
    let r = revoke_session plain cfg tokens resets users 40 1 20 rotated in
    ((1 == 1) ≡ true
      → (r.0 ≡ ok tt)
        × (r.1.sessions ≡ updated (λ u. str_eq u.token_hash "b") (revoke 40) rotated.sessions))
    × ((1 == 1) ≡ false → (r.0 ≡ err not_owner) × (r.1.sessions ≡ rotated.sessions))
revoke_session_example =
    revoke_session_lem plain cfg tokens resets users tokens-Laws tokens-IsReliable 40 1 20 rotated
      {t = token_b} session_b

reset_run : (reset_password plain cfg tokens resets users 30 31 32 "reset" "new" rotated).0 ≡ ok tt
unfolding reset_password reset_with find_reset_by_hash find_user_by_id set_password save_password
    update_user close_reset
reset_run = refl

abbrev reset_done : Tables
reset_done = (reset_password plain cfg tokens resets users 30 31 32 "reset" "new" rotated).1

-- Another reset is requested meanwhile.
abbrev asked_again : Tables
asked_again =
    (request_password_reset plain cfg tokens resets users 33 34 2 (ok "again") "ann" reset_done).1

again_other : (token : String) → ok "again" ≡ ok token → str_eq token "reset" ≡ false
again_other token e =
    let same : ◌≡◌ {A = String} "again" token = cc in
    subst (λ t. str_eq t "reset" ≡ false) same refl

reset_password_once_example :
    (reset_password plain cfg tokens resets users 40 41 42 "reset" "other" asked_again).0
    ≡ err invalid_reset_token
reset_password_once_example =
    reset_password_once plain cfg tokens resets users resets-Laws resets-IsReliable
      resets-Apart-users resets-Apart-tokens 30 31 32 40 41 42 "reset" "new" "other" rotated
      reset_run (Spent.next Spent.here (requested 33 34 2 (ok "again") "ann" again_other refl))

abbrev rotate_at : ℕ → String → Tables → Outcome Issued × Tables
rotate_at at new = rotate plain cfg tokens resets users (draws at new) "a" token_a ann

first_rotation : rotate_at 20 "b" logged ≡ (ok (ann, ("ann", "b")), rotated)
unfolding rotate mark_revoked issue draw store create
first_rotation = refl

second_rotation : (rotate_at 21 "c" rotated).0 ≡ ok (ann, ("ann", "c"))
unfolding rotate mark_revoked issue draw store create
second_rotation = refl

logout_run : (logout plain cfg tokens resets users 50 51 true 1 rotated).0 ≡ ok tt
unfolding logout revoke_all_by_user
logout_run = refl

logout_ends_sessions_example :
    count (open_for 1) (logout plain cfg tokens resets users 50 51 true 1 rotated).1.sessions ≡ 0
logout_ends_sessions_example =
    logout_ends_sessions plain cfg tokens resets users tokens-Laws resets-Apart 50 51 true 1 rotated
      logout_run
