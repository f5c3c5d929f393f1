-- ===== src/TwoFactor/Tests.antt =====
-- The two-factor service on a small database in memory.
use base_go_api.Prelude.{
  ◌+◌, ◌%◌, ℕ, ap, sym, length, ◌≡◌, ◌≢◌, refl, String, true, [], ◌∷◌, inl, inr, none, arith,
  str_eq, ◌==◌, if◌then◌else◌,
}
use base_go_api.Prelude.Bytes.{Bytes}
use base_go_api.Prelude.Outcome.{Outcome, ok, fail}
use base_go_api.Sql.Table.{In, updated}
use base_go_api.Sessions.Token.{RefreshToken, User, enabled, pending}
use base_go_api.Sessions.Repository.{
  revoke, find_by_hash, create, mark_revoked, find_user_by_id, update_user,
}
use base_go_api.Sessions.Service.{Draws, Issued, new_token, new_user, login}
use base_go_api.TwoFactor.Ciphers.{encrypt, decrypt}
use base_go_api.TwoFactor.Codes.{RecoveryCode}
use base_go_api.TwoFactor.Service.{
  SetupDraws, CodeDraws, accepts, check_totp, read_secret, invalid_totp_code, begin_setup,
  setup_user, initiate_setup, enable_user, verify_and_enable,
}
use base_go_api.TwoFactor.Login.{
  LoginDraws, verified_at, enabled_user, pending_user, read_pending, store_session, draw_session,
  open_session, complete, verify_user, verify_2fa_login, use_recovery_code,
}
use base_go_api.TwoFactor.Verified.{IsOpen, verify_2fa_login-ok}
use base_go_api.TwoFactor.Once.{verify_2fa_login_once}
use base_go_api.TwoFactor.Pending.{logged_in, here, next, second_step_refused}
use base_go_api.TwoFactor.Recovery.{IsSaltedApart}
use base_go_api.TwoFactor.Regenerated.{IsDrawnApart, regenerated_refused}
use base_go_api.TwoFactor.Ciphers.{numeric_code}
use base_go_api.TwoFactor.Service.{regenerate_codes}
use base_go_api.TwoFactor.Memory.{
  Tables, tokens, resets, users, codes, tokens-Laws, users-Laws, codes-Laws, users-Apart,
  resets-Apart, codes-Apart-tokens, codes-Apart-users, salt_and, open_library, open_library-Laws,
  plain, cfg, zeros12, key,
}
use base_go_api.TwoFactor.Setup.{verify_and_enable-initiate_setup}

abbrev ann : User
ann = record (new_user 1 "ann" "secret") {
  two_factor_enabled = true;
  two_factor_status = enabled;
  two_factor_secret = 0 ∷ 0 ∷ 0 ∷ 0 ∷ 0 ∷ 0 ∷ 0 ∷ 0 ∷ 0 ∷ 0 ∷ 0 ∷ 0 ∷ 55 ∷ [];
}

abbrev draws : ℕ → String → Draws
draws at token = record {
  checked = at;
  written = at;
  issued = at;
  generated = ok (token, token);
  row = at;
}

abbrev second : ℕ → String → LoginDraws
second at token = record { session = draws at token; at = at; verified = at }

abbrev waiting : RefreshToken
waiting = record (new_token cfg (draws 1 "p") 1 7 "p") { is_2fa_pending = true }

abbrev stored_code : RecoveryCode
stored_code = record {
  id = 1;
  user_id = 1;
  code_hash = salt_and (9 ∷ []) (48 ∷ []);
  used_at = none;
}

-- A database with a pending token, as no method writes it.
abbrev start : Tables
start = record {
  sessions = waiting ∷ [];
  reset_tokens = [];
  accounts = ann ∷ [];
  recovery = stored_code ∷ [];
}

abbrev verify_at : ℕ → String → Tables → Outcome Issued × Tables
verify_at at new d =
    verify_2fa_login open_library key plain cfg tokens users codes (second at new) "p" (55 ∷ []) d

abbrev finished : Tables
finished = record start {
  sessions = new_token cfg (draws 5 "t") 1 0 "t" ∷ revoke 5 waiting ∷ [];
  accounts = verified_at 5 ann ∷ [];
}

verify_run : verify_at 5 "t" start ≡ (ok (verified_at 5 ann, ("ann", "t")), finished)
unfolding verify_2fa_login read_pending pending_user enabled_user find_by_hash find_user_by_id
    verify_user check_totp read_secret decrypt complete mark_revoked update_user open_session
    draw_session store_session create
verify_run = refl

verify_runs : (verify_at 5 "t" start).0 ≡ ok (verified_at 5 ann, ("ann", "t"))
unfolding verify_2fa_login read_pending pending_user enabled_user find_by_hash find_user_by_id
    verify_user check_totp read_secret decrypt complete mark_revoked update_user open_session
    draw_session store_session create
verify_runs = refl

verify_2fa_login_example :
    (stored : RefreshToken) × (In stored (waiting ∷ []) × IsOpen 5 "p" stored)
    × ((user : User) × (((user.id == stored.user_id) ≡ true)
          × (user.two_factor_enabled ≡ true)
          × (check_totp open_library key user.two_factor_secret (55 ∷ []) 5 ≡ ok tt)
          × (verified_at 5 ann ≡ verified_at 5 user))
        × ((g : String × String) × (((second 5 "t").session.generated ≡ ok g) × ("t" ≡ g.0))
            × ((verify_at 5 "t" start).1.sessions
                ≡ new_token cfg (draws 5 "t") user.id 0 g.1
                  ∷ updated (λ t. str_eq t.token_hash "p") (revoke 5) (waiting ∷ []))))
verify_2fa_login_example =
    verify_2fa_login-ok open_library key plain cfg tokens users codes tokens-Laws users-Laws
      users-Apart (second 5 "t") "p" (55 ∷ []) start {r = (verified_at 5 ann, ("ann", "t"))}
      verify_runs

verify_2fa_login_once_example :
    ¬ ((verify_at 6 "u" (verify_at 5 "t" start).1).0 ≡ ok (verified_at 6 ann, ("ann", "u")))
verify_2fa_login_once_example =
    verify_2fa_login_once open_library key plain cfg tokens users codes tokens-Laws users-Laws
      users-Apart (second 5 "t") (second 6 "u") "p" (55 ∷ []) (55 ∷ []) start
      {r = (verified_at 5 ann, ("ann", "t"))} {q = (verified_at 6 ann, ("ann", "u"))} verify_runs

-- Ann, who has a second factor, logs in.
abbrev calm : Tables
calm = record start { sessions = [] }

abbrev logged : Tables
logged = (login plain cfg tokens resets users (draws 10 "a") 7 "ann" "secret" calm).1

second_step_refused_example :
    (¬ ((verify_at 20 "b" logged).0 ≡ ok (ann, ("ann", "b"))))
    × (¬ (
        (use_recovery_code open_library key plain cfg tokens users codes
          (second 20 "b")
          []
          "p"
          (55 ∷ [])
          logged).0
        ≡ ok (ann, ("ann", "b"))))
second_step_refused_example =
    second_step_refused open_library key plain cfg tokens resets users codes tokens-Laws users-Laws
      users-Apart resets-Apart {s = calm} {e = logged} tt
      (next here (logged_in (draws 10 "a") 7 "ann" "secret" refl)) (second 20 "b") [] "p" (55 ∷ [])
      (ann, ("ann", "b"))

salt_differs : (i : ℕ) → ◌≢◌ {A = Bytes} ((i + 20) ∷ []) (8 ∷ [])
salt_differs i h = let same : ◌≡◌ {A = ℕ} (i + 20) 8 = cc in absurd (omega arith)

nine_not_eight : ◌≢◌ {A = Bytes} (9 ∷ []) (8 ∷ [])
nine_not_eight h = let same : ◌≡◌ {A = ℕ} 9 8 = cc in absurd (omega arith)

stored_apart : (c : RecoveryCode) → In c (stored_code ∷ []) → IsSaltedApart open_library (8 ∷ []) c
stored_apart c (inl same) =
    (9 ∷ [], 48 ∷ [], ap (λ (x : RecoveryCode). ok x.code_hash) (sym same), nine_not_eight)
stored_apart c (inr there) = elim there [ ]

-- New codes for Ann under salts from 20 on, and one of them used under the salt 8.
abbrev later_draws : CodeDraws
later_draws = record { bytes = λ i. i ∷ []; salts = λ i. (i + 20) ∷ []; rows = λ i. i }

later_draws-IsDrawnApart : IsDrawnApart open_library (8 ∷ []) later_draws
unfolding numeric_code
later_draws-IsDrawnApart i = (salt_differs i, (salt_and ((i + 20) ∷ []) ((i % 10 + 48) ∷ []), refl))

abbrev renewed : Tables
renewed = (regenerate_codes open_library key users codes later_draws 4 (55 ∷ []) 1 start).1

regenerated_refused_example : ¬ (
    (use_recovery_code open_library key plain cfg tokens users codes
      (second 5 "t")
      (8 ∷ [])
      "p"
      (48 ∷ [])
      renewed).0
    ≡ ok (ann, ("ann", "t")))
regenerated_refused_example =
    regenerated_refused open_library open_library-Laws key plain cfg tokens users codes codes-Laws
      codes-Apart-tokens codes-Apart-users later_draws 4 1 (55 ∷ []) (second 5 "t") (8 ∷ []) "p"
      (48 ∷ []) start (λ c there. stored_apart c there) later_draws-IsDrawnApart (ann, ("ann", "t"))

abbrev bob : User
bob = new_user 2 "bob" "secret"

abbrev setup : SetupDraws
setup = record { generated = ok (66 ∷ []); nonce = ok zeros12 }

abbrev code_draws : CodeDraws
code_draws = record { bytes = λ i. i ∷ []; salts = λ i. i ∷ []; rows = λ i. i }

abbrev before : Tables
before = record start { accounts = bob ∷ [] }

abbrev set_up : Outcome Bytes × Tables
set_up = initiate_setup open_library key users codes setup 2 before

abbrev bob_in_setup : User
bob_in_setup = record bob {
  two_factor_status = pending;
  two_factor_secret = 0 ∷ 0 ∷ 0 ∷ 0 ∷ 0 ∷ 0 ∷ 0 ∷ 0 ∷ 0 ∷ 0 ∷ 0 ∷ 0 ∷ 66 ∷ [];
}

nonce_sized : (nonce : Bytes) → setup.nonce ≡ ok nonce → length nonce ≡ 12
nonce_sized nonce h = let same : zeros12 ≡ nonce = cc in rw (← same) refl

set_up_runs : set_up.0 ≡ ok (66 ∷ [])
unfolding initiate_setup setup_user begin_setup find_user_by_id update_user encrypt
set_up_runs = refl

set_up_reads : (find_user_by_id users 2 set_up.1).0 ≡ ok bob_in_setup
unfolding initiate_setup setup_user begin_setup find_user_by_id update_user encrypt
set_up_reads = refl

verify_and_enable-initiate_setup_example :
    verify_and_enable open_library key users codes code_draws 3 4 (66 ∷ []) 2 set_up.1
    ≡ (if accepts open_library (66 ∷ []) (66 ∷ []) 3
          then enable_user open_library key users codes code_draws 4 bob_in_setup
          else fail invalid_totp_code)
        (find_user_by_id users 2 set_up.1).1
verify_and_enable-initiate_setup_example =
    verify_and_enable-initiate_setup open_library open_library-Laws key users codes users-Laws setup
      code_draws 3 4 2 (66 ∷ []) before {secret = 66 ∷ []} nonce_sized set_up_runs bob_in_setup
      set_up_reads
