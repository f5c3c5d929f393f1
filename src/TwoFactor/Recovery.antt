-- ===== src/TwoFactor/Recovery.antt =====
-- Recovery codes: a code is looked up by a hash under a new salt, while the table holds hashes under the
-- salts of their own.
use base_go_api.Prelude.{
  ℕ, ◌==◌, ◌≡◌, ◌≢◌, ap, sym, ◌∙◌, subst, String, not, arith, List, refl, str_eq, if◌then◌else◌,
}
use base_go_api.Prelude.Bytes.{Bytes, eq_of_bytes_eq}
use base_go_api.Prelude.Outcome.{
  ok, fail, pure, ◌>>=◌, map_err, >>=-eq-ok, map_err-eq-ok, map_err_state,
}
use base_go_api.Errors.{app}
use base_go_api.Sql.Table.{Table, Laws as TableLaws, Apart, In}
use base_go_api.Sql.Effects.{first-ok}
use base_go_api.Sql.Results.{missing_or_internal}
use base_go_api.Sessions.Token.{RefreshToken, User, is_valid}
use base_go_api.Sessions.Repository.{find_user_by_id, find_by_hash}
use base_go_api.Prelude.Keeping.{Keeps, bind-Keeps, map_err-Keeps, if-Keeps}
use base_go_api.TwoFactor.Service.{not_enabled}
use base_go_api.Sessions.Service.{Crypto, Config, Issued, lift, unknown}
use base_go_api.TwoFactor.Ciphers.{Library, Laws}
use base_go_api.TwoFactor.Codes.{RecoveryCode, find_by_user_and_hash}
use base_go_api.TwoFactor.Login.{
  LoginDraws, invalid_recovery_code, invalid_pending_token, token_expired, enabled_user,
  pending_user, read_pending, spend_code, recover_user, use_recovery_code,
}

-- The hash of a recovery code under a salt other than the given one, as each row holds that was made when
-- the codes were generated.
abbrev pub IsSaltedApart : Library → Bytes → RecoveryCode → Type 0
IsSaltedApart lib salt c =
    (salt' : Bytes) × (code : Bytes) × (lib.bcrypt salt' code ≡ ok c.code_hash) × (salt' ≢ salt)

module _ (lib : Library) (lib_laws : Laws lib) (key : Bytes) (crypto : Crypto) (cfg : Config)
    {S : Type 0} (tokens : Table S RefreshToken) (users : Table S User)
    (codes : Table S RecoveryCode) (laws : TableLaws codes) (apart_t : Apart codes laws tokens)
    (apart_u : Apart codes laws users) where
  open laws use {rows, first_ok}

  find_by_user_and_hash-ok :
      (user : ℕ) (hash : Bytes) (s : S) {c : RecoveryCode}
      → (find_by_user_and_hash codes user hash s).0 ≡ ok c
      → (c.code_hash ≡ hash) × In c (rows s)
  unfolding find_by_user_and_hash
  find_by_user_and_hash-ok user hash s {c} h =
      let (same, passes, there) = first-ok codes laws missing_or_internal _ s h in
      (eq_of_bytes_eq c.code_hash hash (ground arith), there)

  recover_user_refused :
      (d : LoginDraws) (salt : Bytes) (hash : String) (code : Bytes) (user : User) (s : S)
      → ((c : RecoveryCode) → In c (rows s) → IsSaltedApart lib salt c)
      → (r : Issued)
      → ¬ ((recover_user lib key crypto cfg tokens users codes d salt hash code user s).0 ≡ ok r)
  unfolding recover_user
  recover_user_refused d salt hash code user s apart r h =
      let m = map_err (λ _. app "INVALID_RECOVERY_CODE" 400) (lift (lib.bcrypt salt code)) in
      let look = λ (provided : Bytes).
        map_err (unknown invalid_recovery_code) (find_by_user_and_hash codes user.id provided) in
      let spend = spend_code lib key crypto cfg tokens users codes d hash user in
      let (provided, hashed, same, rest) = >>=-eq-ok m (λ p. look p >>= spend) s h in
      let (c, found, same2, rest2) = >>=-eq-ok (look provided) spend (m s).1 rest in
      let (is_provided, there) = find_by_user_and_hash-ok user.id provided (m s).1 (
        map_err-eq-ok (unknown invalid_recovery_code) (find_by_user_and_hash codes user.id provided)
          (m s).1 found) in
      let here =
        subst (In c)
          (ap rows
            (map_err_state (λ _. app "INVALID_RECOVERY_CODE" 400) (lift (lib.bcrypt salt code)) s))
          there in
      let (salt', made, stored, differs) = apart c here in
      let given =
        map_err-eq-ok (λ _. app "INVALID_RECOVERY_CODE" 400) (lift (lib.bcrypt salt code)) s
          hashed in
      differs
        (lib_laws.salted salt' salt made code c.code_hash stored (given ∙ ap ok (sym is_provided)))

  -- The reading of a pending token leaves the recovery codes.
  abbrev pub Same : List RecoveryCode → S → Type 0
  Same l s = rows s ≡ l

  pub find_user-Keeps : (l : List RecoveryCode) (id : ℕ) → Keeps (Same l) (find_user_by_id users id)
  unfolding find_user_by_id
  find_user-Keeps l id =
      map_err-Keeps (Same l) missing_or_internal (users.first (λ u. u.id == id))
        (λ s h. apart_u.first_apart (λ u. u.id == id) s ∙ h)

  pending_user-Keeps :
      (l : List RecoveryCode) (now : ℕ) (t : RefreshToken)
      → Keeps (Same l) (pending_user lib key crypto cfg tokens users codes now t)
  unfolding pending_user enabled_user
  pending_user-Keeps l now t =
      let checked = enabled_user lib key crypto cfg tokens users codes in
      let read = find_user_by_id users t.user_id >>= checked in
      if-Keeps (Same l) (not t.is_2fa_pending) (fail {A = User} invalid_pending_token)
        (if not (is_valid now t) then fail token_expired else read) (λ s h. h)
        (if-Keeps (Same l) (not (is_valid now t)) (fail {A = User} token_expired) read (λ s h. h)
          (bind-Keeps (Same l) (find_user_by_id users t.user_id) checked
            (find_user-Keeps l t.user_id)
            (λ u.
              if-Keeps (Same l) (not u.two_factor_enabled) (fail {A = User} not_enabled) (pure u)
                (λ s h. h) (λ s h. h))))

  read_pending-Keeps :
      (l : List RecoveryCode) (now : ℕ) (hash : String)
      → Keeps (Same l) (read_pending lib key crypto cfg tokens users codes now hash)
  unfolding read_pending find_by_hash
  read_pending-Keeps l now hash =
      let p = λ (t : RefreshToken). str_eq t.token_hash hash in
      let m = map_err missing_or_internal (tokens.first p) in
      bind-Keeps (Same l) (map_err (unknown invalid_pending_token) m)
        (pending_user lib key crypto cfg tokens users codes now)
        (map_err-Keeps (Same l) (unknown invalid_pending_token) m (
          map_err-Keeps (Same l) missing_or_internal (tokens.first p)
            (λ s h. apart_t.first_apart p s ∙ h)))
        (pending_user-Keeps l now)

  -- Where the salt that is drawn differs from the salts of the stored hashes, UseRecoveryCode succeeds
  -- with no code, also not with one that was given out.
  pub use_recovery_code_refused :
      (d : LoginDraws) (salt : Bytes) (token : String) (code : Bytes) (s : S)
      → ((c : RecoveryCode) → In c (rows s) → IsSaltedApart lib salt c)
      → (r : Issued)
      → ¬ ((use_recovery_code lib key crypto cfg tokens users codes d salt token code s).0 ≡ ok r)
  unfolding use_recovery_code
  use_recovery_code_refused d salt token code s apart r h =
      let hash = crypto.hash_token token in
      let m = read_pending lib key crypto cfg tokens users codes d.session.checked hash in
      let (user, known, same, rest) =
        >>=-eq-ok m (recover_user lib key crypto cfg tokens users codes d salt hash code) s h in
      let left = read_pending-Keeps (rows s) d.session.checked hash s refl in
      recover_user_refused d salt hash code user (m s).1
        (λ c there. apart c (subst (In c) left there)) r rest
