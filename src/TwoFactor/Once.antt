-- ===== src/TwoFactor/Once.antt =====
-- Two second steps of a login with one pending token: internal/service/two_factor.go.
use base_go_api.Prelude.{ℕ, ◌≡◌, refl, subst, String, false, List, [], ◌∷◌, arith, str_eq, inl, inr}
use base_go_api.Prelude.Bytes.{Bytes}
use base_go_api.Prelude.Outcome.{ok}
use base_go_api.Sql.Table.{Table, Laws, Apart, In, updated}
use base_go_api.Sessions.Token.{RefreshToken, User}
use base_go_api.Sessions.Repository.{revoke}
use base_go_api.Sessions.Service.{Crypto, Config, Issued, new_token}
use base_go_api.TwoFactor.Ciphers.{Library}
use base_go_api.TwoFactor.Codes.{RecoveryCode}
use base_go_api.TwoFactor.Login.{LoginDraws, verify_2fa_login}
use base_go_api.TwoFactor.Verified.{IsOpen, verify_2fa_login-ok}

module _ (lib : Library) (key : Bytes) (crypto : Crypto) (cfg : Config) {S : Type 0}
    (tokens : Table S RefreshToken) (users : Table S User) (codes : Table S RecoveryCode)
    (laws : Laws tokens) (laws_u : Laws users) (apart : Apart tokens laws users) where
  open laws use {rows}

  no_open_left :
      (l : List RefreshToken) (t n : RefreshToken) (now written : ℕ) (hash : String)
      → n.is_2fa_pending ≡ false
      → In t (n ∷ updated (λ u. str_eq u.token_hash hash) (revoke written) l)
      → IsOpen now hash t
      → ⊥
  no_open_left l t n now written hash plain (inl same) (named, is_pending, valid) = cc
  no_open_left l t n now written hash plain (inr there) open_t = go l there open_t
    where
      go :
          (l : List RefreshToken)
          → In t (updated (λ u. str_eq u.token_hash hash) (revoke written) l)
          → IsOpen now hash t
          → ⊥
      go [] i (named, is_pending, valid) = i
      go (u ∷ us) (inl same) (named, is_pending, valid) = ground arith
      go (u ∷ us) (inr i) o = go us i o

  -- Once a second step has succeeded with a pending token, no second step reads it again, whenever it
  -- comes and whatever code it brings.
  pub verify_2fa_login_once :
      (d e : LoginDraws) (token : String) (code code' : Bytes) (s : S) {r q : Issued}
      → (verify_2fa_login lib key crypto cfg tokens users codes d token code s).0 ≡ ok r
      → let s1 = (verify_2fa_login lib key crypto cfg tokens users codes d token code s).1 in
        ¬ ((verify_2fa_login lib key crypto cfg tokens users codes e token code' s1).0 ≡ ok q)
  verify_2fa_login_once d e token code code' s h k =
      let hash = crypto.hash_token token in
      let (stored, found, (user, checks, (g, drawn, after))) =
        verify_2fa_login-ok lib key crypto cfg tokens users codes laws laws_u apart d token code s
          h in
      let s1 = (verify_2fa_login lib key crypto cfg tokens users codes d token code s).1 in
      let (again, (there, is_open), rest) =
        verify_2fa_login-ok lib key crypto cfg tokens users codes laws laws_u apart e token code' s1
          k in
      no_open_left (rows s) again (new_token cfg d.session user.id 0 g.1) e.session.checked
        d.session.written hash refl (subst (In again) after there) is_open
