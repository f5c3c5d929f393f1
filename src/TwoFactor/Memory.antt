-- ===== src/TwoFactor/Memory.antt =====
-- A small database in memory and libraries that are as plain as their laws allow.
use base_go_api.Prelude.{zero, suc, ◌≡◌, refl, List, [], ◌∷◌, str_eq}
use base_go_api.Prelude.Bytes.{Bytes, bytes_eq}
use base_go_api.Prelude.Outcome.{ok}
use base_go_api.Sql.Table.{Table, Laws as TableLaws, Apart}
use base_go_api.Sql.Memory.{list_table, list-Laws}
use base_go_api.Sessions.Token.{RefreshToken, PasswordResetToken, User}
use base_go_api.Sessions.Service.{Crypto, Config}
use base_go_api.TwoFactor.Ciphers.{Library, Laws}
use base_go_api.TwoFactor.Codes.{RecoveryCode}

pub record Tables : Type 0 where
  pub sessions : List RefreshToken
  pub reset_tokens : List PasswordResetToken
  pub accounts : List User
  pub recovery : List RecoveryCode

abbrev pub tokens : Table Tables RefreshToken
tokens = list_table (λ d. d.sessions) (λ l d. record d { sessions = l })

abbrev pub resets : Table Tables PasswordResetToken
resets = list_table (λ d. d.reset_tokens) (λ l d. record d { reset_tokens = l })

abbrev pub users : Table Tables User
users = list_table (λ d. d.accounts) (λ l d. record d { accounts = l })

abbrev pub codes : Table Tables RecoveryCode
codes = list_table (λ d. d.recovery) (λ l d. record d { recovery = l })

abbrev pub tokens-Laws : TableLaws tokens
tokens-Laws = list-Laws (λ d. d.sessions) (λ l d. record d { sessions = l }) (λ l d. refl)

abbrev pub users-Laws : TableLaws users
users-Laws = list-Laws (λ d. d.accounts) (λ l d. record d { accounts = l }) (λ l d. refl)

abbrev pub codes-Laws : TableLaws codes
codes-Laws = list-Laws (λ d. d.recovery) (λ l d. record d { recovery = l }) (λ l d. refl)

pub users-Apart : Apart tokens tokens-Laws users
users-Apart = record {
  first_apart = λ p d. refl;
  find_apart = λ p d. refl;
  update_apart = λ p f d. refl;
  count_where_apart = λ p d. refl;
  delete_apart = λ p d. refl;
  create_apart = λ r d. refl;
}

pub resets-Apart : Apart tokens tokens-Laws resets
resets-Apart = record {
  first_apart = λ p d. refl;
  find_apart = λ p d. refl;
  update_apart = λ p f d. refl;
  count_where_apart = λ p d. refl;
  delete_apart = λ p d. refl;
  create_apart = λ r d. refl;
}

pub codes-Apart-tokens : Apart codes codes-Laws tokens
codes-Apart-tokens = record {
  first_apart = λ p d. refl;
  find_apart = λ p d. refl;
  update_apart = λ p f d. refl;
  count_where_apart = λ p d. refl;
  delete_apart = λ p d. refl;
  create_apart = λ r d. refl;
}

pub codes-Apart-users : Apart codes codes-Laws users
codes-Apart-users = record {
  first_apart = λ p d. refl;
  find_apart = λ p d. refl;
  update_apart = λ p f d. refl;
  count_where_apart = λ p d. refl;
  delete_apart = λ p d. refl;
  create_apart = λ r d. refl;
}

-- A hash that holds its salt, ended by a zero.
abbrev pub salt_and : Bytes → Bytes → Bytes
salt_and [] text = zero ∷ text
salt_and (x ∷ salt) text = suc x ∷ salt_and salt text

salt_and-injective :
    (salt salt' text text' : Bytes) → salt_and salt text ≡ salt_and salt' text' → salt ≡ salt'
salt_and-injective [] [] text text' h = refl
salt_and-injective [] (y ∷ salt') text text' h = cc
salt_and-injective (x ∷ salt) [] text text' h = cc
salt_and-injective (x ∷ salt) (y ∷ salt') text text' h =
    let rest : salt_and salt text ≡ salt_and salt' text' = cc in
    let same = salt_and-injective salt salt' text text' rest in cc

-- A cipher that changes nothing, and a one-time password that is the secret.
abbrev pub open_library : Library
open_library = record {
  seal = λ key nonce text. text;
  unseal = λ key nonce sealed. ok sealed;
  encode = λ text. text;
  decode = λ text. ok text;
  validate = λ code secret now. ok (bytes_eq code secret);
  bcrypt = λ salt text. ok (salt_and salt text);
}

pub open_library-Laws : Laws open_library
open_library-Laws = record {
  unseal-seal = λ key nonce text. refl;
  decode-encode = λ text. refl;
  salted = λ salt salt' text text' hash p q. salt_and-injective salt salt' text text' cc;
}

abbrev pub plain : Crypto
plain = record {
  hash_token = λ t. t;
  hash_password = λ p. ok p;
  verify = λ h p. str_eq h p;
  access_token = λ u. ok u.email;
}

abbrev pub cfg : Config
cfg = record { refresh_expiry = 1000; password_reset_expiry = 100 }

abbrev pub zeros12 : Bytes
zeros12 = 0 ∷ 0 ∷ 0 ∷ 0 ∷ 0 ∷ 0 ∷ 0 ∷ 0 ∷ 0 ∷ 0 ∷ 0 ∷ 0 ∷ []

-- A key of 32 bytes.
abbrev pub key : Bytes
key =
    1 ∷ 2 ∷ 3 ∷ 4 ∷ 5 ∷ 6 ∷ 7 ∷ 8 ∷ 9 ∷ 10 ∷ 11 ∷ 12 ∷ 13 ∷ 14 ∷ 15 ∷ 16 ∷ 17 ∷ 18 ∷ 19 ∷ 20
    ∷ zeros12
