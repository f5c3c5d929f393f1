-- ===== src/TwoFactor/Regenerated.antt =====
-- Recovery codes from their making to their use: RegenerateCodes, and UseRecoveryCode afterwards.
use base_go_api.Prelude.{
  ℕ, zero, suc, keep, ◌+◌, ◌==◌, ◌≡◌, ◌≢◌, refl, ap, sym, ◌∙◌, subst, String, Bool, true, false,
  not, List, [], ◌∷◌, map, length, inl, inr, if◌then◌else◌,
}
use base_go_api.Prelude.Bytes.{Bytes}
use base_go_api.Prelude.Keeping.{Keeps, bind-Keeps, map_err-Keeps, if-Keeps}
use base_go_api.Prelude.Outcome.{Outcome, ok, err, ◌>>=◌, pure, fail, map_err}
use base_go_api.Errors.{wrap_internal}
use base_go_api.Sql.Table.{Table, Laws as TableLaws, Apart, In}
use base_go_api.Sql.Results.{missing_or_internal}
use base_go_api.Sessions.Token.{RefreshToken, User}
use base_go_api.Sessions.Repository.{find_user_by_id}
use base_go_api.Sessions.Service.{Crypto, Config, Issued, lift}
use base_go_api.TwoFactor.Ciphers.{
  Library, Laws, numeric_code, hash_or_empty, generate_codes, generate_recovery_codes,
}
use base_go_api.TwoFactor.Codes.{RecoveryCode, create_code, delete_all_by_user}
use base_go_api.TwoFactor.Service.{
  CodeDraws, check_totp, recovery_code, store_codes, renew_codes, regenerate_for, regenerate_codes,
  not_enabled, invalid_secret,
}
use base_go_api.TwoFactor.Login.{LoginDraws, use_recovery_code}
use base_go_api.TwoFactor.Recovery.{IsSaltedApart, use_recovery_code_refused}

-- Draws whose salts differ from the given one and whose codes are hashed without an error.
abbrev pub IsDrawnApart : Library → Bytes → CodeDraws → Type 0
IsDrawnApart lib salt d =
    (i : ℕ)
    → (d.salts i ≢ salt)
      × ((hash : Bytes) × (lib.bcrypt (d.salts i) (numeric_code (d.bytes i)) ≡ ok hash))

module _ (lib : Library) (key : Bytes) {S : Type 0} (users : Table S User)
    (codes : Table S RecoveryCode) (laws : TableLaws codes) (apart_u : Apart codes laws users)
    (salt : Bytes) where
  open laws use {rows}

  abbrev pub AllApart : S → Type 0
  AllApart s = (c : RecoveryCode) → In c (rows s) → IsSaltedApart lib salt c

  In-keep :
      (p : RecoveryCode → Bool) (l : List RecoveryCode) (c : RecoveryCode)
      → In c (keep p l)
      → In c l
  In-keep p [] c there = there
  In-keep p (x ∷ l) c there = go (p x) (In-keep p l c) there
    where
      go :
          (b : Bool)
          → (In c (keep p l) → In c l)
          → In c (if b then x ∷ keep p l else keep p l)
          → In c (x ∷ l)
      go true ih (inl same) = inl same
      go true ih (inr rest) = inr (ih rest)
      go false ih rest = inr (ih rest)

  create_code-Keeps :
      (c : RecoveryCode) → IsSaltedApart lib salt c → Keeps AllApart (create_code codes c)
  unfolding create_code
  create_code-Keeps c apart =
      map_err-Keeps AllApart wrap_internal (codes.create c)
        (λ s h. go s h (codes.create c s).0 refl)
    where
      either :
          (l : List RecoveryCode)
          → ((x : RecoveryCode) → In x l → IsSaltedApart lib salt x)
          → (x : RecoveryCode) → In x (c ∷ l)
          → IsSaltedApart lib salt x
      either l h x (inl same) = subst (IsSaltedApart lib salt) (sym same) apart
      either l h x (inr there) = h x there

      go :
          (s : S)
          → AllApart s
          → (o : Outcome (Unit {0})) → (codes.create c s).0 ≡ o
          → AllApart (codes.create c s).1
      go s h (ok u) e x there = either (rows s) h x (subst (In x) (laws.create_ok c s e) there)
      go s h (err f) e x there = h x (subst (In x) (laws.create_err c s f e) there)

  delete_all-Keeps : (user : ℕ) → Keeps AllApart (delete_all_by_user codes user)
  unfolding delete_all_by_user
  delete_all-Keeps user =
      let m = codes.delete (λ c. c.user_id == user) in
      bind-Keeps AllApart (map_err wrap_internal m) (λ _. pure tt)
        (map_err-Keeps AllApart wrap_internal m (λ s h. go s h (m s).0 refl)) (λ n s h. h)
    where
      go :
          (s : S)
          → AllApart s
          → (o : Outcome ℕ) → (codes.delete (λ c. c.user_id == user) s).0 ≡ o
          → AllApart (codes.delete (λ c. c.user_id == user) s).1
      go s h (ok n) e x there = h x (
          In-keep (λ r. if r.user_id == user then false else true) (rows s) x
            (subst (In x) (laws.delete_ok (λ c. c.user_id == user) s n e) there))
      go s h (err f) e x there =
          h x (subst (In x) (laws.delete_err (λ c. c.user_id == user) s f e) there)

  -- The loop that stores the codes from `i` on, of those generated from `j` on.
  store_codes-Keeps :
      (d : CodeDraws) (user : ℕ) (n i j : ℕ)
      → IsDrawnApart lib salt d
      → Keeps AllApart
          (store_codes lib key users codes d user i (generate_codes lib d.bytes d.salts n j))
  unfolding store_codes generate_codes
  store_codes-Keeps d user zero i j apart = λ s h. h
  store_codes-Keeps d user (suc n) i j apart =
      let code = numeric_code (d.bytes j) in
      let row = recovery_code d i user (hash_or_empty (lib.bcrypt (d.salts j) code)) in
      let (differs, (hash, hashed)) = apart j in
      bind-Keeps AllApart (create_code codes row)
        (λ _.
          store_codes lib key users codes d user (i + 1)
            (generate_codes lib d.bytes d.salts n (j + 1)))
        (create_code-Keeps row
          (d.salts j, code, hashed ∙ ap ok (sym (ap hash_or_empty hashed)), differs))
        (λ u. store_codes-Keeps d user n (i + 1) (j + 1) apart)

  renew_codes-Keeps :
      (d : CodeDraws) (user : ℕ)
      → IsDrawnApart lib salt d
      → Keeps AllApart (renew_codes lib key users codes d user)
  unfolding renew_codes generate_recovery_codes
  renew_codes-Keeps d user apart =
      let drawn = generate_codes lib d.bytes d.salts 8 0 in
      let stores = store_codes lib key users codes d user 0 drawn in
      let plain = pure {S = S} {A = List Bytes} (map (λ c. c.0) drawn) in
      bind-Keeps AllApart (delete_all_by_user codes user) (λ _. stores >>= λ _. plain)
        (delete_all-Keeps user)
        (λ u.
          bind-Keeps AllApart stores (λ _. plain) (store_codes-Keeps d user 8 0 0 apart)
            (λ v s h. h))

  regenerate_codes-Keeps :
      (d : CodeDraws) (at : ℕ) (code : Bytes) (id : ℕ)
      → IsDrawnApart lib salt d
      → Keeps AllApart (regenerate_codes lib key users codes d at code id)
  unfolding regenerate_codes regenerate_for find_user_by_id
  regenerate_codes-Keeps d at code id apart =
      let m = map_err missing_or_internal (users.first (λ u. u.id == id)) in
      let none_left = fail {S = S} {A = List Bytes} not_enabled in
      let bad = fail {S = S} {A = List Bytes} invalid_secret in
      bind-Keeps AllApart m (regenerate_for lib key users codes d at code)
        (map_err-Keeps AllApart missing_or_internal (users.first (λ u. u.id == id))
          (λ s h x there. h x (subst (In x) (apart_u.first_apart (λ u. u.id == id) s) there)))
        (λ u.
          let checked = lift {S = S} (check_totp lib key u.two_factor_secret code at) in
          let rest = checked >>= (λ _. renew_codes lib key users codes d u.id) in
          if-Keeps AllApart (not u.two_factor_enabled) none_left
            (if length u.two_factor_secret == 0 then bad else rest) (λ s h. h)
            (if-Keeps AllApart (length u.two_factor_secret == 0) bad rest (λ s h. h)
              (bind-Keeps AllApart checked (λ _. renew_codes lib key users codes d u.id) (λ s h. h)
                (λ v. renew_codes-Keeps d u.id apart))))

module _ (lib : Library) (lib_laws : Laws lib) (key : Bytes) (crypto : Crypto) (cfg : Config)
    {S : Type 0} (tokens : Table S RefreshToken) (users : Table S User)
    (codes : Table S RecoveryCode) (laws : TableLaws codes) (apart_t : Apart codes laws tokens)
    (apart_u : Apart codes laws users) where
  -- From a table whose hashes were made under other salts than the one that UseRecoveryCode draws
  -- later: after RegenerateCodes, whose salts differ from it too and whose codes are hashed without an
  -- error, UseRecoveryCode succeeds with no code, also not with one that was just returned.
  pub regenerated_refused :
      (e : CodeDraws) (at id : ℕ) (totp : Bytes) (d : LoginDraws) (salt : Bytes) (token : String)
      (code : Bytes) (s : S)
      → ((c : RecoveryCode) → In c (laws.rows s) → IsSaltedApart lib salt c)
      → IsDrawnApart lib salt e
      → (r : Issued)
      → let s1 = (regenerate_codes lib key users codes e at totp id s).1 in
        ¬ ((use_recovery_code lib key crypto cfg tokens users codes d salt token code s1).0 ≡ ok r)
  regenerated_refused e at id totp d salt token code s apart drawn r =
      use_recovery_code_refused lib lib_laws key crypto cfg tokens users codes laws apart_t apart_u
        d salt token code (regenerate_codes lib key users codes e at totp id s).1
        (regenerate_codes-Keeps lib key users codes laws apart_u salt e at totp id drawn s apart) r
