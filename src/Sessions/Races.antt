-- ===== src/Sessions/Races.antt =====
-- Two calls of `Refresh` that interleave, and what `Logout` leaves.
use base_go_api.Prelude.{
  ℕ, ◌≤◌, ◌==◌, ◌&&◌, ◌≡◌, refl, ap, sym, ◌∙◌, String, Bool, false, not, List, [], ◌∷◌, arith,
  str_eq, if◌then◌else◌, Bool-cases, inl, inr,
}
use base_go_api.Prelude.Keeping.{bind_ends}
use base_go_api.Prelude.Outcome.{ok, ◌>>=◌, pure, attempt}
use base_go_api.Sql.Table.{Table, Laws, Apart, count, updated}
use base_go_api.Sessions.Token.{RefreshToken, is_revoked, PasswordResetToken, is_used, User}
use base_go_api.Sessions.Repository.{revoke, use_up, revoke_all_by_user, revoke_resets_by_user}
use base_go_api.Sessions.Service.{Crypto, Config, Draws, Issued, rotate, logout}
use base_go_api.Sessions.Effects.{rotate-ok, revoke_all_by_user-ok}
use base_go_api.Sessions.Families.{live}

-- A session of a user that is not revoked.
abbrev pub open_for : ℕ → RefreshToken → Bool
open_for user t = t.user_id == user && not (is_revoked t)

closed_for :
    (now user : ℕ) (l : List RefreshToken)
    → count (open_for user) (updated (open_for user) (revoke now) l) ≡ 0
closed_for now user [] = refl
closed_for now user (t ∷ l) = ground (arith, closed_for now user l)

module _ (crypto : Crypto) (cfg : Config) {S : Type 0} (tokens : Table S RefreshToken)
    (resets : Table S PasswordResetToken) (users : Table S User) (laws : Laws tokens) where
  open laws use {rows}

  -- Two calls of `Refresh` have read one token before either revokes it: if both then go on without
  -- error, and the first successor does not have the hash of the token, the family has at least two
  -- tokens that are not revoked.
  pub refresh_race :
      (t1 t2 : Draws) (hash : String) (stored : RefreshToken) (u1 u2 : User) (s : S)
      {r1 r2 : Issued} {g : String × String}
      → (rotate crypto cfg tokens resets users t1 hash stored u1 s).0 ≡ ok r1
      → t1.generated ≡ ok g
      → str_eq g.1 hash ≡ false
      → let s1 = (rotate crypto cfg tokens resets users t1 hash stored u1 s).1 in
        (rotate crypto cfg tokens resets users t2 hash stored u2 s1).0 ≡ ok r2
        → 2
          ≤ count
              (live stored.family_id)
              (rows (rotate crypto cfg tokens resets users t2 hash stored u2 s1).1)
  refresh_race t1 t2 hash stored u1 u2 s {r1} {r2} {g} h1 drawn other h2 =
      let s1 = (rotate crypto cfg tokens resets users t1 hash stored u1 s).1 in
      let (g1, drawn1, gives1, after1) =
        rotate-ok crypto cfg tokens resets users laws t1 hash stored u1 s h1 in
      let (g2, drawn2, gives2, after2) =
        rotate-ok crypto cfg tokens resets users laws t2 hash stored u2 s1 h2 in
      let same : g1 ≡ g = ok_injective (sym drawn1 ∙ drawn) in
      let kept : str_eq g1.1 hash ≡ false =
        ap (λ (x : String × String). str_eq x.1 hash) same ∙ other in
      rw (after2, after1) (ground arith)
    where
      ok_injective : {a b : String × String} → (ok a ≡ ok b) → a ≡ b
      ok_injective e = cc

  module _ (apart : Apart tokens laws resets) where
    revoke_resets_rows :
        (now user : ℕ) (s : S) → rows (revoke_resets_by_user resets now user s).1 ≡ rows s
    unfolding revoke_resets_by_user
    revoke_resets_rows now user s =
        ground
          (arith, apart.update_apart (λ t. t.user_id == user && not (is_used t)) (use_up now) s)

    -- Once `Logout` has succeeded, the user has no session that is not revoked.
    pub logout_ends_sessions :
        (now later : ℕ) (has_resets : Bool) (user : ℕ) (s : S)
        → (logout crypto cfg tokens resets users now later has_resets user s).0 ≡ ok tt
        → count
            (open_for user)
            (rows (logout crypto cfg tokens resets users now later has_resets user s).1)
          ≡ 0
    unfolding logout
    logout_ends_sessions now later has_resets user s =
        let m = revoke_all_by_user tokens now user in
        let clear = λ (h : (m s).0 ≡ ok tt).
          ap (λ l. count (open_for user) l) (revoke_all_by_user-ok tokens laws now user s h)
          ∙ closed_for now user (rows s) in
        bind_ends (λ r. r.0 ≡ ok tt → count (open_for user) (rows r.1) ≡ 0) m
          (λ _.
            if has_resets
            then attempt (revoke_resets_by_user resets later user) >>= (λ _. pure tt)
            else pure tt)
          s (λ e x y. cc)
          (λ u x y. elim (Bool-cases has_resets) [
            | inl with ↦ rw with (
                ap (λ l. count (open_for user) l) (revoke_resets_rows later user (m s).1) ∙ clear x)
            | inr without ↦ rw without (clear x)
          ])
