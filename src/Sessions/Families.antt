-- ===== src/Sessions/Families.antt =====
-- The families of refresh tokens, and the tokens in each that are not revoked.
use base_go_api.Prelude.{
  ℕ, suc, ◌≤◌, ◌&&◌, ◌≡◌, refl, Bool, true, false, not, List, [], ◌∷◌, arith, keep, inl, inr,
}
use base_go_api.Sql.Table.{In, count, updated}
use base_go_api.Sessions.Token.{RefreshToken, is_revoked, is_in_family}
use base_go_api.Sessions.Repository.{revoke}

-- A token that `Refresh` may still rotate, but for its expiry.
abbrev pub live : ℕ → RefreshToken → Bool
live family t = is_in_family family t && not (is_revoked t)

-- Each family has at most one live token.
abbrev pub IsRotated : List RefreshToken → Type 0
IsRotated rows = (family : ℕ) → count (live family) rows ≤ 1

module _ (p : RefreshToken → Bool) (now family : ℕ) where
  count-revoke :
      (rows : List RefreshToken)
      → count (live family) (updated p (revoke now) rows) ≤ count (live family) rows
  count-revoke [] = omega arith
  count-revoke (t ∷ rows) = ground (arith, count-revoke rows)

  count-revoke_one :
      (rows : List RefreshToken) (t : RefreshToken)
      → In t rows
      → p t ≡ true
      → live family t ≡ true
      → suc (count (live family) (updated p (revoke now) rows)) ≤ count (live family) rows
  count-revoke_one [] t there passes alive = elim there [ ]
  count-revoke_one (u ∷ rows) t (inl same) passes alive = ground (arith, count-revoke rows)
  count-revoke_one (u ∷ rows) t (inr there) passes alive =
      ground (arith, count-revoke_one rows t there passes alive)

pub revoke-IsRotated :
    (p : RefreshToken → Bool) (now : ℕ) (rows : List RefreshToken)
    → IsRotated rows
    → IsRotated (updated p (revoke now) rows)
revoke-IsRotated p now rows h family =
    let le = count-revoke p now family rows in let one = h family in omega arith

pub delete-IsRotated :
    (p : RefreshToken → Bool) (rows : List RefreshToken) → IsRotated rows → IsRotated (keep p rows)
delete-IsRotated p rows h family = let le = fewer rows in let one = h family in omega arith
  where
    fewer : (l : List RefreshToken) → count (live family) (keep p l) ≤ count (live family) l
    fewer [] = omega arith
    fewer (t ∷ l) = ground (arith, fewer l)

-- A rotation: the live token of the family gives way to its successor.
pub rotate-IsRotated :
    (p : RefreshToken → Bool) (now : ℕ) (rows : List RefreshToken) (stored next : RefreshToken)
    → IsRotated rows
    → In stored rows
    → p stored ≡ true
    → is_revoked stored ≡ false
    → next.family_id ≡ stored.family_id
    → IsRotated (next ∷ updated p (revoke now) rows)
rotate-IsRotated p now rows stored next h there passes alive same family = ground (
  arith,
  h family,
  count-revoke p now family rows,
  count-revoke_one p now family rows stored there passes,
)

-- A login: a new family.
pub login-IsRotated :
    (rows : List RefreshToken) (next : RefreshToken)
    → IsRotated rows
    → count (is_in_family next.family_id) rows ≡ 0
    → IsRotated (next ∷ rows)
login-IsRotated rows next h fresh family = ground (arith, h family, unborn rows fresh)
  where
    unborn :
        (l : List RefreshToken)
        → count (is_in_family next.family_id) l ≡ 0
        → count (live next.family_id) l ≡ 0
    unborn [] e = refl
    unborn (t ∷ l) e = ground (arith, unborn l)
