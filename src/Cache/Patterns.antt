-- ===== src/Cache/Patterns.antt =====
-- What the patterns of `Clear` mean: `matchesPattern` of internal/cache/memory.go.
use mathlib.Core.List.{reverse-append}
use base_go_api.Prelude.{
  ℕ, suc, ◌-◌, ◌≡◌, refl, ap, ◌↔◌, ◌≢◌, true, false, [], ◌∷◌, ◌++◌, arith, length, take,
}
use base_go_api.Prelude.Bytes.{Bytes, bytes_eq, codes, has_prefix, has_suffix, has_prefix_iff}
use base_go_api.Cache.Memory.{slice, matches_pattern}

take_exact : (p r : Bytes) → take (length p) (p ++ r) ≡ p
take_exact [] r = refl
take_exact (d ∷ p) r = ground (arith, take_exact p r)

length-snoc : (p : Bytes) (c : ℕ) → length (p ++ c ∷ []) ≡ suc (length p)
length-snoc [] c = refl
length-snoc (d ∷ p) c = ap suc (length-snoc p c)

slice-snoc : (p : Bytes) (c : ℕ) → slice 0 (length (p ++ c ∷ []) - 1) (p ++ c ∷ []) ≡ p
slice-snoc p c =
    let e : length (p ++ c ∷ []) - 1 - 0 ≡ length p = omega (arith, length-snoc p c) in
    rw e (take_exact p (c ∷ []))

star_last : (p : Bytes) → has_suffix (p ++ codes "*") (codes "*") ≡ true
star_last p = rw (reverse-append p (codes "*")) refl

star_alone : (p : Bytes) → bytes_eq (p ++ codes "*") (codes "*") ≡ true → p ≡ []
star_alone [] h = refl
star_alone (c ∷ []) h = ground arith
star_alone (c ∷ d ∷ p) h = ground arith

first_of_append :
    (p : Bytes) → p ≢ [] → has_prefix (p ++ codes "*") (codes "*") ≡ has_prefix p (codes "*")
first_of_append [] h = absurd (h refl)
first_of_append (c ∷ p) h = refl

-- A pattern `p*`, where p does not begin with a star, matches exactly the keys that begin with p.
pub matches_prefix_iff :
    (p key : Bytes)
    → has_prefix p (codes "*") ≡ false
    → (matches_pattern key (p ++ codes "*") ≡ true) ↔ ((rest : Bytes) × (key ≡ p ++ rest))
unfolding matches_pattern
matches_prefix_iff [] key h = (λ _. (key, refl), λ _. refl)
matches_prefix_iff (c ∷ p) key h =
    let same : matches_pattern key ((c ∷ p) ++ codes "*") ≡ has_prefix key (c ∷ p) =
      ground (arith, star_last (c ∷ p), slice-snoc (c ∷ p) 42, star_alone (c ∷ p)) in
    rw same (has_prefix_iff key (c ∷ p))
