-- ===== src/Idempotency/Keys.antt =====
-- The keys of internal/http/middleware/idempotency.go in the cache, as texts.
use base_go_api.Prelude.{◌≡◌, refl, Bool, true, false, ◌&&◌, not, [], ◌∷◌, ◌++◌, arith, ◌==◌}
use base_go_api.Prelude.Bytes.{Bytes, codes}
use base_go_api.Idempotency.Request.{Library, Request, organization_segment, request_key}

-- No colon.
abbrev pub plain : Bytes → Bool
plain [] = true
plain (c ∷ s) = not (c == b':') && plain s

plain_append : (a x : Bytes) → plain (a ++ (b':' ∷ x)) ≡ false
plain_append [] x = refl
plain_append (c ∷ a) x = ground (arith, plain_append a x)

same_prefix : (p a b : Bytes) → p ++ a ≡ p ++ b → a ≡ b
same_prefix [] a b e = e
same_prefix (c ∷ p) a b e = same_prefix p a b cc

-- The first colon.
cut_first :
    (a b x y : Bytes)
    → plain a ≡ true
    → plain b ≡ true
    → a ++ (b':' ∷ x) ≡ b ++ (b':' ∷ y)
    → (a ≡ b) × (x ≡ y)
cut_first [] [] x y pa pb e = (refl, cc)
cut_first [] (c ∷ b) x y pa pb e = ground arith
cut_first (c ∷ a) [] x y pa pb e = ground arith
cut_first (c ∷ a) (d ∷ b) x y pa pb e =
    let (heads, tails) = cut_first a b x y (ground arith) (ground arith) cc in (ground arith, tails)

-- The last colon.
cut_last :
    (a b x y : Bytes)
    → plain x ≡ true
    → plain y ≡ true
    → a ++ (b':' ∷ x) ≡ b ++ (b':' ∷ y)
    → (a ≡ b) × (x ≡ y)
cut_last [] [] x y px py e = (refl, cc)
cut_last [] (c ∷ b) x y px py e =
    let same : x ≡ b ++ (b':' ∷ y) = cc in let colon = plain_append b y in cc
cut_last (c ∷ a) [] x y px py e =
    let same : a ++ (b':' ∷ x) ≡ y = cc in let colon = plain_append a x in cc
cut_last (c ∷ a) (d ∷ b) x y px py e =
    let (heads, tails) = cut_last a b x y px py cc in (ground arith, tails)

-- The segments before the path and the key of the client have no colon.
abbrev pub IsPlain : Library → Bytes → Request → Type 0
IsPlain lib user r =
    (plain (organization_segment r) ≡ true)
    × (plain user ≡ true)
    × (plain (lib.to_lower r.method) ≡ true)
    × (plain r.raw_key ≡ true)

-- Two requests with the same key in the cache have the same organization (or none), user, lower-case
-- method, path and key of the client, where all of these but the path have no colon.
pub request_key-injective :
    (lib : Library) (u v : Bytes) (r s : Request)
    → IsPlain lib u r
    → IsPlain lib v s
    → request_key lib u r ≡ request_key lib v s
    → (organization_segment r ≡ organization_segment s)
      × (u ≡ v)
      × (lib.to_lower r.method ≡ lib.to_lower s.method)
      × (r.path ≡ s.path)
      × (r.raw_key ≡ s.raw_key)
unfolding request_key
request_key-injective lib u v r s (ro, ru, rm, rk) (so, su, sm, sk) e =
    let (organizations, e1) =
      cut_first (organization_segment r) (organization_segment s) _ _ ro so
        (same_prefix (codes "idem:") _ _ e) in
    let (users, e2) = cut_first u v _ _ ru su e1 in
    let (methods, e3) = cut_first (lib.to_lower r.method) (lib.to_lower s.method) _ _ rm sm e2 in
    let (paths, keys) = cut_last r.path s.path r.raw_key s.raw_key rk sk e3 in
    (organizations, users, methods, paths, keys)
