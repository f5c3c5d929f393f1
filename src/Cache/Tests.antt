-- ===== src/Cache/Tests.antt =====
-- The cache in memory on concrete inputs.
use base_go_api.Prelude.{◌<◌, ◌≤◌, ◌≡◌, refl, true, false, [], ◌∷◌}
use base_go_api.Prelude.Bytes.{codes}
use base_go_api.Prelude.Outcome.{ok}
use base_go_api.Cache.Driver.{expiry}
use base_go_api.Cache.Memory.{Store, set_nx, matches_pattern}
use base_go_api.Cache.Laws.{set_nx_excludes}

abbrev two_keys : Store
two_keys =
    (codes "perm:1", record { value = 1 ∷ []; expires_at = 50 })
    ∷ (codes "rate:1", record { value = 2 ∷ []; expires_at = 50 })
    ∷ []

patterns :
    (matches_pattern (codes "perm:1") (codes "perm:*") ≡ true)
    × (matches_pattern (codes "a:perm:1") (codes "*perm*") ≡ true)
    × (matches_pattern (codes "x:1") (codes "*:1") ≡ true)
    × (matches_pattern (codes "rate:1") (codes "perm:*") ≡ false)
unfolding matches_pattern
patterns = (refl, refl, refl, refl)

lock : (set_nx (codes "lock") (7 ∷ []) 1 0 0 []).0 ≡ ok true
unfolding set_nx
lock = refl

set_nx_excludes_example :
    let m1 = (set_nx (codes "lock") (7 ∷ []) 1 0 0 []).1 in
    (5 < expiry 0 1 → set_nx (codes "lock") (8 ∷ []) 1 5 5 m1 ≡ (ok false, m1))
    × (expiry 0 1 ≤ 5 → (set_nx (codes "lock") (8 ∷ []) 1 5 5 m1).0 ≡ ok true)
set_nx_excludes_example = set_nx_excludes (codes "lock") (7 ∷ []) (8 ∷ []) 1 1 0 0 5 [] lock
