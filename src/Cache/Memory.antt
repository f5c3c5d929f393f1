-- ===== src/Cache/Memory.antt =====
-- internal/cache/memory.go: a map with expiry, and the patterns of `Clear`. A key is on the list once
-- at most; an entry that has expired stays until it is written or deleted.
use base_go_api.Prelude.{
  ℕ, Bool, true, false, ◌&&◌, not, List, [], ◌∷◌, Option, none, some, if◌then◌else◌, keep, ◌-◌,
  length, take, drop,
}
use base_go_api.Prelude.Bytes.{Bytes, bytes_eq, codes, has_prefix, has_suffix, contains}
use base_go_api.Prelude.Outcome.{ok, Call}
use base_go_api.Cache.Driver.{Driver, Entry, live, held, expiry}

abbrev pub Store : Type 0
Store = List (Bytes × Entry)

unfoldable pub find_entry : Bytes → Store → Option Entry
find_entry k [] = none
find_entry k ((j, e) ∷ m) = if bytes_eq k j then some e else find_entry k m

unfoldable pub put_entry : Bytes → Entry → Store → Store
put_entry k e [] = (k, e) ∷ []
put_entry k e ((j, f) ∷ m) = if bytes_eq k j then (k, e) ∷ m else (j, f) ∷ put_entry k e m

unfoldable pub get : Bytes → ℕ → Call Store (Option Bytes)
unfolding find_entry
get k now m = (ok (live now (find_entry k m)), m)

unfoldable pub set : Bytes → Bytes → ℕ → ℕ → Call Store (Unit {0})
unfolding put_entry
set k v ttl now m = (ok tt, put_entry k (record { value = v; expires_at = expiry now ttl }) m)

-- `later` is the second reading of the clock.
unfoldable pub set_nx : Bytes → Bytes → ℕ → ℕ → ℕ → Call Store Bool
unfolding find_entry put_entry
set_nx k v ttl now later m =
    if held now (find_entry k m)
    then (ok false, m)
    else (ok true, put_entry k (record { value = v; expires_at = expiry later ttl }) m)

unfoldable pub delete : Bytes → Call Store (Unit {0})
delete k m = (ok tt, keep (λ e. not (bytes_eq k e.0)) m)

unfoldable pub exists : Bytes → ℕ → Call Store Bool
unfolding find_entry
exists k now m = (ok (elim (live now (find_entry k m)) [ none ↦ false | some v ↦ true ]), m)

unfoldable pub close : Call Store (Unit {0})
close m = (ok tt, [])

-- `pattern[i:j]`
abbrev pub slice : ℕ → ℕ → Bytes → Bytes
slice i j s = take (j - i) (drop i s)

unfoldable pub matches_pattern : Bytes → Bytes → Bool
matches_pattern key pattern =
    if bytes_eq pattern (codes "*")
    then true
    else if has_prefix pattern (codes "*") && has_suffix pattern (codes "*")
    then contains key (slice 1 (length pattern - 1) pattern)
    else if has_suffix pattern (codes "*")
    then has_prefix key (slice 0 (length pattern - 1) pattern)
    else if has_prefix pattern (codes "*")
    then has_suffix key (slice 1 (length pattern) pattern)
    else bytes_eq key pattern

unfoldable pub clear : Bytes → Call Store (Unit {0})
unfolding matches_pattern
clear pattern m = (ok tt, keep (λ e. not (matches_pattern e.0 pattern)) m)

abbrev pub memory_driver : Driver
memory_driver = record {
  State = Store;
  get = get;
  set = set;
  set_nx = λ k v ttl now. set_nx k v ttl now now;
  delete = delete;
  exists = exists;
  clear = clear;
}
