-- ===== src/Cache/Laws.antt =====
-- The cache in memory: reads after writes, the lock that `SetNX` is, expiry, and clearing by pattern.
use base_go_api.Prelude.{
  ℕ, ◌<◌, ◌≤◌, ◌≡◌, refl, ap, ◌∙◌, Bool, true, false, not, [], ◌∷◌, none, some, arith,
  if◌then◌else◌, keep,
}
use base_go_api.Prelude.Bytes.{Bytes, bytes_eq, bytes_eq_refl, eq_of_bytes_eq, bytes_eq_sym}
use base_go_api.Prelude.Outcome.{ok}
use base_go_api.Cache.Driver.{held, Entry, Laws, live, expiry}
use base_go_api.Cache.Memory.{
  Store, find_entry, put_entry, get, set, set_nx, delete, exists, matches_pattern, clear,
  memory_driver,
}

-- A write is found under its key, and every other key reads as before.
pub find_entry-put_entry :
    (k : Bytes) (e : Entry) (m : Store) (j : Bytes)
    → find_entry j (put_entry k e m) ≡ (if bytes_eq j k then some e else find_entry j m)
unfolding find_entry put_entry
find_entry-put_entry k e [] j = refl
find_entry-put_entry k e ((i, f) ∷ m) j = ground (
  arith,
  find_entry-put_entry k e m j,
  eq_of_bytes_eq k i,
  eq_of_bytes_eq j k,
  eq_of_bytes_eq j i,
  bytes_eq_refl k,
  bytes_eq_sym j i,
  bytes_eq_sym k i,
)

pub get_lem : (k : Bytes) (now : ℕ) (m : Store) → get k now m ≡ (ok (live now (find_entry k m)), m)
unfolding get
get_lem k now m = refl

pub set_lem :
    (k v : Bytes) (ttl now : ℕ) (m : Store)
    → set k v ttl now m ≡ (ok tt, put_entry k (record { value = v; expires_at = expiry now ttl }) m)
unfolding set
set_lem k v ttl now m = refl

pub set_nx_lem :
    (k v : Bytes) (ttl now : ℕ) (m : Store)
    → (set_nx k v ttl now now m).0 ≡ ok (not (held now (find_entry k m)))
unfolding set_nx
set_nx_lem k v ttl now m = ground arith

pub find_entry-set_nx :
    (k v : Bytes) (ttl now : ℕ) (m : Store) (j : Bytes)
    → find_entry j (set_nx k v ttl now now m).1 ≡ (
        if held now (find_entry k m)
        then find_entry j m
        else if bytes_eq j k
        then some (record { value = v; expires_at = expiry now ttl })
        else find_entry j m)
unfolding set_nx
find_entry-set_nx k v ttl now m j =
    ground (arith, find_entry-put_entry k (record { value = v; expires_at = expiry now ttl }) m j)

-- The driver in memory has what the clients of a cache rely on.
abbrev pub memory-Laws : Laws memory_driver
memory-Laws = record {
  entry = λ m k. find_entry k m;
  get_lem = get_lem;
  set_runs = λ k v ttl now m. ap (λ r. r.0) (set_lem k v ttl now m);
  entry-set = λ k v ttl now m j.
      ap (λ r. find_entry j r.1) (set_lem k v ttl now m)
      ∙ find_entry-put_entry k (record { value = v; expires_at = expiry now ttl }) m j;
  set_nx_lem = set_nx_lem;
  entry-set_nx = find_entry-set_nx;
}

find_entry-keep :
    (p : Bytes → Bool) (m : Store) (j : Bytes)
    → find_entry j (keep (λ e. p e.0) m) ≡ (if p j then find_entry j m else none)
unfolding find_entry
find_entry-keep p [] j = ground arith
find_entry-keep p ((i, f) ∷ m) j = ground (arith, find_entry-keep p m j, eq_of_bytes_eq j i)

-- After `Delete` the key is gone, and every other key reads as before.
pub get-delete :
    (k j : Bytes) (now : ℕ) (m : Store)
    → (get j now (delete k m).1).0 ≡ (if bytes_eq j k then ok none else (get j now m).0)
unfolding get delete
get-delete k j now m =
    ground (arith, find_entry-keep (λ i. not (bytes_eq k i)) m j, bytes_eq_sym k j)

-- After `Clear` the keys that match the pattern are gone, and every other key reads as before.
pub get-clear :
    (pattern j : Bytes) (now : ℕ) (m : Store)
    → (get j now (clear pattern m).1).0
      ≡ (if matches_pattern j pattern then ok none else (get j now m).0)
unfolding get clear
get-clear pattern j now m =
    ground (arith, find_entry-keep (λ i. not (matches_pattern i pattern)) m j)

-- A lock that `SetNX` has acquired with a time to live is refused to every later caller before its
-- expiry, who changes nothing; at its expiry and after, the next caller acquires it.
pub set_nx_excludes :
    (k v w : Bytes) (ttl ttl' now later then' : ℕ) (m : Store)
    → (set_nx k v ttl now later m).0 ≡ ok true
    → let m1 = (set_nx k v ttl now later m).1 in
      (then' < expiry later ttl → set_nx k w ttl' then' then' m1 ≡ (ok false, m1))
      × (expiry later ttl ≤ then' → (set_nx k w ttl' then' then' m1).0 ≡ ok true)
unfolding set_nx
set_nx_excludes k v w ttl ttl' now later then' m h = ground (
  arith,
  find_entry-put_entry k (record { value = v; expires_at = expiry later ttl }) m k,
  bytes_eq_refl k,
)

-- At the very instant of its expiry a key is still there for `Get` and `Exists`, and no longer held
-- for `SetNX`, which acquires it.
pub expiry_instant :
    (k v w : Bytes) (ttl ttl' now : ℕ) (m : Store)
    → let m1 = (set k v ttl now m).1 in
      let end = expiry now ttl in
      ((get k end m1).0 ≡ ok (some v))
      × ((exists k end m1).0 ≡ ok true)
      × ((set_nx k w ttl' end end m1).0 ≡ ok true)
unfolding set get exists set_nx
expiry_instant k v w ttl ttl' now m = ground (
  arith,
  find_entry-put_entry k (record { value = v; expires_at = expiry now ttl }) m k,
  bytes_eq_refl k,
)
