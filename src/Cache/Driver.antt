-- ===== src/Cache/Driver.antt =====
-- The interface `Driver` of internal/cache/cache.go over an explicit state. Each method takes the
-- instant at which it reads the clock, in nanoseconds.
use base_go_api.Prelude.{ℕ, ◌+◌, ◌*◌, ◌≡◌, Bool, false, not, Option, none, some, ltb, if◌then◌else◌}
use base_go_api.Prelude.Bytes.{Bytes, bytes_eq}
use base_go_api.Prelude.Outcome.{ok, Call}

pub record Driver : Type 1 where
  pub State : Type 0
  pub get : Bytes → ℕ → Call State (Option Bytes)
  pub set : Bytes → Bytes → ℕ → ℕ → Call State (Unit {0})
  pub set_nx : Bytes → Bytes → ℕ → ℕ → Call State Bool
  pub delete : Bytes → Call State (Unit {0})
  pub exists : Bytes → ℕ → Call State Bool
  pub clear : Bytes → Call State (Unit {0})

pub record Entry : Type 0 where
  pub value : Bytes
  pub expires_at : ℕ

-- `time.Now().Add(time.Duration(ttlSeconds) * time.Second)`
abbrev pub expiry : ℕ → ℕ → ℕ
expiry now ttl = now + ttl * 1_000_000_000

-- What a reader sees of an entry: it lives up to its expiry, and including that instant.
abbrev pub live : ℕ → Option Entry → Option Bytes
live now none = none
live now (some e) = if ltb e.expires_at now then none else some e.value

-- Whether a key is taken for `SetNX`: `found && time.Now().Before(entry.expiresAt)` in memory.
abbrev pub held : ℕ → Option Entry → Bool
held now none = false
held now (some e) = ltb now e.expires_at

-- What the clients of a cache rely on: it is a map of entries, and its methods do not fail.
pub record Laws (c : Driver) : Type 0 where
  pub entry : c.State → Bytes → Option Entry
  pub get_lem : (k : Bytes) (now : ℕ) (s : c.State) → c.get k now s ≡ (ok (live now (entry s k)), s)
  pub set_runs : (k v : Bytes) (ttl now : ℕ) (s : c.State) → (c.set k v ttl now s).0 ≡ ok tt
  pub entry-set :
      (k v : Bytes) (ttl now : ℕ) (s : c.State) (j : Bytes)
      → entry (c.set k v ttl now s).1 j ≡ (
          if bytes_eq j k
          then some (record { value = v; expires_at = expiry now ttl })
          else entry s j)
  pub set_nx_lem :
      (k v : Bytes) (ttl now : ℕ) (s : c.State)
      → (c.set_nx k v ttl now s).0 ≡ ok (not (held now (entry s k)))
  pub entry-set_nx :
      (k v : Bytes) (ttl now : ℕ) (s : c.State) (j : Bytes)
      → entry (c.set_nx k v ttl now s).1 j ≡ (
          if held now (entry s k)
          then entry s j
          else if bytes_eq j k
          then some (record { value = v; expires_at = expiry now ttl })
          else entry s j)
