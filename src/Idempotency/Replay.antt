-- ===== src/Idempotency/Replay.antt =====
-- The steps of the middleware of internal/http/middleware/idempotency.go by what it finds under its lock.
use base_go_api.Prelude.{ℕ, ◌≤◌, ◌≡◌, true, false, ◌++◌, none, some, arith}
use base_go_api.Prelude.Bytes.{Bytes, bytes_eq, bytes_eq-append, codes}
use base_go_api.Sql.Table.{Table}
use base_go_api.Cache.Driver.{Driver, Laws, live, held}
use base_go_api.Idempotency.Record.{IdempotencyRecord}
use base_go_api.Idempotency.Request.{
  Library, Roundtrips, Config, Request, Run, served, replayed, refused, CachedResponse, Times,
  World, skips, valid_key, request_key, lock_key, record_key, guard_seconds, pending_of,
}
use base_go_api.Idempotency.Middleware.{
  replay, replay_from_cache, run_handler, acquire, locked, guarded, middleware,
}
use base_go_api.Idempotency.Store.{completed_lock}

pub lock_ne_record : (k : Bytes) → bytes_eq (k ++ codes ":lock") (k ++ codes ":record") ≡ false
lock_ne_record k = bytes_eq-append k (codes ":lock") (codes ":record")

-- A request of a user that the middleware handles under a key.
abbrev pub IsFor : Library → Config → Bytes → Bytes → Request → Type 0
IsFor lib cfg user k r =
    (skips cfg true r ≡ false)
    × (valid_key lib cfg r ≡ true)
    × (r.user ≡ some user)
    × (request_key lib user r ≡ k)

module _ (lib : Library) (cfg : Config) (cache : Driver) (laws : Laws cache) {D A : Type 0}
    (records : Table D IdempotencyRecord) (next : Request → A → Run × A) where
  open laws use {entry, get_lem, entry-set, set_nx_lem, entry-set_nx}

  pub middleware-guarded :
      (user k : Bytes) (t : Times) (r : Request) (w : World cache.State D A)
      → IsFor lib cfg user k r
      → middleware lib cfg cache records next true t r w
        ≡ guarded lib cfg cache records next t user r w
  unfolding middleware
  middleware-guarded user k t r w (handled, valid, own, key) = simp (handled, valid, own)

  -- A key that no live lock holds: the lock is taken, and the handler runs.
  pub guarded_free :
      (user : Bytes) (t : Times) (r : Request) (w : World cache.State D A)
      → live t.lock_read (entry w.cache (lock_key lib user r)) ≡ none
      → held t.acquired (entry w.cache (lock_key lib user r)) ≡ false
      → guarded lib cfg cache records next t user r w ≡ (
        (served (next r w.app).0, some (pending_of lib user r (next r w.app).0)),
        record w {
          cache =
              (cache.set_nx
                (lock_key lib user r)
                (lib.write_lock
                  (record { status = codes "processing"; request_hash = lib.sha256_hex r.body }))
                (guard_seconds cfg)
                t.acquired
                w.cache).1;
          app = (next r w.app).1;
        },
      )
  unfolding guarded acquire run_handler
  guarded_free user t r w dead free =
      let v =
        lib.write_lock
          (record { status = codes "processing"; request_hash = lib.sha256_hex r.body }) in
      ground (
        arith,
        get_lem (lock_key lib user r) t.lock_read w.cache,
        set_nx_lem (lock_key lib user r) v (guard_seconds cfg) t.acquired w.cache,
      )

  -- A live lock at the time of `SetNX`: no run.
  pub acquire-held :
      (user : Bytes) (t : Times) (r : Request) (w : World cache.State D A)
      → held t.acquired (entry w.cache (lock_key lib user r)) ≡ true
      → (acquire lib cfg cache records next t user r w).0
          ≡ (refused 409 "IDEMPOTENCY_CONFLICT", none)
        × ((acquire lib cfg cache records next t user r w).1.app ≡ w.app)
  unfolding acquire
  acquire-held user t r w taken =
      let v =
        lib.write_lock
          (record { status = codes "processing"; request_hash = lib.sha256_hex r.body }) in
      ground (arith, set_nx_lem (lock_key lib user r) v (guard_seconds cfg) t.acquired w.cache)

  module _ (trip : Roundtrips lib) where
    open trip use {read_lock-write_lock, read_response-write_response}

    -- A live lock that says `processing`.
    pub guarded_processing :
        (user h : Bytes) (t : Times) (r : Request) (w : World cache.State D A) (x : ℕ)
        → entry w.cache (lock_key lib user r)
          ≡ some (record {
            value = lib.write_lock (record { status = codes "processing"; request_hash = h });
            expires_at = x;
          })
        → t.lock_read ≤ x
        → guarded lib cfg cache records next t user r w
          ≡ ((refused 409 "IDEMPOTENCY_PROCESSING", none), w)
    unfolding guarded locked
    guarded_processing user h t r w x lock le = ground (
      arith,
      get_lem (lock_key lib user r) t.lock_read w.cache,
      read_lock-write_lock (record { status = codes "processing"; request_hash = h }),
    )

    -- A completed lock and a stored response, both alive: the response is the answer.
    pub guarded_replay :
        (user : Bytes) (t : Times) (r : Request) (w : World cache.State D A)
        (stored : CachedResponse) (x y : ℕ)
        → entry w.cache (lock_key lib user r)
          ≡ some (record { value = lib.write_lock completed_lock; expires_at = x })
        → entry w.cache (record_key lib user r)
          ≡ some (record { value = lib.write_response stored; expires_at = y })
        → t.lock_read ≤ x
        → t.record_read ≤ y
        → guarded lib cfg cache records next t user r w ≡ ((replayed stored, none), w)
    unfolding guarded locked replay replay_from_cache
    guarded_replay user t r w stored x y lock rec le1 le2 = ground (
      arith,
      get_lem (lock_key lib user r) t.lock_read w.cache,
      get_lem (record_key lib user r) t.record_read w.cache,
      read_lock-write_lock completed_lock,
      read_response-write_response stored,
    )
