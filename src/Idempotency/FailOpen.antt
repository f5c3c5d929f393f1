-- ===== src/Idempotency/FailOpen.antt =====
-- The middleware of internal/http/middleware/idempotency.go over a cache that fails.
use base_go_api.Prelude.{ℕ, ◌≡◌, refl, Bool, ◌||◌, inl, inr, arith, if◌then◌else◌, Option-cases}
use base_go_api.Prelude.Bytes.{Bytes, codes}
use base_go_api.Prelude.Outcome.{err}
use base_go_api.Errors.{Error}
use base_go_api.Sql.Table.{Table}
use base_go_api.Cache.Driver.{Driver}
use base_go_api.Idempotency.Record.{IdempotencyRecord}
use base_go_api.Idempotency.Request.{
  Library, Config, Request, Run, served, refused, Times, World, lock_key, guard_seconds, skips,
  valid_key,
}
use base_go_api.Idempotency.Middleware.{run_handler, acquire, guarded, middleware}

-- Every read and every `SetNX` of the cache reports an error.
pub record IsDown (cache : Driver) : Type 0 where
  pub get_fails :
      (k : Bytes) (now : ℕ) (c : cache.State) → (e : Error) × ((cache.get k now c).0 ≡ err e)
  pub set_nx_fails :
      (k v : Bytes) (ttl now : ℕ) (c : cache.State)
      → (e : Error) × ((cache.set_nx k v ttl now c).0 ≡ err e)

module _ (lib : Library) (cfg : Config) (cache : Driver) {D A : Type 0}
    (records : Table D IdempotencyRecord) (next : Request → A → Run × A) where
  acquire_down :
      (user : Bytes) (t : Times) (r : Request) (w : World cache.State D A)
      → IsDown cache
      → let (out, w1) = acquire lib cfg cache records next t user r w in
        (out.0 ≡ served (next r w.app).0) × (w1.app ≡ (next r w.app).1)
  unfolding acquire run_handler
  acquire_down user t r w down =
      let (e, failed) =
        down.set_nx_fails (lock_key lib user r)
          (lib.write_lock
            (record { status = codes "processing"; request_hash = lib.sha256_hex r.body }))
          (guard_seconds cfg) t.acquired w.cache in
      rw (acquire, failed) (refl, refl)

  guarded_down :
      (user : Bytes) (t : Times) (r : Request) (w : World cache.State D A)
      → IsDown cache
      → let (out, w1) = guarded lib cfg cache records next t user r w in
        (out.0 ≡ served (next r w.app).0) × (w1.app ≡ (next r w.app).1)
  unfolding guarded
  guarded_down user t r w down =
      let (e, failed) = down.get_fails (lock_key lib user r) t.lock_read w.cache in
      let c = (cache.get (lock_key lib user r) t.lock_read w.cache).1 in
      rw (guarded, failed) (acquire_down user t r (record w { cache = c }) down)

  -- Over a cache whose reads and whose `SetNX` fail, every request that the middleware leaves alone or
  -- whose key is valid is served by one run of the handler, as without the middleware, and any other
  -- one is refused as invalid, with no run.
  pub fails_open :
      (has_cache : Bool) (t : Times) (r : Request) (w : World cache.State D A)
      → IsDown cache
      → let (out, w1) = middleware lib cfg cache records next has_cache t r w in
        let (run, a) = next r w.app in
        let served_here = skips cfg has_cache r || valid_key lib cfg r in
        (out.0 ≡ (if served_here then served run else refused 400 "INVALID_IDEMPOTENCY_KEY"))
        × (w1.app ≡ (if served_here then a else w.app))
  unfolding middleware
  fails_open has_cache t r w down = elim (Option-cases r.user) [
    | inl nobody ↦ ground (arith)
    | inr (user, own) ↦ let (x, y) = guarded_down user t r w down in ground arith
  ]
