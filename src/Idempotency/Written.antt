-- ===== src/Idempotency/Written.antt =====
-- What store_in_cache leaves under the keys of a request: the writes to the cache of storeResult in
-- internal/http/middleware/idempotency.go.
use base_go_api.Prelude.{◌≡◌, refl, ◌∙◌, true, some, arith, leb, length}
use base_go_api.Prelude.Bytes.{bytes_eq_refl}
use base_go_api.Cache.Driver.{Driver, Laws, expiry}
use base_go_api.Idempotency.Request.{
  Library, Config, Pending, request_key, lock_key, record_key, guard_seconds, record_seconds,
  max_size,
}
use base_go_api.Idempotency.Store.{Draws, completed_lock, response_of, store_in_cache}
use base_go_api.Idempotency.Replay.{lock_ne_record}

module _ (lib : Library) (cfg : Config) (cache : Driver) (laws : Laws cache) where
  open laws use {entry, entry-set}

  pub stored_lock :
      (s : Draws) (p : Pending) (c : cache.State)
      → entry (store_in_cache lib cfg cache s p c) (lock_key lib p.user p.request)
        ≡ some (record {
          value = lib.write_lock completed_lock;
          expires_at = expiry s.lock_set (guard_seconds cfg);
        })
  unfolding store_in_cache
  stored_lock s p c =
      let k = lock_key lib p.user p.request in
      let j = record_key lib p.user p.request in
      let v = lib.write_lock completed_lock in
      ground (
        arith,
        entry-set k v (guard_seconds cfg) s.lock_set c k,
        entry-set j (lib.write_response (response_of p)) (record_seconds cfg) s.record_set
            (cache.set k v (guard_seconds cfg) s.lock_set c).1 k,
        bytes_eq_refl k,
        lock_ne_record (request_key lib p.user p.request),
      )

  pub stored_record :
      (s : Draws) (p : Pending) (c : cache.State)
      → leb (length p.body) (max_size cfg) ≡ true
      → entry (store_in_cache lib cfg cache s p c) (record_key lib p.user p.request)
        ≡ some (record {
          value = lib.write_response (response_of p);
          expires_at = expiry s.record_set (record_seconds cfg);
        })
  unfolding store_in_cache
  stored_record s p c small =
      let k = lock_key lib p.user p.request in
      let j = record_key lib p.user p.request in
      rw small (
        entry-set j (lib.write_response (response_of p)) (record_seconds cfg) s.record_set
          (cache.set k (lib.write_lock completed_lock) (guard_seconds cfg) s.lock_set c).1 j
        ∙ rw (bytes_eq_refl j) refl)
