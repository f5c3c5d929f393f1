-- ===== src/Idempotency/Once.antt =====
-- A request with an idempotency key, the goroutine that stores its answer, and what the requests under
-- the same key get: while the first one runs, while the lock lives, and after it has lapsed.
use base_go_api.Prelude.{
  ℕ, ◌<◌, ◌≤◌, ◌≡◌, refl, ap, sym, ◌∙◌, true, false, List, [], ◌∷◌, ◌++◌, Option, none, some, arith,
  leb, length, All, map,
}
use base_go_api.Prelude.Bytes.{Bytes, bytes_eq_refl, codes}
use base_go_api.Sql.Table.{Table}
use base_go_api.Cache.Driver.{Driver, Laws, live, held, expiry}
use base_go_api.Idempotency.Record.{IdempotencyRecord}
use base_go_api.Idempotency.Request.{
  Library, Roundtrips, Config, Request, Run, Answer, served, replayed, refused, CachedResponse,
  Pending, Times, World, request_key, lock_key, guard_seconds, record_seconds, max_size, pending_of,
}
use base_go_api.Idempotency.Middleware.{acquire, middleware}
use base_go_api.Idempotency.Store.{Draws, completed_lock, response_of, store_result}
use base_go_api.Idempotency.Written.{stored_lock, stored_record}
use base_go_api.Idempotency.Replay.{
  IsFor, middleware-guarded, guarded_free, guarded_processing, guarded_replay, acquire-held,
}

-- A later request under the key `k`, whose reads come before two instants.
abbrev pub IsRetry : Library → Config → Bytes → Bytes → ℕ → ℕ → Times × Request → Type 0
IsRetry lib cfg user k x y (t, r) = IsFor lib cfg user k r × (t.lock_read ≤ x) × (t.record_read ≤ y)

module _ (lib : Library) (cfg : Config) (cache : Driver) (laws : Laws cache) {D A : Type 0}
    (records : Table D IdempotencyRecord) (next : Request → A → Run × A) where
  open laws use {entry, entry-set_nx}

  -- Requests one after the other.
  unfoldable pub play :
      List (Times × Request)
      → World cache.State D A
      → List (Answer × Option Pending) × World cache.State D A
  play [] w = ([], w)
  play ((t, r) ∷ rest) w =
      let (answer, w1) = middleware lib cfg cache records next true t r w in
      let (answers, w2) = play rest w1 in (answer ∷ answers, w2)

  -- The lock of a request, and the world in which its handler has run.
  abbrev processing_lock : Request → Bytes
  processing_lock r =
      lib.write_lock (record { status = codes "processing"; request_hash = lib.sha256_hex r.body })

  abbrev ran : Bytes → Times → Request → World cache.State D A → World cache.State D A
  ran user t r w = record w {
    cache =
        (cache.set_nx (lock_key lib user r) (processing_lock r) (guard_seconds cfg) t.acquired
          w.cache).1;
    app = (next r w.app).1;
  }

  middleware_free :
      (user k : Bytes) (t : Times) (r : Request) (w : World cache.State D A)
      → IsFor lib cfg user k r
      → live t.lock_read (entry w.cache (k ++ codes ":lock")) ≡ none
      → held t.acquired (entry w.cache (k ++ codes ":lock")) ≡ false
      → middleware lib cfg cache records next true t r w
        ≡ ((served (next r w.app).0, some (pending_of lib user r (next r w.app).0)), ran user t r w)
  middleware_free user k t r w own dead free =
      let key = own.3 in
      middleware-guarded lib cfg cache laws records next user k t r w own
      ∙ guarded_free lib cfg cache laws records next user t r w
          (ap (λ j. live t.lock_read (entry w.cache (j ++ codes ":lock"))) key ∙ dead)
          (ap (λ j. held t.acquired (entry w.cache (j ++ codes ":lock"))) key ∙ free)

  entry_ran :
      (user k : Bytes) (t : Times) (r : Request) (w : World cache.State D A)
      → request_key lib user r ≡ k
      → held t.acquired (entry w.cache (k ++ codes ":lock")) ≡ false
      → entry (ran user t r w).cache (k ++ codes ":lock")
        ≡ some (record {
          value = processing_lock r;
          expires_at = expiry t.acquired (guard_seconds cfg);
        })
  entry_ran user k t r w key free =
      ap
        (λ j.
          entry
            (cache.set_nx (j ++ codes ":lock") (processing_lock r) (guard_seconds cfg) t.acquired
              w.cache).1
            (k ++ codes ":lock"))
        key
      ∙ ground (
        arith,
        entry-set_nx (k ++ codes ":lock") (processing_lock r) (guard_seconds cfg) t.acquired w.cache
            (k ++ codes ":lock"),
        bytes_eq_refl (k ++ codes ":lock"),
      )

  module _ (trip : Roundtrips lib) where
    play_replays :
        (user k : Bytes) (stored : CachedResponse) (x y : ℕ) (rs : List (Times × Request))
        (w : World cache.State D A)
        → entry w.cache (k ++ codes ":lock")
          ≡ some (record { value = lib.write_lock completed_lock; expires_at = x })
        → entry w.cache (k ++ codes ":record")
          ≡ some (record { value = lib.write_response stored; expires_at = y })
        → All (IsRetry lib cfg user k x y) rs
        → play rs w ≡ (map (λ _. (replayed stored, none)) rs, w)
    unfolding play
    play_replays user k stored x y [] w lock rec all = refl
    play_replays user k stored x y ((t, r) ∷ rs) w lock rec ((own, le1, le2), all) =
        let key = own.3 in
        let one =
          middleware-guarded lib cfg cache laws records next user k t r w own
          ∙ guarded_replay lib cfg cache laws records next trip user t r w stored x y
              (ap (λ j. entry w.cache (j ++ codes ":lock")) key ∙ lock)
              (ap (λ j. entry w.cache (j ++ codes ":record")) key ∙ rec) le1 le2 in
        simp (one, play_replays user k stored x y rs w lock rec all)

    -- A first request under a key that no live lock holds is served by one run of the handler. Once
    -- its answer, with a body within the limit, is stored, then any list of requests under the same
    -- key, made while the lock and the record live, get the captured answer, and nothing changes: the
    -- handler does not run again, whatever the bodies of these requests are.
    pub first_then_replays :
        (user k : Bytes) (t : Times) (r : Request) (s : Draws) (w : World cache.State D A)
        (rs : List (Times × Request))
        → IsFor lib cfg user k r
        → live t.lock_read (entry w.cache (k ++ codes ":lock")) ≡ none
        → held t.acquired (entry w.cache (k ++ codes ":lock")) ≡ false
        → leb (length (pending_of lib user r (next r w.app).0).body) (max_size cfg) ≡ true
        → All
            (IsRetry lib cfg user k
              (expiry s.lock_set (guard_seconds cfg))
              (expiry s.record_set (record_seconds cfg)))
            rs
        → let (run, a) = next r w.app in
          let p = pending_of lib user r run in
          let (answer, w1) = middleware lib cfg cache records next true t r w in
          let w2 = store_result lib cfg cache records s p w1 in
          (answer ≡ (served run, some p))
          × (w2.app ≡ a)
          × (play rs w2 ≡ (map (λ _. (replayed (response_of p), none)) rs, w2))
    unfolding store_result pending_of
    first_then_replays user k t r s w rs own dead free small all =
        let key = own.3 in
        let first = middleware_free user k t r w own dead free in
        let p = pending_of lib user r (next r w.app).0 in
        let c1 = (middleware lib cfg cache records next true t r w).1.cache in
        let w2 =
          store_result lib cfg cache records s p
            (middleware lib cfg cache records next true t r w).1 in
        (
          ap (λ o. o.0) first,
          ap (λ o. o.1.app) first,
          play_replays user k (response_of p) (expiry s.lock_set (guard_seconds cfg))
              (expiry s.record_set (record_seconds cfg)) rs w2
              (ap (λ j. entry w2.cache (j ++ codes ":lock")) (sym key)
                ∙ stored_lock lib cfg cache laws s p c1)
              (ap (λ j. entry w2.cache (j ++ codes ":record")) (sym key)
                ∙ stored_record lib cfg cache laws s p c1 small)
              all,
        )

    -- From the `SetNX` of a first request, and until its lock expires or is overwritten, another request
    -- under the same key gets 409: `IDEMPOTENCY_PROCESSING`, with nothing changed, where it reads the
    -- lock; `IDEMPOTENCY_CONFLICT`, with no run of the handler, where it has read the cache before the
    -- first one took the lock and comes to its own `SetNX` after that.
    pub one_at_a_time :
        (user k : Bytes) (t t' : Times) (r r' : Request) (w : World cache.State D A)
        → IsFor lib cfg user k r
        → IsFor lib cfg user k r'
        → live t.lock_read (entry w.cache (k ++ codes ":lock")) ≡ none
        → held t.acquired (entry w.cache (k ++ codes ":lock")) ≡ false
        → t'.lock_read ≤ expiry t.acquired (guard_seconds cfg)
        → t'.acquired < expiry t.acquired (guard_seconds cfg)
        → let w1 = (middleware lib cfg cache records next true t r w).1 in
          let late = acquire lib cfg cache records next t' user r' w1 in
          (middleware lib cfg cache records next true t' r' w1
            ≡ ((refused 409 "IDEMPOTENCY_PROCESSING", none), w1))
          × (late.0 ≡ (refused 409 "IDEMPOTENCY_CONFLICT", none))
          × (late.1.app ≡ w1.app)
    one_at_a_time user k t t' r r' w own own' dead free le lt =
        let first = ap (λ o. o.1) (middleware_free user k t r w own dead free) in
        let w1 = (middleware lib cfg cache records next true t r w).1 in
        let there : entry w1.cache (lock_key lib user r')
            ≡ some (record {
              value = processing_lock r;
              expires_at = expiry t.acquired (guard_seconds cfg);
            }) =
          ap (λ j. entry w1.cache (j ++ codes ":lock")) own'.3
          ∙ ap (λ v. entry v.cache (k ++ codes ":lock")) first
          ∙ entry_ran user k t r w own.3 free in
        let (refused_late, kept) =
          acquire-held lib cfg cache laws records next user t' r' w1 (rw there (ground arith)) in
        (
          middleware-guarded lib cfg cache laws records next user k t' r' w1 own'
              ∙ guarded_processing lib cfg cache laws records next trip user (lib.sha256_hex r.body)
                  t' r' w1 (expiry t.acquired (guard_seconds cfg)) there le,
          refused_late,
          kept,
        )

  -- Once the lock of a stored answer has expired, which takes the guard TTL and not the longer TTL of
  -- the record, a request under the same key runs the handler again, although its answer is stored.
  pub guard_lapses :
      (user k : Bytes) (t : Times) (r : Request) (s : Draws) (p : Pending)
      (w : World cache.State D A)
      → IsFor lib cfg user k r
      → request_key lib p.user p.request ≡ k
      → expiry s.lock_set (guard_seconds cfg) < t.lock_read
      → expiry s.lock_set (guard_seconds cfg) ≤ t.acquired
      → let w' = store_result lib cfg cache records s p w in
        let (run, a) = next r w'.app in
        let (answer, w1) = middleware lib cfg cache records next true t r w' in
        (answer ≡ (served run, some (pending_of lib user r run))) × (w1.app ≡ a)
  unfolding store_result
  guard_lapses user k t r s p w own key read taken =
      let w' = store_result lib cfg cache records s p w in
      let there =
        ap (λ j. entry w'.cache (j ++ codes ":lock")) (sym key)
        ∙ stored_lock lib cfg cache laws s p w.cache in
      let first =
        middleware_free user k t r w' own (rw there (ground arith)) (rw there (ground arith)) in
      (ap (λ o. o.0) first, ap (λ o. o.1.app) first)
