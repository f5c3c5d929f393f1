-- ===== src/Idempotency/Middleware.antt =====
-- The middleware of internal/http/middleware/idempotency.go. JSON, the regular expression of a key,
-- SHA-256 and the lower case of a method are library functions and parameters. The goroutine that
-- stores the result is an operation of its own, which runs at some later time.
use base_go_api.Prelude.{Bool, true, false, not, Option, none, some, if◌then◌else◌}
use base_go_api.Prelude.Bytes.{Bytes, bytes_eq, codes}
use base_go_api.Prelude.Outcome.{ok, err}
use base_go_api.Sql.Table.{Table}
use base_go_api.Cache.Driver.{Driver}
use base_go_api.Idempotency.Record.{IdempotencyRecord, is_completed, find_record}
use base_go_api.Idempotency.Request.{
  Answer, Config, Library, Lock, Pending, Request, Run, Times, World, guard_seconds, lock_key,
  pending_of, record_key, refused, replayed, served, skips, valid_key,
}

module _ (lib : Library) (cfg : Config) (cache : Driver) {D A : Type 0}
    (records : Table D IdempotencyRecord) (next : Request → A → Run × A) where
  abbrev pub W : Type 0
  W = World cache.State D A

  -- `replayFromDB`
  unfoldable pub replay_from_db : Bytes → Request → W → Answer × W
  unfolding find_record
  replay_from_db user r w =
      let (found, db) = find_record records r.raw_key user r.method r.path w.db in
      let w' = record w { db = db } in
      elim found [
        | err e ↦ (refused 409 "IDEMPOTENCY_CONFLICT", w')
        | ok stored ↦
            if is_completed stored
            then (
              replayed (record {
                status_code = stored.response_status_code;
                body = stored.response_body;
                headers = stored.response_headers;
              }),
              w',
            )
            else (refused 409 "IDEMPOTENCY_PROCESSING", w')
      ]

  -- `replayFromRedisCache`
  unfoldable pub replay_from_cache : Bytes → Request → Bytes → W → Answer × W
  unfolding replay_from_db
  replay_from_cache user r value w = elim (lib.read_response value) [
    | none ↦ replay_from_db user r w
    | some stored ↦ (replayed stored, w)
  ]

  -- A lock that says `completed`.
  unfoldable pub replay : Times → Bytes → Request → W → Answer × W
  unfolding replay_from_db replay_from_cache
  replay t user r w =
      let (found, c) = cache.get (record_key lib user r) t.record_read w.cache in
      let w' = record w { cache = c } in
      elim found [
        | ok (some value) ↦ replay_from_cache user r value w'
        | ok none ↦ replay_from_db user r w'
        | err e ↦ replay_from_db user r w'
      ]

  -- The handler runs, and what it wrote is handed to the goroutine.
  unfoldable pub run_handler : Bytes → Request → W → (Answer × Option Pending) × W
  unfolding pending_of
  run_handler user r w =
      let (run, a) = next r w.app in
      ((served run, some (pending_of lib user r run)), record w { app = a })

  -- Steps 5 to 8: the lock is taken by `SetNX`.
  unfoldable pub acquire : Times → Bytes → Request → W → (Answer × Option Pending) × W
  unfolding run_handler
  acquire t user r w =
      let value =
        lib.write_lock
          (record { status = codes "processing"; request_hash = lib.sha256_hex r.body }) in
      let (taken, c) =
        cache.set_nx (lock_key lib user r) value (guard_seconds cfg) t.acquired w.cache in
      let w' = record w { cache = c } in
      elim taken [
        | ok false ↦ ((refused 409 "IDEMPOTENCY_CONFLICT", none), w')
        | ok true ↦ run_handler user r w'
        | err e ↦ run_handler user r w'
      ]

  -- What follows from the status of a lock that was read.
  unfoldable pub locked : Times → Bytes → Request → Lock → W → (Answer × Option Pending) × W
  unfolding acquire replay
  locked t user r lock w =
      if bytes_eq lock.status (codes "processing")
      then ((refused 409 "IDEMPOTENCY_PROCESSING", none), w)
      else if bytes_eq lock.status (codes "completed")
      then (let (a, w') = replay t user r w in ((a, none), w'))
      else acquire t user r w

  -- Steps 4 to 8, for a user.
  unfoldable pub guarded : Times → Bytes → Request → W → (Answer × Option Pending) × W
  unfolding acquire locked
  guarded t user r w =
      let (found, c) = cache.get (lock_key lib user r) t.lock_read w.cache in
      let w' = record w { cache = c } in
      elim found [
        | err e ↦ acquire t user r w'
        | ok none ↦ acquire t user r w'
        | ok (some value) ↦ elim (lib.read_lock value) [
          | none ↦ acquire t user r w'
          | some lock ↦ locked t user r lock w'
        ]
      ]

  -- A request that the middleware leaves to the handler.
  abbrev pub pass : Request → W → (Answer × Option Pending) × W
  pass r w = let (run, a) = next r w.app in ((served run, none), record w { app = a })

  -- `Middleware`; `has_cache` is `im.cache != nil`.
  unfoldable pub middleware : Bool → Times → Request → W → (Answer × Option Pending) × W
  unfolding skips valid_key guarded
  middleware has_cache t r w =
      if skips cfg has_cache r
      then pass r w
      else if not (valid_key lib cfg r)
      then ((refused 400 "INVALID_IDEMPOTENCY_KEY", none), w)
      else elim r.user [ none ↦ pass r w | some user ↦ guarded t user r w ]
