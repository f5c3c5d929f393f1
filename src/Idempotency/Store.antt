-- ===== src/Idempotency/Store.antt =====
-- `storeResult` of internal/http/middleware/idempotency.go, which a goroutine runs after the answer is
-- sent. Its errors are logged and ignored, but for a record that cannot be created, which ends it.
use base_go_api.Prelude.{ℕ, ◌+◌, ◌*◌, [], leb, length, if◌then◌else◌}
use base_go_api.Prelude.Bytes.{codes}
use base_go_api.Prelude.Outcome.{ok, err}
use base_go_api.Sql.Table.{Table}
use base_go_api.Cache.Driver.{Driver}
use base_go_api.Idempotency.Record.{IdempotencyRecord, create_record, update_record}
use base_go_api.Idempotency.Request.{
  Library, Config, Lock, CachedResponse, Pending, World, lock_key, record_key, guard_seconds,
  record_seconds, max_size,
}

-- The instants of its calls of the cache and of the clock, and the identifier that the database draws.
pub record Draws : Type 0 where
  pub lock_set : ℕ
  pub record_set : ℕ
  pub created : ℕ
  pub row : ℕ

abbrev pub completed_lock : Lock
completed_lock = record { status = codes "completed"; request_hash = [] }

abbrev pub response_of : Pending → CachedResponse
response_of p = record { status_code = p.status_code; body = p.body; headers = p.headers }

-- The record as it is created, before its update.
abbrev pub record_of : Config → Draws → Pending → IdempotencyRecord
record_of cfg t p = record {
  id = t.row;
  idempotency_key = p.request.raw_key;
  user_id = p.user;
  organization_id = p.request.organization;
  http_method = p.request.method;
  request_path = p.request.path;
  request_hash = p.hash;
  status = "processing";
  response_status_code = p.status_code;
  response_body = p.body;
  response_body_size = length p.body;
  response_headers = p.headers;
  expires_at = t.created + cfg.default_ttl * 1_000_000_000;
}

module _ (lib : Library) (cfg : Config) (cache : Driver) where
  -- The two writes of the cache.
  unfoldable pub store_in_cache : Draws → Pending → cache.State → cache.State
  store_in_cache t p c =
      let c1 =
        (cache.set (lock_key lib p.user p.request) (lib.write_lock completed_lock)
          (guard_seconds cfg) t.lock_set c).1 in
      let c2 =
        (cache.set (record_key lib p.user p.request) (lib.write_response (response_of p))
          (record_seconds cfg) t.record_set c1).1 in
      if leb (length p.body) (max_size cfg) then c2 else c1

-- The two statements of the database.
unfoldable pub store_in_db :
    (cfg : Config) {D : Type 0} (records : Table D IdempotencyRecord) → Draws → Pending → D → D
unfolding create_record update_record
store_in_db cfg records t p d =
    let body = if leb (length p.body) (max_size cfg) then p.body else [] in
    let (made, d1) = create_record records (record_of cfg t p) d in
    elim made [
      | ok _ ↦ (update_record records t.row "completed" p.status_code body p.headers d1).1
      | err e ↦ d1
    ]

unfoldable pub store_result :
    (lib : Library) (cfg : Config) (cache : Driver) {D A : Type 0}
    (records : Table D IdempotencyRecord)
    → Draws
    → Pending
    → World cache.State D A
    → World cache.State D A
unfolding store_in_cache store_in_db
store_result lib cfg cache records t p w = record w {
  cache = store_in_cache lib cfg cache t p w.cache;
  db = store_in_db cfg records t p w.db;
}
