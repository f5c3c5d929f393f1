-- ===== src/Idempotency/Request.antt =====
-- The requests, keys, answers and settings of internal/http/middleware/idempotency.go, and the library
-- functions that it calls.
use base_go_api.Prelude.{
  ℕ, ◌≡◌, ◌==◌, ◌&&◌, ◌||◌, String, Bool, true, not, List, [], ◌∷◌, ◌++◌, Option, none, some, leb,
  length, if◌then◌else◌,
}
use base_go_api.Prelude.Bytes.{Bytes, bytes_eq, codes}
use base_go_api.Idempotency.Recorder.{Headers, Write, fresh, write_all, status_of}

-- The value under a lock key: the map of `status` and `request_hash`.
pub record Lock : Type 0 where
  pub status : Bytes
  pub request_hash : Bytes

-- `cachedResponse`: the value under a record key.
pub record CachedResponse : Type 0 where
  pub status_code : ℕ
  pub body : Bytes
  pub headers : Headers

pub record Library : Type 0 where
  pub write_lock : Lock → Bytes
  pub read_lock : Bytes → Option Lock
  pub write_response : CachedResponse → Bytes
  pub read_response : Bytes → Option CachedResponse
  pub matches : Bytes → Bool
  pub sha256_hex : Bytes → Bytes
  pub to_lower : Bytes → Bytes

-- What is read back is what was written.
pub record Roundtrips (lib : Library) : Type 0 where
  pub read_lock-write_lock : (l : Lock) → lib.read_lock (lib.write_lock l) ≡ some l
  pub read_response-write_response :
      (r : CachedResponse) → lib.read_response (lib.write_response r) ≡ some r

-- Times to live in seconds, sizes in bytes.
pub record Config : Type 0 where
  pub enabled : Bool
  pub max_key_length : ℕ
  pub default_ttl : ℕ
  pub guard_ttl : ℕ
  pub max_cached_response_size : ℕ

abbrev pub default_config : Config
default_config = record {
  enabled = true;
  max_key_length = 128;
  default_ttl = 86_400;
  guard_ttl = 300;
  max_cached_response_size = 4096;
}

-- A user is `none` where the context has none; an organization is `none` also for `uuid.Nil`.
pub record Request : Type 0 where
  pub raw_key : Bytes
  pub method : Bytes
  pub path : Bytes
  pub user : Option Bytes
  pub organization : Option Bytes
  pub body : Bytes
  pub websocket : Bool

-- A run of the handler: what it writes, and whether it returns an error.
pub record Run : Type 0 where
  pub writes : List Write
  pub failed : Bool

-- The answer to a request: that of the handler; a stored one; or one of the middleware, with its
-- status and code.
pub data Answer : Type 0 where
  served : Run → Answer
  replayed : CachedResponse → Answer
  refused : ℕ → String → Answer

-- The method, as `http.MethodGet` and the others that are passed on.
abbrev pub is_safe_method : Bytes → Bool
is_safe_method m =
    bytes_eq m (codes "GET")
    || (bytes_eq m (codes "DELETE") || (bytes_eq m (codes "OPTIONS") || bytes_eq m (codes "HEAD")))

abbrev pub or_else : ℕ → ℕ → ℕ
or_else d n = if n == 0 then d else n

abbrev pub guard_seconds : Config → ℕ
guard_seconds cfg = or_else 300 cfg.guard_ttl

abbrev pub record_seconds : Config → ℕ
record_seconds cfg = or_else 86_400 cfg.default_ttl

abbrev pub max_size : Config → ℕ
max_size cfg = or_else 4096 cfg.max_cached_response_size

-- Whether the middleware has nothing to do with a request.
unfoldable pub skips : Config → Bool → Request → Bool
skips cfg has_cache r =
    bytes_eq r.raw_key [] || (is_safe_method r.method || (not cfg.enabled || not has_cache))

unfoldable pub valid_key : Library → Config → Request → Bool
valid_key lib cfg r = lib.matches r.raw_key && leb (length r.raw_key) cfg.max_key_length

abbrev pub organization_segment : Request → Bytes
organization_segment r = elim r.organization [ none ↦ codes "default" | some o ↦ o ]

-- `fmt.Sprintf("%s%s:%s:%s:%s:%s", ...)` for a user.
unfoldable pub request_key : Library → Bytes → Request → Bytes
request_key lib user r =
    codes "idem:"
    ++ (organization_segment r
        ++ (b':'
            ∷ (user
                ++ (b':' ∷ (lib.to_lower r.method ++ (b':' ∷ (r.path ++ (b':' ∷ r.raw_key))))))))

abbrev pub lock_key : Library → Bytes → Request → Bytes
lock_key lib user r = request_key lib user r ++ codes ":lock"

abbrev pub record_key : Library → Bytes → Request → Bytes
record_key lib user r = request_key lib user r ++ codes ":record"

-- The instants of the calls of the cache.
pub record Times : Type 0 where
  pub lock_read : ℕ
  pub record_read : ℕ
  pub acquired : ℕ

-- What the goroutine is given.
pub record Pending : Type 0 where
  pub user : Bytes
  pub request : Request
  pub hash : Bytes
  pub status_code : ℕ
  pub body : Bytes
  pub headers : Headers

-- The states of the cache, of the database and of the application behind the handler.
pub record World (C D A : Type 0) : Type 0 where
  pub cache : C
  pub db : D
  pub app : A

-- What the goroutine is given after a run; an upgrade to a websocket is not captured.
unfoldable pub pending_of : Library → Bytes → Request → Run → Pending
unfolding write_all
pending_of lib user r run =
    let rec = if r.websocket then fresh else write_all run.writes fresh in
    record {
      user = user;
      request = r;
      hash = lib.sha256_hex r.body;
      status_code = status_of rec;
      body = rec.body;
      headers = rec.headers;
    }
