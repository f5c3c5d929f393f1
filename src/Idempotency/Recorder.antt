-- ===== src/Idempotency/Recorder.antt =====
-- `idempotencyResponseWriter` of internal/http/middleware/idempotency.go: what it keeps of the answer
-- that a handler writes through it.
use base_go_api.Prelude.{
  ℕ, ◌+◌, ◌==◌, Bool, true, false, ◌||◌, List, [], ◌∷◌, ◌++◌, keep, leb, length, if◌then◌else◌,
}
use base_go_api.Prelude.Bytes.{Bytes, bytes_eq, codes}

-- A name and its first value.
abbrev pub Headers : Type 0
Headers = List (Bytes × Bytes)

-- A call of the writer, with the headers that are set when it is made.
pub data Write : Type 0 where
  header : ℕ → Headers → Write
  chunk : Bytes → Headers → Write

-- The code 0 is no code yet.
pub record Recorder : Type 0 where
  pub status_code : ℕ
  pub body : Bytes
  pub headers : Headers
  pub wrote : Bool

abbrev pub fresh : Recorder
fresh = record { status_code = 0; body = []; headers = []; wrote = false }

abbrev pub replay_headers : Bytes → Bool
replay_headers k =
    bytes_eq k (codes "Content-Type")
    || (bytes_eq k (codes "Content-Encoding")
        || (bytes_eq k (codes "Content-Length")
            || (bytes_eq k (codes "Location")
                || (bytes_eq k (codes "X-Request-Id") || bytes_eq k (codes "Retry-After")))))

-- `DefaultIdempotencyConfig().MaxCachedResponseSize + 1024`: no code sets the field `maxSize`.
abbrev pub max_capture : ℕ
max_capture = 5120

-- The first call fixes the status and the headers.
abbrev pub open_with : ℕ → Headers → Recorder → Recorder
open_with code hs r =
    if r.wrote
    then r
    else record r { status_code = code; headers = keep (λ h. replay_headers h.0) hs; wrote = true }

unfoldable pub write : Write → Recorder → Recorder
write (header code hs) r = open_with code hs r
write (chunk b hs) r =
    let o = open_with 200 hs r in
    if leb (length o.body + length b) max_capture then record o { body = o.body ++ b } else o

unfoldable pub write_all : List Write → Recorder → Recorder
unfolding write
write_all [] r = r
write_all (w ∷ ws) r = write_all ws (write w r)

-- `if statusCode == 0 { statusCode = http.StatusOK }`
abbrev pub status_of : Recorder → ℕ
status_of r = if r.status_code == 0 then 200 else r.status_code
