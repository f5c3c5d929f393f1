-- ===== src/Idempotency/Record.antt =====
-- internal/domain/idempotency.go, internal/repository/idempotency.go and
-- internal/service/idempotency.go, but for the pages of a list and the ticker of the reaper. The rows of
-- the table are the records that are not deleted.
use base_go_api.Prelude.{
  ℕ, ◌+◌, ◌*◌, ◌==◌, ◌&&◌, String, Bool, Option, ltb, length, str_eq, if◌then◌else◌,
}
use base_go_api.Prelude.Bytes.{Bytes, bytes_eq}
use base_go_api.Prelude.Outcome.{Call, ◌>>=◌, map_err}
use base_go_api.Errors.{wrap_internal}
use base_go_api.Sql.Table.{Table}
use base_go_api.Sql.Results.{missing_or_internal, at_least_one}
use base_go_api.Idempotency.Recorder.{Headers}

pub record IdempotencyRecord : Type 0 where
  pub id : ℕ
  pub idempotency_key : Bytes
  pub user_id : Bytes
  pub organization_id : Option Bytes
  pub http_method : Bytes
  pub request_path : Bytes
  pub request_hash : Bytes
  pub status : String
  pub response_status_code : ℕ
  pub response_body : Bytes
  pub response_body_size : ℕ
  pub response_headers : Headers
  pub expires_at : ℕ

abbrev pub is_expired : ℕ → IdempotencyRecord → Bool
is_expired now r = ltb r.expires_at now

abbrev pub is_processing : IdempotencyRecord → Bool
is_processing r = str_eq r.status "processing"

abbrev pub is_completed : IdempotencyRecord → Bool
is_completed r = str_eq r.status "completed"

-- `idempotency_key = ? AND user_id = ? AND http_method = ? AND request_path = ?`
abbrev pub is_for : Bytes → Bytes → Bytes → Bytes → IdempotencyRecord → Bool
is_for key user method path r =
    bytes_eq r.idempotency_key key
    && (bytes_eq r.user_id user && (bytes_eq r.http_method method && bytes_eq r.request_path path))

-- The fields that `UpdateStatus` writes.
abbrev pub with_result : String → ℕ → Bytes → Headers → IdempotencyRecord → IdempotencyRecord
with_result status code body headers r = record r {
  status = status;
  response_status_code = code;
  response_body = body;
  response_body_size = length body;
  response_headers = headers;
}

-- A day in nanoseconds; `AddDate` of whole days, in a zone without changes of the clock.
abbrev pub days : ℕ → ℕ
days n = n * 86_400_000_000_000

module _ {D : Type 0} (records : Table D IdempotencyRecord) where
  -- The errors of the repository are wrapped again by the service.
  unfoldable pub create_record : IdempotencyRecord → Call D (Unit {0})
  create_record r = map_err wrap_internal (map_err wrap_internal (records.create r))

  unfoldable pub find_record : Bytes → Bytes → Bytes → Bytes → Call D IdempotencyRecord
  find_record key user method path =
      map_err missing_or_internal (records.first (is_for key user method path))

  unfoldable pub find_record_by_id : ℕ → Call D IdempotencyRecord
  find_record_by_id id = map_err missing_or_internal (records.first (λ r. r.id == id))

  unfoldable pub update_record : ℕ → String → ℕ → Bytes → Headers → Call D (Unit {0})
  update_record id status code body headers = map_err wrap_internal (
      map_err wrap_internal
        (records.update (λ r. r.id == id) (with_result status code body headers))
      >>= at_least_one)

  unfoldable pub delete : ℕ → Call D (Unit {0})
  delete id =
      map_err wrap_internal
        (map_err wrap_internal (records.delete (λ r. r.id == id)) >>= at_least_one)

  -- A number of days that is not positive stands for the configured one.
  unfoldable pub cleanup_expired : ℕ → ℕ → ℕ → Call D ℕ
  cleanup_expired configured now retention =
      let kept = if retention == 0 then configured else retention in
      map_err wrap_internal (records.delete (λ r. ltb (r.expires_at + days kept) now))
