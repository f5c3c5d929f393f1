-- ===== src/Jobs/Service.antt =====
-- internal/service/job.go: submitting, reading, cancelling and resubmitting jobs for a user.
use base_go_api.Prelude.{
  ℕ, ◌*◌, String, ◌&&◌, not, List, [], Option, some, ltb, ◌==◌, if◌then◌else◌, str_eq,
}
use base_go_api.Prelude.Int.{pos, ◌+ℤ◌}
use base_go_api.Prelude.Outcome.{Call, ◌>>=◌, ◌>>◌, pure, fail, map_err}
use base_go_api.Errors.{
  Error, forbidden, conflict, app, is_not_found, wrap_not_found, wrap_internal,
}
use base_go_api.Jobs.Job.{Status, pending, failed, dead, status_eq, Time, Bytes, Job, new_job}
use base_go_api.Jobs.Redis.{Redis}
use base_go_api.Jobs.Repository

-- The fields of `config.JobConfig` that the queue's code reads.
pub record Config : Type 0 where
  pub job_timeout_seconds : ℕ
  pub max_retries : ℕ
  pub stuck_job_threshold_seconds : ℕ

-- `DefaultJobConfig`
abbrev pub default_config : Config
default_config = record {
  job_timeout_seconds = 30;
  max_retries = 3;
  stuck_job_threshold_seconds = 300;
}

-- `time.Duration(n) * time.Second`, in nanoseconds
abbrev pub seconds : ℕ → ℕ
seconds n = n * 1_000_000_000

pub record SubmitRequest : Type 0 where
  pub kind : String
  pub payload : Bytes
  pub max_retries : ℕ
  pub webhook_url : String

-- `if errors.IsNotFound(err) { return WrapNotFound(err, "job") }; return WrapInternal(err)`
unfoldable pub lookup_error : Error → Error
lookup_error e = if is_not_found e then wrap_not_found e else wrap_internal e

-- The job that `Submit` of the service hands to the repository.
unfoldable pub prepare : Config → Time → Time → ℕ → ℕ → SubmitRequest → Job
unfolding new_job
prepare cfg created now id user req = record (new_job id created req.kind req.payload user) {
  max_retries = if ltb 0 req.max_retries then req.max_retries else cfg.max_retries;
  callback_url = if str_eq req.webhook_url "" then "" else req.webhook_url;
  next_retry_at = some (now +ℤ pos (seconds cfg.job_timeout_seconds));
}

abbrev pub invalid_state : Error
invalid_state = app "INVALID_STATE_TRANSITION" 409

-- The job as `Resubmit` changes it.
abbrev pub renew : Config → Time → Job → Job
renew cfg now job = record job {
  status = pending;
  attempt_count = 0;
  result = [];
  last_error = "";
  next_retry_at = some (now +ℤ pos (seconds cfg.job_timeout_seconds));
}

module _ (redis : Redis) where
  open redis use {Db}

  -- `id` is drawn by `uuid.New`; the clock is read by `NewJob`, `Submit` and the repository.
  unfoldable pub submit : Config → Time → Time → Time → ℕ → ℕ → SubmitRequest → Call Db Job
  submit cfg created now stored id user req =
      map_err wrap_internal (Repository.submit redis stored (prepare cfg created now id user req))

  unfoldable pub get_by_id : ℕ → Call Db Job
  get_by_id id = map_err lookup_error (Repository.get_by_id redis id)

  unfoldable pub list_by_user : ℕ → Option Status → ℕ → ℕ → Call Db (List Job × ℕ)
  list_by_user user status limit offset =
      map_err wrap_internal (Repository.list_by_user redis user status limit offset)

  -- What `Cancel` does with the job that it has read.
  unfoldable pub cancel_job : ℕ → Job → Call Db (Unit {0})
  cancel_job user job =
      if not (job.user_id == user)
      then fail forbidden
      else if not (status_eq job.status pending) && not (status_eq job.status failed)
      then fail invalid_state
      else map_err wrap_internal (Repository.update redis (record job { status = dead }))

  unfoldable pub cancel : ℕ → ℕ → Call Db (Unit {0})
  unfolding get_by_id cancel_job
  cancel id user = get_by_id id >>= cancel_job user

  unfoldable pub resubmit_job : Config → Time → ℕ → Job → Call Db Job
  resubmit_job cfg now user job =
      if not (job.user_id == user)
      then fail forbidden
      else if not (status_eq job.status dead)
      then fail conflict
      else (let j = renew cfg now job in
          let at = now +ℤ pos (seconds cfg.job_timeout_seconds) in
          do
            map_err wrap_internal (Repository.update redis j)
            map_err wrap_internal (Repository.enqueue redis j.id at)
            pure j)

  unfoldable pub resubmit : Config → Time → ℕ → ℕ → Call Db Job
  unfolding get_by_id resubmit_job
  resubmit cfg now id user = get_by_id id >>= resubmit_job cfg now user
