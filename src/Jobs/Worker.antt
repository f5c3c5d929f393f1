-- ===== src/Jobs/Worker.antt =====
-- internal/service/job_worker.go: one tick of a poller, the processing of one job, and the delay
-- before a retry. Logging is left out; a callback that is delivered in the background is returned.
use base_go_api.Prelude.{
  ℕ, String, Bool, not, ◌&&◌, List, [], ◌∷◌, Option, none, some, ltb, ◌⊎◌, inl, inr, ◌==◌,
  if◌then◌else◌, str_eq, length,
}
use base_go_api.Prelude.Int.{pos, ◌+ℤ◌, ◌*ℤ◌, sub_ℕ, ltb_ℤ, wrap64}
use base_go_api.Prelude.Outcome.{ok, err, Call, ◌>>=◌, pure, attempt}
use base_go_api.Jobs.Job.{Time, Bytes, Job}
use base_go_api.Jobs.Redis.{Redis, empty, garbage, popped}
use base_go_api.Jobs.Repository
use base_go_api.Jobs.Service.{Config, seconds}

-- `calculateBackoff`. The default branch reads the clock twice and multiplies durations, which are
-- int64 counts of nanoseconds.
backoff_by_attempt : Config → Time → Time → ℕ → Time
backoff_by_attempt cfg now again n =
    let delay = wrap64 (wrap64 (sub_ℕ n 1 *ℤ pos cfg.job_timeout_seconds) *ℤ pos (seconds 1)) in
    let backoff = now +ℤ delay in
    let most = again +ℤ pos (seconds 1800) in if ltb_ℤ most backoff then most else backoff

unfoldable pub calculate_backoff : Config → Time → Time → ℕ → Time
unfolding backoff_by_attempt
calculate_backoff cfg now again n =
    if n == 1
    then now +ℤ pos (seconds 60)
    else if n == 2
    then now +ℤ pos (seconds 300)
    else backoff_by_attempt cfg now again n

-- What is posted to the callback URL: the status `completed` with a result, or `dead` with an error.
pub data Callback : Type 0 where
  completed_callback : String → ℕ → Bytes → ℕ → Callback
  dead_callback : String → ℕ → String → ℕ → Callback

-- The readings of the clock in one run of `processJob`.
pub record Clock : Type 0 where
  pub started : Time
  pub finished : Time
  pub retry_from : Time
  pub retry_again : Time
  pub buried : Time

-- `if job.CallbackURL != "" && w.callbackSvc != nil`
abbrev pub callbacks : Bool → Job → Callback → List Callback
callbacks has_service job c = if not (str_eq job.callback_url "") && has_service then c ∷ [] else []

-- `unmarshal` is `json.Unmarshal` into a map of type `Payload`, and `handle` the service that
-- dispatches to the registered job handlers, with the state `A` that they change; both give a value
-- or the text of an error. An empty payload is not parsed, and a payload that does not parse is not
-- handled.
unfoldable pub handle_payload :
    {Payload A : Type 0} (unmarshal : Bytes → Payload ⊎ String)
    (handle : String → Option Payload → A → (Bytes ⊎ String) × A)
    → Job
    → A
    → (Bytes ⊎ String) × A
handle_payload unmarshal handle job a =
    if length job.payload == 0 then handle job.kind none a else elim (unmarshal job.payload) [
      | inl value ↦ handle job.kind (some value) a
      | inr message ↦ (inr message, a)
    ]

module _ (redis : Redis) (cfg : Config) (has_callback_service : Bool) where
  open redis use {Db}

  unfoldable pub handle_error : Clock → Job → String → Call Db (List Callback)
  handle_error t job message =
      if ltb job.attempt_count job.max_retries
      then (let next_retry = calculate_backoff cfg t.retry_from t.retry_again job.attempt_count in
          do
            _ ← attempt (Repository.set_failed redis t.buried job.id message (some next_retry))
            pure [])
      else (do
        _ ← attempt (Repository.set_failed redis t.buried job.id message none)
        pure (
            callbacks has_callback_service job
              (dead_callback job.callback_url job.id message job.attempt_count)))

  -- The end of `processJob`, after the handler.
  unfoldable pub finish_job : Clock → Bytes ⊎ String → Job → Call Db (List Callback)
  unfolding handle_error
  finish_job t (inr message) updated = handle_error t updated message
  finish_job t (inl result) updated = do
    stored ← attempt (Repository.set_completed redis t.finished updated.id result)
    elim stored [
      | err e ↦ pure []
      | ok done ↦ pure (
          callbacks has_callback_service updated
            (completed_callback updated.callback_url updated.id result updated.attempt_count))
    ]

  -- Over the state of the jobs and that of the handlers.
  unfoldable pub process_job :
      {Payload A : Type 0} (unmarshal : Bytes → Payload ⊎ String)
      (handle : String → Option Payload → A → (Bytes ⊎ String) × A)
      → Clock
      → Job
      → Call (Db × A) (List Callback)
  unfolding finish_job handle_payload
  process_job unmarshal handle t job (d, a) =
      let (claimed, d1) = Repository.set_processing redis t.started job.id d in
      elim claimed [
        | err e ↦ (ok [], (d1, a))
        | ok updated ↦
            let (out, a1) = handle_payload unmarshal handle updated a in
            let (sent, d2) = finish_job t out updated d1 in (sent, (d2, a1))
      ]

  -- One tick of a poller: the job that it hands to a worker, if any.
  unfoldable pub poll : Call Db (Option Job)
  poll = do
    top ← attempt redis.zpopmin_queue
    elim top [
      | err e ↦ pure none
      | ok empty ↦ pure none
      | ok garbage ↦ pure none
      | ok (popped id) ↦ do
        found ← attempt (Repository.get_by_id redis id)
        elim found [ ok job ↦ pure (some job) | err e ↦ pure none ]
    ]
