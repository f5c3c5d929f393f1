-- ===== src/Jobs/Processing.antt =====
-- `processJob` of internal/service/job_worker.go from claim to final status, on a server that reports
-- no errors.
use base_go_api.Prelude.{
  ◌≡◌, ◌≢◌, ◌==◌, ◌∷◌, length, Bool-cases, refl, ◌∙◌, ap, sym, ◌⊎◌, inl, inr, String, Bool, true,
  List, [], Option, none, some, arith, ltb, if◌then◌else◌,
}
use base_go_api.Prelude.Outcome.{ok}
use base_go_api.Jobs.Job.{processing, Job, Time, Bytes, can_transition_to}
use base_go_api.Jobs.Redis.{Redis, Laws, IsReliable, effects}
use base_go_api.Jobs.Repository.{set_processing}
use base_go_api.Jobs.Service.{Config}
use base_go_api.Jobs.Worker.{
  Clock, Callback, completed_callback, dead_callback, callbacks, calculate_backoff, handle_error,
  handle_payload, finish_job, process_job,
}
use base_go_api.Jobs.Effects.{claim}
use base_go_api.Jobs.Opening.{IsOpen, claimable_of_IsOpen}
use base_go_api.Jobs.Outcomes.{complete, retry, give_up}
use base_go_api.Jobs.Claims.{set_processing_lem, set_failed_runs, set_completed_runs}

-- The instant of the retry after a failure of a job.
abbrev pub retry_at : Config → Clock → Job → Time
retry_at cfg t j = calculate_backoff cfg t.retry_from t.retry_again j.attempt_count

-- The job that a run leaves, from the claimed job and the handler's outcome.
abbrev pub settled : Config → Clock → Bytes ⊎ String → Job → Job
settled cfg t (inl result) j = complete t.finished result j
settled cfg t (inr message) j =
    if ltb j.attempt_count j.max_retries
    then retry message (retry_at cfg t j) j
    else give_up t.buried message j

-- The callbacks that it sends.
abbrev pub announced : Bool → Bytes ⊎ String → Job → List Callback
announced has_service (inl result) j =
    callbacks has_service j (completed_callback j.callback_url j.id result j.attempt_count)
announced has_service (inr message) j =
    if ltb j.attempt_count j.max_retries
    then []
    else callbacks has_service j (dead_callback j.callback_url j.id message j.attempt_count)

-- What the handler of a job gives, and the state that it leaves: the job has no payload, or one that
-- parses, and the handler is run once; or the payload does not parse, and the handler is not run.
pub data Ran {Payload A : Type 0} (unmarshal : Bytes → Payload ⊎ String)
    (handle : String → Option Payload → A → (Bytes ⊎ String) × A) (j : Job) (a : A)
    (out : Bytes ⊎ String) (a1 : A) : Type 0 where
  bare : j.payload ≡ [] → handle j.kind none a ≡ (out, a1) → Ran unmarshal handle j a out a1
  parsed :
      (value : Payload)
      → j.payload ≢ []
      → unmarshal j.payload ≡ inl value
      → handle j.kind (some value) a ≡ (out, a1)
      → Ran unmarshal handle j a out a1
  unparsed :
      (message : String)
      → j.payload ≢ []
      → unmarshal j.payload ≡ inr message
      → ◌≡◌ {A = (Bytes ⊎ String) × A} (inr message, a) (out, a1)
      → Ran unmarshal handle j a out a1

nil_of_length : (l : Bytes) → (length l == 0) ≡ true → l ≡ []
nil_of_length [] h = refl
nil_of_length (x ∷ l) h = ground arith

module _ (redis : Redis) (laws : Laws redis) (sound : IsReliable redis laws) (cfg : Config)
    (has_callback_service : Bool) where
  open redis use {Db}
  open laws use {view}

  handle_error_settles :
      (t : Clock) (job : Job) (message : String) (d : Db)
      → (view d).jobs job.id ≡ some job
      → ((handle_error redis cfg has_callback_service t job message d).0
          ≡ ok (announced has_callback_service (inr message) job))
        × ((view (handle_error redis cfg has_callback_service t job message d).1).jobs job.id
            ≡ some (settled cfg t (inr message) job))
  unfolding handle_error effects
  handle_error_settles t job message d found = ground (
    arith,
    set_failed_runs redis laws sound t.buried job.id message (some (retry_at cfg t job)) d job
        found,
    set_failed_runs redis laws sound t.buried job.id message none d job found,
  )

  finish_job_settles :
      (t : Clock) (out : Bytes ⊎ String) (job : Job) (d : Db)
      → (view d).jobs job.id ≡ some job
      → job.status ≡ processing
      → ((finish_job redis cfg has_callback_service t out job d).0
          ≡ ok (announced has_callback_service out job))
        × ((view (finish_job redis cfg has_callback_service t out job d).1).jobs job.id
            ≡ some (settled cfg t out job))
  unfolding finish_job effects can_transition_to
  finish_job_settles t (inr message) job d found p = handle_error_settles t job message d found
  finish_job_settles t (inl result) job d found p =
      ground (arith, set_completed_runs redis laws sound t.finished job.id result d job found)

  module _ {Payload A : Type 0} (unmarshal : Bytes → Payload ⊎ String)
      (handle : String → Option Payload → A → (Bytes ⊎ String) × A) where
    process_job_step :
        (t : Clock) (job : Job) (d : Db) (a : A) {updated : Job}
        → (set_processing redis t.started job.id d).0 ≡ ok updated
        → let (out, a1) = handle_payload unmarshal handle updated a in
          let (sent, d2) =
            finish_job redis cfg has_callback_service t out updated
              (set_processing redis t.started job.id d).1 in
          process_job redis cfg has_callback_service unmarshal handle t job (d, a)
          ≡ (sent, (d2, a1))
    unfolding process_job
    process_job_step t job d a h = ground arith

    handle_payload-Ran :
        (j : Job) (a : A)
        → let (out, a1) = handle_payload unmarshal handle j a in Ran unmarshal handle j a out a1
    unfolding handle_payload
    handle_payload-Ran j a = elim (Bool-cases (length j.payload == 0)) [
      | inl none_there ↦ rw none_there (bare (nil_of_length j.payload none_there) refl)
      | inr some_bytes ↦
          rw some_bytes (go (λ e. cc (ap (λ l. length l == 0) e)) (unmarshal j.payload) refl)
    ]
      where
        go :
            j.payload ≢ []
            → (r : Payload ⊎ String) → unmarshal j.payload ≡ r
            → let run : (Bytes ⊎ String) × A = elim r [
              | inl value ↦ handle j.kind (some value) a
              | inr message ↦ (inr message, a)
            ] in
              Ran unmarshal handle j a run.0 run.1
        go more (inl value) e = parsed value more e refl
        go more (inr message) e = unparsed message more e refl

    -- On a server that reports no errors, and where no other call writes to the jobs meanwhile: a
    -- stored job that is pending, or failed with attempts left, is claimed, and its handler is run
    -- once, on no payload where it has none and on what the payload parses to otherwise; where the
    -- payload does not parse, the handler is not run, and the outcome is that error. The job that is
    -- stored after the run is completed with the result of the handler, or failed with one more
    -- attempt and the instant of the retry, or dead where no attempt is left; the callbacks sent are
    -- those of a completed or a dead job with a callback URL.
    pub process_job-settles :
        (t : Clock) (job stored : Job) (d : Db) (a : A)
        → (view d).jobs job.id ≡ some stored
        → stored.id ≡ job.id
        → IsOpen stored
        → let updated = record stored { status = processing; started_at = some t.started } in
          let (sent, (d1, a1)) =
            process_job redis cfg has_callback_service unmarshal handle t job (d, a) in
          (out : Bytes ⊎ String) × Ran unmarshal handle updated a out a1
          × (sent ≡ ok (announced has_callback_service out updated))
          × ((view d1).jobs job.id ≡ some (settled cfg t out updated))
    unfolding effects
    process_job-settles t job stored d a found own is_open =
        let d1 = (set_processing redis t.started job.id d).1 in
        let updated = claim t.started stored in
        let may = claimable_of_IsOpen stored is_open in
        let (runs, seen) =
          (set_processing_lem redis laws sound t.started job.id d stored found).0 may in
        let there : (view d1).jobs updated.id ≡ some updated = ground arith in
        let (out, a1) = handle_payload unmarshal handle updated a in
        let (told, left) = finish_job_settles t out updated d1 there refl in
        rw (process_job_step t job d a runs) (
          out,
          handle_payload-Ran updated a,
          told,
          ap (view (finish_job redis cfg has_callback_service t out updated d1).1).jobs (sym own)
              ∙ left,
        )
