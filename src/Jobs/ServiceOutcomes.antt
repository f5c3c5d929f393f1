-- ===== src/Jobs/ServiceOutcomes.antt =====
-- The calls of internal/service/job.go that succeed: what they found and what they left.
use base_go_api.Prelude.{ℕ, ◌≡◌, ◌∙◌, ap, false, [], ◌∷◌, some, arith}
use base_go_api.Prelude.Int.{pos, ◌+ℤ◌}
use base_go_api.Prelude.Outcome.{ok, map_err-eq-ok, map_err_state, >>=-eq-ok}
use base_go_api.Errors.{wrap_internal}
use base_go_api.Jobs.Job.{pending, processing, dead, status_eq, Job, Time}
use base_go_api.Jobs.Redis.{Redis, Laws, effects, set_data, zadd_queue}
use base_go_api.Jobs.Repository
use base_go_api.Jobs.Repository.{unix_milli}
use base_go_api.Jobs.Service.{
  Config, SubmitRequest, seconds, prepare, renew, lookup_error, get_by_id, submit, cancel_job,
  cancel, resubmit_job, resubmit,
}
use base_go_api.Jobs.Effects.{
  exec-effects, get_by_id-view, get_by_id-ok, update-effects, enqueue-effects,
}
use base_go_api.Jobs.Index.{submit_commands}

-- The job that a submission stores.
abbrev pub submitted_job : Config → Time → Time → Time → ℕ → ℕ → SubmitRequest → Job
submitted_job cfg created now stored id user req = record (prepare cfg created now id user req) {
  status = pending;
  attempt_count = 1;
  created_at = stored;
}

module _ (redis : Redis) (laws : Laws redis) where
  open redis use {Db}
  open laws use {view}

  pub submit-ok :
      (cfg : Config) (created now stored : Time) (id user : ℕ) (req : SubmitRequest) (d : Db)
      {j : Job}
      → (submit redis cfg created now stored id user req d).0 ≡ ok j
      → view (submit redis cfg created now stored id user req d).1
        ≡ effects
            (submit_commands stored (submitted_job cfg created now stored id user req))
            (view d)
  unfolding submit Repository.submit effects
  submit-ok cfg created now stored id user req d h = ground (
    arith,
    exec-effects redis laws wrap_internal
        (submit_commands stored (submitted_job cfg created now stored id user req)) d,
  )

  get_by_id-found :
      (id : ℕ) (d : Db) {j : Job} → (get_by_id redis id d).0 ≡ ok j → (view d).jobs id ≡ some j
  unfolding get_by_id
  get_by_id-found id d h =
      get_by_id-ok redis laws id d (map_err-eq-ok lookup_error (Repository.get_by_id redis id) d h)

  get_by_id-leaves : (id : ℕ) (d : Db) → view (get_by_id redis id d).1 ≡ view d
  unfolding get_by_id
  get_by_id-leaves id d =
      ap view (map_err_state lookup_error (Repository.get_by_id redis id) d)
      ∙ get_by_id-view redis laws id d

  cancel_job-ok :
      (user : ℕ) (job : Job) (d : Db)
      → (cancel_job redis user job d).0 ≡ ok tt
      → (status_eq job.status processing ≡ false)
        × (job.user_id ≡ user)
        × (view (cancel_job redis user job d).1
            ≡ effects (set_data job.id (record job { status = dead }) ∷ []) (view d))
  unfolding cancel_job effects
  cancel_job-ok user job d h =
      ground (arith, update-effects redis laws (record job { status = dead }) d)

  pub cancel-ok :
      (id user : ℕ) (d : Db)
      → (cancel redis id user d).0 ≡ ok tt
      → (job : Job) × ((view d).jobs id ≡ some job)
        × (status_eq job.status processing ≡ false)
        × (job.user_id ≡ user)
        × (view (cancel redis id user d).1
            ≡ effects (set_data job.id (record job { status = dead }) ∷ []) (view d))
  unfolding cancel
  cancel-ok id user d h =
      let (job, found, same, rest) = >>=-eq-ok (get_by_id redis id) (cancel_job redis user) d h in
      let (was, owner, seen) = cancel_job-ok user job (get_by_id redis id d).1 rest in
      let cs = set_data job.id (record job { status = dead }) ∷ [] in
      (
        job,
        get_by_id-found id d found,
        was,
        owner,
        ap (λ r. view r.1) same ∙ seen ∙ ap (effects cs) (get_by_id-leaves id d),
      )

  resubmit_job-ok :
      (cfg : Config) (now : Time) (user : ℕ) (job : Job) (d : Db) {j : Job}
      → (resubmit_job redis cfg now user job d).0 ≡ ok j
      → (job.status ≡ dead)
        × (job.user_id ≡ user)
        × (j ≡ renew cfg now job)
        × (view (resubmit_job redis cfg now user job d).1
            ≡ effects
                (set_data job.id (renew cfg now job)
                  ∷ zadd_queue (unix_milli (now +ℤ pos (seconds cfg.job_timeout_seconds))) job.id
                  ∷ [])
                (view d))
  unfolding resubmit_job effects
  resubmit_job-ok cfg now user job d h = ground (
    arith,
    update-effects redis laws (renew cfg now job) d,
    enqueue-effects redis laws job.id (now +ℤ pos (seconds cfg.job_timeout_seconds))
        (Repository.update redis (renew cfg now job) d).1,
  )

  pub resubmit-ok :
      (cfg : Config) (now : Time) (id user : ℕ) (d : Db) {j : Job}
      → (resubmit redis cfg now id user d).0 ≡ ok j
      → (job : Job) × ((view d).jobs id ≡ some job)
        × (job.status ≡ dead)
        × (job.user_id ≡ user)
        × (j ≡ renew cfg now job)
        × (view (resubmit redis cfg now id user d).1
            ≡ effects
                (set_data job.id (renew cfg now job)
                  ∷ zadd_queue (unix_milli (now +ℤ pos (seconds cfg.job_timeout_seconds))) job.id
                  ∷ [])
                (view d))
  unfolding resubmit
  resubmit-ok cfg now id user d h =
      let (job, found, same, rest) =
        >>=-eq-ok (get_by_id redis id) (resubmit_job redis cfg now user) d h in
      let (was, owner, renewed, seen) =
        resubmit_job-ok cfg now user job (get_by_id redis id d).1 rest in
      let cs =
        set_data job.id (renew cfg now job)
        ∷ zadd_queue (unix_milli (now +ℤ pos (seconds cfg.job_timeout_seconds))) job.id
        ∷ [] in
      (
        job,
        get_by_id-found id d found,
        was,
        owner,
        renewed,
        ap (λ r. view r.1) same ∙ seen ∙ ap (effects cs) (get_by_id-leaves id d),
      )
