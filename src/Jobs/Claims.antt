-- ===== src/Jobs/Claims.antt =====
-- `SetProcessing`, `SetCompleted` and `SetFailed` of internal/repository/job.go on a server that reports
-- no errors.
use base_go_api.Prelude.{
  ℕ, ◌≡◌, refl, ◌∙◌, ap, String, true, false, [], ◌∷◌, Option, none, some, arith,
}
use base_go_api.Prelude.Outcome.{ok, err, Call, ◌>>=◌}
use base_go_api.Errors.{conflict}
use base_go_api.Jobs.Job.{processing, completed, failed, dead, Job, Time, Bytes, can_transition_to}
use base_go_api.Jobs.Redis.{
  Redis, Laws, IsReliable, effects, set_data, sadd_status, srem_status, expire_status, zadd_queue,
}
use base_go_api.Jobs.Repository.{
  get_by_id, update, enqueue, leave_processing, unix_milli, claimable, claim_job, set_processing,
  complete_job, set_completed, fail_job, set_failed,
}
use base_go_api.Jobs.Effects.{get_by_id-view, claim, claim_commands, claim_job-ok}
use base_go_api.Jobs.Outcomes.{
  complete, move, retry, give_up, failure_commands, complete_job-ok, fail_job-ok,
}

module _ (redis : Redis) (laws : Laws redis) (sound : IsReliable redis laws) where
  open redis use {Db, exec, get_data}
  open laws use {view}
  open sound use {exec_runs, get_runs}

  pub get_by_id_runs :
      (id : ℕ) (d : Db) (j : Job) → (view d).jobs id ≡ some j → (get_by_id redis id d).0 ≡ ok j
  unfolding get_by_id
  get_by_id_runs id d j h = ground (arith, get_runs id d j h)

  -- Reading a job and going on, where the job is there.
  pub read_runs :
      {A : Type 0} (id : ℕ) (next : Job → Call Db A) (d : Db) (j : Job)
      → (view d).jobs id ≡ some j
      → (get_by_id redis id >>= next) d ≡ next j (get_by_id redis id d).1
  read_runs id next d j h = rw (get_by_id_runs id d j h, ◌>>=◌)

  claim_job_runs :
      (now : Time) (id : ℕ) (job : Job) (d : Db)
      → claimable job ≡ true
      → (claim_job redis now id job d).0 ≡ ok (claim now job)
  unfolding claim_job claimable
  claim_job_runs now id job d h = ground (
    arith,
    exec_runs (set_data job.id (claim now job) ∷ []) d,
    exec_runs
        (srem_status job.status id ∷ sadd_status processing id ∷ expire_status processing ∷ [])
        (update redis (claim now job) d).1,
  )

  claim_job_refuses :
      (now : Time) (id : ℕ) (job : Job) (d : Db)
      → claimable job ≡ false
      → claim_job redis now id job d ≡ (err conflict, d)
  unfolding claim_job
  claim_job_refuses now id job d h = rw h

  -- `SetProcessing` on a stored job, by its guard `claimable`: the job marked as processing is returned
  -- and the commands of the claim are run, or `ErrConflict` is returned and nothing changes.
  pub set_processing_lem :
      (now : Time) (id : ℕ) (d : Db) (job : Job)
      → (view d).jobs id ≡ some job
      → (claimable job ≡ true
          → ((set_processing redis now id d).0 ≡ ok (claim now job))
            × (view (set_processing redis now id d).1
                ≡ effects (claim_commands now id job) (view d)))
        × (claimable job ≡ false
            → ((set_processing redis now id d).0 ≡ err conflict)
              × (view (set_processing redis now id d).1 ≡ view d))
  unfolding set_processing
  set_processing_lem now id d job found = (
    λ may.
        let runs = claim_job_runs now id job (get_by_id redis id d).1 may in
        rw (read_runs id (claim_job redis now id) d job found) (
          runs,
          (claim_job-ok redis laws now id job (get_by_id redis id d).1 runs).2
              ∙ ap (effects (claim_commands now id job)) (get_by_id-view redis laws id d),
        ),
    λ may_not.
        rw
          (
            read_runs id (claim_job redis now id) d job found,
            claim_job_refuses now id job (get_by_id redis id d).1 may_not,
          )
          (refl, get_by_id-view redis laws id d),
  )

  fail_job_runs :
      (now : Time) (id : ℕ) (message : String) (at : Option Time) (job : Job) (d : Db)
      → (fail_job redis now id message at job d).0 ≡ ok tt
  unfolding fail_job update enqueue
  fail_job_runs now id message none job d = ground (
    arith,
    exec_runs (set_data job.id (give_up now message job) ∷ []) d,
    exec_runs (move processing dead id) (update redis (give_up now message job) d).1,
  )
  fail_job_runs now id message (some at) job d = ground (
    arith,
    exec_runs (set_data job.id (give_up now message job) ∷ []) d,
    exec_runs (move processing dead id) (update redis (give_up now message job) d).1,
    exec_runs (set_data job.id (retry message at job) ∷ []) d,
    exec_runs (move processing failed id) (update redis (retry message at job) d).1,
    exec_runs (zadd_queue (unix_milli at) id ∷ [])
        (leave_processing redis failed id (update redis (retry message at job) d).1).1,
  )

  complete_job_runs :
      (now : Time) (id : ℕ) (result : Bytes) (job : Job) (d : Db)
      → can_transition_to job completed ≡ true
      → (complete_job redis now id result job d).0 ≡ ok tt
  unfolding complete_job
  complete_job_runs now id result job d may = ground (
    arith,
    exec_runs (set_data job.id (complete now result job) ∷ []) d,
    exec_runs (move processing completed id) (update redis (complete now result job) d).1,
  )

  pub set_failed_runs :
      (now : Time) (id : ℕ) (message : String) (at : Option Time) (d : Db) (job : Job)
      → (view d).jobs id ≡ some job
      → ((set_failed redis now id message at d).0 ≡ ok tt)
        × (view (set_failed redis now id message at d).1
            ≡ effects (failure_commands now id message at job) (view d))
  unfolding set_failed
  set_failed_runs now id message at d job found =
      let runs = fail_job_runs now id message at job (get_by_id redis id d).1 in
      rw (read_runs id (fail_job redis now id message at) d job found) (
        runs,
        fail_job-ok redis laws now id message at job (get_by_id redis id d).1 runs
            ∙ ap (effects (failure_commands now id message at job))
                (get_by_id-view redis laws id d),
      )

  pub set_completed_runs :
      (now : Time) (id : ℕ) (result : Bytes) (d : Db) (job : Job)
      → (view d).jobs id ≡ some job
      → can_transition_to job completed ≡ true
      → ((set_completed redis now id result d).0 ≡ ok tt)
        × (view (set_completed redis now id result d).1
            ≡ effects
                (set_data job.id (complete now result job) ∷ move processing completed id)
                (view d))
  unfolding set_completed
  set_completed_runs now id result d job found may =
      let runs = complete_job_runs now id result job (get_by_id redis id d).1 may in
      rw (read_runs id (complete_job redis now id result) d job found) (
        runs,
        (complete_job-ok redis laws now id result job (get_by_id redis id d).1 runs).1
            ∙ ap
                (effects (set_data job.id (complete now result job) ∷ move processing completed id))
                (get_by_id-view redis laws id d),
      )
