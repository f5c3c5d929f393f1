-- ===== src/Jobs/Outcomes.antt =====
-- The further calls of internal/repository/job.go and internal/service/job.go that succeed: what
-- they found and what they left.
use base_go_api.Prelude.{
  ℕ, ◌+◌, ◌≡◌, ◌∙◌, ap, inl, inr, String, true, List, [], ◌∷◌, Option, none, some, arith, ltb,
  if◌then◌else◌, Bool-cases,
}
use base_go_api.Prelude.Outcome.{ok, Call, >>=-eq-ok, ◌>>=◌}
use base_go_api.Errors.{wrap_internal}
use base_go_api.Jobs.Job.{
  Status, pending, processing, completed, failed, dead, Job, Time, Bytes, can_transition_to,
}
use base_go_api.Jobs.Redis.{
  Redis, Laws, Command, effects, set_data, del_data, zrem_user, sadd_status, srem_status,
  expire_status, zadd_queue, zrem_queue,
}
use base_go_api.Jobs.Repository.{
  get_by_id, update, leave_processing, unix_milli, complete_job, set_completed, schedule_retry,
  bury, fail_job, set_failed, reset_stuck_job, delete, delete_job,
}
use base_go_api.Jobs.Effects.{
  exec-effects, get_by_id-view, get_by_id-ok, update-effects, enqueue-effects,
}

abbrev pub move : Status → Status → ℕ → List Command
move from to id = srem_status from id ∷ sadd_status to id ∷ expire_status to ∷ []

abbrev pub complete : Time → Bytes → Job → Job
complete now result j = record j { status = completed; result = result; completed_at = some now }

abbrev pub retry : String → Time → Job → Job
retry message at j = record j {
  last_error = message;
  attempt_count = j.attempt_count + 1;
  status = failed;
  next_retry_at = some at;
}

abbrev pub give_up : Time → String → Job → Job
give_up now message j = record j {
  last_error = message;
  attempt_count = j.attempt_count + 1;
  status = dead;
  completed_at = some now;
  next_retry_at = none;
}

abbrev pub release : Time → Job → Job
release at j = record j {
  status = pending;
  attempt_count = j.attempt_count + 1;
  next_retry_at = some at;
}

-- The job that `SetFailed` writes, and the commands that it sends.
abbrev pub after_failure : Time → String → Option Time → Job → Job
after_failure now message none j = give_up now message j
after_failure now message (some at) j =
    if ltb j.attempt_count j.max_retries then retry message at j else give_up now message j

abbrev pub failure_commands : Time → ℕ → String → Option Time → Job → List Command
failure_commands now id message none j =
    set_data j.id (give_up now message j) ∷ move processing dead id
failure_commands now id message (some at) j =
    if ltb j.attempt_count j.max_retries
    then (set_data j.id (retry message at j)
        ∷ srem_status processing id
        ∷ sadd_status failed id
        ∷ expire_status failed
        ∷ zadd_queue (unix_milli at) id
        ∷ [])
    else set_data j.id (give_up now message j) ∷ move processing dead id

module _ (redis : Redis) (laws : Laws redis) where
  open redis use {Db}
  open laws use {view}

  pub complete_job-ok :
      (now : Time) (id : ℕ) (result : Bytes) (job : Job) (d : Db)
      → (complete_job redis now id result job d).0 ≡ ok tt
      → (can_transition_to job completed ≡ true)
        × (view (complete_job redis now id result job d).1
            ≡ effects
                (set_data job.id (complete now result job) ∷ move processing completed id)
                (view d))
  unfolding complete_job effects
  complete_job-ok now id result job d h = ground (
    arith,
    update-effects redis laws (complete now result job) d,
    exec-effects redis laws wrap_internal (move processing completed id)
        (update redis (complete now result job) d).1,
  )

  schedule_retry-ok :
      (id : ℕ) (message : String) (job : Job) (at : Time) (d : Db)
      → (schedule_retry redis id (record job { last_error = message }) at d).0 ≡ ok tt
      → view (schedule_retry redis id (record job { last_error = message }) at d).1
        ≡ effects
            (set_data job.id (retry message at job)
              ∷ srem_status processing id
              ∷ sadd_status failed id
              ∷ expire_status failed
              ∷ zadd_queue (unix_milli at) id
              ∷ [])
            (view d)
  unfolding schedule_retry effects
  schedule_retry-ok id message job at d h =
      let first = (update redis (retry message at job) d).1 in
      ground (
        arith,
        update-effects redis laws (retry message at job) d,
        exec-effects redis laws wrap_internal (move processing failed id) first,
        enqueue-effects redis laws id at (leave_processing redis failed id first).1,
      )

  bury-ok :
      (now : Time) (id : ℕ) (message : String) (job : Job) (d : Db)
      → (bury redis now id (record job { last_error = message }) d).0 ≡ ok tt
      → view (bury redis now id (record job { last_error = message }) d).1
        ≡ effects (set_data job.id (give_up now message job) ∷ move processing dead id) (view d)
  unfolding bury effects
  bury-ok now id message job d h = ground (
    arith,
    update-effects redis laws (give_up now message job) d,
    exec-effects redis laws wrap_internal (move processing dead id)
        (update redis (give_up now message job) d).1,
  )

  pub fail_job-ok :
      (now : Time) (id : ℕ) (message : String) (at : Option Time) (job : Job) (d : Db)
      → (fail_job redis now id message at job d).0 ≡ ok tt
      → view (fail_job redis now id message at job d).1
        ≡ effects (failure_commands now id message at job) (view d)
  unfolding fail_job
  fail_job-ok now id message none job d h = bury-ok now id message job d h
  fail_job-ok now id message (some at) job d h =
      elim (Bool-cases (ltb job.attempt_count job.max_retries)) [
        | inl more ↦ rw more (schedule_retry-ok id message job at d (rw more at h))
        | inr last ↦ rw last (bury-ok now id message job d (rw last at h))
      ]

  -- A call that reads the job with `GetByID`, and goes on with it.
  module _ {A : Type 0} (id : ℕ) (next : Job → Call Db A) (d : Db) {a : A} where
    pub read-ok :
        ((get_by_id redis id >>= next) d).0 ≡ ok a
        → (job : Job) × ((view d).jobs id ≡ some job)
          × ((next job (get_by_id redis id d).1).0 ≡ ok a)
          × (((get_by_id redis id >>= next) d).1 ≡ (next job (get_by_id redis id d).1).1)
    read-ok h =
        let (job, found, same, rest) = >>=-eq-ok (get_by_id redis id) next d h in
        (job, get_by_id-ok redis laws id d found, rest, ap (λ r. r.1) same)

  -- The view after such a call, from the effect of what goes on.
  read-effects :
      (id : ℕ) (cs : List Command) (d : Db) {e : Db}
      → {f : Db} → f ≡ e
      → view e ≡ effects cs (view (get_by_id redis id d).1)
      → view f ≡ effects cs (view d)
  read-effects id cs d same seen =
      ap view same ∙ seen ∙ ap (effects cs) (get_by_id-view redis laws id d)

  pub set_completed-ok :
      (now : Time) (id : ℕ) (result : Bytes) (d : Db)
      → (set_completed redis now id result d).0 ≡ ok tt
      → (job : Job) × ((view d).jobs id ≡ some job)
        × (can_transition_to job completed ≡ true)
        × (view (set_completed redis now id result d).1
            ≡ effects
                (set_data job.id (complete now result job) ∷ move processing completed id)
                (view d))
  unfolding set_completed
  set_completed-ok now id result d h =
      let (job, found, rest, same) = read-ok id (complete_job redis now id result) d h in
      let (may, seen) = complete_job-ok now id result job (get_by_id redis id d).1 rest in
      (job, found, may, read-effects id _ d same seen)

  pub set_failed-ok :
      (now : Time) (id : ℕ) (message : String) (at : Option Time) (d : Db)
      → (set_failed redis now id message at d).0 ≡ ok tt
      → (job : Job) × ((view d).jobs id ≡ some job)
        × (view (set_failed redis now id message at d).1
            ≡ effects (failure_commands now id message at job) (view d))
  unfolding set_failed
  set_failed-ok now id message at d h =
      let (job, found, rest, same) = read-ok id (fail_job redis now id message at) d h in
      (
        job,
        found,
        read-effects id (failure_commands now id message at job) d same
            (fail_job-ok now id message at job (get_by_id redis id d).1 rest),
      )

  pub delete-ok :
      (id : ℕ) (d : Db)
      → (delete redis id d).0 ≡ ok tt
      → (job : Job) × ((view d).jobs id ≡ some job)
        × (view (delete redis id d).1
            ≡ effects
                (del_data id
                  ∷ zrem_queue id
                  ∷ zrem_user job.user_id id
                  ∷ srem_status job.status id
                  ∷ [])
                (view d))
  unfolding delete
  delete-ok id d h =
      let (job, found, rest, same) = read-ok id (delete_job redis id) d h in
      let cs =
        del_data id ∷ zrem_queue id ∷ zrem_user job.user_id id ∷ srem_status job.status id ∷ [] in
      (
        job,
        found,
        read-effects id cs d same
            (exec-effects redis laws wrap_internal cs (get_by_id redis id d).1 rest),
      )

  pub reset_stuck_job-ok :
      (job : Job) (at : Time) (d : Db)
      → (reset_stuck_job redis job at d).0 ≡ ok tt
      → view (reset_stuck_job redis job at d).1
        ≡ effects
            (set_data job.id (release at job)
              ∷ srem_status processing job.id
              ∷ sadd_status pending job.id
              ∷ [])
            (view d)
  unfolding reset_stuck_job effects
  reset_stuck_job-ok job at d h = ground (
    arith,
    update-effects redis laws (release at job) d,
    exec-effects redis laws wrap_internal
        (srem_status processing job.id ∷ sadd_status pending job.id ∷ [])
        (update redis (release at job) d).1,
  )
