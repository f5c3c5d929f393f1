-- ===== src/Jobs/Repository.antt =====
-- internal/repository/job.go: the jobs in Redis. A method takes the instants that its calls of
-- `time.Now` return. Writes that the code sends through one pipeline are one `exec`.
use base_go_api.Prelude.{
  ℕ, ◌+◌, ◌/◌, String, Bool, true, false, ◌&&◌, ◌||◌, not, List, [], ◌∷◌, Option, none, some, ltb,
  if◌then◌else◌, str_eq,
}
use base_go_api.Prelude.Int.{ℤ, pos, negsuc, sub_ℕ, pos_part, neg_part, ltb_ℤ}
use base_go_api.Prelude.Outcome.{Outcome, ok, err, Call, ◌>>=◌, ◌>>◌, pure, fail, map_err, attempt}
use base_go_api.Errors.{Error, not_found, conflict, internal, foreign, wrap_internal}
use base_go_api.Jobs.Job.{
  Status, pending, processing, completed, failed, dead, status_eq, Time, Bytes, Job,
  can_transition_to,
}
use base_go_api.Jobs.Redis.{
  Redis, empty, garbage, popped, set_data, del_data, zadd_user, zrem_user, expire_user, sadd_status,
  srem_status, expire_status, zadd_queue, zrem_queue,
}

-- `t.UnixMilli()` and `t.Unix()`: the floor of a quotient.
abbrev pub unix_milli : Time → ℤ
unix_milli (pos n) = pos (n / 1_000_000)
unix_milli (negsuc n) = negsuc (n / 1_000_000)

abbrev pub unix : Time → ℤ
unix (pos n) = pos (n / 1_000_000_000)
unix (negsuc n) = negsuc (n / 1_000_000_000)

-- `if err == redis.Nil { return ErrNotFound }; if err != nil { return WrapInternal(err) }`
unfoldable pub nil_or_internal : Error → Error
nil_or_internal (foreign s) = if str_eq s "redis: nil" then not_found else wrap_internal (foreign s)
nil_or_internal e = wrap_internal e

-- `job.StartedAt != nil && job.StartedAt.Before(cutoff)`
abbrev pub started_before : Time → Option Time → Bool
started_before cutoff none = false
started_before cutoff (some t) = ltb_ℤ t cutoff

-- The filter of `ListByUser`; an empty status is `none`.
abbrev pub wanted : Option Status → Job → Bool
wanted none j = true
wanted (some s) j = status_eq j.status s

-- One round of a loop that fetches jobs: what cannot be read or is not wanted is passed over.
abbrev pub collect : (Job → Bool) → Outcome Job → List Job → List Job
collect p (ok j) jobs = if p j then j ∷ jobs else jobs
collect p (err e) jobs = jobs

-- The guard of `SetProcessing`.
unfoldable pub claimable : Job → Bool
claimable j =
    status_eq j.status pending || (status_eq j.status failed && ltb j.attempt_count j.max_retries)

module _ (redis : Redis) where
  open redis use {Db, exec, get_data, zpopmin_queue, zrevrange_user, zcard_user, smembers_status}

  -- The job that the code changes in place is returned.
  unfoldable pub submit : Time → Job → Call Db Job
  submit now job =
      let j = record job { status = pending; attempt_count = 1; created_at = now } in
      do
        map_err wrap_internal (
            exec (
              set_data j.id j
              ∷ zadd_user j.user_id (unix now) j.id
              ∷ expire_user j.user_id
              ∷ sadd_status pending j.id
              ∷ expire_status pending
              ∷ zadd_queue (unix_milli now) j.id
              ∷ []))
        pure j

  unfoldable pub get_by_id : ℕ → Call Db Job
  get_by_id id = map_err nil_or_internal (get_data id)

  unfoldable pub update : Job → Call Db (Unit {0})
  update j = map_err nil_or_internal (exec (set_data j.id j ∷ []))

  -- The loop of `ListByUser`: what does not parse or cannot be read is passed over.
  unfoldable pub fetch : (Job → Bool) → List (Option ℕ) → Call Db (List Job)
  fetch p [] = pure []
  fetch p (none ∷ ids) = fetch p ids
  fetch p (some id ∷ ids) = do
    found ← attempt (get_by_id id)
    jobs ← fetch p ids
    pure (collect p found jobs)

  unfoldable pub list_by_user : ℕ → Option Status → ℕ → ℕ → Call Db (List Job × ℕ)
  unfolding fetch
  list_by_user user status limit offset = do
    ids ← map_err wrap_internal (zrevrange_user user (pos offset) (sub_ℕ (offset + limit) 1))
    total ← map_err wrap_internal (zcard_user user)
    jobs ← fetch (wanted status) ids
    pure (jobs, total)

  unfoldable pub enqueue : ℕ → Time → Call Db (Unit {0})
  enqueue id at = map_err wrap_internal (exec (zadd_queue (unix_milli at) id ∷ []))

  unfoldable pub dequeue : Call Db (Option Job)
  unfolding get_by_id
  dequeue = do
    top ← map_err wrap_internal zpopmin_queue
    elim top [
      | empty ↦ pure none
      | garbage ↦ fail internal
      | popped id ↦ do j ← get_by_id id; pure (some j)
    ]

  -- What `SetProcessing` does with the job that it has read.
  unfoldable pub claim_job : Time → ℕ → Job → Call Db Job
  unfolding update
  claim_job now id job =
      if not (claimable job)
      then fail conflict
      else (let j = record job { status = processing; started_at = some now } in
          do
            update j
            map_err wrap_internal (
                exec (
                  srem_status job.status id
                  ∷ sadd_status processing id
                  ∷ expire_status processing
                  ∷ []))
            pure j)

  unfoldable pub set_processing : Time → ℕ → Call Db Job
  unfolding get_by_id claim_job
  set_processing now id = get_by_id id >>= claim_job now id

  -- The pipeline that moves a job from the index of `processing` to another.
  abbrev pub leave_processing : Status → ℕ → Call Db (Unit {0})
  leave_processing new id =
      map_err wrap_internal
        (exec (srem_status processing id ∷ sadd_status new id ∷ expire_status new ∷ []))

  unfoldable pub complete_job : Time → ℕ → Bytes → Job → Call Db (Unit {0})
  unfolding update
  complete_job now id result job =
      if not (can_transition_to job completed) then fail conflict else (do
        update (record job { status = completed; result = result; completed_at = some now })
        leave_processing completed id)

  unfoldable pub set_completed : Time → ℕ → Bytes → Call Db (Unit {0})
  unfolding get_by_id complete_job
  set_completed now id result = get_by_id id >>= complete_job now id result

  -- The two ways on from a failure, given the job with its error: a retry, or none left.
  unfoldable pub schedule_retry : ℕ → Job → Time → Call Db (Unit {0})
  unfolding update enqueue
  schedule_retry id job at = do
    update (record job {
      attempt_count = job.attempt_count + 1;
      status = failed;
      next_retry_at = some at;
    })
    leave_processing failed id
    enqueue id at

  unfoldable pub bury : Time → ℕ → Job → Call Db (Unit {0})
  unfolding update
  bury now id job = do
    update (record job {
      attempt_count = job.attempt_count + 1;
      status = dead;
      completed_at = some now;
      next_retry_at = none;
    })
    leave_processing dead id

  unfoldable pub fail_job : Time → ℕ → String → Option Time → Job → Call Db (Unit {0})
  unfolding schedule_retry bury
  fail_job now id message none job = bury now id (record job { last_error = message })
  fail_job now id message (some at) job =
      let j = record job { last_error = message } in
      if ltb j.attempt_count j.max_retries then schedule_retry id j at else bury now id j

  unfoldable pub set_failed : Time → ℕ → String → Option Time → Call Db (Unit {0})
  unfolding get_by_id fail_job
  set_failed now id message next_retry_at = get_by_id id >>= fail_job now id message next_retry_at

  unfoldable pub get_stuck_jobs : Time → ℕ → Call Db (List Job)
  unfolding fetch
  get_stuck_jobs now threshold = do
    ids ← map_err wrap_internal (smembers_status processing)
    let cutoff = sub_ℕ (pos_part now) (neg_part now + threshold)
    fetch (λ j. started_before cutoff j.started_at) ids

  unfoldable pub reset_stuck_job : Job → Time → Call Db (Unit {0})
  unfolding update
  reset_stuck_job job at =
      let j = record job {
        status = pending;
        attempt_count = job.attempt_count + 1;
        next_retry_at = some at;
      } in
      do
        update j
        map_err wrap_internal
            (exec (srem_status processing job.id ∷ sadd_status pending job.id ∷ []))

  abbrev pub delete_job : ℕ → Job → Call Db (Unit {0})
  delete_job id job = map_err wrap_internal (
      exec
        (del_data id ∷ zrem_queue id ∷ zrem_user job.user_id id ∷ srem_status job.status id ∷ []))

  unfoldable pub delete : ℕ → Call Db (Unit {0})
  unfolding get_by_id
  delete id = get_by_id id >>= delete_job id
