-- ===== src/Jobs/Transitions.antt =====
-- The transitions of a status in internal/domain/job.go, as a relation, and the retries that the
-- repository grants.
use base_go_api.Prelude.{ℕ, ◌+◌, ◌<◌, ◌≡◌, refl, ap, ◌∙◌, ◌↔◌, String, true, some, arith}
use base_go_api.Prelude.Outcome.{ok, err}
use base_go_api.Errors.{conflict}
use base_go_api.Jobs.Job.{
  Status, pending, processing, completed, failed, dead, Job, Time, can_transition_to,
}
use base_go_api.Jobs.Redis.{Redis, Laws, IsReliable, effects}
use base_go_api.Jobs.Repository.{claimable, set_processing, set_failed}
use base_go_api.Jobs.Service
use base_go_api.Jobs.Outcomes.{retry}
use base_go_api.Jobs.ServiceOutcomes.{cancel-ok}
use base_go_api.Jobs.Claims.{set_processing_lem, set_failed_runs}

pub data Moves (j : Job) : Status → Type 0 where
  start : j.status ≡ pending → Moves j processing
  finish : j.status ≡ processing → Moves j completed
  fall : j.status ≡ processing → Moves j failed
  restart : j.status ≡ failed → j.attempt_count < j.max_retries → Moves j processing
  give_up : j.status ≡ failed → Moves j dead

moves_of : (j : Job) (to : Status) → can_transition_to j to ≡ true → Moves j to
unfolding can_transition_to
moves_of j pending h = ground arith
moves_of j processing h = grind (arith, start, restart)
moves_of j completed h = finish (ground arith)
moves_of j failed h = fall (ground arith)
moves_of j dead h = give_up (ground arith)

of_moves : (j : Job) {to : Status} → Moves j to → can_transition_to j to ≡ true
unfolding can_transition_to
of_moves j (start h) = ground arith
of_moves j (finish h) = ground arith
of_moves j (fall h) = ground arith
of_moves j (restart h k) = ground arith
of_moves j (give_up h) = ground arith

-- `CanTransitionTo` allows exactly: pending to processing, processing to completed or failed, failed
-- to processing while attempts are left, and failed to dead.
pub can_transition_to_iff : (j : Job) (to : Status) → (can_transition_to j to ≡ true) ↔ Moves j to
can_transition_to_iff j to = (moves_of j to, of_moves j)

module _ (redis : Redis) (laws : Laws redis) (sound : IsReliable redis laws) where
  open redis use {Db}
  open laws use {view}

  -- On a server that reports no errors: a stored job whose failed attempt is the last but one
  -- is scheduled for a retry that `SetProcessing` then refuses, whenever it is tried: the job stays
  -- failed in the store, and its last attempt is never made.
  pub last_retry_refused :
      (now later : Time) (message : String) (at : Time) (d : Db) (job : Job)
      → (view d).jobs job.id ≡ some job
      → job.attempt_count + 1 ≡ job.max_retries
      → let d1 = (set_failed redis now job.id message (some at) d).1 in
        let d2 = (set_processing redis later job.id d1).1 in
        ((set_failed redis now job.id message (some at) d).0 ≡ ok tt)
        × ((set_processing redis later job.id d1).0 ≡ err conflict)
        × ((view d2).jobs job.id ≡ some (retry message at job))
  unfolding effects claimable
  last_retry_refused now later message at d job found last =
      let d1 = (set_failed redis now job.id message (some at) d).1 in
      let (runs, seen) =
        set_failed_runs redis laws sound now job.id message (some at) d job found in
      let there : (view d1).jobs job.id ≡ some (retry message at job) = ground arith in
      let (refused, same) =
        (set_processing_lem redis laws sound later job.id d1 (retry message at job) there).1
          (ground arith) in
      (runs, refused, ap (λ v. v.jobs job.id) same ∙ there)

  -- On a server that reports no errors: a job that a user has cancelled belongs to that user, is dead
  -- in the store, and is refused to every worker that then tries to claim it.
  pub cancelled_not_claimed :
      (id user : ℕ) (now : Time) (d : Db)
      → ((id' : ℕ) (j : Job) → (view d).jobs id' ≡ some j → j.id ≡ id')
      → (Service.cancel redis id user d).0 ≡ ok tt
      → let d1 = (Service.cancel redis id user d).1 in
        ((set_processing redis now id d1).0 ≡ err conflict)
        × ((job : Job) × ((view d).jobs id ≡ some job)
            × (job.user_id ≡ user)
            × ((view d1).jobs id ≡ some (record job { status = dead })))
  unfolding effects claimable
  cancelled_not_claimed id user now d own h =
      let d1 = (Service.cancel redis id user d).1 in
      let (job, found, was, owner, seen) = cancel-ok redis laws id user d h in
      let same = own id job found in
      let there : (view d1).jobs id ≡ some (record job { status = dead }) = ground arith in
      (
        ((set_processing_lem redis laws sound now id d1 (record job { status = dead }) there).1
            refl).0,
        (job, found, owner, there),
      )
