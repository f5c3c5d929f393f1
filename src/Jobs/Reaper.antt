-- ===== src/Jobs/Reaper.antt =====
-- internal/service/job_reaper.go: jobs that stay too long in `processing` go back to the queue.
use base_go_api.Prelude.{ℕ, suc, List, [], ◌∷◌, Bool, true, false}
use base_go_api.Prelude.Int.{pos, ◌+ℤ◌}
use base_go_api.Prelude.Outcome.{ok, err, Call, ◌>>=◌, pure, attempt}
use base_go_api.Jobs.Job.{Time, Job}
use base_go_api.Jobs.Redis.{Redis}
use base_go_api.Jobs.Repository
use base_go_api.Jobs.Service.{Config, seconds}

module _ (redis : Redis) (cfg : Config) where
  open redis use {Db}

  -- The body of the loop: whether the job was recovered.
  unfoldable pub recover : Time → Job → Call Db Bool
  recover now job =
      let at = now +ℤ pos (seconds cfg.job_timeout_seconds) in
      do
        reset ← attempt (Repository.reset_stuck_job redis job at)
        elim reset [
          | err e ↦ pure false
          | ok _ ↦ do
            queued ← attempt (Repository.enqueue redis job.id at)
            elim queued [ err e ↦ pure false | ok _ ↦ pure true ]
        ]

  -- The loop of `Reap`, with the number recovered so far; `clock` gives the reading of the clock in
  -- each round.
  unfoldable pub reap_from : (Job → Time) → ℕ → List Job → Call Db ℕ
  unfolding recover
  reap_from clock recovered [] s = (ok recovered, s)
  reap_from clock recovered (job ∷ jobs) s =
      let (done, s') = recover (clock job) job s in
      reap_from clock (elim done [ ok true ↦ suc recovered | _ ↦ recovered ]) jobs s'

  unfoldable pub reap : Time → (Job → Time) → Call Db ℕ
  unfolding reap_from
  reap now clock = do
    stuck ← Repository.get_stuck_jobs redis now (seconds cfg.stuck_job_threshold_seconds)
    reap_from clock 0 stuck
