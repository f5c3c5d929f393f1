-- ===== src/Jobs/Tests.antt =====
-- The job queue on concrete inputs: the theorems applied on a server for tests, and short runs.
use base_go_api.Prelude.{
  ℕ, suc, ◌≡◌, ◌↔◌, refl, ◌⊎◌, inl, inr, String, true, List, [], ◌∷◌, Option, none, some, arith,
}
use base_go_api.Prelude.Int.{pos, ◌+ℤ◌, ◌≤ℤ◌}
use base_go_api.Prelude.Outcome.{ok, err}
use base_go_api.Errors.{conflict}
use base_go_api.Sql.Table.{In}
use base_go_api.Jobs.Job.{pending, processing, dead, Job, Bytes, can_transition_to}
use base_go_api.Jobs.Redis.{Command, set_data, sadd_status, effect}
use base_go_api.Jobs.Repository
use base_go_api.Jobs.Repository.{
  claimable, set_processing, set_failed, set_completed, get_stuck_jobs, nil_or_internal,
}
use base_go_api.Jobs.Service
use base_go_api.Jobs.Service.{Config, default_config, seconds}
use base_go_api.Jobs.Worker.{Clock, calculate_backoff, process_job, completed_callback}
use base_go_api.Jobs.Effects.{claim}
use base_go_api.Jobs.Outcomes.{retry}
use base_go_api.Jobs.Index.{IsIndexed}
use base_go_api.Jobs.Reach.{Reach, here, next, submitted, Reach-IsIndexed}
use base_go_api.Jobs.Opening.{IsOpen, IsClaimed, set_processing-IsOpen}
use base_go_api.Jobs.Processing.{Ran, settled, announced, process_job-settles}
use base_go_api.Jobs.Recovery.{IsStuck, get_stuck_jobs_lem}
use base_go_api.Jobs.Transitions.{last_retry_refused, cancelled_not_claimed}
use base_go_api.Jobs.Backoff.{calculate_backoff_bounds}
use base_go_api.Jobs.Memory.{server, server_laws, server-IsReliable, fetched, view_of, members}

abbrev request : Service.SubmitRequest
request = record { kind = "email"; payload = []; max_retries = 2; webhook_url = "https://cb" }

-- Job 7 of user 1, as it is submitted at the instant 0.
abbrev seven : Job
seven = record {
  id = 7;
  kind = "email";
  payload = [];
  status = pending;
  attempt_count = 1;
  max_retries = 2;
  last_error = "";
  result = [];
  created_at = pos 0;
  started_at = none;
  completed_at = none;
  next_retry_at = none;
  callback_url = "https://cb";
  user_id = 1;
}

abbrev stored : List Command
stored = sadd_status pending 7 ∷ set_data 7 seven ∷ []

abbrev clock : Clock
clock = record {
  started = pos 10;
  finished = pos 20;
  retry_from = pos 30;
  retry_again = pos 40;
  buried = pos 50;
}

abbrev parse : Bytes → ℕ ⊎ String
parse bytes = inr "no JSON"

-- It counts its runs.
abbrev handler : String → Option ℕ → ℕ → (Bytes ⊎ String) × ℕ
handler kind payload runs = (inl (1 ∷ 2 ∷ []), suc runs)

process_seven :
    let r = process_job server default_config true parse handler clock seven (stored, 0) in
    (r.0 ≡ ok (completed_callback "https://cb" 7 (1 ∷ 2 ∷ []) 1 ∷ [])) × (r.1.1 ≡ 1)
unfolding process_job set_processing set_completed claimable effect fetched can_transition_to
process_seven = (refl, refl)

empty-IsIndexed : IsIndexed (server_laws.view [])
empty-IsIndexed = record { own = λ id j h. cc h; indexed = λ id. refl }

abbrev after_submit : List Command
unfolding Service.submit Repository.submit Service.prepare
after_submit = (Service.submit server default_config (pos 0) (pos 0) (pos 0) 7 1 request []).1

submit_seven : Reach server server_laws default_config [] after_submit
unfolding Service.submit Repository.submit Service.prepare
submit_seven = next here (submitted (pos 0) (pos 0) (pos 0) 7 1 request _ refl refl)

Reach-IsIndexed_example : IsIndexed (server_laws.view after_submit)
Reach-IsIndexed_example =
    Reach-IsIndexed server server_laws default_config empty-IsIndexed submit_seven

stored-seven : (view_of stored).jobs 7 ≡ some seven
unfolding effect
stored-seven = refl

set_processing-IsOpen_example :
    let (answer, d1) = set_processing server (pos 10) 7 stored in
    (IsOpen seven
      × (answer ≡ ok (record seven { status = processing; started_at = some (pos 10) }))
      × IsClaimed (pos 10) 7 seven (view_of stored) (view_of d1))
    ⊎ (¬ IsOpen seven × (answer ≡ err conflict) × (view_of d1 ≡ view_of stored))
set_processing-IsOpen_example =
    set_processing-IsOpen server server_laws server-IsReliable (pos 10) 7 stored seven stored-seven
      refl

process_job-settles_example :
    let updated = record seven { status = processing; started_at = some (pos 10) } in
    let (sent, (d1, runs)) =
      process_job server default_config true parse handler clock seven (stored, 0) in
    (out : Bytes ⊎ String) × Ran parse handler updated 0 out runs
    × (sent ≡ ok (announced true out updated))
    × ((view_of d1).jobs 7 ≡ some (settled default_config clock out updated))
process_job-settles_example =
    process_job-settles server server_laws server-IsReliable default_config true parse handler clock
      seven seven stored 0 stored-seven refl (inl refl)

-- Claimed at the instant 10.
abbrev working : List Command
working = sadd_status processing 7 ∷ set_data 7 (claim (pos 10) seven) ∷ []

working-IsIndexed : IsIndexed (view_of working)
unfolding effect
working-IsIndexed = record { own = λ id j h. ground arith; indexed = λ id. ground arith }

stuck_seven : (get_stuck_jobs server (pos 400) 300 working).0 ≡ ok (claim (pos 10) seven ∷ [])
unfolding get_stuck_jobs fetched effect members nil_or_internal Repository.get_by_id
stuck_seven = refl

get_stuck_jobs_example :
    let j = claim (pos 10) seven in
    In j (j ∷ []) ↔ (((view_of working).jobs 7 ≡ some j) × IsStuck (pos 100) j)
get_stuck_jobs_example =
    get_stuck_jobs_lem server server_laws server-IsReliable (pos 400) 300 working
      {jobs = claim (pos 10) seven ∷ []} working-IsIndexed stuck_seven (claim (pos 10) seven)

-- With two attempts allowed, the first failure is the last that is handled.
last_retry_refused_example :
    let d1 = (set_failed server (pos 50) 7 "smtp" (some (pos 90)) working).1 in
    let d2 = (set_processing server (pos 95) 7 d1).1 in
    ((set_failed server (pos 50) 7 "smtp" (some (pos 90)) working).0 ≡ ok tt)
    × ((set_processing server (pos 95) 7 d1).0 ≡ err conflict)
    × ((view_of d2).jobs 7 ≡ some (retry "smtp" (pos 90) (claim (pos 10) seven)))
unfolding effect
last_retry_refused_example =
    last_retry_refused server server_laws server-IsReliable (pos 50) (pos 95) "smtp" (pos 90)
      working (claim (pos 10) seven) refl refl

cancel_seven : (Service.cancel server 7 1 stored).0 ≡ ok tt
unfolding Service.cancel Repository.get_by_id Repository.update fetched effect
cancel_seven = refl

stored_own : (id : ℕ) (j : Job) → (view_of stored).jobs id ≡ some j → j.id ≡ id
unfolding effect
stored_own id j h = ground arith

cancelled_not_claimed_example :
    let d1 = (Service.cancel server 7 1 stored).1 in
    ((set_processing server (pos 10) 7 d1).0 ≡ err conflict)
    × ((job : Job) × ((view_of stored).jobs 7 ≡ some job)
        × (job.user_id ≡ 1)
        × ((view_of d1).jobs 7 ≡ some (record job { status = dead })))
cancelled_not_claimed_example =
    cancelled_not_claimed server server_laws server-IsReliable 7 1 (pos 10) stored stored_own
      cancel_seven

calculate_backoff_bounds_example :
    (pos 0 ≤ℤ calculate_backoff default_config (pos 0) (pos 5) 3)
    × (calculate_backoff default_config (pos 0) (pos 5) 3 ≤ℤ pos 5 +ℤ pos (seconds 1800))
calculate_backoff_bounds_example =
    calculate_backoff_bounds default_config (pos 0) (pos 5) 3 (omega arith) (omega arith)
      (omega arith)
