-- ===== src/Jobs/Opening.antt =====
-- Which jobs `SetProcessing` of internal/repository/job.go hands to a worker, and what it writes, on a
-- server that reports no errors.
use base_go_api.Prelude.{
  ℕ, ◌<◌, ◌==◌, ◌≡◌, ◌⊎◌, inl, inr, refl, sym, subst, true, false, some, arith, Bool-cases,
  if◌then◌else◌,
}
use base_go_api.Prelude.Outcome.{ok, err}
use base_go_api.Errors.{conflict}
use base_go_api.Jobs.Job.{Status, pending, processing, failed, status_eq, Job, Time}
use base_go_api.Jobs.Redis.{Redis, Laws, IsReliable, View, effects}
use base_go_api.Jobs.Repository.{claimable, set_processing}
use base_go_api.Jobs.Effects.{claim_commands}
use base_go_api.Jobs.Claims.{set_processing_lem}

-- A job waits for a worker: it is pending, or failed with attempts left.
abbrev pub IsOpen : Job → Type 0
IsOpen j = (j.status ≡ pending) ⊎ ((j.status ≡ failed) × (j.attempt_count < j.max_retries))

pub claimable_of_IsOpen : (j : Job) → IsOpen j → claimable j ≡ true
unfolding claimable
claimable_of_IsOpen j (inl p) = ground arith
claimable_of_IsOpen j (inr (p, q)) = ground arith

claimable-IsOpen : (j : Job) → claimable j ≡ true → IsOpen j
unfolding claimable
claimable-IsOpen j h = elim (Bool-cases (status_eq j.status pending)) [
  | inl waits ↦ inl (ground arith)
  | inr other ↦ inr (ground arith, ground arith)
]

-- What a claim leaves: the job in processing since the instant, the identifier in the index of
-- `processing` and no longer in that of its old status, and all else as it was.
pub record IsClaimed (now : Time) (id : ℕ) (j : Job) (v : View) (w : View) : Type 0 where
  pub stored :
      (n : ℕ)
      → w.jobs n ≡ (
          if n == id
          then some (record j { status = processing; started_at = some now })
          else v.jobs n)
  pub entered : w.by_status processing id ≡ true
  pub left : w.by_status j.status id ≡ false
  pub others : (s : Status) (n : ℕ) → (n == id) ≡ false → w.by_status s n ≡ v.by_status s n
  pub elsewhere :
      (s : Status)
      → status_eq s processing ≡ false
      → status_eq s j.status ≡ false
      → w.by_status s id ≡ v.by_status s id
  pub queue_kept : (n : ℕ) → w.queue n ≡ v.queue n
  pub users_kept : (u n : ℕ) → w.by_user u n ≡ v.by_user u n

effects-IsClaimed :
    (now : Time) (id : ℕ) (j : Job) (v : View)
    → j.id ≡ id
    → IsOpen j
    → IsClaimed now id j v (effects (claim_commands now id j) v)
unfolding effects
effects-IsClaimed now id j v own open_job = record {
  stored = λ n. ground arith;
  entered = ground arith;
  left = ground arith;
  others = λ s n h. ground arith;
  elsewhere = λ s h k. ground arith;
  queue_kept = λ n. refl;
  users_kept = λ u n. refl;
}

module _ (redis : Redis) (laws : Laws redis) (sound : IsReliable redis laws) where
  open redis use {Db}
  open laws use {view}

  -- On a server that reports no errors, of a job that is stored under its identifier: where it is
  -- pending, or failed with attempts left, `SetProcessing` returns it marked as processing from the
  -- instant on, stores it so, moves its identifier from the index of its old status to that of
  -- `processing`, and changes nothing else; where it is neither, `SetProcessing` returns
  -- `ErrConflict` and changes nothing.
  pub set_processing-IsOpen :
      (now : Time) (id : ℕ) (d : Db) (job : Job)
      → (view d).jobs id ≡ some job
      → job.id ≡ id
      → let (answer, d1) = set_processing redis now id d in
        (IsOpen job
          × (answer ≡ ok (record job { status = processing; started_at = some now }))
          × IsClaimed now id job (view d) (view d1))
        ⊎ (¬ IsOpen job × (answer ≡ err conflict) × (view d1 ≡ view d))
  set_processing-IsOpen now id d job found own = elim (Bool-cases (claimable job)) [
    | inl may ↦
        let open_job = claimable-IsOpen job may in
        let (runs, seen) = (set_processing_lem redis laws sound now id d job found).0 may in
        inl (
          open_job,
          runs,
          subst (IsClaimed now id job (view d)) (sym seen)
              (effects-IsClaimed now id job (view d) own open_job),
        )
    | inr may_not ↦
        let (refused, same) = (set_processing_lem redis laws sound now id d job found).1 may_not in
        inr (λ o. cc (claimable_of_IsOpen job o), refused, same)
  ]
