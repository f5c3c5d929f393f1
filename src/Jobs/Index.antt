-- ===== src/Jobs/Index.antt =====
-- The index `jobs:status:processing`, which the reaper reads, and the jobs that it is to hold.
use base_go_api.Prelude.{
  ℕ, ◌≡◌, refl, inl, inr, String, Bool, false, List, [], ◌∷◌, Option, none, some, arith, ltb,
  Bool-cases,
}
use base_go_api.Jobs.Job.{Status, pending, processing, failed, dead, status_eq, Job, Time}
use base_go_api.Jobs.Redis.{
  View, Command, effects, set_data, del_data, zadd_user, zrem_user, expire_user, sadd_status,
  srem_status, expire_status, zadd_queue, zrem_queue,
}
use base_go_api.Jobs.Repository.{unix_milli, unix}
use base_go_api.Jobs.Service.{Config, renew, seconds}
use base_go_api.Prelude.Int.{pos, ◌+ℤ◌}
use base_go_api.Jobs.Effects.{claim_commands}
use base_go_api.Jobs.Outcomes.{move, failure_commands, release}

abbrev pub is_processing : Option Job → Bool
is_processing none = false
is_processing (some j) = status_eq j.status processing

-- Each job is stored under its own identifier, and the index of `processing` holds exactly the
-- identifiers of the jobs with that status.
pub record IsIndexed (v : View) : Type 0 where
  pub own : (id : ℕ) (j : Job) → v.jobs id ≡ some j → j.id ≡ id
  pub indexed : (id : ℕ) → v.by_status processing id ≡ is_processing (v.jobs id)

abbrev pub submit_commands : Time → Job → List Command
submit_commands now j =
    set_data j.id j
    ∷ zadd_user j.user_id (unix now) j.id
    ∷ expire_user j.user_id
    ∷ sadd_status pending j.id
    ∷ expire_status pending
    ∷ zadd_queue (unix_milli now) j.id
    ∷ []

module _ (v : View) (i : IsIndexed v) where
  pub submit-IsIndexed :
      (now : Time) (j : Job)
      → j.status ≡ pending
      → v.jobs j.id ≡ none
      → IsIndexed (effects (submit_commands now j) v)
  unfolding effects
  submit-IsIndexed now j p fresh = record {
    own = λ id k e. ground (arith, i.own id k);
    indexed = λ id. ground (arith, i.indexed id);
  }

  pub claim-IsIndexed :
      (now : Time) (id : ℕ) (j : Job)
      → v.jobs id ≡ some j
      → IsIndexed (effects (claim_commands now id j) v)
  unfolding effects
  claim-IsIndexed now id j found = record {
    own = λ n k e. ground (arith, i.own n k, i.own id j);
    indexed = λ n. ground (arith, i.indexed n, i.own id j);
  }

  -- A job that leaves `processing`.
  pub leave-IsIndexed :
      (id : ℕ) (j : Job) (to : Status)
      → j.id ≡ id
      → j.status ≡ to
      → status_eq to processing ≡ false
      → IsIndexed (effects (set_data j.id j ∷ move processing to id) v)
  unfolding effects
  leave-IsIndexed id j to e s other = record {
    own = λ n k h. ground (arith, i.own n k);
    indexed = λ n. ground (arith, i.indexed n);
  }

  pub retry-IsIndexed :
      (id : ℕ) (j : Job) (at : Time)
      → j.id ≡ id
      → j.status ≡ failed
      → IsIndexed (
          effects
            (set_data j.id j
              ∷ srem_status processing id
              ∷ sadd_status failed id
              ∷ expire_status failed
              ∷ zadd_queue (unix_milli at) id
              ∷ [])
            v)
  unfolding effects
  retry-IsIndexed id j at e s = record {
    own = λ n k h. ground (arith, i.own n k);
    indexed = λ n. ground (arith, i.indexed n);
  }

  pub failure-IsIndexed :
      (now : Time) (id : ℕ) (message : String) (at : Option Time) (j : Job)
      → j.id ≡ id
      → IsIndexed (effects (failure_commands now id message at j) v)
  failure-IsIndexed now id message none j e = leave-IsIndexed id _ dead e refl refl
  failure-IsIndexed now id message (some at) j e =
      elim (Bool-cases (ltb j.attempt_count j.max_retries)) [
        | inl more ↦ rw more (retry-IsIndexed id _ at e refl)
        | inr last ↦ rw last (leave-IsIndexed id _ dead e refl refl)
      ]

  pub release-IsIndexed :
      (j : Job) (at : Time)
      → IsIndexed (
          effects
            (set_data j.id (release at j)
              ∷ srem_status processing j.id
              ∷ sadd_status pending j.id
              ∷ [])
            v)
  unfolding effects
  release-IsIndexed j at = record {
    own = λ n k h. ground (arith, i.own n k);
    indexed = λ n. ground (arith, i.indexed n);
  }

  pub delete-IsIndexed :
      (id : ℕ) (j : Job)
      → v.jobs id ≡ some j
      → IsIndexed (
          effects
            (del_data id ∷ zrem_queue id ∷ zrem_user j.user_id id ∷ srem_status j.status id ∷ [])
            v)
  unfolding effects
  delete-IsIndexed id j found = record {
    own = λ n k h. ground (arith, i.own n k);
    indexed = λ n. ground (arith, i.indexed n);
  }

  -- A job that is written back with no change of an index, and is in `processing` if it was before,
  -- as `Cancel` and `Resubmit` do.
  pub rewrite-IsIndexed :
      (id : ℕ) (old j : Job)
      → v.jobs id ≡ some old
      → j.id ≡ id
      → status_eq j.status processing ≡ status_eq old.status processing
      → IsIndexed (effects (set_data j.id j ∷ []) v)
  unfolding effects
  rewrite-IsIndexed id old j found e same = record {
    own = λ n k h. ground (arith, i.own n k);
    indexed = λ n. ground (arith, i.indexed n);
  }

  pub enqueue-IsIndexed :
      (id : ℕ) (at : Time) → IsIndexed (effects (zadd_queue (unix_milli at) id ∷ []) v)
  unfolding effects
  enqueue-IsIndexed id at = record { own = i.own; indexed = i.indexed }

  pub renew-IsIndexed :
      (cfg : Config) (now : Time) (id : ℕ) (j : Job)
      → v.jobs id ≡ some j
      → j.status ≡ dead
      → IsIndexed (
          effects
            (set_data j.id (renew cfg now j)
              ∷ zadd_queue (unix_milli (now +ℤ pos (seconds cfg.job_timeout_seconds))) j.id
              ∷ [])
            v)
  unfolding effects
  renew-IsIndexed cfg now id j found was = record {
    own = λ n k h. ground (arith, i.own n k, i.own id j);
    indexed = λ n. ground (arith, i.indexed n, i.own id j);
  }
