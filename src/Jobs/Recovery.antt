-- ===== src/Jobs/Recovery.antt =====
-- The reaper's view: `GetStuckJobs` of internal/repository/job.go against the stored jobs.
use base_go_api.Prelude.{
  ℕ, ◌+◌, ◌==◌, ◌≡◌, ◌↔◌, refl, subst, if◌then◌else◌, ◌∙◌, ap, sym, ◌⊎◌, inl, inr, Bool, true,
  false, List, [], ◌∷◌, Option, none, some, arith, any, Bool-cases,
}
use base_go_api.Prelude.Int.{sub_ℕ, pos_part, neg_part, ltb_ℤ}
use base_go_api.Prelude.Outcome.{Outcome, ok, err, map_err-eq-ok, map_err_state, map_err, >>=-eq-ok}
use base_go_api.Errors.{wrap_internal}
use base_go_api.Sql.Table.{In}
use base_go_api.Jobs.Job.{processing, Job, Time}
use base_go_api.Jobs.Redis.{Redis, Laws, IsReliable, is_some_of}
use base_go_api.Jobs.Repository.{get_by_id, collect, fetch, get_stuck_jobs, started_before}
use base_go_api.Jobs.Effects.{get_by_id-view, get_by_id-ok}
use base_go_api.Jobs.Claims.{get_by_id_runs}
use base_go_api.Jobs.Index.{IsIndexed, is_processing}

-- A job is in processing, and was claimed before the instant.
abbrev pub IsStuck : Time → Job → Type 0
IsStuck cutoff j =
    (j.status ≡ processing) × (t : Time) × (j.started_at ≡ some t) × (ltb_ℤ t cutoff ≡ true)

started_of_before :
    (cutoff : Time) (o : Option Time)
    → started_before cutoff o ≡ true
    → (t : Time) × (o ≡ some t) × (ltb_ℤ t cutoff ≡ true)
started_of_before cutoff none h = cc
started_of_before cutoff (some t) h = (t, refl, h)

-- A job that one round of the loop has added, or that was there.
collect-In :
    (p : Job → Bool) (found : Outcome Job) (jobs : List Job) (j : Job)
    → In j (collect p found jobs)
    → ((found ≡ ok j) × (p j ≡ true)) ⊎ In j jobs
collect-In p (err e) jobs j there = inr there
collect-In p (ok k) jobs j there = go (p k) refl there
  where
    go :
        (b : Bool)
        → p k ≡ b
        → In j (if b then k ∷ jobs else jobs)
        → ((ok k ≡ ok j) × (p j ≡ true)) ⊎ In j jobs
    go true e (inl same) = inl (cc, cc)
    go true e (inr rest) = inr rest
    go false e rest = inr rest

collect_keeps :
    (p : Job → Bool) (found : Outcome Job) (jobs : List Job) (j : Job)
    → In j jobs
    → In j (collect p found jobs)
collect_keeps p (err e) jobs j there = there
collect_keeps p (ok k) jobs j there = elim (Bool-cases (p k)) [
  | inl wanted ↦ rw wanted (inr there)
  | inr unwanted ↦ rw unwanted there
]

collect_adds :
    (p : Job → Bool) (found : Outcome Job) (jobs : List Job) (j : Job)
    → found ≡ ok j
    → p j ≡ true
    → In j (collect p found jobs)
collect_adds p found jobs j e h = rw (e, h) (inl refl)

module _ (redis : Redis) (laws : Laws redis) (sound : IsReliable redis laws) (p : Job → Bool) where
  open redis use {Db}
  open laws use {view}

  -- What the loop has found: the jobs stored under the identifiers that pass the test.
  abbrev Found : List (Option ℕ) → Db → Type 0
  Found ids d =
      (jobs : List Job) × ((fetch redis p ids d).0 ≡ ok jobs)
      × ((j : Job)
          → In j jobs
          → (id : ℕ) × (any (is_some_of id) ids ≡ true)
            × ((view d).jobs id ≡ some j)
            × (p j ≡ true))
      × ((id : ℕ) (j : Job)
          → any (is_some_of id) ids ≡ true
          → (view d).jobs id ≡ some j
          → p j ≡ true
          → In j jobs)

  fetch_finds : (ids : List (Option ℕ)) (d : Db) → Found ids d
  unfolding fetch
  fetch_finds [] d = ([], refl, λ j h. elim h [ ], λ id j h e q. cc)
  fetch_finds (none ∷ ids) d = fetch_finds ids d
  fetch_finds (some k ∷ ids) d =
      let r = get_by_id redis k d in
      let same : view r.1 ≡ view d = get_by_id-view redis laws k d in
      let (jobs, runs, only, all) = fetch_finds ids r.1 in
      (
        collect p r.0 jobs,
        ground arith,
        λ j there. elim (collect-In p r.0 jobs j there) [
          | inl (read, good) ↦ (k, ground arith, get_by_id-ok redis laws k d read, good)
          | inr before ↦
              let (id, listed, stored, good) = only j before in
              (id, ground arith, ap (λ v. v.jobs id) (sym same) ∙ stored, good)
        ],
        λ id j listed stored good. elim (Bool-cases (k == id)) [
          | inl this ↦
              collect_adds p r.0 jobs j
                (get_by_id_runs redis laws sound k d j (ap (view d).jobs (ground arith) ∙ stored))
                good
          | inr other ↦
              collect_keeps p r.0 jobs j
                (all id j (ground arith) (ap (λ v. v.jobs id) same ∙ stored) good)
        ],
      )

module _ (redis : Redis) (laws : Laws redis) (sound : IsReliable redis laws) where
  open redis use {Db}
  open laws use {view, smembers_ok, smembers_view}

  -- On a server that reports no error for a stored job, and with an index of `processing` that is
  -- right: where `GetStuckJobs` succeeds, it returns a job exactly if that job is stored as it is
  -- returned, is in processing, and was started more than the threshold before now.
  pub get_stuck_jobs_lem :
      (now : Time) (threshold : ℕ) (d : Db) {jobs : List Job}
      → IsIndexed (view d)
      → (get_stuck_jobs redis now threshold d).0 ≡ ok jobs
      → (j : Job)
      → In j jobs ↔ (
          ((view d).jobs j.id ≡ some j)
          × IsStuck (sub_ℕ (pos_part now) (neg_part now + threshold)) j)
  unfolding get_stuck_jobs
  get_stuck_jobs_lem now threshold d {jobs} i h j =
      let cutoff = sub_ℕ (pos_part now) (neg_part now + threshold) in
      let p = λ (j : Job). started_before cutoff j.started_at in
      let members = map_err wrap_internal (redis.smembers_status processing) in
      let (ids, listed, same, rest) = >>=-eq-ok members (fetch redis p) d h in
      let left : view (members d).1 ≡ view d =
        ap view (map_err_state wrap_internal (redis.smembers_status processing) d)
        ∙ smembers_view processing d in
      let (found, runs, only, all) = fetch_finds redis laws sound p ids (members d).1 in
      let e : found ≡ jobs = cc in
      let indexed : (id : ℕ) → any (is_some_of id) ids ≡ is_processing ((view d).jobs id) = λ id.
        smembers_ok processing d ids id
          (map_err-eq-ok wrap_internal (redis.smembers_status processing) d listed)
        ∙ i.indexed id in
      (
        λ there.
            let (id, member, stored, good) = only j (subst (In j) (sym e) there) in
            let here = ap (λ v. v.jobs id) (sym left) ∙ stored in
            let own = i.own id j here in
            let (t, started, early) = started_of_before cutoff j.started_at good in
            (ap (view d).jobs own ∙ here, (ground (arith, indexed id), t, started, early)),
        λ (stored, (busy, t, started, early)). subst (In j) e (
            all j.id j (indexed j.id ∙ rw (stored, busy) refl) (ap (λ v. v.jobs j.id) left ∙ stored)
              (rw started early)),
      )
