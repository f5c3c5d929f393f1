-- ===== src/Jobs/Effects.antt =====
-- What the calls of internal/repository/job.go do to the keys, given the laws of the server: the
-- reads leave them, and a write that succeeds has its documented effect.
use base_go_api.Prelude.{ℕ, ◌≡◌, ◌∙◌, ap, true, List, [], ◌∷◌, some, arith}
use base_go_api.Prelude.Outcome.{ok, map_err, map_err-eq-ok, map_err_state, >>=-eq-ok}
use base_go_api.Errors.{Error, wrap_internal}
use base_go_api.Jobs.Job.{processing, Job, Time}
use base_go_api.Jobs.Redis.{
  Redis, Laws, Command, effects, set_data, sadd_status, srem_status, expire_status, zadd_queue,
}
use base_go_api.Jobs.Repository.{
  nil_or_internal, get_by_id, update, enqueue, unix_milli, claimable, claim_job, set_processing,
}

abbrev pub claim : Time → Job → Job
claim now j = record j { status = processing; started_at = some now }

-- The commands of a claim, of the two steps of `SetProcessing`.
abbrev pub claim_commands : Time → ℕ → Job → List Command
claim_commands now id j =
    set_data j.id (claim now j)
    ∷ srem_status j.status id
    ∷ sadd_status processing id
    ∷ expire_status processing
    ∷ []

module _ (redis : Redis) (laws : Laws redis) where
  open redis use {Db, exec, get_data}
  open laws use {view, exec_ok, get_view, get_ok, get_nil}

  pub exec-effects :
      (f : Error → Error) (cs : List Command) (d : Db)
      → (map_err f (exec cs) d).0 ≡ ok tt
      → view (map_err f (exec cs) d).1 ≡ effects cs (view d)
  exec-effects f cs d h =
      ap view (map_err_state f (exec cs) d) ∙ exec_ok cs d (map_err-eq-ok f (exec cs) d h)

  pub get_by_id-view : (id : ℕ) (d : Db) → view (get_by_id redis id d).1 ≡ view d
  unfolding get_by_id
  get_by_id-view id d = ap view (map_err_state nil_or_internal (get_data id) d) ∙ get_view id d

  pub get_by_id-ok :
      (id : ℕ) (d : Db) {j : Job} → (get_by_id redis id d).0 ≡ ok j → (view d).jobs id ≡ some j
  unfolding get_by_id
  get_by_id-ok id d {j} h = get_ok id d j (map_err-eq-ok nil_or_internal (get_data id) d h)

  pub update-effects :
      (j : Job) (d : Db)
      → (update redis j d).0 ≡ ok tt
      → view (update redis j d).1 ≡ effects (set_data j.id j ∷ []) (view d)
  unfolding update
  update-effects j d h = exec-effects nil_or_internal (set_data j.id j ∷ []) d h

  pub enqueue-effects :
      (id : ℕ) (at : Time) (d : Db)
      → (enqueue redis id at d).0 ≡ ok tt
      → view (enqueue redis id at d).1 ≡ effects (zadd_queue (unix_milli at) id ∷ []) (view d)
  unfolding enqueue
  enqueue-effects id at d h = exec-effects wrap_internal (zadd_queue (unix_milli at) id ∷ []) d h

  pub claim_job-ok :
      (now : Time) (id : ℕ) (job : Job) (d : Db) {j : Job}
      → (claim_job redis now id job d).0 ≡ ok j
      → (claimable job ≡ true)
        × (j ≡ claim now job)
        × (view (claim_job redis now id job d).1 ≡ effects (claim_commands now id job) (view d))
  unfolding claim_job effects claimable
  claim_job-ok now id job d h = ground (
    arith,
    update-effects (claim now job) d,
    exec-effects wrap_internal
        (srem_status job.status id ∷ sadd_status processing id ∷ expire_status processing ∷ [])
        (update redis (claim now job) d).1,
  )

  pub set_processing-ok :
      (now : Time) (id : ℕ) (d : Db) {j : Job}
      → (set_processing redis now id d).0 ≡ ok j
      → (stored : Job) × ((view d).jobs id ≡ some stored)
        × (claimable stored ≡ true)
        × (j ≡ claim now stored)
        × (view (set_processing redis now id d).1 ≡ effects (claim_commands now id stored) (view d))
  unfolding set_processing
  set_processing-ok now id d h =
      let (stored, found, same, rest) =
        >>=-eq-ok (get_by_id redis id) (claim_job redis now id) d h in
      let (may, claimed, seen) = claim_job-ok now id stored (get_by_id redis id d).1 rest in
      (
        stored,
        get_by_id-ok id d found,
        may,
        claimed,
        ap (λ r. view r.1) same
            ∙ seen
            ∙ ap (effects (claim_commands now id stored)) (get_by_id-view id d),
      )
