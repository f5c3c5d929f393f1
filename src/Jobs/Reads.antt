-- ===== src/Jobs/Reads.antt =====
-- The calls of internal/repository/job.go that write no job and no index of a status: they leave what is
-- stored of both.
use base_go_api.Prelude.{ℕ, ◌+◌, ◌≡◌, ◌∙◌, ap, sym, subst, Bool, List, [], ◌∷◌, Option, none, some}
use base_go_api.Prelude.Keeping.{
  Keeps, bind-Keeps, map_err-Keeps, attempt-Keeps, fail-Keeps, pure-Keeps,
}
use base_go_api.Prelude.Outcome.{Call, ◌>>=◌, pure, fail, attempt, map_err}
use base_go_api.Prelude.Int.{pos, sub_ℕ, pos_part, neg_part}
use base_go_api.Errors.{wrap_internal, internal}
use base_go_api.Jobs.Job.{Status, processing, Job, Time}
use base_go_api.Jobs.Redis.{Redis, Laws, Popped, empty, garbage, popped}
use base_go_api.Jobs.Repository.{
  get_by_id, fetch, list_by_user, dequeue, get_stuck_jobs, collect, wanted, started_before,
}
use base_go_api.Jobs.Effects.{get_by_id-view}
use base_go_api.Jobs.Index.{IsIndexed, is_processing}

module _ (redis : Redis) (laws : Laws redis) where
  open redis use {Db}
  open laws use {view, zrevrange_view, zcard_view, zpopmin_jobs, zpopmin_status, smembers_view}

  abbrev Indexed : Db → Type 0
  Indexed d = IsIndexed (view d)

  same_view : {A : Type 0} (m : Call Db A) → ((d : Db) → view (m d).1 ≡ view d) → Keeps Indexed m
  same_view m same d i = subst IsIndexed (sym (same d)) i

  pub get_by_id-Keeps : (id : ℕ) → Keeps Indexed (get_by_id redis id)
  get_by_id-Keeps id = same_view (get_by_id redis id) (get_by_id-view redis laws id)

  fetch-Keeps : (p : Job → Bool) (ids : List (Option ℕ)) → Keeps Indexed (fetch redis p ids)
  unfolding fetch
  fetch-Keeps p [] = pure-Keeps Indexed {A = List Job} []
  fetch-Keeps p (none ∷ ids) = fetch-Keeps p ids
  fetch-Keeps p (some id ∷ ids) =
      bind-Keeps Indexed (attempt (get_by_id redis id))
        (λ o. fetch redis p ids >>= λ jobs. pure (collect p o jobs))
        (attempt-Keeps Indexed (get_by_id redis id) (get_by_id-Keeps id))
        (λ o.
          bind-Keeps Indexed (fetch redis p ids) (λ jobs. pure (collect p o jobs))
            (fetch-Keeps p ids) (λ jobs. pure-Keeps Indexed (collect p o jobs)))

  pub list_by_user-Keeps :
      (user : ℕ) (status : Option Status) (limit offset : ℕ)
      → Keeps Indexed (list_by_user redis user status limit offset)
  unfolding list_by_user
  list_by_user-Keeps user status limit offset =
      let named = redis.zrevrange_user user (pos offset) (sub_ℕ (offset + limit) 1) in
      let counted = redis.zcard_user user in
      let answer = λ (total : ℕ) (jobs : List Job). pure {S = Db} (jobs, total) in
      let last =
        λ (ids : List (Option ℕ)) (total : ℕ). fetch redis (wanted status) ids >>= answer total in
      bind-Keeps Indexed (map_err wrap_internal named)
        (λ ids. map_err wrap_internal counted >>= last ids)
        (map_err-Keeps Indexed wrap_internal named
          (same_view named (zrevrange_view user (pos offset) (sub_ℕ (offset + limit) 1))))
        (λ ids.
          bind-Keeps Indexed (map_err wrap_internal counted) (last ids)
            (map_err-Keeps Indexed wrap_internal counted (same_view counted (zcard_view user)))
            (λ total.
              bind-Keeps Indexed (fetch redis (wanted status) ids) (answer total)
                (fetch-Keeps (wanted status) ids)
                (λ jobs. pure-Keeps Indexed {A = List Job × ℕ} (jobs, total))))

  pub get_stuck_jobs-Keeps :
      (now : Time) (threshold : ℕ) → Keeps Indexed (get_stuck_jobs redis now threshold)
  unfolding get_stuck_jobs
  get_stuck_jobs-Keeps now threshold =
      let p = λ (j : Job).
        started_before (sub_ℕ (pos_part now) (neg_part now + threshold)) j.started_at in
      bind-Keeps Indexed (map_err wrap_internal (redis.smembers_status processing)) (fetch redis p)
        (map_err-Keeps Indexed wrap_internal (redis.smembers_status processing)
          (same_view (redis.smembers_status processing) (smembers_view processing)))
        (fetch-Keeps p)

  zpopmin-Keeps : Keeps Indexed redis.zpopmin_queue
  zpopmin-Keeps d i =
      let jobs = zpopmin_jobs d in
      let status = zpopmin_status d in
      record {
        own = λ id j h. i.own id j (ap (λ f. f id) (sym jobs) ∙ h);
        indexed = λ id.
            ap (λ f. f processing id) status
            ∙ i.indexed id
            ∙ ap (λ f. is_processing (f id)) (sym jobs);
      }

  -- What follows the pop.
  abbrev after_pop : Popped → Call Db (Option Job)
  after_pop top = elim top [
    | empty ↦ pure none
    | garbage ↦ fail internal
    | popped id ↦ get_by_id redis id >>= λ j. pure (some j)
  ]

  popped-Keeps : (top : Popped) → Keeps Indexed (after_pop top)
  popped-Keeps empty = pure-Keeps Indexed {A = Option Job} none
  popped-Keeps garbage = fail-Keeps Indexed (Option Job) internal
  popped-Keeps (popped id) =
      bind-Keeps Indexed (get_by_id redis id) (λ j. pure (some j)) (get_by_id-Keeps id)
        (λ j. pure-Keeps Indexed (some j))

  pub dequeue-Keeps : Keeps Indexed (dequeue redis)
  unfolding dequeue
  dequeue-Keeps =
      bind-Keeps Indexed (map_err wrap_internal redis.zpopmin_queue) after_pop
        (map_err-Keeps Indexed wrap_internal redis.zpopmin_queue zpopmin-Keeps) popped-Keeps
