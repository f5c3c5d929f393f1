-- ===== src/Jobs/Reach.antt =====
-- Histories of the job queue: sequences of calls that succeed, by any users, workers and reapers,
-- and what holds after each.
use base_go_api.Prelude.{ℕ, ◌≡◌, refl, ◌∙◌, ap, subst, sym, String, List, Option, none, some}
use base_go_api.Prelude.Outcome.{ok}
use base_go_api.Jobs.Job.{Status, processing, status_eq, Job, Time, Bytes}
use base_go_api.Jobs.Redis.{Redis, Laws, View}
use base_go_api.Jobs.Repository
use base_go_api.Jobs.Service
use base_go_api.Jobs.Service.{Config, lookup_error, seconds}
use base_go_api.Jobs.Effects.{enqueue-effects, update-effects, set_processing-ok}
use base_go_api.Jobs.Outcomes.{set_completed-ok, set_failed-ok, delete-ok, reset_stuck_job-ok}
use base_go_api.Jobs.ServiceOutcomes.{submitted_job, submit-ok, cancel-ok, resubmit-ok}
use base_go_api.Jobs.Index.{
  IsIndexed, submit-IsIndexed, claim-IsIndexed, leave-IsIndexed, failure-IsIndexed,
  release-IsIndexed, delete-IsIndexed, rewrite-IsIndexed, enqueue-IsIndexed, renew-IsIndexed,
}
use base_go_api.Jobs.Reads.{
  get_by_id-Keeps, list_by_user-Keeps, get_stuck_jobs-Keeps, dequeue-Keeps,
}

module _ (redis : Redis) (laws : Laws redis) (cfg : Config) where
  open redis use {Db}
  open laws use {view}

  -- A call of a method of the repository, `Submit` as the service calls it, or of `Cancel` or `Resubmit`
  -- of the service, that ended without error, and the state after it. An identifier that `uuid.New`
  -- draws is new. `Update` writes any job, with no index: a job that is stored, and that is in
  -- processing after the call exactly if it was before, as in each call that the code makes by itself.
  pub data Step (d : Db) (e : Db) : Type 0 where
    submitted :
        (created now stored : Time) (id user : ℕ) (req : Service.SubmitRequest) (j : Job)
        → (view d).jobs id ≡ none
        → Service.submit redis cfg created now stored id user req d ≡ (ok j, e)
        → Step d e
    claimed :
        (now : Time) (id : ℕ) (j : Job)
        → Repository.set_processing redis now id d ≡ (ok j, e)
        → Step d e
    completed :
        (now : Time) (id : ℕ) (result : Bytes)
        → Repository.set_completed redis now id result d ≡ (ok tt, e)
        → Step d e
    failed_once :
        (now : Time) (id : ℕ) (message : String) (at : Option Time)
        → Repository.set_failed redis now id message at d ≡ (ok tt, e)
        → Step d e
    released :
        (j : Job) (at : Time) → Repository.reset_stuck_job redis j at d ≡ (ok tt, e) → Step d e
    queued : (id : ℕ) (at : Time) → Repository.enqueue redis id at d ≡ (ok tt, e) → Step d e
    deleted : (id : ℕ) → Repository.delete redis id d ≡ (ok tt, e) → Step d e
    updated :
        (j old : Job)
        → (view d).jobs j.id ≡ some old
        → status_eq j.status processing ≡ status_eq old.status processing
        → Repository.update redis j d ≡ (ok tt, e)
        → Step d e
    dequeued : (found : Option Job) → Repository.dequeue redis d ≡ (ok found, e) → Step d e
    fetched : (id : ℕ) (j : Job) → Repository.get_by_id redis id d ≡ (ok j, e) → Step d e
    listed :
        (user : ℕ) (status : Option Status) (limit offset : ℕ) (page : List Job × ℕ)
        → Repository.list_by_user redis user status limit offset d ≡ (ok page, e)
        → Step d e
    scanned :
        (now : Time) (threshold : ℕ) (jobs : List Job)
        → Repository.get_stuck_jobs redis now threshold d ≡ (ok jobs, e)
        → Step d e
    cancelled : (id user : ℕ) → Service.cancel redis id user d ≡ (ok tt, e) → Step d e
    resubmitted :
        (now : Time) (id user : ℕ) (j : Job)
        → Service.resubmit redis cfg now id user d ≡ (ok j, e)
        → Step d e

  pub data Reach (d : Db) : Db → Type 0 where
    here : Reach d d
    next : {e f : Db} → Reach d e → Step e f → Reach d f

  -- A step whose effect keeps the invariant.
  by_effects : {e f : Db} {w : View} → IsIndexed w → f ≡ e → view f ≡ w → IsIndexed (view e)
  by_effects {w} i same seen = subst IsIndexed (sym seen ∙ ap view same) i

  Step-IsIndexed : {d e : Db} → Step d e → IsIndexed (view d) → IsIndexed (view e)
  unfolding Service.prepare
  Step-IsIndexed {d} (claimed now id j h) i =
      let (stored, found, may, same, seen) =
        set_processing-ok redis laws now id d (ap (λ r. r.0) h) in
      by_effects (claim-IsIndexed (view d) i now id stored found) (ap (λ r. r.1) h) seen
  Step-IsIndexed {d} (completed now id result h) i =
      let (job, found, may, seen) = set_completed-ok redis laws now id result d (ap (λ r. r.0) h) in
      by_effects (leave-IsIndexed (view d) i id _ _ (i.own id job found) refl refl)
        (ap (λ r. r.1) h) seen
  Step-IsIndexed {d} (failed_once now id message at h) i =
      let (job, found, seen) = set_failed-ok redis laws now id message at d (ap (λ r. r.0) h) in
      by_effects (failure-IsIndexed (view d) i now id message at job (i.own id job found))
        (ap (λ r. r.1) h) seen
  Step-IsIndexed {d} (released j at h) i =
      by_effects (release-IsIndexed (view d) i j at) (ap (λ r. r.1) h)
        (reset_stuck_job-ok redis laws j at d (ap (λ r. r.0) h))
  Step-IsIndexed {d} (queued id at h) i =
      by_effects (enqueue-IsIndexed (view d) i id at) (ap (λ r. r.1) h)
        (enqueue-effects redis laws id at d (ap (λ r. r.0) h))
  Step-IsIndexed {d} (deleted id h) i =
      let (job, found, seen) = delete-ok redis laws id d (ap (λ r. r.0) h) in
      by_effects (delete-IsIndexed (view d) i id job found) (ap (λ r. r.1) h) seen
  Step-IsIndexed {d} (submitted created now stored id user req j fresh h) i =
      let seen = submit-ok redis laws cfg created now stored id user req d (ap (λ r. r.0) h) in
      by_effects
        (submit-IsIndexed (view d) i stored (submitted_job cfg created now stored id user req) refl
          fresh)
        (ap (λ r. r.1) h) seen
  Step-IsIndexed {d} (cancelled id user h) i =
      let (job, found, was, owner, seen) = cancel-ok redis laws id user d (ap (λ r. r.0) h) in
      by_effects (rewrite-IsIndexed (view d) i id job _ found (i.own id job found) (sym was))
        (ap (λ r. r.1) h) seen
  Step-IsIndexed {d} (resubmitted now id user j h) i =
      let (job, found, was, owner, same, seen) =
        resubmit-ok redis laws cfg now id user d (ap (λ r. r.0) h) in
      by_effects (renew-IsIndexed (view d) i cfg now id job found was) (ap (λ r. r.1) h) seen
  Step-IsIndexed {d} (updated j old found same h) i =
      by_effects (rewrite-IsIndexed (view d) i j.id old j found refl same) (ap (λ r. r.1) h)
        (update-effects redis laws j d (ap (λ r. r.0) h))
  Step-IsIndexed {d} (dequeued found h) i =
      subst (λ e. IsIndexed (view e)) (ap (λ r. r.1) h) (dequeue-Keeps redis laws d i)
  Step-IsIndexed {d} (fetched id j h) i =
      subst (λ e. IsIndexed (view e)) (ap (λ r. r.1) h) (get_by_id-Keeps redis laws id d i)
  Step-IsIndexed {d} (listed user status limit offset page h) i =
      subst (λ e. IsIndexed (view e)) (ap (λ r. r.1) h)
        (list_by_user-Keeps redis laws user status limit offset d i)
  Step-IsIndexed {d} (scanned now threshold jobs h) i =
      subst (λ e. IsIndexed (view e)) (ap (λ r. r.1) h)
        (get_stuck_jobs-Keeps redis laws now threshold d i)

  -- After any sequence of calls that succeed, of the methods of the repository and of `Submit`, `Cancel`
  -- and `Resubmit` of the service: the index of `processing` holds exactly the stored jobs with that
  -- status, and each job is stored under its identifier, if both held at the start, each submission
  -- drew a new identifier, and each `Update` from outside the other methods was of a stored job and
  -- took it neither into processing nor out of it.
  pub Reach-IsIndexed : {d e : Db} → IsIndexed (view d) → Reach d e → IsIndexed (view e)
  Reach-IsIndexed i here = i
  Reach-IsIndexed i (next r s) = Step-IsIndexed s (Reach-IsIndexed i r)
