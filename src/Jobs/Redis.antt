-- ===== src/Jobs/Redis.antt =====
-- The Redis server that internal/repository/job.go talks to, which is no part of the repository: an
-- interface of the commands that the code sends, and what their documentation promises of the part
-- of the server that the queue uses. Jobs are written and read as JSON by the standard library; the
-- interface takes the decoded job.
use base_go_api.Prelude.{
  ℕ, ◌≡◌, Bool, true, false, List, [], ◌∷◌, Option, none, some, ◌==◌, ◌&&◌, if◌then◌else◌, any,
}
use base_go_api.Prelude.Int.{ℤ}
use base_go_api.Prelude.Outcome.{ok, err, Call}
use base_go_api.Errors.{Error, foreign}
use base_go_api.Jobs.Job.{Status, status_eq, Job}

-- A command that writes, with the key that it addresses: `jobs:data:<id>`, `jobs:user:<id>`,
-- `jobs:status:<status>` or the queue.
pub data Command : Type 0 where
  set_data : ℕ → Job → Command
  del_data : ℕ → Command
  zadd_user : ℕ → ℤ → ℕ → Command
  zrem_user : ℕ → ℕ → Command
  expire_user : ℕ → Command
  sadd_status srem_status : Status → ℕ → Command
  expire_status : Status → Command
  zadd_queue : ℤ → ℕ → Command
  zrem_queue : ℕ → Command

-- What `ZPOPMIN` takes from the queue: nothing, a member that is no identifier, or an identifier.
pub data Popped : Type 0 where
  empty garbage : Popped
  popped : ℕ → Popped

-- The error value `redis.Nil`.
abbrev pub redis_nil : Error
redis_nil = foreign "redis: nil"

-- A member read as an identifier is `none` where `uuid.Parse` fails.
pub record Redis : Type 1 where
  pub Db : Type 0
  pub exec : List Command → Call Db (Unit {0})
  pub get_data : ℕ → Call Db Job
  pub zpopmin_queue : Call Db Popped
  pub zrevrange_user : ℕ → ℤ → ℤ → Call Db (List (Option ℕ))
  pub zcard_user : ℕ → Call Db ℕ
  pub smembers_status : Status → Call Db (List (Option ℕ))

-- What the keys hold.
pub record View : Type 0 where
  pub jobs : ℕ → Option Job
  pub queue : ℕ → Option ℤ
  pub by_status : Status → ℕ → Bool
  pub by_user : ℕ → ℕ → Option ℤ

abbrev pub put {ℓ} : {V : Type ℓ} → (ℕ → V) → ℕ → V → ℕ → V
put f k v n = if n == k then v else f n

-- The documented effect of a command that succeeds.
unfoldable pub effect : Command → View → View
effect (set_data id j) v = record v { jobs = put v.jobs id (some j) }
effect (del_data id) v = record v { jobs = put v.jobs id none }
effect (zadd_user u s id) v = record v { by_user = put v.by_user u (put (v.by_user u) id (some s)) }
effect (zrem_user u id) v = record v { by_user = put v.by_user u (put (v.by_user u) id none) }
effect (expire_user u) v = v
effect (sadd_status s id) v = record v {
  by_status = λ t n. if status_eq t s && n == id then true else v.by_status t n;
}
effect (srem_status s id) v = record v {
  by_status = λ t n. if status_eq t s && n == id then false else v.by_status t n;
}
effect (expire_status s) v = v
effect (zadd_queue s id) v = record v { queue = put v.queue id (some s) }
effect (zrem_queue id) v = record v { queue = put v.queue id none }

unfoldable pub effects : List Command → View → View
unfolding effect
effects [] v = v
effects (c ∷ cs) v = effects cs (effect c v)

abbrev pub is_some_of : ℕ → Option ℕ → Bool
is_some_of id none = false
is_some_of id (some n) = n == id

-- The laws, while no key of the queue reaches its time to live of seven days. A pipeline that
-- reports no error has run all its commands; a command that reads changes nothing.
pub record Laws (r : Redis) : Type 0 where
  pub view : r.Db → View
  pub exec_ok :
      (cs : List Command) (d : r.Db)
      → (r.exec cs d).0 ≡ ok tt
      → view (r.exec cs d).1 ≡ effects cs (view d)
  pub get_view : (id : ℕ) (d : r.Db) → view (r.get_data id d).1 ≡ view d
  pub get_ok :
      (id : ℕ) (d : r.Db) (j : Job) → (r.get_data id d).0 ≡ ok j → (view d).jobs id ≡ some j
  pub get_nil : (id : ℕ) (d : r.Db) → (r.get_data id d).0 ≡ err redis_nil → (view d).jobs id ≡ none
  pub smembers_view : (s : Status) (d : r.Db) → view (r.smembers_status s d).1 ≡ view d
  pub zrevrange_view :
      (u : ℕ) (from to : ℤ) (d : r.Db) → view (r.zrevrange_user u from to d).1 ≡ view d
  pub zcard_view : (u : ℕ) (d : r.Db) → view (r.zcard_user u d).1 ≡ view d
  -- `ZPOPMIN` writes to the queue alone.
  pub zpopmin_jobs : (d : r.Db) → (view (r.zpopmin_queue d).1).jobs ≡ (view d).jobs
  pub zpopmin_status : (d : r.Db) → (view (r.zpopmin_queue d).1).by_status ≡ (view d).by_status
  pub smembers_ok :
      (s : Status) (d : r.Db) (ids : List (Option ℕ)) (id : ℕ)
      → (r.smembers_status s d).0 ≡ ok ids
      → any (is_some_of id) ids ≡ (view d).by_status s id

-- A server that never reports an error, except `redis.Nil` for a key that is not there.
pub record IsReliable (r : Redis) (laws : Laws r) : Type 0 where
  pub exec_runs : (cs : List Command) (d : r.Db) → (r.exec cs d).0 ≡ ok tt
  pub get_runs :
      (id : ℕ) (d : r.Db) (j : Job) → (laws.view d).jobs id ≡ some j → (r.get_data id d).0 ≡ ok j
