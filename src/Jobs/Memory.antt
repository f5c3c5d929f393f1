-- ===== src/Jobs/Memory.antt =====
-- A server for tests: the log of the commands that it has run, newest first. It satisfies the laws
-- of the interface and reports no errors.
use base_go_api.Prelude.{
  ℕ, ◌+◌, ◌-◌, ◌≡◌, refl, false, ◌&&◌, not, List, [], ◌∷◌, Option, none, some, arith, ◌==◌,
  if◌then◌else◌, any, keep, take, drop, length, map,
}
use base_go_api.Prelude.Int.{ℤ, ltb_ℤ, pos_part}
use base_go_api.Prelude.Outcome.{Outcome, ok, err}
use base_go_api.Jobs.Job.{Status, status_eq, Job}
use base_go_api.Jobs.Redis.{
  Command, set_data, del_data, zadd_user, zrem_user, expire_user, sadd_status, srem_status,
  expire_status, zadd_queue, zrem_queue, Popped, empty, popped, Redis, View, Laws, IsReliable,
  effect, effects, redis_nil, is_some_of,
}

abbrev no_keys : View
no_keys = record {
  jobs = λ id. none;
  queue = λ id. none;
  by_status = λ s id. false;
  by_user = λ u id. none;
}

abbrev pub view_of : List Command → View
view_of [] = no_keys
view_of (c ∷ log) = effect c (view_of log)

abbrev pub run_all : List Command → List Command → List Command
run_all [] log = log
run_all (c ∷ cs) log = run_all cs (c ∷ log)

abbrev remove : ℕ → List (Option ℕ) → List (Option ℕ)
remove id [] = []
remove id (m ∷ ms) = if is_some_of id m then remove id ms else m ∷ remove id ms

unfoldable pub members : Status → List Command → List (Option ℕ)
members s [] = []
members s (sadd_status t id ∷ log) =
    let ms = members s log in if status_eq s t then some id ∷ remove id ms else ms
members s (srem_status t id ∷ log) =
    let ms = members s log in if status_eq s t then remove id ms else ms
members s (_ ∷ log) = members s log

abbrev drop_id : ℕ → List (ℕ × ℤ) → List (ℕ × ℤ)
drop_id id q = keep (λ e. not (e.0 == id)) q

unfoldable pub queued : List Command → List (ℕ × ℤ)
queued [] = []
queued (zadd_queue s id ∷ log) = (id, s) ∷ drop_id id (queued log)
queued (zrem_queue id ∷ log) = drop_id id (queued log)
queued (_ ∷ log) = queued log

unfoldable pub owned : ℕ → List Command → List (ℕ × ℤ)
owned u [] = []
owned u (zadd_user v s id ∷ log) =
    let q = owned u log in if u == v then (id, s) ∷ drop_id id q else q
owned u (zrem_user v id ∷ log) = let q = owned u log in if u == v then drop_id id q else q
owned u (_ ∷ log) = owned u log

-- The entry with the least score.
least : ℕ × ℤ → List (ℕ × ℤ) → ℕ × ℤ
least e [] = e
least e (f ∷ q) = least (if ltb_ℤ f.1 e.1 then f else e) q

unfoldable pub pop : List (ℕ × ℤ) → List Command → Outcome Popped × List Command
unfolding least
pop [] log = (ok empty, log)
pop (e ∷ q) log = let id = (least e q).0 in (ok (popped id), zrem_queue id ∷ log)

unfoldable pub fetched : Option Job → Outcome Job
fetched none = err redis_nil
fetched (some j) = ok j

abbrev pub server : Redis
server = record {
  Db = List Command;
  exec = λ cs log. (ok tt, run_all cs log);
  get_data = λ id log. (fetched ((view_of log).jobs id), log);
  zpopmin_queue = λ log. pop (queued log) log;
  zrevrange_user = λ u from to log. (
    ok (
        take (pos_part to + 1 - pos_part from)
          (drop (pos_part from) (map (λ e. some e.0) (owned u log)))),
    log,
  );
  zcard_user = λ u log. (ok (length (owned u log)), log);
  smembers_status = λ s log. (ok (members s log), log);
}

pub view_of-run_all : (cs log : List Command) → view_of (run_all cs log) ≡ effects cs (view_of log)
unfolding effects
view_of-run_all [] log = refl
view_of-run_all (c ∷ cs) log = view_of-run_all cs (c ∷ log)

any-remove :
    (n id : ℕ) (ms : List (Option ℕ))
    → any (is_some_of n) (remove id ms) ≡ (not (id == n) && any (is_some_of n) ms)
any-remove n id [] = ground arith
any-remove n id (none ∷ ms) = any-remove n id ms
any-remove n id (some m ∷ ms) = ground (arith, any-remove n id ms)

members_lem :
    (s : Status) (n : ℕ) (log : List Command)
    → any (is_some_of n) (members s log) ≡ (view_of log).by_status s n
unfolding members effect
members_lem s n [] = refl
members_lem s n (sadd_status t id ∷ log) =
    ground (arith, members_lem s n log, any-remove n id (members s log))
members_lem s n (srem_status t id ∷ log) =
    ground (arith, members_lem s n log, any-remove n id (members s log))
members_lem s n (set_data _ _ ∷ log) = members_lem s n log
members_lem s n (del_data _ ∷ log) = members_lem s n log
members_lem s n (zadd_user _ _ _ ∷ log) = members_lem s n log
members_lem s n (zrem_user _ _ ∷ log) = members_lem s n log
members_lem s n (expire_user _ ∷ log) = members_lem s n log
members_lem s n (expire_status _ ∷ log) = members_lem s n log
members_lem s n (zadd_queue _ _ ∷ log) = members_lem s n log
members_lem s n (zrem_queue _ ∷ log) = members_lem s n log

pub fetched-ok : (o : Option Job) (j : Job) → fetched o ≡ ok j → o ≡ some j
unfolding fetched
fetched-ok o j h = ground arith

pub fetched-nil : (o : Option Job) → fetched o ≡ err redis_nil → o ≡ none
unfolding fetched
fetched-nil o h = ground arith

pub members_listed :
    (s : Status) (n : ℕ) (log : List Command) (ids : List (Option ℕ))
    → (server.smembers_status s log).0 ≡ ok ids
    → any (is_some_of n) ids ≡ (view_of log).by_status s n
members_listed s n log ids h = ground (arith, members_lem s n log)

-- A pop writes to the queue alone.
pub pop_keeps :
    (q : List (ℕ × ℤ)) (log : List Command)
    → ((view_of (pop q log).1).jobs ≡ (view_of log).jobs)
      × ((view_of (pop q log).1).by_status ≡ (view_of log).by_status)
unfolding pop effect
pop_keeps [] log = (refl, refl)
pop_keeps (e ∷ q) log = (refl, refl)

abbrev pub server_laws : Laws server
server_laws = record {
  view = view_of;
  exec_ok = λ cs log h. view_of-run_all cs log;
  get_view = λ id log. refl;
  get_ok = λ id log j h. fetched-ok ((view_of log).jobs id) j h;
  get_nil = λ id log h. fetched-nil ((view_of log).jobs id) h;
  smembers_view = λ s log. refl;
  zrevrange_view = λ u from to log. refl;
  zcard_view = λ u log. refl;
  zpopmin_jobs = λ log. (pop_keeps (queued log) log).0;
  zpopmin_status = λ log. (pop_keeps (queued log) log).1;
  smembers_ok = λ s log ids id h. members_listed s id log ids h;
}

pub fetched_runs : (o : Option Job) (j : Job) → o ≡ some j → fetched o ≡ ok j
unfolding fetched
fetched_runs o j h = rw h

pub server-IsReliable : IsReliable server server_laws
server-IsReliable = record {
  exec_runs = λ cs log. refl;
  get_runs = λ id log j h. fetched_runs ((view_of log).jobs id) j h;
}
