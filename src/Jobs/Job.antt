-- ===== src/Jobs/Job.antt =====
-- internal/domain/job.go: a job, its status, and the transitions that the status allows.
use base_go_api.Prelude.{
  ℕ, String, Bool, true, false, ◌&&◌, ◌||◌, List, [], Option, none, ltb, if◌then◌else◌,
}
use base_go_api.Prelude.Int.{ℤ}

pub data Status : Type 0 where
  pending processing completed failed dead : Status

abbrev pub status_eq : Status → Status → Bool
status_eq pending pending = true
status_eq processing processing = true
status_eq completed completed = true
status_eq failed failed = true
status_eq dead dead = true
status_eq _ _ = false

-- An instant, in nanoseconds.
abbrev pub Time : Type 0
Time = ℤ

abbrev pub Bytes : Type 0
Bytes = List ℕ

pub record Job : Type 0 where
  pub id : ℕ
  pub kind : String
  pub payload : Bytes
  pub status : Status
  pub attempt_count : ℕ
  pub max_retries : ℕ
  pub last_error : String
  pub result : Bytes
  pub created_at : Time
  pub started_at : Option Time
  pub completed_at : Option Time
  pub next_retry_at : Option Time
  pub callback_url : String
  pub user_id : ℕ

-- `NewJob`; the identifier is the one that `uuid.New` draws.
unfoldable pub new_job : ℕ → Time → String → Bytes → ℕ → Job
new_job id now kind payload user_id = record {
  id = id;
  kind = kind;
  payload = payload;
  status = pending;
  attempt_count = 1;
  max_retries = 3;
  last_error = "";
  result = [];
  created_at = now;
  started_at = none;
  completed_at = none;
  next_retry_at = none;
  callback_url = "";
  user_id = user_id;
}

unfoldable pub is_retryable : Job → Bool
is_retryable j = status_eq j.status failed && ltb j.attempt_count j.max_retries

-- The switch of `CanTransitionTo`, on the current status.
transition : Status → ℕ → ℕ → Status → Bool
transition pending attempts retries new = status_eq new processing
transition processing attempts retries new = status_eq new completed || status_eq new failed
transition failed attempts retries new =
    if status_eq new processing then ltb attempts retries else status_eq new dead
transition completed attempts retries new = false
transition dead attempts retries new = false

unfoldable pub can_transition_to : Job → Status → Bool
unfolding transition
can_transition_to j new = transition j.status j.attempt_count j.max_retries new
