-- ===== src/Webhooks/RateLimiter.antt =====
-- internal/service/webhook_rate_limiter.go: a sliding window over a sorted set of Redis. Redis is an
-- interface of the commands that the limiter sends for one key.
use base_go_api.Prelude.{
  ℕ, ◌+◌, ◌-◌, ◌*◌, ◌/◌, ◌≡◌, Bool, true, false, Option, none, some, List, [], ◌∷◌, ◌++◌, ltb, leb,
  length, keep, any, if◌then◌else◌,
}
use base_go_api.Prelude.Bytes.{Bytes, bytes_eq, codes, itoa}
use base_go_api.Prelude.Outcome.{Outcome, ok, err, Call, ◌>>=◌, pure, attempt}

-- A member of the sorted set and its score.
pub record Entry : Type 0 where
  pub score : ℕ
  pub member : Bytes

-- The commands on the key of one webhook: ZREMRANGEBYSCORE from -inf to a bound, where `none` is a
-- bound below zero; ZCARD; ZRANGEBYSCORE of the first entry, with its score; ZADD; EXPIRE.
pub record SortedSet (S : Type 0) : Type 0 where
  pub rem_up_to : Option ℕ → Call S (Unit {0})
  pub card : Call S ℕ
  pub first : Call S (Option ℕ)
  pub add : Entry → Call S (Unit {0})
  pub expire : ℕ → Call S (Unit {0})
  -- What the server does when the time to live of the key is over.
  pub lapse : S → S

-- WebhookRateLimitWindow, in milliseconds and in nanoseconds.
abbrev pub window_ms : ℕ
window_ms = 60_000

abbrev pub window : ℕ
window = 60_000_000_000

-- `UnixMilli`
abbrev pub unix_ms : ℕ → ℕ
unix_ms now = now / 1_000_000

-- The start of the window, in milliseconds.
abbrev pub window_start : ℕ → Option ℕ
window_start now = if ltb (unix_ms now) window_ms then none else some (unix_ms now - window_ms)

-- The answer of `Allow`: whether it is allowed, how many are left, and how long to wait.
pub record Verdict : Type 0 where
  pub allowed : Bool
  pub remaining : ℕ
  pub retry_after : ℕ

-- The wait until the oldest entry leaves the window, seen at the instant `later`.
abbrev pub wait_for : ℕ → Outcome (Option ℕ) → ℕ
wait_for later (err e) = window
wait_for later (ok none) = window
wait_for later (ok (some oldest)) = oldest * 1_000_000 + window - later

-- `fmt.Sprintf("%d-%d", now.UnixMilli(), rand.Intn(10000))`
abbrev pub entry_id : ℕ → ℕ → Bytes
entry_id now drawn = itoa (unix_ms now) ++ codes "-" ++ itoa drawn

abbrev pub new_entry : ℕ → ℕ → Entry
new_entry now drawn = record { score = unix_ms now; member = entry_id now drawn }

module _ {S : Type 0} (set : SortedSet S) where
  unfoldable pub refuse : ℕ → Call S Verdict
  refuse later = do
    oldest ← attempt set.first
    pure (record { allowed = false; remaining = 0; retry_after = wait_for later oldest })

  unfoldable pub admit : ℕ → ℕ → ℕ → ℕ → Call S Verdict
  admit limit now drawn count = attempt (set.add (new_entry now drawn)) >>= λ _.
      attempt (set.expire window) >>= λ _.
      pure (record { allowed = true; remaining = limit - count - 1; retry_after = 0 })

  -- What follows the count. An error of Redis lets the request pass.
  unfoldable pub decide : ℕ → ℕ → ℕ → ℕ → Outcome ℕ → Call S Verdict
  unfolding refuse admit
  decide limit now later drawn (err e) =
      pure (record { allowed = true; remaining = limit; retry_after = 0 })
  decide limit now later drawn (ok count) =
      if leb limit count then refuse later else admit limit now drawn count

  -- `now` and `later` are the two instants at which the clock is read, `drawn` the random number.
  unfoldable pub allow : ℕ → ℕ → ℕ → ℕ → Call S Verdict
  unfolding decide
  allow limit now later drawn = attempt (set.rem_up_to (window_start now)) >>= λ _.
      attempt set.card >>= decide limit now later drawn

abbrev pub is_after : Option ℕ → Entry → Bool
is_after none e = true
is_after (some bound) e = ltb bound e.score

-- A server that reports no error: the entries of the key, newest first, and what each command makes of
-- them. A member that is there already would only get a new score.
pub record Reliable {S : Type 0} (set : SortedSet S) : Type 0 where
  pub entries : S → List Entry
  pub rem_runs : (bound : Option ℕ) (s : S) → (set.rem_up_to bound s).0 ≡ ok tt
  pub rem_entries :
      (bound : Option ℕ) (s : S)
      → entries (set.rem_up_to bound s).1 ≡ keep (is_after bound) (entries s)
  pub card_runs : (s : S) → (set.card s).0 ≡ ok (length (entries s))
  pub card_entries : (s : S) → entries (set.card s).1 ≡ entries s
  pub first_entries : (s : S) → entries (set.first s).1 ≡ entries s
  pub add_entries :
      (e : Entry) (s : S)
      → any (λ f. bytes_eq f.member e.member) (entries s) ≡ false
      → entries (set.add e s).1 ≡ e ∷ entries s
  pub expire_entries : (ttl : ℕ) (s : S) → entries (set.expire ttl s).1 ≡ entries s
  pub lapse_entries : (s : S) → entries (set.lapse s) ≡ []
