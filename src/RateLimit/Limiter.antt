-- ===== src/RateLimit/Limiter.antt =====
-- The counters of internal/http/middleware/auth_rate_limit.go over a cache driver. A middleware
-- answers with the header of the remaining requests, or with 429, or passes the request on with no
-- header where there is no driver or the cache fails.
use base_go_api.Prelude.{ℕ, ◌+◌, ◌-◌, Bool, true, ◌++◌, Option, none, some, ltb, if◌then◌else◌}
use base_go_api.Prelude.Bytes.{Bytes, codes, itoa, atoi}
use base_go_api.Prelude.Outcome.{Outcome, ok, err, Call, ◌>>=◌, ◌>>◌, pure, attempt}
use base_go_api.Cache.Driver.{Driver}

pub record Config : Type 0 where
  pub login_limit : ℕ
  pub login_window : ℕ
  pub register_limit : ℕ
  pub register_window : ℕ
  pub password_reset_limit : ℕ
  pub password_reset_window : ℕ

-- `DefaultAuthRateLimiterConfig`, in seconds
abbrev pub default_config : Config
default_config = record {
  login_limit = 5;
  login_window = 900;
  register_limit = 5;
  register_window = 3600;
  password_reset_limit = 3;
  password_reset_window = 3600;
}

-- `fmt.Sprintf("auth_rate_limit:%s:ip:%s", endpoint, clientIP)`, and the same for an email.
abbrev pub ip_key : Bytes → Bytes → Bytes
ip_key endpoint ip = codes "auth_rate_limit:" ++ (endpoint ++ (codes ":ip:" ++ ip))

abbrev pub email_key : Bytes → Bytes → Bytes
email_key endpoint email = codes "auth_rate_limit:" ++ (endpoint ++ (codes ":email:" ++ email))

-- The count after a request, from what the cache held.
abbrev pub next_count : Outcome (Option Bytes) → ℕ
next_count (err e) = 1
next_count (ok none) = 1
next_count (ok (some v)) = elim (atoi v) [ none ↦ 1 | some n ↦ n + 1 ]

-- `count < limit`, and true where nothing is stored that can be read.
abbrev pub below : ℕ → Outcome (Option Bytes) → Bool
below limit (err e) = true
below limit (ok none) = true
below limit (ok (some v)) = elim (atoi v) [ none ↦ true | some n ↦ ltb n limit ]

pub data Verdict : Type 0 where
  unlimited : Verdict
  passed : ℕ → Verdict
  too_many : Verdict

-- The test `count > limit`, and the header of a request that passes: `limit - count`, not below 0.
abbrev pub verdict : ℕ → Outcome ℕ → Verdict
verdict limit (err e) = unlimited
verdict limit (ok count) = if ltb limit count then too_many else passed (limit - count)

-- `present` is `rl.driver != nil`.
module _ (cache : Driver) (present : Bool) where
  open cache use {State}

  -- `read` and `write` are the instants of the two calls of the cache.
  unfoldable pub increment_counter : Bytes → ℕ → ℕ → ℕ → Call State ℕ
  increment_counter key window read write = do
    val ← attempt (cache.get key read)
    cache.set key (itoa (next_count val)) window write
    pure (next_count val)

  -- The three middlewares have one body; all count by the address of the client.
  unfoldable pub rate_limit_by_ip : Bytes → ℕ → ℕ → Bytes → ℕ → ℕ → State → Verdict × State
  rate_limit_by_ip endpoint limit window ip read write s =
      let (count, s') = increment_counter (ip_key endpoint ip) window read write s in
      if present then (verdict limit count, s') else (unlimited, s)

  unfoldable pub rate_limit_by_ip_and_email :
      Bytes → ℕ → ℕ → Bytes → ℕ → ℕ → State → Verdict × State
  rate_limit_by_ip_and_email endpoint limit window ip read write s =
      let (count, s') = increment_counter (ip_key endpoint ip) window read write s in
      if present then (verdict limit count, s') else (unlimited, s)

  unfoldable pub rate_limit_by_email : Bytes → ℕ → ℕ → Bytes → ℕ → ℕ → State → Verdict × State
  rate_limit_by_email endpoint limit window ip read write s =
      let (count, s') = increment_counter (ip_key endpoint ip) window read write s in
      if present then (verdict limit count, s') else (unlimited, s)

  unfoldable pub login_rate_limit : Config → Bytes → ℕ → ℕ → State → Verdict × State
  unfolding rate_limit_by_ip_and_email
  login_rate_limit cfg = rate_limit_by_ip_and_email (codes "login") cfg.login_limit cfg.login_window

  unfoldable pub register_rate_limit : Config → Bytes → ℕ → ℕ → State → Verdict × State
  unfolding rate_limit_by_ip
  register_rate_limit cfg =
      rate_limit_by_ip (codes "register") cfg.register_limit cfg.register_window

  unfoldable pub password_reset_rate_limit : Config → Bytes → ℕ → ℕ → State → Verdict × State
  unfolding rate_limit_by_email
  password_reset_rate_limit cfg =
      rate_limit_by_email (codes "password_reset") cfg.password_reset_limit
        cfg.password_reset_window

  -- `CheckEmailRateLimit`: whether one more request for the email is allowed.
  unfoldable pub check_email_rate_limit : Bytes → Bytes → ℕ → ℕ → Call State Bool
  check_email_rate_limit endpoint email limit now =
      if present
      then (do val ← attempt (cache.get (email_key endpoint email) now); pure (below limit val))
      else pure true

  unfoldable pub increment_email_rate_limit : Bytes → Bytes → ℕ → ℕ → ℕ → Call State (Unit {0})
  increment_email_rate_limit endpoint email window read write =
      if present
      then (do
        val ← attempt (cache.get (email_key endpoint email) read)
        cache.set (email_key endpoint email) (itoa (next_count val)) window write)
      else pure tt
