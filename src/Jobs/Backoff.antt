-- ===== src/Jobs/Backoff.antt =====
-- The delay before a retry, `calculateBackoff` of internal/service/job_worker.go.
use base_go_api.Prelude.{ℕ, suc, ◌-◌, ◌*◌, ◌^◌, ◌<◌, ◌≡◌, arith}
use base_go_api.Prelude.Int.{
  ℤ, pos, negsuc, ◌+ℤ◌, ◌*ℤ◌, ◌≤ℤ◌, +ℤ_parts, eq_of_parts, sub_ℕ, wrap64, wrap64_of_small,
}
use base_go_api.Jobs.Job.{Time}
use base_go_api.Jobs.Service.{Config, seconds}
use base_go_api.Jobs.Worker.{calculate_backoff}

pos-mul : (a b : ℕ) → pos a *ℤ pos b ≡ pos (a * b)
unfolding ◌*ℤ◌
pos-mul a b = ground arith

sub_one : (n : ℕ) → 0 < n → sub_ℕ n 1 ≡ pos (n - 1)
sub_one n h = ground arith

-- A delay that fits an int64 is computed without wrapping.
delay_fits :
    (k t : ℕ)
    → k * t * 1_000_000_000 < 2 ^ 63
    → wrap64 (wrap64 (pos k *ℤ pos t) *ℤ pos 1_000_000_000) ≡ pos (k * t * 1_000_000_000)
delay_fits k t h = rw (pos-mul k t) (
    rw (wrap64_of_small (k * t) (omega arith))
      (rw (pos-mul (k * t) 1_000_000_000) (wrap64_of_small (k * t * 1_000_000_000) h)))

-- From the first attempt on, with a product of attempts and timeout that fits an int64 and a clock
-- that does not go back, the retry lies between now and thirty minutes from now.
pub calculate_backoff_bounds :
    (cfg : Config) (now again : Time) (n : ℕ)
    → 0 < n
    → now ≤ℤ again
    → (n - 1) * cfg.job_timeout_seconds * seconds 1 < 2 ^ 63
    → (now ≤ℤ calculate_backoff cfg now again n)
      × (calculate_backoff cfg now again n ≤ℤ again +ℤ pos (seconds 1800))
unfolding calculate_backoff
calculate_backoff_bounds cfg now again n p q h =
    let delay = delay_fits (n - 1) cfg.job_timeout_seconds h in
    rw (sub_one n p) (
      rw delay (
        ground (
          arith,
          +ℤ_parts now (pos (seconds 60)),
          +ℤ_parts now (pos (seconds 300)),
          +ℤ_parts now (pos ((n - 1) * cfg.job_timeout_seconds * 1_000_000_000)),
          +ℤ_parts again (pos (seconds 1800)),
        )))

sub_zero : (t : ℕ) → 0 < t → sub_ℕ 0 1 *ℤ pos t ≡ negsuc (t - 1)
unfolding ◌*ℤ◌
sub_zero t h = ground arith

wrap64_of_small_neg : (n : ℕ) → n < 2 ^ 63 → wrap64 (negsuc n) ≡ negsuc n
unfolding wrap64
wrap64_of_small_neg n h = ground arith

negsuc-mul : (a b : ℕ) → 0 < b → negsuc a *ℤ pos b ≡ negsuc (suc a * b - 1)
unfolding ◌*ℤ◌
negsuc-mul a b h = grind arith

-- With a timeout above 0 that fits an int64, the retry of a job whose attempt count is 0, as `Resubmit`
-- sets it, is scheduled one timeout before now.
pub calculate_backoff_zero :
    (cfg : Config) (now again : Time)
    → 0 < cfg.job_timeout_seconds
    → seconds cfg.job_timeout_seconds < 2 ^ 63
    → now ≤ℤ again
    → calculate_backoff cfg now again 0 +ℤ pos (seconds cfg.job_timeout_seconds) ≡ now
unfolding calculate_backoff
calculate_backoff_zero cfg now again p h q =
    let t = cfg.job_timeout_seconds in
    let past : ℤ = negsuc (suc (t - 1) * 1_000_000_000 - 1) in
    let delay : wrap64 (wrap64 (sub_ℕ 0 1 *ℤ pos t) *ℤ pos 1_000_000_000) ≡ past =
      rw (sub_zero t p) (
        rw (wrap64_of_small_neg (t - 1) (omega arith)) (
          rw (negsuc-mul (t - 1) 1_000_000_000 (omega arith))
            (wrap64_of_small_neg _ (omega arith)))) in
    rw delay (
      ground (
        arith,
        +ℤ_parts now past,
        +ℤ_parts (now +ℤ past) (pos (seconds t)),
        +ℤ_parts again (pos (seconds 1800)),
        +ℤ_parts (again +ℤ pos (seconds 1800)) (pos (seconds t)),
        eq_of_parts (now +ℤ past +ℤ pos (seconds t)) now,
      ))
