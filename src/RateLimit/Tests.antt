-- ===== src/RateLimit/Tests.antt =====
-- Runs of the limiters, and the theorems at inputs.
use learn_system_design.Prelude.{ℕ, ◌≤◌, ◌≡◌, refl, List, [], ◌∷◌, arith, length}
use learn_system_design.RateLimit.Runs.{accepted, after, count}
use learn_system_design.Prelude.{true}
use learn_system_design.Prelude.Int.{ℤ, pos, ◌+ℤ◌, ◌-ℤ◌}
use learn_system_design.RateLimit.Numbers.{amount}
use learn_system_design.RateLimit.Numbers.Integers.{integers, integers-IsExact, times_ℤ, leb_ℤ}
use learn_system_design.RateLimit.TokenBucket
use learn_system_design.RateLimit.TokenBucket.{TokenBucket}
use learn_system_design.RateLimit.Spans.{token_bucket_limit}
use learn_system_design.RateLimit.LeakyBucket
use learn_system_design.RateLimit.Buckets.{token_bucket-leaky_bucket}
use learn_system_design.RateLimit.FixedWindow
use learn_system_design.RateLimit.FixedWindow.Limit.{in_window, fixed_window_limit}
use learn_system_design.RateLimit.SlidingLog
use learn_system_design.RateLimit.SlidingLog.Limit.{in_span, sliding_log_limit}
use learn_system_design.RateLimit.SlidingCounter
use learn_system_design.RateLimit.SlidingCounter.Limit.{IsValid, sliding_counter_limit}

-- A burst over the boundary of two windows of 10 ticks.
abbrev burst : List ℕ
burst = 8 ∷ 9 ∷ 9 ∷ 10 ∷ 10 ∷ 11 ∷ []

fixed_window_burst : accepted FixedWindow.allow (FixedWindow.init 3 10) burst ≡ burst
unfolding accepted FixedWindow.init FixedWindow.allow FixedWindow.same_window
fixed_window_burst = refl

sliding_log_burst : accepted SlidingLog.allow (SlidingLog.init 3 10) burst ≡ 8 ∷ 9 ∷ 9 ∷ []
unfolding accepted SlidingLog.init SlidingLog.allow SlidingLog.expire
sliding_log_burst = refl

-- Three tokens, and one a second, in integers.
abbrev burst_ℤ : List ℤ
burst_ℤ = pos 0 ∷ pos 0 ∷ pos 0 ∷ pos 0 ∷ pos 2 ∷ pos 9 ∷ []

token_bucket_burst :
    accepted (TokenBucket.allow integers) (TokenBucket.init integers (pos 3) (pos 1)) burst_ℤ
    ≡ pos 0 ∷ pos 0 ∷ pos 0 ∷ pos 2 ∷ pos 9 ∷ []
unfolding accepted TokenBucket.init TokenBucket.allow TokenBucket.refilled ◌+ℤ◌ ◌-ℤ◌ times_ℤ
token_bucket_burst = refl

-- A bucket that was left alone for 90 seconds.
abbrev rested : TokenBucket ℤ
rested = record { capacity = pos 3; rate = pos 1; tokens = pos 1; last = pos 10 }

abbrev later_burst : List ℤ
later_burst = pos 100 ∷ pos 100 ∷ pos 100 ∷ pos 101 ∷ []

token_bucket_limit_example :
    leb_ℤ
      (amount integers
        (length (accepted (TokenBucket.allow integers) rested (pos 100 ∷ later_burst))))
      (pos 3 +ℤ times_ℤ (pos 101 -ℤ pos 100) (pos 1))
    ≡ true
token_bucket_limit_example =
    token_bucket_limit integers integers-IsExact rested (pos 100) later_burst
      (record { capacity_sign = refl; rate_sign = refl; tokens_sign = refl })
      (refl, (refl, (refl, (refl, (refl, tt)))))

token_bucket-leaky_bucket_example :
    accepted (TokenBucket.allow integers) (TokenBucket.init integers (pos 3) (pos 1)) burst_ℤ
    ≡ accepted (LeakyBucket.allow integers) (LeakyBucket.init integers (pos 3) (pos 1)) burst_ℤ
token_bucket-leaky_bucket_example =
    token_bucket-leaky_bucket integers integers-IsExact (pos 3) (pos 1) burst_ℤ

fixed_window_limit_example :
    count (in_window 10 1) (accepted FixedWindow.allow (FixedWindow.init 3 10) burst) ≤ 3
fixed_window_limit_example = fixed_window_limit 3 10 1 burst (omega arith)

sliding_log_limit_example :
    count (in_span 10 5) (accepted SlidingLog.allow (SlidingLog.init 3 10) burst) ≤ 3
sliding_log_limit_example = sliding_log_limit 3 10 5 burst (omega arith)

burst_counted : IsValid (after SlidingCounter.allow (SlidingCounter.init 3 10) burst)
burst_counted = sliding_counter_limit 3 10 burst
