-- ===== src/RateLimit/SlidingCounter.antt =====
-- `SlidingWindowCounter` of 08_reliability/01_rate_limiting.py. The estimate
-- `prev * (1 - elapsed) + curr` is multiplied by the window, which makes it whole.
pub mod Limit
use learn_system_design.Prelude.{
  ℕ, ◌+◌, ◌-◌, ◌*◌, ◌/◌, ◌%◌, Bool, true, false, ltb, ◌==◌, if◌then◌else◌,
}

pub record SlidingWindowCounter : Type 0 where
  pub limit : ℕ
  pub window : ℕ
  pub curr_window : ℕ
  pub curr : ℕ
  pub prev : ℕ

unfoldable pub init : ℕ → ℕ → SlidingWindowCounter
init limit window = record { limit = limit; window = window; curr_window = 0; curr = 0; prev = 0 }

unfoldable pub rolled : SlidingWindowCounter → ℕ → SlidingWindowCounter
rolled b w =
    if w == b.curr_window
    then b
    else record b { prev = if w == b.curr_window + 1 then b.curr else 0; curr = 0; curr_window = w }

-- the estimate times the window
unfoldable pub estimate : SlidingWindowCounter → ℕ → ℕ
estimate b now = b.prev * (b.window - now % b.window) + b.curr * b.window

unfoldable pub allow : SlidingWindowCounter → ℕ → SlidingWindowCounter × Bool
unfolding rolled estimate
allow b now =
    let b' = rolled b (now / b.window) in
    if ltb (estimate b' now) (b'.limit * b'.window)
    then (record b' { curr = b'.curr + 1 }, true)
    else (b', false)
