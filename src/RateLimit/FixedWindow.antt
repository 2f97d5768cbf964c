-- ===== src/RateLimit/FixedWindow.antt =====
-- `FixedWindow` of 08_reliability/01_rate_limiting.py, for a window of some length: at 0 Python raises a
-- ZeroDivisionError.
pub mod Limit
use learn_system_design.Prelude.{
  ℕ, ◌+◌, ◌/◌, Bool, true, false, Option, none, some, ltb, ◌==◌, if◌then◌else◌,
}

pub record FixedWindow : Type 0 where
  pub limit : ℕ
  pub window : ℕ
  pub current_window : Option ℕ
  pub count : ℕ

unfoldable pub init : ℕ → ℕ → FixedWindow
init limit window = record { limit = limit; window = window; current_window = none; count = 0 }

-- `w != self.current_window`
unfoldable pub same_window : Option ℕ → ℕ → Bool
same_window none w = false
same_window (some v) w = v == w

-- the reset at a new window
unfoldable pub rolled : FixedWindow → ℕ → FixedWindow
unfolding same_window
rolled b w =
    if same_window b.current_window w then b else record b { current_window = some w; count = 0 }

unfoldable pub allow : FixedWindow → ℕ → FixedWindow × Bool
unfolding rolled
allow b now =
    let b' = rolled b (now / b.window) in
    if ltb b'.count b'.limit then (record b' { count = b'.count + 1 }, true) else (b', false)
