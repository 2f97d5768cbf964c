-- ===== src/RateLimit/SlidingLog.antt =====
-- `SlidingWindowLog` of 08_reliability/01_rate_limiting.py.
pub mod Limit
use learn_system_design.Prelude.{
  ℕ, ◌+◌, Bool, true, false, List, [], ◌∷◌, ◌++◌, length, ltb, leb, if◌then◌else◌,
}

pub record SlidingWindowLog : Type 0 where
  pub limit : ℕ
  pub window : ℕ
  pub log : List ℕ

unfoldable pub init : ℕ → ℕ → SlidingWindowLog
init limit window = record { limit = limit; window = window; log = [] }

-- `while self.log and self.log[0] <= now - self.window: self.log.popleft()`
unfoldable pub expire : ℕ → ℕ → List ℕ → List ℕ
expire window now [] = []
expire window now (t ∷ log) =
    let rest = expire window now log in if leb (t + window) now then rest else t ∷ log

unfoldable pub allow : SlidingWindowLog → ℕ → SlidingWindowLog × Bool
allow b now =
    let log = expire b.window now b.log in
    if ltb (length log) b.limit
    then (record b { log = log ++ now ∷ [] }, true)
    else (record b { log = log }, false)
