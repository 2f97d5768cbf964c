-- ===== src/RateLimit/SlidingCounter/Limit.antt =====
-- What a sliding counter keeps.
use learn_system_design.Prelude.{ℕ, ◌+◌, ◌-◌, ◌*◌, ◌/◌, ◌%◌, ◌≤◌, ◌<◌, List, [], ◌∷◌, arith}
use learn_system_design.RateLimit.Runs.{after}
use learn_system_design.RateLimit.SlidingCounter.{SlidingWindowCounter, init, rolled, allow}

-- The counter never passes the limit: neither that of this window nor that of the last.
pub record IsValid (b : SlidingWindowCounter) : Type 0 where
  pub curr_fits : b.curr ≤ b.limit
  pub prev_fits : b.prev ≤ b.limit

below_limit :
    (prev curr limit window e : ℕ) → prev * e + curr * window < limit * window → curr < limit
below_limit prev curr limit window e h = grind arith

rolled-IsValid : (b : SlidingWindowCounter) (w : ℕ) → IsValid b → IsValid (rolled b w)
unfolding rolled
rolled-IsValid b w v = ground arith

allow-IsValid : (b : SlidingWindowCounter) (now : ℕ) → IsValid b → IsValid (allow b now).0
unfolding allow
allow-IsValid b now v =
    let b' = rolled b (now / b.window) in
    let v' = rolled-IsValid b (now / b.window) v in
    ground (
      arith,
      v'.curr_fits,
      v'.prev_fits,
      below_limit b'.prev b'.curr b'.limit b'.window (b'.window - now % b'.window),
    )

after-IsValid :
    (b : SlidingWindowCounter) (times : List ℕ) → IsValid b → IsValid (after allow b times)
unfolding after
after-IsValid b [] v = v
after-IsValid b (t ∷ times) v = after-IsValid (allow b t).0 times (allow-IsValid b t v)

-- After any requests a sliding counter, fresh at the start, has counted at most `limit` accepted
-- requests in its window and at most `limit` in the window before it.
pub sliding_counter_limit :
    (limit window : ℕ) (times : List ℕ) → IsValid (after allow (init limit window) times)
unfolding init
sliding_counter_limit limit window times = after-IsValid _ times (ground arith)
