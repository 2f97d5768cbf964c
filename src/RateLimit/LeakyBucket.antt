-- ===== src/RateLimit/LeakyBucket.antt =====
-- `LeakyBucket` of 08_reliability/01_rate_limiting.py, over any numbers.
use learn_system_design.Prelude.{Bool, true, false, if◌then◌else◌}
use learn_system_design.RateLimit.Numbers.{Numbers, max_of}

pub record LeakyBucket (N : Type 0) : Type 0 where
  pub size : N
  pub rate : N
  pub water : N
  pub last : N

module _ {N : Type 0} (n : Numbers N) where
  -- `__init__`: an empty queue
  unfoldable pub init : N → N → LeakyBucket N
  init size rate = record { size = size; rate = rate; water = n.nought; last = n.nought }

  -- `max(0.0, water - drained)`
  unfoldable pub drained : LeakyBucket N → N → N
  drained b now = max_of n n.nought (n.sub b.water (n.mul (n.sub now b.last) b.rate))

  unfoldable pub allow : LeakyBucket N → N → LeakyBucket N × Bool
  unfolding drained
  allow b now =
      let water = drained b now in
      if n.le (n.add water n.one) b.size
      then (record b { water = n.add water n.one; last = now }, true)
      else (record b { water = water; last = now }, false)
