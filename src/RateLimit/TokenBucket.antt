-- ===== src/RateLimit/TokenBucket.antt =====
-- `TokenBucket` of 08_reliability/01_rate_limiting.py, over any numbers.
use learn_system_design.Prelude.{Bool, true, false, if◌then◌else◌}
use learn_system_design.RateLimit.Numbers.{Numbers, min_of}

pub record TokenBucket (N : Type 0) : Type 0 where
  pub capacity : N
  pub rate : N
  pub tokens : N
  pub last : N

module _ {N : Type 0} (n : Numbers N) where
  -- `__init__`: a full bucket
  unfoldable pub init : N → N → TokenBucket N
  init capacity rate = record {
    capacity = capacity;
    rate = rate;
    tokens = capacity;
    last = n.nought;
  }

  -- the lazy refill
  unfoldable pub refilled : TokenBucket N → N → N
  refilled b now = min_of n b.capacity (n.add b.tokens (n.mul (n.sub now b.last) b.rate))

  unfoldable pub allow : TokenBucket N → N → TokenBucket N × Bool
  unfolding refilled
  allow b now =
      let tokens = refilled b now in
      if n.le n.one tokens
      then (record b { tokens = n.sub tokens n.one; last = now }, true)
      else (record b { tokens = tokens; last = now }, false)
