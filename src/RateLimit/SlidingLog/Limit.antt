-- ===== src/RateLimit/SlidingLog/Limit.antt =====
-- The limit that a sliding log keeps in every span of time, and its decisions against a history
-- that forgets nothing.
use learn_system_design.Prelude.{
  ℕ, ◌+◌, ◌≤◌, ◌<◌, ◌≡◌, Bool, List, [], ◌∷◌, ◌++◌, arith, length, refl, leb, ltb, ◌&&◌,
  if◌then◌else◌, length-append, dec_lt,
}
use learn_system_design.RateLimit.Runs.{accepted, Ascending, count, count-accepted-later}
use learn_system_design.RateLimit.SlidingLog.{SlidingWindowLog, init, expire, allow}

-- The times of the span from `a` on that is one window long.
unfoldable pub in_span : ℕ → ℕ → ℕ → Bool
in_span window a t = leb a t && ltb t (a + window)

count-le-length : (p : ℕ → Bool) (log : List ℕ) → count p log ≤ length log
count-le-length p [] = omega arith
count-le-length p (t ∷ log) = ground (arith, count-le-length p log)

count-append : (p : ℕ → Bool) (xs ys : List ℕ) → count p (xs ++ ys) ≡ count p xs + count p ys
count-append p [] ys = omega arith
count-append p (x ∷ xs) ys = omega (arith, count-append p xs ys)

length-expire-le : (window now : ℕ) (log : List ℕ) → length (expire window now log) ≤ length log
unfolding expire
length-expire-le window now [] = omega arith
length-expire-le window now (t ∷ log) = ground (arith, length-expire-le window now log)

-- What expires lies before every span that `now` can still fall into.
count-expire :
    (window a now : ℕ) (log : List ℕ)
    → now < a + window
    → count (in_span window a) (expire window now log) ≡ count (in_span window a) log
unfolding expire in_span
count-expire window a now [] h = refl
count-expire window a now (t ∷ log) h = ground (arith, count-expire window a now log h)

module _ (limit window a : ℕ) where
  record IsLog (b : SlidingWindowLog) : Type 0 where
    limit_is : b.limit ≡ limit
    window_is : b.window ≡ window
    fits : length b.log ≤ limit

  allow-IsLog : (b : SlidingWindowLog) (t : ℕ) → IsLog b → IsLog (allow b t).0
  unfolding allow
  allow-IsLog b t h =
      let short = length-expire-le b.window t b.log in
      let longer = length-append (expire b.window t b.log) (t ∷ []) in ground arith

  -- An accepted request is logged; in a span that is not over nothing else changes.
  count-allow :
      (b : SlidingWindowLog) (t : ℕ)
      → IsLog b
      → t < a + window
      → count (in_span window a) (allow b t).0.log
        ≡ count (in_span window a) b.log
          + (if (allow b t).1 then (if in_span window a t then 1 else 0) else 0)
  unfolding allow
  count-allow b t h before =
      let kept = count-expire window a t b.log before in
      let more = count-append (in_span window a) (expire window t b.log) (t ∷ []) in
      rw (h.window_is) (ground (arith, kept, more))

  sliding_log_span :
      (b : SlidingWindowLog) (now : ℕ) (times : List ℕ)
      → IsLog b
      → Ascending now times
      → count (in_span window a) b.log + count (in_span window a) (accepted allow b times) ≤ limit
  unfolding accepted
  sliding_log_span b now [] inv h =
      omega (arith, count-le-length (in_span window a) b.log, inv.fits)
  sliding_log_span b now (t ∷ times) inv h = elim (dec_lt t (a + window)) [
    | yes before ↦
        let ih = sliding_log_span (allow b t).0 t times (allow-IsLog b t inv) h.1 in
        ground (arith, ih, count-allow b t inv before)
    | no later ↦
        let none_later =
          count-accepted-later allow (in_span window a) b t (t ∷ times)
            (λ u k. unfold in_span in ground arith) (omega arith, h.1) in
        omega (arith, none_later, count-le-length (in_span window a) b.log, inv.fits)
  ]

-- From a fresh sliding-log limiter, over request times that never fall, at most `limit` requests
-- are accepted in any span of time that is one window long, wherever it begins.
pub sliding_log_limit :
    (limit window a : ℕ) (times : List ℕ)
    → Ascending 0 times
    → count (in_span window a) (accepted allow (init limit window) times) ≤ limit
unfolding init
sliding_log_limit limit window a times h =
    let fresh : IsLog limit window a (init limit window) = record {
      limit_is = refl;
      window_is = refl;
      fits = omega arith;
    } in
    omega (arith, sliding_log_span limit window a (init limit window) 0 times fresh h)
