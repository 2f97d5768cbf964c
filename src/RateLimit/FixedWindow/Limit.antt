-- ===== src/RateLimit/FixedWindow/Limit.antt =====
-- The limit that a fixed window keeps.
use learn_system_design.Prelude.{
  ℕ, ◌+◌, ◌/◌, ◌≤◌, ◌<◌, ◌≡◌, Bool, List, [], ◌∷◌, arith, refl, inl, inr, ap, ◌==◌, if◌then◌else◌,
  Option-cases, some, dec_lt,
}
use learn_system_design.RateLimit.Runs.{
  accepted, Ascending, count, div-le-div, count-accepted-later,
}
use learn_system_design.RateLimit.FixedWindow
use learn_system_design.RateLimit.FixedWindow.{FixedWindow}

-- What the counter of a fixed window already holds of window `w`.
used : FixedWindow → ℕ → ℕ
used b w = if FixedWindow.same_window b.current_window w then b.count else 0

unfoldable pub in_window : ℕ → ℕ → ℕ → Bool
in_window window w t = t / window == w

-- A fixed window with its numbers, whose current window is not after `now`.
record IsFixed (limit window now : ℕ) (b : FixedWindow) : Type 0 where
  limit_is : b.limit ≡ limit
  window_is : b.window ≡ window
  fits : b.count ≤ limit
  current : (v : ℕ) → b.current_window ≡ some v → v ≤ now / window

module _ (limit window : ℕ) where
  allow-IsFixed :
      (b : FixedWindow) (now t : ℕ)
      → IsFixed limit window now b
      → IsFixed limit window t (FixedWindow.allow b t).0
  unfolding FixedWindow.allow FixedWindow.same_window
  allow-IsFixed b now t h = record {
    limit_is = ground arith;
    window_is = ground arith;
    fits = ground arith;
    current = λ v e. ground arith;
  }

  -- An accepted request is counted in its own window, and in no other.
  used-allow :
      (b : FixedWindow) (t : ℕ)
      → b.window ≡ window
      → used (FixedWindow.allow b t).0 (t / window)
        ≡ used b (t / window) + (if (FixedWindow.allow b t).1 then 1 else 0)
  unfolding used FixedWindow.allow FixedWindow.same_window
  used-allow b t h = ground arith

  -- Nothing is held of a window that has not begun.
  used_later :
      (b : FixedWindow) (now w : ℕ) → IsFixed limit window now b → now / window < w → used b w ≡ 0
  unfolding used FixedWindow.same_window
  used_later b now w h later = elim (Option-cases b.current_window) [
    | inl e ↦ ground arith
    | inr (v, e) ↦ ground (arith, h.current v e)
  ]

  used-le : (b : FixedWindow) (now w : ℕ) → IsFixed limit window now b → used b w ≤ limit
  unfolding used
  used-le b now w h = ground (arith, h.fits)

  fixed_window_used :
      (w : ℕ) (b : FixedWindow) (now : ℕ) (times : List ℕ)
      → IsFixed limit window now b
      → Ascending now times
      → count (in_window window w) (accepted FixedWindow.allow b times) + used b w ≤ limit
  unfolding accepted in_window
  fixed_window_used w b now [] inv h = omega (arith, used-le b now w inv)
  fixed_window_used w b now (t ∷ times) inv h =
      let inv' = allow-IsFixed b now t inv in
      let ih = fixed_window_used w (FixedWindow.allow b t).0 t times inv' h.1 in
      let step = used-allow b t inv.window_is in
      let mono = div-le-div now t window h.0 in
      elim (dec_lt w (t / window)) [
        | yes before ↦
            let none_later =
              count-accepted-later FixedWindow.allow (in_window window w) (FixedWindow.allow b t).0
                t times (λ u k. let m = div-le-div t u window k in ground arith) h.1 in
            ground (arith, none_later, used-le b now w inv)
        | no after_it ↦ elim (dec_lt (t / window) w) [
          | yes ahead ↦ ground (arith, ih, used_later b now w inv (omega arith))
          | no before_it ↦
              let e : w ≡ t / window = omega arith in
              ground (arith, ih, step, e, ap (used b) e, ap (used (FixedWindow.allow b t).0) e)
        ]
      ]

-- From a fresh fixed-window limiter, over request times that never fall, at most `limit` requests
-- are accepted in any one window.
pub fixed_window_limit :
    (limit window w : ℕ) (times : List ℕ)
    → Ascending 0 times
    → count (in_window window w) (accepted FixedWindow.allow (FixedWindow.init limit window) times)
      ≤ limit
unfolding FixedWindow.init
fixed_window_limit limit window w times h =
    let fresh : IsFixed limit window 0 (FixedWindow.init limit window) = record {
      limit_is = refl;
      window_is = refl;
      fits = omega arith;
      current = λ v e. cc;
    } in
    omega (arith, fixed_window_used limit window w (FixedWindow.init limit window) 0 times fresh h)
