-- ===== src/RateLimit/Bursts.antt =====
-- `max_in_any_window` of 08_reliability/01_rate_limiting.py: for times that do not fall, and a window of some
-- length. The times from the index `j` on are a list.
use learn_system_design.Prelude.{ℕ, ◌-◌, max, List, [], ◌∷◌, ◌++◌, length, leb, if◌then◌else◌}

-- The inner loop: `j` goes on past the times that are a window or more before this one.
unfoldable in_reach : ℕ → ℕ → List ℕ → List ℕ
in_reach window t [] = []
in_reach window t (x ∷ times) =
    let rest = in_reach window t times in if leb window (t - x) then rest else x ∷ times

unfoldable max_from : ℕ → List ℕ → ℕ → List ℕ → ℕ
unfolding in_reach
max_from window kept best [] = best
max_from window kept best (t ∷ times) =
    let reach = in_reach window t (kept ++ t ∷ []) in
    max_from window reach (max best (length reach)) times

-- `max_in_any_window`
unfoldable max_in_any_window : List ℕ → ℕ → ℕ
unfolding max_from
max_in_any_window times window = max_from window [] 0 times
