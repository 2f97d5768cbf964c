-- ===== src/RateLimit/Runs.antt =====
-- The loops of 08_reliability/01_rate_limiting.py over a limiter and a list of request times.
use learn_system_design.Prelude.{
  ℕ, ◌+◌, ◌≤◌, ◌≡◌, Bool, false, List, [], ◌∷◌, if◌then◌else◌, arith, ◌≡◌, ◌/◌, zero, suc, refl,
}

module _ {S T : Type 0} (allow : S → T → S × Bool) where
  -- `[t for t in times if lim.allow(t)]`
  unfoldable pub accepted : S → List T → List T
  accepted s [] = []
  accepted s (t ∷ times) =
      let rest = accepted (allow s t).0 times in if (allow s t).1 then t ∷ rest else rest

  -- the limiter after the loop
  unfoldable pub after : S → List T → S
  after s [] = s
  after s (t ∷ times) = after (allow s t).0 times

-- The times never fall, from `now` on.
abbrev pub Ascending : ℕ → List ℕ → Type 0
Ascending now [] = Unit {0}
Ascending now (t ∷ times) = (now ≤ t) × Ascending t times

-- How many times of the list pass the test.
abbrev pub count : (ℕ → Bool) → List ℕ → ℕ
count p [] = 0
count p (t ∷ times) = (if p t then 1 else 0) + count p times

pub div-le-div : (a b w : ℕ) → a ≤ b → a / w ≤ b / w
div-le-div a b zero h = omega arith
div-le-div a b (suc w) h = grind arith

-- Requests later than every time that `p` counts.
pub count-accepted-later :
    {S : Type 0} (allow : S → ℕ → S × Bool) (p : ℕ → Bool) (s : S) (now : ℕ) (times : List ℕ)
    → ((t : ℕ) → now ≤ t → p t ≡ false)
    → Ascending now times
    → count p (accepted allow s times) ≡ 0
unfolding accepted
count-accepted-later allow p s now [] later h = refl
count-accepted-later allow p s now (t ∷ times) later h = ground (
  arith,
  later t h.0,
  count-accepted-later allow p (allow s t).0 t times (λ u k. later u (omega arith)) h.1,
)
