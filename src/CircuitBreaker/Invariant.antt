-- ===== src/CircuitBreaker/Invariant.antt =====
-- What every call keeps.
use learn_system_design.Prelude.{
  ℕ, ◌+◌, ◌≤◌, ◌<◌, max, ◌≡◌, ◌↔◌, false, Option, List, [], ◌∷◌, ◌++◌, arith, length,
}
use learn_system_design.CircuitBreaker.{
  State, closed, opened, half_open, Breaker, fast_failed, to_state, is_tripped, call,
}

-- The changes of state that the pattern allows.
pub data Move : State → State → Type 0 where
  trip : Move closed opened
  cool_down : Move opened half_open
  trial_failed : Move half_open opened
  recover : Move half_open closed

-- The recorded changes lead from `s` to `t`, each allowed and each from where the last one led.
pub data Leads (s : State) : List (ℕ × State × State) → State → Type 0 where
  start : Leads s [] s
  change :
      {log : List (ℕ × State × State)} {t u : State}
      → Leads s log t
      → Move t u
      → (now : ℕ) (log' : List (ℕ × State × State)) → log' ≡ log ++ (now, t, u) ∷ []
      → Leads s log' u

pub record IsValid (b : Breaker) : Type 0 where
  pub some_calls : 0 < b.min_calls
  pub some_window : 0 < b.window
  pub bounded : length b.results ≤ b.window
  pub leads : Leads closed b.transitions b.state
  pub trials : b.state ≡ half_open → b.trial_successes < max 1 b.half_open_trials
  pub healthy : b.state ≡ closed → is_tripped b b.results ≡ false

-- A call fails fast exactly while the breaker is open and the cool-down runs.
pub call-fast_failed :
    {R : Type 0} (fn : Option R) (now : ℕ) (b : Breaker)
    → ((call fn now b).1 ≡ fast_failed) ↔ ((b.state ≡ opened) × (now < b.opened_at + b.cooldown))
unfolding call
call-fast_failed fn now b = (λ h. ground arith, λ h. ground arith)

-- A call that fails fast leaves the breaker as it was.
pub call_unchanged :
    {R : Type 0} (fn : Option R) (now : ℕ) (b : Breaker)
    → (call fn now b).1 ≡ fast_failed
    → (call fn now b).0 ≡ b
unfolding call
call_unchanged fn now b h = ground arith

Leads-to_state :
    (b : Breaker) {s t : State} (now : ℕ)
    → Leads closed b.transitions s
    → b.state ≡ s
    → Move s t
    → Leads closed (b.transitions ++ (now, b.state, t) ∷ []) t
Leads-to_state b now l e m = change l m now _ (rw e)

abbrev Passes : State → Type 0
Passes opened = ⊥
Passes _ = Unit {0}

-- An open breaker after the cool-down.
pub half_opened-IsValid :
    (now : ℕ) (b : Breaker)
    → b.state ≡ opened
    → IsValid b
    → IsValid (record (to_state half_open now b) { trial_successes = 0 })
unfolding to_state
half_opened-IsValid now b e v = record {
  some_calls = v.some_calls;
  some_window = v.some_window;
  bounded = v.bounded;
  leads = Leads-to_state b now (rw e at (v.leads)) e cool_down;
  trials = λ h. omega arith;
  healthy = λ h. cc;
}
