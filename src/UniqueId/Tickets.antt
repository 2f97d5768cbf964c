-- ===== src/UniqueId/Tickets.antt =====
-- `TicketServer` of 06_distributed_systems/09_unique_id_generation.py.
use learn_system_design.Prelude.{ℕ, zero, suc, ◌+◌, ◌*◌, ◌%◌, ◌≡◌, ◌≢◌, arith, ap, sym, ◌∙◌}
use native.Mathlib.Nat.{add-mul-mod_self_right}

pub record TicketServer : Type 0 where
  pub next : ℕ
  pub step : ℕ

-- `__init__(offset, step)`
unfoldable pub init : ℕ → ℕ → TicketServer
init offset step = record { next = offset; step = step }

unfoldable pub next_id : TicketServer → TicketServer × ℕ
next_id s = (record s { next = s.next + s.step }, s.next)

-- The id of the call that `n` calls come before.
unfoldable pub ticket : ℕ → TicketServer → ℕ
unfolding next_id
ticket zero s = (next_id s).1
ticket (suc n) s = ticket n (next_id s).0

ticket-eq : (n : ℕ) (s : TicketServer) → ticket n s ≡ s.next + n * s.step
unfolding ticket
ticket-eq zero s = omega arith
ticket-eq (suc n) s = omega (arith, ticket-eq n (next_id s).0)

ticket-mod : (offset step n : ℕ) → ticket n (init offset step) % step ≡ offset % step
unfolding init
ticket-mod offset step n =
    ap (λ x. x % step) (ticket-eq n (init offset step)) ∙ add-mul-mod_self_right offset n step

-- Two servers with one step, whose offsets differ by no multiple of it, never issue the same id.
pub tickets_disjoint :
    (a b step n m : ℕ) → a % step ≢ b % step → ticket n (init a step) ≢ ticket m (init b step)
tickets_disjoint a b step n m h e =
    h (sym (ticket-mod a step n) ∙ ap (λ x. x % step) e ∙ ticket-mod b step m)
