-- ===== src/EventSourcing/Commands.antt =====
-- Runs of commands, as the program's loop under `try` performs them.
use learn_system_design.Prelude.{Option, none, some, List, [], ◌∷◌}
use learn_system_design.Prelude.Int.{ℤ}
use learn_system_design.EventSourcing.{EventStore, Subscriber, deposit, withdraw}

pub data Command (A : Type 0) : Type 0 where
  deposit_to : A → ℤ → Command A
  withdraw_from : A → ℤ → Command A

-- A rejected command writes no event.
unfoldable pub unless_rejected : {A : Type 0} → EventStore A → Option (EventStore A) → EventStore A
unless_rejected s none = s
unless_rejected s (some s') = s'

module _ {A : Type 0} (dec : Discrete A) where
  unfoldable pub perform : Command A → EventStore A → EventStore A
  unfolding unless_rejected
  perform (deposit_to account amount) s = unless_rejected s (deposit dec s account amount)
  perform (withdraw_from account amount) s = unless_rejected s (withdraw dec s account amount)

  unfoldable pub perform_all : List (Command A) → EventStore A → EventStore A
  perform_all [] s = s
  perform_all (c ∷ commands) s = perform_all commands (perform c s)

-- `EventStore()` with its first subscribers
unfoldable pub open_store : {A : Type 0} → List (Subscriber A) → EventStore A
open_store subscribers = record { events = []; subscribers = subscribers }
