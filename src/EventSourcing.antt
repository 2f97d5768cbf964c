-- ===== src/EventSourcing.antt =====
-- 09_architecture/02_event_sourcing_cqrs.py: an event store with projections that it publishes to,
-- and the handler of commands. Amounts are integers; accounts are any type with decidable equality.
pub mod Accounts
pub mod Commands
pub mod Projection
pub mod Ledger
mod Tests
use learn_system_design.Prelude.{
  ℕ, zero, suc, ◌+◌, ◌≤◌, Bool, true, false, ◌&&◌, Option, none, some, List, [], ◌∷◌, ◌++◌, leb,
  if◌then◌else◌, length, ite,
}
use learn_system_design.Prelude.Int.{ℤ, pos, negsuc, ◌+ℤ◌, ◌-ℤ◌, ltb_ℤ}

pub data Kind : Type 0 where
  deposited withdrew : Kind

pub record Event (A : Type 0) : Type 0 where
  pub seq : ℕ
  pub account : A
  pub kind : Kind
  pub amount : ℤ

-- `amount if etype == "Deposited" else -amount`
unfoldable pub change : Kind → ℤ → ℤ
change deposited amount = amount
change withdrew amount = pos 0 -ℤ amount

module _ {A : Type 0} where
  -- the loop of `fold_balance`
  unfoldable pub fold_balance : List (Event A) → ℤ → ℤ
  fold_balance [] balance = balance
  fold_balance (e ∷ events) balance = fold_balance events (balance +ℤ change e.kind e.amount)

-- The projections that subscribe: balances by account, and the large events.
pub data Subscriber (A : Type 0) : Type 0 where
  balances : (A → ℤ) → Subscriber A
  alerts : ℤ → List (Event A) → Subscriber A

pub record EventStore (A : Type 0) : Type 0 where
  pub events : List (Event A)
  pub subscribers : List (Subscriber A)

module _ {A : Type 0} (dec : Discrete A) where
  -- `on_event` of `BalanceProjection` and `BigTransactionsProjection`
  unfoldable pub on_event : Event A → Subscriber A → Subscriber A
  on_event e (balances b) =
      balances (λ a. ite (dec e.account a) (b a +ℤ change e.kind e.amount) (b a))
  on_event e (alerts threshold found) =
      alerts threshold (if ltb_ℤ e.amount threshold then found else found ++ e ∷ [])

  unfoldable pub publish : Event A → List (Subscriber A) → List (Subscriber A)
  publish e [] = []
  publish e (s ∷ subscribers) = on_event e s ∷ publish e subscribers

  -- `append`
  unfoldable pub append : EventStore A → A → Kind → ℤ → EventStore A
  append s account kind amount =
      let e : Event A = record {
        seq = length s.events + 1;
        account = account;
        kind = kind;
        amount = amount;
      } in
      record { events = s.events ++ e ∷ []; subscribers = publish e s.subscribers }

  -- `up_to_seq is None or e[0] <= up_to_seq`
  unfoldable pub is_within : Option ℕ → ℕ → Bool
  is_within none seq = true
  is_within (some limit) seq = leb seq limit

  -- `stream`
  unfoldable pub stream : List (Event A) → A → Option ℕ → List (Event A)
  unfolding is_within
  stream [] account up_to_seq = []
  stream (e ∷ events) account up_to_seq =
      let rest = stream events account up_to_seq in
      ite (dec e.account account) (if is_within up_to_seq e.seq then e ∷ rest else rest) rest

  -- The balance that the write side computes.
  unfoldable pub balance : EventStore A → A → ℤ
  balance s account = fold_balance (stream s.events account none) (pos 0)

  -- `deposit`; `none` is the raised `ValueError`
  unfoldable pub deposit : EventStore A → A → ℤ → Option (EventStore A)
  deposit s account amount =
      if ltb_ℤ (pos 0) amount then some (append s account deposited amount) else none

  -- `withdraw`
  unfoldable pub withdraw : EventStore A → A → ℤ → Option (EventStore A)
  withdraw s account amount =
      if ltb_ℤ (balance s account) amount then none else some (append s account withdrew amount)
