-- ===== src/EventSourcing/Projection.antt =====
-- The read models follow the events, and the write side keeps every balance in range.
use learn_system_design.Prelude.{
  ◌+◌, ◌≡◌, refl, List, [], ◌∷◌, ◌++◌, if◌then◌else◌, length, ite, arith, Bool-cases, inl, inr, ap,
  sym, ◌∙◌,
}
use learn_system_design.Prelude.Int.{ℤ, pos, ◌+ℤ◌, ltb_ℤ}
use learn_system_design.EventSourcing.{
  Kind, deposited, withdrew, Event, change, EventStore, append, balance, deposit, withdraw,
  Subscriber, balances, alerts, on_event, publish,
}
use learn_system_design.EventSourcing.Accounts.{balance-append}
use learn_system_design.EventSourcing.Commands.{
  Command, deposit_to, withdraw_from, unless_rejected, perform, perform_all,
}

module _ {A : Type 0} where
  -- The events of at least the threshold, in order.
  abbrev pub large : ℤ → List (Event A) → List (Event A)
  large threshold [] = []
  large threshold (e ∷ events) =
      let rest = large threshold events in if ltb_ℤ e.amount threshold then rest else e ∷ rest

  large-append :
      (threshold : ℤ) (events : List (Event A)) (e : Event A)
      → large threshold (events ++ e ∷ []) ≡ (
          if ltb_ℤ e.amount threshold
          then large threshold events
          else large threshold events ++ e ∷ [])
  large-append threshold [] e = ground arith
  large-append threshold (x ∷ events) e = ground (arith, large-append threshold events e)

module _ {A : Type 0} (dec : Discrete A) where
  -- A read model shows what a replay of all events gives.
  abbrev pub IsCurrent : EventStore A → Subscriber A → Type 0
  IsCurrent s (balances b) = (account : A) → b account ≡ balance dec s account
  IsCurrent s (alerts threshold found) = found ≡ large threshold s.events

  abbrev pub AreCurrent : EventStore A → List (Subscriber A) → Type 0
  AreCurrent s [] = Unit
  AreCurrent s (x ∷ subscribers) = IsCurrent s x × AreCurrent s subscribers

  publish-AreCurrent :
      (s : EventStore A) (account : A) (kind : Kind) (amount : ℤ)
      (subscribers : List (Subscriber A))
      → AreCurrent s subscribers
      → AreCurrent (append dec s account kind amount) (
          publish dec
            (record { seq = length s.events + 1; account = account; kind = kind; amount = amount })
            subscribers)
  unfolding publish on_event append
  publish-AreCurrent s account kind amount [] h = tt
  publish-AreCurrent s account kind amount (balances b ∷ subscribers) (current, h) = (
    λ a.
        ap (λ x. ite (dec account a) (x +ℤ change kind amount) x) (current a)
        ∙ sym (balance-append dec s account a kind amount),
    publish-AreCurrent s account kind amount subscribers h,
  )
  publish-AreCurrent s account kind amount (alerts threshold found ∷ subscribers) (current, h) =
      (rw (current, large-append) refl, publish-AreCurrent s account kind amount subscribers h)

  append-AreCurrent :
      (s : EventStore A) (account : A) (kind : Kind) (amount : ℤ)
      → AreCurrent s s.subscribers
      → AreCurrent (append dec s account kind amount) (append dec s account kind amount).subscribers
  append-AreCurrent s account kind amount h =
      let h' = publish-AreCurrent s account kind amount s.subscribers h in unfold append in h'

  perform-AreCurrent :
      (c : Command A) (s : EventStore A)
      → AreCurrent s s.subscribers
      → AreCurrent (perform dec c s) (perform dec c s).subscribers
  unfolding perform unless_rejected
  perform-AreCurrent (deposit_to account amount) s h =
      unfold deposit in
      elim (Bool-cases (ltb_ℤ (pos 0) amount)) [
        | inl e ↦ rw e (append-AreCurrent s account deposited amount h)
        | inr e ↦ rw e h
      ]
  perform-AreCurrent (withdraw_from account amount) s h =
      unfold withdraw in
      elim (Bool-cases (ltb_ℤ (balance dec s account) amount)) [
        | inl e ↦ rw e h
        | inr e ↦ rw e (append-AreCurrent s account withdrew amount h)
      ]

  -- Read models that show what a replay of the events gives (the balance of every account, the
  -- large transactions) do so again after any commands, accepted or rejected.
  pub read_models_current :
      (commands : List (Command A)) (s : EventStore A)
      → AreCurrent s s.subscribers
      → AreCurrent (perform_all dec commands s) (perform_all dec commands s).subscribers
  unfolding perform_all
  read_models_current [] s h = h
  read_models_current (c ∷ commands) s h =
      read_models_current commands (perform dec c s) (perform-AreCurrent c s h)
