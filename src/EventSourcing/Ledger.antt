-- ===== src/EventSourcing/Ledger.antt =====
-- The write side: what commands keep of the balances and of the numbers of the events.
use learn_system_design.Prelude.{
  ℕ, zero, suc, ◌+◌, ◌≤◌, ◌≡◌, refl, none, some, List, [], ◌∷◌, ◌++◌, length, arith, Bool-cases,
  inl, inr, ap, subst, ◌∙◌, if_pos, if_neg, take,
}
use learn_system_design.Prelude.Int.{ℤ, pos, ◌+ℤ◌, ◌-ℤ◌, ◌≤ℤ◌, ltb_ℤ, +ℤ_parts, -ℤ_parts}
use learn_system_design.EventSourcing.{
  Kind, deposited, withdrew, Event, change, fold_balance, EventStore, append, stream, is_within,
  balance, deposit, withdraw, Subscriber,
}
use learn_system_design.EventSourcing.Accounts.{balance-append}
use learn_system_design.EventSourcing.Commands.{
  Command, deposit_to, withdraw_from, unless_rejected, perform, perform_all, open_store,
}

module _ {A : Type 0} (dec : Discrete A) where
  abbrev pub IsCovered : EventStore A → Type 0
  IsCovered s = (account : A) → pos 0 ≤ℤ balance dec s account

  append-IsCovered :
      (s : EventStore A) (owner : A) (kind : Kind) (amount : ℤ)
      → IsCovered s
      → pos 0 ≤ℤ (balance dec s owner +ℤ change kind amount)
      → IsCovered (append dec s owner kind amount)
  append-IsCovered s owner kind amount h enough account =
      rw balance-append (elim (dec owner account) [
        | yes p ↦
            rw (if_pos _ p) (subst (λ x. pos 0 ≤ℤ (balance dec s x +ℤ change kind amount)) p enough)
        | no p ↦ rw (if_neg _ p) (h account)
      ])

  perform-IsCovered : (c : Command A) (s : EventStore A) → IsCovered s → IsCovered (perform dec c s)
  unfolding perform unless_rejected
  perform-IsCovered (deposit_to account amount) s h =
      let b = balance dec s account in
      let hb = h account in
      unfold deposit in
      elim (Bool-cases (ltb_ℤ (pos 0) amount)) [
        | inl e ↦ rw e (
            append-IsCovered s account deposited amount h
              (unfold change in ground (arith, +ℤ_parts b amount)))
        | inr e ↦ rw e h
      ]
  perform-IsCovered (withdraw_from account amount) s h =
      let b = balance dec s account in
      let hb = h account in
      unfold withdraw in
      elim (Bool-cases (ltb_ℤ (balance dec s account) amount)) [
        | inl e ↦ rw e h
        | inr e ↦ rw e (
            append-IsCovered s account withdrew amount h (
              unfold change in
              ground (arith, -ℤ_parts (pos 0) amount, +ℤ_parts b (pos 0 -ℤ amount))))
      ]

  perform_all-IsCovered :
      (commands : List (Command A)) (s : EventStore A)
      → IsCovered s
      → IsCovered (perform_all dec commands s)
  unfolding perform_all
  perform_all-IsCovered [] s h = h
  perform_all-IsCovered (c ∷ commands) s h =
      perform_all-IsCovered commands (perform dec c s) (perform-IsCovered c s h)

  -- No commands, accepted or rejected, on a new store overdraw any account.
  pub no_overdraft :
      (commands : List (Command A)) (subscribers : List (Subscriber A)) (account : A)
      → pos 0 ≤ℤ balance dec (perform_all dec commands (open_store subscribers)) account
  no_overdraft commands subscribers =
      perform_all-IsCovered commands (open_store subscribers)
        (λ account. unfold balance stream fold_balance open_store in omega arith)

  -- The events carry the numbers that follow `n`.
  abbrev pub AreNumbered : ℕ → List (Event A) → Type 0
  AreNumbered n [] = Unit
  AreNumbered n (e ∷ events) = (e.seq ≡ n + 1) × AreNumbered (n + 1) events

  AreNumbered-append :
      (n : ℕ) (events : List (Event A)) (e : Event A)
      → AreNumbered n events
      → e.seq ≡ n + length events + 1
      → AreNumbered n (events ++ e ∷ [])
  AreNumbered-append n [] e h s = (omega arith, tt)
  AreNumbered-append n (x ∷ events) e (hx, h) s =
      (hx, AreNumbered-append (n + 1) events e h (omega arith))

  perform-AreNumbered :
      (c : Command A) (s : EventStore A)
      → AreNumbered 0 s.events
      → AreNumbered 0 (perform dec c s).events
  unfolding perform unless_rejected append
  perform-AreNumbered (deposit_to account amount) s h =
      unfold deposit in
      elim (Bool-cases (ltb_ℤ (pos 0) amount)) [
        | inl e ↦ rw e (AreNumbered-append 0 s.events _ h (omega arith))
        | inr e ↦ rw e h
      ]
  perform-AreNumbered (withdraw_from account amount) s h =
      unfold withdraw in
      elim (Bool-cases (ltb_ℤ (balance dec s account) amount)) [
        | inl e ↦ rw e h
        | inr e ↦ rw e (AreNumbered-append 0 s.events _ h (omega arith))
      ]

  perform_all-AreNumbered :
      (commands : List (Command A)) (s : EventStore A)
      → AreNumbered 0 s.events
      → AreNumbered 0 (perform_all dec commands s).events
  unfolding perform_all
  perform_all-AreNumbered [] s h = h
  perform_all-AreNumbered (c ∷ commands) s h =
      perform_all-AreNumbered commands (perform dec c s) (perform-AreNumbered c s h)

  stream-past :
      (n k : ℕ) (events : List (Event A)) (account : A)
      → AreNumbered n events
      → k ≤ n
      → stream dec events account (some k) ≡ []
  unfolding stream is_within
  stream-past n k [] account h past = refl
  stream-past n k (e ∷ events) account (he, h) past =
      let ih = stream-past (n + 1) k events account h (omega arith) in ground (arith, ih)

  stream-numbered :
      (n k : ℕ) (events : List (Event A)) (account : A)
      → AreNumbered n events
      → stream dec events account (some (n + k)) ≡ stream dec (take k events) account none
  unfolding stream is_within
  stream-numbered n zero [] account h = refl
  stream-numbered n (suc k) [] account h = refl
  stream-numbered n zero (e ∷ events) account h =
      stream-past n (n + 0) (e ∷ events) account h (omega arith)
  stream-numbered n (suc k) (e ∷ events) account (he, h) =
      let ih = stream-numbered (n + 1) k events account h in
      let same : n + suc k ≡ n + 1 + k = omega arith in rw same (rw ih (ground arith))

  -- After any commands on a new store, the events of an account up to a number `k` are those that
  -- it has among the first `k` events: a replay up to `k` gives the balance at that moment.
  pub time_travel :
      (commands : List (Command A)) (subscribers : List (Subscriber A)) (account : A) (k : ℕ)
      → stream dec (perform_all dec commands (open_store subscribers)).events account (some k)
        ≡ stream dec
            (take k (perform_all dec commands (open_store subscribers)).events)
            account
            none
  time_travel commands subscribers account k =
      let numbered =
        stream-numbered 0 k _ account
          (perform_all-AreNumbered commands (open_store subscribers) (unfold open_store in tt)) in
      ap
        (λ m.
          stream dec (perform_all dec commands (open_store subscribers)).events account (some m))
        (omega arith)
      ∙ numbered
