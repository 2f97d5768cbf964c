-- ===== src/EventSourcing/Accounts.antt =====
-- What the commands keep.
use learn_system_design.Prelude.{ℕ, ◌≡◌, refl, Option, List, [], ◌∷◌, ◌++◌, ite, arith}
use learn_system_design.Prelude.Int.{ℤ, ◌+ℤ◌}
use learn_system_design.EventSourcing.{
  Kind, Event, change, fold_balance, EventStore, append, stream, is_within, balance,
}

module _ {A : Type 0} where
  pub fold_balance-append :
      (xs ys : List (Event A)) (start : ℤ)
      → fold_balance (xs ++ ys) start ≡ fold_balance ys (fold_balance xs start)
  unfolding fold_balance
  fold_balance-append [] ys start = refl
  fold_balance-append (x ∷ xs) ys start =
      fold_balance-append xs ys (start +ℤ change x.kind x.amount)

module _ {A : Type 0} (dec : Discrete A) where
  pub stream-append :
      (xs ys : List (Event A)) (account : A) (limit : Option ℕ)
      → stream dec (xs ++ ys) account limit
        ≡ stream dec xs account limit ++ stream dec ys account limit
  unfolding stream
  stream-append [] ys account limit = refl
  stream-append (x ∷ xs) ys account limit = ground (arith, stream-append xs ys account limit)

  pub balance-append :
      (s : EventStore A) (owner account : A) (kind : Kind) (amount : ℤ)
      → balance dec (append dec s owner kind amount) account
        ≡ ite
            (dec owner account)
            (balance dec s account +ℤ change kind amount)
            (balance dec s account)
  unfolding balance append
  balance-append s owner account kind amount =
      rw (stream-append, fold_balance-append) (unfold stream fold_balance is_within in ground arith)
