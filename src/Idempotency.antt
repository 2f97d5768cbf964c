-- ===== src/Idempotency.antt =====
-- 07_messaging/03_idempotency.py: the consumers and `PaymentAPI`. The database is its two tables, a transaction
-- is one function, and a violated primary key is an answer. A response holds what its text names.
pub mod Retries
mod Tests
use learn_system_design.Prelude.{
  ℕ, ◌+◌, Bool, true, false, Option, none, some, List, [], ◌∷◌, ◌++◌, length, if◌then◌else◌, ite,
}
use learn_system_design.Prelude.Int.{ℤ, ◌-ℤ◌}
use learn_system_design.Prelude.Dict.{Dict, get, put}

pub record Message (I A : Type 0) : Type 0 where
  pub id : I
  pub account : A
  pub amount : ℤ

-- `accounts` and `processed_messages`
pub record Db (I A : Type 0) : Type 0 where
  pub accounts : Dict A ℤ
  pub processed : List I

pub data Outcome : Type 0 where
  applied duplicate_skipped : Outcome

module _ {I A : Type 0} (dec_id : Discrete I) (dec_account : Discrete A) where
  -- `UPDATE accounts SET balance = balance - ? WHERE id = ?`
  unfoldable pub debit : Message I A → Dict A ℤ → Dict A ℤ
  debit msg [] = []
  debit msg ((a, balance) ∷ accounts) =
      let rest = debit msg accounts in
      ite (dec_account a msg.account) ((a, balance -ℤ msg.amount) ∷ accounts) ((a, balance) ∷ rest)

  -- `naive_consumer`
  unfoldable pub naive_consumer : Message I A → Db I A → Db I A
  unfolding debit
  naive_consumer msg db = record db { accounts = debit msg db.accounts }

  unfoldable pub is_in : I → List I → Bool
  is_in id [] = false
  is_in id (i ∷ ids) = let rest = is_in id ids in ite (dec_id i id) true rest

  -- `idempotent_consumer`
  unfoldable pub idempotent_consumer : Message I A → Db I A → Db I A × Outcome
  unfolding is_in debit
  idempotent_consumer msg db =
      if is_in msg.id db.processed
      then (db, duplicate_skipped)
      else (record { accounts = debit msg db.accounts; processed = msg.id ∷ db.processed }, applied)

  -- `for m in deliveries: naive_consumer(db, m)`
  unfoldable pub naive_all : List (Message I A) → Db I A → Db I A
  unfolding naive_consumer
  naive_all [] db = db
  naive_all (msg ∷ deliveries) db = naive_all deliveries (naive_consumer msg db)

  -- `[idempotent_consumer(db, m) for m in deliveries]`, for the database
  unfoldable pub idempotent_all : List (Message I A) → Db I A → Db I A
  unfolding idempotent_consumer
  idempotent_all [] db = db
  idempotent_all (msg ∷ deliveries) db = idempotent_all deliveries (idempotent_consumer msg db).0

-- A charge's number stands for its id.
pub record Response : Type 0 where
  pub amount : ℤ
  pub charge : ℕ

pub record PaymentApi (K : Type 0) : Type 0 where
  pub responses : Dict K Response
  pub charges : List (ℕ × ℤ)

-- `PaymentAPI()`
unfoldable pub new_api : {K : Type 0} → PaymentApi K
new_api = record { responses = []; charges = [] }

module _ {K : Type 0} (dec : Discrete K) where
  -- The rest of `charge`, after the key is looked up; `true` says that the response is replayed.
  unfoldable pub charge_with :
      Option Response → K → ℤ → PaymentApi K → PaymentApi K × Response × Bool
  charge_with (some response) key amount api = (api, response, true)
  charge_with none key amount api =
      let response : Response = record { amount = amount; charge = length api.charges + 1 } in
      (
        record {
          responses = put dec key response api.responses;
          charges = api.charges ++ (length api.charges + 1, amount) ∷ [];
        },
        response,
        false,
      )

  -- `PaymentAPI.charge`
  unfoldable pub charge : K → ℤ → PaymentApi K → PaymentApi K × Response × Bool
  unfolding charge_with
  charge key amount api = charge_with (get dec key api.responses) key amount api
