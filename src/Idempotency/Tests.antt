-- ===== src/Idempotency/Tests.antt =====
-- A message delivered three times, and a charge tried twice.
use learn_system_design.Prelude.{ℕ, ◌≡◌, refl, [], ◌∷◌, ℕ_discrete}
use learn_system_design.Prelude.Int.{pos, ◌-ℤ◌}
use learn_system_design.Prelude.Dict.{get, put}
use learn_system_design.Idempotency.{
  Message, Db, debit, naive_consumer, is_in, idempotent_consumer, naive_all, idempotent_all,
  new_api, charge_with, charge,
}
use learn_system_design.Idempotency.Retries.{firsts, idempotent_all-firsts}

abbrev payment : Message ℕ ℕ
payment = record { id = 1; account = 7; amount = pos 10 }

abbrev db : Db ℕ ℕ
db = record { accounts = (7, pos 1000) ∷ []; processed = [] }

overcharged :
    (naive_all ℕ_discrete ℕ_discrete (payment ∷ payment ∷ payment ∷ []) db).accounts
    ≡ (7, pos 970) ∷ []
unfolding naive_all naive_consumer debit ◌-ℤ◌ ℕ_discrete
overcharged = refl

charged_once :
    (idempotent_all ℕ_discrete ℕ_discrete (payment ∷ payment ∷ payment ∷ []) db).accounts
    ≡ (7, pos 990) ∷ []
unfolding idempotent_all idempotent_consumer is_in debit ◌-ℤ◌ ℕ_discrete
charged_once = refl

one_charge :
    (charge ℕ_discrete 5 (pos 99) (charge ℕ_discrete 5 (pos 99) new_api).0).0.charges
    ≡ (1, pos 99) ∷ []
unfolding charge charge_with new_api get put ℕ_discrete
one_charge = refl

abbrev other : Message ℕ ℕ
other = record { id = 2; account = 7; amount = pos 25 }

idempotent_all-firsts_example :
    (idempotent_all ℕ_discrete ℕ_discrete (other ∷ payment ∷ other ∷ []) db).accounts
    ≡ (naive_all ℕ_discrete ℕ_discrete
        (firsts ℕ_discrete ℕ_discrete [] (other ∷ payment ∷ other ∷ []))
        db).accounts
idempotent_all-firsts_example =
    idempotent_all-firsts ℕ_discrete ℕ_discrete (other ∷ payment ∷ other ∷ []) db
