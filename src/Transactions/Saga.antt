-- ===== src/Transactions/Saga.antt =====
-- `Services` and `run_saga` of 06_distributed_systems/04_distributed_transactions_2pc_saga.py. A forward
-- step is the services after it, or `none` for the raised `RuntimeError`; `stock` counts the widgets.
-- A payment of 20.00 is `charged`. The unused `log` list is not modelled.
pub mod Compensation
use learn_system_design.Prelude.{
  ℕ, Bool, true, false, ◌&&◌, List, [], ◌∷◌, if◌then◌else◌, map, Option, none, some, ite,
}
use learn_system_design.Prelude.Int.{ℤ, pos, ◌+ℤ◌, ◌-ℤ◌}
use learn_system_design.Prelude.Dict.{Dict, put, get, has}

pub data Step : Type 0 where
  create_order reserve_stock charge_card schedule_shipping : Step

pub data OrderState : Type 0 where
  pending confirmed cancelled : OrderState

pub data Payment : Type 0 where
  charged refunded : Payment

pub data Shipment : Type 0 where
  scheduled : Shipment

pub record Services (I : Type 0) : Type 0 where
  pub orders : Dict I OrderState
  pub stock : ℤ
  pub payments : Dict I Payment
  pub shipments : Dict I Shipment
  pub fail_at : Option Step

unfoldable pub is_step : Step → Step → Bool
is_step create_order create_order = true
is_step reserve_stock reserve_stock = true
is_step charge_card charge_card = true
is_step schedule_shipping schedule_shipping = true
is_step _ _ = false

-- `step == self.fail_at`, for `_maybe_fail`
unfoldable pub fails : Option Step → Step → Bool
unfolding is_step
fails none step = false
fails (some at) step = is_step step at

unfoldable pub is_cancelled : Option OrderState → Bool
is_cancelled (some cancelled) = true
is_cancelled _ = false

module _ {I : Type 0} (dec : Discrete I) where
  -- The forward steps.
  unfoldable pub action : Step → I → Services I → Option (Services I)
  action create_order oid s =
      if fails s.fail_at create_order
      then none
      else some (record s { orders = put dec oid pending s.orders })
  action reserve_stock oid s =
      if fails s.fail_at reserve_stock then none else some (record s { stock = s.stock -ℤ pos 1 })
  action charge_card oid s =
      if fails s.fail_at charge_card
      then none
      else some (record s { payments = put dec oid charged s.payments })
  action schedule_shipping oid s =
      if fails s.fail_at schedule_shipping
      then none
      else some (record s {
        shipments = put dec oid scheduled s.shipments;
        orders = put dec oid confirmed s.orders;
      })

  -- `cancel_order`
  unfoldable pub cancel_order : I → Services I → Services I
  unfolding is_cancelled
  cancel_order oid s =
      if is_cancelled (get dec oid s.orders)
      then s
      else record s { orders = put dec oid cancelled s.orders }

  -- `release_stock`
  unfoldable pub release_stock : I → Services I → Services I
  release_stock oid s = record s { stock = s.stock +ℤ pos 1 }

  -- `refund_card`
  unfoldable pub refund_card : I → Services I → Services I
  refund_card oid s =
      if has dec oid s.payments then record s { payments = put dec oid refunded s.payments } else s

  -- The compensation of a step; `schedule_shipping` has none.
  unfoldable pub compensation : Step → I → Services I → Services I
  unfolding cancel_order release_stock refund_card
  compensation create_order oid s = cancel_order oid s
  compensation reserve_stock oid s = release_stock oid s
  compensation charge_card oid s = refund_card oid s
  compensation schedule_shipping oid s = s

  -- `for prev_name, comp in reversed(done)`; `done` holds the last step first.
  unfoldable pub compensate : List Step → I → Services I → Services I
  compensate [] oid s = s
  compensate (step ∷ done) oid s = compensate done oid (compensation step oid s)

  -- The loop of `run_saga` over the steps.
  unfoldable pub run_steps : List Step → List Step → I → Services I → Services I × Bool
  run_steps [] done oid s = (s, true)
  run_steps (step ∷ steps) done oid s = elim (action step oid s) [
    | none ↦ (compensate done oid s, false)
    | some s' ↦ run_steps steps (step ∷ done) oid s'
  ]

  unfoldable pub run_saga : I → Services I → Services I × Bool
  run_saga oid s =
      run_steps (create_order ∷ reserve_stock ∷ charge_card ∷ schedule_shipping ∷ []) [] oid s
