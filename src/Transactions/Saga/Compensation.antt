-- ===== src/Transactions/Saga/Compensation.antt =====
-- What a saga leaves of an order, whichever of its steps fails.
use learn_system_design.Prelude.{
  true, false, Option, none, some, arith, ◌≡◌, refl, Bool-cases, inl, inr, ◌⊎◌, sym, subst, ◌∙◌,
}
use learn_system_design.Prelude.Int.{ℤ, pos, ◌+ℤ◌, ◌-ℤ◌, +ℤ_parts, -ℤ_parts, eq_of_parts}
use learn_system_design.Prelude.Dict.{Dict, put, get, has, get-put_self, has-put_self}
use learn_system_design.Transactions.Saga.{
  Services, Step, create_order, reserve_stock, charge_card, schedule_shipping, OrderState, pending,
  confirmed, cancelled, Payment, charged, refunded, Shipment, scheduled, fails, is_cancelled,
  action, cancel_order, release_stock, refund_card, compensation, compensate, run_steps, run_saga,
}

add_back : (a : ℤ) → (a -ℤ pos 1) +ℤ pos 1 ≡ a
add_back a =
    eq_of_parts (a -ℤ pos 1 +ℤ pos 1) a
      (ground (arith, +ℤ_parts (a -ℤ pos 1) (pos 1), -ℤ_parts a (pos 1)))

is_cancelled-some : (o : Option OrderState) → is_cancelled o ≡ true → o ≡ some cancelled
unfolding is_cancelled
is_cancelled-some none h = ground arith
is_cancelled-some (some pending) h = ground arith
is_cancelled-some (some confirmed) h = ground arith
is_cancelled-some (some cancelled) h = refl

module _ {I : Type 0} (dec : Discrete I) where
  -- The order has gone through: it is confirmed, charged and shipped, and a widget is taken.
  abbrev pub IsFulfilled : I → Services I → Services I → Type 0
  IsFulfilled oid s s' =
      (get dec oid s'.orders ≡ some confirmed)
      × (s'.stock ≡ s.stock -ℤ pos 1)
      × (get dec oid s'.payments ≡ some charged)
      × (get dec oid s'.shipments ≡ some scheduled)

  -- The order has been undone: it is absent or cancelled, nothing is paid, shipped or taken.
  abbrev pub IsUndone : I → Services I → Services I → Type 0
  IsUndone oid s s' =
      ((get dec oid s'.orders ≡ none) ⊎ (get dec oid s'.orders ≡ some cancelled))
      × (s'.stock ≡ s.stock)
      × ((get dec oid s'.payments ≡ none) ⊎ (get dec oid s'.payments ≡ some refunded))
      × (s'.shipments ≡ s.shipments)

  cancel_order-orders :
      (oid : I) (s : Services I) → get dec oid (cancel_order dec oid s).orders ≡ some cancelled
  unfolding cancel_order
  cancel_order-orders oid s = elim (Bool-cases (is_cancelled (get dec oid s.orders))) [
    | inl e ↦ rw e (is_cancelled-some (get dec oid s.orders) e)
    | inr e ↦ rw e (get-put_self dec oid cancelled s.orders)
  ]

  cancel_order-rest :
      (oid : I) (s : Services I)
      → ((cancel_order dec oid s).stock ≡ s.stock)
        × ((cancel_order dec oid s).payments ≡ s.payments)
        × ((cancel_order dec oid s).shipments ≡ s.shipments)
  unfolding cancel_order
  cancel_order-rest oid s = elim (Bool-cases (is_cancelled (get dec oid s.orders))) [
    | inl e ↦ rw e (refl, refl, refl)
    | inr e ↦ rw e (refl, refl, refl)
  ]

  refund_card-charged :
      (oid : I) (s : Services I)
      → has dec oid s.payments ≡ true
      → refund_card dec oid s ≡ record s { payments = put dec oid refunded s.payments }
  unfolding refund_card
  refund_card-charged oid s h = rw h refl

  -- Undoing an order that is created but not charged.
  cancel_order-IsUndone :
      (oid : I) (s s' : Services I)
      → s'.stock ≡ s.stock
      → (get dec oid s'.payments ≡ none) ⊎ (get dec oid s'.payments ≡ some refunded)
      → s'.shipments ≡ s.shipments
      → IsUndone oid s (cancel_order dec oid s')
  cancel_order-IsUndone oid s s' stock paid shipped =
      let (t, p, h) = cancel_order-rest oid s' in
      (inr (cancel_order-orders oid s'), t ∙ stock, rw p paid, h ∙ shipped)

  outcome :
      (oid : I) (orders : Dict I OrderState) (stock : ℤ) (payments : Dict I Payment)
      (shipments : Dict I Shipment) (fail_at : Option Step)
      → get dec oid orders ≡ none
      → get dec oid payments ≡ none
      → let s : Services I = record {
        orders = orders;
        stock = stock;
        payments = payments;
        shipments = shipments;
        fail_at = fail_at;
      } in
        (((run_saga dec oid s).1 ≡ true) × IsFulfilled oid s (run_saga dec oid s).0)
        ⊎ (((run_saga dec oid s).1 ≡ false) × IsUndone oid s (run_saga dec oid s).0)
  unfolding run_saga run_steps action fails compensate
  outcome oid orders stock payments shipments none o p = inl (
    refl,
    (
      get-put_self dec oid confirmed (put dec oid pending orders),
      refl,
      get-put_self dec oid charged payments,
      get-put_self dec oid scheduled shipments,
    ),
  )
  outcome oid orders stock payments shipments (some create_order) o p =
      inr (refl, (inl o, refl, inl p, refl))
  outcome oid orders stock payments shipments (some reserve_stock) o p =
      let s : Services I = record {
        orders = orders;
        stock = stock;
        payments = payments;
        shipments = shipments;
        fail_at = some reserve_stock;
      } in
      let s1 : Services I = record s { orders = put dec oid pending orders } in
      inr (refl, unfold compensation in cancel_order-IsUndone oid s s1 refl (inl p) refl)
  outcome oid orders stock payments shipments (some charge_card) o p =
      let s : Services I = record {
        orders = orders;
        stock = stock;
        payments = payments;
        shipments = shipments;
        fail_at = some charge_card;
      } in
      let s1 : Services I = record s { orders = put dec oid pending orders } in
      let s2 : Services I = record s1 { stock = stock -ℤ pos 1 } in
      inr (
        refl,
        unfold compensation release_stock in
            cancel_order-IsUndone oid s (release_stock dec oid s2) (add_back stock) (inl p) refl,
      )
  outcome oid orders stock payments shipments (some schedule_shipping) o p =
      let s : Services I = record {
        orders = orders;
        stock = stock;
        payments = payments;
        shipments = shipments;
        fail_at = some schedule_shipping;
      } in
      let s1 : Services I = record s { orders = put dec oid pending orders } in
      let s2 : Services I = record s1 { stock = stock -ℤ pos 1 } in
      let s3 : Services I = record s2 { payments = put dec oid charged payments } in
      let s4 : Services I = record s3 { payments = put dec oid refunded s3.payments } in
      let undone : IsUndone oid s (cancel_order dec oid (release_stock dec oid s4)) =
        unfold release_stock in
        cancel_order-IsUndone oid s (release_stock dec oid s4) (add_back stock)
          (inr (get-put_self dec oid refunded s3.payments)) refl in
      inr (
        refl,
        unfold compensation in
            subst (λ x. IsUndone oid s (cancel_order dec oid (release_stock dec oid x)))
              (sym (refund_card-charged oid s3 (has-put_self dec oid charged payments))) undone,
      )

  -- A saga of an order that is new to the services either succeeds, with the order confirmed,
  -- charged and shipped and a widget taken, or fails, whichever step it is that fails, and then the
  -- order is absent or cancelled, its payment absent or refunded, and stock and shipments are as before.
  pub run_saga_outcome :
      (oid : I) (s : Services I)
      → get dec oid s.orders ≡ none
      → get dec oid s.payments ≡ none
      → (((run_saga dec oid s).1 ≡ true) × IsFulfilled oid s (run_saga dec oid s).0)
        ⊎ (((run_saga dec oid s).1 ≡ false) × IsUndone oid s (run_saga dec oid s).0)
  run_saga_outcome oid s o p = outcome oid s.orders s.stock s.payments s.shipments s.fail_at o p
