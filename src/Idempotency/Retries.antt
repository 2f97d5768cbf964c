-- ===== src/Idempotency/Retries.antt =====
-- What duplicates and retries do.
use learn_system_design.Prelude.{
  ◌≡◌, refl, true, false, Option, none, some, List, [], ◌∷◌, if◌then◌else◌, Bool-cases, ap, sym,
  ◌∙◌, inl, inr,
}
use learn_system_design.Prelude.Int.{ℤ}
use learn_system_design.Prelude.Dict.{get, get-put_self}
use learn_system_design.Idempotency.{
  Message, Db, debit, naive_consumer, is_in, idempotent_consumer, naive_all, idempotent_all,
  Response, PaymentApi, charge_with, charge,
}

module _ {I A : Type 0} (dec_id : Discrete I) (dec_account : Discrete A) where
  -- The first delivery of each message whose id is not among these.
  abbrev pub firsts : List I → List (Message I A) → List (Message I A)
  firsts seen [] = []
  firsts seen (msg ∷ deliveries) =
      let again = firsts seen deliveries in
      let new = firsts (msg.id ∷ seen) deliveries in
      if is_in dec_id dec_account msg.id seen then again else msg ∷ new

  naive_all_accounts :
      (deliveries : List (Message I A)) (d e : Db I A)
      → d.accounts ≡ e.accounts
      → (naive_all dec_id dec_account deliveries d).accounts
        ≡ (naive_all dec_id dec_account deliveries e).accounts
  unfolding naive_all naive_consumer
  naive_all_accounts [] d e h = h
  naive_all_accounts (msg ∷ deliveries) d e h =
      naive_all_accounts deliveries _ _ (ap (debit dec_id dec_account msg) h)

  consumer_skips :
      (msg : Message I A) (db : Db I A)
      → is_in dec_id dec_account msg.id db.processed ≡ true
      → (idempotent_consumer dec_id dec_account msg db).0 ≡ db
  unfolding idempotent_consumer
  consumer_skips msg db e = rw e refl

  consumer_applies :
      (msg : Message I A) (db : Db I A)
      → is_in dec_id dec_account msg.id db.processed ≡ false
      → (idempotent_consumer dec_id dec_account msg db).0 ≡ record {
        accounts = debit dec_id dec_account msg db.accounts;
        processed = msg.id ∷ db.processed;
      }
  unfolding idempotent_consumer
  consumer_applies msg db e = rw e refl

  -- Whatever is delivered again and again, in any order: the idempotent consumer leaves the accounts that
  -- the naive one leaves when only the first delivery of each message not yet processed reaches it.
  pub idempotent_all-firsts :
      (deliveries : List (Message I A)) (db : Db I A)
      → (idempotent_all dec_id dec_account deliveries db).accounts
        ≡ (naive_all dec_id dec_account (firsts db.processed deliveries) db).accounts
  unfolding idempotent_all naive_all naive_consumer
  idempotent_all-firsts [] db = refl
  idempotent_all-firsts (msg ∷ deliveries) db =
      elim (Bool-cases (is_in dec_id dec_account msg.id db.processed)) [
        | inl e ↦ rw e (
            ap (λ d. (idempotent_all dec_id dec_account deliveries d).accounts)
              (consumer_skips msg db e)
            ∙ idempotent_all-firsts deliveries db)
        | inr e ↦ rw e (
            ap (λ d. (idempotent_all dec_id dec_account deliveries d).accounts)
              (consumer_applies msg db e)
            ∙ idempotent_all-firsts deliveries (record {
              accounts = debit dec_id dec_account msg db.accounts;
              processed = msg.id ∷ db.processed;
            })
            ∙ naive_all_accounts (firsts (msg.id ∷ db.processed) deliveries) _ _ refl)
      ]

module _ {K : Type 0} (dec : Discrete K) where
  charge_with-get :
      (found : Option Response) (key : K) (amount : ℤ) (api : PaymentApi K)
      → found ≡ get dec key api.responses
      → get dec key (charge_with dec found key amount api).0.responses
        ≡ some (charge_with dec found key amount api).1
  unfolding charge_with
  charge_with-get (some r) key amount api h = sym h
  charge_with-get none key amount api h = get-put_self dec key _ api.responses

  -- A charge with a key that was charged before, whatever its amount: it gives the first charge's
  -- response, marked as replayed, and changes nothing.
  pub charge-charge :
      (key : K) (amount again : ℤ) (api : PaymentApi K)
      → charge dec key again (charge dec key amount api).0
        ≡ ((charge dec key amount api).0, (charge dec key amount api).1, true)
  unfolding charge
  charge-charge key amount again api =
      let api' = (charge_with dec (get dec key api.responses) key amount api).0 in
      ap (λ f. charge_with dec f key again api')
        (charge_with-get (get dec key api.responses) key amount api refl)
      ∙ unfold charge_with in refl
