-- ===== src/RateLimit/Spans.antt =====
-- What a token bucket lets through in a span of time.
use learn_system_design.Prelude.{
  suc, ◌≡◌, true, false, List, [], ◌∷◌, arith, length, refl, ap, sym, subst, ◌∙◌, Bool-cases, inl,
  inr,
}
use learn_system_design.RateLimit.Runs.{accepted}
use learn_system_design.RateLimit.Numbers.{
  Numbers, min_of, IsExact, amount, AreAscending, last_time,
}
use learn_system_design.RateLimit.TokenBucket.{TokenBucket, refilled, allow}

module _ {N : Type 0} (n : Numbers N) (laws : IsExact n) where
  -- The order, as a proposition.
  abbrev IsLe : N → N → Type 0
  IsLe a b = n.le a b ≡ true

  -- The capacity, the rate and the tokens of a bucket are not negative.
  pub record IsFilled (b : TokenBucket N) : Type 0 where
    pub capacity_sign : n.le n.nought b.capacity ≡ true
    pub rate_sign : n.le n.nought b.rate ≡ true
    pub tokens_sign : n.le n.nought b.tokens ≡ true

  le_left : (c a b : N) → n.le (n.add c a) (n.add c b) ≡ n.le a b
  le_left c a b =
      ap (λ s. n.le s (n.add c b)) (laws.add_comm c a)
      ∙ ap (n.le (n.add a c)) (laws.add_comm c b)
      ∙ laws.le_add a b c

  not_lt : (x cap : N) → n.lt x cap ≡ false → IsLe cap x
  not_lt x cap e = let h = sym (laws.lt_le x cap) ∙ e in ground arith

  lt-le : (x cap : N) → n.lt x cap ≡ true → IsLe x cap
  lt-le x cap e = let h = sym (laws.lt_le x cap) ∙ e in laws.le_total cap x (ground arith)

  min_of-le : (cap x : N) → IsLe (min_of n cap x) cap × IsLe (min_of n cap x) x
  min_of-le cap x = elim (Bool-cases (n.lt x cap)) [
    | inl less ↦ rw less (lt-le x cap less, laws.le_refl x)
    | inr more ↦ rw more (laws.le_refl cap, not_lt x cap more)
  ]

  min_of-sign : (cap x : N) → IsLe n.nought cap → IsLe n.nought x → IsLe n.nought (min_of n cap x)
  min_of-sign cap x p q = elim (Bool-cases (n.lt x cap)) [
    | inl less ↦ rw less q
    | inr more ↦ rw more p
  ]

  sub_sign : (a b : N) → IsLe a b → IsLe n.nought (n.sub b a)
  sub_sign a b h =
      sym (laws.le_add n.nought (n.sub b a) a)
      ∙ ap (λ s. n.le s (n.add (n.sub b a) a)) (laws.add_comm n.nought a ∙ laws.add_nought a)
      ∙ ap (n.le a) (laws.sub_add b a)
      ∙ h

  add_sign : (a b : N) → IsLe n.nought a → IsLe n.nought b → IsLe n.nought (n.add a b)
  add_sign a b p q =
      laws.le_trans n.nought a (n.add a b) p
        (ap (λ s. n.le s (n.add a b)) (sym (laws.add_nought a)) ∙ le_left a n.nought b ∙ q)

  -- Two stretches of time refill what the whole does.
  stretch : (a b c r : N) → n.add (n.mul (n.sub b a) r) (n.mul (n.sub c b) r) ≡ n.mul (n.sub c a) r
  stretch a b c r =
      sym (laws.mul_add (n.sub b a) (n.sub c b) r)
      ∙ ap (λ s. n.mul s r)
          (sym (laws.add_sub (n.add (n.sub b a) (n.sub c b)) a)
            ∙ ap (λ s. n.sub s a)
                (ap (λ s. n.add s a) (laws.add_comm (n.sub b a) (n.sub c b))
                  ∙ laws.add_assoc (n.sub c b) (n.sub b a) a
                  ∙ ap (n.add (n.sub c b)) (laws.sub_add b a)
                  ∙ laws.sub_add c b))

  pay : (x d : N) → n.add n.one (n.add (n.sub x n.one) d) ≡ n.add x d
  pay x d =
      sym (laws.add_assoc n.one (n.sub x n.one) d)
      ∙ ap (λ s. n.add s d) (laws.add_comm n.one (n.sub x n.one) ∙ laws.sub_add x n.one)

  refill_sign :
      (b : TokenBucket N) (t : N)
      → IsFilled b
      → IsLe b.last t
      → IsLe n.nought (n.mul (n.sub t b.last) b.rate)
  refill_sign b t f h = laws.mul_sign (n.sub t b.last) b.rate (sub_sign b.last t h) f.rate_sign

  allow-IsFilled :
      (b : TokenBucket N) (t : N)
      → IsFilled b
      → IsLe b.last t
      → IsFilled (allow n b t).0 × ((allow n b t).0.last ≡ t) × ((allow n b t).0.rate ≡ b.rate)
  unfolding allow refilled
  allow-IsFilled b t f h =
      let some_refill = refill_sign b t f h in
      let x = refilled n b t in
      let sign : IsLe n.nought x =
        min_of-sign b.capacity (n.add b.tokens (n.mul (n.sub t b.last) b.rate)) f.capacity_sign
          (add_sign b.tokens (n.mul (n.sub t b.last) b.rate) f.tokens_sign some_refill) in
      elim (Bool-cases (n.le n.one x)) [
        | inl has ↦ rw has (
          record {
            capacity_sign = f.capacity_sign;
            rate_sign = f.rate_sign;
            tokens_sign = sub_sign n.one x has;
          },
          refl,
          refl,
        )
        | inr lacks ↦ rw lacks (
          record { capacity_sign = f.capacity_sign; rate_sign = f.rate_sign; tokens_sign = sign },
          refl,
          refl,
        )
      ]

  -- The first request, given what those after it are paid from.
  first_paid :
      (b : TokenBucket N) (t d : N) (times : List N)
      → IsLe
          (amount n (length (accepted (allow n) (allow n b t).0 times)))
          (n.add (allow n b t).0.tokens d)
      → IsLe (amount n (length (accepted (allow n) b (t ∷ times)))) (n.add (refilled n b t) d)
  unfolding accepted allow
  first_paid b t d times ih =
      let x = refilled n b t in
      elim (Bool-cases (n.le n.one x)) [
        | inl has ↦ rw has (
            let rest = rw has at ih in
            ap
              (n.le (
                amount n (
                  suc (
                    length
                      (accepted (allow n) (record b { tokens = n.sub x n.one; last = t }) times)))))
              (sym (pay x d))
            ∙ le_left n.one
                (amount n (
                  length
                    (accepted (allow n) (record b { tokens = n.sub x n.one; last = t }) times)))
                (n.add (n.sub x n.one) d)
            ∙ rest)
        | inr lacks ↦ rw lacks (rw lacks at ih)
      ]

  -- From the time of a request on, its refilled level pays, if its new level pays for those after it.
  from_first :
      (b : TokenBucket N) (t : N) (times : List N)
      → (b' : TokenBucket N) → (allow n b t).0 ≡ b'
      → b'.last ≡ t
      → b'.rate ≡ b.rate
      → IsLe
          (amount n (length (accepted (allow n) b' times)))
          (n.add b'.tokens (n.mul (n.sub (last_time b'.last times) b'.last) b'.rate))
      → IsLe
          (amount n (length (accepted (allow n) b (t ∷ times))))
          (n.add (refilled n b t) (n.mul (n.sub (last_time t times) t) b.rate))
  from_first b t times b' e at same ih =
      let kept = IsLe (amount n (length (accepted (allow n) b' times))) in
      let dated =
        subst (λ u. kept (n.add b'.tokens (n.mul (n.sub (last_time u times) u) b'.rate))) at ih in
      let rated =
        subst (λ r. kept (n.add b'.tokens (n.mul (n.sub (last_time t times) t) r))) same dated in
      let d = n.mul (n.sub (last_time t times) t) b.rate in
      first_paid b t d times (
        subst
          (λ (c : TokenBucket N).
            IsLe (amount n (length (accepted (allow n) c times))) (n.add c.tokens d))
          (sym e) rated)

  paid_until :
      (b : TokenBucket N) (times : List N)
      → IsFilled b
      → AreAscending n b.last times
      → IsLe
          (amount n (length (accepted (allow n) b times)))
          (n.add b.tokens (n.mul (n.sub (last_time b.last times) b.last) b.rate))
  paid_until b [] f h =
      unfold accepted in
      add_sign b.tokens (n.mul (n.sub b.last b.last) b.rate) f.tokens_sign
        (refill_sign b b.last f (laws.le_refl b.last))
  paid_until b (t ∷ times) f (h, asc) =
      let (f', at, same) = allow-IsFilled b t f h in
      let ih =
        paid_until (allow n b t).0 times f' (subst (λ u. AreAscending n u times) (sym at) asc) in
      let first = from_first b t times (allow n b t).0 refl at same ih in
      let d = n.mul (n.sub t b.last) b.rate in
      let e = n.mul (n.sub (last_time t times) t) b.rate in
      let whole : n.add (n.add b.tokens d) e
          ≡ n.add b.tokens (n.mul (n.sub (last_time t times) b.last) b.rate) =
        laws.add_assoc b.tokens d e
        ∙ ap (n.add b.tokens) (stretch b.last t (last_time t times) b.rate) in
      laws.le_trans _ (n.add (refilled n b t) e) _ first (
        ap (n.le (n.add (refilled n b t) e)) (sym whole)
        ∙ laws.le_add (refilled n b t) (n.add b.tokens d) e
        ∙ (unfold refilled in (min_of-le b.capacity (n.add b.tokens d)).1))

  -- Computed with exact numbers, from any token bucket whose capacity, rate and tokens are not negative, over request times that never fall and begin no earlier than the bucket's last one: the accepted requests are at most the capacity and what the rate refills from the first of the requests to the last, however long the bucket was left alone before.
  pub token_bucket_limit :
      (b : TokenBucket N) (t : N) (times : List N)
      → IsFilled b
      → AreAscending n b.last (t ∷ times)
      → n.le
          (amount n (length (accepted (allow n) b (t ∷ times))))
          (n.add b.capacity (n.mul (n.sub (last_time t times) t) b.rate))
        ≡ true
  token_bucket_limit b t times f (h, asc) =
      let (f', at, same) = allow-IsFilled b t f h in
      let later =
        paid_until (allow n b t).0 times f' (subst (λ u. AreAscending n u times) (sym at) asc) in
      let first = from_first b t times (allow n b t).0 refl at same later in
      let e = n.mul (n.sub (last_time t times) t) b.rate in
      laws.le_trans _ (n.add (refilled n b t) e) _ first (
        laws.le_add (refilled n b t) b.capacity e
        ∙ (unfold refilled in
            (min_of-le b.capacity (n.add b.tokens (n.mul (n.sub t b.last) b.rate))).0))
