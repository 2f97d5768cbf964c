-- ===== src/RateLimit/Buckets.antt =====
-- That the two buckets decide alike.
use learn_system_design.Prelude.{
  ◌≡◌, Bool, true, false, not, if◌then◌else◌, List, [], ◌∷◌, refl, ap, sym, ◌∙◌, Bool-cases, inl,
  inr,
}
use learn_system_design.RateLimit.Runs.{accepted}
use learn_system_design.RateLimit.Numbers.{Numbers, min_of, max_of, IsExact}
use learn_system_design.RateLimit.TokenBucket
use learn_system_design.RateLimit.TokenBucket.{TokenBucket}
use learn_system_design.RateLimit.LeakyBucket
use learn_system_design.RateLimit.LeakyBucket.{LeakyBucket}

module _ {N : Type 0} (n : Numbers N) (laws : IsExact n) where
  -- A token bucket and a leaky bucket with the same numbers, the one full where the other is empty.
  record Mirrors (b : TokenBucket N) (l : LeakyBucket N) : Type 0 where
    size : b.capacity ≡ l.size
    rate : b.rate ≡ l.rate
    last : b.last ≡ l.last
    level : n.add b.tokens l.water ≡ b.capacity

  nought_add : (a : N) → n.add n.nought a ≡ a
  nought_add a = laws.add_comm n.nought a ∙ laws.add_nought a

  -- What the one bucket gains the other loses.
  moved : (x y d : N) → n.add (n.add x d) (n.sub y d) ≡ n.add x y
  moved x y d =
      laws.add_assoc x d (n.sub y d) ∙ ap (n.add x) (laws.add_comm d (n.sub y d) ∙ laws.sub_add y d)

  lt_sum : (x y : N) → n.lt x (n.add x y) ≡ n.lt n.nought y
  lt_sum x y =
      laws.lt_le x (n.add x y)
      ∙ ap not (
          ap (λ s. n.le s x) (laws.add_comm x y)
          ∙ ap (n.le (n.add y x)) (sym (nought_add x))
          ∙ laws.le_add y n.nought x)
      ∙ sym (laws.lt_le n.nought y)

  capped : (x y cap : N) → n.add x y ≡ cap → n.add (min_of n cap x) (max_of n n.nought y) ≡ cap
  capped x y cap h =
      ap (λ t. n.add (if t then x else cap) (max_of n n.nought y))
        (ap (n.lt x) (sym h) ∙ lt_sum x y)
      ∙ both (n.lt n.nought y)
    where
      both : (t : Bool) → n.add (if t then x else cap) (if t then y else n.nought) ≡ cap
      both true = h
      both false = laws.add_nought cap

  -- The one has a token where the other has room.
  room : (x y cap : N) → n.add x y ≡ cap → n.le (n.add y n.one) cap ≡ n.le n.one x
  room x y cap h =
      ap (n.le (n.add y n.one)) (sym h)
      ∙ ap (λ s. n.le s (n.add x y)) (laws.add_comm y n.one)
      ∙ laws.le_add n.one x y

  paid : (x y : N) → n.add (n.sub x n.one) (n.add y n.one) ≡ n.add x y
  paid x y =
      ap (n.add (n.sub x n.one)) (laws.add_comm y n.one)
      ∙ sym (laws.add_assoc (n.sub x n.one) n.one y)
      ∙ ap (λ s. n.add s y) (laws.sub_add x n.one)

  refilled-drained :
      (b : TokenBucket N) (l : LeakyBucket N) (t : N)
      → Mirrors b l
      → n.add (TokenBucket.refilled n b t) (LeakyBucket.drained n l t) ≡ b.capacity
  unfolding TokenBucket.refilled LeakyBucket.drained
  refilled-drained b l t m =
      let d = n.mul (n.sub t b.last) b.rate in
      let same : n.mul (n.sub t l.last) l.rate ≡ d =
        ap (λ r. n.mul (n.sub t l.last) r) (sym m.rate)
        ∙ ap (λ u. n.mul (n.sub t u) b.rate) (sym m.last) in
      ap (λ e. n.add (min_of n b.capacity (n.add b.tokens d)) (max_of n n.nought (n.sub l.water e)))
        same
      ∙ capped (n.add b.tokens d) (n.sub l.water d) b.capacity (moved b.tokens l.water d ∙ m.level)

  allow-Mirrors :
      (b : TokenBucket N) (l : LeakyBucket N) (t : N)
      → Mirrors b l
      → ((TokenBucket.allow n b t).1 ≡ (LeakyBucket.allow n l t).1)
        × Mirrors (TokenBucket.allow n b t).0 (LeakyBucket.allow n l t).0
  unfolding TokenBucket.allow LeakyBucket.allow
  allow-Mirrors b l t m =
      let x = TokenBucket.refilled n b t in
      let y = LeakyBucket.drained n l t in
      let level = refilled-drained b l t m in
      let same : n.le (n.add y n.one) l.size ≡ n.le n.one x =
        ap (n.le (n.add y n.one)) (sym m.size) ∙ room x y b.capacity level in
      elim (Bool-cases (n.le n.one x)) [
        | inl has ↦
            rw (same, has)
              (refl, record { size = m.size; rate = m.rate; last = refl; level = paid x y ∙ level })
        | inr lacks ↦
            rw (same, lacks)
              (refl, record { size = m.size; rate = m.rate; last = refl; level = level })
      ]

  accepted-Mirrors :
      (b : TokenBucket N) (l : LeakyBucket N) (times : List N)
      → Mirrors b l
      → accepted (TokenBucket.allow n) b times ≡ accepted (LeakyBucket.allow n) l times
  unfolding accepted
  accepted-Mirrors b l [] m = refl
  accepted-Mirrors b l (t ∷ times) m =
      let (same, m') = allow-Mirrors b l t m in
      rw (same, accepted-Mirrors (TokenBucket.allow n b t).0 (LeakyBucket.allow n l t).0 times m')
        refl

  -- Computed with exact numbers, a fresh token bucket and a fresh leaky bucket of the same size and rate accept the same requests, at any times, falling ones too.
  pub token_bucket-leaky_bucket :
      (size rate : N) (times : List N)
      → accepted (TokenBucket.allow n) (TokenBucket.init n size rate) times
        ≡ accepted (LeakyBucket.allow n) (LeakyBucket.init n size rate) times
  unfolding TokenBucket.init LeakyBucket.init
  token_bucket-leaky_bucket size rate times =
      accepted-Mirrors (TokenBucket.init n size rate) (LeakyBucket.init n size rate) times
        (record { size = refl; rate = refl; last = refl; level = laws.add_nought size })
