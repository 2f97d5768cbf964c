-- ===== src/Messaging/Keys.antt =====
-- Where the records of a key stand in the log.
use learn_system_design.Prelude.{
  append-nil, append_assoc, ℕ, zero, suc, ◌%◌, ◌<◌, ◌≡◌, refl, Bool, true, false, List, [], ◌∷◌,
  ◌++◌, length, get_or, replicate, ◌==◌, arith, Bool-cases, ap, sym, ◌∙◌, inl, inr, ite, if_neg,
  length-replicate,
}
use learn_system_design.Messaging.Log.{
  Topic, append_at, new_topic, poll, seek, Action, produce_action, poll_action, seek_action,
  produce_to, produce, perform, perform_all,
}
use learn_system_design.Messaging.Reading.{partition_at}
use learn_system_design.Messaging.Consumed.{poll_keeps}

module _ {A : Type 0} where
  length-append_at :
      (i : ℕ) (r : A) (logs : List (List A)) → length (append_at i r logs) ≡ length logs
  unfolding append_at
  length-append_at i r [] = refl
  length-append_at zero r (log ∷ logs) = refl
  length-append_at (suc i) r (log ∷ logs) = ap suc (length-append_at i r logs)

  get_or-append_at_self :
      (i q : ℕ) (r : A) (logs : List (List A))
      → (i == q) ≡ true
      → i < length logs
      → get_or (append_at i r logs) q [] ≡ get_or logs q [] ++ r ∷ []
  unfolding append_at
  get_or-append_at_self i q r [] e h = ground arith
  get_or-append_at_self zero zero r (log ∷ logs) e h = refl
  get_or-append_at_self zero (suc q) r (log ∷ logs) e h = ground arith
  get_or-append_at_self (suc i) zero r (log ∷ logs) e h = ground arith
  get_or-append_at_self (suc i) (suc q) r (log ∷ logs) e h =
      get_or-append_at_self i q r logs (ground arith) (omega arith)

  get_or-append_at_ne :
      (i q : ℕ) (r : A) (logs : List (List A))
      → (i == q) ≡ false
      → get_or (append_at i r logs) q [] ≡ get_or logs q []
  unfolding append_at
  get_or-append_at_ne i q r [] h = refl
  get_or-append_at_ne zero zero r (log ∷ logs) h = ground arith
  get_or-append_at_ne zero (suc q) r (log ∷ logs) h = refl
  get_or-append_at_ne (suc i) zero r (log ∷ logs) h = refl
  get_or-append_at_ne (suc i) (suc q) r (log ∷ logs) h =
      get_or-append_at_ne i q r logs (ground arith)

  abbrev pub only_if : Bool → List A → List A
  only_if true xs = xs
  only_if false xs = []

  only_if-append : (b : Bool) (xs ys : List A) → only_if b xs ++ only_if b ys ≡ only_if b (xs ++ ys)
  only_if-append true xs ys = refl
  only_if-append false xs ys = refl

  only_if_nil : (b : Bool) → only_if b ([]) ≡ []
  only_if_nil true = refl
  only_if_nil false = refl

module _ {K V : Type 0} (dec : Discrete K) where
  -- A record's value, if it has the key.
  abbrev pub value_of : K → K → V → List V
  value_of k j v = ite (dec j k) (v ∷ []) []

  -- The values under a key, in order.
  abbrev pub keyed : K → List (K × V) → List V
  keyed k [] = []
  keyed k ((j, v) ∷ log) = value_of k j v ++ keyed k log

  -- The values that the actions produce under a key, in order.
  abbrev pub sent : K → List (Action K V) → List V
  sent k [] = []
  sent k (produce_action j v ∷ actions) = value_of k j v ++ sent k actions
  sent k (poll_action group p m ∷ actions) = sent k actions
  sent k (seek_action group p offset ∷ actions) = sent k actions

  keyed-append :
      (k : K) (log : List (K × V)) (j : K) (v : V)
      → keyed k (log ++ (j, v) ∷ []) ≡ keyed k log ++ value_of k j v
  keyed-append k [] j v = append-nil (value_of k j v)
  keyed-append k ((i, w) ∷ log) j v =
      ap (λ (l : List V). value_of k i w ++ l) (keyed-append k log j v)
      ∙ sym (append_assoc (value_of k i w) (keyed k log) (value_of k j v))

  module _ (hash : K → ℕ) (n : ℕ) where
    keyed-produce_to :
        (k j : K) (v : V) (t : Topic (K × V)) (q : ℕ)
        → length t.partitions ≡ suc n
        → keyed k (partition_at q (produce_to hash (suc n) j v t).0)
          ≡ keyed k (partition_at q t) ++ only_if (hash k % suc n == q) (value_of k j v)
    unfolding produce_to
    keyed-produce_to k j v t q l =
        let i = hash j % suc n in
        let old = get_or t.partitions q [] in
        elim (dec j k) [
          | yes same ↦
              (let home : hash j % suc n ≡ hash k % suc n = ap (λ x. hash x % suc n) same in
                elim (Bool-cases (i == q)) [
                  | inl e ↦
                      (let c : (hash k % suc n == q) ≡ true = ap (λ x. x == q) (sym home) ∙ e in
                        let there : get_or (append_at i (j, v) t.partitions) q []
                            ≡ old ++ (j, v) ∷ [] =
                          get_or-append_at_self i q (j, v) t.partitions e (omega (arith, l)) in
                        rw c (ap (keyed k) there ∙ keyed-append k old j v))
                  | inr e ↦
                      (let c : (hash k % suc n == q) ≡ false = ap (λ x. x == q) (sym home) ∙ e in
                        rw c (
                          ap (keyed k) (get_or-append_at_ne i q (j, v) t.partitions e)
                          ∙ sym (append-nil (keyed k old))))
                ])
          | no other ↦
              (let gone : value_of k j v ≡ [] = if_neg (dec j k) other (v ∷ []) [] in
                let right : keyed k old ++ only_if (hash k % suc n == q) (value_of k j v)
                    ≡ keyed k old =
                  ap (λ (l : List V). keyed k old ++ only_if (hash k % suc n == q) l) gone
                  ∙ ap (λ (l : List V). keyed k old ++ l) (only_if_nil (hash k % suc n == q))
                  ∙ append-nil (keyed k old) in
                elim (Bool-cases (i == q)) [
                  | inl e ↦
                      (let there : get_or (append_at i (j, v) t.partitions) q []
                            ≡ old ++ (j, v) ∷ [] =
                          get_or-append_at_self i q (j, v) t.partitions e (omega (arith, l)) in
                        ap (keyed k) there
                        ∙ keyed-append k old j v
                        ∙ ap (λ (l : List V). keyed k old ++ l) gone
                        ∙ append-nil (keyed k old)
                        ∙ sym right)
                  | inr e ↦ ap (keyed k) (get_or-append_at_ne i q (j, v) t.partitions e) ∙ sym right
                ])
        ]

    length-produce_to :
        (j : K) (v : V) (t : Topic (K × V))
        → length t.partitions ≡ suc n
        → length (produce_to hash (suc n) j v t).0.partitions ≡ suc n
    unfolding produce_to
    length-produce_to j v t l = length-append_at (hash j % suc n) (j, v) t.partitions ∙ l

    keyed-produce :
        (k j : K) (v : V) (t : Topic (K × V)) (q : ℕ)
        → length t.partitions ≡ suc n
        → (length (produce hash j v t).0.partitions ≡ suc n)
          × (keyed k (partition_at q (produce hash j v t).0)
              ≡ keyed k (partition_at q t) ++ only_if (hash k % suc n == q) (value_of k j v))
    unfolding produce
    keyed-produce k j v t q l = rw l (length-produce_to j v t l, keyed-produce_to k j v t q l)

    keyed-perform_all :
        (actions : List (Action K V)) (k : K) (t : Topic (K × V)) (q : ℕ)
        → length t.partitions ≡ suc n
        → keyed k (partition_at q (perform_all hash actions t))
          ≡ keyed k (partition_at q t) ++ only_if (hash k % suc n == q) (sent k actions)
    unfolding perform_all perform seek
    keyed-perform_all [] k t q l =
        sym (append-nil (keyed k (partition_at q t)))
        ∙ ap (λ (x : List V). keyed k (partition_at q t) ++ x)
            (sym (only_if_nil (hash k % suc n == q)))
    keyed-perform_all (produce_action j v ∷ actions) k t q l =
        let old = keyed k (partition_at q t) in
        let c = hash k % suc n == q in
        let (l', e) = keyed-produce k j v t q l in
        keyed-perform_all actions k (produce hash j v t).0 q l'
        ∙ ap (λ (x : List V). x ++ only_if c (sent k actions)) e
        ∙ append_assoc old (only_if c (value_of k j v)) (only_if c (sent k actions))
        ∙ ap (λ (x : List V). old ++ x) (only_if-append c (value_of k j v) (sent k actions))
    keyed-perform_all (poll_action group p m ∷ actions) k t q l =
        let same = poll_keeps hash group p m t in
        keyed-perform_all actions k (poll group p m t).0 q (ap length same ∙ l)
        ∙ ap
            (λ (x : List (List (K × V))).
              keyed k (get_or x q []) ++ only_if (hash k % suc n == q) (sent k actions))
            same
    keyed-perform_all (seek_action group p offset ∷ actions) k t q l =
        keyed-perform_all actions k (seek group p offset t) q l

    nothing_at : (m q : ℕ) → get_or (replicate {A = List (K × V)} m []) q [] ≡ []
    nothing_at zero q = refl
    nothing_at (suc m) zero = refl
    nothing_at (suc m) (suc q) = nothing_at m q

    -- In a topic with at least one partition, whatever is produced, polled and sought: the values under a
    -- key in the partition that the key's hash names are the values produced under the key, in that order,
    -- and no other partition has a value under the key.
    pub keyed-sent :
        (actions : List (Action K V)) (k : K) (q : ℕ)
        → keyed k (partition_at q (perform_all hash actions (new_topic (suc n))))
          ≡ only_if (hash k % suc n == q) (sent k actions)
    keyed-sent actions k q =
        let start : partition_at q (new_topic {R = K × V} (suc n)) ≡ [] =
          unfold new_topic in nothing_at (suc n) q in
        keyed-perform_all actions k (new_topic (suc n)) q
          (unfold new_topic in length-replicate (suc n) [])
        ∙ ap (λ (x : List (K × V)). keyed k x ++ only_if (hash k % suc n == q) (sent k actions))
            start
