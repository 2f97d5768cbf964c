-- ===== src/Quorum/Reads.antt =====
-- A read after an acknowledged write, whatever happens between.
use learn_system_design.Prelude.{
  ℕ, zero, suc, ◌+◌, ◌≤◌, ◌<◌, ◌≡◌, refl, Bool, true, false, Option, some, List, [], ◌∷◌, length,
  ltb, ◌==◌, take, arith, Bool-cases, inl, inr, ◌⊎◌, ap, sym, ◌∙◌, subst, replicate,
}
use learn_system_design.Quorum.{
  Answer, Replica, QuorumStore, new_store, or_none, stored, targets_of, only_up, not_enough, value,
  put_value, stored_at, newest_from, repair_one, repair, get_from, get_value, Action, put_action,
  get_action, up_action, perform, perform_all,
}
use learn_system_design.Prelude.Dict.{get}
use learn_system_design.Prelude.Distinct.{is_in, overlap, take-AreDistinct}
use learn_system_design.Quorum.Moves.{
  Always, NoPut, write_all-Moves, newest_from_keeps, get_value-Moves, set_up-Moves,
  perform_all-Moves,
}
use learn_system_design.Quorum.Latest.{IsSample, only_up-IsSample, acked-write_all, newest_le}

module _ {K : Type 0} (dec : Discrete K) where
  no_answer :
      (V : Type 0) (k : K) (n j : ℕ)
      → (stored_at {V = V} dec k (replicate n (record { store = []; up = true })) j).0 ≤ 0
  unfolding stored_at stored or_none
  no_answer V k zero j = omega arith
  no_answer V k (suc n) zero = unfold get in omega arith
  no_answer V k (suc n) (suc j) = no_answer V k n j

module _ {K V : Type 0} (dec : Discrete K) where
  -- The store has these sizes.
  record Sized (n r w : ℕ) (s : QuorumStore K V) : Type 0 where
    n_same : s.n ≡ n
    r_same : s.r ≡ r
    w_same : s.w ≡ w

  -- Only the replicas and the count of repairs differ.
  record Alike (s t : QuorumStore K V) : Type 0 where
    n_same : t.n ≡ s.n
    r_same : t.r ≡ s.r
    w_same : t.w ≡ s.w
    version_same : t.version ≡ s.version

  repair_one-Alike :
      (key : K) (newest : Answer V) (old : List (Replica K V)) (i : ℕ) (s t : QuorumStore K V)
      → Alike s t
      → Alike s (repair_one dec key newest old i t)
  unfolding repair_one
  repair_one-Alike key newest old i s t a =
      elim (Bool-cases (ltb (stored_at dec key old i).0 newest.0)) [
        | inl e ↦ rw e (record {
          n_same = a.n_same;
          r_same = a.r_same;
          w_same = a.w_same;
          version_same = a.version_same;
        })
        | inr e ↦ rw e a
      ]

  repair-Alike :
      (key : K) (newest : Answer V) (old : List (Replica K V)) (responders : List ℕ)
      (s t : QuorumStore K V)
      → Alike s t
      → Alike s (repair dec key newest old responders t)
  unfolding repair
  repair-Alike key newest old [] s t a = a
  repair-Alike key newest old (i ∷ responders) s t a =
      repair-Alike key newest old responders s (repair_one dec key newest old i t)
        (repair_one-Alike key newest old i s t a)

  still : (s : QuorumStore K V) → Alike s s
  still s = record { n_same = refl; r_same = refl; w_same = refl; version_same = refl }

  get_value-Alike :
      (key : K) (read_repair : Bool) (sample : List ℕ) (s : QuorumStore K V)
      → Alike s (get_value dec key read_repair sample s).0
  unfolding get_value
  get_value-Alike key read_repair sample s =
      let responders = take s.r (only_up s.replicas sample) in
      elim (Bool-cases (ltb (length responders) s.r)) [
        | inl e ↦ rw e (still s)
        | inr e ↦ rw e (from responders read_repair)
      ]
    where
      from :
          (responders : List ℕ) (read_repair : Bool)
          → Alike s (get_from dec key read_repair responders s).0
      from [] b = unfold get_from in still s
      from (i ∷ responders) false = unfold get_from in still s
      from (i ∷ responders) true =
          unfold get_from in repair-Alike key _ s.replicas (i ∷ responders) s s (still s)

  perform-Sized :
      (n r w : ℕ) (a : Action K V) (s : QuorumStore K V)
      → Sized n r w s
      → Sized n r w (perform dec a s)
  unfolding perform put_value
  perform-Sized n r w (put_action key v reach) s z = record {
    n_same = z.n_same;
    r_same = z.r_same;
    w_same = z.w_same;
  }
  perform-Sized n r w (get_action key b sample) s z =
      let a = get_value-Alike key b sample s in
      record {
        n_same = a.n_same ∙ z.n_same;
        r_same = a.r_same ∙ z.r_same;
        w_same = a.w_same ∙ z.w_same;
      }
  perform-Sized n r w (up_action i up) s z = record {
    n_same = z.n_same;
    r_same = z.r_same;
    w_same = z.w_same;
  }

  perform_all-Sized :
      (n r w : ℕ) (actions : List (Action K V)) (s : QuorumStore K V)
      → Sized n r w s
      → Sized n r w (perform_all dec actions s)
  unfolding perform_all
  perform_all-Sized n r w [] s z = z
  perform_all-Sized n r w (a ∷ actions) s z =
      perform_all-Sized n r w actions (perform dec a s) (perform-Sized n r w a s z)

  -- No answer has a version above the store's.
  abbrev IsBounded : K → QuorumStore K V → Type 0
  IsBounded k s = Always dec k (λ a. a.0 ≤ s.version) s.replicas

  perform-IsBounded :
      (k : K) (a : Action K V) (s : QuorumStore K V) → IsBounded k s → IsBounded k (perform dec a s)
  unfolding perform put_value
  perform-IsBounded k (put_action key v reach) s b =
      (write_all-Moves dec k (λ x. x.0 ≤ s.version + 1) (targets_of reach s.n) key
          (s.version + 1, some v) s.replicas (λ e. omega arith)).keeps
        (λ j. omega (arith, b j))
  perform-IsBounded k (get_action key r sample) s b =
      let a = get_value-Alike key r sample s in
      λ j. omega (
        arith,
        (get_value-Moves dec k (λ x. x.0 ≤ s.version) key r sample s b).keeps b j,
        a.version_same,
      )
  perform-IsBounded k (up_action i up) s b =
      (set_up-Moves dec k (λ x. x.0 ≤ s.version) i up s.replicas).keeps b

  perform_all-IsBounded :
      (k : K) (actions : List (Action K V)) (s : QuorumStore K V)
      → IsBounded k s
      → IsBounded k (perform_all dec actions s)
  unfolding perform_all
  perform_all-IsBounded k [] s b = b
  perform_all-IsBounded k (a ∷ actions) s b =
      perform_all-IsBounded k actions (perform dec a s) (perform-IsBounded k a s b)

  module _ (k : K) (v : V) (version : ℕ) where
    -- An answer is older than the write, or it is the write.
    abbrev Fits : Answer V → Type 0
    Fits a = (a.0 ≤ version) × (a.0 ≡ version → a.1 ≡ some v)

    get_from_latest :
        (n : ℕ) (hold responders : List ℕ) (read_repair : Bool) (s : QuorumStore K V)
        → Always dec k Fits s.replicas
        → ((i : ℕ) → is_in i hold ≡ true → version ≤ (stored_at dec k s.replicas i).0)
        → IsSample n hold
        → IsSample n responders
        → n < length hold + length responders
        → (get_from dec k read_repair responders s).1 ≡ value (some v)
    unfolding get_from
    get_from_latest n hold [] read_repair s fits held a b h =
        let (i, p, q) = overlap n hold [] a.distinct b.distinct a.below b.below h in ground arith
    get_from_latest n hold (r ∷ responders) read_repair s fits held a b h =
        let (i, p, q) = overlap n hold (r ∷ responders) a.distinct b.distinct a.below b.below h in
        let (first, all) = newest_le dec k s.replicas (stored_at dec k s.replicas r) responders in
        let newest = newest_from dec k s.replicas (stored_at dec k s.replicas r) responders in
        let (le, eq) =
          newest_from_keeps dec k Fits s.replicas (stored_at dec k s.replicas r) responders fits
            (fits r) in
        let reached : version ≤ newest.0 = elim (Bool-cases (i == r)) [
          | inl f ↦
              (let here : i ≡ r = ground arith in
                let old = subst (λ j. version ≤ (stored_at dec k s.replicas j).0) here (held i p) in
                omega (arith, old, first))
          | inr f ↦ (let old = all i (ground (arith, q, f)) in omega (arith, held i p, old))
        ] in
        ap value (eq (omega (arith, le, reached)))

  -- In a store with n replicas and `r + w > n`, after any puts, gets and replicas going down and up: if a put
  -- is acknowledged, and only other keys are put after it, while replicas go down and up and are repaired at
  -- will, then a get of the key returns the value that was put, or that it has not enough replicas.
  pub get_value-latest :
      (n r w : ℕ) (before after : List (Action K V)) (k : K) (v : V) (reach : Option (List ℕ))
      (read_repair : Bool) (sample : List ℕ)
      → n < r + w
      → IsSample n (targets_of reach n)
      → IsSample n sample
      → (put_value dec k v reach (perform_all dec before (new_store n r w))).1 ≡ true
      → NoPut k after
      → ((get_value dec k read_repair sample (
            perform_all dec after
              (put_value dec k v reach (perform_all dec before (new_store n r w))).0)).1
          ≡ value (some v))
        ⊎ ((get_value dec k read_repair sample (
              perform_all dec after
                (put_value dec k v reach (perform_all dec before (new_store n r w))).0)).1
            ≡ not_enough)
  unfolding put_value get_value perform
  get_value-latest n r w before after k v reach read_repair sample more target sampled acked clear =
      let s0 = perform_all dec before (new_store n r w) in
      let z0 : Sized n r w s0 =
        perform_all-Sized n r w before (new_store n r w)
          (unfold new_store in record { n_same = refl; r_same = refl; w_same = refl }) in
      let b0 : IsBounded k s0 =
        perform_all-IsBounded k before (new_store n r w)
          (unfold new_store in no_answer dec V k n) in
      let version = s0.version + 1 in
      let s1 = (put_value dec k v reach s0).0 in
      let z1 : Sized n r w s1 = perform-Sized n r w (put_action k v reach) s0 z0 in
      let s2 = perform_all dec after s1 in
      let z2 : Sized n r w s2 = perform_all-Sized n r w after s1 z1 in
      let targets = targets_of reach s0.n in
      let hold = only_up s0.replicas targets in
      let target0 = subst (λ m. IsSample n (targets_of reach m)) (sym z0.n_same) target in
      let holders = only_up-IsSample n s0.replicas targets target0 in
      let (count, held) = acked-write_all dec k targets (version, some v) s0.replicas in
      let enough : w ≤ length hold = ground (arith, acked, count, z0.w_same) in
      let fits1 =
        (write_all-Moves dec k (Fits k v version) targets k (version, some v) s0.replicas
            (λ e. (omega arith, λ f. refl))).keeps
          (λ j. (omega (arith, b0 j), λ e. ground (arith, b0 j))) in
      let m = perform_all-Moves dec k (Fits k v version) after s1 clear fits1 in
      let ups = only_up s2.replicas sample in
      let live = only_up-IsSample n s2.replicas sample sampled in
      let (d, bl) = take-AreDistinct s2.r n ups live.distinct live.below in
      elim (Bool-cases (ltb (length (take s2.r ups)) s2.r)) [
        | inl e ↦ inr (rw e refl)
        | inr e ↦
            (let full : r ≤ length (take s2.r ups) = ground (arith, e, z2.r_same) in
              inl (
                rw e (
                  get_from_latest k v version n hold (take s2.r ups) read_repair s2 (m.keeps fits1)
                    (λ i h. omega (arith, held i h, m.up i)) holders
                    (record { distinct = d; below = bl }) (omega (arith, full, enough, more)))))
      ]
