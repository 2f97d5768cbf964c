-- ===== src/Replication/Lost.antt =====
-- What is lost when the leader of the replicated database fails.
use learn_system_design.Prelude.{
  append-nil, ℕ, suc, ◌≤◌, ◌≡◌, ◌≢◌, refl, true, false, ◌||◌, some, List, [], ◌∷◌, ◌++◌, length,
  ltb, arith, Bool-cases, ap, sym, ◌∙◌, subst, length-append, if_pos, ◌⊎◌, inl, inr,
}
use learn_system_design.Replication.{
  Mode, async, sync, semi, Follower, ReplicatedDb, new_db, better, longest, is_in, missing, promote,
  fail_leader_and_promote,
}
use learn_system_design.Replication.Failover.{
  Op, perform_all, entries_of, IsBehind, IsCaughtUp, All, Kept,
}
use learn_system_design.Replication.Promotion.{run-Follows}

module _ {E : Type 0} where
  better-cases : (best f : Follower E) → (better best f ≡ f) ⊎ (better best f ≡ best)
  unfolding better
  better-cases best f = elim (Bool-cases (ltb (length best.replica.log) (length f.replica.log))) [
    | inl e ↦ inl (rw e refl)
    | inr e ↦ inr (rw e refl)
  ]

  -- The follower's log is at most this long.
  abbrev pub IsWithin : ℕ → Follower E → Type 0
  IsWithin n f = length f.replica.log ≤ n

  better_le :
      (best f : Follower E)
      → IsWithin (length (better best f).replica.log) best
        × IsWithin (length (better best f).replica.log) f
  unfolding better
  better_le best f = elim (Bool-cases (ltb (length best.replica.log) (length f.replica.log))) [
    | inl e ↦ rw e (ground arith, omega arith)
    | inr e ↦ rw e (omega arith, ground arith)
  ]

  longest-All :
      (P : Follower E → Type 0) (fs : List (Follower E)) (best : Follower E)
      → P best
      → All P fs
      → P (longest best fs)
  unfolding longest
  longest-All P [] best p a = p
  longest-All P (f ∷ fs) best p (q, a) =
      longest-All P fs (better best f)
        (elim (better-cases best f) [ inl e ↦ subst P (sym e) q | inr e ↦ subst P (sym e) p ]) a

  longest_le :
      (fs : List (Follower E)) (best : Follower E)
      → IsWithin (length (longest best fs).replica.log) best
  unfolding longest
  longest_le [] best = omega arith
  longest_le (f ∷ fs) best =
      let h = longest_le fs (better best f) in let (b, _) = better_le best f in omega (arith, h, b)

  longest-IsWithin :
      (fs : List (Follower E)) (best : Follower E)
      → All (IsWithin (length (longest best fs).replica.log)) fs
  unfolding longest
  longest-IsWithin [] best = tt
  longest-IsWithin (f ∷ fs) best =
      let h = longest_le fs (better best f) in
      let (_, b) = better_le best f in (omega (arith, h, b), longest-IsWithin fs (better best f))

  module _ (dec : Discrete E) where
    -- Every entry of the first list is in the second.
    abbrev pub AllIn : List E → List E → Type 0
    AllIn [] ys = Unit
    AllIn (x ∷ xs) ys = (is_in dec x ys ≡ true) × AllIn xs ys

    is_in-append :
        (x : E) (xs ys : List E) → is_in dec x (xs ++ ys) ≡ (is_in dec x xs || is_in dec x ys)
    unfolding is_in
    is_in-append x [] ys = refl
    is_in-append x (y ∷ xs) ys = ground (arith, is_in-append x xs ys)

    is_in_self : (x : E) (xs : List E) → is_in dec x (x ∷ xs) ≡ true
    unfolding is_in
    is_in_self x xs = if_pos (dec x x) refl true (is_in dec x xs)

    still_in : (x : E) (xs ys : List E) → AllIn xs ys → AllIn xs (x ∷ ys)
    unfolding is_in
    still_in x [] ys a = tt
    still_in x (y ∷ xs) ys (i, a) = (rw i (ground arith), still_in x xs ys a)

    each_present : (xs : List E) → AllIn xs xs
    each_present [] = tt
    each_present (x ∷ xs) = (is_in_self x xs, still_in x xs xs (each_present xs))

    missing-AllIn :
        (entries log rest : List E)
        → AllIn entries (log ++ rest)
        → AllIn (missing dec entries log) rest
    unfolding missing
    missing-AllIn [] log rest a = tt
    missing-AllIn (e ∷ entries) log rest (i, a) = elim (Bool-cases (is_in dec e log)) [
      | inl h ↦ rw h (missing-AllIn entries log rest a)
      | inr h ↦
          (let s = is_in-append e log rest in
            rw h (ground (arith, h, s, i), missing-AllIn entries log rest a))
    ]

    nothing_in_nothing : (xs : List E) → AllIn xs [] → xs ≡ []
    unfolding is_in
    nothing_in_nothing [] a = refl
    nothing_in_nothing (x ∷ xs) (i, a) = ground arith

    IsCaughtUp-IsBehind :
        (log : List E) (fs : List (Follower E)) → All (IsCaughtUp log) fs → All (IsBehind log) fs
    IsCaughtUp-IsBehind log [] a = tt
    IsCaughtUp-IsBehind log (f ∷ fs) ((h, p), a) = (
      ap (λ (l : List E). f.replica.log ++ l) p ∙ append-nil f.replica.log ∙ h,
      IsCaughtUp-IsBehind log fs a,
    )

    Kept-IsBehind :
        (mode : Mode) (log : List E) (fs : List (Follower E))
        → Kept mode log fs
        → All (IsBehind log) fs
    Kept-IsBehind async log fs a = a
    Kept-IsBehind sync log fs a = IsCaughtUp-IsBehind log fs a
    Kept-IsBehind semi log [] a = tt
    Kept-IsBehind semi log (f ∷ fs) ((h, p), a) =
        (ap (λ (l : List E). f.replica.log ++ l) p ∙ append-nil f.replica.log ∙ h, a)

    promote-result :
        (fs : List (Follower E)) (n : ℕ) (log : List E) (db : ReplicatedDb E)
        → length fs ≡ suc n
        → All (IsBehind log) fs
        → db.leader.log ≡ log
        → (f : Follower E) × (lost : List E) × ((promote dec fs db).1 ≡ some (f, lost))
          × (f.replica.log ++ f.pending ≡ log)
          × All (IsWithin (length f.replica.log)) fs
          × AllIn lost f.pending
    unfolding promote
    promote-result [] n log db l a h = ground (arith, l)
    promote-result (f ∷ fs) n log db l (b, a) h =
        let best = longest f fs in
        let whole = longest-All (IsBehind log) fs f b a in
        (
          best,
          missing dec db.leader.log best.replica.log,
          refl,
          whole,
          (longest_le fs f, longest-IsWithin fs f),
          missing-AllIn db.leader.log best.replica.log best.pending
              (subst (AllIn db.leader.log) (h ∙ sym whole) (each_present db.leader.log)),
        )

    -- With at least one follower, after any writes and background copying, failover promotes a follower
    -- whose log and backlog are together all that was written, in order; no follower's log is longer, and
    -- the entries counted as lost are all in that backlog.
    pub lost-AllIn :
        (uniform : ℕ → ℕ) (randint : ℕ → ℕ → ℕ → ℕ) (mode : Mode) (n : ℕ) (ops : List (Op E))
        → (f : Follower E) × (lost : List E) × ((fail_leader_and_promote dec
              (perform_all uniform randint ops (new_db mode (suc n)))).1
            ≡ some (f, lost))
          × (f.replica.log ++ f.pending ≡ entries_of ops)
          × All
              (IsWithin (length f.replica.log))
              (perform_all uniform randint ops (new_db mode (suc n))).followers
          × AllIn lost f.pending
    lost-AllIn uniform randint mode n ops =
        let db = perform_all uniform randint ops (new_db mode (suc n)) in
        let s = run-Follows uniform randint mode n ops in
        unfold fail_leader_and_promote in
        promote-result db.followers n (entries_of ops)
          (record db { leader = record db.leader { alive = false } }) s.count
          (Kept-IsBehind mode (entries_of ops) db.followers s.kept) s.leader

    log_le :
        (mode : Mode) (n k : ℕ) (log : List E) (fs : List (Follower E))
        → mode ≢ async
        → length fs ≡ suc n
        → Kept mode log fs
        → All (IsWithin k) fs
        → length log ≤ k
    log_le mode n k log [] m l kept a = ground (arith, l)
    log_le async n k log (f ∷ fs) m l kept a = absurd (m refl)
    log_le sync n k log (f ∷ fs) m l ((h, p), kept) (w, a) =
        subst (λ (x : List E). length x ≤ k) h w
    log_le semi n k log (f ∷ fs) m l ((h, p), kept) (w, a) =
        subst (λ (x : List E). length x ≤ k) h w

    nothing_pending : (xs ys zs : List E) → xs ++ ys ≡ zs → length zs ≤ length xs → ys ≡ []
    nothing_pending xs [] zs e h = refl
    nothing_pending xs (y ∷ ys) zs e h =
        absurd (omega (arith, ap length e, length-append xs (y ∷ ys), h))

    -- When writes wait for followers, in sync or semi mode with at least one follower, failover after any
    -- writes and background copying promotes a follower that has applied every write, in order, and the
    -- list of lost writes is empty.
    pub nothing_lost :
        (uniform : ℕ → ℕ) (randint : ℕ → ℕ → ℕ → ℕ) (mode : Mode) (n : ℕ) (ops : List (Op E))
        → mode ≢ async
        → (f : Follower E) × ((fail_leader_and_promote dec
              (perform_all uniform randint ops (new_db mode (suc n)))).1
            ≡ some (f, []))
          × (f.replica.log ≡ entries_of ops)
    nothing_lost uniform randint mode n ops m =
        let s = run-Follows uniform randint mode n ops in
        let (f, lost, e, whole, within, l) = lost-AllIn uniform randint mode n ops in
        let short =
          log_le mode n (length f.replica.log) (entries_of ops) _ m s.count s.kept within in
        let none_left = nothing_pending f.replica.log f.pending (entries_of ops) whole short in
        let none_lost = nothing_in_nothing lost (subst (AllIn lost) none_left l) in
        (
          f,
          e ∙ ap (λ (x : List E). some (f, x)) none_lost,
          sym (append-nil f.replica.log)
              ∙ ap (λ (x : List E). f.replica.log ++ x) (sym none_left)
              ∙ whole,
        )
