-- ===== src/Transactions/TwoPhase/Atomicity.antt =====
-- All participants end alike, and no participant commits against its vote.
use learn_system_design.Prelude.{
  ◌≡◌, refl, Bool, true, false, List, [], ◌∷◌, map, arith, Bool-cases, inl, inr, ap, ◌∙◌, some,
  if_neg, ◌⊎◌,
}
use learn_system_design.Prelude.Dict.{Dict, put, get, get-put, get-put_self}
use learn_system_design.Transactions.TwoPhase.{
  State, prepared, committed, aborted, Participant, prepare, commit, abort, all_yes, prepare_all,
  two_phase_commit,
}

module _ {N : Type 0} where
  -- Every participant of the list satisfies the predicate.
  abbrev pub AllOf : (Participant N → Type 0) → List (Participant N) → Type 0
  AllOf P [] = Unit
  AllOf P (p ∷ ps) = P p × AllOf P ps

  abbrev pub VotesYes : Participant N → Type 0
  VotesYes p = p.will_vote_yes ≡ true

  -- Released with the given outcome.
  abbrev pub Ended : State → Participant N → Type 0
  Ended s p = (p.state ≡ s) × (p.locked ≡ false)

  -- Waiting for a decision with its locks held.
  abbrev pub InDoubt : Participant N → Type 0
  InDoubt p = (p.state ≡ prepared) × (p.locked ≡ true)

  -- No participant of the list has the name.
  abbrev pub IsAbsent : N → List (Participant N) → Type 0
  IsAbsent name [] = Unit
  IsAbsent name (p ∷ ps) = ¬ (p.name ≡ name) × IsAbsent name ps

  abbrev pub AreDistinct : List (Participant N) → Type 0
  AreDistinct [] = Unit
  AreDistinct (p ∷ ps) = IsAbsent p.name ps × AreDistinct ps

  map-commit : (ps : List (Participant N)) → AllOf (Ended committed) (map commit ps)
  unfolding commit
  map-commit [] = tt
  map-commit (p ∷ ps) = ((refl, refl), map-commit ps)

  map-abort : (ps : List (Participant N)) → AllOf (Ended aborted) (map abort ps)
  unfolding abort
  map-abort [] = tt
  map-abort (p ∷ ps) = ((refl, refl), map-abort ps)

  prepare-vote : (p : Participant N) → (prepare p).1 ≡ p.will_vote_yes
  unfolding prepare
  prepare-vote p = elim (Bool-cases p.will_vote_yes) [ inl e ↦ ground arith | inr e ↦ ground arith ]

module _ {N : Type 0} (dec : Discrete N) where
  all_yes-get :
      (votes : Dict N Bool) (name : N) → all_yes votes ≡ true → ¬ (get dec name votes ≡ some false)
  unfolding all_yes get
  all_yes-get [] name h e = ground arith
  all_yes-get ((k, v) ∷ votes) name h e = ground (arith, all_yes-get votes name)

  all_yes-put :
      (votes : Dict N Bool) (name : N)
      → all_yes votes ≡ true
      → all_yes (put dec name true votes) ≡ true
  unfolding all_yes put
  all_yes-put [] name h = refl
  all_yes-put ((k, v) ∷ votes) name h = ground (arith, all_yes-put votes name)

  prepare_all-absent :
      (ps : List (Participant N)) (votes : Dict N Bool) (name : N)
      → IsAbsent name ps
      → get dec name (prepare_all dec ps votes).1 ≡ get dec name votes
  unfolding prepare_all
  prepare_all-absent [] votes name h = refl
  prepare_all-absent (p ∷ ps) votes name (other, h) =
      prepare_all-absent ps (put dec p.name (prepare p).1 votes) name h
      ∙ get-put dec p.name name (prepare p).1 votes
      ∙ if_neg (dec p.name name) other _ _

  -- A decision to commit means that each participant voted yes.
  decided-VotesYes :
      (ps : List (Participant N)) (votes : Dict N Bool)
      → AreDistinct ps
      → all_yes (prepare_all dec ps votes).1 ≡ true
      → AllOf VotesYes ps
  unfolding prepare_all
  decided-VotesYes [] votes d h = tt
  decided-VotesYes (p ∷ ps) votes (absent, d) h =
      let votes' = put dec p.name (prepare p).1 votes in
      (
        (elim (Bool-cases p.will_vote_yes) [
          | inl e ↦ e
          | inr e ↦ absurd (
              all_yes-get (prepare_all dec ps votes').1 p.name h (
                prepare_all-absent ps votes' p.name absent
                ∙ get-put_self dec p.name (prepare p).1 votes
                ∙ ap some (prepare-vote p ∙ e)))
        ]),
        decided-VotesYes ps votes' d h,
      )

  VotesYes-decided :
      (ps : List (Participant N)) (votes : Dict N Bool)
      → all_yes votes ≡ true
      → AllOf VotesYes ps
      → all_yes (prepare_all dec ps votes).1 ≡ true
  unfolding prepare_all
  VotesYes-decided [] votes h v = h
  VotesYes-decided (p ∷ ps) votes h (vp, v) =
      VotesYes-decided ps (put dec p.name (prepare p).1 votes)
        (rw (prepare-vote, vp) (all_yes-put votes p.name h)) v

  -- With distinct names and a coordinator that does not crash, all participants end committed if
  -- each of them votes yes, and all end aborted if one does not; no lock is held then.
  pub two_phase_commit_atomic :
      (ps : List (Participant N))
      → AreDistinct ps
      → (AllOf VotesYes ps × AllOf (Ended committed) (two_phase_commit dec ps false))
        ⊎ (¬ AllOf VotesYes ps × AllOf (Ended aborted) (two_phase_commit dec ps false))
  unfolding two_phase_commit
  two_phase_commit_atomic ps d = elim (Bool-cases (all_yes (prepare_all dec ps []).1)) [
    | inl e ↦ inl (decided-VotesYes ps [] d e, rw e (map-commit (prepare_all dec ps []).0))
    | inr e ↦ inr (
      (λ v. let e' = VotesYes-decided ps [] (unfold all_yes in refl) v in ground arith),
      rw e (map-abort (prepare_all dec ps []).0),
    )
  ]

  prepare_all-InDoubt :
      (ps : List (Participant N)) (votes : Dict N Bool)
      → AllOf VotesYes ps
      → AllOf InDoubt (prepare_all dec ps votes).0
  unfolding prepare_all prepare
  prepare_all-InDoubt [] votes v = tt
  prepare_all-InDoubt (p ∷ ps) votes (vp, v) =
      (simp vp (refl, refl), prepare_all-InDoubt ps (put dec p.name (prepare p).1 votes) v)

  -- If the coordinator crashes after all participants have voted yes, each of them is left in doubt,
  -- with its locks held.
  pub two_phase_commit_blocked :
      (ps : List (Participant N)) → AllOf VotesYes ps → AllOf InDoubt (two_phase_commit dec ps true)
  unfolding two_phase_commit
  two_phase_commit_blocked ps v = prepare_all-InDoubt ps [] v
