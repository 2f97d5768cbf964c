-- ===== src/Transactions/TwoPhase.antt =====
-- `Participant` and `two_phase_commit` of 06_distributed_systems/04_distributed_transactions_2pc_saga.py.
-- `votes` is the dict by name that the source builds: a later participant with an earlier one's name
-- overwrites its vote.
pub mod Atomicity
use learn_system_design.Prelude.{ℕ, Bool, true, false, ◌&&◌, List, [], ◌∷◌, if◌then◌else◌, map}
use learn_system_design.Prelude.Dict.{Dict, put}

pub data State : Type 0 where
  idle prepared committed aborted : State

pub record Participant (N : Type 0) : Type 0 where
  pub name : N
  pub will_vote_yes : Bool
  pub state : State
  pub locked : Bool

module _ {N : Type 0} where
  -- `Participant(name, will_vote_yes)`
  unfoldable pub participant : N → Bool → Participant N
  participant name will_vote_yes = record {
    name = name;
    will_vote_yes = will_vote_yes;
    state = idle;
    locked = false;
  }

  -- `prepare`: the participant after it; its vote is `will_vote_yes`
  unfoldable pub prepare : Participant N → Participant N × Bool
  prepare p =
      if p.will_vote_yes
      then (record p { state = prepared; locked = true }, true)
      else (record p { state = aborted }, false)

  unfoldable pub commit : Participant N → Participant N
  commit p = record p { state = committed; locked = false }

  unfoldable pub abort : Participant N → Participant N
  abort p = record p { state = aborted; locked = false }

  -- `all(votes.values())`
  unfoldable pub all_yes : Dict N Bool → Bool
  all_yes [] = true
  all_yes ((name, vote) ∷ votes) = vote && all_yes votes

module _ {N : Type 0} (dec : Discrete N) where
  -- Phase 1: `{p.name: p.prepare() for p in participants}`, with the participants after it.
  unfoldable pub prepare_all :
      List (Participant N) → Dict N Bool → List (Participant N) × Dict N Bool
  unfolding prepare
  prepare_all [] votes = ([], votes)
  prepare_all (p ∷ participants) votes =
      let (p', vote) = prepare p in
      let (rest, votes') = prepare_all participants (put dec p.name vote votes) in
      (p' ∷ rest, votes')

  unfoldable pub two_phase_commit : List (Participant N) → Bool → List (Participant N)
  two_phase_commit participants coordinator_crashes_after_prepare =
      let (asked, votes) = prepare_all participants [] in
      if coordinator_crashes_after_prepare
      then asked
      else map (if all_yes votes then commit else abort) asked
