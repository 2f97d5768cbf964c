-- ===== src/Raft/Election/Ballots.antt =====
-- Who voted for whom: a history that no node forgets, against which the state of each node and each
-- message is judged.
use learn_system_design.Prelude.{
  ℕ, ◌≤◌, ◌<◌, ◌≡◌, ◌≢◌, ◌⊎◌, Bool, true, false, ◌&&◌, Option, none, some, List, [], ◌∷◌, arith,
  ◌==◌, if◌then◌else◌,
}
use learn_system_design.Raft.Node.Log.{card}
use learn_system_design.Raft.Node.{
  Node, Role, follower, candidate, leader, Message, request_vote, vote_reply, append_entries,
  append_reply, Out, n_nodes, majority,
}

-- The candidate that a voter has chosen in a term, if any: one at most, by its type.
abbrev pub History : Type 0
History = ℕ → ℕ → Option ℕ

abbrev pub stands : Role → Bool
stands follower = false
stands candidate = true
stands leader = true

-- Node `i` is as the history says: it remembers its vote of this term, has cast none of a later
-- one, has been chosen by all whose votes it counts, and leads only with a majority.
pub record IsFair (h : History) (i : ℕ) (n : Node) : Type 0 where
  pub id_is : n.id ≡ i
  pub remembers : h i n.term ≡ n.voted_for
  pub later : (t : ℕ) → n.term < t → h i t ≡ none
  pub chosen : (v : ℕ) → stands n.state ≡ true → n.votes v ≡ true → h v n.term ≡ some i
  pub won : n.state ≡ leader → majority ≤ card n_nodes n.votes

-- A granted vote on its way was cast.
abbrev pub IsCast : History → ℕ → ℕ → Message → Type 0
IsCast h src dst (vote_reply term true) = h src term ≡ some dst
IsCast h src dst (vote_reply term false) = Unit {0}
IsCast h src dst (request_vote _ _ _) = Unit {0}
IsCast h src dst (append_entries _ _ _ _ _) = Unit {0}
IsCast h src dst (append_reply _ _ _) = Unit {0}

abbrev pub AllCast : History → ℕ → List (ℕ × Message) → Type 0
AllCast h src [] = Unit {0}
AllCast h src ((dst, msg) ∷ out) = IsCast h src dst msg × AllCast h src out

-- A history that goes on from `h` by what node `i` does.
pub record Extends (i : ℕ) (h h' : History) : Type 0 where
  pub keeps : (v t c : ℕ) → h v t ≡ some c → h' v t ≡ some c
  pub others : (v t : ℕ) → v ≢ i → h' v t ≡ h v t

-- What node `i` may change: its term grows, its vote of a term is not changed once cast, and it
-- counts only votes that were cast for it, its own included.
pub record Moves (h : History) (i : ℕ) (n n' : Node) : Type 0 where
  pub id_is : n'.id ≡ i
  pub grows : n.term ≤ n'.term
  pub holds : n'.term ≡ n.term → (n.voted_for ≡ none) ⊎ (n'.voted_for ≡ n.voted_for)
  pub counted :
      (v : ℕ)
      → stands n'.state ≡ true
      → n'.votes v ≡ true
      → (h v n'.term ≡ some i) ⊎ ((v ≡ i) × (n'.voted_for ≡ some i))
  pub won : n'.state ≡ leader → majority ≤ card n_nodes n'.votes

-- The history with the vote of a node in its term.
unfoldable pub note : History → ℕ → Node → History
note h i n v t = if (v == i) && (t == n.term) then n.voted_for else h v t

-- What is fair before a move of node `i` is fair after it, and the granted votes that it sends were
-- cast.
pub record Fair (h : History) (i : ℕ) (out : Out) : Type 0 where
  pub history : History
  pub fair : IsFair history i out.0
  pub extends : Extends i h history
  pub sends : AllCast history i out.1

pub Extends-note :
    (h : History) (i : ℕ) (n n' : Node) → IsFair h i n → Moves h i n n' → Extends i h (note h i n')
unfolding note
Extends-note h i n n' f m = record {
  keeps = λ v t c e. ground (arith, f.remembers, f.later t, m.holds);
  others = λ v t ne. ground arith;
}

pub IsFair-note :
    (h : History) (i : ℕ) (n n' : Node) → IsFair h i n → Moves h i n n' → IsFair (note h i n') i n'
unfolding note
IsFair-note h i n n' f m = record {
  id_is = m.id_is;
  remembers = ground arith;
  later = λ t lt. ground (arith, f.later t);
  chosen = λ v s e. ground (arith, m.counted v s e, f.remembers, f.later n'.term, m.holds);
  won = m.won;
}
