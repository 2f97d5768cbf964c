-- ===== src/Raft/Election/Steady.antt =====
-- Moves of a node that are steady, and messages that hold no vote.
use learn_system_design.Prelude.{
  ℕ, ◌≤◌, ◌≡◌, refl, ◌⊎◌, inl, inr, Bool, true, false, List, [], ◌∷◌, arith, ap, sym, ◌∙◌, map,
}
use learn_system_design.Raft.Node.Log.{card}
use learn_system_design.Raft.Node.{
  Node, follower, leader, Message, request_vote, vote_reply, append_entries, append_reply, Out,
  n_nodes, majority, peers, broadcast_append_entries,
}
use learn_system_design.Raft.Election.Ballots.{
  History, IsFair, IsCast, AllCast, Moves, note, Fair, Extends-note, IsFair-note,
}

-- A move that leaves the ballot alone, and the role too or makes the node a follower.
pub record Steady (n n' : Node) : Type 0 where
  pub id_same : n'.id ≡ n.id
  pub term_same : n'.term ≡ n.term
  pub vote_same : n'.voted_for ≡ n.voted_for
  pub votes_same : n'.votes ≡ n.votes
  pub role : (n'.state ≡ n.state) ⊎ (n'.state ≡ follower)

-- Nothing in these messages is a vote.
abbrev pub NoVote : Message → Type 0
NoVote (vote_reply term true) = ⊥
NoVote (vote_reply term false) = Unit {0}
NoVote (request_vote _ _ _) = Unit {0}
NoVote (append_entries _ _ _ _ _) = Unit {0}
NoVote (append_reply _ _ _) = Unit {0}

IsCast-NoVote : (h : History) (src dst : ℕ) (msg : Message) → NoVote msg → IsCast h src dst msg
IsCast-NoVote h src dst (request_vote _ _ _) q = tt
IsCast-NoVote h src dst (vote_reply term true) q = absurd q
IsCast-NoVote h src dst (vote_reply term false) q = tt
IsCast-NoVote h src dst (append_entries _ _ _ _ _) q = tt
IsCast-NoVote h src dst (append_reply _ _ _) q = tt

abbrev pub Quiet : List (ℕ × Message) → Type 0
Quiet [] = Unit {0}
Quiet ((dst, msg) ∷ out) = NoVote msg × Quiet out

AllCast-Quiet : (h : History) (src : ℕ) (out : List (ℕ × Message)) → Quiet out → AllCast h src out
AllCast-Quiet h src [] q = tt
AllCast-Quiet h src ((dst, msg) ∷ out) q =
    (IsCast-NoVote h src dst msg q.0, AllCast-Quiet h src out q.1)

pub Quiet-map : (f : ℕ → ℕ × Message) (ps : List ℕ) → ((p : ℕ) → NoVote (f p).1) → Quiet (map f ps)
Quiet-map f [] q = tt
Quiet-map f (p ∷ ps) q = (q p, Quiet-map f ps q)

pub Steady-refl : (n : Node) → Steady n n
Steady-refl n = record {
  id_same = refl;
  term_same = refl;
  vote_same = refl;
  votes_same = refl;
  role = inl refl;
}

module _ (h : History) (i : ℕ) where
  pub Moves-Steady : (n n' : Node) → IsFair h i n → Steady n n' → Moves h i n n'
  Moves-Steady n n' f s = record {
    id_is = s.id_same ∙ f.id_is;
    grows = omega (arith, s.term_same);
    holds = λ e. inr s.vote_same;
    counted = λ v st e.
        let e' : n.votes v ≡ true = sym (ap (λ (w : ℕ → Bool). w v) s.votes_same) ∙ e in
        inl (ground (arith, f.chosen v, s.role, s.term_same));
    won = λ e.
        let w : n.state ≡ leader → majority ≤ card n_nodes n'.votes = rw (s.votes_same) f.won in
        ground (arith, s.role, w);
  }

  pub Fair-note :
      (n : Node) (out : Out)
      → IsFair h i n
      → Moves h i n out.0
      → AllCast (note h i out.0) i out.1
      → Fair h i out
  Fair-note n out f m sent = record {
    history = note h i out.0;
    fair = IsFair-note h i n out.0 f m;
    extends = Extends-note h i n out.0 f m;
    sends = sent;
  }

  pub Fair-Quiet :
      (n : Node) (out : Out) → IsFair h i n → Moves h i n out.0 → Quiet out.1 → Fair h i out
  Fair-Quiet n out f m q = Fair-note n out f m (AllCast-Quiet (note h i out.0) i out.1 q)

  pub Fair-Steady :
      (n : Node) (out : Out) → IsFair h i n → Steady n out.0 → Quiet out.1 → Fair h i out
  Fair-Steady n out f s q = Fair-Quiet n out f (Moves-Steady n out.0 f s) q

  pub Fair-still :
      (n : Node) (out : List (ℕ × Message)) → IsFair h i n → Quiet out → Fair h i (n, out)
  Fair-still n out f q = Fair-Steady n (n, out) f (Steady-refl n) q

  pub broadcast-Fair :
      (now : ℕ) (n₀ n : Node)
      → IsFair h i n₀
      → Moves h i n₀ n
      → Fair h i (broadcast_append_entries now n)
  unfolding broadcast_append_entries
  broadcast-Fair now n₀ n f m =
      Fair-Quiet n₀ (broadcast_append_entries now n) f
        (record {
          id_is = m.id_is;
          grows = m.grows;
          holds = m.holds;
          counted = m.counted;
          won = m.won;
        })
        (Quiet-map _ (peers n) (λ p. tt))
