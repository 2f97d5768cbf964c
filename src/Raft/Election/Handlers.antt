-- ===== src/Raft/Election/Handlers.antt =====
-- Each handler of a node is fair.
use learn_system_design.Prelude.{
  ℕ, ◌≤◌, ◌≡◌, refl, ◌⊎◌, inl, inr, Bool, true, false, ◌&&◌, ◌||◌, not, some, List, [], arith, ◌==◌,
  Bool-cases, Option-cases, ◌∙◌, leb, ltb,
}
use learn_system_design.Raft.Node.Log.{card, Entry}
use learn_system_design.Raft.Node.{
  Node, Role, follower, candidate, leader, Message, request_vote, vote_reply, append_entries,
  append_reply, Out, n_nodes, majority, update, peers, become_follower, start_election,
  become_leader, is_leader, is_candidate, tick, may_vote, up_to_date, on_request_vote,
  on_vote_reply, is_mismatch, on_append_entries, on_append_reply, term_of, handle, on_message,
}
use learn_system_design.Raft.Election.Ballots.{
  History, IsFair, IsCast, Extends, Moves, note, Fair, Extends-note, IsFair-note,
}
use learn_system_design.Raft.Election.Steady.{
  Fair-Quiet, Fair-Steady, Fair-note, Fair-still, Moves-Steady, Quiet-map, Steady-refl,
  broadcast-Fair,
}

module _ (h : History) (i : ℕ) where
  start_election-Fair :
      (now timeout : ℕ) (n : Node) → IsFair h i n → Fair h i (start_election now timeout n)
  unfolding start_election
  start_election-Fair now timeout n f =
      Fair-Quiet h i n (start_election now timeout n) f
        (record {
          id_is = f.id_is;
          grows = omega arith;
          holds = λ e. absurd (omega arith);
          counted = λ v st e. inr (ground (arith, f.id_is));
          won = λ e. cc;
        })
        (Quiet-map _ (peers n) (λ p. tt))

  pub tick-Fair : (now timeout : ℕ) (n : Node) → IsFair h i n → Fair h i (tick now timeout n)
  unfolding tick
  tick-Fair now timeout n f = elim (Bool-cases (not n.alive)) [
    | inl dead ↦ rw dead (Fair-still h i n [] f tt)
    | inr alive ↦ rw alive (elim (Bool-cases (is_leader n.state)) [
      | inl leads ↦ rw leads (elim (Bool-cases (leb n.next_heartbeat now)) [
        | inl beat ↦ rw beat (broadcast-Fair h i now n n f (Moves-Steady h i n n f (Steady-refl n)))
        | inr rest ↦ rw rest (Fair-still h i n [] f tt)
      ])
      | inr waits ↦ rw waits (elim (Bool-cases (leb n.election_deadline now)) [
        | inl over ↦ rw over (start_election-Fair now timeout n f)
        | inr rest ↦ rw rest (Fair-still h i n [] f tt)
      ])
    ])
  ]

  on_request_vote-Fair :
      (now timeout : ℕ) (n : Node) (src term index last : ℕ)
      → IsFair h i n
      → Fair h i (on_request_vote now timeout n src term index last)
  unfolding on_request_vote
  on_request_vote-Fair now timeout n src term index last f =
      elim (Bool-cases (term == n.term && may_vote n.voted_for src && up_to_date n index last)) [
        | inl grant ↦ rw grant (
            Fair-note h i n _ f
              (record {
                id_is = f.id_is;
                grows = omega arith;
                holds = λ e. elim (Option-cases n.voted_for) [
                  | inl free ↦ inl free
                  | inr (c, bound) ↦ inr (unfold may_vote in ground arith)
                ];
                counted = λ v st e. inl (f.chosen v st e);
                won = f.won;
              })
              (unfold note in ground arith, tt))
        | inr refuse ↦ rw refuse (Fair-still h i n _ f (tt, tt))
      ]

  -- A candidate that has counted one more vote, cast for it.
  Moves-counted :
      (n : Node) (src : ℕ) (state : Role) (next match : ℕ → ℕ)
      → IsFair h i n
      → n.state ≡ candidate
      → h src n.term ≡ some i
      → (state ≡ leader → majority ≤ card n_nodes (update n.votes src true))
      → Moves h i n (record n {
        votes = update n.votes src true;
        state = state;
        next_index = next;
        match_index = match;
      })
  Moves-counted n src state next match f st cast enough = record {
    id_is = f.id_is;
    grows = omega arith;
    holds = λ e. inr refl;
    counted = λ v st' e. inl (unfold update in ground (arith, f.chosen v));
    won = enough;
  }

  on_vote_reply-Fair :
      (now : ℕ) (n : Node) (src term : ℕ) (granted : Bool)
      → IsFair h i n
      → IsCast h src i (vote_reply term granted)
      → Fair h i (on_vote_reply now n src term granted)
  unfolding on_vote_reply
  on_vote_reply-Fair now n src term granted f cast =
      elim (Bool-cases (is_candidate n.state && term == n.term && granted)) [
        | inr other ↦ rw other (Fair-still h i n [] f tt)
        | inl counts ↦
            let st : n.state ≡ candidate = ground arith in
            let e : term ≡ n.term = ground arith in
            let g : granted ≡ true = ground arith in
            let cast' : h src n.term ≡ some i = ground arith in
            rw counts (elim (Bool-cases (leb majority (card n_nodes (update n.votes src true)))) [
              | inl enough ↦ rw enough (
                  unfold become_leader in
                  broadcast-Fair h i now n _ f
                    (Moves-counted n src leader _ _ f st cast' (λ e. ground arith)))
              | inr few ↦ rw few (
                  Fair-Quiet h i n _ f
                    (Moves-counted n src n.state n.next_index n.match_index f st cast' (λ e. cc))
                    tt)
            ])
      ]

  on_append_entries-Fair :
      (now timeout : ℕ) (n : Node) (src term prev prev_term : ℕ) (entries : List Entry) (commit : ℕ)
      → IsFair h i n
      → Fair h i (on_append_entries now timeout n src term prev prev_term entries commit)
  unfolding on_append_entries
  on_append_entries-Fair now timeout n src term prev prev_term entries commit f =
      elim (Bool-cases (ltb term n.term)) [
        | inl stale ↦ rw stale (Fair-still h i n _ f (tt, tt))
        | inr fresh ↦ rw fresh (elim (Bool-cases (is_mismatch n.log prev prev_term)) [
          | inl bad ↦ rw bad (
              Fair-Steady h i n _ f
                (record {
                  id_same = refl;
                  term_same = refl;
                  vote_same = refl;
                  votes_same = refl;
                  role = inr refl;
                })
                (tt, tt))
          | inr good ↦ rw good (
              Fair-Steady h i n _ f
                (record {
                  id_same = refl;
                  term_same = refl;
                  vote_same = refl;
                  votes_same = refl;
                  role = inr refl;
                })
                (tt, tt))
        ])
      ]

  on_append_reply-Fair :
      (n : Node) (p term : ℕ) (success : Bool) (match : ℕ)
      → IsFair h i n
      → Fair h i (on_append_reply n p term success match)
  unfolding on_append_reply
  on_append_reply-Fair n p term success match f =
      elim (Bool-cases (not (is_leader n.state) || not (term == n.term))) [
        | inl other ↦ rw other (Fair-still h i n [] f tt)
        | inr mine ↦ rw mine (elim (Bool-cases success) [
          | inl good ↦ rw good (
              Fair-Steady h i n _ f
                (record {
                  id_same = refl;
                  term_same = refl;
                  vote_same = refl;
                  votes_same = refl;
                  role = inl refl;
                })
                tt)
          | inr bad ↦ rw bad (
              Fair-Steady h i n _ f
                (record {
                  id_same = refl;
                  term_same = refl;
                  vote_same = refl;
                  votes_same = refl;
                  role = inl refl;
                })
                tt)
        ])
      ]

  handle-Fair :
      (now timeout : ℕ) (n : Node) (src : ℕ) (msg : Message)
      → IsFair h i n
      → IsCast h src i msg
      → Fair h i (handle now timeout n src msg)
  unfolding handle
  handle-Fair now timeout n src (request_vote term index last) f cast =
      on_request_vote-Fair now timeout n src term index last f
  handle-Fair now timeout n src (vote_reply term granted) f cast =
      on_vote_reply-Fair now n src term granted f cast
  handle-Fair now timeout n src (append_entries term prev prev_term entries commit) f cast =
      on_append_entries-Fair now timeout n src term prev prev_term entries commit f
  handle-Fair now timeout n src (append_reply term success match) f cast =
      on_append_reply-Fair n src term success match f

pub IsCast-keeps :
    (h h' : History) (src dst : ℕ) (msg : Message)
    → ((v t c : ℕ) → h v t ≡ some c → h' v t ≡ some c)
    → IsCast h src dst msg
    → IsCast h' src dst msg
IsCast-keeps h h' src dst (request_vote _ _ _) k cast = tt
IsCast-keeps h h' src dst (vote_reply term true) k cast = k src term dst cast
IsCast-keeps h h' src dst (vote_reply term false) k cast = tt
IsCast-keeps h h' src dst (append_entries _ _ _ _ _) k cast = tt
IsCast-keeps h h' src dst (append_reply _ _ _) k cast = tt

Fair-after : (i : ℕ) (h h' : History) (out : Out) → Extends i h h' → Fair h' i out → Fair h i out
Fair-after i h h' out x f = record {
  history = f.history;
  fair = f.fair;
  extends = record {
    keeps = λ v t c e. f.extends.keeps v t c (x.keeps v t c e);
    others = λ v t ne. f.extends.others v t ne ∙ x.others v t ne;
  };
  sends = f.sends;
}

pub on_message-Fair :
    (h : History) (i now timeout : ℕ) (n : Node) (src : ℕ) (msg : Message)
    → IsFair h i n
    → IsCast h src i msg
    → Fair h i (on_message now timeout n src msg)
unfolding on_message
on_message-Fair h i now timeout n src msg f cast = elim (Bool-cases (ltb n.term (term_of msg))) [
  | inr same ↦ rw same (handle-Fair h i now timeout n src msg f cast)
  | inl newer ↦
      let n' = become_follower (term_of msg) n in
      let m : Moves h i n n' = record {
        id_is = f.id_is;
        grows = ground arith;
        holds = λ e. absurd (ground arith);
        counted = λ v st e. cc;
        won = λ e. cc;
      } in
      let h' = note h i n' in
      let x = Extends-note h i n n' f m in
      rw newer (
        Fair-after i h h' _ x (
          handle-Fair h' i now timeout n' src msg (IsFair-note h i n n' f m)
            (IsCast-keeps h h' src i msg x.keeps cast)))
]

-- What the program does to a node from outside.
pub Fair-outside :
    (h : History) (i : ℕ) (n n' : Node)
    → IsFair h i n
    → n'.id ≡ n.id
    → n'.term ≡ n.term
    → n'.voted_for ≡ n.voted_for
    → n'.votes ≡ n.votes
    → (n'.state ≡ n.state) ⊎ (n'.state ≡ follower)
    → Fair h i (n', [])
Fair-outside h i n n' f a b c d e =
    Fair-Steady h i n (n', []) f
      (record { id_same = a; term_same = b; vote_same = c; votes_same = d; role = e }) tt
