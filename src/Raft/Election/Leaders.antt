-- ===== src/Raft/Election/Leaders.antt =====
-- At most one leader in each term.
use learn_system_design.Prelude.{
  ℕ, zero, suc, ◌+◌, ◌<◌, ◌≡◌, refl, inl, inr, Bool, true, ◌&&◌, none, some, List, [], ◌∷◌, arith,
  Bool-cases, ap, sym, ◌∙◌, String,
}
use learn_system_design.Raft.Node.Log.{card}
use learn_system_design.Raft.Node.{
  Node, leader, n_nodes, update, client_submit, is_leader, reset_election_timer,
}
use learn_system_design.Raft.Cluster.{
  Cluster, init, submitted, Action, pass, submit, crash, restart, act, acts,
}
use learn_system_design.Raft.Election.Ballots.{History, Fair, stands}
use learn_system_design.Raft.Election.Handlers.{Fair-outside}
use learn_system_design.Raft.Election.Safety.{
  Sound, Goes, Goes-refl, Goes-trans, step-Sound, IsFair-update, Delivers-keeps,
}

-- Two sets that together are larger than the whole share a member.
shared_member :
    (n : ℕ) (p q : ℕ → Bool) → n < card n p + card n q → (v : ℕ) × (p v ≡ true) × (q v ≡ true)
unfolding card
shared_member zero p q h = absurd (omega arith)
shared_member (suc n) p q h = elim (Bool-cases (p n && q n)) [
  | inl both ↦ (n, ground arith, ground arith)
  | inr not_both ↦ shared_member n p q (ground arith)
]

module _ (randint : ℕ → ℕ → ℕ → ℕ) where
  set_node-Sound :
      (h : History) (i draws : ℕ) (n' : Node) (c : Cluster)
      → Sound h c
      → Fair h i (n', [])
      → Goes h (record c { draws = draws; nodes = update c.nodes i n' })
  set_node-Sound h i draws n' c s f = record {
    history = f.history;
    keeps = f.extends.keeps;
    sound = record {
      fair = λ j. IsFair-update randint h f.history i j c.nodes n' f.extends f.fair (s.fair j);
      flying = Delivers-keeps h f.history c.inflight f.extends.keeps s.flying;
    };
  }

  submitted-Sound :
      (h : History) (i : ℕ) (command : String) (c : Cluster)
      → Sound h c
      → Goes h (submitted randint i (client_submit command (c.nodes i)) c)
  unfolding submitted client_submit
  submitted-Sound h i command c s = elim (Bool-cases (is_leader (c.nodes i).state)) [
    | inr other ↦ rw (other, submitted) (Goes-refl randint h c s)
    | inl leads ↦
        rw (leads, submitted)
          (set_node-Sound h i c.draws _ c s
            (Fair-outside h i (c.nodes i) _ (s.fair i) refl refl refl refl (inl refl)))
  ]

  act-Sound :
      (h : History) (a : Action randint) (c : Cluster) → Sound h c → Goes h (act randint a c)
  unfolding act reset_election_timer
  act-Sound h pass c s = step-Sound randint h c s
  act-Sound h (submit i command) c s = submitted-Sound h i command c s
  act-Sound h (crash i) c s =
      set_node-Sound h i c.draws _ c s
        (Fair-outside h i (c.nodes i) _ (s.fair i) refl refl refl refl (inl refl))
  act-Sound h (restart i) c s =
      set_node-Sound h i (c.draws + 1) _ c s
        (Fair-outside h i (c.nodes i) _ (s.fair i) refl refl refl refl (inr refl))

  acts-Sound :
      (h : History) (as' : List (Action randint)) (c : Cluster)
      → Sound h c
      → Goes h (acts randint as' c)
  unfolding acts
  acts-Sound h [] c s = Goes-refl randint h c s
  acts-Sound h (a ∷ rest) c s =
      let g = act-Sound h a c s in
      Goes-trans randint h g.history _ g.keeps (acts-Sound g.history rest (act randint a c) g.sound)

  init-Sound : Sound (λ v t. none) (init randint)
  unfolding init
  init-Sound = record {
    fair = λ i. record {
      id_is = refl;
      remembers = refl;
      later = λ t lt. refl;
      chosen = λ v st e. cc;
      won = λ e. cc;
    };
    flying = tt;
  }

  one_leader :
      (h : History) (c : Cluster) (i j : ℕ)
      → Sound h c
      → (c.nodes i).state ≡ leader
      → (c.nodes j).state ≡ leader
      → (c.nodes i).term ≡ (c.nodes j).term
      → i ≡ j
  one_leader h c i j s li lj e =
      let fi = s.fair i in
      let fj = s.fair j in
      let mi = fi.won li in
      let mj = fj.won lj in
      let (v, vi, vj) = shared_member n_nodes (c.nodes i).votes (c.nodes j).votes (omega arith) in
      let ci = fi.chosen v (ap stands li) vi in
      let cj = fj.chosen v (ap stands lj) vj in
      let same : some i ≡ some j = sym ci ∙ ap (h v) e ∙ cj in cc

-- Whatever the random generator draws and however time passes, clients submit, nodes crash and
-- restart, two nodes of a cluster that lead in the same term are the same node.
pub election_safety :
    (randint : ℕ → ℕ → ℕ → ℕ) (actions : List (Action randint)) (i j : ℕ)
    → ((acts randint actions (init randint)).nodes i).state ≡ leader
    → ((acts randint actions (init randint)).nodes j).state ≡ leader
    → ((acts randint actions (init randint)).nodes i).term
      ≡ ((acts randint actions (init randint)).nodes j).term
    → i ≡ j
election_safety randint actions i j li lj e =
    let g = acts-Sound randint _ actions (init randint) (init-Sound randint) in
    one_leader randint g.history (acts randint actions (init randint)) i j g.sound li lj e
