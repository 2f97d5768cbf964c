-- ===== src/Raft/Cluster.antt =====
-- `Cluster` of 06_distributed_systems/03_raft_consensus.py. `randint k lo hi` is the answer of the
-- `k`-th call of the random generator; a handler's timeout is drawn before it runs, used or not.
-- The field `nodes` is a function on the ids.
use learn_system_design.Prelude.{
  ℕ, zero, suc, ◌+◌, true, false, Option, none, some, List, [], ◌∷◌, ◌++◌, map, ◌&&◌, ltb, leb,
  if◌then◌else◌, String,
}
use learn_system_design.Raft.Node.{
  Node, Message, follower, Out, n_nodes, update, tick, on_message, client_submit,
  reset_election_timer, is_leader,
}

-- An entry of `inflight`: when it is due, where it goes, and whom it comes from.
pub record Flight : Type 0 where
  pub deliver_at : ℕ
  pub dst : ℕ
  pub src : ℕ
  pub msg : Message

pub record Cluster : Type 0 where
  pub now : ℕ
  pub draws : ℕ
  pub inflight : List Flight
  pub nodes : ℕ → Node

-- `[m for m in self.inflight if m[0] <= self.now]`
unfoldable pub due : ℕ → List Flight → List Flight
due now [] = []
due now (f ∷ fs) = let rest = due now fs in if leb f.deliver_at now then f ∷ rest else rest

-- `[m for m in self.inflight if m[0] > self.now]`
unfoldable pub pending : ℕ → List Flight → List Flight
pending now [] = []
pending now (f ∷ fs) = let rest = pending now fs in if ltb now f.deliver_at then f ∷ rest else rest

module _ (randint : ℕ → ℕ → ℕ → ℕ) where
  -- `send` of each message in turn. The sender is alive: no dead node handles or ticks.
  unfoldable pub send_all : ℕ → List (ℕ × Message) → Cluster → Cluster
  send_all src [] c = c
  send_all src ((dst, msg) ∷ out) c = send_all src out (record c {
    draws = c.draws + 1;
    inflight =
        c.inflight
        ++ record { deliver_at = c.now + randint c.draws 1 2; dst = dst; src = src; msg = msg }
          ∷ [];
  })

  -- A node has run: its new state and what it sends.
  unfoldable pub settle : ℕ → Out → Cluster → Cluster
  settle i (n, out) c =
      send_all i out (record c { draws = c.draws + 1; nodes = update c.nodes i n })

  unfoldable pub deliver : Flight → Cluster → Cluster
  deliver f c =
      let n = c.nodes f.dst in
      if n.alive then settle f.dst (on_message c.now (randint c.draws 10 20) n f.src f.msg) c else c

  unfoldable pub deliver_all : List Flight → Cluster → Cluster
  deliver_all [] c = c
  deliver_all (f ∷ fs) c = deliver_all fs (deliver f c)

  unfoldable pub tick_node : ℕ → Cluster → Cluster
  tick_node i c = settle i (tick c.now (randint c.draws 10 20) (c.nodes i)) c

  unfoldable pub tick_all : List ℕ → Cluster → Cluster
  tick_all [] c = c
  tick_all (i ∷ ids) c = tick_all ids (tick_node i c)

  -- `step`
  unfoldable pub step : Cluster → Cluster
  step c =
      let now = c.now + 1 in
      let c' = record c { now = now; inflight = pending now c.inflight } in
      tick_all (0 ∷ 1 ∷ 2 ∷ 3 ∷ 4 ∷ []) (deliver_all (due now c.inflight) c')

  -- `RaftNode(i, cluster)` at time 0, with the timeout that it draws
  unfoldable pub new_node : ℕ → Node
  new_node i = record {
    id = i;
    alive = true;
    term = 0;
    voted_for = none;
    log = [];
    state = follower;
    commit_index = 0;
    votes = λ v. false;
    next_index = λ p. 0;
    match_index = λ p. 0;
    next_heartbeat = 0;
    election_deadline = randint i 10 20;
  }

  -- `Cluster(seed)`
  unfoldable pub init : Cluster
  unfolding new_node
  init = record { now = 0; draws = n_nodes; inflight = []; nodes = new_node }

  unfoldable pub submitted : ℕ → Option Node → Cluster → Cluster
  submitted i none c = c
  submitted i (some n) c = record c { nodes = update c.nodes i n }

  -- What the program does to a cluster from outside: it lets time pass, a client submits a command
  -- to a node (the `assert` keeps it to leaders), a node crashes, and it restarts as a follower.
  pub data Action : Type 0 where
    pass : Action
    submit : ℕ → String → Action
    crash : ℕ → Action
    restart : ℕ → Action

  unfoldable pub act : Action → Cluster → Cluster
  unfolding step submitted
  act pass c = step c
  act (submit i command) c = submitted i (client_submit command (c.nodes i)) c
  act (crash i) c = record c { nodes = update c.nodes i (record (c.nodes i) { alive = false }) }
  act (restart i) c = record c {
    draws = c.draws + 1;
    nodes = update c.nodes i (
        reset_election_timer c.now (randint c.draws 10 20)
          (record (c.nodes i) { alive = true; state = follower }));
  }

  unfoldable pub acts : List Action → Cluster → Cluster
  acts [] c = c
  acts (a ∷ rest) c = acts rest (act a c)

  -- `Cluster.run`
  unfoldable pub run : ℕ → Cluster → Cluster
  run zero c = c
  run (suc ticks) c = run ticks (step c)

-- `[n for n in self.nodes if n.alive and n.state == "leader"]`
unfoldable pub leaders_of : List Node → List Node
unfolding is_leader
leaders_of [] = []
leaders_of (n ∷ nodes) =
    let rest = leaders_of nodes in if n.alive && is_leader n.state then n ∷ rest else rest

-- `max(leaders, key=lambda n: n.term)` from a first leader on, the first of the greatest.
unfoldable pub latest_of : Node → List Node → Node
latest_of best [] = best
latest_of best (n ∷ leaders) = latest_of (if ltb best.term n.term then n else best) leaders

unfoldable pub latest_leader : List Node → Option Node
unfolding latest_of
latest_leader [] = none
latest_leader (n ∷ leaders) = some (latest_of n leaders)

-- `Cluster.leader`
unfoldable pub leader_of : Cluster → Option Node
unfolding latest_leader leaders_of
leader_of c = latest_leader (leaders_of (map c.nodes (0 ∷ 1 ∷ 2 ∷ 3 ∷ 4 ∷ [])))
