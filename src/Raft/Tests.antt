-- ===== src/Raft/Tests.antt =====
-- A run of a cluster, and the theorems at inputs.
use learn_system_design.Prelude.{
  leb, if◌then◌else◌, take, arith, ℕ, ◌-◌, ◌+◌, ◌%◌, ◌≡◌, refl, some, List, [], ◌∷◌, ◌++◌, true,
  replicate,
}
use learn_system_design.Raft.Node.{
  Node, leader, advance_commit, on_message, tick, client_submit, peers, update, handle,
  on_request_vote, on_vote_reply, on_append_entries, on_append_reply,
}
use learn_system_design.Raft.Replication.{terms, store-terms}
use learn_system_design.Raft.Cluster.{
  Cluster, init, Action, pass, act, acts, due, pending, send_all, settle, deliver, deliver_all,
  tick_all, tick_node,
}
use learn_system_design.Raft.Election.Leaders.{election_safety}
use learn_system_design.Raft.Node.Log.{
  card, last_term, store, find_commit, replicas, Entry, term_at,
}

-- A generator that answers in range: each node draws another timeout.
abbrev randint : ℕ → ℕ → ℕ → ℕ
randint k lo hi = lo + k % (hi + 1 - lo)

-- Time for an election.
abbrev actions : List (Action randint)
actions = replicate 15 pass

abbrev final : Cluster
final = acts randint actions (init randint)

first_leads : (final.nodes 0).state ≡ leader
unfolding acts act deliver_all tick_all deliver tick_node settle send_all due pending init
    on_message tick client_submit update peers card last_term handle on_request_vote on_vote_reply
    on_append_entries on_append_reply
first_leads = refl

election_safety_example : ◌≡◌ {A = ℕ} 0 0
election_safety_example = election_safety randint actions 0 0 first_leads first_leads refl

abbrev old_log : List Entry
old_log = (1, "a") ∷ (1, "b") ∷ (2, "c") ∷ []

abbrev sent : List Entry
sent = (3, "d") ∷ (3, "e") ∷ []

conflict_dropped : store 1 sent old_log ≡ (1, "a") ∷ (3, "d") ∷ (3, "e") ∷ []
unfolding store term_at
conflict_dropped = refl

store-terms_run : terms (take 3 (store 1 sent old_log)) ≡ terms (take 1 old_log) ++ terms sent
store-terms_run = store-terms 1 sent old_log (omega arith)

-- A leader of term 1 with one entry, which two peers have.
abbrev ready : Node
ready = record {
  id = 0;
  alive = true;
  term = 1;
  voted_for = some 0;
  log = (1, "a") ∷ [];
  state = leader;
  commit_index = 0;
  votes = λ v. true;
  next_index = λ p. 1;
  match_index = λ p. if leb p 2 then 1 else 0;
  next_heartbeat = 9;
  election_deadline = 20;
}

commits : (advance_commit ready).commit_index ≡ 1
unfolding advance_commit find_commit replicas peers term_at
commits = refl
