-- ===== src/Raft/Node.antt =====
-- `RaftNode` of 06_distributed_systems/03_raft_consensus.py. A handler is given the time, the
-- timeout that `rng.randint(10, 20)` would draw, and the node; it returns the node and the messages
-- that it sends, in order, each with its destination. The dicts `next_index` and `match_index` are
-- functions on the peers, and the set `votes` is its membership test.
pub mod Log
use learn_system_design.Prelude.{
  ℕ, zero, suc, ◌+◌, ◌-◌, ◌/◌, min, max, Bool, true, false, not, ◌&&◌, ◌||◌, Option, none, some,
  List, [], ◌∷◌, ◌++◌, ltb, leb, ◌==◌, if◌then◌else◌, length, get_elem?, take, drop, String, map,
}
use Log.{Entry, term_at, last_term, store, find_commit, replicas, card}

abbrev pub n_nodes : ℕ
n_nodes = 5

abbrev pub majority : ℕ
majority = n_nodes / 2 + 1

abbrev pub heartbeat_every : ℕ
heartbeat_every = 3

pub data Role : Type 0 where
  follower candidate leader : Role

pub data Message : Type 0 where
  -- last_log_index, last_log_term
  request_vote : ℕ → ℕ → ℕ → Message
  vote_reply : ℕ → Bool → Message
  -- term, prev_index, prev_term, entries, leader_commit
  append_entries : ℕ → ℕ → ℕ → List Entry → ℕ → Message
  -- term, success, match
  append_reply : ℕ → Bool → ℕ → Message

pub record Node : Type 0 where
  pub id : ℕ
  pub alive : Bool
  pub term : ℕ
  pub voted_for : Option ℕ
  pub log : List Entry
  pub state : Role
  pub commit_index : ℕ
  pub votes : ℕ → Bool
  pub next_index : ℕ → ℕ
  pub match_index : ℕ → ℕ
  pub next_heartbeat : ℕ
  pub election_deadline : ℕ

-- What a handler returns.
abbrev pub Out : Type 0
Out = Node × List (ℕ × Message)

-- `d[p] = v`
unfoldable pub update : {A : Type 0} → (ℕ → A) → ℕ → A → ℕ → A
update f p v q = if q == p then v else f q

unfoldable pub peers_of : ℕ → List ℕ → List ℕ
peers_of id [] = []
peers_of id (i ∷ ids) = let rest = peers_of id ids in if i == id then rest else i ∷ rest

-- `peers`
unfoldable pub peers : Node → List ℕ
unfolding peers_of
peers n = peers_of n.id (0 ∷ 1 ∷ 2 ∷ 3 ∷ 4 ∷ [])

-- `reset_election_timer`
unfoldable pub reset_election_timer : ℕ → ℕ → Node → Node
reset_election_timer now timeout n = record n { election_deadline = now + timeout }

unfoldable pub become_follower : ℕ → Node → Node
become_follower term n = record n { state = follower; term = term; voted_for = none }

unfoldable pub start_election : ℕ → ℕ → Node → Out
unfolding reset_election_timer
start_election now timeout n =
    let n' = reset_election_timer now timeout (record n {
      state = candidate;
      term = n.term + 1;
      voted_for = some n.id;
      votes = λ v. v == n.id;
    }) in
    (n', map (λ p. (p, request_vote n'.term (length n'.log) (last_term n'.log))) (peers n))

-- The message of `broadcast_append_entries` to one peer.
unfoldable pub append_to : Node → ℕ → ℕ × Message
append_to n p =
    let prev = n.next_index p in
    (
      p,
      append_entries n.term prev (if ltb 0 prev then term_at n.log (prev - 1) else 0)
          (drop prev n.log) n.commit_index,
    )

unfoldable pub broadcast_append_entries : ℕ → Node → Out
unfolding append_to
broadcast_append_entries now n =
    let n' = record n { next_heartbeat = now + heartbeat_every } in
    (n', map (append_to n') (peers n))

unfoldable pub become_leader : ℕ → Node → Out
unfolding broadcast_append_entries
become_leader now n =
    broadcast_append_entries now
      (record n { state = leader; next_index = λ p. length n.log; match_index = λ p. 0 })

unfoldable pub is_leader : Role → Bool
is_leader leader = true
is_leader _ = false

unfoldable pub is_candidate : Role → Bool
is_candidate candidate = true
is_candidate _ = false

-- `tick`
unfoldable pub tick : ℕ → ℕ → Node → Out
unfolding broadcast_append_entries start_election is_leader
tick now timeout n =
    if not n.alive
    then (n, [])
    else if is_leader n.state
    then (if leb n.next_heartbeat now then broadcast_append_entries now n else (n, []))
    else if leb n.election_deadline now
    then start_election now timeout n
    else (n, [])

-- `client_submit`; `none` is the failed `assert`
unfoldable pub client_submit : String → Node → Option Node
unfolding is_leader
client_submit command n =
    if is_leader n.state then some (record n { log = n.log ++ (n.term, command) ∷ [] }) else none

-- `self.voted_for in (None, src)`
unfoldable pub may_vote : Option ℕ → ℕ → Bool
may_vote none src = true
may_vote (some c) src = c == src

-- `(last_log_term, last_log_index) >= (self.last_log_term(), len(self.log))`
unfoldable pub up_to_date : Node → ℕ → ℕ → Bool
up_to_date n index term =
    ltb (last_term n.log) term || (term == last_term n.log && leb (length n.log) index)

unfoldable pub on_request_vote : ℕ → ℕ → Node → ℕ → ℕ → ℕ → ℕ → Out
unfolding may_vote up_to_date reset_election_timer
on_request_vote now timeout n src term index last =
    let grant = term == n.term && may_vote n.voted_for src && up_to_date n index last in
    let n' =
      if grant then reset_election_timer now timeout (record n { voted_for = some src }) else n in
    (n', (src, vote_reply n.term grant) ∷ [])

unfoldable pub on_vote_reply : ℕ → Node → ℕ → ℕ → Bool → Out
unfolding is_candidate become_leader update
on_vote_reply now n src term granted =
    if is_candidate n.state && term == n.term && granted
    then (let n' = record n { votes = update n.votes src true } in
        if leb majority (card n_nodes n'.votes) then become_leader now n' else (n', []))
    else (n, [])

-- `prev > len(self.log) or (prev > 0 and self.log[prev - 1][0] != prev_term)`
unfoldable pub is_mismatch : List Entry → ℕ → ℕ → Bool
is_mismatch log prev prev_term =
    ltb (length log) prev || (ltb 0 prev && not (term_at log (prev - 1) == prev_term))

unfoldable pub on_append_entries : ℕ → ℕ → Node → ℕ → ℕ → ℕ → ℕ → List Entry → ℕ → Out
unfolding is_mismatch reset_election_timer
on_append_entries now timeout n src term prev prev_term entries leader_commit =
    if ltb term n.term
    then (n, (src, append_reply n.term false 0) ∷ [])
    else (let n' = reset_election_timer now timeout (record n { state = follower }) in
        if is_mismatch n.log prev prev_term
        then (n', (src, append_reply n.term false 0) ∷ [])
        else (let match = prev + length entries in
            (
              record n' {
                log = store prev entries n.log;
                commit_index = max n.commit_index (min leader_commit match);
              },
              (src, append_reply n.term true match) ∷ [],
            )))

-- `advance_commit`
unfoldable pub advance_commit : Node → Node
advance_commit n = record n {
  commit_index =
      find_commit n.commit_index n.term n.log (replicas n.match_index (peers n)) (length n.log);
}

unfoldable pub on_append_reply : Node → ℕ → ℕ → Bool → ℕ → Out
unfolding is_leader advance_commit update
on_append_reply n p term success match =
    if not (is_leader n.state) || not (term == n.term)
    then (n, [])
    else if success
    then (let m = max (n.match_index p) match in
        (
          advance_commit (record n {
            match_index = update n.match_index p m;
            next_index = update n.next_index p m;
          }),
          [],
        ))
    else (record n { next_index = update n.next_index p (n.next_index p - 1) }, [])

unfoldable pub term_of : Message → ℕ
term_of (request_vote term index last) = term
term_of (vote_reply term granted) = term
term_of (append_entries term prev prev_term entries commit) = term
term_of (append_reply term success match) = term

unfoldable pub handle : ℕ → ℕ → Node → ℕ → Message → Out
handle now timeout n src (request_vote term index last) =
    on_request_vote now timeout n src term index last
handle now timeout n src (vote_reply term granted) = on_vote_reply now n src term granted
handle now timeout n src (append_entries term prev prev_term entries commit) =
    on_append_entries now timeout n src term prev prev_term entries commit
handle now timeout n src (append_reply term success match) =
    on_append_reply n src term success match

-- `on_message`
unfoldable pub on_message : ℕ → ℕ → Node → ℕ → Message → Out
unfolding term_of become_follower
on_message now timeout n src msg =
    handle now timeout (if ltb n.term (term_of msg) then become_follower (term_of msg) n else n) src
      msg
