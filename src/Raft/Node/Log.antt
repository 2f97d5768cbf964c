-- ===== src/Raft/Node/Log.antt =====
-- What a node reads of its log and writes to it, and the size of a set of nodes.
use learn_system_design.Prelude.{
  ℕ, zero, suc, ◌+◌, Bool, not, ◌&&◌, Option, none, some, List, [], ◌∷◌, ◌++◌, ltb, leb, ◌==◌,
  if◌then◌else◌, length, get_elem?, take, String,
}

-- A term and a command.
abbrev pub Entry : Type 0
Entry = ℕ × String

abbrev term_or_zero : Option Entry → ℕ
term_or_zero none = 0
term_or_zero (some e) = e.0

-- `log[i][0]`; the program reads no index out of range
unfoldable pub term_at : List Entry → ℕ → ℕ
term_at log i = term_or_zero (get_elem? log i)

-- `last_log_term`
unfoldable pub last_term : List Entry → ℕ
last_term [] = 0
last_term (e ∷ []) = e.0
last_term (e ∷ e' ∷ log) = last_term (e' ∷ log)

-- `if idx < len(self.log) and self.log[idx][0] != entry[0]: del self.log[idx:]`
unfoldable pub drop_conflict : ℕ → Entry → List Entry → List Entry
unfolding term_at
drop_conflict idx entry log =
    if ltb idx (length log) && not (term_at log idx == entry.0) then take idx log else log

-- The loop of `on_AppendEntries` over the entries.
unfoldable pub store : ℕ → List Entry → List Entry → List Entry
unfolding drop_conflict
store idx [] log = log
store idx (entry ∷ entries) log =
    let kept = drop_conflict idx entry log in
    store (idx + 1) entries (if leb (length kept) idx then kept ++ entry ∷ [] else kept)

-- `1 + sum(1 for m in self.match_index.values() if m >= n)`
unfoldable pub replicas : (ℕ → ℕ) → List ℕ → ℕ → ℕ
replicas match_index [] n = 1
replicas match_index (p ∷ peers) n =
    (if leb n (match_index p) then 1 else 0) + replicas match_index peers n

-- `for n in range(len(self.log), self.commit_index, -1)`: the first index on a majority, of this
-- term, or the old one.
unfoldable pub find_commit : ℕ → ℕ → List Entry → (ℕ → ℕ) → ℕ → ℕ
unfolding term_at
find_commit commit term log replicas zero = commit
find_commit commit term log replicas (suc n) =
    let rest = find_commit commit term log replicas n in
    if leb (suc n) commit
    then commit
    else if leb 3 (replicas (suc n)) && term_at log n == term
    then suc n
    else rest

-- `len(votes)`: how many of the nodes below `n` are in the set.
unfoldable pub card : ℕ → (ℕ → Bool) → ℕ
card zero votes = 0
card (suc n) votes = (if votes n then 1 else 0) + card n votes
