-- ===== src/Raft/Replication.antt =====
-- What a follower's log holds after it has taken entries, and what a leader may commit.
use learn_system_design.Prelude.{
  ℕ, zero, suc, ◌+◌, ◌-◌, ◌≤◌, ◌<◌, ◌≡◌, inl, inr, ◌&&◌, not, List, [], ◌∷◌, ◌++◌, arith, ◌==◌,
  if◌then◌else◌, Bool-cases, ap, sym, ◌∙◌, leb, ltb, length, take,
}
use native.Mathlib.Nat.{add-zero}
use mathlib.Core.List.{append-nil, append_assoc}
use learn_system_design.Raft.Node.Log.{Entry, term_at, drop_conflict, store, replicas}
use learn_system_design.Raft.Node.{Node, majority, peers}

-- The terms of a log. A log's entry is known by its index and its term.
abbrev pub terms : List Entry → List ℕ
terms [] = []
terms (e ∷ log) = e.0 ∷ terms log

-- One entry: where a kept log is long enough it holds the entry's term at the index.
place : ℕ → Entry → List Entry → List Entry
place idx entry log =
    let kept = drop_conflict idx entry log in
    if leb (length kept) idx then kept ++ entry ∷ [] else kept

place-cons :
    (idx : ℕ) (entry x : Entry) (log : List Entry)
    → place (suc idx) entry (x ∷ log) ≡ x ∷ place idx entry log
unfolding place drop_conflict
place-cons idx entry x log =
    elim (Bool-cases (ltb idx (length log) && not (term_at log idx == entry.0))) [
      | inl bad ↦ ground arith
      | inr good ↦ ground arith
    ]

terms-place :
    (idx : ℕ) (entry : Entry) (log : List Entry)
    → idx ≤ length log
    → (idx < length (place idx entry log))
      × (terms (take (suc idx) (place idx entry log)) ≡ terms (take idx log) ++ entry.0 ∷ [])
terms-place zero entry [] h = unfold place drop_conflict in ground arith
terms-place zero entry (x ∷ log) h = unfold place drop_conflict in ground arith
terms-place (suc idx) entry [] h = absurd (omega arith)
terms-place (suc idx) entry (x ∷ log) h =
    let (longer, same) = terms-place idx entry log (omega arith) in
    rw place-cons (omega arith, ap (◌∷◌ x.0) same)

-- After a follower has taken entries from an index in its log on, its terms up to the end of these
-- entries are its old ones up to the index and those of the entries.
pub store-terms :
    (idx : ℕ) (entries log : List Entry)
    → idx ≤ length log
    → terms (take (idx + length entries) (store idx entries log))
      ≡ terms (take idx log) ++ terms entries
unfolding store place
store-terms idx [] log h = rw add-zero (sym (append-nil (terms (take idx log))))
store-terms idx (entry ∷ entries) log h =
    let (longer, same) = terms-place idx entry log h in
    let ih = store-terms (idx + 1) entries (place idx entry log) (omega arith) in
    let e : idx + suc (length entries) ≡ idx + 1 + length entries = omega arith in
    let one : idx + 1 ≡ suc idx = omega arith in
    ap (λ m. terms (take m (store (idx + 1) entries (place idx entry log)))) e
    ∙ ih
    ∙ ap (λ m. terms (take m (place idx entry log)) ++ terms entries) one
    ∙ ap (λ l. l ++ terms entries) same
    ∙ append_assoc (terms (take idx log)) (entry.0 ∷ []) (terms entries)

-- Above the commit index, in the log, of the term, and on a majority of the nodes by this count.
record IsFound (commit term : ℕ) (log : List Entry) (count : ℕ → ℕ) (n i : ℕ) : Type 0 where
  above : commit < i
  inside : i ≤ n
  enough : majority ≤ count i
  own : term_at log (i - 1) ≡ term

-- The leader may commit up to this index: it is above its commit index and in its log, the leader and the
-- followers whose match index reaches it are a majority, and its entry is of the leader's term.
pub record IsCommittable (n : Node) (i : ℕ) : Type 0 where
  pub above : n.commit_index < i
  pub inside : i ≤ length n.log
  pub enough : majority ≤ replicas n.match_index (peers n) i
  pub own : term_at n.log (i - 1) ≡ n.term
