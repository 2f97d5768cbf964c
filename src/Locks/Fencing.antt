-- ===== src/Locks/Fencing.antt =====
-- What a storage that checks fencing tokens accepts.
use learn_system_design.Prelude.{
  ℕ, ◌≤◌, ◌<◌, ◌≡◌, refl, true, List, [], ◌∷◌, ◌++◌, arith, inl, inr, ◌⊎◌, sym, ◌∙◌,
}
use mathlib.Core.List.{append-nil, append_assoc}
use learn_system_design.Locks.{Storage, Reply, accepted, rejected, write}

-- A client that writes a value under the token it holds.
pub record Request : Type 0 where
  pub client : ℕ
  pub token : ℕ
  pub value : ℕ

unfoldable pub keep_accepted : Reply → Request → List Request → List Request
keep_accepted accepted r rest = r ∷ rest
keep_accepted (rejected token seen) r rest = rest

-- The requests of a run that the storage accepts, and the storage after the run.
unfoldable pub accepted_writes : Storage → List Request → List Request
unfolding keep_accepted
accepted_writes s [] = []
accepted_writes s (r ∷ requests) =
    let rest = accepted_writes (write s r.client r.token r.value).0 requests in
    keep_accepted (write s r.client r.token r.value).1 r rest

unfoldable pub after : Storage → List Request → Storage
after s [] = s
after s (r ∷ requests) = after (write s r.client r.token r.value).0 requests

-- The tokens never fall.
abbrev pub InTokenOrder : ℕ → List Request → Type 0
InTokenOrder seen [] = Unit {0}
InTokenOrder seen (r ∷ rest) = (seen ≤ r.token) × InTokenOrder r.token rest

abbrev pub contents : List Request → List (ℕ × ℕ)
contents [] = []
contents (r ∷ rest) = (r.client, r.value) ∷ contents rest

-- The storage after an accepted write.
abbrev wrote : Storage → Request → Storage
wrote s r = record {
  check_fencing = true;
  max_token_seen = r.token;
  written = s.written ++ (r.client, r.value) ∷ [];
}

write-cases :
    (s : Storage) (r : Request)
    → s.check_fencing ≡ true
    → (((write s r.client r.token r.value).0 ≡ s)
        × ((write s r.client r.token r.value).1 ≡ rejected r.token s.max_token_seen)
        × (r.token < s.max_token_seen))
      ⊎ (((write s r.client r.token r.value).0 ≡ wrote s r)
          × ((write s r.client r.token r.value).1 ≡ accepted)
          × (s.max_token_seen ≤ r.token))
unfolding write
write-cases s r fenced = ground arith

accepted-InTokenOrder :
    (s : Storage) (requests : List Request)
    → s.check_fencing ≡ true
    → InTokenOrder s.max_token_seen (accepted_writes s requests)
unfolding accepted_writes
accepted-InTokenOrder s [] fenced = tt
accepted-InTokenOrder s (r ∷ requests) fenced = elim (write-cases s r fenced) [
  | inl (same, no_write, old) ↦ rw (no_write, same) (accepted-InTokenOrder s requests fenced)
  | inr (new, written, newer) ↦
      rw (written, new) (newer, accepted-InTokenOrder (wrote s r) requests refl)
]

after-written :
    (s : Storage) (requests : List Request)
    → s.check_fencing ≡ true
    → (after s requests).written ≡ s.written ++ contents (accepted_writes s requests)
unfolding accepted_writes after
after-written s [] fenced = sym (append-nil s.written)
after-written s (r ∷ requests) fenced = elim (write-cases s r fenced) [
  | inl (same, no_write, old) ↦ rw (no_write, same, after) (after-written s requests fenced)
  | inr (new, written, newer) ↦
      rw (written, new, after)
        (after-written (wrote s r) requests refl
          ∙ append_assoc s.written ((r.client, r.value) ∷ [])
              (contents (accepted_writes (wrote s r) requests)))
]

-- A storage that checks tokens accepts writes only in the order of their tokens, so a write of an
-- older lease after one of a newer is not among them; and it holds what it held and just the
-- accepted writes, in order.
pub fenced_writes :
    (s : Storage) (requests : List Request)
    → s.check_fencing ≡ true
    → InTokenOrder s.max_token_seen (accepted_writes s requests)
      × ((after s requests).written ≡ s.written ++ contents (accepted_writes s requests))
fenced_writes s requests fenced =
    (accepted-InTokenOrder s requests fenced, after-written s requests fenced)
