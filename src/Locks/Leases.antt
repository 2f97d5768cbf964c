-- ===== src/Locks/Leases.antt =====
-- The leases that a lock service grants.
use learn_system_design.Prelude.{
  ℕ, ◌+◌, ◌≤◌, ◌<◌, ◌≡◌, Option, none, some, List, [], ◌∷◌, arith, ◌⊎◌, inl, inr,
}
use learn_system_design.Locks.{LockService, fresh, acquire}

-- A client that asks for the lock at a time, for so long.
pub record Request : Type 0 where
  pub client : ℕ
  pub now : ℕ
  pub ttl : ℕ

-- A lease that was granted: when it begins and ends, and its token.
pub record Lease : Type 0 where
  pub from : ℕ
  pub until : ℕ
  pub token : ℕ

unfoldable pub granted : Option ℕ → Request → List Lease → List Lease
granted none r rest = rest
granted (some token) r rest = record { from = r.now; until = r.now + r.ttl; token = token } ∷ rest

-- The leases of a run of requests.
unfoldable pub leases : LockService → List Request → List Lease
unfolding granted
leases s [] = []
leases s (r ∷ requests) =
    let rest = leases (acquire s r.client r.now r.ttl).0 requests in
    granted (acquire s r.client r.now r.ttl).1 r rest

-- Each lease begins after the one before it has ended, with a greater token.
abbrev pub Exclusive : ℕ → ℕ → List Lease → Type 0
Exclusive free token [] = Unit {0}
Exclusive free token (l ∷ rest) =
    (free ≤ l.from) × (token < l.token) × Exclusive l.until l.token rest

-- The lock is free from a time on: at once, or when the lease ends.
abbrev pub free_from : LockService → ℕ
free_from s = elim s.holder [ none ↦ 0 | some c ↦ s.expires_at ]

acquire-cases :
    (s : LockService) (client now ttl : ℕ)
    → (((acquire s client now ttl).0 ≡ s) × ((acquire s client now ttl).1 ≡ none))
      ⊎ (((acquire s client now ttl).0
            ≡ record { holder = some client; expires_at = now + ttl; token = s.token + 1 })
          × ((acquire s client now ttl).1 ≡ some (s.token + 1))
          × (free_from s ≤ now))
unfolding acquire
acquire-cases s client now ttl = ground arith

leases-Exclusive :
    (s : LockService) (requests : List Request)
    → Exclusive (free_from s) s.token (leases s requests)
unfolding leases
leases-Exclusive s [] = tt
leases-Exclusive s (r ∷ requests) =
    let ih = leases-Exclusive (acquire s r.client r.now r.ttl).0 requests in
    elim (acquire-cases s r.client r.now r.ttl) [
      | inl (same, nothing) ↦ rw (nothing, same) (rw same at ih)
      | inr (new, token, free) ↦ rw (token, new) (free, omega arith, rw new at ih)
    ]

-- Whatever the requests and their times, the leases that a new service grants never overlap: each
-- begins when the one before it is over, and has a greater token.
pub leases_never_overlap : (requests : List Request) → Exclusive 0 33 (leases fresh requests)
leases_never_overlap requests = leases-Exclusive fresh requests
