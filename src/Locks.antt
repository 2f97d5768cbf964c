-- ===== src/Locks.antt =====
-- 06_distributed_systems/08_distributed_locks_leases.py: leases with fencing tokens, and a storage
-- that checks them. Clients, values and times are numbers.
pub mod Leases
pub mod Fencing
mod Tests
use learn_system_design.Prelude.{
  ℕ, ◌+◌, max, Bool, true, false, ◌&&◌, ◌||◌, Option, none, some, List, [], ◌∷◌, ◌++◌, ltb, leb,
  if◌then◌else◌,
}

pub record LockService : Type 0 where
  pub holder : Option ℕ
  pub expires_at : ℕ
  pub token : ℕ

-- `__init__`
abbrev pub fresh : LockService
fresh = record { holder = none; expires_at = 0; token = 33 }

-- `self.holder is None`
unfoldable pub is_none : Option ℕ → Bool
is_none none = true
is_none (some c) = false

-- `acquire(client, now, ttl)`: the token, if the lease is granted
unfoldable pub acquire : LockService → ℕ → ℕ → ℕ → LockService × Option ℕ
unfolding is_none
acquire s client now ttl =
    if is_none s.holder || leb s.expires_at now
    then (
      record { holder = some client; expires_at = now + ttl; token = s.token + 1 },
      some (s.token + 1),
    )
    else (s, none)

-- `data` pairs a client with its value.
pub record Storage : Type 0 where
  pub check_fencing : Bool
  pub max_token_seen : ℕ
  pub written : List (ℕ × ℕ)

pub data Reply : Type 0 where
  accepted : Reply
  rejected : ℕ → ℕ → Reply

-- `write(client, token, value)`
unfoldable pub write : Storage → ℕ → ℕ → ℕ → Storage × Reply
write s client token value =
    if s.check_fencing && ltb token s.max_token_seen
    then (s, rejected token s.max_token_seen)
    else (
      record s {
        max_token_seen = max s.max_token_seen token;
        written = s.written ++ (client, value) ∷ [];
      },
      accepted,
    )
