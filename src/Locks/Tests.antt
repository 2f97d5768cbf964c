-- ===== src/Locks/Tests.antt =====
-- The scenario of the lesson, and the theorems at inputs.
use learn_system_design.Prelude.{◌≡◌, refl, true, List, [], ◌∷◌, ◌++◌}
use learn_system_design.Locks.{Storage, fresh, acquire, write}
use learn_system_design.Locks.Leases
use learn_system_design.Locks.Leases.{leases, Exclusive, leases_never_overlap}
use learn_system_design.Locks.Fencing
use learn_system_design.Locks.Fencing.{
  accepted_writes, after, contents, InTokenOrder, fenced_writes,
}

-- client 1 takes a lease of 10 at time 0, client 2 asks at 5 and at 12
abbrev requests : List Leases.Request
requests =
    record { client = 1; now = 0; ttl = 10 }
    ∷ record { client = 2; now = 5; ttl = 10 }
    ∷ record { client = 2; now = 12; ttl = 10 }
    ∷ []

granted_leases :
    leases fresh requests
    ≡ record { from = 0; until = 10; token = 34 }
      ∷ record { from = 12; until = 22; token = 35 }
      ∷ []
unfolding leases acquire
granted_leases = refl

leases_never_overlap_example : Exclusive 0 33 (leases fresh requests)
leases_never_overlap_example = leases_never_overlap requests

abbrev storage : Storage
storage = record { check_fencing = true; max_token_seen = 0; written = [] }

-- client 2 writes 66 under token 35, and client 1 wakes up and writes 65 under token 34
abbrev writes : List Fencing.Request
writes =
    record { client = 2; token = 35; value = 66 }
    ∷ record { client = 1; token = 34; value = 65 }
    ∷ []

stale_write_rejected : (after storage writes).written ≡ (2, 66) ∷ []
unfolding after write
stale_write_rejected = refl

fenced_writes_example :
    InTokenOrder 0 (accepted_writes storage writes)
    × ((after storage writes).written ≡ [] ++ contents (accepted_writes storage writes))
fenced_writes_example = fenced_writes storage writes refl
