-- ===== src/UniqueId/Snowflake/Order.antt =====
-- The ids of one generator strictly increase, whatever its clock shows.
use learn_system_design.Prelude.{
  ℕ, zero, suc, ◌+◌, ◌≤◌, ◌<◌, ◌≡◌, refl, Option, none, some, List, [], ◌∷◌, arith, Bool-cases, inl,
  inr, bit_and, ltb, leb, ◌==◌,
}
use learn_system_design.Prelude.Bits.{and_mask}
use learn_system_design.UniqueId.Snowflake.{
  epoch_ms, max_machine, max_sequence, Snowflake, init, pack, Reply, issued, refused, waiting,
  issue, wait_past, next_after, next_id,
}
use learn_system_design.UniqueId.Snowflake.Fields.{pack-eq-sum}

-- No reading lies before the epoch.
abbrev pub AfterEpoch : List ℕ → Type 0
AfterEpoch [] = Unit {0}
AfterEpoch (now ∷ readings) = (epoch_ms ≤ now) × AfterEpoch readings

abbrev LastAfterEpoch : Option ℕ → Type 0
LastAfterEpoch none = Unit {0}
LastAfterEpoch (some last) = epoch_ms ≤ last

record IsValid (s : Snowflake) : Type 0 where
  machine_fits : s.machine_id ≤ max_machine
  sequence_fits : s.sequence ≤ max_sequence
  after_epoch : LastAfterEpoch s.last_ms

-- Every id so far lies below.
floor_at : Option ℕ → ℕ → ℕ → ℕ
floor_at none machine_id sequence = 0
floor_at (some last) machine_id sequence = pack last machine_id sequence + 1

abbrev floor : Snowflake → ℕ
floor s = floor_at s.last_ms s.machine_id s.sequence

-- What a call from a generator with that floor must reply.
abbrev Good : ℕ → Reply → Type 0
Good f (issued s id readings) = IsValid s × (f ≤ id) × (floor s ≡ id + 1) × AfterEpoch readings
Good f (refused readings) = AfterEpoch readings
Good f waiting = Unit {0}

-- An id of this millisecond and sequence number is above a floor with a smaller pair.
issue-Good :
    (f : ℕ) (s : Snowflake) (sequence now : ℕ) (readings : List ℕ)
    → IsValid s
    → epoch_ms ≤ now
    → sequence ≤ max_sequence
    → f ≤ pack now s.machine_id sequence
    → AfterEpoch readings
    → Good f (issue s sequence now readings)
unfolding issue floor_at
issue-Good f s sequence now readings v e q above r =
    (record { machine_fits = v.machine_fits; sequence_fits = q; after_epoch = e }, above, refl, r)

-- A later millisecond is above.
floor-le-later :
    (last now machine_id sequence sequence' : ℕ)
    → epoch_ms ≤ last
    → last < now
    → machine_id ≤ max_machine
    → sequence ≤ max_sequence
    → sequence' ≤ max_sequence
    → floor_at (some last) machine_id sequence ≤ pack now machine_id sequence'
unfolding floor_at
floor-le-later last now machine_id sequence sequence' e l m q q' =
    omega
      (arith, pack-eq-sum last machine_id sequence m q, pack-eq-sum now machine_id sequence' m q')

wait_past-Good :
    (last : ℕ) (s : Snowflake) (readings : List ℕ)
    → IsValid s
    → epoch_ms ≤ last
    → AfterEpoch readings
    → Good (floor_at (some last) s.machine_id s.sequence) (wait_past last s readings)
unfolding wait_past
wait_past-Good last s [] v e r = tt
wait_past-Good last s (now ∷ readings) v e r = elim (Bool-cases (leb now last)) [
  | inl early ↦ rw early (wait_past-Good last s readings v e r.1)
  | inr late ↦ rw late (
      issue-Good _ s 0 now readings v r.0 (omega arith)
        (floor-le-later last now s.machine_id s.sequence 0 e (ground arith) v.machine_fits
          v.sequence_fits (omega arith))
        r.1)
]

next_after-Good :
    (last_ms : Option ℕ) (s : Snowflake) (now : ℕ) (readings : List ℕ)
    → IsValid s
    → LastAfterEpoch last_ms
    → epoch_ms ≤ now
    → AfterEpoch readings
    → Good (floor_at last_ms s.machine_id s.sequence) (next_after last_ms s now readings)
unfolding next_after
next_after-Good none s now readings v e k r =
    unfold floor_at in issue-Good _ s 0 now readings v k (omega arith) (omega arith) r
next_after-Good (some last) s now readings v e k r = elim (Bool-cases (ltb now last)) [
  | inl back ↦ rw back r
  | inr forth ↦ rw forth (elim (Bool-cases (now == last)) [
    | inl same ↦ rw same (elim (Bool-cases (bit_and (s.sequence + 1) max_sequence == 0)) [
      | inl full ↦ rw full (wait_past-Good last s readings v e r)
      | inr room ↦
          let mask = and_mask 12 (s.sequence + 1) in
          let sum =
            pack-eq-sum now s.machine_id (bit_and (s.sequence + 1) max_sequence) v.machine_fits
              (omega (arith, mask)) in
          let sum' = pack-eq-sum last s.machine_id s.sequence v.machine_fits v.sequence_fits in
          rw room (
            issue-Good _ s (bit_and (s.sequence + 1) max_sequence) now readings v k
              (omega (arith, mask)) (unfold floor_at in ground (arith, mask, sum, sum')) r)
    ])
    | inr other ↦ rw other (
        issue-Good _ s 0 now readings v k (omega arith)
          (floor-le-later last now s.machine_id s.sequence 0 e (ground arith) v.machine_fits
            v.sequence_fits (omega arith))
          r)
  ])
]

next_id-Good :
    (s : Snowflake) (readings : List ℕ)
    → IsValid s
    → AfterEpoch readings
    → Good (floor s) (next_id s readings)
unfolding next_id
next_id-Good s [] v r = tt
next_id-Good s (now ∷ readings) v r =
    next_after-Good s.last_ms s now readings v v.after_epoch r.0 r.1

-- The id of a reply and those of the calls that follow it. A refused call issues none, and one
-- that waits for ever is the last.
unfoldable pub ids_from : (Snowflake → List ℕ → List ℕ) → Snowflake → Reply → List ℕ
ids_from more s (issued s' id rest) = id ∷ more s' rest
ids_from more s (refused rest) = more s rest
ids_from more s waiting = []

-- The ids of `calls` calls.
unfoldable pub ids : ℕ → Snowflake → List ℕ → List ℕ
unfolding ids_from
ids zero s readings = []
ids (suc calls) s readings = ids_from (ids calls) s (next_id s readings)

-- Each number is greater than those before it, and none is below `f`.
abbrev pub Rises : ℕ → List ℕ → Type 0
Rises f [] = Unit {0}
Rises f (id ∷ rest) = (f ≤ id) × Rises (id + 1) rest

ids_from-Rises :
    (more : Snowflake → List ℕ → List ℕ) (s : Snowflake) (r : Reply)
    → ((s : Snowflake) (readings : List ℕ)
        → IsValid s
        → AfterEpoch readings
        → Rises (floor s) (more s readings))
    → IsValid s
    → Good (floor s) r
    → Rises (floor s) (ids_from more s r)
unfolding ids_from
ids_from-Rises more s (issued s' id rest) ih v g = (g.1, rw (← g.2) (ih s' rest g.0 g.3))
ids_from-Rises more s (refused rest) ih v g = ih s rest v g
ids_from-Rises more s waiting ih v g = tt

ids-Rises :
    (calls : ℕ) (s : Snowflake) (readings : List ℕ)
    → IsValid s
    → AfterEpoch readings
    → Rises (floor s) (ids calls s readings)
unfolding ids
ids-Rises zero s readings v r = tt
ids-Rises (suc calls) s readings v r =
    ids_from-Rises (ids calls) s (next_id s readings) (ids-Rises calls) v
      (next_id-Good s readings v r)

Rises-zero : (f : ℕ) (xs : List ℕ) → Rises f xs → Rises 0 xs
Rises-zero f [] h = tt
Rises-zero f (x ∷ xs) h = (omega arith, h.1)

init-IsValid : (machine_id : ℕ) {s : Snowflake} → init machine_id ≡ some s → IsValid s
unfolding init
init-IsValid machine_id {s} made =
    let fits : machine_id ≤ max_machine = ground arith in
    let e : record { machine_id = machine_id; last_ms = none; sequence = 0 } ≡ s = ground arith in
    rw (← e) (record { machine_fits = fits; sequence_fits = omega arith; after_epoch = tt })

-- Whatever a clock shows after the epoch, backwards too, a new generator issues ids that strictly
-- increase, so it issues none twice.
pub ids_increase :
    (machine_id calls : ℕ) (readings : List ℕ) (s : Snowflake)
    → init machine_id ≡ some s
    → AfterEpoch readings
    → Rises 0 (ids calls s readings)
ids_increase machine_id calls readings s made r =
    let v : IsValid s = init-IsValid machine_id made in
    Rises-zero (floor s) (ids calls s readings) (ids-Rises calls s readings v r)
