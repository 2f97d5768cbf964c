-- ===== src/UniqueId/Snowflake.antt =====
-- `Snowflake` of 06_distributed_systems/09_unique_id_generation.py. The clock is outside the
-- program: a call is given the readings that `self.clock()` will return, in order, and returns
-- those that it leaves. The lock makes each call one step. A reading before the epoch is not
-- modelled: `now - EPOCH_MS` stops at 0.
pub mod Fields
pub mod Order
use learn_system_design.Prelude.{
  ℕ, zero, suc, ◌+◌, ◌-◌, ◌*◌, ◌/◌, ◌^◌, Bool, true, false, Option, none, some, List, [], ◌∷◌, ltb,
  leb, ◌==◌, if◌then◌else◌, bit_and, bit_or,
}

abbrev pub epoch_ms : ℕ
epoch_ms = 1_704_067_200_000

abbrev pub machine_bits : ℕ
machine_bits = 10

abbrev pub sequence_bits : ℕ
sequence_bits = 12

abbrev pub max_machine : ℕ
max_machine = 2 ^ machine_bits - 1

abbrev pub max_sequence : ℕ
max_sequence = 2 ^ sequence_bits - 1

-- `last_ms` is `none` for the -1 of `__init__`.
pub record Snowflake : Type 0 where
  pub machine_id : ℕ
  pub last_ms : Option ℕ
  pub sequence : ℕ

-- `__init__`, which raises `ValueError` at a machine id out of range
unfoldable pub init : ℕ → Option Snowflake
init machine_id =
    if leb machine_id max_machine
    then some (record { machine_id = machine_id; last_ms = none; sequence = 0 })
    else none

-- The id of three fields.
unfoldable pub pack : ℕ → ℕ → ℕ → ℕ
pack now machine_id sequence =
    bit_or
      (bit_or ((now - epoch_ms) * 2 ^ (machine_bits + sequence_bits))
        (machine_id * 2 ^ sequence_bits))
      sequence

-- `waiting`: the readings ended inside the loop that waits for the next millisecond.
pub data Reply : Type 0 where
  issued : Snowflake → ℕ → List ℕ → Reply
  refused : List ℕ → Reply
  waiting : Reply

-- what follows the branches
unfoldable pub issue : Snowflake → ℕ → ℕ → List ℕ → Reply
unfolding pack
issue s sequence now readings =
    issued (record s { sequence = sequence; last_ms = some now }) (pack now s.machine_id sequence)
      readings

-- `while now <= self.last_ms: now = self.clock()`, from the second reading on
unfoldable pub wait_past : ℕ → Snowflake → List ℕ → Reply
unfolding issue
wait_past last s [] = waiting
wait_past last s (now ∷ readings) =
    let rest = wait_past last s readings in if leb now last then rest else issue s 0 now readings

unfoldable pub next_after : Option ℕ → Snowflake → ℕ → List ℕ → Reply
unfolding wait_past
next_after none s now readings = issue s 0 now readings
next_after (some last) s now readings =
    if ltb now last
    then refused readings
    else if now == last
    then (let sequence = bit_and (s.sequence + 1) max_sequence in
        if sequence == 0 then wait_past last s readings else issue s sequence now readings)
    else issue s 0 now readings

-- `next_id`
unfoldable pub next_id : Snowflake → List ℕ → Reply
unfolding next_after
next_id s [] = waiting
next_id s (now ∷ readings) = next_after s.last_ms s now readings

pub record Parsed : Type 0 where
  pub timestamp_ms : ℕ
  pub machine : ℕ
  pub sequence : ℕ

-- `parse`, but for the printed time
unfoldable pub parse : ℕ → Parsed
parse sid = record {
  sequence = bit_and sid max_sequence;
  machine = bit_and (sid / 2 ^ sequence_bits) max_machine;
  timestamp_ms = sid / 2 ^ (machine_bits + sequence_bits) + epoch_ms;
}
