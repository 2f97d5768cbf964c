-- ===== src/UniqueId/Snowflake/Fields.antt =====
-- The fields of an id.
use learn_system_design.Prelude.{ap, ◌∙◌, ℕ, ◌+◌, ◌-◌, ◌*◌, ◌/◌, ◌≤◌, ◌≡◌, arith, bit_or}
use learn_system_design.Prelude.Bits.{or_shifted, and_mask}
use learn_system_design.UniqueId.Snowflake.{epoch_ms, max_machine, max_sequence, pack, parse}

-- The fields do not overlap: the id is their sum.
pub pack-eq-sum :
    (now machine_id sequence : ℕ)
    → machine_id ≤ max_machine
    → sequence ≤ max_sequence
    → pack now machine_id sequence ≡ (now - epoch_ms) * 4194304 + machine_id * 4096 + sequence
unfolding pack
pack-eq-sum now machine_id sequence m s =
    let ms = now - epoch_ms in
    let low : ms * 4194304 + machine_id * 4096 ≡ (ms * 1024 + machine_id) * 4096 = omega arith in
    ap (λ x. bit_or x sequence) (or_shifted 22 ms (machine_id * 4096) (omega arith) ∙ low)
    ∙ or_shifted 12 (ms * 1024 + machine_id) sequence (omega arith)
    ∙ omega arith

-- `parse` reads back the three fields that an id was packed from.
pub parse-pack :
    (now machine_id sequence : ℕ)
    → epoch_ms ≤ now
    → machine_id ≤ max_machine
    → sequence ≤ max_sequence
    → parse (pack now machine_id sequence)
      ≡ record { timestamp_ms = now; machine = machine_id; sequence = sequence }
unfolding parse
parse-pack now machine_id sequence e m s =
    let sum = pack-eq-sum now machine_id sequence m s in
    let sid = pack now machine_id sequence in
    ground (arith, and_mask 12 sid, and_mask 10 (sid / 4096))
