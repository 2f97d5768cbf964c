-- ===== src/Clocks/Tests.antt =====
-- The cart of the demo, and counters at two replicas.
use learn_system_design.Prelude.{ℕ, ◌<◌, List, ◌≡◌, refl, [], ◌∷◌, ℕ_discrete, inl, inr}
use learn_system_design.Prelude.Dict.{Dict, get, put}
use learn_system_design.Clocks.{
  concurrent, vc_increment, vc_merge, vc_compare, at, value, all_le, keys, or_zero, collect,
}
use learn_system_design.Clocks.Lamport.{
  Event, local_at, send_at, receive_at, timestamp, message, timestamp-Before,
}
use learn_system_design.Clocks.Vectors.{Means, vc_compare-Means}
use learn_system_design.Clocks.Counters.{merge_all, merge_all_converges}

abbrev v2 : Dict ℕ ℕ
v2 = (0, 2) ∷ []

conflict :
    vc_compare ℕ_discrete (vc_increment ℕ_discrete v2 1) (vc_increment ℕ_discrete v2 0) ≡ concurrent
unfolding vc_compare vc_increment all_le keys at or_zero get put ℕ_discrete
conflict = refl

resolved :
    vc_increment ℕ_discrete
      (vc_merge ℕ_discrete (vc_increment ℕ_discrete v2 1) (vc_increment ℕ_discrete v2 0))
      0
    ≡ (0, 4) ∷ (1, 1) ∷ []
unfolding vc_compare vc_increment vc_merge collect keys at or_zero get put ℕ_discrete
resolved = refl

vc_compare-Means_example :
    Means ℕ_discrete (vc_compare ℕ_discrete v2 ((0, 3) ∷ [])) v2 ((0, 3) ∷ [])
vc_compare-Means_example = vc_compare-Means ℕ_discrete v2 ((0, 3) ∷ [])

abbrev left : Dict ℕ ℕ
left = (0, 3) ∷ []

abbrev right : Dict ℕ ℕ
right = (1, 5) ∷ (0, 1) ∷ []

merge_all_converges_example :
    value (merge_all ℕ_discrete (left ∷ right ∷ left ∷ []) [])
    ≡ value (merge_all ℕ_discrete (right ∷ left ∷ []) [])
merge_all_converges_example =
    merge_all_converges ℕ_discrete (left ∷ right ∷ left ∷ []) (right ∷ left ∷ [])
      (unfold get ℕ_discrete in ((refl, tt), ((refl, (refl, tt)), ((refl, tt), tt))))
      (unfold get ℕ_discrete in ((refl, (refl, tt)), ((refl, tt), tt)))
      (inr (inl refl), (inl refl, (inr (inl refl), tt))) (inr (inl refl), (inl refl, tt))

-- The first two events of the demo, then the receive of what the second one sent.
abbrev at_a : List Event
at_a = send_at 0 ∷ local_at 0 ∷ []

abbrev at_b : List Event
at_b = receive_at 1 1 ∷ local_at 1 ∷ at_a

timestamp-Before_example : timestamp at_a < timestamp at_b
timestamp-Before_example =
    timestamp-Before (message 0 1 1 (local_at 0 ∷ []) (local_at 1 ∷ at_a) refl)
