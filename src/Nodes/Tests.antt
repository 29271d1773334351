-- ===== src/Nodes/Tests.antt =====
-- src/agml/nodes on small cases.
use lib_agml.Common.{ℕ, ◌≡◌, ◌<◌, ◌||◌, Bool, true, ◌==◌, if◌then◌else◌, arith}
use lib_agml.Simulation.Lifecycle.{count}
use lib_agml.Nodes.Data.{turns}
use lib_agml.Nodes.Data.Turns.{turns-finished}

-- Two neighbours, the second of which has an empty part; both accept messages in turn 1 only.
abbrev second_empty : ℕ → Bool
second_empty i = i == 1

abbrev at_turn_one : ℕ → ℕ → Bool
at_turn_one t i = t == 1

accepted : (i : ℕ) → (second_empty i || at_turn_one 1 i) ≡ true
accepted i = ground arith

turns-finished_example :
    ((turns 2 second_empty at_turn_one 3).finished ≡ true)
    × ((i : ℕ)
        → i < 2
        → count i (turns 2 second_empty at_turn_one 3).sent ≡ (if second_empty i then 0 else 1))
turns-finished_example =
    turns-finished 2 second_empty at_turn_one 1 (omega arith) (λ i l. (1, omega arith, accepted i))
