-- ===== src/Nodes/Data.antt =====
-- src/agml/nodes/data/NodeData.cpp: the division of a node's data among its neighbours.
pub mod Counting
pub mod Sending
pub mod Turns
use lib_agml.Common.{
  ℕ, zero, suc, ◌+◌, ◌≡◌, ◌≤◌, ◌<◌, ◌⊎◌, refl, ap, sym, ◌∙◌, Bool, true, false, ◌||◌, List, [], ◌∷◌,
  leb, ltb, ◌==◌, if◌then◌else◌, arith, Bool-cases, ==_iff, ==_refl, leb→le, inl, inr,
}
use lib_agml.Simulation.Lifecycle.{count, one_if}

-- What `NodeData` keeps: the array `ack`, null at first, with `nback`, and whether it has finished. `sent`
-- has the neighbours to which `send` has brought their part. The number of neighbours does not change.
pub record Sender : Type 0 where
  pub has_acks : Bool
  pub acks : ℕ → Bool
  pub nback : ℕ
  pub finished : Bool
  pub sent : List ℕ

-- `init`
abbrev pub new_sender : Sender
new_sender = record { has_acks = false; acks = λ i. false; nback = 0; finished = false; sent = [] }

abbrev pub ack_part : ℕ → Sender → Sender
ack_part i s = record s { acks = λ j. if i == j then true else s.acks j; nback = s.nback + 1 }

-- The body of the loop of `process`: whether each part is empty, and whether `send` succeeds.
unfoldable pub send_part : (ℕ → Bool) → (ℕ → Bool) → ℕ → Sender → Sender
send_part is_empty accepts i s =
    if s.acks i
    then s
    else if is_empty i
    then ack_part i s
    else if accepts i
    then ack_part i (record s { sent = i ∷ s.sent })
    else s

-- The loop, from neighbour `i` on.
pub send_parts : (ℕ → Bool) → (ℕ → Bool) → ℕ → ℕ → Sender → Sender
send_parts is_empty accepts i zero s = s
send_parts is_empty accepts i (suc left) s =
    send_parts is_empty accepts (suc i) left (send_part is_empty accepts i s)

-- `process` of a node with `outs` neighbours.
unfoldable pub process : ℕ → (ℕ → Bool) → (ℕ → Bool) → Sender → Sender
process outs is_empty accepts s =
    if outs == 0
    then s
    else if leb outs s.nback
    then record s { finished = true }
    else send_parts is_empty accepts 0 outs
        (if s.has_acks then s else record s { has_acks = true; acks = λ i. false; nback = 0 })

-- So many turns of a node that its thread calls until it has finished; `accepts t` is what `send` answers
-- in turn `t`.
pub turns : ℕ → (ℕ → Bool) → (ℕ → ℕ → Bool) → ℕ → Sender
turns outs is_empty accepts zero = new_sender
turns outs is_empty accepts (suc t) =
    let s = turns outs is_empty accepts t in
    if s.finished then s else process outs is_empty (accepts t) s
