-- ===== src/Nodes/Data/Sending.antt =====
-- src/agml/nodes/data/NodeData.cpp: what the loop of `process` over the neighbours does.
use lib_agml.Common.{
  ℕ, zero, suc, ◌+◌, ◌≡◌, ◌≤◌, ◌<◌, refl, sym, ◌∙◌, Bool, true, false, ◌||◌, ◌∷◌, ◌==◌,
  if◌then◌else◌, arith, Bool-cases, ==_iff, inl, inr,
}
use lib_agml.Simulation.Lifecycle.{count}
use mathlib.Core.Path.{subst}
use lib_agml.Nodes.Data.{Sender, ack_part, send_part, send_parts}
use lib_agml.Nodes.Data.Counting.{count_below, count_below-one}

-- How many messages an answer took.
abbrev pub brought : Bool → Bool → ℕ
brought empty acked = if acked then (if empty then 0 else 1) else 0

-- The number of answers is right, a part that is not empty was brought once to who has it, and the node only finishes
-- with as many answers as neighbours.
pub record IsSending (outs : ℕ) (is_empty : ℕ → Bool) (s : Sender) : Type 0 where
  pub counted : s.nback ≡ count_below outs s.acks
  pub once : (i : ℕ) → count i s.sent ≡ brought (is_empty i) (s.acks i)
  pub complete : s.finished ≡ true → outs ≤ s.nback

module _ (outs : ℕ) (is_empty : ℕ → Bool) where
  ack_empty-IsSending :
      (i : ℕ) (s : Sender)
      → i < outs
      → s.acks i ≡ false
      → is_empty i ≡ true
      → IsSending outs is_empty s
      → IsSending outs is_empty (ack_part i s)
  ack_empty-IsSending i s l e z v = record {
    counted = omega (arith, v.counted, count_below-one outs s.acks i l e);
    once = λ j. elim (Bool-cases (i == j)) [
      | inl same ↦ rw same (v.once j ∙ none_yet j ((==_iff i j).0 same))
      | inr other ↦ rw other (v.once j)
    ];
    complete = λ f. omega (arith, v.complete f);
  }
    where
      none_yet : (j : ℕ) → i ≡ j → brought (is_empty j) (s.acks j) ≡ brought (is_empty j) true
      none_yet j same = rw (← same, e, z) refl

  ack_sent-IsSending :
      (i : ℕ) (s : Sender)
      → i < outs
      → s.acks i ≡ false
      → is_empty i ≡ false
      → IsSending outs is_empty s
      → IsSending outs is_empty (ack_part i (record s { sent = i ∷ s.sent }))
  ack_sent-IsSending i s l e z v = record {
    counted = omega (arith, v.counted, count_below-one outs s.acks i l e);
    once = λ j. elim (Bool-cases (i == j)) [
      | inl same ↦ rw same (rw (v.once j) (first j ((==_iff i j).0 same)))
      | inr other ↦ rw other (rw (v.once j) (later (brought (is_empty j) (s.acks j))))
    ];
    complete = λ f. omega (arith, v.complete f);
  }
    where
      first : (j : ℕ) → i ≡ j → 1 + brought (is_empty j) (s.acks j) ≡ brought (is_empty j) true
      first j same = rw (← same, e, z) refl

      later : (n : ℕ) → 0 + n ≡ n
      later n = omega arith

  send_part-IsSending :
      (accepts : ℕ → Bool) (i : ℕ) (s : Sender)
      → i < outs
      → IsSending outs is_empty s
      → IsSending outs is_empty (send_part is_empty accepts i s)
  unfolding send_part
  send_part-IsSending accepts i s l v = elim (Bool-cases (s.acks i)) [
    | inl a ↦ rw a v
    | inr a ↦ elim (Bool-cases (is_empty i)) [
      | inl z ↦ rw (a, z) (ack_empty-IsSending i s l a z v)
      | inr z ↦ elim (Bool-cases (accepts i)) [
        | inl g ↦ rw (a, z, g) (ack_sent-IsSending i s l a z v)
        | inr g ↦ rw (a, z, g) v
      ]
    ]
  ]

  -- A neighbour that has answered stays one, and one whose part is empty or that accepts it becomes one.
  send_part-keeps :
      (accepts : ℕ → Bool) (i j : ℕ) (s : Sender)
      → s.acks j ≡ true
      → (send_part is_empty accepts i s).acks j ≡ true
  unfolding send_part
  send_part-keeps accepts i j s e = ground (arith, e)

  send_part-acks :
      (accepts : ℕ → Bool) (i : ℕ) (s : Sender)
      → (is_empty i || accepts i) ≡ true
      → (send_part is_empty accepts i s).acks i ≡ true
  unfolding send_part
  send_part-acks accepts i s e = ground (arith, e)

  pub send_parts-IsSending :
      (accepts : ℕ → Bool) (i left : ℕ) (s : Sender)
      → i + left ≤ outs
      → IsSending outs is_empty s
      → IsSending outs is_empty (send_parts is_empty accepts i left s)
  unfolding send_parts
  send_parts-IsSending accepts i zero s l v = v
  send_parts-IsSending accepts i (suc left) s l v =
      send_parts-IsSending accepts (suc i) left (send_part is_empty accepts i s) (omega (arith, l))
        (send_part-IsSending accepts i s (omega (arith, l)) v)

  pub send_parts-keeps :
      (accepts : ℕ → Bool) (i left j : ℕ) (s : Sender)
      → s.acks j ≡ true
      → (send_parts is_empty accepts i left s).acks j ≡ true
  unfolding send_parts
  send_parts-keeps accepts i zero j s e = e
  send_parts-keeps accepts i (suc left) j s e =
      send_parts-keeps accepts (suc i) left j (send_part is_empty accepts i s)
        (send_part-keeps accepts i j s e)

  pub send_parts-acks :
      (accepts : ℕ → Bool) (i left j : ℕ) (s : Sender)
      → i ≤ j
      → j < i + left
      → (is_empty j || accepts j) ≡ true
      → (send_parts is_empty accepts i left s).acks j ≡ true
  unfolding send_parts
  send_parts-acks accepts i zero j s l u e = absurd (omega (arith, l, u))
  send_parts-acks accepts i (suc left) j s l u e = elim (Bool-cases (i == j)) [
    | inl same ↦ send_parts-keeps accepts (suc i) left j (send_part is_empty accepts i s) (
        subst (λ k. (send_part is_empty accepts i s).acks k ≡ true) ((==_iff i j).0 same)
          (send_part-acks accepts i s
            (subst (λ k. (is_empty k || accepts k) ≡ true) (sym ((==_iff i j).0 same)) e)))
    | inr other ↦
        send_parts-acks accepts (suc i) left j (send_part is_empty accepts i s)
          (ground (arith, l, other)) (omega (arith, u)) e
  ]

  send_part-has_acks :
      (accepts : ℕ → Bool) (i : ℕ) (s : Sender)
      → (send_part is_empty accepts i s).has_acks ≡ s.has_acks
  unfolding send_part
  send_part-has_acks accepts i s = ground arith

  pub send_parts-has_acks :
      (accepts : ℕ → Bool) (i left : ℕ) (s : Sender)
      → (send_parts is_empty accepts i left s).has_acks ≡ s.has_acks
  unfolding send_parts
  send_parts-has_acks accepts i zero s = refl
  send_parts-has_acks accepts i (suc left) s =
      send_parts-has_acks accepts (suc i) left (send_part is_empty accepts i s)
      ∙ send_part-has_acks accepts i s
