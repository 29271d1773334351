-- ===== src/Nodes/Data/Turns.antt =====
-- src/agml/nodes/data/NodeData.cpp: what the turns of a node that divides its data come to.
use lib_agml.Common.{
  ℕ, zero, suc, ◌≡◌, ◌≤◌, ◌<◌, refl, ap, sym, ◌∙◌, Bool, true, false, ◌||◌, leb, ◌==◌,
  if◌then◌else◌, arith, Bool-cases, ==_iff, leb→le, le→leb, inl, inr,
}
use lib_agml.Simulation.Lifecycle.{count}
use mathlib.Core.Path.{subst}
use lib_agml.Nodes.Data.{Sender, new_sender, send_parts, process, turns}
use lib_agml.Nodes.Data.Counting.{all_of_count, count_below_all, count_below_none}
use lib_agml.Nodes.Data.Sending.{
  IsSending, brought, send_parts-IsSending, send_parts-keeps, send_parts-acks, send_parts-has_acks,
}

module _ (outs : ℕ) (is_empty : ℕ → Bool) where
  -- The state after a turn.
  record IsUnderWay (s : Sender) : Type 0 where
    pub sending : IsSending outs is_empty s
    pub allocated : s.has_acks ≡ true

  process-loops :
      (accepts : ℕ → Bool) (s : Sender)
      → 0 < outs
      → leb outs s.nback ≡ false
      → s.has_acks ≡ true
      → process outs is_empty accepts s ≡ send_parts is_empty accepts 0 outs s
  unfolding process
  process-loops accepts s h l e = rw (positive, l, e) refl
    where
      positive : (outs == 0) ≡ false
      positive = ground (arith, h)

  process-ends :
      (accepts : ℕ → Bool) (s : Sender)
      → 0 < outs
      → leb outs s.nback ≡ true
      → process outs is_empty accepts s ≡ record s { finished = true }
  unfolding process
  process-ends accepts s h l = rw (positive, l) refl
    where
      positive : (outs == 0) ≡ false
      positive = ground (arith, h)

  process-IsUnderWay :
      (accepts : ℕ → Bool) (s : Sender)
      → 0 < outs
      → IsUnderWay s
      → IsUnderWay (process outs is_empty accepts s)
  process-IsUnderWay accepts s h v = elim (Bool-cases (leb outs s.nback)) [
    | inl l ↦ subst IsUnderWay (sym (process-ends accepts s h l)) (record {
      sending = record {
        counted = v.sending.counted;
        once = v.sending.once;
        complete = λ f. leb→le outs s.nback l;
      };
      allocated = v.allocated;
    })
    | inr l ↦ subst IsUnderWay (sym (process-loops accepts s h l v.allocated)) (record {
      sending = send_parts-IsSending outs is_empty accepts 0 outs s (omega arith) v.sending;
      allocated = send_parts-has_acks outs is_empty accepts 0 outs s ∙ v.allocated;
    })
  ]

  new_sender-IsSending : IsSending outs is_empty (record new_sender { has_acks = true })
  new_sender-IsSending = record {
    counted = sym (count_below_none outs);
    once = λ i. refl;
    complete = λ f. absurd (cc);
  }

  module _ (accepts : ℕ → ℕ → Bool) (h : 0 < outs) where
    first_turn :
        turns outs is_empty accepts 1
        ≡ send_parts is_empty (accepts 0) 0 outs (record new_sender { has_acks = true })
    unfolding turns process
    first_turn = ground (arith, h)

    turns-IsUnderWay : (t : ℕ) → IsUnderWay (turns outs is_empty accepts (suc t))
    unfolding turns
    turns-IsUnderWay zero = subst IsUnderWay (sym first_turn) (record {
      sending =
          send_parts-IsSending outs is_empty (accepts 0) 0 outs
            (record new_sender { has_acks = true }) (omega arith) new_sender-IsSending;
      allocated =
          send_parts-has_acks outs is_empty (accepts 0) 0 outs
            (record new_sender { has_acks = true });
    })
    turns-IsUnderWay (suc t) = elim (Bool-cases (turns outs is_empty accepts (suc t)).finished) [
      | inl f ↦ rw f (turns-IsUnderWay t)
      | inr f ↦ rw f (
          process-IsUnderWay (accepts (suc t)) (turns outs is_empty accepts (suc t)) h
            (turns-IsUnderWay t))
    ]

    all_acked :
        (s : Sender) → IsUnderWay s → leb outs s.nback ≡ true → (j : ℕ) → j < outs → s.acks j ≡ true
    all_acked s v l j k =
        all_of_count outs s.acks (omega (arith, v.sending.counted, leb→le outs s.nback l)) j k

    -- Who could be told has been.
    turns-acks :
        (t t' j : ℕ)
        → t' ≤ t
        → j < outs
        → (is_empty j || accepts t' j) ≡ true
        → (turns outs is_empty accepts (suc t)).acks j ≡ true
    unfolding turns
    turns-acks zero t' j l k e =
        subst (λ s. s.acks j ≡ true) (sym first_turn)
          (send_parts-acks outs is_empty (accepts 0) 0 outs j
            (record new_sender { has_acks = true }) (omega arith) (omega (arith, k))
            (subst (λ x. (is_empty j || accepts x j) ≡ true) none e))
      where
        none : t' ≡ 0
        none = omega (arith, l)
    turns-acks (suc t) t' j l k e = elim (Bool-cases s.finished) [
      | inl f ↦ rw f (all_acked s v (le→leb outs s.nback (v.sending.complete f)) j k)
      | inr f ↦ elim (Bool-cases (leb outs s.nback)) [
        | inl b ↦ rw (f, process-ends (accepts (suc t)) s h b) (all_acked s v b j k)
        | inr b ↦
            rw (f, process-loops (accepts (suc t)) s h b v.allocated)
              (elim (Bool-cases (t' == suc t)) [
                | inl now ↦
                    send_parts-acks outs is_empty (accepts (suc t)) 0 outs j s (omega arith)
                      (omega (arith, k))
                      (subst (λ x. (is_empty j || accepts x j) ≡ true) ((==_iff t' (suc t)).0 now)
                        e)
                | inr before ↦
                    send_parts-keeps outs is_empty (accepts (suc t)) 0 outs j s
                      (turns-acks t t' j (ground (arith, l, before)) k e)
              ])
      ]
    ]
      where
        s : Sender
        s = turns outs is_empty accepts (suc t)

        v : IsUnderWay s
        v = turns-IsUnderWay t

-- A node with neighbours, each of which has an empty part or accepts a message in one of the turns up to
-- turn `last`, has finished two turns after it, and has by then sent each neighbour its part just once if there is
-- anything in it, and nothing otherwise.
pub turns-finished :
    (outs : ℕ) (is_empty : ℕ → Bool) (accepts : ℕ → ℕ → Bool) (last : ℕ)
    → 0 < outs
    → ((i : ℕ) → i < outs → (t : ℕ) × (t ≤ last) × ((is_empty i || accepts t i) ≡ true))
    → ((turns outs is_empty accepts (suc (suc last))).finished ≡ true)
      × ((i : ℕ)
          → i < outs
          → count i (turns outs is_empty accepts (suc (suc last))).sent
            ≡ (if is_empty i then 0 else 1))
unfolding turns
turns-finished outs is_empty accepts last h told = elim (Bool-cases s.finished) [
  | inl f ↦ rw f (f, all_sent)
  | inr f ↦ rw (f, process-ends outs is_empty (accepts (suc last)) s h enough) (refl, all_sent)
]
  where
    s : Sender
    s = turns outs is_empty accepts (suc last)

    v : IsUnderWay outs is_empty s
    v = turns-IsUnderWay outs is_empty accepts h last

    acked : (i : ℕ) → i < outs → s.acks i ≡ true
    acked i l = let (t, k, e) = told i l in turns-acks outs is_empty accepts h last t i k l e

    enough : leb outs s.nback ≡ true
    enough =
        le→leb outs s.nback (omega (arith, v.sending.counted, count_below_all outs s.acks acked))

    all_sent : (i : ℕ) → i < outs → count i s.sent ≡ (if is_empty i then 0 else 1)
    all_sent i l = v.sending.once i ∙ ap (brought (is_empty i)) (acked i l)
