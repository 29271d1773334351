-- ===== src/Learning/Cycle.antt =====
-- src/agml_node_clustering/NodeEM.cpp: how `process` alternates its two steps.
use lib_agml.Common.{ℕ, zero, suc, ◌+◌, ◌≤◌, ◌≡◌, refl, ap, ◌∙◌, Bool, true, arith, le→leb, lt→leb}
use lib_agml.Learning.{Turns, process}

-- Some calls of `process` one after the other.
pub repeat_process : ℕ → ℕ → Bool → Turns → Turns
repeat_process zero sends outs t = t
repeat_process (suc n) sends outs t = process sends outs (repeat_process n sends outs t)

abbrev turns : ℕ → ℕ → ℕ → Turns
turns since e m = record { since_e_step = since; nb_e_step = e; nb_m_step = m }

sending_turns :
    (n sends e m : ℕ) → n ≤ sends → repeat_process n sends true (turns 0 e m) ≡ turns n e (m + n)
unfolding repeat_process process
sending_turns zero sends e m h = ap (turns 0 e) same
  where
    same : m ≡ m + 0
    same = omega arith
sending_turns (suc n) sends e m h =
    ap (process sends true) (sending_turns n sends e m (omega arith))
    ∙ rw (lt→leb sends n (omega arith))
        (ap (λ k. turns k e (m + n + 1)) one_more ∙ ap (turns (suc n) e) shifted)
  where
    one_more : n + 1 ≡ suc n
    one_more = omega arith

    shifted : m + n + 1 ≡ m + suc n
    shifted = omega arith

-- A node with neighbours that has just made an E step makes as many M steps as it is set to, and then an
-- E step again.
pub process_cycle :
    (sends e m : ℕ)
    → repeat_process
        (suc sends)
        sends
        true
        (record { since_e_step = 0; nb_e_step = e; nb_m_step = m })
      ≡ record { since_e_step = 0; nb_e_step = e + 1; nb_m_step = m + sends }
unfolding repeat_process process
process_cycle sends e m =
    ap (process sends true) (sending_turns sends sends e m (omega arith))
    ∙ rw (le→leb sends sends (omega arith)) refl
