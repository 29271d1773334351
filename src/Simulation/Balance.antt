-- ===== src/Simulation/Balance.antt =====
-- src/libagml_comm/simulation/Thread.cpp and src/libagml_comm/agml/node.cpp: `nb_running_nodes`, and the end
-- of a thread.
use lib_agml.Common.{
  ℕ, ◌+◌, ◌-◌, ◌%◌, ◌^◌, ◌<◌, ◌≤◌, ◌≡◌, ◌≢◌, refl, ap, sym, ◌∙◌, inl, inr, true, false, not, List,
  [], ◌∷◌, ◌==◌, if◌then◌else◌, length, arith, Bool-cases, ==_iff, ==_refl,
}
use lib_agml.Simulation.{
  NodeState, Thread, attach, detach, thread_attach, thread_detach, thread_remove, finish, set_node,
}
use lib_agml.Simulation.Lifecycle.{count, one_if}

-- The nodes of a list that are not finished.
abbrev pub unfinished : (ℕ → NodeState) → List ℕ → ℕ
unfinished node [] = 0
unfinished node (x ∷ xs) = one_if (not (node x).is_finished) + unfinished node xs

-- A thread owns each of its fewer than 2^32 nodes once, `nb_running_nodes` counts the unfinished ones, and
-- the loop is to run as long as there are any.
pub record IsCounted (t : Thread) : Type 0 where
  pub owned_once : (n : ℕ) → count n t.owned ≤ 1
  pub few : length t.owned < 2 ^ 32
  pub counted : t.nb_running_nodes ≡ unfinished t.node t.owned
  pub alive : t.is_running ≡ not (unfinished t.node t.owned == 0)

unfinished_le : (node : ℕ → NodeState) (xs : List ℕ) → unfinished node xs ≤ length xs
unfinished_le node [] = omega arith
unfinished_le node (x ∷ xs) = ground (arith, unfinished_le node xs)

unfinished-same :
    (f g : ℕ → NodeState) (xs : List ℕ)
    → ((n : ℕ) → (f n).is_finished ≡ (g n).is_finished)
    → unfinished f xs ≡ unfinished g xs
unfinished-same f g [] h = refl
unfinished-same f g (x ∷ xs) h =
    rw (h x) (ap (λ k. one_if (not (g x).is_finished) + k) (unfinished-same f g xs h))

-- A node that a list holds once and that is finished is one unfinished node less.
unfinished-less :
    (f g : ℕ → NodeState) (n : ℕ) (xs : List ℕ)
    → (f n).is_finished ≡ false
    → (g n).is_finished ≡ true
    → ((k : ℕ) → k ≢ n → (g k).is_finished ≡ (f k).is_finished)
    → unfinished f xs ≡ unfinished g xs + count n xs
unfinished-less f g n [] a b h = omega arith
unfinished-less f g n (x ∷ xs) a b h = elim (Bool-cases (x == n)) [
  | inl e ↦ ground (arith, unfinished-less f g n xs a b h, (==_iff x n).0 e)
  | inr e ↦ rw (h x (λ p. ground (arith, p))) (ground (arith, unfinished-less f g n xs a b h))
]

-- A thread that keeps what is counted stays counted.
kept-IsCounted :
    (t u : Thread)
    → u.owned ≡ t.owned
    → u.nb_running_nodes ≡ t.nb_running_nodes
    → u.is_running ≡ t.is_running
    → ((k : ℕ) → (t.node k).is_finished ≡ (u.node k).is_finished)
    → IsCounted t
    → IsCounted u
kept-IsCounted t u o n r f v = record {
  owned_once = λ k. rw o (v.owned_once k);
  few = rw o v.few;
  counted = n ∙ v.counted ∙ same;
  alive = r ∙ v.alive ∙ ap (λ k. not (k == 0)) same;
}
  where
    same : unfinished t.node t.owned ≡ unfinished u.node u.owned
    same = unfinished-same t.node u.node t.owned f ∙ ap (unfinished u.node) (sym o)

attach-IsCounted : (n : ℕ) (t : Thread) → IsCounted t → IsCounted (attach n t)
unfolding attach thread_attach
attach-IsCounted n t v =
    kept-IsCounted t _ (ground arith) (ground arith) (ground arith) (λ k. ground arith) v

detach-IsCounted : (n : ℕ) (t : Thread) → IsCounted t → IsCounted (detach n t)
unfolding detach thread_detach
detach-IsCounted n t v =
    kept-IsCounted t _ (ground arith) (ground arith) (ground arith) (λ k. ground arith) v

-- The state in which `Thread::remove` leaves the counter.
left-IsCounted :
    (n : ℕ) (t : Thread)
    → (t.node n).is_finished ≡ false
    → count n t.owned ≡ 1
    → IsCounted t
    → (left : ℕ) → left ≡ (t.nb_running_nodes + 2 ^ 32 - 1) % 2 ^ 32
    → IsCounted (record (set_node t n (record (t.node n) { is_finished = true })) {
      nb_running_nodes = left;
      is_running = if left == 0 then false else t.is_running;
    })
left-IsCounted n t b c v left e = record {
  owned_once = v.owned_once;
  few = v.few;
  counted = one_less;
  alive = rw (sym one_less) (stays left (omega (arith, less)));
}
  where
    after : ℕ → NodeState
    after = λ j. if n == j then record (t.node n) { is_finished = true } else t.node j

    less : unfinished t.node t.owned ≡ unfinished after t.owned + 1
    less =
        unfinished-less t.node after n t.owned b (rw (==_refl n) refl) (λ k d. ground (arith, d))
        ∙ ap (λ k. unfinished after t.owned + k) c

    one_less : left ≡ unfinished after t.owned
    one_less = omega (arith, e, less, v.counted, v.few, unfinished_le t.node t.owned)

    stays :
        (k : ℕ)
        → 0 < unfinished t.node t.owned
        → (if k == 0 then false else t.is_running) ≡ not (k == 0)
    stays k h = rw v.alive (ground arith)

-- When a node that a counted thread owns finishes, for the first time or again, the counter still counts the
-- unfinished nodes, and the loop is told to stop just when none is left.
pub finish-IsCounted :
    (n : ℕ) (t : Thread) → count n t.owned ≡ 1 → IsCounted t → IsCounted (finish n t)
unfolding finish thread_remove
finish-IsCounted n t c v = elim (Bool-cases (t.node n).is_finished) [
  | inl b ↦ rw b v
  | inr b ↦ rw b (detach-IsCounted n _ (left-IsCounted n t b c v _ refl))
]
