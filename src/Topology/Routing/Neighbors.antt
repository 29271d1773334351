-- ===== src/Topology/Routing/Neighbors.antt =====
-- src/libagml_comm/topology/NodeGroup.h: the nodes that the neighbour numbers of a link stand for.
use lib_agml.Common.{
  ℕ, ◌+◌, ◌-◌, ◌^◌, ◌<◌, ◌≤◌, ◌≡◌, ◌≢◌, refl, sym, ◌∙◌, inl, inr, true, false, ◌==◌, ltb,
  if◌then◌else◌, arith, Bool-cases, ==_iff,
}
use lib_agml.Topology.{Topology, Link, get_nb_out, get_out_node_id}

skip_self : ℕ → ℕ → ℕ
skip_self src k = if ltb k src then k else k + 1

skip_self-range :
    (src n k : ℕ) → src < n → k < n - 1 → (skip_self src k < n) × (skip_self src k ≢ src)
unfolding skip_self
skip_self-range src n k h kn = (ground arith, ground arith)

skip_self-one_to_one : (src j k : ℕ) → skip_self src j ≡ skip_self src k → j ≡ k
unfolding skip_self
skip_self-one_to_one src j k e = ground arith

skip_self-onto :
    (src n d : ℕ) → src < n → d < n → d ≢ src → (k : ℕ) × (k < n - 1) × (skip_self src k ≡ d)
unfolding skip_self
skip_self-onto src n d h dn ne = elim (Bool-cases (ltb d src)) [
  | inl b ↦ (d, ground arith, rw b refl)
  | inr b ↦ (d - 1, ground arith, ground arith)
]

-- `f` maps the numbers below `count` one to one onto those below `n` other than `src`.
pub record IsOntoOthers (f : ℕ → ℕ) (count n src : ℕ) : Type 0 where
  pub in_range : (k : ℕ) → k < count → (f k < n) × (f k ≢ src)
  pub one_to_one : (j k : ℕ) → j < count → k < count → f j ≡ f k → j ≡ k
  pub onto : (d : ℕ) → d < n → d ≢ src → (k : ℕ) × (k < count) × (f k ≡ d)

-- Along a link from a group of at most 2^31 nodes to itself that leaves out the sender, the neighbour numbers below
-- the number of reachable nodes stand one to one for the nodes of the group other than the sender.
pub get_out_node_id-IsOntoOthers :
    (t : Topology) (l : Link) (src : ℕ)
    → l.allow_self ≡ false
    → l.only_local ≡ false
    → l.src ≡ l.dst
    → src < (t.group l.dst).nb_nodes
    → (t.group l.dst).nb_nodes ≤ 2 ^ 31
    → IsOntoOthers (get_out_node_id l src) (get_nb_out t l) (t.group l.dst).nb_nodes src
unfolding get_nb_out get_out_node_id skip_self
get_out_node_id-IsOntoOthers t l src a o s h small = record {
  in_range = λ k kn.
      rw (name k (omega (arith, kn, reach)))
        (skip_self-range src (t.group l.dst).nb_nodes k h (ground (arith, reach)));
  one_to_one = λ j k jn kn e.
      skip_self-one_to_one src j k
        (sym (name j (omega (arith, jn, reach))) ∙ e ∙ name k (omega (arith, kn, reach)));
  onto = λ d dn ne.
      let (k, kn, e) = skip_self-onto src (t.group l.dst).nb_nodes d h dn ne in
      (k, ground (arith, reach), name k (omega (arith, kn)) ∙ e);
}
  where
    loop : (l.src == l.dst) ≡ true
    loop = (==_iff l.src l.dst).1 s

    some_nodes : ((t.group l.dst).nb_nodes == 0) ≡ false
    some_nodes = ground arith

    reach : get_nb_out t l ≡ (t.group l.dst).nb_nodes - 1
    reach = rw (a, o, loop, some_nodes) refl

    name : (k : ℕ) → k < (t.group l.dst).nb_nodes - 1 → get_out_node_id l src k ≡ skip_self src k
    name k kn = rw (a, loop) (ground (arith, small))
