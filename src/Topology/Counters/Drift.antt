-- ===== src/Topology/Counters/Drift.antt =====
-- src/libagml_comm/topology/NodeGroup.{h,cpp}: where the counters part from the links.
use lib_agml.Common.{
  ℕ, ◌+◌, ◌-◌, ◌%◌, ◌^◌, ◌<◌, ◌≡◌, refl, ap, ◌∙◌, true, false, [], ◌∷◌, ◌==◌, arith, ==_refl,
}
use lib_agml.Topology.{Link, GroupHost, Topology, get_nb_out, host_share, assign_local, local_host}
use lib_agml.Topology.Counters.{pick, share_total}
use lib_agml.Topology.Counters.Assign.{out_total}
use lib_agml.Topology.Counters.Hosts.{assign_local-Joins}
use lib_agml.Topology.Counters.Build.{IsSound}

-- A link `G -L> G`: from a group to itself, among local nodes, leaving out the sender.
pub record IsLocalLoop (l : Link) (i : ℕ) : Type 0 where
  pub from_here : l.src ≡ i
  pub to_here : l.dst ≡ i
  pub no_self : l.allow_self ≡ false
  pub local : l.only_local ≡ true

loop_link :
    (l : Link) (i : ℕ)
    → IsLocalLoop l i
    → l ≡ record { src = i; dst = i; allow_self = false; only_local = true }
loop_link l i h k = record {
  src = h.from_here k;
  dst = h.to_here k;
  allow_self = h.no_self k;
  only_local = h.local k;
}

loop-pick : (i : ℕ) (l : Link) → l.dst ≡ i → pick (λ m. m.dst == i) (l ∷ []) ≡ l ∷ []
loop-pick i l e = rw (e, ==_refl i)

loop_share :
    (l : Link) (i n : ℕ) (h : GroupHost)
    → IsLocalLoop l i
    → h.is_local ≡ true
    → 0 < n
    → host_share l n h ≡ h.nb_nodes
unfolding host_share
loop_share l i n h k e pos = ground (arith, k.local)

loop_reach :
    (t : Topology) (l : Link) (i n : ℕ)
    → IsLocalLoop l i
    → (t.group i).nb_local_nodes ≡ n
    → get_nb_out t l ≡ n - 1
unfolding get_nb_out
loop_reach t l i n k e = rw (loop_link l i k) (rw e (ground arith))

-- When a group whose only link out is such a loop has remote nodes and no local ones, its first local
-- nodes take `nb_out_nodes` to one more than the link reaches.
pub local_loop_drift :
    (t : Topology) (i dh wanted made : ℕ) (l : Link)
    → IsSound t
    → IsLocalLoop l i
    → (t.group i).outs ≡ l ∷ []
    → 0 < (t.group i).nb_nodes
    → (t.group i).nb_local_nodes ≡ 0
    → 0 < made
    → (t.group i).nb_nodes + made < 2 ^ 63
    → let t' = assign_local t i dh wanted made in
      (t'.group i).nb_out_nodes % 2 ^ 32 ≡ (out_total t' (t'.group i).outs + 1) % 2 ^ 32
local_loop_drift t i dh wanted made l s k o nodes locals brings few =
    let h = local_host (t.group i) dh wanted made in
    let t' = assign_local t i dh wanted made in
    let joins =
      assign_local-Joins t i dh wanted made (record { few = few; local_le = omega arith }) in
    let picked : pick (λ m. m.src == i) (t.group i).ins ≡ l ∷ [] =
      s.linked.paired i i ∙ ap (pick (λ m. m.dst == i)) o ∙ loop-pick i l k.to_here in
    let outs : (t'.group i).outs ≡ l ∷ [] = joins.outs_kept i ∙ o in
    omega (
      arith,
      joins.out_grown i,
      ap (share_total (t.group i).nb_nodes h) picked,
      loop_share l i (t.group i).nb_nodes h k refl nodes,
      s.counted.out_counted i,
      ap (out_total t) o,
      ap (out_total t') outs,
      loop_reach t l i 0 k locals,
      loop_reach t' l i made k (joins.local_here ∙ omega (arith, locals)),
    )
