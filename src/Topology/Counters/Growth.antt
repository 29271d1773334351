-- ===== src/Topology/Counters/Growth.antt =====
-- src/libagml_comm/topology/NodeGroup.cpp: what an assignment does to the links and hosts of every group, whatever it
-- brings.
use lib_agml.Common.{
  ℕ, ◌+◌, ◌%◌, ◌^◌, ◌≡◌, refl, ap, ◌∙◌, inl, inr, false, List, [], ◌∷◌, ◌++◌, ◌==◌, Bool-cases,
  ==_iff, ==_refl,
}
use lib_agml.Topology.{
  Link, Group, GroupHost, Topology, update, each_in, each_out, on_dst_add_host, on_src_add_host,
  add_host, push_host, assign_local, assign_remote, local_host, remote_host,
}
use lib_agml.Topology.Counters.{add_host-IsGrown}

-- Group `i` has one more host; no links have changed, nor the nodes of other groups.
pub record IsAssigned (t : Topology) (i : ℕ) (h : GroupHost) (t' : Topology) : Type 0 where
  pub same_groups : t'.nb_groups ≡ t.nb_groups
  pub ins_kept : (j : ℕ) → (t'.group j).ins ≡ (t.group j).ins
  pub outs_kept : (j : ℕ) → (t'.group j).outs ≡ (t.group j).outs
  pub hosts_here : (t'.group i).hosts ≡ (t.group i).hosts ++ (h ∷ [])
  pub hosts_there : (j : ℕ) → (i == j) ≡ false → (t'.group j).hosts ≡ (t.group j).hosts
  pub nodes_there : (j : ℕ) → (i == j) ≡ false → (t'.group j).nb_nodes ≡ (t.group j).nb_nodes
  pub locals_there :
      (j : ℕ) → (i == j) ≡ false → (t'.group j).nb_local_nodes ≡ (t.group j).nb_local_nodes

each_in-groups :
    (t : Topology) (ls : List Link) (h : GroupHost) → (each_in t ls h).nb_groups ≡ t.nb_groups
unfolding each_in on_dst_add_host
each_in-groups t [] h = refl
each_in-groups t (l ∷ ls) h = each_in-groups (on_dst_add_host t l h) ls h

each_out-groups :
    (t : Topology) (ls : List Link) (h : GroupHost) → (each_out t ls h).nb_groups ≡ t.nb_groups
unfolding each_out on_src_add_host
each_out-groups t [] h = refl
each_out-groups t (l ∷ ls) h = each_out-groups (on_src_add_host t l h) ls h

add_host-groups : (t : Topology) (i : ℕ) (h : GroupHost) → (add_host t i h).nb_groups ≡ t.nb_groups
unfolding add_host
add_host-groups t i h =
    let t1 = update t i (push_host (t.group i) h) in
    let t2 = each_in t1 (t1.group i).ins h in
    each_out-groups t2 (t2.group i).outs h ∙ each_in-groups t1 (t1.group i).ins h

add_host-IsAssigned : (t : Topology) (i : ℕ) (h : GroupHost) → IsAssigned t i h (add_host t i h)
add_host-IsAssigned t i h =
    let g = add_host-IsGrown t i h in
    record {
      same_groups = add_host-groups t i h;
      ins_kept = λ j. (g j).ins_kept;
      outs_kept = λ j. (g j).outs_kept;
      hosts_here = (g i).hosts_grown ∙ rw (==_refl i);
      hosts_there = λ j e. (g j).hosts_grown ∙ rw e;
      nodes_there = λ j e. (g j).nodes_grown ∙ rw e;
      locals_there = λ j e. (g j).local_nodes_kept;
    }

pub assign_remote-IsAssigned :
    (t : Topology) (i dh wanted : ℕ)
    → IsAssigned t i (remote_host dh wanted) (assign_remote t i dh wanted)
unfolding assign_remote
assign_remote-IsAssigned t i dh wanted = add_host-IsAssigned t i (remote_host dh wanted)

-- The group with its local nodes counted.
abbrev recounted : Group → ℕ → Group
recounted g n = record g { nb_local_nodes = n }

record IsRecounted (g g' : Group) : Type 0 where
  ins_same : g'.ins ≡ g.ins
  outs_same : g'.outs ≡ g.outs
  hosts_same : g'.hosts ≡ g.hosts

recounted-IsRecounted :
    (t : Topology) (i n j : ℕ)
    → IsRecounted (t.group j) ((update t i (recounted (t.group i) n)).group j)
recounted-IsRecounted t i n j = elim (Bool-cases (i == j)) [
  | inl e ↦
      rw e
        (rw (← (==_iff i j).0 e) (record { ins_same = refl; outs_same = refl; hosts_same = refl }))
  | inr e ↦ rw e (record { ins_same = refl; outs_same = refl; hosts_same = refl })
]

pub assign_local-IsAssigned :
    (t : Topology) (i dh wanted made : ℕ)
    → IsAssigned t i (local_host (t.group i) dh wanted made) (assign_local t i dh wanted made)
unfolding assign_local
assign_local-IsAssigned t i dh wanted made =
    let n = ((t.group i).nb_local_nodes + made) % 2 ^ 64 in
    let t0 = update t i (recounted (t.group i) n) in
    let h = local_host (t.group i) dh wanted made in
    let a = add_host-IsAssigned t0 i h in
    let r = recounted-IsRecounted t i n in
    record {
      same_groups = a.same_groups;
      ins_kept = λ j. a.ins_kept j ∙ (r j).ins_same;
      outs_kept = λ j. a.outs_kept j ∙ (r j).outs_same;
      hosts_here = a.hosts_here ∙ ap (λ hs. hs ++ (h ∷ [])) (r i).hosts_same;
      hosts_there = λ j e. a.hosts_there j e ∙ (r j).hosts_same;
      nodes_there = λ j e. a.nodes_there j e ∙ ap (λ g. g.nb_nodes) (untouched t i n j e);
      locals_there = λ j e. a.locals_there j e ∙ ap (λ g. g.nb_local_nodes) (untouched t i n j e);
    }
  where
    untouched :
        (t : Topology) (i n j : ℕ)
        → (i == j) ≡ false
        → (update t i (recounted (t.group i) n)).group j ≡ t.group j
    untouched t i n j e = rw e
