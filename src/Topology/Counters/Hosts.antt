-- ===== src/Topology/Counters/Hosts.antt =====
-- src/libagml_comm/topology/NodeGroup.cpp: `assign`, on this machine and on another.
use mathlib.Core.Path.{subst}
use lib_agml.Common.{
  ℕ, ◌+◌, ◌%◌, ◌^◌, ◌≤◌, ◌<◌, ◌≡◌, ◌≢◌, inl, inr, refl, ap, ◌∙◌, Bool, true, false, ◌==◌,
  if◌then◌else◌, arith, Bool-cases, ==_iff, ==_refl,
}
use lib_agml.Topology.{
  Group, GroupHost, Topology, update, add_host, assign_local, assign_remote, local_host,
  remote_host,
}
use lib_agml.Topology.Counters.{pick, IsGrown, add_host-IsGrown}
use lib_agml.Topology.Counters.Assign.{Joins}

-- The group whose local nodes have been counted, if `here`, before `add_host` is called.
abbrev with_locals : Bool → Group → GroupHost → Group
with_locals false g h = g
with_locals true g h = record g {
  nb_local_nodes = if h.is_local then g.nb_local_nodes + h.nb_nodes else g.nb_local_nodes;
}

record IsReady (g : Group) (here : Bool) (h : GroupHost) (g0 : Group) : Type 0 where
  ins_same : g0.ins ≡ g.ins
  outs_same : g0.outs ≡ g.outs
  nodes_same : g0.nb_nodes ≡ g.nb_nodes
  out_same : g0.nb_out_nodes ≡ g.nb_out_nodes
  in_same : g0.nb_in_nodes ≡ g.nb_in_nodes
  hosts_same : g0.hosts ≡ g.hosts
  local_hosts_same : g0.local_hosts ≡ g.local_hosts
  locals_counted : g0.nb_local_nodes ≡ (with_locals here g h).nb_local_nodes

with_locals-IsReady :
    (g : Group) (here : Bool) (h : GroupHost) (g0 : Group)
    → g0 ≡ with_locals here g h
    → IsReady g here h g0
with_locals-IsReady g here h g0 e = rw e (by_here here)
  where
    by_here : (b : Bool) → IsReady g b h (with_locals b g h)
    by_here true = record {
      ins_same = refl;
      outs_same = refl;
      nodes_same = refl;
      out_same = refl;
      in_same = refl;
      hosts_same = refl;
      local_hosts_same = refl;
      locals_counted = refl;
    }
    by_here false = record {
      ins_same = refl;
      outs_same = refl;
      nodes_same = refl;
      out_same = refl;
      in_same = refl;
      hosts_same = refl;
      local_hosts_same = refl;
      locals_counted = refl;
    }

eq_ne : (i j : ℕ) → i ≢ j → (i == j) ≡ false
eq_ne i j h = ground arith

-- The group's counters do not wrap when the host joins.
pub record IsSmall (g : Group) (h : GroupHost) : Type 0 where
  pub few : g.nb_nodes + h.nb_nodes < 2 ^ 63
  pub local_le : g.nb_local_nodes ≤ g.nb_nodes

-- `add_host` joins the host to the group.
add_host-Joins :
    (t t0 : Topology) (i : ℕ) (h : GroupHost)
    → IsSmall (t.group i) h
    → ((j : ℕ) → t0.group j ≡ with_locals (i == j) (t.group j) h)
    → Joins t i h (add_host t0 i h)
add_host-Joins t t0 i h o e = record {
  nodes_here = omega (
    arith,
    subst
        (λ b.
          ((add_host t0 i h).group i).nb_nodes
          ≡ (if b then ((t0.group i).nb_nodes + h.nb_nodes) % 2 ^ 64 else (t0.group i).nb_nodes))
        (==_refl i) (grown i).nodes_grown,
    (ready i).nodes_same,
    o.few,
  );
  local_here =
      (grown i).local_nodes_kept
      ∙ subst (λ b. (t0.group i).nb_local_nodes ≡ (with_locals b (t.group i) h).nb_local_nodes)
          (==_refl i) (ready i).locals_counted;
  nodes_there = λ j ne.
      subst
        (λ b.
          ((add_host t0 i h).group j).nb_nodes
          ≡ (if b then ((t0.group j).nb_nodes + h.nb_nodes) % 2 ^ 64 else (t0.group j).nb_nodes))
        (eq_ne i j ne) (grown j).nodes_grown
      ∙ (ready j).nodes_same;
  local_there = λ j ne.
      (grown j).local_nodes_kept
      ∙ subst (λ b. (t0.group j).nb_local_nodes ≡ (with_locals b (t.group j) h).nb_local_nodes)
          (eq_ne i j ne) (ready j).locals_counted;
  ins_kept = λ j. (grown j).ins_kept ∙ (ready j).ins_same;
  outs_kept = λ j. (grown j).outs_kept ∙ (ready j).outs_same;
  hosts_grown = λ j. (grown j).hosts_grown ∙ rw (ready j).hosts_same;
  local_grown = λ j. (grown j).local_grown ∙ rw (ready j).local_hosts_same;
  out_grown = λ j.
      (grown j).out_grown ∙ rw ((ready j).out_same, (ready j).nodes_same, (ready i).ins_same) refl;
  in_grown = λ j.
      (grown j).in_grown ∙ rw ((ready j).in_same, (ready j).nodes_same, (ready i).outs_same) refl;
}
  where
    ready : (j : ℕ) → IsReady (t.group j) (i == j) h (t0.group j)
    ready j = with_locals-IsReady (t.group j) (i == j) h (t0.group j) (e j)

    grown :
        (j : ℕ)
        → IsGrown
            (t0.group j)
            (i == j)
            h
            (pick (λ l. l.src == j) (t0.group i).ins)
            (pick (λ l. l.dst == j) (t0.group i).outs)
            ((add_host t0 i h).group j)
    grown j = add_host-IsGrown t0 i h j

remote-unchanged :
    (b : Bool) (g : Group) (h : GroupHost) → h.is_local ≡ false → g ≡ with_locals b g h
remote-unchanged true g h e = rw e
remote-unchanged false g h e = refl

pub assign_remote-Joins :
    (t : Topology) (i dh wanted : ℕ)
    → IsSmall (t.group i) (remote_host dh wanted)
    → Joins t i (remote_host dh wanted) (assign_remote t i dh wanted)
unfolding assign_remote
assign_remote-Joins t i dh wanted o =
    add_host-Joins t t i (remote_host dh wanted) o
      (λ j. remote-unchanged (i == j) (t.group j) (remote_host dh wanted) refl)

pub assign_local-Joins :
    (t : Topology) (i dh wanted made : ℕ)
    → IsSmall (t.group i) (local_host (t.group i) dh wanted made)
    → Joins t i (local_host (t.group i) dh wanted made) (assign_local t i dh wanted made)
unfolding assign_local
assign_local-Joins t i dh wanted made o =
    let g = t.group i in
    add_host-Joins t (update t i (record g { nb_local_nodes = (g.nb_local_nodes + made) % 2 ^ 64 }))
      i (local_host g dh wanted made) o counted
  where
    small : ((t.group i).nb_local_nodes + made) % 2 ^ 64 ≡ (t.group i).nb_local_nodes + made
    small = omega (arith, o.few, o.local_le)

    counted :
        (j : ℕ)
        → (if i == j
            then record (t.group i) {
              nb_local_nodes = ((t.group i).nb_local_nodes + made) % 2 ^ 64;
            }
            else t.group j)
          ≡ with_locals (i == j) (t.group j) (local_host (t.group i) dh wanted made)
    counted j = elim (Bool-cases (i == j)) [
      | inl e ↦
          rw e (rw (← (==_iff i j).0 e) (ap (λ n. record (t.group i) { nb_local_nodes = n }) small))
      | inr e ↦ rw e
    ]
