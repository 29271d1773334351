-- ===== src/Topology/Fit/Groups.antt =====
-- src/libagml_comm/topology/Topology.h: what a new group keeps.
use mathlib.Core.Path.{subst}
use lib_agml.Common.{
  ℕ, suc, ◌%◌, ◌^◌, ◌≡◌, inl, inr, refl, ap, sym, ◌∙◌, Bool, true, false, List, [], ◌==◌, arith,
  Bool-cases, ==_iff,
}
use lib_agml.Topology.{Group, Topology, ids_from, add_group, new_group}
use lib_agml.Topology.Counters.Links.{IsLinked-kept}
use lib_agml.Topology.Counters.Build.{
  empty_topology, empty_topology-IsSound, out_total-same, in_total-same,
}
use lib_agml.Topology.Counters.Shapes.{shapes, IsFit}
use lib_agml.Topology.Nodes.{IsPlaced}
use lib_agml.Topology.Fit.{IsUnused, IsBuilt}

-- What a new group keeps of the number that it takes.
record IsOpened (g g' : Group) (fresh : Bool) : Type 0 where
  ins_opened : g'.ins ≡ g.ins
  outs_opened : g'.outs ≡ g.outs
  nodes_opened : g'.nb_nodes ≡ g.nb_nodes
  locals_opened : g'.nb_local_nodes ≡ g.nb_local_nodes
  shapes_opened : shapes g'.hosts ≡ shapes g.hosts
  outs_none :
      fresh ≡ true → (g'.outs ≡ []) × (g'.ins ≡ []) × (g'.nb_out_nodes ≡ 0) × (g'.nb_in_nodes ≡ 0)
  kept : fresh ≡ false → g' ≡ g

add_group-IsOpened :
    (t : Topology) (name nodeclass : List ℕ) (j : ℕ)
    → IsUnused (t.group t.nb_groups)
    → IsOpened (t.group j) ((add_group t name nodeclass).group j) (t.nb_groups == j)
unfolding add_group
add_group-IsOpened t name nodeclass j u = elim (Bool-cases (t.nb_groups == j)) [
  | inl e ↦ rw e (
      rw (← (==_iff t.nb_groups j).0 e) (record {
        ins_opened = sym u.no_ins;
        outs_opened = sym u.no_outs;
        nodes_opened = sym u.no_nodes;
        locals_opened = sym u.no_locals;
        shapes_opened = sym u.no_hosts;
        outs_none = λ h. (refl, refl, refl, refl);
        kept = λ h. absurd (cc);
      }))
  | inr e ↦ rw e (record {
    ins_opened = refl;
    outs_opened = refl;
    nodes_opened = refl;
    locals_opened = refl;
    shapes_opened = refl;
    outs_none = λ h. absurd (cc);
    kept = λ h. refl;
  })
]

add_group-groups :
    (t : Topology) (name nodeclass : List ℕ)
    → (add_group t name nodeclass).nb_groups ≡ suc t.nb_groups
unfolding add_group
add_group-groups t name nodeclass = refl

new_group-IsPlaced : (name nodeclass : List ℕ) → IsPlaced (new_group name nodeclass)
unfolding ids_from
new_group-IsPlaced name nodeclass = record { ids = refl; measured = tt; total = omega arith }

new_at :
    (t : Topology) (name nodeclass : List ℕ) (j : ℕ)
    → (t.nb_groups == j) ≡ true
    → (add_group t name nodeclass).group j ≡ new_group name nodeclass
unfolding add_group
new_at t name nodeclass j e = rw e

pub add_group-IsBuilt :
    (t : Topology) (name nodeclass : List ℕ) → IsBuilt t → IsBuilt (add_group t name nodeclass)
add_group-IsBuilt t name nodeclass b = record {
  linked = IsLinked-kept t t' (λ j. (o j).ins_opened) (λ j. (o j).outs_opened) b.linked;
  unused = λ j le.
      let u = b.unused j (omega (arith, add_group-groups t name nodeclass)) in
      record {
        no_ins = (o j).ins_opened ∙ u.no_ins;
        no_outs = (o j).outs_opened ∙ u.no_outs;
        no_nodes = (o j).nodes_opened ∙ u.no_nodes;
        no_locals = (o j).locals_opened ∙ u.no_locals;
        no_hosts = (o j).shapes_opened ∙ u.no_hosts;
      };
  exact = λ f.
      let x = b.exact (λ j. subst IsFit (o j).shapes_opened (f j)) in
      record {
        counted = record {
          out_counted = λ j. elim (Bool-cases (t.nb_groups == j)) [
            | inl e ↦ let n = (o j).outs_none e in rw (n.0, n.2) refl
            | inr e ↦ rw ((o j).kept e) (
                x.counted.out_counted j
                ∙ ap (λ n. n % 2 ^ 32)
                    (sym (
                      out_total-same t t' (t.group j).outs (λ k. (o k).nodes_opened)
                        (λ k. (o k).locals_opened))))
          ];
          in_counted = λ j. elim (Bool-cases (t.nb_groups == j)) [
            | inl e ↦ let n = (o j).outs_none e in rw (n.1, n.3) refl
            | inr e ↦ rw ((o j).kept e) (
                x.counted.in_counted j
                ∙ ap (λ n. n % 2 ^ 32)
                    (sym (
                      in_total-same t t' (t.group j).ins (λ k. (o k).nodes_opened)
                        (λ k. (o k).locals_opened))))
          ];
        };
        placed = λ j. elim (Bool-cases (t.nb_groups == j)) [
          | inl e ↦
              subst IsPlaced (sym (new_at t name nodeclass j e)) (new_group-IsPlaced name nodeclass)
          | inr e ↦ subst IsPlaced (sym ((o j).kept e)) (x.placed j)
        ];
        summed = λ j. record {
          nodes = rw (o j).shapes_opened ((o j).nodes_opened ∙ (x.summed j).nodes);
          locals = rw (o j).shapes_opened ((o j).locals_opened ∙ (x.summed j).locals);
        };
      };
}
  where
    t' : Topology
    t' = add_group t name nodeclass

    o : (j : ℕ) → IsOpened (t.group j) (t'.group j) (t.nb_groups == j)
    o j = add_group-IsOpened t name nodeclass j (b.unused t.nb_groups (omega arith))

pub empty_topology-IsBuilt : IsBuilt empty_topology
empty_topology-IsBuilt = record {
  linked = empty_topology-IsSound.linked;
  unused = λ j le. record {
    no_ins = refl;
    no_outs = refl;
    no_nodes = refl;
    no_locals = refl;
    no_hosts = refl;
  };
  exact = λ f. record {
    counted = empty_topology-IsSound.counted;
    placed = λ j. new_group-IsPlaced [] [];
    summed = λ j. record { nodes = refl; locals = refl };
  };
}
