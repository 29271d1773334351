-- ===== src/Topology/Fit.antt =====
-- src/libagml_comm/topology: what every call that builds a topology keeps, with no condition on the order of the
-- calls, and what it keeps as long as the hosts that the groups end up with are fit.
pub mod Steps
pub mod Groups
use mathlib.Core.Path.{subst}
use lib_agml.Common.{
  ℕ, zero, suc, ◌+◌, ◌%◌, ◌^◌, ◌≤◌, ◌<◌, ◌≡◌, ◌⊎◌, inl, inr, refl, ap, sym, ◌∙◌, Bool, true, false,
  List, [], ◌∷◌, ◌++◌, ◌==◌, if◌then◌else◌, arith, Bool-cases, ==_iff, ==_refl,
}
use lib_agml.Topology.{
  Link, Group, GroupHost, Topology, update, connect, add_group, new_group, assign_local,
  assign_remote, local_host, remote_host,
}
use lib_agml.Topology.Counters.Assign.{
  IsLinked, IsCounted, Joins, IsInOrder, Joins-IsCounted, out_total, in_total,
}
use lib_agml.Topology.Counters.Hosts.{IsSmall, assign_local-Joins, assign_remote-Joins}
use lib_agml.Topology.Counters.Links.{connect-IsConnected, IsLinked-kept}
use lib_agml.Topology.Counters.Build.{
  connect-IsLinked, connect-IsCounted, out_total-same, in_total-same,
}
use lib_agml.Topology.Counters.Growth.{
  IsAssigned, assign_local-IsAssigned, assign_remote-IsAssigned,
}
use lib_agml.Topology.Counters.Shapes.{
  shape, shapes, nodes_in, locals_in, IsFit, IsNext, shapes-append, nodes_in-append,
  locals_in-append, locals_in_le, IsFit-front, IsFit-last,
}
use lib_agml.Topology.Nodes.{
  IsPlaced, remote_total, kept-IsPlaced, joined_local-IsPlaced, joined_remote-IsPlaced,
}

-- A group number that has not been given out.
pub record IsUnused (g : Group) : Type 0 where
  pub no_ins : g.ins ≡ []
  pub no_outs : g.outs ≡ []
  pub no_nodes : g.nb_nodes ≡ 0
  pub no_locals : g.nb_local_nodes ≡ 0
  pub no_hosts : shapes g.hosts ≡ []

-- The numbers of nodes are those of the hosts.
pub record IsSummed (g : Group) : Type 0 where
  pub nodes : g.nb_nodes ≡ nodes_in (shapes g.hosts)
  pub locals : g.nb_local_nodes ≡ locals_in (shapes g.hosts)

pub record IsExact (t : Topology) : Type 0 where
  pub counted : IsCounted t
  pub placed : (j : ℕ) → IsPlaced (t.group j)
  pub summed : (j : ℕ) → IsSummed (t.group j)

-- The hosts of every group are fit.
abbrev pub AllFit : Topology → Type 0
AllFit t = (j : ℕ) → IsFit (shapes (t.group j).hosts)

-- The hosts of the groups of numbers below `n` are fit.
abbrev pub AllFitBelow : Topology → ℕ → Type 0
AllFitBelow t n = (j : ℕ) → j < n → IsFit (shapes (t.group j).hosts)

pub record IsBuilt (t : Topology) : Type 0 where
  pub linked : IsLinked t
  pub unused : (j : ℕ) → t.nb_groups ≤ j → IsUnused (t.group j)
  pub exact : AllFit t → IsExact t

module _ (t t' : Topology) (i : ℕ) (h : GroupHost) (a : IsAssigned t i h t') where
  here_shapes : shapes (t'.group i).hosts ≡ shapes (t.group i).hosts ++ (shape h ∷ [])
  here_shapes = ap shapes a.hosts_here ∙ shapes-append (t.group i).hosts (h ∷ [])

  IsFit-here : AllFit t' → IsFit (shapes (t.group i).hosts ++ (shape h ∷ []))
  IsFit-here f = subst IsFit here_shapes (f i)

  AllFit-before : AllFit t' → AllFit t
  AllFit-before f j = elim (Bool-cases (i == j)) [
    | inl e ↦
        rw (← (==_iff i j).0 e) (IsFit-front (shapes (t.group i).hosts) (shape h) (IsFit-here f))
    | inr e ↦ subst (λ hs. IsFit (shapes hs)) (a.hosts_there j e) (f j)
  ]

  module _ (f : AllFit t') (x : IsExact t) where
    next : IsNext (shapes (t.group i).hosts) (shape h)
    next = IsFit-last (shapes (t.group i).hosts) (shape h) (IsFit-here f)

    assigned-IsSmall : IsSmall (t.group i) h
    assigned-IsSmall = record {
      few = omega (arith, (x.summed i).nodes, next.few);
      local_le =
          omega (
            arith,
            (x.summed i).nodes,
            (x.summed i).locals,
            locals_in_le (shapes (t.group i).hosts),
          );
    }

    assigned-IsInOrder : IsInOrder (t.group i) h
    assigned-IsInOrder = record {
      brings = next.brings;
      few = assigned-IsSmall.few;
      local_le = assigned-IsSmall.local_le;
      local_first = first next.local_first;
    }
      where
        first :
            (h.is_local ≡ false)
              ⊎ ((nodes_in (shapes (t.group i).hosts) ≡ 0)
                  ⊎ (0 < locals_in (shapes (t.group i).hosts)))
            → (h.is_local ≡ false) ⊎ (((t.group i).nb_nodes ≡ 0) ⊎ (0 < (t.group i).nb_local_nodes))
        first (inl e) = inl e
        first (inr (inl e)) = inr (inl ((x.summed i).nodes ∙ e))
        first (inr (inr l)) = inr (inr (omega (arith, (x.summed i).locals)))

    assigned-IsSummed : Joins t i h t' → (j : ℕ) → IsSummed (t'.group j)
    assigned-IsSummed k j = elim (Bool-cases (i == j)) [
      | inl e ↦ rw (← (==_iff i j).0 e) (record {
        nodes = rw here_shapes (
            omega (
              arith,
              k.nodes_here,
              (x.summed i).nodes,
              nodes_in-append (shapes (t.group i).hosts) (shape h ∷ []),
            ));
        locals = rw here_shapes (
            ground (
              arith,
              k.local_here,
              (x.summed i).locals,
              locals_in-append (shapes (t.group i).hosts) (shape h ∷ []),
            ));
      })
      | inr e ↦ record {
        nodes = rw (a.hosts_there j e) (a.nodes_there j e ∙ (x.summed j).nodes);
        locals = rw (a.hosts_there j e) (a.locals_there j e ∙ (x.summed j).locals);
      }
    ]

  -- An assignment keeps all this, whatever it brings and whenever it comes.
  assigned-IsBuilt :
      i < t.nb_groups
      → (IsSmall (t.group i) h → Joins t i h t')
      → (Joins t i h t' → ((j : ℕ) → IsPlaced (t.group j)) → (j : ℕ) → IsPlaced (t'.group j))
      → IsBuilt t
      → IsBuilt t'
  assigned-IsBuilt lt joins places b = record {
    linked = IsLinked-kept t t' a.ins_kept a.outs_kept b.linked;
    unused = λ j le.
        let e : (i == j) ≡ false = ground (arith, a.same_groups) in
        let u = b.unused j (omega (arith, a.same_groups)) in
        record {
          no_ins = a.ins_kept j ∙ u.no_ins;
          no_outs = a.outs_kept j ∙ u.no_outs;
          no_nodes = a.nodes_there j e ∙ u.no_nodes;
          no_locals = a.locals_there j e ∙ u.no_locals;
          no_hosts = ap shapes (a.hosts_there j e) ∙ u.no_hosts;
        };
    exact = λ f.
        let x = b.exact (AllFit-before f) in
        let k = joins (assigned-IsSmall f x) in
        record {
          counted = Joins-IsCounted t t' i h k (assigned-IsInOrder f x) b.linked x.counted;
          placed = places k x.placed;
          summed = assigned-IsSummed f x k;
        };
  }

pub assign_local-IsBuilt :
    (t : Topology) (i dh wanted made : ℕ)
    → i < t.nb_groups
    → IsBuilt t
    → IsBuilt (assign_local t i dh wanted made)
assign_local-IsBuilt t i dh wanted made lt b =
    assigned-IsBuilt t _ i (local_host (t.group i) dh wanted made)
      (assign_local-IsAssigned t i dh wanted made) lt (assign_local-Joins t i dh wanted made)
      (joined_local-IsPlaced t _ i dh wanted made) b

pub assign_remote-IsBuilt :
    (t : Topology) (i dh wanted : ℕ)
    → i < t.nb_groups
    → IsBuilt t
    → IsBuilt (assign_remote t i dh wanted)
assign_remote-IsBuilt t i dh wanted lt b =
    assigned-IsBuilt t _ i (remote_host dh wanted) (assign_remote-IsAssigned t i dh wanted) lt
      (assign_remote-Joins t i dh wanted) (joined_remote-IsPlaced t _ i dh wanted) b
