-- ===== src/Reader/Run/Statements.antt =====
-- src/libagml_comm/topology/TopologyReader.cpp, Topology.h and NodeGroup.cpp: what the statement of a model text keeps of
-- the topology.
use mathlib.Core.Path.{subst}
use lib_agml.Common.{
  ℕ, ◌<◌, ◌≡◌, inl, inr, refl, ap, sym, ◌∙◌, Bool, List, ok, arith, Option-cases, >>=-ok,
  ok-injective,
}
use lib_agml.Topology.{Link}
use lib_agml.Topology.Hosts.{connect_hosts_as_needed}
use lib_agml.Topology.Fit.{IsBuilt}
use lib_agml.Topology.Fit.Steps.{connect-IsBuilt, connect_hosts_as_needed-IsBuilt}
use lib_agml.Topology.Fit.Groups.{add_group-IsBuilt}
use lib_agml.Reader.{
  is_local, parse_declare_host, Statement, declares_host, connects, assigns, sets, adds_group,
  execute_statement_assign,
}
use lib_agml.Reader.Execute.{get_group}
use lib_agml.Reader.Run.{
  Site, World, declare_host, hosts_of, connect_needed, connect_groups, connect_by_names,
  set_group_property, execute,
}
use lib_agml.Reader.Run.Assignments.{get_group_known, kept, assign_group-IsBuilt}

pub connect_needed-IsBuilt :
    (s : Site) (w v : World) (i : ℕ)
    → connect_needed s w i ≡ ok v
    → IsBuilt w.topology
    → (v.topology.nb_groups ≡ w.topology.nb_groups) × IsBuilt v.topology
unfolding connect_needed
connect_needed-IsBuilt s w v i e b =
    let (r, er, ev) = >>=-ok (connect_hosts_as_needed (hosts_of s w) w.topology i) _ v e in
    let k : r.1 ≡ v.topology = ap (λ u. u.topology) (ok-injective ev) in
    let (same, sound) = connect_hosts_as_needed-IsBuilt (hosts_of s w) w.topology i r er b in
    (ap (λ t. t.nb_groups) (sym k) ∙ same, subst IsBuilt k sound)

connect_groups-IsBuilt :
    (s : Site) (w v : World) (l : Link)
    → l.src < w.topology.nb_groups
    → l.dst < w.topology.nb_groups
    → connect_groups s w l ≡ ok v
    → IsBuilt w.topology
    → IsBuilt v.topology
unfolding connect_groups
connect_groups-IsBuilt s w v l from to e b =
    let (u, eu, ev) = >>=-ok (connect_needed s w l.dst) _ v e in
    let (same, sound) = connect_needed-IsBuilt s w u l.dst eu b in
    subst IsBuilt (ap (λ x. x.topology) (ok-injective ev))
      (connect-IsBuilt u.topology l (omega (arith, same)) (omega (arith, same)) sound)

connect_by_names-IsBuilt :
    (s : Site) (w v : World) (src dst : List ℕ) (self only : Bool)
    → connect_by_names s w src dst self only ≡ ok v
    → IsBuilt w.topology
    → IsBuilt v.topology
unfolding connect_by_names
connect_by_names-IsBuilt s w v src dst self only e b =
    elim (Option-cases (get_group w.topology src)) [
      | inl n ↦ kept w v (rw (n, connect_by_names) at e) b
      | inr (i, ei) ↦ elim (Option-cases (get_group w.topology dst)) [
        | inl n ↦ kept w v (rw (ei, n, connect_by_names) at e) b
        | inr (j, ej) ↦
            connect_groups-IsBuilt s w v _ (get_group_known w.topology src i ei)
              (get_group_known w.topology dst j ej) (rw (ei, ej, connect_by_names) at e) b
      ]
    ]

declare_host-topology :
    (s : Site) (w v : World) (text : List ℕ)
    → declare_host s w text ≡ ok v
    → v.topology ≡ w.topology
unfolding declare_host
declare_host-topology s w v text e =
    let (r, er, e1) = >>=-ok (parse_declare_host s.machine w.data_hosts text) _ v e in
    let (here, eh, e2) = >>=-ok (is_local s.machine r.0) _ v e1 in
    ap (λ x. x.topology) (sym (ok-injective e2))

set_group_property-topology :
    (w : World) (group key value : List ℕ)
    → (set_group_property w group key value).topology ≡ w.topology
unfolding set_group_property
set_group_property-topology w group key value = elim (Option-cases (get_group w.topology group)) [
  | inl n ↦ rw (n, set_group_property) refl
  | inr (i, e) ↦ rw (e, set_group_property) refl
]

pub execute-IsBuilt :
    (s : Site) (w v : World) (st : Statement)
    → execute s w st ≡ ok v
    → IsBuilt w.topology
    → IsBuilt v.topology
unfolding execute
execute-IsBuilt s w v (declares_host text) e b =
    subst IsBuilt (sym (declare_host-topology s w v text e)) b
execute-IsBuilt s w v (connects src dst self only) e b =
    connect_by_names-IsBuilt s w v src dst self only e b
execute-IsBuilt s w v (assigns group host nb) e b =
    let (a, ea, ev) = >>=-ok (execute_statement_assign s.machine w.data_hosts host nb) _ v e in
    assign_group-IsBuilt s w v group a ev b
execute-IsBuilt s w v (sets group key value) e b =
    subst IsBuilt
      (sym (set_group_property-topology w group key value) ∙ ap (λ x. x.topology) (ok-injective e))
      b
execute-IsBuilt s w v (adds_group node_type group) e b =
    subst IsBuilt (ap (λ x. x.topology) (ok-injective e))
      (add_group-IsBuilt w.topology group node_type b)
