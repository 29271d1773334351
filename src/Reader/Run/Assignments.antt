-- ===== src/Reader/Run/Assignments.antt =====
-- src/libagml_comm/topology/NodeGroup.cpp: what the assignments of a model text keep of the topology.
use mathlib.Core.Path.{subst}
use lib_agml.Common.{
  ℕ, ◌<◌, ◌^◌, ◌≡◌, inl, inr, ap, sym, ◌∙◌, Bool, true, false, none, some, List, [], ◌∷◌, ◌&&◌, ltb,
  leb, ◌==◌, if◌then◌else◌, length, ok, err, bad_access, or_fail, arith, Bool-cases, Option-cases,
  some-injective, >>=-ok, ok-injective, out_of_fuel, no_such_host,
}
use lib_agml.Topology.{Topology, GroupHost, assign_local, assign_remote}
use lib_agml.Topology.Hosts.{assign_same_as, local_same_as, remote_same_as, widened}
use lib_agml.Topology.Fit.{IsBuilt, assign_local-IsBuilt, assign_remote-IsBuilt}
use lib_agml.Topology.Counters.Growth.{assign_local-IsAssigned, assign_remote-IsAssigned}
use lib_agml.Reader.{DataHost, is_local, Assignment, same_as, on_hosts}
use lib_agml.Reader.Execute.{get_group, get_group_finds}
use lib_agml.Reader.Run.{
  Site, World, find_datahost, instantiated, assign_to, assign_by_names, assign_each, assign_as,
  assign_group,
}

pub get_group_known :
    (t : Topology) (name : List ℕ) (i : ℕ) → get_group t name ≡ some i → i < t.nb_groups
get_group_known t name i e = elim (get_group_finds t name) [
  | inl (n, u) ↦ absurd (none_some (sym n ∙ e))
  | inr (j, ej, v) ↦ subst (λ k. k < t.nb_groups) (some-injective (sym ej ∙ e)) v.known
]
  where
    none_some : ¬ (none ≡ some i)
    none_some h = cc

pub kept : (w v : World) → ok w ≡ ok v → IsBuilt w.topology → IsBuilt v.topology
kept w v e b = subst IsBuilt (ap (λ x. x.topology) (ok-injective e)) b

assign_same_as-IsBuilt :
    (known : Bool) (t t' : Topology) (i limit : ℕ) (hs : List GroupHost)
    → i < t.nb_groups
    → assign_same_as known t i limit hs ≡ ok t'
    → IsBuilt t
    → IsBuilt t'
unfolding assign_same_as
assign_same_as-IsBuilt known t t' i limit [] lt e b = subst IsBuilt (ok-injective e) b
assign_same_as-IsBuilt known t t' i limit (h ∷ hs) lt e b =
    let (dh, edh, et) = >>=-ok (or_fail h.host bad_access) _ t' e in
    let (lt', b') = one h.is_local dh in
    assign_same_as-IsBuilt known
      (if h.is_local
        then assign_local t i dh 0 (local_same_as known limit h.nb_nodes)
        else assign_remote t i dh (remote_same_as limit h.nb_nodes))
      t' i limit hs lt' et b'
  where
    one :
        (here : Bool) (dh : ℕ)
        → let u =
            if here
            then assign_local t i dh 0 (local_same_as known limit h.nb_nodes)
            else assign_remote t i dh (remote_same_as limit h.nb_nodes) in
          (i < u.nb_groups) × IsBuilt u
    one true dh = (
      omega (
        arith,
        (assign_local-IsAssigned t i dh 0 (local_same_as known limit h.nb_nodes)).same_groups,
      ),
      assign_local-IsBuilt t i dh 0 (local_same_as known limit h.nb_nodes) lt b,
    )
    one false dh = (
      omega
          (arith, (assign_remote-IsAssigned t i dh (remote_same_as limit h.nb_nodes)).same_groups),
      assign_remote-IsBuilt t i dh (remote_same_as limit h.nb_nodes) lt b,
    )

assign_to-IsBuilt :
    (s : Site) (w v : World) (i dh : ℕ) (h : DataHost) (nb thread : ℕ)
    → i < w.topology.nb_groups
    → assign_to s w i dh h nb thread ≡ ok v
    → IsBuilt w.topology
    → IsBuilt v.topology
unfolding assign_to
assign_to-IsBuilt s w v i dh h nb thread lt e b =
    let (here, eh, ev) = >>=-ok (is_local s.machine h) _ v e in
    elim (Bool-cases here) [
      | inl y ↦
          let (made, em, r) =
            >>=-ok
              (instantiated (s.knows (w.topology.group i).nodeclass) w.nb_threads
                (if leb (2 ^ 31) nb then 0 else nb) thread)
              _ v (rw y at ev) in
          subst IsBuilt (ap (λ x. x.topology) (ok-injective r))
            (assign_local-IsBuilt w.topology i dh _ made lt b)
      | inr n ↦
          let r : ok (record w { topology = assign_remote w.topology i dh (widened nb) }) ≡ ok v =
            rw n at ev in
          subst IsBuilt (ap (λ x. x.topology) (ok-injective r))
            (assign_remote-IsBuilt w.topology i dh (widened nb) lt b)
    ]

assign_by_names-IsBuilt :
    (s : Site) (w v : World) (group host : List ℕ) (nb thread : ℕ)
    → assign_by_names s w group host nb thread ≡ ok v
    → IsBuilt w.topology
    → IsBuilt v.topology
unfolding assign_by_names
assign_by_names-IsBuilt s w v group host nb thread e b =
    elim (Option-cases (get_group w.topology group)) [
      | inl n ↦ kept w v (rw (n, assign_by_names) at e) b
      | inr (i, ei) ↦ elim (Option-cases (find_datahost w.data_hosts host 0)) [
        | inl n ↦ absurd (not_ok (rw (ei, n, assign_by_names) at e))
        | inr (p, ep) ↦
            assign_to-IsBuilt s w v i p.0 p.1 nb thread (get_group_known w.topology group i ei)
              (rw (ei, ep, assign_by_names) at e) b
      ]
    ]
  where
    not_ok : ¬ (err no_such_host ≡ ok v)
    not_ok h = cc

assign_each-IsBuilt :
    (s : Site) (w v : World) (group : List ℕ) (each : List (List ℕ × (ℕ × ℕ)))
    → assign_each s w group each ≡ ok v
    → IsBuilt w.topology
    → IsBuilt v.topology
unfolding assign_each
assign_each-IsBuilt s w v group [] e b = kept w v e b
assign_each-IsBuilt s w v group (a ∷ more) e b =
    let (u, eu, ev) = >>=-ok (assign_by_names s w group a.0 a.1.0 a.1.1) _ v e in
    assign_each-IsBuilt s u v group more ev
      (assign_by_names-IsBuilt s w u group a.0 a.1.0 a.1.1 eu b)

assign_as-IsBuilt :
    (s : Site) (w v : World) (group ref : List ℕ) (limit : ℕ)
    → assign_as s w group ref limit ≡ ok v
    → IsBuilt w.topology
    → IsBuilt v.topology
unfolding assign_as
assign_as-IsBuilt s w v group ref limit e b = elim (Option-cases (get_group w.topology group)) [
  | inl n ↦ kept w v (rw (n, assign_as) at e) b
  | inr (i, ei) ↦ elim (Option-cases (get_group w.topology ref)) [
    | inl n ↦ kept w v (rw (ei, n, assign_as) at e) b
    | inr (j, ej) ↦ elim (Bool-cases (i == j && ltb 0 (length (w.topology.group j).hosts))) [
      | inl y ↦ absurd (not_ok (rw (ei, ej, y, assign_as) at e))
      | inr n ↦
          let (t, et, ev) =
            >>=-ok
              (assign_same_as (s.knows (w.topology.group i).nodeclass) w.topology i limit
                (w.topology.group j).hosts)
              _ v (rw (ei, ej, n, assign_as) at e) in
          subst IsBuilt (ap (λ x. x.topology) (ok-injective ev)) (
            assign_same_as-IsBuilt _ w.topology t i limit _ (get_group_known w.topology group i ei)
              et b)
    ]
  ]
]
  where
    not_ok : ¬ (err out_of_fuel ≡ ok v)
    not_ok h = cc

pub assign_group-IsBuilt :
    (s : Site) (w v : World) (group : List ℕ) (a : Assignment)
    → assign_group s w group a ≡ ok v
    → IsBuilt w.topology
    → IsBuilt v.topology
unfolding assign_group
assign_group-IsBuilt s w v group (same_as ref limit) e b =
    assign_as-IsBuilt s w v group ref limit e b
assign_group-IsBuilt s w v group (on_hosts each) e b = assign_each-IsBuilt s w v group each e b
