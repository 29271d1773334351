-- ===== src/Topology/Fit/Steps.antt =====
-- src/libagml_comm/topology/Topology.cpp and NodeGroup.cpp: what a new link and opened connections keep.
use mathlib.Core.Path.{subst}
use lib_agml.Common.{
  ℕ, ◌+◌, ◌%◌, ◌^◌, ◌≤◌, ◌<◌, ◌≡◌, inl, inr, refl, ap, sym, ◌∙◌, false, List, [], ◌∷◌, ◌==◌, ok,
  arith, Bool-cases, ==_iff, >>=-ok, ok-injective,
}
use lib_agml.Topology.{Link, Group, GroupHost, Topology, update, connect, add_in, add_out}
use lib_agml.Topology.Hosts.{DataHosts, is_needed, connect_hosts, connect_hosts_as_needed}
use lib_agml.Topology.Counters.Links.{connect-IsConnected, IsLinked-kept}
use lib_agml.Topology.Counters.Build.{
  connect-IsLinked, connect-IsCounted, out_total-same, in_total-same,
}
use lib_agml.Topology.Counters.Shapes.{shapes, nodes_in, locals_in, IsFit, connect_hosts-shapes}
use lib_agml.Topology.Nodes.{IsPlaced, remote_total, kept-IsPlaced}
use lib_agml.Topology.Fit.{IsBuilt}

pub connect-groups : (t : Topology) (l : Link) → (connect t l).nb_groups ≡ t.nb_groups
unfolding connect add_in add_out
connect-groups t l = refl

other_end : (a i j : ℕ) → a < i → i ≤ j → (a == j) ≡ false
other_end a i j h k = ground arith

pub connect-IsBuilt :
    (t : Topology) (l : Link)
    → l.src < t.nb_groups
    → l.dst < t.nb_groups
    → IsBuilt t
    → IsBuilt (connect t l)
connect-IsBuilt t l from to b = record {
  linked = connect-IsLinked t l b.linked;
  unused = λ j le.
      let c = connect-IsConnected t l j in
      let le' : t.nb_groups ≤ j = omega (arith, connect-groups t l) in
      let u = b.unused j le' in
      record {
        no_ins = c.ins_more ∙ rw (u.no_ins, other_end l.dst t.nb_groups j to le');
        no_outs = c.outs_more ∙ rw (u.no_outs, other_end l.src t.nb_groups j from le');
        no_nodes = c.nodes_same ∙ u.no_nodes;
        no_locals = c.locals_same ∙ u.no_locals;
        no_hosts = ap shapes c.hosts_same ∙ u.no_hosts;
      };
  exact = λ f.
      let x =
        b.exact
          (λ j. subst (λ hs. IsFit (shapes hs)) (connect-IsConnected t l j).hosts_same (f j)) in
      record {
        counted = connect-IsCounted t l x.counted;
        placed = λ j.
            let c = connect-IsConnected t l j in
            kept-IsPlaced (t.group j) _ c.nodes_same c.locals_same c.hosts_same c.local_hosts_same
              (x.placed j);
        summed = λ j.
            let c = connect-IsConnected t l j in
            record {
              nodes = rw c.hosts_same (c.nodes_same ∙ (x.summed j).nodes);
              locals = rw c.hosts_same (c.locals_same ∙ (x.summed j).locals);
            };
      };
}

remote_total-shapes :
    (hs : List GroupHost) → remote_total hs + locals_in (shapes hs) ≡ nodes_in (shapes hs)
remote_total-shapes [] = refl
remote_total-shapes (h ∷ hs) = ground (arith, remote_total-shapes hs)

-- Two groups that are the same but for what their hosts are connected to.
pub record IsAlike (g g' : Group) : Type 0 where
  pub ins_same : g'.ins ≡ g.ins
  pub outs_same : g'.outs ≡ g.outs
  pub nodes_same : g'.nb_nodes ≡ g.nb_nodes
  pub locals_same : g'.nb_local_nodes ≡ g.nb_local_nodes
  pub out_same : g'.nb_out_nodes ≡ g.nb_out_nodes
  pub in_same : g'.nb_in_nodes ≡ g.nb_in_nodes
  pub local_hosts_same : g'.local_hosts ≡ g.local_hosts
  pub shapes_same : shapes g'.hosts ≡ shapes g.hosts

alike-IsPlaced : (g g' : Group) → IsAlike g g' → IsPlaced g → IsPlaced g'
alike-IsPlaced g g' a p = record {
  ids = rw (a.local_hosts_same, a.locals_same) p.ids;
  measured = rw a.local_hosts_same p.measured;
  total = omega (
    arith,
    p.total,
    a.nodes_same,
    a.locals_same,
    remote_total-shapes g.hosts,
    remote_total-shapes g'.hosts,
    ap nodes_in a.shapes_same,
    ap locals_in a.shapes_same,
  );
}

pub alike-IsBuilt :
    (t t' : Topology)
    → t'.nb_groups ≡ t.nb_groups
    → ((j : ℕ) → IsAlike (t.group j) (t'.group j))
    → IsBuilt t
    → IsBuilt t'
alike-IsBuilt t t' e a b = record {
  linked = IsLinked-kept t t' (λ j. (a j).ins_same) (λ j. (a j).outs_same) b.linked;
  unused = λ j le.
      let u = b.unused j (omega (arith, e)) in
      record {
        no_ins = (a j).ins_same ∙ u.no_ins;
        no_outs = (a j).outs_same ∙ u.no_outs;
        no_nodes = (a j).nodes_same ∙ u.no_nodes;
        no_locals = (a j).locals_same ∙ u.no_locals;
        no_hosts = (a j).shapes_same ∙ u.no_hosts;
      };
  exact = λ f.
      let x = b.exact (λ j. subst IsFit (a j).shapes_same (f j)) in
      record {
        counted = record {
          out_counted = λ j.
              rw ((a j).out_same, (a j).outs_same)
                (x.counted.out_counted j
                  ∙ ap (λ n. n % 2 ^ 32)
                      (sym (
                        out_total-same t t' (t.group j).outs (λ k. (a k).nodes_same)
                          (λ k. (a k).locals_same))));
          in_counted = λ j.
              rw ((a j).in_same, (a j).ins_same)
                (x.counted.in_counted j
                  ∙ ap (λ n. n % 2 ^ 32)
                      (sym (
                        in_total-same t t' (t.group j).ins (λ k. (a k).nodes_same)
                          (λ k. (a k).locals_same))));
        };
        placed = λ j. alike-IsPlaced (t.group j) (t'.group j) (a j) (x.placed j);
        summed = λ j. record {
          nodes = rw (a j).shapes_same ((a j).nodes_same ∙ (x.summed j).nodes);
          locals = rw (a j).shapes_same ((a j).locals_same ∙ (x.summed j).locals);
        };
      };
}

rehosted-IsAlike :
    (t : Topology) (i : ℕ) (hs : List GroupHost) (j : ℕ)
    → shapes hs ≡ shapes (t.group i).hosts
    → IsAlike (t.group j) ((update t i (record (t.group i) { hosts = hs })).group j)
rehosted-IsAlike t i hs j e = elim (Bool-cases (i == j)) [
  | inl b ↦ rw b (
      rw (← (==_iff i j).0 b) (record {
        ins_same = refl;
        outs_same = refl;
        nodes_same = refl;
        locals_same = refl;
        out_same = refl;
        in_same = refl;
        local_hosts_same = refl;
        shapes_same = e;
      }))
  | inr b ↦ rw b (record {
    ins_same = refl;
    outs_same = refl;
    nodes_same = refl;
    locals_same = refl;
    out_same = refl;
    in_same = refl;
    local_hosts_same = refl;
    shapes_same = refl;
  })
]

pub connect_hosts_as_needed-IsBuilt :
    (d : DataHosts) (t : Topology) (i : ℕ) (r : DataHosts × Topology)
    → connect_hosts_as_needed d t i ≡ ok r
    → IsBuilt t
    → (r.1.nb_groups ≡ t.nb_groups) × IsBuilt r.1
unfolding connect_hosts_as_needed
connect_hosts_as_needed-IsBuilt d t i r e b = elim (Bool-cases (is_needed t (t.group i).ins)) [
  | inl n ↦
      let (p, ep, er) = >>=-ok (connect_hosts d (t.group i).hosts) _ r (rw n at e) in
      let t' : Topology = update t i (record (t.group i) { hosts = p.1 }) in
      let k : t' ≡ r.1 = ap (λ q. q.1) (ok-injective er) in
      let sound : IsBuilt t' =
        alike-IsBuilt t t' refl (λ j. rehosted-IsAlike t i p.1 j (connect_hosts-shapes d _ p ep))
          b in
      (ap (λ u. u.nb_groups) (sym k), subst IsBuilt k sound)
  | inr n ↦
      let k : ok (d, t) ≡ ok r = rw n at e in
      let k' : t ≡ r.1 = ap (λ q. q.1) (ok-injective k) in
      (ap (λ u. u.nb_groups) (sym k'), subst IsBuilt k' b)
]
