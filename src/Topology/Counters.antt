-- ===== src/Topology/Counters.antt =====
-- src/libagml_comm/topology/NodeGroup.cpp: how `add_host` moves the counters of every group.
pub mod Assign
pub mod Hosts
pub mod Links
pub mod Build
pub mod Drift
pub mod Growth
pub mod Shapes
use mathlib.Core.Path.{subst}
use lib_agml.Common.{
  ℕ, zero, suc, ◌+◌, ◌-◌, ◌*◌, ◌%◌, ◌^◌, ◌≤◌, ◌<◌, ◌≡◌, ◌≢◌, refl, ap, sym, ◌∙◌, Bool, true, false,
  not, ◌&&◌, ◌||◌, List, [], ◌∷◌, ◌++◌, ltb, ◌==◌, if◌then◌else◌, arith, Bool-cases, inl, inr,
  ==_iff, ==_refl,
}
use lib_agml.Topology.{
  Link, Group, GroupHost, Topology, update, is_self, get_nb_out, get_nb_in, host_share,
  on_dst_add_host, on_src_add_host, each_in, each_out, add_host, push_host, count_host,
}

abbrev pub pick : (Link → Bool) → List Link → List Link
pick p [] = []
pick p (l ∷ ls) = if p l then l ∷ pick p ls else pick p ls

abbrev pub share_total : ℕ → GroupHost → List Link → ℕ
share_total before h [] = 0
share_total before h (l ∷ ls) = host_share l before h + share_total before h ls

-- All of a group that the counters of the links do not touch.
pub record IsSame (g g' : Group) : Type 0 where
  pub same_ins : g'.ins ≡ g.ins
  pub same_outs : g'.outs ≡ g.outs
  pub same_hosts : g'.hosts ≡ g.hosts
  pub same_local_hosts : g'.local_hosts ≡ g.local_hosts
  pub same_nodes : g'.nb_nodes ≡ g.nb_nodes
  pub same_local_nodes : g'.nb_local_nodes ≡ g.nb_local_nodes

record IsFedIn (g : Group) (h : GroupHost) (ls : List Link) (g' : Group) : Type 0 where
  same : IsSame g g'
  out_grown : g'.nb_out_nodes % 2 ^ 32 ≡ (g.nb_out_nodes + share_total g.nb_nodes h ls) % 2 ^ 32
  in_kept : g'.nb_in_nodes ≡ g.nb_in_nodes

record IsFedOut (g : Group) (h : GroupHost) (ls : List Link) (g' : Group) : Type 0 where
  same : IsSame g g'
  in_grown : g'.nb_in_nodes % 2 ^ 32 ≡ (g.nb_in_nodes + share_total g.nb_nodes h ls) % 2 ^ 32
  out_kept : g'.nb_out_nodes ≡ g.nb_out_nodes

IsSame-refl : (g : Group) → IsSame g g
IsSame-refl g = record {
  same_ins = refl;
  same_outs = refl;
  same_hosts = refl;
  same_local_hosts = refl;
  same_nodes = refl;
  same_local_nodes = refl;
}

mod_regroup :
    (x a b c : ℕ)
    → x % 2 ^ 32 ≡ ((a + b) % 2 ^ 32 + c) % 2 ^ 32
    → x % 2 ^ 32 ≡ (a + (b + c)) % 2 ^ 32
mod_regroup x a b c h = omega arith

IsFedIn-step :
    (g g1 g' : Group) (l : Link) (ls : List Link) (h : GroupHost)
    → g1 ≡ record g { nb_out_nodes = (g.nb_out_nodes + host_share l g.nb_nodes h) % 2 ^ 32 }
    → IsFedIn g1 h ls g'
    → IsFedIn g h (l ∷ ls) g'
IsFedIn-step g g1 g' l ls h e f =
    let r = rw e at f in
    record {
      same = record {
        same_ins = r.same.same_ins;
        same_outs = r.same.same_outs;
        same_hosts = r.same.same_hosts;
        same_local_hosts = r.same.same_local_hosts;
        same_nodes = r.same.same_nodes;
        same_local_nodes = r.same.same_local_nodes;
      };
      out_grown =
          mod_regroup g'.nb_out_nodes g.nb_out_nodes (host_share l g.nb_nodes h) _ r.out_grown;
      in_kept = r.in_kept;
    }

IsFedOut-step :
    (g g1 g' : Group) (l : Link) (ls : List Link) (h : GroupHost)
    → g1 ≡ record g { nb_in_nodes = (g.nb_in_nodes + host_share l g.nb_nodes h) % 2 ^ 32 }
    → IsFedOut g1 h ls g'
    → IsFedOut g h (l ∷ ls) g'
IsFedOut-step g g1 g' l ls h e f =
    let r = rw e at f in
    record {
      same = record {
        same_ins = r.same.same_ins;
        same_outs = r.same.same_outs;
        same_hosts = r.same.same_hosts;
        same_local_hosts = r.same.same_local_hosts;
        same_nodes = r.same.same_nodes;
        same_local_nodes = r.same.same_local_nodes;
      };
      in_grown = mod_regroup g'.nb_in_nodes g.nb_in_nodes (host_share l g.nb_nodes h) _ r.in_grown;
      out_kept = r.out_kept;
    }

-- The links into a group feed the counters of their sources, and nothing else.
each_in-IsFedIn :
    (t : Topology) (ls : List Link) (h : GroupHost) (j : ℕ)
    → IsFedIn (t.group j) h (pick (λ l. l.src == j) ls) ((each_in t ls h).group j)
unfolding each_in on_dst_add_host
each_in-IsFedIn t [] h j = record {
  same = IsSame-refl (t.group j);
  out_grown = omega arith;
  in_kept = refl;
}
each_in-IsFedIn t (l ∷ ls) h j = elim (Bool-cases (l.src == j)) [
  | inl e ↦
      let at : l.src ≡ j = (==_iff l.src j).0 e in
      rw e (
        IsFedIn-step (t.group j) _ _ l _ h (rw at (rw (==_refl j)))
          (each_in-IsFedIn (on_dst_add_host t l h) ls h j))
  | inr e ↦ rw e (rw e at (each_in-IsFedIn (on_dst_add_host t l h) ls h j))
]

-- The links out of a group feed the counters of their destinations, and nothing else.
each_out-IsFedOut :
    (t : Topology) (ls : List Link) (h : GroupHost) (j : ℕ)
    → IsFedOut (t.group j) h (pick (λ l. l.dst == j) ls) ((each_out t ls h).group j)
unfolding each_out on_src_add_host
each_out-IsFedOut t [] h j = record {
  same = IsSame-refl (t.group j);
  in_grown = omega arith;
  out_kept = refl;
}
each_out-IsFedOut t (l ∷ ls) h j = elim (Bool-cases (l.dst == j)) [
  | inl e ↦
      let at : l.dst ≡ j = (==_iff l.dst j).0 e in
      rw e (
        IsFedOut-step (t.group j) _ _ l _ h (rw at (rw (==_refl j)))
          (each_out-IsFedOut (on_src_add_host t l h) ls h j))
  | inr e ↦ rw e (rw e at (each_out-IsFedOut (on_src_add_host t l h) ls h j))
]

-- What `add_host` makes of a group `g`, to which the host is added if `here`: the links that feed its
-- counters are `from` it and `to` it.
pub record IsGrown (g : Group) (here : Bool) (h : GroupHost) (from to : List Link) (g' : Group)
    : Type 0 where
  pub ins_kept : g'.ins ≡ g.ins
  pub outs_kept : g'.outs ≡ g.outs
  pub hosts_grown : g'.hosts ≡ (if here then g.hosts ++ h ∷ [] else g.hosts)
  pub local_grown :
      g'.local_hosts ≡ (if here && h.is_local then g.local_hosts ++ h ∷ [] else g.local_hosts)
  pub nodes_grown : g'.nb_nodes ≡ (if here then (g.nb_nodes + h.nb_nodes) % 2 ^ 64 else g.nb_nodes)
  pub local_nodes_kept : g'.nb_local_nodes ≡ g.nb_local_nodes
  pub out_grown :
      g'.nb_out_nodes % 2 ^ 32 ≡ (g.nb_out_nodes + share_total g.nb_nodes h from) % 2 ^ 32
  pub in_grown : g'.nb_in_nodes % 2 ^ 32 ≡ (g.nb_in_nodes + share_total g.nb_nodes h to) % 2 ^ 32

fed-IsGrown :
    (g : Group) (here : Bool) (h : GroupHost) (from to : List Link) (g2 g3 : Group)
    → IsFedIn (if here then push_host g h else g) h from g2
    → IsFedOut g2 h to g3
    → IsGrown g here h from to (if here then count_host g3 h else g3)
fed-IsGrown g true h from to g2 g3 a b = record {
  ins_kept = b.same.same_ins ∙ a.same.same_ins;
  outs_kept = b.same.same_outs ∙ a.same.same_outs;
  hosts_grown = b.same.same_hosts ∙ a.same.same_hosts;
  local_grown = b.same.same_local_hosts ∙ a.same.same_local_hosts;
  nodes_grown = ap (λ n. (n + h.nb_nodes) % 2 ^ 64) (b.same.same_nodes ∙ a.same.same_nodes);
  local_nodes_kept = b.same.same_local_nodes ∙ a.same.same_local_nodes;
  out_grown = ap (λ n. n % 2 ^ 32) b.out_kept ∙ a.out_grown;
  in_grown =
      b.in_grown
      ∙ ap (λ n. (g2.nb_in_nodes + share_total n h to) % 2 ^ 32) a.same.same_nodes
      ∙ ap (λ n. (n + share_total g.nb_nodes h to) % 2 ^ 32) a.in_kept;
}
fed-IsGrown g false h from to g2 g3 a b = record {
  ins_kept = b.same.same_ins ∙ a.same.same_ins;
  outs_kept = b.same.same_outs ∙ a.same.same_outs;
  hosts_grown = b.same.same_hosts ∙ a.same.same_hosts;
  local_grown = b.same.same_local_hosts ∙ a.same.same_local_hosts;
  nodes_grown = b.same.same_nodes ∙ a.same.same_nodes;
  local_nodes_kept = b.same.same_local_nodes ∙ a.same.same_local_nodes;
  out_grown = ap (λ n. n % 2 ^ 32) b.out_kept ∙ a.out_grown;
  in_grown =
      b.in_grown
      ∙ ap (λ n. (g2.nb_in_nodes + share_total n h to) % 2 ^ 32) a.same.same_nodes
      ∙ ap (λ n. (n + share_total g.nb_nodes h to) % 2 ^ 32) a.in_kept;
}

update_at :
    (t : Topology) (i j : ℕ) (f : Group → Group)
    → (update t i (f (t.group i))).group j ≡ (if i == j then f (t.group j) else t.group j)
update_at t i j f = elim (Bool-cases (i == j)) [
  | inl e ↦ rw ((==_iff i j).0 e, ==_refl j)
  | inr e ↦ rw e
]

pub add_host-IsGrown :
    (t : Topology) (i : ℕ) (h : GroupHost) (j : ℕ)
    → IsGrown
        (t.group j)
        (i == j)
        h
        (pick (λ l. l.src == j) (t.group i).ins)
        (pick (λ l. l.dst == j) (t.group i).outs)
        ((add_host t i h).group j)
unfolding add_host
add_host-IsGrown t i h j =
    let t1 = update t i (push_host (t.group i) h) in
    let t2 = each_in t1 (t1.group i).ins h in
    let t3 = each_out t2 (t2.group i).outs h in
    let ins = each_in-IsFedIn t1 (t1.group i).ins h in
    let outs = each_out-IsFedOut t2 (t2.group i).outs h in
    let ins_at : (t1.group i).ins ≡ (t.group i).ins = rw (==_refl i) in
    let outs_at : (t2.group i).outs ≡ (t.group i).outs = (ins i).same.same_outs ∙ rw (==_refl i) in
    let here : IsFedIn (if i == j then push_host (t.group j) h else t.group j) h
        (pick (λ l. l.src == j) (t.group i).ins) (t2.group j) =
      subst (λ g. IsFedIn g h (pick (λ l. l.src == j) (t.group i).ins) (t2.group j))
        (update_at t i j (λ g. push_host g h))
        (subst (λ ls. IsFedIn (t1.group j) h (pick (λ l. l.src == j) ls) (t2.group j)) ins_at
          (ins j)) in
    let there : IsFedOut (t2.group j) h (pick (λ l. l.dst == j) (t.group i).outs) (t3.group j) =
      subst (λ ls. IsFedOut (t2.group j) h (pick (λ l. l.dst == j) ls) (t3.group j)) outs_at
        (outs j) in
    rw (update_at t3 i j (λ g. count_host g h))
      (fed-IsGrown (t.group j) (i == j) h _ _ (t2.group j) (t3.group j) here there)
