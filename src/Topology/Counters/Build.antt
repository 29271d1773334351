-- ===== src/Topology/Counters/Build.antt =====
-- src/libagml_comm/topology: the counters after any sequence of the calls that build a topology.
use mathlib.Core.Path.{ap₂}
use lib_agml.Common.{
  ℕ, ◌+◌, ◌%◌, ◌^◌, ◌≡◌, inl, inr, refl, ap, sym, ◌∙◌, Bool, true, false, List, [], ◌∷◌, ◌++◌, ◌==◌,
  if◌then◌else◌, arith, Bool-cases, ==_iff,
}
use lib_agml.Topology.{
  Link, Group, GroupHost, Topology, get_nb_out, get_nb_in, assign_local, assign_remote, local_host,
  remote_host, connect, add_group, new_group,
}
use lib_agml.Topology.Counters.{pick}
use lib_agml.Topology.Counters.Assign.{
  out_total, in_total, AllTo, AllFrom, IsLinked, IsCounted, Joins, IsInOrder, Joins-IsCounted,
}
use lib_agml.Topology.Counters.Hosts.{assign_local-Joins, assign_remote-Joins}
use lib_agml.Topology.Counters.Links.{
  connect-IsConnected, IsLinked-kept, pick-append, AllTo-append, AllFrom-append, out_total-append,
  in_total-append,
}

abbrev pub IsBlank : Group → Type 0
IsBlank g =
    (g.ins ≡ [])
    × (g.outs ≡ [])
    × (g.nb_nodes ≡ 0)
    × (g.nb_local_nodes ≡ 0)
    × (g.nb_out_nodes ≡ 0)
    × (g.nb_in_nodes ≡ 0)
    × (g.hosts ≡ [])
    × (g.local_hosts ≡ [])

-- One call that builds a topology. A new group's number has not been used, and a group's first local
-- nodes come before any remote host.
pub data Step (t : Topology) : Topology → Type 0 where
  adds_group :
      (name nodeclass : List ℕ)
      → IsBlank (t.group t.nb_groups)
      → Step t (add_group t name nodeclass)
  connects : (l : Link) → Step t (connect t l)
  assigns_local :
      (i dh wanted made : ℕ)
      → IsInOrder (t.group i) (local_host (t.group i) dh wanted made)
      → Step t (assign_local t i dh wanted made)
  assigns_remote :
      (i dh wanted : ℕ)
      → IsInOrder (t.group i) (remote_host dh wanted)
      → Step t (assign_remote t i dh wanted)

pub data Reach (t : Topology) : Topology → Type 0 where
  here : Reach t t
  next : {u v : Topology} → Reach t u → Step u v → Reach t v

pub record IsSound (t : Topology) : Type 0 where
  pub linked : IsLinked t
  pub counted : IsCounted t

Joins-IsSound :
    (t t' : Topology) (i : ℕ) (h : GroupHost)
    → Joins t i h t'
    → IsInOrder (t.group i) h
    → IsSound t
    → IsSound t'
Joins-IsSound t t' i h j o s = record {
  linked = IsLinked-kept t t' j.ins_kept j.outs_kept s.linked;
  counted = Joins-IsCounted t t' i h j o s.linked s.counted;
}

pub out_total-same :
    (t t' : Topology) (ls : List Link)
    → ((j : ℕ) → (t'.group j).nb_nodes ≡ (t.group j).nb_nodes)
    → ((j : ℕ) → (t'.group j).nb_local_nodes ≡ (t.group j).nb_local_nodes)
    → out_total t' ls ≡ out_total t ls
unfolding get_nb_out
out_total-same t t' [] n p = refl
out_total-same t t' (l ∷ ls) n p = rw (n l.dst, p l.dst, out_total-same t t' ls n p)

pub in_total-same :
    (t t' : Topology) (ls : List Link)
    → ((j : ℕ) → (t'.group j).nb_nodes ≡ (t.group j).nb_nodes)
    → ((j : ℕ) → (t'.group j).nb_local_nodes ≡ (t.group j).nb_local_nodes)
    → in_total t' ls ≡ in_total t ls
unfolding get_nb_in
in_total-same t t' [] n p = refl
in_total-same t t' (l ∷ ls) n p = rw (n l.src, p l.src, in_total-same t t' ls n p)

AllTo-if : (i : ℕ) (l : Link) → AllTo i (if l.dst == i then l ∷ [] else [])
AllTo-if i l = elim (Bool-cases (l.dst == i)) [
  | inl e ↦ rw e ((==_iff l.dst i).0 e, tt)
  | inr e ↦ rw e tt
]

AllFrom-if : (i : ℕ) (l : Link) → AllFrom i (if l.src == i then l ∷ [] else [])
AllFrom-if i l = elim (Bool-cases (l.src == i)) [
  | inl e ↦ rw e ((==_iff l.src i).0 e, tt)
  | inr e ↦ rw e tt
]

-- Picked by one end out of what the other end has stored, the new link shows on both sides alike.
pick-if :
    (a b : Bool) (l : Link) (p q : Link → Bool)
    → p l ≡ a
    → q l ≡ b
    → pick p (if b then l ∷ [] else []) ≡ pick q (if a then l ∷ [] else [])
pick-if true true l p q e f = rw (e, f)
pick-if true false l p q e f = rw f
pick-if false true l p q e f = rw e
pick-if false false l p q e f = refl

pub connect-IsLinked : (t : Topology) (l : Link) → IsLinked t → IsLinked (connect t l)
connect-IsLinked t l h = record {
  ins_here = λ i.
      rw (connect-IsConnected t l i).ins_more
        (AllTo-append i (t.group i).ins _ (h.ins_here i) (AllTo-if i l));
  outs_here = λ i.
      rw (connect-IsConnected t l i).outs_more
        (AllFrom-append i (t.group i).outs _ (h.outs_here i) (AllFrom-if i l));
  paired = λ i j.
      rw ((connect-IsConnected t l i).ins_more, (connect-IsConnected t l j).outs_more)
        (rw
          (
            pick-append (λ m. m.src == j) (t.group i).ins,
            pick-append (λ m. m.dst == i) (t.group j).outs,
          )
          (ap₂ ◌++◌ (h.paired i j)
            (pick-if (l.src == j) (l.dst == i) l (λ m. m.src == j) (λ m. m.dst == i) refl refl)));
}

counted_more :
    (b : Bool) (x x' old more all : ℕ)
    → x' % 2 ^ 32 ≡ (x + (if b then more else 0)) % 2 ^ 32
    → x % 2 ^ 32 ≡ old % 2 ^ 32
    → all ≡ old + (if b then more + 0 else 0)
    → x' % 2 ^ 32 ≡ all % 2 ^ 32
counted_more true x x' old more all p q r = omega arith
counted_more false x x' old more all p q r = omega arith

out_total-if :
    (b : Bool) (t : Topology) (l : Link)
    → out_total t (if b then l ∷ [] else []) ≡ (if b then get_nb_out t l + 0 else 0)
out_total-if true t l = refl
out_total-if false t l = refl

in_total-if :
    (b : Bool) (t : Topology) (l : Link)
    → in_total t (if b then l ∷ [] else []) ≡ (if b then get_nb_in t l + 0 else 0)
in_total-if true t l = refl
in_total-if false t l = refl

pub connect-IsCounted : (t : Topology) (l : Link) → IsCounted t → IsCounted (connect t l)
connect-IsCounted t l c = record {
  out_counted = λ j.
      let h = connect-IsConnected t l j in
      let more : List Link = if l.src == j then l ∷ [] else [] in
      rw h.outs_more (
        counted_more (l.src == j) (t.group j).nb_out_nodes _ (out_total t (t.group j).outs)
          (get_nb_out t l) _ h.out_more (c.out_counted j)
          (out_total-same t (connect t l) ((t.group j).outs ++ more)
              (λ k. (connect-IsConnected t l k).nodes_same)
              (λ k. (connect-IsConnected t l k).locals_same)
            ∙ out_total-append t (t.group j).outs more
            ∙ ap (λ n. out_total t (t.group j).outs + n) (out_total-if (l.src == j) t l)));
  in_counted = λ j.
      let h = connect-IsConnected t l j in
      let more : List Link = if l.dst == j then l ∷ [] else [] in
      rw h.ins_more (
        counted_more (l.dst == j) (t.group j).nb_in_nodes _ (in_total t (t.group j).ins)
          (get_nb_in t l) _ h.in_more (c.in_counted j)
          (in_total-same t (connect t l) ((t.group j).ins ++ more)
              (λ k. (connect-IsConnected t l k).nodes_same)
              (λ k. (connect-IsConnected t l k).locals_same)
            ∙ in_total-append t (t.group j).ins more
            ∙ ap (λ n. in_total t (t.group j).ins + n) (in_total-if (l.dst == j) t l)));
}

-- A group that takes an unused number keeps the numbers and links that stood there, all of them none.
pub record IsKept (g g' : Group) : Type 0 where
  pub ins_kept : g'.ins ≡ g.ins
  pub outs_kept : g'.outs ≡ g.outs
  pub nodes_kept : g'.nb_nodes ≡ g.nb_nodes
  pub locals_kept : g'.nb_local_nodes ≡ g.nb_local_nodes
  pub out_kept : g'.nb_out_nodes ≡ g.nb_out_nodes
  pub in_kept : g'.nb_in_nodes ≡ g.nb_in_nodes
  pub hosts_kept : g'.hosts ≡ g.hosts
  pub local_kept : g'.local_hosts ≡ g.local_hosts

pub add_group-IsKept :
    (t : Topology) (name nodeclass : List ℕ) (j : ℕ)
    → IsBlank (t.group t.nb_groups)
    → IsKept (t.group j) ((add_group t name nodeclass).group j)
unfolding add_group
add_group-IsKept t name nodeclass j b = elim (Bool-cases (t.nb_groups == j)) [
  | inl e ↦ rw e (
      rw (← (==_iff t.nb_groups j).0 e) (record {
        ins_kept = sym b.0;
        outs_kept = sym b.1;
        nodes_kept = sym b.2;
        locals_kept = sym b.3;
        out_kept = sym b.4;
        in_kept = sym b.5;
        hosts_kept = sym b.6;
        local_kept = sym b.7;
      }))
  | inr e ↦ rw e (record {
    ins_kept = refl;
    outs_kept = refl;
    nodes_kept = refl;
    locals_kept = refl;
    out_kept = refl;
    in_kept = refl;
    hosts_kept = refl;
    local_kept = refl;
  })
]

IsKept-IsSound :
    (t t' : Topology) → ((j : ℕ) → IsKept (t.group j) (t'.group j)) → IsSound t → IsSound t'
IsKept-IsSound t t' k s = record {
  linked = IsLinked-kept t t' (λ j. (k j).ins_kept) (λ j. (k j).outs_kept) s.linked;
  counted = record {
    out_counted = λ j.
        rw
          (
            (k j).out_kept,
            (k j).outs_kept,
            out_total-same t t' (t.group j).outs (λ i. (k i).nodes_kept) (λ i. (k i).locals_kept),
          )
          (s.counted.out_counted j);
    in_counted = λ j.
        rw
          (
            (k j).in_kept,
            (k j).ins_kept,
            in_total-same t t' (t.group j).ins (λ i. (k i).nodes_kept) (λ i. (k i).locals_kept),
          )
          (s.counted.in_counted j);
  };
}

-- Every call that builds a topology, made in order, keeps the links at both their ends and the counters
-- equal to what the links reach.
pub Step-IsSound : {t u : Topology} → Step t u → IsSound t → IsSound u
Step-IsSound {t} (adds_group name nodeclass b) s =
    IsKept-IsSound t (add_group t name nodeclass) (λ j. add_group-IsKept t name nodeclass j b) s
Step-IsSound {t} (connects l) s = record {
  linked = connect-IsLinked t l s.linked;
  counted = connect-IsCounted t l s.counted;
}
Step-IsSound {t} (assigns_local i dh wanted made o) s =
    Joins-IsSound t (assign_local t i dh wanted made) i (local_host (t.group i) dh wanted made)
      (assign_local-Joins t i dh wanted made (record { few = o.few; local_le = o.local_le })) o s
Step-IsSound {t} (assigns_remote i dh wanted o) s =
    Joins-IsSound t (assign_remote t i dh wanted) i (remote_host dh wanted)
      (assign_remote-Joins t i dh wanted (record { few = o.few; local_le = o.local_le })) o s

pub Reach-IsSound : {t u : Topology} → Reach t u → IsSound t → IsSound u
Reach-IsSound here s = s
Reach-IsSound (next r st) s = Step-IsSound st (Reach-IsSound r s)

-- The topology before the first group.
abbrev pub empty_topology : Topology
empty_topology = record { nb_groups = 0; group = λ i. new_group [] [] }

pub empty_topology-IsSound : IsSound empty_topology
empty_topology-IsSound = record {
  linked = record { ins_here = λ i. tt; outs_here = λ i. tt; paired = λ i j. refl };
  counted = record { out_counted = λ i. refl; in_counted = λ i. refl };
}

-- After any sequence of calls of `add_group`, `connect` and `assign` on an empty topology, in which every
-- assignment brings a node, a group has fewer than 2^63 nodes and its first local nodes come before any remote
-- host, the `nb_out_nodes` and `nb_in_nodes` of every group are, as `int`s, the numbers of nodes that its links reach.
pub built-IsCounted :
    {t : Topology}
    → Reach empty_topology t
    → (i : ℕ)
    → ((t.group i).nb_out_nodes % 2 ^ 32 ≡ out_total t (t.group i).outs % 2 ^ 32)
      × ((t.group i).nb_in_nodes % 2 ^ 32 ≡ in_total t (t.group i).ins % 2 ^ 32)
built-IsCounted r i =
    let s = Reach-IsSound r empty_topology-IsSound in
    (s.counted.out_counted i, s.counted.in_counted i)
