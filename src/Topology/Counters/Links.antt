-- ===== src/Topology/Counters/Links.antt =====
-- src/libagml_comm/topology/Topology.cpp: what `connect` does to the groups at both ends of a link.
use lib_agml.Common.{
  ℕ, ◌+◌, ◌%◌, ◌^◌, ◌≡◌, refl, sym, ◌∙◌, Bool, true, false, List, [], ◌∷◌, ◌++◌, append-nil, ◌==◌,
  if◌then◌else◌, arith,
}
use lib_agml.Topology.{Link, Group, Topology, get_nb_out, get_nb_in, add_in, add_out, connect}
use lib_agml.Topology.Counters.{pick, update_at}
use lib_agml.Topology.Counters.Assign.{out_total, in_total, AllTo, AllFrom, IsLinked}

pub IsLinked-kept :
    (t t' : Topology)
    → ((j : ℕ) → (t'.group j).ins ≡ (t.group j).ins)
    → ((j : ℕ) → (t'.group j).outs ≡ (t.group j).outs)
    → IsLinked t
    → IsLinked t'
IsLinked-kept t t' ins outs l = record {
  ins_here = λ i. rw (ins i) (l.ins_here i);
  outs_here = λ i. rw (outs i) (l.outs_here i);
  paired = λ i j. rw (ins i, outs j) (l.paired i j);
}

pub pick-append : (p : Link → Bool) (ls ms : List Link) → pick p (ls ++ ms) ≡ pick p ls ++ pick p ms
pick-append p [] ms = refl
pick-append p (l ∷ ls) ms = ground (arith, pick-append p ls ms)

pub AllTo-append : (i : ℕ) (ls ms : List Link) → AllTo i ls → AllTo i ms → AllTo i (ls ++ ms)
AllTo-append i [] ms a b = b
AllTo-append i (l ∷ ls) ms a b = (a.0, AllTo-append i ls ms a.1 b)

pub AllFrom-append :
    (i : ℕ) (ls ms : List Link) → AllFrom i ls → AllFrom i ms → AllFrom i (ls ++ ms)
AllFrom-append i [] ms a b = b
AllFrom-append i (l ∷ ls) ms a b = (a.0, AllFrom-append i ls ms a.1 b)

pub out_total-append :
    (t : Topology) (ls ms : List Link) → out_total t (ls ++ ms) ≡ out_total t ls + out_total t ms
out_total-append t [] ms = omega arith
out_total-append t (l ∷ ls) ms = omega (arith, out_total-append t ls ms)

pub in_total-append :
    (t : Topology) (ls ms : List Link) → in_total t (ls ++ ms) ≡ in_total t ls + in_total t ms
in_total-append t [] ms = omega arith
in_total-append t (l ∷ ls) ms = omega (arith, in_total-append t ls ms)

abbrev with_out : Bool → Group → Link → ℕ → Group
with_out true g l n = record g {
  outs = g.outs ++ (l ∷ []);
  nb_out_nodes = (g.nb_out_nodes + n) % 2 ^ 32;
}
with_out false g l n = g

abbrev with_in : Bool → Group → Link → ℕ → Group
with_in true g l n = record g {
  ins = g.ins ++ (l ∷ []);
  nb_in_nodes = (g.nb_in_nodes + n) % 2 ^ 32;
}
with_in false g l n = g

if-with_out :
    (b : Bool) (g : Group) (l : Link) (n : ℕ)
    → (if b then with_out true g l n else g) ≡ with_out b g l n
if-with_out true g l n = refl
if-with_out false g l n = refl

if-with_in :
    (b : Bool) (g : Group) (l : Link) (n : ℕ)
    → (if b then with_in true g l n else g) ≡ with_in b g l n
if-with_in true g l n = refl
if-with_in false g l n = refl

group-add_out :
    (t : Topology) (l : Link) (j : ℕ)
    → (add_out t l).group j ≡ with_out (l.src == j) (t.group j) l (get_nb_out t l)
unfolding add_out
group-add_out t l j =
    update_at t l.src j (λ g. with_out true g l (get_nb_out t l))
    ∙ if-with_out (l.src == j) (t.group j) l (get_nb_out t l)

group-add_in :
    (t : Topology) (l : Link) (j : ℕ)
    → (add_in t l).group j ≡ with_in (l.dst == j) (t.group j) l (get_nb_in t l)
unfolding add_in
group-add_in t l j =
    update_at t l.dst j (λ g. with_in true g l (get_nb_in t l))
    ∙ if-with_in (l.dst == j) (t.group j) l (get_nb_in t l)

-- A link is added at both of its ends.
pub record IsConnected (g : Group) (from to : Bool) (l : Link) (n m : ℕ) (g' : Group) : Type 0 where
  pub outs_more : g'.outs ≡ g.outs ++ (if from then l ∷ [] else [])
  pub ins_more : g'.ins ≡ g.ins ++ (if to then l ∷ [] else [])
  pub nodes_same : g'.nb_nodes ≡ g.nb_nodes
  pub locals_same : g'.nb_local_nodes ≡ g.nb_local_nodes
  pub hosts_same : g'.hosts ≡ g.hosts
  pub local_hosts_same : g'.local_hosts ≡ g.local_hosts
  pub out_more : g'.nb_out_nodes % 2 ^ 32 ≡ (g.nb_out_nodes + (if from then n else 0)) % 2 ^ 32
  pub in_more : g'.nb_in_nodes % 2 ^ 32 ≡ (g.nb_in_nodes + (if to then m else 0)) % 2 ^ 32

with_both-IsConnected :
    (g : Group) (from to : Bool) (l : Link) (n m : ℕ)
    → IsConnected g from to l n m (with_in to (with_out from g l n) l m)
with_both-IsConnected g from to l n m = record {
  outs_more = outs from to;
  ins_more = ins from to;
  nodes_same = ground arith;
  locals_same = ground arith;
  hosts_same = ground arith;
  local_hosts_same = ground arith;
  out_more = ground arith;
  in_more = ground arith;
}
  where
    outs :
        (a b : Bool)
        → (with_in b (with_out a g l n) l m).outs ≡ g.outs ++ (if a then l ∷ [] else [])
    outs true true = refl
    outs true false = refl
    outs false true = sym (append-nil g.outs)
    outs false false = sym (append-nil g.outs)

    ins :
        (a b : Bool) → (with_in b (with_out a g l n) l m).ins ≡ g.ins ++ (if b then l ∷ [] else [])
    ins true true = refl
    ins false true = refl
    ins true false = sym (append-nil g.ins)
    ins false false = sym (append-nil g.ins)

-- The far end of the link counts the same nodes before and after the near end has stored it.
get_nb_in-add_out : (t : Topology) (l : Link) → get_nb_in (add_out t l) l ≡ get_nb_in t l
unfolding get_nb_in
get_nb_in-add_out t l = rw (group-add_out t l l.src) (ground arith)

pub connect-IsConnected :
    (t : Topology) (l : Link) (j : ℕ)
    → IsConnected
        (t.group j)
        (l.src == j)
        (l.dst == j)
        l
        (get_nb_out t l)
        (get_nb_in t l)
        ((connect t l).group j)
unfolding connect
connect-IsConnected t l j =
    rw (group-add_in (add_out t l) l j, group-add_out t l j, get_nb_in-add_out t l)
      (with_both-IsConnected (t.group j) (l.src == j) (l.dst == j) l (get_nb_out t l)
        (get_nb_in t l))
