-- ===== src/Topology/Nodes.antt =====
-- src/libagml_comm/topology/NodeGroup.cpp: the ids of the nodes of a group, and its hosts, after any
-- sequence of the calls that build a topology.
use lib_agml.Common.{
  ℕ, zero, suc, ◌+◌, ◌≡◌, ◌≢◌, refl, ap, sym, ◌∙◌, inl, inr, false, List, [], ◌∷◌, ◌++◌, append-nil,
  append_assoc, ◌==◌, if◌then◌else◌, length, arith, Bool-cases, ==_iff, ==_refl,
}
use lib_agml.Topology.{Group, GroupHost, Topology, ids_from, local_host, remote_host}
use lib_agml.Topology.Counters.Assign.{Joins}
use lib_agml.Topology.Counters.Hosts.{assign_local-Joins, assign_remote-Joins}
use lib_agml.Topology.Counters.Links.{connect-IsConnected}
use lib_agml.Topology.Counters.Build.{
  Step, adds_group, connects, assigns_local, assigns_remote, Reach, here, next, empty_topology,
  add_group-IsKept,
}

abbrev pub node_ids : List GroupHost → List ℕ
node_ids [] = []
node_ids (h ∷ hs) = h.nodes ++ node_ids hs

abbrev pub AllMeasured : List GroupHost → Type 0
AllMeasured [] = Unit {0}
AllMeasured (h ∷ hs) = (h.nb_nodes ≡ length h.nodes) × AllMeasured hs

-- The nodes on hosts of other machines.
abbrev pub remote_total : List GroupHost → ℕ
remote_total [] = 0
remote_total (h ∷ hs) = (if h.is_local then 0 else h.nb_nodes) + remote_total hs

-- The local nodes are numbered from 0 in the order of their hosts, and with the remote ones make up the
-- group.
pub record IsPlaced (g : Group) : Type 0 where
  pub ids : node_ids g.local_hosts ≡ ids_from 0 g.nb_local_nodes
  pub measured : AllMeasured g.local_hosts
  pub total : g.nb_nodes ≡ g.nb_local_nodes + remote_total g.hosts

length-ids_from : (a n : ℕ) → length (ids_from a n) ≡ n
unfolding ids_from
length-ids_from a zero = refl
length-ids_from a (suc n) = ap suc (length-ids_from (suc a) n)

ids_from-append : (a m n : ℕ) → ids_from a m ++ ids_from (a + m) n ≡ ids_from a (m + n)
unfolding ids_from
ids_from-append a zero n = ap (λ k. ids_from k n) (omega arith) ∙ ap (ids_from a) (omega arith)
ids_from-append a (suc m) n =
    ap (λ t. a ∷ t)
      (ap (λ k. ids_from (suc a) m ++ ids_from k n) (omega arith) ∙ ids_from-append (suc a) m n)
    ∙ unfold ids_from in ap (ids_from a) suc_out
  where
    suc_out : suc (m + n) ≡ suc m + n
    suc_out = omega arith

node_ids-append : (hs ks : List GroupHost) → node_ids (hs ++ ks) ≡ node_ids hs ++ node_ids ks
node_ids-append [] ks = refl
node_ids-append (h ∷ hs) ks =
    ap (λ t. h.nodes ++ t) (node_ids-append hs ks)
    ∙ sym (append_assoc h.nodes (node_ids hs) (node_ids ks))

AllMeasured-append :
    (hs ks : List GroupHost) → AllMeasured hs → AllMeasured ks → AllMeasured (hs ++ ks)
AllMeasured-append [] ks a b = b
AllMeasured-append (h ∷ hs) ks a b = (a.0, AllMeasured-append hs ks a.1 b)

remote_total-append :
    (hs ks : List GroupHost) → remote_total (hs ++ ks) ≡ remote_total hs + remote_total ks
remote_total-append [] ks = omega arith
remote_total-append (h ∷ hs) ks = omega (arith, remote_total-append hs ks)

-- A group that keeps its hosts and its numbers of nodes stays placed.
pub kept-IsPlaced :
    (g g' : Group)
    → g'.nb_nodes ≡ g.nb_nodes
    → g'.nb_local_nodes ≡ g.nb_local_nodes
    → g'.hosts ≡ g.hosts
    → g'.local_hosts ≡ g.local_hosts
    → IsPlaced g
    → IsPlaced g'
kept-IsPlaced g g' n p hs ls v = record {
  ids = rw (ls, p) v.ids;
  measured = rw ls v.measured;
  total = rw (n, p, hs) v.total;
}

-- A local host takes the next ids.
local-IsPlaced :
    (g g' : Group) (dh wanted made : ℕ)
    → g'.nb_nodes ≡ g.nb_nodes + made
    → g'.nb_local_nodes ≡ g.nb_local_nodes + made
    → g'.hosts ≡ g.hosts ++ local_host g dh wanted made ∷ []
    → g'.local_hosts ≡ g.local_hosts ++ local_host g dh wanted made ∷ []
    → IsPlaced g
    → IsPlaced g'
local-IsPlaced g g' dh wanted made n p hs ls v =
    let h = local_host g dh wanted made in
    record {
      ids =
          rw (ls, p)
            (node_ids-append g.local_hosts (h ∷ [])
              ∙ ap (λ t. t ++ node_ids (h ∷ [])) v.ids
              ∙ ap (λ t. ids_from 0 g.nb_local_nodes ++ t)
                  (append-nil (ids_from g.nb_local_nodes made))
              ∙ ap (λ k. ids_from 0 g.nb_local_nodes ++ ids_from k made) zero_add
              ∙ ids_from-append 0 g.nb_local_nodes made);
      measured = rw ls (
          AllMeasured-append g.local_hosts (h ∷ []) v.measured
            (sym (length-ids_from g.nb_local_nodes made), tt));
      total = rw (n, p, hs) (omega (arith, v.total, remote_total-append g.hosts (h ∷ [])));
    }
  where
    zero_add : g.nb_local_nodes ≡ 0 + g.nb_local_nodes
    zero_add = omega arith

remote-IsPlaced :
    (g g' : Group) (dh wanted : ℕ)
    → g'.nb_nodes ≡ g.nb_nodes + wanted
    → g'.nb_local_nodes ≡ g.nb_local_nodes
    → g'.hosts ≡ g.hosts ++ remote_host dh wanted ∷ []
    → g'.local_hosts ≡ g.local_hosts
    → IsPlaced g
    → IsPlaced g'
remote-IsPlaced g g' dh wanted n p hs ls v = record {
  ids = rw (ls, p) v.ids;
  measured = rw ls v.measured;
  total =
      rw (n, p, hs)
        (omega (arith, v.total, remote_total-append g.hosts (remote_host dh wanted ∷ [])));
}

eq_ne : (i j : ℕ) → (i == j) ≡ false → i ≢ j
eq_ne i j e h = ground arith

away-IsPlaced :
    (t t' : Topology) (i j : ℕ) (h : GroupHost)
    → Joins t i h t'
    → (i == j) ≡ false
    → IsPlaced (t.group j)
    → IsPlaced (t'.group j)
away-IsPlaced t t' i j h k e v =
    kept-IsPlaced (t.group j) (t'.group j) (k.nodes_there j (eq_ne i j e))
      (k.local_there j (eq_ne i j e)) (k.hosts_grown j ∙ rw e) (k.local_grown j ∙ rw e) v

pub joined_local-IsPlaced :
    (t t' : Topology) (i dh wanted made : ℕ)
    → Joins t i (local_host (t.group i) dh wanted made) t'
    → ((j : ℕ) → IsPlaced (t.group j))
    → (j : ℕ) → IsPlaced (t'.group j)
joined_local-IsPlaced t t' i dh wanted made k v j = elim (Bool-cases (i == j)) [
  | inl e ↦ rw (← (==_iff i j).0 e) (
      local-IsPlaced (t.group i) (t'.group i) dh wanted made k.nodes_here k.local_here
        (k.hosts_grown i ∙ rw (==_refl i)) (k.local_grown i ∙ rw (==_refl i)) (v i))
  | inr e ↦ away-IsPlaced t t' i j (local_host (t.group i) dh wanted made) k e (v j)
]

pub joined_remote-IsPlaced :
    (t t' : Topology) (i dh wanted : ℕ)
    → Joins t i (remote_host dh wanted) t'
    → ((j : ℕ) → IsPlaced (t.group j))
    → (j : ℕ) → IsPlaced (t'.group j)
joined_remote-IsPlaced t t' i dh wanted k v j = elim (Bool-cases (i == j)) [
  | inl e ↦ rw (← (==_iff i j).0 e) (
      remote-IsPlaced (t.group i) (t'.group i) dh wanted k.nodes_here k.local_here
        (k.hosts_grown i ∙ rw (==_refl i)) (k.local_grown i ∙ rw (==_refl i)) (v i))
  | inr e ↦ away-IsPlaced t t' i j (remote_host dh wanted) k e (v j)
]

Step-IsPlaced :
    {t u : Topology} → Step t u → ((j : ℕ) → IsPlaced (t.group j)) → (j : ℕ) → IsPlaced (u.group j)
Step-IsPlaced {t} (adds_group name nodeclass b) v j =
    let k = add_group-IsKept t name nodeclass j b in
    kept-IsPlaced (t.group j) _ k.nodes_kept k.locals_kept k.hosts_kept k.local_kept (v j)
Step-IsPlaced {t} (connects l) v j =
    let k = connect-IsConnected t l j in
    kept-IsPlaced (t.group j) _ k.nodes_same k.locals_same k.hosts_same k.local_hosts_same (v j)
Step-IsPlaced {t} (assigns_local i dh wanted made o) v j =
    let k = assign_local-Joins t i dh wanted made (record { few = o.few; local_le = o.local_le }) in
    joined_local-IsPlaced t _ i dh wanted made k v j
Step-IsPlaced {t} (assigns_remote i dh wanted o) v j =
    let k = assign_remote-Joins t i dh wanted (record { few = o.few; local_le = o.local_le }) in
    joined_remote-IsPlaced t _ i dh wanted k v j

pub built-IsPlaced : {t : Topology} → Reach empty_topology t → (j : ℕ) → IsPlaced (t.group j)
built-IsPlaced here j = record {
  ids = (unfold ids_from in refl);
  measured = tt;
  total = omega arith;
}
built-IsPlaced (next r st) j = Step-IsPlaced st (built-IsPlaced r) j
