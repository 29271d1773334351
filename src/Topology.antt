-- ===== src/Topology.antt =====
-- src/libagml_comm/topology/NodeGroup.{h,cpp} and Topology.{h,cpp}: groups of nodes, the hosts that they
-- are assigned to, the links between groups, and the counters kept along the links.
mod Tests
pub mod Counters
pub mod Routing
pub mod Nodes
pub mod Locals
pub mod Hosts
pub mod Fit
use lib_agml.Common.{
  ℕ, zero, suc, ◌+◌, ◌-◌, ◌*◌, ◌%◌, ◌^◌, Bool, true, false, not, ◌&&◌, ◌||◌, Option, none, some,
  List, [], ◌∷◌, ◌++◌, ltb, ◌==◌, if◌then◌else◌, length, get_elem?, Result, ok, err, bad_access,
  ◌>>=◌, or_fail,
}

-- A `NodeGroup*` is the group's number; a link never changes after it is made.
pub record Link : Type 0 where
  pub src : ℕ
  pub dst : ℕ
  pub allow_self : Bool
  pub only_local : Bool

-- `NodeGroupHost`. The `DataHost*` is a number or null; the nodes are known by their ids.
pub record GroupHost : Type 0 where
  pub host : Option ℕ
  pub is_local : Bool
  pub nodes : List ℕ
  pub nb_nodes : ℕ
  pub is_error : Bool

-- The counters of a group are `long`s, but for `nb_out_nodes` and `nb_in_nodes`, which are `int`s; all are
-- bit patterns.
pub record Group : Type 0 where
  pub name : List ℕ
  pub nodeclass : List ℕ
  pub ins : List Link
  pub outs : List Link
  pub nb_out_nodes : ℕ
  pub nb_in_nodes : ℕ
  pub hosts : List GroupHost
  pub local_hosts : List GroupHost
  pub nb_nodes : ℕ
  pub nb_local_nodes : ℕ

-- `NodeGroup(name, nodeclass)`
abbrev pub new_group : List ℕ → List ℕ → Group
new_group name nodeclass = record {
  name = name;
  nodeclass = nodeclass;
  ins = [];
  outs = [];
  nb_out_nodes = 0;
  nb_in_nodes = 0;
  hosts = [];
  local_hosts = [];
  nb_nodes = 0;
  nb_local_nodes = 0;
}

-- The groups by their numbers, which `add_group` gives out in order, and how many there are.
pub record Topology : Type 0 where
  pub nb_groups : ℕ
  pub group : ℕ → Group

-- A write through the pointer to group `i`.
abbrev pub update : Topology → ℕ → Group → Topology
update t i g = record t { group = λ j. if i == j then g else t.group j }

-- `Link::is_self`
abbrev pub is_self : Link → Bool
is_self l = l.src == l.dst

-- The body that `get_nb_out`, `get_nb_in` and their local forms share.
abbrev reachable : Link → ℕ → ℕ
reachable l n = if n == 0 then 0 else if not l.allow_self && is_self l then n - 1 else n

-- `Link::get_nb_local_out`, `Link::get_nb_local_in`
unfoldable pub get_nb_local_out : Topology → Link → ℕ
get_nb_local_out t l = reachable l (t.group l.dst).nb_local_nodes

unfoldable pub get_nb_local_in : Topology → Link → ℕ
get_nb_local_in t l = reachable l (t.group l.src).nb_local_nodes

-- `Link::get_nb_out`, `Link::get_nb_in`
unfoldable pub get_nb_out : Topology → Link → ℕ
unfolding get_nb_local_out
get_nb_out t l = if l.only_local then get_nb_local_out t l else reachable l (t.group l.dst).nb_nodes

unfoldable pub get_nb_in : Topology → Link → ℕ
unfolding get_nb_local_in
get_nb_in t l = if l.only_local then get_nb_local_in t l else reachable l (t.group l.src).nb_nodes

-- An `int` as a `size_t`
abbrev pub sign_extended : ℕ → ℕ
sign_extended k = if ltb k (2 ^ 31) then k else k + (2 ^ 64 - 2 ^ 32)

-- `Link::get_out_node_id` of a neighbour number that is an `int`, which wraps: a link from a group to itself
-- leaves out the sender.
unfoldable pub get_out_node_id : Link → ℕ → ℕ → ℕ
get_out_node_id l src neighbor =
    if l.allow_self || not (is_self l)
    then sign_extended neighbor
    else if ltb (sign_extended neighbor) src
    then sign_extended neighbor
    else sign_extended ((neighbor + 1) % 2 ^ 32)

-- What `Link::on_dst_add_host` and `Link::on_src_add_host` add to a counter, given the number of nodes
-- that the group at the other end has so far. `h->nb_nodes-1` is a `size_t`.
unfoldable pub host_share : Link → ℕ → GroupHost → ℕ
host_share l before h =
    if not l.only_local || h.is_local
    then (if not l.allow_self && is_self l && before == 0
        then (h.nb_nodes + 2 ^ 64 - 1) % 2 ^ 64
        else h.nb_nodes)
    else 0

unfoldable pub on_dst_add_host : Topology → Link → GroupHost → Topology
on_dst_add_host t l h =
    update t l.src
      (record g { nb_out_nodes = (g.nb_out_nodes + host_share l g.nb_nodes h) % 2 ^ 32 })
  where
    g : Group
    g = t.group l.src

unfoldable pub on_src_add_host : Topology → Link → GroupHost → Topology
on_src_add_host t l h =
    update t l.dst (record g { nb_in_nodes = (g.nb_in_nodes + host_share l g.nb_nodes h) % 2 ^ 32 })
  where
    g : Group
    g = t.group l.dst

unfoldable pub each_in : Topology → List Link → GroupHost → Topology
each_in t [] h = t
each_in t (l ∷ ls) h = each_in (on_dst_add_host t l h) ls h

unfoldable pub each_out : Topology → List Link → GroupHost → Topology
each_out t [] h = t
each_out t (l ∷ ls) h = each_out (on_src_add_host t l h) ls h

abbrev push_host : Group → GroupHost → Group
push_host g h = record g {
  hosts = g.hosts ++ (h ∷ []);
  local_hosts = if h.is_local then g.local_hosts ++ (h ∷ []) else g.local_hosts;
}

abbrev count_host : Group → GroupHost → Group
count_host g h = record g { nb_nodes = (g.nb_nodes + h.nb_nodes) % 2 ^ 64 }

-- `NodeGroup::add_host`
unfoldable pub add_host : Topology → ℕ → GroupHost → Topology
unfolding each_in each_out
add_host t i h =
    let t1 = update t i (push_host (t.group i) h) in
    let t2 = each_in t1 (t1.group i).ins h in
    let t3 = each_out t2 (t2.group i).outs h in update t3 i (count_host (t3.group i) h)

-- The ids `first`, `first + 1`, … that `NodeGroupHost::add` gives to new nodes.
unfoldable pub ids_from : ℕ → ℕ → List ℕ
ids_from first zero = []
ids_from first (suc n) = first ∷ ids_from (suc first) n

-- `NodeGroupHost::init` on a host of this machine, where `made` nodes of the `wanted` ones could be
-- instantiated, each added by `NodeGroupHost::add`.
abbrev pub local_host : Group → ℕ → ℕ → ℕ → GroupHost
local_host g dh wanted made = record {
  host = some dh;
  is_local = true;
  nodes = ids_from g.nb_local_nodes made;
  nb_nodes = made;
  is_error = not (wanted == 0) && made == 0;
}

-- `NodeGroupHost::init` on another machine.
abbrev pub remote_host : ℕ → ℕ → GroupHost
remote_host dh wanted = record {
  host = some dh;
  is_local = false;
  nodes = [];
  nb_nodes = wanted;
  is_error = false;
}

-- `NodeGroup::assign` to data host `dh`, on this machine.
unfoldable pub assign_local : Topology → ℕ → ℕ → ℕ → ℕ → Topology
unfolding add_host
assign_local t i dh wanted made =
    let g = t.group i in
    add_host (update t i (record g { nb_local_nodes = (g.nb_local_nodes + made) % 2 ^ 64 })) i
      (local_host g dh wanted made)

-- `NodeGroup::assign` to data host `dh`, on another machine.
unfoldable pub assign_remote : Topology → ℕ → ℕ → ℕ → Topology
assign_remote t i dh wanted = add_host t i (remote_host dh wanted)

-- `NodeGroup::add_in`, `NodeGroup::add_out`, and `Topology::connect` with both. The connections that
-- `connect_hosts_as_needed` opens in between stand in Topology.Hosts: a failed one takes a host's data host
-- away, on which no counter depends.
unfoldable pub add_out : Topology → Link → Topology
add_out t l = update t l.src (record g {
  outs = g.outs ++ (l ∷ []);
  nb_out_nodes = (g.nb_out_nodes + get_nb_out t l) % 2 ^ 32;
})
  where
    g : Group
    g = t.group l.src

unfoldable pub add_in : Topology → Link → Topology
add_in t l =
    update t l.dst
      (record g { ins = g.ins ++ (l ∷ []); nb_in_nodes = (g.nb_in_nodes + get_nb_in t l) % 2 ^ 32 })
  where
    g : Group
    g = t.group l.dst

unfoldable pub connect : Topology → Link → Topology
unfolding add_in add_out
connect t l = add_in (add_out t l) l

-- `Topology::add_group`
unfoldable pub add_group : Topology → List ℕ → List ℕ → Topology
add_group t name nodeclass = record (update t t.nb_groups (new_group name nodeclass)) {
  nb_groups = suc t.nb_groups;
}
