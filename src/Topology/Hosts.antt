-- ===== src/Topology/Hosts.antt =====
-- src/libagml_comm/topology/NodeGroup.cpp and Topology.cpp: the hosts of a group as another group has them, the
-- connections to them, and the counts over a whole topology.
use lib_agml.Common.{
  ℕ, zero, suc, ◌+◌, ◌-◌, ◌%◌, ◌^◌, ◌≡◌, refl, Bool, true, false, not, ◌&&◌, ◌||◌, Option, none,
  some, List, [], ◌∷◌, ltb, leb, ◌==◌, if◌then◌else◌, length, Result, ok, err, bad_access, ◌>>=◌,
  or_fail,
}
use lib_agml.Topology.{
  Topology, Group, GroupHost, Link, get_nb_local_in, is_self, update, assign_local, assign_remote,
  remote_host,
}

-- `NodeGroup::has_local_in` over the links in.
pub has_local_in : Topology → List Link → Bool
has_local_in t [] = false
has_local_in t (l ∷ ls) =
    let rest = has_local_in t ls in
    let n = (t.group l.src).nb_local_nodes in
    if not l.allow_self && is_self l && ltb 1 n then true else if ltb 0 n then true else rest

-- A `long` that an `int` is converted to, as a `size_t`; and `MIN` of two `int`s.
abbrev pub widened : ℕ → ℕ
widened n = if leb (2 ^ 31) n then n + (2 ^ 64 - 2 ^ 32) else n

abbrev pub signed_min : ℕ → ℕ → ℕ
signed_min a b = if ltb ((a + 2 ^ 31) % 2 ^ 32) ((b + 2 ^ 31) % 2 ^ 32) then a else b

abbrev pub no_limit : ℕ
no_limit = 2 ^ 32 - 1

-- The numbers of nodes of `NodeGroup::assign_same_as`, with a limit that is the bit pattern of an `int`: on a
-- host of this machine, as `instantiate_nodes_same_as` makes them of a class that the node library knows or not,
-- and on another one.
pub local_same_as : Bool → ℕ → ℕ → ℕ
local_same_as known limit nb_nodes =
    if not known
    then 0
    else if limit == no_limit
    then nb_nodes
    else if leb (2 ^ 31) limit
    then 0
    else if ltb limit nb_nodes
    then limit
    else nb_nodes

pub remote_same_as : ℕ → ℕ → ℕ
remote_same_as limit nb_nodes =
    let nb = nb_nodes % 2 ^ 32 in widened (if limit == no_limit then nb else signed_min limit nb)

-- `NodeGroup::assign_same_as` of group `i` over the hosts of another group.
unfoldable pub assign_same_as : Bool → Topology → ℕ → ℕ → List GroupHost → Result Topology
assign_same_as known t i limit [] = ok t
assign_same_as known t i limit (h ∷ hs) = or_fail h.host bad_access >>= λ dh.
    assign_same_as known
      (if h.is_local
        then assign_local t i dh 0 (local_same_as known limit h.nb_nodes)
        else assign_remote t i dh (remote_same_as limit h.nb_nodes))
      i limit hs

-- The data hosts: which are of this machine, which are connected, and to which a connection can be opened.
pub record DataHosts : Type 0 where
  pub of_here : ℕ → Bool
  pub is_connected : ℕ → Bool
  pub opens : ℕ → Bool

-- `NodeGroupHost::connect`, in `connect_hosts_as_needed`, which takes the data host away when the connection
-- fails.
unfoldable pub connect_data_host : DataHosts → ℕ → GroupHost → DataHosts × GroupHost
connect_data_host d dh h =
    if d.of_here dh || d.is_connected dh
    then (d, h)
    else if d.opens dh
    then (
      record d { is_connected = λ k. if dh == k then true else d.is_connected k },
      record h { is_local = false; is_error = false },
    )
    else (d, record h { host = none; is_error = true })

-- The body of the loop of `connect_hosts_as_needed`.
abbrev pub connected : DataHosts → GroupHost → Bool
connected d h = elim h.host [ none ↦ false | some dh ↦ d.is_connected dh ]

unfoldable pub connect_host : DataHosts → GroupHost → Result (DataHosts × GroupHost)
connect_host d h =
    if connected d h || h.is_local
    then ok (d, h)
    else (or_fail h.host bad_access >>= λ dh. ok (connect_data_host d dh h))

unfoldable pub connect_hosts : DataHosts → List GroupHost → Result (DataHosts × List GroupHost)
connect_hosts d [] = ok (d, [])
connect_hosts d (h ∷ hs) = do
  r ← connect_host d h
  rest ← connect_hosts r.0 hs
  ok (rest.0, r.1 ∷ rest.1)

-- Whether connections are needed: a link in that is not for local nodes alone comes from local nodes.
unfoldable pub is_needed : Topology → List Link → Bool
is_needed t [] = false
is_needed t (l ∷ ls) =
    let rest = is_needed t ls in
    if l.only_local then rest else if ltb 0 (get_nb_local_in t l) then true else rest

-- `NodeGroup::connect_hosts_as_needed` of group `i`
unfoldable pub connect_hosts_as_needed : DataHosts → Topology → ℕ → Result (DataHosts × Topology)
connect_hosts_as_needed d t i =
    let g = t.group i in
    if is_needed t g.ins
    then (connect_hosts d g.hosts >>= λ r. ok (r.0, update t i (record g { hosts = r.1 })))
    else ok (d, t)

-- `NodeGroupHost::get_state`
pub data HostStatus : Type 0 where
  error : HostStatus
  local : HostStatus
  connected_to : HostStatus
  not_connected_to : HostStatus

pub get_state : DataHosts → GroupHost → HostStatus
get_state d h =
    if h.is_error
    then error
    else if h.is_local
    then local
    else if connected d h
    then connected_to
    else not_connected_to

-- The loops of `Topology::nb_nodes` and `Topology::nb_group_hosts` over the groups from `i` on.
pub sum_groups : (Group → ℕ) → Topology → ℕ → ℕ → ℕ → ℕ
sum_groups f t i zero n = n
sum_groups f t i (suc left) n = sum_groups f t (suc i) left ((n + f (t.group i)) % 2 ^ 64)

pub nb_nodes_in : Topology → ℕ
nb_nodes_in t = sum_groups (λ g. g.nb_nodes) t 0 t.nb_groups 0

pub nb_group_hosts : Topology → ℕ
nb_group_hosts t = sum_groups (λ g. length g.hosts) t 0 t.nb_groups 0

-- `Topology::get_group(int)`: the bit pattern of the number is taken for a `uint`.
pub group_by_id : Topology → ℕ → Option ℕ
group_by_id t id = if leb t.nb_groups (id % 2 ^ 32) then none else some (id % 2 ^ 32)

-- A host of another machine to which no connection can be opened loses its data host, and the next call that
-- connects hosts as needed reads through the null pointer.
pub connect_host_twice :
    (d : DataHosts) (dh wanted : ℕ)
    → d.of_here dh ≡ false
    → d.is_connected dh ≡ false
    → d.opens dh ≡ false
    → (connect_host d (remote_host dh wanted) >>= λ r. connect_host r.0 r.1) ≡ err bad_access
unfolding connect_host connect_data_host
connect_host_twice d dh wanted elsewhere apart closed = rw (apart, elsewhere, closed) refl
