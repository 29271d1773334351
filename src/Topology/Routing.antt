-- ===== src/Topology/Routing.antt =====
-- src/libagml_comm/topology/NodeGroup.cpp: `get_local_node`, `send` and `send_out`, and the addresses of
-- src/libagml_comm/common/com.cpp.
pub mod Address
pub mod Send
pub mod Neighbors
use Prim.Native.Nat.{bit_or}
use lib_agml.Common.{
  ℕ, ◌+◌, ◌-◌, ◌*◌, ◌/◌, ◌%◌, ◌^◌, Bool, true, false, Option, none, some, List, [], ◌∷◌, ltb, leb,
  ◌==◌, if◌then◌else◌, get_elem?, Result, Error, ok, err, bad_access, node_overflow,
  neighbor_overflow, remote_overflow, not_connected, no_such_group, ◌>>=◌, or_fail,
}
use lib_agml.Topology.{Link, Group, GroupHost, Topology, get_nb_out, get_out_node_id}

-- `NodeGroup::get_local_node` over the local hosts; `ok none` is `NULL`.
pub local_node : List GroupHost → ℕ → Result (Option ℕ)
local_node [] id = ok none
local_node (h ∷ hs) id =
    let rest = local_node hs (id - h.nb_nodes) in
    if ltb id h.nb_nodes
    then (or_fail (get_elem? h.nodes id) bad_access >>= λ n. ok (some n))
    else rest

pub get_local_node : Group → ℕ → Result (Option ℕ)
get_local_node g id = local_node g.local_hosts id

-- `((long)group << 32) | id`, as `com_encode_local_node` and both sides of a message have it.
pub address : ℕ → ℕ → ℕ
address group id = bit_or (group * 2 ^ 32 % 2 ^ 64) id

-- `com_decode_local_node`. A half of the address is cast to `int`, and is negative from 2^31 on.
pub decode_local_node : Topology → ℕ → Result ℕ
decode_local_node t a =
    let group = a / 2 ^ 32 % 2 ^ 32 in
    let id = a % 2 ^ 32 in
    if leb (2 ^ 31) id
    then err node_overflow
    else if leb (2 ^ 31) group
    then err no_such_group
    else if leb t.nb_groups group
    then err no_such_group
    else if leb (t.group group).nb_local_nodes id
    then err node_overflow
    else (get_local_node (t.group group) id >>= λ n. or_fail n bad_access)

-- Where a message goes, with its `dst`: a node of the sender's thread receives it at once, a node of
-- another thread finds a copy in its queue, a data host gets it through its connection.
pub data Delivery : Type 0 where
  receives : ℕ → ℕ → Delivery
  queues : ℕ → ℕ → ℕ → Delivery
  sends : ℕ → ℕ → Delivery

-- What `send` reads besides the topology: the threads of the nodes of a group, and which data hosts are
-- connected.
pub record Machine : Type 0 where
  pub thread_of : ℕ → ℕ → ℕ
  pub is_connected : ℕ → Bool

-- The loop of `send` over the remote hosts of group `i`.
pub send_remote : Machine → ℕ → List GroupHost → ℕ → Result Delivery
send_remote m i [] d = err remote_overflow
send_remote m i (h ∷ hs) d =
    let same = send_remote m i hs d in
    let rest = send_remote m i hs (d - h.nb_nodes) in
    if h.is_local
    then same
    else if ltb d h.nb_nodes
    then (or_fail h.host bad_access >>= λ dh.
        if m.is_connected dh then ok (sends dh (address i d)) else err not_connected)
    else rest

-- A node of the sender's own thread receives at once.
deliver : Machine → ℕ → ℕ → ℕ → ℕ → Result Delivery
deliver m i thread n a =
    if thread == m.thread_of i n then ok (receives n a) else ok (queues (m.thread_of i n) n a)

-- `NodeGroup::send` on group `i`, by a node of thread `thread`, to a node number of 32 bits.
pub send : Machine → Topology → ℕ → ℕ → ℕ → Result Delivery
unfolding deliver
send m t i thread dst =
    let g = t.group i in
    if leb g.nb_nodes dst
    then err node_overflow
    else if ltb dst g.nb_local_nodes
    then (do
      found ← get_local_node g dst
      n ← or_fail found bad_access
      deliver m i thread n (address i dst))
    else send_remote m i g.hosts (dst - g.nb_local_nodes)

-- `send_out` answers an exception of `send` with `false`; a wild access is none.
abbrev pub caught : Result Delivery → Result (Option Delivery)
caught (ok d) = ok (some d)
caught (err Error.bad_access) = err bad_access
caught (err e) = ok none

-- The loop of `NodeGroup::send_out` over the links out; the neighbour number and the node that `send` gets are of
-- 32 bits.
pub send_along : Machine → Topology → List Link → ℕ → ℕ → ℕ → Result (Option Delivery)
send_along m t [] src thread k = err neighbor_overflow
send_along m t (l ∷ ls) src thread k =
    let rest = send_along m t ls src thread (k - get_nb_out t l) in
    if ltb k (get_nb_out t l)
    then caught (send m t l.dst thread (get_out_node_id l src k % 2 ^ 32))
    else rest

-- `NodeGroup::send_out` by node `src` of group `i`: the outcome, and the `src` that the message gets.
pub send_out : Machine → Topology → ℕ → ℕ → ℕ → Result (Option Delivery) × ℕ
unfolding send_along address
send_out m t i src neighbor =
    (send_along m t (t.group i).outs src (m.thread_of i src) neighbor, address i src)
