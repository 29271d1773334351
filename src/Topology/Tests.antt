-- ===== src/Topology/Tests.antt =====
-- src/libagml_comm/topology/NodeGroup.{h,cpp} and Topology.cpp on a small topology.
use lib_agml.Common.{◌+◌, ◌%◌, ◌^◌, ◌≡◌, inl, inr, refl, true, false, [], ◌∷◌, ok, arith}
use lib_agml.Topology.{
  Link, Topology, add_group, connect, add_in, add_out, assign_local, assign_remote, local_host,
  remote_host, get_nb_out, get_out_node_id, add_host, each_in, each_out, on_dst_add_host,
  on_src_add_host, host_share,
}
use lib_agml.Topology.Counters.Assign.{IsInOrder, out_total, in_total}
use lib_agml.Topology.Counters.Build.{
  adds_group, connects, assigns_local, assigns_remote, Reach, here, next, empty_topology,
  built-IsCounted, Reach-IsSound, empty_topology-IsSound,
}
use lib_agml.Topology.Counters.Drift.{local_loop_drift}
use lib_agml.Topology.Nodes.{built-IsPlaced}
use lib_agml.Topology.Routing.{Machine, send, send_out, decode_local_node, address, caught}
use lib_agml.Topology.Routing.Send.{send_out-skips, decode-address}
use lib_agml.Topology.Routing.Neighbors.{IsOntoOthers, get_out_node_id-IsOntoOthers}

abbrev loop : Link
loop = record { src = 0; dst = 0; allow_self = false; only_local = false }

abbrev local_loop : Link
local_loop = record { src = 0; dst = 0; allow_self = false; only_local = true }

-- A group of three local nodes and two remote ones, each a neighbour of all others.
abbrev named : Topology
named = add_group empty_topology (71 ∷ []) (78 ∷ [])

abbrev linked : Topology
linked = connect named loop

abbrev settled : Topology
settled = assign_local linked 0 0 3 3

abbrev spread : Topology
spread = assign_remote settled 0 1 2

linked-IsInOrder : IsInOrder (linked.group 0) (local_host (linked.group 0) 0 3 3)
unfolding connect add_in add_out add_group
linked-IsInOrder = record {
  brings = omega arith;
  few = omega arith;
  local_le = omega arith;
  local_first = inr (inl refl);
}

settled-IsInOrder : IsInOrder (settled.group 0) (remote_host 1 2)
unfolding assign_local connect add_in add_out add_group add_host each_in each_out on_dst_add_host
    on_src_add_host host_share
settled-IsInOrder = record {
  brings = omega arith;
  few = omega arith;
  local_le = omega arith;
  local_first = inl refl;
}

spread_reached : Reach empty_topology spread
spread_reached =
    next
      (next
        (next
          (next here
            (adds_group (71 ∷ []) (78 ∷ []) (refl, refl, refl, refl, refl, refl, refl, refl)))
          (connects loop))
        (assigns_local 0 0 3 3 linked-IsInOrder))
      (assigns_remote 0 1 2 settled-IsInOrder)

built-IsCounted_example :
    ((spread.group 0).nb_out_nodes % 2 ^ 32 ≡ out_total spread (spread.group 0).outs % 2 ^ 32)
    × ((spread.group 0).nb_in_nodes % 2 ^ 32 ≡ in_total spread (spread.group 0).ins % 2 ^ 32)
built-IsCounted_example = built-IsCounted spread_reached 0

abbrev machine : Machine
machine = record { thread_of = λ group id. id % 2; is_connected = λ dh. true }

spread_nodes : (spread.group 0).nb_nodes ≡ 5
unfolding assign_remote assign_local connect add_in add_out add_group add_host each_in each_out
    on_dst_add_host on_src_add_host host_share
spread_nodes = refl

spread_locals : (spread.group 0).nb_local_nodes ≡ 3
unfolding assign_remote assign_local connect add_in add_out add_group add_host each_in each_out
    on_dst_add_host on_src_add_host host_share
spread_locals = refl

spread_groups : spread.nb_groups ≡ 1
unfolding assign_remote assign_local connect add_in add_out add_group add_host each_in each_out
    on_dst_add_host on_src_add_host host_share
spread_groups = refl

spread_outs : (spread.group 0).outs ≡ loop ∷ []
unfolding assign_remote assign_local connect add_in add_out add_group add_host each_in each_out
    on_dst_add_host on_src_add_host host_share
spread_outs = refl

spread_reach : get_nb_out spread loop ≡ 4
unfolding get_nb_out
spread_reach = rw spread_nodes refl

decode-address_example : decode_local_node spread (address 0 2) ≡ ok 2
decode-address_example =
    decode-address spread 0 2 (omega (arith, spread_groups)) (omega (arith, spread_groups))
      (omega (arith, spread_locals)) (omega (arith, spread_locals))
      (built-IsPlaced spread_reached 0)

send_out-skips_example :
    send_out machine spread 0 1 (out_total spread [] + 3)
    ≡ (caught (send machine spread 0 1 (get_out_node_id loop 1 3 % 2 ^ 32)), address 0 1)
send_out-skips_example =
    send_out-skips machine spread 0 1 3 [] [] loop spread_outs (omega arith)
      (omega (arith, spread_reach))

get_out_node_id-IsOntoOthers_example :
    IsOntoOthers (get_out_node_id loop 1) (get_nb_out spread loop) (spread.group 0).nb_nodes 1
get_out_node_id-IsOntoOthers_example =
    get_out_node_id-IsOntoOthers spread loop 1 refl refl refl (omega (arith, spread_nodes))
      (omega (arith, spread_nodes))

-- The same group with a link among its local nodes, which come after the remote ones.
abbrev local_linked : Topology
local_linked = connect named local_loop

abbrev remote_first : Topology
remote_first = assign_remote local_linked 0 1 2

local_linked-IsInOrder : IsInOrder (local_linked.group 0) (remote_host 1 2)
unfolding connect add_in add_out add_group
local_linked-IsInOrder = record {
  brings = omega arith;
  few = omega arith;
  local_le = omega arith;
  local_first = inl refl;
}

remote_first_reached : Reach empty_topology remote_first
remote_first_reached =
    next
      (next
        (next here
          (adds_group (71 ∷ []) (78 ∷ []) (refl, refl, refl, refl, refl, refl, refl, refl)))
        (connects local_loop))
      (assigns_remote 0 1 2 local_linked-IsInOrder)

remote_first_outs : (remote_first.group 0).outs ≡ local_loop ∷ []
unfolding assign_remote connect add_in add_out add_group add_host each_in each_out on_dst_add_host
    on_src_add_host host_share
remote_first_outs = refl

remote_first_nodes : (remote_first.group 0).nb_nodes ≡ 2
unfolding assign_remote connect add_in add_out add_group add_host each_in each_out on_dst_add_host
    on_src_add_host host_share
remote_first_nodes = refl

remote_first_locals : (remote_first.group 0).nb_local_nodes ≡ 0
unfolding assign_remote connect add_in add_out add_group add_host each_in each_out on_dst_add_host
    on_src_add_host host_share
remote_first_locals = refl

abbrev drifted : Topology
drifted = assign_local remote_first 0 0 3 3

local_loop_drift_example :
    (drifted.group 0).nb_out_nodes % 2 ^ 32
    ≡ (out_total drifted (drifted.group 0).outs + 1) % 2 ^ 32
local_loop_drift_example =
    local_loop_drift remote_first 0 0 3 3 local_loop
      (Reach-IsSound remote_first_reached empty_topology-IsSound)
      (record { from_here = refl; to_here = refl; no_self = refl; local = refl }) remote_first_outs
      (omega (arith, remote_first_nodes)) remote_first_locals (omega arith)
      (omega (arith, remote_first_nodes))
