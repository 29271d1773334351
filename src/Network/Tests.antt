-- ===== src/Network/Tests.antt =====
-- src/libagml_comm/common/com.cpp and Commands.cpp on a few hosts.
use lib_agml.Common.{suc, true, ◌++◌, refl, List, ℕ, ◌≡◌, ◌<◌, ◌⊎◌, some, none, [], ◌∷◌, ok, arith}
use lib_agml.Simulation.Lifecycle.{count}
use lib_agml.Wire.Trickle.{dribble, linux}
use lib_agml.Wire.Message.{Message, new_message, read, write}
use lib_agml.Topology.{Topology, new_group}
use lib_agml.Reader.{same_text}
use lib_agml.Network.Dispatch.{
  runs, on_receive, send_command, send_sys_command, on_receive-send_sys_command,
}
use lib_agml.Network.{
  Command, id_from, Peers, leaves, on_subscribe, command_id, command_name, exec_by_id, exec_by_name,
  nb_commands,
}
use lib_agml.Network.Spread.{Opening, unreachable, opened}
use lib_agml.Network.Table.{command_id_agrees}
use lib_agml.Network.Roles.{roles, IsGone, leaves-IsGone, subscribed_twice_stays}

abbrev peers : Peers
peers = record {
  hosts = 1 ∷ 2 ∷ 3 ∷ [];
  masters = 1 ∷ [];
  slaves = 2 ∷ 3 ∷ [];
  root_host = some 2;
  server_ip = λ h. [];
  socket_ip = λ h. 49 ∷ [];
  sent = [];
}

leaves-IsGone_example :
    IsGone 2 (leaves 2 peers)
    × (count 3 (leaves 2 peers).hosts ≡ count 3 peers.hosts)
    × (roles 3 (leaves 2 peers) ≡ roles 3 peers)
leaves-IsGone_example =
    leaves-IsGone 2 3 peers (omega arith) (omega arith) (omega arith) (omega arith)

subscribed_twice_stays_example :
    count 4
      (leaves 4
        (on_subscribe (49 ∷ []) 4 (51 ∷ []) (on_subscribe (49 ∷ []) 4 (50 ∷ []) peers))).slaves
    ≡ suc (count 4 peers.slaves)
subscribed_twice_stays_example = subscribed_twice_stays (49 ∷ []) (50 ∷ []) (51 ∷ []) 4 peers

-- `echo`
command_id_agrees_example :
    ((command_id (101 ∷ 99 ∷ 104 ∷ 111 ∷ []) ≡ none)
      × (exec_by_name (101 ∷ 99 ∷ 104 ∷ 111 ∷ []) ≡ none))
    ⊎ ((i : ℕ) × (i < nb_commands)
        × (command_id (101 ∷ 99 ∷ 104 ∷ 111 ∷ []) ≡ some i)
        × (command_name i ≡ ok (101 ∷ 99 ∷ 104 ∷ 111 ∷ []))
        × (exec_by_id i ≡ ok (exec_by_name (101 ∷ 99 ∷ 104 ∷ 111 ∷ []))))
command_id_agrees_example = command_id_agrees (101 ∷ 99 ∷ 104 ∷ 111 ∷ [])

abbrev alone : Peers
alone = record peers { masters = []; slaves = [] }

abbrev two_found : List Opening
two_found = opened 7 true true ∷ unreachable ∷ opened 8 true true ∷ []

abbrev echo_text : List ℕ
echo_text = 101 ∷ 99 ∷ 104 ∷ 111 ∷ []

abbrev no_groups : Topology
no_groups = record { nb_groups = 0; group = λ i. new_group [] [] }

-- The command `echo` with the text `x`, and a byte that comes after it.
on_receive-send_sys_command_example :
    (r : Message) × (s' : List ℕ) × (h : Command) × (read dribble new_message
        ((write linux (send_command 2 (some (120 ∷ 0 ∷ [])) 2)).0 ++ (42 ∷ []))
      ≡ ok (r, s'))
    × (exec_by_name echo_text ≡ some h)
    × (on_receive no_groups r ≡ ok (runs (some h) (some (120 ∷ 0 ∷ [])) 2))
    × (s' ≡ 42 ∷ [])
unfolding send_sys_command command_id id_from same_text
on_receive-send_sys_command_example =
    on_receive-send_sys_command dribble linux no_groups echo_text (120 ∷ [])
      (send_command 2 (some (120 ∷ 0 ∷ [])) 2)
      ((write linux (send_command 2 (some (120 ∷ 0 ∷ [])) 2)).0 ++ (42 ∷ [])) (42 ∷ []) refl
      (omega arith) refl
