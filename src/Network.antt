-- ===== src/Network.antt =====
-- src/libagml_comm/common/com.cpp and the network handlers of src/libagml_comm/common/Commands.cpp: the table
-- of the system commands, and the hosts that a process is connected to.
mod Tests
pub mod Table
pub mod Roles
pub mod Spread
pub mod Requests
pub mod Dispatch
pub mod Connection
use lib_agml.Common.{
  ℕ, ◌+◌, ◌-◌, ◌%◌, ◌^◌, Bool, true, false, Option, none, some, List, [], ◌∷◌, ◌++◌, leb, ◌==◌,
  if◌then◌else◌, length, get_elem?, Result, ok, err, bad_access, ◌>>=◌, or_fail, ◌||◌,
}
use lib_agml.Reader.{same_text}
use lib_agml.Simulation.{remove}

-- The handlers `agml_command_…`
pub data Command : Type 0 where
  add_to_network : Command
  dump : Command
  echo : Command
  enter : Command
  exit : Command
  leave : Command
  localdump : Command
  notify_subscription : Command
  root_welcome : Command
  set_topology : Command
  shell : Command
  subscribe : Command
  model : Command
  start_infos : Command
  do_start_infos : Command
  data_host : Command
  update_infos : Command
  infos : Command
  infos_reply : Command
  node_request : Command

-- A row of `AGML_COMMANDS`: the name, the handler, and whether it names a type of reply.
pub record Row : Type 0 where
  pub name : List ℕ
  pub handler : Command
  pub replies : Bool

-- `AGML_COMMANDS`, up to its closing row.
abbrev pub commands : List Row
commands =
    record {
      name = (97 ∷ 100 ∷ 100 ∷ 95 ∷ 116 ∷ 111 ∷ 95 ∷ 110 ∷ 101 ∷ 116 ∷ 119 ∷ 111 ∷ 114 ∷ 107 ∷ []);
      handler = add_to_network;
      replies = false;
    }
    ∷ record { name = (100 ∷ 117 ∷ 109 ∷ 112 ∷ []); handler = dump; replies = false }
    ∷ record { name = (101 ∷ 99 ∷ 104 ∷ 111 ∷ []); handler = echo; replies = false }
    ∷ record { name = (101 ∷ 110 ∷ 116 ∷ 101 ∷ 114 ∷ []); handler = enter; replies = false }
    ∷ record { name = (101 ∷ 120 ∷ 105 ∷ 116 ∷ []); handler = exit; replies = false }
    ∷ record { name = (108 ∷ 101 ∷ 97 ∷ 118 ∷ 101 ∷ []); handler = leave; replies = false }
    ∷ record {
      name = (108 ∷ 111 ∷ 99 ∷ 97 ∷ 108 ∷ 100 ∷ 117 ∷ 109 ∷ 112 ∷ []);
      handler = localdump;
      replies = false;
    }
    ∷ record {
      name =
          (110 ∷ 111 ∷ 116 ∷ 105 ∷ 102 ∷ 121 ∷ 95 ∷ 115 ∷ 117 ∷ 98 ∷ 115 ∷ 99 ∷ 114 ∷ 105 ∷ 112
            ∷ 116 ∷ 105 ∷ 111 ∷ 110 ∷ []);
      handler = notify_subscription;
      replies = false;
    }
    ∷ record {
      name = (114 ∷ 111 ∷ 111 ∷ 116 ∷ 95 ∷ 119 ∷ 101 ∷ 108 ∷ 99 ∷ 111 ∷ 109 ∷ 101 ∷ []);
      handler = root_welcome;
      replies = false;
    }
    ∷ record {
      name = (115 ∷ 101 ∷ 116 ∷ 95 ∷ 116 ∷ 111 ∷ 112 ∷ 111 ∷ 108 ∷ 111 ∷ 103 ∷ 121 ∷ []);
      handler = set_topology;
      replies = false;
    }
    ∷ record { name = (115 ∷ 104 ∷ 101 ∷ 108 ∷ 108 ∷ []); handler = shell; replies = false }
    ∷ record {
      name = (115 ∷ 117 ∷ 98 ∷ 115 ∷ 99 ∷ 114 ∷ 105 ∷ 98 ∷ 101 ∷ []);
      handler = subscribe;
      replies = false;
    }
    ∷ record { name = (109 ∷ 111 ∷ 100 ∷ 101 ∷ 108 ∷ []); handler = model; replies = false }
    ∷ record {
      name = (115 ∷ 116 ∷ 97 ∷ 114 ∷ 116 ∷ 95 ∷ 105 ∷ 110 ∷ 102 ∷ 111 ∷ 115 ∷ []);
      handler = start_infos;
      replies = false;
    }
    ∷ record {
      name = (100 ∷ 111 ∷ 95 ∷ 115 ∷ 116 ∷ 97 ∷ 114 ∷ 116 ∷ 95 ∷ 105 ∷ 110 ∷ 102 ∷ 111 ∷ 115 ∷ []);
      handler = do_start_infos;
      replies = false;
    }
    ∷ record {
      name = (100 ∷ 97 ∷ 116 ∷ 97 ∷ 95 ∷ 104 ∷ 111 ∷ 115 ∷ 116 ∷ []);
      handler = data_host;
      replies = false;
    }
    ∷ record {
      name = (117 ∷ 112 ∷ 100 ∷ 97 ∷ 116 ∷ 101 ∷ 95 ∷ 105 ∷ 110 ∷ 102 ∷ 111 ∷ 115 ∷ []);
      handler = update_infos;
      replies = false;
    }
    ∷ record { name = (105 ∷ 110 ∷ 102 ∷ 111 ∷ 115 ∷ []); handler = infos; replies = false }
    ∷ record {
      name = (105 ∷ 110 ∷ 102 ∷ 111 ∷ 115 ∷ 95 ∷ 114 ∷ 101 ∷ 112 ∷ 108 ∷ 121 ∷ []);
      handler = infos_reply;
      replies = false;
    }
    ∷ record {
      name = (110 ∷ 111 ∷ 100 ∷ 101 ∷ 95 ∷ 114 ∷ 101 ∷ 113 ∷ 117 ∷ 101 ∷ 115 ∷ 116 ∷ []);
      handler = node_request;
      replies = true;
    }
    ∷ []

-- The loops over the table, from row `i`.
unfoldable pub id_from : List Row → ℕ → List ℕ → Option ℕ
id_from [] i name = none
id_from (r ∷ rs) i name =
    let rest = id_from rs (i + 1) name in if same_text name r.name then some i else rest

pub handler_of : List Row → List ℕ → Option Command
handler_of [] name = none
handler_of (r ∷ rs) name =
    let rest = handler_of rs name in if same_text r.name name then some r.handler else rest

-- `AGML_NB_COMMANDS`, and `AGML_COMMAND_ID` with `none` for -1.
unfoldable pub nb_commands : ℕ
nb_commands = length commands

unfoldable pub command_id : List ℕ → Option ℕ
command_id name = id_from commands 0 name

-- The bit pattern of an `int` that is no row's number.
abbrev pub is_unknown : ℕ → Bool
is_unknown id = leb (2 ^ 31) id || leb nb_commands id

-- `AGML_COMMAND_NAME`
pub command_name : ℕ → Result (List ℕ)
command_name id =
    if is_unknown id then ok [] else (or_fail (get_elem? commands id) bad_access >>= λ r. ok r.name)

-- `AGML_COMMAND_EXEC`: the handler that a number or a name stands for, if any.
unfoldable pub exec_by_id : ℕ → Result (Option Command)
exec_by_id id =
    if is_unknown id
    then ok none
    else (or_fail (get_elem? commands id) bad_access >>= λ r. ok (some r.handler))

pub exec_by_name : List ℕ → Option Command
exec_by_name name = handler_of commands name

-- `AGML_COMMAND_HAS_RESPONSE`
pub has_response : List ℕ → Result Bool
has_response name = elim (command_id name) [
  | none ↦ ok false
  | some i ↦ or_fail (get_elem? commands i) bad_access >>= λ r. ok r.replies
]

-- The globals `hosts`, `masters`, `slaves` and `root_host`; a `Host*` is a number. The `server_ip` that a
-- host's handlers write, the address of its socket, and the commands sent, the last one first.
pub record Peers : Type 0 where
  pub hosts : List ℕ
  pub masters : List ℕ
  pub slaves : List ℕ
  pub root_host : Option ℕ
  pub server_ip : ℕ → List ℕ
  pub socket_ip : ℕ → List ℕ
  pub sent : List (ℕ × (Command × List ℕ))

-- `AGML_IS_ROOT`
abbrev pub is_root : Peers → Bool
is_root p = elim p.masters [ [] ↦ true | h ∷ hs ↦ false ]

-- `AGML_IS_ISOLATED`
abbrev pub is_isolated : Peers → Bool
is_isolated p = elim p.slaves [ [] ↦ is_root p | h ∷ hs ↦ false ]

abbrev pub send_to : ℕ → Command → List ℕ → Peers → Peers
send_to h c text p = record p { sent = (h, (c, text)) ∷ p.sent }

-- The loop of `com_send_command_masters` and `com_send_command_slaves`.
pub send_each : List ℕ → Command → List ℕ → Peers → Peers
send_each [] c text p = p
send_each (h ∷ hs) c text p = send_each hs c text (send_to h c text p)

-- `com_send_command_root`
pub com_send_command_root : Command → List ℕ → Peers → Result Peers
com_send_command_root c text p = or_fail p.root_host bad_access >>= λ h. ok (send_to h c text p)

-- `com_add_to_network`, on the new host `h`: whether the invitation could be sent is `through`, and the answer is
-- `false` where it throws, with the host among the slaves.
unfoldable pub com_add_to_network : ℕ → Bool → Peers → Peers × Bool
com_add_to_network h through p =
    let q = record p { slaves = p.slaves ++ (h ∷ []) } in
    if through then (send_to h add_to_network [] q, true) else (q, false)

-- `com_enter_network`; `port` is the text of `SERVER_PORT`.

unfoldable pub com_enter_network : List ℕ → ℕ → Peers → Peers
com_enter_network port h p = send_to h subscribe port (record p { masters = p.masters ++ (h ∷ []) })

-- `com_root_on_subscribe`
abbrev pub com_root_on_subscribe : List ℕ → ℕ → Peers → Peers
com_root_on_subscribe port h p = send_to h root_welcome port p

-- `agml_command_add_to_network`
unfoldable pub on_add_to_network : ℕ → Peers → Peers
on_add_to_network h p = record p { masters = p.masters ++ (h ∷ []); slaves = remove p.slaves h }

abbrev named : ℕ → List ℕ → Peers → Peers
named h params p = record p {
  server_ip = λ j. if h == j then p.socket_ip h ++ (58 ∷ params) else p.server_ip j;
}

-- `agml_command_subscribe`
unfoldable pub on_subscribe : List ℕ → ℕ → List ℕ → Peers → Peers
on_subscribe port h params p =
    let q = record (named h params p) { slaves = p.slaves ++ (h ∷ []) } in
    if is_root q
    then com_root_on_subscribe port h q
    else send_each q.masters notify_subscription (q.server_ip h) q

-- `agml_command_notify_subscription`; `opened` is the host at the other end of the socket that the root
-- opens, if it can.
unfoldable pub on_notify_subscription : List ℕ → Option ℕ → List ℕ → Peers → Result Peers
on_notify_subscription port opened text p =
    if is_root p
    then ok (elim opened [ none ↦ p | some h ↦ com_root_on_subscribe port h p ])
    else com_send_command_root notify_subscription text p

-- `agml_command_root_welcome`
unfoldable pub on_root_welcome : ℕ → List ℕ → Peers → Peers
on_root_welcome h params p =
    named h params (record p { root_host = some h; slaves = remove p.slaves h })

-- `com_connection_thread`: its start, and its end, after which the host is deleted.
unfoldable pub joins : ℕ → Peers → Peers
joins h p = record p { hosts = p.hosts ++ (h ∷ []) }

unfoldable pub leaves : ℕ → Peers → Peers
leaves h p = record p {
  hosts = remove p.hosts h;
  masters = remove p.masters h;
  slaves = remove p.slaves h;
  root_host = elim p.root_host [ none ↦ none | some r ↦ if h == r then none else some r ];
}
