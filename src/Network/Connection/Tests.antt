-- ===== src/Network/Connection/Tests.antt =====
-- src/libagml_comm/common/com.cpp: the thread of a connection on which a host subscribes and then says good-bye.
use lib_agml.Common.{
  ◌-◌, ◌^◌, ◌≡◌, ◌≢◌, ◌⊎◌, refl, false, true, none, some, [], ◌∷◌, map, arith, socket_error,
}
use lib_agml.Wire.Trickle.{dribble, linux}
use lib_agml.Wire.Message.{Message, Cursor}
use lib_agml.Wire.Message.RoundTrip.{IsValid}
use lib_agml.Topology.Counters.Build.{empty_topology}
use lib_agml.Network.{Peers}
use lib_agml.Network.Connection.{
  Process, Ending, gone, exits, running, close, com_connection_thread, handle_each, peers_process,
}
use lib_agml.Network.Connection.Ends.{
  bytes_of, arrived, com_connection_thread-handle_each, com_connection_thread_ends,
}

-- The command of number 11, `subscribe`, on the text `80`.
abbrev subscription : Message
subscription = record {
  from = none;
  src = 2 ^ 64 - 1;
  dst = 2 ^ 64 - 1;
  channel = 11;
  elts = record { buffer = some (56 ∷ 48 ∷ 0 ∷ []); size = 3; own = true } ∷ [];
  total_size = 3;
  data_allocated = false;
  cursor = Cursor.at 0;
}

subscription-IsValid : IsValid subscription
subscription-IsValid = record {
  src_small = omega arith;
  dst_small = omega arith;
  channel_small = omega arith;
  elts_valid = (record { small = omega arith; holds = omega arith }, tt);
}

abbrev nobody : Peers
nobody = record {
  hosts = [];
  masters = [];
  slaves = [];
  root_host = none;
  server_ip = λ h. [];
  socket_ip = λ h. 49 ∷ [];
  sent = [];
}

abbrev process : Process
process = peers_process (57 ∷ []) none empty_topology

com_connection_thread-handle_each_example :
    (last : Ending) × ((last ≡ gone) ⊎ (last ≡ exits socket_error))
    × (com_connection_thread dribble process 2 7 nobody (bytes_of linux (subscription ∷ []))
        ≡ close dribble process 7 (
            handle_each dribble process 7
              (process.enters 7 nobody)
              (map (arrived 7) (subscription ∷ []))
              last))
com_connection_thread-handle_each_example =
    com_connection_thread-handle_each dribble process linux 2 7 nobody (subscription ∷ [])
      (bytes_of linux (subscription ∷ [])) ((subscription-IsValid, omega arith), tt) refl
      (omega arith)

-- A connection that breaks off within a header.
com_connection_thread_ends_example :
    (com_connection_thread dribble process 1 7 nobody (4 ∷ 5 ∷ [])).1 ≢ running
com_connection_thread_ends_example =
    com_connection_thread_ends dribble process 1 7 nobody (4 ∷ 5 ∷ []) (omega arith)
