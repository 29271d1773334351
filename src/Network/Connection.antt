-- ===== src/Network/Connection.antt =====
-- src/libagml_comm/common/com.cpp: the thread that reads the messages of a connection and hands each to
-- `Host::on_receive`, until the connection ends. A socket that was connected stays `isConnected()`, so that the thread
-- ends by an exception alone.
mod Tests
pub mod Ends
use lib_agml.Common.{
  ℕ, zero, suc, ◌+◌, ◌<◌, ◌≡◌, ◌⊎◌, inl, inr, refl, ap, sym, ◌∙◌, Bool, true, false, Option, none,
  some, List, [], ◌∷◌, ◌++◌, ◌^◌, ◌==◌, if◌then◌else◌, length, Result, ok, err, Error, bad_access,
  socket_closed, socket_error, ◌>>=◌, or_fail, arith,
}
use lib_agml.Wire.Socket.{Net}
use lib_agml.Wire.Message.{Message, new_message, read_from, write}
use lib_agml.Wire.Message.RoundTrip.{IsValid, rebuilt, read_from-write}
use lib_agml.Topology.{Topology}
use lib_agml.Network.{
  Command, add_to_network, subscribe, notify_subscription, root_welcome, Peers, joins, leaves,
  on_add_to_network, on_subscribe, on_notify_subscription, on_root_welcome,
}
use lib_agml.Network.Dispatch.{Arrival, runs, queues, on_receive}

-- A process as a connection uses it: its topology, what the handler of a command or the queue of a thread makes of
-- what arrives from a host, with the exception that ends it if any, and its lists of hosts at the start and at the end of the thread.
pub record Process : Type 1 where
  pub State : Type 0
  pub topology : State → Topology
  pub takes : ℕ → Arrival → State → State × Option Error
  pub enters : ℕ → State → State
  pub departs : ℕ → State → State

-- How the loop ends: the connection has closed, or failed and the whole process exits, or a handler has thrown,
-- or it has not ended in the rounds that it was given.
pub data Ending : Type 0 where
  gone : Ending
  exits : Error → Ending
  thrown : Error → Ending
  running : Ending

-- `catch(SocketClosedException&)` and `catch(std::exception&)` about the reading of a message.
pub read_failed : Error → Ending
read_failed socket_closed = gone
read_failed e = exits e

module _ (net : Net) (process : Process) where
  open net use {S, pending}
  open process use {State, topology, takes, enters, departs}

  -- What `on_receive` does with a message, up to the exception that it throws, if any.
  pub handle : ℕ → State → Message → State × Option Error
  handle h w m = elim (on_receive (topology w) m) [ err e ↦ (w, some e) | ok a ↦ takes h a w ]

  -- The loop, a round per unit of fuel. What a handler changed before it threw stays changed.
  pub connection_loop : ℕ → ℕ → State → S → State × Ending
  connection_loop zero h w s = (w, running)
  connection_loop (suc f) h w s = elim (read_from net h new_message s) [
    | err e ↦ (w, read_failed e)
    | ok r ↦
        let v = handle h w r.0 in
        elim v.1 [ some e ↦ (v.0, thrown e) | none ↦ connection_loop f h v.0 r.1 ]
  ]

  -- The end of the thread: `exit(1)` leaves no time for it.
  pub close : ℕ → State × Ending → State × Ending
  close h (w, gone) = (departs h w, gone)
  close h (w, thrown e) = (departs h w, thrown e)
  close h (w, exits e) = (w, exits e)
  close h (w, running) = (w, running)

  pub com_connection_thread : ℕ → ℕ → State → S → State × Ending
  com_connection_thread f h w s = close h (connection_loop f h (enters h w) s)

  -- Reference: the messages handled one after another, up to the first that throws, with no socket between.
  pub handle_each : ℕ → State → List Message → Ending → State × Ending
  handle_each h w [] last = (w, last)
  handle_each h w (m ∷ ms) last =
      let v = handle h w m in
      elim v.1 [ some e ↦ (v.0, thrown e) | none ↦ handle_each h v.0 ms last ]

-- A text that ends with its terminator, as a handler reads it.
pub c_string : List ℕ → Result (List ℕ)
c_string [] = err bad_access
c_string (c ∷ s) = let rest = c_string s in if c == 0 then ok [] else (rest >>= λ t. ok (c ∷ t))

-- The handlers that change the lists of hosts, on the bytes of a message; `opened` is the host at the other end of
-- the socket that the root opens, if it can.
pub on_command : List ℕ → Option ℕ → ℕ → Command → Option (List ℕ) → Peers → Result Peers
on_command port opened h add_to_network buffer p = ok (on_add_to_network h p)
on_command port opened h subscribe buffer p = do
  b ← or_fail buffer bad_access
  t ← c_string b
  ok (on_subscribe port h t p)
on_command port opened h notify_subscription buffer p = do
  b ← or_fail buffer bad_access
  t ← c_string b
  on_notify_subscription port opened t p
on_command port opened h root_welcome buffer p = do
  b ← or_fail buffer bad_access
  t ← c_string b
  ok (on_root_welcome h t p)
on_command port opened h c buffer p = ok p

-- These handlers throw before they change a list, where what they send can be sent.
abbrev pub attempt : Peers → Result Peers → Peers × Option Error
attempt p (ok q) = (q, none)
attempt p (err e) = (p, some e)

pub on_arrival : List ℕ → Option ℕ → ℕ → Arrival → Peers → Peers × Option Error
on_arrival port opened h (runs none buffer size) p = (p, none)
on_arrival port opened h (runs (some c) buffer size) p =
    attempt p (on_command port opened h c buffer p)
on_arrival port opened h (queues n m) p = (p, none)

-- A process with its lists of hosts, and a topology that stays.
abbrev pub peers_process : List ℕ → Option ℕ → Topology → Process
peers_process port opened t = record {
  State = Peers;
  topology = λ p. t;
  takes = on_arrival port opened;
  enters = joins;
  departs = leaves;
}
