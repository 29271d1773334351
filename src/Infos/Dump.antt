-- ===== src/Infos/Dump.antt =====
-- src/libagml_comm/topology/Topology.cpp: `dump_all_infos` and `dump_local_infos`.
pub mod Bytes
use lib_agml.Common.{
  ℕ, zero, suc, ◌+◌, Bool, true, false, Option, none, some, List, [], ◌∷◌, ◌++◌, if◌then◌else◌,
  length, get_elem?, Result, ok, err, bad_access, out_of_fuel, ◌>>=◌, or_fail, ◌%◌, ◌^◌, ltb,
}
use lib_agml.Infos.{Layout, HostState, GroupState, local_hosts}
use lib_agml.Infos.Stream.{Stream, write_value, write_size, write_text}

-- The information that `dump_all_infos` writes for node `k` of a host.
unfoldable pub any_info : HostState → ℕ → Result (Option (List ℕ))
any_info h k =
    if h.is_local then or_fail (get_elem? h.node_infos k) bad_access else elim h.remote_infos [
      | [] ↦ ok none
      | i ∷ is ↦ or_fail (get_elem? (i ∷ is) k) bad_access >>= λ v. ok (some v)
    ]

-- The information that `dump_local_infos` writes for node `k` of a local host.
unfoldable pub own_info : HostState → ℕ → Result (Option (List ℕ))
own_info h k = or_fail (get_elem? h.node_infos k) bad_access

-- A loop whose counter is a `uint` comes to its end if it has fewer than 2^32 rounds to go; of more, the counter
-- goes round for ever, unless a wild access ends it, and `out_of_fuel` stands for that.
abbrev pub uint_loop : ℕ → Result Stream → Result Stream
uint_loop rounds r = if ltb rounds (2 ^ 32) then r else err out_of_fuel

module _ (layout : Layout) (info : HostState → ℕ → Result (Option (List ℕ))) (is_write : Bool) where
  -- The loop over the nodes of a host, from `k` on.
  pub dump_nodes : HostState → ℕ → ℕ → Stream → Result Stream
  dump_nodes h k zero s = ok s
  dump_nodes h k (suc left) s = do
    v ← info h k
    dump_nodes h (suc k) left (write_value is_write layout.node_info v s)

  -- The body of the loop over the hosts.
  unfoldable pub dump_host : HostState → Stream → Result Stream
  dump_host h s = uint_loop h.nb_nodes (
      dump_nodes h 0 h.nb_nodes (
        write_value is_write layout.host_info h.infos
          (write_size is_write h.nb_nodes (write_text is_write h.host_name s))))

  pub dump_hosts : List HostState → Stream → Result Stream
  dump_hosts [] s = ok s
  dump_hosts (h ∷ hs) s = dump_host h s >>= λ s'. dump_hosts hs s'

  -- The body of the loop over the groups, with the hosts that are dumped.
  unfoldable pub dump_group : (GroupState → List HostState) → GroupState → Stream → Result Stream
  dump_group hosts_of g s = uint_loop (length (hosts_of g)) (
      dump_hosts (hosts_of g) (
        write_size is_write (length (hosts_of g))
          (write_text is_write g.nodeclass (write_text is_write g.name s))))

  pub dump_groups : (GroupState → List HostState) → List GroupState → Stream → Result Stream
  dump_groups hosts_of [] s = ok s
  dump_groups hosts_of (g ∷ gs) s = dump_group hosts_of g s >>= λ s'. dump_groups hosts_of gs s'

  -- One pass over the topology.
  pub dump_pass : (GroupState → List HostState) → List GroupState → Result Stream
  dump_pass hosts_of gs = uint_loop (length gs) (
      dump_groups hosts_of gs (write_size is_write (length gs) (record { offset = 0; bytes = [] })))

-- Both passes: the size that the first one counts, a `size_t`, is allocated, and the second one stores.
pub record Dump : Type 0 where
  pub allocated : ℕ
  pub stored : List ℕ

pub dump_twice :
    Layout
    → (HostState → ℕ → Result (Option (List ℕ)))
    → (GroupState → List HostState)
    → List GroupState
    → Result Dump
dump_twice layout info hosts_of gs = do
  first ← dump_pass layout info false hosts_of gs
  second ← dump_pass layout info true hosts_of gs
  ok (record { allocated = first.offset % 2 ^ 64; stored = second.bytes })

-- `Topology::dump_all_infos` and `Topology::dump_local_infos` into a message that has no data yet.
unfoldable pub dump_all_infos : Layout → List GroupState → Result Dump
dump_all_infos layout gs = dump_twice layout any_info (λ g. g.hosts) gs

unfoldable pub dump_local_infos : Layout → List GroupState → Result Dump
dump_local_infos layout gs = dump_twice layout own_info (λ g. local_hosts g.hosts) gs
