-- ===== src/Infos.antt =====
-- src/libagml_comm/topology/Topology.cpp, with the byte streams of src/libagml_comm/util/utils.h: the statistics of
-- nodes and hosts, dumped into a message and taken out of it.
pub mod Stream
pub mod Report
pub mod Dump
pub mod Update
pub mod Exchange
mod Tests
use lib_agml.Common.{ℕ, Bool, Option, List, [], ◌∷◌, if◌then◌else◌}

-- The sizes that the compiler gives `NodeInfo` and `NodeGroupHostInfo`, whose values are kept as the bytes
-- of their memory, and the memory of the `NodeInfo`s that an
-- update makes.
pub record Layout : Type 0 where
  pub node_info : ℕ
  pub host_info : ℕ
  pub new_node_info : List ℕ

-- What a `NodeGroupHost` that has a data host shows of its state to the dumps: the name of its data host,
-- its nodes' `infos`, any of which may be null, and the `remote_infos` received for it.
pub record HostState : Type 0 where
  pub host_name : List ℕ
  pub is_local : Bool
  pub nb_nodes : ℕ
  pub infos : Option (List ℕ)
  pub node_infos : List (Option (List ℕ))
  pub remote_infos : List (List ℕ)

pub record GroupState : Type 0 where
  pub name : List ℕ
  pub nodeclass : List ℕ
  pub hosts : List HostState

-- `local_hosts`, in which `add_host` puts the local ones of the hosts.
pub local_hosts : List HostState → List HostState
local_hosts [] = []
local_hosts (h ∷ hs) = if h.is_local then h ∷ local_hosts hs else local_hosts hs
