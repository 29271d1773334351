-- ===== src/Reader/Run.antt =====
-- src/libagml_comm/topology/TopologyReader.cpp, with Topology.h, NodeGroup.cpp and Thread.cpp beside it: what the
-- statements of a model text do to the topology, the data hosts and the number of threads, and the reading of a
-- whole text. Which of the threads takes a node stands in Simulation.Placement.
mod Tests
pub mod Assignments
pub mod Statements
pub mod Built
use lib_agml.Common.{
  ℕ, zero, suc, ◌+◌, ◌%◌, ◌^◌, Bool, true, false, ◌&&◌, Option, none, some, List, [], ◌∷◌, ◌++◌,
  ltb, leb, ◌==◌, if◌then◌else◌, length, get_elem?, Result, ok, err, bad_access, division_by_zero,
  out_of_fuel, no_such_host, ◌>>=◌,
}
use lib_agml.Str.{str_after, str_before, str_starts_with, str_trim}
use lib_agml.Topology.{Topology, Link, assign_local, assign_remote, connect, add_group}
use lib_agml.Topology.Hosts.{DataHosts, assign_same_as, connect_hosts_as_needed, widened}
use lib_agml.Reader.{
  host_word, same_text, DataHost, Machine, is_local, parse_declare_host, Statement, declares_host,
  connects, assigns, sets, adds_group, parse_statement, Assignment, same_as, on_hosts,
  execute_statement_assign,
}
use lib_agml.Reader.Execute.{get_group}

-- The machine, the data hosts to which a connection can be opened, and the node classes that the node library
-- knows.
pub record Site : Type 0 where
  pub machine : Machine
  pub opens : ℕ → Bool
  pub knows : List ℕ → Bool

-- A property that is set: of which group, under which key, to which text.
pub record Property : Type 0 where
  pub group : ℕ
  pub key : List ℕ
  pub value : List ℕ

-- The topology, the globals `data_hosts` and `threads`, of which the number is enough here, and what the groups'
-- `properties` were set to, the last one first.
pub record World : Type 0 where
  pub topology : Topology
  pub data_hosts : List DataHost
  pub is_connected : ℕ → Bool
  pub nb_threads : ℕ
  pub properties : List Property

-- `agml_get_datahost`, with the number that a `DataHost*` is in a topology.
pub find_datahost : List DataHost → List ℕ → ℕ → Option (ℕ × DataHost)
find_datahost [] name i = none
find_datahost (h ∷ hs) name i =
    let rest = find_datahost hs name (suc i) in
    if same_text h.host_name name then some (i, h) else rest

-- `NodeGroup::get_property` of a group, the empty text for a key that was not set.
pub get_property : List Property → ℕ → List ℕ → List ℕ
get_property [] i key = []
get_property (p ∷ ps) i key =
    let rest = get_property ps i key in
    if p.group == i && same_text p.key key then p.value else rest

-- `execute_statement_declare_host`: the threads of a host of this machine are made.
pub declare_host : Site → World → List ℕ → Result World
declare_host s w text = do
  r ← parse_declare_host s.machine w.data_hosts text
  here ← is_local s.machine r.0
  ok (record w {
    data_hosts = r.1;
    nb_threads =
        if here && ltb r.0.nb_threads (2 ^ 31) then w.nb_threads + r.0.nb_threads else w.nb_threads;
  })

-- The data hosts as the connections see them. An exception out of `is_local` is caught as a failed connection.
answers : Result Bool → Bool
answers (ok b) = b
answers (err e) = false

succeeds : Result Bool → Bool
succeeds (ok b) = true
succeeds (err e) = false

here_of : Site → Option DataHost → Result Bool
here_of s none = err bad_access
here_of s (some h) = is_local s.machine h

pub hosts_of : Site → World → DataHosts
hosts_of s w = record {
  of_here = λ k. answers (here_of s (get_elem? w.data_hosts k));
  is_connected = w.is_connected;
  opens = λ k. succeeds (here_of s (get_elem? w.data_hosts k)) && s.opens k;
}

-- `connect_hosts_as_needed` of group `i`
pub connect_needed : Site → World → ℕ → Result World
connect_needed s w i = connect_hosts_as_needed (hosts_of s w) w.topology i >>= λ r.
    ok (record w { topology = r.1; is_connected = r.0.is_connected })

-- `Topology::connect`: the connections that `add_out` opens at the far group do not read the links out, so
-- that they can come first.
pub connect_groups : Site → World → Link → Result World
connect_groups s w l =
    connect_needed s w l.dst >>= λ v. ok (record v { topology = connect v.topology l })

-- `Topology::connect` by names: an unknown one is reported, and nothing else happens.
pub connect_by_names : Site → World → List ℕ → List ℕ → Bool → Bool → Result World
connect_by_names s w src dst allow_self only_local = elim (get_group w.topology src) [
  | none ↦ ok w
  | some i ↦ elim (get_group w.topology dst) [
    | none ↦ ok w
    | some j ↦
        connect_groups s w
          (record { src = i; dst = j; allow_self = allow_self; only_local = only_local })
  ]
]

-- How many nodes `instantiate_nodes` makes on this machine: it divides by the number of threads, or takes the
-- one of a number.
pub instantiated : Bool → ℕ → ℕ → ℕ → Result ℕ
instantiated known nb_threads nb thread =
    if nb == 0
    then ok 0
    else if leb (2 ^ 31) thread
    then (if nb_threads == 0 then err division_by_zero else ok (if known then nb else 0))
    else if ltb thread nb_threads
    then ok (if known then nb else 0)
    else err bad_access

-- `NodeGroupHost::init` and `NodeGroup::add_host`; the number of nodes is the bit pattern of an `int`.
pub assign_to : Site → World → ℕ → ℕ → DataHost → ℕ → ℕ → Result World
assign_to s w i dh h nb thread = is_local s.machine h >>= λ here.
    if here
    then (let wanted = if leb (2 ^ 31) nb then 0 else nb in
        instantiated (s.knows (w.topology.group i).nodeclass) w.nb_threads wanted thread >>= λ made.
        ok (record w { topology = assign_local w.topology i dh wanted made }))
    else ok (record w { topology = assign_remote w.topology i dh (widened nb) })

-- `Topology::assign` by names: an unknown group is reported, an unknown host thrown.
pub assign_by_names : Site → World → List ℕ → List ℕ → ℕ → ℕ → Result World
assign_by_names s w group host nb thread = elim (get_group w.topology group) [
  | none ↦ ok w
  | some i ↦ elim (find_datahost w.data_hosts host 0) [
    | none ↦ err no_such_host
    | some p ↦ assign_to s w i p.0 p.1 nb thread
  ]
]

pub assign_each : Site → World → List ℕ → List (List ℕ × (ℕ × ℕ)) → Result World
assign_each s w group [] = ok w
assign_each s w group (a ∷ more) =
    assign_by_names s w group a.0 a.1.0 a.1.1 >>= λ v. assign_each s v group more

-- `Topology::assign_same_as`: a group that has hosts and is assigned as itself gets new hosts without end.
pub assign_as : Site → World → List ℕ → List ℕ → ℕ → Result World
assign_as s w group ref limit = elim (get_group w.topology group) [
  | none ↦ ok w
  | some i ↦ elim (get_group w.topology ref) [
    | none ↦ ok w
    | some j ↦
        if i == j && ltb 0 (length (w.topology.group j).hosts)
        then err out_of_fuel
        else (assign_same_as (s.knows (w.topology.group i).nodeclass) w.topology i limit
              (w.topology.group j).hosts
            >>= λ t. ok (record w { topology = t }))
  ]
]

pub assign_group : Site → World → List ℕ → Assignment → Result World
assign_group s w group (same_as ref limit) = assign_as s w group ref limit
assign_group s w group (on_hosts each) = assign_each s w group each

-- `Topology::set_group_property`
pub set_group_property : World → List ℕ → List ℕ → List ℕ → World
set_group_property w group key value = elim (get_group w.topology group) [
  | none ↦ w
  | some i ↦ record w { properties = record { group = i; key = key; value = value } ∷ w.properties }
]

-- `execute_statement`, behind the parsing
pub execute : Site → World → Statement → Result World
execute s w (declares_host text) = declare_host s w text
execute s w (connects src dst allow_self only_local) =
    connect_by_names s w src dst allow_self only_local
execute s w (assigns group host nb) =
    execute_statement_assign s.machine w.data_hosts host nb >>= λ a. assign_group s w group a
execute s w (sets group key value) = ok (set_group_property w group key value)
execute s w (adds_group node_type group) =
    ok (record w { topology = add_group w.topology group node_type })

-- A line of `TopologyReader::read`, and its loop.
pub read_line : Site → World → List ℕ → Result World
read_line s w l = do
  code ← str_before l (35 ∷ [])
  line ← str_trim code
  if same_text line [] then ok w else (parse_statement line >>= λ statement. execute s w statement)

pub read_each : Site → World → List (List ℕ) → Result World
read_each s w [] = ok w
read_each s w (l ∷ ls) = read_line s w l >>= λ v. read_each s v ls

-- `TopologyReader::read_hosts`: the data hosts of a model text.
pub read_host_lines : Site → List DataHost → List (List ℕ) → Result (List DataHost)
read_host_lines s hs [] = ok hs
read_host_lines s hs (l ∷ ls) = do
  code ← str_before l (35 ∷ [])
  line ← str_trim code
  if str_starts_with line (host_word ++ (32 ∷ []))
      then (do
        after ← str_after line host_word
        text ← str_trim after
        r ← parse_declare_host s.machine hs text
        read_host_lines s r.1 ls)
      else read_host_lines s hs ls

-- The loop of `Topology::read` that connects the hosts of the groups from `i` on.
pub connect_all : Site → World → ℕ → ℕ → Result World
connect_all s w i zero = ok w
connect_all s w i (suc left) = connect_needed s w i >>= λ v. connect_all s v (suc i) left

-- `Topology::read`, but for the start of the threads.
pub read_model : Site → World → List (List ℕ) → Result World
read_model s w ls = read_each s w ls >>= λ v. connect_all s v 0 v.topology.nb_groups
