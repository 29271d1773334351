-- ===== src/Reader/Run/Tests.antt =====
-- src/libagml_comm/topology/TopologyReader.cpp on a model text of four lines.
use lib_agml.Common.{ℕ, ◌-◌, ◌^◌, ◌≡◌, refl, true, false, List, [], ◌∷◌, Result, ok, err}
use lib_agml.Str.{
  first, is_prefix, find, substr, str_after, str_before, str_between, str_has, str_starts_with,
  is_space, leading, trailing, str_trim,
}
use lib_agml.Topology.{
  each_in, each_out, add_host, on_dst_add_host, on_src_add_host, host_share, assign_local, connect,
  add_in, add_out, add_group, ids_from, get_nb_out, get_nb_in, get_nb_local_in, get_nb_local_out,
}
use lib_agml.Topology.Hosts.{is_needed, connect_hosts, connect_host, connect_hosts_as_needed}
use lib_agml.Topology.Counters.Assign.{IsLinked}
use lib_agml.Reader.{
  Machine, com_is_my_ip, parse_declare_host, parse_new_host, same_text, is_local, agml_get_datahost,
  parse_statement, sides, parse_assign, execute_statement_assign, allocate,
}
use lib_agml.Reader.Execute.{get_group, group_from}
use lib_agml.Reader.Run.{
  Site, World, read_model, read_each, read_line, execute, declare_host, hosts_of, connect_needed,
  connect_groups, connect_by_names, instantiated, assign_to, assign_by_names, assign_each,
  assign_group, set_group_property, connect_all, find_datahost, here_of, answers, succeeds,
}
use lib_agml.Reader.Run.Built.{read_model-IsLinked}
use lib_agml.Topology.Counters.Build.{empty_topology}

abbrev machine : Machine
machine = record {
  resolve_ip = λ ip. ip;
  server_ip = 49 ∷ [];
  server_port = 80;
  to_int = λ text. elim text [ [] ↦ 2 ^ 32 - 1 | c ∷ cs ↦ c - 48 ];
}

abbrev site : Site
site = record { machine = machine; opens = λ k. true; knows = λ c. true }

abbrev nothing : World
nothing = record {
  topology = empty_topology;
  data_hosts = [];
  is_connected = λ k. false;
  nb_threads = 0;
  properties = [];
}

-- `Host A=127.0.0.1 # here`
abbrev declares : List ℕ
declares =
    72 ∷ 111 ∷ 115 ∷ 116 ∷ 32 ∷ 65 ∷ 61 ∷ 49 ∷ 50 ∷ 55 ∷ 46 ∷ 48 ∷ 46 ∷ 48 ∷ 46 ∷ 49 ∷ 32 ∷ 35 ∷ 32
    ∷ 104 ∷ 101 ∷ 114 ∷ 101 ∷ []

-- `N G`
abbrev adds : List ℕ
adds = 78 ∷ 32 ∷ 71 ∷ []

-- `G -> G`
abbrev connects_all : List ℕ
connects_all = 71 ∷ 32 ∷ 45 ∷ 62 ∷ 32 ∷ 71 ∷ []

-- `G@A[2]`
abbrev assigns_two : List ℕ
assigns_two = 71 ∷ 64 ∷ 65 ∷ 91 ∷ 50 ∷ 93 ∷ []

abbrev model : List (List ℕ)
model = declares ∷ adds ∷ connects_all ∷ assigns_two ∷ []

abbrev world_of : Result World → World
world_of (ok w) = w
world_of (err e) = nothing

-- What the text makes.
abbrev settled : World
settled = world_of (read_model site nothing model)

model_read : read_model site nothing model ≡ ok settled
unfolding read_model read_each read_line execute declare_host hosts_of connect_needed connect_groups
    connect_by_names instantiated assign_to assign_by_names assign_each assign_group
    set_group_property connect_all find_datahost here_of answers succeeds com_is_my_ip
    parse_declare_host parse_new_host same_text is_local agml_get_datahost parse_statement sides
    parse_assign execute_statement_assign allocate get_group group_from first is_prefix find substr
    str_after str_before str_between str_has str_starts_with is_space leading trailing str_trim
    each_in each_out add_host on_dst_add_host on_src_add_host host_share assign_local connect add_in
    add_out add_group ids_from get_nb_out get_nb_in get_nb_local_in get_nb_local_out is_needed
    connect_hosts connect_host connect_hosts_as_needed
model_read = refl

read_model-IsLinked_example : IsLinked settled.topology
read_model-IsLinked_example = read_model-IsLinked site nothing settled model refl model_read
