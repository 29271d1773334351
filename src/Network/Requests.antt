-- ===== src/Network/Requests.antt =====
-- src/libagml_comm/common/Commands.cpp: `agml_command_node_request`, which asks a node by its group, host and number, and
-- `agml_command_data_host`.
use lib_agml.Common.{
  ℕ, Option, none, some, List, [], ◌∷◌, if◌then◌else◌, get_elem?, Result, ok, bad_access,
  no_such_group, no_such_host, ◌>>=◌, or_fail,
}
use lib_agml.Str.{str_before, str_after, str_trim}
use lib_agml.Reader.{same_text}
use lib_agml.Reader.Execute.{get_group}
use lib_agml.Topology.{Topology, GroupHost}

-- `group@host[id] what`, taken apart
pub record Request : Type 0 where
  pub group : List ℕ
  pub host : List ℕ
  pub node_id : List ℕ
  pub what : List ℕ

pub parse_request : List ℕ → Result Request
parse_request s = do
  g ← str_before s (64 ∷ [])
  group_name ← str_trim g
  a ← str_after s (64 ∷ [])
  ss ← str_trim a
  h ← str_before ss (91 ∷ [])
  host_name ← str_trim h
  b ← str_after ss (91 ∷ [])
  sss ← str_trim b
  i ← str_before sss (93 ∷ [])
  id ← str_trim i
  w ← str_after sss (32 ∷ [])
  what ← str_trim w
  ok (record { group = group_name; host = host_name; node_id = id; what = what })

-- `NodeGroup::get_first_host`, with the names of the data hosts.
pub first_host : (ℕ → List ℕ) → List GroupHost → List ℕ → Result (Option GroupHost)
first_host name_of [] name = ok none
first_host name_of (h ∷ hs) name =
    let rest = first_host name_of hs name in
    or_fail h.host bad_access >>= λ dh. if same_text (name_of dh) name then ok (some h) else rest

-- The texts `done` and `ERROR : Host is not local !!`, with their terminators
abbrev done : List ℕ
done = 100 ∷ 111 ∷ 110 ∷ 101 ∷ 0 ∷ []

abbrev not_local : List ℕ
not_local =
    69 ∷ 82 ∷ 82 ∷ 79 ∷ 82 ∷ 32 ∷ 58 ∷ 32 ∷ 72 ∷ 111 ∷ 115 ∷ 116 ∷ 32 ∷ 105 ∷ 115 ∷ 32 ∷ 110 ∷ 111
    ∷ 116 ∷ 32 ∷ 108 ∷ 111 ∷ 99 ∷ 97 ∷ 108 ∷ 32 ∷ 33 ∷ 33 ∷ 0 ∷ []

-- `agml_command_node_request`: the elements of the reply. `to_int` is the conversion of the text, and
-- `on_request` what a node adds to the reply.
pub on_node_request :
    (ℕ → List ℕ)
    → (List ℕ → ℕ)
    → (ℕ → List ℕ → List (List ℕ))
    → Option Topology
    → List ℕ
    → Result (List (List ℕ))
on_node_request name_of to_int on_request cur params = do
  r ← parse_request params
  t ← or_fail cur bad_access
  g ← or_fail (get_group t r.group) no_such_group
  found ← first_host name_of (t.group g).hosts r.host
  h ← or_fail found no_such_host
  if h.is_local
      then (or_fail (get_elem? h.nodes (to_int r.node_id)) bad_access >>= λ n.
          ok (elim (on_request n r.what) [ [] ↦ done ∷ [] | e ∷ es ↦ e ∷ es ]))
      else ok (not_local ∷ [])
