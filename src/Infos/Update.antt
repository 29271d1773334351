-- ===== src/Infos/Update.antt =====
-- src/libagml_comm/topology/Topology.cpp: `update_infos`, which takes a dump out of a message.
pub mod Merge
pub mod Reads
use lib_agml.Common.{
  ℕ, zero, suc, Bool, true, false, Option, none, some, List, [], ◌∷◌, ltb, ◌==◌, if◌then◌else◌,
  length, set, replicate, Result, ok, err, bad_access, ◌>>=◌,
}
use lib_agml.Reader.{same_text}
use lib_agml.Infos.{Layout, HostState, GroupState}
use lib_agml.Infos.Stream.{read_value, read_size, read_text}

-- A write through element `k` of an array.
abbrev pub write_at {ℓ} : {A : Type ℓ} → List A → ℕ → A → Result (List A)
write_at xs k x = if ltb k (length xs) then ok (set xs k x) else err bad_access

-- `h->infos`, made if need be and filled
abbrev pub fill_host : List ℕ → HostState → HostState
fill_host v h = record h { infos = some v }

-- `h->remote_infos`, which gets new elements if it has none
unfoldable pub remote_slots : Layout → HostState → List (List ℕ)
remote_slots layout h = elim h.remote_infos [
  | [] ↦ replicate h.nb_nodes layout.new_node_info
  | i ∷ is ↦ i ∷ is
]

-- The body of the loop over the nodes, once the information is read.
unfoldable pub fill_node : Layout → ℕ → List ℕ → HostState → Result HostState
fill_node layout k v h =
    if h.is_local
    then (write_at h.node_infos k (some v) >>= λ is. ok (record h { node_infos = is }))
    else (write_at (remote_slots layout h) k v >>= λ is. ok (record h { remote_infos = is }))

-- The loop over the nodes, from `k` on.
unfoldable pub read_nodes : Layout → ℕ → ℕ → HostState → List ℕ → Result (HostState × List ℕ)
read_nodes layout k zero h p = ok (h, p)
read_nodes layout k (suc left) h p = do
  r ← read_value layout.node_info p
  h' ← fill_node layout k r.0 h
  read_nodes layout (suc k) left h' r.1

-- What is done with the host that `get_first_host` finds; the code goes on with a null pointer when
-- it finds none.
unfoldable pub in_host {ℓ} :
    {A : Type ℓ}
    → List ℕ
    → (HostState → Result (HostState × A))
    → List HostState
    → Result (List HostState × A)
in_host name f [] = err bad_access
in_host name f (h ∷ hs) =
    let rest = in_host name f hs in
    if same_text h.host_name name
    then (f h >>= λ r. ok (r.0 ∷ hs, r.1))
    else (rest >>= λ r. ok (h ∷ r.0, r.1))

-- The body of the loop over the hosts, and the loop.
unfoldable pub read_host : Layout → List HostState → List ℕ → Result (List HostState × List ℕ)
read_host layout hs p = do
  name ← read_text p
  n ← read_size name.1
  in_host name.0
      (λ h. read_value layout.host_info n.1 >>= λ v. read_nodes layout 0 n.0 (fill_host v.0 h) v.1)
      hs

unfoldable pub read_hosts : Layout → ℕ → List HostState → List ℕ → Result (List HostState × List ℕ)
read_hosts layout zero hs p = ok (hs, p)
read_hosts layout (suc left) hs p = do r ← read_host layout hs p; read_hosts layout left r.0 r.1

-- What is done with the group that `get_group` finds. Where it finds none, the null pointer is read
-- unless there is nothing to do.
unfoldable pub in_group {ℓ} :
    {A : Type ℓ}
    → List ℕ
    → (List HostState → Result (List HostState × A))
    → Result A
    → List GroupState
    → Result (List GroupState × A)
in_group name f missing [] = missing >>= λ a. ok ([], a)
in_group name f missing (g ∷ gs) =
    let rest = in_group name f missing gs in
    if same_text g.name name
    then (f g.hosts >>= λ r. ok (record g { hosts = r.0 } ∷ gs, r.1))
    else (rest >>= λ r. ok (g ∷ r.0, r.1))

-- The body of the loop over the groups, and the loop.
unfoldable pub read_group : Layout → List GroupState → List ℕ → Result (List GroupState × List ℕ)
read_group layout gs p = do
  name ← read_text p
  nodeclass ← read_text name.1
  n ← read_size nodeclass.1
  in_group name.0 (λ hs. read_hosts layout n.0 hs n.1) (if n.0 == 0 then ok n.1 else err bad_access)
      gs

unfoldable pub read_groups :
    Layout → ℕ → List GroupState → List ℕ → Result (List GroupState × List ℕ)
read_groups layout zero gs p = ok (gs, p)
read_groups layout (suc left) gs p = do r ← read_group layout gs p; read_groups layout left r.0 r.1

-- `Topology::update_infos`
unfoldable pub update_infos : Layout → List GroupState → List ℕ → Result (List GroupState)
update_infos layout gs p = do n ← read_size p; r ← read_groups layout n.0 gs n.1; ok r.0
