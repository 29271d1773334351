-- ===== src/Infos/Update/Merge.antt =====
-- src/libagml_comm/topology/Topology.cpp: what an update says once it is read, put into the topology.
use lib_agml.Common.{
  ℕ, suc, Option, List, [], ◌∷◌, ◌==◌, if◌then◌else◌, length, Result, ok, err, bad_access, ◌>>=◌,
}
use lib_agml.Reader.{same_text}
use lib_agml.Infos.{Layout, HostState, GroupState}
use lib_agml.Infos.Stream.{content_of}
use lib_agml.Infos.Report.{HostReport, GroupReport}
use lib_agml.Infos.Update.{fill_host, fill_node}

-- The information of a report goes to the hosts that it names.
unfoldable pub merge_nodes : Layout → ℕ → List (Option (List ℕ)) → HostState → Result HostState
merge_nodes layout k [] h = ok h
merge_nodes layout k (v ∷ vs) h =
    fill_node layout k (content_of layout.node_info v) h >>= merge_nodes layout (suc k) vs

unfoldable pub merge_host : Layout → HostReport → List HostState → Result (List HostState)
merge_host layout r [] = err bad_access
merge_host layout r (h ∷ hs) =
    let rest = merge_host layout r hs in
    if same_text h.host_name r.host_name
    then (merge_nodes layout 0 r.nodes (fill_host (content_of layout.host_info r.infos) h) >>= λ h'.
        ok (h' ∷ hs))
    else (rest >>= λ hs'. ok (h ∷ hs'))

unfoldable pub merge_hosts : Layout → List HostReport → List HostState → Result (List HostState)
merge_hosts layout [] hs = ok hs
merge_hosts layout (r ∷ rs) hs = merge_host layout r hs >>= merge_hosts layout rs

unfoldable pub merge_group : Layout → GroupReport → List GroupState → Result (List GroupState)
merge_group layout r [] = if length r.hosts == 0 then ok [] else err bad_access
merge_group layout r (g ∷ gs) =
    let rest = merge_group layout r gs in
    if same_text g.name r.name
    then (merge_hosts layout r.hosts g.hosts >>= λ hs. ok (record g { hosts = hs } ∷ gs))
    else (rest >>= λ gs'. ok (g ∷ gs'))

unfoldable pub merge : Layout → List GroupReport → List GroupState → Result (List GroupState)
merge layout [] gs = ok gs
merge layout (r ∷ rs) gs = merge_group layout r gs >>= merge layout rs
