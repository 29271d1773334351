-- ===== src/Infos/Report.antt =====
-- What the dumps of src/libagml_comm/topology/Topology.cpp say of the topology, and the bytes that say it.
use lib_agml.Common.{
  >>=-ok, ok-injective, ℕ, zero, suc, ◌^◌, ◌≡◌, ◌<◌, ap, Option, none, some, List, [], ◌∷◌, ◌++◌,
  length, Result, ok, ◌>>=◌,
}
use lib_agml.Wire.Bytes.{le_bytes}
use lib_agml.Infos.{Layout, HostState, GroupState}
use lib_agml.Infos.Stream.{content_of, text_bytes, IsText}

pub record HostReport : Type 0 where
  pub host_name : List ℕ
  pub infos : Option (List ℕ)
  pub nodes : List (Option (List ℕ))

pub record GroupReport : Type 0 where
  pub name : List ℕ
  pub nodeclass : List ℕ
  pub hosts : List HostReport

-- What is dumped of a host besides its nodes, and of a group besides its hosts.
abbrev pub host_report : HostState → List (Option (List ℕ)) → HostReport
host_report h vs = record { host_name = h.host_name; infos = h.infos; nodes = vs }

abbrev pub group_report : GroupState → List HostReport → GroupReport
group_report g hs = record { name = g.name; nodeclass = g.nodeclass; hosts = hs }

module _ (info : HostState → ℕ → Result (Option (List ℕ))) where
  -- The information on nodes `k`, `k + 1`, … of a host.
  unfoldable pub node_reports : HostState → ℕ → ℕ → Result (List (Option (List ℕ)))
  node_reports h k zero = ok []
  node_reports h k (suc left) = do v ← info h k; vs ← node_reports h (suc k) left; ok (v ∷ vs)

  unfoldable pub host_reports : List HostState → Result (List HostReport)
  host_reports [] = ok []
  host_reports (h ∷ hs) = do
    vs ← node_reports h 0 h.nb_nodes
    rs ← host_reports hs
    ok (host_report h vs ∷ rs)

  unfoldable pub group_reports :
      (GroupState → List HostState) → List GroupState → Result (List GroupReport)
  group_reports hosts_of [] = ok []
  group_reports hosts_of (g ∷ gs) = do
    hs ← host_reports (hosts_of g)
    rs ← group_reports hosts_of gs
    ok (group_report g hs ∷ rs)

-- Values have the size of their type.
abbrev pub HasSize : ℕ → Option (List ℕ) → Type 0
HasSize n none = Unit {0}
HasSize n (some v) = length v ≡ n

abbrev pub AreSized : ℕ → List (Option (List ℕ)) → Type 0
AreSized n [] = Unit {0}
AreSized n (v ∷ vs) = HasSize n v × AreSized n vs

-- The information is of its types' sizes, the names are C strings, and the counts fit in a `uint`.
pub record IsHostReport (layout : Layout) (r : HostReport) : Type 0 where
  pub named : IsText r.host_name
  pub sized : HasSize layout.host_info r.infos
  pub nodes_sized : AreSized layout.node_info r.nodes
  pub nodes_few : length r.nodes < 2 ^ 32

abbrev pub AreHostReports : Layout → List HostReport → Type 0
AreHostReports layout [] = Unit {0}
AreHostReports layout (r ∷ rs) = IsHostReport layout r × AreHostReports layout rs

pub record IsGroupReport (layout : Layout) (r : GroupReport) : Type 0 where
  pub named : IsText r.name
  pub classed : IsText r.nodeclass
  pub hosts_well : AreHostReports layout r.hosts
  pub hosts_few : length r.hosts < 2 ^ 32

abbrev pub AreGroupReports : Layout → List GroupReport → Type 0
AreGroupReports layout [] = Unit {0}
AreGroupReports layout (r ∷ rs) = IsGroupReport layout r × AreGroupReports layout rs

pub record IsReport (layout : Layout) (rs : List GroupReport) : Type 0 where
  pub groups_well : AreGroupReports layout rs
  pub groups_few : length rs < 2 ^ 32

-- The bytes of a report.
abbrev pub infos_bytes : ℕ → List (Option (List ℕ)) → List ℕ
infos_bytes n [] = []
infos_bytes n (v ∷ vs) = content_of n v ++ infos_bytes n vs

abbrev pub host_bytes : Layout → HostReport → List ℕ
host_bytes layout r =
    text_bytes r.host_name
    ++ (le_bytes 8 (length r.nodes)
        ++ (content_of layout.host_info r.infos ++ infos_bytes layout.node_info r.nodes))

abbrev pub hosts_bytes : Layout → List HostReport → List ℕ
hosts_bytes layout [] = []
hosts_bytes layout (r ∷ rs) = host_bytes layout r ++ hosts_bytes layout rs

abbrev pub group_bytes : Layout → GroupReport → List ℕ
group_bytes layout r =
    text_bytes r.name
    ++ (text_bytes r.nodeclass ++ (le_bytes 8 (length r.hosts) ++ hosts_bytes layout r.hosts))

abbrev pub groups_bytes : Layout → List GroupReport → List ℕ
groups_bytes layout [] = []
groups_bytes layout (r ∷ rs) = group_bytes layout r ++ groups_bytes layout rs

abbrev pub report_bytes : Layout → List GroupReport → List ℕ
report_bytes layout rs = le_bytes 8 (length rs) ++ groups_bytes layout rs

pub length-node_reports :
    (info : HostState → ℕ → Result (Option (List ℕ))) (h : HostState) (k left : ℕ)
    (vs : List (Option (List ℕ)))
    → node_reports info h k left ≡ ok vs
    → length vs ≡ left
unfolding node_reports
length-node_reports info h k zero vs e = cc
length-node_reports info h k (suc left) vs e =
    let (v, ev, e1) = >>=-ok (info h k) _ vs e in
    let (ws, ew, e2) = >>=-ok (node_reports info h (suc k) left) _ vs e1 in
    let ih = length-node_reports info h (suc k) left ws ew in rw (← ok-injective e2) (ap suc ih)

pub length-host_reports :
    (info : HostState → ℕ → Result (Option (List ℕ))) (hs : List HostState) (rs : List HostReport)
    → host_reports info hs ≡ ok rs
    → length rs ≡ length hs
unfolding host_reports
length-host_reports info [] rs e = cc
length-host_reports info (h ∷ hs) rs e =
    let (vs, ev, e1) = >>=-ok (node_reports info h 0 h.nb_nodes) _ rs e in
    let (qs, eq, e2) = >>=-ok (host_reports info hs) _ rs e1 in
    let ih = length-host_reports info hs qs eq in rw (← ok-injective e2) (ap suc ih)

pub length-group_reports :
    (info : HostState → ℕ → Result (Option (List ℕ))) (hosts_of : GroupState → List HostState)
    (gs : List GroupState) (rs : List GroupReport)
    → group_reports info hosts_of gs ≡ ok rs
    → length rs ≡ length gs
unfolding group_reports
length-group_reports info hosts_of [] rs e = cc
length-group_reports info hosts_of (g ∷ gs) rs e =
    let (hs, eh, e1) = >>=-ok (host_reports info (hosts_of g)) _ rs e in
    let (qs, eq, e2) = >>=-ok (group_reports info hosts_of gs) _ rs e1 in
    let ih = length-group_reports info hosts_of gs qs eq in rw (← ok-injective e2) (ap suc ih)
