-- ===== src/Infos/Update/Reads.antt =====
-- src/libagml_comm/topology/Topology.cpp: `update_infos` on the bytes of a report.
use lib_agml.Common.{
  ℕ, suc, ◌≡◌, refl, Bool, true, false, Option, none, some, List, [], ◌∷◌, ◌++◌, ◌==◌,
  if◌then◌else◌, length, Result, ok, err, bad_access, ◌>>=◌, length-replicate, arith, append_assoc,
}
use lib_agml.Wire.Bytes.{le_bytes}
use lib_agml.Reader.{same_text}
use lib_agml.Infos.{Layout, HostState, GroupState}
use lib_agml.Infos.Stream.{
  content_of, text_bytes, read_value-append, read_size-append, read_text-append,
}
use lib_agml.Infos.Report.{
  HostReport, GroupReport, HasSize, AreSized, IsHostReport, AreHostReports, IsGroupReport,
  AreGroupReports, IsReport, infos_bytes, host_bytes, hosts_bytes, group_bytes, groups_bytes,
  report_bytes,
}
use lib_agml.Infos.Update.{
  fill_host, fill_node, read_nodes, in_host, read_host, read_hosts, in_group, read_group,
  read_groups, update_infos,
}
use lib_agml.Infos.Update.Merge.{merge_nodes, merge_host, merge_hosts, merge_group, merge}

-- A result together with the bytes that are left.
abbrev with_rest {ℓ} : {A : Type ℓ} → List ℕ → Result A → Result (A × List ℕ)
with_rest rest m = m >>= λ a. ok (a, rest)

>>=-with_rest {ℓ κ} :
    {A : Type ℓ} {B : Type κ} (rest : List ℕ) (m : Result A) (f : A → Result (B × List ℕ))
    (g : A → Result B)
    → ((a : A) → f a ≡ with_rest rest (g a))
    → (m >>= f) ≡ with_rest rest (m >>= g)
>>=-with_rest rest (ok a) f g same = same a
>>=-with_rest rest (err e) f g same = refl

next-with_rest {ℓ κ} :
    {A : Type ℓ} {B : Type κ} (p rest : List ℕ) (m : Result A)
    (f : A × List ℕ → Result (B × List ℕ)) (g : A → Result B)
    → ((a : A) → f (a, p) ≡ with_rest rest (g a))
    → (with_rest p m >>= f) ≡ with_rest rest (m >>= g)
next-with_rest p rest (ok a) f g same = same a
next-with_rest p rest (err e) f g same = refl

if-with_rest {ℓ} :
    {A : Type ℓ} (rest : List ℕ) (b : Bool) {m n : Result (A × List ℕ)} (m' n' : Result A)
    → m ≡ with_rest rest m'
    → n ≡ with_rest rest n'
    → (if b then m else n) ≡ with_rest rest (if b then m' else n')
if-with_rest rest true m' n' e e' = e
if-with_rest rest false m' n' e e' = e'

-- A write-back of what the rest of the bytes leaves alone.
map-with_rest {ℓ κ} :
    {A : Type ℓ} {B : Type κ} (rest : List ℕ) {m : Result (A × List ℕ)} (m' : Result A) (f : A → B)
    → m ≡ with_rest rest m'
    → (m >>= λ r. ok (f r.0, r.1)) ≡ with_rest rest (m' >>= λ a. ok (f a))
map-with_rest rest (ok a) f e = rw (e) refl
map-with_rest rest (err x) f e = rw (e) refl

length-content_of : (n : ℕ) (v : Option (List ℕ)) → HasSize n v → length (content_of n v) ≡ n
length-content_of n none h = length-replicate n 0
length-content_of n (some v) h = h

module _ (layout : Layout) where
  read_nodes-merge :
      (k : ℕ) (vs : List (Option (List ℕ))) (h : HostState) (rest : List ℕ)
      → AreSized layout.node_info vs
      → read_nodes layout k (length vs) h (infos_bytes layout.node_info vs ++ rest)
        ≡ with_rest rest (merge_nodes layout k vs h)
  unfolding read_nodes merge_nodes
  read_nodes-merge k [] h rest sized = refl
  read_nodes-merge k (v ∷ vs) h rest sized =
      let bs = content_of layout.node_info v in
      rw
        (
          append_assoc bs (infos_bytes layout.node_info vs) rest,
          read_value-append layout.node_info bs (infos_bytes layout.node_info vs ++ rest)
              (length-content_of layout.node_info v sized.0),
        )
        (>>=-with_rest rest (fill_node layout k bs h) _ (merge_nodes layout (suc k) vs)
          (λ h'. read_nodes-merge (suc k) vs h' rest sized.1))

  in_host-merge :
      (r : HostReport) (f : HostState → Result (HostState × List ℕ)) (hs : List HostState)
      (rest : List ℕ)
      → ((h : HostState)
          → f h
            ≡ with_rest rest
                (merge_nodes layout 0 r.nodes (fill_host (content_of layout.host_info r.infos) h)))
      → in_host r.host_name f hs ≡ with_rest rest (merge_host layout r hs)
  unfolding in_host merge_host
  in_host-merge r f [] rest same = refl
  in_host-merge r f (h ∷ hs) rest same =
      if-with_rest rest (same_text h.host_name r.host_name) _ _
        (map-with_rest rest _ (λ h'. h' ∷ hs) (same h))
        (map-with_rest rest (merge_host layout r hs) (λ hs'. h ∷ hs')
          (in_host-merge r f hs rest same))

  read_host-merge :
      (r : HostReport) (hs : List HostState) (rest : List ℕ)
      → IsHostReport layout r
      → read_host layout hs (host_bytes layout r ++ rest) ≡ with_rest rest (merge_host layout r hs)
  unfolding read_host
  read_host-merge r hs rest well =
      let counted = le_bytes 8 (length r.nodes) in
      let own = content_of layout.host_info r.infos in
      let nodes = infos_bytes layout.node_info r.nodes in
      rw
        (
          append_assoc (text_bytes r.host_name) (counted ++ (own ++ nodes)) rest,
          read_text-append r.host_name ((counted ++ (own ++ nodes)) ++ rest) well.named,
          append_assoc counted (own ++ nodes) rest,
          read_size-append (length r.nodes) ((own ++ nodes) ++ rest)
              (omega (arith, well.nodes_few)),
          append_assoc own nodes rest,
        )
        (in_host-merge r _ hs rest (λ h.
          rw
            (read_value-append layout.host_info own (nodes ++ rest)
              (length-content_of layout.host_info r.infos well.sized))
            (read_nodes-merge 0 r.nodes (fill_host own h) rest well.nodes_sized)))

  read_hosts-merge :
      (rs : List HostReport) (hs : List HostState) (rest : List ℕ)
      → AreHostReports layout rs
      → read_hosts layout (length rs) hs (hosts_bytes layout rs ++ rest)
        ≡ with_rest rest (merge_hosts layout rs hs)
  unfolding read_hosts merge_hosts
  read_hosts-merge [] hs rest well = refl
  read_hosts-merge (r ∷ rs) hs rest well =
      rw
        (
          append_assoc (host_bytes layout r) (hosts_bytes layout rs) rest,
          read_host-merge r hs (hosts_bytes layout rs ++ rest) well.0,
        )
        (next-with_rest (hosts_bytes layout rs ++ rest) rest (merge_host layout r hs) _
          (merge_hosts layout rs) (λ hs'. read_hosts-merge rs hs' rest well.1))

  in_group-merge :
      (r : GroupReport) (f : List HostState → Result (List HostState × List ℕ))
      (gs : List GroupState) (rest : List ℕ) (missing : Result (List ℕ))
      → ((hs : List HostState) → f hs ≡ with_rest rest (merge_hosts layout r.hosts hs))
      → missing ≡ (if length r.hosts == 0 then ok rest else err bad_access)
      → in_group r.name f missing gs ≡ with_rest rest (merge_group layout r gs)
  unfolding in_group merge_group
  in_group-merge r f [] rest missing same none_left = absent (length r.hosts == 0) none_left
    where
      absent :
          (b : Bool)
          → missing ≡ (if b then ok rest else err bad_access)
          → (missing >>= λ a. ok ([], a))
            ≡ with_rest {A = List GroupState} rest (if b then ok [] else err bad_access)
      absent true e = rw (e) refl
      absent false e = rw (e) refl
  in_group-merge r f (g ∷ gs) rest missing same none_left =
      if-with_rest rest (same_text g.name r.name) _ _
        (map-with_rest rest _ (λ hs. record g { hosts = hs } ∷ gs) (same g.hosts))
        (map-with_rest rest (merge_group layout r gs) (λ gs'. g ∷ gs')
          (in_group-merge r f gs rest missing same none_left))

  read_group-merge :
      (r : GroupReport) (gs : List GroupState) (rest : List ℕ)
      → IsGroupReport layout r
      → read_group layout gs (group_bytes layout r ++ rest)
        ≡ with_rest rest (merge_group layout r gs)
  unfolding read_group
  read_group-merge r gs rest well =
      let counted = le_bytes 8 (length r.hosts) in
      let hosts = hosts_bytes layout r.hosts in
      rw
        (
          append_assoc (text_bytes r.name) (text_bytes r.nodeclass ++ (counted ++ hosts)) rest,
          read_text-append r.name ((text_bytes r.nodeclass ++ (counted ++ hosts)) ++ rest)
              well.named,
          append_assoc (text_bytes r.nodeclass) (counted ++ hosts) rest,
          read_text-append r.nodeclass ((counted ++ hosts) ++ rest) well.classed,
          append_assoc counted hosts rest,
          read_size-append (length r.hosts) (hosts ++ rest) (omega (arith, well.hosts_few)),
        )
        (in_group-merge r _ gs rest _ (λ hs. read_hosts-merge r.hosts hs rest well.hosts_well)
          (no_bytes r.hosts))
    where
      no_bytes :
          (rs : List HostReport)
          → (if length rs == 0 then ok (hosts_bytes layout rs ++ rest) else err bad_access)
            ≡ (if length rs == 0 then ok rest else err bad_access)
      no_bytes [] = refl
      no_bytes (x ∷ rs) = ground arith

  read_groups-merge :
      (rs : List GroupReport) (gs : List GroupState) (rest : List ℕ)
      → AreGroupReports layout rs
      → read_groups layout (length rs) gs (groups_bytes layout rs ++ rest)
        ≡ with_rest rest (merge layout rs gs)
  unfolding read_groups merge
  read_groups-merge [] gs rest well = refl
  read_groups-merge (r ∷ rs) gs rest well =
      rw
        (
          append_assoc (group_bytes layout r) (groups_bytes layout rs) rest,
          read_group-merge r gs (groups_bytes layout rs ++ rest) well.0,
        )
        (next-with_rest (groups_bytes layout rs ++ rest) rest (merge_group layout r gs) _
          (merge layout rs) (λ gs'. read_groups-merge rs gs' rest well.1))

-- Reading a report's bytes
pub update_infos-merge :
    (layout : Layout) (rs : List GroupReport) (gs : List GroupState) (rest : List ℕ)
    → IsReport layout rs
    → update_infos layout gs (report_bytes layout rs ++ rest) ≡ merge layout rs gs
unfolding update_infos
update_infos-merge layout rs gs rest well =
    rw
      (
        append_assoc (le_bytes 8 (length rs)) (groups_bytes layout rs) rest,
        read_size-append (length rs) (groups_bytes layout rs ++ rest)
            (omega (arith, well.groups_few)),
        read_groups-merge layout rs gs rest well.groups_well,
      )
      (drop_rest (merge layout rs gs))
  where
    drop_rest : (m : Result (List GroupState)) → (with_rest rest m >>= λ r. ok r.0) ≡ m
    drop_rest (ok a) = refl
    drop_rest (err e) = refl
