-- ===== src/Infos/Dump/Bytes.antt =====
-- src/libagml_comm/topology/Topology.cpp: what the dumps store, and how much they allocate for it.
use lib_agml.Common.{
  >>=-ok, ok-injective, ℕ, zero, suc, ◌+◌, ◌%◌, ◌^◌, ◌<◌, lt→ltb, ◌≡◌, refl, ap, sym, ◌∙◌, Bool,
  true, false, Option, none, some, List, [], ◌∷◌, ◌++◌, length, Result, ok, arith, length-append,
  append_assoc, append-nil, length-replicate,
}
use lib_agml.Wire.Bytes.{le_bytes, length-le_bytes}
use mathlib.Core.Path.{ap₂, subst}
use lib_agml.Infos.Report.{
  host_report, group_report, length-host_reports, length-group_reports, node_reports, host_reports,
  group_reports, HasSize, AreSized, HostReport, GroupReport, IsHostReport, AreHostReports,
  IsGroupReport, AreGroupReports, IsReport, infos_bytes, host_bytes, hosts_bytes, group_bytes,
  groups_bytes, report_bytes, length-node_reports,
}
use lib_agml.Infos.{Layout, HostState, GroupState}
use lib_agml.Infos.Stream.{Stream, put, content_of, write_value, write_size, write_text, text_bytes}
use lib_agml.Infos.Dump.{
  uint_loop, dump_nodes, dump_host, dump_hosts, dump_group, dump_groups, dump_pass, dump_twice,
}

-- The stream after some bytes.
unfoldable pub wrote : Bool → List ℕ → Stream → Stream
wrote is_write bs s = put is_write (length bs) bs s

wrote-wrote :
    (b : Bool) (xs ys : List ℕ) (s : Stream) → wrote b ys (wrote b xs s) ≡ wrote b (xs ++ ys) s
unfolding wrote put
wrote-wrote true xs ys s =
    ap₂ (λ n t. record { offset = n; bytes = t }) (omega (arith, length-append xs ys))
      (append_assoc s.bytes xs ys)
wrote-wrote false xs ys s =
    ap (λ n. record { offset = n; bytes = s.bytes }) (omega (arith, length-append xs ys))

wrote-nil : (b : Bool) (s : Stream) → wrote b [] s ≡ s
unfolding wrote put
wrote-nil true s = ap₂ (λ n t. record { offset = n; bytes = t }) (omega arith) (append-nil s.bytes)
wrote-nil false s = ap (λ n. record { offset = n; bytes = s.bytes }) (omega arith)

length-content_of : (n : ℕ) (v : Option (List ℕ)) → HasSize n v → length (content_of n v) ≡ n
length-content_of n none h = length-replicate n 0
length-content_of n (some v) h = h

write_value-wrote :
    (b : Bool) (n : ℕ) (v : Option (List ℕ)) (s : Stream)
    → HasSize n v
    → write_value b n v s ≡ wrote b (content_of n v) s
unfolding write_value wrote
write_value-wrote b n v s h = ap (λ k. put b k (content_of n v) s) (sym (length-content_of n v h))

write_size-wrote : (b : Bool) (n : ℕ) (s : Stream) → write_size b n s ≡ wrote b (le_bytes 8 n) s
unfolding write_size
write_size-wrote b n s = write_value-wrote b 8 (some (le_bytes 8 n)) s (length-le_bytes 8 n)

write_text-wrote :
    (b : Bool) (t : List ℕ) (s : Stream) → write_text b t s ≡ wrote b (text_bytes t) s
unfolding write_text wrote
write_text-wrote b t s =
    ap (put b (length t) t) (write_size-wrote b (length t) s)
    ∙ wrote-wrote b (le_bytes 8 (length t)) t s

within-uint_loop : (n : ℕ) (r : Result Stream) → n < 2 ^ 32 → uint_loop n r ≡ r
within-uint_loop n r h = rw (lt→ltb n (2 ^ 32) h) refl

module _ (layout : Layout) (info : HostState → ℕ → Result (Option (List ℕ))) (b : Bool) where
  dump_nodes-wrote :
      (h : HostState) (k left : ℕ) (vs : List (Option (List ℕ))) (s : Stream)
      → node_reports info h k left ≡ ok vs
      → AreSized layout.node_info vs
      → dump_nodes layout info b h k left s ≡ ok (wrote b (infos_bytes layout.node_info vs) s)
  unfolding dump_nodes node_reports
  dump_nodes-wrote h k zero vs s e sized = rw (← ok-injective e) (ap ok (sym (wrote-nil b s)))
  dump_nodes-wrote h k (suc left) vs s e sized =
      let (v, ev, e1) = >>=-ok (info h k) _ vs e in
      let (ws, ew, e2) = >>=-ok (node_reports info h (suc k) left) _ vs e1 in
      let (v_sized, ws_sized) = subst (AreSized layout.node_info) (sym (ok-injective e2)) sized in
      let after = wrote b (content_of layout.node_info v) s in
      rw (ev, write_value-wrote b layout.node_info v s v_sized, ← ok-injective e2)
        (dump_nodes-wrote h (suc k) left ws after ew ws_sized
          ∙ ap ok
              (wrote-wrote b (content_of layout.node_info v) (infos_bytes layout.node_info ws) s))

  dump_host-wrote :
      (h : HostState) (vs : List (Option (List ℕ))) (s : Stream)
      → node_reports info h 0 h.nb_nodes ≡ ok vs
      → IsHostReport layout (host_report h vs)
      → dump_host layout info b h s ≡ ok (wrote b (host_bytes layout (host_report h vs)) s)
  unfolding dump_host
  dump_host-wrote h vs s e well =
      let few = length-node_reports info h 0 h.nb_nodes vs e in
      let counted = le_bytes 8 (length vs) in
      let own = content_of layout.host_info h.infos in
      let nodes = infos_bytes layout.node_info vs in
      let s1 = wrote b (text_bytes h.host_name) s in
      let s2 = wrote b counted s1 in
      rw
        (
          write_text-wrote b h.host_name s,
          within-uint_loop h.nb_nodes _ (omega (arith, few, well.nodes_few)),
          ap (λ k. write_size b k s1) (sym few),
          write_size-wrote b (length vs) s1,
          write_value-wrote b layout.host_info h.infos s2 well.sized,
          dump_nodes-wrote h 0 h.nb_nodes vs (wrote b own s2) e well.nodes_sized,
          wrote-wrote b own nodes s2,
          wrote-wrote b counted (own ++ nodes) s1,
          wrote-wrote b (text_bytes h.host_name) (counted ++ (own ++ nodes)) s,
        )
        refl

  dump_hosts-wrote :
      (hs : List HostState) (rs : List HostReport) (s : Stream)
      → host_reports info hs ≡ ok rs
      → AreHostReports layout rs
      → dump_hosts layout info b hs s ≡ ok (wrote b (hosts_bytes layout rs) s)
  unfolding dump_hosts host_reports
  dump_hosts-wrote [] rs s e well = rw (← ok-injective e) (ap ok (sym (wrote-nil b s)))
  dump_hosts-wrote (h ∷ hs) rs s e well =
      let (vs, ev, e1) = >>=-ok (node_reports info h 0 h.nb_nodes) _ rs e in
      let (qs, eq, e2) = >>=-ok (host_reports info hs) _ rs e1 in
      let (r_well, qs_well) = subst (AreHostReports layout) (sym (ok-injective e2)) well in
      let r = host_report h vs in
      rw (dump_host-wrote h vs s ev r_well, ← ok-injective e2)
        (dump_hosts-wrote hs qs (wrote b (host_bytes layout r) s) eq qs_well
          ∙ ap ok (wrote-wrote b (host_bytes layout r) (hosts_bytes layout qs) s))

  module _ (hosts_of : GroupState → List HostState) where
    dump_group-wrote :
        (g : GroupState) (hs : List HostReport) (s : Stream)
        → host_reports info (hosts_of g) ≡ ok hs
        → IsGroupReport layout (group_report g hs)
        → dump_group layout info b hosts_of g s
          ≡ ok (wrote b (group_bytes layout (group_report g hs)) s)
    unfolding dump_group
    dump_group-wrote g hs s e well =
        let few = length-host_reports info (hosts_of g) hs e in
        let counted = le_bytes 8 (length hs) in
        let hosts = hosts_bytes layout hs in
        let s1 = wrote b (text_bytes g.name) s in
        let s2 = wrote b (text_bytes g.nodeclass) s1 in
        rw
          (
            write_text-wrote b g.name s,
            write_text-wrote b g.nodeclass s1,
            within-uint_loop (length (hosts_of g)) _ (omega (arith, few, well.hosts_few)),
            ap (λ k. write_size b k s2) (sym few),
            write_size-wrote b (length hs) s2,
            dump_hosts-wrote (hosts_of g) hs (wrote b counted s2) e well.hosts_well,
            wrote-wrote b counted hosts s2,
            wrote-wrote b (text_bytes g.nodeclass) (counted ++ hosts) s1,
            wrote-wrote b (text_bytes g.name) (text_bytes g.nodeclass ++ (counted ++ hosts)) s,
          )
          refl

    dump_groups-wrote :
        (gs : List GroupState) (rs : List GroupReport) (s : Stream)
        → group_reports info hosts_of gs ≡ ok rs
        → AreGroupReports layout rs
        → dump_groups layout info b hosts_of gs s ≡ ok (wrote b (groups_bytes layout rs) s)
    unfolding dump_groups group_reports
    dump_groups-wrote [] rs s e well = rw (← ok-injective e) (ap ok (sym (wrote-nil b s)))
    dump_groups-wrote (g ∷ gs) rs s e well =
        let (hs, eh, e1) = >>=-ok (host_reports info (hosts_of g)) _ rs e in
        let (qs, eq, e2) = >>=-ok (group_reports info hosts_of gs) _ rs e1 in
        let (r_well, qs_well) = subst (AreGroupReports layout) (sym (ok-injective e2)) well in
        let r = group_report g hs in
        rw (dump_group-wrote g hs s eh r_well, ← ok-injective e2)
          (dump_groups-wrote gs qs (wrote b (group_bytes layout r) s) eq qs_well
            ∙ ap ok (wrote-wrote b (group_bytes layout r) (groups_bytes layout qs) s))

    dump_pass-wrote :
        (gs : List GroupState) (rs : List GroupReport)
        → group_reports info hosts_of gs ≡ ok rs
        → IsReport layout rs
        → dump_pass layout info b hosts_of gs
          ≡ ok (wrote b (report_bytes layout rs) (record { offset = 0; bytes = [] }))
    unfolding dump_pass
    dump_pass-wrote gs rs e well =
        let s : Stream = record { offset = 0; bytes = [] } in
        let counted = le_bytes 8 (length rs) in
        rw
          (
            within-uint_loop (length gs) _
                (omega (arith, length-group_reports info hosts_of gs rs e, well.groups_few)),
            ap (λ k. write_size b k s) (sym (length-group_reports info hosts_of gs rs e)),
            write_size-wrote b (length rs) s,
            dump_groups-wrote gs rs (wrote b counted s) e well.groups_well,
            wrote-wrote b counted (groups_bytes layout rs) s,
          )
          refl

-- Each dump allocates as many bytes as it then stores, and they are the bytes of the report.
pub dump_twice-stored :
    (layout : Layout) (info : HostState → ℕ → Result (Option (List ℕ)))
    (hosts_of : GroupState → List HostState) (gs : List GroupState) (rs : List GroupReport)
    → group_reports info hosts_of gs ≡ ok rs
    → IsReport layout rs
    → length (report_bytes layout rs) < 2 ^ 64
    → dump_twice layout info hosts_of gs
      ≡ ok (record { allocated = length (report_bytes layout rs); stored = report_bytes layout rs })
unfolding dump_twice wrote put
dump_twice-stored layout info hosts_of gs rs e well small =
    rw
      (
        dump_pass-wrote layout info false hosts_of gs rs e well,
        dump_pass-wrote layout info true hosts_of gs rs e well,
      )
      (ap (λ n. ok (record { allocated = n; stored = report_bytes layout rs }))
        (zero_add (length (report_bytes layout rs)) small))
  where
    zero_add : (n : ℕ) → n < 2 ^ 64 → (0 + n) % 2 ^ 64 ≡ n
    zero_add n h = omega arith
