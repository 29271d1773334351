-- ===== src/Infos/Tests.antt =====
-- src/libagml_comm/topology/Topology.cpp on a small topology.
use lib_agml.Common.{
  refl, ℕ, ◌≢◌, ◌^◌, ◌≡◌, ◌<◌, List, some, none, [], ◌∷◌, true, false, ok, length, arith,
}
use lib_agml.Infos.{Layout, HostState, GroupState}
use lib_agml.Infos.Report.{
  HostReport, GroupReport, IsHostReport, AreHostReports, IsReport, report_bytes, node_reports,
  host_reports, group_reports,
}
use lib_agml.Wire.Bytes.{le_bytes}
use lib_agml.Infos.Stream.{IsText}
use lib_agml.Infos.Dump.{any_info, dump_all_infos}
use lib_agml.Wire.Message.{Message}
use lib_agml.Topology.{Topology, new_group}
use lib_agml.Infos.Exchange.{dump_all_infos-fills}

abbrev sizes : Layout
sizes = record { node_info = 2; host_info = 1; new_node_info = 0 ∷ 0 ∷ [] }

-- Two nodes here, and one on the host `b`, of which nothing has been heard.
abbrev here : HostState
here = record {
  host_name = 97 ∷ [];
  is_local = true;
  nb_nodes = 2;
  infos = some (7 ∷ []);
  node_infos = some (1 ∷ 2 ∷ []) ∷ none ∷ [];
  remote_infos = [];
}

abbrev there : HostState
there = record {
  host_name = 98 ∷ [];
  is_local = false;
  nb_nodes = 1;
  infos = none;
  node_infos = [];
  remote_infos = [];
}

abbrev groups : List GroupState
groups = record { name = 103 ∷ []; nodeclass = 67 ∷ []; hosts = here ∷ there ∷ [] } ∷ []

-- What the other process knows.
abbrev known : List GroupState
known =
    record {
      name = 103 ∷ [];
      nodeclass = 67 ∷ [];
      hosts =
          record here { is_local = false; infos = none; node_infos = [] }
          ∷ record there { is_local = true; node_infos = none ∷ [] }
          ∷ [];
    }
    ∷ []

abbrev here_report : HostReport
here_report = record {
  host_name = 97 ∷ [];
  infos = some (7 ∷ []);
  nodes = some (1 ∷ 2 ∷ []) ∷ none ∷ [];
}

abbrev there_report : HostReport
there_report = record { host_name = 98 ∷ []; infos = none; nodes = none ∷ [] }

abbrev report_on : List HostReport → List GroupReport
report_on hs = record { name = 103 ∷ []; nodeclass = 67 ∷ []; hosts = hs } ∷ []

text_of : (c : ℕ) → c ≢ 0 → IsText (c ∷ [])
text_of c h = record { short = omega arith; no_nul = (h, tt) }

here_report-IsHostReport : IsHostReport sizes here_report
here_report-IsHostReport = record {
  named = text_of 97 (omega arith);
  sized = refl;
  nodes_sized = (refl, (tt, tt));
  nodes_few = omega arith;
}

there_report-IsHostReport : IsHostReport sizes there_report
there_report-IsHostReport = record {
  named = text_of 98 (omega arith);
  sized = tt;
  nodes_sized = (tt, tt);
  nodes_few = omega arith;
}

report_on-IsReport :
    (hs : List HostReport)
    → AreHostReports sizes hs
    → length hs < 2 ^ 32
    → IsReport sizes (report_on hs)
report_on-IsReport hs well few = record {
  groups_well = (
    record {
      named = text_of 103 (omega arith);
      classed = text_of 67 (omega arith);
      hosts_well = well;
      hosts_few = few;
    },
    tt,
  );
  groups_few = omega arith;
}

both_small : length (report_bytes sizes (report_on (here_report ∷ there_report ∷ []))) < 2 ^ 64
unfolding le_bytes
both_small = omega arith

dump_all_infos-fills_example :
    dump_all_infos sizes groups
    ≡ ok (record {
      allocated = length (report_bytes sizes (report_on (here_report ∷ there_report ∷ [])));
      stored = report_bytes sizes (report_on (here_report ∷ there_report ∷ []));
    })
unfolding group_reports host_reports node_reports any_info
dump_all_infos-fills_example =
    dump_all_infos-fills sizes groups (report_on (here_report ∷ there_report ∷ [])) refl
      (report_on-IsReport _ (here_report-IsHostReport, (there_report-IsHostReport, tt))
        (omega arith))
      both_small

abbrev no_groups : Topology
no_groups = record { nb_groups = 0; group = λ i. new_group [] [] }

abbrev here_bytes : List ℕ
here_bytes = report_bytes sizes (report_on (here_report ∷ []))
