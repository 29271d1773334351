-- ===== src/Reader/Run/Built.antt =====
-- src/libagml_comm/topology/TopologyReader.cpp and Topology.cpp: the topology that a model text makes, with its links,
-- counters and nodes.
use mathlib.Core.Path.{subst}
use lib_agml.Common.{ℕ, zero, suc, ◌≡◌, inl, inr, sym, List, [], ◌∷◌, ok, Bool-cases, >>=-ok}
use lib_agml.Str.{str_before, str_trim}
use lib_agml.Topology.{Topology}
use lib_agml.Topology.Counters.Assign.{IsLinked}
use lib_agml.Topology.Counters.Build.{empty_topology}
use lib_agml.Topology.Fit.{IsBuilt}
use lib_agml.Topology.Fit.Groups.{empty_topology-IsBuilt}
use lib_agml.Reader.{same_text, parse_statement}
use lib_agml.Reader.Run.{Site, World, connect_needed, read_line, read_each, connect_all, read_model}
use lib_agml.Reader.Run.Statements.{connect_needed-IsBuilt, execute-IsBuilt}
use lib_agml.Reader.Run.Assignments.{kept}

read_line-IsBuilt :
    (s : Site) (w v : World) (l : List ℕ)
    → read_line s w l ≡ ok v
    → IsBuilt w.topology
    → IsBuilt v.topology
unfolding read_line
read_line-IsBuilt s w v l e b =
    let (code, ec, e1) = >>=-ok (str_before l (35 ∷ [])) _ v e in
    let (line, el, e2) = >>=-ok (str_trim code) _ v e1 in
    elim (Bool-cases (same_text line [])) [
      | inl y ↦ kept w v (rw y at e2) b
      | inr n ↦
          let (st, es, ev) = >>=-ok (parse_statement line) _ v (rw n at e2) in
          execute-IsBuilt s w v st ev b
    ]

read_each-IsBuilt :
    (s : Site) (w v : World) (ls : List (List ℕ))
    → read_each s w ls ≡ ok v
    → IsBuilt w.topology
    → IsBuilt v.topology
unfolding read_each
read_each-IsBuilt s w v [] e b = kept w v e b
read_each-IsBuilt s w v (l ∷ ls) e b =
    let (u, eu, ev) = >>=-ok (read_line s w l) _ v e in
    read_each-IsBuilt s u v ls ev (read_line-IsBuilt s w u l eu b)

connect_all-IsBuilt :
    (s : Site) (w v : World) (i left : ℕ)
    → connect_all s w i left ≡ ok v
    → IsBuilt w.topology
    → IsBuilt v.topology
unfolding connect_all
connect_all-IsBuilt s w v i zero e b = kept w v e b
connect_all-IsBuilt s w v i (suc left) e b =
    let (u, eu, ev) = >>=-ok (connect_needed s w i) _ v e in
    connect_all-IsBuilt s u v (suc i) left ev (connect_needed-IsBuilt s w u i eu b).1

read_model-IsBuilt :
    (s : Site) (w v : World) (ls : List (List ℕ))
    → read_model s w ls ≡ ok v
    → IsBuilt w.topology
    → IsBuilt v.topology
unfolding read_model
read_model-IsBuilt s w v ls e b =
    let (u, eu, ev) = >>=-ok (read_each s w ls) _ v e in
    connect_all-IsBuilt s u v 0 u.topology.nb_groups ev (read_each-IsBuilt s w u ls eu b)

-- Whatever a model text says, when it is read into an empty topology without an error, every link stands at both of
-- its ends: the links that a group has out to another are those that the other has in from it, in the same order.
pub read_model-IsLinked :
    (s : Site) (w v : World) (ls : List (List ℕ))
    → w.topology ≡ empty_topology
    → read_model s w ls ≡ ok v
    → IsLinked v.topology
read_model-IsLinked s w v ls empty e =
    (read_model-IsBuilt s w v ls e (subst IsBuilt (sym empty) empty_topology-IsBuilt)).linked
