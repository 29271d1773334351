-- ===== src/Topology/Counters/Assign.antt =====
-- src/libagml_comm/topology/NodeGroup.cpp: assigning a group to a host keeps the counters of every group
-- equal to what its links reach, as long as local hosts come before remote ones.
use lib_agml.Common.{
  ℕ, ◌+◌, ◌%◌, ◌^◌, ◌≤◌, ◌<◌, ◌≡◌, ◌≢◌, ◌⊎◌, inl, inr, ap, sym, ◌∙◌, true, false, ◌&&◌, List, [],
  ◌∷◌, ◌++◌, ◌==◌, if◌then◌else◌, arith, Bool-cases, ==_iff,
}
use lib_agml.Topology.{
  Link, Group, GroupHost, Topology, is_self, reachable, get_nb_out, get_nb_in, host_share,
}
use lib_agml.Topology.Counters.{pick, share_total}

abbrev pub out_total : Topology → List Link → ℕ
out_total t [] = 0
out_total t (l ∷ ls) = get_nb_out t l + out_total t ls

abbrev pub in_total : Topology → List Link → ℕ
in_total t [] = 0
in_total t (l ∷ ls) = get_nb_in t l + in_total t ls

abbrev pub AllTo : ℕ → List Link → Type 0
AllTo i [] = Unit {0}
AllTo i (l ∷ ls) = (l.dst ≡ i) × AllTo i ls

abbrev pub AllFrom : ℕ → List Link → Type 0
AllFrom i [] = Unit {0}
AllFrom i (l ∷ ls) = (l.src ≡ i) × AllFrom i ls

-- Links stand at both ends: what group `i` has from `j` is what `j` has to `i`.
pub record IsLinked (t : Topology) : Type 0 where
  pub ins_here : (i : ℕ) → AllTo i (t.group i).ins
  pub outs_here : (i : ℕ) → AllFrom i (t.group i).outs
  pub paired :
      (i j : ℕ) → pick (λ l. l.src == j) (t.group i).ins ≡ pick (λ l. l.dst == i) (t.group j).outs

-- The counters of every group are the numbers of nodes that its links reach.
pub record IsCounted (t : Topology) : Type 0 where
  pub out_counted :
      (i : ℕ) → (t.group i).nb_out_nodes % 2 ^ 32 ≡ out_total t (t.group i).outs % 2 ^ 32
  pub in_counted : (i : ℕ) → (t.group i).nb_in_nodes % 2 ^ 32 ≡ in_total t (t.group i).ins % 2 ^ 32

abbrev count_along : Link → ℕ → ℕ → ℕ
count_along l nodes local_nodes =
    if l.only_local then reachable l local_nodes else reachable l nodes

-- A host of `k` nodes adds to a counter what it adds to the nodes in reach.
count_along-grown :
    (l : Link) (n p m : ℕ) (h : GroupHost)
    → 0 < h.nb_nodes
    → h.nb_nodes < 2 ^ 63
    → p ≤ n
    → (h.is_local ≡ false) ⊎ ((n ≡ 0) ⊎ (0 < p))
    → (is_self l ≡ false) ⊎ (m ≡ n)
    → count_along l (n + h.nb_nodes) (if h.is_local then p + h.nb_nodes else p)
      ≡ count_along l n p + host_share l m h
unfolding host_share
count_along-grown l n p m h pos small le first self = ground arith

-- Group `i` has taken host `h`: its own numbers of nodes have grown, every other group keeps its, and the
-- counters have moved as `add_host` moves them.
pub record Joins (t : Topology) (i : ℕ) (h : GroupHost) (t' : Topology) : Type 0 where
  pub nodes_here : (t'.group i).nb_nodes ≡ (t.group i).nb_nodes + h.nb_nodes
  pub local_here :
      (t'.group i).nb_local_nodes
      ≡ (if h.is_local then (t.group i).nb_local_nodes + h.nb_nodes else (t.group i).nb_local_nodes)
  pub nodes_there : (j : ℕ) → i ≢ j → (t'.group j).nb_nodes ≡ (t.group j).nb_nodes
  pub local_there : (j : ℕ) → i ≢ j → (t'.group j).nb_local_nodes ≡ (t.group j).nb_local_nodes
  pub ins_kept : (j : ℕ) → (t'.group j).ins ≡ (t.group j).ins
  pub outs_kept : (j : ℕ) → (t'.group j).outs ≡ (t.group j).outs
  pub hosts_grown :
      (j : ℕ)
      → (t'.group j).hosts ≡ (if i == j then (t.group j).hosts ++ h ∷ [] else (t.group j).hosts)
  pub local_grown :
      (j : ℕ)
      → (t'.group j).local_hosts ≡ (
          if (i == j) && h.is_local
          then (t.group j).local_hosts ++ h ∷ []
          else (t.group j).local_hosts)
  pub out_grown :
      (j : ℕ)
      → (t'.group j).nb_out_nodes % 2 ^ 32
        ≡ ((t.group j).nb_out_nodes
            + share_total (t.group j).nb_nodes h (pick (λ l. l.src == j) (t.group i).ins))
          % 2 ^ 32
  pub in_grown :
      (j : ℕ)
      → (t'.group j).nb_in_nodes % 2 ^ 32
        ≡ ((t.group j).nb_in_nodes
            + share_total (t.group j).nb_nodes h (pick (λ l. l.dst == j) (t.group i).outs))
          % 2 ^ 32

-- What an assignment needs to keep the counters: a host that brings nodes, few enough, and, if it is
-- local, no remote host before the group's first local nodes.
pub record IsInOrder (g : Group) (h : GroupHost) : Type 0 where
  pub brings : 0 < h.nb_nodes
  pub few : g.nb_nodes + h.nb_nodes < 2 ^ 63
  pub local_le : g.nb_local_nodes ≤ g.nb_nodes
  pub local_first : (h.is_local ≡ false) ⊎ ((g.nb_nodes ≡ 0) ⊎ (0 < g.nb_local_nodes))

module _ (t t' : Topology) (i : ℕ) (h : GroupHost) (joins : Joins t i h t') where
  open joins use {nodes_here, local_here, nodes_there, local_there}

  link_out_here :
      (l : Link) (j : ℕ)
      → IsInOrder (t.group i) h
      → l.src ≡ j
      → l.dst ≡ i
      → get_nb_out t' l ≡ get_nb_out t l + host_share l (t.group j).nb_nodes h
  unfolding get_nb_out
  link_out_here l j o e f =
      rw (nodes, locals)
        (count_along-grown l g.nb_nodes g.nb_local_nodes (t.group j).nb_nodes h at.brings
          (omega (arith, at.few)) at.local_le at.local_first (same_end (Bool-cases (is_self l))))
    where
      g : Group
      g = t.group l.dst

      nodes : (t'.group l.dst).nb_nodes ≡ g.nb_nodes + h.nb_nodes
      nodes = rw f nodes_here

      locals :
          (t'.group l.dst).nb_local_nodes
          ≡ (if h.is_local then g.nb_local_nodes + h.nb_nodes else g.nb_local_nodes)
      locals = rw f local_here

      at : IsInOrder g h
      at = rw f o

      same_end :
          (is_self l ≡ true) ⊎ (is_self l ≡ false)
          → (is_self l ≡ false) ⊎ ((t.group j).nb_nodes ≡ g.nb_nodes)
      same_end (inr b) = inl b
      same_end (inl b) = inr (ap (λ k. (t.group k).nb_nodes) (sym e ∙ (==_iff l.src l.dst).0 b))

  link_out_there : (l : Link) → l.dst ≢ i → get_nb_out t' l ≡ get_nb_out t l
  unfolding get_nb_out
  link_out_there l ne =
      rw (nodes_there l.dst (λ e. ne (sym e)), local_there l.dst (λ e. ne (sym e)))

  out_total-grown :
      (ls : List Link) (j : ℕ)
      → IsInOrder (t.group i) h
      → AllFrom j ls
      → out_total t' ls
        ≡ out_total t ls + share_total (t.group j).nb_nodes h (pick (λ l. l.dst == i) ls)
  out_total-grown [] j o a = omega arith
  out_total-grown (l ∷ ls) j o a = elim (Bool-cases (l.dst == i)) [
    | inl e ↦
        rw e (
          omega (arith, link_out_here l j o a.0 ((==_iff l.dst i).0 e), out_total-grown ls j o a.1))
    | inr e ↦
        rw e (omega (arith, link_out_there l (λ p. ground (arith, p)), out_total-grown ls j o a.1))
  ]

  link_in_here :
      (l : Link) (j : ℕ)
      → IsInOrder (t.group i) h
      → l.dst ≡ j
      → l.src ≡ i
      → get_nb_in t' l ≡ get_nb_in t l + host_share l (t.group j).nb_nodes h
  unfolding get_nb_in
  link_in_here l j o e f =
      rw (nodes, locals)
        (count_along-grown l g.nb_nodes g.nb_local_nodes (t.group j).nb_nodes h at.brings
          (omega (arith, at.few)) at.local_le at.local_first (same_end (Bool-cases (is_self l))))
    where
      g : Group
      g = t.group l.src

      nodes : (t'.group l.src).nb_nodes ≡ g.nb_nodes + h.nb_nodes
      nodes = rw f nodes_here

      locals :
          (t'.group l.src).nb_local_nodes
          ≡ (if h.is_local then g.nb_local_nodes + h.nb_nodes else g.nb_local_nodes)
      locals = rw f local_here

      at : IsInOrder g h
      at = rw f o

      same_end :
          (is_self l ≡ true) ⊎ (is_self l ≡ false)
          → (is_self l ≡ false) ⊎ ((t.group j).nb_nodes ≡ g.nb_nodes)
      same_end (inr b) = inl b
      same_end (inl b) =
          inr (ap (λ k. (t.group k).nb_nodes) (sym e ∙ sym ((==_iff l.src l.dst).0 b)))

  link_in_there : (l : Link) → l.src ≢ i → get_nb_in t' l ≡ get_nb_in t l
  unfolding get_nb_in
  link_in_there l ne = rw (nodes_there l.src (λ e. ne (sym e)), local_there l.src (λ e. ne (sym e)))

  in_total-grown :
      (ls : List Link) (j : ℕ)
      → IsInOrder (t.group i) h
      → AllTo j ls
      → in_total t' ls
        ≡ in_total t ls + share_total (t.group j).nb_nodes h (pick (λ l. l.src == i) ls)
  in_total-grown [] j o a = omega arith
  in_total-grown (l ∷ ls) j o a = elim (Bool-cases (l.src == i)) [
    | inl e ↦
        rw e
          (omega (arith, link_in_here l j o a.0 ((==_iff l.src i).0 e), in_total-grown ls j o a.1))
    | inr e ↦
        rw e (omega (arith, link_in_there l (λ p. ground (arith, p)), in_total-grown ls j o a.1))
  ]

  pub Joins-IsCounted : IsInOrder (t.group i) h → IsLinked t → IsCounted t → IsCounted t'
  Joins-IsCounted o linked c = record {
    out_counted = λ j. rw (joins.outs_kept j) (
        omega (
          arith,
          joins.out_grown j,
          c.out_counted j,
          out_total-grown (t.group j).outs j o (linked.outs_here j),
          ap (share_total (t.group j).nb_nodes h) (linked.paired i j),
        ));
    in_counted = λ j. rw (joins.ins_kept j) (
        omega (
          arith,
          joins.in_grown j,
          c.in_counted j,
          in_total-grown (t.group j).ins j o (linked.ins_here j),
          ap (share_total (t.group j).nb_nodes h) (linked.paired j i),
        ));
  }
