-- ===== src/Topology/Locals.antt =====
-- src/libagml_comm/topology/NodeGroup.cpp: whether a group has local neighbours.
use lib_agml.Common.{
  ℕ, ◌+◌, ◌≡◌, ◌≢◌, refl, inl, inr, Bool, true, false, not, ◌&&◌, List, [], ◌∷◌, ltb, if◌then◌else◌,
  arith, Bool-cases,
}
use lib_agml.Topology.{Topology, Link, is_self, get_nb_local_out}

-- `NodeGroup::has_local_out` over the links out.
unfoldable pub has_local_out : Topology → List Link → Bool
has_local_out t [] = false
has_local_out t (l ∷ ls) =
    let rest = has_local_out t ls in
    let n = (t.group l.dst).nb_local_nodes in
    if not l.allow_self && is_self l && ltb 1 n then true else if ltb 0 n then true else rest

-- The numbers of local nodes that the links reach.
abbrev pub local_reach : Topology → List Link → ℕ
local_reach t [] = 0
local_reach t (l ∷ ls) = get_nb_local_out t l + local_reach t ls

-- A group of which `has_local_out` denies local neighbours has none.
pub has_local_out_denies :
    (t : Topology) (ls : List Link) → has_local_out t ls ≡ false → local_reach t ls ≡ 0
unfolding has_local_out get_nb_local_out
has_local_out_denies t [] h = refl
has_local_out_denies t (l ∷ ls) h = elim (Bool-cases (ltb 0 (t.group l.dst).nb_local_nodes)) [
  | inl b ↦
      absurd (affirmed (not l.allow_self && is_self l && ltb 1 (t.group l.dst).nb_local_nodes) b h)
  | inr b ↦ rw (empty b, has_local_out_denies t ls (denied b h)) refl
]
  where
    n : ℕ
    n = (t.group l.dst).nb_local_nodes

    empty : ltb 0 n ≡ false → n ≡ 0
    empty b = ground arith

    affirmed :
        (a : Bool)
        → ltb 0 n ≡ true
        → (if a then true else if ltb 0 n then true else has_local_out t ls) ≢ false
    affirmed true b h = cc
    affirmed false b h = ground arith

    denied : ltb 0 n ≡ false → has_local_out t (l ∷ ls) ≡ false → has_local_out t ls ≡ false
    denied b h = ground arith

-- Of a group with a single local node, whose only link goes to itself and leaves out the sender, it
-- affirms local neighbours that are not there.
pub has_local_out_alone :
    (t : Topology) (l : Link)
    → l.allow_self ≡ false
    → is_self l ≡ true
    → (t.group l.dst).nb_local_nodes ≡ 1
    → (has_local_out t (l ∷ []) ≡ true) × (local_reach t (l ∷ []) ≡ 0)
unfolding has_local_out get_nb_local_out
has_local_out_alone t l a s n = (rw (n, a, s) refl, rw (n, a, s) refl)
