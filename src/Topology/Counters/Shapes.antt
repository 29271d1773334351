-- ===== src/Topology/Counters/Shapes.antt =====
-- src/libagml_comm/topology/NodeGroup.cpp: what the counters of a group depend on of its hosts, which ones are of this
-- machine and how many nodes they have.
use lib_agml.Common.{
  ℕ, ◌+◌, ◌^◌, ◌≤◌, ◌<◌, ◌≡◌, ◌⊎◌, inl, inr, refl, ap, ◌∙◌, Bool, true, false, List, [], ◌∷◌, ◌++◌,
  if◌then◌else◌, arith, ◌||◌, sym, Option, none, some, ok, bad_access, or_fail, ◌>>=◌, Bool-cases,
  >>=-ok, ok-injective,
}
use mathlib.Core.Path.{ap₂}
use lib_agml.Topology.{GroupHost}
use lib_agml.Topology.Hosts.{DataHosts, connect_host, connect_hosts, connect_data_host, connected}

-- A host of this machine or of another one, and its nodes.
abbrev pub Shape : Type 0
Shape = Bool × ℕ

abbrev pub shape : GroupHost → Shape
shape h = (h.is_local, h.nb_nodes)

abbrev pub shapes : List GroupHost → List Shape
shapes [] = []
shapes (h ∷ hs) = shape h ∷ shapes hs

abbrev pub nodes_in : List Shape → ℕ
nodes_in [] = 0
nodes_in (s ∷ ss) = s.1 + nodes_in ss

abbrev pub locals_in : List Shape → ℕ
locals_in [] = 0
locals_in (s ∷ ss) = (if s.0 then s.1 else 0) + locals_in ss

abbrev pub AllBring : List Shape → Type 0
AllBring [] = Unit {0}
AllBring (s ∷ ss) = (0 < s.1) × AllBring ss

-- The first host is of this machine, if any is.
abbrev pub LeadsLocal : List Shape → Type 0
LeadsLocal [] = Unit {0}
LeadsLocal (s ∷ ss) = (s.0 ≡ true) ⊎ (locals_in ss ≡ 0)

-- Hosts that all bring nodes, few enough, the first of them of this machine if any is.
pub record IsFit (ss : List Shape) : Type 0 where
  pub brings : AllBring ss
  pub few : nodes_in ss < 2 ^ 63
  pub leads : LeadsLocal ss

pub shapes-append : (hs ks : List GroupHost) → shapes (hs ++ ks) ≡ shapes hs ++ shapes ks
shapes-append [] ks = refl
shapes-append (h ∷ hs) ks = ap (λ t. shape h ∷ t) (shapes-append hs ks)

pub nodes_in-append : (ss ts : List Shape) → nodes_in (ss ++ ts) ≡ nodes_in ss + nodes_in ts
nodes_in-append [] ts = omega arith
nodes_in-append (s ∷ ss) ts = omega (arith, nodes_in-append ss ts)

pub locals_in-append : (ss ts : List Shape) → locals_in (ss ++ ts) ≡ locals_in ss + locals_in ts
locals_in-append [] ts = omega arith
locals_in-append (s ∷ ss) ts = omega (arith, locals_in-append ss ts)

pub locals_in_le : (ss : List Shape) → locals_in ss ≤ nodes_in ss
locals_in_le [] = omega arith
locals_in_le (s ∷ ss) = ground (arith, locals_in_le ss)

AllBring-split : (ss : List Shape) (s : Shape) → AllBring (ss ++ (s ∷ [])) → AllBring ss × (0 < s.1)
AllBring-split [] s b = (tt, b.0)
AllBring-split (r ∷ ss) s b = let (front, last) = AllBring-split ss s b.1 in ((b.0, front), last)

LeadsLocal-front : (ss : List Shape) (s : Shape) → LeadsLocal (ss ++ (s ∷ [])) → LeadsLocal ss
LeadsLocal-front [] s l = tt
LeadsLocal-front (r ∷ ss) s (inl e) = inl e
LeadsLocal-front (r ∷ ss) s (inr e) = inr (omega (arith, locals_in-append ss (s ∷ [])))

-- Hosts are fit as long as more come.
pub IsFit-front : (ss : List Shape) (s : Shape) → IsFit (ss ++ (s ∷ [])) → IsFit ss
IsFit-front ss s f = record {
  brings = (AllBring-split ss s f.brings).0;
  few = omega (arith, f.few, nodes_in-append ss (s ∷ []));
  leads = LeadsLocal-front ss s f.leads;
}

-- What the last of some fit hosts brings, and that there were local nodes before it, or no nodes at all, if it
-- is of this machine.
pub record IsNext (ss : List Shape) (s : Shape) : Type 0 where
  pub brings : 0 < s.1
  pub few : nodes_in ss + s.1 < 2 ^ 63
  pub local_first : (s.0 ≡ false) ⊎ ((nodes_in ss ≡ 0) ⊎ (0 < locals_in ss))

local_before :
    (ss : List Shape) (s : Shape)
    → AllBring (ss ++ (s ∷ []))
    → LeadsLocal (ss ++ (s ∷ []))
    → (s.0 ≡ false) ⊎ ((nodes_in ss ≡ 0) ⊎ (0 < locals_in ss))
local_before [] s b l = inr (inl refl)
local_before (r ∷ ss) s b (inl e) = inr (inr (ground (arith, b.0, e)))
local_before (r ∷ ss) (true, n) b (inr e) =
    absurd
      (omega (arith, e, locals_in-append ss ((true, n) ∷ []), (AllBring-split ss (true, n) b.1).1))
local_before (r ∷ ss) (false, n) b (inr e) = inl refl

pub IsFit-last : (ss : List Shape) (s : Shape) → IsFit (ss ++ (s ∷ [])) → IsNext ss s
IsFit-last ss s f = record {
  brings = (AllBring-split ss s f.brings).1;
  few = omega (arith, f.few, nodes_in-append ss (s ∷ []));
  local_first = local_before ss s f.brings f.leads;
}

connect_data_host-shape :
    (d : DataHosts) (dh : ℕ) (h : GroupHost)
    → h.is_local ≡ false
    → shape (connect_data_host d dh h).1 ≡ shape h
unfolding connect_data_host
connect_data_host-shape d dh h e = ground arith

not_local : (a b : Bool) → (a || b) ≡ false → b ≡ false
not_local true b e = cc
not_local false b e = e

connected_now :
    (d : DataHosts) (h : GroupHost) (o : Option ℕ) (r : DataHosts × GroupHost)
    → h.is_local ≡ false
    → (or_fail o bad_access >>= λ dh. ok (connect_data_host d dh h)) ≡ ok r
    → shape r.1 ≡ shape h
connected_now d h none r e x = cc
connected_now d h (some dh) r e x =
    ap (λ p. shape p.1) (ok-injective (sym x)) ∙ connect_data_host-shape d dh h e

connect_host-shape :
    (d : DataHosts) (h : GroupHost) (r : DataHosts × GroupHost)
    → connect_host d h ≡ ok r
    → shape r.1 ≡ shape h
unfolding connect_host
connect_host-shape d h r e = elim (Bool-cases (connected d h || h.is_local)) [
  | inl b ↦ let k : ok (d, h) ≡ ok r = rw b at e in ap (λ p. shape p.1) (ok-injective (sym k))
  | inr b ↦ connected_now d h h.host r (not_local (connected d h) h.is_local b) (rw b at e)
]

-- Opening connections changes neither which hosts are of this machine nor their nodes.
pub connect_hosts-shapes :
    (d : DataHosts) (hs : List GroupHost) (r : DataHosts × List GroupHost)
    → connect_hosts d hs ≡ ok r
    → shapes r.1 ≡ shapes hs
unfolding connect_hosts
connect_hosts-shapes d [] r e = ap (λ p. shapes p.1) (ok-injective (sym e))
connect_hosts-shapes d (h ∷ hs) r e =
    let (a, ea, ra) = >>=-ok (connect_host d h) _ r e in
    let (b, eb, rb) = >>=-ok (connect_hosts a.0 hs) _ r ra in
    ap (λ p. shapes p.1) (ok-injective (sym rb))
    ∙ ap₂ ◌∷◌ (connect_host-shape d h a ea) (connect_hosts-shapes a.0 hs b eb)
