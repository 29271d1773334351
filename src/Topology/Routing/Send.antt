-- ===== src/Topology/Routing/Send.antt =====
-- src/libagml_comm/topology/NodeGroup.cpp and src/libagml_comm/common/com.cpp: every node that a group
-- counts is reached by its number, and every number that a link counts is a neighbour.
use lib_agml.Common.{
  ℕ, zero, suc, ◌+◌, ◌-◌, ◌%◌, ◌^◌, ◌≤◌, ◌<◌, ◌≡◌, refl, ap, sym, ◌∙◌, inl, inr, false, Option,
  none, some, List, [], ◌∷◌, ◌++◌, ltb, if◌then◌else◌, length, get_elem?, arith, Result, Error, ok,
  err, not_connected, neighbor_overflow, Bool-cases, lt→ltb, lt→leb, le→ltb,
}
use lib_agml.Topology.{Group, GroupHost, Topology, Link, ids_from, get_nb_out, get_out_node_id}
use lib_agml.Topology.Counters.Assign.{out_total}
use lib_agml.Topology.Nodes.{node_ids, AllMeasured, remote_total, IsPlaced}
use lib_agml.Topology.Routing.{
  local_node, get_local_node, address, decode_local_node, Machine, Delivery, sends, send, caught,
  send_along, send_out,
}
use lib_agml.Topology.Routing.Address.{address_halves}

get_elem?-append_left :
    (xs ys : List ℕ) (i : ℕ) → i < length xs → get_elem? (xs ++ ys) i ≡ get_elem? xs i
get_elem?-append_left [] ys i h = absurd (omega arith)
get_elem?-append_left (x ∷ xs) ys zero h = refl
get_elem?-append_left (x ∷ xs) ys (suc i) h = get_elem?-append_left xs ys i (omega arith)

get_elem?-append_right :
    (xs ys : List ℕ) (i k : ℕ) → i ≡ length xs + k → get_elem? (xs ++ ys) i ≡ get_elem? ys k
get_elem?-append_right [] ys i k h = ap (get_elem? ys) (omega arith)
get_elem?-append_right (x ∷ xs) ys zero k h = absurd (omega arith)
get_elem?-append_right (x ∷ xs) ys (suc i) k h = get_elem?-append_right xs ys i k (omega arith)

get_elem?-ids_from : (a n i : ℕ) → i < n → get_elem? (ids_from a n) i ≡ some (a + i)
unfolding ids_from
get_elem?-ids_from a zero i h = absurd (omega arith)
get_elem?-ids_from a (suc n) zero h = ap some (omega arith)
get_elem?-ids_from a (suc n) (suc i) h =
    get_elem?-ids_from (suc a) n i (omega arith) ∙ ap some (omega arith)

local_node-get_elem? :
    (hs : List GroupHost) (id n : ℕ)
    → AllMeasured hs
    → get_elem? (node_ids hs) id ≡ some n
    → local_node hs id ≡ ok (some n)
unfolding local_node
local_node-get_elem? [] id n m e = absurd (cc)
local_node-get_elem? (h ∷ hs) id n m e = elim (Bool-cases (ltb id h.nb_nodes)) [
  | inl b ↦ rw b (ground (arith, get_elem?-append_left h.nodes (node_ids hs) id, m.0))
  | inr b ↦ rw b (
      local_node-get_elem? hs (id - h.nb_nodes) n m.1 (
        sym
          (get_elem?-append_right h.nodes (node_ids hs) id (id - h.nb_nodes) (ground (arith, m.0)))
        ∙ e))
]

-- The node of every local id is found, and is the node of that id.
pub get_local_node_placed :
    (g : Group) (id : ℕ) → IsPlaced g → id < g.nb_local_nodes → get_local_node g id ≡ ok (some id)
unfolding get_local_node
get_local_node_placed g id v h = local_node-get_elem? g.local_hosts id id v.measured (
    ap (λ t. get_elem? t id) v.ids
    ∙ get_elem?-ids_from 0 g.nb_local_nodes id h
    ∙ ap some (omega arith))

-- A node's address is decoded to the node, in a placed group of a topology whose groups and local nodes
-- can be numbered by an `int`.
pub decode-address :
    (t : Topology) (group id : ℕ)
    → group < t.nb_groups
    → t.nb_groups ≤ 2 ^ 31
    → id < (t.group group).nb_local_nodes
    → (t.group group).nb_local_nodes ≤ 2 ^ 31
    → IsPlaced (t.group group)
    → decode_local_node t (address group id) ≡ ok id
unfolding decode_local_node
decode-address t group id gb gs ib is v =
    let (hi, lo) = address_halves group id (omega arith) (omega arith) in
    rw (
      hi,
      lo,
      lt→leb _ _ small_id,
      lt→leb _ _ small_group,
      lt→leb _ _ gb,
      lt→leb _ _ ib,
      get_local_node_placed (t.group group) id v ib,
    )
  where
    small_id : id < 2 ^ 31
    small_id = omega arith

    small_group : group < 2 ^ 31
    small_group = omega arith

-- A place in the remote part of a group: a host of another machine and a number below its count.
pub record RemotePlace (hs : List GroupHost) (k : ℕ) : Type 0 where
  pub before : List GroupHost
  pub host : GroupHost
  pub after : List GroupHost
  pub index : ℕ
  pub stands : hs ≡ before ++ host ∷ after
  pub is_remote : host.is_local ≡ false
  pub below : index < host.nb_nodes
  pub counted : k ≡ remote_total before + index

-- What a remote host makes of a message for its node `d`.
abbrev pub over : Machine → ℕ → Option ℕ → ℕ → Result Delivery
over m i none d = err Error.bad_access
over m i (some dh) d = if m.is_connected dh then ok (sends dh (address i d)) else err not_connected

shift_place :
    (h : GroupHost) (hs : List GroupHost) (k k' : ℕ)
    → k ≡ (if h.is_local then 0 else h.nb_nodes) + k'
    → RemotePlace hs k'
    → RemotePlace (h ∷ hs) k
shift_place h hs k k' e p = record {
  before = h ∷ p.before;
  host = p.host;
  after = p.after;
  index = p.index;
  stands = ap (λ t. h ∷ t) p.stands;
  is_remote = p.is_remote;
  below = p.below;
  counted = omega (arith, p.counted);
}

-- A link out of a group stands at `k` when the links before it count `k` nodes less its own number.
send_along-skips :
    (m : Machine) (t : Topology) (before after : List Link) (l : Link) (src thread k : ℕ)
    → k < get_nb_out t l
    → send_along m t (before ++ l ∷ after) src thread (out_total t before + k)
      ≡ caught (send m t l.dst thread (get_out_node_id l src k % 2 ^ 32))
unfolding send_along
send_along-skips m t [] after l src thread k h =
    ap (send_along m t (l ∷ after) src thread) zero_in ∙ rw (lt→ltb _ _ h) refl
  where
    zero_in : 0 + k ≡ k
    zero_in = omega arith
send_along-skips m t (x ∷ before) after l src thread k h = rw (le→ltb _ _ skip) (
    ap (send_along m t (before ++ l ∷ after) src thread) less
    ∙ send_along-skips m t before after l src thread k h)
  where
    skip : get_nb_out t x ≤ out_total t (x ∷ before) + k
    skip = omega arith

    less : out_total t (x ∷ before) + k - get_nb_out t x ≡ out_total t before + k
    less = omega arith

send_along_far :
    (m : Machine) (t : Topology) (ls : List Link) (src thread k : ℕ)
    → out_total t ls ≤ k
    → send_along m t ls src thread k ≡ err neighbor_overflow
unfolding send_along
send_along_far m t [] src thread k h = refl
send_along_far m t (l ∷ ls) src thread k h =
    rw (le→ltb _ _ (skip)) (send_along_far m t ls src thread (k - get_nb_out t l) (omega arith))
  where
    skip : get_nb_out t l ≤ k
    skip = omega arith

-- For `send_out`, the number `k` past the neighbours of the links before a link, 32 bits in all, stands for what
-- `get_out_node_id` of the link gives for `k`: the message goes to the node of that number, taken as 32 bits, any
-- exception on the way but a wild access is reported as a failure, and the message is stamped with the sender's
-- address.
pub send_out-skips :
    (m : Machine) (t : Topology) (i src k : ℕ) (before after : List Link) (l : Link)
    → (t.group i).outs ≡ before ++ l ∷ after
    → out_total t before + k < 2 ^ 32
    → k < get_nb_out t l
    → send_out m t i src (out_total t before + k) ≡ (
      caught (send m t l.dst (m.thread_of i src) (get_out_node_id l src k % 2 ^ 32)),
      address i src,
    )
unfolding send_out
send_out-skips m t i src k before after l e small h =
    ap (λ ls. (send_along m t ls src (m.thread_of i src) (out_total t before + k), address i src)) e
    ∙ ap (λ d. (d, address i src)) (send_along-skips m t before after l src (m.thread_of i src) k h)

-- A neighbour number from the number of nodes in reach of the sender's links on raises the overflow.
send_out_far :
    (m : Machine) (t : Topology) (i src k : ℕ)
    → out_total t (t.group i).outs ≤ k
    → send_out m t i src k ≡ (err neighbor_overflow, address i src)
unfolding send_out
send_out_far m t i src k h =
    ap (λ d. (d, address i src)) (send_along_far m t (t.group i).outs src (m.thread_of i src) k h)
