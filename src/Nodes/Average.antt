-- ===== src/Nodes/Average.antt =====
-- src/agml/nodes/basic/NodeAvg.cpp: nodes that average their data by giving away halves of what they have.
use lib_agml.Common.{
  ℕ, Bool, true, false, Option, none, some, ◌==◌, if◌then◌else◌, Result, Error, ok, err,
}

-- The matrices, the floats and what the code does with them; `is_empty` is a null `data`.
pub record Arithmetic (V W : Type 0) : Type 0 where
  pub is_empty : V → Bool
  pub zeros_like : V → V
  pub add : V → V → Result V
  pub assign : V → V → Result V
  pub halve : V → V
  pub double : V → V
  pub divide : V → W → V
  pub zero_weight : W
  pub one_weight : W
  pub add_weight : W → W → W
  pub halve_weight : W → W
  pub double_weight : W → W

-- `NodeAvg`, with whether its thread has it attached.
pub record Average (V W : Type 0) : Type 0 where
  pub data_matrix : V
  pub sum : V
  pub weight : W
  pub attached : Bool

-- The messages that it tells apart.
pub data Parcel (V W : Type 0) : Type 0 where
  training_data : V → Parcel V W
  gradient : V → W → Parcel V W
  other : Parcel V W

module _ {V W : Type 0} (o : Arithmetic V W) where
  -- `init_sum_weight`, for a sum of the size of `like`
  abbrev pub init_sum_weight : V → Average V W → Average V W
  init_sum_weight like a = record a {
    sum = o.zeros_like like;
    weight = o.zero_weight;
    attached = true;
  }

  abbrev pub with_sum : V → Average V W → Average V W
  with_sum like a = if o.is_empty a.sum then init_sum_weight like a else a

  -- `init`: the node, and the exception that it throws, if any.
  pub init : Average V W → Average V W × Option Error
  init a =
      if o.is_empty a.data_matrix
      then (record a { attached = false }, none)
      else (let b = with_sum a.data_matrix a in
          elim (o.add b.sum b.data_matrix) [
            | err e ↦ (b, some e)
            | ok s ↦ (record b { sum = s; weight = o.add_weight b.weight o.one_weight }, none)
          ])

  -- `update`
  pub update : Average V W → Average V W × Option Error
  update a = elim (o.assign a.data_matrix a.sum) [
    | err e ↦ (a, some e)
    | ok x ↦ (record a { data_matrix = o.divide x a.weight }, none)
  ]

  abbrev halved : Average V W → Average V W
  halved a = record a { sum = o.halve a.sum; weight = o.halve_weight a.weight }

  abbrev doubled : Average V W → Average V W
  doubled a = record a { sum = o.double a.sum; weight = o.double_weight a.weight }

  -- What `process` does when `send` brings its message to a neighbour, when it answers that it did not, and when
  -- it throws: then the half is lost.
  pub share : Result Bool → Average V W → Average V W × Result (Option (V × W))
  share (ok true) a = (halved a, ok (some (o.halve a.sum, o.halve_weight a.weight)))
  share (ok false) a = (doubled (halved a), ok none)
  share (err e) a = (halved a, err e)

  -- `process` of a node with `outs` neighbours, with what `send` to one of them answers.
  pub process : ℕ → Result Bool → Average V W → Average V W × Result (Option (V × W))
  process outs sending a = if outs == 0 then (a, ok none) else share sending a

  -- `on_receive`
  pub receive_gradient : V → W → Average V W → Average V W × Option Error
  receive_gradient s_in w_in a =
      let b = with_sum s_in a in
      elim (o.add b.sum s_in) [
        | err e ↦ (b, some e)
        | ok s ↦ update (record b { sum = s; weight = o.add_weight b.weight w_in })
      ]

  pub on_receive : Parcel V W → Average V W → Average V W × Option Error
  on_receive (training_data x) a = init (record a { data_matrix = x })
  on_receive (gradient s w) a = receive_gradient s w a
  on_receive other a = (a, none)
