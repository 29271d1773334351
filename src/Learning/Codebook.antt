-- ===== src/Learning/Codebook.antt =====
-- src/agml_node_clustering/NodeKMeans.cpp: the state of a clustering node, its steps and what it receives.
use lib_agml.Common.{
  Result, Error, ok, err, dimensions_disagree, not, ℕ, ◌+◌, Bool, true, ◌||◌, Option, none, some,
  List, [], ◌∷◌, ltb, ◌==◌, if◌then◌else◌,
}
use lib_agml.Learning.{Numbers, Sums, assign_rows}

-- What the steps use besides what the assignment of rows does: the arithmetic of rows and floats, and the
-- whether the sizes of the matrices of two sums agree, and the properties `epsilon` and, in `epsilon_t`, how often the error may stay.
pub record Scale (V F : Type 0) : Type 0 where
  pub numbers : Numbers V F
  pub zero_row : V
  pub zero_float : F
  pub sub_row : V → V → V
  pub sub_float : F → F → F
  pub divide_row : V → F → V
  pub divide_float : F → F → F
  pub halve_row : V → V
  pub halve_float : F → F
  pub double_row : V → V
  pub double_float : F → F
  pub less : F → F → Bool
  pub rows_fit : Sums V F → Sums V F → Bool
  pub weights_fit : Sums V F → Sums V F → Bool
  pub least_weight : F
  pub epsilon : F
  pub epsilon_t : ℕ

-- `NodeKMeans`: `S`, `w` and `s_MSE`, and the same of the last E step.
pub record KMeans (V F : Type 0) : Type 0 where
  pub nb_codewords : ℕ
  pub codebook : ℕ → V
  pub kept : Sums V F
  pub latest : Sums V F
  pub w0 : F
  pub mse : F
  pub mse_old : F
  pub tepsilon : ℕ
  pub finished : Bool

-- What it tells its neighbours: `AGML_FINISH`, or its sums with `w0`.
pub data Telling (V F : Type 0) : Type 0 where
  tell_end : Telling V F
  tell_sums : Sums V F → F → Telling V F

module _ {V F : Type 0} (o : Scale V F) where
  abbrev map_sums : (V → V) → (F → F) → Sums V F → Sums V F
  map_sums on_row on_float s = record {
    vectors = λ k. on_row (s.vectors k);
    weights = λ k. on_float (s.weights k);
    error = on_float s.error;
  }

  abbrev zip_sums : (V → V → V) → (F → F → F) → Sums V F → Sums V F → Sums V F
  zip_sums on_row on_float s t = record {
    vectors = λ k. on_row (s.vectors k) (t.vectors k);
    weights = λ k. on_float (s.weights k) (t.weights k);
    error = on_float s.error t.error;
  }

  abbrev no_sums : Sums V F
  no_sums = record { vectors = λ k. o.zero_row; weights = λ k. o.zero_float; error = o.zero_float }

  abbrev add_sums : Sums V F → Sums V F → Sums V F
  add_sums = zip_sums o.numbers.add_row o.numbers.add_float

  -- `init_codebook`, on the rows with the codewords drawn for them
  pub draw_rows : List (V × ℕ) → Sums V F → Sums V F
  draw_rows [] s = s
  draw_rows (r ∷ rs) s = draw_rows rs (record s {
    vectors = λ k. if r.1 == k then o.numbers.add_row (s.vectors k) r.0 else s.vectors k;
    weights = λ k. if r.1 == k then o.numbers.increment (s.weights k) else s.weights k;
  })

  pub init_codebook : List (V × ℕ) → KMeans V F → KMeans V F
  init_codebook rows n =
      let drawn = draw_rows rows no_sums in
      record n { latest = drawn; kept = add_sums no_sums drawn }

  -- `the_end`, but for the file that it writes.
  abbrev the_end : KMeans V F → KMeans V F
  the_end n = record n { finished = true }

  -- `check_termination`: the node, and what it tells each of its neighbours, if anything.
  pub check_termination : KMeans V F → KMeans V F × Option (Telling V F)
  check_termination n =
      let t = if o.less (o.sub_float n.mse_old n.mse) o.epsilon then n.tepsilon + 1 else 0 in
      let n' = record n { tepsilon = t } in
      if ltb t o.epsilon_t then (n', none) else (the_end n', some tell_end)

  -- `compute_codebook`
  pub recompute : KMeans V F → KMeans V F
  recompute n = record n {
    mse_old = n.mse;
    mse = o.divide_float n.kept.error n.w0;
    codebook = λ k.
        if ltb k n.nb_codewords
        then o.divide_row (n.kept.vectors k) (n.kept.weights k)
        else n.codebook k;
  }

  pub compute_codebook : KMeans V F → KMeans V F × Option (Telling V F)
  compute_codebook n =
      let n' = recompute n in
      if o.less o.zero_float o.epsilon then check_termination n' else (n', none)

  -- `E_step` with data and a codebook; the distances of a row depend on the codebook of the node.
  pub e_step : ((ℕ → V) → V → List F) → List V → KMeans V F → KMeans V F × Option (Telling V F)
  e_step distances rows n =
      let c = compute_codebook n in
      let left = zip_sums o.sub_row o.sub_float c.0.kept c.0.latest in
      let found =
        assign_rows (record o.numbers { distances = distances c.0.codebook }) rows no_sums in
      (record c.0 { kept = add_sums left found; latest = found }, c.1)

  -- `M_step` of a node with `outs` neighbours and sums, with what `send` to one of them answers; when it throws, the
  -- halves that were to be sent are lost.
  pub m_step : ℕ → Result Bool → KMeans V F → KMeans V F × Result (Option (Telling V F))
  m_step outs sending n =
      if outs == 0 || o.less n.w0 o.least_weight
      then (n, ok none)
      else (let h = record n {
        kept = map_sums o.halve_row o.halve_float n.kept;
        w0 = o.halve_float n.w0;
      } in
          elim sending [
            | err e ↦ (h, err e)
            | ok accepts ↦ if accepts then (h, ok (some (tell_sums h.kept h.w0))) else (
              record h {
                kept = map_sums o.double_row o.double_float h.kept;
                w0 = o.double_float h.w0;
              },
              ok none,
            )
          ])

  -- `on_receive` on the channels of the codebook and of the end; the rest is left to `NodeEM`.
  -- The errors are added before the vectors and the weights, of which each throws where the sizes disagree, as they do
  -- where the node has none.
  pub on_telling : Telling V F → KMeans V F → KMeans V F × Option Error
  on_telling (tell_sums s w0) n =
      let a = add_sums n.kept s in
      if not (o.rows_fit n.kept s)
      then (record n { kept = record n.kept { error = a.error } }, some dimensions_disagree)
      else if not (o.weights_fit n.kept s)
      then (
        record n { kept = record n.kept { error = a.error; vectors = a.vectors } },
        some dimensions_disagree,
      )
      else (record n { kept = a; w0 = o.numbers.add_float n.w0 w0 }, none)
  on_telling tell_end n = (the_end n, none)
