-- ===== src/Learning.antt =====
-- src/agml/math/Matrix.{h,cpp}, src/agml_node_clustering/NodeEM.cpp and NodeKMeans.cpp: a matrix and its
-- parts, and the steps of the clustering nodes. The floats and the vector routines on them are parameters.
mod Tests
pub mod Parts
pub mod Nearest
pub mod Cycle
pub mod Codebook
pub mod Evaluation
use lib_agml.Common.{
  ℕ, zero, suc, ◌+◌, ◌-◌, ◌*◌, ◌/◌, Bool, true, false, not, ◌&&◌, ◌||◌, List, [], ◌∷◌, ◌++◌, leb,
  ltb, ◌==◌, if◌then◌else◌, take, drop, Result, ok, err, division_by_zero, dimensions_disagree,
}

-- `Matrix`: `values`, its `data`, holds the `n` floats row by row. Who frees it is left out.
pub record Matrix (F : Type 0) : Type 0 where
  pub height : ℕ
  pub width : ℕ
  pub values : List F

-- `Matrix::part`, for sizes whose product is no overflow.
pub part : {F : Type 0} → Matrix F → ℕ → ℕ → Result (Matrix F)
part m i parts =
    if parts == 0
    then err division_by_zero
    else (let h = m.height / parts in
        if h == 0
        then (if leb m.height i
            then ok (record { height = 0; width = 0; values = [] })
            else ok (record {
              height = 1;
              width = m.width;
              values = take m.width (drop (i * m.width) m.values);
            }))
        else (let from = i * h in
            let rows = if i + 1 == parts then m.height - from else h in
            ok (record {
              height = rows;
              width = m.width;
              values = take (rows * m.width) (drop (from * m.width) m.values);
            })))

-- `operator+=` and `operator-=`, with the vector routine that each calls.
pub combine : {F : Type 0} → (List F → List F → List F) → Matrix F → Matrix F → Result (Matrix F)
combine vector_op a b =
    if not (a.width == b.width) || not (a.height == b.height)
    then err dimensions_disagree
    else ok (record a { values = vector_op a.values b.values })

-- The loop of `NodeKMeans::E_step` over the codewords, from number `k`: the distances to them, and the
-- least one so far with its number.
pub nearest_from : {F : Type 0} → (F → F → Bool) → List F → ℕ → F → ℕ → F × ℕ
nearest_from leq [] k min_e argmin = (min_e, argmin)
nearest_from leq (e ∷ es) k min_e argmin =
    let found = nearest_from leq es (suc k) e k in
    let same = nearest_from leq es (suc k) min_e argmin in if leq e min_e then found else same

-- The sums that `E_step` starts anew: of the vectors and of the number of them for each codeword, and of
-- the distances.
pub record Sums (V F : Type 0) : Type 0 where
  pub vectors : ℕ → V
  pub weights : ℕ → F
  pub error : F

-- What the sums are made with: `FLT_MAX`, the comparison, `+=` on rows and floats, `++`, and the distances
-- of a row to the codewords.
pub record Numbers (V F : Type 0) : Type 0 where
  pub flt_max : F
  pub leq : F → F → Bool
  pub add_row : V → V → V
  pub add_float : F → F → F
  pub increment : F → F
  pub distances : V → List F

-- The body of the loop of `E_step` over the rows.
unfoldable pub assign_row : {V F : Type 0} → Numbers V F → V → Sums V F → Sums V F
assign_row o x s =
    let best = nearest_from o.leq (o.distances x) 0 o.flt_max 0 in
    record {
      vectors = λ k. if best.1 == k then o.add_row (s.vectors k) x else s.vectors k;
      weights = λ k. if best.1 == k then o.increment (s.weights k) else s.weights k;
      error = o.add_float s.error best.0;
    }

pub assign_rows : {V F : Type 0} → Numbers V F → List V → Sums V F → Sums V F
assign_rows o [] s = s
assign_rows o (x ∷ xs) s = assign_rows o xs (assign_row o x s)

-- The counters of `NodeEM`, and which of its steps `process` runs.
pub record Turns : Type 0 where
  pub since_e_step : ℕ
  pub nb_e_step : ℕ
  pub nb_m_step : ℕ

-- `NodeEM::process` with training data, `sends` for `M`.
unfoldable pub process : ℕ → Bool → Turns → Turns
process sends has_outs t =
    if leb sends t.since_e_step || not has_outs
    then record { since_e_step = 0; nb_e_step = t.nb_e_step + 1; nb_m_step = t.nb_m_step }
    else record {
      since_e_step = t.since_e_step + 1;
      nb_e_step = t.nb_e_step;
      nb_m_step = t.nb_m_step + 1;
    }
