-- ===== src/Learning/Evaluation.antt =====
-- src/agml_node_clustering/eval/NodeEvalKMeans.cpp: the evaluation of a codebook, on the numbers of the clustering
-- nodes.
use lib_agml.Common.{
  ℕ, suc, ◌≡◌, refl, ap, ◌∙◌, Bool, Option, none, some, List, [], ◌∷◌, if◌then◌else◌, length, inl,
  inr, Bool-cases,
}
use lib_agml.Learning.{Numbers, Sums, nearest_from, assign_row, assign_rows}

-- The loop of `eval` over the codewords.
pub least_error : {F : Type 0} → (F → F → Bool) → List F → F → F
least_error leq [] min_e = min_e
least_error leq (e ∷ es) min_e =
    let less = least_error leq es e in
    let same = least_error leq es min_e in if leq e min_e then less else same

module _ {V F : Type 0} where
  -- The loop of `eval` over the rows.
  pub total_error : Numbers V F → List V → F → F
  total_error o [] mse = mse
  total_error o (x ∷ xs) mse =
      total_error o xs (o.add_float mse (least_error o.leq (o.distances x) o.flt_max))

  -- `eval`, with the division of a `float` by a `size_t`.
  pub eval : Numbers V F → (F → ℕ → F) → F → List V → F
  eval o divide zero_float xs = divide (total_error o xs zero_float) (length xs)

-- What a `NodeEvalKmeans` holds, and what a message brings it: its training data, or a codebook, by the numbers that
-- it stands for.
pub record Evaluator (V : Type 0) : Type 0 where
  pub rows : Option (List V)

pub data Reception (V F : Type 0) : Type 0 where
  training_data : List V → Reception V F
  codebook : Numbers V F → Reception V F
  other : Reception V F

-- `NodeEvalKmeans::on_receive`: training data are taken once, and a codebook is evaluated on the rows there are. That
-- `init` detaches the node is left to Simulation.
pub on_receive :
    {V F : Type 0} → (F → ℕ → F) → F → Evaluator V → Reception V F → Evaluator V × Option F
on_receive divide zero_float e (training_data xs) = elim e.rows [
  | none ↦ (record { rows = some xs }, none)
  | some ys ↦ (e, none)
]
on_receive divide zero_float e (codebook o) = elim e.rows [
  | none ↦ (e, some (eval o divide zero_float []))
  | some ys ↦ (e, some (eval o divide zero_float ys))
]
on_receive divide zero_float e other = (e, none)

least_error-nearest_from :
    {F : Type 0} (leq : F → F → Bool) (es : List F) (k argmin : ℕ) (min_e : F)
    → least_error leq es min_e ≡ (nearest_from leq es k min_e argmin).0
unfolding least_error nearest_from
least_error-nearest_from leq [] k argmin min_e = refl
least_error-nearest_from leq (e ∷ es) k argmin min_e = elim (Bool-cases (leq e min_e)) [
  | inl b ↦ rw b (least_error-nearest_from leq es (suc k) k e)
  | inr b ↦ rw b (least_error-nearest_from leq es (suc k) argmin min_e)
]

-- The sum of errors that an evaluation divides by the number of rows is the sum that the E step of a clustering
-- node with the same data and codebook makes.
pub total_error-assign_rows :
    {V F : Type 0} (o : Numbers V F) (xs : List V) (s : Sums V F)
    → total_error o xs s.error ≡ (assign_rows o xs s).error
unfolding total_error assign_rows assign_row
total_error-assign_rows o [] s = refl
total_error-assign_rows o (x ∷ xs) s =
    ap (λ e. total_error o xs (o.add_float s.error e))
      (least_error-nearest_from o.leq (o.distances x) 0 0 o.flt_max)
    ∙ total_error-assign_rows o xs (assign_row o x s)
