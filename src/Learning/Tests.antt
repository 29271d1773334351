-- ===== src/Learning/Tests.antt =====
-- src/agml_node_clustering/NodeKMeans.cpp and src/agml/math/Matrix.h on small numbers.
use lib_agml.Common.{ℕ, zero, suc, ◌+◌, ◌-◌, ◌≡◌, some, [], ◌∷◌, leb, get_elem?, take, ok, arith}
use lib_agml.Learning.{Matrix, part, nearest_from, Numbers, Sums, assign_rows}
use lib_agml.Learning.Nearest.{
  IsLine, AllAbove, AllBelow, nearest-IsNearest, row_sum, row_count, increments, assign_rows-sums,
}
use lib_agml.Learning.Parts.{joined, part_covers}

leb-IsLine : IsLine leb
leb-IsLine = record {
  total = λ a b h. ground arith;
  transitive = λ a b c h k. ground arith;
  reflexive = λ a. ground arith;
}

small : AllBelow leb (5 ∷ 3 ∷ 3 ∷ []) 100
small = record {
  each = elim [
    | zero ↦ λ e h. ground (arith, h)
    | suc zero ↦ λ e h. ground (arith, h)
    | suc (suc zero) ↦ λ e h. ground (arith, h)
    | suc (suc (suc j)) ↦ λ e h. absurd (cc)
  ];
}

nearest-IsNearest_example :
    (get_elem? (5 ∷ 3 ∷ 3 ∷ []) (nearest_from leb (5 ∷ 3 ∷ 3 ∷ []) 0 100 0).1
      ≡ some (nearest_from leb (5 ∷ 3 ∷ 3 ∷ []) 0 100 0).0)
    × AllAbove leb (nearest_from leb (5 ∷ 3 ∷ 3 ∷ []) 0 100 0).0 (5 ∷ 3 ∷ 3 ∷ [])
nearest-IsNearest_example =
    nearest-IsNearest leb leb-IsLine 100 (5 ∷ 3 ∷ 3 ∷ []) (omega arith) small

-- Numbers on a line, with the codewords 0 and 10.
abbrev line : Numbers ℕ ℕ
line = record {
  flt_max = 1000;
  leq = leb;
  add_row = λ a b. a + b;
  add_float = λ a b. a + b;
  increment = λ w. w + 1;
  distances = λ x. x ∷ (((x - 10) + (10 - x)) ∷ []);
}

abbrev empty_sums : Sums ℕ ℕ
empty_sums = record { vectors = λ k. 0; weights = λ k. 0; error = 0 }

assign_rows-sums_example :
    ((assign_rows line (1 ∷ 9 ∷ 8 ∷ []) empty_sums).vectors 1 ≡ row_sum line 1 (1 ∷ 9 ∷ 8 ∷ []) 0)
    × ((assign_rows line (1 ∷ 9 ∷ 8 ∷ []) empty_sums).weights 1
        ≡ increments line (row_count line 1 (1 ∷ 9 ∷ 8 ∷ [])) 0)
assign_rows-sums_example = assign_rows-sums line (1 ∷ 9 ∷ 8 ∷ []) empty_sums 1

-- Three rows of two in two parts.
abbrev rows : Matrix ℕ
rows = record { height = 3; width = 2; values = 1 ∷ 2 ∷ 3 ∷ 4 ∷ 5 ∷ 6 ∷ [] }

part_covers_example :
    (joined rows 2 2 ≡ ok (take 6 (1 ∷ 2 ∷ 3 ∷ 4 ∷ 5 ∷ 6 ∷ [])))
    × (p : Matrix ℕ) × (part rows 1 2 ≡ ok p)
    × (p.height ≡ 2)
part_covers_example = part_covers rows 2 1 (omega arith)
