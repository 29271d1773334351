-- ===== src/Learning/Nearest.antt =====
-- src/agml_node_clustering/NodeKMeans.cpp: the codeword that the E step chooses, and the sums it makes.
use lib_agml.Common.{
  ℕ, zero, suc, ◌+◌, ◌<◌, ◌≡◌, ◌⊎◌, refl, ap, sym, ◌∙◌, inl, inr, Bool, true, false, some, List, [],
  ◌∷◌, ◌==◌, if◌then◌else◌, length, get_elem?, arith, Bool-cases,
}
use lib_agml.Learning.{nearest_from, Numbers, Sums, assign_row, assign_rows}

-- A comparison that puts the values in question in a line; floats that are no NaN have it.
pub record IsLine {F : Type 0} (leq : F → F → Bool) : Type 0 where
  pub total : (a b : F) → leq a b ≡ false → leq b a ≡ true
  pub transitive : (a b c : F) → leq a b ≡ true → leq b c ≡ true → leq a c ≡ true
  pub reflexive : (a : F) → leq a a ≡ true

-- What the loop's result is to the distances that it saw and to what it began with.
record IsLeast {F : Type 0} (leq : F → F → Bool) (es : List F) (k : ℕ) (min_e : F) (argmin : ℕ)
    (r : F × ℕ) : Type 0 where
  pub from_start : leq r.0 min_e ≡ true
  pub least : (j : ℕ) (e : F) → get_elem? es j ≡ some e → leq r.0 e ≡ true
  pub at_place :
      ((r.0 ≡ min_e) × (r.1 ≡ argmin)) ⊎ ((j : ℕ) × (get_elem? es j ≡ some r.0) × (r.1 ≡ k + j))

-- Every value of the list is in this relation to one value.
pub record AllAbove {F : Type 0} (leq : F → F → Bool) (r : F) (es : List F) : Type 0 where
  pub each : (j : ℕ) (e : F) → get_elem? es j ≡ some e → leq r e ≡ true

pub record AllBelow {F : Type 0} (leq : F → F → Bool) (es : List F) (top : F) : Type 0 where
  pub each : (j : ℕ) (e : F) → get_elem? es j ≡ some e → leq e top ≡ true

module _ {F : Type 0} (leq : F → F → Bool) (line : IsLine leq) where
  head_is : {x y : F} → some x ≡ some y → x ≡ y
  head_is h = cc

  nearest_from-IsLeast :
      (es : List F) (k : ℕ) (min_e : F) (argmin : ℕ)
      → IsLeast leq es k min_e argmin (nearest_from leq es k min_e argmin)
  unfolding nearest_from
  nearest_from-IsLeast [] k min_e argmin = record {
    from_start = line.reflexive min_e;
    least = λ j e h. ground (arith, h);
    at_place = inl (refl, refl);
  }
  nearest_from-IsLeast (e ∷ es) k min_e argmin = elim (Bool-cases (leq e min_e)) [
    | inl b ↦ rw b (taken b (nearest_from-IsLeast es (suc k) e k))
    | inr b ↦ rw b (passed b (nearest_from-IsLeast es (suc k) min_e argmin))
  ]
    where
      taken :
          {r : F × ℕ}
          → leq e min_e ≡ true
          → IsLeast leq es (suc k) e k r
          → IsLeast leq (e ∷ es) k min_e argmin r
      taken {r} b v = record {
        from_start = line.transitive r.0 e min_e v.from_start b;
        least = elim [
          | zero ↦ λ e' h. ap (leq r.0) (sym (head_is h)) ∙ v.from_start
          | suc j ↦ λ e' h. v.least j e' h
        ];
        at_place = elim v.at_place [
          | inl (x, y) ↦ inr (0, ap some (sym x), y ∙ omega arith)
          | inr (j, x, y) ↦ inr (suc j, x, y ∙ omega arith)
        ];
      }

      passed :
          {r : F × ℕ}
          → leq e min_e ≡ false
          → IsLeast leq es (suc k) min_e argmin r
          → IsLeast leq (e ∷ es) k min_e argmin r
      passed {r} b v = record {
        from_start = v.from_start;
        least = elim [
          | zero ↦ λ e' h.
              ap (leq r.0) (sym (head_is h))
              ∙ line.transitive r.0 min_e e v.from_start (line.total e min_e b)
          | suc j ↦ λ e' h. v.least j e' h
        ];
        at_place = elim v.at_place [
          | inl (x, y) ↦ inl (x, y)
          | inr (j, x, y) ↦ inr (suc j, x, y ∙ omega arith)
        ];
      }

  -- When there is a codeword and no distance is above `FLT_MAX`, the E step chooses the number of a
  -- codeword, with its distance, and no codeword is nearer.
  pub nearest-IsNearest :
      (flt_max : F) (es : List F)
      → 0 < length es
      → AllBelow leq es flt_max
      → (get_elem? es (nearest_from leq es 0 flt_max 0).1
          ≡ some (nearest_from leq es 0 flt_max 0).0)
        × AllAbove leq (nearest_from leq es 0 flt_max 0).0 es
  nearest-IsNearest flt_max [] h m = absurd (omega arith)
  nearest-IsNearest flt_max (e ∷ es) h m =
      rw (starts (m.each 0 e refl)) (of_rest _ (nearest_from-IsLeast es 1 e 0))
    where
      starts :
          leq e flt_max ≡ true → nearest_from leq (e ∷ es) 0 flt_max 0 ≡ nearest_from leq es 1 e 0
      starts b = unfold nearest_from in rw b refl

      next_place : {n j : ℕ} → n ≡ 1 + j → n ≡ suc j
      next_place y = omega (arith, y)

      of_rest :
          (r : F × ℕ)
          → IsLeast leq es 1 e 0 r
          → (get_elem? (e ∷ es) r.1 ≡ some r.0) × AllAbove leq r.0 (e ∷ es)
      of_rest r v = (
        elim v.at_place [
          | inl (x, y) ↦ ap (get_elem? (e ∷ es)) y ∙ ap some (sym x)
          | inr (j, x, y) ↦ ap (get_elem? (e ∷ es)) (next_place y) ∙ x
        ],
        record {
          each = elim [
            | zero ↦ λ e' g. ap (leq r.0) (sym (head_is g)) ∙ v.from_start
            | suc j ↦ λ e' g. v.least j e' g
          ];
        },
      )

-- The number of the codeword that a row is assigned to.
abbrev pub choice : {V F : Type 0} → Numbers V F → V → ℕ
choice o x = (nearest_from o.leq (o.distances x) 0 o.flt_max 0).1

-- The sums of one codeword over the rows assigned to it.
abbrev pub row_sum : {V F : Type 0} → Numbers V F → ℕ → List V → V → V
row_sum o k [] v = v
row_sum o k (x ∷ xs) v = row_sum o k xs (if choice o x == k then o.add_row v x else v)

abbrev pub row_count : {V F : Type 0} → Numbers V F → ℕ → List V → ℕ
row_count o k [] = 0
row_count o k (x ∷ xs) = (if choice o x == k then 1 else 0) + row_count o k xs

abbrev pub increments : {V F : Type 0} → Numbers V F → ℕ → F → F
increments o zero w = w
increments o (suc n) w = increments o n (o.increment w)

-- The loop over the rows adds to each codeword's sum just the rows whose choice it is, in their order, and
-- increments its weight once for each of them.
pub assign_rows-sums :
    {V F : Type 0} (o : Numbers V F) (xs : List V) (s : Sums V F) (k : ℕ)
    → ((assign_rows o xs s).vectors k ≡ row_sum o k xs (s.vectors k))
      × ((assign_rows o xs s).weights k ≡ increments o (row_count o k xs) (s.weights k))
unfolding assign_rows assign_row
assign_rows-sums o [] s k = (refl, refl)
assign_rows-sums o (x ∷ xs) s k =
    let ih = assign_rows-sums o xs (assign_row o x s) k in
    elim (Bool-cases (choice o x == k)) [
      | inl e ↦ (ih.0 ∙ rw e refl, ih.1 ∙ rw e (more (row_count o k xs)))
      | inr e ↦ (ih.0 ∙ rw e refl, ih.1 ∙ rw e (none_more (row_count o k xs)))
    ]
  where
    none_more : (n : ℕ) → increments o n (s.weights k) ≡ increments o (0 + n) (s.weights k)
    none_more n = ap (λ m. increments o m (s.weights k)) same
      where
        same : n ≡ 0 + n
        same = omega arith

    more : (n : ℕ) → increments o n (o.increment (s.weights k)) ≡ increments o (1 + n) (s.weights k)
    more n = ap (λ m. increments o m (s.weights k)) one_more
      where
        one_more : suc n ≡ 1 + n
        one_more = omega arith
