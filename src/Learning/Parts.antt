-- ===== src/Learning/Parts.antt =====
-- src/agml/math/Matrix.h: the parts that `Matrix::part` cuts a matrix into.
use native.Mathlib.Nat.{mul-le-mul_right, div-mul-le_self, lt-div-mul-add, mul_comm}
use lib_agml.Common.{
  ℕ, zero, suc, ◌+◌, ◌-◌, ◌*◌, ◌/◌, ◌<◌, ◌≤◌, ◌≡◌, refl, ap, sym, ◌∙◌, inl, inr, true, false, List,
  [], ◌∷◌, ◌++◌, ◌==◌, leb, if◌then◌else◌, take, drop, Result, ok, arith, Bool-cases, ==_iff,
  ==_refl, leb→le, ◌>>=◌,
}
use lib_agml.Learning.{Matrix, part}

-- The values of the first `k` of the parts, one part after the other.
abbrev pub joined : {F : Type 0} → Matrix F → ℕ → ℕ → Result (List F)
joined m parts zero = ok []
joined m parts (suc k) = do before ← joined m parts k; p ← part m k parts; ok (before ++ p.values)

suc_sum : (a b : ℕ) → suc (a + b) ≡ suc a + b
suc_sum a b = omega arith

take_nil : {F : Type 0} (n : ℕ) → take {A = F} n [] ≡ []
take_nil zero = refl
take_nil (suc n) = refl

take-take-drop :
    {F : Type 0} (a b : ℕ) (xs : List F) → take a xs ++ take b (drop a xs) ≡ take (a + b) xs
take-take-drop zero b xs = ap (λ n. take n xs) no_more
  where
    no_more : b ≡ 0 + b
    no_more = omega arith
take-take-drop (suc a) b [] = take_nil b ∙ sym (take_nil (suc a + b))
take-take-drop (suc a) b (x ∷ xs) =
    ap (λ t. x ∷ t) (take-take-drop a b xs) ∙ ap (λ n. take n (x ∷ xs)) (suc_sum a b)

-- The rows before part `k`, and those in it: with fewer rows than parts each row is a part of its own, and otherwise
-- the last part has the rows that are left.
abbrev rows_before : ℕ → ℕ → ℕ → ℕ
rows_before height parts k =
    if height / parts == 0
    then (if leb height k then height else k)
    else if k == parts
    then height
    else k * (height / parts)

abbrev pub rows_in : ℕ → ℕ → ℕ → ℕ
rows_in height parts k =
    if height / parts == 0
    then (if leb height k then 0 else 1)
    else if k + 1 == parts
    then height - k * (height / parts)
    else height / parts

-- The arithmetic of the last part and of the others, `q` being the rows of a part.
last_rows : (height parts k q : ℕ) → suc k ≤ parts → q * parts ≤ height → k * q ≤ height
last_rows height parts k q h d = omega (arith, mul-le-mul_right q prev, d, mul_comm q parts)
  where
    prev : k ≤ parts
    prev = omega arith

rows_step :
    (height parts k : ℕ)
    → suc k ≤ parts
    → rows_before height parts (suc k) ≡ rows_before height parts k + rows_in height parts k
rows_step height parts k h = elim (Bool-cases (height / parts == 0)) [
  | inl e ↦ rw e (ground arith)
  | inr e ↦
      rw (e, not_last)
        (by_end (height / parts) (last_rows height parts k _ h (div-mul-le_self height parts)))
]
  where
    not_last : (k == parts) ≡ false
    not_last = ground arith

    by_end :
        (q : ℕ)
        → k * q ≤ height
        → (if suc k == parts then height else suc k * q)
          ≡ k * q + (if k + 1 == parts then height - k * q else q)
    by_end q l = elim (Bool-cases (suc k == parts)) [
      | inl b ↦ rw (b, same_end b) (omega arith)
      | inr b ↦ rw (b, other_end b) (omega arith)
    ]
      where
        same_end : (suc k == parts) ≡ true → (k + 1 == parts) ≡ true
        same_end b = ground arith

        other_end : (suc k == parts) ≡ false → (k + 1 == parts) ≡ false
        other_end b = ground arith

part-rows :
    {F : Type 0} (m : Matrix F) (parts k : ℕ)
    → 0 < parts
    → suc k ≤ parts
    → (p : Matrix F) × (part m k parts ≡ ok p)
      × (p.height ≡ rows_in m.height parts k)
      × (p.values
          ≡ take
              (rows_in m.height parts k * m.width)
              (drop (rows_before m.height parts k * m.width) m.values))
unfolding part
part-rows {F} m parts k h b = elim (Bool-cases (m.height / parts == 0)) [
  | inl e ↦ elim (Bool-cases (leb m.height k)) [
    | inl l ↦ (
      empty,
      rw (some_parts, e, l) refl,
      rw (e, l) refl,
      rw (e, l) (ap (λ n. take n (drop (m.height * m.width) m.values)) zero_width),
    )
    | inr l ↦ (
      row,
      rw (some_parts, e, l) refl,
      rw (e, l) refl,
      rw (e, l) (ap (λ n. take n (drop (k * m.width) m.values)) one_width),
    )
  ]
  | inr e ↦ (rows, rw (some_parts, e) refl, rw e refl, rw (e, not_last) refl)
]
  where
    empty : Matrix F
    empty = record { height = 0; width = 0; values = [] }

    row : Matrix F
    row = record {
      height = 1;
      width = m.width;
      values = take m.width (drop (k * m.width) m.values);
    }

    count : ℕ
    count = if k + 1 == parts then m.height - k * (m.height / parts) else m.height / parts

    rows : Matrix F
    rows = record {
      height = count;
      width = m.width;
      values = take (count * m.width) (drop (k * (m.height / parts) * m.width) m.values);
    }

    some_parts : (parts == 0) ≡ false
    some_parts = ground arith

    not_last : (k == parts) ≡ false
    not_last = ground arith

    zero_width : 0 ≡ 0 * m.width
    zero_width = omega arith

    one_width : m.width ≡ 1 * m.width
    one_width = omega arith

joined-take :
    {F : Type 0} (m : Matrix F) (parts k : ℕ)
    → 0 < parts
    → k ≤ parts
    → joined m parts k ≡ ok (take (rows_before m.height parts k * m.width) m.values)
joined-take m parts zero h b = ap (λ n. ok (take n m.values)) nothing
  where
    start : (height parts : ℕ) → rows_before height parts 0 ≡ 0
    start height parts = ground arith

    nothing : 0 ≡ rows_before m.height parts 0 * m.width
    nothing = rw (start m.height parts) (omega arith)
joined-take m parts (suc k) h b =
    let (p, e, rows, v) = part-rows m parts k h b in
    rw (joined-take m parts k h (omega arith), e, v)
      (ap ok (
        take-take-drop (rows_before m.height parts k * m.width) (rows_in m.height parts k * m.width)
          m.values
        ∙ ap (λ n. take n m.values) product))
  where
    product :
        rows_before m.height parts k * m.width + rows_in m.height parts k * m.width
        ≡ rows_before m.height parts (suc k) * m.width
    product = rw (rows_step m.height parts k b) (omega arith)

-- The parts of a matrix, as many as asked for, have the matrix's values one part after the other. Each has the quotient
-- of the rows by the parts, the last one all that are left; with fewer rows than parts each row is a part of its own,
-- and the further parts have none.
pub part_covers :
    {F : Type 0} (m : Matrix F) (parts k : ℕ)
    → k < parts
    → (joined m parts parts ≡ ok (take (m.height * m.width) m.values))
      × (p : Matrix F) × (part m k parts ≡ ok p)
      × (p.height ≡ rows_in m.height parts k)
part_covers m parts k b =
    let h : 0 < parts = omega (arith, b) in
    let (p, e, rows, v) = part-rows m parts k h b in
    (
      joined-take m parts parts h (omega arith)
          ∙ ap (λ n. ok (take (n * m.width) m.values)) (all h),
      p,
      e,
      rows,
    )
  where
    over : leb m.height parts ≡ false → parts < m.height
    over b = ground arith

    few :
        (q : ℕ)
        → q ≡ 0
        → m.height < q * parts + parts
        → (if leb m.height parts then m.height else parts) ≡ m.height
    few q z l = elim (Bool-cases (leb m.height parts)) [
      | inl b ↦ rw b refl
      | inr b ↦ absurd (omega (arith, leb→le, z, l, over b, ap (λ n. n * parts) z))
    ]

    all : 0 < parts → rows_before m.height parts parts ≡ m.height
    all h = elim (Bool-cases (m.height / parts == 0)) [
      | inl e ↦ rw e (few (m.height / parts) ((==_iff _ 0).0 e) (lt-div-mul-add h))
      | inr e ↦ rw (e, ==_refl parts) refl
    ]
