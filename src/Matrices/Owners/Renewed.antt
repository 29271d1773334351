-- ===== src/Matrices/Owners/Renewed.antt =====
-- src/agml/math/Matrix.h: what `clear`, `init` and `~Matrix` do to the arrays that exist.
use lib_agml.Common.{
  >>=-ok, ok-injective, ℕ, ◌+◌, ◌*◌, ◌≡◌, ◌≤◌, ◌≢◌, refl, ap, sym, ◌∙◌, Bool, true, false, Option,
  none, some, List, ◌∷◌, ◌==◌, get_elem?, set, ok, err, bad_access, arith, Bool-cases, ==_iff, inl,
  inr,
}
use mathlib.Core.Path.{subst}
use lib_agml.Matrices.Memory.{Floats, Heap, Pointer, put_cell, alloc, free, free_cell}
use lib_agml.Matrices.{MatrixObject, empty_matrix, wrap, release, clear, init}
use lib_agml.Matrices.Owners.{
  Objects, remove_at, owns, owners, is_live, AtStart, AllAtStart, IsOwned, owners-set,
  owners-remove_at, AllAtStart-set, AllAtStart-remove_at,
}

-- What the release of an array does to the arrays that exist: one less, of number `b`, if it is owned.
pub record IsReleased (F : Type 0) (data_ptr : Option Pointer) (owner : Bool) (h h' : Heap F)
    : Type 0 where
  pub fewer : (b : ℕ) → is_live (h'.cells b) + owns b data_ptr owner ≡ is_live (h.cells b)
  pub same_next : h'.next ≡ h.next

free_cell-IsReleased :
    {F : Type 0} (p : Pointer) (h h' : Heap F) (c : Option (List F))
    → h.cells p.block ≡ c
    → free_cell h p c ≡ ok h'
    → IsReleased F (some p) true h h'
unfolding free_cell owns is_live
free_cell-IsReleased p h h' none live e = absurd (cc)
free_cell-IsReleased {F} p h h' (some xs) live e = elim (Bool-cases (p.offset == 0)) [
  | inl z ↦
      subst (IsReleased F (some p) true h) (ok-injective (sym (start z) ∙ e))
        (record { fewer = fewer; same_next = refl })
  | inr z ↦ absurd (wild (sym (inside z) ∙ e))
]
  where
    start : (p.offset == 0) ≡ true → free_cell h p (some xs) ≡ ok (put_cell h p.block none)
    start z = rw z refl

    inside : (p.offset == 0) ≡ false → free_cell h p (some xs) ≡ err bad_access
    inside z = rw z refl

    wild : err bad_access ≢ ok h'
    wild x = cc

    fewer :
        (b : ℕ)
        → is_live ((put_cell h p.block none).cells b) + owns b (some p) true ≡ is_live (h.cells b)
    fewer b = elim (Bool-cases (p.block == b)) [
      | inl same ↦ rw (same, ← (==_iff p.block b).0 same, live) (omega arith)
      | inr other ↦ rw other (omega arith)
    ]

pub release-IsReleased :
    {F : Type 0} (p : Option Pointer) (owner : Bool) (h h' : Heap F)
    → release p owner h ≡ ok h'
    → IsReleased F p owner h h'
unfolding release owns free
release-IsReleased {F} none owner h h' e =
    subst (IsReleased F none owner h) (ok-injective e)
      (record { fewer = λ b. omega arith; same_next = refl })
release-IsReleased {F} (some p) false h h' e =
    subst (IsReleased F (some p) false h) (ok-injective e)
      (record { fewer = λ b. omega arith; same_next = refl })
release-IsReleased (some p) true h h' e = free_cell-IsReleased p h h' (h.cells p.block) refl e

-- An object that takes the place of another, with the arrays before and after.
pub record IsRenewed (F : Type 0) (h h' : Heap F) (m m' : MatrixObject) : Type 0 where
  pub balance :
      (b : ℕ)
      → is_live (h'.cells b) + owns b m.data_ptr m.owner
        ≡ is_live (h.cells b) + owns b m'.data_ptr m'.owner
  pub starts : AtStart m'.data_ptr m'.owner
  pub unused : (b : ℕ) → h'.next ≤ b → is_live (h'.cells b) ≡ 0

module _ {F : Type 0} (s : Objects F) (v : IsOwned F s) where
  pub prepend-IsOwned :
      (h' : Heap F) (m m' : MatrixObject)
      → m.data_ptr ≡ none
      → IsRenewed F s.heap h' m m'
      → IsOwned F (record { heap = h'; variables = m' ∷ s.variables })
  unfolding owners owns AllAtStart
  prepend-IsOwned h' m m' e r = record {
    one_owner = λ b. omega (arith, v.one_owner b, r.balance b, ap (λ p. owns b p m.owner) e);
    at_start = (r.starts, v.at_start);
    unused = r.unused;
  }

  pub set-IsOwned :
      (i : ℕ) (h' : Heap F) (m m' : MatrixObject)
      → get_elem? s.variables i ≡ some m
      → IsRenewed F s.heap h' m m'
      → IsOwned F (record { heap = h'; variables = set s.variables i m' })
  set-IsOwned i h' m m' e r = record {
    one_owner = λ b. omega (arith, v.one_owner b, r.balance b, owners-set b s.variables i m m' e);
    at_start = AllAtStart-set s.variables i m' v.at_start r.starts;
    unused = r.unused;
  }

  pub remove_at-IsOwned :
      (i : ℕ) (h' : Heap F) (m : MatrixObject)
      → get_elem? s.variables i ≡ some m
      → IsReleased F m.data_ptr m.owner s.heap h'
      → IsOwned F (record { heap = h'; variables = remove_at s.variables i })
  remove_at-IsOwned i h' m e r = record {
    one_owner = λ b. omega (arith, v.one_owner b, r.fewer b, owners-remove_at b s.variables i m e);
    at_start = AllAtStart-remove_at s.variables i v.at_start;
    unused = λ b l. omega (arith, r.fewer b, v.unused b (subst (λ n. n ≤ b) r.same_next l));
  }

released-IsRenewed :
    {F : Type 0} (h h' : Heap F) (m : MatrixObject)
    → ((b : ℕ) → h.next ≤ b → is_live (h.cells b) ≡ 0)
    → IsReleased F m.data_ptr m.owner h h'
    → IsRenewed F h h' m (record empty_matrix { owner = m.owner })
unfolding owns AtStart
released-IsRenewed h h' m unused r = record {
  balance = λ b. omega (arith, r.fewer b);
  starts = tt;
  unused = λ b l. omega (arith, r.fewer b, unused b (subst (λ n. n ≤ b) r.same_next l));
}

pub clear-IsRenewed :
    {F : Type 0} (h h' : Heap F) (m m' : MatrixObject)
    → ((b : ℕ) → h.next ≤ b → is_live (h.cells b) ≡ 0)
    → clear h m ≡ ok (h', m')
    → IsRenewed F h h' m m'
unfolding clear
clear-IsRenewed {F} h h' m m' unused e =
    let (k, ek, e1) = >>=-ok (release m.data_ptr m.owner h) _ (h', m') e in
    let r = released-IsRenewed h k m unused (release-IsReleased m.data_ptr m.owner h k ek) in
    subst (λ c. IsRenewed F h c.0 m c.1) (ok-injective e1) r

clear-IsReleased :
    {F : Type 0} (h : Heap F) (m : MatrixObject) (c : Heap F × MatrixObject)
    → clear h m ≡ ok c
    → IsReleased F m.data_ptr m.owner h c.0
unfolding clear
clear-IsReleased {F} h m c e =
    let (k, ek, e1) = >>=-ok (release m.data_ptr m.owner h) _ c e in
    subst (λ x. IsReleased F m.data_ptr m.owner h x.0) (ok-injective e1)
      (release-IsReleased m.data_ptr m.owner h k ek)

-- The object that `init` makes of an array of no number in use.
abbrev owner_of : Pointer → ℕ → ℕ → MatrixObject
owner_of p height width = record (wrap p height width) { owner = true }

alloc-IsRenewed :
    {F : Type 0} (h k : Heap F) (m : MatrixObject) (xs : List F) (height width : ℕ)
    → ((b : ℕ) → h.next ≤ b → is_live (h.cells b) ≡ 0)
    → IsReleased F m.data_ptr m.owner h k
    → IsRenewed F h (alloc k xs).0 m (owner_of (alloc k xs).1 height width)
unfolding owns is_live AtStart
alloc-IsRenewed h k m xs height width unused r = record {
  balance = λ b. elim (Bool-cases (k.next == b)) [
    | inl same ↦ rw same (omega (arith, r.fewer b, gone b (later b ((==_iff k.next b).0 same))))
    | inr other ↦ rw other (omega (arith, r.fewer b))
  ];
  starts = refl;
  unused =
      λ b l. rw (elsewhere b l) (omega (arith, r.fewer b, gone b (omega (arith, l, r.same_next))));
}
  where
    gone : (b : ℕ) → h.next ≤ b → is_live (h.cells b) ≡ 0
    gone b l = unused b l

    later : (b : ℕ) → k.next ≡ b → h.next ≤ b
    later b e = omega (arith, r.same_next)

    elsewhere : (b : ℕ) → k.next + 1 ≤ b → (k.next == b) ≡ false
    elsewhere b l = ground arith

module _ {F : Type 0} (o : Floats F) where
  pub init-IsRenewed :
      (h : Heap F) (m : MatrixObject) (height width : ℕ) (r : Heap F × MatrixObject)
      → ((b : ℕ) → h.next ≤ b → is_live (h.cells b) ≡ 0)
      → init o h m height width ≡ ok r
      → IsRenewed F h r.0 m r.1
  unfolding init
  init-IsRenewed h m height width r unused e =
      let (c, ec, e1) = >>=-ok (clear h m) _ r e in
      subst (λ x. IsRenewed F h x.0 m x.1) (ok-injective e1)
        (alloc-IsRenewed h c.0 m (o.unset (height * width)) height width unused
          (clear-IsReleased h m c ec))
