-- ===== src/Matrices/Owners.antt =====
-- src/agml/math/Matrix.{h,cpp}: the arrays and the objects that own them, through a program's statements.
pub mod Renewed
pub mod Kept
use lib_agml.Common.{
  >>=-ok, ok-injective, some-injective, ℕ, zero, suc, ◌+◌, ◌*◌, ◌≡◌, ◌≤◌, ◌<◌, ◌≢◌, refl, ap, sym,
  ◌∙◌, Bool, true, false, not, ◌&&◌, Option, none, some, List, [], ◌∷◌, ◌++◌, ◌==◌, if◌then◌else◌,
  get_elem?, set, Result, ok, err, bad_access, ◌>>=◌, arith, Bool-cases, ==_iff, ==_refl, inl, inr,
}
use mathlib.Core.Path.{subst}
use lib_agml.Matrices.Memory.{Floats, Heap, Pointer, put_cell, alloc, free, free_cell, write_floats}
use lib_agml.Matrices.{
  MatrixObject, empty_matrix, wrap, steal, disowned, row, release, destroy, clear, init, new_matrix,
  assign_ref,
}

-- The `Matrix` variables of a program, and the arrays.
pub record Objects (F : Type 0) : Type 0 where
  pub heap : Heap F
  pub variables : List MatrixObject

unfoldable pub remove_at : List MatrixObject → ℕ → List MatrixObject
remove_at [] i = []
remove_at (m ∷ ms) zero = ms
remove_at (m ∷ ms) (suc i) = m ∷ remove_at ms i

-- The statements that make, end or pass on a `Matrix`, or write to an array.
module _ {F : Type 0} (o : Floats F) where
  pub data Step : Objects F → Objects F → Type 0 where
    declare : (s : Objects F) → Step s (record s { variables = empty_matrix ∷ s.variables })
    view :
        (s : Objects F) (p : Pointer) (height width : ℕ)
        → Step s (record s { variables = wrap p height width ∷ s.variables })
    construct :
        (s : Objects F) (height width : ℕ) (h : Heap F) (m : MatrixObject)
        → new_matrix o s.heap height width ≡ ok (h, m)
        → Step s (record { heap = h; variables = m ∷ s.variables })
    copy :
        (s : Objects F) (i : ℕ) (m : MatrixObject)
        → get_elem? s.variables i ≡ some m
        → Step s (record s { variables = (steal m).0 ∷ set s.variables i (steal m).1 })
    take_over :
        (s : Objects F) (i j : ℕ) (a m : MatrixObject)
        → get_elem? s.variables i ≡ some a
        → get_elem? s.variables j ≡ some m
        → i ≢ j
        → a.data_ptr ≡ none
        → Step s (record s { variables = set (set s.variables i (steal m).0) j (steal m).1 })
    initialise :
        (s : Objects F) (i : ℕ) (m m' : MatrixObject) (height width : ℕ) (h : Heap F)
        → get_elem? s.variables i ≡ some m
        → init o s.heap m height width ≡ ok (h, m')
        → Step s (record { heap = h; variables = set s.variables i m' })
    clean :
        (s : Objects F) (i : ℕ) (m m' : MatrixObject) (h : Heap F)
        → get_elem? s.variables i ≡ some m
        → clear s.heap m ≡ ok (h, m')
        → Step s (record { heap = h; variables = set s.variables i m' })
    end :
        (s : Objects F) (i : ℕ) (m : MatrixObject) (h : Heap F)
        → get_elem? s.variables i ≡ some m
        → destroy s.heap m ≡ ok h
        → Step s (record { heap = h; variables = remove_at s.variables i })
    store :
        (s : Objects F) (p : Pointer) (vs : List F) (h : Heap F)
        → write_floats s.heap p vs ≡ ok h
        → Step s (record s { heap = h })

  -- What a program that starts with no `Matrix` and no array reaches.
  pub data Reached : Objects F → Type 0 where
    start : Reached (record { heap = record { next = 0; cells = λ k. none }; variables = [] })
    go : (s t : Objects F) → Reached s → Step s t → Reached t

-- Whether an object owns array `b`.
unfoldable pub owns : ℕ → Option Pointer → Bool → ℕ
owns b none owner = 0
owns b (some p) true = if p.block == b then 1 else 0
owns b (some p) false = 0

unfoldable pub owners : ℕ → List MatrixObject → ℕ
owners b [] = 0
owners b (m ∷ ms) = owns b m.data_ptr m.owner + owners b ms

unfoldable pub is_live : {F : Type 0} → Option (List F) → ℕ
is_live none = 0
is_live (some xs) = 1

-- An owner points to the start of its array.
unfoldable pub AtStart : Option Pointer → Bool → Type 0
AtStart none owner = Unit {0}
AtStart (some p) true = p.offset ≡ 0
AtStart (some p) false = Unit {0}

unfoldable pub AllAtStart : List MatrixObject → Type 0
AllAtStart [] = Unit {0}
AllAtStart (m ∷ ms) = AtStart m.data_ptr m.owner × AllAtStart ms

-- Each array that exists has one owner, a deleted one none.
pub record IsOwned (F : Type 0) (s : Objects F) : Type 0 where
  pub one_owner : (b : ℕ) → owners b s.variables ≡ is_live (s.heap.cells b)
  pub at_start : AllAtStart s.variables
  pub unused : (b : ℕ) → s.heap.next ≤ b → is_live (s.heap.cells b) ≡ 0

pub owners-set :
    (b : ℕ) (ms : List MatrixObject) (i : ℕ) (m m' : MatrixObject)
    → get_elem? ms i ≡ some m
    → owners b (set ms i m') + owns b m.data_ptr m.owner ≡ owners b ms + owns b m'.data_ptr m'.owner
unfolding owners
owners-set b [] i m m' e = absurd (cc)
owners-set b (x ∷ ms) zero m m' e =
    omega (arith, ap (λ y. owns b y.data_ptr y.owner) (some-injective e))
owners-set b (x ∷ ms) (suc i) m m' e = omega (arith, owners-set b ms i m m' e)

pub owners-remove_at :
    (b : ℕ) (ms : List MatrixObject) (i : ℕ) (m : MatrixObject)
    → get_elem? ms i ≡ some m
    → owners b (remove_at ms i) + owns b m.data_ptr m.owner ≡ owners b ms
unfolding owners remove_at
owners-remove_at b [] i m e = absurd (cc)
owners-remove_at b (x ∷ ms) zero m e =
    omega (arith, ap (λ y. owns b y.data_ptr y.owner) (some-injective e))
owners-remove_at b (x ∷ ms) (suc i) m e = omega (arith, owners-remove_at b ms i m e)

pub AllAtStart-get :
    (ms : List MatrixObject) (i : ℕ) (m : MatrixObject)
    → AllAtStart ms
    → get_elem? ms i ≡ some m
    → AtStart m.data_ptr m.owner
unfolding AllAtStart
AllAtStart-get [] i m v e = absurd (cc)
AllAtStart-get (x ∷ ms) zero m v e = subst (λ y. AtStart y.data_ptr y.owner) (some-injective e) v.0
AllAtStart-get (x ∷ ms) (suc i) m v e = AllAtStart-get ms i m v.1 e

pub AllAtStart-set :
    (ms : List MatrixObject) (i : ℕ) (m : MatrixObject)
    → AllAtStart ms
    → AtStart m.data_ptr m.owner
    → AllAtStart (set ms i m)
unfolding AllAtStart
AllAtStart-set [] i m v w = v
AllAtStart-set (x ∷ ms) zero m v w = (w, v.1)
AllAtStart-set (x ∷ ms) (suc i) m v w = (v.0, AllAtStart-set ms i m v.1 w)

pub AllAtStart-remove_at :
    (ms : List MatrixObject) (i : ℕ) → AllAtStart ms → AllAtStart (remove_at ms i)
unfolding AllAtStart remove_at
AllAtStart-remove_at [] i v = v
AllAtStart-remove_at (x ∷ ms) zero v = v.1
AllAtStart-remove_at (x ∷ ms) (suc i) v = (v.0, AllAtStart-remove_at ms i v.1)
