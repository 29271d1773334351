-- ===== src/Reader/Execute.antt =====
-- src/libagml_comm/topology/Topology.{h,cpp}: the names of the groups, and the statements that use them.
use lib_agml.Common.{
  ℕ, zero, suc, ◌+◌, ◌<◌, ◌≤◌, ◌≡◌, ◌⊎◌, refl, ap, sym, ◌∙◌, inl, inr, true, false, Option, none,
  some, List, [], ◌∷◌, ◌==◌, if◌then◌else◌, Result, ok, err, bad_access, ◌>>=◌, arith, Bool-cases,
  ==_iff,
}
use lib_agml.Str.{str_before, str_trim}
use lib_agml.Str.Trim.{AllSpace, str_trim_blank}
use lib_agml.Topology.{Topology}
use lib_agml.Reader.{same_text, Statement, parse_statement}

-- The loop of `get_group` over the groups from `i` on.
unfoldable pub group_from : Topology → List ℕ → ℕ → ℕ → Option ℕ
group_from t name i zero = none
group_from t name i (suc left) =
    let rest = group_from t name (suc i) left in
    if same_text (t.group i).name name then some i else rest

-- `Topology::get_group` by name
unfoldable pub get_group : Topology → List ℕ → Option ℕ
get_group t name = group_from t name 0 t.nb_groups

-- The loop of `TopologyReader::read` over the lines, up to the calls that it makes.
pub read_lines : List (List ℕ) → Result (List Statement)
read_lines [] = ok []
read_lines (l ∷ ls) = do
  code ← str_before l (35 ∷ [])
  line ← str_trim code
  if same_text line []
      then read_lines ls
      else (do s ← parse_statement line; rest ← read_lines ls; ok (s ∷ rest))

-- The number and the name that a search stops at.
pub record IsNamed (t : Topology) (name : List ℕ) (i : ℕ) : Type 0 where
  pub known : i < t.nb_groups
  pub same : same_text (t.group i).name name ≡ true
  pub earliest : (j : ℕ) → j < i → same_text (t.group j).name name ≡ false

-- No group has the name.
pub record IsUnknown (t : Topology) (name : List ℕ) : Type 0 where
  pub nowhere : (j : ℕ) → j < t.nb_groups → same_text (t.group j).name name ≡ false

record IsSought (t : Topology) (name : List ℕ) (from left i : ℕ) : Type 0 where
  pub after : from ≤ i
  pub below : i < from + left
  pub here : same_text (t.group i).name name ≡ true
  pub before : (j : ℕ) → from ≤ j → j < i → same_text (t.group j).name name ≡ false

record IsAbsent (t : Topology) (name : List ℕ) (from left : ℕ) : Type 0 where
  pub none_of : (j : ℕ) → from ≤ j → j < from + left → same_text (t.group j).name name ≡ false

not_first :
    (t : Topology) (name : List ℕ) (from j : ℕ)
    → same_text (t.group from).name name ≡ false
    → (suc from ≤ j → same_text (t.group j).name name ≡ false)
    → from ≤ j
    → same_text (t.group j).name name ≡ false
not_first t name from j b later h = elim (Bool-cases (from == j)) [
  | inl e ↦ ap (λ k. same_text (t.group k).name name) (sym ((==_iff from j).0 e)) ∙ b
  | inr e ↦ later (ground arith)
]

find_group :
    (t : Topology) (name : List ℕ) (from left : ℕ)
    → ((group_from t name from left ≡ none) × IsAbsent t name from left)
      ⊎ ((i : ℕ) × (group_from t name from left ≡ some i) × IsSought t name from left i)
unfolding group_from
find_group t name from zero = inl (refl, record { none_of = λ j h k. absurd (omega arith) })
find_group t name from (suc left) = elim (Bool-cases (same_text (t.group from).name name)) [
  | inl b ↦ inr (
    from,
    rw b refl,
    record {
      after = omega arith;
      below = omega arith;
      here = b;
      before = λ j h k. absurd (omega arith);
    },
  )
  | inr b ↦ elim (find_group t name (suc from) left) [
    | inl (e, v) ↦ inl (
      rw (b, e) refl,
      record { none_of = λ j h k. not_first t name from j b (λ l. v.none_of j l (omega arith)) h },
    )
    | inr (i, e, v) ↦ inr (
      i,
      rw (b, e) refl,
      record {
        after = omega (arith, v.after);
        below = omega (arith, v.below);
        here = v.here;
        before = λ j h k. not_first t name from j b (λ l. v.before j l k) h;
      },
    )
  ]
]

-- The search for a group by name answers that there is none just when no group has the name, and else
-- with the first group that has it.
pub get_group_finds :
    (t : Topology) (name : List ℕ)
    → ((get_group t name ≡ none) × IsUnknown t name)
      ⊎ ((i : ℕ) × (get_group t name ≡ some i) × IsNamed t name i)
unfolding get_group
get_group_finds t name = elim (find_group t name 0 t.nb_groups) [
  | inl (e, v) ↦ inl (e, record { nowhere = λ j h. v.none_of j (omega arith) (omega arith) })
  | inr (i, e, v) ↦ inr (
    i,
    e,
    record {
      known = omega (arith, v.below);
      same = v.here;
      earliest = λ j h. v.before j (omega arith) h;
    },
  )
]

-- The reading of a model text stops with a wild access at a line that is empty, or of white space alone
-- and without a comment: the trimming of the line reads outside the string.
pub read_lines_blank :
    (l : List ℕ) (ls : List (List ℕ))
    → AllSpace l
    → str_before l (35 ∷ []) ≡ ok l
    → read_lines (l ∷ ls) ≡ err bad_access
unfolding read_lines
read_lines_blank l ls a e = rw (e, str_trim_blank l a) refl
