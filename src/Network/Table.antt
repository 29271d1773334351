-- ===== src/Network/Table.antt =====
-- src/libagml_comm/common/com.cpp: the numbers and the names of the system commands.
use mathlib.Core.Path.{subst}
use lib_agml.Common.{
  some-injective, ◌^◌, ℕ, suc, ◌+◌, ◌<◌, ◌≡◌, ◌⊎◌, refl, ap, sym, ◌∙◌, inl, inr, true, false, none,
  some, List, [], ◌∷◌, length, get_elem?, ok, arith, Bool-cases,
}
use lib_agml.Reader.{same_text}
use lib_agml.Network.{
  Command, Row, commands, id_from, handler_of, nb_commands, command_id, command_name, exec_by_id,
  exec_by_name, is_unknown,
}

same_text_eq : (s t : List ℕ) → same_text s t ≡ true → s ≡ t
unfolding same_text
same_text_eq [] [] h = refl
same_text_eq [] (d ∷ t) h = absurd (cc)
same_text_eq (c ∷ s) [] h = absurd (cc)
same_text_eq (c ∷ s) (d ∷ t) h = ground (arith, same_text_eq s t)

same_text_sym : (s t : List ℕ) → same_text s t ≡ same_text t s
unfolding same_text
same_text_sym [] [] = refl
same_text_sym [] (d ∷ t) = refl
same_text_sym (c ∷ s) [] = refl
same_text_sym (c ∷ s) (d ∷ t) = ground (arith, same_text_sym s t)

-- What a name is to a table: of no row, or of one whose number and handler the loops find.
data IsFound (rs : List Row) (i : ℕ) (name : List ℕ) : Type 0 where
  missing : id_from rs i name ≡ none → handler_of rs name ≡ none → IsFound rs i name
  at_row :
      (j : ℕ) (r : Row)
      → j < length rs
      → get_elem? rs j ≡ some r
      → r.name ≡ name
      → id_from rs i name ≡ some (i + j)
      → handler_of rs name ≡ some r.handler
      → IsFound rs i name

find_row : (rs : List Row) (i : ℕ) (name : List ℕ) → IsFound rs i name
unfolding id_from handler_of
find_row [] i name = missing refl refl
find_row (r ∷ rs) i name = elim (Bool-cases (same_text name r.name)) [
  | inl e ↦
      at_row 0 r (omega arith) refl (sym (same_text_eq name r.name e))
        (rw e (ap some (omega arith))) (rw (same_text_sym r.name name, e) refl)
  | inr e ↦ shift e (find_row rs (i + 1) name)
]
  where
    shift : same_text name r.name ≡ false → IsFound rs (i + 1) name → IsFound (r ∷ rs) i name
    shift e (missing a b) = missing (rw (e, a) refl) (rw (same_text_sym r.name name, e, b) refl)
    shift e (at_row j r' below get n a b) =
        at_row (suc j) r' (omega arith) get n (rw (e, a) (ap some (omega arith)))
          (rw (same_text_sym r.name name, e, b) refl)

-- A name is either unknown to both forms of `AGML_COMMAND_EXEC`' table search, or has a number below the
-- number of commands, which names it again and for which the same handler runs.
pub command_id_agrees :
    (name : List ℕ)
    → ((command_id name ≡ none) × (exec_by_name name ≡ none))
      ⊎ ((i : ℕ) × (i < nb_commands)
          × (command_id name ≡ some i)
          × (command_name i ≡ ok name)
          × (exec_by_id i ≡ ok (exec_by_name name)))
unfolding command_id exec_by_name command_name exec_by_id
command_id_agrees name = of_row (find_row commands 0 name)
  where
    known : (j : ℕ) → j < nb_commands → is_unknown j ≡ false
    known j h = unfold nb_commands in ground arith

    of_row :
        IsFound commands 0 name
        → ((command_id name ≡ none) × (exec_by_name name ≡ none))
          ⊎ ((i : ℕ) × (i < nb_commands)
              × (command_id name ≡ some i)
              × (command_name i ≡ ok name)
              × (exec_by_id i ≡ ok (exec_by_name name)))
    of_row (missing a b) = inl (a, b)
    of_row (at_row j r below get n a b) = inr (
      j,
      below',
      a ∙ ap some (omega arith),
      rw (known j below', get) (ap ok n),
      rw (known j below', get, b) refl,
    )
      where
        below' : j < nb_commands
        below' = unfold nb_commands in below

-- The handler of a name that has a number.
pub command_id-handler :
    (name : List ℕ) (i : ℕ)
    → command_id name ≡ some i
    → (h : Command) × (exec_by_name name ≡ some h) × (exec_by_id i ≡ ok (some h)) × (i < 2 ^ 32)
unfolding command_id exec_by_name exec_by_id nb_commands
command_id-handler name i e = of_row (find_row commands 0 name)
  where
    of_row :
        IsFound commands 0 name
        → (h : Command) × (exec_by_name name ≡ some h) × (exec_by_id i ≡ ok (some h)) × (i < 2 ^ 32)
    of_row (missing a b) = absurd (cc)
    of_row (at_row j r below get n a b) = (
      r.handler,
      b,
      subst (λ k. exec_by_id k ≡ ok (some r.handler)) same (rw (known, get) refl),
      omega (arith, below, same),
    )
      where
        same : j ≡ i
        same = omega (arith, some-injective (sym a ∙ e))

        known : is_unknown j ≡ false
        known = ground (arith, below)
