-- ===== src/Matrices/Tests.antt =====
-- src/agml/math/Matrix.{h,cpp} on small matrices of numbers in place of floats.
use lib_agml.Common.{
  refl, ℕ, ◌≡◌, ◌+◌, ◌*◌, some, none, List, [], ◌∷◌, ◌++◌, map, true, false, ok, replicate, arith,
}
use lib_agml.Matrices.Memory.{Floats, Heap, Pointer, alloc}
use lib_agml.Matrices.{
  MatrixObject, disowned, destroy, new_matrix, combined, values_at, init, clear, release,
}
use lib_agml.Matrices.Owners.{Objects, Reached, IsOwned, remove_at, go, start, construct, copy}
use lib_agml.Matrices.Owners.Kept.{destroy_once}
use lib_agml.Matrices.Shared.{HasRoom, combined-overwrites}
use lib_agml.Wire.Trickle.{dribble, linux}
use lib_agml.Wire.Message.{Message, new_message, read_from, write}
use lib_agml.Wire.Message.RoundTrip.{IsValid}
use lib_agml.Matrices.Messages.{
  Image, IsWhole, message_add_matrix, message_get_matrix, message_get_matrix-message_add_matrix,
}

abbrev numbers : Floats ℕ
numbers = record {
  unset = λ n. replicate n 9;
  copy_bytes = λ n new old. new;
  zero_float = 0;
  add = λ a b. a + b;
  mul = λ a b. a * b;
}

abbrev no_arrays : Heap ℕ
no_arrays = record { next = 0; cells = λ k. none }

abbrev at_zero : Pointer
at_zero = record { block = 0; offset = 0 }

abbrev pair : MatrixObject
pair = record { height = 2; width = 2; n = 4; data_ptr = some at_zero; owner = true }

abbrev one_array : Heap ℕ
one_array = (alloc no_arrays (9 ∷ 9 ∷ 9 ∷ 9 ∷ [])).0

-- A matrix is made, and a second one of it.
abbrev constructed : Objects ℕ
constructed = record { heap = one_array; variables = pair ∷ [] }

abbrev copied : Objects ℕ
copied = record { heap = one_array; variables = pair ∷ disowned pair ∷ [] }

copied-Reached : Reached numbers copied
unfolding new_matrix init clear release
copied-Reached =
    go constructed copied (go _ constructed start (construct _ 2 2 one_array pair refl))
      (copy constructed 0 pair refl)

destroy_once_example :
    (h : Heap ℕ) × (destroy one_array pair ≡ ok h)
    × IsOwned ℕ (record { heap = h; variables = remove_at (pair ∷ disowned pair ∷ []) 0 })
destroy_once_example = destroy_once numbers copied 0 pair copied-Reached refl

has_room : HasRoom ℕ one_array at_zero 4 (9 ∷ 9 ∷ 9 ∷ 9 ∷ [])
has_room = record { there = refl; room = omega arith }

combined-overwrites_example :
    (h' : Heap ℕ) × (combined (λ xs ys. 5 ∷ 6 ∷ 7 ∷ 8 ∷ []) one_array pair pair
      ≡ ok (h', (pair, disowned pair)))
    × (values_at h' (some at_zero) 4 ≡ ok (5 ∷ 6 ∷ 7 ∷ 8 ∷ []))
combined-overwrites_example =
    combined-overwrites (λ xs ys. 5 ∷ 6 ∷ 7 ∷ 8 ∷ []) one_array pair pair at_zero at_zero
      (9 ∷ 9 ∷ 9 ∷ 9 ∷ []) (9 ∷ 9 ∷ 9 ∷ 9 ∷ []) refl refl refl has_room has_room refl

-- Two floats, as eight bytes.
abbrev floats : List ℕ
floats = 0 ∷ 0 ∷ 128 ∷ 63 ∷ 0 ∷ 0 ∷ 0 ∷ 64 ∷ []

abbrev row_image : Image
row_image = record { height = 1; width = 2; n = 2; bytes = some floats; owner = false }

row_image-IsWhole : IsWhole row_image floats
row_image-IsWhole = record {
  sized = refl;
  height_small = omega arith;
  width_small = omega arith;
  few = omega arith;
  holds = refl;
  full = refl;
}

new_message-IsValid : IsValid new_message
new_message-IsValid = record {
  src_small = omega arith;
  dst_small = omega arith;
  channel_small = omega arith;
  elts_valid = tt;
}

message_get_matrix-message_add_matrix_example :
    (r r' : Message) × (s' : List ℕ) × (read_from dribble 3 new_message
        ((write linux (message_add_matrix new_message row_image)).0 ++ [])
      ≡ ok (r, s'))
    × (message_get_matrix r ≡ ok (record row_image { owner = true }, r'))
    × (map (λ e. e.own) r'.elts ≡ true ∷ true ∷ false ∷ [])
    × (s' ≡ [])
message_get_matrix-message_add_matrix_example =
    message_get_matrix-message_add_matrix dribble linux 3 new_message row_image floats
      ((write linux (message_add_matrix new_message row_image)).0 ++ []) [] new_message-IsValid refl
      row_image-IsWhole (omega arith) refl
