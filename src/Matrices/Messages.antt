-- ===== src/Matrices/Messages.antt =====
-- src/agml/com/message.cpp: matrices in messages. A matrix is its sizes and the bytes of its floats, of which each
-- takes four; a pointer to one of the sizes stands for its bytes at the time of the call.
use mathlib.Core.Path.{ap₂, subst}
use lib_agml.Common.{
  ℕ, ◌≤◌, ◌-◌, ◌*◌, ◌%◌, ◌^◌, ◌<◌, ◌≡◌, refl, ap, sym, ◌∙◌, Bool, true, false, Option, some, List,
  [], ◌∷◌, ◌++◌, map, ◌==◌, ltb, length, take, Result, ok, ◌>>=◌, arith,
}
use lib_agml.Wire.Bytes.{le_bytes, le_value, length-le_bytes, le_value-le_bytes}
use lib_agml.Wire.Socket.{Net, Outlet}
use lib_agml.Str.Split.{take-all}
use lib_agml.Wire.Message.{
  Message, MessageElt, Cursor, first_cursor, add, get_int, get_next, take_at, advance, new_message,
  write, read_from,
}
use lib_agml.Wire.Message.RoundTrip.{
  IsValid, AreValidElts, received, rebuilt, rebuilt-IsReceived, read_from-write,
}
use lib_agml.Wire.Message.RoundTrip.Buffers.{rebuilt-allocated}

-- A `Matrix` as far as a message takes it.
pub record Image : Type 0 where
  pub height : ℕ
  pub width : ℕ
  pub n : ℕ
  pub bytes : Option (List ℕ)
  pub owner : Bool

-- `message_add_matrix`
unfoldable pub message_add_matrix : Message → Image → Message
message_add_matrix m mat =
    add (add (add m (some (le_bytes 8 mat.height)) 8 false) (some (le_bytes 8 mat.width)) 8 false)
      mat.bytes (4 * mat.n % 2 ^ 64) false

-- `message_get_matrix`: the matrix takes the array of the element, which no longer owns it.
unfoldable pub message_get_matrix : Message → Result (Image × Message)
message_get_matrix m = do
  h ← get_int 8 m
  w ← get_int 8 h.1
  e ← get_next w.1 true
  ok (
    record {
      height = h.0;
      width = w.0;
      n = h.0 * w.0 % 2 ^ 64;
      bytes = e.0.buffer;
      owner = m.data_allocated;
    },
    e.1,
  )

-- A matrix whose array has its floats.
pub record IsWhole (mat : Image) (floats : List ℕ) : Type 0 where
  pub sized : mat.n ≡ mat.height * mat.width
  pub height_small : mat.height < 2 ^ 64
  pub width_small : mat.width < 2 ^ 64
  pub few : 4 * mat.n ≤ 2 ^ 31 - 4096
  pub holds : mat.bytes ≡ some floats
  pub full : length floats ≡ 4 * mat.n

abbrev bytes_elt : List ℕ → ℕ → Bool → MessageElt
bytes_elt b n own = record { buffer = some b; size = n; own = own }

-- The message behind a matrix, of which the array is no longer its own.
abbrev emptied : Message → List ℕ → List ℕ → List ℕ → Message
emptied m hb wb floats = record m {
  elts = bytes_elt hb 8 true ∷ bytes_elt wb 8 true ∷ bytes_elt floats (length floats) false ∷ [];
  cursor = Cursor.past;
}

-- What is got of a message of two sizes and some floats.
got_of :
    (m : Message) (h w : ℕ) (hb wb floats : List ℕ)
    → ltb (length hb) 8 ≡ false
    → ltb (length wb) 8 ≡ false
    → le_value (take 8 hb) ≡ h
    → le_value (take 8 wb) ≡ w
    → m.elts
      ≡ bytes_elt hb 8 true ∷ bytes_elt wb 8 true ∷ bytes_elt floats (length floats) true ∷ []
    → m.cursor ≡ Cursor.at 0
    → m.data_allocated ≡ true
    → message_get_matrix m
      ≡ ok (
        record { height = h; width = w; n = h * w % 2 ^ 64; bytes = some floats; owner = true },
        emptied m hb wb floats,
      )
unfolding message_get_matrix get_int get_next take_at advance
got_of m h w hb wb floats lh lw vh vw elts cursor own =
    rw (cursor, elts, own) (rw (lh, lw, vh, vw) refl)

abbrev size_elt : ℕ → MessageElt
size_elt v = bytes_elt (le_bytes 8 v) 8 true

take-le_bytes : (v : ℕ) → take 8 (le_bytes 8 v) ≡ le_bytes 8 v
take-le_bytes v = take-all 8 (le_bytes 8 v) (omega (arith, length-le_bytes 8 v))

size-enough : (v : ℕ) → ltb (length (le_bytes 8 v)) 8 ≡ false
size-enough v = ground (arith, length-le_bytes 8 v)

size-value : (v : ℕ) → v < 2 ^ 64 → le_value (take 8 (le_bytes 8 v)) ≡ v
size-value v h = ap le_value (take-le_bytes v) ∙ le_value-le_bytes 8 v (omega arith)

received-size_elt : (v : ℕ) → received (size_elt v) ≡ size_elt v
received-size_elt v = ap (λ b. bytes_elt b 8 true) (take-le_bytes v)

received-floats :
    (b : List ℕ)
    → 0 < length b
    → received (bytes_elt b (length b) true) ≡ bytes_elt b (length b) true
received-floats b h = rw (some_bytes, take-all (length b) b (omega arith)) refl
  where
    some_bytes : (length b == 0) ≡ false
    some_bytes = ground arith

abbrev three : Image → List ℕ → List MessageElt
three mat floats =
    size_elt mat.height ∷ size_elt mat.width ∷ bytes_elt floats (length floats) true ∷ []

sent_elts :
    (m : Message) (mat : Image) (floats : List ℕ)
    → m.elts ≡ []
    → IsWhole mat floats
    → (message_add_matrix m mat).elts ≡ three mat floats
unfolding message_add_matrix add
sent_elts m mat floats empty v = rw (empty, v.holds, sized) refl
  where
    sized : 4 * mat.n % 2 ^ 64 ≡ length floats
    sized = omega (arith, v.full, v.few)

sent-IsValid :
    (m : Message) (mat : Image) (floats : List ℕ)
    → m.elts ≡ []
    → IsWhole mat floats
    → IsValid m
    → IsValid (message_add_matrix m mat)
unfolding message_add_matrix add
sent-IsValid m mat floats empty v ok_header = record {
  src_small = ok_header.src_small;
  dst_small = ok_header.dst_small;
  channel_small = ok_header.channel_small;
  elts_valid = subst AreValidElts (sym (sent_elts m mat floats empty v)) (
    record { small = omega arith; holds = omega (arith, length-le_bytes 8 mat.height) },
    (
      record { small = omega arith; holds = omega (arith, length-le_bytes 8 mat.width) },
      (record { small = omega (arith, v.full, v.few); holds = omega arith }, tt),
    ),
  );
}

received_elts :
    (host : ℕ) (m : Message) (mat : Image) (floats : List ℕ)
    → m.elts ≡ three mat floats
    → 0 < length floats
    → (rebuilt (some host) m m.elts).elts ≡ three mat floats
received_elts host m mat floats e pos =
    (rebuilt-IsReceived (some host) m 3 m.elts (rw e refl)).copies
    ∙ rw e (
        rw (received-size_elt mat.height, received-size_elt mat.width, received-floats floats pos)
          refl)

allocated :
    (host : ℕ) (m : Message) (mat : Image) (floats : List ℕ)
    → m.elts ≡ three mat floats
    → (rebuilt (some host) m m.elts).data_allocated ≡ true
allocated host m mat floats e =
    rw e (rebuilt-allocated (some host) m (size_elt mat.height) _ _ refl)

module _ (net : Net) (out : Outlet) where
  open net use {S, pending}

  -- A matrix with floats in it, added to an empty message that is sent over a connection, is got out of the message
  -- that is read at the other end with its sizes and the bytes of its floats, in an array that it owns, and which
  -- the message no longer does; this holds for as many floats as have at most 0x7ffff000
  -- bytes, which a write takes whole.
  pub message_get_matrix-message_add_matrix :
      (host : ℕ) (m : Message) (mat : Image) (floats : List ℕ) (s : S) (rest : List ℕ)
      → IsValid m
      → m.elts ≡ []
      → IsWhole mat floats
      → 0 < mat.n
      → pending s ≡ (write out (message_add_matrix m mat)).0 ++ rest
      → (r r' : Message) × (s' : S) × (read_from net host new_message s ≡ ok (r, s'))
        × (message_get_matrix r ≡ ok (record mat { owner = true }, r'))
        × (map (λ e. e.own) r'.elts ≡ true ∷ true ∷ false ∷ [])
        × (pending s' ≡ rest)
  message_get_matrix-message_add_matrix host m mat floats s rest v empty whole some_floats p =
      let sent = message_add_matrix m mat in
      let elts = sent_elts m mat floats empty whole in
      let (s', e, q) =
        read_from-write net out host sent s rest (sent-IsValid m mat floats empty whole v)
          (omega (arith, ap length elts)) p in
      let r = rebuilt (some host) sent sent.elts in
      let es = received_elts host sent mat floats elts (omega (arith, whole.full)) in
      let got =
        got_of r mat.height mat.width (le_bytes 8 mat.height) (le_bytes 8 mat.width) floats
          (size-enough mat.height) (size-enough mat.width)
          (size-value mat.height whole.height_small) (size-value mat.width whole.width_small) es
          ((rebuilt-IsReceived (some host) sent 3 sent.elts (rw elts refl)).ready
            ∙ ap first_cursor es)
          (allocated host sent mat floats elts) in
      (
        r,
        emptied r (le_bytes 8 mat.height) (le_bytes 8 mat.width) floats,
        s',
        e,
        got
            ∙ ap (λ i. ok (i, emptied r (le_bytes 8 mat.height) (le_bytes 8 mat.width) floats))
                same,
        refl,
        q,
      )
    where
      unwrapped : mat.n % 2 ^ 64 ≡ mat.n
      unwrapped = omega (arith, whole.few)

      same :
          record {
            height = mat.height;
            width = mat.width;
            n = mat.height * mat.width % 2 ^ 64;
            bytes = some floats;
            owner = true;
          }
          ≡ record mat { owner = true }
      same =
          ap₂
            (λ n b. record {
              height = mat.height;
              width = mat.width;
              n = n;
              bytes = b;
              owner = true;
            })
            (ap (λ k. k % 2 ^ 64) (sym whole.sized) ∙ unwrapped) (sym whole.holds)
