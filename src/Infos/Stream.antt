-- ===== src/Infos/Stream.antt =====
-- src/libagml_comm/util/utils.h and utils.cpp: values written through a moving pointer and read back.
use lib_agml.Common.{
  ℕ, ◌+◌, ◌^◌, ◌<◌, ◌≡◌, ◌≢◌, refl, Bool, Option, none, some, List, [], ◌∷◌, ◌++◌, ltb, ◌==◌,
  if◌then◌else◌, length, take, drop, replicate, Result, ok, err, bad_access, ◌>>=◌, arith,
  length-append, append_assoc, le→ltb,
}
use lib_agml.Wire.Bytes.{le_bytes, le_value, le_value-le_bytes, length-le_bytes}
use lib_agml.Str.Split.{take-append, drop-append}

-- The pointer `p` as the number of bytes that it has passed, and what was stored through it.
pub record Stream : Type 0 where
  pub offset : ℕ
  pub bytes : List ℕ

-- The pointer moves on by the size of a value, which is stored in the second pass alone.
unfoldable pub put : Bool → ℕ → List ℕ → Stream → Stream
put is_write n content s = record {
  offset = s.offset + n;
  bytes = if is_write then s.bytes ++ content else s.bytes;
}

-- `ptrstream_write` of a pointer to a value of `n` bytes: a null pointer writes zeros.
abbrev pub content_of : ℕ → Option (List ℕ) → List ℕ
content_of n none = replicate n 0
content_of n (some v) = v

unfoldable pub write_value : Bool → ℕ → Option (List ℕ) → Stream → Stream
write_value is_write n val s = put is_write n (content_of n val) s

unfoldable pub write_size : Bool → ℕ → Stream → Stream
write_size is_write n s = write_value is_write 8 (some (le_bytes 8 n)) s

-- `ptrstream_write` of a string
unfoldable pub write_text : Bool → List ℕ → Stream → Stream
write_text is_write t s = put is_write (length t) t (write_size is_write (length t) s)

-- The bytes from `p` on; `ptrstream_read` of a value of `n` bytes.
unfoldable pub read_value : ℕ → List ℕ → Result (List ℕ × List ℕ)
read_value n p = if ltb (length p) n then err bad_access else ok (take n p, drop n p)

unfoldable pub read_size : List ℕ → Result (ℕ × List ℕ)
read_size p = read_value 8 p >>= λ r. ok (le_value r.0, r.1)

-- What a C string keeps of some bytes.
pub until_nul : List ℕ → List ℕ
until_nul [] = []
until_nul (c ∷ s) = let rest = until_nul s in if c == 0 then [] else c ∷ rest

-- `ptrstream_read<std::string>`
unfoldable pub read_text : List ℕ → Result (List ℕ × List ℕ)
read_text p = do l ← read_size p; r ← read_value l.0 l.1; ok (until_nul r.0, r.1)

pub read_value-append :
    (n : ℕ) (v rest : List ℕ) → length v ≡ n → read_value n (v ++ rest) ≡ ok (v, rest)
unfolding read_value
read_value-append n v rest e =
    rw
      (
        ← e,
        le→ltb (length (v ++ rest)) (length v) (omega (arith, length-append v rest)),
        take-append v rest,
        drop-append v rest,
      )
      refl

pub read_size-append :
    (n : ℕ) (rest : List ℕ) → n < 2 ^ 64 → read_size (le_bytes 8 n ++ rest) ≡ ok (n, rest)
unfolding read_size
read_size-append n rest h =
    rw (read_value-append 8 (le_bytes 8 n) rest (length-le_bytes 8 n), le_value-le_bytes 8 n h) refl

-- No byte of the text ends a C string.
abbrev pub NoNul : List ℕ → Type 0
NoNul [] = Unit {0}
NoNul (c ∷ s) = (c ≢ 0) × NoNul s

until_nul_same : (t : List ℕ) → NoNul t → until_nul t ≡ t
unfolding until_nul
until_nul_same [] h = refl
until_nul_same (c ∷ s) h = ground (arith, h.0, until_nul_same s h.1)

-- A text that can be read back.
pub record IsText (t : List ℕ) : Type 0 where
  pub short : length t < 2 ^ 64
  pub no_nul : NoNul t

-- The bytes of a written text.
abbrev pub text_bytes : List ℕ → List ℕ
text_bytes t = le_bytes 8 (length t) ++ t

pub read_text-append :
    (t rest : List ℕ) → IsText t → read_text (text_bytes t ++ rest) ≡ ok (t, rest)
unfolding read_text
read_text-append t rest v =
    rw
      (
        append_assoc (le_bytes 8 (length t)) t rest,
        read_size-append (length t) (t ++ rest) v.short,
        read_value-append (length t) t rest refl,
        until_nul_same t v.no_nul,
      )
      refl
