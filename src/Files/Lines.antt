-- ===== src/Files/Lines.antt =====
-- src/libagml_comm/util/file.cpp: what is read of a file are its lines.
use lib_agml.Common.{
  if◌then◌else◌, ltb, ◌^◌, err, out_of_fuel, ℕ, zero, suc, ◌+◌, ◌<◌, ◌≡◌, refl, sym, ap, ◌∙◌, inl,
  inr, true, false, some, List, [], ◌∷◌, ◌++◌, ◌==◌, length, take, drop, Result, ok, arith,
  Bool-cases, append_assoc, append-nil, length-append,
}
use lib_agml.Files.{
  Got, getline, rfind, file_basename, file_dirname, read_loop, f_read_lines, f_write_lines,
  lines_text,
}

-- No newline is in the text.
pub data IsLine : List ℕ → Type 0 where
  no_bytes : IsLine []
  byte : (c : ℕ) (s : List ℕ) → (c == 10) ≡ false → IsLine s → IsLine (c ∷ s)

pub data AllLines : List (List ℕ) → Type 0 where
  no_lines : AllLines []
  line : (l : List ℕ) (ls : List (List ℕ)) → IsLine l → AllLines ls → AllLines (l ∷ ls)

-- What `getline` takes off a stream: a line with its newline, or all of a stream without one.
data IsGot (f : List ℕ) (g : Got) : Type 0 where
  ended : g.good ≡ false → IsLine f → IsGot f g
  got : g.good ≡ true → IsLine g.line → f ≡ g.line ++ (10 ∷ g.rest) → IsGot f g

getline-IsGot : (f : List ℕ) → IsGot f (getline f)
unfolding getline
getline-IsGot [] = ended refl no_bytes
getline-IsGot (c ∷ s) = elim (Bool-cases (c == 10)) [
  | inl e ↦ rw e (got refl no_bytes (ap (λ d. d ∷ s) (ground (arith, e))))
  | inr e ↦ rw e (grown e (getline-IsGot s))
]
  where
    grown :
        (c == 10) ≡ false
        → IsGot s (getline s)
        → IsGot (c ∷ s) (record {
          line = c ∷ (getline s).line;
          rest = (getline s).rest;
          good = (getline s).good;
        })
    grown e (ended b l) = ended b (byte c s e l)
    grown e (got b l w) = got b (byte c (getline s).line e l) (ap (λ t. c ∷ t) w)

-- What is read after the lines there were, and what is left out at the end.
record IsRead (f : List ℕ) (lines : List (List ℕ)) (r : Result (List (List ℕ))) : Type 0 where
  found : List (List ℕ)
  tail : List ℕ
  returns : r ≡ ok (lines ++ found)
  whole : lines_text found ++ tail ≡ f
  each : AllLines found
  last : IsLine tail

read_loop-IsRead :
    (n : ℕ) (f : List ℕ) (lines : List (List ℕ))
    → length f < n
    → IsRead f lines (read_loop n f lines)
unfolding read_loop lines_text
read_loop-IsRead zero f lines l = absurd (omega arith)
read_loop-IsRead (suc n) f lines l =
    cut (getline-IsGot f) (λ ls less. read_loop-IsRead n (getline f).rest ls less)
  where
    g : Got
    g = getline f

    cut :
        IsGot f g
        → ((ls : List (List ℕ)) → length g.rest < n → IsRead g.rest ls (read_loop n g.rest ls))
        → IsRead f lines (read_loop (suc n) f lines)
    cut (ended b h) again = record {
      found = [];
      tail = f;
      returns = rw (b, append-nil lines) refl;
      whole = refl;
      each = no_lines;
      last = h;
    }
    cut (got b h w) again =
        let less : length g.rest < n =
          omega (arith, l, ap length w, length-append g.line (10 ∷ g.rest)) in
        let v = again (lines ++ (g.line ∷ [])) less in
        record {
          found = g.line ∷ v.found;
          tail = v.tail;
          returns = rw b (v.returns ∙ ap ok (append_assoc lines (g.line ∷ []) v.found));
          whole =
              append_assoc g.line (10 ∷ lines_text v.found) v.tail
              ∙ ap (λ t. g.line ++ (10 ∷ t)) v.whole
              ∙ sym w;
          each = line g.line v.found h v.each;
          last = v.last;
        }

-- Reading the lines of any file ends, and adds to the lines that there were lines without newlines, which with a
-- newline each are the file but for what follows its last newline, which is left out; writing them gives that text
-- again, unless they are 2^32 or more.
pub f_read_lines-f_write_lines :
    (f : List ℕ) (lines : List (List ℕ))
    → (ls : List (List ℕ)) × (tail : List ℕ) × (f_read_lines (some f) lines ≡ ok (lines ++ ls))
      × (lines_text ls ++ tail ≡ f)
      × (f_write_lines ls
          ≡ (if ltb (length ls) (2 ^ 32) then ok (lines_text ls) else err out_of_fuel))
      × AllLines ls
      × IsLine tail
unfolding f_read_lines f_write_lines
f_read_lines-f_write_lines f lines =
    let v = read_loop-IsRead (length f + 1) f lines (omega arith) in
    (v.found, v.tail, v.returns, v.whole, refl, v.each, v.last)

rfind-parts : (s : List ℕ) (c i : ℕ) → rfind s c ≡ some i → take i s ++ (c ∷ drop (i + 1) s) ≡ s
unfolding rfind
rfind-parts [] c i h = absurd (cc)
rfind-parts (d ∷ s) c zero h = let e : c ≡ d = ground (arith, h) in ap (λ b. b ∷ s) e
rfind-parts (d ∷ s) c (suc k) h =
    let e : rfind s c ≡ some k = ground (arith, h) in
    ap (λ n. d ∷ (take k s ++ (c ∷ drop n (d ∷ s)))) further ∙ ap (λ t. d ∷ t) (rfind-parts s c k e)
  where
    further : suc k + 1 ≡ suc (k + 1)
    further = omega arith

-- A file name with a slash is its directory's name, a slash and its own.
pub file_dirname-file_basename :
    (file : List ℕ) (i : ℕ)
    → rfind file 47 ≡ some i
    → file_dirname file ++ (47 ∷ file_basename file) ≡ file
unfolding file_dirname file_basename
file_dirname-file_basename file i h = rw (h, file_dirname, file_basename) (rfind-parts file 47 i h)
