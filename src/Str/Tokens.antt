-- ===== src/Str/Tokens.antt =====
-- src/libagml_comm/util/string.h: the loop over the tokens of a text.
use lib_agml.Common.{
  ℕ, zero, suc, ◌+◌, ◌-◌, ◌^◌, ◌<◌, ◌≤◌, ◌≡◌, refl, ap, sym, ◌∙◌, inl, inr, false, none, some, List,
  [], ◌∷◌, ◌++◌, ◌==◌, if◌then◌else◌, length, take, drop, Result, ok, err, out_of_fuel, ◌>>=◌,
  arith, append_assoc, length-append, length-take, length-drop, Option-cases,
}
use lib_agml.Str.{first, is_prefix, find, substr, npos, size_add}
use lib_agml.Str.Split.{drop-append, first-suc, first-zero, first-nil, substr-inner, substr-tail}
use lib_agml.Str.Replace.{find_at}

-- The token that `__for_each_token_init` and `__for_each_token_update` set: from `i` up to `j`.
pub token : List ℕ → ℕ → ℕ → Result (List ℕ)
token arg i j = if j == npos then substr arg i npos else substr arg i (j - i)

-- The loop `FOR_EACH_TOKEN`, a round per unit of fuel; the text of a round is taken before it. The next one
-- begins behind the separator at `j`, unless there was none; `j + 1` is not `npos` in a text that fits in memory.
pub token_loop : ℕ → List ℕ → ℕ → ℕ → ℕ → Result (List (List ℕ))
token_loop zero arg tok i j = err out_of_fuel
token_loop (suc f) arg tok i j =
    let next = size_add j 1 in
    let rest = token_loop f arg tok next (find arg (tok ∷ []) next) in
    token arg i j >>= λ s. if j == npos then ok (s ∷ []) else (rest >>= λ ss. ok (s ∷ ss))

-- `FOR_EACH_TOKEN`
pub for_each_token : List ℕ → ℕ → Result (List (List ℕ))
for_each_token arg tok = token_loop (length arg + 2) arg tok 0 (find arg (tok ∷ []) 0)

-- No separator is in the token.
abbrev pub IsFree : ℕ → List ℕ → Type 0
IsFree tok t = first (tok ∷ []) t ≡ none

abbrev pub AllFree : ℕ → List (List ℕ) → Type 0
AllFree tok [] = Unit {0}
AllFree tok (t ∷ ts) = IsFree tok t × AllFree tok ts

-- Tokens with a separator between each two.
abbrev pub joined : ℕ → List (List ℕ) → List ℕ
joined tok [] = []
joined tok (t ∷ []) = t
joined tok (t ∷ (u ∷ us)) = t ++ (tok ∷ joined tok (u ∷ us))

-- What the separator's first place cuts a text into.
record IsSplit (tok : ℕ) (s : List ℕ) (i : ℕ) : Type 0 where
  within : i < length s
  free : IsFree tok (take i s)
  parts : s ≡ take i s ++ (tok ∷ drop (i + 1) s)

byte-IsSplit : (tok : ℕ) (s : List ℕ) (i : ℕ) → first (tok ∷ []) s ≡ some i → IsSplit tok s i
unfolding first is_prefix
byte-IsSplit tok [] zero h = absurd (ground arith)
byte-IsSplit tok [] (suc i) h = absurd (first-nil (tok ∷ []) i h)
byte-IsSplit tok (c ∷ s) zero h =
    let e : tok ≡ c = ground (arith, first-zero (tok ∷ []) (c ∷ s) h) in
    record { within = omega arith; free = refl; parts = ap (λ d. d ∷ s) (sym e) }
byte-IsSplit tok (c ∷ s) (suc i) h =
    let (miss, rest) = first-suc (tok ∷ []) c s i h in
    let v = byte-IsSplit tok s i rest in
    record {
      within = omega (arith, v.within);
      free = rw (miss, v.free) refl;
      parts = ap (λ t. c ∷ t) v.parts ∙ ap (λ k. c ∷ (take i s ++ (tok ∷ drop k (c ∷ s)))) suc_out;
    }
  where
    suc_out : suc (i + 1) ≡ suc i + 1
    suc_out = omega arith

token-last :
    (done rest : List ℕ)
    → length (done ++ rest) < npos
    → token (done ++ rest) (length done) npos ≡ ok rest
unfolding token
token-last done rest l =
    substr-tail (done ++ rest) (length done) npos (omega (arith, length-append done rest))
      (omega (arith, l))
    ∙ ap ok (drop-append done rest)

token-inner :
    (done rest : List ℕ) (i : ℕ)
    → i ≤ length rest
    → length (done ++ rest) < npos
    → token (done ++ rest) (length done) (length done + i) ≡ ok (take i rest)
unfolding token
token-inner done rest i h l = rw inner (
    substr-inner (done ++ rest) (length done) (length done + i - length done)
      (omega (arith, length-append done rest))
    ∙ ap ok (
        ap (λ t. take (length done + i - length done) t) (drop-append done rest)
        ∙ ap (λ k. take k rest) back))
  where
    inner : (length done + i == npos) ≡ false
    inner = ground (arith, length-append done rest, l, h)

    back : length done + i - length done ≡ i
    back = omega arith

-- The tokens of what is left of a text, the first of them and the others.
record IsTokens (tok : ℕ) (s : List ℕ) (r : Result (List (List ℕ))) : Type 0 where
  head : List ℕ
  others : List (List ℕ)
  returns : r ≡ ok (head ∷ others)
  joins : joined tok (head ∷ others) ≡ s
  frees : AllFree tok (head ∷ others)

token_loop-IsTokens :
    (f : ℕ) (tok : ℕ) (done rest : List ℕ)
    → length rest < f
    → length (done ++ rest) < npos
    → IsTokens tok rest (
        token_loop f
          (done ++ rest)
          tok
          (length done)
          (find (done ++ rest) (tok ∷ []) (length done)))
unfolding token_loop
token_loop-IsTokens zero tok done rest l m = absurd (omega arith)
token_loop-IsTokens (suc f) tok done rest l m = elim (Option-cases (first (tok ∷ []) rest)) [
  | inl e ↦ record {
    head = rest;
    others = [];
    returns = rw (find_at done rest (tok ∷ []), e, token-last done rest m) refl;
    joins = refl;
    frees = (e, tt);
  }
  | inr (i, e) ↦
      let v = byte-IsSplit tok rest i e in
      let done' = done ++ (take i rest ++ (tok ∷ [])) in
      let rest' = drop (i + 1) rest in
      let whole : done ++ rest ≡ done' ++ rest' =
        ap (λ t. done ++ t) (v.parts ∙ sym (append_assoc (take i rest) (tok ∷ []) rest'))
        ∙ sym (append_assoc done (take i rest ++ (tok ∷ [])) rest') in
      let less : length rest' < f = omega (arith, v.within, length-drop (i + 1) rest) in
      let h = token_loop-IsTokens f tok done' rest' less (omega (arith, m, ap length whole)) in
      let more : (length done + i == npos) ≡ false =
        ground (arith, v.within, m, length-append done rest) in
      let next : size_add (length done + i) 1 ≡ length done' = omega (
        arith,
        v.within,
        m,
        length-append done rest,
        length-append done (take i rest ++ (tok ∷ [])),
        length-append (take i rest) (tok ∷ []),
        length-take i rest,
      ) in
      record {
        head = take i rest;
        others = h.head ∷ h.others;
        returns =
            rw (find_at done rest (tok ∷ []), e, token_loop)
              (rw
                (token-inner done rest i (omega (arith, v.within)) m, more, next, whole, h.returns)
                refl);
        joins = ap (λ t. take i rest ++ (tok ∷ t)) h.joins ∙ sym v.parts;
        frees = (v.free, h.frees);
      }
]

-- The loop over the tokens of a text that fits in a string ends, with tokens that have no separator in them, and
-- that are the text again when they are joined by separators.
pub for_each_token-joined :
    (arg : List ℕ) (tok : ℕ)
    → length arg < 2 ^ 64 - 1
    → (ts : List (List ℕ)) × (for_each_token arg tok ≡ ok ts)
      × (joined tok ts ≡ arg)
      × AllFree tok ts
unfolding for_each_token
for_each_token-joined arg tok l =
    let v = token_loop-IsTokens (length arg + 2) tok [] arg (omega arith) l in
    (v.head ∷ v.others, v.returns, v.joins, v.frees)
