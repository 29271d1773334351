-- ===== src/Wire/Url/RoundTrip.antt =====
-- src/libagml_comm/tcp/Socket.cpp and src/libagml_comm/common/Host.cpp: reading the address that a host keeps.
use lib_agml.Common.{
  ℕ, zero, suc, ◌+◌, ◌-◌, ◌*◌, ◌/◌, ◌%◌, ◌^◌, ◌<◌, ◌≡◌, refl, sym, ap, ◌∙◌, inl, inr, true, false,
  none, some, List, [], ◌∷◌, ◌++◌, ltb, ◌==◌, length, take, drop, ok, arith, Bool-cases,
  Option-cases, lt→ltb, append_assoc, length-append,
}
use lib_agml.Str.Split.{drop-append, take-append}
use lib_agml.Wire.Url.{
  strchr, is_digit, is_space, after_spaces, digits_value, signed_value, atoi, decimal_from, decimal,
  Endpoint, parse_url, server_ip,
}

data AllDigits : List ℕ → Type 0 where
  no_digits : AllDigits []
  digit : (c : ℕ) (s : List ℕ) → is_digit c ≡ true → AllDigits s → AllDigits (c ∷ s)

digits_value-append :
    (acc : ℕ) (xs ys : List ℕ)
    → AllDigits xs
    → digits_value acc (xs ++ ys) ≡ digits_value (digits_value acc xs) ys
unfolding digits_value
digits_value-append acc xs ys no_digits = refl
digits_value-append acc xs ys (digit c s d h) =
    rw d (digits_value-append (acc * 10 + (c - 48)) s ys h)

AllDigits-append :
    (xs : List ℕ) (c : ℕ) → AllDigits xs → is_digit c ≡ true → AllDigits (xs ++ (c ∷ []))
AllDigits-append xs c no_digits d = digit c [] d no_digits
AllDigits-append xs c (digit x s e h) d = digit x (s ++ (c ∷ [])) e (AllDigits-append s c h d)

digits_value-one : (acc c : ℕ) → is_digit c ≡ true → digits_value acc (c ∷ []) ≡ acc * 10 + (c - 48)
unfolding digits_value
digits_value-one acc c d = rw d refl

decimal_from-value :
    (f n : ℕ) → n < f → AllDigits (decimal_from f n) × (digits_value 0 (decimal_from f n) ≡ n)
unfolding decimal_from
decimal_from-value zero n l = absurd (omega arith)
decimal_from-value (suc f) n l = elim (Bool-cases (ltb n 10)) [
  | inl b ↦
      let d : is_digit (48 + n) ≡ true = ground (arith, b) in
      rw b (digit (48 + n) [] d no_digits, digits_value-one 0 (48 + n) d ∙ omega arith)
  | inr b ↦
      let (digits, value) = decimal_from-value f (n / 10) (ground (arith, b, l)) in
      let last = 48 + n % 10 in
      let d : is_digit last ≡ true = ground arith in
      rw b (
        AllDigits-append (decimal_from f (n / 10)) last digits d,
        digits_value-append 0 (decimal_from f (n / 10)) (last ∷ []) digits
            ∙ digits_value-one (digits_value 0 (decimal_from f (n / 10))) last d
            ∙ omega (arith, value),
      )
]

after_spaces-AllDigits : (s : List ℕ) → AllDigits s → after_spaces s ≡ s
unfolding after_spaces
after_spaces-AllDigits s no_digits = refl
after_spaces-AllDigits s (digit c t d h) =
    let e : is_space c ≡ false = ground (arith, d) in rw e refl

signed_value-AllDigits : (s : List ℕ) → AllDigits s → signed_value s ≡ digits_value 0 s
unfolding signed_value digits_value
signed_value-AllDigits s no_digits = refl
signed_value-AllDigits s (digit c t d h) =
    let minus : (c == 45) ≡ false = ground (arith, d) in
    let plus : (c == 43) ≡ false = ground (arith, d) in rw (minus, plus) refl

-- A number below 2 ^ 32, printed and read by `atoi`, is that number again.
pub atoi-decimal : (n : ℕ) → n < 2 ^ 32 → atoi (decimal n) ≡ n
unfolding atoi decimal
atoi-decimal n l =
    let (digits, value) = decimal_from-value (suc n) n (omega arith) in
    ap (λ s. signed_value s % 2 ^ 32) (after_spaces-AllDigits (decimal_from (suc n) n) digits)
    ∙ ap (λ v. v % 2 ^ 32) (signed_value-AllDigits (decimal_from (suc n) n) digits ∙ value)
    ∙ omega arith

strchr-append :
    (s t : List ℕ) (c : ℕ) → strchr s c ≡ none → strchr (s ++ (c ∷ t)) c ≡ some (length s)
unfolding strchr
strchr-append [] t c h = let e : (c == c) ≡ true = ground arith in rw e refl
strchr-append (d ∷ s) t c h = elim (Bool-cases (d == c)) [
  | inl e ↦ absurd (ground (arith, h, e))
  | inr e ↦ elim (Option-cases (strchr s c)) [
    | inl m ↦ rw (e, strchr-append s t c m) refl
    | inr (i, m) ↦ absurd (ground (arith, h, e, m))
  ]
]

parse_url_found :
    (url : List ℕ) (i : ℕ)
    → strchr url 58 ≡ some i
    → i < 256
    → parse_url url ≡ ok (record { ip = take i url; port = atoi (drop (i + 1) url) % 2 ^ 16 })
unfolding parse_url
parse_url_found url i h l = rw (parse_url, h) (rw (lt→ltb i 256 l) refl)

-- The url that a host keeps of a socket whose ip has no colon and fits in its buffer, and whose port has
-- 16 bits, is read as that ip and that port.
pub parse_url-server_ip :
    (e : Endpoint)
    → strchr e.ip 58 ≡ none
    → length e.ip < 256
    → e.port < 2 ^ 16
    → parse_url (server_ip e) ≡ ok e
unfolding server_ip
parse_url-server_ip e free fits small =
    let n = length e.ip in
    let text = decimal e.port in
    let port : drop (n + 1) (e.ip ++ (58 ∷ text)) ≡ text =
      ap (drop (n + 1)) (sym (append_assoc e.ip (58 ∷ []) text))
      ∙ ap (λ k. drop k ((e.ip ++ (58 ∷ [])) ++ text)) (sym (length-append e.ip (58 ∷ [])))
      ∙ drop-append (e.ip ++ (58 ∷ [])) text in
    parse_url_found (server_ip e) n (strchr-append e.ip text 58 free) fits
    ∙ ap (λ t. ok (record { ip = t; port = atoi (drop (n + 1) (server_ip e)) % 2 ^ 16 }))
        (take-append e.ip (58 ∷ text))
    ∙ ap (λ p. ok (record { ip = e.ip; port = p }))
        (ap (λ t. atoi t % 2 ^ 16) port
          ∙ ap (λ p. p % 2 ^ 16) (atoi-decimal e.port (omega (arith, small)))
          ∙ omega (arith, small))
