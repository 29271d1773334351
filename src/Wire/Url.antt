-- ===== src/Wire/Url.antt =====
-- src/libagml_comm/tcp/Socket.cpp and src/libagml_comm/common/Host.cpp: the address that a client socket reads from
-- a url, and the one that a host keeps of its socket. A C string is the list of its bytes, without the last zero,
-- and an `int` the bit pattern of its 32 bits.
pub mod RoundTrip
mod Tests
use lib_agml.Common.{
  ℕ, zero, suc, ◌+◌, ◌-◌, ◌*◌, ◌/◌, ◌%◌, ◌^◌, Bool, ◌&&◌, ◌||◌, Option, none, some, List, [], ◌∷◌,
  ◌++◌, ltb, leb, ◌==◌, if◌then◌else◌, length, take, drop, Result, ok, err, bad_access,
}

-- `strchr`: how far the byte is from the start.
unfoldable pub strchr : List ℕ → ℕ → Option ℕ
strchr [] c = none
strchr (d ∷ s) c =
    if d == c then some 0 else elim (strchr s c) [ none ↦ none | some i ↦ some (suc i) ]

abbrev pub is_space : ℕ → Bool
is_space c = c == 32 || (leb 9 c && leb c 13)

abbrev pub is_digit : ℕ → Bool
is_digit c = leb 48 c && leb c 57

unfoldable pub after_spaces : List ℕ → List ℕ
after_spaces [] = []
after_spaces (c ∷ s) = let rest = after_spaces s in if is_space c then rest else c ∷ s

-- The number that digits go on with, up to the first byte that is none.
unfoldable pub digits_value : ℕ → List ℕ → ℕ
digits_value acc [] = acc
digits_value acc (c ∷ s) =
    let rest = digits_value (acc * 10 + (c - 48)) s in if is_digit c then rest else acc

unfoldable pub negative : ℕ → ℕ
negative n = (2 ^ 32 - n % 2 ^ 32) % 2 ^ 32

unfoldable pub signed_value : List ℕ → ℕ
signed_value [] = 0
signed_value (c ∷ s) =
    if c == 45
    then negative (digits_value 0 s)
    else (if c == 43 then digits_value 0 s else digits_value 0 (c ∷ s))

-- `atoi`, on numbers that are an `int`.
unfoldable pub atoi : List ℕ → ℕ
atoi s = signed_value (after_spaces s) % 2 ^ 32

-- A number in decimal digits, on fuel.
unfoldable pub decimal_from : ℕ → ℕ → List ℕ
decimal_from zero n = []
decimal_from (suc f) n =
    let high = decimal_from f (n / 10) in
    if ltb n 10 then (48 + n) ∷ [] else high ++ ((48 + n % 10) ∷ [])

-- A number put on a stream.
unfoldable pub decimal : ℕ → List ℕ
decimal n = decimal_from (suc n) n

-- `Socket::ip`, a buffer of 256 bytes, and `Socket::port`, an `unsigned short`.
pub record Endpoint : Type 0 where
  pub ip : List ℕ
  pub port : ℕ

-- `DEFAULT_PORT`
abbrev pub default_port : ℕ
default_port = 10001

-- `Socket::Socket(const char* url, bool)`, up to the connection.
unfoldable pub parse_url : List ℕ → Result Endpoint
parse_url url = elim (strchr url 58) [
  | some i ↦
      if ltb i 256
      then ok (record { ip = take i url; port = atoi (drop (i + 1) url) % 2 ^ 16 })
      else err bad_access
  | none ↦
      if ltb (length url) 256 then ok (record { ip = url; port = default_port }) else err bad_access
]

-- `Host::server_ip` of a host with a socket.
unfoldable pub server_ip : Endpoint → List ℕ
server_ip e = e.ip ++ (58 ∷ decimal e.port)
