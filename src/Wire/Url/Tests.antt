-- ===== src/Wire/Url/Tests.antt =====
-- src/libagml_comm/tcp/Socket.cpp and src/libagml_comm/common/Host.cpp: addresses of sockets.
use lib_agml.Common.{◌≡◌, refl, none, [], ◌∷◌, ok, arith}
use lib_agml.Wire.Url.{
  Endpoint, strchr, atoi, decimal, decimal_from, digits_value, signed_value, after_spaces,
  parse_url, server_ip, default_port,
}
use lib_agml.Wire.Url.RoundTrip.{parse_url-server_ip}

-- 1.2:80
abbrev near : Endpoint
near = record { ip = 49 ∷ 46 ∷ 50 ∷ []; port = 80 }

near_server_ip : server_ip near ≡ 49 ∷ 46 ∷ 50 ∷ 58 ∷ 56 ∷ 48 ∷ []
unfolding server_ip decimal decimal_from
near_server_ip = refl

near_default : parse_url near.ip ≡ ok (record { ip = near.ip; port = default_port })
unfolding parse_url strchr
near_default = refl

-- A port that is no number is 0, and blanks and a sign may stand before one.
atoi_blank : atoi (32 ∷ 9 ∷ 43 ∷ 55 ∷ 120 ∷ 56 ∷ []) ≡ 7
unfolding atoi signed_value after_spaces digits_value
atoi_blank = refl

near_free : strchr near.ip 58 ≡ none
unfolding strchr
near_free = refl

parse_url-server_ip_example : parse_url (server_ip near) ≡ ok near
parse_url-server_ip_example = parse_url-server_ip near near_free (omega arith) (omega arith)
