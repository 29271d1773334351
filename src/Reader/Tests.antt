-- ===== src/Reader/Tests.antt =====
-- src/libagml_comm/topology/TopologyReader.cpp on a statement.
use lib_agml.Common.{◌≡◌, refl, true, false, [], ◌∷◌, ok, arith}
use lib_agml.Str.{is_space, is_prefix, str_starts_with}
use lib_agml.Reader.{parse_statement, connects}
use lib_agml.Reader.Words.{IsTrimmed}
use lib_agml.Reader.Connect.{to_local, connection, parse-connection}

letter-IsTrimmed : IsTrimmed (71 ∷ [])
unfolding is_space
letter-IsTrimmed = record { starts = refl; ends = refl }

not_host :
    str_starts_with (connection to_local (71 ∷ []) (71 ∷ [])) (72 ∷ 111 ∷ 115 ∷ 116 ∷ 32 ∷ [])
    ≡ false
unfolding str_starts_with is_prefix
not_host = refl

-- `G -L> G`
parse-connection_example :
    parse_statement (71 ∷ 32 ∷ 45 ∷ 76 ∷ 62 ∷ 32 ∷ 71 ∷ [])
    ≡ ok (connects (71 ∷ []) (71 ∷ []) false true)
parse-connection_example =
    parse-connection to_local (71 ∷ []) (71 ∷ []) letter-IsTrimmed letter-IsTrimmed
      (omega arith, tt) (omega arith, tt) (omega arith) not_host
