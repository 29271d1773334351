-- ===== src/Wire/Tests.antt =====
-- src/libagml_comm/tcp/Socket.cpp and src/libagml_comm/common/Message.cpp on a connection that hands out a byte
-- at a time.
use lib_agml.Common.{
  ℕ, ◌^◌, ◌≡◌, ◌⊎◌, refl, true, false, none, some, List, [], ◌∷◌, ◌++◌, drop, ok, err,
  socket_closed, socket_error, arith,
}
use lib_agml.Wire.Trickle.{dribble, linux}
use lib_agml.Wire.Socket.{read_exactly}
use lib_agml.Wire.Socket.Reads.{read_exactly-pending, read_exactly_short}
use lib_agml.Wire.Message.{Message, Cursor, new_message, write, read, elts_bytes}
use lib_agml.Wire.Message.RoundTrip.{IsValid, IsReceived, read-write}
use lib_agml.Wire.Message.Copy.{Heap, Letter, copy, IsCopy, copy-IsCopy}

read_exactly-pending_example :
    (s' : List ℕ) × (read_exactly dribble 2 (7 ∷ 8 ∷ 9 ∷ []) ≡ ok (7 ∷ 8 ∷ [], s')) × (s' ≡ 9 ∷ [])
read_exactly-pending_example =
    read_exactly-pending dribble (7 ∷ 8 ∷ 9 ∷ []) (7 ∷ 8 ∷ []) (9 ∷ []) refl

read_exactly_short_example :
    (read_exactly dribble 3 (7 ∷ []) ≡ err socket_closed)
    ⊎ (read_exactly dribble 3 (7 ∷ []) ≡ err socket_error)
read_exactly_short_example = read_exactly_short dribble 3 (7 ∷ []) (omega arith)

-- Two elements, the second one empty.
abbrev letter : Message
letter = record {
  from = none;
  src = 2 ^ 32;
  dst = 3;
  channel = 1;
  elts =
      record { buffer = some (4 ∷ 5 ∷ 6 ∷ []); size = 3; own = true }
      ∷ (record { buffer = none; size = 0; own = true } ∷ []);
  total_size = 3;
  data_allocated = false;
  cursor = Cursor.unset;
}

letter-IsValid : IsValid letter
letter-IsValid = record {
  src_small = omega arith;
  dst_small = omega arith;
  channel_small = omega arith;
  elts_valid = (
    record { small = omega arith; holds = omega arith },
    (record { small = omega arith; holds = tt }, tt),
  );
}

read-write_example :
    (r : Message) × (s' : List ℕ) × (read dribble new_message ((write linux letter).0 ++ (42 ∷ []))
      ≡ ok (r, s'))
    × IsReceived letter 2 r
    × (s' ≡ elts_bytes (drop 2 letter.elts) ++ (42 ∷ []))
read-write_example =
    read-write dribble linux letter ((write linux letter).0 ++ (42 ∷ [])) (42 ∷ []) letter-IsValid
      refl

-- A message with two elements that share a buffer, and a null one.
abbrev heap : Heap
heap = record { next = 1; buffers = λ a. 4 ∷ 5 ∷ 6 ∷ [] }

abbrev sharing : Letter
sharing = record {
  from = none;
  src = 2 ^ 32;
  dst = 3;
  channel = 1;
  elts =
      record { data_at = some 0; size = 3; own = false }
      ∷ (record { data_at = some 0; size = 2; own = false }
          ∷ (record { data_at = none; size = 0; own = true } ∷ []));
  total_size = 5;
  data_allocated = false;
}

copy-IsCopy_example :
    (c : Letter) × (h' : Heap) × (copy sharing heap ≡ ok (c, h')) × IsCopy sharing heap c h'
copy-IsCopy_example =
    copy-IsCopy sharing heap ((omega arith, omega arith), ((omega arith, omega arith), (refl, tt)))
