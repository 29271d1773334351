-- ===== src/Wire/Message.antt =====
-- src/libagml_comm/common/Message.{h,cpp}: messages, their cursor and their image on a socket. A `long`
-- and an `int` are kept as their bit patterns, below 2^64 and 2^32.
pub mod RoundTrip
pub mod Copy
pub mod Takes
pub mod Sent
use lib_agml.Common.{
  ℕ, zero, suc, ◌+◌, ◌-◌, ◌%◌, ◌^◌, ◌<◌, ◌≡◌, Bool, true, false, not, ◌||◌, ◌&&◌, Option, none,
  some, List, [], ◌∷◌, ◌++◌, ltb, ◌==◌, if◌then◌else◌, length, get_elem?, set, take, Result, ok,
  err, bad_access, data_overflow, ◌>>=◌, or_fail,
}
use lib_agml.Wire.Bytes.{le_bytes, le_value}
use lib_agml.Wire.Socket.{Net, Outlet, socket_write, read_exactly, read_int}

-- `data` is null or points to a buffer, of which this is what it holds when it is read or written; which messages
-- share a buffer is with Wire.Message.Copy.
pub record MessageElt : Type 0 where
  pub buffer : Option (List ℕ)
  pub size : ℕ
  pub own : Bool

-- The iterator `i` of a list: not set, at an element, or at `elts.end()`, where it stays when more
-- elements are added.
pub data Cursor : Type 0 where
  unset : Cursor
  at : ℕ → Cursor
  past : Cursor

pub record Message : Type 0 where
  pub from : Option ℕ
  pub src : ℕ
  pub dst : ℕ
  pub channel : ℕ
  pub elts : List MessageElt
  pub total_size : ℕ
  pub data_allocated : Bool
  pub cursor : Cursor

-- `Message()`
abbrev pub new_message : Message
new_message = record {
  from = none;
  src = 0;
  dst = 0;
  channel = 0;
  elts = [];
  total_size = 0;
  data_allocated = false;
  cursor = unset;
}

-- `add(data, size, bDisown)`
unfoldable pub add : Message → Option (List ℕ) → ℕ → Bool → Message
add m buffer size disown = record m {
  elts = m.elts ++ (record { buffer = buffer; size = size; own = not disown } ∷ []);
  total_size = (m.total_size + size) % 2 ^ 64;
}

abbrev pub first_cursor : List MessageElt → Cursor
first_cursor [] = past
first_cursor (e ∷ es) = at 0

-- `begin()`
unfoldable pub begin : Message → Message
begin m = record m { cursor = first_cursor m.elts }

-- `Message(src, dst, channel, data, size)`
unfoldable pub message_with : ℕ → ℕ → ℕ → Option (List ℕ) → ℕ → Message
unfolding add begin
message_with src dst channel buffer size =
    record (begin
      (add (record new_message { src = src; dst = dst; channel = channel }) buffer size false)) {
        data_allocated = false;
      }

-- `src == -1`
unfoldable pub is_sys_command : Message → Bool
is_sys_command m = m.src == 2 ^ 64 - 1

-- `set_command(int)`
unfoldable pub set_command_id : Message → ℕ → Message
set_command_id m id = record m { src = 2 ^ 64 - 1; dst = 2 ^ 64 - 1; channel = id }

unfoldable pub advance : Message → ℕ → Message
advance m k = record m { cursor = if ltb (k + 1) (length m.elts) then at (k + 1) else past }

unfoldable pub take_at : Message → Bool → Cursor → Result (MessageElt × Message)
unfolding advance
take_at m disown unset = err bad_access
take_at m disown past = err data_overflow
take_at m disown (at k) = do
  e ← or_fail (get_elem? m.elts k) bad_access
  let e' = record e { own = not disown }
  ok (e', advance (record m { elts = set m.elts k e' }) k)

-- `get_next(bDisown)`: the element under the cursor, which moves on; past the end it throws.
unfoldable pub get_next : Message → Bool → Result (MessageElt × Message)
unfolding take_at
get_next m disown = take_at m disown m.cursor

-- `get<T>()` of an integer type of `w` bytes.
unfoldable pub get_int : ℕ → Message → Result (ℕ × Message)
get_int w m = do
  r ← get_next m false
  b ← or_fail r.0.buffer bad_access
  if ltb (length b) w then err bad_access else ok (le_value (take w b), r.1)

-- The bytes that stand for one element.
pub elt_bytes : MessageElt → List ℕ
elt_bytes e = elim e.buffer [
  | none ↦ le_bytes 8 0
  | some b ↦ if e.size == 0 then le_bytes 8 0 else le_bytes 8 e.size ++ take e.size b
]

unfoldable pub elts_bytes : List MessageElt → List ℕ
elts_bytes [] = []
elts_bytes (e ∷ es) = elt_bytes e ++ elts_bytes es

-- The writes to the socket for one element.
unfoldable pub elt_pieces : MessageElt → List (List ℕ)
elt_pieces e = elim e.buffer [
  | none ↦ le_bytes 8 0 ∷ []
  | some b ↦ if e.size == 0 then le_bytes 8 0 ∷ [] else le_bytes 8 e.size ∷ (take e.size b ∷ [])
]

unfoldable pub elts_pieces : List MessageElt → List (List ℕ)
elts_pieces [] = []
elts_pieces (e ∷ es) = elt_pieces e ++ elts_pieces es

-- Some writes one after another, up to the first that throws: what is sent, and whether none threw.
unfoldable pub write_each : Outlet → List (List ℕ) → List ℕ × Bool
write_each out [] = ([], true)
write_each out (b ∷ bs) =
    let rest = write_each out bs in
    let r = socket_write out b in if r.1 then (r.0 ++ rest.0, rest.1) else (r.0, false)

-- `write(Socket*)`: the bytes sent, whether nothing threw, and the message after it. The number of elements is
-- cast to an `unsigned short`.
pub write : Outlet → Message → List ℕ × Bool × Message
write out m =
    let r = write_each out (
      le_bytes 8 m.src
      ∷ (le_bytes 8 m.dst
          ∷ (le_bytes 4 m.channel ∷ (le_bytes 2 (length m.elts % 2 ^ 16) ∷ elts_pieces m.elts)))) in
    (r.0, r.1, record m { from = none })

module _ (net : Net) where
  open net use {S}

  -- The body of the loop of `read`.
  pub read_elt : Message → S → Result (Message × S)
  read_elt m s = do
    r ← read_int net 8 s
    if r.0 == 0
        then ok (add m none 0 false, r.1)
        else (read_exactly net r.0 r.1 >>= λ d.
            ok (add (record m { data_allocated = true }) (some d.0) r.0 false, d.1))

  pub read_elts : ℕ → Message → S → Result (Message × S)
  read_elts zero m s = ok (m, s)
  read_elts (suc n) m s = read_elt m s >>= λ r. read_elts n r.0 r.1

  -- `read(Socket*)`
  pub read : Message → S → Result (Message × S)
  read m s = do
    a ← read_int net 8 s
    b ← read_int net 8 a.1
    c ← read_int net 4 b.1
    d ← read_int net 2 c.1
    e ← read_elts d.0 (record m { src = a.0; dst = b.0; channel = c.0 }) d.1
    ok (begin e.0, e.1)

  -- `read(Host*)`
  unfoldable pub read_from : ℕ → Message → S → Result (Message × S)
  read_from host m s = read (record m { from = some host }) s
