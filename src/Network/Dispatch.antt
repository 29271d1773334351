-- ===== src/Network/Dispatch.antt =====
-- src/libagml_comm/common/Host.{h,cpp}: the commands that a host is sent, and what is done with a message that comes
-- from one.
use lib_agml.Common.{
  some-injective, ℕ, ◌≤◌, ◌+◌, ◌-◌, ◌^◌, ◌≡◌, ◌<◌, refl, ap, sym, ◌∙◌, true, false, Option, none,
  some, List, [], ◌∷◌, ◌++◌, ◌==◌, if◌then◌else◌, length, take, drop, map, ◌%◌, Result, ok, ◌>>=◌,
  arith, length-append,
}
use lib_agml.Wire.Socket.{Net, Outlet}
use lib_agml.Wire.Message.{
  Message, MessageElt, Cursor, first_cursor, add, begin, new_message, message_with, is_sys_command,
  get_next, take_at, write, read, elts_bytes,
}
use lib_agml.Wire.Message.RoundTrip.{IsValid, received, read-write}
use lib_agml.Topology.{Topology}
use lib_agml.Topology.Routing.{decode_local_node}
use lib_agml.Network.{Command, command_id, exec_by_id, exec_by_name}
use lib_agml.Network.Table.{command_id-handler}

-- What `Host::on_receive` does: it runs the handler of a command, if there is one, on the bytes of the first
-- element, or puts the message in the queue of the thread of a node.
pub data Arrival : Type 0 where
  runs : Option Command → Option (List ℕ) → ℕ → Arrival
  queues : ℕ → Message → Arrival

-- `Host::on_receive`
unfoldable pub on_receive : Topology → Message → Result Arrival
on_receive t m =
    if is_sys_command m
    then (do r ← get_next m false; c ← exec_by_id m.channel; ok (runs c r.0.buffer r.0.size))
    else (decode_local_node t m.dst >>= λ n. ok (queues n m))

-- `Host::send_command(int, …)`
unfoldable pub send_command : ℕ → Option (List ℕ) → ℕ → Message
send_command id buffer size = message_with (2 ^ 64 - 1) (2 ^ 64 - 1) id buffer size

-- `Host::send_sys_command(const std::string&, const std::string&)`: the message that is sent, if any; the
-- text goes with its terminator.
unfoldable pub send_sys_command : List ℕ → List ℕ → Option Message
send_sys_command name params = elim (command_id name) [
  | none ↦ none
  | some id ↦ some (send_command id (some (params ++ (0 ∷ []))) (length params + 1))
]

-- A message with a single element is dispatched by its header.
on_receive_sys :
    (t : Topology) (r : Message) (e : MessageElt) (c : Option Command)
    → r.src ≡ 2 ^ 64 - 1
    → exec_by_id r.channel ≡ ok c
    → r.elts ≡ e ∷ []
    → r.cursor ≡ Cursor.at 0
    → on_receive t r ≡ ok (runs c e.buffer e.size)
unfolding on_receive is_sys_command get_next take_at
on_receive_sys t r e c src exec elts cursor = rw (cursor, elts, src, exec) refl

take_all : (xs : List ℕ) → take (length xs) xs ≡ xs
take_all [] = refl
take_all (x ∷ xs) = ap (λ t. x ∷ t) (take_all xs)

abbrev terminated : List ℕ → List ℕ
terminated params = params ++ (0 ∷ [])

length-terminated : (params : List ℕ) → length (terminated params) ≡ length params + 1
length-terminated params = length-append params (0 ∷ [])

abbrev text_elt : List ℕ → MessageElt
text_elt params = record { buffer = some (terminated params); size = length params + 1; own = true }

received-text_elt : (params : List ℕ) → received (text_elt params) ≡ text_elt params
received-text_elt params = rw (some_bytes, all) refl
  where
    some_bytes : (length params + 1 == 0) ≡ false
    some_bytes = ground arith

    all : take (length params + 1) (terminated params) ≡ terminated params
    all =
        ap (λ n. take n (terminated params)) (sym (length-terminated params))
        ∙ take_all (terminated params)

send_command-IsValid :
    (id : ℕ) (params : List ℕ)
    → id < 2 ^ 32
    → length params + 1 ≤ 2 ^ 31 - 4096
    → IsValid (send_command id (some (terminated params)) (length params + 1))
unfolding send_command message_with add begin
send_command-IsValid id params h l = record {
  src_small = omega arith;
  dst_small = omega arith;
  channel_small = omega (arith, h);
  elts_valid =
      (record { small = omega (arith, l); holds = omega (arith, length-terminated params) }, tt);
}

module _ (net : Net) (out : Outlet) where
  open net use {S, pending}

  -- A command with one element arrives and is dispatched.
  pub message_arrives :
      (t : Topology) (m : Message) (e : MessageElt) (c : Option Command) (s : S) (rest : List ℕ)
      → IsValid m
      → m.src ≡ 2 ^ 64 - 1
      → exec_by_id m.channel ≡ ok c
      → m.elts ≡ e ∷ []
      → received e ≡ e
      → pending s ≡ (write out m).0 ++ rest
      → (r : Message) × (s' : S) × (read net new_message s ≡ ok (r, s'))
        × (on_receive t r ≡ ok (runs c e.buffer e.size))
        × (pending s' ≡ rest)
  unfolding elts_bytes
  message_arrives t m e c s rest v src exec elts whole p =
      let (r, s', er, i, q) = read-write net out m s rest v p in
      let copies : r.elts ≡ e ∷ [] =
        i.copies
        ∙ ap (λ es. map received (take (length es % 2 ^ 16) es)) elts
        ∙ ap (λ x. x ∷ []) whole in
      (
        r,
        s',
        er,
        on_receive_sys t r e c (i.same_src ∙ src) (ap exec_by_id i.same_channel ∙ exec) copies
            (i.ready ∙ ap first_cursor copies),
        q ∙ ap (λ es. elts_bytes (drop (length es % 2 ^ 16) es) ++ rest) elts,
      )

  command_arrives :
      (t : Topology) (id : ℕ) (c : Option Command) (params : List ℕ) (s : S) (rest : List ℕ)
      → exec_by_id id ≡ ok c
      → id < 2 ^ 32
      → length params + 1 ≤ 2 ^ 31 - 4096
      → pending s
        ≡ (write out (send_command id (some (terminated params)) (length params + 1))).0 ++ rest
      → (r : Message) × (s' : S) × (read net new_message s ≡ ok (r, s'))
        × (on_receive t r ≡ ok (runs c (some (terminated params)) (length params + 1)))
        × (pending s' ≡ rest)
  unfolding send_command message_with add begin
  command_arrives t id c params s rest e h l p =
      message_arrives t (send_command id (some (terminated params)) (length params + 1))
        (text_elt params) c s rest (send_command-IsValid id params h l) refl e refl
        (received-text_elt params) p

  -- A command that is sent by a name of the table, and whose message is all that a host has sent before `rest`, is
  -- read off the connection in any pieces and runs the handler of that name at the other end, on the text and its
  -- terminator; this holds for a text that has at most 0x7ffff000 bytes with the terminator, as many as a write takes
  -- whole.
  pub on_receive-send_sys_command :
      (t : Topology) (name params : List ℕ) (m : Message) (s : S) (rest : List ℕ)
      → send_sys_command name params ≡ some m
      → length params + 1 ≤ 2 ^ 31 - 4096
      → pending s ≡ (write out m).0 ++ rest
      → (r : Message) × (s' : S) × (h : Command) × (read net new_message s ≡ ok (r, s'))
        × (exec_by_name name ≡ some h)
        × (on_receive t r ≡ ok (runs (some h) (some (params ++ (0 ∷ []))) (length params + 1)))
        × (pending s' ≡ rest)
  unfolding send_sys_command
  on_receive-send_sys_command t name params m s rest sent l p =
      by_number (command_id name) refl sent
    where
      by_number :
          (o : Option ℕ)
          → command_id name ≡ o
          → (elim o as (λ x. Option Message) [
            | none ↦ none
            | some id ↦ some (send_command id (some (params ++ (0 ∷ []))) (length params + 1))
          ])
            ≡ some m
          → (r : Message) × (s' : S) × (h : Command) × (read net new_message s ≡ ok (r, s'))
            × (exec_by_name name ≡ some h)
            × (on_receive t r ≡ ok (runs (some h) (some (params ++ (0 ∷ []))) (length params + 1)))
            × (pending s' ≡ rest)
      by_number none e x = absurd (cc)
      by_number (some id) e x =
          let (h, eh, ei, small) = command_id-handler name id e in
          let (r, s', er, ec, q) =
            command_arrives t id (some h) params s rest ei small l
              (p ∙ ap (λ y. (write out y).0 ++ rest) (sym (some-injective x))) in
          (r, s', h, er, eh, ec, q)
