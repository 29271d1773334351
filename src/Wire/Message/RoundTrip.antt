-- ===== src/Wire/Message/RoundTrip.antt =====
-- src/libagml_comm/common/Message.cpp: what `read` makes of the bytes that `write` sent.
pub mod Buffers
use lib_agml.Common.{
  ℕ, zero, suc, ◌+◌, ◌-◌, ◌%◌, ◌^◌, ◌≤◌, ◌<◌, ◌≡◌, ◌≢◌, inl, inr, refl, ap, sym, ◌∙◌, Bool, true,
  false, ◌||◌, Option, none, some, List, [], ◌∷◌, ◌++◌, ◌==◌, if◌then◌else◌, length, take, drop,
  map, ok, arith, append-nil, append_assoc, take-append-drop, length-take, Bool-cases,
}
use lib_agml.Wire.Bytes.{le_bytes}
use lib_agml.Wire.Message.Sent.{AllFit, image, write-image}
use lib_agml.Wire.Socket.{Net, Outlet, read_int, read_exactly}
use lib_agml.Wire.Socket.Reads.{Reads, Reads-exactly, Reads-int, Reads-done, Reads-then}
use lib_agml.Wire.Message.{
  MessageElt, Message, new_message, add, begin, first_cursor, elt_bytes, elts_bytes, write,
  read_elt, read_elts, read, read_from,
}

-- A buffer holds at least the bytes that its element counts.
abbrev pub HoldsSize : Option (List ℕ) → ℕ → Type 0
HoldsSize none n = Unit {0}
HoldsSize (some b) n = n ≤ length b

pub record IsValidElt (e : MessageElt) : Type 0 where
  pub small : e.size ≤ 2 ^ 31 - 4096
  pub holds : HoldsSize e.buffer e.size

abbrev pub AreValidElts : List MessageElt → Type 0
AreValidElts [] = Unit {0}
AreValidElts (e ∷ es) = IsValidElt e × AreValidElts es

AllFit-valid : (es : List MessageElt) → AreValidElts es → AllFit es
AllFit-valid [] v = tt
AllFit-valid (e ∷ es) v = (v.0.small, AllFit-valid es v.1)

pub record IsValid (m : Message) : Type 0 where
  pub src_small : m.src < 2 ^ 64
  pub dst_small : m.dst < 2 ^ 64
  pub channel_small : m.channel < 2 ^ 32
  pub elts_valid : AreValidElts m.elts

-- The element that the receiver holds: an owned copy of the bytes, or a null pointer for none.
abbrev pub empty_elt : MessageElt
empty_elt = record { buffer = none; size = 0; own = true }

abbrev pub received_as : Option (List ℕ) → ℕ → MessageElt
received_as none n = empty_elt
received_as (some b) n =
    if n == 0 then empty_elt else record { buffer = some (take n b); size = n; own = true }

abbrev pub received : MessageElt → MessageElt
received e = received_as e.buffer e.size

abbrev pub sizes : List MessageElt → ℕ
sizes [] = 0
sizes (e ∷ es) = e.size + sizes es

abbrev allocate : Message → Bool → Message
allocate m flag = record m { data_allocated = flag || m.data_allocated }

pub after_elt : Message → MessageElt → Message
after_elt m e =
    add (allocate m (elim (received e).buffer [ none ↦ false | some b ↦ true ])) (received e).buffer
      (received e).size false

pub after_elts : Message → List MessageElt → Message
after_elts m [] = m
after_elts m (e ∷ es) = after_elts (after_elt m e) es

after_elt-empty :
    (m : Message) (e : MessageElt) → received e ≡ empty_elt → after_elt m e ≡ add m none 0 false
unfolding after_elt
after_elt-empty m e r = rw r

after_elt-full :
    (m : Message) (e : MessageElt) (n : ℕ) (b : List ℕ)
    → received e ≡ record { buffer = some b; size = n; own = true }
    → after_elt m e ≡ add (record m { data_allocated = true }) (some b) n false
unfolding after_elt
after_elt-full m e n b r = rw r

module _ (net : Net) where
  open net use {S, pending}

  read_elt-empty :
      (m : Message) (s s1 : S)
      → read_int net 8 s ≡ ok (0, s1)
      → read_elt net m s ≡ ok (add m none 0 false, s1)
  unfolding read_elt
  read_elt-empty m s s1 e = rw e

  read_elt-full :
      (m : Message) (s s1 s2 : S) (n : ℕ) (b : List ℕ)
      → n ≢ 0
      → read_int net 8 s ≡ ok (n, s1)
      → read_exactly net n s1 ≡ ok (b, s2)
      → read_elt net m s ≡ ok (add (record m { data_allocated = true }) (some b) n false, s2)
  unfolding read_elt
  read_elt-full m s s1 s2 n b nz e f = rw (e, f) (ground arith)

  empty_elt-Reads :
      (m : Message) (e : MessageElt)
      → received e ≡ empty_elt
      → elt_bytes e ≡ le_bytes 8 0
      → Reads net (read_elt net m) (elt_bytes e) (after_elt m e)
  unfolding Reads
  empty_elt-Reads m e r eb s ys p =
      let (s1, e1, p1) = Reads-int net 8 0 (omega arith) s ys (rw eb at p) in
      (s1, rw (after_elt-empty m e r) (read_elt-empty m s s1 e1), p1)

  full_elt-Reads :
      (m : Message) (e : MessageElt) (n : ℕ) (b : List ℕ)
      → received e ≡ record { buffer = some b; size = n; own = true }
      → elt_bytes e ≡ le_bytes 8 n ++ b
      → n ≢ 0
      → n < 2 ^ 64
      → length b ≡ n
      → Reads net (read_elt net m) (elt_bytes e) (after_elt m e)
  unfolding Reads
  full_elt-Reads m e n b r eb nz small l s ys p =
      let (s1, e1, p1) =
        Reads-int net 8 n small s (b ++ ys) (rw eb at p ∙ append_assoc (le_bytes 8 n) b ys) in
      let (s2, e2, p2) = Reads-exactly net n b l s1 ys p1 in
      (s2, rw (after_elt-full m e n b r) (read_elt-full m s s1 s2 n b nz e1 e2), p2)

  elt-Reads :
      (m : Message) (buffer : Option (List ℕ)) (size : ℕ) (own : Bool)
      → size < 2 ^ 64
      → HoldsSize buffer size
      → let e : MessageElt = record { buffer = buffer; size = size; own = own } in
        Reads net (read_elt net m) (elt_bytes e) (after_elt m e)
  unfolding elt_bytes
  elt-Reads m none n own small h = empty_elt-Reads m _ refl refl
  elt-Reads m (some b) n own small h = elim (Bool-cases (n == 0)) [
    | inl z ↦ empty_elt-Reads m _ (rw z) (rw z)
    | inr z ↦
        full_elt-Reads m _ n (take n b) (rw z) (rw z) (ground arith) small
          (omega (arith, length-take n b))
  ]

  elts-Reads :
      (m : Message) (es : List MessageElt)
      → AreValidElts es
      → Reads net (read_elts net (length es) m) (elts_bytes es) (after_elts m es)
  unfolding read_elts elts_bytes after_elts
  elts-Reads m [] v = Reads-done net m
  elts-Reads m (e ∷ es) v =
      Reads-then net (read_elt net m) (read_elts net (length es)) (elt_bytes e) (elts_bytes es) _ _
        (elt-Reads m e.buffer e.size e.own (omega (arith, v.0.small)) v.0.holds)
        (elts-Reads (after_elt m e) es v.1)

-- What the receiver ends with after some elements have been added to a message.
record IsAfter (m r : Message) (es : List MessageElt) : Type 0 where
  same_src : r.src ≡ m.src
  same_dst : r.dst ≡ m.dst
  same_channel : r.channel ≡ m.channel
  added : r.elts ≡ m.elts ++ map received es
  counted : r.total_size % 2 ^ 64 ≡ (m.total_size + sizes (map received es)) % 2 ^ 64

received-own : (b : Option (List ℕ)) (n : ℕ) → true ≡ (received_as b n).own
received-own none n = refl
received-own (some b) n = ground arith

after_elt-lem : (m : Message) (e : MessageElt) → IsAfter m (after_elt m e) (e ∷ [])
unfolding after_elt add
after_elt-lem m e = record {
  same_src = refl;
  same_dst = refl;
  same_channel = refl;
  added =
      ap (λ (o : Bool). m.elts ++ record (received e) { own = o } ∷ [])
        (received-own e.buffer e.size);
  counted = omega arith;
}

after_elts-lem : (m : Message) (es : List MessageElt) → IsAfter m (after_elts m es) es
unfolding after_elts
after_elts-lem m [] = record {
  same_src = refl;
  same_dst = refl;
  same_channel = refl;
  added = sym (append-nil m.elts);
  counted = omega arith;
}
after_elts-lem m (e ∷ es) =
    let h = after_elts-lem (after_elt m e) es in
    let g = after_elt-lem m e in
    record {
      same_src = h.same_src ∙ g.same_src;
      same_dst = h.same_dst ∙ g.same_dst;
      same_channel = h.same_channel ∙ g.same_channel;
      added =
          h.added
          ∙ ap (λ t. t ++ map received es) g.added
          ∙ append_assoc m.elts (received e ∷ []) (map received es);
      counted = omega (arith, h.counted, g.counted);
    }

-- The receiver's message: the header of the sender's, and its first `n` elements as copies that the
-- receiver owns, an element of no bytes as a null pointer; the cursor stands at the first.
pub record IsReceived (m : Message) (n : ℕ) (r : Message) : Type 0 where
  pub same_src : r.src ≡ m.src
  pub same_dst : r.dst ≡ m.dst
  pub same_channel : r.channel ≡ m.channel
  pub copies : r.elts ≡ map received (take n m.elts)
  pub counted : r.total_size % 2 ^ 64 ≡ sizes (map received (take n m.elts)) % 2 ^ 64
  pub ready : r.cursor ≡ first_cursor r.elts

elts_bytes-append :
    (es fs : List MessageElt) → elts_bytes (es ++ fs) ≡ elts_bytes es ++ elts_bytes fs
unfolding elts_bytes
elts_bytes-append [] fs = refl
elts_bytes-append (e ∷ es) fs =
    ap (λ t. elt_bytes e ++ t) (elts_bytes-append es fs)
    ∙ sym (append_assoc (elt_bytes e) (elts_bytes es) (elts_bytes fs))

AreValidElts-take : (n : ℕ) (es : List MessageElt) → AreValidElts es → AreValidElts (take n es)
AreValidElts-take zero es v = tt
AreValidElts-take (suc n) [] v = tt
AreValidElts-take (suc n) (e ∷ es) v = (v.0, AreValidElts-take n es v.1)

-- The message that the reader has built from a header and some elements.
abbrev pub rebuilt : Option ℕ → Message → List MessageElt → Message
rebuilt from m es = begin (
    after_elts (record new_message { from = from; src = m.src; dst = m.dst; channel = m.channel })
      es)

pub rebuilt-IsReceived :
    (from : Option ℕ) (m : Message) (n : ℕ) (es : List MessageElt)
    → es ≡ take n m.elts
    → IsReceived m n (rebuilt from m es)
unfolding begin
rebuilt-IsReceived from m n es e =
    let start : Message = record new_message {
      from = from;
      src = m.src;
      dst = m.dst;
      channel = m.channel;
    } in
    let h = after_elts-lem start es in
    record {
      same_src = h.same_src;
      same_dst = h.same_dst;
      same_channel = h.same_channel;
      copies = h.added ∙ ap (map received) e;
      counted = rw (← e) (omega (arith, h.counted));
      ready = refl;
    }

module _ (net : Net) where
  open net use {S, pending}

  header_bytes : Message → List ℕ → List ℕ
  header_bytes m rest =
      le_bytes 8 m.src
      ++ (le_bytes 8 m.dst
          ++ (le_bytes 4 m.channel ++ (le_bytes 2 (length m.elts % 2 ^ 16) ++ rest)))

  read_steps :
      (from : Option ℕ) (src dst channel n : ℕ) (r : Message) (s s1 s2 s3 s4 s5 : S)
      → read_int net 8 s ≡ ok (src, s1)
      → read_int net 8 s1 ≡ ok (dst, s2)
      → read_int net 4 s2 ≡ ok (channel, s3)
      → read_int net 2 s3 ≡ ok (n, s4)
      → read_elts net n
          (record new_message { from = from; src = src; dst = dst; channel = channel })
          s4
        ≡ ok (r, s5)
      → read net (record new_message { from = from }) s ≡ ok (begin r, s5)
  unfolding read
  read_steps from src dst channel n r s s1 s2 s3 s4 s5 e1 e2 e3 e4 e5 = rw (e1, e2, e3, e4, e5)

  -- The header and as many elements as its count says.
  read_known :
      (from : Option ℕ) (m : Message) (es : List MessageElt) (s : S) (ys : List ℕ)
      → IsValid m
      → AreValidElts es
      → length es ≡ length m.elts % 2 ^ 16
      → pending s ≡ header_bytes m (elts_bytes es ++ ys)
      → (s' : S) × (read net (record new_message { from = from }) s ≡ ok (rebuilt from m es, s'))
        × (pending s' ≡ ys)
  unfolding header_bytes Reads
  read_known from m es s ys v ve l p =
      let count = length m.elts % 2 ^ 16 in
      let (s1, e1, p1) = Reads-int net 8 m.src v.src_small s _ p in
      let (s2, e2, p2) = Reads-int net 8 m.dst v.dst_small s1 _ p1 in
      let (s3, e3, p3) = Reads-int net 4 m.channel v.channel_small s2 _ p2 in
      let (s4, e4, p4) = Reads-int net 2 count (omega arith) s3 _ p3 in
      let start : Message = record new_message {
        from = from;
        src = m.src;
        dst = m.dst;
        channel = m.channel;
      } in
      let (s5, e5, p5) = elts-Reads net start es ve s4 ys p4 in
      let e6 : read_elts net count start s4 ≡ ok (after_elts start es, s5) =
        ap (λ k. read_elts net k start s4) (sym l) ∙ e5 in
      (s5, read_steps from m.src m.dst m.channel count _ s s1 s2 s3 s4 s5 e1 e2 e3 e4 e6, p5)

  sent_bytes :
      (m : Message) (es fs : List MessageElt) (rest : List ℕ)
      → m.elts ≡ es ++ fs
      → image m ++ rest ≡ header_bytes m (elts_bytes es ++ (elts_bytes fs ++ rest))
  unfolding header_bytes
  sent_bytes m es fs rest e = simp append_assoc (
      ap (λ t. header_bytes m t)
        (ap (λ t. t ++ rest) (ap elts_bytes e ∙ elts_bytes-append es fs)
          ∙ append_assoc (elts_bytes es) (elts_bytes fs) rest))

  -- A valid message, whose elements have at most 0x7ffff000 bytes each, that is written to a socket which takes as
  -- much of a write, and then read off any connection, whatever else follows it,
  -- arrives with its header and its first `n` elements, where `n` is the number of its elements modulo
  -- 2^16. The bytes of the elements from the `n`th on stay on the connection, before what follows; of a
  -- message of fewer than 2^16 elements nothing stays.
  pub read-write :
      (out : Outlet) (m : Message) (s : S) (rest : List ℕ)
      → IsValid m
      → pending s ≡ (write out m).0 ++ rest
      → let n = length m.elts % 2 ^ 16 in
        (r : Message) × (s' : S) × (read net new_message s ≡ ok (r, s'))
        × IsReceived m n r
        × (pending s' ≡ elts_bytes (drop n m.elts) ++ rest)
  read-write out m s rest v p =
      let n : ℕ = length m.elts % 2 ^ 16 in
      let es = take n m.elts in
      let (s', e, q) =
        read_known none m es s (elts_bytes (drop n m.elts) ++ rest) v
          (AreValidElts-take n m.elts v.elts_valid) (omega (arith, length-take n m.elts))
          (p
            ∙ ap (λ b. b ++ rest) (write-image out m (AllFit-valid m.elts v.elts_valid))
            ∙ sent_bytes m es (drop n m.elts) rest (sym (take-append-drop n m.elts))) in
      (rebuilt none m es, s', e, rebuilt-IsReceived none m n es refl, q)

  -- Read from a host, a valid message of fewer than 2^16 elements arrives whole.
  pub read_from-write :
      (out : Outlet) (host : ℕ) (m : Message) (s : S) (rest : List ℕ)
      → IsValid m
      → length m.elts < 2 ^ 16
      → pending s ≡ (write out m).0 ++ rest
      → (s' : S) × (read_from net host new_message s ≡ ok (rebuilt (some host) m m.elts, s'))
        × (pending s' ≡ rest)
  unfolding read_from elts_bytes
  read_from-write out host m s rest v few p =
      read_known (some host) m m.elts s rest v v.elts_valid (omega (arith, few)) (
        p
        ∙ ap (λ b. b ++ rest) (write-image out m (AllFit-valid m.elts v.elts_valid))
        ∙ sent_bytes m m.elts [] rest (sym (append-nil m.elts)))
