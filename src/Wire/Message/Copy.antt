-- ===== src/Wire/Message/Copy.antt =====
-- src/libagml_comm/common/Message.cpp: the deep copy that is pushed to another thread, with the buffers of messages as
-- objects of the heap.
use lib_agml.Common.{
  ℕ, zero, suc, ◌+◌, ◌%◌, ◌^◌, ◌≤◌, ◌<◌, ◌≡◌, refl, ap, sym, ◌∙◌, Bool, true, false, Option, none,
  some, List, [], ◌∷◌, ◌++◌, ltb, ◌==◌, if◌then◌else◌, length, take, map, Result, ok, err,
  bad_access, ◌>>=◌, arith, append-nil, append_assoc, ==_refl, le→ltb,
}

-- The buffers by their addresses, of which those below `next` are taken.
pub record Heap : Type 0 where
  pub next : ℕ
  pub buffers : ℕ → List ℕ

-- `MessageElt` and `Message` as objects: `data` is null or an address.
pub record Piece : Type 0 where
  pub data_at : Option ℕ
  pub size : ℕ
  pub own : Bool

pub record Letter : Type 0 where
  pub from : Option ℕ
  pub src : ℕ
  pub dst : ℕ
  pub channel : ℕ
  pub elts : List Piece
  pub total_size : ℕ
  pub data_allocated : Bool

-- `new unsigned char[s]`, filled
abbrev pub new_buffer : List ℕ → Heap → Heap
new_buffer bs h = record {
  next = suc h.next;
  buffers = λ a. if a == h.next then bs else h.buffers a;
}

-- `add(data, size)`
abbrev pub add_piece : ℕ → ℕ → Letter → Letter
add_piece a size m = record m {
  elts = m.elts ++ (record { data_at = some a; size = size; own = true } ∷ []);
  total_size = (m.total_size + size) % 2 ^ 64;
}

-- What `memcpy` takes from an element's buffer; from null it takes nothing.
unfoldable pub bytes_at : Heap → Piece → Result (List ℕ)
bytes_at h e = elim e.data_at [
  | none ↦ if e.size == 0 then ok [] else err bad_access
  | some a ↦
      if ltb (length (h.buffers a)) e.size then err bad_access else ok (take e.size (h.buffers a))
]

-- The loop of `copy`
unfoldable pub copy_pieces : List Piece → Letter → Heap → Result (Letter × Heap)
copy_pieces [] m h = ok (m, h)
copy_pieces (e ∷ es) m h =
    bytes_at h e >>= λ bs. copy_pieces es (add_piece h.next e.size m) (new_buffer bs h)

-- `Message::copy`
unfoldable pub copy : Letter → Heap → Result (Letter × Heap)
copy m h =
    copy_pieces m.elts
      (record {
        from = m.from;
        src = m.src;
        dst = m.dst;
        channel = m.channel;
        elts = [];
        total_size = 0;
        data_allocated = true;
      })
      h

-- An element is null and empty, or stands at an address that is taken, with its size of bytes there or more.
abbrev pub IsBacked : Heap → Option ℕ → ℕ → Type 0
IsBacked h none n = n ≡ 0
IsBacked h (some a) n = (a < h.next) × (n ≤ length (h.buffers a))

abbrev pub AreBacked : Heap → List Piece → Type 0
AreBacked h [] = Unit {0}
AreBacked h (e ∷ es) = IsBacked h e.data_at e.size × AreBacked h es

-- The bytes of an element.
abbrev pub bytes_in : Heap → Option ℕ → ℕ → List ℕ
bytes_in h none n = []
bytes_in h (some a) n = take n (h.buffers a)

abbrev pub view : Heap → Piece → List ℕ
view h e = bytes_in h e.data_at e.size

-- Owned elements at addresses one after another, of the sizes of others.
abbrev pub placed : ℕ → List Piece → List Piece
placed a [] = []
placed a (e ∷ es) = record { data_at = some a; size = e.size; own = true } ∷ placed (suc a) es

-- A copy has the header of its original, and its elements are owned and stand in new buffers, one each, with the bytes of
-- the original's elements; the buffers that there were are as before.
pub record IsCopy (m : Letter) (h : Heap) (c : Letter) (h' : Heap) : Type 0 where
  pub from_kept : c.from ≡ m.from
  pub src_kept : c.src ≡ m.src
  pub dst_kept : c.dst ≡ m.dst
  pub channel_kept : c.channel ≡ m.channel
  pub allocated : c.data_allocated ≡ true
  pub elts_new : c.elts ≡ placed h.next m.elts
  pub bytes_kept : map (view h') c.elts ≡ map (view h) m.elts
  pub others_kept : (a : ℕ) → a < h.next → h'.buffers a ≡ h.buffers a

record IsCopyOnto (m : Letter) (es : List Piece) (h : Heap) (c : Letter) (h' : Heap) : Type 0 where
  from_kept : c.from ≡ m.from
  src_kept : c.src ≡ m.src
  dst_kept : c.dst ≡ m.dst
  channel_kept : c.channel ≡ m.channel
  allocated_kept : c.data_allocated ≡ m.data_allocated
  added : c.elts ≡ m.elts ++ placed h.next es
  bytes_kept : map (view h') (placed h.next es) ≡ map (view h) es
  others_kept : (a : ℕ) → a < h.next → h'.buffers a ≡ h.buffers a

bytes_at-backed :
    (h : Heap) (o : Option ℕ) (n : ℕ) (own : Bool)
    → IsBacked h o n
    → bytes_at h (record { data_at = o; size = n; own = own }) ≡ ok (bytes_in h o n)
unfolding bytes_at
bytes_at-backed h none n own b = rw b refl
bytes_at-backed h (some a) n own b = rw (le→ltb (length (h.buffers a)) n b.1) refl

new_buffer-kept :
    (bs : List ℕ) (h : Heap) (a : ℕ) → a < h.next → (new_buffer bs h).buffers a ≡ h.buffers a
new_buffer-kept bs h a l = let e : (a == h.next) ≡ false = ground (arith, l) in rw e refl

view-kept :
    (bs : List ℕ) (h : Heap) (o : Option ℕ) (n : ℕ)
    → IsBacked h o n
    → bytes_in (new_buffer bs h) o n ≡ bytes_in h o n
view-kept bs h none n b = refl
view-kept bs h (some a) n b = ap (take n) (new_buffer-kept bs h a b.0)

IsBacked-kept :
    (bs : List ℕ) (h : Heap) (o : Option ℕ) (n : ℕ)
    → IsBacked h o n
    → IsBacked (new_buffer bs h) o n
IsBacked-kept bs h none n b = b
IsBacked-kept bs h (some a) n b =
    (omega (arith, b.0), omega (arith, b.1, ap length (new_buffer-kept bs h a b.0)))

AreBacked-kept :
    (bs : List ℕ) (h : Heap) (es : List Piece) → AreBacked h es → AreBacked (new_buffer bs h) es
AreBacked-kept bs h [] b = tt
AreBacked-kept bs h (e ∷ es) b =
    (IsBacked-kept bs h e.data_at e.size b.0, AreBacked-kept bs h es b.1)

views-kept :
    (bs : List ℕ) (h : Heap) (es : List Piece)
    → AreBacked h es
    → map (view (new_buffer bs h)) es ≡ map (view h) es
views-kept bs h [] b = refl
views-kept bs h (e ∷ es) b = rw (view-kept bs h e.data_at e.size b.0, views-kept bs h es b.1) refl

-- The bytes that were copied of an element, taken from the new buffer.
own_bytes :
    (h : Heap) (o : Option ℕ) (n : ℕ) → IsBacked h o n → take n (bytes_in h o n) ≡ bytes_in h o n
own_bytes h none n b = rw b refl
own_bytes h (some a) n b = take_twice n (h.buffers a)
  where
    take_twice : (n : ℕ) (s : List ℕ) → take n (take n s) ≡ take n s
    take_twice zero s = refl
    take_twice (suc n) [] = refl
    take_twice (suc n) (c ∷ s) = ap (λ t. c ∷ t) (take_twice n s)

copy_pieces-lem :
    (es : List Piece) (m : Letter) (h : Heap)
    → AreBacked h es
    → (c : Letter) × (h' : Heap) × (copy_pieces es m h ≡ ok (c, h')) × IsCopyOnto m es h c h'
unfolding copy_pieces
copy_pieces-lem [] m h b = (
  m,
  h,
  refl,
  record {
    from_kept = refl;
    src_kept = refl;
    dst_kept = refl;
    channel_kept = refl;
    allocated_kept = refl;
    added = sym (append-nil m.elts);
    bytes_kept = refl;
    others_kept = λ a l. refl;
  },
)
copy_pieces-lem (e ∷ es) m h b =
    let bs = view h e in
    let h1 = new_buffer bs h in
    let (c, h', q, i) =
      copy_pieces-lem es (add_piece h.next e.size m) h1 (AreBacked-kept bs h es b.1) in
    let placed_here : h'.buffers h.next ≡ bs =
      i.others_kept h.next (omega arith) ∙ rw (==_refl h.next) refl in
    (
      c,
      h',
      rw (bytes_at-backed h e.data_at e.size e.own b.0) q,
      record {
        from_kept = i.from_kept;
        src_kept = i.src_kept;
        dst_kept = i.dst_kept;
        channel_kept = i.channel_kept;
        allocated_kept = i.allocated_kept;
        added =
            i.added
            ∙ append_assoc m.elts (record { data_at = some h.next; size = e.size; own = true } ∷ [])
                (placed (suc h.next) es);
        bytes_kept =
            ap (λ t. t ∷ map (view h') (placed (suc h.next) es))
              (ap (take e.size) placed_here ∙ own_bytes h e.data_at e.size b.0)
            ∙ ap (λ ts. bs ∷ ts) (i.bytes_kept ∙ views-kept bs h es b.1);
        others_kept = λ a l. i.others_kept a (omega (arith, l)) ∙ new_buffer-kept bs h a l;
      },
    )

-- `copy` succeeds on a message whose elements are null and empty or stand at addresses that are taken, with at least
-- their size of bytes there. The copy has the header of the original; its elements are owned and stand in new buffers,
-- one each, which hold the bytes of the original's elements; every buffer that there was is as before.
pub copy-IsCopy :
    (m : Letter) (h : Heap)
    → AreBacked h m.elts
    → (c : Letter) × (h' : Heap) × (copy m h ≡ ok (c, h')) × IsCopy m h c h'
unfolding copy
copy-IsCopy m h b =
    let start : Letter = record {
      from = m.from;
      src = m.src;
      dst = m.dst;
      channel = m.channel;
      elts = [];
      total_size = 0;
      data_allocated = true;
    } in
    let (c, h', q, i) = copy_pieces-lem m.elts start h b in
    (
      c,
      h',
      q,
      record {
        from_kept = i.from_kept;
        src_kept = i.src_kept;
        dst_kept = i.dst_kept;
        channel_kept = i.channel_kept;
        allocated = i.allocated_kept;
        elts_new = i.added;
        bytes_kept = ap (map (view h')) i.added ∙ i.bytes_kept;
        others_kept = i.others_kept;
      },
    )
