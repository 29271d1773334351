-- ===== src/Wire/Message/Sent.antt =====
-- src/libagml_comm/common/Message.cpp: what a message that is written puts on the connection.
use lib_agml.Common.{
  ℕ, ◌-◌, ◌%◌, ◌^◌, ◌≤◌, ◌≡◌, refl, ap, sym, ◌∙◌, inl, inr, true, Option, none, some, List, [], ◌∷◌,
  ◌++◌, ◌==◌, length, take, arith, append_assoc, append-nil, Bool-cases, length-take,
}
use lib_agml.Wire.Bytes.{le_bytes, length-le_bytes}
use lib_agml.Wire.Socket.{Outlet, socket_write}
use lib_agml.Wire.Message.{
  MessageElt, Message, elt_bytes, elts_bytes, elt_pieces, elts_pieces, write_each, write,
}

-- The size of an element that one write takes whole.
abbrev pub FitsElt : MessageElt → Type 0
FitsElt e = e.size ≤ 2 ^ 31 - 4096

abbrev pub AllFit : List MessageElt → Type 0
AllFit [] = Unit {0}
AllFit (e ∷ es) = FitsElt e × AllFit es

abbrev joined : List (List ℕ) → List ℕ
joined [] = []
joined (b ∷ bs) = b ++ joined bs

abbrev AllTaken : List (List ℕ) → Type 0
AllTaken [] = Unit {0}
AllTaken (b ∷ bs) = (length b ≤ 2 ^ 31 - 4096) × AllTaken bs

AllTaken-append : (xs ys : List (List ℕ)) → AllTaken xs → AllTaken ys → AllTaken (xs ++ ys)
AllTaken-append [] ys a b = b
AllTaken-append (x ∷ xs) ys a b = (a.0, AllTaken-append xs ys a.1 b)

joined-append : (xs ys : List (List ℕ)) → joined (xs ++ ys) ≡ joined xs ++ joined ys
joined-append [] ys = refl
joined-append (x ∷ xs) ys =
    ap (λ t. x ++ t) (joined-append xs ys) ∙ sym (append_assoc x (joined xs) (joined ys))

take_whole : (bs : List ℕ) → take (length bs) bs ≡ bs
take_whole [] = refl
take_whole (b ∷ bs) = ap (λ t. b ∷ t) (take_whole bs)

socket_write-taken :
    (out : Outlet) (b : List ℕ) → length b ≤ 2 ^ 31 - 4096 → socket_write out b ≡ (b, true)
unfolding socket_write
socket_write-taken out b h = rw (out.whole b h, socket_write) (ap (λ t. (t, true)) (take_whole b))

write_each-joined :
    (out : Outlet) (bs : List (List ℕ)) → AllTaken bs → write_each out bs ≡ (joined bs, true)
unfolding write_each
write_each-joined out [] a = refl
write_each-joined out (b ∷ bs) a =
    rw (socket_write-taken out b a.0, write_each-joined out bs a.1) refl

le_bytes-taken : (v : ℕ) → length (le_bytes 8 v) ≤ 2 ^ 31 - 4096
le_bytes-taken v = omega (arith, length-le_bytes 8 v)

elt_pieces-joined :
    (e : MessageElt) (o : Option (List ℕ))
    → e.buffer ≡ o
    → FitsElt e
    → (joined (elt_pieces e) ≡ elt_bytes e) × AllTaken (elt_pieces e)
unfolding elt_pieces elt_bytes
elt_pieces-joined e none h fits =
    rw (h, elt_pieces, elt_bytes) (append-nil (le_bytes 8 0), (le_bytes-taken 0, tt))
elt_pieces-joined e (some b) h fits = elim (Bool-cases (e.size == 0)) [
  | inl z ↦ rw (h, elt_pieces, elt_bytes) (rw z (append-nil (le_bytes 8 0), (le_bytes-taken 0, tt)))
  | inr z ↦
      rw (h, elt_pieces, elt_bytes)
        (rw z (
          ap (λ t. le_bytes 8 e.size ++ t) (append-nil (take e.size b)),
          (le_bytes-taken e.size, (ground (arith, length-take e.size b, fits), tt)),
        ))
]

elts_pieces-joined :
    (es : List MessageElt)
    → AllFit es
    → (joined (elts_pieces es) ≡ elts_bytes es) × AllTaken (elts_pieces es)
unfolding elts_pieces elts_bytes
elts_pieces-joined [] a = (refl, tt)
elts_pieces-joined (e ∷ es) a =
    let (je, te) = elt_pieces-joined e e.buffer refl a.0 in
    let (js, ts) = elts_pieces-joined es a.1 in
    (
      joined-append (elt_pieces e) (elts_pieces es)
          ∙ ap (λ t. t ++ joined (elts_pieces es)) je
          ∙ ap (λ t. elt_bytes e ++ t) js,
      AllTaken-append (elt_pieces e) (elts_pieces es) te ts,
    )

-- The bytes of a message in the order of the writes.
abbrev pub image : Message → List ℕ
image m =
    le_bytes 8 m.src
    ++ (le_bytes 8 m.dst
        ++ (le_bytes 4 m.channel ++ (le_bytes 2 (length m.elts % 2 ^ 16) ++ elts_bytes m.elts)))

-- Where each element fits one write, all of the message is sent.
pub write-image : (out : Outlet) (m : Message) → AllFit m.elts → (write out m).0 ≡ image m
unfolding write
write-image out m a =
    let (js, ts) = elts_pieces-joined m.elts a in
    let header =
      le_bytes 8 m.src
      ∷ le_bytes 8 m.dst
      ∷ le_bytes 4 m.channel
      ∷ le_bytes 2 (length m.elts % 2 ^ 16)
      ∷ [] in
    let header_taken : AllTaken header = (
      le_bytes-taken m.src,
      (
        le_bytes-taken m.dst,
        (
          omega (arith, length-le_bytes 4 m.channel),
          (omega (arith, length-le_bytes 2 (length m.elts % 2 ^ 16)), tt),
        ),
      ),
    ) in
    ap (λ r. r.0)
      (write_each-joined out (header ++ elts_pieces m.elts)
        (AllTaken-append header (elts_pieces m.elts) header_taken ts))
    ∙ ap
        (λ t.
          le_bytes 8 m.src
          ++ (le_bytes 8 m.dst
              ++ (le_bytes 4 m.channel ++ (le_bytes 2 (length m.elts % 2 ^ 16) ++ t))))
        js
