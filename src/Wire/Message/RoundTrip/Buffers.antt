-- ===== src/Wire/Message/RoundTrip/Buffers.antt =====
-- src/libagml_comm/common/Message.cpp: that a message which was read owns the buffers of its elements.
use lib_agml.Common.{ℕ, ◌≡◌, refl, Bool, true, false, ◌||◌, Option, some, List, [], ◌∷◌}
use lib_agml.Wire.Message.{Message, MessageElt, new_message, add, begin}
use lib_agml.Wire.Message.RoundTrip.{received, after_elt, after_elts, rebuilt}

or_true : (b : Bool) → (b || true) ≡ true
or_true true = refl
or_true false = refl

after_elts-allocated :
    (m : Message) (es : List MessageElt)
    → m.data_allocated ≡ true
    → (after_elts m es).data_allocated ≡ true
unfolding after_elts after_elt add
after_elts-allocated m [] h = h
after_elts-allocated m (e ∷ es) h = after_elts-allocated (after_elt m e) es (rw h (or_true _))

first-allocated :
    (m : Message) (e : MessageElt) (b : List ℕ)
    → (received e).buffer ≡ some b
    → (after_elt m e).data_allocated ≡ true
unfolding after_elt add
first-allocated m e b h = rw h refl

-- A message whose first element has arrived with bytes owns its buffers.
pub rebuilt-allocated :
    (from : Option ℕ) (m : Message) (e : MessageElt) (es : List MessageElt) (b : List ℕ)
    → (received e).buffer ≡ some b
    → (rebuilt from m (e ∷ es)).data_allocated ≡ true
unfolding begin after_elts
rebuilt-allocated from m e es b h =
    let start : Message = record new_message {
      from = from;
      src = m.src;
      dst = m.dst;
      channel = m.channel;
    } in
    after_elts-allocated (after_elt start e) es (first-allocated start e b h)
