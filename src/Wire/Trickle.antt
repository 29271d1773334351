-- ===== src/Wire/Trickle.antt =====
-- A connection that hands out a byte at a time, on which src/libagml_comm/tcp/Socket.cpp and what stands on it are
-- tested.
use lib_agml.Common.{
  some, length, leb, le→leb, ◌-◌, ◌^◌, if◌then◌else◌, ℕ, ◌≡◌, inl, refl, List, [], ◌∷◌, arith,
}
use lib_agml.Wire.Socket.{Net, Outlet, got, closed, Recv}

abbrev pub dribble_recv : List ℕ → ℕ → Recv (List ℕ)
dribble_recv [] n = closed
dribble_recv (b ∷ bs) n = got (b ∷ []) bs

pub not_empty : {b : ℕ} {bs : List ℕ} → b ∷ bs ≡ [] → ⊥
not_empty h = cc

abbrev pub dribble : Net
dribble = record {
  S = List ℕ;
  pending = λ s. s;
  recv = dribble_recv;
  recv_delivers = elim [
    | [] ↦ λ n h p. absurd (h refl)
    | b ∷ bs ↦ λ n h p. (b ∷ [], bs, refl, omega arith, omega arith, refl)
  ];
  recv_ends = elim [ [] ↦ λ n h. inl refl | b ∷ bs ↦ λ n h. absurd (not_empty h) ];
}

-- A kernel that takes 0x7ffff000 bytes of a longer write.
abbrev pub linux : Outlet
linux = record {
  moved = λ bs. some (if leb (length bs) (2 ^ 31 - 4096) then length bs else 2 ^ 31 - 4096);
  whole = λ bs h. rw (le→leb (length bs) (2 ^ 31 - 4096) h) refl;
}
