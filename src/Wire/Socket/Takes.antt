-- ===== src/Wire/Socket/Takes.antt =====
-- src/libagml_comm/tcp/Socket.cpp: how much a read that succeeds takes off the connection,
-- whatever bytes come.
use lib_agml.Common.{
  ℕ, zero, suc, ◌+◌, ◌-◌, ◌≡◌, ◌≢◌, ◌⊎◌, inl, inr, refl, ap, ◌∙◌, false, List, [], ◌∷◌, ◌==◌,
  length, ok, err, socket_closed, socket_error, out_of_fuel, arith, length-append, >>=-ok,
  ok-injective,
}
use lib_agml.Wire.Socket.{Net, closed, failed, read_loop, read_exactly, read_int}

not_empty : {b : ℕ} {bs : List ℕ} → b ∷ bs ≡ [] → ⊥
not_empty h = cc

never_zero : (n : ℕ) → (suc n == 0) ≡ false
never_zero n = ground arith

empty_or_not : (xs : List ℕ) → (xs ≡ []) ⊎ (xs ≢ [])
empty_or_not [] = inl refl
empty_or_not (x ∷ xs) = inr not_empty

module _ (net : Net) where
  open net use {S, pending, recv, recv_delivers, recv_ends}

  -- The read leaves `n` bytes fewer.
  abbrev left : S → ℕ
  left s = length (pending s)

  recv_nothing :
      (f n : ℕ) (s : S) (r : List ℕ × S)
      → (recv s (suc n) ≡ closed) ⊎ (recv s (suc n) ≡ failed)
      → ¬ (read_loop net (suc f) s (suc n) ≡ ok r)
  unfolding read_loop
  recv_nothing f n s r (inl c) e = absurd (no_result (rw (never_zero n, c) at e))
    where
      no_result : ¬ (err socket_closed ≡ ok r)
      no_result h = cc
  recv_nothing f n s r (inr c) e = absurd (no_result (rw (never_zero n, c) at e))
    where
      no_result : ¬ (err socket_error ≡ ok r)
      no_result h = cc

  loop_takes :
      (f n : ℕ) (s : S) (r : List ℕ × S) → read_loop net f s n ≡ ok r → left s ≡ n + left r.1
  unfolding read_loop
  loop_takes zero zero s r e = omega (arith, ap (λ p. left p.1) (ok-injective e))
  loop_takes zero (suc n) s r e = absurd (no_result (rw (never_zero n) at e))
    where
      no_result : ¬ (err out_of_fuel ≡ ok r)
      no_result h = cc
  loop_takes (suc f) zero s r e = omega (arith, ap (λ p. left p.1) (ok-injective e))
  loop_takes (suc f) (suc n) s r e = elim (empty_or_not (pending s)) [
    | inl p ↦ absurd (recv_nothing f n s r (recv_ends s (suc n) p) e)
    | inr p ↦
        let (bs, s1, g, pos, le, q) = recv_delivers s (suc n) p (omega arith) in
        let (t, et, er) =
          >>=-ok (read_loop net f s1 (suc n - length bs)) _ r (rw (never_zero n, g) at e) in
        omega (
          arith,
          loop_takes f (suc n - length bs) s1 t et,
          ap length q,
          length-append bs (pending s1),
          ap (λ u. left u.1) (ok-injective er),
        )
  ]

  pub read_int_takes : (w : ℕ) (s : S) (r : ℕ × S) → read_int net w s ≡ ok r → left s ≡ w + left r.1
  unfolding read_int read_exactly
  read_int_takes w s r e =
      let (t, et, er) = >>=-ok (read_exactly net w s) _ r e in
      loop_takes w w s t et ∙ ap (λ u. w + left u.1) (ok-injective er)

  pub read_exactly_takes :
      (n : ℕ) (s : S) (r : List ℕ × S) → read_exactly net n s ≡ ok r → left s ≡ n + left r.1
  unfolding read_exactly
  read_exactly_takes n s r e = loop_takes n n s r e
