-- ===== src/Wire/Socket/Reads.antt =====
-- src/libagml_comm/tcp/Socket.cpp: what a read takes from the bytes that a connection delivers, however
-- the kernel cuts them into pieces.
use lib_agml.Common.{
  ℕ, zero, suc, ◌+◌, ◌-◌, ◌^◌, ◌≤◌, ◌<◌, ◌≡◌, ◌⊎◌, inl, inr, refl, ap, sym, ◌∙◌, List, [], ◌∷◌,
  ◌++◌, length, Result, ok, err, socket_closed, socket_error, ◌>>=◌, arith, length-append,
  append_assoc,
}
use lib_agml.Wire.Bytes.{le_bytes, length-le_bytes, le_value-le_bytes}
use lib_agml.Wire.Socket.{Net, got, closed, failed, read_loop, read_exactly, read_int}

-- A list cut at two places: the shorter first part begins the longer one.
append_cut :
    {A : Type 0} (bs cs xs ys : List A)
    → xs ++ ys ≡ bs ++ cs
    → length bs ≤ length xs
    → (zs : List A) × (xs ≡ bs ++ zs) × (cs ≡ zs ++ ys)
append_cut [] cs xs ys e h = (xs, refl, sym e)
append_cut (b ∷ bs) cs [] ys e h = absurd (omega arith)
append_cut (b ∷ bs) cs (x ∷ xs) ys e h =
    let (zs, p, q) = append_cut bs cs xs ys (ground arith) (omega arith) in (zs, ground arith, q)

module _ (net : Net) where
  open net use {S, pending, recv, recv_delivers, recv_ends}

  -- The reader returns `v` and takes exactly `xs` off the connection.
  unfoldable pub Reads {ℓ} : {A : Type ℓ} → (S → Result (A × S)) → List ℕ → A → Type ℓ
  Reads m xs v =
      (s : S) (ys : List ℕ)
      → pending s ≡ xs ++ ys
      → (s' : S) × (m s ≡ ok (v, s')) × (pending s' ≡ ys)

  loop-zero : (f : ℕ) (s : S) → read_loop net f s 0 ≡ ok ([], s)
  unfolding read_loop
  loop-zero zero s = refl
  loop-zero (suc f) s = refl

  loop-got :
      (f n : ℕ) (s s1 s2 : S) (bs zs : List ℕ)
      → recv s (suc n) ≡ got bs s1
      → read_loop net f s1 (suc n - length bs) ≡ ok (zs, s2)
      → read_loop net (suc f) s (suc n) ≡ ok (bs ++ zs, s2)
  unfolding read_loop
  loop-got f n s s1 s2 bs zs e r = rw (e, r) (ground arith)

  loop_enough :
      (f n : ℕ) (s : S) (xs ys : List ℕ)
      → n ≤ f
      → length xs ≡ n
      → pending s ≡ xs ++ ys
      → (s' : S) × (read_loop net f s n ≡ ok (xs, s')) × (pending s' ≡ ys)
  loop_enough f zero s [] ys h l p = (s, loop-zero f s, p)
  loop_enough f zero s (x ∷ xs) ys h l p = absurd (omega arith)
  loop_enough zero (suc n) s xs ys h l p = absurd (omega arith)
  loop_enough (suc f) (suc n) s [] ys h l p = absurd (omega arith)
  loop_enough (suc f) (suc n) s (x ∷ xs) ys h l p =
      let (bs, s1, e, pos, le, q) = recv_delivers s (suc n) (λ z. cc) (omega arith) in
      let short : length bs ≤ length (x ∷ xs) = omega arith in
      let (zs, xe, ce) = append_cut bs (pending s1) (x ∷ xs) ys (sym p ∙ q) short in
      let rest : length zs ≡ suc n - length bs = omega (arith, ap length xe, length-append bs zs) in
      let (s2, r, q2) = loop_enough f (suc n - length bs) s1 zs ys (omega arith) rest ce in
      (s2, loop-got f n s s1 s2 bs zs e r ∙ ap (λ t. ok (t, s2)) (sym xe), q2)

  -- However the kernel cuts the stream into pieces, a read of `length xs` bytes returns `xs` and leaves
  -- the rest on the connection.
  pub read_exactly-pending :
      (s : S) (xs ys : List ℕ)
      → pending s ≡ xs ++ ys
      → (s' : S) × (read_exactly net (length xs) s ≡ ok (xs, s')) × (pending s' ≡ ys)
  unfolding read_exactly
  read_exactly-pending s xs ys p = loop_enough (length xs) (length xs) s xs ys (omega arith) refl p

  pub Reads-exactly : (n : ℕ) (xs : List ℕ) → length xs ≡ n → Reads (read_exactly net n) xs xs
  unfolding Reads
  Reads-exactly n xs l s ys p = rw (← l) (read_exactly-pending s xs ys p)

  pub Reads-int : (w v : ℕ) → v < 256 ^ w → Reads (read_int net w) (le_bytes w v) v
  unfolding Reads read_int
  Reads-int w v h s ys p =
      let (s', e, q) = Reads-exactly w (le_bytes w v) (length-le_bytes w v) s ys p in
      (s', rw (e, le_value-le_bytes w v h), q)

  pub Reads-done {ℓ} : {A : Type ℓ} (v : A) → Reads (λ s. ok (v, s)) [] v
  unfolding Reads
  Reads-done v s ys p = (s, refl, p)

  -- One read after another takes the bytes of both.
  pub Reads-then {ℓ κ} :
      {A : Type ℓ} {B : Type κ} (m : S → Result (A × S)) (f : A → S → Result (B × S))
      (xs zs : List ℕ) (a : A) (b : B)
      → Reads m xs a
      → Reads (f a) zs b
      → Reads (λ s. m s >>= λ r. f r.0 r.1) (xs ++ zs) b
  unfolding Reads
  Reads-then m f xs zs a b rm rf s ys p =
      let (s1, e1, p1) = rm s (zs ++ ys) (p ∙ append_assoc xs zs ys) in
      let (s2, e2, p2) = rf s1 ys p1 in (s2, rw (e1, e2), p2)

  -- A connection that ends too early makes the read throw.
  abbrev IsBroken : {A : Type 0} → Result A → Type 0
  IsBroken r = (r ≡ err socket_closed) ⊎ (r ≡ err socket_error)

  loop_fails :
      (f n : ℕ) (s s1 : S) (bs : List ℕ)
      → recv s (suc n) ≡ got bs s1
      → IsBroken (read_loop net f s1 (suc n - length bs))
      → IsBroken (read_loop net (suc f) s (suc n))
  unfolding read_loop
  loop_fails f n s s1 bs e (inl r) = inl (rw (e, r) (ground arith))
  loop_fails f n s s1 bs e (inr r) = inr (rw (e, r) (ground arith))

  loop-ends :
      (f n : ℕ) (s : S)
      → (recv s (suc n) ≡ closed) ⊎ (recv s (suc n) ≡ failed)
      → IsBroken (read_loop net (suc f) s (suc n))
  unfolding read_loop
  loop-ends f n s (inl e) = inl (rw e (ground arith))
  loop-ends f n s (inr e) = inr (rw e (ground arith))

  loop_short :
      (f n : ℕ) (s : S) (xs : List ℕ)
      → n ≤ f
      → pending s ≡ xs
      → length xs < n
      → IsBroken (read_loop net f s n)
  loop_short f zero s xs h p l = absurd (omega arith)
  loop_short zero (suc n) s xs h p l = absurd (omega arith)
  loop_short (suc f) (suc n) s [] h p l = loop-ends f n s (recv_ends s (suc n) p)
  loop_short (suc f) (suc n) s (x ∷ xs) h p l =
      let (bs, s1, e, pos, le, q) = recv_delivers s (suc n) (λ z. cc) (omega arith) in
      let total : suc (length xs) ≡ length bs + length (pending s1) =
        omega (arith, ap length (sym p ∙ q), length-append bs (pending s1)) in
      loop_fails f n s s1 bs e
        (loop_short f (suc n - length bs) s1 (pending s1) (omega arith) refl (omega arith))

  -- A connection that ends or fails before `n` bytes have come makes a read of `n` bytes throw.
  pub read_exactly_short :
      (n : ℕ) (s : S)
      → length (pending s) < n
      → (read_exactly net n s ≡ err socket_closed) ⊎ (read_exactly net n s ≡ err socket_error)
  unfolding read_exactly
  read_exactly_short n s l = loop_short n n s (pending s) (omega arith) refl l
