-- ===== src/Wire/Message/Takes.antt =====
-- src/libagml_comm/common/Message.cpp: how much the reading of a message takes off the connection, whatever bytes
-- come.
use lib_agml.Common.{
  ℕ, zero, suc, ◌+◌, ◌≤◌, ◌≡◌, inl, inr, ap, ◌==◌, length, ok, arith, Bool-cases, ◌⊎◌, [], refl,
  err, socket_closed, socket_error, none, >>=-ok, ok-injective, false,
}
use lib_agml.Wire.Socket.{Net, read_exactly, read_int}
use lib_agml.Wire.Socket.Reads.{read_exactly_short}
use lib_agml.Wire.Socket.Takes.{read_exactly_takes, read_int_takes}
use lib_agml.Wire.Message.{Message, add, read_elt, read_elts, read, read_from}

module _ (net : Net) where
  open net use {S, pending}

  abbrev left : S → ℕ
  left s = length (pending s)

  read_elt_takes :
      (m : Message) (s : S) (r : Message × S) → read_elt net m s ≡ ok r → left r.1 ≤ left s
  unfolding read_elt
  read_elt_takes m s r e =
      let (n, en, e1) = >>=-ok (read_int net 8 s) _ r e in
      elim (Bool-cases (n.0 == 0)) [
        | inl z ↦
            let k : ok (add m none 0 false, n.1) ≡ ok r = rw z at e1 in
            omega (arith, read_int_takes net 8 s n en, ap (λ u. left u.1) (ok-injective k))
        | inr z ↦
            let (d, ed, e2) = >>=-ok (read_exactly net n.0 n.1) _ r (rw z at e1) in
            omega (
              arith,
              read_int_takes net 8 s n en,
              read_exactly_takes net n.0 n.1 d ed,
              ap (λ u. left u.1) (ok-injective e2),
            )
      ]

  read_elts_takes :
      (n : ℕ) (m : Message) (s : S) (r : Message × S)
      → read_elts net n m s ≡ ok r
      → left r.1 ≤ left s
  unfolding read_elts
  read_elts_takes zero m s r e = omega (arith, ap (λ u. left u.1) (ok-injective e))
  read_elts_takes (suc n) m s r e =
      let (d, ed, e1) = >>=-ok (read_elt net m s) _ r e in
      omega (arith, read_elt_takes m s d ed, read_elts_takes n d.0 d.1 r e1)

  -- A message that is read takes its header, of 22 bytes, at least.
  pub read_from_takes :
      (host : ℕ) (m : Message) (s : S) (r : Message × S)
      → read_from net host m s ≡ ok r
      → left r.1 + 22 ≤ left s
  unfolding read_from read
  read_from_takes host m s r e =
      let (a, ea, e1) = >>=-ok (read_int net 8 s) _ r e in
      let (b, eb, e2) = >>=-ok (read_int net 8 a.1) _ r e1 in
      let (c, ec, e3) = >>=-ok (read_int net 4 b.1) _ r e2 in
      let (d, ed, e4) = >>=-ok (read_int net 2 c.1) _ r e3 in
      let (x, ex, e5) = >>=-ok (read_elts net d.0 _ d.1) _ r e4 in
      omega (
        arith,
        read_int_takes net 8 s a ea,
        read_int_takes net 8 a.1 b eb,
        read_int_takes net 4 b.1 c ec,
        read_int_takes net 2 c.1 d ed,
        read_elts_takes d.0 _ d.1 x ex,
        ap (λ u. left u.1) (ok-injective e5),
      )

  -- A connection that has ended has no further message.
  pub read_from_nothing :
      (host : ℕ) (m : Message) (s : S)
      → pending s ≡ []
      → (read_from net host m s ≡ err socket_closed) ⊎ (read_from net host m s ≡ err socket_error)
  unfolding read_from read read_int
  read_from_nothing host m s p = elim (read_exactly_short net 8 s (omega (arith, ap length p))) [
    | inl e ↦ inl (rw e refl)
    | inr e ↦ inr (rw e refl)
  ]
