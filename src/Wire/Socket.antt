-- ===== src/Wire/Socket.antt =====
-- src/libagml_comm/tcp/Socket.{h,cpp}: reading a given number of bytes off a blocking socket.
pub mod Reads
pub mod Takes
use lib_agml.Common.{
  Bool, true, false, Option, none, some, ◌^◌, ℕ, zero, suc, ◌+◌, ◌-◌, ◌*◌, ◌≤◌, ◌<◌, ◌≡◌, ◌≢◌, ◌⊎◌,
  refl, List, [], ◌∷◌, ◌++◌, ◌==◌, if◌then◌else◌, length, take, drop, Result, ok, err,
  socket_closed, socket_error, out_of_fuel, ◌>>=◌, arith,
}
use lib_agml.Wire.Bytes.{le_value}

-- What `::recv` returns: a positive count of bytes, 0, or a negative number.
pub data Recv (S : Type 0) : Type 0 where
  got : List ℕ → S → Recv S
  closed : Recv S
  failed : Recv S

-- The kernel's side of a connection. `pending` is what the connection still delivers before it ends
-- or fails; a call of `recv` for at most `n` bytes hands out a non-empty piece from its front.
pub record Net : Type 1 where
  pub S : Type 0
  pub pending : S → List ℕ
  pub recv : S → ℕ → Recv S
  pub recv_delivers :
      (s : S) (n : ℕ)
      → pending s ≢ []
      → 0 < n
      → (bs : List ℕ) × (s' : S) × (recv s n ≡ got bs s')
        × (0 < length bs)
        × (length bs ≤ n)
        × (pending s ≡ bs ++ pending s')
  pub recv_ends : (s : S) (n : ℕ) → pending s ≡ [] → (recv s n ≡ closed) ⊎ (recv s n ≡ failed)

-- The kernel's other side: how many bytes a call of `::write` takes, or `none` for a negative answer. Up to
-- 0x7ffff000 bytes are taken whole by a connection that stays up, on a blocking socket and without a signal.
pub record Outlet : Type 0 where
  pub moved : List ℕ → Option ℕ
  pub whole : (bs : List ℕ) → length bs ≤ 2 ^ 31 - 4096 → moved bs ≡ some (length bs)

-- `write(void*, size_t)`: the bytes sent, which may be fewer, and `false` where it throws.
unfoldable pub socket_write : Outlet → List ℕ → List ℕ × Bool
socket_write out bs = elim (out.moved bs) [ none ↦ ([], false) | some n ↦ (take n bs, true) ]

module _ (net : Net) where
  open net use {S, pending, recv, recv_delivers, recv_ends}

  -- The loop of `read_exactly`, with the bytes still wanted; a round per unit of fuel.
  pub read_loop : ℕ → S → ℕ → Result (List ℕ × S)
  read_loop zero s n = if n == 0 then ok ([], s) else err out_of_fuel
  read_loop (suc f) s n =
      let next : Result (List ℕ × S) = elim (recv s n) [
        | got bs s' ↦ read_loop f s' (n - length bs) >>= λ r. ok (bs ++ r.0, r.1)
        | closed ↦ err socket_closed
        | failed ↦ err socket_error
      ] in
      if n == 0 then ok ([], s) else next

  -- Every round brings a byte at least, so `n` rounds are enough.
  pub read_exactly : ℕ → S → Result (List ℕ × S)
  read_exactly n s = read_loop n s n

  -- `read(long*)`, `read(size_t*)`, `read(int*)`, `read(unsigned short*)`: `w` bytes of an integer.
  unfoldable pub read_int : ℕ → S → Result (ℕ × S)
  read_int w s = read_exactly w s >>= λ r. ok (le_value r.0, r.1)
