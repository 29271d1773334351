-- ===== src/Network/Connection/Ends.antt =====
-- src/libagml_comm/common/com.cpp: the thread of a connection handles just what was sent, in its order, and ends.
use lib_agml.Common.{
  ℕ, zero, suc, ◌*◌, ◌<◌, ◌≡◌, ◌≢◌, ◌⊎◌, inl, inr, refl, ap, sym, ◌∙◌, some, List, [], ◌∷◌, ◌++◌,
  ◌^◌, length, map, ok, err, Error, socket_closed, socket_error, arith, none, Result-cases,
  Option-cases, Option-cases, none,
}
use lib_agml.Wire.Socket.{Net, Outlet}
use lib_agml.Wire.Message.{Message, new_message, read_from, write}
use lib_agml.Wire.Message.RoundTrip.{IsValid, rebuilt, read_from-write}
use lib_agml.Wire.Message.Takes.{read_from_takes, read_from_nothing}
use lib_agml.Network.Connection.{
  Process, Ending, gone, exits, thrown, running, read_failed, handle, connection_loop, close,
  com_connection_thread, handle_each,
}

-- Messages that fit what the wire can carry.
abbrev pub AllSent : List Message → Type 0
AllSent [] = Unit {0}
AllSent (m ∷ ms) = (IsValid m × (length m.elts < 2 ^ 16)) × AllSent ms

-- The bytes of some messages, written one after another.
abbrev pub bytes_of : Outlet → List Message → List ℕ
bytes_of out [] = []
bytes_of out (m ∷ ms) = (write out m).0 ++ bytes_of out ms

-- A message as the reader at the other end has it.
abbrev pub arrived : ℕ → Message → Message
arrived h m = rebuilt (some h) m m.elts

module _ (net : Net) (process : Process) where
  open net use {S, pending}
  open process use {State, enters}

  module _ (f h : ℕ) (w : State) (s s' : S) (m : Message) where
    loop-thrown :
        (x : Error)
        → read_from net h new_message s ≡ ok (m, s')
        → (handle net process h w m).1 ≡ some x
        → connection_loop net process (suc f) h w s ≡ ((handle net process h w m).0, thrown x)
    unfolding connection_loop
    loop-thrown x e k = rw (e, connection_loop) (rw k refl)

    loop-handled :
        read_from net h new_message s ≡ ok (m, s')
        → (handle net process h w m).1 ≡ none
        → connection_loop net process (suc f) h w s
          ≡ connection_loop net process f h (handle net process h w m).0 s'
    unfolding connection_loop
    loop-handled e k = rw (e, connection_loop) (rw k refl)

  module _ (h : ℕ) (w : State) (m : Message) (ms : List Message) (last : Ending) where
    each-thrown :
        (x : Error)
        → (handle net process h w m).1 ≡ some x
        → handle_each net process h w (m ∷ ms) last ≡ ((handle net process h w m).0, thrown x)
    unfolding handle_each
    each-thrown x k = rw (k, handle_each) refl

    each-handled :
        (handle net process h w m).1 ≡ none
        → handle_each net process h w (m ∷ ms) last
          ≡ handle_each net process h (handle net process h w m).0 ms last
    unfolding handle_each
    each-handled k = rw (k, handle_each) refl

  loop-fails :
      (f h : ℕ) (w : State) (s : S) (e : Error)
      → read_from net h new_message s ≡ err e
      → connection_loop net process (suc f) h w s ≡ (w, read_failed e)
  unfolding connection_loop
  loop-fails f h w s e r = rw (r, connection_loop) refl

  -- How a loop ends that has read everything.
  abbrev IsEnd : Ending → Type 0
  IsEnd last = (last ≡ gone) ⊎ (last ≡ exits socket_error)

  abbrev Handles : ℕ → ℕ → State → List Message → S → Type 0
  Handles f h w ms s =
      (last : Ending) × IsEnd last
      × (connection_loop net process f h w s
          ≡ handle_each net process h w (map (arrived h) ms) last)

  handled_first :
      (f h : ℕ) (w : State) (s s' : S) (m : Message) (ms : List Message)
      → read_from net h new_message s ≡ ok (arrived h m, s')
      → ((v : State) → Handles f h v ms s')
      → Handles (suc f) h w (m ∷ ms) s
  unfolding handle_each
  handled_first f h w s s' m ms e rest =
      let r = arrived h m in
      let rs = map (arrived h) ms in
      let v = handle net process h w r in
      elim (Option-cases v.1) [
        | inr (x, ex) ↦
            (gone, inl refl, loop-thrown f h w s s' r x e ex ∙ sym (each-thrown h w r rs gone x ex))
        | inl ev ↦
            let (last, end, k) = rest v.0 in
            (last, end, loop-handled f h w s s' r e ev ∙ k ∙ sym (each-handled h w r rs last ev))
      ]

  loop-Handles :
      (out : Outlet) (f h : ℕ) (w : State) (ms : List Message) (s : S)
      → AllSent ms
      → pending s ≡ bytes_of out ms
      → length ms < f
      → Handles f h w ms s
  unfolding handle_each read_failed
  loop-Handles out zero h w ms s v p l = absurd (omega arith)
  loop-Handles out (suc f) h w [] s v p l = elim (read_from_nothing net h new_message s p) [
    | inl e ↦ (gone, inl refl, loop-fails f h w s socket_closed e)
    | inr e ↦ (exits socket_error, inr refl, loop-fails f h w s socket_error e)
  ]
  loop-Handles out (suc f) h w (m ∷ ms) s v p l =
      let (s', e, q) = read_from-write net out h m s (bytes_of out ms) v.0.0 v.0.1 p in
      handled_first f h w s s' m ms e (λ u. loop-Handles out f h u ms s' v.1 q (omega arith))

  -- When valid messages of fewer than 2^16 elements of at most 0x7ffff000 bytes each, written one after another to a
  -- socket that takes as much of a write, are all that a connection still delivers, in whatever pieces, then its thread, given more rounds than there are messages, does to the process
  -- what handling the messages one by one in that order does, up to the first that throws and with what this
  -- one changed before; behind the last one it
  -- finds the connection closed, or failed, when the process exits.
  pub com_connection_thread-handle_each :
      (out : Outlet) (f h : ℕ) (w : State) (ms : List Message) (s : S)
      → AllSent ms
      → pending s ≡ bytes_of out ms
      → length ms < f
      → (last : Ending) × ((last ≡ gone) ⊎ (last ≡ exits socket_error))
        × (com_connection_thread net process f h w s
            ≡ close net process h
                (handle_each net process h (enters h w) (map (arrived h) ms) last))
  unfolding com_connection_thread
  com_connection_thread-handle_each out f h w ms s v p l =
      let (last, end, e) = loop-Handles out f h (enters h w) ms s v p l in
      (last, end, ap (close net process h) e)

  failed_ends : (e : Error) → read_failed e ≢ running
  unfolding read_failed
  failed_ends socket_closed h = cc
  failed_ends e h = cc

  thrown_ends : (x : Error) → thrown x ≢ running
  thrown_ends x h = cc

  loop_ends :
      (f h : ℕ) (w : State) (s : S)
      → length (pending s) < 22 * f
      → (connection_loop net process f h w s).1 ≢ running
  loop_ends zero h w s l = absurd (omega arith)
  loop_ends (suc f) h w s l = elim (Result-cases (read_from net h new_message s)) [
    | inl (x, ex) ↦ λ r. failed_ends x (sym (ap (λ p. p.1) (loop-fails f h w s x ex)) ∙ r)
    | inr (m, em) ↦ elim (Option-cases (handle net process h w m.0).1) [
      | inr (x, ex) ↦
          λ r. thrown_ends x (sym (ap (λ p. p.1) (loop-thrown f h w s m.1 m.0 x em ex)) ∙ r)
      | inl ev ↦ λ r.
          loop_ends f h (handle net process h w m.0).0 m.1
            (omega (arith, read_from_takes net h new_message s m em))
            (sym (ap (λ p. p.1) (loop-handled f h w s m.1 m.0 em ev)) ∙ r)
    ]
  ]

  close_ends : (h : ℕ) (r : State × Ending) → r.1 ≢ running → (close net process h r).1 ≢ running
  unfolding close
  close_ends h (w, gone) n = n
  close_ends h (w, thrown e) n = n
  close_ends h (w, exits e) n = n
  close_ends h (w, running) n = n

  -- The thread of a connection that delivers `n` more bytes, whatever they are, ends within any number of rounds
  -- that is above `n / 22`, since a message takes a header of 22 bytes at least.
  pub com_connection_thread_ends :
      (f h : ℕ) (w : State) (s : S)
      → length (pending s) < 22 * f
      → (com_connection_thread net process f h w s).1 ≢ running
  unfolding com_connection_thread
  com_connection_thread_ends f h w s l =
      close_ends h (connection_loop net process f h (enters h w) s) (loop_ends f h (enters h w) s l)
