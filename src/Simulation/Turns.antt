-- ===== src/Simulation/Turns.antt =====
-- src/libagml_comm/simulation/Thread.cpp: `Thread::run`, for any code of the nodes.
use lib_agml.Common.{
  ℕ, zero, suc, ◌≤◌, ◌≡◌, refl, ◌∙◌, inl, inr, true, Option, none, some, List, [], ◌∷◌, length,
  arith, Bool-cases, ==_refl,
}
use lib_agml.Simulation.{
  attach, detach, thread_attach, thread_detach, thread_remove, finish, Thread, NodeCode, marked,
  ensure_inited, receive, drain, pull, visit, draw_random_node, visit_drawn, turn,
}
use lib_agml.Simulation.Lifecycle.{
  IsSound, Step, attaches, detaches, finishes, marks, receives_at, processes_at, pulls, Runs, done,
  then_step, Runs-trans, Runs-IsSound,
}

-- The code of a node changes its thread only through the calls of the library, and leaves the queue to
-- the other threads.
pub record IsLibraryCode (c : NodeCode) : Type 0 where
  pub init_runs : (n : ℕ) (t : Thread) → Runs t (c.init n t)
  pub process_runs : (n : ℕ) (t : Thread) → Runs t (c.process n t)
  pub receive_runs : (n m : ℕ) (t : Thread) → Runs t (c.on_receive n m t)
  pub init_queue : (n : ℕ) (t : Thread) → (c.init n t).fifo ≡ t.fifo
  pub process_queue : (n : ℕ) (t : Thread) → (c.process n t).fifo ≡ t.fifo
  pub receive_queue : (n m : ℕ) (t : Thread) → (c.on_receive n m t).fifo ≡ t.fifo

-- The steps of a call, the node's initialisation at its end, and the queue it leaves.
record IsDone (t u : Thread) (queue : List (ℕ × ℕ)) : Type 0 where
  pub runs : Runs t u
  pub queue_left : u.fifo ≡ queue

finish-is_inited : (k n : ℕ) (t : Thread) → ((finish n t).node k).is_inited ≡ (t.node k).is_inited
unfolding finish thread_remove detach thread_detach
finish-is_inited k n t = ground arith

-- No call takes an initialisation back.
Step-is_inited :
    {t u : Thread} (k : ℕ) → Step t u → (t.node k).is_inited ≡ true → (u.node k).is_inited ≡ true
unfolding attach thread_attach detach thread_detach
Step-is_inited {t} k (attaches n) b = ground arith
Step-is_inited {t} k (detaches n) b = ground arith
Step-is_inited {t} k (finishes n) b = finish-is_inited k n t ∙ b
Step-is_inited {t} k (marks n e) b = ground arith
Step-is_inited {t} k (receives_at n m e) b = b
Step-is_inited {t} k (processes_at n e a) b = b
Step-is_inited {t} k (pulls rest) b = b

Runs-is_inited :
    {t u : Thread} (k : ℕ) → Runs t u → (t.node k).is_inited ≡ true → (u.node k).is_inited ≡ true
Runs-is_inited k done b = b
Runs-is_inited k (then_step r s) b = Step-is_inited k s (Runs-is_inited k r b)

module _ (c : NodeCode) (lib : IsLibraryCode c) where
  ensure_inited-IsDone : (n : ℕ) (t : Thread) → IsDone t (ensure_inited c n t) t.fifo
  unfolding ensure_inited
  ensure_inited-IsDone n t = elim (Bool-cases (t.node n).is_inited) [
    | inl b ↦ rw b (record { runs = done; queue_left = refl })
    | inr b ↦ rw b (record {
      runs = Runs-trans (then_step done (marks n b)) (lib.init_runs n (marked n t));
      queue_left = lib.init_queue n (marked n t);
    })
  ]

  ensure_inited-is_inited : (n : ℕ) (t : Thread) → ((ensure_inited c n t).node n).is_inited ≡ true
  unfolding ensure_inited
  ensure_inited-is_inited n t = elim (Bool-cases (t.node n).is_inited) [
    | inl b ↦ rw b b
    | inr b ↦ rw b (Runs-is_inited n (lib.init_runs n (marked n t)) (rw (==_refl n) refl))
  ]

  receive-IsDone : (n m : ℕ) (t : Thread) → IsDone t (receive c n m t) t.fifo
  unfolding receive
  receive-IsDone n m t =
      let d = ensure_inited-IsDone n t in
      record {
        runs =
            Runs-trans (then_step d.runs (receives_at n m (ensure_inited-is_inited n t)))
              (lib.receive_runs n m _);
        queue_left = lib.receive_queue n m _ ∙ d.queue_left;
      }

  pull-IsDone :
      (next : Thread → Thread) (fuel : ℕ)
      → ((u : Thread) → length u.fifo ≤ fuel → IsDone u (next u) [])
      → (t : Thread) (q : List (ℕ × ℕ)) → t.fifo ≡ q
      → length q ≤ suc fuel
      → IsDone t (pull c next t q) []
  pull-IsDone next fuel ih t [] e h = record { runs = done; queue_left = e }
  pull-IsDone next fuel ih t (e ∷ rest) eq h =
      let one = receive-IsDone e.0 e.1 (record t { fifo = rest }) in
      let all =
        ih (receive c e.0 e.1 (record t { fifo = rest })) (rw one.queue_left (omega arith)) in
      record {
        runs = Runs-trans (then_step done (pulls rest)) (Runs-trans one.runs all.runs);
        queue_left = all.queue_left;
      }

  drain-IsDone : (fuel : ℕ) (t : Thread) → length t.fifo ≤ fuel → IsDone t (drain c fuel t) []
  unfolding drain
  drain-IsDone zero t h = record { runs = done; queue_left = no_messages t.fifo h }
    where
      no_messages : (q : List (ℕ × ℕ)) → length q ≤ 0 → q ≡ []
      no_messages [] h = refl
      no_messages (e ∷ q) h = absurd (omega arith)
  drain-IsDone (suc fuel) t h =
      pull-IsDone (λ u. drain c fuel u) fuel (drain-IsDone fuel) t t.fifo refl h

  visit-IsDone : (n : ℕ) (t : Thread) → IsDone t (visit c n t) t.fifo
  unfolding visit
  visit-IsDone n t =
      let d = ensure_inited-IsDone n t in
      elim (Bool-cases (t.node n).is_finished) [
        | inl f ↦ rw f (record { runs = done; queue_left = refl })
        | inr f ↦ elim (Bool-cases ((ensure_inited c n t).node n).is_attached) [
          | inl a ↦
              rw (f, a)
                (record {
                  runs =
                      Runs-trans (then_step d.runs (processes_at n (ensure_inited-is_inited n t) a))
                        (lib.process_runs n _);
                  queue_left = lib.process_queue n _ ∙ d.queue_left;
                })
          | inr a ↦ rw (f, a) d
        ]
      ]

  visit_drawn-IsDone : (o : Option ℕ) (t : Thread) → IsDone t (visit_drawn c o t) t.fifo
  visit_drawn-IsDone none t = record { runs = done; queue_left = refl }
  visit_drawn-IsDone (some n) t = visit-IsDone n t

  -- Whatever the code of the nodes does by calls of the library, one turn of a thread's loop from a sound
  -- state empties the queue that it finds, keeps in the array the attached nodes, once each, and calls the
  -- nodes in order: `Node::_init` is called no second time for a node, and before it processes or receives.
  pub turn-IsSound :
      (r : ℕ) (t : Thread) → IsSound t → IsSound (turn c r t) × ((turn c r t).fifo ≡ [])
  unfolding turn
  turn-IsSound r t v =
      let d = drain-IsDone (length t.fifo) t (omega arith) in
      let u = drain c (length t.fifo) t in
      let w = visit_drawn-IsDone (draw_random_node r u) u in
      (Runs-IsSound (Runs-trans d.runs w.runs) v, w.queue_left ∙ d.queue_left)
