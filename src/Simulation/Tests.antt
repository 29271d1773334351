-- ===== src/Simulation/Tests.antt =====
-- src/libagml_comm/simulation/Thread.cpp and src/libagml_comm/agml/node.cpp on a small thread.
use lib_agml.Common.{
  ℕ, ◌≡◌, refl, true, false, [], ◌∷◌, ◌==◌, if◌then◌else◌, ok, arith, Bool-cases, inl, inr,
}
use lib_agml.Simulation.{
  NodeState, NodeCode, Thread, attach, detach, thread_attach, thread_detach, thread_remove, finish,
  turn,
}
use lib_agml.Simulation.Lifecycle.{IsSound, done, then_step, attaches, finishes}
use lib_agml.Simulation.Turns.{IsLibraryCode, turn-IsSound}
use lib_agml.Simulation.Balance.{IsCounted, finish-IsCounted}
use lib_agml.Simulation.Placement.{instantiate_nodes, IsLightest, IsEven, instantiate_nodes-IsEven}

-- A node attaches itself when it is initialised, and finishes on its first message.
abbrev code : NodeCode
code = record { init = λ n t. attach n t; process = λ n t. t; on_receive = λ n m t. finish n t }

finish-fifo : (n : ℕ) (t : Thread) → (finish n t).fifo ≡ t.fifo
unfolding finish thread_remove detach thread_detach
finish-fifo n t = ground arith

attach-fifo : (n : ℕ) (t : Thread) → (attach n t).fifo ≡ t.fifo
unfolding attach thread_attach
attach-fifo n t = ground arith

code-IsLibraryCode : IsLibraryCode code
code-IsLibraryCode = record {
  init_runs = λ n t. then_step done (attaches n);
  process_runs = λ n t. done;
  receive_runs = λ n m t. then_step done (finishes n);
  init_queue = attach-fifo;
  process_queue = λ n t. refl;
  receive_queue = λ n m t. finish-fifo n t;
}

-- Two new nodes, the second one attached, with a message waiting for the first.
abbrev fresh : NodeState
fresh = record { is_inited = false; is_attached = false; is_finished = false }

abbrev thread : Thread
thread = record {
  nodes = 1 ∷ [];
  owned = 0 ∷ 1 ∷ [];
  node = λ n. if n == 1 then record fresh { is_attached = true } else fresh;
  fifo = (0, 5) ∷ [];
  nb_running_nodes = 2;
  is_running = true;
  posts = 0;
  log = [];
}

thread-IsSound : IsSound thread
thread-IsSound = record {
  attached_once = λ n. elim (Bool-cases (n == 1)) [ inl e ↦ ground arith | inr e ↦ ground arith ];
  inited_once = λ n. elim (Bool-cases (n == 1)) [ inl e ↦ rw e refl | inr e ↦ rw e refl ];
  in_order = tt;
}

turn-IsSound_example : IsSound (turn code 3 thread) × ((turn code 3 thread).fifo ≡ [])
turn-IsSound_example = turn-IsSound code code-IsLibraryCode 3 thread thread-IsSound

thread-IsCounted : IsCounted thread
thread-IsCounted = record {
  owned_once = λ n. ground arith;
  few = omega arith;
  counted = refl;
  alive = refl;
}

finish-IsCounted_example : IsCounted (finish 1 thread)
finish-IsCounted_example = finish-IsCounted 1 thread refl thread-IsCounted

-- Seven nodes on three threads.
instantiate_nodes-IsEven_example :
    (th : ℕ) × (after : ℕ → ℕ) × (instantiate_nodes (λ j. if j == 1 then 0 else 4) 3 7 ≡ ok after)
    × IsLightest (λ j. if j == 1 then 0 else 4) 3 th
    × IsEven (λ j. if j == 1 then 0 else 4) after 3 7 th
instantiate_nodes-IsEven_example =
    instantiate_nodes-IsEven (λ j. if j == 1 then 0 else 4) 3 7 (omega arith) (omega arith)
      (omega arith)
