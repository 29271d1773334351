-- ===== src/Simulation.antt =====
-- src/libagml_comm/simulation/Thread.cpp, src/libagml_comm/agml/node.cpp and src/libagml_comm/util/{array.h,
-- fifo.h}: a simulation thread, the nodes that it owns and its queue of messages. The code that a node
-- class runs in `init`, `process` and `on_receive` is a parameter.
mod Tests
pub mod Lifecycle
pub mod Turns
pub mod Balance
pub mod Placement
use lib_agml.Common.{
  ℕ, zero, suc, ◌+◌, ◌-◌, ◌%◌, ◌^◌, ◌≡◌, Bool, true, false, not, ◌&&◌, Option, none, some, List, [],
  ◌∷◌, ◌++◌, ◌==◌, ltb, if◌then◌else◌, length, get_elem?,
}

-- The flags of a `Node`.
pub record NodeState : Type 0 where
  pub is_inited : Bool
  pub is_attached : Bool
  pub is_finished : Bool

-- The calls of `Node::_init`, `Node::_process` and `Node::_receive`, at which a node's own code runs.
pub data Event : Type 0 where
  inits : ℕ → Event
  processes : ℕ → Event
  receives : ℕ → ℕ → Event

-- `Thread`: its attached nodes, the nodes whose `thread` it is, their flags, the queue of messages with
-- the nodes that they are for, `nb_running_nodes` as a `uint`, `bRunning`, how often the semaphore was
-- posted, and what was called, the last call first.
pub record Thread : Type 0 where
  pub nodes : List ℕ
  pub owned : List ℕ
  pub node : ℕ → NodeState
  pub fifo : List (ℕ × ℕ)
  pub nb_running_nodes : ℕ
  pub is_running : Bool
  pub posts : ℕ
  pub log : List Event

-- `array::remove` is `vector_remove`: the first occurrence goes.
unfoldable pub remove : List ℕ → ℕ → List ℕ
remove [] n = []
remove (x ∷ xs) n = if x == n then xs else x ∷ remove xs n

-- A write to the flags of node `n`.
abbrev pub set_node : Thread → ℕ → NodeState → Thread
set_node t n s = record t { node = λ j. if n == j then s else t.node j }

-- `Thread::attach`, `Thread::detach`
unfoldable pub thread_attach : ℕ → Thread → Thread
thread_attach n t = record t { nodes = t.nodes ++ (n ∷ []); posts = t.posts + 1 }

unfoldable pub thread_detach : ℕ → Thread → Thread
thread_detach n t = record t { nodes = remove t.nodes n; posts = t.posts + 1 }

-- `Node::attach`, `Node::detach`
unfoldable pub attach : ℕ → Thread → Thread
attach n t =
    if (t.node n).is_attached
    then t
    else set_node (thread_attach n t) n (record (t.node n) { is_attached = true })

unfoldable pub detach : ℕ → Thread → Thread
detach n t =
    if (t.node n).is_attached
    then set_node (thread_detach n t) n (record (t.node n) { is_attached = false })
    else t

-- `NodeGroupHost::instantiate_nodes` makes the thread the owner of a new node; `Thread::add`.
unfoldable pub add : ℕ → Thread → Thread
add n t =
    attach n (record t {
      owned = t.owned ++ (n ∷ []);
      nb_running_nodes = (t.nb_running_nodes + 1) % 2 ^ 32;
    })

-- `Thread::remove`
unfoldable pub thread_remove : ℕ → Thread → Thread
thread_remove n t =
    let left = (t.nb_running_nodes + 2 ^ 32 - 1) % 2 ^ 32 in
    detach n
      (record t { nb_running_nodes = left; is_running = if left == 0 then false else t.is_running })

-- `Node::finish`
unfoldable pub finish : ℕ → Thread → Thread
finish n t =
    if (t.node n).is_finished
    then t
    else thread_remove n (set_node t n (record (t.node n) { is_finished = true }))

-- `FIFO::push` by `Thread::push_message`
unfoldable pub push_message : ℕ → ℕ → Thread → Thread
push_message n m t = record t { fifo = t.fifo ++ ((n, m) ∷ []); posts = t.posts + 1 }

-- What happens to a thread when the code of node `n` runs.
pub record NodeCode : Type 0 where
  pub init : ℕ → Thread → Thread
  pub process : ℕ → Thread → Thread
  pub on_receive : ℕ → ℕ → Thread → Thread

abbrev pub logged : Event → Thread → Thread
logged e t = record t { log = e ∷ t.log }

abbrev pub marked : ℕ → Thread → Thread
marked n t = logged (inits n) (set_node t n (record (t.node n) { is_inited = true }))

-- `bInited` is set before `Node::_init` runs.
unfoldable pub ensure_inited : NodeCode → ℕ → Thread → Thread
ensure_inited c n t = if (t.node n).is_inited then t else c.init n (marked n t)

-- `Node::_receive`
unfoldable pub receive : NodeCode → ℕ → ℕ → Thread → Thread
receive c n m t = c.on_receive n m (logged (receives n m) (ensure_inited c n t))

-- The loop of `Thread::run` that empties the queue, on `fuel` messages.
abbrev pull : NodeCode → (Thread → Thread) → Thread → List (ℕ × ℕ) → Thread
pull c next t [] = t
pull c next t (e ∷ rest) = next (receive c e.0 e.1 (record t { fifo = rest }))

pub drain : NodeCode → ℕ → Thread → Thread
drain c zero t = t
drain c (suc fuel) t = pull c (λ u. drain c fuel u) t t.fifo

-- What `Thread::run` does with the node it has drawn.
unfoldable pub visit : NodeCode → ℕ → Thread → Thread
visit c n t = if (t.node n).is_finished then t else process_attached (ensure_inited c n t)
  where
    process_attached : Thread → Thread
    process_attached u = if (u.node n).is_attached then c.process n (logged (processes n) u) else u

-- `Thread::draw_random_node` with `rand()` at `r`
unfoldable pub draw_random_node : ℕ → Thread → Option ℕ
draw_random_node r t = get_elem? t.nodes (r % length t.nodes)

-- One turn of the loop of `Thread::run`, past the wait: an empty array draws no node.
abbrev pub visit_drawn : NodeCode → Option ℕ → Thread → Thread
visit_drawn c none t = t
visit_drawn c (some n) t = visit c n t

unfoldable pub turn : NodeCode → ℕ → Thread → Thread
turn c r t = let u = drain c (length t.fifo) t in visit_drawn c (draw_random_node r u) u
