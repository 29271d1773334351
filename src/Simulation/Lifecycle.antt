-- ===== src/Simulation/Lifecycle.antt =====
-- src/libagml_comm/simulation/Thread.cpp and src/libagml_comm/agml/node.cpp: the array of attached nodes,
-- and the order in which a node's code is called.
use lib_agml.Common.{
  ℕ, ◌+◌, ◌-◌, ◌≡◌, refl, ap, sym, ◌∙◌, inl, inr, Bool, true, false, not, List, [], ◌∷◌, ◌++◌, ◌==◌,
  if◌then◌else◌, arith, Bool-cases, ==_iff,
}
use lib_agml.Simulation.{
  NodeState, Event, inits, processes, receives, Thread, remove, set_node, thread_attach,
  thread_detach, attach, detach, thread_remove, finish, logged, marked,
}

-- How often a number stands in a list.
abbrev pub count : ℕ → List ℕ → ℕ
count n [] = 0
count n (x ∷ xs) = (if x == n then 1 else 0) + count n xs

abbrev pub one_if : Bool → ℕ
one_if b = if b then 1 else 0

-- How often `Node::_init` of node `n` was called.
abbrev pub init_count : ℕ → List Event → ℕ
init_count n [] = 0
init_count n (inits k ∷ es) = one_if (k == n) + init_count n es
init_count n (processes k ∷ es) = init_count n es
init_count n (receives k m ∷ es) = init_count n es

-- Whether an event can come after `es`, the last of them first.
abbrev pub MayFollow : Event → List Event → Type 0
MayFollow (inits n) es = init_count n es ≡ 0
MayFollow (processes n) es = init_count n es ≡ 1
MayFollow (receives n m) es = init_count n es ≡ 1

-- A log, the last event first, in which every node is initialised once, before anything else it does.
abbrev pub IsOrdered : List Event → Type 0
IsOrdered [] = Unit {0}
IsOrdered (e ∷ es) = MayFollow e es × IsOrdered es

-- The array holds the attached nodes once each, and the log is in order and tells which are initialised.
pub record IsSound (t : Thread) : Type 0 where
  pub attached_once : (n : ℕ) → count n t.nodes ≡ one_if (t.node n).is_attached
  pub inited_once : (n : ℕ) → init_count n t.log ≡ one_if (t.node n).is_inited
  pub in_order : IsOrdered t.log

-- The changes that a thread's state goes through, in whatever order its nodes' code causes them.
pub data Step : Thread → Thread → Type 0 where
  attaches : {t : Thread} (n : ℕ) → Step t (attach n t)
  detaches : {t : Thread} (n : ℕ) → Step t (detach n t)
  finishes : {t : Thread} (n : ℕ) → Step t (finish n t)
  marks : {t : Thread} (n : ℕ) → (t.node n).is_inited ≡ false → Step t (marked n t)
  receives_at :
      {t : Thread} (n m : ℕ) → (t.node n).is_inited ≡ true → Step t (logged (receives n m) t)
  processes_at :
      {t : Thread} (n : ℕ)
      → (t.node n).is_inited ≡ true
      → (t.node n).is_attached ≡ true
      → Step t (logged (processes n) t)
  pulls : {t : Thread} (rest : List (ℕ × ℕ)) → Step t (record t { fifo = rest })

pub data Runs : Thread → Thread → Type 0 where
  done : {t : Thread} → Runs t t
  then_step : {t u v : Thread} → Runs t u → Step u v → Runs t v

pub Runs-trans : {t u v : Thread} → Runs t u → Runs u v → Runs t v
Runs-trans r done = r
Runs-trans r (then_step s x) = then_step (Runs-trans r s) x

pub count-append : (n : ℕ) (xs ys : List ℕ) → count n (xs ++ ys) ≡ count n xs + count n ys
count-append n [] ys = omega arith
count-append n (x ∷ xs) ys = omega (arith, count-append n xs ys)

pub count-remove :
    (n k : ℕ) (xs : List ℕ)
    → count n (remove xs k) ≡ count n xs - (if k == n then one_if (not (count k xs == 0)) else 0)
unfolding remove
count-remove n k [] = ground arith
count-remove n k (x ∷ xs) = ground (arith, count-remove n k xs)

attach-IsSound : (n : ℕ) (t : Thread) → IsSound t → IsSound (attach n t)
unfolding attach thread_attach
attach-IsSound n t v = elim (Bool-cases (t.node n).is_attached) [
  | inl b ↦ rw b v
  | inr b ↦ rw b (record {
    attached_once = λ k. elim (Bool-cases (n == k)) [
      | inl e ↦
          rw (count-append k t.nodes (n ∷ []), e)
            (ground (arith, v.attached_once k, (==_iff n k).0 e))
      | inr e ↦ rw (count-append k t.nodes (n ∷ []), e) (ground (arith, v.attached_once k))
    ];
    inited_once = λ k. elim (Bool-cases (n == k)) [
      | inl e ↦ rw e (ground (arith, v.inited_once k, (==_iff n k).0 e))
      | inr e ↦ rw e (v.inited_once k)
    ];
    in_order = v.in_order;
  })
]

detach-IsSound : (n : ℕ) (t : Thread) → IsSound t → IsSound (detach n t)
unfolding detach thread_detach
detach-IsSound n t v = elim (Bool-cases (t.node n).is_attached) [
  | inl b ↦ rw b (record {
    attached_once = λ k. elim (Bool-cases (n == k)) [
      | inl e ↦
          rw (count-remove k n t.nodes, e)
            (ground (arith, v.attached_once k, v.attached_once n, (==_iff n k).0 e))
      | inr e ↦ rw (count-remove k n t.nodes, e) (ground (arith, v.attached_once k))
    ];
    inited_once = λ k. elim (Bool-cases (n == k)) [
      | inl e ↦ rw e (ground (arith, v.inited_once k, (==_iff n k).0 e))
      | inr e ↦ rw e (v.inited_once k)
    ];
    in_order = v.in_order;
  })
  | inr b ↦ rw b v
]

-- A write to a node's flags that keeps whether it is attached and initialised.
set_node-IsSound :
    (n : ℕ) (t : Thread) (s : NodeState) (left : ℕ) (running : Bool)
    → s.is_attached ≡ (t.node n).is_attached
    → s.is_inited ≡ (t.node n).is_inited
    → IsSound t
    → IsSound (record (set_node t n s) { nb_running_nodes = left; is_running = running })
set_node-IsSound n t s left running a i v = record {
  attached_once = λ k. v.attached_once k ∙ ap one_if (sym (same_attached k));
  inited_once = λ k. v.inited_once k ∙ ap one_if (sym (same_inited k));
  in_order = v.in_order;
}
  where
    same_attached : (k : ℕ) → (if n == k then s else t.node k).is_attached ≡ (t.node k).is_attached
    same_attached k = elim (Bool-cases (n == k)) [
      | inl e ↦ rw e (a ∙ ap (λ j. (t.node j).is_attached) ((==_iff n k).0 e))
      | inr e ↦ rw e refl
    ]

    same_inited : (k : ℕ) → (if n == k then s else t.node k).is_inited ≡ (t.node k).is_inited
    same_inited k = elim (Bool-cases (n == k)) [
      | inl e ↦ rw e (i ∙ ap (λ j. (t.node j).is_inited) ((==_iff n k).0 e))
      | inr e ↦ rw e refl
    ]

thread_remove-IsSound : (n : ℕ) (t : Thread) → IsSound t → IsSound (thread_remove n t)
unfolding thread_remove
thread_remove-IsSound n t v =
    detach-IsSound n _ (record {
      attached_once = v.attached_once;
      inited_once = v.inited_once;
      in_order = v.in_order;
    })

finish-IsSound : (n : ℕ) (t : Thread) → IsSound t → IsSound (finish n t)
unfolding finish
finish-IsSound n t v = elim (Bool-cases (t.node n).is_finished) [
  | inl b ↦ rw b v
  | inr b ↦ rw b (
      thread_remove-IsSound n _
        (set_node-IsSound n t _ t.nb_running_nodes t.is_running refl refl v))
]

mark-IsSound :
    (n : ℕ) (t : Thread) → (t.node n).is_inited ≡ false → IsSound t → IsSound (marked n t)
mark-IsSound n t b v = record {
  attached_once = λ k. elim (Bool-cases (n == k)) [
    | inl e ↦ rw e (ground (arith, v.attached_once k, (==_iff n k).0 e))
    | inr e ↦ rw e (v.attached_once k)
  ];
  inited_once = λ k. elim (Bool-cases (n == k)) [
    | inl e ↦ rw e (ground (arith, v.inited_once k, (==_iff n k).0 e, b))
    | inr e ↦ rw e (omega (arith, v.inited_once k))
  ];
  in_order = (v.inited_once n ∙ rw b refl, v.in_order);
}

pub Step-IsSound : {t u : Thread} → Step t u → IsSound t → IsSound u
Step-IsSound {t} (attaches n) v = attach-IsSound n t v
Step-IsSound {t} (detaches n) v = detach-IsSound n t v
Step-IsSound {t} (finishes n) v = finish-IsSound n t v
Step-IsSound {t} (marks n b) v = mark-IsSound n t b v
Step-IsSound {t} (receives_at n m b) v = record {
  attached_once = v.attached_once;
  inited_once = v.inited_once;
  in_order = (v.inited_once n ∙ rw b refl, v.in_order);
}
Step-IsSound {t} (processes_at n b a) v = record {
  attached_once = v.attached_once;
  inited_once = v.inited_once;
  in_order = (v.inited_once n ∙ rw b refl, v.in_order);
}
Step-IsSound {t} (pulls rest) v = record {
  attached_once = v.attached_once;
  inited_once = v.inited_once;
  in_order = v.in_order;
}

-- Whatever calls the nodes of a thread make, its array holds just the attached nodes, once each, and
-- every node is initialised once, before it first processes or receives.
pub Runs-IsSound : {t u : Thread} → Runs t u → IsSound t → IsSound u
Runs-IsSound done v = v
Runs-IsSound (then_step r s) v = Step-IsSound s (Runs-IsSound r v)
