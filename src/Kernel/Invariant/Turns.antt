-- ===== src/Kernel/Invariant/Turns.antt =====
-- Who runs next: `scheduler` and `task_switch` of kernel/task.c.
use microkernel_book.Base.{
  ℕ, ◌≡◌, ◌≢◌, ◌⊎◌, inl, inr, refl, sym, ◌∙◌, not, ◌&&◌, none, List, [], ◌∷◌, ◌++◌, arith, ◌==◌,
  append-nil, Bool-cases, if◌then◌else◌,
}
use microkernel_book.Kernel.State.{Kernel, current_task, idle_task, task_quantum}
use microkernel_book.Kernel.Monad.{Outcome, done, panic, waiting, set_task, ◌>>=◌}
use microkernel_book.Kernel.Sched.{
  is_runnable, choose, give_quantum, requeue, set_current, switch_to, task_switch,
}
use microkernel_book.Kernel.Invariant.{Ensures, QueuesInv, MaySwitch}
use microkernel_book.Kernel.Invariant.Switch.{
  popped, popped-QueuesInv, push_runqueue-pushed, SameQueues-QueuesInv, scheduler-nil,
  scheduler-cons, task_switch-from,
}

-- What a switch adds to the run queue: the task that gives the CPU away, if it can run on.
abbrev pub back : Kernel → List ℕ
back k = if is_runnable (k.tasks (current_task k)).state then current_task k ∷ [] else []

-- The turn order: the first task of the run queue is next and the current task goes to the back.
-- With an empty queue the current task goes on if it can and was not destroyed, and the idle task
-- runs otherwise.
abbrev pub turn : Kernel → List ℕ → ℕ × List ℕ
turn k (next ∷ rest) = (next, rest ++ back k)
turn k [] =
    let current = k.tasks (current_task k) in
    if is_runnable current.state && not current.destroyed
    then (current_task k, [])
    else (idle_task k, back k)

-- A switch to `next` that leaves this run queue behind, and touches no other CPU.
pub record Turn (k k' : Kernel) (next : ℕ) (queue : List ℕ) : Type 0 where
  pub runs : current_task k' ≡ next
  pub in_queue : k'.runqueue ≡ queue
  pub quantum : (next ≡ idle_task k) ⊎ ((k'.tasks next).quantum ≡ task_quantum)
  pub other_cpus : (c : ℕ) → c ≢ k.cpu → k'.current_of c ≡ k.current_of c
  pub states : (t : ℕ) → (k'.tasks t).state ≡ (k.tasks t).state
  pub messages : (t : ℕ) → (k'.tasks t).m ≡ (k.tasks t).m
  pub stacks : (t : ℕ) → (k'.tasks t).stack ≡ (k.tasks t).stack

abbrev left_queue : Kernel → ℕ → List ℕ
left_queue k next = if next == current_task k then k.runqueue else k.runqueue ++ back k

module _ (k : Kernel) (next : ℕ) (v : QueuesInv k) (may : MaySwitch k) where
  switch_to-Turn :
      (next ≡ idle_task k) ⊎ ((k.tasks next).quantum ≡ task_quantum)
      → Ensures (λ _ k'. Turn k k' next (left_queue k next)) (switch_to (current_task k) next k)
  unfolding switch_to requeue set_current
  switch_to-Turn q = elim (Bool-cases (next == current_task k)) [
    | inl same ↦ rw same (record {
      runs = ground arith;
      in_queue = refl;
      quantum = q;
      other_cpus = λ c n. refl;
      states = λ t. refl;
      messages = λ t. refl;
      stacks = λ t. refl;
    })
    | inr other ↦ elim may [
      | inl b ↦
          rw (other, b)
            (record {
              runs = ground arith;
              in_queue = rw append-nil refl;
              quantum = q;
              other_cpus = λ c n. ground arith;
              states = λ t. refl;
              messages = λ t. refl;
              stacks = λ t. refl;
            })
      | inr (r, l) ↦
          rw (other, r, push_runqueue-pushed k v (current_task k) l)
            (record {
              runs = ground arith;
              in_queue = refl;
              quantum = ground (arith, q);
              other_cpus = λ c n. ground arith;
              states = λ t. ground arith;
              messages = λ t. ground arith;
              stacks = λ t. ground arith;
            })
    ]
  ]

-- What a switch shows of one state, it shows of a state that differs in what it does not report.
Turn-from :
    (k k1 : Kernel) (next : ℕ) {q1 queue : List ℕ}
    → k1.cpu ≡ k.cpu
    → ((c : ℕ) → k1.current_of c ≡ k.current_of c)
    → ((t : ℕ)
        → ((k1.tasks t).state ≡ (k.tasks t).state)
          × ((k1.tasks t).m ≡ (k.tasks t).m)
          × ((k1.tasks t).stack ≡ (k.tasks t).stack))
    → q1 ≡ queue
    → (o : Outcome (Unit {0})) → Ensures (λ _ k'. Turn k1 k' next q1) o
    → Ensures (λ _ k'. Turn k k' next queue) o
Turn-from k k1 next c o s e (done u k') t = record {
  runs = t.runs;
  in_queue = t.in_queue ∙ e;
  quantum = ground (arith, t.quantum, c);
  other_cpus = λ d n. t.other_cpus d (ground (arith, c)) ∙ o d;
  states = λ u. t.states u ∙ (s u).0;
  messages = λ u. t.messages u ∙ (s u).1;
  stacks = λ u. t.stacks u ∙ (s u).2;
}
Turn-from k k1 next c o s e panic t = t
Turn-from k k1 next c o s e waiting t = t

give-switch-Turn :
    (k : Kernel) (next : ℕ)
    → QueuesInv k
    → MaySwitch k
    → Ensures
        (λ _ k'. Turn k k' next (left_queue k next))
        ((give_quantum next >>= λ _. switch_to (current_task k) next) k)
unfolding give_quantum
give-switch-Turn k next v may = elim (Bool-cases (next == idle_task k)) [
  | inl same ↦ rw same (switch_to-Turn k next v may (inl (ground arith)))
  | inr other ↦
      let k1 : Kernel = set_task next (λ x. record x { quantum = task_quantum }) k in
      let v1 : QueuesInv k1 = SameQueues-QueuesInv k _ (refl, refl, λ u. ground arith) v in
      let e : left_queue k1 next ≡ left_queue k next = ground arith in
      rw other (
        Turn-from k k1 next refl (λ c. refl) (λ u. ground arith) e
          (switch_to (current_task k) next k1)
          (switch_to-Turn k1 next v1 (ground arith) (inr (ground arith))))
]

-- From a state with its queues in order, `task_switch` runs the task whose turn it is, leaves the
-- run queue in turn order, and starts a new quantum. No task changes its state, its message or the
-- place where it goes on, and no other CPU is affected.
pub task_switch-Turn :
    (k : Kernel)
    → QueuesInv k
    → MaySwitch k
    → Ensures (λ _ k'. Turn k k' (turn k k.runqueue).0 (turn k k.runqueue).1) (task_switch k)
unfolding choose
task_switch-Turn k v may = by_queue k.runqueue refl
  where
    by_queue :
        (q : List ℕ)
        → k.runqueue ≡ q
        → Ensures (λ _ k'. Turn k k' (turn k q).0 (turn k q).1) (task_switch k)
    by_queue [] e =
        let e0 : choose k none ≡ (turn k []).0 = ground arith in
        let e1 : left_queue k (choose k none) ≡ (turn k []).1 = ground (arith, e, v.idle_blocked) in
        rw (task_switch-from k k (choose k none) (scheduler-nil k e), sym e0)
          (Turn-from k k (choose k none) refl (λ c. refl) (λ u. (refl, refl, refl)) e1 _
            (give-switch-Turn k (choose k none) v may))
    by_queue (t ∷ rest) e =
        let first = v.in_run t (ground (arith, e)) in
        let popped_queue : left_queue (popped k t rest) t ≡ rest ++ back k =
          ground (arith, first) in
        rw (task_switch-from k (popped k t rest) t (scheduler-cons k t rest e)) (
          Turn-from k (popped k t rest) t refl (λ c. refl) (λ u. ground arith) popped_queue _
            (give-switch-Turn (popped k t rest) t (popped-QueuesInv k t rest e v) (ground arith)))
