-- ===== src/Kernel/Invariant/Switch.antt =====
-- `task_switch` of kernel/task.c and the invariant.
use microkernel_book.Base.{
  ℕ, ◌≡◌, ◌⊎◌, inl, inr, refl, ap, false, none, List, [], ◌∷◌, ◌++◌, arith, ◌==◌, has, Distinct,
  has-append, append-Distinct, Bool-cases, if◌then◌else◌, List-cases,
}
use microkernel_book.Kernel.State.{
  Kernel, runnable, unlinked, in_runqueue, current_task, idle_task, task_quantum,
}
use microkernel_book.Kernel.Monad.{done, and_then, set_task, ◌>>=◌}
use microkernel_book.Kernel.Queues.{push_runqueue, pop_runqueue}
use microkernel_book.Kernel.Sched.{choose, scheduler, give_quantum, switch_to, task_switch}
use microkernel_book.Kernel.Invariant.{Ensures, QueuesInv, Inv, MaySwitch}

-- The state behind the first entry of the run queue.
abbrev pub popped : Kernel → ℕ → List ℕ → Kernel
popped k t rest = record (set_task t (λ x. record x { waitqueue_next = unlinked }) k) {
  runqueue = rest;
}

pub popped-QueuesInv :
    (k : Kernel) (t : ℕ) (rest : List ℕ)
    → k.runqueue ≡ t ∷ rest
    → QueuesInv k
    → QueuesInv (popped k t rest)
popped-QueuesInv k t rest e v =
    let d : Distinct (t ∷ rest) = (rw e at v.run_distinct) in
    record {
      run_distinct = d.1;
      in_run = λ u h. ground (arith, v.in_run u, e);
      run_in = λ u h. ground (arith, v.run_in u, e);
      send_distinct = λ d. ground (arith, v.send_distinct d);
      in_send = λ d u h. ground (arith, v.in_send d u, v.in_run t, e);
      send_in = λ d u h. ground (arith, v.send_in d u);
      sending_in = λ d u h s. ground (arith, v.sending_in d u);
      admitted = λ s r h i. ground (arith, v.admitted s r);
      denies = λ u h i. ground (arith, v.denies u);
      waits = λ u h i. ground (arith, v.waits u);
      no_mutual = λ a d h i j l. ground (arith, v.no_mutual a d);
      users = λ u h. ground (arith, v.users u);
      idle_blocked = ground (arith, v.idle_blocked);
      idle_denies = ground (arith, v.idle_denies);
      idle_unlinked = ground (arith, v.idle_unlinked);
      idle_running = ground (arith, v.idle_running);
    }

-- The state with a task at the end of the run queue.
abbrev pub pushed : Kernel → ℕ → Kernel
pushed k t = record (set_task t (λ x. record x { waitqueue_next = in_runqueue }) k) {
  runqueue = k.runqueue ++ t ∷ [];
}

pub not-has_unlinked :
    (k : Kernel) (t : ℕ)
    → QueuesInv k
    → (k.tasks t).waitqueue_next ≡ unlinked
    → has t k.runqueue ≡ false
not-has_unlinked k t v h = ground (arith, v.in_run t)

-- A runnable task in no queue may join the run queue.
pub pushed-QueuesInv :
    (k : Kernel) (t : ℕ)
    → QueuesInv k
    → (k.tasks t).state ≡ runnable
    → (k.tasks t).waitqueue_next ≡ unlinked
    → QueuesInv (pushed k t)
pushed-QueuesInv k t v h l = record {
  run_distinct = append-Distinct t k.runqueue v.run_distinct (not-has_unlinked k t v l);
  in_run = λ u i. ground (arith, v.in_run u, has-append u k.runqueue (t ∷ []));
  run_in = λ u i. ground (arith, v.run_in u, has-append u k.runqueue (t ∷ []));
  send_distinct = λ d. ground (arith, v.send_distinct d);
  in_send = λ d u i. ground (arith, v.in_send d u);
  send_in = λ d u i. ground (arith, v.send_in d u);
  sending_in = λ d u i s. ground (arith, v.sending_in d u);
  admitted = λ s r i j. ground (arith, v.admitted s r);
  denies = λ u i j. ground (arith, v.denies u);
  waits = λ u i j. ground (arith, v.waits u);
  no_mutual = λ a d h i j l. ground (arith, v.no_mutual a d);
  users = λ u i. ground (arith, v.users u);
  idle_blocked = ground (arith, v.idle_blocked);
  idle_denies = ground (arith, v.idle_denies);
  idle_unlinked = ground (arith, v.idle_unlinked, v.idle_blocked);
  idle_running = ground (arith, v.idle_running);
}

-- A change of fields that the invariant does not speak of, or of CURRENT_TASK.
abbrev pub SameQueues : Kernel → Kernel → Type 0
SameQueues k k' =
    (k'.runqueue ≡ k.runqueue)
    × (k'.cpu ≡ k.cpu)
    × ((t : ℕ)
        → ((k'.tasks t).state ≡ (k.tasks t).state)
          × ((k'.tasks t).tid ≡ (k.tasks t).tid)
          × ((k'.tasks t).waitqueue_next ≡ (k.tasks t).waitqueue_next)
          × ((k'.tasks t).senders ≡ (k.tasks t).senders)
          × ((k'.tasks t).wait_for ≡ (k.tasks t).wait_for)
          × ((k'.tasks t).stack ≡ (k.tasks t).stack))

pub SameQueues-QueuesInv : (k k' : Kernel) → SameQueues k k' → QueuesInv k → QueuesInv k'
SameQueues-QueuesInv k k' (e, c, s) v = record {
  run_distinct = rw e v.run_distinct;
  in_run = λ u i. ground (arith, v.in_run u, s u, e);
  run_in = λ u i. ground (arith, v.run_in u, s u, e);
  send_distinct = λ d. rw (s d).3 (v.send_distinct d);
  in_send = λ d u i. ground (arith, v.in_send d u, s d, s u);
  send_in = λ d u i. ground (arith, v.send_in d u, s d, s u);
  sending_in = λ d u i j. ground (arith, v.sending_in d u, s d, s u);
  admitted = λ t r i j. ground (arith, v.admitted t r, s t, s r);
  denies = λ u i j. ground (arith, v.denies u, s u);
  waits = λ u i j. ground (arith, v.waits u, s u);
  no_mutual = λ a d h i j l. ground (arith, v.no_mutual a d, s a, s d);
  users = λ u i. ground (arith, v.users u, s u);
  idle_blocked = ground (arith, v.idle_blocked, c, s (idle_task k));
  idle_denies = ground (arith, v.idle_denies, c, s (idle_task k));
  idle_unlinked = ground (arith, v.idle_unlinked, c, s (idle_task k));
  idle_running = ground (arith, v.idle_running, c, s (idle_task k));
}

module _ (k : Kernel) (v : QueuesInv k) where
  -- What the steps of `task_switch` do.
  pub push_runqueue-pushed :
      (t : ℕ) → (k.tasks t).waitqueue_next ≡ unlinked → push_runqueue t k ≡ done tt (pushed k t)
  unfolding push_runqueue
  push_runqueue-pushed t h = ground (arith, not-has_unlinked k t v h)

  give_quantum-QueuesInv :
      (t : ℕ) → Ensures (λ _ k'. QueuesInv k' × (k'.runqueue ≡ k.runqueue)) (give_quantum t k)
  unfolding give_quantum
  give_quantum-QueuesInv t = elim (Bool-cases (t == idle_task k)) [
    | inl same ↦ rw same (v, refl)
    | inr other ↦ rw other (SameQueues-QueuesInv k _ (refl, refl, λ u. ground arith) v, refl)
  ]

-- The task that is switched to: the idle task, or a runnable one in no queue.
abbrev Next : Kernel → ℕ → Type 0
Next k t =
    ((k.tasks t).waitqueue_next ≡ unlinked) × ((t ≡ idle_task k) ⊎ ((k.tasks t).state ≡ runnable))

abbrev running_next : Kernel → ℕ → Kernel
running_next k t = record k { current_of = λ c. if c == k.cpu then t else k.current_of c }

running_next-Inv : (k : Kernel) (t : ℕ) → QueuesInv k → Next k t → Inv (running_next k t)
running_next-Inv k t v (h, i) = record {
  queues = SameQueues-QueuesInv k _ (refl, refl, λ u. (refl, refl, refl, refl, refl, refl)) v;
  current_unlinked = ground arith;
  current_runs = ground arith;
}

switch_to-Inv :
    (k : Kernel) (next : ℕ)
    → QueuesInv k
    → MaySwitch k
    → Next k next
    → Ensures (λ _ k'. Inv k') (switch_to (current_task k) next k)
unfolding switch_to
switch_to-Inv k next v may n = elim (Bool-cases (next == current_task k)) [
  | inl same ↦
      let e : next ≡ current_task k = ground arith in
      rw same (record { queues = v; current_unlinked = rw e at n.0; current_runs = rw e at n.1 })
  | inr other ↦ rw other (elim may [
    | inl b ↦ rw b (running_next-Inv k next v n)
    | inr (r, l) ↦
        rw (r, push_runqueue-pushed k v (current_task k) l)
          (running_next-Inv (pushed k (current_task k)) next
            (pushed-QueuesInv k (current_task k) v r l) (ground arith, ground arith))
  ])
]

chosen-Next : (k : Kernel) → QueuesInv k → MaySwitch k → Next k (choose k none)
unfolding choose
chosen-Next k v may = ground (arith, v.idle_unlinked)

give-switch-Inv :
    (k : Kernel) (next : ℕ)
    → QueuesInv k
    → MaySwitch k
    → Next k next
    → Ensures (λ _ k'. Inv k') ((give_quantum next >>= λ _. switch_to (current_task k) next) k)
unfolding give_quantum
give-switch-Inv k next v may n = elim (Bool-cases (next == idle_task k)) [
  | inl same ↦ rw same (switch_to-Inv k next v may n)
  | inr other ↦ rw other (
      switch_to-Inv (set_task next (λ x. record x { quantum = task_quantum }) k) next
        (SameQueues-QueuesInv k _ (refl, refl, λ u. ground arith) v) (ground arith) (ground arith))
]

pub scheduler-nil : (k : Kernel) → k.runqueue ≡ [] → scheduler k ≡ done (choose k none) k
unfolding scheduler pop_runqueue
scheduler-nil k e = rw e

pub scheduler-cons :
    (k : Kernel) (t : ℕ) (rest : List ℕ)
    → k.runqueue ≡ t ∷ rest
    → scheduler k ≡ done t (popped k t rest)
unfolding scheduler pop_runqueue
scheduler-cons k t rest e = rw e

-- A task switch is the scheduler's choice and the switch to it.
pub task_switch-from :
    (k k' : Kernel) (next : ℕ)
    → scheduler k ≡ done next k'
    → task_switch k ≡ (give_quantum next >>= λ _. switch_to (current_task k) next) k'
unfolding task_switch
task_switch-from k k' next e =
    ap (λ o. and_then o λ next. give_quantum next >>= λ _. switch_to (current_task k) next) e

-- `task_switch` from a task that is blocked, or runnable and in no queue, keeps the invariant,
-- fails no assertion, and runs a runnable task or the idle task.
pub task_switch-Inv :
    (k : Kernel) → QueuesInv k → MaySwitch k → Ensures (λ _ k'. Inv k') (task_switch k)
task_switch-Inv k v may = elim (List-cases k.runqueue) [
  | inl e ↦
      rw (task_switch-from k k (choose k none) (scheduler-nil k e))
        (give-switch-Inv k (choose k none) v may (chosen-Next k v may))
  | inr (t, rest, e) ↦
      let first = v.in_run t (ground (arith, e)) in
      rw (task_switch-from k (popped k t rest) t (scheduler-cons k t rest e)) (
        give-switch-Inv (popped k t rest) t (popped-QueuesInv k t rest e v) (ground arith)
          (ground arith))
]
