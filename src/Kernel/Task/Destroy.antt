-- ===== src/Kernel/Task/Destroy.antt =====
-- `task_destroy` of kernel/task.c: whom it refuses, and what becomes of waiting senders.
use microkernel_book.Base.{
  ℕ, ◌<◌, ◌≡◌, ◌≢◌, ◌⊎◌, inl, inr, refl, ◌∙◌, true, false, List, [], ◌∷◌, arith, ◌==◌, ltb, has,
  Bool-cases, if◌then◌else◌,
}
use microkernel_book.Kernel.State.{
  Kernel, err, invalid_arg, still_used, unused, ipc_deny, current_task, idle_task, notify_aborted,
}
use microkernel_book.Kernel.Monad.{Outcome, done, panic, waiting}
use microkernel_book.Kernel.Sched.{is_unused}
use microkernel_book.Kernel.Notify.{notify, is_open}
use microkernel_book.Kernel.Invariant.{Ensures, then-Ensures, Inv}
use microkernel_book.Kernel.Task.{Arch, task_destroy, abort_senders}

-- `task_destroy` of a task in use that is neither the current nor the idle task, and is the first
-- task or has a reference count that is positive, returns ERR_INVALID_ARG or ERR_STILL_USED, the
-- kernel unchanged.
pub task_destroy_refused :
    (fuel : ℕ) (arch : Arch) (t : ℕ) (k : Kernel)
    → t ≢ current_task k
    → t ≢ idle_task k
    → (k.tasks t).state ≢ unused
    → (k.tasks t).ref_count < 0x8000_0000
    → ((k.tasks t).tid ≡ 1) ⊎ ((k.tasks t).ref_count ≢ 0)
    → task_destroy fuel arch t k
      ≡ done (err (if (k.tasks t).tid == 1 then invalid_arg else still_used)) k
unfolding task_destroy
task_destroy_refused fuel arch t k c i u r h =
    let e0 : (t == current_task k) ≡ false = ground arith in
    let e1 : (t == idle_task k) ≡ false = ground arith in
    let e2 : is_unused (k.tasks t).state ≡ false = ground (arith, u) in
    let e3 : ltb (k.tasks t).ref_count 0x8000_0000 ≡ true = ground arith in
    elim (Bool-cases ((k.tasks t).tid == 1)) [
      | inl first ↦ rw (e0, e1, e2, e3, first) refl
      | inr other ↦
          let e4 : ((k.tasks t).ref_count == 0) ≡ false = ground (arith, h, other) in
          rw (e0, e1, e2, e3, other, e4) refl
    ]

-- Nobody runs who did not run before.
abbrev pub Asleep : Kernel → Kernel → Type 0
Asleep k k' =
    (k'.runqueue ≡ k.runqueue)
    × ((u : ℕ)
        → ((k'.tasks u).state ≡ (k.tasks u).state)
          × ((k'.tasks u).wait_for ≡ (k.tasks u).wait_for)
          × ((k'.tasks u).waitqueue_next ≡ (k.tasks u).waitqueue_next))

notify-Asleep :
    (k : Kernel) (t n : ℕ)
    → (k.tasks t).wait_for ≡ ipc_deny
    → Ensures (λ _ k'. Asleep k k') (notify t n k)
unfolding notify
notify-Asleep k t n d =
    let closed : is_open (k.tasks t) ≡ false = ground (arith, d) in
    rw closed (refl, λ u. ground arith)

Asleep-from :
    (k k1 : Kernel)
    → Asleep k k1
    → (o : Outcome (Unit {0})) → Ensures (λ _ k2. Asleep k1 k2) o
    → Ensures (λ _ k2. Asleep k k2) o
Asleep-from k k1 (q, s) (done u k2) (r, x) =
    (r ∙ q, λ u. ((x u).0 ∙ (s u).0, (x u).1 ∙ (s u).1, (x u).2 ∙ (s u).2))
Asleep-from k k1 s panic h = h
Asleep-from k k1 s waiting h = h

abort_list-Asleep :
    (ts : List ℕ) (k : Kernel)
    → ((t : ℕ) → has t ts ≡ true → (k.tasks t).wait_for ≡ ipc_deny)
    → Ensures (λ _ k'. Asleep k k') (abort_senders ts k)
unfolding abort_senders
abort_list-Asleep [] k d = (refl, λ u. (refl, refl, refl))
abort_list-Asleep (t ∷ ts) k d =
    then-Ensures (λ _ k1. Asleep k k1) _ (notify t notify_aborted k) (λ _. abort_senders ts)
      (notify-Asleep k t notify_aborted (d t (ground arith)))
      (λ _ k1 s.
        Asleep-from k k1 s (abort_senders ts k1)
          (abort_list-Asleep ts k1 λ u h. ground (arith, s.1 u, d u)))

-- The NOTIFY_ABORTED that `task_destroy` sends wakes none of the tasks that wait to send to the
-- task: they stay blocked in the queue of senders, and the run queue stays the same.
pub abort_senders-Asleep :
    (k : Kernel) (task : ℕ)
    → Inv k
    → Ensures (λ _ k'. Asleep k k') (abort_senders (k.tasks task).senders k)
abort_senders-Asleep k task v =
    abort_list-Asleep (k.tasks task).senders k λ t h. (v.queues.in_send task t h).2
