-- ===== src/Kernel/Invariant/Notices.antt =====
-- What `notify` of kernel/ipc.c does, in either of its branches.
use microkernel_book.Base.{
  ℕ, ◌≡◌, ◌≢◌, inl, inr, refl, true, false, [], ◌∷◌, ◌++◌, arith, Bool-cases, if◌then◌else◌, bit_or,
}
use microkernel_book.Kernel.State.{
  Kernel, blocked, runnable, ipc_any, ipc_deny, notify_msg, from_kernel,
}
use microkernel_book.Kernel.Monad.{done, set_task}
use microkernel_book.Kernel.Notify.{notify, with_notification, is_open}
use microkernel_book.Kernel.Invariant.{Ensures, Inv, IsUser}
use microkernel_book.Kernel.Invariant.Resume.{
  notify-Inv, set_task-Inv, resumed, task_resume-resumed, open-NotAwaited, NotAwaited,
}

-- The state behind a notification.
abbrev pub notified : Kernel → ℕ → ℕ → Kernel
notified k dst n =
    if is_open (k.tasks dst)
    then resumed (set_task dst (with_notification n) k) dst
    else set_task dst (λ t. record t { notifications = bit_or t.notifications n }) k

pub notify-notified :
    (k : Kernel) (dst n : ℕ) → Inv k → IsUser k dst → notify dst n k ≡ done tt (notified k dst n)
unfolding notify
notify-notified k dst n v i = elim (Bool-cases (is_open (k.tasks dst))) [
  | inl o ↦
      let k' : Kernel = set_task dst (with_notification n) k in
      let v' : Inv k' =
        set_task-Inv k dst (with_notification n) (refl, refl, refl, refl, refl, refl) v in
      let e : (k'.tasks dst).wait_for ≡ ipc_any = ground arith in
      let b : (k'.tasks dst).state ≡ blocked = ground arith in
      let w : (k'.tasks dst).wait_for ≢ ipc_deny = ground arith in
      let a : NotAwaited k' dst = open-NotAwaited k' dst v'.queues e in
      rw (o, task_resume-resumed k' dst v'.queues b w (ground arith) a) refl
  | inr c ↦ rw c refl
]

-- What does not change, whoever is notified.
pub record Unmoved (k k' : Kernel) (dst : ℕ) : Type 0 where
  pub others : (t : ℕ) → t ≢ dst → k'.tasks t ≡ k.tasks t
  pub tid : (k'.tasks dst).tid ≡ (k.tasks dst).tid
  pub timeout : (k'.tasks dst).timeout ≡ (k.tasks dst).timeout
  pub active : k'.active_tasks ≡ k.active_tasks

pub notified-Unmoved : (k : Kernel) (dst n : ℕ) → Unmoved k (notified k dst n) dst
notified-Unmoved k dst n = elim (Bool-cases (is_open (k.tasks dst))) [
  | inl o ↦ rw o (record {
    others = λ t e. ground arith;
    tid = ground arith;
    timeout = ground arith;
    active = refl;
  })
  | inr c ↦ rw c (record {
    others = λ t e. ground arith;
    tid = ground arith;
    timeout = ground arith;
    active = refl;
  })
]

-- The notification bits reach the task: in its message buffer, with the pending ones, if it waits in
-- an open receive, and it is runnable then; else they are pending, and its state is the same.
pub data Told (k k' : Kernel) (dst n : ℕ) : Type 0 where
  at_once :
      is_open (k.tasks dst) ≡ true
      → (k'.tasks dst).m.kind ≡ notify_msg
      → (k'.tasks dst).m.src ≡ from_kernel
      → (k'.tasks dst).m.words 0 ≡ bit_or (k.tasks dst).notifications n
      → (k'.tasks dst).notifications ≡ 0
      → (k'.tasks dst).state ≡ runnable
      → k'.runqueue ≡ k.runqueue ++ dst ∷ []
      → Told k k' dst n
  pending :
      is_open (k.tasks dst) ≡ false
      → (k'.tasks dst).notifications ≡ bit_or (k.tasks dst).notifications n
      → (k'.tasks dst).state ≡ (k.tasks dst).state
      → k'.runqueue ≡ k.runqueue
      → Told k k' dst n

notified-Told : (k : Kernel) (dst n : ℕ) → Told k (notified k dst n) dst n
notified-Told k dst n = elim (Bool-cases (is_open (k.tasks dst))) [
  | inl o ↦
      rw o
        (at_once o (ground arith) (ground arith) (ground arith) (ground arith) (ground arith) refl)
  | inr c ↦ rw c (pending c (ground arith) (ground arith) refl)
]

-- `notify` to a slot of `tasks` loses no bit: a task in an open receive gets them, with the pending
-- ones, as a NOTIFY_MSG from the kernel and joins the run queue; any other task keeps them pending,
-- in the same state. The invariant is kept, and no other task changes.
pub notify-Told :
    (k : Kernel) (dst n : ℕ)
    → Inv k
    → IsUser k dst
    → Ensures (λ _ k'. Inv k' × Told k k' dst n × Unmoved k k' dst) (notify dst n k)
notify-Told k dst n v i =
    let inv : Inv (notified k dst n) =
      rw (notify-notified k dst n v i) at (notify-Inv k dst n v i) in
    rw (notify-notified k dst n v i) (inv, notified-Told k dst n, notified-Unmoved k dst n)
