-- ===== src/Kernel/Invariant/Delivery.antt =====
-- Messages that arrive: what `ipc` of kernel/ipc.c hands over, and what it refuses.
use microkernel_book.Base.{
  ℕ, ◌≡◌, ◌≢◌, inr, refl, ap, ◌∙◌, true, false, none, some, List, [], ◌∷◌, ◌++◌, arith, has,
  if◌then◌else◌, ◌||◌, ◌&&◌, leb, ltb, Bool-cases, inl, Option,
}
use microkernel_book.Kernel.State.{
  Kernel, Message, Flags, ok, err, running, receiving, from_kernel, current_task, runnable, blocked,
  dead_lock, invalid_uaddr, Result,
}
use microkernel_book.Kernel.Monad.{◌>>=◌, done, and_then, set_task}
use microkernel_book.Kernel.Ipc.{
  Buffer, finished, ipc, send_message, send_copied, then_recv, is_ready, waits_to_send, copy_in,
  copy_out, resume, resume_recv, arch_is_mappable_uaddr,
}
use microkernel_book.Kernel.Invariant.{then-Ensures, Ensures, IsUser, sends_to}
use microkernel_book.Kernel.Invariant.Resume.{
  Calling, deliver-delivered, delivered, delivered-Calling,
}
use microkernel_book.Kernel.Invariant.Turns.{turn, Turn, task_switch-Turn}
use microkernel_book.Kernel.Sched.{task_switch}

-- The task with the ID `src` that the kernel puts into a message of the current task.
abbrev pub sender_id : Kernel → Flags → ℕ
sender_id k flags = if flags.kernel then from_kernel else (k.tasks (current_task k)).tid

-- The message is in the buffer of `dst`, which runs again at the end of the run queue.
pub record Handed (k k' : Kernel) (dst : ℕ) (m : Message) (src : ℕ) : Type 0 where
  pub kind : (k'.tasks dst).m.kind ≡ m.kind
  pub words : (k'.tasks dst).m.words ≡ m.words
  pub src_id : (k'.tasks dst).m.src ≡ src
  pub ready : (k'.tasks dst).state ≡ runnable
  pub in_queue : k'.runqueue ≡ k.runqueue ++ dst ∷ []
  pub others : (t : ℕ) → t ≢ dst → k'.tasks t ≡ k.tasks t
  pub same_current : current_task k' ≡ current_task k

delivered-Handed :
    (k : Kernel) (dst : ℕ) (m : Message) (flags : Flags)
    → Handed k (delivered k dst m flags) dst m (sender_id k flags)
delivered-Handed k dst m flags = record {
  kind = ground arith;
  words = ground arith;
  src_id = ground arith;
  ready = ground arith;
  in_queue = refl;
  others = λ t n. ground arith;
  same_current = refl;
}

module _ (scratch : Message) (k : Kernel) (dst src : ℕ) (m : Buffer) (flags : Flags) (c : Calling k)
    (sends : flags.send ≡ true) (other : dst ≢ current_task k)
    (copied : copy_in m flags ≡ ok m.content) where
  ipc-send_copied :
      ipc scratch dst src m flags k ≡ send_copied scratch dst src m.address m.content flags k
  unfolding ipc send_message
  ipc-send_copied = ground (arith, sends, other, copied)

  ipc-delivered :
      IsUser k dst
      → is_ready (k.tasks dst) (k.tasks (current_task k)).tid ≡ true
      → flags.recv ≡ false
      → ipc scratch dst src m flags k ≡ done (finished (ok none)) (delivered k dst m.content flags)
  unfolding send_copied then_recv
  ipc-delivered i ready no_recv =
      ipc-send_copied ∙ rw (ready, deliver-delivered k dst m.content flags c i ready, no_recv) refl

  -- A send of a readable buffer by the running task to another task that waits for it is handed
  -- over at once, stamped with the sender's ID (or FROM_KERNEL for a call from the kernel); the
  -- receiver joins the run queue, no other task changes, and the caller goes on.
  pub ipc-Handed :
      IsUser k dst
      → is_ready (k.tasks dst) (k.tasks (current_task k)).tid ≡ true
      → flags.recv ≡ false
      → (k' : Kernel) × (ipc scratch dst src m flags k ≡ done (finished (ok none)) k')
        × Handed k k' dst m.content (sender_id k flags)
  ipc-Handed i ready no_recv = (
    delivered k dst m.content flags,
    ipc-delivered i ready no_recv,
    delivered-Handed k dst m.content flags,
  )

  dead-lock_found : (ts : List ℕ) → has dst ts ≡ true → waits_to_send k (k.tasks dst).tid ts ≡ true
  unfolding waits_to_send
  dead-lock_found [] h = cc
  dead-lock_found (t ∷ ts) h = ground (arith, dead-lock_found ts)

  -- A blocking send of a readable buffer by the running task to another task that itself waits to
  -- send to the caller is refused with ERR_DEAD_LOCK, the kernel unchanged.
  pub ipc-dead_lock :
      (k.tasks dst).state ≡ blocked
      → sends_to (k.tasks dst).stack ≡ some (current_task k)
      → flags.noblock ≡ false
      → ipc scratch dst src m flags k ≡ done (finished (err dead_lock)) k
  unfolding send_copied
  ipc-dead_lock b s wait =
      let v = c.inv.queues in
      let queued : has dst (k.tasks (current_task k)).senders ≡ true =
        v.sending_in (current_task k) dst b s in
      let closed : is_ready (k.tasks dst) (k.tasks (current_task k)).tid ≡ false =
        ground (arith, v.in_send (current_task k) dst queued, v.users (current_task k) c.runs) in
      ipc-send_copied
      ∙ rw (closed, wait, dead-lock_found (k.tasks (current_task k)).senders queued) refl

-- A receive that goes on gives what the message buffer holds.
resume-received :
    (scratch : Message) (k : Kernel) (rflags : Flags) (buffer : ℕ) (m : Message)
    → (k.tasks (current_task k)).stack ≡ receiving rflags buffer
    → (k.tasks (current_task k)).m ≡ m
    → Ensures (λ r _. r ≡ finished (copy_out buffer m rflags)) (resume scratch k)
unfolding resume resume_recv
resume-received scratch k rflags buffer m s e =
    let same : ((set_task (current_task k) (λ t. record t { stack = running }) k).tasks
          (current_task k)).m
        ≡ m =
      ground (arith, e) in
    rw s (ap (λ m. finished (copy_out buffer m rflags)) same)

-- The message that the receiver sees.
abbrev pub sent : Kernel → Message → Flags → Message
sent k m flags = record m { src = sender_id k flags }

module _ (k : Kernel) (dst : ℕ) (m : Message) (flags : Flags) (c : Calling k) (i : IsUser k dst)
    (ready : is_ready (k.tasks dst) (k.tasks (current_task k)).tid ≡ true)
    (alone : k.runqueue ≡ []) where
  -- The switch behind a hand-over to the only task that waits for the CPU.
  switch-received :
      (scratch : Message) (rflags : Flags) (buffer : ℕ)
      → (k.tasks dst).stack ≡ receiving rflags buffer
      → Ensures
          (λ r _. r ≡ finished (copy_out buffer (sent k m flags) rflags))
          (and_then (task_switch (delivered k dst m flags)) λ _. resume scratch)
  switch-received scratch rflags buffer s =
      let k1 : Kernel = delivered k dst m flags in
      let c1 : Calling k1 = delivered-Calling k dst m flags c i ready in
      let next : (turn k1 k1.runqueue).0 ≡ dst = rw alone refl in
      then-Ensures (λ _ k2. Turn k1 k2 (turn k1 k1.runqueue).0 (turn k1 k1.runqueue).1) _
        (task_switch k1) (λ _. resume scratch)
        (task_switch-Turn k1 c1.inv.queues (inr (c1.runs, c1.inv.current_unlinked)))
        (λ _ k2 t.
          let now : current_task k2 ≡ dst = t.runs ∙ next in
          resume-received scratch k2 rflags buffer (sent k m flags)
            (ap (λ u. (k2.tasks u).stack) now ∙ t.stacks dst ∙ ground (arith, s))
            (ap (λ u. (k2.tasks u).m) now ∙ t.messages dst ∙ ground arith))

-- What a receive returns: the message for a buffer of the kernel or in the 2 GiB of user addresses,
-- without its first page; else the error.
abbrev pub received : ℕ → Message → Flags → Result (Option Message)
received buffer m flags =
    if flags.kernel || (leb 4096 buffer && ltb buffer 0x8000_0000)
    then ok (some m)
    else err invalid_uaddr

copy_out-received :
    (buffer : ℕ) (m : Message) (flags : Flags) → copy_out buffer m flags ≡ received buffer m flags
unfolding copy_out arch_is_mappable_uaddr
copy_out-received buffer m flags = elim (Bool-cases flags.kernel) [
  | inl kernel ↦ rw kernel refl
  | inr user ↦ rw user refl
]

-- A task sends from a buffer that can be read to another task that waits in a receive for it, and
-- the run queue is empty: `ipc`, the task switch behind it and the receiver's second half of `ipc`
-- run without a failed assertion. The receiver's `ipc` returns the message that was sent, with the
-- sender's ID (FROM_KERNEL for a send by the kernel), if its buffer is one of the kernel or a user
-- address from 4096 to 2^31 - 1, and ERR_INVALID_UADDR otherwise.
pub ipc-received :
    (scratch : Message) (k : Kernel) (dst src : ℕ) (m : Buffer) (flags : Flags) (c : Calling k)
    (rflags : Flags) (buffer : ℕ)
    → flags.send ≡ true
    → dst ≢ current_task k
    → copy_in m flags ≡ ok m.content
    → IsUser k dst
    → is_ready (k.tasks dst) (k.tasks (current_task k)).tid ≡ true
    → flags.recv ≡ false
    → k.runqueue ≡ []
    → (k.tasks dst).stack ≡ receiving rflags buffer
    → Ensures
        (λ r _. r ≡ finished (received buffer (sent k m.content flags) rflags))
        ((ipc scratch dst src m flags >>= λ _. task_switch >>= λ _. resume scratch) k)
ipc-received scratch k dst src m flags c rflags buffer sends other copied i ready no_recv alone s =
    rw
      (
        ipc-delivered scratch k dst src m flags c sends other copied i ready no_recv,
        ← copy_out-received buffer (sent k m.content flags) rflags,
      )
      (switch-received k dst m.content flags c i ready alone scratch rflags buffer s)
