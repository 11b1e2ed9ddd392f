-- ===== src/Kernel/Syscall/Rights.antt =====
-- kernel/syscall.c: who may allocate pages for whom.
use microkernel_book.Base.{
  ℕ, ◌≡◌, ◌⊎◌, inl, inr, refl, ap, true, Bool-cases, Option, none, some, Option-cases, ◌==◌, ==_iff,
}
use microkernel_book.Kernel.State.{Kernel, Error, err, invalid_arg, invalid_task, current_task}
use microkernel_book.Kernel.Monad.{done}
use microkernel_book.Kernel.Sched.{task_find}
use microkernel_book.Kernel.Syscall.{value, sys_pm_alloc, has_others, is_pager}

-- The task with this ID is the caller, or the caller is its pager.
abbrev pub MayAllocate : Kernel → ℕ → Type 0
MayAllocate k tid =
    (task : ℕ) × (task_find k tid ≡ some task)
    × ((task ≡ current_task k) ⊎ ((k.tasks task).pager ≡ some (current_task k)))

is_pager-pager : (p : Option ℕ) (t : ℕ) → is_pager p t ≡ true → p ≡ some t
is_pager-pager none t e = cc
is_pager-pager (some p) t e = ap some ((==_iff p t).0 e)

-- `sys_pm_alloc` for a task that is neither the caller nor a task whose pager is the caller, or
-- that does not exist, is refused with an error, the kernel unchanged.
pub sys_pm_alloc-MayAllocate :
    (k : Kernel) (tid size flags : ℕ)
    → MayAllocate k tid ⊎ ((e : Error) × (sys_pm_alloc tid size flags k ≡ done (value (err e)) k))
unfolding sys_pm_alloc
sys_pm_alloc-MayAllocate k tid size flags = elim (Bool-cases (has_others flags 3)) [
  | inl others ↦ inr (invalid_arg, rw others refl)
  | inr known ↦ elim (Option-cases (task_find k tid)) [
    | inl absent ↦ inr (invalid_task, rw (known, absent) refl)
    | inr (task, found) ↦ elim (Bool-cases (task == current_task k)) [
      | inl self ↦ inl (task, found, inl ((==_iff task _).0 self))
      | inr other ↦ elim (Bool-cases (is_pager (k.tasks task).pager (current_task k))) [
        | inl pager ↦ inl (task, found, inr (is_pager-pager _ _ pager))
        | inr stranger ↦ inr (invalid_task, rw (known, found, other, stranger) refl)
      ]
    ]
  ]
]
