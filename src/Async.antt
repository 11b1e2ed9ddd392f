-- ===== src/Async.antt =====
-- libs/user/ipc.c: the messages that a task sends without waiting. The queue `async_messages` is a
-- sequence, its nodes taken from and given back to the allocator left out. A message is of any
-- type. The calls into the kernel are a log; the results of `sys_notify` are a parameter.
pub mod Order
pub mod Tests
use microkernel_book.Base.{
  ℕ, ◌+◌, ◌^◌, ◌%◌, Bool, true, false, List, [], ◌∷◌, ◌++◌, ◌==◌, if◌then◌else◌,
}

pub record AsyncMessage {ℓ} (M : Type ℓ) : Type ℓ where
  pub dst : ℕ
  pub m : M

-- `ipc_reply(dst, m)` and `ipc_notify(dst, notifications)`.
pub data Call {ℓ} (M : Type ℓ) : Type ℓ where
  ipc_reply : ℕ → M → Call M
  ipc_notify : ℕ → ℕ → Call M

-- What a function does: its calls in their order, the queue behind it, and what it returns.
pub record Handling {ℓ} (M : Type ℓ) : Type ℓ where
  pub calls : List (Call M)
  pub async_messages : List (AsyncMessage M)
  pub returned : ℕ

-- `NOTIFY_ASYNC(tid)`, an `int`.
abbrev pub notify_async : ℕ → ℕ
notify_async tid = 2 ^ (3 + tid) % 2 ^ 32

module _ {ℓ} {M : Type ℓ} where
  -- A step that leaves the entry in the queue, or that replied with it.
  abbrev pub keeping : AsyncMessage M → Handling M → Handling M
  keeping am o = record o { async_messages = am ∷ o.async_messages }

  abbrev pub replied : AsyncMessage M → ℕ → Handling M → Handling M
  replied am dst o = record o { calls = ipc_reply dst am.m ∷ o.calls }

  -- The loop of `async_reply` from an entry on, with `sent`.
  unfoldable pub async_loop : (ℕ → ℕ → ℕ) → ℕ → ℕ → Bool → List (AsyncMessage M) → Handling M
  async_loop sys_notify self dst sent [] = record { calls = []; async_messages = []; returned = 0 }
  async_loop sys_notify self dst sent (am ∷ rest) =
      let first = async_loop sys_notify self dst true rest in
      let next = async_loop sys_notify self dst sent rest in
      let again : Handling M = record {
        calls = ipc_notify dst (notify_async self) ∷ [];
        async_messages = am ∷ rest;
        returned = sys_notify dst (notify_async self);
      } in
      if am.dst == dst then (if sent then again else replied am dst first) else keeping am next

  unfoldable pub async_reply : (ℕ → ℕ → ℕ) → ℕ → ℕ → List (AsyncMessage M) → Handling M
  unfolding async_loop
  async_reply sys_notify self dst queue = async_loop sys_notify self dst false queue

  unfoldable pub ipc_send_async : (ℕ → ℕ → ℕ) → ℕ → ℕ → M → List (AsyncMessage M) → Handling M
  ipc_send_async sys_notify self dst m queue = record {
    calls = ipc_notify dst (notify_async self) ∷ [];
    async_messages = queue ++ (record { dst = dst; m = m } ∷ []);
    returned = sys_notify dst (notify_async self);
  }
