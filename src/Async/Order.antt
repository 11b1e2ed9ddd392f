-- ===== src/Async/Order.antt =====
-- The order in which libs/user/ipc.c hands on the messages for one task.
use microkernel_book.Base.{
  ℕ, ◌≡◌, ◌≢◌, inl, inr, refl, ap, ◌∙◌, true, false, List, [], ◌∷◌, ◌++◌, ◌==◌, append-nil,
  if◌then◌else◌, arith, Bool-cases,
}
use microkernel_book.Async.{
  AsyncMessage, Call, ipc_reply, ipc_notify, notify_async, async_loop, async_reply, ipc_send_async,
}

module _ {ℓ} {M : Type ℓ} where
  -- The messages of a queue for a task, in their order.
  unfoldable pub waiting : ℕ → List (AsyncMessage M) → List M
  waiting dst [] = []
  waiting dst (am ∷ rest) =
      let tail = waiting dst rest in if am.dst == dst then am.m ∷ tail else tail

  waiting-append :
      (dst : ℕ) (q r : List (AsyncMessage M))
      → waiting dst (q ++ r) ≡ waiting dst q ++ waiting dst r
  unfolding waiting
  waiting-append dst [] r = refl
  waiting-append dst (am ∷ rest) r = elim (Bool-cases (am.dst == dst)) [
    | inl here ↦ rw here (ap (λ t. am.m ∷ t) (waiting-append dst rest r))
    | inr other ↦ rw other (waiting-append dst rest r)
  ]

  -- The messages behind the first.
  abbrev pub behind : List M → List M
  behind [] = []
  behind (m ∷ rest) = rest

  -- The answer to a question of the task `dst`: its first message, and a notice if there are more.
  abbrev pub notice : ℕ → ℕ → List M → List (Call M)
  notice self dst [] = []
  notice self dst (m ∷ rest) = ipc_notify dst (notify_async self) ∷ []

  abbrev pub answer : ℕ → ℕ → List M → List (Call M)
  answer self dst [] = []
  answer self dst (m ∷ rest) = ipc_reply dst m ∷ notice self dst rest

  -- Behind a reply, the loop leaves the queue alone.
  async_loop-sent :
      (sys_notify : ℕ → ℕ → ℕ) (self dst : ℕ) (q : List (AsyncMessage M))
      → ((async_loop sys_notify self dst true q).calls ≡ notice self dst (waiting dst q))
        × ((async_loop sys_notify self dst true q).async_messages ≡ q)
  unfolding async_loop waiting
  async_loop-sent sys_notify self dst [] = (refl, refl)
  async_loop-sent sys_notify self dst (am ∷ rest) = elim (Bool-cases (am.dst == dst)) [
    | inl here ↦ (rw here refl, rw here refl)
    | inr other ↦
        let (c, q) = async_loop-sent sys_notify self dst rest in
        (rw other c, rw other (ap (λ t. am ∷ t) q))
  ]

  -- `async_reply` to a task sends it the first of its messages and notifies it exactly if there are
  -- more; that message leaves the queue, and the messages of every task keep their order.
  pub async_reply-answer :
      (sys_notify : ℕ → ℕ → ℕ) (self dst : ℕ) (q : List (AsyncMessage M))
      → ((async_reply sys_notify self dst q).calls ≡ answer self dst (waiting dst q))
        × (waiting dst (async_reply sys_notify self dst q).async_messages ≡ behind (waiting dst q))
        × ((other : ℕ)
            → other ≢ dst
            → waiting other (async_reply sys_notify self dst q).async_messages ≡ waiting other q)
  unfolding async_reply async_loop waiting
  async_reply-answer sys_notify self dst [] = (refl, refl, λ other h. refl)
  async_reply-answer sys_notify self dst (am ∷ rest) = elim (Bool-cases (am.dst == dst)) [
    | inl here ↦
        let (c, q) = async_loop-sent sys_notify self dst rest in
        (
          rw here (ap (λ t. ipc_reply dst am.m ∷ t) c),
          rw here (ap (waiting dst) q),
          λ other h.
              let e : (am.dst == other) ≡ false = ground (arith, here, h) in
              rw (here, e) (ap (waiting other) q),
        )
    | inr apart ↦
        let (c, w, o) = async_reply-answer sys_notify self dst rest in
        (
          rw apart c,
          rw (apart, apart) w,
          λ other h. rw apart (elim (Bool-cases (am.dst == other)) [
            | inl mine ↦ rw mine (ap (λ t. am.m ∷ t) (o other h))
            | inr not_mine ↦ rw not_mine (o other h)
          ]),
        )
  ]

  -- A message that is sent waits behind the others for its task, and no other task's change.
  pub ipc_send_async-waiting :
      (sys_notify : ℕ → ℕ → ℕ) (self dst : ℕ) (m : M) (q : List (AsyncMessage M)) (other : ℕ)
      → waiting other (ipc_send_async sys_notify self dst m q).async_messages
        ≡ (if dst == other then waiting other q ++ (m ∷ []) else waiting other q)
  unfolding ipc_send_async waiting
  ipc_send_async-waiting sys_notify self dst m q other =
      waiting-append other q (record { dst = dst; m = m } ∷ []) ∙ elim (Bool-cases (dst == other)) [
        | inl here ↦ rw here refl
        | inr apart ↦ rw apart (append-nil (waiting other q))
      ]
