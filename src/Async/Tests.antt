-- ===== src/Async/Tests.antt =====
-- Two messages for task 3 and one for task 5, sent by task 2.
use microkernel_book.Base.{ℕ, ◌≡◌, ◌≢◌, refl, List, [], ◌∷◌}
use microkernel_book.Async.{AsyncMessage, ipc_reply, ipc_notify, async_reply, ipc_send_async}
use microkernel_book.Async.Order.{waiting, answer, behind, async_reply-answer}

abbrev fine : ℕ → ℕ → ℕ
fine dst notifications = 0

abbrev messages : List (AsyncMessage ℕ)
messages = record { dst = 3; m = 10 } ∷ record { dst = 5; m = 11 } ∷ record { dst = 3; m = 12 } ∷ []

async_reply-answer_example :
    ((async_reply fine 2 3 messages).calls ≡ answer 2 3 (waiting 3 messages))
    × (waiting 3 (async_reply fine 2 3 messages).async_messages ≡ behind (waiting 3 messages))
    × ((other : ℕ)
        → other ≢ 3
        → waiting other (async_reply fine 2 3 messages).async_messages ≡ waiting other messages)
async_reply-answer_example = async_reply-answer fine 2 3 messages

answered : (async_reply fine 2 3 messages).calls ≡ ipc_reply 3 10 ∷ ipc_notify 3 32 ∷ []
unfolding async_reply
answered = refl

sent : (ipc_send_async {M = ℕ} fine 2 5 13 []).async_messages ≡ record { dst = 5; m = 13 } ∷ []
unfolding ipc_send_async
sent = refl
