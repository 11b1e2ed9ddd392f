-- ===== src/Tcp/Window.antt =====
-- servers/tcpip/tcp.c: the receive window and the receive buffer.
use microkernel_book.Base.{
  ℕ, zero, suc, ◌+◌, ◌-◌, ◌*◌, ◌%◌, ◌^◌, ◌≤◌, ◌<◌, ◌≡◌, refl, ap, ◌∙◌, inl, inr, arith, Bool-cases,
  Option, none, some, List, [], ◌∷◌, length, length-append, ◌==◌,
}
use microkernel_book.Mbuf.Ops.{
  Mbuf, mbuf_len, mbuf_read, mbuf_discard, mbuf_append, Reading, Discarding,
}
use microkernel_book.Mbuf.Contents.{contents, AllInBounds, take, drop}
use microkernel_book.Mbuf.Append.{contents-mbuf_append}
use microkernel_book.Mbuf.Read.{mbuf_read-ReadOf, mbuf_discard-DiscardOf}
use microkernel_book.Tcp.State.{Pcb, tcp_rx_buf_size}
use microkernel_book.Tcp.Ops.{with_chain, then_some, rounds_of, acknowledge}

-- `P` holds of the result, if there is one.
abbrev pub OnSome : {A : Type 0} → (A → Type 0) → Option A → Type 0
OnSome P none = Unit {0}
OnSome P (some a) = P a

module _ {A : Type 0} (P : A → Type 0) where
  pub with_chain-OnSome :
      (chain : List Mbuf) (f : Mbuf → List Mbuf → Option A)
      → ((m : Mbuf) (rest : List Mbuf) → chain ≡ m ∷ rest → OnSome P (f m rest))
      → OnSome P (with_chain chain f)
  with_chain-OnSome [] f h = tt
  with_chain-OnSome (m ∷ rest) f h = h m rest refl

  pub then_some-OnSome :
      {B : Type 0} (o : Option B) (f : B → Option A)
      → ((b : B) → o ≡ some b → OnSome P (f b))
      → OnSome P (then_some o f)
  then_some-OnSome none f h = tt
  then_some-OnSome (some b) f h = h b refl

-- The window is what the receive buffer has room for, and the buffers are in bounds.
pub record Flow (p : Pcb) : Type 0 where
  pub rx_bounds : AllInBounds p.rx_buf
  pub tx_bounds : AllInBounds p.tx_buf
  pub window : p.local_winsize + length (contents p.rx_buf) ≡ tcp_rx_buf_size

length-take-drop : (n : ℕ) (xs : List ℕ) → length (take n xs) + length (drop n xs) ≡ length xs
length-take-drop zero xs = omega arith
length-take-drop (suc n) [] = omega arith
length-take-drop (suc n) (x ∷ xs) = omega (arith, length-take-drop n xs)

pub read_some_lem :
    (rounds : ℕ) (m : Mbuf) (rest : List Mbuf) (want : ℕ) (r : Reading)
    → 2 * length rest + 1 < rounds
    → AllInBounds (m ∷ rest)
    → mbuf_read rounds m rest want ≡ some r
    → (length r.copied + length (contents r.chain) ≡ length (contents (m ∷ rest)))
      × AllInBounds r.chain
read_some_lem rounds m rest want r h b e =
    let (c, l, bs) = (rw e at (mbuf_read-ReadOf rounds m rest want h b)) in
    ((let total = length-take-drop want (contents (m ∷ rest)) in rw (c, l) total), bs)

-- Whatever else changes, the window stays in order with these fields.
pub same-Flow :
    (p q : Pcb)
    → Flow p
    → q.rx_buf ≡ p.rx_buf
    → q.tx_buf ≡ p.tx_buf
    → q.local_winsize ≡ p.local_winsize
    → Flow q
same-Flow p q f rx tx win = record {
  rx_bounds = rw rx f.rx_bounds;
  tx_bounds = rw tx f.tx_bounds;
  window = rw (rx, win) f.window;
}

-- A PCB that is as much in use, at the same local endpoint, with its window in order.
abbrev pub Keeps : Pcb → Pcb → Type 0
Keeps p q = Flow q × (q.in_use ≡ p.in_use) × (q.local ≡ p.local)

pub discard_bounds :
    (m : Mbuf) (rest : List Mbuf) (n : ℕ) (d : Discarding)
    → AllInBounds (m ∷ rest)
    → mbuf_discard (rounds_of rest) m rest n ≡ some d
    → AllInBounds d.chain
discard_bounds m rest n d b e =
    (rw e at (mbuf_discard-DiscardOf (rounds_of rest) m rest n (omega arith) b)).2

pub acknowledge-Flow : (p : Pcb) (ack : ℕ) → Flow p → OnSome (Keeps p) (acknowledge p ack)
unfolding acknowledge
acknowledge-Flow p ack f = elim (Bool-cases ((ack + 2 ^ 32 - p.next_seqno) % 2 ^ 32 == 0)) [
  | inl nothing ↦ rw nothing (f, refl, refl)
  | inr acked ↦ rw acked (
      with_chain-OnSome (Keeps p) p.tx_buf _ λ m rest c.
        then_some-OnSome (Keeps p)
          (mbuf_discard (rounds_of rest) m rest ((ack + 2 ^ 32 - p.next_seqno) % 2 ^ 32)) _
          λ d e. (
            record {
              rx_bounds = f.rx_bounds;
              tx_bounds = discard_bounds m rest _ d (rw c at f.tx_bounds) e;
              window = f.window;
            },
            refl,
            refl,
          ))
]

abbrev pub Small : List Mbuf → Type 0
Small chain = AllInBounds chain × (length (contents chain) < 2 ^ 32)

pub joined_window :
    (p : Pcb) (m : Mbuf) (rest payload : List Mbuf)
    → Flow p
    → p.rx_buf ≡ m ∷ rest
    → mbuf_len payload ≡ length (contents payload)
    → mbuf_len payload ≤ p.local_winsize
    → (p.local_winsize + 2 ^ 32 - mbuf_len payload) % 2 ^ 32
        + length (contents (mbuf_append m rest payload))
      ≡ tcp_rx_buf_size
joined_window p m rest payload f c len le =
    let size : length (contents p.rx_buf) ≡ length (contents (m ∷ rest)) =
      ap (λ x. length (contents x)) c in
    let joined : length (contents (mbuf_append m rest payload))
        ≡ length (contents (m ∷ rest)) + length (contents payload) =
      ap length (contents-mbuf_append m rest payload)
      ∙ length-append (contents (m ∷ rest)) (contents payload) in
    omega (arith, size, joined, f.window, len, le)
