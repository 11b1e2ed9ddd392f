-- ===== src/Tcp/Reach.antt =====
-- servers/tcpip/tcp.c: the states that calls lead to.
use microkernel_book.Base.{
  ℕ, ◌≤◌, ◌≡◌, refl, inl, inr, arith, true, false, Bool-cases, Option, none, some, List, ltb,
}
use microkernel_book.Mbuf.Ops.{Mbuf}
use microkernel_book.Tcp.State.{Tcp, tcp_pcbs_max}
use microkernel_book.Tcp.Ops.{
  tcp_new, tcp_connect, tcp_close, tcp_write, tcp_read, flush_loop, tcp_flush, tcp_receive,
  tcp_init,
}
use microkernel_book.Tcp.Window.{OnSome, Small}
use microkernel_book.Tcp.Ports.{GoodIn, GoodAt}
use microkernel_book.Tcp.Sockets.{tcp_write-GoodAt, tcp_read-GoodAt, flush_loop-GoodWith}
use microkernel_book.Tcp.Receive.{tcp_receive-Good}
use microkernel_book.Tcp.Open.{tcp_new-Good, tcp_close-Good, tcp_connect-Good}

-- The calls that the rest of the server makes, and the time that passes.
pub data Call : Type 0 where
  new : (arg : ℕ) → Call
  connect : (pcb : ℕ) → (dst_addr : ℕ) → (dst_port : ℕ) → Call
  close : (pcb : ℕ) → Call
  write : (pcb : ℕ) → (ℕ → ℕ) → (at : ℕ) → (len : ℕ) → Call
  read : (pcb : ℕ) → (buf_len : ℕ) → Call
  receive : (dst : ℕ) → (src : ℕ) → (pkt : List Mbuf) → Call
  flush : Call
  passes : (now : ℕ) → Call

abbrev pub state_of : {A : Type 0} → Option (A × Tcp) → Option Tcp
state_of none = none
state_of (some r) = some r.1

-- The state behind a call; `none` if the program stops.
abbrev pub perform : Call → Tcp → Option Tcp
perform (new arg) s = some (tcp_new arg s).1
perform (connect i dst_addr dst_port) s = state_of (tcp_connect i dst_addr dst_port s)
perform (close i) s = some (tcp_close i s)
perform (write i src at len) s = tcp_write i src at len s
perform (read i buf_len) s = state_of (tcp_read i buf_len s)
perform (receive dst src pkt) s = tcp_receive dst src pkt s
perform flush s = tcp_flush s
perform (passes now) s = some (record s { now = now })

-- A socket's PCB is in use, and a packet is in bounds and shorter than 2^32.
abbrev pub Allowed : Call → Tcp → Type 0
Allowed (connect i _ _) s = (s.pcbs i).in_use ≡ true
Allowed (write i _ _ _) s = (s.pcbs i).in_use ≡ true
Allowed (read i _) s = (s.pcbs i).in_use ≡ true
Allowed (receive dst src pkt) s = Small pkt
Allowed _ s = Unit {0}

-- The states that `tcp_init` and then calls lead to.
pub data Reachable : Tcp → Type 0 where
  starts :
      (s : Tcp) → ((i : ℕ) → tcp_pcbs_max ≤ i → (s.pcbs i).in_use ≡ false) → Reachable (tcp_init s)
  goes_on :
      {s t : Tcp} → Reachable s → (c : Call) → Allowed c s → perform c s ≡ some t → Reachable t

tcp_init-unused :
    (s : Tcp)
    → ((i : ℕ) → tcp_pcbs_max ≤ i → (s.pcbs i).in_use ≡ false)
    → (i : ℕ) → ((tcp_init s).pcbs i).in_use ≡ false
unfolding tcp_init
tcp_init-unused s outside i = elim (Bool-cases (ltb i tcp_pcbs_max)) [
  | inl inside ↦ rw inside refl
  | inr out ↦ rw out (outside i (ground (arith, out)))
]

tcp_init-Good :
    (s : Tcp) → ((i : ℕ) → tcp_pcbs_max ≤ i → (s.pcbs i).in_use ≡ false) → GoodIn (tcp_init s)
unfolding tcp_init
tcp_init-Good s outside = record {
  flow = λ i h. let free = tcp_init-unused s outside i in absurd (cc);
  used = λ i h. cc;
  distinct = tt;
  unspecified = λ i h. cc;
  ports = λ i j h. cc;
}

state_of-OnSome :
    {A : Type 0} (o : Option (A × Tcp)) → OnSome (λ r. GoodIn r.1) o → OnSome GoodIn (state_of o)
state_of-OnSome none h = tt
state_of-OnSome (some r) h = h

weaken-OnSome :
    {P Q : Tcp → Type 0} (o : Option Tcp) → ((t : Tcp) → P t → Q t) → OnSome P o → OnSome Q o
weaken-OnSome none f h = tt
weaken-OnSome (some t) f h = f t h

weaken_read :
    (i : ℕ) (o : Option (List ℕ × Tcp)) → OnSome (λ r. GoodAt i r.1) o → OnSome (λ r. GoodIn r.1) o
weaken_read i none h = tt
weaken_read i (some r) h = h.0

tcp_flush-Good : (s : Tcp) → GoodIn s → OnSome GoodIn (tcp_flush s)
unfolding tcp_flush
tcp_flush-Good s g =
    weaken-OnSome (flush_loop s.active s) (λ t h. h.0)
      (flush_loop-GoodWith s.active s s.active (g, refl) (λ i h. h))

perform-Good : (c : Call) (s : Tcp) → Allowed c s → GoodIn s → OnSome GoodIn (perform c s)
perform-Good (new arg) s ok g = tcp_new-Good arg s g
perform-Good (connect i dst_addr dst_port) s ok g =
    state_of-OnSome (tcp_connect i dst_addr dst_port s)
      (tcp_connect-Good i dst_addr dst_port s (g, ok))
perform-Good (close i) s ok g = tcp_close-Good i s g
perform-Good (write i src at len) s ok g =
    weaken-OnSome (tcp_write i src at len s) (λ t h. h.0) (tcp_write-GoodAt i src at len s (g, ok))
perform-Good (read i buf_len) s ok g =
    state_of-OnSome (tcp_read i buf_len s)
      (weaken_read i (tcp_read i buf_len s) (tcp_read-GoodAt i buf_len s (g, ok)))
perform-Good (receive dst src pkt) s ok g = tcp_receive-Good dst src pkt s g ok
perform-Good flush s ok g = tcp_flush-Good s g
perform-Good (passes now) s ok g = g

-- In every state that `tcp_init` and then calls lead to (opening, connecting, closing, writing,
-- reading, receiving packets in bounds, flushing), the active PCBs are in use, are in the list
-- once, are bound to no address and have different local ports; and the window of every PCB in use
-- and the bytes in its receive buffer add up to TCP_RX_BUF_SIZE, with its buffers in bounds.
pub Reachable-Good : {s : Tcp} → Reachable s → GoodIn s
Reachable-Good (starts s outside) = tcp_init-Good s outside
Reachable-Good (goes_on r c ok e) = rw e at (perform-Good c _ ok (Reachable-Good r))
