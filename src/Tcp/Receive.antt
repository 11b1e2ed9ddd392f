-- ===== src/Tcp/Receive.antt =====
-- servers/tcpip/tcp.c: receiving a packet.
use microkernel_book.Base.{
  ℕ, ◌-◌, ◌*◌, ◌/◌, ◌≡◌, refl, inl, inr, arith, true, Bool-cases, Option, none, some, List, ◌∷◌,
  ltb, has,
}
use microkernel_book.Mbuf.Ops.{Mbuf, mbuf_read, mbuf_discard}
use microkernel_book.Mbuf.Contents.{contents}
use microkernel_book.Mbuf.Read.{mbuf_read-ReadOf, mbuf_discard-DiscardOf}
use microkernel_book.Tcp.Wire.{Header, header_of, header_size}
use microkernel_book.Tcp.State.{Tcp, Endpoint}
use microkernel_book.Tcp.Ops.{
  rounds_of, tcp_lookup, tcp_process, skip_options, process_found, receive_segment, received,
  tcp_receive,
}
use microkernel_book.Tcp.Window.{OnSome, with_chain-OnSome, then_some-OnSome, Small}
use microkernel_book.Tcp.Ports.{GoodIn, GoodAt, tcp_process-GoodAt}
use microkernel_book.Tcp.Sockets.{drop-Small, first-has}

-- A lookup finds an active PCB.
tcp_lookup-has :
    (s : Tcp) (l r : Endpoint) (i : ℕ) → tcp_lookup s l r ≡ some i → has i s.active ≡ true
unfolding tcp_lookup
tcp_lookup-has s l r i e = first-has _ s.active i e

skip_options-Small :
    (header : Header) (pkt : List Mbuf) → Small pkt → OnSome Small (skip_options header pkt)
unfolding skip_options
skip_options-Small header pkt (b, small) =
    elim (Bool-cases (ltb header_size (header.off_and_ns / 16 * 4))) [
      | inl options ↦ rw options (
          with_chain-OnSome Small pkt _ λ m rest c.
            then_some-OnSome Small
              (mbuf_discard (rounds_of rest) m rest (header.off_and_ns / 16 * 4 - header_size)) _
              λ d e.
                (let left = rw e at (
                    mbuf_discard-DiscardOf (rounds_of rest) m rest
                      (header.off_and_ns / 16 * 4 - header_size) (omega arith) (rw c at b)) in
                  drop-Small _ (contents (m ∷ rest)) d.chain (rw c at small) left.2 left.1))
      | inr no_options ↦ rw no_options (b, small)
    ]

process_found-Good :
    (o : Option ℕ) (header : Header) (payload : List Mbuf) (s : Tcp)
    → GoodIn s
    → Small payload
    → ((i : ℕ) → o ≡ some i → has i s.active ≡ true)
    → OnSome GoodIn (process_found o header payload s)
process_found-Good none header payload s g small found = g
process_found-Good (some i) header payload s g small found =
    weaken (tcp_process i header payload s)
      (tcp_process-GoodAt i header payload s (g, g.used i (found i refl)) small)
  where
    weaken : (o : Option Tcp) → OnSome (GoodAt i) o → OnSome GoodIn o
    weaken none h = tt
    weaken (some t) h = h.0

receive_segment-Good :
    (dst src : ℕ) (header : Header) (pkt : List Mbuf) (s : Tcp)
    → GoodIn s
    → Small pkt
    → OnSome GoodIn (receive_segment dst src header pkt s)
unfolding receive_segment
receive_segment-Good dst src header pkt s g small =
    then_some-OnSome GoodIn (skip_options header pkt) _ λ payload e.
      process_found-Good _ header payload s g (rw e at (skip_options-Small header pkt small))
        λ i. tcp_lookup-has s _ _ i

received-Good :
    (o : Option Header) (dst src : ℕ) (pkt : List Mbuf) (s : Tcp)
    → GoodIn s
    → Small pkt
    → OnSome GoodIn (received o dst src pkt s)
received-Good none dst src pkt s g small = g
received-Good (some header) dst src pkt s g small =
    receive_segment-Good dst src header pkt s g small

pub tcp_receive-Good :
    (dst src : ℕ) (pkt : List Mbuf) (s : Tcp)
    → GoodIn s
    → Small pkt
    → OnSome GoodIn (tcp_receive dst src pkt s)
unfolding tcp_receive
tcp_receive-Good dst src pkt s g (b, small) = with_chain-OnSome GoodIn pkt _ λ m rest c.
    then_some-OnSome GoodIn (mbuf_read (rounds_of rest) m rest header_size) _ λ r e.
      (let left =
          rw e at
            (mbuf_read-ReadOf (rounds_of rest) m rest header_size (omega arith) (rw c at b)) in
        received-Good (header_of r.copied) dst src r.chain s g
          (drop-Small header_size (contents (m ∷ rest)) r.chain (rw c at small) left.2 left.1))
