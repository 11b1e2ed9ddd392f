-- ===== src/Tcp/Sockets.antt =====
-- servers/tcpip/tcp.c: the operations of a socket, and the states that they lead to.
use microkernel_book.Base.{
  ℕ, zero, suc, ◌^◌, ◌≤◌, ◌<◌, ◌≡◌, refl, ap, inl, inr, arith, Bool, true, false, not, ◌&&◌,
  Bool-cases, none, some, List, [], ◌∷◌, length, ◌==◌, ltb, has,
}
use microkernel_book.Mbuf.Ops.{Mbuf, mbuf_read, mbuf_append_bytes, mbuf_new}
use microkernel_book.Mbuf.Contents.{contents, AllInBounds, drop}
use microkernel_book.Mbuf.Append.{Holds, mbuf_append_bytes-Holds}
use microkernel_book.Tcp.Wire.{header_size, header_bytes, as_memory}
use microkernel_book.Tcp.State.{Tcp, Pcb, is_established}
use microkernel_book.Tcp.Ops.{
  rounds_of, first, tcp_write, tcp_read, outgoing, Outgoing, final_header, hand_on, send_packet,
  tcp_transmit, flush_loop, has_flags,
}
use microkernel_book.Tcp.Window.{
  OnSome, with_chain-OnSome, then_some-OnSome, Flow, Keeps, same-Flow, Small, read_some_lem,
}
use microkernel_book.Tcp.Ports.{GoodIn, GoodAt, set_pcb-Good, set_pcb-GoodAt, kept}

Holds-bounds : (xs : List ℕ) (chain : List Mbuf) → Holds xs (some chain) → AllInBounds chain
Holds-bounds xs [] h = absurd h
Holds-bounds xs (m ∷ rest) (b, _) = b

pub tcp_write-GoodAt :
    (i : ℕ) (src : ℕ → ℕ) (p len : ℕ) (s : Tcp)
    → GoodAt i s
    → OnSome (GoodAt i) (tcp_write i src p len s)
unfolding tcp_write
tcp_write-GoodAt i src p len s (g, used) =
    let f = g.flow i used in
    with_chain-OnSome (GoodAt i) (s.pcbs i).tx_buf _ λ m rest c.
      then_some-OnSome (GoodAt i) (mbuf_append_bytes m rest src p len) _ λ chain e.
        set_pcb-GoodAt s i _ (g, used)
          (
            record {
              rx_bounds = f.rx_bounds;
              tx_bounds =
                  Holds-bounds _ chain
                    (rw e at (mbuf_append_bytes-Holds m rest src p len (rw c at f.tx_bounds)));
              window = f.window;
            },
            refl,
            refl,
          )

pub tcp_read-GoodAt :
    (i buf_len : ℕ) (s : Tcp) → GoodAt i s → OnSome (λ r. GoodAt i r.1) (tcp_read i buf_len s)
unfolding tcp_read
tcp_read-GoodAt i buf_len s (g, used) =
    let f = g.flow i used in
    with_chain-OnSome (λ r. GoodAt i r.1) (s.pcbs i).rx_buf _
      λ m rest c.
        then_some-OnSome (λ r. GoodAt i r.1) (mbuf_read (rounds_of rest) m rest buf_len) _
          λ r e.
            (let sizes =
                read_some_lem (rounds_of rest) m rest buf_len r (omega arith) (rw c at f.rx_bounds)
                  e in
              let whole : length (contents (s.pcbs i).rx_buf) ≡ length (contents (m ∷ rest)) =
                ap (λ x. length (contents x)) c in
              set_pcb-GoodAt s i _ (g, used)
                (
                  record {
                    rx_bounds = sizes.1;
                    tx_bounds = f.tx_bounds;
                    window = omega (arith, sizes.0, whole, f.window);
                  },
                  refl,
                  refl,
                ))

outgoing-Keeps : (p : Pcb) → Flow p → Keeps p (outgoing p).pcb
unfolding outgoing
outgoing-Keeps p f = elim (Bool-cases (is_established p.state)) [
  | inl open_now ↦ rw open_now (kept p _ f refl refl refl refl refl)
  | inr other ↦ rw other (f, refl, refl)
]

-- The state is in order, and the list of active PCBs is this one.
abbrev pub GoodWith : List ℕ → Tcp → Type 0
GoodWith active s = GoodIn s × (s.active ≡ active)

send_packet-GoodWith :
    (i : ℕ) (out : Outgoing) (s : Tcp) (active : List ℕ)
    → GoodWith active s
    → Keeps (s.pcbs i) out.pcb
    → (s.pcbs i).in_use ≡ true
    → OnSome (GoodWith active) (send_packet i out s)
unfolding send_packet hand_on
send_packet-GoodWith i out s active (g, same) k used =
    then_some-OnSome (GoodWith active)
      (mbuf_new (as_memory (header_bytes (final_header out s.ipaddr))) 0 header_size) _
      λ chain e.
        with_chain-OnSome (GoodWith active) chain (λ m rest. some (hand_on i out s m rest))
          λ m rest c.
            (set_pcb-Good s i _ g (same-Flow out.pcb _ k.0 refl refl refl, k.1, k.2), same)

tcp_transmit-GoodWith :
    (i : ℕ) (s : Tcp) (active : List ℕ)
    → GoodWith active s
    → (s.pcbs i).in_use ≡ true
    → OnSome (GoodWith active) (tcp_transmit i s)
unfolding tcp_transmit
tcp_transmit-GoodWith i s active (g, same) used =
    let p = s.pcbs i in
    let k = outgoing-Keeps p (g.flow i used) in
    elim (Bool-cases (not (p.retransmit_at == 0) && ltb s.now p.retransmit_at)) [
      | inl early ↦ rw early (g, same)
      | inr due ↦ elim (Bool-cases (has_flags (outgoing p).flags)) [
        | inl something ↦
            rw (due, something) (send_packet-GoodWith i (outgoing p) s active (g, same) k used)
        | inr nothing ↦ rw (due, nothing) (set_pcb-Good s i (outgoing p).pcb g k, same)
      ]
    ]

pub flush_loop-GoodWith :
    (is : List ℕ) (s : Tcp) (active : List ℕ)
    → GoodWith active s
    → ((i : ℕ) → has i is ≡ true → has i active ≡ true)
    → OnSome (GoodWith active) (flush_loop is s)
unfolding flush_loop
flush_loop-GoodWith [] s active g inside = g
flush_loop-GoodWith (i ∷ rest) s active (g, same) inside =
    let used = g.used i (rw same (inside i (ground arith))) in
    then_some-OnSome (GoodWith active) (tcp_transmit i s) _ λ t e.
      flush_loop-GoodWith rest t active (rw e at (tcp_transmit-GoodWith i s active (g, same) used))
        λ j h. inside j (ground (arith, h))

pub length-drop : (n : ℕ) (xs : List ℕ) → length (drop n xs) ≤ length xs
length-drop zero xs = omega arith
length-drop (suc n) [] = omega arith
length-drop (suc n) (x ∷ xs) = omega (arith, length-drop n xs)

pub drop-Small :
    (n : ℕ) (xs : List ℕ) (chain : List Mbuf)
    → length xs < 2 ^ 32
    → AllInBounds chain
    → contents chain ≡ drop n xs
    → Small chain
drop-Small n xs chain h b e =
    (b, let l = length-drop n xs in let s = ap length e in omega (arith, l, s, h))

pub first-has : (test : ℕ → Bool) (is : List ℕ) (i : ℕ) → first test is ≡ some i → has i is ≡ true
first-has test [] i e = cc
first-has test (j ∷ rest) i e = ground (arith, first-has test rest i)

pub first-none :
    (test : ℕ → Bool) (is : List ℕ) (i : ℕ)
    → first test is ≡ none
    → has i is ≡ true
    → test i ≡ false
first-none test [] i e h = cc
first-none test (j ∷ rest) i e h = ground (arith, first-none test rest i)
