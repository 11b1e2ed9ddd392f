-- ===== src/Tcp/Arrive.antt =====
-- servers/tcpip/tcp.c: data that arrives in order.
use microkernel_book.Base.{
  ℕ, ◌+◌, ◌-◌, ◌%◌, ◌^◌, ◌≤◌, ◌<◌, ◌≡◌, refl, sym, ap, ◌∙◌, arith, true, false, not, ◌&&◌, some,
  List, [], ◌∷◌, ◌++◌, update_self, if-false, ◌==◌,
}
use microkernel_book.Mbuf.Ops.{Mbuf, mbuf_len, mbuf_append}
use microkernel_book.Mbuf.Contents.{contents}
use microkernel_book.Mbuf.Append.{contents-mbuf_append}
use microkernel_book.Tcp.Wire.{Header, HeaderFlags, ntoh32}
use microkernel_book.Tcp.State.{Tcp, Pcb, got_data, established, set_pcb, call_back, is_syn_sent}
use microkernel_book.Tcp.Ops.{
  then_some, with_ack, acknowledge, take_payload, takes_payload, take_fin, process_state,
  tcp_process,
}

-- The PCB behind the payload.
abbrev taken : Pcb → List Mbuf → Mbuf → List Mbuf → Pcb
taken p payload m rest = record p {
  last_ack = (p.last_ack + mbuf_len payload) % 2 ^ 32;
  local_winsize = (p.local_winsize + 2 ^ 32 - mbuf_len payload) % 2 ^ 32;
  pending_flags = with_ack p.pending_flags;
  rx_buf = mbuf_append m rest payload;
}

take_payload_lem :
    (i : ℕ) (payload : List Mbuf) (s : Tcp) (m : Mbuf) (rest : List Mbuf)
    → (s.pcbs i).rx_buf ≡ m ∷ rest
    → takes_payload (s.pcbs i) payload ≡ true
    → take_payload i payload s
      ≡ some (call_back (got_data i) (set_pcb i (taken (s.pcbs i) payload m rest) s))
unfolding take_payload
take_payload_lem i payload s m rest c fits = rw (fits, c) refl

acknowledge_nothing : (p : Pcb) (ack : ℕ) → ack ≡ p.next_seqno → acknowledge p ack ≡ some p
unfolding acknowledge
acknowledge_nothing p ack e =
    let none_new : (ack + 2 ^ 32 - p.next_seqno) % 2 ^ 32 ≡ 0 = omega (arith, e) in rw none_new refl

take_fin_without :
    (i : ℕ) (flags : HeaderFlags) (s : Tcp) → flags.fin ≡ false → take_fin i flags s ≡ some s
unfolding take_fin
take_fin_without i flags s e = rw e refl

-- The state behind a segment in order that brings data and acknowledges nothing new.
abbrev behind : ℕ → List Mbuf → Mbuf → List Mbuf → Tcp → Tcp
behind i payload m rest s =
    let same = set_pcb i (s.pcbs i) s in
    call_back (got_data i) (set_pcb i (taken (same.pcbs i) payload m rest) same)

process_established :
    (i seq ack : ℕ) (flags : HeaderFlags) (payload : List Mbuf) (s : Tcp) (m : Mbuf)
    (rest : List Mbuf)
    → flags.fin ≡ false
    → ack ≡ (s.pcbs i).next_seqno
    → (s.pcbs i).rx_buf ≡ m ∷ rest
    → takes_payload (s.pcbs i) payload ≡ true
    → process_state established i seq ack flags payload s ≡ some (behind i payload m rest s)
unfolding process_state
process_established i seq ack flags payload s m rest fin new c fits =
    let same = set_pcb i (s.pcbs i) s in
    let self : same.pcbs i ≡ s.pcbs i = update_self s.pcbs i (s.pcbs i) in
    ap (λ o. then_some o λ p. then_some (take_payload i payload (set_pcb i p s)) (take_fin i flags))
      (acknowledge_nothing (s.pcbs i) ack new)
    ∙ ap (λ o. then_some o (take_fin i flags))
        (take_payload_lem i payload same m rest (ap (λ (p : Pcb). p.rx_buf) self ∙ c)
          (ap (λ p. takes_payload p payload) self ∙ fits))
    ∙ take_fin_without i flags (behind i payload m rest s) fin

process_in_order :
    (i : ℕ) (header : Header) (payload : List Mbuf) (s : Tcp)
    → (s.pcbs i).state ≡ established
    → header.flags.rst ≡ false
    → ntoh32 header.seqno ≡ (s.pcbs i).last_ack
    → tcp_process i header payload s
      ≡ process_state established i
          (ntoh32 header.seqno)
          (ntoh32 header.ackno)
          header.flags
          payload
          (set_pcb i (record (s.pcbs i) { remote_winsize = ntoh32 header.win_size }) s)
unfolding tcp_process
process_in_order i header payload s st rst seq =
    let expected : not (is_syn_sent (s.pcbs i).state)
          && not (ntoh32 header.seqno == (s.pcbs i).last_ack)
        ≡ false =
      ground (arith, seq) in
    if-false _ _ rst
    ∙ if-false _ _ expected
    ∙ ap
        (λ state.
          process_state state i (ntoh32 header.seqno) (ntoh32 header.ackno) header.flags payload
            (set_pcb i (record (s.pcbs i) { remote_winsize = ntoh32 header.win_size }) s))
        st

-- A segment in order that brings data and acknowledges nothing new.
pub record InOrder (i : ℕ) (header : Header) (payload : List Mbuf) (s : Tcp) : Type 0 where
  pub state : (s.pcbs i).state ≡ established
  pub rst : header.flags.rst ≡ false
  pub fin : header.flags.fin ≡ false
  pub seq : ntoh32 header.seqno ≡ (s.pcbs i).last_ack
  pub ack : ntoh32 header.ackno ≡ (s.pcbs i).next_seqno
  pub some_data : 0 < mbuf_len payload
  pub room : mbuf_len payload ≤ (s.pcbs i).local_winsize

-- The state in which the segment's payload is taken.
abbrev with_window : ℕ → Header → Tcp → Tcp
with_window i header s = set_pcb i (record (s.pcbs i) { remote_winsize = ntoh32 header.win_size }) s

module _ (i : ℕ) (header : Header) (payload : List Mbuf) (s : Tcp) (m : Mbuf)
    (rest : List Mbuf) where
  abbrev arrived : Tcp
  arrived = behind i payload m rest (with_window i header s)

  process_InOrder :
      InOrder i header payload s
      → (s.pcbs i).rx_buf ≡ m ∷ rest
      → tcp_process i header payload s ≡ some arrived
  process_InOrder h c =
      let self : (with_window i header s).pcbs i
          ≡ record (s.pcbs i) { remote_winsize = ntoh32 header.win_size } =
        update_self s.pcbs i _ in
      process_in_order i header payload s h.state h.rst h.seq
      ∙ process_established i (ntoh32 header.seqno) (ntoh32 header.ackno) header.flags payload
          (with_window i header s) m rest h.fin (h.ack ∙ sym (ap (λ (p : Pcb). p.next_seqno) self))
          (ap (λ (p : Pcb). p.rx_buf) self ∙ c)
          (ap (λ p. takes_payload p payload) self
            ∙ (let d = h.some_data in let r = h.room in ground (arith, d, r)))

  -- The PCB that it leaves.
  arrived_pcb :
      arrived.pcbs i
      ≡ taken (record (s.pcbs i) { remote_winsize = ntoh32 header.win_size }) payload m rest
  arrived_pcb =
      let t = with_window i header s in
      update_self (set_pcb i (t.pcbs i) t).pcbs i _
      ∙ ap (λ p. taken p payload m rest) (update_self t.pcbs i (t.pcbs i) ∙ update_self s.pcbs i _)

-- A segment of an established connection that comes in order, without RST or FIN, acknowledges
-- nothing new and brings data that fits the window: `tcp_process` ends, the receive buffer holds
-- its bytes behind the old ones, the expected sequence number moves on by their number, and the
-- data callback is the only one called.
pub tcp_process-delivers :
    (i : ℕ) (header : Header) (payload : List Mbuf) (s : Tcp) (m : Mbuf) (rest : List Mbuf)
    → InOrder i header payload s
    → (s.pcbs i).rx_buf ≡ m ∷ rest
    → (t : Tcp) × (tcp_process i header payload s ≡ some t)
      × (contents (t.pcbs i).rx_buf ≡ contents (s.pcbs i).rx_buf ++ contents payload)
      × ((t.pcbs i).last_ack ≡ ((s.pcbs i).last_ack + mbuf_len payload) % 2 ^ 32)
      × (t.events ≡ s.events ++ got_data i ∷ [])
tcp_process-delivers i header payload s m rest h c =
    let e = arrived_pcb i header payload s m rest in
    (
      arrived i header payload s m rest,
      process_InOrder i header payload s m rest h c,
      ap (λ (p : Pcb). contents p.rx_buf) e
          ∙ contents-mbuf_append m rest payload
          ∙ ap (λ chain. contents chain ++ contents payload) (sym c),
      ap (λ (p : Pcb). p.last_ack) e,
      refl,
    )
