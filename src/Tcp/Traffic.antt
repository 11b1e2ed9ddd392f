-- ===== src/Tcp/Traffic.antt =====
-- servers/tcpip/tcp.c: data that is sent.
use microkernel_book.Base.{
  ℕ, zero, suc, ◌^◌, ◌≤◌, ◌<◌, ◌≡◌, refl, ap, ◌∙◌, arith, true, false, not, ◌&&◌, Option, none,
  some, List, [], ◌∷◌, ◌++◌, length, if-false, if-true, ◌==◌, ltb,
}
use microkernel_book.Mbuf.Ops.{Mbuf, bytes_at, mbuf_len, mbuf_append, mbuf_new, mbuf_peek}
use microkernel_book.Mbuf.Contents.{contents, AllInBounds, take, mbuf_len-length}
use microkernel_book.Mbuf.Append.{Holds, mbuf_new-Holds, contents-mbuf_append}
use microkernel_book.Mbuf.Cut.{AllUnread, mbuf_peek-take}
use microkernel_book.Tcp.Wire.{HeaderFlags, header_bytes, header_size, as_memory}
use microkernel_book.Tcp.State.{Tcp, Pcb, Sent, established, is_established}
use microkernel_book.Tcp.Ops.{
  with_chain, then_some, outgoing, Outgoing, final_header, hand_on, send_packet, tcp_transmit,
  has_flags,
}

-- The packet that carries the payload: the header in front of it.
abbrev pub Carries : Tcp → Outgoing → List Mbuf → List ℕ → Type 0
Carries s out pkt bytes =
    contents pkt
    ≡ bytes_at (as_memory (header_bytes (final_header out s.ipaddr))) 0 header_size ++ bytes

send_packet_lem :
    (i : ℕ) (out : Outgoing) (s : Tcp)
    → (t : Tcp) × (send_packet i out s ≡ some t)
      × ((x : Sent) × (t.sent ≡ s.sent ++ x ∷ [])
          × (x.dst ≡ out.pcb.remote.addr)
          × Carries s out x.pkt (contents out.payload))
unfolding send_packet hand_on
send_packet_lem i out s =
    built (mbuf_new (as_memory (header_bytes (final_header out s.ipaddr))) 0 header_size)
      (mbuf_new-Holds (as_memory (header_bytes (final_header out s.ipaddr))) 0 header_size)
  where
    built :
        (o : Option (List Mbuf))
        → Holds (bytes_at (as_memory (header_bytes (final_header out s.ipaddr))) 0 header_size) o
        → (t : Tcp) × (then_some o
              (λ chain. with_chain chain λ m rest. some (hand_on i out s m rest))
            ≡ some t)
          × ((x : Sent) × (t.sent ≡ s.sent ++ x ∷ [])
              × (x.dst ≡ out.pcb.remote.addr)
              × Carries s out x.pkt (contents out.payload))
    built none h = absurd h
    built (some []) h = absurd h
    built (some (m ∷ rest)) (b, e) = (
      hand_on i out s m rest,
      refl,
      (
        record { dst = out.pcb.remote.addr; pkt = mbuf_append m rest out.payload },
        refl,
        refl,
        contents-mbuf_append m rest out.payload ∙ ap (λ xs. xs ++ contents out.payload) e,
      ),
    )

-- A PCB with data to send, a window for it, and no transmission to wait for.
pub record Ready (p : Pcb) : Type 0 where
  pub state : p.state ≡ established
  pub no_wait : p.retransmit_at ≡ 0
  pub bounds : AllInBounds p.tx_buf
  pub unread : AllUnread p.tx_buf
  pub window : 0 < p.remote_winsize
  pub some_data : 0 < length (contents p.tx_buf)
  pub small : length (contents p.tx_buf) < 2 ^ 32

length-take_pos :
    (n : ℕ) (xs : List ℕ)
    → 0 < n
    → 0 < length xs
    → (0 < length (take n xs)) × (length (take n xs) ≤ length xs)
length-take_pos zero xs h l = absurd (omega arith)
length-take_pos (suc n) [] h l = absurd (omega arith)
length-take_pos (suc n) (x ∷ xs) h l =
    (omega arith, let le = length-take_le n xs in omega (arith, le))
  where
    length-take_le : (n : ℕ) (xs : List ℕ) → length (take n xs) ≤ length xs
    length-take_le zero xs = omega arith
    length-take_le (suc n) [] = omega arith
    length-take_le (suc n) (x ∷ xs) = let le = length-take_le n xs in omega (arith, le)

module _ (p : Pcb) (r : Ready p) where
  peeked :
      contents (mbuf_peek p.tx_buf p.remote_winsize) ≡ take p.remote_winsize (contents p.tx_buf)
  peeked = (mbuf_peek-take p.tx_buf p.remote_winsize r.bounds r.unread).1

  peeked_len : 0 < mbuf_len (mbuf_peek p.tx_buf p.remote_winsize)
  peeked_len =
      let sizes = length-take_pos p.remote_winsize (contents p.tx_buf) r.window r.some_data in
      let size = ap length peeked in
      let len =
        mbuf_len-length (mbuf_peek p.tx_buf p.remote_winsize)
          (mbuf_peek-take p.tx_buf p.remote_winsize r.bounds r.unread).0
          (omega (arith, sizes, size, r.small)) in
      omega (arith, len, sizes, size)

  outgoing_payload : (outgoing p).payload ≡ mbuf_peek p.tx_buf p.remote_winsize
  unfolding outgoing
  outgoing_payload = ap (λ (o : Outgoing). o.payload) (if-true _ _ (ap is_established r.state))

  outgoing_psh : (outgoing p).flags.psh ≡ true
  unfolding outgoing
  outgoing_psh =
      ap (λ (o : Outgoing). o.flags.psh) (if-true _ _ (ap is_established r.state))
      ∙ (let pos = peeked_len in ground (arith, pos))

  outgoing_remote : (outgoing p).pcb.remote ≡ p.remote
  unfolding outgoing
  outgoing_remote = ap (λ (o : Outgoing). o.pcb.remote) (if-true _ _ (ap is_established r.state))

psh-has_flags : (f : HeaderFlags) → f.psh ≡ true → has_flags f ≡ true
psh-has_flags f e = ground (arith, e)

-- An established connection without a pending wait, with a window, and with data in unread mbufs to
-- send: `tcp_transmit` ends and hands on exactly one packet, to the remote address, that holds the
-- header and then the first bytes of the send buffer, as many as the window allows.
pub tcp_transmit-sends :
    (i : ℕ) (s : Tcp)
    → Ready (s.pcbs i)
    → (t : Tcp) × (tcp_transmit i s ≡ some t)
      × ((x : Sent) × (t.sent ≡ s.sent ++ x ∷ [])
          × (x.dst ≡ (s.pcbs i).remote.addr)
          × Carries s
              (outgoing (s.pcbs i))
              x.pkt
              (take (s.pcbs i).remote_winsize (contents (s.pcbs i).tx_buf)))
unfolding tcp_transmit
tcp_transmit-sends i s r =
    let p = s.pcbs i in
    let no_wait : not (p.retransmit_at == 0) && ltb s.now p.retransmit_at ≡ false =
      (let w = r.no_wait in ground (arith, w)) in
    let (t, e, (x, app, dst, bytes)) = send_packet_lem i (outgoing p) s in
    (
      t,
      if-false _ _ no_wait ∙ if-true _ _ (psh-has_flags (outgoing p).flags (outgoing_psh p r)) ∙ e,
      (
        x,
        app,
        dst ∙ ap (λ ep. ep.addr) (outgoing_remote p r),
        bytes
            ∙ ap
                (λ xs.
                  bytes_at (as_memory (header_bytes (final_header (outgoing p) s.ipaddr))) 0
                    header_size
                  ++ xs)
                (ap contents (outgoing_payload p r) ∙ peeked p r),
      ),
    )
