-- ===== src/Tcp/Ports.antt =====
-- servers/tcpip/tcp.c: the PCBs and the list of active ones as every operation leaves them.
use microkernel_book.Base.{
  ℕ, ◌≡◌, refl, sym, ap, ◌∙◌, inl, inr, arith, true, not, ◌&&◌, ◌||◌, Bool-cases, List,
  update-cases, ◌==◌, has, Distinct,
}
use microkernel_book.Mbuf.Ops.{Mbuf, mbuf_len}
use microkernel_book.Mbuf.Contents.{mbuf_len-length}
use microkernel_book.Mbuf.Append.{mbuf_append-AllInBounds}
use microkernel_book.Tcp.Wire.{Header, HeaderFlags, ntoh32}
use microkernel_book.Tcp.State.{
  Tcp, Pcb, TcpState, syn_sent, established, closed, Endpoint, set_pcb, ipv4_addr_unspecified,
  is_syn_sent,
}
use microkernel_book.Tcp.Ops.{
  acknowledge, take_payload, takes_payload, take_fin, process_syn_sent, process_state, tcp_process,
}
use microkernel_book.Tcp.Window.{
  OnSome, with_chain-OnSome, then_some-OnSome, Flow, Keeps, same-Flow, acknowledge-Flow, Small,
  joined_window,
}

-- The active PCBs are in use and distinct, no two have the same local port, and the window of every
-- PCB in use is in order.
pub record Good (pcbs : ℕ → Pcb) (active : List ℕ) : Type 0 where
  pub flow : (i : ℕ) → (pcbs i).in_use ≡ true → Flow (pcbs i)
  pub used : (i : ℕ) → has i active ≡ true → (pcbs i).in_use ≡ true
  pub distinct : Distinct active
  pub unspecified : (i : ℕ) → has i active ≡ true → (pcbs i).local.addr ≡ ipv4_addr_unspecified
  pub ports :
      (i j : ℕ)
      → has i active ≡ true
      → has j active ≡ true
      → (pcbs i).local.port ≡ (pcbs j).local.port
      → i ≡ j

abbrev pub GoodIn : Tcp → Type 0
GoodIn s = Good s.pcbs s.active

module _ (s : Tcp) (i : ℕ) (q : Pcb) (g : GoodIn s) (k : Keeps (s.pcbs i) q) where
  same_local : (j : ℕ) → ((set_pcb i q s).pcbs j).local ≡ (s.pcbs j).local
  same_local j = elim (update-cases s.pcbs i q j) [
    | inl (e, u) ↦ ap (λ (p : Pcb). p.local) u ∙ k.2 ∙ ap (λ x. (s.pcbs x).local) (sym e)
    | inr (_, u) ↦ ap (λ (p : Pcb). p.local) u
  ]

  same_use : (j : ℕ) → ((set_pcb i q s).pcbs j).in_use ≡ (s.pcbs j).in_use
  same_use j = elim (update-cases s.pcbs i q j) [
    | inl (e, u) ↦ ap (λ (p : Pcb). p.in_use) u ∙ k.1 ∙ ap (λ x. (s.pcbs x).in_use) (sym e)
    | inr (_, u) ↦ ap (λ (p : Pcb). p.in_use) u
  ]

  kept-Flow : (j : ℕ) → ((set_pcb i q s).pcbs j).in_use ≡ true → Flow ((set_pcb i q s).pcbs j)
  kept-Flow j used = elim (update-cases s.pcbs i q j) [
    | inl (e, u) ↦ rw u k.0
    | inr (_, u) ↦ rw u (g.flow j (rw u at used))
  ]

  pub set_pcb-Good : GoodIn (set_pcb i q s)
  set_pcb-Good = record {
    flow = kept-Flow;
    used = λ j a. same_use j ∙ g.used j a;
    distinct = g.distinct;
    unspecified = λ j a. ap (λ (e : Endpoint). e.addr) (same_local j) ∙ g.unspecified j a;
    ports = λ j l a b e. g.ports j l a b (
        ap (λ (e : Endpoint). e.port) (sym (same_local j))
        ∙ e
        ∙ ap (λ (e : Endpoint). e.port) (same_local l));
  }

-- The same, and the PCB is in use.
abbrev pub GoodAt : ℕ → Tcp → Type 0
GoodAt i s = GoodIn s × ((s.pcbs i).in_use ≡ true)

pub set_pcb-GoodAt :
    (s : Tcp) (i : ℕ) (q : Pcb) → GoodAt i s → Keeps (s.pcbs i) q → GoodAt i (set_pcb i q s)
set_pcb-GoodAt s i q (g, used) k = (set_pcb-Good s i q g k, same_use s i q g k i ∙ used)

-- Fields that do not belong to the window.
pub kept :
    (p q : Pcb)
    → Flow p
    → q.rx_buf ≡ p.rx_buf
    → q.tx_buf ≡ p.tx_buf
    → q.local_winsize ≡ p.local_winsize
    → q.in_use ≡ p.in_use
    → q.local ≡ p.local
    → Keeps p q
kept p q f rx tx win in_use here = (same-Flow p q f rx tx win, in_use, here)

take_payload-GoodAt :
    (i : ℕ) (payload : List Mbuf) (s : Tcp)
    → GoodAt i s
    → Small payload
    → OnSome (GoodAt i) (take_payload i payload s)
unfolding take_payload
take_payload-GoodAt i payload s (g, used) (b, small) =
    elim (Bool-cases (takes_payload (s.pcbs i) payload)) [
      | inl room ↦ rw room (
          with_chain-OnSome (GoodAt i) (s.pcbs i).rx_buf _ λ m rest c.
            set_pcb-GoodAt s i _ (g, used)
              (let f = g.flow i used in
                let len = mbuf_len-length payload b small in
                (
                  record {
                    rx_bounds = mbuf_append-AllInBounds m rest payload (rw c at f.rx_bounds) b;
                    tx_bounds = f.tx_bounds;
                    window = joined_window (s.pcbs i) m rest payload f c len (ground (arith, room));
                  },
                  refl,
                  refl,
                )))
      | inr full ↦ rw full (g, used)
    ]

take_fin-GoodAt :
    (i : ℕ) (flags : HeaderFlags) (s : Tcp) → GoodAt i s → OnSome (GoodAt i) (take_fin i flags s)
unfolding take_fin
take_fin-GoodAt i flags s (g, used) = elim (Bool-cases (not flags.fin)) [
  | inl open_still ↦ rw open_still (g, used)
  | inr fin ↦ elim (Bool-cases (not (mbuf_len (s.pcbs i).tx_buf == 0))) [
    | inl unsent ↦ rw (fin, unsent) tt
    | inr all_sent ↦
        rw (fin, all_sent)
          (set_pcb-GoodAt s i _ (g, used)
            (kept (s.pcbs i) _ (g.flow i used) refl refl refl refl refl))
  ]
]

process_syn_sent-Keeps :
    (p : Pcb) (seq ack : ℕ) (flags : HeaderFlags)
    → Flow p
    → Keeps p (process_syn_sent p seq ack flags)
unfolding process_syn_sent
process_syn_sent-Keeps p seq ack flags f = elim (Bool-cases (not (flags.syn || flags.ack))) [
  | inl neither ↦ rw neither (f, refl, refl)
  | inr some_flag ↦ rw some_flag (kept p _ f refl refl refl refl refl)
]

process_state-GoodAt :
    (state : TcpState) (i seq ack : ℕ) (flags : HeaderFlags) (payload : List Mbuf) (s : Tcp)
    → GoodAt i s
    → Small payload
    → OnSome (GoodAt i) (process_state state i seq ack flags payload s)
unfolding process_state
process_state-GoodAt syn_sent i seq ack flags payload s (g, used) small =
    set_pcb-GoodAt s i _ (g, used) (process_syn_sent-Keeps (s.pcbs i) seq ack flags (g.flow i used))
process_state-GoodAt established i seq ack flags payload s (g, used) small =
    then_some-OnSome (GoodAt i) (acknowledge (s.pcbs i) ack) _ λ p e.
      then_some-OnSome (GoodAt i) (take_payload i payload (set_pcb i p s)) _ λ t e'.
        take_fin-GoodAt i flags t (
          rw e' at (
            take_payload-GoodAt i payload (set_pcb i p s)
              (set_pcb-GoodAt s i p (g, used)
                (rw e at (acknowledge-Flow (s.pcbs i) ack (g.flow i used))))
              small))
process_state-GoodAt closed i seq ack flags payload s g small = g

pub tcp_process-GoodAt :
    (i : ℕ) (header : Header) (payload : List Mbuf) (s : Tcp)
    → GoodAt i s
    → Small payload
    → OnSome (GoodAt i) (tcp_process i header payload s)
unfolding tcp_process
tcp_process-GoodAt i header payload s (g, used) small =
    let p = s.pcbs i in
    elim (Bool-cases header.flags.rst) [
      | inl reset ↦ rw reset (g, used)
      | inr no_reset ↦
          elim (Bool-cases (not (is_syn_sent p.state) && not (ntoh32 header.seqno == p.last_ack))) [
            | inl out_of_order ↦
                rw (no_reset, out_of_order)
                  (set_pcb-GoodAt s i _ (g, used)
                    (kept p _ (g.flow i used) refl refl refl refl refl))
            | inr in_order ↦
                rw (no_reset, in_order)
                  (process_state-GoodAt p.state i _ _ _ payload
                    (set_pcb i (record p { remote_winsize = ntoh32 header.win_size }) s)
                    (set_pcb-GoodAt s i (record p { remote_winsize = ntoh32 header.win_size })
                      (g, used) (kept p _ (g.flow i used) refl refl refl refl refl))
                    small)
          ]
    ]
