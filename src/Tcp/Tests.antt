-- ===== src/Tcp/Tests.antt =====
-- The TCP code on concrete inputs.
use microkernel_book.Base.{
  ℕ, ◌+◌, ◌*◌, ◌%◌, ◌^◌, ◌≤◌, ◌≡◌, refl, arith, true, false, Option, none, some, [], ◌∷◌, ◌++◌,
}
use microkernel_book.Mbuf.Ops.{Mbuf, bytes_at, mbuf_len, mbuf_len_one}
use microkernel_book.Mbuf.Contents.{contents, take}
use microkernel_book.Tcp.Wire.{Header, ntoh32, swap32}
use microkernel_book.Tcp.State.{Tcp, Pcb, Sent, got_data, syn_sent, established, tcp_pcbs_max}
use microkernel_book.Tcp.Ops.{
  tcp_init, tcp_new, tcp_connect, tcp_process, tcp_transmit, no_flags, no_endpoint, outgoing,
  find_unused, fresh_pcb, find_port, connect_at, tcp_lookup_local,
}
use microkernel_book.Tcp.Ports.{GoodIn}
use microkernel_book.Tcp.Reach.{new, connect, perform, starts, goes_on, Reachable-Good}
use microkernel_book.Tcp.Arrive.{InOrder, tcp_process-delivers}
use microkernel_book.Tcp.Traffic.{Ready, Carries, tcp_transmit-sends}

abbrev zero_pcb : Pcb
zero_pcb = record {
  in_use = false;
  state = syn_sent;
  pending_flags = no_flags;
  next_seqno = 0;
  last_seqno = 0;
  last_ack = 0;
  local_winsize = 0;
  remote_winsize = 0;
  local = no_endpoint;
  remote = no_endpoint;
  rx_buf = [];
  tx_buf = [];
  num_retransmits = 0;
  retransmit_at = 0;
  arg = 0;
}

-- The state before `tcp_init`.
abbrev boot : Tcp
boot = record {
  pcbs = λ i. zero_pcb;
  active = [];
  sent = [];
  events = [];
  now = 100;
  ipaddr = 0x0a00_020f;
}

-- Two bytes in an mbuf.
abbrev two : Mbuf
two = record { offset = 0; offset_end = 2; bytes = λ i. i + 7 }

-- PCB 0 is connected and has two bytes to send.
abbrev talking : Tcp
talking = record boot {
  pcbs = λ i. record zero_pcb {
    in_use = true;
    state = established;
    local_winsize = 8192;
    remote_winsize = 1;
    remote = record { addr = 0x0a00_0202; port = 80 };
    rx_buf = two ∷ [];
    tx_buf = two ∷ [];
  };
  active = 0 ∷ [];
}

abbrev header : Header
header = record {
  src_port = 20480;
  dst_port = 192;
  seqno = 0;
  ackno = 0;
  off_and_ns = 80;
  flags = record { fin = false; syn = false; rst = false; psh = true; ack = true; other = 0 };
  win_size = 5;
  checksum = 9;
  urgent = 0;
}

-- A window of 1280 bytes, in network byte order 5, is read as 5 * 2^24.
window_read : ntoh32 5 ≡ 5 * 2 ^ 24
unfolding swap32
window_read = refl

abbrev or_else : Option Tcp → Tcp → Tcp
or_else none s = s
or_else (some t) s = t

abbrev opened : Tcp
opened = (tcp_new 7 (tcp_init boot)).1

abbrev connecting : Tcp
connecting = or_else (perform (connect 0 0x0a00_0202 80) opened) boot

opened_used : (opened.pcbs 0).in_use ≡ true
unfolding tcp_new find_unused tcp_init fresh_pcb
opened_used = refl

connects : perform (connect 0 0x0a00_0202 80) opened ≡ some connecting
unfolding tcp_new find_unused tcp_init fresh_pcb tcp_connect find_port connect_at tcp_lookup_local
connects = refl

boot_ends : (i : ℕ) → tcp_pcbs_max ≤ i → (boot.pcbs i).in_use ≡ false
boot_ends i h = refl

Reachable-Good_example : GoodIn connecting
Reachable-Good_example = Reachable-Good (
    goes_on (goes_on (starts boot boot_ends) (new 7) tt refl) (connect 0 0x0a00_0202 80) opened_used
      connects)

talking-InOrder : InOrder 0 header (two ∷ []) talking
unfolding swap32 mbuf_len mbuf_len_one
talking-InOrder = record {
  state = refl;
  rst = refl;
  fin = refl;
  seq = refl;
  ack = refl;
  some_data = omega arith;
  room = omega arith;
}

tcp_process-delivers_example :
    (t : Tcp) × (tcp_process 0 header (two ∷ []) talking ≡ some t)
    × (contents (t.pcbs 0).rx_buf ≡ contents (two ∷ []) ++ contents (two ∷ []))
    × ((t.pcbs 0).last_ack ≡ (0 + mbuf_len (two ∷ [])) % 2 ^ 32)
    × (t.events ≡ [] ++ got_data 0 ∷ [])
tcp_process-delivers_example =
    tcp_process-delivers 0 header (two ∷ []) talking two [] talking-InOrder refl

talking-Ready : Ready (talking.pcbs 0)
unfolding bytes_at
talking-Ready = record {
  state = refl;
  no_wait = refl;
  bounds = ((omega arith, omega arith), tt);
  unread = (refl, tt);
  window = omega arith;
  some_data = omega arith;
  small = omega arith;
}

tcp_transmit-sends_example :
    (t : Tcp) × (tcp_transmit 0 talking ≡ some t)
    × ((x : Sent) × (t.sent ≡ [] ++ x ∷ [])
        × (x.dst ≡ 0x0a00_0202)
        × Carries talking (outgoing (talking.pcbs 0)) x.pkt (take 1 (contents (two ∷ []))))
tcp_transmit-sends_example = tcp_transmit-sends 0 talking talking-Ready
