-- ===== src/Tcp/Ops.antt =====
-- servers/tcpip/tcp.c: the operations. `none` stands for a failed assertion, a read through NULL, or
-- a buffer whose loop ran out of rounds.
use microkernel_book.Base.{
  ℕ, zero, suc, ◌+◌, ◌-◌, ◌*◌, ◌/◌, ◌%◌, ◌^◌, min, Bool, true, false, not, ◌&&◌, ◌||◌, Option, none,
  some, List, [], ◌∷◌, ◌++◌, ◌==◌, ltb, leb, if◌then◌else◌, has, erase, length,
}
use microkernel_book.Mbuf.Ops.{
  Mbuf, mbuf_alloc, mbuf_new, mbuf_append, mbuf_append_bytes, mbuf_len, mbuf_read, mbuf_peek,
  mbuf_discard,
}
use microkernel_book.Tcp.Wire.{
  HeaderFlags, Header, header_bytes, header_of, header_size, as_memory, checksum_update,
  checksum_update_uint16, checksum_update_uint32, checksum_update_mbuf, checksum_finish, ntoh16,
  ntoh32, hton16, hton32,
}
use microkernel_book.Tcp.State.{
  tcp_pcbs_max, tcp_tx_initial_timeout, tcp_tx_max_timeout, tcp_rx_buf_size, ipv4_addr_unspecified,
  ipv4_proto_tcp, TcpState, syn_sent, established, closed, Pending, Endpoint, Pcb, got_data,
  got_fin, got_rst, Tcp, is_established, is_syn_sent, set_pcb, call_back,
}

-- A pointer to an mbuf as the chain from there on; NULL is not read through.
abbrev pub with_chain : {A : Type 0} → List Mbuf → (Mbuf → List Mbuf → Option A) → Option A
with_chain [] f = none
with_chain (m ∷ rest) f = f m rest

abbrev pub then_some : {A B : Type 0} → Option A → (A → Option B) → Option B
then_some none f = none
then_some (some a) f = f a

-- The tests of the two lookups.
unfoldable pub matches_local : Pcb → Endpoint → Bool
matches_local p ep =
    (p.local.addr == ipv4_addr_unspecified || p.local.addr == ep.addr) && p.local.port == ep.port

unfoldable pub matches : Pcb → Endpoint → Endpoint → Bool
unfolding matches_local
matches p local_ep remote_ep =
    matches_local p local_ep && p.remote.addr == remote_ep.addr && p.remote.port == remote_ep.port

-- The first entry of the list that passes the test.
abbrev pub first : (ℕ → Bool) → List ℕ → Option ℕ
first test [] = none
first test (i ∷ rest) = if test i then some i else first test rest

unfoldable pub tcp_lookup_local : Tcp → Endpoint → Option ℕ
unfolding matches_local
tcp_lookup_local s ep = first (λ i. matches_local (s.pcbs i) ep) s.active

unfoldable pub tcp_lookup : Tcp → Endpoint → Endpoint → Option ℕ
unfolding matches
tcp_lookup s local_ep remote_ep = first (λ i. matches (s.pcbs i) local_ep remote_ep) s.active

-- The search of `tcp_new`, from PCB `i` on.
unfoldable pub find_unused : ℕ → Tcp → ℕ → Option ℕ
find_unused zero s i = none
find_unused (suc rounds) s i = elim (s.pcbs i).in_use [
  | false ↦ some i
  | true ↦ find_unused rounds s (i + 1)
]

abbrev pub no_endpoint : Endpoint
no_endpoint = record { addr = 0; port = 0 }

abbrev pub no_flags : Pending
no_flags = record { ack = false; fin = false; syn = false }

-- `remote_winsize` keeps its value.
unfoldable pub fresh_pcb : ℕ → Pcb → Pcb
unfolding mbuf_alloc
fresh_pcb arg old = record {
  in_use = true;
  state = closed;
  pending_flags = no_flags;
  next_seqno = 0;
  last_seqno = 0;
  last_ack = 0;
  local_winsize = tcp_rx_buf_size;
  remote_winsize = old.remote_winsize;
  local = no_endpoint;
  remote = no_endpoint;
  rx_buf = mbuf_alloc ∷ [];
  tx_buf = mbuf_alloc ∷ [];
  num_retransmits = 0;
  retransmit_at = 0;
  arg = arg;
}

abbrev pub take_unused : ℕ → Option ℕ → Tcp → Option ℕ × Tcp
take_unused arg none s = (none, s)
take_unused arg (some i) s = (some i, set_pcb i (fresh_pcb arg (s.pcbs i)) s)

-- The new PCB, or NULL.
unfoldable pub tcp_new : ℕ → Tcp → Option ℕ × Tcp
unfolding find_unused fresh_pcb
tcp_new arg s = take_unused arg (find_unused tcp_pcbs_max s 0) s

-- A round of the search of `tcp_connect`, in front of the later rounds.
abbrev pub try_port : Option ℕ → ℕ → (ℕ → Option ℕ) → Option ℕ
try_port none port later = some port
try_port (some i) port later = later (port + 1)

-- The search, from `port` on.
unfoldable pub find_port : ℕ → Tcp → ℕ → Option ℕ
unfolding tcp_lookup_local
find_port zero s port = none
find_port (suc rounds) s port =
    try_port (tcp_lookup_local s (record { addr = ipv4_addr_unspecified; port = port })) port
      (find_port rounds s)

abbrev pub with_syn : Pending → Pending
with_syn f = record f { syn = true }

abbrev pub with_ack : Pending → Pending
with_ack f = record f { ack = true }

-- `tcp_connect` with the port that was found. A PCB that is in the list already stops the program
-- in `list_push_back`.
unfoldable pub connect_at : ℕ → ℕ → ℕ → ℕ → Tcp → Option Tcp
connect_at i dst_addr dst_port port s =
    let p = s.pcbs i in
    if has i s.active
    then none
    else some
        (record (set_pcb i
          (record p {
            local = record { addr = ipv4_addr_unspecified; port = port };
            remote = record { addr = dst_addr; port = dst_port };
            state = syn_sent;
            pending_flags = with_syn p.pending_flags;
          })
          s) { active = s.active ++ i ∷ [] })

-- What `tcp_connect` does with the port that it found.
abbrev pub connect_with : ℕ → ℕ → ℕ → Option ℕ → Tcp → Option (Bool × Tcp)
connect_with i dst_addr dst_port none s = some (false, s)
connect_with i dst_addr dst_port (some port) s =
    then_some (connect_at i dst_addr dst_port port s) λ t. some (true, t)

-- The result is whether a port was found; ERR_TRY_AGAIN otherwise. 16384 ports are tried.
unfoldable pub tcp_connect : ℕ → ℕ → ℕ → Tcp → Option (Bool × Tcp)
unfolding find_port connect_at
tcp_connect i dst_addr dst_port s = connect_with i dst_addr dst_port (find_port 16384 s 49152) s

-- The buffers' mbufs are freed; the pointers to them stay.
unfoldable pub tcp_close : ℕ → Tcp → Tcp
tcp_close i s = record (set_pcb i (record (s.pcbs i) { in_use = false }) s) {
  active = erase i s.active;
}

-- The bytes `src[p]` to `src[p + len - 1]` are written.
unfoldable pub tcp_write : ℕ → (ℕ → ℕ) → ℕ → ℕ → Tcp → Option Tcp
unfolding mbuf_append_bytes
tcp_write i src p len s =
    let pcb = s.pcbs i in
    with_chain pcb.tx_buf λ m rest.
      then_some (mbuf_append_bytes m rest src p len)
        λ chain. some (set_pcb i (record pcb { tx_buf = chain; retransmit_at = 0 }) s)

-- Rounds enough for the loops of `mbuf_read` and `mbuf_discard`.
abbrev pub rounds_of : List Mbuf → ℕ
rounds_of rest = 2 * length rest + 2

unfoldable pub tcp_read : ℕ → ℕ → Tcp → Option (List ℕ × Tcp)
unfolding mbuf_read
tcp_read i buf_len s =
    let pcb = s.pcbs i in
    with_chain pcb.rx_buf λ m rest. then_some (mbuf_read (rounds_of rest) m rest buf_len) λ r.
      some (
        r.copied,
        set_pcb i
            (record pcb {
              rx_buf = r.chain;
              local_winsize = (pcb.local_winsize + length r.copied) % 2 ^ 32;
            })
            s,
      )

-- What `tcp_transmit` sends: the payload and the flags, and the PCB behind it.
pub record Outgoing : Type 0 where
  pub payload : List Mbuf
  pub flags : HeaderFlags
  pub pcb : Pcb

abbrev pub header_flags : Bool → Pending → HeaderFlags
header_flags with_data f = record {
  fin = f.fin;
  syn = f.syn;
  rst = false;
  psh = with_data;
  ack = with_data || f.ack;
  other = 0;
}

unfoldable pub outgoing : Pcb → Outgoing
unfolding mbuf_peek mbuf_len
outgoing p =
    if is_established p.state
    then (let payload = mbuf_peek p.tx_buf p.remote_winsize in
        record {
          payload = payload;
          flags = header_flags (not (mbuf_len payload == 0)) p.pending_flags;
          pcb = record p {
            remote_winsize = (p.remote_winsize + 2 ^ 32 - mbuf_len payload) % 2 ^ 32;
            num_retransmits =
                if p.last_seqno == p.next_seqno
                then (p.num_retransmits + 1) % 2 ^ 32
                else p.num_retransmits;
          };
        })
    else record { payload = []; flags = header_flags false p.pending_flags; pcb = p }

abbrev pub has_flags : HeaderFlags → Bool
has_flags f = f.fin || f.syn || f.psh || f.ack

-- The header without its checksum.
unfoldable pub build_header : Pcb → HeaderFlags → Header
build_header p flags = record {
  src_port = hton16 p.local.port;
  dst_port = hton16 p.remote.port;
  seqno = hton32 p.next_seqno;
  ackno = if flags.ack then hton32 p.last_ack else 0;
  off_and_ns = 80;
  flags = flags;
  win_size = hton16 (p.local_winsize % 2 ^ 16);
  checksum = 0;
  urgent = 0;
}

-- The checksum of the payload, the header and the pseudo header, cut to 16 bits.
unfoldable pub packet_checksum : Header → List Mbuf → ℕ → ℕ → ℕ
unfolding checksum_update_mbuf checksum_update checksum_update_uint32 checksum_update_uint16
    checksum_finish header_bytes mbuf_len
packet_checksum header payload remote_addr ipaddr =
    let with_payload = checksum_update_mbuf 0 payload in
    let with_header =
      checksum_update with_payload (as_memory (header_bytes header)) 0 header_size in
    let with_remote = checksum_update_uint32 with_header (hton32 remote_addr) in
    let with_local = checksum_update_uint32 with_remote (hton32 ipaddr) in
    let with_len =
      checksum_update_uint16 with_local (hton16 ((header_size + mbuf_len payload) % 2 ^ 16)) in
    checksum_finish (checksum_update_uint16 with_len (hton16 ipv4_proto_tcp)) % 2 ^ 16

-- The time until the next transmission.
unfoldable pub timeout_of : ℕ → ℕ
timeout_of num_retransmits =
    min tcp_tx_max_timeout (tcp_tx_initial_timeout * 2 ^ min num_retransmits 8)

-- The header with its checksum.
unfoldable pub final_header : Outgoing → ℕ → Header
unfolding build_header packet_checksum
final_header out ipaddr =
    let bare = build_header out.pcb out.flags in
    record bare { checksum = packet_checksum bare out.payload out.pcb.remote.addr ipaddr }

-- What follows when the packet starts with these mbufs.
unfoldable pub hand_on : ℕ → Outgoing → Tcp → Mbuf → List Mbuf → Tcp
unfolding timeout_of mbuf_append
hand_on i out s m rest =
    let p = out.pcb in
    record (set_pcb i
      (record p {
        retransmit_at = s.now + timeout_of p.num_retransmits;
        last_seqno = p.next_seqno;
        pending_flags = no_flags;
      })
      s) {
        sent = s.sent ++ record { dst = p.remote.addr; pkt = mbuf_append m rest out.payload } ∷ [];
      }

-- The packet is built and handed on.
unfoldable pub send_packet : ℕ → Outgoing → Tcp → Option Tcp
unfolding final_header hand_on mbuf_new
send_packet i out s =
    then_some (mbuf_new (as_memory (header_bytes (final_header out s.ipaddr))) 0 header_size)
      λ chain. with_chain chain λ m rest. some (hand_on i out s m rest)

unfoldable pub tcp_transmit : ℕ → Tcp → Option Tcp
unfolding outgoing send_packet
tcp_transmit i s =
    let p = s.pcbs i in
    if not (p.retransmit_at == 0) && ltb s.now p.retransmit_at
    then some s
    else (let out = outgoing p in
        if has_flags out.flags then send_packet i out s else some (set_pcb i out.pcb s))

-- The loop of `tcp_flush` over the rest of the list.
unfoldable pub flush_loop : List ℕ → Tcp → Option Tcp
unfolding tcp_transmit
flush_loop [] s = some s
flush_loop (i ∷ rest) s = then_some (tcp_transmit i s) (flush_loop rest)

unfoldable pub tcp_flush : Tcp → Option Tcp
unfolding flush_loop
tcp_flush s = flush_loop s.active s

-- A packet for a connection that waits for SYN and ACK.
unfoldable pub process_syn_sent : Pcb → ℕ → ℕ → HeaderFlags → Pcb
process_syn_sent p seq ack flags = if not (flags.syn || flags.ack) then p else record p {
  next_seqno = ack;
  last_ack = (seq + 1) % 2 ^ 32;
  state = established;
  retransmit_at = 0;
  pending_flags = with_ack p.pending_flags;
}

-- The acknowledged bytes leave the send buffer.
unfoldable pub acknowledge : Pcb → ℕ → Option Pcb
unfolding mbuf_discard
acknowledge p ack =
    let acked_len = (ack + 2 ^ 32 - p.next_seqno) % 2 ^ 32 in
    if acked_len == 0
    then some p
    else (with_chain p.tx_buf λ m rest.
        then_some (mbuf_discard (rounds_of rest) m rest acked_len) λ d.
          some (record p { tx_buf = d.chain; next_seqno = (p.next_seqno + acked_len) % 2 ^ 32 }))

-- Whether the payload is kept.
abbrev pub takes_payload : Pcb → List Mbuf → Bool
takes_payload p payload = ltb 0 (mbuf_len payload) && leb (mbuf_len payload) p.local_winsize

-- The payload joins the receive buffer.
unfoldable pub take_payload : ℕ → List Mbuf → Tcp → Option Tcp
unfolding mbuf_len mbuf_append
take_payload i payload s =
    let p = s.pcbs i in
    if takes_payload p payload
    then (with_chain p.rx_buf λ m rest. some (
        call_back (got_data i) (
          set_pcb i
            (record p {
              last_ack = (p.last_ack + mbuf_len payload) % 2 ^ 32;
              local_winsize = (p.local_winsize + 2 ^ 32 - mbuf_len payload) % 2 ^ 32;
              pending_flags = with_ack p.pending_flags;
              rx_buf = mbuf_append m rest payload;
            })
            s)))
    else some s

-- A FIN closes the connection; unsent data stops the program.
unfoldable pub take_fin : ℕ → HeaderFlags → Tcp → Option Tcp
unfolding mbuf_len
take_fin i flags s =
    let p = s.pcbs i in
    if not flags.fin
    then some s
    else if not (mbuf_len p.tx_buf == 0)
    then none
    else some (
        call_back (got_fin i) (
          set_pcb i
            (record p {
              state = closed;
              retransmit_at = 0;
              last_ack = (p.last_ack + 1) % 2 ^ 32;
              pending_flags = with_ack p.pending_flags;
            })
            s))

-- The `switch` of `tcp_process`.
unfoldable pub process_state : TcpState → ℕ → ℕ → ℕ → HeaderFlags → List Mbuf → Tcp → Option Tcp
unfolding process_syn_sent acknowledge take_payload take_fin
process_state syn_sent i seq ack flags payload s =
    some (set_pcb i (process_syn_sent (s.pcbs i) seq ack flags) s)
process_state established i seq ack flags payload s =
    then_some (acknowledge (s.pcbs i) ack)
      λ p. then_some (take_payload i payload (set_pcb i p s)) (take_fin i flags)
process_state closed i seq ack flags payload s = some s

unfoldable pub tcp_process : ℕ → Header → List Mbuf → Tcp → Option Tcp
unfolding process_state
tcp_process i header payload s =
    let p = s.pcbs i in
    let seq = ntoh32 header.seqno in
    if header.flags.rst
    then some (call_back (got_rst i) s)
    else if not (is_syn_sent p.state) && not (seq == p.last_ack)
    then some (set_pcb i (record p { pending_flags = with_ack p.pending_flags }) s)
    else process_state p.state i seq (ntoh32 header.ackno) header.flags payload
        (set_pcb i (record p { remote_winsize = ntoh32 header.win_size }) s)

-- The options behind the header leave the packet.
unfoldable pub skip_options : Header → List Mbuf → Option (List Mbuf)
unfolding mbuf_discard
skip_options header pkt =
    let offset = header.off_and_ns / 16 * 4 in
    if ltb header_size offset
    then (with_chain pkt λ m rest.
        then_some (mbuf_discard (rounds_of rest) m rest (offset - header_size)) λ d. some d.chain)
    else some pkt

-- A packet without a PCB is dropped.
abbrev pub process_found : Option ℕ → Header → List Mbuf → Tcp → Option Tcp
process_found none header payload s = some s
process_found (some i) header payload s = tcp_process i header payload s

unfoldable pub receive_segment : ℕ → ℕ → Header → List Mbuf → Tcp → Option Tcp
unfolding tcp_lookup tcp_process skip_options
receive_segment dst src header pkt s = then_some (skip_options header pkt) λ payload.
    process_found
      (tcp_lookup s (record { addr = dst; port = ntoh16 header.dst_port })
        (record { addr = src; port = ntoh16 header.src_port }))
      header payload s

-- A packet that is shorter than a header is dropped.
abbrev pub received : Option Header → ℕ → ℕ → List Mbuf → Tcp → Option Tcp
received none dst src pkt s = some s
received (some header) dst src pkt s = receive_segment dst src header pkt s

unfoldable pub tcp_receive : ℕ → ℕ → List Mbuf → Tcp → Option Tcp
unfolding mbuf_read header_of receive_segment
tcp_receive dst src pkt s = with_chain pkt λ m rest.
    then_some (mbuf_read (rounds_of rest) m rest header_size)
      λ r. received (header_of r.copied) dst src r.chain s

unfoldable pub tcp_init : Tcp → Tcp
tcp_init s = record s {
  active = [];
  pcbs = λ i. if ltb i tcp_pcbs_max then record (s.pcbs i) { in_use = false } else s.pcbs i;
}
