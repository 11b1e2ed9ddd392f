-- ===== src/Tcp/State.antt =====
-- servers/tcpip/tcp.h and the static variables of servers/tcpip/tcp.c. A `struct tcp_pcb *` is the
-- index in `pcbs`, and the list of active PCBs is the list of their indices. What the code gives to
-- other parts is recorded in order: the packets handed to `ipv4_transmit`, and the calls of the
-- callbacks of servers/tcpip/main.c.
use microkernel_book.Base.{ℕ, Bool, true, false, List, [], ◌∷◌, ◌++◌, update}
use microkernel_book.Mbuf.Ops.{Mbuf}

abbrev pub tcp_pcbs_max : ℕ
tcp_pcbs_max = 512

abbrev pub tcp_tx_initial_timeout : ℕ
tcp_tx_initial_timeout = 500

abbrev pub tcp_tx_max_timeout : ℕ
tcp_tx_max_timeout = 3000

abbrev pub tcp_rx_buf_size : ℕ
tcp_rx_buf_size = 8192

abbrev pub ipv4_addr_unspecified : ℕ
ipv4_addr_unspecified = 0

abbrev pub ipv4_proto_tcp : ℕ
ipv4_proto_tcp = 6

pub data TcpState : Type 0 where
  syn_sent established closed : TcpState

-- The bits of `enum tcp_pending_flag`.
pub record Pending : Type 0 where
  pub ack : Bool
  pub fin : Bool
  pub syn : Bool

pub record Endpoint : Type 0 where
  pub addr : ℕ
  pub port : ℕ

-- `struct tcp_pcb`. Sequence numbers and windows are 32-bit words.
pub record Pcb : Type 0 where
  pub in_use : Bool
  pub state : TcpState
  pub pending_flags : Pending
  pub next_seqno : ℕ
  pub last_seqno : ℕ
  pub last_ack : ℕ
  pub local_winsize : ℕ
  pub remote_winsize : ℕ
  pub local : Endpoint
  pub remote : Endpoint
  pub rx_buf : List Mbuf
  pub tx_buf : List Mbuf
  pub num_retransmits : ℕ
  pub retransmit_at : ℕ
  pub arg : ℕ

-- A call of `ipv4_transmit(dst, IPV4_PROTO_TCP, pkt)`.
pub record Sent : Type 0 where
  pub dst : ℕ
  pub pkt : List Mbuf

-- A call of `callback_tcp_data`, `callback_tcp_fin` or `callback_tcp_rst`.
pub data Event : Type 0 where
  got_data got_fin got_rst : ℕ → Event

-- The static variables, what was handed on, the time (`sys_uptime`) and the own address.
pub record Tcp : Type 0 where
  pub pcbs : ℕ → Pcb
  pub active : List ℕ
  pub sent : List Sent
  pub events : List Event
  pub now : ℕ
  pub ipaddr : ℕ

abbrev pub is_established : TcpState → Bool
is_established established = true
is_established _ = false

abbrev pub is_syn_sent : TcpState → Bool
is_syn_sent syn_sent = true
is_syn_sent _ = false

-- `*pcb = f(*pcb)`
abbrev pub set_pcb : ℕ → Pcb → Tcp → Tcp
set_pcb i p s = record s { pcbs = update s.pcbs i p }

abbrev pub call_back : Event → Tcp → Tcp
call_back e s = record s { events = s.events ++ e ∷ [] }
