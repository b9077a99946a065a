-- ===== src/Tcp/Flow.antt =====
-- src/include/tcp_flow.h and src/include/tcp.h: the state of a TCP flow, and the packets.
use machnet.Base.{ℕ, ◌*◌, Bool, true, false, List, []}
use machnet.Tcp.Deframe.{Channel, Reassembly, msg_max_len}
use machnet.Tcp.Deframe as deframe

pub data State : Type 0 where
  closed : State
  listen : State
  syn_sent : State
  syn_received : State
  established : State
  fin_wait1 : State
  fin_wait2 : State
  close_wait : State
  last_ack : State
  time_wait : State

abbrev pub default_mss : ℕ
default_mss = 1400

abbrev pub initial_window_size : ℕ
initial_window_size = 65535

abbrev pub max_retransmissions : ℕ
max_retransmissions = 10

abbrev pub initial_rto : ℕ
initial_rto = 3

abbrev pub time_wait_ticks : ℕ
time_wait_ticks = 5

-- sizeof(Tcp), sizeof(Ipv4)
abbrev pub tcp_size : ℕ
tcp_size = 20

abbrev pub ipv4_size : ℕ
ipv4_size = 20

abbrev pub max_send_buf : ℕ
max_send_buf = 2 * msg_max_len

-- The bits of the flags byte that the flow reads or sets.
pub record Flags : Type 0 where
  pub fin : Bool
  pub syn : Bool
  pub rst : Bool
  pub psh : Bool
  pub ack : Bool

abbrev pub no_flags : Flags
no_flags = record { fin = false; syn = false; rst = false; psh = false; ack = false }

abbrev pub ack_flag : Flags
ack_flag = record no_flags { ack = true }

-- A packet handed to the TX ring: the header fields that vary, the MSS option if there is one, and
-- the payload.
pub record Packet : Type 0 where
  pub seq : ℕ
  pub ack : ℕ
  pub flags : Flags
  pub window : ℕ
  pub mss_option : List ℕ
  pub payload : List ℕ

-- A received packet, as `InputPacket` reads it: IP total_length, the TCP header length, its fields,
-- the option bytes between the 20-byte header and the payload, and the bytes from the end of the TCP
-- header on (with any Ethernet padding).
pub record Segment : Type 0 where
  pub ip_total_len : ℕ
  pub header_length : ℕ
  pub seq : ℕ
  pub ack : ℕ
  pub flags : Flags
  pub window : ℕ
  pub options : List ℕ
  pub bytes : List ℕ

-- What stands around the flow: the answer of the packet pool to the k-th allocation (false is a null
-- packet), and the channel.
pub record Env : Type 0 where
  pub packet_alloc : ℕ → Bool
  pub channel : Channel

-- The fields of `TcpFlow`. `tx` logs the packets handed to the TX ring, `callbacks` the flag of each
-- call of the application callback, and `freed` the indices of message buffers given back, all newest
-- first; `packet_allocs` counts the allocations. `aborted` says that a CHECK failed: the process has
-- ended, and what the functions still do to the state has no meaning.
pub record TcpFlow : Type 0 where
  pub state : State
  pub snd_una : ℕ
  pub snd_nxt : ℕ
  pub snd_isn : ℕ
  pub snd_buf : List ℕ
  pub fin_pending : Bool
  pub fin_sent : Bool
  pub snd_fin_seq : ℕ
  pub rcv_nxt : ℕ
  pub rcv_wnd : ℕ
  pub snd_wnd : ℕ
  pub peer_mss : ℕ
  pub rto_ticks : ℕ
  pub rto_remaining : ℕ
  pub rto_active : Bool
  pub retransmit_count : ℕ
  pub time_wait_remaining : ℕ
  pub rx : Reassembly
  pub tx : List Packet
  pub callbacks : List Bool
  pub freed : List ℕ
  pub packet_allocs : ℕ
  pub aborted : Bool

-- The constructor, with the number that `GenerateISN` returned.
unfoldable pub new_flow : ℕ → TcpFlow
new_flow isn = record {
  state = State.closed;
  snd_una = isn;
  snd_nxt = isn;
  snd_isn = isn;
  snd_buf = [];
  fin_pending = false;
  fin_sent = false;
  snd_fin_seq = 0;
  rcv_nxt = 0;
  rcv_wnd = initial_window_size;
  snd_wnd = initial_window_size;
  peer_mss = default_mss;
  rto_ticks = initial_rto;
  rto_remaining = initial_rto;
  rto_active = false;
  retransmit_count = 0;
  time_wait_remaining = time_wait_ticks;
  rx = deframe.init;
  tx = [];
  callbacks = [];
  freed = [];
  packet_allocs = 0;
  aborted = false;
}
