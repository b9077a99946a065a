-- ===== src/Engine/Protocols/Kinds.antt =====
-- src/include/machnet_engine.h: what it calls of the flows of src/include/flow.h and src/include/tcp_flow.h.
use machnet.Base.{ℕ, Bool, true, false, not, ◌&&◌, List}
use machnet.Udp.Flow.{NetFlags, UdpPacket, UdpEnv, UdpFlow, new_udp_flow, send_message}
use machnet.Udp.TxTracking.{TxMsgBuf}
use machnet.Udp.Receive.{receive_packet, open_flow, close_flow, check_flow}
use machnet.Tcp.Flow.{Env, TcpFlow, Segment, new_flow}
use machnet.Tcp.Receive.{input_packet}
use machnet.Tcp.Connection.{
  TxBuf, initiate_handshake, start_passive_open, shut_down, output_message, periodic_check,
}
use machnet.Engine.Flows.{FlowOps}

abbrev pub is_syn_packet : NetFlags → Bool
is_syn_packet NetFlags.syn = true
is_syn_packet _ = false

-- The flows of UDP; the number of the flow is not used.
abbrev pub udp_ops : UdpEnv → FlowOps UdpFlow UdpPacket (List TxMsgBuf)
udp_ops env = record {
  new = λ n. new_udp_flow;
  initiate_handshake = open_flow env;
  accept = λ f. f;
  input_packet = receive_packet env;
  output_message = send_message env;
  periodic_check = check_flow env;
  shut_down = close_flow env;
  callbacks = λ f. f.callbacks;
  is_syn = λ k. is_syn_packet k.net_flags;
}

-- The flows of TCP, where `isn` has the initial number that each flow draws.
abbrev pub tcp_ops : Env → (ℕ → ℕ) → FlowOps TcpFlow Segment (ℕ × List TxBuf)
tcp_ops env isn = record {
  new = λ n. new_flow (isn n);
  initiate_handshake = initiate_handshake env;
  accept = start_passive_open env;
  input_packet = input_packet env;
  output_message = λ m. output_message env m.0 m.1;
  periodic_check = periodic_check env;
  shut_down = shut_down env;
  callbacks = λ f. f.callbacks;
  is_syn = λ s. s.flags.syn && not s.flags.ack;
}
