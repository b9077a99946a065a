-- ===== src/Tcp/Tests.antt =====
-- Inputs of the theorems on TCP flows, and runs of the functions.
use mathlib.Core.Bool.{true≢false}
use machnet.Base.{
  min, ltb, leb, ◌&&◌, sym, suc, ℕ, ◌∷◌, ◌≤◌, ◌≡◌, ◌⊎◌, refl, true, false, arith, List, [], ◌++◌,
  length, take, drop, htobe32, add32, sub32, some, if◌then◌else◌,
}
use machnet.Seq.{seq_lt}
use machnet.Tcp.Flow.{State, Env, TcpFlow, Segment, Packet, new_flow, ack_flag, default_mss}
use machnet.Tcp.Deframe.{be_value, Channel, init, consume_payload}
use machnet.Tcp.Deframe.Stream.{read_byte, View, view, read_bytes}
use machnet.Tcp.Deframe.Payload.{IsValid}
use machnet.Tcp.Deframe.Rounds.{consume_payload_refines}
use machnet.Tcp.Deframe.Messages.{
  frames_roundtrip, frame, frames, between, onto, consume_segments, stream_of, init-IsValid,
}
use machnet.Tcp.Send.{
  arm_timer, send_pending_fin, send_segments, snd_buffered_end_seq, send_data_segment, pump_send,
  advance_snd_una,
}
use machnet.Tcp.Send.Pump.{Run}
use machnet.Tcp.Send.Window.{InWindow, segments, segments_fill_window}
use machnet.Tcp.Send.Acks.{advance_snd_una_takes}
use machnet.Tcp.Connection.{
  TxBuf, output_message, initiate_handshake, start_passive_open, log_indices, reached,
}
use machnet.Tcp.Handshake.{client_ends, server_ends, handshake_agrees}
use machnet.Tcp.Messages.{accepted, bytes_of_chain, output_message-frames}
use machnet.Tcp.Timer.{ticks, patience, periodic_check_gives_up}
use machnet.Tcp.Invariant.Keeps.{Inv}
use machnet.Tcp.Invariant.Opening.{IsWire}
use machnet.Tcp.Invariant.Events.{Event, step, run, step-Inv, opened-run-Inv}

-- Buffers of three bytes, and a channel and a pool that serve every call.
abbrev channel : Channel
channel = record { msgbuf_alloc = λ _. true; enqueue = λ _. true; usable_buf_size = 3 }

abbrev env : Env
env = record { packet_alloc = λ _. true; channel = channel }

-- A frame of five bytes, and one whose prefix is cut between two segments.
abbrev two_messages : List (List ℕ)
two_messages = (1 ∷ 2 ∷ 3 ∷ 4 ∷ 5 ∷ []) ∷ (7 ∷ 8 ∷ []) ∷ []

abbrev three_segments : List (List ℕ)
three_segments = (0 ∷ 0 ∷ 0 ∷ 5 ∷ 1 ∷ 2 ∷ []) ∷ (3 ∷ 4 ∷ 5 ∷ 0 ∷ 0 ∷ []) ∷ (0 ∷ 2 ∷ 7 ∷ 8 ∷ []) ∷ []

segments_hold : stream_of three_segments ≡ frames two_messages
unfolding stream_of frames frame
segments_hold = refl

frames_roundtrip_example :
    view (consume_segments channel init three_segments) ≡ between (onto two_messages [])
frames_roundtrip_example =
    frames_roundtrip channel (λ _. refl) (λ _. refl) (omega arith) two_messages three_segments
      (omega arith, omega arith, (omega arith, omega arith, tt)) segments_hold

-- Half of a message.
abbrev opened_view : View
opened_view = record { prefix = []; pending = 5; payload = 1 ∷ 2 ∷ []; messages = [] }

reads_half : read_bytes (view init) (0 ∷ 0 ∷ 0 ∷ 5 ∷ 1 ∷ 2 ∷ []) ≡ some opened_view
unfolding read_bytes read_byte be_value
reads_half = refl

consume_payload_refines_example :
    IsValid 3 (consume_payload channel init (0 ∷ 0 ∷ 0 ∷ 5 ∷ 1 ∷ 2 ∷ []))
    × (view (consume_payload channel init (0 ∷ 0 ∷ 0 ∷ 5 ∷ 1 ∷ 2 ∷ [])) ≡ opened_view)
consume_payload_refines_example =
    consume_payload_refines channel (λ _. refl) (λ _. refl) (omega arith) init
      (0 ∷ 0 ∷ 0 ∷ 5 ∷ 1 ∷ 2 ∷ []) opened_view (init-IsValid 3) reads_half

-- An established flow near the wrap of its numbers, with four bytes buffered, two of them in flight,
-- and a window of three.
abbrev sending : TcpFlow
sending = record (new_flow 0xffff_fffd) {
  state = State.established;
  snd_una = 0xffff_fffe;
  snd_nxt = 0;
  snd_buf = 1 ∷ 2 ∷ 3 ∷ 4 ∷ [];
  snd_wnd = 3;
  rto_active = true;
}

sending-InWindow : InWindow sending
unfolding new_flow
sending-InWindow = record {
  off = 2;
  una_word = omega arith;
  next_seq = wraps;
  buffered = omega arith;
  window = omega arith;
  mss = omega arith;
  unsent_fin = λ _. omega arith;
  sent_fin = λ h. absurd (true≢false (sym h));
  wanted_fin = λ h. absurd (true≢false (sym h));
}
  where
    wraps : 0 ≡ add32 0xffff_fffe 2
    wraps = unfold add32 in refl

sending-Inv : Inv sending
unfolding new_flow
sending-Inv = (sending-InWindow, refl)

segments_fill_window_example :
    (upto : ℕ) × (sent : List Packet) × Run
      (min sending.peer_mss default_mss)
      sending.snd_una
      sending.snd_buf
      sending-InWindow.off
      upto
      sent
    × ((segments env sending).tx ≡ sent ++ sending.tx)
    × ((segments env sending).snd_nxt ≡ add32 sending.snd_una upto)
    × ((length sending.snd_buf ≤ upto) ⊎ (sending.snd_wnd ≤ upto))
    × ((upto ≡ sending-InWindow.off) ⊎ ((upto ≤ length sending.snd_buf) × (upto ≤ sending.snd_wnd)))
segments_fill_window_example = segments_fill_window env sending sending-InWindow (λ _. refl)

-- One more byte is sent, up to the window.
pumped_bytes : (pump_send env sending).snd_nxt ≡ 1
unfolding pump_send new_flow arm_timer sub32 send_pending_fin send_segments seq_lt
    snd_buffered_end_seq add32 send_data_segment
pumped_bytes = refl

advance_snd_una_takes_example :
    let g = advance_snd_una 0xffff_ffff sending in
    let n = sub32 0xffff_ffff sending.snd_una in
    let in_flight = ltb 0 n && leb n sending-InWindow.off in
    (g.snd_una ≡ (if in_flight then 0xffff_ffff else sending.snd_una))
    × (g.snd_buf ≡ (if in_flight then drop n sending.snd_buf else sending.snd_buf))
    × (g.snd_nxt ≡ sending.snd_nxt)
advance_snd_una_takes_example =
    advance_snd_una_takes 0xffff_ffff sending sending-InWindow (omega arith)

-- An acknowledgement of one byte, with data.
abbrev segment : Segment
segment = record {
  ip_total_len = 44;
  header_length = 20;
  seq = 0;
  ack = 0xffff_ffff;
  flags = ack_flag;
  window = 5;
  options = [];
  bytes = 0 ∷ 0 ∷ 0 ∷ 1 ∷ [];
}

segment-IsWire : IsWire segment
segment-IsWire = record {
  seq_word = omega arith;
  ack_word = omega arith;
  window_word = omega arith;
}

step-Inv_example : Inv (step env (Event.packet segment) sending)
step-Inv_example = step-Inv env (Event.packet segment) sending segment-IsWire sending-Inv

-- A message that two buffers hold.
abbrev message : List TxBuf
message =
    record { index = 4; linked = true; bytes = 1 ∷ 2 ∷ [] }
    ∷ record { index = 9; linked = false; bytes = 3 ∷ [] }
    ∷ []

abbrev events : List Event
events = Event.packet segment ∷ Event.message 3 message ∷ Event.tick ∷ Event.close ∷ []

opened-run-Inv_example :
    Inv (run env events (initiate_handshake env (new_flow 7)))
    × Inv (run env events (start_passive_open env (new_flow 7)))
opened-run-Inv_example =
    opened-run-Inv env 7 events (omega arith) (segment-IsWire, (omega arith, (tt, (tt, tt))))

handshake_agrees_example :
    ((client_ends env 5 0xffff_ffff).state ≡ State.established)
    × ((server_ends env 5 0xffff_ffff).state ≡ State.established)
    × ((client_ends env 5 0xffff_ffff).rcv_nxt ≡ (server_ends env 5 0xffff_ffff).snd_nxt)
    × ((server_ends env 5 0xffff_ffff).rcv_nxt ≡ (client_ends env 5 0xffff_ffff).snd_nxt)
    × ((client_ends env 5 0xffff_ffff).snd_una ≡ (client_ends env 5 0xffff_ffff).snd_nxt)
    × ((server_ends env 5 0xffff_ffff).snd_una ≡ (server_ends env 5 0xffff_ffff).snd_nxt)
    × ((client_ends env 5 0xffff_ffff).peer_mss ≡ default_mss)
    × ((server_ends env 5 0xffff_ffff).peer_mss ≡ default_mss)
    × ((client_ends env 5 0xffff_ffff).rto_active ≡ false)
    × ((server_ends env 5 0xffff_ffff).rto_active ≡ false)
    × ((client_ends env 5 0xffff_ffff).callbacks ≡ true ∷ [])
handshake_agrees_example = handshake_agrees env 5 0xffff_ffff (λ _. refl)

output_message-frames_example :
    let g = output_message env 3 message sending in
    (g.snd_buf ≡ (
      if accepted 3 message sending
      then sending.snd_buf ++ (htobe32 3 ++ take 3 (bytes_of_chain message))
      else sending.snd_buf))
    × (g.freed ≡ log_indices (reached message) sending.freed)
    × (g.state ≡ sending.state)
output_message-frames_example = output_message-frames env 3 message sending (omega arith)

periodic_check_gives_up_example :
    ((ticks env (suc (patience sending)) sending).state ≡ State.closed)
    × ((ticks env (suc (patience sending)) sending).callbacks ≡ false ∷ sending.callbacks)
    × ((ticks env 6 sending).state ≡ sending.state)
unfolding new_flow
periodic_check_gives_up_example =
    periodic_check_gives_up env sending 6 refl refl (omega arith) (omega arith)
