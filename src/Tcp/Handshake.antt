-- ===== src/Tcp/Handshake.antt =====
-- The three-way handshake of two flows of src/include/tcp_flow.h over a network that loses nothing.
use machnet.Base.{
  if◌then◌else◌, sub32, ap, ◌∙◌, ◌==◌, ℕ, ◌+◌, ◌<◌, ◌^◌, ◌≡◌, refl, Bool, true, false, arith, List,
  [], ◌∷◌, length, add32,
}
use machnet.Seq.{seq_lt}
use machnet.Tcp.Flow.{
  Env, TcpFlow, State, Packet, Segment, new_flow, default_mss, initial_window_size, no_flags,
  ack_flag,
}
use machnet.Tcp.Send.{
  effective_mss, may_send_data, bytes_in_flight, fin_outstanding, snd_buffered_end_seq, mss_option,
  send_syn, send_syn_ack, send_ack, pump_send, send_pending_fin, arm_timer, send_segments,
}
use machnet.Tcp.Options.{parse_tcp_options, parse_loop}
use machnet.Tcp.Receive.{
  dispatch, input_packet, handle_listen, handle_syn_sent, complete_handshake, handle_syn_received,
  process_in_order_payload,
}
use machnet.Tcp.Connection.{initiate_handshake, start_passive_open}

-- A packet as the other side reads it.
abbrev pub received : Packet → Segment
received k = record {
  ip_total_len = 40 + length k.mss_option + length k.payload;
  header_length = 20 + length k.mss_option;
  seq = k.seq;
  ack = k.ack;
  flags = k.flags;
  window = k.window;
  options = k.mss_option;
  bytes = k.payload;
}

-- Hand a flow the last packet that another one sent.
abbrev pub last_sent : Env → List Packet → TcpFlow → TcpFlow
last_sent env [] f = f
last_sent env (k ∷ ks) f = input_packet env (received k) f

==_refl : (n : ℕ) → (n == n) ≡ true
==_refl n = ground arith

if_same : (c : Bool) (f : TcpFlow) → (if c then f else f) ≡ f
if_same true f = refl
if_same false f = refl

add32-word : (a b : ℕ) → add32 a b < 2 ^ 32
unfolding add32
add32-word a b = omega arith

seq_lt_irrefl : (n : ℕ) → n < 2 ^ 32 → seq_lt n n ≡ false
unfolding seq_lt sub32
seq_lt_irrefl n h = ground arith

-- With nothing to send, `PumpSend` does nothing.
module _ (env : Env) (f : TcpFlow) (buf : f.snd_buf ≡ []) (nxt : f.snd_nxt ≡ f.snd_una)
    (pending : f.fin_pending ≡ false) (sent : f.fin_sent ≡ false) (word : f.snd_una < 2 ^ 32) where
  no_segments : (d w m : ℕ) → send_segments env (length f.snd_buf) d w m f ≡ f
  unfolding send_segments
  no_segments d w m = ap (λ n. send_segments env n d w m f) (ap length buf)

  no_fin : (d : ℕ) → send_pending_fin env d f ≡ f
  unfolding send_pending_fin
  no_fin d = rw pending refl

  data_end-here : snd_buffered_end_seq f ≡ f.snd_una
  unfolding snd_buffered_end_seq add32
  data_end-here = omega (arith, ap length buf)

  nothing_in_flight : bytes_in_flight f ≡ 0
  unfolding bytes_in_flight sub32
  nothing_in_flight = omega arith

  no_timer : arm_timer (snd_buffered_end_seq f) f ≡ f
  unfolding arm_timer fin_outstanding
  no_timer =
      ground (arith, nothing_in_flight, data_end-here, nxt, sent, seq_lt_irrefl f.snd_una word)

  pump_send_quiet : pump_send env f ≡ f
  unfolding pump_send
  pump_send_quiet =
      rw
        (
          no_segments (snd_buffered_end_seq f) (add32 f.snd_una f.snd_wnd) (effective_mss f),
          no_fin (snd_buffered_end_seq f),
          no_timer,
        )
        (if_same (may_send_data f.state) f)

module _ (env : Env) (a b : ℕ) where
  unfoldable pub client_opens : TcpFlow
  client_opens = initiate_handshake env (new_flow a)

  unfoldable pub server_answers : TcpFlow
  server_answers = last_sent env client_opens.tx (start_passive_open env (new_flow b))

  unfoldable pub client_ends : TcpFlow
  client_ends = last_sent env server_answers.tx client_opens

  unfoldable pub server_ends : TcpFlow
  server_ends = last_sent env client_ends.tx server_answers

  syn : Packet
  syn = record {
    seq = a;
    ack = 0;
    flags = record no_flags { syn = true };
    window = initial_window_size;
    mss_option = mss_option default_mss;
    payload = [];
  }

  syn_ack : Packet
  syn_ack = record {
    seq = b;
    ack = add32 a 1;
    flags = record ack_flag { syn = true };
    window = initial_window_size;
    mss_option = mss_option default_mss;
    payload = [];
  }

  last_ack : Packet
  last_ack = record {
    seq = add32 a 1;
    ack = add32 b 1;
    flags = ack_flag;
    window = initial_window_size;
    mss_option = [];
    payload = [];
  }

  abbrev client_syn_sent : TcpFlow
  client_syn_sent = record (new_flow a) {
    state = State.syn_sent;
    snd_nxt = add32 a 1;
    rto_active = true;
    tx = syn ∷ [];
    packet_allocs = 1;
  }

  abbrev server_syn_received : TcpFlow
  server_syn_received = record (new_flow b) {
    state = State.syn_received;
    snd_nxt = add32 b 1;
    rcv_nxt = add32 a 1;
    rto_active = true;
    tx = syn_ack ∷ [];
    packet_allocs = 1;
  }

  abbrev client_established : TcpFlow
  client_established = record (new_flow a) {
    state = State.established;
    snd_una = add32 a 1;
    snd_nxt = add32 a 1;
    rcv_nxt = add32 b 1;
    rto_active = false;
    tx = last_ack ∷ syn ∷ [];
    callbacks = true ∷ [];
    packet_allocs = 2;
  }

  abbrev server_established : TcpFlow
  server_established = record (new_flow b) {
    state = State.established;
    snd_una = add32 b 1;
    snd_nxt = add32 b 1;
    rcv_nxt = add32 a 1;
    rto_active = false;
    tx = syn_ack ∷ [];
    packet_allocs = 1;
  }

  client_opens-eq : ((n : ℕ) → env.packet_alloc n ≡ true) → client_opens ≡ client_syn_sent
  unfolding client_opens initiate_handshake new_flow send_syn syn
  client_opens-eq allocates = rw (allocates 0) refl

  server_answers-eq : ((n : ℕ) → env.packet_alloc n ≡ true) → server_answers ≡ server_syn_received
  unfolding new_flow send_syn_ack start_passive_open input_packet dispatch handle_listen
      parse_tcp_options parse_loop pump_send syn syn_ack server_answers add32
  server_answers-eq allocates = rw (client_opens-eq allocates, allocates 0) refl

  client_step :
      ((n : ℕ) → env.packet_alloc n ≡ true)
      → input_packet env (received syn_ack) client_syn_sent ≡ pump_send env client_established
  unfolding new_flow send_ack input_packet dispatch handle_syn_sent complete_handshake
      parse_tcp_options parse_loop syn_ack last_ack
  client_step allocates = rw (==_refl (add32 a 1), allocates 1) refl

  server_step :
      input_packet env (received last_ack) server_syn_received ≡ pump_send env server_established
  unfolding new_flow input_packet dispatch handle_syn_received process_in_order_payload last_ack
  server_step = rw (==_refl (add32 b 1)) refl

  client_ends-eq : ((n : ℕ) → env.packet_alloc n ≡ true) → client_ends ≡ client_established
  unfolding client_ends new_flow
  client_ends-eq allocates =
      rw (server_answers-eq allocates, client_opens-eq allocates)
        (client_step allocates
          ∙ pump_send_quiet env client_established refl refl refl refl (add32-word a 1))

  server_ends-eq : ((n : ℕ) → env.packet_alloc n ≡ true) → server_ends ≡ server_established
  unfolding server_ends new_flow
  server_ends-eq allocates =
      rw (client_ends-eq allocates, server_answers-eq allocates)
        (server_step ∙ pump_send_quiet env server_established refl refl refl refl (add32-word b 1))

  -- Two flows that open towards each other and get each other's packets, while the pool has packets,
  -- both end established with nothing in flight, each expecting the number that the other will use
  -- next, with the segment size that the other announced, the timers stopped, and the application of
  -- the client told.
  pub handshake_agrees :
      ((n : ℕ) → env.packet_alloc n ≡ true)
      → (client_ends.state ≡ State.established)
        × (server_ends.state ≡ State.established)
        × (client_ends.rcv_nxt ≡ server_ends.snd_nxt)
        × (server_ends.rcv_nxt ≡ client_ends.snd_nxt)
        × (client_ends.snd_una ≡ client_ends.snd_nxt)
        × (server_ends.snd_una ≡ server_ends.snd_nxt)
        × (client_ends.peer_mss ≡ default_mss)
        × (server_ends.peer_mss ≡ default_mss)
        × (client_ends.rto_active ≡ false)
        × (server_ends.rto_active ≡ false)
        × (client_ends.callbacks ≡ true ∷ [])
  unfolding new_flow
  handshake_agrees allocates =
      rw (client_ends-eq allocates, server_ends-eq allocates)
        (refl, refl, refl, refl, refl, refl, refl, refl, refl, refl, refl)
