-- ===== src/Udp/Tests.antt =====
-- Inputs of the theorems on UDP flows, and runs of the functions.
use machnet.Base.{
  min, zero, suc, ℕ, ◌+◌, ◌-◌, ◌≤◌, ◌≡◌, true, false, some, arith, List, [], ◌∷◌, length, ltb, refl,
  sub32,
}
use machnet.Tcp.Deframe.{Channel}
use machnet.Udp.Pcb.{get_snd_nxt, new_pcb, effective_wnd}
use machnet.Udp.RxTracking.{MsgBuf, new_rx_tracking}
use machnet.Udp.TxTracking.{TxMsgBuf, new_tx_tracking, get_and_update_oldest_unsent}
use machnet.Udp.Flow.{
  transmit_packets, FlowState, UdpEnv, UdpFlow, new_udp_flow, fill_batch, send_data,
}
use machnet.Udp.Transmit.{transmit_packets-Sent}
use machnet.Udp.Receive.{check_flow}
use machnet.Udp.Timer.{ticks, check_flow_gives_up}
use machnet.Udp.Window.{in_flight, transmit_packets-in_flight}
use machnet.Udp.Batches.{CanSend, Sent, fill_batch-Sent}
use machnet.Udp.RxTracking.Order.{gathered, consume_all, reaches}
use machnet.Udp.RxTracking.Runs.{consume_all_orders, consume_all-reaches}

abbrev channel : Channel
channel = record { msgbuf_alloc = λ _. true; enqueue = λ _. true; usable_buf_size = 100 }

-- Messages of two packets each.
abbrev sent : ℕ → MsgBuf
sent zero = record { last = false; bytes = 10 ∷ [] }
sent (suc zero) = record { last = true; bytes = 11 ∷ [] }
sent (suc (suc zero)) = record { last = false; bytes = 12 ∷ [] }
sent _ = record { last = true; bytes = 13 ∷ [] }

sent_fits : (i : ℕ) → length (sent i).bytes ≤ 100
sent_fits zero = omega arith
sent_fits (suc zero) = omega arith
sent_fits (suc (suc zero)) = omega arith
sent_fits (suc (suc (suc i))) = omega arith

-- Early, repeated and late packets.
abbrev arrivals : List ℕ
arrivals = 2 ∷ 0 ∷ 2 ∷ 1 ∷ 0 ∷ []

consume_all_orders_example :
    (n : ℕ) × ((consume_all sent channel arrivals (new_pcb, new_rx_tracking)).0.rcv_nxt ≡ n)
    × ((consume_all sent channel arrivals (new_pcb, new_rx_tracking)).1.delivered
        ≡ (gathered sent n).1)
    × ((consume_all sent channel arrivals (new_pcb, new_rx_tracking)).1.cur_msg_train
        ≡ (gathered sent n).0)
    × ((consume_all sent channel arrivals (new_pcb, new_rx_tracking)).1.aborted ≡ false)
consume_all_orders_example =
    consume_all_orders sent channel (λ _. refl) sent_fits arrivals
      (omega arith, (omega arith, (omega arith, (omega arith, (omega arith, tt)))))

consume_all-reaches_example :
    (n : ℕ) × (reaches 0 arrivals ≤ n)
    × ((consume_all sent channel arrivals (new_pcb, new_rx_tracking)).1.delivered
        ≡ (gathered sent n).1)
consume_all-reaches_example =
    consume_all-reaches sent channel (λ _. refl) sent_fits (λ _. refl) arrivals
      (omega arith, (omega arith, (omega arith, (omega arith, (omega arith, tt)))))

reaches_two : reaches 0 arrivals ≡ 2
reaches_two = refl

-- The whole first window is free.
effective_wnd_new : effective_wnd new_pcb ≡ 32
unfolding effective_wnd new_pcb sub32
effective_wnd_new = refl

abbrev env : UdpEnv
env = record {
  packet_alloc = λ _. true;
  packet_bulk_alloc = λ _. true;
  msgbuf_bulk_free = λ _. true;
  batch_room = 32;
  frame_room = 1400;
  channel = channel;
}

-- Two buffers of a message, to be sent at the wrap of the numbers.
abbrev buffers : List TxMsgBuf
buffers =
    record { last = false; bytes = 1 ∷ 2 ∷ []; msg_length = 3 }
    ∷ record { last = true; bytes = 3 ∷ []; msg_length = 0 }
    ∷ []

abbrev sending : UdpFlow
sending = record new_udp_flow {
  state = FlowState.established;
  pcb = record new_pcb { snd_nxt = 0xffff_ffff; snd_una = 0xffff_ffff };
  tx_tracking = record new_tx_tracking {
    unacked = buffers;
    unsent = buffers;
    num_unsent_msgbufs = 2;
    num_tracked_msgbufs = 2;
  };
}

sending-CanSend : CanSend env buffers sending
sending-CanSend = record {
  unsent = refl;
  counter = omega arith;
  number = omega arith;
  few = omega arith;
  fit = (omega arith, (omega arith, tt));
}

fill_two : Sent env 2 sending (fill_batch env 2 sending)
fill_two = fill_batch-Sent env 2 buffers sending (omega arith) sending-CanSend

-- The second packet is the one after the wrap.
sent_across_wrap : (fill_batch env 2 sending).pcb.snd_nxt ≡ 1
unfolding fill_batch get_and_update_oldest_unsent get_snd_nxt send_data
sent_across_wrap = refl

transmit_packets-Sent_example :
    Sent env
      (min (effective_wnd sending.pcb) sending.tx_tracking.num_unsent_msgbufs)
      sending
      (transmit_packets env sending)
transmit_packets-Sent_example =
    transmit_packets-Sent env (λ _. refl) (omega arith) buffers sending sending-CanSend
      (omega arith)

transmit_packets-in_flight_example :
    let g = transmit_packets env sending in
    (in_flight g.pcb ≡ in_flight sending.pcb + min (sending.pcb.cwnd - in_flight sending.pcb) 2)
    × (in_flight g.pcb - g.pcb.cwnd ≡ in_flight sending.pcb - sending.pcb.cwnd)
unfolding new_pcb
transmit_packets-in_flight_example =
    transmit_packets-in_flight env buffers sending (λ _. refl) (omega arith) sending-CanSend
      (omega arith) (omega arith) (omega arith) (omega arith)

-- The peer never answers the first packet.
abbrev opening : UdpFlow
opening = record new_udp_flow {
  state = FlowState.syn_sent;
  pcb = record new_pcb { snd_nxt = 1; rto_timer = some 0 };
}

check_flow_gives_up_example :
    ((check_flow env (ticks env 9 opening)).0 ≡ false)
    × ((check_flow env (ticks env 9 opening)).1.callbacks ≡ false ∷ [])
    × ((check_flow env (ticks env 8 opening)).0 ≡ ltb 8 9)
unfolding new_pcb new_udp_flow
check_flow_gives_up_example =
    check_flow_gives_up env 0 8 opening refl refl (omega arith) (omega arith) (omega arith)
