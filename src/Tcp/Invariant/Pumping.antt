-- ===== src/Tcp/Invariant/Pumping.antt =====
-- `PumpSend`, acknowledgements and options, as the invariant sees them.
use machnet.Base.{
  ℕ, zero, suc, ◌-◌, ◌+◌, ◌<◌, ◌≡◌, refl, ◌∙◌, false, arith, Bool-cases, leb, inl, inr, List,
  be16toh, min, sub32, add32, length, get_or, ◌&&◌, if◌then◌else◌, ◌==◌,
}
use machnet.Tcp.Flow.{Env, TcpFlow, State, tcp_size}
use machnet.Tcp.Send.{
  send_segments, send_data_segment, send_pending_fin, arm_timer, pump_send, advance_snd_una,
  may_send_data, snd_buffered_end_seq, effective_mss,
}
use machnet.Tcp.Send.Window.{InWindow, pump_send-InWindow}
use machnet.Tcp.Options.{parse_loop, parse_tcp_options, announced_mss}
use machnet.Tcp.Invariant.Keeps.{Inv, Inv-SoundAt, SoundAt, Opening}

abbrev seg_len : ℕ → ℕ → ℕ → TcpFlow → ℕ
seg_len d w m f = min (min (sub32 w f.snd_nxt) (sub32 d f.snd_nxt)) m

module _ (env : Env) where
  send_segments_keeps :
      (fuel d w m : ℕ) (f : TcpFlow)
      → ((send_segments env fuel d w m f).state ≡ f.state)
        × ((send_segments env fuel d w m f).fin_pending ≡ f.fin_pending)
  unfolding send_segments send_data_segment
  send_segments_keeps zero d w m f = (refl, refl)
  send_segments_keeps (suc fuel) d w m f =
      let g = (send_data_segment env f.snd_nxt (seg_len d w m f) f).1 in
      ground (
        arith,
        send_segments_keeps fuel d w m (record g { snd_nxt = add32 g.snd_nxt (seg_len d w m f) }),
      )

  send_pending_fin_keeps :
      (d : ℕ) (f : TcpFlow)
      → ((send_pending_fin env d f).state ≡ f.state)
        × ((send_pending_fin env d f).fin_pending ≡ f.fin_pending)
  unfolding send_pending_fin
  send_pending_fin_keeps d f = ground arith

  -- `PumpSend` changes neither the state nor whether a close was asked for.
  pub pump_send_keeps :
      (f : TcpFlow)
      → ((pump_send env f).state ≡ f.state) × ((pump_send env f).fin_pending ≡ f.fin_pending)
  unfolding pump_send arm_timer
  pump_send_keeps f =
      let d = snd_buffered_end_seq f in
      let g =
        send_segments env (length f.snd_buf) d (add32 f.snd_una f.snd_wnd) (effective_mss f) f in
      ground (
        arith,
        send_segments_keeps (length f.snd_buf) d (add32 f.snd_una f.snd_wnd) (effective_mss f) f,
        send_pending_fin_keeps d g,
      )

  pub pump_send_idle : (f : TcpFlow) → may_send_data f.state ≡ false → pump_send env f ≡ f
  unfolding pump_send
  pump_send_idle f h = rw h

  SoundAt-pump_send :
      (s : State) (f : TcpFlow) → f.state ≡ s → SoundAt s f → SoundAt s (pump_send env f)
  SoundAt-pump_send State.closed f e h = tt
  SoundAt-pump_send State.listen f e h = rw (pump_send_idle f (rw e)) h
  SoundAt-pump_send State.syn_sent f e h = rw (pump_send_idle f (rw e)) h
  SoundAt-pump_send State.syn_received f e h = rw (pump_send_idle f (rw e)) h
  SoundAt-pump_send State.established f e h =
      (pump_send-InWindow env f h.0, (pump_send_keeps f).1 ∙ h.1)
  SoundAt-pump_send State.close_wait f e h =
      (pump_send-InWindow env f h.0, (pump_send_keeps f).1 ∙ h.1)
  SoundAt-pump_send State.fin_wait1 f e h = pump_send-InWindow env f h
  SoundAt-pump_send State.fin_wait2 f e h = pump_send-InWindow env f h
  SoundAt-pump_send State.last_ack f e h = pump_send-InWindow env f h
  SoundAt-pump_send State.time_wait f e h = pump_send-InWindow env f h

  pub Inv-pump_send : (f : TcpFlow) → Inv f → Inv (pump_send env f)
  Inv-pump_send f h =
      Inv-SoundAt f.state _ (pump_send_keeps f).0 (SoundAt-pump_send f.state f refl h)

pub advance_snd_una_keeps :
    (ack : ℕ) (f : TcpFlow)
    → ((advance_snd_una ack f).state ≡ f.state)
      × ((advance_snd_una ack f).fin_pending ≡ f.fin_pending)
unfolding advance_snd_una
advance_snd_una_keeps ack f = ground arith

announced_mss-pos : (hi lo : ℕ) → 0 < announced_mss hi lo
unfolding announced_mss be16toh
announced_mss-pos hi lo = ground arith

parse_loop-pos : (opts : List ℕ) (len fuel i mss : ℕ) → 0 < mss → 0 < parse_loop opts len fuel i mss
unfolding parse_loop
parse_loop-pos opts len zero i mss h = h
parse_loop-pos opts len (suc fuel) i mss h =
    let new = announced_mss (get_or opts (i + 2) 0) (get_or opts (i + 3) 0) in
    let opt_len = get_or opts (i + 1) 0 in
    let next = if get_or opts i 0 == 2 && opt_len == 4 then new else mss in
    ground (
      arith,
      announced_mss-pos (get_or opts (i + 2) 0) (get_or opts (i + 3) 0),
      parse_loop-pos opts len fuel (i + 1) mss h,
      parse_loop-pos opts len fuel (i + opt_len) new,
      parse_loop-pos opts len fuel (i + opt_len) mss,
    )

-- The options leave all but the peer's MSS alone, which stays positive.
pub parse_tcp_options-Opening :
    (k : ℕ) (opts : List ℕ) (n : ℕ) (f : TcpFlow)
    → Opening k f
    → Opening k (parse_tcp_options opts n f)
unfolding parse_tcp_options
parse_tcp_options-Opening k opts n f o = record {
  isn_word = ground (arith, o.isn_word);
  at_start = ground (arith, o.at_start);
  used = ground (arith, o.used);
  empty = ground (arith, o.empty);
  window = ground (arith, o.window);
  mss = ground (arith, o.mss, parse_loop-pos opts (n - tcp_size) (n - tcp_size) 0 f.peer_mss o.mss);
  unsent_fin = ground (arith, o.unsent_fin);
  unwanted_fin = ground (arith, o.unwanted_fin);
}

InWindow-mss : (f : TcpFlow) (m : ℕ) → 0 < m → InWindow f → InWindow (record f { peer_mss = m })
InWindow-mss f m h w = record {
  off = w.off;
  una_word = w.una_word;
  next_seq = w.next_seq;
  buffered = w.buffered;
  window = w.window;
  mss = h;
  unsent_fin = w.unsent_fin;
  sent_fin = w.sent_fin;
  wanted_fin = w.wanted_fin;
}

pub parse_tcp_options-InWindow :
    (opts : List ℕ) (n : ℕ) (f : TcpFlow) → InWindow f → InWindow (parse_tcp_options opts n f)
unfolding parse_tcp_options
parse_tcp_options-InWindow opts n f w = elim (Bool-cases (leb n tcp_size)) [
  | inl short ↦ rw short w
  | inr long ↦ rw long (
      InWindow-mss f (parse_loop opts (n - tcp_size) (n - tcp_size) 0 f.peer_mss)
        (parse_loop-pos opts (n - tcp_size) (n - tcp_size) 0 f.peer_mss w.mss) w)
]

pub parse_tcp_options_keeps :
    (opts : List ℕ) (n : ℕ) (f : TcpFlow) → (parse_tcp_options opts n f).fin_pending ≡ f.fin_pending
unfolding parse_tcp_options
parse_tcp_options_keeps opts n f = ground arith
