-- ===== src/Tcp/Timer.antt =====
-- src/include/tcp_flow.h, `PeriodicCheck`: a peer that stays silent is given up after the last
-- retransmission.
use mathlib.Core.Bool.{true≢false}
use machnet.Base.{
  ℕ, zero, suc, ◌+◌, ◌-◌, ◌*◌, ◌%◌, ◌<◌, ◌≤◌, ◌^◌, ◌≡◌, refl, sym, ◌∙◌, ap, Bool, true, false, ◌&&◌,
  arith, Bool-cases, inl, inr, ◌∷◌, length, ltb, if◌then◌else◌, add32,
}
use machnet.Seq.{seq_lt}
use machnet.Tcp.Flow.{Env, TcpFlow, State, max_retransmissions}
use machnet.Tcp.Send.{
  send_syn, send_syn_ack, send_data_segment, send_segments, send_pending_fin, arm_timer, pump_send,
  snd_buffered_end_seq, effective_mss, retransmit_unacked, send_zero_window_probe,
}
use machnet.Tcp.Send.Rest.{rest_of, rest_of-pump_send, seg_len}
use machnet.Tcp.Connection.{retransmit_data, retransmit, check_timer, check_at, periodic_check}

-- The states whose timer `PeriodicCheck` reads.
abbrev pub timed : State → Bool
timed State.closed = false
timed State.time_wait = false
timed _ = true

-- The ticks that are left before a silent peer is given up, less one.
abbrev pub patience : TcpFlow → ℕ
patience f = (max_retransmissions - f.retransmit_count) * (f.rto_ticks + 1) + f.rto_remaining

active-if :
    (b : Bool) (f g : TcpFlow)
    → f.rto_active ≡ true
    → g.rto_active ≡ true
    → (if b then f else g).rto_active ≡ true
active-if true f g p q = p
active-if false f g p q = q

patience_spent : (c t : ℕ) → c < 10 → (10 - c) * (t + 1) ≡ (10 - (c + 1)) * (t + 1) + (t + 1)
patience_spent c t h = ap (λ k. k * (t + 1)) (less c h) ∙ one_more (10 - (c + 1)) (t + 1)
  where
    less : (c : ℕ) → c < 10 → 10 - c ≡ (10 - (c + 1)) + 1
    less c h = omega arith

    one_more : (k m : ℕ) → (k + 1) * m ≡ k * m + m
    one_more k m = omega arith

module _ (env : Env) where
  abbrev pub ticks : ℕ → TcpFlow → TcpFlow
  ticks zero f = f
  ticks (suc n) f = ticks n (periodic_check env f).1

  send_data_segment-active :
      (seq len : ℕ) (f : TcpFlow)
      → f.rto_active ≡ true
      → (send_data_segment env seq len f).1.rto_active ≡ true
  unfolding send_data_segment
  send_data_segment-active seq len f h = ground arith

  send_segments-active :
      (fuel d w m : ℕ) (f : TcpFlow)
      → f.rto_active ≡ true
      → (send_segments env fuel d w m f).rto_active ≡ true
  unfolding send_segments
  send_segments-active zero d w m f h = h
  send_segments-active (suc fuel) d w m f h =
      let (sent, g) = send_data_segment env f.snd_nxt (seg_len d w m f) f in
      let next = record g { snd_nxt = add32 g.snd_nxt (seg_len d w m f) } in
      let kept = send_data_segment-active f.snd_nxt (seg_len d w m f) f h in
      active-if (seq_lt f.snd_nxt d && seq_lt f.snd_nxt w) _ f
        (active-if sent (send_segments env fuel d w m next) g
          (send_segments-active fuel d w m next kept) kept)
        h

  pump_send-active : (f : TcpFlow) → f.rto_active ≡ true → (pump_send env f).rto_active ≡ true
  unfolding pump_send send_pending_fin arm_timer
  pump_send-active f h =
      let d = snd_buffered_end_seq f in
      let w = add32 f.snd_una f.snd_wnd in
      ground (arith, send_segments-active (length f.snd_buf) d w (effective_mss f) f h)

  retransmit_data-active :
      (f : TcpFlow) → f.rto_active ≡ true → (retransmit_data env f).rto_active ≡ true
  unfolding retransmit_data send_zero_window_probe retransmit_unacked
  retransmit_data-active f h =
      ground (arith, pump_send-active (record f { snd_nxt = f.snd_una; fin_sent = false }) h)

  retransmit-active :
      (s : State) (f : TcpFlow) → f.rto_active ≡ true → (retransmit env s f).rto_active ≡ true
  unfolding retransmit send_syn send_syn_ack
  retransmit-active State.syn_sent f h = ground arith
  retransmit-active State.syn_received f h = ground arith
  retransmit-active State.established f h = retransmit_data-active f h
  retransmit-active State.close_wait f h = retransmit_data-active f h
  retransmit-active State.fin_wait1 f h = retransmit_data-active f h
  retransmit-active State.last_ack f h = retransmit_data-active f h
  retransmit-active State.closed f h = h
  retransmit-active State.listen f h = h
  retransmit-active State.fin_wait2 f h = h
  retransmit-active State.time_wait f h = h

  rest_of-retransmit_data : (f : TcpFlow) → rest_of (retransmit_data env f) ≡ rest_of f
  unfolding retransmit_data send_zero_window_probe retransmit_unacked rest_of
  rest_of-retransmit_data f =
      ground (arith, rest_of-pump_send env (record f { snd_nxt = f.snd_una; fin_sent = false }))

  rest_of-retransmit : (s : State) (f : TcpFlow) → rest_of (retransmit env s f) ≡ rest_of f
  unfolding retransmit send_syn send_syn_ack rest_of
  rest_of-retransmit State.syn_sent f = ground arith
  rest_of-retransmit State.syn_received f = ground arith
  rest_of-retransmit State.established f = rest_of-retransmit_data f
  rest_of-retransmit State.close_wait f = rest_of-retransmit_data f
  rest_of-retransmit State.fin_wait1 f = rest_of-retransmit_data f
  rest_of-retransmit State.last_ack f = rest_of-retransmit_data f
  rest_of-retransmit State.closed f = refl
  rest_of-retransmit State.listen f = refl
  rest_of-retransmit State.fin_wait2 f = refl
  rest_of-retransmit State.time_wait f = refl

  check_at-timed : (s : State) (f : TcpFlow) → timed s ≡ true → check_at env s f ≡ check_timer env f
  unfolding check_at
  check_at-timed State.closed f t = absurd (true≢false (sym t))
  check_at-timed State.time_wait f t = absurd (true≢false (sym t))
  check_at-timed State.listen f t = refl
  check_at-timed State.syn_sent f t = refl
  check_at-timed State.syn_received f t = refl
  check_at-timed State.established f t = refl
  check_at-timed State.close_wait f t = refl
  check_at-timed State.fin_wait1 f t = refl
  check_at-timed State.fin_wait2 f t = refl
  check_at-timed State.last_ack f t = refl

  -- One tick of an armed timer.
  tick_waits :
      (f : TcpFlow) (n : ℕ)
      → f.rto_active ≡ true
      → f.retransmit_count ≤ max_retransmissions
      → patience f ≡ suc n
      → let g = (check_timer env f).1 in
        (patience g ≡ n)
        × (g.state ≡ f.state)
        × (g.rto_active ≡ true)
        × (g.retransmit_count ≤ max_retransmissions)
        × (g.callbacks ≡ f.callbacks)
  unfolding check_timer rest_of
  tick_waits f n a c p =
      let f1 = record f { retransmit_count = (f.retransmit_count + 1) % 2 ^ 32 } in
      let same = rest_of-retransmit f1.state f1 in
      let same_state = ap (λ r. r.state) same in
      let same_count = ap (λ r. r.retransmit_count) same in
      let same_ticks = ap (λ r. r.rto_ticks) same in
      let same_callbacks = ap (λ r. r.callbacks) same in
      let still = retransmit-active f1.state f1 a in
      let spent = patience_spent f.retransmit_count f.rto_ticks in
      elim (Bool-cases (ltb 0 f.rto_remaining)) [
        | inl running ↦ ground (arith, a, c, p, running)
        | inr ended ↦ ground (
          arith, a, c, p, ended, spent, same_state, same_count, same_ticks, same_callbacks, still,
        )
      ]

  tick_ends :
      (f : TcpFlow)
      → f.rto_active ≡ true
      → f.retransmit_count ≤ max_retransmissions
      → patience f ≡ 0
      → let (alive, g) = check_timer env f in
        (alive ≡ false) × (g.state ≡ State.closed) × (g.callbacks ≡ false ∷ f.callbacks)
  unfolding check_timer
  tick_ends f a c p = ground (arith, a, c, p)

  ticks_silent :
      (n : ℕ) (f : TcpFlow)
      → timed f.state ≡ true
      → f.rto_active ≡ true
      → f.retransmit_count ≤ max_retransmissions
      → patience f ≡ n
      → ((ticks (suc n) f).state ≡ State.closed)
        × ((ticks (suc n) f).callbacks ≡ false ∷ f.callbacks)
        × ((k : ℕ) → k ≤ n → (ticks k f).state ≡ f.state)
  unfolding periodic_check
  ticks_silent zero f t a c p =
      let ended = tick_ends f a c p in
      let checked = check_at-timed f.state f t in
      (
        ap (λ r. r.1.state) checked ∙ ended.1,
        ap (λ r. r.1.callbacks) checked ∙ ended.2,
        λ k h. let none : k ≡ 0 = omega (arith, h) in ap (λ i. (ticks i f).state) none,
      )
  ticks_silent (suc n) f t a c p =
      let (left, state, active, count, callbacks) = tick_waits f n a c p in
      let g = (check_timer env f).1 in
      let checked = ap (λ r. r.1) (check_at-timed f.state f t) in
      let rest = ticks_silent n g (ap timed state ∙ t) active count left in
      (
        ap (λ h. (ticks (suc n) h).state) checked ∙ rest.0,
        ap (λ h. (ticks (suc n) h).callbacks) checked ∙ rest.1 ∙ ap (λ l. false ∷ l) callbacks,
        stays g checked state rest.2,
      )
    where
      stays :
          (g : TcpFlow)
          → (periodic_check env f).1 ≡ g
          → g.state ≡ f.state
          → ((k : ℕ) → k ≤ n → (ticks k g).state ≡ g.state)
          → (k : ℕ) → k ≤ suc n
          → (ticks k f).state ≡ f.state
      stays g e state rest zero h = refl
      stays g e state rest (suc k) h =
          ap (λ x. (ticks k x).state) e ∙ rest k (omega (arith, h)) ∙ state

  -- A flow in a state with a timer, whose timer is armed and whose peer stays silent, waits in that
  -- state for the ticks that its retransmissions need, and at the tick after them it is closed and the
  -- application is told. The ticks are those of `patience`: what is left of the current timeout, and a
  -- full timeout for each retransmission up to `max_retransmissions`.
  pub periodic_check_gives_up :
      (f : TcpFlow) (k : ℕ)
      → timed f.state ≡ true
      → f.rto_active ≡ true
      → f.retransmit_count ≤ max_retransmissions
      → k ≤ patience f
      → ((ticks (suc (patience f)) f).state ≡ State.closed)
        × ((ticks (suc (patience f)) f).callbacks ≡ false ∷ f.callbacks)
        × ((ticks k f).state ≡ f.state)
  periodic_check_gives_up f k t a c h =
      let (closed, told, stays) = ticks_silent (patience f) f t a c refl in
      (closed, told, stays k h)
