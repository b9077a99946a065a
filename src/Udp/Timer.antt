-- ===== src/Udp/Timer.antt =====
-- src/include/flow.h, `PeriodicCheck` and `RTORetransmit`: a peer that stays silent is given up after
-- the last retransmission.
use machnet.Base.{
  ℕ, zero, suc, ◌+◌, ◌-◌, ◌*◌, ◌%◌, ◌<◌, ◌≤◌, ◌^◌, ◌≡◌, refl, sym, ◌∙◌, ap, Bool, true, false, none,
  some, arith, leb, ltb, Bool-cases, inl, inr, List, [], ◌∷◌, if◌then◌else◌,
}
use machnet.Udp.Pcb.{rexmit_threshold, rto_threshold_in_ticks, rto_advance}
use machnet.Udp.TxTracking.{TxMsgBuf}
use machnet.Udp.Flow.{UdpEnv, UdpFlow, FlowState, send_control, send_data}
use machnet.Udp.Receive.{
  check_flow, is_closed_flow, is_syn_sent, resend, rto_resend, rto_retransmit,
}

-- The ticks that are left before the last retransmission, of a flow whose timer is at `t`.
abbrev pub patience : ℕ → UdpFlow → ℕ
patience t f = (rexmit_threshold - f.pcb.rto_rexmits) * rto_threshold_in_ticks - t

-- What the timer reads, and what it tells the application.
record SameTimer (f g : UdpFlow) : Type 0 where
  pub block : g.pcb ≡ f.pcb
  pub state : g.state ≡ f.state
  pub told : g.callbacks ≡ f.callbacks

SameTimer-if :
    (b : Bool) (f g h : UdpFlow) → SameTimer f g → SameTimer f h → SameTimer f (if b then g else h)
SameTimer-if true f g h s t = s
SameTimer-if false f g h s t = t

module _ (env : UdpEnv) where
  -- After a number of checks.
  abbrev pub ticks : ℕ → UdpFlow → UdpFlow
  ticks zero f = f
  ticks (suc n) f = ticks n (check_flow env f).1

  resend-SameTimer :
      (bs : List TxMsgBuf) (seqno : ℕ) (f : UdpFlow) → SameTimer f (resend env bs seqno f)
  unfolding resend send_data
  resend-SameTimer [] seqno f =
      SameTimer-if (env.packet_alloc f.packet_allocs) f _ _
        (record { block = refl; state = refl; told = refl })
        (record { block = refl; state = refl; told = refl })
  resend-SameTimer (b ∷ bs) seqno f =
      SameTimer-if (env.packet_alloc f.packet_allocs) f _ _
        (SameTimer-if _ f _ _ (record { block = refl; state = refl; told = refl })
          (record { block = refl; state = refl; told = refl }))
        (record { block = refl; state = refl; told = refl })

  rto_resend-SameTimer : (s : FlowState) (f : UdpFlow) → SameTimer f (rto_resend env s f)
  unfolding rto_resend send_control
  rto_resend-SameTimer FlowState.established f =
      resend-SameTimer f.tx_tracking.unacked f.pcb.snd_una f
  rto_resend-SameTimer FlowState.syn_received f =
      SameTimer-if (env.packet_alloc f.packet_allocs) f _ _
        (record { block = refl; state = refl; told = refl })
        (record { block = refl; state = refl; told = refl })
  rto_resend-SameTimer FlowState.syn_sent f =
      SameTimer-if (env.packet_alloc f.packet_allocs) f _ _
        (record { block = refl; state = refl; told = refl })
        (record { block = refl; state = refl; told = refl })
  rto_resend-SameTimer FlowState.closed f = record { block = refl; state = refl; told = refl }

  -- A check of an armed timer before the last retransmission.
  Waits : ℕ → UdpFlow → Type 0
  Waits n f =
      (t : ℕ) × (f.pcb.rto_timer ≡ some t)
      × (t < rto_threshold_in_ticks)
      × (f.pcb.rto_rexmits ≤ rexmit_threshold)
      × (patience t f ≡ n)

  advanced : UdpFlow → UdpFlow
  unfolding rto_advance
  advanced f = record f { pcb = rto_advance f.pcb }

  check_flow-waits :
      (t : ℕ) (f : UdpFlow)
      → is_closed_flow env f.state ≡ false
      → f.pcb.rto_timer ≡ some t
      → f.pcb.rto_rexmits < rexmit_threshold
      → check_flow env f ≡ (
        true,
        (if leb rto_threshold_in_ticks (t + 1)
            then rto_retransmit env (advanced f)
            else advanced f),
      )
  unfolding check_flow rto_advance advanced
  check_flow-waits t f open_state timer few = ground (arith, open_state, timer, few)

  check_flow-ends :
      (t : ℕ) (f : UdpFlow)
      → is_closed_flow env f.state ≡ false
      → f.pcb.rto_timer ≡ some t
      → rexmit_threshold ≤ f.pcb.rto_rexmits
      → ((check_flow env f).0 ≡ false)
        × ((check_flow env f).1.callbacks
            ≡ (if is_syn_sent env f.state then false ∷ f.callbacks else f.callbacks))
  unfolding check_flow rto_advance
  check_flow-ends t f open_state timer many = ground (arith, open_state, timer, many)

  rto_retransmit-Waits :
      (n t : ℕ) (f : UdpFlow)
      → f.pcb.rto_rexmits < rexmit_threshold
      → (rexmit_threshold - f.pcb.rto_rexmits) * rto_threshold_in_ticks
        ≡ suc n + (rto_threshold_in_ticks - 1)
      → Waits n (rto_retransmit env (advanced f))
        × ((rto_retransmit env (advanced f)).state ≡ f.state)
        × ((rto_retransmit env (advanced f)).callbacks ≡ f.callbacks)
  unfolding rto_retransmit rto_advance advanced Waits
  rto_retransmit-Waits n t f few left =
      let s = rto_resend-SameTimer f.state (advanced f) in
      let count = ap (λ p. (p.rto_rexmits + 1) % 2 ^ 16) s.block in
      (
        (0, refl, omega arith, omega (arith, count, few), omega (arith, count, few, left)),
        s.state,
        s.told,
      )

  check_flow-Waits :
      (n : ℕ) (f : UdpFlow)
      → is_closed_flow env f.state ≡ false
      → Waits (suc n) f
      → ((check_flow env f).0 ≡ true)
        × Waits n (check_flow env f).1
        × ((check_flow env f).1.state ≡ f.state)
        × ((check_flow env f).1.callbacks ≡ f.callbacks)
  unfolding advanced rto_advance Waits
  check_flow-Waits n f open_state (t, timer, small, few, left) =
      let more : f.pcb.rto_rexmits < rexmit_threshold = omega (arith, few, left) in
      rw (check_flow-waits t f open_state timer more)
        (elim (Bool-cases (leb rto_threshold_in_ticks (t + 1))) [
          | inl due ↦
              let last : t ≡ 2 = ground (arith, due, small) in
              let resent = rto_retransmit-Waits n t f more (omega (arith, left, last, more)) in
              rw due (refl, resent.0, resent.1, resent.2)
          | inr early ↦
              let next : t + 1 < 3 = ground (arith, early) in
              rw early (
                refl,
                (
                  t + 1,
                  ap (λ o. elim o [ none ↦ some 0 | some t ↦ some (t + 1) ]) timer,
                  next,
                  few,
                  omega (arith, left, next, more),
                ),
                refl,
                refl,
              )
        ])

  ticks_silent :
      (n : ℕ) (f : UdpFlow)
      → is_closed_flow env f.state ≡ false
      → Waits n f
      → ((check_flow env (ticks n f)).0 ≡ false)
        × ((check_flow env (ticks n f)).1.callbacks
            ≡ (if is_syn_sent env f.state then false ∷ f.callbacks else f.callbacks))
        × ((k : ℕ) → k < n → (check_flow env (ticks k f)).0 ≡ true)
  unfolding Waits
  ticks_silent zero f o (t, timer, small, few, left) =
      let ends = check_flow-ends t f o timer (omega (arith, small, left)) in
      (ends.0, ends.1, λ k h. ground (arith, h))
  ticks_silent (suc n) f o w =
      let (alive, waits, state, told) = check_flow-Waits n f o w in
      let rest = ticks_silent n (check_flow env f).1 (ap (is_closed_flow env) state ∙ o) waits in
      (rest.0, rw (state, told) at rest.1, earlier alive rest.2)
    where
      earlier :
          (check_flow env f).0 ≡ true
          → ((k : ℕ) → k < n → (check_flow env (ticks k (check_flow env f).1)).0 ≡ true)
          → (k : ℕ) → k < suc n
          → (check_flow env (ticks k f)).0 ≡ true
      earlier alive later zero h = alive
      earlier alive later (suc k) h = later k (omega (arith, h))

  -- A flow that is not closed and whose peer stays silent, with its timer armed and at most three
  -- retransmissions behind it, is kept by `PeriodicCheck` for the ticks that the retransmissions left
  -- to it need, three for each, and is given up at the tick after them: the engine is told to remove
  -- it, and the application is told where the flow was being opened.
  pub check_flow_gives_up :
      (t k : ℕ) (f : UdpFlow)
      → is_closed_flow env f.state ≡ false
      → f.pcb.rto_timer ≡ some t
      → t < rto_threshold_in_ticks
      → f.pcb.rto_rexmits ≤ rexmit_threshold
      → k ≤ patience t f
      → ((check_flow env (ticks (patience t f) f)).0 ≡ false)
        × ((check_flow env (ticks (patience t f) f)).1.callbacks
            ≡ (if is_syn_sent env f.state then false ∷ f.callbacks else f.callbacks))
        × ((check_flow env (ticks k f)).0 ≡ ltb k (patience t f))
  unfolding Waits
  check_flow_gives_up t k f o timer small few h =
      let (ends, told, kept) = ticks_silent (patience t f) f o (t, timer, small, few, refl) in
      (
        ends,
        told,
        elim (Bool-cases (ltb k (patience t f))) [
          | inl before ↦ kept k (ground (arith, before)) ∙ sym before
          | inr last ↦
              let at_end : patience t f ≡ k = ground (arith, last, h) in
              ap (λ i. (check_flow env (ticks i f)).0) (sym at_end) ∙ ends ∙ sym last
        ],
      )
