-- ===== src/Tcp/Send/Pump.antt =====
-- The loop of `PumpSend`: the segments that it sends are the bytes of the buffer from the first
-- unsent one on, in order, within the window of the peer and the segment size.
use mathlib.Core.List.{append_assoc}
use native.Mathlib.Decide.{dec_lt}
use machnet.Base.{
  ℕ, zero, suc, ◌+◌, ◌-◌, ◌<◌, ◌≤◌, ◌^◌, min, ◌≡◌, refl, sym, ap, ◌∙◌, ◌⊎◌, inl, inr, true, false,
  ◌&&◌, List, [], ◌∷◌, ◌++◌, arith, length, take, drop, ltb, add32, sub32, Bool-cases,
}
use machnet.Seq.{seq_lt}
use machnet.Seq.Order.{seq_lt_offsets, sub32_offsets, sub32-add32, add32_assoc}
use machnet.Tcp.Flow.{Env, TcpFlow, Packet, ack_flag}
use machnet.Tcp.Send.{send_segments, snd_buffered_end_seq, send_data_segment}

-- Packets, newest first, that carry the bytes of `buf` at the offsets from `o` up to the index, each
-- at the sequence number of its first byte and with at most `mss` bytes.
pub data Run (mss una : ℕ) (buf : List ℕ) (o : ℕ) : ℕ → List Packet → Type 0 where
  nothing : Run mss una buf o o []
  one_more :
      {m n : ℕ} {ps : List Packet} (p : Packet) (len : ℕ)
      → Run mss una buf o m ps
      → p.seq ≡ add32 una m
      → p.payload ≡ take len (drop m buf)
      → n ≡ m + len
      → 0 < len
      → len ≤ mss
      → Run mss una buf o n (p ∷ ps)

-- `f'` is `f` after the segments of `sent`, up to the offset `upto`: past no edge, and with a packet
-- for every request up to one of the edges.
pub record Pumped (mss : ℕ) (env : Env) (f : TcpFlow) (o : ℕ) (f' : TcpFlow) : Type 0 where
  pub upto : ℕ
  pub sent : List Packet
  pub run : Run mss f.snd_una f.snd_buf o upto sent
  pub logged : f'.tx ≡ sent ++ f.tx
  pub next_seq : f'.snd_nxt ≡ add32 f.snd_una upto
  pub within : (upto ≡ o) ⊎ ((upto ≤ length f.snd_buf) × (upto ≤ f.snd_wnd))
  pub forward : o ≤ upto
  pub drained :
      ((k : ℕ) → env.packet_alloc k ≡ true) → (length f.snd_buf ≤ upto) ⊎ (f.snd_wnd ≤ upto)
  pub same_rest :
      f' ≡ record f { snd_nxt = f'.snd_nxt; tx = f'.tx; packet_allocs = f'.packet_allocs }

Run-trans :
    {mss una : ℕ} {buf : List ℕ} {a b c : ℕ} {ps qs : List Packet}
    → Run mss una buf a b ps
    → Run mss una buf b c qs
    → Run mss una buf a c (qs ++ ps)
Run-trans r nothing = r
Run-trans r (one_more p len s e1 e2 e3 pos small) =
    one_more p len (Run-trans r s) e1 e2 e3 pos small

abbrev pub win_edge : TcpFlow → ℕ
win_edge f = add32 f.snd_una f.snd_wnd

-- The facts about the flow and the offset `o` of its next sequence number that a round needs.
pub record CanPump (f : TcpFlow) (o : ℕ) : Type 0 where
  pub una_word : f.snd_una < 2 ^ 32
  pub next_seq : f.snd_nxt ≡ add32 f.snd_una o
  pub offset : o < 2 ^ 31
  pub buffered : length f.snd_buf < 2 ^ 31
  pub window : f.snd_wnd < 2 ^ 31

module _ (env : Env) (eff_mss : ℕ) (pos : 0 < eff_mss) where
  module _ (f : TcpFlow) (o : ℕ) (c : CanPump f o) where
    data_end-eq : snd_buffered_end_seq f ≡ add32 f.snd_una (length f.snd_buf)
    unfolding snd_buffered_end_seq
    data_end-eq = ap (add32 f.snd_una) (omega (arith, c.buffered))

    goes_on_iff :
        (seq_lt f.snd_nxt (snd_buffered_end_seq f) && seq_lt f.snd_nxt (win_edge f))
        ≡ (ltb o (length f.snd_buf) && ltb o f.snd_wnd)
    goes_on_iff =
        rw (data_end-eq, c.next_seq)
          (rw (
            seq_lt_offsets f.snd_una o (length f.snd_buf) c.una_word c.offset c.buffered,
            seq_lt_offsets f.snd_una o f.snd_wnd c.una_word c.offset c.window,
          ))

    seg_len : ℕ
    seg_len =
        min (min (sub32 (win_edge f) f.snd_nxt) (sub32 (snd_buffered_end_seq f) f.snd_nxt)) eff_mss

    seg_len-eq :
        o < length f.snd_buf
        → o < f.snd_wnd
        → seg_len ≡ min (min (f.snd_wnd - o) (length f.snd_buf - o)) eff_mss
    unfolding seg_len
    seg_len-eq h k =
        rw (data_end-eq, c.next_seq)
          (rw (
            sub32_offsets f.snd_una f.snd_wnd o c.una_word (omega (arith, c.window)) (omega arith),
            sub32_offsets f.snd_una (length f.snd_buf) o c.una_word (omega (arith, c.buffered))
                (omega arith),
          ))

    segment : Packet
    segment = record {
      seq = f.snd_nxt;
      ack = f.rcv_nxt;
      flags = record ack_flag { psh = true };
      window = f.rcv_wnd;
      mss_option = [];
      payload = take seg_len (drop (sub32 f.snd_nxt f.snd_una) f.snd_buf);
    }

    after_segment : TcpFlow
    after_segment = record f {
      snd_nxt = add32 f.snd_nxt seg_len;
      tx = segment ∷ f.tx;
      packet_allocs = f.packet_allocs + 1;
    }

    stays : (length f.snd_buf ≤ o) ⊎ (f.snd_wnd ≤ o) → Pumped eff_mss env f o f
    stays h = record {
      upto = o;
      sent = [];
      run = nothing;
      logged = refl;
      next_seq = c.next_seq;
      within = inl refl;
      forward = omega arith;
      drained = λ _. h;
      same_rest = refl;
    }

    fails :
        env.packet_alloc f.packet_allocs ≡ false
        → Pumped eff_mss env f o (record f { packet_allocs = f.packet_allocs + 1 })
    fails h = record {
      upto = o;
      sent = [];
      run = nothing;
      logged = refl;
      next_seq = c.next_seq;
      within = inl refl;
      forward = omega arith;
      drained = λ all. cc (all f.packet_allocs);
      same_rest = refl;
    }

    module _ (h : o < length f.snd_buf) (k : o < f.snd_wnd) where
      seg_len_bounds :
          (0 < seg_len)
          × (seg_len ≤ eff_mss)
          × (o + seg_len ≤ length f.snd_buf)
          × (o + seg_len ≤ f.snd_wnd)
      seg_len_bounds = omega (arith, seg_len-eq h k)

      after_segment-Run : Run eff_mss f.snd_una f.snd_buf o (o + seg_len) (segment ∷ [])
      unfolding segment
      after_segment-Run =
          one_more segment seg_len nothing c.next_seq
            (rw (c.next_seq, sub32-add32 f.snd_una o c.una_word (omega (arith, c.offset)))) refl
            seg_len_bounds.0 seg_len_bounds.1

      after_segment-CanPump : CanPump after_segment (o + seg_len)
      unfolding after_segment
      after_segment-CanPump = record {
        una_word = c.una_word;
        next_seq = ap (λ n. add32 n seg_len) c.next_seq ∙ add32_assoc f.snd_una o seg_len;
        offset = omega (arith, seg_len_bounds, c.buffered);
        buffered = c.buffered;
        window = c.window;
      }

      goes_on :
          (f' : TcpFlow)
          → Pumped eff_mss env after_segment (o + seg_len) f'
          → Pumped eff_mss env f o f'
      unfolding after_segment
      goes_on f' p = record {
        upto = p.upto;
        sent = p.sent ++ segment ∷ [];
        run = Run-trans after_segment-Run p.run;
        logged = p.logged ∙ sym (append_assoc p.sent (segment ∷ []) f.tx);
        next_seq = p.next_seq;
        within = inr (ground (arith, p.within, seg_len_bounds));
        forward = omega (arith, p.forward);
        drained = p.drained;
        same_rest = p.same_rest;
      }

    sends_one :
        env.packet_alloc f.packet_allocs ≡ true
        → send_data_segment env f.snd_nxt seg_len f
          ≡ (true, record f { tx = segment ∷ f.tx; packet_allocs = f.packet_allocs + 1 })
    unfolding send_data_segment segment
    sends_one h = ground arith

    sends_none :
        env.packet_alloc f.packet_allocs ≡ false
        → send_data_segment env f.snd_nxt seg_len f
          ≡ (false, record f { packet_allocs = f.packet_allocs + 1 })
    unfolding send_data_segment
    sends_none h = ground arith

  -- With a round for every unsent byte of the buffer, the loop ends as `Pumped` says.
  pub send_segments-Pumped :
      (fuel : ℕ) (f : TcpFlow) (o : ℕ)
      → CanPump f o
      → length f.snd_buf ≤ fuel + o
      → Pumped eff_mss env f o
          (send_segments env fuel (snd_buffered_end_seq f) (win_edge f) eff_mss f)
  unfolding send_segments snd_buffered_end_seq seg_len after_segment
  send_segments-Pumped zero f o c enough = stays f o c (inl (omega arith))
  send_segments-Pumped (suc fuel) f o c enough =
      elim (dec_lt o (min (length f.snd_buf) f.snd_wnd)) [
        | no edge ↦
            let e : (seq_lt f.snd_nxt (snd_buffered_end_seq f) && seq_lt f.snd_nxt (win_edge f))
                ≡ false =
              ground (arith, goes_on_iff f o c) in
            rw e (stays f o c (omega arith))
        | yes more ↦
            let e : (seq_lt f.snd_nxt (snd_buffered_end_seq f) && seq_lt f.snd_nxt (win_edge f))
                ≡ true =
              ground (arith, goes_on_iff f o c) in
            let h : o < length f.snd_buf = omega arith in
            let k : o < f.snd_wnd = omega arith in
            let ih =
              send_segments-Pumped fuel (after_segment f o c) (o + seg_len f o c)
                (after_segment-CanPump f o c h k) (omega (arith, seg_len_bounds f o c h k)) in
            elim (Bool-cases (env.packet_alloc f.packet_allocs)) [
              | inl gets ↦ rw (e, sends_one f o c gets) (goes_on f o c h k _ ih)
              | inr fails_to ↦ rw (e, sends_none f o c fails_to) (fails f o c fails_to)
            ]
      ]
