-- ===== src/Shm/Receive/Delivery.antt =====
-- src/ext/machnet.c: machnet_recvmsg from the ring to the last release.
use mathlib.Core.Path.{subst}
use mathlib.Core.List.{append-nil, append_assoc}
use machnet.Base.{
  ℕ, zero, suc, ◌+◌, ◌-◌, ◌≡◌, ◌≤◌, ◌<◌, refl, sym, ap, ◌∙◌, true, false, Bool-cases, inl, inr,
  Option, some, List, [], ◌∷◌, ◌++◌, length, take, leb, ◌==◌, if◌then◌else◌, arith, length-append,
  length-drop,
}
use machnet.Ring.{jring_dequeue_burst, do_dequeue_elem, variable, granted}
use machnet.Ring.Fifo.{IsFifo}
use machnet.Ring.Dequeue.{dequeue-Dequeued}
use machnet.Shm.{MachnetMsgBuf, MachnetFlow, ChannelCtx, machnet_ring_dequeue}
use machnet.Shm.Cache.{machnet_buffers_release}
use machnet.Shm.Accounts.{Accounts}
use machnet.Shm.Cached.{List-cases}
use machnet.Shm.Release.{machnet_buffers_release-Accounts, machnet_buffers_release-bufs}
use machnet.Shm.Send.Chain.{Message, Message-nonempty}
use machnet.Shm.Receive.{
  Received, message, failed, Copy, release_batch, copy_turn, release_chain, give_up, with_segment,
  copy_message, start_copy, copy_first, machnet_recvmsg,
}
use machnet.Shm.Receive.Loop.{sum, Copying, Copied}
use machnet.Shm.Receive.Turns.{AllShort, Next, turn-Next}

length-Message :
    (bufs : ℕ → MachnetMsgBuf) (i : ℕ) (ks bytes : List ℕ)
    → Message bufs i ks bytes
    → length (bufs i).payload + length ks ≤ length bytes
unfolding Message
length-Message bufs i [] bytes m = omega (arith, ap length m.1)
length-Message bufs i (k ∷ ks) bytes m = omega (
  arith,
  ap length m.3,
  length-append (bufs i).payload (m.0),
  length-Message bufs k ks (m.0) m.5,
  Message-nonempty bufs k ks (m.0) m.5,
)

module _ (all : ℕ → ℕ) (total : ℕ) (held : List ℕ) where
  -- A chain that is to be released.
  record Rest (c : Copy) (ks : List ℕ) : Type 0 where
    bytes : List ℕ
    chain : Message c.ctx.bufs c.buffer_index ks bytes
    accounts : Accounts all total c.ctx (c.used ++ (c.buffer_index ∷ ks ++ held))
    batch : length c.used < 16

  release_batch-Rest :
      (c : Copy) (ks bytes : List ℕ)
      → Message c.ctx.bufs c.buffer_index ks bytes
      → Accounts all total c.ctx (c.used ++ (c.buffer_index ∷ ks ++ held))
      → length c.used ≤ 16
      → Rest (release_batch c) ks
  unfolding release_batch
  release_batch-Rest c ks bytes m a le = elim (Bool-cases (length c.used == 16)) [
    | inl full ↦
        let e = machnet_buffers_release-bufs c.ctx c.used in
        rw full (record {
          bytes = bytes;
          chain = subst (λ f. Message f c.buffer_index ks bytes) (sym e) m;
          accounts =
              machnet_buffers_release-Accounts all total c.used (c.buffer_index ∷ ks ++ held) c.ctx
                a;
          batch = omega arith;
        })
    | inr room ↦
        rw room
          (record { bytes = bytes; chain = m; accounts = a; batch = below (length c.used) le room })
  ]
    where
      below : (n : ℕ) → n ≤ 16 → (n == 16) ≡ false → n < 16
      below n le e = ground arith

  release_chain-Accounts :
      (n : ℕ) (c : Copy) (ks : List ℕ)
      → length ks < n
      → Rest c ks
      → (after : ChannelCtx) × (release_chain n c ≡ some after) × Accounts all total after held
  unfolding release_chain Message
  release_chain-Accounts zero c ks lt r = absurd (omega arith)
  release_chain-Accounts (suc n) c [] lt r =
      let used = c.used ++ (c.buffer_index ∷ []) in
      let a =
        subst (Accounts all total c.ctx) (sym (append_assoc c.used (c.buffer_index ∷ []) held))
          r.accounts in
      (
        machnet_buffers_release c.ctx used,
        rw (r.chain.0) refl,
        machnet_buffers_release-Accounts all total used held c.ctx a,
      )
  release_chain-Accounts (suc n) c (k ∷ ks) lt r =
      let b = c.ctx.bufs c.buffer_index in
      let used = c.used ++ (c.buffer_index ∷ []) in
      let next = record c { used = used; buffer_index = b.next } in
      let m = r.chain in
      let counted = append_assoc c.used (c.buffer_index ∷ []) (k ∷ ks ++ held) in
      let a = subst (Accounts all total c.ctx) (sym counted) r.accounts in
      let r' =
        release_batch-Rest next ks (m.0) (subst (λ i. Message c.ctx.bufs i ks (m.0)) (sym m.2) m.5)
          (subst (λ i. Accounts all total c.ctx (used ++ (i ∷ ks ++ held))) (sym m.2) a)
          (omega (arith, r.batch, length-append c.used (c.buffer_index ∷ []))) in
      let (after, e, a') = release_chain-Accounts n (release_batch next) ks (omega arith) r' in
      (after, rw (m.1) e, a')

  -- What the rest of the loop returns: the whole message where the segments can take it, and -1
  -- otherwise. In both cases all buffers of the message are released.
  record Ended (c : Copy) (todo : List ℕ) (flow : MachnetFlow)
      (out : Option (Received × ChannelCtx)) : Type 0 where
    after : ChannelCtx
    result :
        out
        ≡ some (
          (if leb (length todo + c.seg_data_ofs) (sum c.iov)
              then message (c.copied ++ todo) flow
              else failed),
          after,
        )
    accounts : Accounts all total after held

  same_test : (t t' s s' x x' : ℕ) → x' + s + t ≡ x + s' + t' → leb (t' + s') x' ≡ leb (t + s) x
  same_test t t' s s' x x' e = ground arith

  Next-Ended :
      (c c' : Copy) (todo : List ℕ) (flow : MachnetFlow) (out : Option (Received × ChannelCtx))
      (x : Next all total held c todo c')
      → Ended c' x.later flow out
      → Ended c todo flow out
  Next-Ended c c' todo flow out x d =
      let same =
        same_test (length todo) (length x.later) c.seg_data_ofs c'.seg_data_ofs (sum c.iov)
          (sum c'.iov) x.room in
      record {
        after = d.after;
        result =
            d.result
            ∙ ap (λ b. some ((if b then message (c'.copied ++ x.later) flow else failed), d.after))
                same
            ∙ ap
                (λ y. some (
                  (if leb (length todo + c.seg_data_ofs) (sum c.iov)
                      then message y flow
                      else failed),
                  d.after,
                ))
                x.bytes;
        accounts = d.accounts;
      }

  Copied-Ended :
      (n : ℕ) (c : Copy) (flow : MachnetFlow)
      → 0 < n
      → Copied all total held c
      → c.seg_data_ofs ≤ sum c.iov
      → Ended c [] flow (copy_message n flow c)
  unfolding copy_message
  Copied-Ended zero c flow pos d le = absurd (omega arith)
  Copied-Ended (suc n) c flow pos d le =
      let ended : leb (length (c.ctx.bufs c.buffer_index).payload) c.buf_data_ofs ≡ true =
        ground (arith, d.ended) in
      let fits : leb (0 + c.seg_data_ofs) (sum c.iov) ≡ true = ground (arith, le) in
      rw ended (record {
        after = machnet_buffers_release c.ctx c.used;
        result =
            ap (λ y. some (message y flow, machnet_buffers_release c.ctx c.used))
              (sym (append-nil c.copied))
            ∙ ap
                (λ b. some (
                  (if b then message (c.copied ++ []) flow else failed),
                  machnet_buffers_release c.ctx c.used,
                ))
                (sym fits);
        accounts = machnet_buffers_release-Accounts all total c.used held c.ctx d.accounts;
      })

  copy_message-Ended :
      (n : ℕ) (c : Copy) (todo : List ℕ) (flow : MachnetFlow)
      → length todo + length c.iov < n
      → Copying all total held c todo
      → AllShort c.iov
      → Ended c todo flow (copy_message n flow c)
  unfolding copy_message with_segment give_up
  copy_message-Ended zero c todo flow lt a short = absurd (omega arith)
  copy_message-Ended (suc n) c todo flow lt a short =
      let more : leb (length (c.ctx.bufs c.buffer_index).payload) c.buf_data_ofs ≡ false =
        ground (arith, a.inside) in
      let chain = length-Message c.ctx.bufs c.buffer_index a.ks a.bytes a.chain in
      let count : length todo ≡ length a.bytes - c.buf_data_ofs =
        ap length a.left ∙ length-drop c.buf_data_ofs a.bytes in
      let out_of_room = give_up (release_chain n c) in
      let next = λ (seg_len : ℕ) (rest : List ℕ). copy_message n flow (copy_turn seg_len rest c) in
      rw more (elim (List-cases c.iov) [
        | inl no_more ↦
            let (after, e, acc) =
              release_chain-Accounts n c a.ks (omega (arith, chain, count, a.inside)) (record {
                bytes = a.bytes;
                chain = a.chain;
                accounts = a.accounts;
                batch = a.batch;
              }) in
            let full : leb (length todo + c.seg_data_ofs) (sum c.iov) ≡ false =
              no_room (length todo) c.seg_data_ofs (sum c.iov)
                (omega (arith, chain, count, a.inside)) (ap sum no_more) in
            subst (λ xs. Ended c todo flow (with_segment xs out_of_room next)) (sym no_more)
              (record {
                after = after;
                result =
                    ap give_up e
                    ∙ ap
                        (λ b. some ((if b then message (c.copied ++ todo) flow else failed), after))
                        (sym full);
                accounts = acc;
              })
        | inr (seg_len, rest, e) ↦
            let x = turn-Next all total held c todo seg_len rest a e (subst AllShort e short) in
            let c' = copy_turn seg_len rest c in
            subst (λ xs. Ended c todo flow (with_segment xs out_of_room next)) (sym e)
              (Next-Ended c c' todo flow (copy_message n flow c') x (elim x.state [
                | inl going ↦
                    copy_message-Ended n c' x.later flow (omega (arith, x.shorter)) going x.short
                | inr (done, nothing) ↦
                    subst (λ t. Ended c' t flow (copy_message n flow c')) (sym nothing)
                      (Copied-Ended n c' flow (omega (arith, chain, count, a.inside)) done x.within)
              ]))
      ])
    where
      no_room : (t s x : ℕ) → 0 < t → x ≡ 0 → leb (t + s) x ≡ false
      no_room t s x some_bytes e = ground arith

  -- Take a ring from Machnet with the index of a message in front, whose chain of buffers holds some
  -- bytes, and segments of any number and of lengths below 2 ^ 32, zero among them. With fuel for each byte
  -- and each segment, machnet_recvmsg ends. Where the segments have room for all the bytes it returns 1 with
  -- exactly these bytes, in order, and the flow of the first buffer; otherwise it returns -1. In both
  -- cases every buffer is counted in the cache, in the pool or with the others, as often as the channel
  -- has it, none is with the caller, and the code does not abort.
  pub machnet_recvmsg_returns :
      (ctx : ChannelCtx) (iov : List ℕ) (fuel i : ℕ) (ks bytes queue : List ℕ)
      → IsFifo ctx.machnet_ring (i ∷ queue)
      → Message ctx.bufs i ks bytes
      → Accounts all total ctx (i ∷ ks ++ held)
      → length bytes + length iov < fuel
      → AllShort iov
      → (after : ChannelCtx) × (machnet_recvmsg fuel iov ctx
          ≡ some (
            (if leb (length bytes) (sum iov) then message bytes (ctx.bufs i).flow else failed),
            after,
          ))
        × Accounts all total after held
  unfolding machnet_recvmsg machnet_ring_dequeue jring_dequeue_burst start_copy copy_first
  machnet_recvmsg_returns ctx iov fuel i ks bytes queue f m a lt short =
      let d = dequeue-Dequeued ctx.machnet_ring (i ∷ queue) 1 variable f in
      let one : granted variable 1 (length (i ∷ queue)) ≡ 1 = ground arith in
      let front : (do_dequeue_elem ctx.machnet_ring 1 variable).0 ≡ i ∷ [] =
        d.objects ∙ ap (λ n. take n (i ∷ queue)) one in
      let after = record ctx { machnet_ring = (do_dequeue_elem ctx.machnet_ring 1 variable).2 } in
      let s =
        copy_message-Ended fuel (start_copy i iov after) bytes (ctx.bufs i).flow lt
          (record {
            ks = ks;
            bytes = bytes;
            chain = m;
            left = refl;
            inside = Message-nonempty ctx.bufs i ks bytes m;
            accounts = record {
              pool = a.pool;
              fifo = a.fifo;
              small = a.small;
              counts = a.counts;
              whole = a.whole;
              room = a.room;
              runs = a.runs;
            };
            batch = omega arith;
            segment = inl refl;
          })
          short in
      let no_ofs : length bytes + 0 ≡ length bytes = omega arith in
      (
        s.after,
        ap (λ is. copy_first fuel iov is after) front
            ∙ s.result
            ∙ ap
                (λ n.
                  some (
                    (if leb n (sum iov) then message bytes (ctx.bufs i).flow else failed),
                    s.after,
                  ))
                no_ofs,
        s.accounts,
      )
