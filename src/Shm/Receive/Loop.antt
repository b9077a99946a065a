-- ===== src/Shm/Receive/Loop.antt =====
-- src/ext/machnet.c: the loop of machnet_recvmsg over the buffers of a message.
use mathlib.Core.Path.{subst}
use mathlib.Core.List.{append_assoc}
use machnet.Base.{
  ℕ, zero, suc, ◌+◌, ◌≡◌, ◌≤◌, ◌<◌, ◌⊎◌, refl, sym, ap, ◌∙◌, Bool, true, false, Bool-cases, inl,
  inr, List, [], ◌∷◌, ◌++◌, length, drop, ◌==◌, if◌then◌else◌, arith, length-append,
}
use machnet.Shm.Cache.{machnet_buffers_release}
use machnet.Shm.Accounts.{Accounts}
use machnet.Shm.Release.{machnet_buffers_release-Accounts, machnet_buffers_release-bufs}
use machnet.Shm.Send.Linked.{head_or}
use machnet.Shm.Send.Chain.{Message, Message-nonempty}
use machnet.Shm.Receive.{Copy, release_batch, leave_buffer}

abbrev pub sum : List ℕ → ℕ
sum [] = 0
sum (x ∷ xs) = x + sum xs

module _ (all : ℕ → ℕ) (total : ℕ) (held : List ℕ) where
  -- The state before a turn: the rest of a buffer and the buffers behind it are still to copy.
  pub record Copying (c : Copy) (todo : List ℕ) : Type 0 where
    pub ks : List ℕ
    pub bytes : List ℕ
    pub chain : Message c.ctx.bufs c.buffer_index ks bytes
    pub left : todo ≡ drop c.buf_data_ofs bytes
    pub inside : c.buf_data_ofs < length (c.ctx.bufs c.buffer_index).payload
    pub accounts : Accounts all total c.ctx (c.used ++ (c.buffer_index ∷ ks ++ held))
    pub batch : length c.used < 16
    pub segment : (c.seg_data_ofs ≡ 0) ⊎ (c.seg_data_ofs < head_or c.iov 0)

  -- All is copied, and the last buffers wait for their release.
  pub record Copied (c : Copy) : Type 0 where
    pub ended : length (c.ctx.bufs c.buffer_index).payload ≤ c.buf_data_ofs
    pub accounts : Accounts all total c.ctx (c.used ++ held)

  release_batch-Copied : (c : Copy) → Copied c → Copied (release_batch c)
  unfolding release_batch
  release_batch-Copied c d = batch-if (length c.used == 16) c d
    where
      batch-if :
          (b : Bool) (c : Copy)
          → Copied c
          → Copied
              (if b then record c { ctx = machnet_buffers_release c.ctx c.used; used = [] } else c)
      batch-if true c d = record {
        ended =
            subst (λ f. length (f c.buffer_index).payload ≤ c.buf_data_ofs)
              (sym (machnet_buffers_release-bufs c.ctx c.used)) d.ended;
        accounts = machnet_buffers_release-Accounts all total c.used held c.ctx d.accounts;
      }
      batch-if false c d = d

  -- A buffer ready to be copied from its start, with at most a full batch before it.
  release_batch-Copying :
      (c : Copy) (ks bytes : List ℕ)
      → Message c.ctx.bufs c.buffer_index ks bytes
      → c.buf_data_ofs ≡ 0
      → Accounts all total c.ctx (c.used ++ (c.buffer_index ∷ ks ++ held))
      → length c.used ≤ 16
      → (c.seg_data_ofs ≡ 0) ⊎ (c.seg_data_ofs < head_or c.iov 0)
      → Copying (release_batch c) bytes
  unfolding release_batch
  release_batch-Copying c ks bytes m start a le seg = elim (Bool-cases (length c.used == 16)) [
    | inl full ↦
        let e = machnet_buffers_release-bufs c.ctx c.used in
        rw full (record {
          ks = ks;
          bytes = bytes;
          chain = subst (λ f. Message f c.buffer_index ks bytes) (sym e) m;
          left = ap (λ n. drop n bytes) (sym start);
          inside =
              subst (λ f. c.buf_data_ofs < length (f c.buffer_index).payload) (sym e)
                (omega (arith, start, Message-nonempty c.ctx.bufs c.buffer_index ks bytes m));
          accounts =
              machnet_buffers_release-Accounts all total c.used (c.buffer_index ∷ ks ++ held) c.ctx
                a;
          batch = omega arith;
          segment = seg;
        })
    | inr room ↦ rw room (record {
      ks = ks;
      bytes = bytes;
      chain = m;
      left = ap (λ n. drop n bytes) (sym start);
      inside = omega (arith, start, Message-nonempty c.ctx.bufs c.buffer_index ks bytes m);
      accounts = a;
      batch = below (length c.used) le room;
      segment = seg;
    })
  ]
    where
      below : (n : ℕ) → n ≤ 16 → (n == 16) ≡ false → n < 16
      below n le e = ground arith

  -- Where a full copy of a buffer leads.
  pub record Left (c c' : Copy) (todo : List ℕ) : Type 0 where
    pub state : Copying c' todo ⊎ (Copied c' × (todo ≡ []))
    pub copied : c'.copied ≡ c.copied
    pub iov : c'.iov ≡ c.iov
    pub seg : c'.seg_data_ofs ≡ c.seg_data_ofs

  batch_keeps :
      (c : Copy)
      → ((release_batch c).copied ≡ c.copied)
        × ((release_batch c).iov ≡ c.iov)
        × ((release_batch c).seg_data_ofs ≡ c.seg_data_ofs)
  unfolding release_batch
  batch_keeps c = elim (Bool-cases (length c.used == 16)) [
    | inl full ↦ rw full (refl, refl, refl)
    | inr room ↦ rw room (refl, refl, refl)
  ]

  pub leave_buffer-Left :
      (c : Copy) (ks bytes : List ℕ)
      → Message c.ctx.bufs c.buffer_index ks bytes
      → Accounts all total c.ctx (c.used ++ (c.buffer_index ∷ ks ++ held))
      → length c.used < 16
      → (c.seg_data_ofs ≡ 0) ⊎ (c.seg_data_ofs < head_or c.iov 0)
      → c.buf_data_ofs ≡ length (c.ctx.bufs c.buffer_index).payload
      → Left c (leave_buffer c) (drop c.buf_data_ofs bytes)
  unfolding leave_buffer Message
  leave_buffer-Left c [] bytes m a lt seg end =
      let marked = record c { used = c.used ++ (c.buffer_index ∷ []) } in
      let kept = batch_keeps marked in
      let done = release_batch-Copied marked (record {
        ended = omega (arith, end);
        accounts =
            subst (Accounts all total c.ctx) (sym (append_assoc c.used (c.buffer_index ∷ []) held))
              a;
      }) in
      rw m.0 (record {
        state = inr (done, drop_all c.buf_data_ofs bytes (omega (arith, end, ap length m.1)));
        copied = kept.0;
        iov = kept.1;
        seg = kept.2;
      })
    where
      drop_all : (n : ℕ) (xs : List ℕ) → length xs ≤ n → drop n xs ≡ []
      drop_all zero [] le = refl
      drop_all zero (x ∷ xs) le = absurd (omega arith)
      drop_all (suc n) [] le = refl
      drop_all (suc n) (x ∷ xs) le = drop_all n xs (omega arith)
  leave_buffer-Left c (k ∷ ks) bytes m a lt seg end =
      let b = c.ctx.bufs c.buffer_index in
      let used = c.used ++ (c.buffer_index ∷ []) in
      let next = record c { used = used; buffer_index = b.next; buf_data_ofs = 0 } in
      let kept = batch_keeps next in
      let counted = append_assoc c.used (c.buffer_index ∷ []) (k ∷ ks ++ held) in
      let a' = subst (Accounts all total c.ctx) (sym counted) a in
      let next' =
        release_batch-Copying next ks (m.0)
          (subst (λ i. Message c.ctx.bufs i ks (m.0)) (sym m.2) m.5) refl
          (subst (λ i. Accounts all total c.ctx (used ++ (i ∷ ks ++ held))) (sym m.2) a')
          (omega (arith, length-append c.used (c.buffer_index ∷ []))) seg in
      let rest : m.0 ≡ drop c.buf_data_ofs bytes =
        sym (drop_append b.payload (m.0))
        ∙ ap (λ n. drop n (b.payload ++ m.0)) (sym end)
        ∙ ap (drop c.buf_data_ofs) (sym m.3) in
      rw m.1 (record {
        state = inl (subst (Copying (release_batch next)) rest next');
        copied = kept.0;
        iov = kept.1;
        seg = kept.2;
      })
    where
      drop_append : (xs ys : List ℕ) → drop (length xs) (xs ++ ys) ≡ ys
      drop_append [] ys = refl
      drop_append (x ∷ xs) ys = drop_append xs ys
