-- ===== src/Shm/Receive/Turns.antt =====
-- src/ext/machnet.c: a turn of the loop of machnet_recvmsg.
use mathlib.Core.Path.{subst}
use mathlib.Core.List.{append-nil, append_assoc}
use machnet.Base.{
  ℕ, zero, suc, ◌+◌, ◌-◌, ◌%◌, ◌^◌, ◌≡◌, ◌≤◌, ◌<◌, ◌⊎◌, refl, sym, ap, ◌∙◌, min, Bool, true, false,
  Bool-cases, inl, inr, List, [], ◌∷◌, ◌++◌, length, take, drop, ◌==◌, ==_iff, if◌then◌else◌, arith,
  length-append, length-take, length-drop, add32,
}
use machnet.Shm.{MachnetMsgBuf}
use machnet.Shm.Send.Linked.{head_or}
use machnet.Shm.Send.Chain.{Message}
use machnet.Shm.Receive.{Copy, leave_buffer, copy_bytes, copy_turn}
use machnet.Shm.Receive.Loop.{sum, Copying, Copied, leave_buffer-Left}

Message-prefix :
    (bufs : ℕ → MachnetMsgBuf) (i : ℕ) (ks bytes : List ℕ)
    → Message bufs i ks bytes
    → (more : List ℕ) × (bytes ≡ (bufs i).payload ++ more)
unfolding Message
Message-prefix bufs i [] bytes m = ([], sym m.1 ∙ sym (append-nil (bufs i).payload))
Message-prefix bufs i (k ∷ ks) bytes m = (m.0, m.3)

take_in_front :
    (n ofs k : ℕ) (p q : List ℕ)
    → k ≡ ofs + n
    → k ≤ length p
    → take n (drop ofs p) ++ drop k (p ++ q) ≡ drop ofs (p ++ q)
take_in_front zero zero k p q e le =
    let none_taken : k ≡ 0 = omega arith in ap (λ i. drop i (p ++ q)) none_taken
take_in_front (suc n) zero k [] q e le = absurd (omega arith)
take_in_front (suc n) zero k (x ∷ p) q e le =
    let one_more : k ≡ suc n = omega arith in
    ap (λ i. x ∷ (take n p ++ drop i (x ∷ (p ++ q)))) one_more
    ∙ ap (λ i. x ∷ i) (take_in_front n zero n p q (omega arith) (omega arith))
take_in_front n (suc ofs) k [] q e le = absurd (omega arith)
take_in_front n (suc ofs) k (x ∷ p) q e le =
    let one_more : k ≡ suc (ofs + n) = omega arith in
    ap (λ i. take n (drop ofs p) ++ drop i (x ∷ (p ++ q))) one_more
    ∙ take_in_front n ofs (ofs + n) p q refl (omega arith)

-- Segments whose lengths are 32-bit numbers
abbrev pub AllShort : List ℕ → Type 0
AllShort [] = Unit {0}
AllShort (x ∷ xs) = (x < 2 ^ 32) × AllShort xs

AllShort-if :
    (b : Bool) (xs ys : List ℕ) → AllShort xs → AllShort ys → AllShort (if b then xs else ys)
AllShort-if true xs ys h k = h
AllShort-if false xs ys h k = k

room_32 : (seg_len ofs : ℕ) → seg_len < 2 ^ 32 → (seg_len - ofs) % 2 ^ 32 ≡ seg_len - ofs
room_32 seg_len ofs lt = omega arith

place_32 :
    (seg_len ofs m : ℕ)
    → (seg_len < 2 ^ 32) × (ofs ≤ seg_len)
    → add32 ofs (min (seg_len - ofs) m) ≡ ofs + min (seg_len - ofs) m
unfolding add32
place_32 seg_len ofs m lt = omega (arith, lt)

room_left :
    (iov : List ℕ) (ofs seg_len : ℕ) (rest : List ℕ)
    → iov ≡ seg_len ∷ rest
    → 0 < seg_len
    → (ofs ≡ 0) ⊎ (ofs < head_or iov 0)
    → ofs < seg_len
room_left iov ofs seg_len rest e pos (inl start) = omega arith
room_left iov ofs seg_len rest e pos (inr inside) = omega (arith, ap (λ i. head_or i 0) e)

-- The segment after n more bytes in it.
record Segment (iov : List ℕ) (ofs n : ℕ) (iov' : List ℕ) (ofs' : ℕ) : Type 0 where
  fits : (ofs' ≡ 0) ⊎ (ofs' < head_or iov' 0)
  fewer : length iov' ≤ length iov
  room : sum iov' + ofs + n ≡ sum iov + ofs'

fits_within : (iov : List ℕ) (ofs : ℕ) → (ofs ≡ 0) ⊎ (ofs < head_or iov 0) → ofs ≤ sum iov
fits_within iov ofs (inl start) = omega arith
fits_within [] ofs (inr inside) = absurd (omega arith)
fits_within (x ∷ iov) ofs (inr inside) = omega arith

next_Segment :
    (iov : List ℕ) (ofs n seg_len : ℕ) (rest : List ℕ)
    → iov ≡ seg_len ∷ rest
    → ofs + n ≤ seg_len
    → Segment iov ofs n
        (if ofs + n == seg_len then rest else iov)
        (if ofs + n == seg_len then 0 else ofs + n)
next_Segment iov ofs n seg_len rest e le = by_test (ofs + n == seg_len) refl
  where
    by_test :
        (b : Bool)
        → (ofs + n == seg_len) ≡ b
        → Segment iov ofs n (if b then rest else iov) (if b then 0 else ofs + n)
    by_test true t =
        let full : ofs + n ≡ seg_len = (==_iff (ofs + n) seg_len).0 t in
        record {
          fits = inl refl;
          fewer = omega (arith, ap length e);
          room = omega (arith, ap sum e);
        }
    by_test false t =
        let below : ofs + n < seg_len = ground (arith, t, le) in
        record {
          fits = inr (omega (arith, ap (λ i. head_or i 0) e));
          fewer = omega arith;
          room = omega arith;
        }

-- The state after a copy of n bytes, in the same buffer.
abbrev after_copy : ℕ → List ℕ → Copy → ℕ → Copy
after_copy seg_len rest c n = record c {
  buf_data_ofs = c.buf_data_ofs + n;
  copied = c.copied ++ take n (drop c.buf_data_ofs (c.ctx.bufs c.buffer_index).payload);
  iov = if c.seg_data_ofs + n == seg_len then rest else c.iov;
  seg_data_ofs = if c.seg_data_ofs + n == seg_len then 0 else c.seg_data_ofs + n;
}

abbrev copied_number : ℕ → Copy → ℕ
copied_number seg_len c =
    min (seg_len - c.seg_data_ofs) (length (c.ctx.bufs c.buffer_index).payload - c.buf_data_ofs)

left_call :
    (c : Copy) (seg_len : ℕ) (rest : List ℕ)
    → (seg_len < 2 ^ 32) × (c.seg_data_ofs ≤ seg_len)
    → (c.buf_data_ofs + copied_number seg_len c == length (c.ctx.bufs c.buffer_index).payload)
      ≡ true
    → copy_bytes seg_len rest c ≡ leave_buffer (after_copy seg_len rest c (copied_number seg_len c))
left_call c seg_len rest short end =
    let left = room_32 seg_len c.seg_data_ofs short.0 in
    let at =
      place_32 seg_len c.seg_data_ofs (length (c.ctx.bufs c.buffer_index).payload - c.buf_data_ofs)
        short in
    unfold copy_bytes in rw (left, at, end)

stay_call :
    (c : Copy) (seg_len : ℕ) (rest : List ℕ)
    → (seg_len < 2 ^ 32) × (c.seg_data_ofs ≤ seg_len)
    → (c.buf_data_ofs + copied_number seg_len c == length (c.ctx.bufs c.buffer_index).payload)
      ≡ false
    → copy_bytes seg_len rest c ≡ after_copy seg_len rest c (copied_number seg_len c)
stay_call c seg_len rest short inner =
    let left = room_32 seg_len c.seg_data_ofs short.0 in
    let at =
      place_32 seg_len c.seg_data_ofs (length (c.ctx.bufs c.buffer_index).payload - c.buf_data_ofs)
        short in
    unfold copy_bytes in rw (left, at, inner)

module _ (all : ℕ → ℕ) (total : ℕ) (held : List ℕ) where
  -- After a turn either more is to copy or all has been; the bytes copied and those to copy are the
  -- same, fewer turns are left, and what the segments can take has shrunk by what was copied.
  pub record Next (c : Copy) (todo : List ℕ) (c' : Copy) : Type 0 where
    pub later : List ℕ
    pub state : Copying all total held c' later ⊎ (Copied all total held c' × (later ≡ []))
    pub bytes : c'.copied ++ later ≡ c.copied ++ todo
    pub shorter : length later + length c'.iov < length todo + length c.iov
    pub room :
        sum c'.iov + c.seg_data_ofs + length todo ≡ sum c.iov + c'.seg_data_ofs + length later
    pub within : c'.seg_data_ofs ≤ sum c'.iov
    pub short : AllShort c'.iov

  bytes-Next :
      (c : Copy) (todo : List ℕ) (seg_len : ℕ) (rest : List ℕ)
      → Copying all total held c todo
      → c.iov ≡ seg_len ∷ rest
      → 0 < seg_len
      → (seg_len < 2 ^ 32) × AllShort rest
      → Next c todo (copy_bytes seg_len rest c)
  bytes-Next c todo seg_len rest a e pos short =
      let b = c.ctx.bufs c.buffer_index in
      let size = length b.payload in
      let n = min (seg_len - c.seg_data_ofs) (size - c.buf_data_ofs) in
      let ofs = c.buf_data_ofs + n in
      let seg = c.seg_data_ofs + n in
      let taken = take n (drop c.buf_data_ofs b.payload) in
      let after : Copy = record c {
        buf_data_ofs = ofs;
        copied = c.copied ++ taken;
        iov = if seg == seg_len then rest else c.iov;
        seg_data_ofs = if seg == seg_len then 0 else seg;
      } in
      let later = drop ofs a.bytes in
      let left_in = room_left c.iov c.seg_data_ofs seg_len rest e pos a.segment in
      let le : ofs ≤ size = omega (arith, a.inside) in
      let some_bytes : 0 < n = omega (arith, a.inside, left_in) in
      let (more, whole) = Message-prefix c.ctx.bufs c.buffer_index a.ks a.bytes a.chain in
      let both : taken ++ later ≡ todo =
        ap (λ x. taken ++ drop ofs x) whole
        ∙ take_in_front n c.buf_data_ofs ofs b.payload more refl le
        ∙ ap (drop c.buf_data_ofs) (sym whole)
        ∙ sym a.left in
      let count : length taken ≡ n = omega (
        arith,
        length-take n (drop c.buf_data_ofs b.payload),
        length-drop c.buf_data_ofs b.payload,
      ) in
      let parts : length todo ≡ n + length later =
        omega (arith, ap length both, length-append taken later, count) in
      let s = next_Segment c.iov c.seg_data_ofs n seg_len rest e (omega (arith, left_in)) in
      let narrow : AllShort after.iov =
        AllShort-if (seg == seg_len) rest c.iov short.1 (subst AllShort (sym e) short) in
      let bytes = append_assoc c.copied taken later ∙ ap (λ x. c.copied ++ x) both in
      elim (Bool-cases (ofs == size)) [
        | inl end ↦
            let l =
              leave_buffer-Left all total held after a.ks a.bytes a.chain a.accounts a.batch s.fits
                ((==_iff ofs size).0 end) in
            subst (Next c todo)
              (sym (left_call c seg_len rest (short.0, omega (arith, left_in)) end))
              (record {
                later = later;
                state = l.state;
                bytes = ap (λ x. x ++ later) l.copied ∙ bytes;
                shorter = omega (arith, ap length l.iov, s.fewer, parts, some_bytes);
                room = omega (arith, ap sum l.iov, l.seg, s.room, parts);
                within =
                    omega
                      (arith, ap sum l.iov, l.seg, fits_within after.iov after.seg_data_ofs s.fits);
                short = subst AllShort (sym l.iov) narrow;
              })
        | inr inner ↦
            subst (Next c todo)
              (sym (stay_call c seg_len rest (short.0, omega (arith, left_in)) inner))
              (record {
                later = later;
                state = inl (record {
                  ks = a.ks;
                  bytes = a.bytes;
                  chain = a.chain;
                  left = refl;
                  inside = below ofs size le inner;
                  accounts = a.accounts;
                  batch = a.batch;
                  segment = s.fits;
                });
                bytes = bytes;
                shorter = omega (arith, s.fewer, parts, some_bytes);
                room = omega (arith, s.room, parts);
                within = fits_within after.iov after.seg_data_ofs s.fits;
                short = narrow;
              })
      ]
    where
      below : (n m : ℕ) → n ≤ m → (n == m) ≡ false → n < m
      below n m le e = ground arith

  pub turn-Next :
      (c : Copy) (todo : List ℕ) (seg_len : ℕ) (rest : List ℕ)
      → Copying all total held c todo
      → c.iov ≡ seg_len ∷ rest
      → (seg_len < 2 ^ 32) × AllShort rest
      → Next c todo (copy_turn seg_len rest c)
  unfolding copy_turn
  turn-Next c todo seg_len rest a e short = elim (Bool-cases (seg_len == 0)) [
    | inl empty ↦
        let no_room : seg_len ≡ 0 = (==_iff seg_len 0).0 empty in
        let start : c.seg_data_ofs ≡ 0 = at_start no_room a.segment in
        rw empty (record {
          later = todo;
          state = inl (record {
            ks = a.ks;
            bytes = a.bytes;
            chain = a.chain;
            left = a.left;
            inside = a.inside;
            accounts = a.accounts;
            batch = a.batch;
            segment = inl start;
          });
          bytes = refl;
          shorter = omega (arith, ap length e);
          room = omega (arith, ap sum e);
          within = omega arith;
          short = short.1;
        })
    | inr some_room ↦
        let pos : 0 < seg_len = ground (arith, some_room) in
        rw some_room (bytes-Next c todo seg_len rest a e pos short)
  ]
    where
      at_start :
          seg_len ≡ 0
          → (c.seg_data_ofs ≡ 0) ⊎ (c.seg_data_ofs < head_or c.iov 0)
          → c.seg_data_ofs ≡ 0
      at_start z (inl start) = start
      at_start z (inr inside) = absurd (omega (arith, ap (λ i. head_or i 0) e))
