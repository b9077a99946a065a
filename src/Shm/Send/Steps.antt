-- ===== src/Shm/Send/Steps.antt =====
-- src/ext/machnet.c: a turn of the gathering loop of machnet_sendmsg.
use mathlib.Core.Path.{subst}
use machnet.Base.{
  ℕ, suc, ◌+◌, ◌-◌, ◌*◌, ◌^◌, ◌≡◌, ◌≤◌, ◌<◌, refl, sym, ap, ◌∙◌, min, not, Bool, true, false, ◌&&◌,
  Bool-cases, inl, inr, some, List, [], ◌∷◌, ◌++◌, length, take, drop, get_elem?, ltb, ◌==◌, ==_iff,
  if◌then◌else◌, arith, length-append, length-take, length-drop,
}
use machnet.Shm.{MachnetMsgBuf, msgbuf_magic, buf_init, buf_tailroom, buf_append}
use machnet.Shm.Cached.{List-cases}
use machnet.Shm.Accounts.{occurrences}
use machnet.Shm.Send.{
  Gather, set_buf, is_nil, link_next, next_buffer, appended, on_buffer, gather_step,
}
use machnet.Shm.Send.Linked.{length-Linked, Filled, Gathered}
use machnet.Shm.Send.Turns.{Turn, tailroom_lem, get_elem?-here, is_nil_iff, stay_Turn, advance_Turn}

module _ (mss : ℕ) (table : List ℕ) (lt : mss < 2 ^ 31) (pos : 0 < mss)
    (once : (i : ℕ) → occurrences i table ≤ 1) where
  next_Turn :
      (seg : List ℕ) (g : Gather) (done : List ℕ) (b : MachnetMsgBuf) (n : ℕ)
      (a : Gathered mss table g done)
      → Filled mss (a.here ++ take n seg) b
      → b.sg ≡ true
      → n ≡ min (length seg) (mss - length a.here)
      → length done + length seg ≤ length table * mss
      → Turn mss table seg g done (next_buffer table (drop n seg) a.i b n g)
  next_Turn seg g done b n a f sg least room =
      let here' = a.here ++ take n seg in
      let count : length (take n seg) ≡ n = omega (arith, length-take n seg, least) in
      let long : length here' ≡ length a.here + n =
        omega (arith, length-append a.here (take n seg), count) in
      let tail : buf_tailroom b ≡ mss - (length a.here + n) =
        tailroom_lem mss here' b lt (omega (arith, long, a.small, least)) f
        ∙ ap (λ k. mss - k) long in
      let rest = is_nil_iff (drop n seg) in
      elim (Bool-cases (buf_tailroom b == 0 && not (is_nil (drop n seg)))) [
        | inl on ↦
            let (none_left, some_left) =
              on_lem (buf_tailroom b) (length (drop n seg)) (is_nil (drop n seg)) rest on in
            let full : n ≡ mss - length a.here = omega (arith, tail, none_left, least, a.small) in
            elim (List-cases a.after) [
              | inl no_more ↦ absurd (
                  out_of_room seg g done n a no_more full
                    (omega (arith, some_left, length-drop n seg)) room)
              | inr (j, later, e) ↦
                  subst (Turn mss table seg g done) (sym (on_call seg g b n a.i on))
                    (advance_Turn mss table lt pos once seg g done b n j later a f sg least full e)
            ]
        | inr off ↦ subst (Turn mss table seg g done) (sym (off_call seg g b n a.i off)) (
            stay_Turn mss table lt pos once seg g done b n a f sg least (λ some_left.
              off_lem (buf_tailroom b) (length (drop n seg)) (is_nil (drop n seg)) mss
                (length a.here) n rest off some_left tail))
      ]
    where
      on_lem : (t k : ℕ) (z : Bool) → z ≡ (k == 0) → (t == 0 && not z) ≡ true → (t ≡ 0) × (0 < k)
      on_lem t k z e on = ground arith

      off_lem :
          (t k : ℕ) (z : Bool) (m h n : ℕ)
          → z ≡ (k == 0)
          → (t == 0 && not z) ≡ false
          → 0 < k
          → t ≡ m - (h + n)
          → n < m - h
      off_lem t k z m h n e off some_left e' = ground arith

      out_of_room :
          (seg : List ℕ) (g : Gather) (done : List ℕ) (n : ℕ) (a : Gathered mss table g done)
          → a.after ≡ []
          → n ≡ mss - length a.here
          → n < length seg
          → length done + length seg ≤ length table * mss
          → ⊥
      out_of_room seg g done n a no_more full lt room =
          let all = ap length a.shape ∙ length-append a.before (a.i ∷ a.after) in
          let last = ap length no_more in
          let far = ap (λ k. k * mss) (all ∙ ap (λ k. length a.before + suc k) last) in
          let so_far = ap length a.bytes ∙ length-append a.full a.here in
          omega (arith, far, so_far, length-Linked g.bufs mss a.before a.i a.full a.linked, a.small)

      on_call :
          (seg : List ℕ) (g : Gather) (b : MachnetMsgBuf) (n i : ℕ)
          → (buf_tailroom b == 0 && not (is_nil (drop n seg))) ≡ true
          → next_buffer table (drop n seg) i b n g
            ≡ link_next (get_elem? table (suc g.buffer_cur_index)) (drop n seg) i b n g
      on_call seg g b n i on = unfold next_buffer in rw on

      off_call :
          (seg : List ℕ) (g : Gather) (b : MachnetMsgBuf) (n i : ℕ)
          → (buf_tailroom b == 0 && not (is_nil (drop n seg))) ≡ false
          → next_buffer table (drop n seg) i b n g
            ≡ some (
              drop n seg,
              record {
                bufs = set_buf g.bufs i b;
                buffer_cur_index = g.buffer_cur_index;
                new_buffer = false;
                total_bytes_copied = g.total_bytes_copied + n;
              },
            )
      off_call seg g b n i off = unfold next_buffer in rw off

  current :
      (g : Gather) (done : List ℕ) (a : Gathered mss table g done)
      → Filled mss a.here (if g.new_buffer then buf_init (g.bufs a.i) else g.bufs a.i)
  current g done a = elim (Bool-cases g.new_buffer) [
    | inl new ↦
        unfold buf_init in
        rw new (record {
          magic = a.headers.magic a.i;
          size = a.headers.size a.i;
          ofs = refl;
          payload = sym (a.fresh new);
        })
    | inr old ↦ rw old ((a.filled old).0)
  ]

  append_call :
      (b : MachnetMsgBuf) (xs : List ℕ)
      → length xs ≤ buf_tailroom b
      → buf_append b xs ≡ some (record b { payload = b.payload ++ xs })
  append_call b xs le = unfold buf_append in rw (fits (buf_tailroom b) (length xs) le)
    where
      fits : (t n : ℕ) → n ≤ t → ltb t n ≡ false
      fits t n le = ground arith

  buffer_call :
      (seg : List ℕ) (g : Gather) (i : ℕ) (b b' : MachnetMsgBuf) (n : ℕ)
      → (if g.new_buffer then buf_init (g.bufs i) else g.bufs i) ≡ b
      → (b.magic == msgbuf_magic) ≡ true
      → n ≡ min (length seg) (buf_tailroom b)
      → buf_append b (take n seg) ≡ some b'
      → on_buffer (some i) table seg g
        ≡ next_buffer table (drop n seg) i (record b' { sg = true }) n g
  buffer_call seg g i b b' n now magic least app =
      unfold on_buffer appended in rw (now, sym least, app, magic)

  pub step_Turn :
      (seg : List ℕ) (g : Gather) (done : List ℕ)
      → Gathered mss table g done
      → length done + length seg ≤ length table * mss
      → Turn mss table seg g done (gather_step table seg g)
  step_Turn seg g done a room =
      let b = if g.new_buffer then buf_init (g.bufs a.i) else g.bufs a.i in
      let f : Filled mss a.here b = current g done a in
      let tail : buf_tailroom b ≡ mss - length a.here = tailroom_lem mss a.here b lt a.small f in
      let n = min (length seg) (buf_tailroom b) in
      let b' = record b { payload = b.payload ++ take n seg } in
      let app = append_call b (take n seg) (omega (arith, length-take n seg)) in
      let found : get_elem? table g.buffer_cur_index ≡ some a.i =
        ap (get_elem? table) a.cur
        ∙ ap (λ t. get_elem? t (length a.before)) a.shape
        ∙ get_elem?-here a.before a.i a.after in
      let call : gather_step table seg g
          ≡ next_buffer table (drop n seg) a.i (record b' { sg = true }) n g =
        unfold gather_step in
        (ap (λ o. on_buffer o table seg g) found
          ∙ buffer_call seg g a.i b b' n refl ((==_iff b.magic msgbuf_magic).1 f.magic) refl app) in
      let f' : Filled mss (a.here ++ take n seg) (record b' { sg = true }) = record {
        magic = f.magic;
        size = f.size;
        ofs = f.ofs;
        payload = ap (λ x. x ++ take n seg) f.payload;
      } in
      subst (Turn mss table seg g done) (sym call)
        (next_Turn seg g done (record b' { sg = true }) n a f' refl (omega (arith, tail)) room)
