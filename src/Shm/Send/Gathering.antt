-- ===== src/Shm/Send/Gathering.antt =====
-- src/ext/machnet.c: the loop of machnet_sendmsg that gathers the segments of a message in buffers.
use mathlib.Core.Path.{subst}
use mathlib.Core.Option.{bind}
use mathlib.Core.List.{append-nil, append_assoc}
use machnet.Base.{
  ℕ, zero, suc, ◌+◌, ◌*◌, ◌^◌, ◌≡◌, ◌≤◌, ◌<◌, refl, sym, ap, ◌∙◌, Bool, true, false, some, List, [],
  ◌∷◌, ◌++◌, length, if◌then◌else◌, arith, length-append,
}
use machnet.Shm.Accounts.{occurrences}
use machnet.Shm.Send.{Gather, gather_segment, gather_segments}
use machnet.Shm.Send.Linked.{joined, Gathered}
use machnet.Shm.Send.Turns.{weight}
use machnet.Shm.Send.Steps.{step_Turn}

module _ (mss : ℕ) (table : List ℕ) (lt : mss < 2 ^ 31) (pos : 0 < mss)
    (once : (i : ℕ) → occurrences i table ≤ 1) where
  -- The inner loop puts the whole segment behind the bytes before it.
  segment_Gathered :
      (n : ℕ) (seg : List ℕ) (g : Gather) (done : List ℕ)
      → (0 < length seg → length seg + weight g ≤ n)
      → Gathered mss table g done
      → length done + length seg ≤ length table * mss
      → (g' : Gather) × (gather_segment n table seg g ≡ some g')
        × Gathered mss table g' (done ++ seg)
  unfolding gather_segment bind
  segment_Gathered n [] g done le a room =
      (g, refl, subst (Gathered mss table g) (sym (append-nil done)) a)
  segment_Gathered zero (x ∷ seg) g done le a room = absurd (omega arith)
  segment_Gathered (suc n) (x ∷ seg) g done le a room =
      let t = step_Turn mss table lt pos once (x ∷ seg) g done a room in
      let split = ap length t.split ∙ length-append t.taken t.rest in
      let longer = length-append done t.taken in
      let (g', e, a') =
        segment_Gathered n t.rest t.after (done ++ t.taken)
          (λ some_left. omega (arith, t.progress some_left, le (omega arith))) t.gathered
          (omega arith) in
      (
        g',
        ap (λ o. bind o (λ p. gather_segment n table (p.0) (p.1))) t.result ∙ e,
        subst (Gathered mss table g')
            (append_assoc done t.taken t.rest ∙ ap (λ x. done ++ x) (sym t.split)) a',
      )

  pub segments_Gathered :
      (iov : List (List ℕ)) (g : Gather) (done : List ℕ)
      → Gathered mss table g done
      → length done + length (joined iov) ≤ length table * mss
      → (g' : Gather) × (gather_segments table iov g ≡ some g')
        × Gathered mss table g' (done ++ joined iov)
  unfolding gather_segments bind
  segments_Gathered [] g done a room =
      (g, refl, subst (Gathered mss table g) (sym (append-nil done)) a)
  segments_Gathered (seg ∷ iov) g done a room =
      let both = length-append seg (joined iov) in
      let (g1, e1, a1) =
        segment_Gathered (suc (length seg)) seg g done
          (λ some_left. light (length seg) g.new_buffer) a (omega arith) in
      let (g2, e2, a2) =
        segments_Gathered iov g1 (done ++ seg) a1 (omega (arith, length-append done seg)) in
      (
        g2,
        ap (λ o. bind o (λ g'. gather_segments table iov g')) e1 ∙ e2,
        subst (Gathered mss table g2) (append_assoc done seg (joined iov)) a2,
      )
    where
      light : (n : ℕ) (b : Bool) → n + (if b then 0 else 1) ≤ suc n
      light n true = omega arith
      light n false = omega arith
