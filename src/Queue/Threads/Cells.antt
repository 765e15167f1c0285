-- ===== src/Queue/Threads/Cells.antt =====
-- The cells of the queue of mpmc.rs after each step that writes.
use uni_alloc.Base.{
  ℕ, suc, ◌+◌, ◌%◌, ◌^◌, ◌≡◌, ◌≤◌, ◌<◌, inl, inr, ◌==◌, arith, ◌∙◌, sym, ap, ==→eq, Bool-cases,
}
use native.Mathlib.Nat.{add-mod_right}
use uni_alloc.Base.Words.{add64}
use uni_alloc.Queue.{put}
use uni_alloc.Queue.Threads.{Shared}
use uni_alloc.Queue.Threads.Invariant.{AreCells, Writing, Reading}

module _ {T : Type 0} (n : ℕ) (s : Shared T) (turn : ℕ → ℕ) (cells : AreCells n s turn)
    (low : 2 ≤ n) (small : s.enqueue_pos + n < 2 ^ 64) where
  pub claim_enqueue-AreCells :
      (pos : ℕ) (x : T)
      → s.enqueue_pos ≡ pos
      → turn (pos % n) ≡ pos
      → s.sequence (pos % n) ≡ pos
      → AreCells n
          (record {
            queue = record s.queue { enqueue_pos = add64 pos 1 };
            entered = put s.entered pos x;
          })
          turn
  unfolding put
  claim_enqueue-AreCells pos x now here free =
      let next : add64 pos 1 ≡ suc pos = omega arith in
      rw next (record {
        order = omega (arith, cells.order);
        place = cells.place;
        phase = λ c h. elim (cells.phase c h) [
          | inl waiting ↦ inl waiting
          | inr (f, g, e) ↦ inr (f, omega arith, ground arith)
        ];
        ahead = cells.ahead;
        behind = λ c h.
            let late = cells.behind c h in
            elim (Bool-cases (turn c + n == pos)) [
              | inl e ↦
                  let round = ==→eq (turn c + n) pos e in
                  let same : c ≡ pos % n =
                    sym (cells.place c h)
                    ∙ sym (add-mod_right (turn c) n)
                    ∙ ap (λ t. t % n) round in
                  absurd (omega (arith, ap turn same))
              | inr e ↦ ground arith
            ];
      })

  pub claim_dequeue-AreCells :
      (pos : ℕ)
      → s.dequeue_pos ≡ pos
      → turn (pos % n) ≡ pos
      → s.sequence (pos % n) ≡ suc pos
      → pos < s.enqueue_pos
      → AreCells n (record s { queue = record s.queue { dequeue_pos = add64 pos 1 } }) turn
  claim_dequeue-AreCells pos now here filled less =
      let next : add64 pos 1 ≡ suc pos = omega arith in
      rw next (record {
        order = omega arith;
        place = cells.place;
        phase = λ c h. elim (cells.phase c h) [
          | inl (f, g) ↦ elim (Bool-cases (turn c == pos)) [
            | inl e ↦
                let same : c ≡ pos % n =
                  sym (cells.place c h) ∙ ap (λ t. t % n) (==→eq (turn c) pos e) in
                absurd (omega (arith, ap s.sequence same, ==→eq (turn c) pos e))
            | inr e ↦ inl (f, ground arith)
          ]
          | inr has ↦ inr has
        ];
        ahead = λ c h. omega (arith, cells.ahead c h);
        behind = cells.behind;
      })

  pub write_item-AreCells :
      (pos : ℕ) (x : T)
      → Writing n s turn pos
      → AreCells n (record s { queue = record s.queue { item = put s.item (pos % n) x } }) turn
  unfolding put
  write_item-AreCells pos x w = record {
    order = cells.order;
    place = cells.place;
    phase = λ c h. elim (cells.phase c h) [
      | inl waiting ↦ inl waiting
      | inr (f, g, e) ↦ elim (Bool-cases (c == pos % n)) [
        | inl same ↦
            let at_pos = ==→eq c (pos % n) same in
            absurd (omega (arith, ap s.sequence at_pos, ap turn at_pos, w.turn_at, w.sequence_at))
        | inr other ↦ inr (f, g, rw other e)
      ]
    ];
    ahead = cells.ahead;
    behind = cells.behind;
  }

  pub publish-AreCells :
      (pos : ℕ)
      → Writing n s turn pos
      → s.item (pos % n) ≡ s.entered pos
      → AreCells n
          (record s {
            queue = record s.queue { sequence = put s.sequence (pos % n) (add64 pos 1) };
          })
          turn
  unfolding put
  publish-AreCells pos w stored =
      let next : add64 pos 1 ≡ suc pos = omega (arith, w.taken) in
      record {
        order = cells.order;
        place = cells.place;
        phase = λ c h. elim (Bool-cases (c == pos % n)) [
          | inl same ↦
              let at_pos = ==→eq c (pos % n) same in
              let served : turn c ≡ pos = ap turn at_pos ∙ w.turn_at in
              inr (
                rw (same, served) next,
                omega (arith, w.taken),
                rw served (ap s.item at_pos ∙ stored),
              )
          | inr other ↦ rw other (cells.phase c h)
        ];
        ahead = cells.ahead;
        behind = cells.behind;
      }

  pub release-AreCells :
      (pos : ℕ)
      → Reading n s turn pos
      → AreCells n
          (record s {
            queue = record s.queue { sequence = put s.sequence (pos % n) (add64 pos n) };
          })
          (put turn (pos % n) (pos + n))
  unfolding put
  release-AreCells pos r =
      let next : add64 pos n ≡ pos + n = omega (arith, r.taken, cells.order) in
      let around : (pos + n) % n ≡ pos % n = add-mod_right pos n in
      record {
        order = cells.order;
        place = λ c h. elim (Bool-cases (c == pos % n)) [
          | inl same ↦ rw same (around ∙ sym (==→eq c (pos % n) same))
          | inr other ↦ rw other (cells.place c h)
        ];
        phase = λ c h. elim (Bool-cases (c == pos % n)) [
          | inl same ↦
              let at_pos = ==→eq c (pos % n) same in
              inl (
                rw same next,
                rw same (omega (arith, cells.behind c h, ap turn at_pos, r.turn_at, cells.order)),
              )
          | inr other ↦ rw other (cells.phase c h)
        ];
        ahead = λ c h. elim (Bool-cases (c == pos % n)) [
          | inl same ↦ rw same (omega (arith, r.taken))
          | inr other ↦ rw other (cells.ahead c h)
        ];
        behind = λ c h. elim (Bool-cases (c == pos % n)) [
          | inl same ↦
              let at_pos = ==→eq c (pos % n) same in
              rw same (omega (arith, cells.behind c h, ap turn at_pos, r.turn_at))
          | inr other ↦ rw other (cells.behind c h)
        ];
      }
