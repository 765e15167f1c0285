-- ===== src/Queue/Threads/Admission.antt =====
-- What a thread of mpmc.rs that loads a position and then the sequence number of its cell, with no step of
-- another thread between, finds: the cell serves the position, or is behind it.
use uni_alloc.Base.{ℕ, suc, ◌+◌, ◌-◌, ◌%◌, ◌^◌, ◌≡◌, ◌≤◌, ◌<◌, inl, inr, arith, ◌∙◌, ap}
use uni_alloc.Base.Words.{add64}
use uni_alloc.Queue.{distance}
use uni_alloc.Queue.Threads.{System, Reach}
use uni_alloc.Queue.Threads.Calls.{Verdict}
use uni_alloc.Queue.Threads.Claims.{cell-lt, near_turn}
use uni_alloc.Queue.Threads.Safety.{Reach-Inv, Reach-enqueue_pos}

distance_far :
    (seq pos n : ℕ) → 1 ≤ n → n ≤ 128 → pos < 2 ^ 64 → pos ≡ seq + n → 128 ≤ distance seq pos
unfolding distance
distance_far seq pos n low high words e = omega arith

distance_same : (seq pos : ℕ) → pos < 2 ^ 64 → seq ≡ pos → distance seq pos ≡ 0
unfolding distance
distance_same seq pos words e = omega arith

module _ {T : Type 0} (n : ℕ) {blank : T} {k : ℕ} {s : System T} (r : Reach n blank k s)
    (low : 2 ≤ n) (high : n ≤ 128) (small : k + n < 2 ^ 64) where
  pub enqueue-Verdict : Verdict (s.sequence (s.enqueue_pos % n)) s.enqueue_pos
  enqueue-Verdict =
      let (turn, inv) = Reach-Inv n r low high small in
      let cells = inv.cells in
      let bound = Reach-enqueue_pos n r in
      let pos = s.enqueue_pos in
      let c = pos % n in
      let inside = cell-lt n s.shared turn cells low high (omega arith) pos in
      elim (near_turn n (turn c) pos (cells.place c inside)
        (omega (arith, cells.ahead c inside, cells.order)) (omega (arith, cells.behind c inside))) [
          | inl e ↦ elim (cells.phase c inside) [
            | inl (f, _) ↦ inl (f ∙ e, distance_same (s.sequence c) pos (omega arith) (omega arith))
            | inr (_, f, _) ↦ absurd (omega arith)
          ]
          | inr e ↦ elim (cells.phase c inside) [
            | inl (f, _) ↦ inr (
              λ g. absurd (omega arith),
              distance_far (s.sequence c) pos n (omega arith) high (omega arith) (omega arith),
            )
            | inr (f, _, _) ↦ inr (
              λ g. absurd (omega arith),
              distance_far (s.sequence c) pos (n - 1) (omega arith) (omega arith) (omega arith)
                  (omega arith),
            )
          ]
        ]

  pub dequeue-Verdict :
      Verdict (s.sequence (s.dequeue_pos % n)) (add64 s.dequeue_pos 1)
      × (s.sequence (s.dequeue_pos % n) ≡ add64 s.dequeue_pos 1
          → s.item (s.dequeue_pos % n) ≡ s.entered s.dequeue_pos)
  dequeue-Verdict =
      let (turn, inv) = Reach-Inv n r low high small in
      let cells = inv.cells in
      let bound = Reach-enqueue_pos n r in
      let pos = s.dequeue_pos in
      let c = pos % n in
      let inside = cell-lt n s.shared turn cells low high (omega arith) pos in
      let order = cells.order in
      let next : add64 pos 1 ≡ suc pos = omega arith in
      elim (near_turn n (turn c) pos (cells.place c inside) (omega (arith, cells.ahead c inside))
        (omega (arith, cells.behind c inside))) [
          | inl e ↦ elim (cells.phase c inside) [
            | inl (f, _) ↦ (
              inr (
                λ g. absurd (omega arith),
                distance_far (s.sequence c) (add64 pos 1) 1 (omega arith) (omega arith)
                    (omega arith) (omega arith),
              ),
              λ g. absurd (omega arith),
            )
            | inr (f, _, g) ↦ (
              inl (
                omega arith,
                distance_same (s.sequence c) (add64 pos 1) (omega arith) (omega arith),
              ),
              λ _. g ∙ ap s.entered e,
            )
          ]
          | inr e ↦ elim (cells.phase c inside) [
            | inl (f, g) ↦ absurd (omega arith)
            | inr (f, _, _) ↦ (
              inr (
                λ g. absurd (omega arith),
                distance_far (s.sequence c) (add64 pos 1) n (omega arith) high (omega arith)
                    (omega arith),
              ),
              λ g. absurd (omega arith),
            )
          ]
        ]
