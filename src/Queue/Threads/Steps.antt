-- ===== src/Queue/Threads/Steps.antt =====
-- Every step of every thread of mpmc.rs keeps the invariant, as long as positions fit in a word.
use uni_alloc.Base.{ℕ, suc, ◌+◌, ◌%◌, ◌^◌, ◌≡◌, ◌≤◌, ◌<◌, ◌⊎◌, inl, inr, some, arith, ◌∙◌, ap, refl}
use mathlib.Core.Path.{subst}
use native.Mathlib.Nat.{mod-eq_of_lt}
use uni_alloc.Base.Words.{add64}
use uni_alloc.Queue.{put, new}
use uni_alloc.Queue.Threads.{Pc, Shared, System, Move, Step, pick, init}
use uni_alloc.Queue.Threads.Invariant.{
  AreCells, Local, Inv, writes, reads, Local-Writing, Local-Reading,
}
use uni_alloc.Queue.Threads.Invariant.Frame.{step-Inv, cells_apart}
use uni_alloc.Queue.Threads.Claims.{cell-lt, enqueue_turn, dequeue_turn}
use uni_alloc.Queue.Threads.Cells.{
  claim_enqueue-AreCells, claim_dequeue-AreCells, write_item-AreCells, publish-AreCells,
  release-AreCells,
}

-- A number read from the cell of a position that was taken before is at most one round behind.
recent :
    {T : Type 0} (n : ℕ) (s : Shared T) (turn : ℕ → ℕ) (pos : ℕ)
    → AreCells n s turn
    → 2 ≤ n
    → s.enqueue_pos + n < 2 ^ 64
    → n ≤ 128
    → pos ≤ s.enqueue_pos
    → pos ≤ s.sequence (pos % n) + n
recent n s turn pos cells low small high past =
    let inside = cell-lt n s turn cells low high small pos in
    elim (cells.phase (pos % n) inside) [
      | inl (f, _) ↦ omega (arith, cells.behind (pos % n) inside)
      | inr (f, _, _) ↦ omega (arith, cells.behind (pos % n) inside)
    ]

module _ {T : Type 0} (n : ℕ) (s : System T) (turn : ℕ → ℕ) (inv : Inv n s turn) (low : 2 ≤ n)
    (high : n ≤ 128) (small : s.enqueue_pos + n < 2 ^ 64) (i : ℕ) where
  abbrev moved : Shared T → Pc T → System T
  moved m p = record { shared = m; pc = put s.pc i p }

  -- A step that writes nothing and takes no position.
  read_only :
      (p : Pc T)
      → Local n s.shared turn p
      → ((t : ℕ) → writes p ≡ some t → writes (s.pc i) ≡ some t)
      → ((t : ℕ) → reads p ≡ some t → reads (s.pc i) ≡ some t)
      → Inv n (moved s.shared p) turn
  read_only p here w r =
      step-Inv n s turn inv i p s.shared turn inv.cells
        (record {
          enqueue_grown = omega arith;
          dequeue_grown = omega arith;
          sequence_grown = λ c. omega arith;
        })
        (λ j t other a. record {
          turn_same = refl;
          sequence_same = refl;
          item_same = refl;
          entered_same = refl;
        })
        here (λ t a. inl (w t a)) (λ t a. inl (r t a))

  at_pc : {p : Pc T} → s.pc i ≡ p → Local n s.shared turn p
  at_pc e = subst (Local n s.shared turn) e (inv.local i)

  taken_below :
      (j t : ℕ) → (writes (s.pc j) ≡ some t) ⊎ (reads (s.pc j) ≡ some t) → t < s.enqueue_pos
  taken_below j t (inl a) = (Local-Writing n s.shared turn (s.pc j) t a (inv.local j)).taken
  taken_below j t (inr a) =
      let r = Local-Reading n s.shared turn (s.pc j) t a (inv.local j) in
      omega (arith, r.taken, inv.cells.order)

  -- The turns of the cells after the step.
  abbrev turn_after : Pc T → ℕ → ℕ
  turn_after (Pc.deq_release x pos) = put turn (pos % n) (pos + n)
  turn_after Pc.idle = turn
  turn_after (Pc.enq_start x) = turn
  turn_after (Pc.enq_loop x pos) = turn
  turn_after (Pc.enq_seen x pos seq) = turn
  turn_after (Pc.enq_write x t) = turn
  turn_after (Pc.enq_publish t) = turn
  turn_after Pc.deq_start = turn
  turn_after (Pc.deq_loop pos) = turn
  turn_after (Pc.deq_seen pos seq) = turn
  turn_after (Pc.deq_read t) = turn

  Move-Inv :
      {p p' : Pc T} {m : Shared T}
      → Move n s.shared p m p'
      → s.pc i ≡ p
      → Inv n (moved m p') (turn_after p)
  unfolding put
  Move-Inv (Move.call_enqueue x) e = read_only _ tt (λ t a. absurd (cc)) (λ t a. absurd (cc))
  Move-Inv Move.load_enqueue e = read_only _ (omega arith) (λ t a. absurd (cc)) (λ t a. absurd (cc))
  Move-Inv (Move.see_enqueue {pos = pos}) e =
      let past = at_pc e in
      read_only _ (past, omega arith, recent n s.shared turn pos inv.cells low small high past)
        (λ t a. absurd (cc)) (λ t a. absurd (cc))
  Move-Inv (Move.claim_enqueue {x} {pos} {seq} match now) e =
      let (past, read, near) = at_pc e in
      let (here, free) =
        enqueue_turn n s.shared turn inv.cells low high small pos seq read near match now in
      let next : add64 pos 1 ≡ suc pos = omega arith in
      step-Inv n s turn inv i (Pc.enq_write x pos) _ turn
        (claim_enqueue-AreCells n s.shared turn inv.cells low small pos x now here free)
        (record {
          enqueue_grown = omega arith;
          dequeue_grown = omega arith;
          sequence_grown = λ c. omega arith;
        })
        (λ j t other a. record {
          turn_same = refl;
          sequence_same = refl;
          item_same = refl;
          entered_same = ground (arith, taken_below j t a);
        })
        (record { taken = omega arith; turn_at = here; sequence_at = free }, ground arith)
        (λ t a. inr (ground arith)) (λ t a. absurd (cc))
  Move-Inv (Move.retry_enqueue match) e =
      read_only _ (at_pc e).0 (λ t a. absurd (cc)) (λ t a. absurd (cc))
  Move-Inv (Move.full far) e = read_only _ tt (λ t a. absurd (cc)) (λ t a. absurd (cc))
  Move-Inv (Move.reload_enqueue pos near) e =
      read_only _ (omega arith) (λ t a. absurd (cc)) (λ t a. absurd (cc))
  Move-Inv (Move.write_item {x} {pos}) e =
      let (w, known) = at_pc e in
      let mine : writes (s.pc i) ≡ some pos = ap writes e in
      step-Inv n s turn inv i (Pc.enq_publish pos) _ turn
        (write_item-AreCells n s.shared turn inv.cells low small pos x w)
        (record {
          enqueue_grown = omega arith;
          dequeue_grown = omega arith;
          sequence_grown = λ c. omega arith;
        })
        (λ j t other a.
          let apart = cells_apart n s turn inv i j pos t other (inl mine) a in
          record {
            turn_same = refl;
            sequence_same = refl;
            item_same = rw apart refl;
            entered_same = refl;
          })
        (record { taken = w.taken; turn_at = w.turn_at; sequence_at = w.sequence_at }, ground arith)
        (λ t a. inl (mine ∙ a)) (λ t a. absurd (cc))
  Move-Inv (Move.publish {pos}) e =
      let (w, stored) = at_pc e in
      let mine : writes (s.pc i) ≡ some pos = ap writes e in
      let next : add64 pos 1 ≡ suc pos = omega (arith, w.taken) in
      step-Inv n s turn inv i Pc.idle _ turn
        (publish-AreCells n s.shared turn inv.cells low small pos w stored)
        (record {
          enqueue_grown = omega arith;
          dequeue_grown = omega arith;
          sequence_grown = λ c. ground (arith, w.sequence_at);
        })
        (λ j t other a.
          let apart = cells_apart n s turn inv i j pos t other (inl mine) a in
          record {
            turn_same = refl;
            sequence_same = rw apart refl;
            item_same = refl;
            entered_same = refl;
          })
        tt (λ t a. absurd (cc)) (λ t a. absurd (cc))
  Move-Inv Move.call_dequeue e = read_only _ tt (λ t a. absurd (cc)) (λ t a. absurd (cc))
  Move-Inv Move.load_dequeue e = read_only _ (omega arith) (λ t a. absurd (cc)) (λ t a. absurd (cc))
  Move-Inv (Move.see_dequeue {pos = pos}) e =
      let past = at_pc e in
      read_only _
        (
          past,
          omega arith,
          recent n s.shared turn pos inv.cells low small high (omega (arith, inv.cells.order)),
        )
        (λ t a. absurd (cc)) (λ t a. absurd (cc))
  Move-Inv (Move.claim_dequeue {pos} {seq} match now) e =
      let (past, read, near) = at_pc e in
      let (here, filled, less) =
        dequeue_turn n s.shared turn inv.cells low high small pos seq read near match now in
      let next : add64 pos 1 ≡ suc pos = omega arith in
      step-Inv n s turn inv i (Pc.deq_read pos) _ turn
        (claim_dequeue-AreCells n s.shared turn inv.cells low small pos now here filled less)
        (record {
          enqueue_grown = omega arith;
          dequeue_grown = omega arith;
          sequence_grown = λ c. omega arith;
        })
        (λ j t other a. record {
          turn_same = refl;
          sequence_same = refl;
          item_same = refl;
          entered_same = refl;
        })
        (record { taken = omega arith; turn_at = here; sequence_at = filled }) (λ t a. absurd (cc))
        (λ t a. inr (ground arith))
  Move-Inv (Move.retry_dequeue match) e =
      read_only _ (at_pc e).0 (λ t a. absurd (cc)) (λ t a. absurd (cc))
  Move-Inv (Move.nothing far) e = read_only _ tt (λ t a. absurd (cc)) (λ t a. absurd (cc))
  Move-Inv (Move.reload_dequeue pos near) e =
      read_only _ (omega arith) (λ t a. absurd (cc)) (λ t a. absurd (cc))
  Move-Inv (Move.read_item {pos}) e =
      let r = at_pc e in
      let inside = cell-lt n s.shared turn inv.cells low high small pos in
      let there : s.entered pos ≡ s.item (pos % n) = elim (inv.cells.phase (pos % n) inside) [
        | inl (f, _) ↦ absurd (omega (arith, r.turn_at, r.sequence_at))
        | inr (_, _, stored) ↦ ground (arith, r.turn_at)
      ] in
      read_only _ (r, there) (λ t a. absurd (cc)) (λ t a. ap reads e ∙ a)
  Move-Inv (Move.release {x} {pos}) e =
      let (r, known) = at_pc e in
      let mine : reads (s.pc i) ≡ some pos = ap reads e in
      let next : add64 pos n ≡ pos + n = omega (arith, r.taken, inv.cells.order) in
      step-Inv n s turn inv i Pc.idle _ (put turn (pos % n) (pos + n))
        (release-AreCells n s.shared turn inv.cells low small pos r)
        (record {
          enqueue_grown = omega arith;
          dequeue_grown = omega arith;
          sequence_grown = λ c. ground (arith, r.sequence_at);
        })
        (λ j t other a.
          let apart = cells_apart n s turn inv i j pos t other (inr mine) a in
          record {
            turn_same = rw apart refl;
            sequence_same = rw apart refl;
            item_same = refl;
            entered_same = refl;
          })
        tt (λ t a. absurd (cc)) (λ t a. absurd (cc))

module _ {T : Type 0} (n : ℕ) (blank : T) (low : 2 ≤ n) (high : n ≤ 128) where
  pub init-Inv : Inv n (init n blank) (λ c. c)
  unfolding new
  init-Inv = record {
    cells = record {
      order = omega arith;
      place = λ c h. mod-eq_of_lt h;
      phase = λ c h. inl (refl, omega arith);
      ahead = λ c h. omega arith;
      behind = λ c h. omega arith;
    };
    local = λ i. tt;
    one_writer = λ i j t a b. absurd (cc);
    one_reader = λ i j t a b. absurd (cc);
  }

  pub Step-Inv :
      {s t : System T}
      → Step n s t
      → s.enqueue_pos + n < 2 ^ 64
      → (turn : ℕ → ℕ) → Inv n s turn
      → (turn' : ℕ → ℕ) × Inv n t turn'
  Step-Inv {s} (pick i mv) small turn inv = (_, Move-Inv n s turn inv low high small i mv refl)
