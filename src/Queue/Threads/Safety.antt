-- ===== src/Queue/Threads/Safety.antt =====
-- What holds in every reachable state of the queue of mpmc.rs under any number of threads.
use uni_alloc.Base.{
  ℕ, suc, ◌+◌, ◌%◌, ◌^◌, ◌≡◌, ◌≤◌, ◌<◌, ◌⊎◌, inl, inr, some, ◌==◌, arith, refl, Bool-cases,
}
use mathlib.Core.Path.{subst}
use uni_alloc.Queue.{put}
use uni_alloc.Queue.Threads.{Pc, Shared, System, Move, pick, Reach, start, later, init}
use uni_alloc.Queue.Threads.Invariant.{Local, Inv, writes, reads}
use uni_alloc.Queue.Threads.Invariant.Frame.{cells_apart}
use uni_alloc.Queue.Threads.Claims.{cell-lt, near_turn}
use uni_alloc.Queue.Threads.Steps.{init-Inv, Step-Inv}

module _ {T : Type 0} (n : ℕ) where
  Move-enqueue_pos :
      {s m : Shared T} {p p' : Pc T} → Move n s p m p' → m.enqueue_pos ≤ suc s.enqueue_pos
  Move-enqueue_pos (Move.claim_enqueue match now) = omega arith
  Move-enqueue_pos (Move.call_enqueue x) = omega arith
  Move-enqueue_pos Move.load_enqueue = omega arith
  Move-enqueue_pos Move.see_enqueue = omega arith
  Move-enqueue_pos (Move.retry_enqueue match) = omega arith
  Move-enqueue_pos (Move.full far) = omega arith
  Move-enqueue_pos (Move.reload_enqueue pos near) = omega arith
  Move-enqueue_pos Move.write_item = omega arith
  Move-enqueue_pos Move.publish = omega arith
  Move-enqueue_pos Move.call_dequeue = omega arith
  Move-enqueue_pos Move.load_dequeue = omega arith
  Move-enqueue_pos Move.see_dequeue = omega arith
  Move-enqueue_pos (Move.claim_dequeue match now) = omega arith
  Move-enqueue_pos (Move.retry_dequeue match) = omega arith
  Move-enqueue_pos (Move.nothing far) = omega arith
  Move-enqueue_pos (Move.reload_dequeue pos near) = omega arith
  Move-enqueue_pos Move.read_item = omega arith
  Move-enqueue_pos Move.release = omega arith

  -- What entered at a position stays what entered there.
  pub Move-entered :
      {s m : Shared T} {p p' : Pc T}
      → Move n s p m p'
      → (t : ℕ) → t < s.enqueue_pos
      → m.entered t ≡ s.entered t
  unfolding put
  Move-entered (Move.claim_enqueue match now) t h = ground arith
  Move-entered (Move.call_enqueue x) t h = refl
  Move-entered Move.load_enqueue t h = refl
  Move-entered Move.see_enqueue t h = refl
  Move-entered (Move.retry_enqueue match) t h = refl
  Move-entered (Move.full far) t h = refl
  Move-entered (Move.reload_enqueue pos near) t h = refl
  Move-entered Move.write_item t h = refl
  Move-entered Move.publish t h = refl
  Move-entered Move.call_dequeue t h = refl
  Move-entered Move.load_dequeue t h = refl
  Move-entered Move.see_dequeue t h = refl
  Move-entered (Move.claim_dequeue match now) t h = refl
  Move-entered (Move.retry_dequeue match) t h = refl
  Move-entered (Move.nothing far) t h = refl
  Move-entered (Move.reload_dequeue pos near) t h = refl
  Move-entered Move.read_item t h = refl
  Move-entered Move.release t h = refl

  module _ {blank : T} where
    pub Reach-enqueue_pos : {k : ℕ} {s : System T} → Reach n blank k s → s.enqueue_pos ≤ k
    Reach-enqueue_pos start = init_pos
      where
        init_pos : (init n blank).enqueue_pos ≤ 0
        init_pos = unfold uni_alloc.Queue.new in omega arith
    Reach-enqueue_pos (later r (pick i mv)) =
        omega (arith, Reach-enqueue_pos r, Move-enqueue_pos mv)

    pub Reach-Inv :
        {k : ℕ} {s : System T}
        → Reach n blank k s
        → 2 ≤ n
        → n ≤ 128
        → k + n < 2 ^ 64
        → (turn : ℕ → ℕ) × Inv n s turn
    Reach-Inv start low high small = (λ c. c, init-Inv n blank low high)
    Reach-Inv (later r st) low high small =
        let (turn, inv) = Reach-Inv r low high (omega arith) in
        Step-Inv n blank low high st (omega (arith, Reach-enqueue_pos r)) turn inv

  module _ {blank : T} {k : ℕ} {s : System T} (r : Reach n blank k s) (low : 2 ≤ n) (high : n ≤ 128)
      (small : k + n < 2 ^ 64) where
    -- Among fewer than 2^64 - n steps of any threads on a queue of 2 to 128 cells: what a dequeue
    -- returns from its position is the item that entered at the same position, which was taken before,
    -- and no other thread returns an item from that position at that time.
    pub dequeue-entered :
        (i j t : ℕ) (x y : T)
        → s.pc i ≡ Pc.deq_release x t
        → (x ≡ s.entered t)
          × (t < s.dequeue_pos)
          × (s.dequeue_pos ≤ s.enqueue_pos)
          × (s.pc j ≡ Pc.deq_release y t → i ≡ j)
    dequeue-entered i j t x y e =
        let (turn, inv) = Reach-Inv r low high small in
        let (reading, known) = subst (Local n s.shared turn) e (inv.local i) in
        (
          ground arith,
          reading.taken,
          inv.cells.order,
          λ f. inv.one_reader i j t (rw e refl) (rw f refl),
        )

    -- Among fewer than 2^64 - n steps of any threads on a queue of 2 to 128 cells: two threads that have
    -- taken positions of the same cell are one thread, so no cell is written by one thread while another
    -- writes or reads it.
    pub taken_cells-eq :
        (i j t u : ℕ)
        → (writes (s.pc i) ≡ some t) ⊎ (reads (s.pc i) ≡ some t)
        → (writes (s.pc j) ≡ some u) ⊎ (reads (s.pc j) ≡ some u)
        → u % n ≡ t % n
        → i ≡ j
    taken_cells-eq i j t u a b e =
        let (turn, inv) = Reach-Inv r low high small in
        elim (Bool-cases (j == i)) [
          | inl same ↦ ground arith
          | inr other ↦ absurd (ground (arith, cells_apart n s turn inv i j t u other a b))
        ]

    -- Among fewer than 2^64 - n steps of any threads on a queue of 2 to 128 cells, the position of
    -- `dequeue` is at most that of `enqueue`, which is at most the number of cells ahead.
    pub positions_bounds : (s.dequeue_pos ≤ s.enqueue_pos) × (s.enqueue_pos ≤ s.dequeue_pos + n)
    positions_bounds =
        let (turn, inv) = Reach-Inv r low high small in
        let cells = inv.cells in
        let pos = Reach-enqueue_pos r in
        let inside = cell-lt n s.shared turn cells low high (omega arith) s.dequeue_pos in
        let near =
          near_turn n (turn (s.dequeue_pos % n)) s.dequeue_pos (cells.place _ inside)
            (omega (arith, cells.ahead _ inside))
            (omega (arith, cells.behind _ inside, cells.order)) in
        (cells.order, omega (arith, near, cells.behind _ inside))
