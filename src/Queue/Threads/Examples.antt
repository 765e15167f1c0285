-- ===== src/Queue/Threads/Examples.antt =====
-- Two threads on a queue of two cells: one enters an item and the other takes it, and two threads that
-- want the same position.
use uni_alloc.Base.{ℕ, suc, ◌+◌, ◌≡◌, ◌≤◌, ◌<◌, ◌⊎◌, ◌*◌, ◌%◌, ◌≢◌, inr, arith, refl}
use uni_alloc.Queue.{distance, put, new}
use uni_alloc.Queue.Threads.{Pc, Shared, System, Move, pick, Reach, start, later, init}
use uni_alloc.Queue.Threads.Safety.{dequeue-entered, taken_cells-eq, positions_bounds}
use uni_alloc.Queue.Threads.Calls.{Call, here, next, CanMove}
use uni_alloc.Queue.Threads.Progress.{
  go, stay, IsLost, Trying, lost-Trying, enqueue-Alone, dequeue-Alone, with_item, without_next,
}

record Reached (k : ℕ) : Type 0 where
  last : System ℕ
  reach : Reach 2 0 k last

then :
    {k : ℕ} (r : Reached k) (i : ℕ) {m : Shared ℕ} {p : Pc ℕ}
    → Move 2 r.last.shared (r.last.pc i) m p
    → Reached (suc k)
then r i mv = record { last = _; reach = later r.reach (pick i mv) }

-- Thread 0 has taken position 0 for the item 7.
unfoldable claimed : Reached 4
unfolding then put distance new
claimed =
    let r0 : Reached 0 = record { last = init 2 0; reach = start } in
    let r1 = then r0 0 (Move.call_enqueue 7) in
    let r2 = then r1 0 Move.load_enqueue in
    let r3 = then r2 0 Move.see_enqueue in then r3 0 (Move.claim_enqueue refl refl)

-- The item is in, and thread 1 has read it.
unfoldable taken : Reached 11
unfolding then put distance claimed new
taken =
    let r5 = then (then claimed 0 Move.write_item) 0 Move.publish in
    let r7 = then (then r5 1 Move.call_dequeue) 1 Move.load_dequeue in
    let r9 = then (then r7 1 Move.see_dequeue) 1 (Move.claim_dequeue refl refl) in
    then r9 1 Move.read_item

dequeue-entered_example :
    (7 ≡ taken.last.entered 0)
    × (0 < taken.last.dequeue_pos)
    × (taken.last.dequeue_pos ≤ taken.last.enqueue_pos)
    × (taken.last.pc 0 ≡ Pc.deq_release 7 0 → ◌≡◌ {A = ℕ} 1 0)
unfolding taken then put claimed
dequeue-entered_example =
    dequeue-entered 2 taken.reach (omega arith) (omega arith) (omega arith) 1 0 0 7 7 refl

taken_cells-eq_example : ◌≡◌ {A = ℕ} 1 1
unfolding taken then put claimed
taken_cells-eq_example =
    taken_cells-eq 2 taken.reach (omega arith) (omega arith) (omega arith) 1 1 0 0 (inr refl)
      (inr refl) refl

positions_bounds_example :
    (claimed.last.dequeue_pos ≤ claimed.last.enqueue_pos)
    × (claimed.last.enqueue_pos ≤ claimed.last.dequeue_pos + 2)
positions_bounds_example =
    positions_bounds 2 claimed.reach (omega arith) (omega arith) (omega arith)

-- A call of `enqueue` beside the thread that has taken position 0, with one exchange that fails.
unfoldable entering : (s' : Shared ℕ) × Call 2 7 1 claimed.last.shared (Pc.enq_start 8) s' Pc.idle
unfolding then put distance new claimed
entering = (
  _,
  next Move.load_enqueue tt (
      next Move.see_enqueue tt (
        next (Move.retry_enqueue refl) tt (
          next Move.see_enqueue tt (
            next (Move.claim_enqueue refl refl) tt
              (next Move.write_item tt (next Move.publish tt here)))))),
)

enqueue-Alone_example :
    (7 ≤ 5 + 2 * 1)
    × (((◌≡◌ {A = Pc ℕ} Pc.idle Pc.idle)
          × (((claimed.last.sequence (claimed.last.enqueue_pos % 2) ≡ claimed.last.enqueue_pos)
                × (entering.0 ≡ with_item 2 claimed.last.shared 8))
              ⊎ ((claimed.last.sequence (claimed.last.enqueue_pos % 2) ≢ claimed.last.enqueue_pos)
                  × (entering.0 ≡ claimed.last.shared))))
        ⊎ CanMove 2 entering.0 Pc.idle)
enqueue-Alone_example =
    enqueue-Alone 2 claimed.reach (omega arith) (omega arith) (omega arith) 8 entering.1

-- The item 7 is in.
unfoldable entered_one : Reached 6
unfolding then put distance claimed new
entered_one = then (then claimed 0 Move.write_item) 0 Move.publish

-- A call of `dequeue` that has read an item.
unfoldable leaving :
    (s' : Shared ℕ) × Call 2 4 0 entered_one.last.shared Pc.deq_start s' (Pc.deq_release 7 0)
unfolding then put distance new claimed entered_one
leaving = (
  _,
  next Move.load_dequeue tt (
      next Move.see_dequeue tt
        (next (Move.claim_dequeue refl refl) tt (next Move.read_item tt here))),
)

dequeue-Alone_example :
    (4 ≤ 5 + 2 * 0)
    × ((◌≡◌ {A = ℕ} 0 entered_one.last.dequeue_pos)
        × (◌≡◌ {A = ℕ} 7 (entered_one.last.entered entered_one.last.dequeue_pos)))
    × (((◌≡◌ {A = Pc ℕ} (Pc.deq_release 7 0) Pc.idle)
          × (((entered_one.last.sequence (entered_one.last.dequeue_pos % 2)
                  ≡ suc entered_one.last.dequeue_pos)
                × (leaving.0 ≡ without_next 2 entered_one.last.shared))
              ⊎ ((entered_one.last.sequence (entered_one.last.dequeue_pos % 2)
                    ≢ suc entered_one.last.dequeue_pos)
                  × (leaving.0 ≡ entered_one.last.shared))))
        ⊎ CanMove 2 leaving.0 (Pc.deq_release 7 0))
dequeue-Alone_example =
    dequeue-Alone 2 entered_one.reach (omega arith) (omega arith) (omega arith) leaving.1

-- Threads 0 and 1 see position 0, thread 0 takes it, and thread 1 fails.
unfoldable beaten : Reached 8
unfolding then put distance new
beaten =
    let r0 : Reached 0 = record { last = init 2 0; reach = start } in
    let r2 = then (then r0 0 (Move.call_enqueue 7)) 1 (Move.call_enqueue 8) in
    let r4 = then (then r2 0 Move.load_enqueue) 1 Move.load_enqueue in
    let r6 = then (then r4 0 Move.see_enqueue) 1 Move.see_enqueue in
    let r7 = then r6 0 (Move.claim_enqueue refl refl) in then r7 1 (Move.retry_enqueue refl)

beaten_stands : beaten.last.pc 1 ≡ Pc.enq_loop 8 0
unfolding beaten then put
beaten_stands = refl

beaten-IsLost : IsLost 2 beaten.last.shared 0
unfolding beaten then put distance new
beaten-IsLost = (refl, λ e. absurd (omega arith))

-- Two more moves of thread 1.
lost-Trying_example :
    (beaten.last.shared ≡ beaten.last.shared) × Trying 2 beaten.last.shared 0 (Pc.enq_loop 8 0)
unfolding distance
lost-Trying_example =
    lost-Trying 2 beaten.last.shared 0 2 8 beaten-IsLost
      (go Move.see_enqueue (go (Move.retry_enqueue beaten-IsLost.0) stay))
