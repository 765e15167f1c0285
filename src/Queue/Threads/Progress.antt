-- ===== src/Queue/Threads/Progress.antt =====
-- A thread of mpmc.rs that runs alone: from the start of an operation, and after an exchange that failed.
use uni_alloc.Base.{ℕ, suc, ◌+◌, ◌%◌, ◌^◌, ◌≡◌, ◌≢◌, ◌≤◌, ◌<◌, ◌⊎◌, arith, refl, ◌*◌}
use uni_alloc.Base.Words.{add64}
use uni_alloc.Queue.{distance, put}
use uni_alloc.Queue.Threads.{Pc, Shared, System, Move, Reach}
use uni_alloc.Queue.Threads.Calls.{Call, CanMove, Call-bound}
use uni_alloc.Queue.Threads.Calls.Enqueue
use uni_alloc.Queue.Threads.Calls.Dequeue
use uni_alloc.Queue.Threads.Calls.Dequeue.{Holding, At-Holding}
use uni_alloc.Queue.Threads.Admission.{enqueue-Verdict, dequeue-Verdict}
use uni_alloc.Queue.Threads.Safety.{Reach-Inv, Reach-enqueue_pos}

module _ {ℓ} {T : Type ℓ} (n : ℕ) where
  -- One thread goes from `p` to `p'` by `k` moves of its own.
  pub data Alone : ℕ → Shared T → Pc T → Shared T → Pc T → Type ℓ where
    stay : {s : Shared T} {p : Pc T} → Alone 0 s p s p
    go :
        {k : ℕ} {s m s' : Shared T} {p q p' : Pc T}
        → Move n s p m q
        → Alone k m q s' p'
        → Alone (suc k) s p s' p'

-- The exchange on `pos` must fail, and the cell reads as if it could succeed.
abbrev pub IsLost {ℓ} : {T : Type ℓ} → ℕ → Shared T → ℕ → Type 0
IsLost n s pos = (distance (s.sequence (pos % n)) pos ≡ 0) × (s.enqueue_pos ≢ pos)

module _ {T : Type 0} (n : ℕ) (s : Shared T) (pos : ℕ) where
  -- Before or after one more load of that cell's sequence number.
  abbrev pub Trying : Pc T → Type 0
  Trying (Pc.enq_loop x p) = p ≡ pos
  Trying (Pc.enq_seen x p seq) = (p ≡ pos) × (seq ≡ s.sequence (pos % n))
  Trying Pc.idle = ⊥
  Trying (Pc.enq_start x) = ⊥
  Trying (Pc.enq_write x t) = ⊥
  Trying (Pc.enq_publish t) = ⊥
  Trying Pc.deq_start = ⊥
  Trying (Pc.deq_loop p) = ⊥
  Trying (Pc.deq_seen p seq) = ⊥
  Trying (Pc.deq_read t) = ⊥
  Trying (Pc.deq_release x t) = ⊥

  lost-Move :
      {m m' : Shared T} {p p' : Pc T}
      → Move n m p m' p'
      → m ≡ s
      → IsLost n s pos
      → Trying p
      → (m' ≡ s) × Trying p'
  lost-Move (Move.see_enqueue) e lost h = ground arith
  lost-Move (Move.retry_enqueue match) e lost h = ground arith
  lost-Move (Move.claim_enqueue {pos = u} {seq = v} match now) e lost h =
      absurd (lost.1 (ground arith))
  lost-Move (Move.full {pos = u} {seq = v} far) e lost h =
      let at_pos : distance v u ≡ 0 = rw (h.0, h.1) lost.0 in absurd (omega arith)
  lost-Move (Move.reload_enqueue {pos = u} {seq = v} some near) e lost h =
      let at_pos : distance v u ≡ 0 = rw (h.0, h.1) lost.0 in absurd (omega arith)
  lost-Move (Move.call_enqueue x) e lost h = absurd h
  lost-Move Move.load_enqueue e lost h = absurd h
  lost-Move Move.write_item e lost h = absurd h
  lost-Move Move.publish e lost h = absurd h
  lost-Move Move.call_dequeue e lost h = absurd h
  lost-Move Move.load_dequeue e lost h = absurd h
  lost-Move Move.see_dequeue e lost h = absurd h
  lost-Move (Move.claim_dequeue match now) e lost h = absurd h
  lost-Move (Move.retry_dequeue match) e lost h = absurd h
  lost-Move (Move.nothing far) e lost h = absurd h
  lost-Move (Move.reload_dequeue pos near) e lost h = absurd h
  lost-Move Move.read_item e lost h = absurd h
  lost-Move Move.release e lost h = absurd h

  -- As long as no other thread moves, a thread of which the exchange on `pos` must fail, while the
  -- sequence number of the cell still admits `pos`, does not return from `enqueue`, after any number of
  -- moves.
  pub lost-Trying :
      (k : ℕ) (x : T) {s' : Shared T} {p' : Pc T}
      → IsLost n s pos
      → Alone n k s (Pc.enq_loop x pos) s' p'
      → (s' ≡ s) × Trying p'
  lost-Trying k x lost run = along run refl lost refl
    where
      along :
          {k : ℕ} {m m' : Shared T} {p p' : Pc T}
          → Alone n k m p m' p'
          → m ≡ s
          → IsLost n s pos
          → Trying p
          → (m' ≡ s) × Trying p'
      along stay e lost h = (e, h)
      along (go mv rest) e lost h = let (e', h') = lost-Move mv e lost h in along rest e' lost h'

-- The queue with `x` at the next position.
abbrev pub with_item : {T : Type 0} → ℕ → Shared T → T → Shared T
with_item n s x = record {
  queue = record (s.queue) {
    enqueue_pos = suc s.enqueue_pos;
    item = put s.item (s.enqueue_pos % n) x;
    sequence = put s.sequence (s.enqueue_pos % n) (suc s.enqueue_pos);
  };
  entered = put s.entered s.enqueue_pos x;
}

-- The queue without the item of the next position, whose cell is free for the position `n` later.
abbrev pub without_next : {T : Type 0} → ℕ → Shared T → Shared T
without_next n s = record s {
  queue = record (s.queue) {
    dequeue_pos = suc s.dequeue_pos;
    sequence = put s.sequence (s.dequeue_pos % n) (s.dequeue_pos + n);
  };
}

module _ {T : Type 0} (n : ℕ) {blank : T} {k : ℕ} {s : System T} (r : Reach n blank k s)
    (low : 2 ≤ n) (high : n ≤ 128) (small : k + n < 2 ^ 64) where
  -- In every state that fewer than 2^64 - n steps of any threads reach on a queue of 2 to 128 cells, and
  -- for every call of `enqueue` that then runs alone, up to any point: its moves are at most 5 and 2 for
  -- each exchange that failed; and either it can move on without a failure, or it has returned. Then, if
  -- the cell of the next position served that position, the item is there, published, and nothing else
  -- has changed; if not, the queue is as it was.
  pub enqueue-Alone :
      (x : T) {j f : ℕ} {s' : Shared T} {p' : Pc T}
      → Call n j f s.shared (Pc.enq_start x) s' p'
      → (j ≤ 5 + 2 * f)
        × (((p' ≡ Pc.idle)
              × (((s.sequence (s.enqueue_pos % n) ≡ s.enqueue_pos) × (s' ≡ with_item n s.shared x))
                  ⊎ ((s.sequence (s.enqueue_pos % n) ≢ s.enqueue_pos) × (s' ≡ s.shared))))
            ⊎ CanMove n s' p')
  enqueue-Alone x {s' = s'} {p' = p'} call =
      let bound = Reach-enqueue_pos n r in
      let admitted = enqueue-Verdict n r low high small in
      let next : add64 s.enqueue_pos 1 ≡ suc s.enqueue_pos = omega arith in
      let (at, moves) =
        Call-bound (Enqueue.At n s.shared x)
          (λ a b p q mv. Enqueue.Move-At n s.shared x admitted mv) call (refl, refl) in
      (omega arith, rw (← next) (Enqueue.At-CanMove n s.shared x admitted s' p' at))

  -- In every state that fewer than 2^64 - n steps of any threads reach on a queue of 2 to 128 cells, and
  -- for every call of `dequeue` that then runs alone, up to any point: its moves are at most 5 and 2 for
  -- each exchange that failed; if it has read an item, to be returned, that is the one that entered at
  -- the next position; and either it can move on without a failure, or it has returned. Then, if the cell
  -- of the next position was filled for it, that position is taken, the cell is free for the position
  -- `n` later, and nothing else has changed; if not, the queue is as it was.
  pub dequeue-Alone :
      {j f : ℕ} {s' : Shared T} {p' : Pc T}
      → Call n j f s.shared Pc.deq_start s' p'
      → (j ≤ 5 + 2 * f)
        × Holding s.dequeue_pos (s.entered s.dequeue_pos) p'
        × (((p' ≡ Pc.idle)
              × (((s.sequence (s.dequeue_pos % n) ≡ suc s.dequeue_pos)
                    × (s' ≡ without_next n s.shared))
                  ⊎ ((s.sequence (s.dequeue_pos % n) ≢ suc s.dequeue_pos) × (s' ≡ s.shared))))
            ⊎ CanMove n s' p')
  dequeue-Alone {s' = s'} {p' = p'} call =
      let bound = Reach-enqueue_pos n r in
      let (_, inv) = Reach-Inv n r low high small in
      let order = inv.cells.order in
      let next : add64 s.dequeue_pos 1 ≡ suc s.dequeue_pos = omega arith in
      let later : add64 s.dequeue_pos n ≡ s.dequeue_pos + n = omega arith in
      let (verdict, item) = dequeue-Verdict n r low high small in
      let (at, moves) =
        Call-bound (Dequeue.At n s.shared) (λ a b p q mv. Dequeue.Move-At n s.shared verdict mv)
          call refl in
      (
        omega arith,
        At-Holding n s.shared (s.entered s.dequeue_pos) item s' p' at,
        rw (← next, ← later) (Dequeue.At-CanMove n s.shared verdict s' p' at),
      )
