-- ===== src/Queue/Threads.antt =====
-- unialloc/src/mpmc.rs with many threads: `enqueue` and `dequeue` one shared access at a time, in any
-- order of the threads. The accesses are taken to be in one order for all threads.
pub mod Invariant
pub mod Claims
pub mod Cells
pub mod Steps
pub mod Safety
pub mod Calls
pub mod Admission
pub mod Progress
pub mod Serial
mod Examples
use uni_alloc.Base.{ℕ, suc, ◌+◌, ◌%◌, ◌≡◌, ◌≤◌, ◌<◌}
use uni_alloc.Base.Words.{add64}
use uni_alloc.Queue.{MpMcQueue, distance, put, new}

-- Where a thread stands, with the local variables that are live there.
pub data Pc {ℓ} (T : Type ℓ) : Type ℓ where
  idle : Pc T
  enq_start : (x : T) → Pc T  -- before the first load of `enqueue_pos`
  enq_loop : (x : T) (pos : ℕ) → Pc T  -- before the load of the sequence number
  enq_seen : (x : T) (pos seq : ℕ) → Pc T  -- after it, `dif` known
  enq_write : (x : T) (pos : ℕ) → Pc T  -- the exchange succeeded
  enq_publish : (pos : ℕ) → Pc T  -- before the store of the sequence number
  deq_start : Pc T
  deq_loop : (pos : ℕ) → Pc T
  deq_seen : (pos seq : ℕ) → Pc T
  deq_read : (pos : ℕ) → Pc T  -- the exchange succeeded
  deq_release : (x : T) (pos : ℕ) → Pc T  -- the item is read, to be returned

-- The queue, and for the statements the item of each position that was ever taken by `enqueue`.
pub record Shared {ℓ} (T : Type ℓ) : Type ℓ where
  pub queue : MpMcQueue T
  pub open queue use *
  pub entered : ℕ → T

module _ {ℓ} {T : Type ℓ} (n : ℕ) (s : Shared T) where
  abbrev q : MpMcQueue T
  q = s.queue

  -- One step of one thread.
  pub data Move : Pc T → Shared T → Pc T → Type ℓ where
    call_enqueue : (x : T) → Move idle s (enq_start x)
    load_enqueue : {x : T} → Move (enq_start x) s (enq_loop x q.enqueue_pos)
    see_enqueue :
        {x : T} {pos : ℕ} → Move (enq_loop x pos) s (enq_seen x pos (q.sequence (pos % n)))
    claim_enqueue :
        {x : T} {pos seq : ℕ}
        → distance seq pos ≡ 0
        → q.enqueue_pos ≡ pos
        → Move
            (enq_seen x pos seq)
            (record {
              queue = record q { enqueue_pos = add64 pos 1 };
              entered = put s.entered pos x;
            })
            (enq_write x pos)
    -- `compare_exchange_weak` may fail for no reason.
    retry_enqueue :
        {x : T} {pos seq : ℕ} → distance seq pos ≡ 0 → Move (enq_seen x pos seq) s (enq_loop x pos)
    full : {x : T} {pos seq : ℕ} → 128 ≤ distance seq pos → Move (enq_seen x pos seq) s idle
    reload_enqueue :
        {x : T} {pos seq : ℕ}
        → 0 < distance seq pos
        → distance seq pos < 128
        → Move (enq_seen x pos seq) s (enq_loop x q.enqueue_pos)
    write_item :
        {x : T} {pos : ℕ}
        → Move
            (enq_write x pos)
            (record s { queue = record q { item = put q.item (pos % n) x } })
            (enq_publish pos)
    publish :
        {pos : ℕ}
        → Move
            (enq_publish pos)
            (record s { queue = record q { sequence = put q.sequence (pos % n) (add64 pos 1) } })
            idle
    call_dequeue : Move idle s deq_start
    load_dequeue : Move deq_start s (deq_loop q.dequeue_pos)
    see_dequeue : {pos : ℕ} → Move (deq_loop pos) s (deq_seen pos (q.sequence (pos % n)))
    claim_dequeue :
        {pos seq : ℕ}
        → distance seq (add64 pos 1) ≡ 0
        → q.dequeue_pos ≡ pos
        → Move
            (deq_seen pos seq)
            (record s { queue = record q { dequeue_pos = add64 pos 1 } })
            (deq_read pos)
    retry_dequeue :
        {pos seq : ℕ} → distance seq (add64 pos 1) ≡ 0 → Move (deq_seen pos seq) s (deq_loop pos)
    nothing : {pos seq : ℕ} → 128 ≤ distance seq (add64 pos 1) → Move (deq_seen pos seq) s idle
    reload_dequeue :
        {pos seq : ℕ}
        → 0 < distance seq (add64 pos 1)
        → distance seq (add64 pos 1) < 128
        → Move (deq_seen pos seq) s (deq_loop q.dequeue_pos)
    read_item : {pos : ℕ} → Move (deq_read pos) s (deq_release (q.item (pos % n)) pos)
    release :
        {x : T} {pos : ℕ}
        → Move
            (deq_release x pos)
            (record s { queue = record q { sequence = put q.sequence (pos % n) (add64 pos n) } })
            idle

pub record System {ℓ} (T : Type ℓ) : Type ℓ where
  pub shared : Shared T
  pub open shared use *
  pub pc : ℕ → Pc T

module _ {ℓ} {T : Type ℓ} (n : ℕ) where
  pub data Step (s : System T) : System T → Type ℓ where
    pick :
        (i : ℕ) {m : Shared T} {p : Pc T}
        → Move n s.shared (s.pc i) m p
        → Step s (record { shared = m; pc = put s.pc i p })

  -- A new queue and no thread in it. Nothing was entered: `blank` stands for that.
  abbrev pub init : T → System T
  init blank = record {
    shared = record { queue = new n blank; entered = λ t. blank };
    pc = λ i. idle;
  }

  -- What can be reached in `k` steps.
  pub data Reach (blank : T) : ℕ → System T → Type ℓ where
    start : Reach blank 0 (init blank)
    later : {k : ℕ} {s t : System T} → Reach blank k s → Step s t → Reach blank (suc k) t
