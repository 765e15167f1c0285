-- ===== src/Queue/Threads/Invariant.antt =====
-- What holds of the queue of mpmc.rs between any two steps of its threads. Each cell has a turn, the
-- position that it serves next or serves now.
pub mod Frame
use uni_alloc.Base.{ℕ, suc, ◌+◌, ◌%◌, ◌≡◌, ◌≤◌, ◌<◌, ◌⊎◌, Option, none, some, ◌==◌, false, arith}
use uni_alloc.Queue.Threads.{Pc, Shared, System}

module _ {T : Type 0} (n : ℕ) (s : Shared T) (turn : ℕ → ℕ) where
  -- A thread that has taken position `t` and has not published it.
  pub record Writing (t : ℕ) : Type 0 where
    pub taken : t < s.enqueue_pos
    pub turn_at : turn (t % n) ≡ t
    pub sequence_at : s.sequence (t % n) ≡ t

  -- A thread that has taken position `t` and has not released it.
  pub record Reading (t : ℕ) : Type 0 where
    pub taken : t < s.dequeue_pos
    pub turn_at : turn (t % n) ≡ t
    pub sequence_at : s.sequence (t % n) ≡ suc t

  -- What a thread knows. Positions and sequence numbers that were read are from the past.
  abbrev pub Local : Pc T → Type 0
  Local Pc.idle = Unit {0}
  Local (Pc.enq_start x) = Unit {0}
  Local (Pc.enq_loop x pos) = pos ≤ s.enqueue_pos
  Local (Pc.enq_seen x pos seq) =
      (pos ≤ s.enqueue_pos) × (seq ≤ s.sequence (pos % n)) × (pos ≤ seq + n)
  Local (Pc.enq_write x t) = Writing t × (s.entered t ≡ x)
  Local (Pc.enq_publish t) = Writing t × (s.item (t % n) ≡ s.entered t)
  Local Pc.deq_start = Unit {0}
  Local (Pc.deq_loop pos) = pos ≤ s.dequeue_pos
  Local (Pc.deq_seen pos seq) =
      (pos ≤ s.dequeue_pos) × (seq ≤ s.sequence (pos % n)) × (pos ≤ seq + n)
  Local (Pc.deq_read t) = Reading t
  Local (Pc.deq_release x t) = Reading t × (s.entered t ≡ x)

  -- A cell waits for the item of its turn, or has it.
  abbrev pub Phase : ℕ → Type 0
  Phase c =
      ((s.sequence c ≡ turn c) × (s.dequeue_pos ≤ turn c))
      ⊎ ((s.sequence c ≡ suc (turn c)) × (turn c < s.enqueue_pos) × (s.item c ≡ s.entered (turn c)))

  pub record AreCells : Type 0 where
    pub order : s.dequeue_pos ≤ s.enqueue_pos
    pub place : (c : ℕ) → c < n → turn c % n ≡ c
    pub phase : (c : ℕ) → c < n → Phase c
    pub ahead : (c : ℕ) → c < n → turn c < s.dequeue_pos + n
    pub behind : (c : ℕ) → c < n → s.enqueue_pos ≤ turn c + n

module _ {T : Type 0} where
  -- The position that a thread has taken.
  abbrev pub writes : Pc T → Option ℕ
  writes (Pc.enq_write x t) = some t
  writes (Pc.enq_publish t) = some t
  writes Pc.idle = none
  writes (Pc.enq_start x) = none
  writes (Pc.enq_loop x pos) = none
  writes (Pc.enq_seen x pos seq) = none
  writes Pc.deq_start = none
  writes (Pc.deq_loop pos) = none
  writes (Pc.deq_seen pos seq) = none
  writes (Pc.deq_read t) = none
  writes (Pc.deq_release x t) = none

  abbrev pub reads : Pc T → Option ℕ
  reads (Pc.deq_read t) = some t
  reads (Pc.deq_release x t) = some t
  reads Pc.idle = none
  reads (Pc.enq_start x) = none
  reads (Pc.enq_loop x pos) = none
  reads (Pc.enq_seen x pos seq) = none
  reads (Pc.enq_write x t) = none
  reads (Pc.enq_publish t) = none
  reads Pc.deq_start = none
  reads (Pc.deq_loop pos) = none
  reads (Pc.deq_seen pos seq) = none

  pub record Inv (n : ℕ) (s : System T) (turn : ℕ → ℕ) : Type 0 where
    pub cells : AreCells n s.shared turn
    pub local : (i : ℕ) → Local n s.shared turn (s.pc i)
    pub one_writer : (i j t : ℕ) → writes (s.pc i) ≡ some t → writes (s.pc j) ≡ some t → i ≡ j
    pub one_reader : (i j t : ℕ) → reads (s.pc i) ≡ some t → reads (s.pc j) ≡ some t → i ≡ j

module _ {T : Type 0} (n : ℕ) (s : Shared T) (turn : ℕ → ℕ) where
  pub Local-Writing : (p : Pc T) (t : ℕ) → writes p ≡ some t → Local n s turn p → Writing n s turn t
  Local-Writing (Pc.enq_write x u) t e l = ground (arith, l.0)
  Local-Writing (Pc.enq_publish u) t e l = ground (arith, l.0)
  Local-Writing Pc.idle t e l = absurd (cc)
  Local-Writing (Pc.enq_start x) t e l = absurd (cc)
  Local-Writing (Pc.enq_loop x pos) t e l = absurd (cc)
  Local-Writing (Pc.enq_seen x pos seq) t e l = absurd (cc)
  Local-Writing Pc.deq_start t e l = absurd (cc)
  Local-Writing (Pc.deq_loop pos) t e l = absurd (cc)
  Local-Writing (Pc.deq_seen pos seq) t e l = absurd (cc)
  Local-Writing (Pc.deq_read u) t e l = absurd (cc)
  Local-Writing (Pc.deq_release x u) t e l = absurd (cc)

  pub Local-Reading : (p : Pc T) (t : ℕ) → reads p ≡ some t → Local n s turn p → Reading n s turn t
  Local-Reading (Pc.deq_read u) t e l = ground (arith, l)
  Local-Reading (Pc.deq_release x u) t e l = ground (arith, l.0)
  Local-Reading Pc.idle t e l = absurd (cc)
  Local-Reading (Pc.enq_start x) t e l = absurd (cc)
  Local-Reading (Pc.enq_loop x pos) t e l = absurd (cc)
  Local-Reading (Pc.enq_seen x pos seq) t e l = absurd (cc)
  Local-Reading (Pc.enq_write x u) t e l = absurd (cc)
  Local-Reading (Pc.enq_publish u) t e l = absurd (cc)
  Local-Reading Pc.deq_start t e l = absurd (cc)
  Local-Reading (Pc.deq_loop pos) t e l = absurd (cc)
  Local-Reading (Pc.deq_seen pos seq) t e l = absurd (cc)
