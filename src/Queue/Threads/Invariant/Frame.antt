-- ===== src/Queue/Threads/Invariant/Frame.antt =====
-- A step of one thread leaves what the other threads know.
use uni_alloc.Base.{
  ==→eq, sym, ℕ, ◌%◌, ◌≡◌, ◌≤◌, ◌<◌, ◌⊎◌, inl, inr, Option, some, ◌==◌, false, arith, Bool-cases,
  ne→==, ==→eq, ◌∙◌, sym, ap, refl,
}
use uni_alloc.Queue.{put}
use uni_alloc.Queue.Threads.{Pc, Shared, System}
use uni_alloc.Queue.Threads.Invariant.{
  Local, AreCells, writes, reads, Inv, Local-Writing, Local-Reading,
}

module _ {T : Type 0} (n : ℕ) (s : Shared T) (turn : ℕ → ℕ) (s' : Shared T) (turn' : ℕ → ℕ) where
  -- What a taken position needs.
  pub record Same (t : ℕ) : Type 0 where
    pub turn_same : turn' (t % n) ≡ turn (t % n)
    pub sequence_same : s'.sequence (t % n) ≡ s.sequence (t % n)
    pub item_same : s'.item (t % n) ≡ s.item (t % n)
    pub entered_same : s'.entered t ≡ s.entered t

  pub record Grown : Type 0 where
    pub enqueue_grown : s.enqueue_pos ≤ s'.enqueue_pos
    pub dequeue_grown : s.dequeue_pos ≤ s'.dequeue_pos
    pub sequence_grown : (c : ℕ) → s.sequence c ≤ s'.sequence c

  Local-kept :
      (p : Pc T)
      → Grown
      → ((t : ℕ) → (writes p ≡ some t) ⊎ (reads p ≡ some t) → Same t)
      → Local n s turn p
      → Local n s' turn' p
  Local-kept Pc.idle g same l = tt
  Local-kept (Pc.enq_start x) g same l = tt
  Local-kept (Pc.enq_loop x pos) g same l = omega (arith, g.enqueue_grown)
  Local-kept (Pc.enq_seen x pos seq) g same l =
      omega (arith, g.enqueue_grown, g.sequence_grown (pos % n))
  Local-kept (Pc.enq_write x t) g same l = ground (arith, same t (inl refl), g.enqueue_grown)
  Local-kept (Pc.enq_publish t) g same l = ground (arith, same t (inl refl), g.enqueue_grown)
  Local-kept Pc.deq_start g same l = tt
  Local-kept (Pc.deq_loop pos) g same l = omega (arith, g.dequeue_grown)
  Local-kept (Pc.deq_seen pos seq) g same l =
      omega (arith, g.dequeue_grown, g.sequence_grown (pos % n))
  Local-kept (Pc.deq_read t) g same l = ground (arith, same t (inr refl), g.dequeue_grown)
  Local-kept (Pc.deq_release x t) g same l = ground (arith, same t (inr refl), g.dequeue_grown)

-- A position has one owner, also after thread `i` has gone to `p`, which takes at most a new one.
module _ {T : Type 0} (owned : Pc T → Option ℕ) (pc : ℕ → Pc T) (i bound : ℕ) (p : Pc T)
    (one : (j k t : ℕ) → owned (pc j) ≡ some t → owned (pc k) ≡ some t → j ≡ k)
    (below : (j t : ℕ) → owned (pc j) ≡ some t → t < bound)
    (fresh : (t : ℕ) → owned p ≡ some t → (owned (pc i) ≡ some t) ⊎ (bound ≤ t)) where
  not_both : (j t : ℕ) → (j == i) ≡ false → owned p ≡ some t → owned (pc j) ≡ some t → ⊥
  not_both j t other a b = elim (fresh t a) [
    | inl old ↦ absurd (ground (arith, one j i t b old))
    | inr new ↦ absurd (omega (arith, below j t b))
  ]

  one_owner : (j k t : ℕ) → owned (put pc i p j) ≡ some t → owned (put pc i p k) ≡ some t → j ≡ k
  unfolding put
  one_owner j k t a b = elim (Bool-cases (j == i)) [
    | inl e ↦ elim (Bool-cases (k == i)) [
      | inl f ↦ ==→eq j i e ∙ sym (==→eq k i f)
      | inr f ↦ absurd (not_both k t f (rw e at a) (rw f at b))
    ]
    | inr e ↦ elim (Bool-cases (k == i)) [
      | inl f ↦ absurd (not_both j t e (rw f at b) (rw e at a))
      | inr f ↦ one j k t (rw e at a) (rw f at b)
    ]
  ]

module _ {T : Type 0} (n : ℕ) (s : System T) (turn : ℕ → ℕ) (inv : Inv n s turn) where
  -- Two threads that have taken positions are at different cells.
  pub cells_apart :
      (i j t u : ℕ)
      → (j == i) ≡ false
      → (writes (s.pc i) ≡ some t) ⊎ (reads (s.pc i) ≡ some t)
      → (writes (s.pc j) ≡ some u) ⊎ (reads (s.pc j) ≡ some u)
      → (u % n == t % n) ≡ false
  cells_apart i j t u other a b = ne→== (u % n) (t % n) (clash a b)
    where
      clash :
          (writes (s.pc i) ≡ some t) ⊎ (reads (s.pc i) ≡ some t)
          → (writes (s.pc j) ≡ some u) ⊎ (reads (s.pc j) ≡ some u)
          → u % n ≡ t % n
          → ⊥
      clash (inl a) (inl b) e =
          let w = Local-Writing n s.shared turn (s.pc i) t a (inv.local i) in
          let v = Local-Writing n s.shared turn (s.pc j) u b (inv.local j) in
          let same : u ≡ t = sym v.turn_at ∙ ap turn e ∙ w.turn_at in
          let one = inv.one_writer i j t a (b ∙ ap some same) in ground arith
      clash (inr a) (inr b) e =
          let w = Local-Reading n s.shared turn (s.pc i) t a (inv.local i) in
          let v = Local-Reading n s.shared turn (s.pc j) u b (inv.local j) in
          let same : u ≡ t = sym v.turn_at ∙ ap turn e ∙ w.turn_at in
          let one = inv.one_reader i j t a (b ∙ ap some same) in ground arith
      clash (inl a) (inr b) e =
          let w = Local-Writing n s.shared turn (s.pc i) t a (inv.local i) in
          let v = Local-Reading n s.shared turn (s.pc j) u b (inv.local j) in
          let same : u ≡ t = sym v.turn_at ∙ ap turn e ∙ w.turn_at in
          let seq = sym v.sequence_at ∙ ap s.sequence e ∙ w.sequence_at in omega arith
      clash (inr a) (inl b) e =
          let w = Local-Reading n s.shared turn (s.pc i) t a (inv.local i) in
          let v = Local-Writing n s.shared turn (s.pc j) u b (inv.local j) in
          let same : u ≡ t = sym v.turn_at ∙ ap turn e ∙ w.turn_at in
          let seq = sym v.sequence_at ∙ ap s.sequence e ∙ w.sequence_at in omega arith

  -- A step of thread `i` to `p` keeps the invariant if it keeps the cells, what the others need, and
  -- takes no position that was taken.
  module _ (i : ℕ) (p : Pc T) (m : Shared T) (turn' : ℕ → ℕ) where
    pub step-Inv :
        AreCells n m turn'
        → Grown n s.shared turn m turn'
        → ((j t : ℕ)
            → (j == i) ≡ false
            → (writes (s.pc j) ≡ some t) ⊎ (reads (s.pc j) ≡ some t)
            → Same n s.shared turn m turn' t)
        → Local n m turn' p
        → ((t : ℕ) → writes p ≡ some t → (writes (s.pc i) ≡ some t) ⊎ (s.enqueue_pos ≤ t))
        → ((t : ℕ) → reads p ≡ some t → (reads (s.pc i) ≡ some t) ⊎ (s.dequeue_pos ≤ t))
        → Inv n (record { shared = m; pc = put s.pc i p }) turn'
    unfolding put
    step-Inv cells grown same here fresh_write fresh_read = record {
      cells = cells;
      local = λ j. elim (Bool-cases (j == i)) [
        | inl e ↦ rw e here
        | inr e ↦
            rw e (Local-kept n s.shared turn m turn' (s.pc j) grown (λ t. same j t e) (inv.local j))
      ];
      one_writer =
          one_owner writes s.pc i s.enqueue_pos p inv.one_writer
            (λ j t a. (Local-Writing n s.shared turn (s.pc j) t a (inv.local j)).taken) fresh_write;
      one_reader =
          one_owner reads s.pc i s.dequeue_pos p inv.one_reader
            (λ j t a. (Local-Reading n s.shared turn (s.pc j) t a (inv.local j)).taken) fresh_read;
    }
