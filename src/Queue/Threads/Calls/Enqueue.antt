-- ===== src/Queue/Threads/Calls/Enqueue.antt =====
-- The moves of `enqueue` of mpmc.rs without other threads: where it stands between them.
use uni_alloc.Base.{ℕ, suc, ◌+◌, ◌*◌, ◌%◌, ◌≡◌, ◌≢◌, ◌≤◌, ◌⊎◌, inl, inr, refl, arith}
use uni_alloc.Base.Words.{add64}
use uni_alloc.Queue.{distance, put}
use uni_alloc.Queue.Threads.{Pc, Shared, Move}
use uni_alloc.Queue.Threads.Calls.{IsBusy, moves_left, failures, CanMove, Verdict}

module _ {T : Type 0} (n : ℕ) where
  -- The next position is taken for `x`.
  abbrev pub claimed : Shared T → ℕ → T → Shared T
  claimed s pos x = record {
    queue = record (s.queue) { enqueue_pos = add64 pos 1 };
    entered = put s.entered pos x;
  }

  abbrev pub written : Shared T → ℕ → T → Shared T
  written s pos x = record s { queue = record (s.queue) { item = put s.item (pos % n) x } }

  abbrev pub published : Shared T → ℕ → Shared T
  published s pos = record s {
    queue = record (s.queue) { sequence = put s.sequence (pos % n) (add64 pos 1) };
  }

module _ {T : Type 0} (n : ℕ) (s : Shared T) (x : T) where
  abbrev pos : ℕ
  pos = s.enqueue_pos

  abbrev seq_at : ℕ
  seq_at = s.sequence (pos % n)

  -- With `x` at the next position.
  abbrev done : Shared T
  done = published n (written n (claimed n s pos x) pos x) pos

  abbrev pub At : Shared T → Pc T → Type 0
  At m (Pc.enq_start y) = (m ≡ s) × (y ≡ x)
  At m (Pc.enq_loop y p) = (m ≡ s) × (p ≡ pos) × (y ≡ x)
  At m (Pc.enq_seen y p seq) = (m ≡ s) × (p ≡ pos) × (y ≡ x) × (seq ≡ seq_at)
  At m (Pc.enq_write y p) = (m ≡ claimed n s pos x) × (p ≡ pos) × (y ≡ x) × (seq_at ≡ pos)
  At m (Pc.enq_publish p) = (m ≡ written n (claimed n s pos x) pos x) × (p ≡ pos) × (seq_at ≡ pos)
  At m Pc.idle = ((seq_at ≡ pos) × (m ≡ done)) ⊎ ((seq_at ≢ pos) × (m ≡ s))
  At m Pc.deq_start = ⊥
  At m (Pc.deq_loop p) = ⊥
  At m (Pc.deq_seen p seq) = ⊥
  At m (Pc.deq_read p) = ⊥
  At m (Pc.deq_release y p) = ⊥

  module _ (verdict : Verdict seq_at pos) where
    pub Move-At :
        {m m' : Shared T} {p q : Pc T} (mv : Move n m p m' q)
        → IsBusy p
        → At m p
        → At m' q × (suc (moves_left q) ≤ moves_left p + 2 * failures mv)
    Move-At (Move.call_enqueue y) b a = absurd b
    Move-At Move.load_enqueue b (e, f) = ((e, rw e refl, f), omega arith)
    Move-At (Move.see_enqueue) b (e, f, g) = ((e, f, g, rw (e, f) refl), omega arith)
    Move-At (Move.claim_enqueue {x = y} {pos = u} {seq = v} match now) b (e, f, g, h) =
        elim verdict [
          | inl (free, _) ↦ ((rw (e, f, g) refl, f, g, free), omega arith)
          | inr (_, far) ↦
              let at : distance v u ≡ distance seq_at pos = rw (h, f) refl in absurd (omega arith)
        ]
    Move-At (Move.retry_enqueue match) b (e, f, g, h) = ((e, f, g), omega arith)
    Move-At (Move.full {pos = u} {seq = v} far) b (e, f, g, h) =
        let at : distance v u ≡ distance seq_at pos = rw (h, f) refl in
        elim verdict [
          | inl (_, near) ↦ absurd (omega arith)
          | inr (other, _) ↦ (inr (other, e), omega arith)
        ]
    Move-At (Move.reload_enqueue {pos = u} {seq = v} some near) b (e, f, g, h) =
        let at : distance v u ≡ distance seq_at pos = rw (h, f) refl in
        elim verdict [ inl (_, zero) ↦ absurd (omega arith) | inr (_, far) ↦ absurd (omega arith) ]
    Move-At Move.write_item b (e, f, g, h) = ((rw (e, f, g) refl, f, h), omega arith)
    Move-At Move.publish b (e, f, h) = (inl (h, rw (e, f) refl), omega arith)
    Move-At Move.call_dequeue b a = absurd b
    Move-At Move.load_dequeue b a = absurd a
    Move-At Move.see_dequeue b a = absurd a
    Move-At (Move.claim_dequeue match now) b a = absurd a
    Move-At (Move.retry_dequeue match) b a = absurd a
    Move-At (Move.nothing far) b a = absurd a
    Move-At (Move.reload_dequeue some near) b a = absurd a
    Move-At Move.read_item b a = absurd a
    Move-At Move.release b a = absurd a

    -- It has returned or can go on.
    pub At-CanMove :
        (m : Shared T) (p : Pc T)
        → At m p
        → ((p ≡ Pc.idle) × (((seq_at ≡ pos) × (m ≡ done)) ⊎ ((seq_at ≢ pos) × (m ≡ s))))
          ⊎ CanMove n m p
    At-CanMove m Pc.idle a = inl (refl, a)
    At-CanMove m (Pc.enq_start y) a = inr (tt, (_, _, Move.load_enqueue, refl))
    At-CanMove m (Pc.enq_loop y p) a = inr (tt, (_, _, Move.see_enqueue, refl))
    At-CanMove m (Pc.enq_seen y p seq) (e, f, g, h) = elim verdict [
      | inl (_, near) ↦ inr (tt, (_, _, Move.claim_enqueue (rw (h, f) near) (rw (e, f) refl), refl))
      | inr (_, far) ↦ inr (tt, (_, _, Move.full (rw (h, f) far), refl))
    ]
    At-CanMove m (Pc.enq_write y p) a = inr (tt, (_, _, Move.write_item, refl))
    At-CanMove m (Pc.enq_publish p) a = inr (tt, (_, _, Move.publish, refl))
    At-CanMove m Pc.deq_start a = absurd a
    At-CanMove m (Pc.deq_loop p) a = absurd a
    At-CanMove m (Pc.deq_seen p seq) a = absurd a
    At-CanMove m (Pc.deq_read p) a = absurd a
    At-CanMove m (Pc.deq_release y p) a = absurd a
