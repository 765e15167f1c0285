-- ===== src/Queue/Threads/Calls/Dequeue.antt =====
-- The moves of `dequeue` of mpmc.rs without other threads: where it stands between them.
use uni_alloc.Base.{ℕ, suc, ◌+◌, ◌*◌, ◌%◌, ◌≡◌, ◌≢◌, ◌≤◌, ◌⊎◌, inl, inr, refl, ◌∙◌, arith}
use uni_alloc.Base.Words.{add64}
use uni_alloc.Queue.{distance, put}
use uni_alloc.Queue.Threads.{Pc, Shared, Move}
use uni_alloc.Queue.Threads.Calls.{IsBusy, moves_left, failures, CanMove, Verdict}

module _ {T : Type 0} (n : ℕ) where
  -- The next position is taken.
  abbrev pub claimed : Shared T → ℕ → Shared T
  claimed s pos = record s { queue = record (s.queue) { dequeue_pos = add64 pos 1 } }

  abbrev pub released : Shared T → ℕ → Shared T
  released s pos = record s {
    queue = record (s.queue) { sequence = put s.sequence (pos % n) (add64 pos n) };
  }

module _ {T : Type 0} (n : ℕ) (s : Shared T) where
  abbrev pos : ℕ
  pos = s.dequeue_pos

  abbrev seq_at : ℕ
  seq_at = s.sequence (pos % n)

  -- Without the item of the next position.
  abbrev done : Shared T
  done = released n (claimed n s pos) pos

  abbrev pub At : Shared T → Pc T → Type 0
  At m Pc.deq_start = m ≡ s
  At m (Pc.deq_loop p) = (m ≡ s) × (p ≡ pos)
  At m (Pc.deq_seen p seq) = (m ≡ s) × (p ≡ pos) × (seq ≡ seq_at)
  At m (Pc.deq_read p) = (m ≡ claimed n s pos) × (p ≡ pos) × (seq_at ≡ add64 pos 1)
  At m (Pc.deq_release y p) =
      (m ≡ claimed n s pos) × (p ≡ pos) × (seq_at ≡ add64 pos 1) × (y ≡ s.item (pos % n))
  At m Pc.idle = ((seq_at ≡ add64 pos 1) × (m ≡ done)) ⊎ ((seq_at ≢ add64 pos 1) × (m ≡ s))
  At m (Pc.enq_start y) = ⊥
  At m (Pc.enq_loop y p) = ⊥
  At m (Pc.enq_seen y p seq) = ⊥
  At m (Pc.enq_write y p) = ⊥
  At m (Pc.enq_publish p) = ⊥

  module _ (verdict : Verdict seq_at (add64 pos 1)) where
    pub Move-At :
        {m m' : Shared T} {p q : Pc T} (mv : Move n m p m' q)
        → IsBusy p
        → At m p
        → At m' q × (suc (moves_left q) ≤ moves_left p + 2 * failures mv)
    Move-At Move.call_dequeue b a = absurd b
    Move-At Move.load_dequeue b e = ((e, rw e refl), omega arith)
    Move-At Move.see_dequeue b (e, f) = ((e, f, rw (e, f) refl), omega arith)
    Move-At (Move.claim_dequeue {pos = u} {seq = v} match now) b (e, f, h) = elim verdict [
      | inl (filled, _) ↦ ((rw (e, f) refl, f, filled), omega arith)
      | inr (_, far) ↦
          let at : distance v (add64 u 1) ≡ distance seq_at (add64 pos 1) = rw (h, f) refl in
          absurd (omega arith)
    ]
    Move-At (Move.retry_dequeue match) b (e, f, h) = ((e, f), omega arith)
    Move-At (Move.nothing {pos = u} {seq = v} far) b (e, f, h) =
        let at : distance v (add64 u 1) ≡ distance seq_at (add64 pos 1) = rw (h, f) refl in
        elim verdict [
          | inl (_, near) ↦ absurd (omega arith)
          | inr (other, _) ↦ (inr (other, e), omega arith)
        ]
    Move-At (Move.reload_dequeue {pos = u} {seq = v} some near) b (e, f, h) =
        let at : distance v (add64 u 1) ≡ distance seq_at (add64 pos 1) = rw (h, f) refl in
        elim verdict [ inl (_, zero) ↦ absurd (omega arith) | inr (_, far) ↦ absurd (omega arith) ]
    Move-At Move.read_item b (e, f, h) = ((e, f, h, rw (e, f) refl), omega arith)
    Move-At Move.release b (e, f, h, i) = (inl (h, rw (e, f) refl), omega arith)
    Move-At (Move.call_enqueue y) b a = absurd b
    Move-At Move.load_enqueue b a = absurd a
    Move-At Move.see_enqueue b a = absurd a
    Move-At (Move.claim_enqueue match now) b a = absurd a
    Move-At (Move.retry_enqueue match) b a = absurd a
    Move-At (Move.full far) b a = absurd a
    Move-At (Move.reload_enqueue some near) b a = absurd a
    Move-At Move.write_item b a = absurd a
    Move-At Move.publish b a = absurd a

    -- It has returned or can go on.
    pub At-CanMove :
        (m : Shared T) (p : Pc T)
        → At m p
        → ((p ≡ Pc.idle)
            × (((seq_at ≡ add64 pos 1) × (m ≡ done)) ⊎ ((seq_at ≢ add64 pos 1) × (m ≡ s))))
          ⊎ CanMove n m p
    At-CanMove m Pc.idle a = inl (refl, a)
    At-CanMove m Pc.deq_start a = inr (tt, (_, _, Move.load_dequeue, refl))
    At-CanMove m (Pc.deq_loop p) a = inr (tt, (_, _, Move.see_dequeue, refl))
    At-CanMove m (Pc.deq_seen p seq) (e, f, h) = elim verdict [
      | inl (_, near) ↦ inr (tt, (_, _, Move.claim_dequeue (rw (h, f) near) (rw (e, f) refl), refl))
      | inr (_, far) ↦ inr (tt, (_, _, Move.nothing (rw (h, f) far), refl))
    ]
    At-CanMove m (Pc.deq_read p) a = inr (tt, (_, _, Move.read_item, refl))
    At-CanMove m (Pc.deq_release y p) a = inr (tt, (_, _, Move.release, refl))
    At-CanMove m (Pc.enq_start y) a = absurd a
    At-CanMove m (Pc.enq_loop y p) a = absurd a
    At-CanMove m (Pc.enq_seen y p seq) a = absurd a
    At-CanMove m (Pc.enq_write y p) a = absurd a
    At-CanMove m (Pc.enq_publish p) a = absurd a

-- What a thread that has read an item holds: the item `x` of the position `t`.
abbrev pub Holding : {T : Type 0} → ℕ → T → Pc T → Type 0
Holding t x (Pc.deq_release y p) = (p ≡ t) × (y ≡ x)
Holding t x Pc.idle = Unit {0}
Holding t x Pc.deq_start = Unit {0}
Holding t x (Pc.deq_loop p) = Unit {0}
Holding t x (Pc.deq_seen p seq) = Unit {0}
Holding t x (Pc.deq_read p) = Unit {0}
Holding t x (Pc.enq_start y) = Unit {0}
Holding t x (Pc.enq_loop y p) = Unit {0}
Holding t x (Pc.enq_seen y p seq) = Unit {0}
Holding t x (Pc.enq_write y p) = Unit {0}
Holding t x (Pc.enq_publish p) = Unit {0}

-- `x` is the item of the next position once the sequence number says that it is filled.
pub At-Holding :
    {T : Type 0} (n : ℕ) (s : Shared T) (x : T)
    → (s.sequence (s.dequeue_pos % n) ≡ add64 s.dequeue_pos 1 → s.item (s.dequeue_pos % n) ≡ x)
    → (m : Shared T) (p : Pc T) → At n s m p
    → Holding s.dequeue_pos x p
At-Holding n s x item m (Pc.deq_release y p) (e, f, h, i) = (f, i ∙ item h)
At-Holding n s x item m Pc.idle a = tt
At-Holding n s x item m Pc.deq_start a = tt
At-Holding n s x item m (Pc.deq_loop p) a = tt
At-Holding n s x item m (Pc.deq_seen p seq) a = tt
At-Holding n s x item m (Pc.deq_read p) a = tt
At-Holding n s x item m (Pc.enq_start y) a = tt
At-Holding n s x item m (Pc.enq_loop y p) a = tt
At-Holding n s x item m (Pc.enq_seen y p seq) a = tt
At-Holding n s x item m (Pc.enq_write y p) a = tt
At-Holding n s x item m (Pc.enq_publish p) a = tt
