-- ===== src/Queue/Threads/Calls.antt =====
-- One call of `enqueue` or `dequeue` of mpmc.rs by a thread that no other thread disturbs.
pub mod Enqueue
pub mod Dequeue
use uni_alloc.Base.{ℕ, suc, ◌+◌, ◌*◌, ◌%◌, ◌≡◌, ◌≢◌, ◌≤◌, ◌<◌, ◌⊎◌, arith}
use uni_alloc.Queue.{distance}
use uni_alloc.Queue.Threads.{Pc, Shared, Move}

module _ {T : Type 0} where
  -- The thread is in a call.
  abbrev pub IsBusy : Pc T → Type 0
  IsBusy Pc.idle = ⊥
  IsBusy (Pc.enq_start x) = Unit {0}
  IsBusy (Pc.enq_loop x p) = Unit {0}
  IsBusy (Pc.enq_seen x p seq) = Unit {0}
  IsBusy (Pc.enq_write x p) = Unit {0}
  IsBusy (Pc.enq_publish p) = Unit {0}
  IsBusy Pc.deq_start = Unit {0}
  IsBusy (Pc.deq_loop p) = Unit {0}
  IsBusy (Pc.deq_seen p seq) = Unit {0}
  IsBusy (Pc.deq_read p) = Unit {0}
  IsBusy (Pc.deq_release x p) = Unit {0}

  -- The moves that a call needs from there on if no exchange fails.
  abbrev pub moves_left : Pc T → ℕ
  moves_left Pc.idle = 0
  moves_left (Pc.enq_start x) = 5
  moves_left (Pc.enq_loop x p) = 4
  moves_left (Pc.enq_seen x p seq) = 3
  moves_left (Pc.enq_write x p) = 2
  moves_left (Pc.enq_publish p) = 1
  moves_left Pc.deq_start = 5
  moves_left (Pc.deq_loop p) = 4
  moves_left (Pc.deq_seen p seq) = 3
  moves_left (Pc.deq_read p) = 2
  moves_left (Pc.deq_release x p) = 1

module _ {T : Type 0} {n : ℕ} where
  -- 1 for a move in which the exchange fails.
  abbrev pub failures : {s m : Shared T} {p q : Pc T} → Move n s p m q → ℕ
  failures (Move.retry_enqueue match) = 1
  failures (Move.retry_dequeue match) = 1
  failures (Move.call_enqueue x) = 0
  failures Move.load_enqueue = 0
  failures Move.see_enqueue = 0
  failures (Move.claim_enqueue match now) = 0
  failures (Move.full far) = 0
  failures (Move.reload_enqueue pos near) = 0
  failures Move.write_item = 0
  failures Move.publish = 0
  failures Move.call_dequeue = 0
  failures Move.load_dequeue = 0
  failures Move.see_dequeue = 0
  failures (Move.claim_dequeue match now) = 0
  failures (Move.nothing far) = 0
  failures (Move.reload_dequeue pos near) = 0
  failures Move.read_item = 0
  failures Move.release = 0

module _ {T : Type 0} (n : ℕ) where
  -- A call goes from `p` to `p'` by `j` moves, `f` of them failed exchanges. It ends when the thread is
  -- idle.
  pub data Call : ℕ → ℕ → Shared T → Pc T → Shared T → Pc T → Type 0 where
    here : {s : Shared T} {p : Pc T} → Call 0 0 s p s p
    next :
        {j f : ℕ} {s m s' : Shared T} {p q p' : Pc T} (mv : Move n s p m q)
        → IsBusy p
        → Call j f m q s' p'
        → Call (suc j) (failures mv + f) s p s' p'

  -- The thread is in a call and has a move in which no exchange fails.
  abbrev pub CanMove : Shared T → Pc T → Type 0
  CanMove s p = IsBusy p × ((m : Shared T) × (q : Pc T) × (mv : Move n s p m q) × (failures mv ≡ 0))

-- The cell serves this position, or is a number of positions behind that the distance tells.
abbrev pub Verdict : ℕ → ℕ → Type 0
Verdict seq pos = ((seq ≡ pos) × (distance seq pos ≡ 0)) ⊎ ((seq ≢ pos) × (128 ≤ distance seq pos))

-- A property that all moves of a call keep holds at its end, and the moves are bounded by the failures.
pub Call-bound :
    {T : Type 0} {n : ℕ} (At : Shared T → Pc T → Type 0)
    → ((s m : Shared T) (p q : Pc T) (mv : Move n s p m q)
        → IsBusy p
        → At s p
        → At m q × (suc (moves_left q) ≤ moves_left p + 2 * failures mv))
    → {j f : ℕ} {s s' : Shared T} {p p' : Pc T} → Call n j f s p s' p'
    → At s p
    → At s' p' × (j + moves_left p' ≤ moves_left p + 2 * f)
Call-bound At keep here a = (a, omega arith)
Call-bound At keep (next mv busy rest) a =
    let (a', less) = keep _ _ _ _ mv busy a in
    let (b, bound) = Call-bound At keep rest a' in (b, omega arith)
