-- ===== src/Queue.antt =====
-- unialloc/src/mpmc.rs: the bounded queue, when one thread runs at a time: no compare_exchange
-- fails. Positions and sequence numbers are words.
pub mod Fifo
pub mod Threads
mod Examples
use uni_alloc.Base.{
  ℕ, zero, suc, ◌+◌, ◌-◌, ◌%◌, ◌^◌, Bool, true, false, ltb, ◌==◌, if◌then◌else◌, Option, none, some,
}
use uni_alloc.Base.Run.{Run, ok, out_of_fuel}
use uni_alloc.Base.Words.{add64, sub64}

-- The cells by index, each with a sequence number and its item.
pub record MpMcQueue {ℓ} (T : Type ℓ) : Type ℓ where
  pub sequence : ℕ → ℕ
  pub item : ℕ → T
  pub dequeue_pos : ℕ
  pub enqueue_pos : ℕ

-- `(seq as i8).wrapping_sub(pos as i8)`, as a bit pattern; it is negative from 128 on.
unfoldable pub distance : ℕ → ℕ → ℕ
distance seq pos = sub64 seq pos % 2 ^ 8

unfoldable pub put {ℓ} : {A : Type ℓ} → (ℕ → A) → ℕ → A → ℕ → A
put f i v j = if j == i then v else f j

module _ {ℓ} {T : Type ℓ} (n : ℕ) where
  -- The memory of the items is not initialised: `blank` stands for what is there.
  unfoldable pub new : T → MpMcQueue T
  new blank = record { sequence = λ i. i; item = λ i. blank; dequeue_pos = 0; enqueue_pos = 0 }

  -- The loop rereads the position, which has not changed when no other thread runs. The size `n` is
  -- a power of two, so `pos & mask` is `pos % n`. `Ok` is true, `Err` false.
  pub enqueue : ℕ → MpMcQueue T → T → Run (Bool × MpMcQueue T)
  enqueue zero q x = out_of_fuel
  enqueue (suc fuel) q x =
      let pos = q.enqueue_pos in
      let cell = pos % n in
      let dif = distance (q.sequence cell) pos in
      let again = enqueue fuel q x in
      let stored : MpMcQueue T = record q {
        sequence = put q.sequence cell (add64 pos 1);
        item = put q.item cell x;
        enqueue_pos = add64 pos 1;
      } in
      if dif == 0 then ok (true, stored) else if ltb dif 128 then again else ok (false, q)

  pub dequeue : ℕ → MpMcQueue T → Run (Option T × MpMcQueue T)
  dequeue zero q = out_of_fuel
  dequeue (suc fuel) q =
      let pos = q.dequeue_pos in
      let cell = pos % n in
      let dif = distance (q.sequence cell) (add64 pos 1) in
      let again = dequeue fuel q in
      let taken : MpMcQueue T = record q {
        sequence = put q.sequence cell (add64 pos n);
        dequeue_pos = add64 pos 1;
      } in
      if dif == 0
      then ok (some (q.item cell), taken)
      else if ltb dif 128
      then again
      else ok (none, q)
