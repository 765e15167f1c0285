-- ===== src/Queue/Threads/Serial.antt =====
-- `enqueue` and `dequeue` of the model for one thread at a time are runs of a thread of the model with
-- many threads, in which no exchange fails.
use uni_alloc.Base.{
  ℕ, zero, suc, ◌%◌, ◌≡◌, ◌⊎◌, inl, inr, arith, refl, ◌==◌, ltb, Bool-cases, ==→eq,
}
use uni_alloc.Base.Run.{out_of_fuel, Returns, returns, Returns-map}
use uni_alloc.Base.Words.{add64}
use uni_alloc.Queue.{MpMcQueue, distance, put, enqueue, dequeue}
use uni_alloc.Queue.Threads.{Pc, Shared, Move}
use uni_alloc.Queue.Threads.Progress.{Alone, stay, go}

module _ {T : Type 0} (n : ℕ) (q : MpMcQueue T) (entered : ℕ → T) where
  abbrev before : Shared T
  before = record { queue = q; entered = entered }

  -- Some run from `p` to the end of the operation, with the queue `q'`.
  pub Ends : Pc T → MpMcQueue T → Type 0
  Ends p q' =
      (k : ℕ) × (entered' : ℕ → T) × Alone n k before p (record { queue = q'; entered = entered' })
        Pc.idle

  enqueue_from :
      (fuel : ℕ) (x : T)
      → (enqueue n fuel q x ≡ out_of_fuel)
        ⊎ Returns (λ (done, q'). Ends (Pc.enq_loop x q.enqueue_pos) q') (enqueue n fuel q x)
  unfolding enqueue Ends
  enqueue_from zero x = inl refl
  enqueue_from (suc fuel) x =
      let pos = q.enqueue_pos in
      let dif = distance (q.sequence (pos % n)) pos in
      elim (Bool-cases (dif == 0)) [
        | inl e ↦ rw e (
            inr (
              returns (
                4,
                put entered pos x,
                go Move.see_enqueue (
                    go (Move.claim_enqueue (==→eq dif 0 e) refl)
                      (go Move.write_item (go Move.publish stay))),
              )))
        | inr e ↦ elim (Bool-cases (ltb dif 128)) [
          | inl f ↦
              rw (e, f)
                (elim (enqueue_from fuel x) [
                  | inl out ↦ inl out
                  | inr run ↦ inr (
                      Returns-map run λ (done, q') (k, entered', rest). (
                        suc (suc k),
                        entered',
                        go Move.see_enqueue
                            (go (Move.reload_enqueue (ground arith) (ground arith)) rest),
                      ))
                ])
          | inr f ↦
              rw (e, f)
                (inr
                  (returns (2, entered, go Move.see_enqueue (go (Move.full (ground arith)) stay))))
        ]
      ]

  dequeue_from :
      (fuel : ℕ)
      → (dequeue n fuel q ≡ out_of_fuel)
        ⊎ Returns (λ (o, q'). Ends (Pc.deq_loop q.dequeue_pos) q') (dequeue n fuel q)
  unfolding dequeue Ends
  dequeue_from zero = inl refl
  dequeue_from (suc fuel) =
      let pos = q.dequeue_pos in
      let dif = distance (q.sequence (pos % n)) (add64 pos 1) in
      elim (Bool-cases (dif == 0)) [
        | inl e ↦ rw e (
            inr (
              returns (
                4,
                entered,
                go Move.see_dequeue (
                    go (Move.claim_dequeue (==→eq dif 0 e) refl)
                      (go Move.read_item (go Move.release stay))),
              )))
        | inr e ↦ elim (Bool-cases (ltb dif 128)) [
          | inl f ↦
              rw (e, f)
                (elim (dequeue_from fuel) [
                  | inl out ↦ inl out
                  | inr run ↦ inr (
                      Returns-map run λ (o, q') (k, entered', rest). (
                        suc (suc k),
                        entered',
                        go Move.see_dequeue
                            (go (Move.reload_dequeue (ground arith) (ground arith)) rest),
                      ))
                ])
          | inr f ↦
              rw (e, f)
                (inr (
                  returns
                    (2, entered, go Move.see_dequeue (go (Move.nothing (ground arith)) stay))))
        ]
      ]

  -- With whatever fuel: if it does not run out, `enqueue` leaves the queue as some run of a thread alone
  -- does that starts `enqueue` with the same item.
  pub enqueue-Ends :
      (fuel : ℕ) (x : T)
      → (enqueue n fuel q x ≡ out_of_fuel)
        ⊎ Returns (λ (done, q'). Ends (Pc.enq_start x) q') (enqueue n fuel q x)
  unfolding Ends
  enqueue-Ends fuel x = elim (enqueue_from fuel x) [
    | inl out ↦ inl out
    | inr run ↦ inr (
        Returns-map run
          λ (done, q') (k, entered', rest). (suc k, entered', go Move.load_enqueue rest))
  ]

  -- With whatever fuel: if it does not run out, `dequeue` leaves the queue as some run of a thread alone
  -- does that starts `dequeue`.
  pub dequeue-Ends :
      (fuel : ℕ)
      → (dequeue n fuel q ≡ out_of_fuel)
        ⊎ Returns (λ (o, q'). Ends Pc.deq_start q') (dequeue n fuel q)
  unfolding Ends
  dequeue-Ends fuel = elim (dequeue_from fuel) [
    | inl out ↦ inl out
    | inr run ↦ inr (
        Returns-map run λ (o, q') (k, entered', rest). (suc k, entered', go Move.load_dequeue rest))
  ]
