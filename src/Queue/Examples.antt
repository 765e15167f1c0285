-- ===== src/Queue/Examples.antt =====
-- A queue of two cells, and one of 256 that is full.
use uni_alloc.Base.{
  ℕ, zero, suc, ◌+◌, ◌%◌, ◌<◌, ◌≡◌, ◌≤◌, ap, sym, ◌==◌, if◌then◌else◌, ◌⊎◌, refl, true, false, none,
  some, List, [], ◌∷◌, ◌++◌, length, get_elem?, arith,
}
use uni_alloc.Base.Run.{Run, ok, out_of_fuel, Returns, ◌>>=◌}
use uni_alloc.Queue.{MpMcQueue, new, enqueue, dequeue, distance, put}
use uni_alloc.Queue.Fifo.{
  get_elem?-lt, Holds, enqueue-Holds, dequeue-Holds, enqueue-full_large, new-Holds,
}

abbrev nothing : List ℕ
nothing = []

unfoldable empty : MpMcQueue ℕ
unfolding new
empty = new 2 0

abbrev seven : List ℕ
seven = 7 ∷ []

abbrev one : MpMcQueue ℕ
one = record {
  sequence = λ i. if i == 0 then 1 else i;
  item = λ i. 7;
  dequeue_pos = 0;
  enqueue_pos = 1;
}

one-Holds : Holds 2 one seven
one-Holds = record {
  count = omega arith;
  room = omega arith;
  filled = λ i x e. only i x e;
  waiting = λ i le lt. waits i le lt;
}
  where
    only :
        (i x : ℕ)
        → get_elem? seven i ≡ some x
        → (one.sequence ((0 + i) % 2) ≡ suc (0 + i)) × (one.item ((0 + i) % 2) ≡ x)
    only zero x e = (refl, ground arith)
    only (suc i) x e = absurd (ground arith)

    waits : (i : ℕ) → 1 ≤ i → i < 2 → one.sequence ((0 + i) % 2) ≡ 0 + i
    waits i le lt = ground arith

enqueue-Holds_example :
    Returns
      (λ (done, q').
        ((length nothing < 2) × (done ≡ true) × Holds 2 q' (nothing ++ (7 ∷ [])))
        ⊎ ((length nothing ≡ 2) × (done ≡ false) × (q' ≡ empty)))
      (enqueue {T = ℕ} 2 1 empty 7)
unfolding empty
enqueue-Holds_example =
    enqueue-Holds {T = ℕ} 2 empty nothing 7 (new-Holds 2 0) (omega arith) (omega arith)
      (omega arith) 0

dequeue-Holds_example :
    Returns
      (λ (o, q').
        ((seven ≡ []) × (o ≡ none) × (q' ≡ one))
        ⊎ ((y : ℕ) × (ys : List ℕ) × (seven ≡ y ∷ ys) × (o ≡ some y) × Holds 2 q' ys))
      (dequeue 2 1 one)
dequeue-Holds_example = dequeue-Holds 2 one seven 0 one-Holds (omega arith) (omega arith)

-- Two items go in, a third does not, and they come out in order.
round : Run (List ℕ)
round = do
  (_, q1) ← enqueue 2 1 empty 7
  (_, q2) ← enqueue 2 1 q1 8
  (_, q3) ← enqueue 2 1 q2 9
  (_, q4) ← dequeue 2 1 q3
  (o, q5) ← dequeue 2 1 q4
  ok (elim o [ none ↦ [] | some x ↦ x ∷ [] ])

round-ok : round ≡ ok (8 ∷ [])
unfolding round empty new uni_alloc.Queue.enqueue uni_alloc.Queue.dequeue distance put
round-ok = refl

-- 256 items at the positions from 0 on.
abbrev zeros : ℕ → List ℕ
zeros zero = []
zeros (suc k) = 0 ∷ zeros k

length-zeros : (k : ℕ) → length (zeros k) ≡ k
length-zeros zero = refl
length-zeros (suc k) = omega (arith, length-zeros k)

abbrev full : MpMcQueue ℕ
full = record { sequence = λ i. suc i; item = λ i. 0; dequeue_pos = 0; enqueue_pos = 256 }

get_elem?-zeros : (k i x : ℕ) → get_elem? (zeros k) i ≡ some x → 0 ≡ x
get_elem?-zeros zero i x e = absurd (ground arith)
get_elem?-zeros (suc k) zero x e = ground arith
get_elem?-zeros (suc k) (suc i) x e = get_elem?-zeros k i x e

full-Holds : Holds 256 full (zeros 256)
full-Holds = record {
  count = ap (λ k. 0 + k) (sym (length-zeros 256));
  room = omega (arith, length-zeros 256);
  filled = λ i x e.
      let inside = get_elem?-lt (zeros 256) i x e in
      (omega (arith, length-zeros 256), get_elem?-zeros 256 i x e);
  waiting = λ i le lt. absurd (omega (arith, length-zeros 256));
}

enqueue-full_large_example : enqueue 256 1000 full 5 ≡ out_of_fuel
enqueue-full_large_example =
    enqueue-full_large 256 full (zeros 256) 5 full-Holds (omega arith) refl (length-zeros 256)
      (omega arith) 1000
