-- ===== src/Queue/Fifo.antt =====
-- The queue of up to 128 cells as a bounded first-in first-out list, and a full queue of 256.
use uni_alloc.Base.{
  ℕ, zero, suc, ◌+◌, ◌%◌, ◌^◌, ◌/◌, ◌⊎◌, inl, inr, ◌<◌, ◌≤◌, ◌≡◌, refl, sym, ap, ◌∙◌, le→ltb, true,
  false, ◌==◌, none, some, List, [], ◌∷◌, ◌++◌, length, get_elem?, arith, length-append, ne→==,
  eq→==,
}
use native.Mathlib.Nat.{mod-eq_of_lt, div-add-mod, mul-le-mul_left, mul-suc, add-mod_right}
use mathlib.Core.Path.{subst, ap₂}
use uni_alloc.Base.Run.{out_of_fuel, Returns, returns}
use uni_alloc.Base.Words.{add64}
use uni_alloc.Queue.{MpMcQueue, distance, put, new, enqueue, dequeue}

-- Positions less than `n` apart have cells of their own.
room_or_full : (x y : ℕ) → x ≤ y → (x < y) ⊎ (x ≡ y)
room_or_full x y h = omega arith

pub own_cell : (n a b : ℕ) → a < b → b < a + n → (a % n == b % n) ≡ false
own_cell n a b lt near = ne→== (a % n) (b % n) λ e.
    let same_a = div-add-mod a n in
    let same_b = div-add-mod b n in
    elim (compare_le (b / n) (a / n)) [
      | inl le ↦ absurd (omega (arith, same_a, same_b, e, mul-le-mul_left n le))
      | inr gt ↦ absurd (omega (arith, same_a, same_b, e, mul-le-mul_left n gt, mul-suc n (a / n)))
    ]
  where
    compare_le : (x y : ℕ) → (x ≤ y) ⊎ (suc y ≤ x)
    compare_le x y = omega arith

distance_self : (a : ℕ) → a < 2 ^ 64 → distance a a ≡ 0
unfolding distance
distance_self a h = omega arith

-- One round of the counter behind: negative as an i8 while `n` is at most 128.
distance_behind : (a n : ℕ) → 2 ≤ n → n ≤ 128 → a + n < 2 ^ 64 → (129 ≤ distance (suc a) (a + n))
unfolding distance
distance_behind a n low high h = omega arith

some_inj {ℓ} : {A : Type ℓ} (x y : A) → some x ≡ some y → x ≡ y
some_inj x y e = ap (λ o. elim o [ none ↦ x | some z ↦ z ]) e

get_elem?-append_last {ℓ} :
    {A : Type ℓ} (xs : List A) (x y : A) (i : ℕ)
    → get_elem? (xs ++ (x ∷ [])) i ≡ some y
    → ((i < length xs) × (get_elem? xs i ≡ some y)) ⊎ ((i ≡ length xs) × (x ≡ y))
get_elem?-append_last [] x y zero h = inr (refl, some_inj x y h)
get_elem?-append_last [] x y (suc i) h = absurd (ground arith)
get_elem?-append_last (z ∷ zs) x y zero h = inl (omega arith, h)
get_elem?-append_last (z ∷ zs) x y (suc i) h = elim (get_elem?-append_last zs x y i h) [
  | inl (lt, e) ↦ inl (omega arith, e)
  | inr (e, f) ↦ inr (omega arith, f)
]

start : (a : ℕ) → a + 0 ≡ a
start a = omega arith

distance_ahead : (a : ℕ) → suc a < 2 ^ 64 → distance a (suc a) ≡ 255
unfolding distance
distance_ahead a h = omega arith

distance_large : (a n : ℕ) → n % 256 ≡ 0 → a + n < 2 ^ 64 → distance (suc a) (a + n) ≡ 1
unfolding distance
distance_large a n large h = omega arith

pub get_elem?-lt {ℓ} :
    {A : Type ℓ} (xs : List A) (i : ℕ) (x : A) → get_elem? xs i ≡ some x → i < length xs
get_elem?-lt [] i x h = absurd (ground arith)
get_elem?-lt (y ∷ ys) zero x h = omega arith
get_elem?-lt (y ∷ ys) (suc i) x h = omega (arith, get_elem?-lt ys i x h)

first_elem {ℓ} : {A : Type ℓ} (xs : List A) → 0 < length xs → (y : A) × (get_elem? xs 0 ≡ some y)
first_elem [] h = absurd (omega arith)
first_elem (x ∷ xs) h = (x, refl)

module _ {ℓ} {T : Type ℓ} (n : ℕ) where
  -- The items `xs` stand at the positions from `dequeue_pos` on, and the cells behind them wait for
  -- theirs. Positions stay below 2^64.
  pub record Holds (q : MpMcQueue T) (xs : List T) : Type ℓ where
    pub count : q.enqueue_pos ≡ q.dequeue_pos + length xs
    pub room : length xs ≤ n
    pub filled :
        (i : ℕ) (x : T)
        → get_elem? xs i ≡ some x
        → (q.sequence ((q.dequeue_pos + i) % n) ≡ suc (q.dequeue_pos + i))
          × (q.item ((q.dequeue_pos + i) % n) ≡ x)
    pub waiting :
        (i : ℕ) → length xs ≤ i → i < n → q.sequence ((q.dequeue_pos + i) % n) ≡ q.dequeue_pos + i

  -- In a full queue the next cell still has its first item, one round behind.
  full_distance :
      (q : MpMcQueue T) (xs : List T)
      → Holds q xs
      → 0 < n
      → length xs ≡ n
      → distance (q.sequence (q.enqueue_pos % n)) q.enqueue_pos
        ≡ distance (suc q.dequeue_pos) (q.dequeue_pos + n)
  full_distance q xs holds pos full =
      let (y, e) = first_elem xs (omega arith) in
      let place : q.enqueue_pos ≡ q.dequeue_pos + n = omega (arith, holds.count) in
      let first = sym (start q.dequeue_pos) in
      let cell : q.enqueue_pos % n ≡ (q.dequeue_pos + 0) % n =
        ap (λ a. a % n) place ∙ add-mod_right q.dequeue_pos n ∙ ap (λ a. a % n) first in
      let here : q.sequence (q.enqueue_pos % n) ≡ suc (q.dequeue_pos + 0) =
        ap q.sequence cell ∙ (holds.filled 0 y e).0 in
      ap₂ distance (here ∙ ap suc (sym first)) place

  module _ (q : MpMcQueue T) (xs : List T) (x : T) (holds : Holds q xs) (low : 2 ≤ n)
      (high : n ≤ 128) (words : q.dequeue_pos + n < 2 ^ 64) where
    added : MpMcQueue T
    added = record q {
      sequence = put q.sequence (q.enqueue_pos % n) (add64 q.enqueue_pos 1);
      item = put q.item (q.enqueue_pos % n) x;
      enqueue_pos = add64 q.enqueue_pos 1;
    }

    -- With room for it, the new item comes last.
    added-Holds : length xs < n → Holds added (xs ++ (x ∷ []))
    unfolding added put
    added-Holds room =
        let next : add64 q.enqueue_pos 1 ≡ suc q.enqueue_pos = omega (arith, holds.count) in
        record {
          count = omega (arith, holds.count, length-append xs (x ∷ []));
          room = omega (arith, length-append xs (x ∷ []));
          filled = λ i y e. elim (get_elem?-append_last xs x y i e) [
            | inl (lt, f) ↦
                rw
                  (own_cell n (q.dequeue_pos + i) q.enqueue_pos (omega (arith, holds.count))
                    (omega (arith, holds.count)))
                  (holds.filled i y f)
            | inr (f, g) ↦
                let place : q.dequeue_pos + i ≡ q.enqueue_pos = omega (arith, holds.count) in
                rw (place, eq→== (q.enqueue_pos % n) (q.enqueue_pos % n) refl) (next, g)
          ];
          waiting = λ i le lt.
              let more = length-append xs (x ∷ []) in
              let other =
                own_cell n q.enqueue_pos (q.dequeue_pos + i) (omega (arith, holds.count))
                  (omega (arith, holds.count)) in
              let free : ((q.dequeue_pos + i) % n == q.enqueue_pos % n) ≡ false = ground arith in
              rw free (holds.waiting i (omega arith) lt);
        }

    pub enqueue-Holds :
        (fuel : ℕ)
        → Returns
            (λ (done, q').
              ((length xs < n) × (done ≡ true) × Holds q' (xs ++ (x ∷ [])))
              ⊎ ((length xs ≡ n) × (done ≡ false) × (q' ≡ q)))
            (enqueue n (suc fuel) q x)
    unfolding enqueue added
    enqueue-Holds fuel = elim (room_or_full (length xs) n holds.room) [
      | inl room ↦
          let place : q.dequeue_pos + length xs ≡ q.enqueue_pos = sym holds.count in
          let here =
            subst (λ a. q.sequence (a % n) ≡ a) place
              (holds.waiting (length xs) (omega arith) room) in
          let same : distance (q.sequence (q.enqueue_pos % n)) q.enqueue_pos ≡ 0 =
            ap (λ a. distance a q.enqueue_pos) here ∙ distance_self q.enqueue_pos (omega arith) in
          rw same (returns {a = (true, added)} (inl (room, refl, added-Holds room)))
      | inr full ↦
          let same = full_distance q xs holds (omega arith) full in
          let far = distance_behind q.dequeue_pos n low high words in
          let gap = distance (suc q.dequeue_pos) (q.dequeue_pos + n) in
          rw (same, ne→== gap 0 (omega arith), le→ltb gap 128 (omega arith))
            (returns {a = (false, q)} (inr (full, refl, refl)))
    ]

  module _ (q : MpMcQueue T) (low : 2 ≤ n) (words : q.dequeue_pos + n < 2 ^ 64) where
    taken : MpMcQueue T
    taken = record q {
      sequence = put q.sequence (q.dequeue_pos % n) (add64 q.dequeue_pos n);
      dequeue_pos = add64 q.dequeue_pos 1;
    }

    -- The cell of the first item waits for its next one.
    taken-Holds : (y : T) (ys : List T) → Holds q (y ∷ ys) → Holds taken ys
    unfolding taken put
    taken-Holds y ys holds =
        let next : add64 q.dequeue_pos 1 ≡ suc q.dequeue_pos = omega arith in
        let again : add64 q.dequeue_pos n ≡ q.dequeue_pos + n = omega arith in
        rw (next, again)
          (record {
            count = omega (arith, holds.count);
            room = omega (arith, holds.room);
            filled = λ i x e.
                let place : suc q.dequeue_pos + i ≡ q.dequeue_pos + suc i = omega arith in
                let inside = get_elem?-lt ys i x e in
                let other =
                  own_cell n q.dequeue_pos (q.dequeue_pos + suc i) (omega arith)
                    (omega (arith, holds.room)) in
                let kept : ((q.dequeue_pos + suc i) % n == q.dequeue_pos % n) ≡ false =
                  ground arith in
                rw (place, kept) (holds.filled (suc i) x e);
            waiting = λ i le lt. elim (room_or_full (suc i) n lt) [
              | inl more ↦
                  let place : suc q.dequeue_pos + i ≡ q.dequeue_pos + suc i = omega arith in
                  let other =
                    own_cell n q.dequeue_pos (q.dequeue_pos + suc i) (omega arith) (omega arith) in
                  let kept : ((q.dequeue_pos + suc i) % n == q.dequeue_pos % n) ≡ false =
                    ground arith in
                  rw (place, kept) (holds.waiting (suc i) (omega arith) more)
              | inr last ↦
                  let place : suc q.dequeue_pos + i ≡ q.dequeue_pos + n = omega arith in
                  rw
                    (
                      place,
                      add-mod_right q.dequeue_pos n,
                      eq→== (q.dequeue_pos % n) (q.dequeue_pos % n) refl,
                    )
                    refl
            ];
          })

  -- A full queue of 256 cells, or another multiple of 256, takes the next cell for one that another
  -- thread has just filled: `enqueue` does not return.
  pub enqueue-full_large :
      (q : MpMcQueue T) (xs : List T) (x : T)
      → Holds q xs
      → 0 < n
      → n % 256 ≡ 0
      → length xs ≡ n
      → q.dequeue_pos + n < 2 ^ 64
      → (fuel : ℕ) → enqueue n fuel q x ≡ out_of_fuel
  unfolding enqueue
  enqueue-full_large q xs x holds pos large full words zero = refl
  enqueue-full_large q xs x holds pos large full words (suc fuel) =
      let same = full_distance q xs holds pos full in
      let one : distance (suc q.dequeue_pos) (q.dequeue_pos + n) ≡ 1 =
        distance_large q.dequeue_pos n large words in
      rw (same, one) (enqueue-full_large q xs x holds pos large full words fuel)

  -- The new queue is empty.
  pub new-Holds : (blank : T) → Holds (new n blank) []
  unfolding new
  new-Holds blank = record {
    count = omega arith;
    room = omega arith;
    filled = λ i x e. absurd (ground arith);
    waiting = λ i le lt. mod-eq_of_lt (omega arith);
  }

  -- The first item comes out; an empty queue answers none.
  pub dequeue-Holds :
      (q : MpMcQueue T) (xs : List T) (fuel : ℕ)
      → Holds q xs
      → 2 ≤ n
      → q.dequeue_pos + n < 2 ^ 64
      → Returns
          (λ (o, q').
            ((xs ≡ []) × (o ≡ none) × (q' ≡ q))
            ⊎ ((y : T) × (ys : List T) × (xs ≡ y ∷ ys) × (o ≡ some y) × Holds q' ys))
          (dequeue n (suc fuel) q)
  unfolding dequeue taken
  dequeue-Holds q [] fuel holds low words =
      let here : q.sequence (q.dequeue_pos % n) ≡ q.dequeue_pos =
        subst (λ a. q.sequence (a % n) ≡ a) (start q.dequeue_pos)
          (holds.waiting 0 (omega arith) (omega arith)) in
      let next : add64 q.dequeue_pos 1 ≡ suc q.dequeue_pos = omega arith in
      rw (next, here, distance_ahead q.dequeue_pos (omega arith))
        (returns {a = (none, q)} (inl (refl, refl, refl)))
  dequeue-Holds q (y ∷ ys) fuel holds low words =
      let (seq, item) =
        subst (λ a. (q.sequence (a % n) ≡ suc a) × (q.item (a % n) ≡ y)) (start q.dequeue_pos)
          (holds.filled 0 y refl) in
      let next : add64 q.dequeue_pos 1 ≡ suc q.dequeue_pos = omega arith in
      let same : distance (q.sequence (q.dequeue_pos % n)) (add64 q.dequeue_pos 1) ≡ 0 =
        ap₂ distance seq next ∙ distance_self (suc q.dequeue_pos) (omega arith) in
      rw (same, item)
        (returns {a = (some y, taken q low words)}
          (inr (y, ys, refl, refl, taken-Holds q low words y ys holds)))
