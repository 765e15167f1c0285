-- ===== src/Queue/Threads/Claims.antt =====
-- What a successful compare_exchange of a position in mpmc.rs says of its cell, and the cells after it.
use uni_alloc.Base.{ℕ, suc, ◌+◌, ◌%◌, ◌^◌, ◌≡◌, ◌≤◌, ◌<◌, ◌⊎◌, inl, inr, arith, ◌∙◌, sym, ap}
use uni_alloc.Base.Words.{add64}
use uni_alloc.Queue.{distance}
use uni_alloc.Queue.Fifo.{own_cell}
use uni_alloc.Queue.Threads.{Shared}
use uni_alloc.Queue.Threads.Invariant.{AreCells}

-- Of two positions of one cell, less than two rounds apart.
pub near_turn : (n a p : ℕ) → a % n ≡ p % n → a < p + n → p ≤ a + n → (a ≡ p) ⊎ (a + n ≡ p)
near_turn n a p same low high = elim (order a p) [
  | inl (inl lt) ↦ elim (order p (a + n)) [
    | inl (inl near) ↦ absurd (ground (arith, own_cell n a p lt near))
    | inl (inr far) ↦ inr (sym far)
    | inr gt ↦ absurd (omega arith)
  ]
  | inl (inr e) ↦ inl e
  | inr gt ↦ absurd (ground (arith, own_cell n p a gt low))
]
  where
    order : (x y : ℕ) → ((x < y) ⊎ (x ≡ y)) ⊎ (y < x)
    order x y = omega arith

pub distance_zero :
    (seq pos n : ℕ)
    → distance seq pos ≡ 0
    → n ≤ 128
    → pos < 2 ^ 64
    → seq ≤ pos
    → pos ≤ seq + n + 1
    → seq ≡ pos
unfolding distance
distance_zero seq pos n e high words below near = omega arith

module _ {T : Type 0} (n : ℕ) (s : Shared T) (turn : ℕ → ℕ) (cells : AreCells n s turn)
    (low : 2 ≤ n) (high : n ≤ 128) (small : s.enqueue_pos + n < 2 ^ 64) where
  pub cell-lt : (p : ℕ) → p % n < n
  cell-lt p = grind arith

  module _ (pos seq : ℕ) (read : seq ≤ s.sequence (pos % n)) (recent : pos ≤ seq + n) where
    -- The number that was read is still there, and the cell waits for the item.
    pub enqueue_turn :
        distance seq pos ≡ 0
        → s.enqueue_pos ≡ pos
        → (turn (pos % n) ≡ pos) × (s.sequence (pos % n) ≡ pos)
    enqueue_turn match now =
        let c = pos % n in
        let inside = cell-lt pos in
        elim (near_turn n (turn c) pos (cells.place c inside)
          (omega (arith, cells.ahead c inside, cells.order))
          (omega (arith, cells.behind c inside))) [
            | inl e ↦ elim (cells.phase c inside) [
              | inl (f, _) ↦ (e, f ∙ e)
              | inr (_, f, _) ↦ absurd (omega arith)
            ]
            | inr e ↦ elim (cells.phase c inside) [
              | inl (f, _) ↦ absurd (
                  omega (
                    arith,
                    distance_zero seq pos n match high (omega arith) (omega arith) (omega arith),
                  ))
              | inr (f, _, _) ↦ absurd (
                  omega (
                    arith,
                    distance_zero seq pos n match high (omega arith) (omega arith) (omega arith),
                  ))
            ]
          ]

    -- The number that was read is still there, and the cell has an item.
    pub dequeue_turn :
        distance seq (add64 pos 1) ≡ 0
        → s.dequeue_pos ≡ pos
        → (turn (pos % n) ≡ pos) × (s.sequence (pos % n) ≡ suc pos) × (pos < s.enqueue_pos)
    dequeue_turn match now =
        let c = pos % n in
        let inside = cell-lt pos in
        let next : add64 pos 1 ≡ suc pos = omega (arith, cells.order) in
        let match' : distance seq (suc pos) ≡ 0 = rw next at match in
        elim (near_turn n (turn c) pos (cells.place c inside)
          (omega (arith, cells.ahead c inside, cells.order))
          (omega (arith, cells.behind c inside, cells.order))) [
            | inl e ↦ elim (cells.phase c inside) [
              | inl (f, _) ↦ absurd (
                  omega (
                    arith,
                    distance_zero seq (suc pos) n match' high (omega (arith, cells.order))
                        (omega arith) (omega arith),
                  ))
              | inr (f, g, _) ↦ (e, f ∙ ap suc e, omega arith)
            ]
            | inr e ↦ elim (cells.phase c inside) [
              | inl (f, _) ↦ absurd (
                  omega (
                    arith,
                    distance_zero seq (suc pos) n match' high (omega (arith, cells.order))
                        (omega arith) (omega arith),
                  ))
              | inr (f, _, _) ↦ absurd (
                  omega (
                    arith,
                    distance_zero seq (suc pos) n match' high (omega (arith, cells.order))
                        (omega arith) (omega arith),
                  ))
            ]
          ]
