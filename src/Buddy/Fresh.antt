-- ===== src/Buddy/Fresh.antt =====
-- The table of `new` stands for one free block.
use native.Mathlib.Nat.{pow-suc}
use uni_alloc.Base.{
  ℕ, zero, suc, ◌+◌, ◌-◌, ◌*◌, ◌^◌, ◌<◌, ◌≤◌, ◌≡◌, refl, ap, ◌∙◌, arith, List, [], ◌∷◌, Bool-cases,
  inl, inr, ◌==◌, ==→eq,
}
use uni_alloc.Buddy.{FlatBlocks, write_bytes, write_rows, new_rows, new}
use uni_alloc.Buddy.Space.{free}
use uni_alloc.Buddy.Nodes.{Stands}
use uni_alloc.Buddy.Taking.{pow_pos}

-- The rows of the levels from `j` on, `count` of them; the nodes of level `j` are of order `22 - j`.
rows_from : ℕ → ℕ → List (ℕ × ℕ × ℕ)
rows_from j zero = []
rows_from j (suc count) = (2 ^ j - 1, 23 - j, 2 ^ j) ∷ rows_from (suc j) count

rows-eq : new_rows ≡ rows_from 0 23
unfolding rows_from
rows-eq = refl

-- The rows of deeper levels leave an index as it is.
rows_before :
    (count j i : ℕ) (t : FlatBlocks) → i < 2 ^ j - 1 → write_rows t (rows_from j count) i ≡ t i
unfolding write_rows rows_from
rows_before zero j i t h = refl
rows_before (suc count) j i t h =
    rows_before count (suc j) i (write_bytes t (2 ^ j - 1, 23 - j, 2 ^ j))
      (omega (arith, pow-suc 2 j))
    ∙ unfold write_bytes in ground (arith, pow_pos j)

rows_at :
    (count j v i : ℕ) (t : FlatBlocks)
    → j ≤ v
    → v < j + count
    → 2 ^ v - 1 ≤ i
    → i < 2 ^ suc v - 1
    → write_rows t (rows_from j count) i ≡ 23 - v
unfolding write_rows rows_from
rows_at zero j v i t from below low high = absurd (omega arith)
rows_at (suc count) j v i t from below low high =
    let t' = write_bytes t (2 ^ j - 1, 23 - j, 2 ^ j) in
    elim (Bool-cases (j == v)) [
      | inl same ↦
          let e : j ≡ v = ==→eq j v same in
          let power : 2 ^ j ≡ 2 ^ v = ap (λ x. 2 ^ x) e in
          let end : 2 ^ suc j ≡ 2 ^ suc v = ap (λ x. 2 ^ suc x) e in
          rows_before count (suc j) i t' (omega (arith, end, high))
          ∙ row_here j v i t e (omega (arith, power, low)) (omega (arith, power, high, pow-suc 2 v))
      | inr differ ↦ rows_at count (suc j) v i t' (ground arith) (omega arith) low high
    ]
  where
    row_here :
        (j v i : ℕ) (t : FlatBlocks)
        → j ≡ v
        → 2 ^ j - 1 ≤ i
        → i < 2 ^ j - 1 + 2 ^ j
        → write_bytes t (2 ^ j - 1, 23 - j, 2 ^ j) i ≡ 23 - v
    row_here j v i t e low high = unfold write_bytes in ground arith

new-byte :
    (t : FlatBlocks) (k v n : ℕ) → k + v ≡ 22 → 2 ^ v ≤ n → n < 2 ^ suc v → new t (n - 1) ≡ suc k
unfolding new
new-byte t k v n level low high =
    ap (λ rows. write_rows t rows (n - 1)) rows-eq
    ∙ rows_at 23 0 v (n - 1) t (omega arith) (omega arith) (omega arith)
        (omega (arith, high, low, pow_pos v))
    ∙ omega arith

-- A node of the level `v` and of order `k` is free as a whole.
new-free_at :
    (t : FlatBlocks) (k v n : ℕ) → k + v ≡ 22 → 2 ^ v ≤ n → n < 2 ^ suc v → Stands (new t) n k free
new-free_at t zero v n level low high = new-byte t 0 v n level low high
new-free_at t (suc k) v n level low high = (
  new-byte t (suc k) v n level low high,
  new-free_at t k (suc v) (2 * n) (omega arith) (omega (arith, low, pow-suc 2 v))
      (omega (arith, high, pow-suc 2 (suc v))),
  new-free_at t k (suc v) (2 * n + 1) (omega arith) (omega (arith, low, pow-suc 2 v))
      (omega (arith, high, pow-suc 2 (suc v))),
)

-- Whatever the array held before, `new` makes it stand for one free block of order 22, which is
-- MAX_ORDER for LEVEL_COUNT 23.
pub new-Stands : (t : FlatBlocks) → Stands (new t) 1 22 free
new-Stands t = new-free_at t 22 0 1 (omega arith) (omega arith) (omega arith)
