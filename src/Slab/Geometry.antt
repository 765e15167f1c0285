-- ===== src/Slab/Geometry.antt =====
-- `ScAllocator::new`: how many chunks of a size class a slab has, and how far apart they stand.
use native.Mathlib.Nat.{div-le_self, le-div_iff_mul-le}
use uni_alloc.Base.{
  ℕ, zero, suc, ◌+◌, ◌-◌, ◌*◌, ◌/◌, ◌%◌, ◌^◌, ◌≤◌, ◌<◌, ◌≡◌, ◌≢◌, refl, arith, ◌==◌, Bool-cases,
  inl, inr, ne→==,
}
use uni_alloc.Base.Run.{Returns, returns}
use uni_alloc.Base.Words.{
  add64, sub64, mul64, next_power_of_two, next_power_of_two_bounds, is_power_of_two,
}
use uni_alloc.Slab.Defs.{ScAllocator, new, align_for, min_align_for, rem_for}

min_align_for_bounds :
    (diff : ℕ) → diff < 2 ^ 63 → (0 < min_align_for diff) × (min_align_for diff ≤ diff + 1)
unfolding min_align_for
min_align_for_bounds zero h = unfold next_power_of_two in (omega arith, omega arith)
min_align_for_bounds (suc d) h =
    ground (arith, next_power_of_two_bounds (suc d) (omega arith) (omega arith))

-- q is the quotient and r the remainder of c by m.
round_up_bounds :
    (c m q r : ℕ)
    → c ≡ m * q + r
    → 0 < r
    → r < m
    → c + m < 2 ^ 64
    → (c ≤ mul64 (add64 q 1) m) × (mul64 (add64 q 1) m < c + m)
round_up_bounds c m q r e pos lt h =
    let small : q ≤ m * q = grind arith in
    let next : add64 q 1 ≡ q + 1 = omega arith in rw next (omega arith, omega arith)

rem_for_bounds : (c m : ℕ) → 0 < m → c + m < 2 ^ 64 → (c ≤ rem_for c m) × (rem_for c m < c + m)
unfolding rem_for
rem_for_bounds c m pos h = elim (Bool-cases (c % m == 0)) [
  | inl exact ↦ rw exact (omega arith, omega arith)
  | inr more ↦
      rw more (round_up_bounds c m (c / m) (c % m) (omega arith) (ground arith) (omega arith) h)
]

as_i32-eq : (x : ℕ) → x < 2 ^ 31 → x % 2 ^ 32 ≡ x
as_i32-eq x h = omega arith

-- With room for at least one chunk, the distance between chunks is at least the size class, and at
-- most the share of the slab that each chunk can have.
align_for_bounds :
    (c perfect : ℕ)
    → 0 < c
    → c ≤ perfect
    → perfect < 2 ^ 62
    → (c ≤ align_for c perfect) × (align_for c perfect ≤ perfect)
unfolding align_for
align_for_bounds c perfect pos le small = elim (Bool-cases (is_power_of_two perfect)) [
  | inl power ↦ rw power (le, omega arith)
  | inr other ↦
      let diff : sub64 perfect c ≡ perfect - c = omega arith in
      let m = min_align_for (perfect - c) in
      rw (other, diff)
        (omega (arith, rem_for_bounds c m, min_align_for_bounds (perfect - c) (omega arith)))
]

-- The chunks of a slab of `bytes` bytes: there is at least one, they do not overlap, the last one
-- ends inside the slab, and the slab has no room for one more chunk of the size class.
pub record IsTiling (bytes size_class : ℕ) (s : ScAllocator) : Type 0 where
  pub some_chunk : 0 < s.pg_count
  pub apart : size_class ≤ s.pg_align
  pub inside : s.pg_count * s.pg_align ≤ bytes
  pub maximal : bytes < (s.pg_count + 1) * size_class

module _ (bytes c n : ℕ) (count : n ≡ bytes / c) (pos : 0 < c) (fits : c ≤ bytes) where
  count_pos : 0 < n
  count_pos = grind arith

  count_le : n * c ≤ bytes
  count_le = grind arith

  count_lt : bytes < (n + 1) * c
  count_lt = grind arith

  share_ge : c ≤ bytes / n
  share_ge = (le-div_iff_mul-le count_pos).1 (omega (arith, count_le))

  share_le : (a : ℕ) → a ≤ bytes / n → n * a ≤ bytes
  share_le a h = omega (arith, (le-div_iff_mul-le count_pos).0 h)

  share_lt : bytes < 2 ^ 31 → (bytes / n < 2 ^ 31) × (n < 2 ^ 31)
  share_lt h = (grind (arith, div-le_self bytes n), grind (arith, div-le_self bytes c))

-- The numbers that `new` computes are small: none of them wraps.
pub record IsSmall (bytes c : ℕ) : Type 0 where
  pub some_chunk : bytes / c ≢ 0
  pub count : bytes / c % 2 ^ 32 ≡ bytes / c
  pub align : align_for c (bytes / (bytes / c)) % 2 ^ 32 ≡ align_for c (bytes / (bytes / c))

pub bytes-IsSmall : (bytes c : ℕ) → 0 < c → c ≤ bytes → bytes < 2 ^ 31 → IsSmall bytes c
bytes-IsSmall bytes c pos fits small =
    let k = bytes / c in
    let k_pos = count_pos bytes c k refl pos fits in
    let (share_small, k_small) = share_lt bytes c k refl pos fits small in
    let bounds =
      align_for_bounds c (bytes / k) pos (share_ge bytes c k refl pos fits) (omega arith) in
    record {
      some_chunk = λ e. absurd (omega (arith, e));
      count = as_i32-eq k k_small;
      align = as_i32-eq (align_for c (bytes / k)) (omega arith);
    }

-- For every size class and number of pages with room for one chunk, on pages of any size up to 2^31
-- bytes in all, `new` returns an allocator with empty lists whose chunks tile the slab.
pub new-IsTiling :
    (page_size size_class num_os_pages : ℕ)
    → 0 < size_class
    → size_class ≤ page_size * num_os_pages
    → page_size * num_os_pages < 2 ^ 31
    → Returns
        (λ s.
          IsTiling (page_size * num_os_pages) size_class s
          × (s.pg_num ≡ num_os_pages)
          × (s.empty_count ≡ 0))
        (new page_size size_class num_os_pages)
unfolding new
new-IsTiling page_size c n pos fits small =
    let bytes = page_size * n in
    let no_wrap : mul64 page_size n ≡ page_size * n = omega arith in
    let k = bytes / c in
    let k_pos = count_pos bytes c k refl pos fits in
    let (share_small, k_small) = share_lt bytes c k refl pos fits small in
    let (apart, within) =
      align_for_bounds c (bytes / k) pos (share_ge bytes c k refl pos fits) (omega arith) in
    rw
      (
        no_wrap,
        ne→== c 0 (omega arith),
        ne→== k 0 (omega arith),
        as_i32-eq k k_small,
        as_i32-eq (align_for c (bytes / k)) (omega arith),
      )
      (returns (
        record {
          some_chunk = k_pos;
          apart = apart;
          inside = share_le bytes c k refl pos fits (align_for c (bytes / k)) within;
          maximal = count_lt bytes c k refl pos fits;
        },
        refl,
        refl,
      ))
