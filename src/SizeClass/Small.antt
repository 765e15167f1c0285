-- ===== src/SizeClass/Small.antt =====
-- unialloc/src/size_class/small_size_class.rs: the size classes of the `fixed_heap` feature, with
-- the rounding of size_class/mod.rs over them.
use uni_alloc.Base.{
  ℕ, zero, suc, ◌+◌, ◌-◌, ◌*◌, ◌/◌, ◌%◌, ◌^◌, ◌≤◌, ◌<◌, ◌≡◌, refl, Bool, true, false, ◌&&◌, ◌↔◌,
  List, [], ◌∷◌, arith, leb, le→leb, get_elem?, ◌==◌, if◌then◌else◌, holds_below, test-holds_below,
}
use native.Mathlib.Numerals.{add-one}
use uni_alloc.Base.Run.{Run, ok, panic, out_of_fuel, Returns, returns, expect}
use uni_alloc.Base.Words.{add64, sub64, trailing_zeros}
use uni_alloc.SizeClass.{SizeClass, base, large, index}

abbrev size_array : List ℕ
size_array = 0 ∷ 8 ∷ 16 ∷ 32 ∷ 64 ∷ 128 ∷ 256 ∷ 512 ∷ 1024 ∷ 2048 ∷ []

abbrev max_size : ℕ
max_size = 2048

unfoldable pub get_rounded_size_by_idx : ℕ → Run ℕ
get_rounded_size_by_idx idx = expect (get_elem? size_array idx)

-- `(req + 7) & !7`: clearing the low three bits takes the remainder by 8 off.
unfoldable pub final_size : ℕ → ℕ
final_size req = add64 req 7 - add64 req 7 % 8

-- `trailing_zeros` is below 65, so `- 2` is on a `usize` that wraps for the values 0 and 1 only.
unfoldable pub get_size_class : ℕ → SizeClass
unfolding final_size
get_size_class req =
    if leb (final_size req) max_size
    then base (sub64 (trailing_zeros (final_size req)) 2)
    else large req

unfoldable pub get_rounded_size : ℕ → Run ℕ
get_rounded_size sz = get_rounded_size_by_idx (index (get_size_class sz))

-- The rounded size of each multiple of 8: its largest factor that is a power of two.
class_check : ℕ → Bool
class_check k = elim (get_rounded_size_by_idx (sub64 (trailing_zeros (8 * k)) 2)) [
  | ok s ↦ (s == 2 ^ trailing_zeros (8 * k)) && (leb s (8 * k) && (s % 8 == 0))
  | panic ↦ false
  | out_of_fuel ↦ false
]

class_table : holds_below (λ n. class_check (n + 1)) 256 ≡ true
unfolding holds_below class_check get_rounded_size_by_idx trailing_zeros
class_table = refl

class_check-Returns :
    (k req : ℕ)
    → class_check k ≡ true
    → req ≤ 8 * k
    → 8 * k < req + 8
    → Returns
        (λ s. (s ≡ 2 ^ trailing_zeros (8 * k)) × ((req ≤ s) ↔ (8 * k ≡ 2 ^ trailing_zeros (8 * k))))
        (get_rounded_size_by_idx (sub64 (trailing_zeros (8 * k)) 2))
unfolding class_check
class_check-Returns k req h a b = go (get_rounded_size_by_idx _) refl
  where
    go :
        (r : Run ℕ)
        → get_rounded_size_by_idx (sub64 (trailing_zeros (8 * k)) 2) ≡ r
        → Returns
            (λ s.
              (s ≡ 2 ^ trailing_zeros (8 * k)) × ((req ≤ s) ↔ (8 * k ≡ 2 ^ trailing_zeros (8 * k))))
            r
    go (ok s) e =
        let f : s ≡ 2 ^ trailing_zeros (8 * k) = ground arith in
        let g : s ≤ 8 * k = ground arith in
        let m : s % 8 ≡ 0 = ground arith in returns (f, (λ p. omega arith, λ p. omega arith))
    go panic e = absurd (ground arith)
    go out_of_fuel e = absurd (ground arith)

final_size-eq : (req : ℕ) → req ≤ max_size → final_size req ≡ 8 * ((req + 7) / 8)
unfolding final_size
final_size-eq req h = omega arith

-- A size from 1 to 2048, taken up to a multiple of 8, is rounded to the largest power of two that
-- divides this multiple. So the rounded size holds the request exactly when the multiple is itself a
-- power of two; for every other size it is too small.
pub get_rounded_size-fits_iff :
    (req : ℕ)
    → 0 < req
    → req ≤ max_size
    → Returns
        (λ s.
          (s ≡ 2 ^ trailing_zeros (final_size req))
          × ((req ≤ s) ↔ (final_size req ≡ 2 ^ trailing_zeros (final_size req))))
        (get_rounded_size req)
unfolding get_rounded_size get_size_class index
get_rounded_size-fits_iff req pos h =
    let k = (req + 7) / 8 in
    rw (final_size-eq req h, le→leb (8 * k) max_size (omega arith))
      (class_check-Returns k req (check k (omega arith) (omega arith)) (omega arith) (omega arith))
  where
    check : (k : ℕ) → 0 < k → k ≤ 256 → class_check k ≡ true
    check (suc n) a b = rw add-one at (test-holds_below _ 256 n (omega arith) class_table)
    check zero a b = absurd (omega arith)
