-- ===== src/Bitfield/Laws.antt =====
-- Setting and clearing a bit changes that bit only, and clearing a bit that was set last undoes it.
use uni_alloc.Base.{
  ℕ, zero, suc, ◌+◌, ◌≤◌, ◌*◌, ◌/◌, ◌∷◌, ◌%◌, ◌<◌, ◌≡◌, refl, ap, ◌∙◌, false, ◌==◌, ◌||◌, ◌&&◌, not,
  List, set, length, arith, eq→==, ==→eq, inl, inr, Bool-cases,
}
use uni_alloc.Base.Array.{get_or, get_or-set, set-set_self, set-get_or}
use uni_alloc.Bitfield.{
  bit, set_bit, clear_bit, field_bit, set_field_bit, clear_field_bit, trailing_ones,
}

-- The two digits of a number put together.
half : (q r : ℕ) → r < 2 → (q * 2 + r) / 2 ≡ q
half q r h = omega arith

pub bit-set_bit : (i j x : ℕ) → bit j (set_bit i x) ≡ ((i == j) || bit j x)
unfolding bit set_bit
bit-set_bit zero zero x = ground arith
bit-set_bit zero (suc j) x =
    let e : (x / 2 * 2 + 1) / 2 ≡ x / 2 = omega arith in ground (arith, ap (bit j) e)
bit-set_bit (suc i) zero x = ground arith
bit-set_bit (suc i) (suc j) x =
    ap (bit j) (half (set_bit i (x / 2)) (x % 2) (omega arith))
    ∙ ground (arith, bit-set_bit i j (x / 2))

pub bit-clear_bit : (i j x : ℕ) → bit j (clear_bit i x) ≡ (not (i == j) && bit j x)
unfolding bit clear_bit
bit-clear_bit zero zero x = ground arith
bit-clear_bit zero (suc j) x =
    let e : x / 2 * 2 / 2 ≡ x / 2 = omega arith in ground (arith, ap (bit j) e)
bit-clear_bit (suc i) zero x = ground arith
bit-clear_bit (suc i) (suc j) x =
    ap (bit j) (half (clear_bit i (x / 2)) (x % 2) (omega arith))
    ∙ ground (arith, bit-clear_bit i j (x / 2))

pub clear_bit-set_bit : (i x : ℕ) → bit i x ≡ false → clear_bit i (set_bit i x) ≡ x
unfolding bit set_bit clear_bit
clear_bit-set_bit zero x h = ground arith
clear_bit-set_bit (suc i) x h =
    let rest = clear_bit-set_bit i (x / 2) h in
    let down = half (set_bit i (x / 2)) (x % 2) (omega arith) in
    let low : (set_bit i (x / 2) * 2 + x % 2) % 2 ≡ x % 2 = omega arith in
    rw (down, rest, low) (omega arith)

pub clear_field_bit-set_field_bit :
    (bits : List ℕ) (i : ℕ)
    → i / 32 < length bits
    → field_bit bits i ≡ false
    → clear_field_bit (set_field_bit bits i) i ≡ bits
unfolding field_bit set_field_bit clear_field_bit
clear_field_bit-set_field_bit bits i h free =
    let w = get_or 0 bits (i / 32) in
    let word : get_or 0 (set bits (i / 32) (set_bit (i % 32) w)) (i / 32) ≡ set_bit (i % 32) w =
      rw (get_or-set 0 bits (i / 32) (i / 32) (set_bit (i % 32) w) h, eq→== (i / 32) (i / 32) refl)
        refl in
    rw
      (
        word,
        set-set_self bits (i / 32) (set_bit (i % 32) w) (clear_bit (i % 32) (set_bit (i % 32) w)),
        clear_bit-set_bit (i % 32) w free,
        set-get_or 0 bits (i / 32),
      )
      refl

-- Two indices in one word have different places in it.
same_word : (i j : ℕ) → i / 32 ≡ j / 32 → (i == j) ≡ (i % 32 == j % 32)
same_word i j e = ground arith

different_word : (i j : ℕ) → (i / 32 == j / 32) ≡ false → (i == j) ≡ false
different_word i j e = ground arith

pub field_bit-set_field_bit :
    (bits : List ℕ) (i j : ℕ)
    → i / 32 < length bits
    → field_bit (set_field_bit bits i) j ≡ ((i == j) || field_bit bits j)
unfolding field_bit set_field_bit
field_bit-set_field_bit bits i j h =
    let w = get_or 0 bits (i / 32) in
    let word = get_or-set 0 bits (i / 32) (j / 32) (set_bit (i % 32) w) h in
    elim (Bool-cases (i / 32 == j / 32)) [
      | inl same ↦
          let e : i / 32 ≡ j / 32 = ==→eq (i / 32) (j / 32) same in
          rw (word, same)
            (ground (
              arith,
              bit-set_bit (i % 32) (j % 32) w,
              same_word i j e,
              ap (λ k. bit (j % 32) (get_or 0 bits k)) e,
            ))
      | inr other ↦ rw (word, other) (ground (arith, different_word i j other))
    ]

pub field_bit-clear_field_bit :
    (bits : List ℕ) (i j : ℕ)
    → i / 32 < length bits
    → field_bit (clear_field_bit bits i) j ≡ (not (i == j) && field_bit bits j)
unfolding field_bit clear_field_bit
field_bit-clear_field_bit bits i j h =
    let w = get_or 0 bits (i / 32) in
    let word = get_or-set 0 bits (i / 32) (j / 32) (clear_bit (i % 32) w) h in
    elim (Bool-cases (i / 32 == j / 32)) [
      | inl same ↦
          let e : i / 32 ≡ j / 32 = ==→eq (i / 32) (j / 32) same in
          rw (word, same)
            (ground (
              arith,
              bit-clear_bit (i % 32) (j % 32) w,
              same_word i j e,
              ap (λ k. bit (j % 32) (get_or 0 bits k)) e,
            ))
      | inr other ↦ rw (word, other) (ground (arith, different_word i j other))
    ]

pub trailing_ones_le : (width x : ℕ) → trailing_ones width x ≤ width
unfolding trailing_ones
trailing_ones_le zero x = omega arith
trailing_ones_le (suc width) x = ground (arith, trailing_ones_le width (x / 2))

-- The first word of a field, and the words behind it.
module _ (w : ℕ) (words : List ℕ) (i : ℕ) where
  pub field_bit-behind : field_bit (w ∷ words) (i + 32) ≡ field_bit words i
  unfolding field_bit
  field_bit-behind =
      let word : (i + 32) / 32 ≡ suc (i / 32) = omega arith in
      let place : (i + 32) % 32 ≡ i % 32 = omega arith in rw (word, place) refl

  pub set_field_bit-behind : set_field_bit (w ∷ words) (i + 32) ≡ w ∷ set_field_bit words i
  unfolding set_field_bit
  set_field_bit-behind =
      let word : (i + 32) / 32 ≡ suc (i / 32) = omega arith in
      let place : (i + 32) % 32 ≡ i % 32 = omega arith in rw (word, place) refl

  pub field_bit-first : i < 32 → field_bit (w ∷ words) i ≡ bit i w
  unfolding field_bit
  field_bit-first h =
      let word : i / 32 ≡ 0 = omega arith in
      let place : i % 32 ≡ i = omega arith in rw (word, place) refl

  pub set_field_bit-first : i < 32 → set_field_bit (w ∷ words) i ≡ set_bit i w ∷ words
  unfolding set_field_bit
  set_field_bit-first h =
      let word : i / 32 ≡ 0 = omega arith in
      let place : i % 32 ≡ i = omega arith in rw (word, place) refl
