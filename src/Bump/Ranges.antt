-- ===== src/Bump/Ranges.antt =====
-- What an allocator has given out, as a set of addresses, against the range it still cuts from.
use uni_alloc.Base.{ℕ, ◌+◌, ◌-◌, ◌/◌, ◌%◌, ◌≡◌, ◌≤◌, ◌<◌, ◌^◌, ◌≢◌, ◌⊎◌, inl, inr, arith}
use uni_alloc.Base.Words.{usize_max}

-- The address `a` lies in the `n` bytes from `p` on.
abbrev pub Within : ℕ → ℕ → ℕ → Type 0
Within p n a = (p ≤ a) × (a < p + n)

-- The documented behaviour of mmap and munmap. `Mapped os a`: the address is mapped. A mapping that
-- does not fail is new, begins at a page other than 0 and ends in the lower half of the addresses; what
-- was mapped stays so. munmap spares the pages without an address of its range.
pub record IsPaging {Os : Type 0} (mmap : Os → ℕ → ℕ × Os) (munmap : Os → ℕ → ℕ → Os)
    (Mapped : Os → ℕ → Type 0) : Type 0 where
  pub placed :
      (os : Os) (n : ℕ)
      → (mmap os n).0 ≢ usize_max
      → (0 < (mmap os n).0) × ((mmap os n).0 + n < 2 ^ 63)
  pub aligned : (os : Os) (n : ℕ) → (mmap os n).0 ≢ usize_max → (mmap os n).0 % 4096 ≡ 0
  pub separate :
      (os : Os) (n a : ℕ) → (mmap os n).0 ≢ usize_max → Within (mmap os n).0 n a → Mapped os a → ⊥
  pub mapped :
      (os : Os) (n a : ℕ)
      → (mmap os n).0 ≢ usize_max
      → Within (mmap os n).0 n a
      → Mapped (mmap os n).1 a
  pub kept : (os : Os) (n a : ℕ) → Mapped os a → Mapped (mmap os n).1 a
  pub spared :
      (os : Os) (p n a : ℕ)
      → Mapped os a
      → ((b : ℕ) → Within p n b → b / 4096 ≢ a / 4096)
      → Mapped (munmap os p n) a

-- The addresses in `Given` are mapped and none of them is in the rest of the mapping, from `low` to
-- `high`; the rest is mapped too.
pub record IsApart (Mapped Given : ℕ → Type 0) (low high : ℕ) : Type 0 where
  pub bounded : low ≤ high
  pub word : high < 2 ^ 63
  pub in_use : (a : ℕ) → Given a → Mapped a
  pub rest : (a : ℕ) → low ≤ a → a < high → Mapped a
  pub apart : (a : ℕ) → Given a → low ≤ a → a < high → ⊥

-- The block of `n` bytes at `p` given out besides.
abbrev pub Besides : (ℕ → Type 0) → ℕ → ℕ → ℕ → Type 0
Besides Given p n a = Given a ⊎ Within p n a

-- The block at the upper end is new, and can be given out.
module _ (Mapped Given : ℕ → Type 0) (low high n : ℕ) (r : IsApart Mapped Given low high)
    (fits : low + n ≤ high) where
  pub cut-IsNew : (a : ℕ) → Given a → Within (high - n) n a → ⊥
  cut-IsNew a g w = r.apart a g (omega arith) (omega arith)

  pub cut-IsApart : IsApart Mapped (Besides Given (high - n) n) low (high - n)
  cut-IsApart = record {
    bounded = omega arith;
    word = omega (arith, r.word);
    in_use =
        λ a g. elim g [ inl old ↦ r.in_use a old | inr w ↦ r.rest a (omega arith) (omega arith) ];
    rest = λ a l h. r.rest a l (omega arith);
    apart = λ a g l h. elim g [
      | inl old ↦ r.apart a old l (omega arith)
      | inr w ↦ absurd (omega arith)
    ];
  }

module _ {Os : Type 0} {mmap : Os → ℕ → ℕ × Os} {munmap : Os → ℕ → ℕ → Os}
    {Mapped : Os → ℕ → Type 0} (paging : IsPaging mmap munmap Mapped) (Given : ℕ → Type 0)
    (os : Os) where
  -- A new mapping takes the place of the rest.
  pub mmap-IsApart :
      (n : ℕ)
      → ((a : ℕ) → Given a → Mapped os a)
      → (mmap os n).0 ≢ usize_max
      → IsApart (Mapped (mmap os n).1) Given (mmap os n).0 ((mmap os n).0 + n)
  mmap-IsApart n used fine = record {
    bounded = omega arith;
    word = (paging.placed os n fine).1;
    in_use = λ a g. paging.kept os n a (used a g);
    rest = λ a l h. paging.mapped os n a fine (l, h);
    apart = λ a g l h. paging.separate os n a fine (l, h) (used a g);
  }
