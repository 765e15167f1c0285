-- ===== src/Bump/Headers.antt =====
-- The allocators of metadata and of slab headers. A header always fits in what is left of the
-- mapping, since that is a whole number of headers; a block of metadata may not.
use uni_alloc.Base.{
  ℕ, zero, suc, ◌+◌, ◌-◌, ◌*◌, ◌≤◌, ◌<◌, ◌^◌, ◌≡◌, ◌≢◌, inl, inr, arith, refl, Bool-cases, eq→==,
  false, true,
}
use native.Mathlib.Nat.{mul_comm, mul-pos}
use uni_alloc.Base.Run.{Returns, returns}
use uni_alloc.Base.Words.{usize_max, sub64, add64, mul64}
use uni_alloc.Bump.Ranges.{IsPaging, IsApart, Within, Besides, cut-IsNew, cut-IsApart, mmap-IsApart}
use uni_alloc.Bump.Backend.{null_on_failure}
use uni_alloc.Bump.Pages.{PageBumpAlloc}
use uni_alloc.Bump.Pages
use uni_alloc.Bump.Meta.{BumpAlloc}
use uni_alloc.Bump.Meta

-- The `n` bytes at `ptr` are new, and with them given out the rest is still apart.
pub record IsNewRange (Mapped Given : ℕ → Type 0) (n ptr low high : ℕ) : Type 0 where
  pub is_new : (a : ℕ) → Given a → Within ptr n a → ⊥
  pub apart : IsApart Mapped (Besides Given ptr n) low high

cut-IsNewRange :
    (Mapped Given : ℕ → Type 0) (low high n : ℕ)
    → IsApart Mapped Given low high
    → low + n ≤ high
    → IsNewRange Mapped Given n (sub64 high n) low (sub64 high n)
cut-IsNewRange Mapped Given low high n r fits = rw same (record {
  is_new = cut-IsNew Mapped Given low high n r fits;
  apart = cut-IsApart Mapped Given low high n r fits;
})
  where
    same : sub64 high n ≡ high - n
    same = omega (arith, r.word)

-- Between `low` and `high` is a whole number of headers.
abbrev pub IsWhole : ℕ → ℕ → ℕ → Type 0
IsWhole header low high = (k : ℕ) × (high ≡ low + k * header)

rest-IsWhole :
    (header low high : ℕ)
    → IsWhole header low high
    → low < high
    → (low + header ≤ high) × IsWhole header low (high - header)
rest-IsWhole header low high (zero, e) lt = absurd (omega arith)
rest-IsWhole header low high (suc k, e) lt =
    let more : suc k * header ≡ header + k * header = omega arith in (omega arith, (k, omega arith))

header-IsNewRange :
    (Mapped Given : ℕ → Type 0) (header low high : ℕ)
    → IsApart Mapped Given low high
    → IsWhole header low high
    → low < high
    → IsNewRange Mapped Given header (sub64 high header) low (sub64 high header)
      × IsWhole header low (sub64 high header)
header-IsNewRange Mapped Given header low high r whole lt =
    let (fits, (k, rest)) = rest-IsWhole header low high whole lt in
    (cut-IsNewRange Mapped Given low high header r fits, (k, omega (arith, r.word)))

module _ {Os : Type 0} {mmap : Os → ℕ → ℕ × Os} {munmap : Os → ℕ → ℕ → Os}
    {Mapped : Os → ℕ → Type 0} (paging : IsPaging mmap munmap Mapped) (Given : ℕ → Type 0)
    (os : Os) where
  renewed :
      (n : ℕ)
      → ((a : ℕ) → Given a → Mapped os a)
      → (mmap os n).0 ≢ usize_max
      → (null_on_failure (mmap os n).0 ≡ (mmap os n).0)
        × (add64 (mmap os n).0 n ≡ (mmap os n).0 + n)
  unfolding null_on_failure
  renewed n used fine = (ground (arith, fine), omega (arith, (paging.placed os n fine).1))

  module _ (s : BumpAlloc) (size : ℕ) (r : IsApart (Mapped os) Given s.start s.current) where
    pub alloc-IsNewRange :
        size ≤ Meta.default_size
        → (Meta.has_room s ≡ true → s.start + size ≤ s.current)
        → (mmap os Meta.default_size).0 ≢ usize_max
        → IsNewRange
            (Mapped (Meta.alloc mmap s size os).2)
            Given
            size
            (Meta.alloc mmap s size os).0
            (Meta.alloc mmap s size os).1.start
            (Meta.alloc mmap s size os).1.current
    unfolding Meta.alloc Meta.renew
    alloc-IsNewRange small room fine =
        let (same, end) = renewed Meta.default_size r.in_use fine in
        elim (Bool-cases (Meta.has_room s)) [
          | inl left ↦
              rw left (cut-IsNewRange (Mapped os) Given s.start s.current size r (room left))
          | inr none_left ↦
              rw (none_left, same, end)
                (cut-IsNewRange (Mapped (mmap os Meta.default_size).1) Given
                  (mmap os Meta.default_size).0 ((mmap os Meta.default_size).0 + Meta.default_size)
                  size (mmap-IsApart paging Given os Meta.default_size r.in_use fine) (omega arith))
        ]

    -- A block longer than the rest of the mapping begins below it.
    pub alloc-below :
        Meta.has_room s ≡ true
        → s.current < s.start + size
        → size ≤ s.current
        → (Meta.alloc mmap s size os).0 < s.start
    unfolding Meta.alloc
    alloc-below left long fits = rw left (omega (arith, r.word))

  module _ (header headers : ℕ) (s : PageBumpAlloc)
      (r : IsApart (Mapped os) Given s.start s.current) where
    pub alloc-header-IsNewRange :
        IsWhole header s.start s.current
        → 0 < header
        → 0 < headers
        → header * headers < 2 ^ 63
        → (mmap os (Pages.default_size mmap header headers)).0 ≢ usize_max
        → Returns
            (λ (ptr, s', os').
              IsNewRange (Mapped os') Given header ptr s'.start s'.current
              × IsWhole header s'.start s'.current)
            (Pages.alloc mmap header headers s header os)
    unfolding Pages.alloc
    alloc-header-IsNewRange whole pos many small fine =
        let n = Pages.default_size mmap header headers in
        let (same, end) = renewed n r.in_use fine in
        let start = (mmap os n).0 in
        elim (Bool-cases (Pages.is_used_up mmap header headers s)) [
          | inl used ↦
              rw (eq→== header header refl, used, same, end)
                (returns (
                  header-IsNewRange (Mapped (mmap os n).1) Given header start (start + n)
                    (mmap-IsApart paging Given os n r.in_use fine) (headers, size start)
                    (some_room start)))
          | inr rest ↦
              rw (eq→== header header refl, rest)
                (returns (
                  header-IsNewRange (Mapped os) Given header s.start s.current r whole (left rest)))
        ]
      where
        size : (start : ℕ) → start + mul64 header headers ≡ start + headers * header
        size start = omega (arith, mul_comm header headers)

        some_room : (start : ℕ) → start < start + mul64 header headers
        some_room start = omega (arith, mul-pos pos many)

        left : Pages.is_used_up mmap header headers s ≡ false → s.start < s.current
        left h = unfold Pages.is_used_up in ground arith
