-- ===== src/Bump/Fresh.antt =====
-- A block that a bump allocator gives out overlaps no block it gave out before.
use uni_alloc.Base.{
  ℕ, ◌+◌, ◌-◌, ◌*◌, ◌%◌, ◌≤◌, ◌<◌, ◌^◌, ◌⊎◌, ◌≡◌, ◌≢◌, inl, inr, arith, Option, some, none, lt→ltb,
  refl, ltb, ◌==◌, Bool-cases, le→ltb, false,
}
use uni_alloc.Base.Words.{usize_max, sub64, add64}
use uni_alloc.Bump.Ranges.{IsPaging, IsApart, Within, Besides, cut-IsNew, cut-IsApart, mmap-IsApart}
use uni_alloc.Bump.Backend.{
  BumpAlloc, alloc, alloc_from, alloc_size, init, clean_up, alloc_fixed, default_size,
  null_on_failure,
}

-- The rest of the mapping is whole pages.
abbrev pub IsWhole : BumpAlloc → Type 0
IsWhole s = (s.check_point % 4096 ≡ 0) × (s.current % 4096 ≡ 0)

-- The call has given out `n` bytes at an address, which were not given out before, and the state is
-- again apart from all that is given out.
pub record IsNewBlock (Mapped Given : ℕ → Type 0) (n : ℕ) (res : Option ℕ × BumpAlloc)
    : Type 0 where
  pub ptr : ℕ
  pub found : res.0 ≡ some ptr
  pub is_new : (a : ℕ) → Given a → Within ptr n a → ⊥
  pub apart : IsApart Mapped (Besides Given ptr n) res.1.check_point res.1.current
  pub whole : IsWhole res.1

alloc_from-IsNewBlock :
    (Mapped Given : ℕ → Type 0) (s : BumpAlloc) (n : ℕ)
    → IsApart Mapped Given s.check_point s.current
    → IsWhole s
    → n % 4096 ≡ 0
    → s.check_point + n ≤ s.current
    → IsNewBlock Mapped Given n (alloc_from s n)
unfolding alloc_from
alloc_from-IsNewBlock Mapped Given s n r whole pages fits =
    rw (le→ltb s.current n (omega arith), same)
      (record {
        ptr = s.current - n;
        found = refl;
        is_new = cut-IsNew Mapped Given s.check_point s.current n r fits;
        apart = cut-IsApart Mapped Given s.check_point s.current n r fits;
        whole = (whole.0, omega (arith, whole.1));
      })
  where
    same : sub64 s.current n ≡ s.current - n
    same = omega (arith, r.word)

-- A size of more than `pages - 1` pages and at most `pages` takes `pages` pages.
alloc_size-eq :
    (size pages : ℕ)
    → size ≤ default_size
    → size ≤ pages * 4096
    → pages * 4096 < size + 4096
    → alloc_size size ≡ pages * 4096
unfolding alloc_size
alloc_size-eq size pages h fits least = omega arith

module _ {Os : Type 0} {mmap : Os → ℕ → ℕ × Os} {munmap : Os → ℕ → ℕ → Os}
    {Mapped : Os → ℕ → Type 0} (paging : IsPaging mmap munmap Mapped) (Given : ℕ → Type 0)
    (s : BumpAlloc) (os : Os) (r : IsApart (Mapped os) Given s.check_point s.current)
    (whole : IsWhole s) where
  clean_up-Mapped : (a : ℕ) → Given a → Mapped (clean_up munmap s os) a
  unfolding clean_up
  clean_up-Mapped a g = elim (Bool-cases (s.check_point == s.current)) [
    | inl none_left ↦ rw none_left (r.in_use a g)
    | inr some_left ↦ rw some_left (
        paging.spared os s.check_point (sub64 s.current s.check_point) a (r.in_use a g)
          λ b w same. r.apart a g (omega arith) (omega (arith, r.word, r.bounded)))
  ]

  init-IsApart :
      (mmap (clean_up munmap s os) default_size).0 ≢ usize_max
      → IsApart
          (Mapped (init mmap munmap s os).1)
          Given
          (init mmap munmap s os).0.check_point
          (init mmap munmap s os).0.current
        × IsWhole (init mmap munmap s os).0
        × ((init mmap munmap s os).0.current ≡ (init mmap munmap s os).0.check_point + default_size)
  unfolding init null_on_failure
  init-IsApart fine =
      let os' = clean_up munmap s os in
      let start = (mmap os' default_size).0 in
      let at_start : (start == usize_max) ≡ false = ground (arith, fine) in
      let end : add64 start default_size ≡ start + default_size =
        omega (arith, (paging.placed os' default_size fine).1) in
      rw (at_start, end)
        (
          mmap-IsApart paging Given os' default_size clean_up-Mapped fine,
          (
            paging.aligned os' default_size fine,
            omega (arith, paging.aligned os' default_size fine),
          ),
          refl,
        )

  -- If all that the page bump allocator gave out is mapped and apart from the rest of its mapping, which
  -- is whole pages, and a new mapping would not fail, a request of at most 2^32 bytes gives a block of
  -- the fewest pages that hold it, which overlaps nothing given out before; with it given out, the
  -- allocator is again apart from all of it and its rest is whole pages.
  pub alloc-IsNewBlock :
      (size pages : ℕ)
      → size ≤ default_size
      → size ≤ pages * 4096
      → pages * 4096 < size + 4096
      → (mmap (clean_up munmap s os) default_size).0 ≢ usize_max
      → IsNewBlock
          (Mapped (alloc mmap munmap s size os).2)
          Given
          (pages * 4096)
          ((alloc mmap munmap s size os).0, (alloc mmap munmap s size os).1)
  unfolding alloc
  alloc-IsNewBlock size pages h holds least fine =
      let n = pages * 4096 in
      rw (alloc_size-eq size pages h holds least)
        (elim (Bool-cases (ltb s.current (add64 s.check_point n))) [
          | inl over ↦ rw over (
              let (apart, next, room) = init-IsApart fine in
              alloc_from-IsNewBlock (Mapped (init mmap munmap s os).1) Given
                (init mmap munmap s os).0 n apart next (omega arith) (omega (arith, room)))
          | inr fits ↦ rw fits (
              alloc_from-IsNewBlock (Mapped os) Given s n r whole (omega arith)
                (ground (arith, r.word)))
        ])

-- In a fixed range, a request not longer than the end of the range gets the addresses from
-- `current` on if they end in the range, and an error otherwise.
pub alloc_fixed-fits :
    (s : BumpAlloc) (size : ℕ)
    → s.current ≤ s.check_point
    → s.check_point < 2 ^ 64
    → alloc_size size ≤ s.check_point
    → ((s.current + alloc_size size ≤ s.check_point)
        × (alloc_fixed s size
            ≡ (some s.current, record s { current = s.current + alloc_size size })))
      ⊎ ((s.check_point < s.current + alloc_size size) × (alloc_fixed s size ≡ (none, s)))
unfolding alloc_fixed
alloc_fixed-fits s size h word small =
    let n = alloc_size size in
    let end : sub64 s.check_point n ≡ s.check_point - n = omega arith in
    elim (Bool-cases (ltb (s.check_point - n) s.current)) [
      | inl over ↦ inr (ground arith, rw (end, over) refl)
      | inr fits ↦
          inl (ground arith, rw (end, fits, lt→ltb (s.current + n) (2 ^ 64) (ground arith)) refl)
    ]
