-- ===== src/SeparatePage/Trips.antt =====
-- The life of a chunk: allocated, given back, and given back again by mistake.
use native.Mathlib.Nat.{mul-div_cancel}
use uni_alloc.Base.{
  ℕ, ◌+◌, ◌-◌, ◌*◌, ◌/◌, ◌^◌, ◌<◌, ◌≤◌, ◌≡◌, ◌≢◌, refl, ap, ◌∙◌, true, false, if◌then◌else◌, List,
  length, arith, inl, inr, Bool-cases, Option, none, some, ◌⊎◌, leb, ne→==, length-set,
}
use uni_alloc.Base.Array.{get_elem?-get_or}
use uni_alloc.Base.Run.{ok, Returns, returns}
use uni_alloc.Base.Words.{add64, sub64, mul64}
use uni_alloc.Memory.{is_aligned}
use uni_alloc.Bitfield.{field_bit, set_field_bit, clear_field_bit}
use uni_alloc.Bitfield.Laws.{
  field_bit-set_field_bit, field_bit-clear_field_bit, clear_field_bit-set_field_bit,
}
use uni_alloc.SeparatePage.{ObjectPage, allocate, deallocate, first_fit}
use uni_alloc.SeparatePage.Fit.{FoundIn, first_fit-FoundIn}

-- `deallocate` on the bit of a chunk.
deallocate-eq :
    (s : ObjectPage) (ptr : ℕ) (bits : List ℕ) (pg_align num : ℕ)
    → pg_align ≢ 0
    → sub64 ptr s.data_start / pg_align ≡ num
    → num / 32 < length bits
    → deallocate s ptr bits pg_align
      ≡ ok (
          if field_bit bits num
          then some (record s { counter = sub64 s.counter 1 }, clear_field_bit bits num)
          else none)
unfolding deallocate field_bit clear_field_bit
deallocate-eq s ptr bits pg_align num ne e h =
    rw (ne→== pg_align 0 ne, e, get_elem?-get_or 0 bits (num / 32) h) refl

length-clear_field_bit : (bits : List ℕ) (i : ℕ) → length (clear_field_bit bits i) ≡ length bits
unfolding clear_field_bit
length-clear_field_bit bits i = length-set bits (i / 32) _

length-set_field_bit : (bits : List ℕ) (i : ℕ) → length (set_field_bit bits i) ≡ length bits
unfolding set_field_bit
length-set_field_bit bits i = length-set bits (i / 32) _

-- Giving back a chunk whose bit is in the field returns: either EDBFRE, or a header and a field for
-- which giving the chunk back once more returns EDBFRE.
pub deallocate-twice :
    (s : ObjectPage) (ptr : ℕ) (bits : List ℕ) (pg_align : ℕ)
    → pg_align ≢ 0
    → sub64 ptr s.data_start / pg_align / 32 < length bits
    → Returns
        (λ r.
          (r ≡ none)
          ⊎ ((s' : ObjectPage) × (bits' : List ℕ) × (r ≡ some (s', bits'))
              × (deallocate s' ptr bits' pg_align ≡ ok none)))
        (deallocate s ptr bits pg_align)
deallocate-twice s ptr bits pg_align ne h =
    let num = sub64 ptr s.data_start / pg_align in
    elim (Bool-cases (field_bit bits num)) [
      | inl out ↦
          let bits' = clear_field_bit bits num in
          let cleared : field_bit bits' num ≡ false =
            ground (arith, field_bit-clear_field_bit bits num num h) in
          let again =
            deallocate-eq (record s { counter = sub64 s.counter 1 }) ptr bits' pg_align num ne refl
              (omega (arith, h, length-clear_field_bit bits num)) in
          rw (deallocate-eq s ptr bits pg_align num ne refl h, out)
            (returns
              (inr (record s { counter = sub64 s.counter 1 }, bits', refl, rw cleared at again)))
      | inr free ↦ rw (deallocate-eq s ptr bits pg_align num ne refl h, free) (returns (inl refl))
    ]

-- The chunk `i` was free and is handed out: it has the alignment, lies in the slab, and is counted
-- and marked.
pub record IsAllocated (page_size : ℕ) (s : ObjectPage) (align : ℕ) (bits : List ℕ)
    (pg_align pg_num i : ℕ) (r : ℕ × ObjectPage × List ℕ) : Type 0 where
  pub in_field : i / 32 < length bits
  pub free : field_bit bits i ≡ false
  pub address : r.0 ≡ s.data_start + i * pg_align
  pub aligned : is_aligned align r.0 ≡ true
  pub inside : i * pg_align + pg_align ≤ page_size * pg_num
  pub page : r.1 ≡ record s { counter = s.counter + 1 }
  pub field : r.2 ≡ set_field_bit bits i

module _ (page_size : ℕ) (s : ObjectPage) (align : ℕ) (bits : List ℕ) (pg_count pg_align pg_num : ℕ)
    (no_wrap : pg_count * pg_align + pg_align < 2 ^ 64)
    (in_memory : s.data_start + page_size * pg_num < 2 ^ 64) (few : pg_count < 2 ^ 64) where
  abbrev Outcome : ℕ × ObjectPage × List ℕ → Type 0
  Outcome r =
      (r ≡ (0, s, bits)) ⊎ ((i : ℕ) × IsAllocated page_size s align bits pg_align pg_num i r)

  offset_le : (i : ℕ) → i ≤ pg_count → i * pg_align ≤ pg_count * pg_align
  offset_le i h = grind arith

  found-Outcome :
      (r : Option (ℕ × ℕ × List ℕ))
      → s.counter < pg_count
      → FoundIn page_size s.data_start align pg_count pg_align pg_num 0 bits r
      → Outcome (elim r [
        | none ↦ (0, s, bits)
        | some (idx, addr, bits') ↦ (addr, record s { counter = add64 s.counter 1 }, bits')
      ])
  found-Outcome none room found = inl refl
  found-Outcome (some (idx, addr, bits')) room (i, e, in_field, free, changed, chunk) =
      let same : idx ≡ i = omega (arith, e) in
      let offset : mul64 idx pg_align ≡ i * pg_align =
        ap (λ k. mul64 k pg_align) same
        ∙ omega (arith, offset_le i (omega (arith, chunk.few, same)), no_wrap) in
      let bounds = offset_le i (omega (arith, chunk.few, same)) in
      let inside : i * pg_align + pg_align ≤ page_size * pg_num =
        omega (arith, chunk.inside, offset, bounds, no_wrap) in
      inr (
        i,
        record {
          in_field = in_field;
          free = free;
          address = omega (arith, chunk.address, offset, inside, in_memory);
          aligned = chunk.aligned;
          inside = inside;
          page = ap (λ k. record s { counter = k }) (omega arith);
          field = changed;
        },
      )

  -- For chunks and a slab that end below 2^64, allocate either hands out nothing and changes nothing, or hands
  -- out a free chunk with the alignment, inside the slab, counts it and marks it.
  pub allocate-IsAllocated : Outcome (allocate page_size s align bits pg_count pg_align pg_num)
  unfolding allocate
  allocate-IsAllocated = elim (Bool-cases (leb pg_count s.counter)) [
    | inl full ↦ rw full (inl refl)
    | inr room ↦ rw room (
        found-Outcome (first_fit page_size s.data_start align pg_count pg_align pg_num bits)
          (ground arith)
          (first_fit-FoundIn page_size s.data_start align pg_count pg_align pg_num bits))
  ]

  given_back :
      (r : ℕ × ObjectPage × List ℕ)
      → 0 < pg_align
      → s.counter < 2 ^ 64 - 1
      → r.0 ≢ 0
      → Outcome r
      → deallocate r.1 r.0 r.2 pg_align ≡ ok (some (s, bits))
  given_back r pos small ne (inl none_left) =
      absurd (ne (ap (λ (r : ℕ × ObjectPage × List ℕ). r.0) none_left))
  given_back (ptr, s', bits') pos small ne (inr (i, a)) =
      let distance : sub64 ptr s.data_start ≡ i * pg_align =
        omega (arith, a.address, a.inside, in_memory) in
      let num : sub64 ptr s.data_start / pg_align ≡ i =
        ap (λ k. k / pg_align) distance ∙ mul-div_cancel i pos in
      let out : field_bit (set_field_bit bits i) i ≡ true =
        field_bit-set_field_bit bits i i a.in_field ∙ ground arith in
      let undone = clear_field_bit-set_field_bit bits i a.in_field a.free in
      let back =
        deallocate-eq (record s { counter = s.counter + 1 }) ptr (set_field_bit bits i) pg_align i
          (λ e. absurd (omega (arith, e))) num
          (omega (arith, a.in_field, length-set_field_bit bits i)) in
      let count : sub64 (s.counter + 1) 1 ≡ s.counter = omega arith in
      rw (a.page, a.field, back, out, undone, count) refl

-- On a slab that ends below 2^64, with chunks of at least one byte and a counter below 2^64 - 1,
-- giving back the chunk that allocate handed out restores the header and the bit field.
pub deallocate-allocate :
    (page_size : ℕ) (s : ObjectPage) (align : ℕ) (bits : List ℕ) (pg_count pg_align pg_num : ℕ)
    → pg_count * pg_align + pg_align < 2 ^ 64
    → s.data_start + page_size * pg_num < 2 ^ 64
    → pg_count < 2 ^ 64
    → 0 < pg_align
    → s.counter < 2 ^ 64 - 1
    → (allocate page_size s align bits pg_count pg_align pg_num).0 ≢ 0
    → let r = allocate page_size s align bits pg_count pg_align pg_num in
      deallocate r.1 r.0 r.2 pg_align ≡ ok (some (s, bits))
deallocate-allocate page_size s align bits pg_count pg_align pg_num no_wrap in_memory few pos small
      ne =
    given_back page_size s align bits pg_count pg_align pg_num no_wrap in_memory few
      (allocate page_size s align bits pg_count pg_align pg_num) pos small ne
      (allocate-IsAllocated page_size s align bits pg_count pg_align pg_num no_wrap in_memory few)
