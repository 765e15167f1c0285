-- ===== src/SeparatePage/Fit.antt =====
-- What `first_fit` finds: a free bit whose chunk lies in the slab and has the alignment.
use uni_alloc.Base.{
  ℕ, zero, suc, ◌+◌, ◌&&◌, ◌-◌, ◌*◌, ◌/◌, ◌<◌, ◌≤◌, ◌≡◌, refl, ap, ◌∙◌, sym, true, false, not, ◌==◌,
  List, [], ◌∷◌, length, arith, inl, inr, Bool-cases, Option, none, some, ltb,
}
use uni_alloc.Base.Words.{add64, mul64}
use uni_alloc.Memory.{is_aligned}
use uni_alloc.Bitfield.{u32_max, bit, set_bit, trailing_ones, field_bit, set_field_bit}
use uni_alloc.Bitfield.Laws.{
  trailing_ones_le, field_bit-behind, set_field_bit-behind, field_bit-first, set_field_bit-first,
}
use uni_alloc.SeparatePage.{Probe, hit, stop, next_word, probe, first_fit_from, first_fit}

module _ (page_size base_addr align pg_count pg_align pg_num : ℕ) where
  -- The chunk `idx` at `addr`.
  pub record IsChunk (idx addr : ℕ) : Type 0 where
    pub few : idx ≤ pg_count
    pub address : addr ≡ add64 base_addr (mul64 idx pg_align)
    pub aligned : is_aligned align addr ≡ true
    pub inside : add64 (mul64 idx pg_align) pg_align ≤ mul64 page_size pg_num

  -- A hit in the word `bitval`: `place` is free in it.
  abbrev HitFits : ℕ → ℕ → Probe → Type 0
  HitFits base_idx bitval (hit place idx addr) =
      (place < 32) × (bit place bitval ≡ false) × (idx ≡ base_idx * 32 + place) × IsChunk idx addr
  HitFits base_idx bitval stop = Unit {0}
  HitFits base_idx bitval next_word = Unit {0}

  probe-HitFits :
      (left base_idx bitval first_free : ℕ)
      → left + first_free ≤ 32
      → HitFits base_idx bitval
          (probe page_size base_addr align pg_count pg_align pg_num left base_idx bitval first_free)
  unfolding probe
  probe-HitFits zero base_idx bitval first_free h = tt
  probe-HitFits (suc left) base_idx bitval first_free h =
      let idx = base_idx * 32 + first_free in
      let offset = mul64 idx pg_align in
      let addr = add64 base_addr offset in
      elim (Bool-cases (ltb pg_count idx)) [
        | inl many ↦ rw many tt
        | inr few ↦ elim (Bool-cases (ltb (mul64 page_size pg_num) (add64 offset pg_align))) [
          | inl behind ↦ rw (few, behind) tt
          | inr inside ↦ elim (Bool-cases (is_aligned align addr && not (bit first_free bitval))) [
            | inl good ↦
                rw (few, inside, good)
                  (
                    omega arith,
                    ground arith,
                    refl,
                    record {
                      few = ground arith;
                      address = refl;
                      aligned = ground arith;
                      inside = ground arith;
                    },
                  )
            | inr bad ↦
                rw (few, inside, bad)
                  (probe-HitFits left base_idx bitval (suc first_free) (omega arith))
          ]
        ]
      ]

  -- What the search of the words returns.
  abbrev pub FoundIn : ℕ → List ℕ → Option (ℕ × ℕ × List ℕ) → Type 0
  FoundIn base_idx words none = Unit {0}
  FoundIn base_idx words (some (idx, addr, words')) =
      (i : ℕ) × (idx ≡ base_idx * 32 + i)
      × (i / 32 < length words)
      × (field_bit words i ≡ false)
      × (words' ≡ set_field_bit words i)
      × IsChunk idx addr

  FoundIn-behind :
      (base_idx w : ℕ) (words : List ℕ) (r : Option (ℕ × ℕ × List ℕ))
      → FoundIn (suc base_idx) words r
      → FoundIn base_idx
          (w ∷ words)
          (elim r [ none ↦ none | some (idx, addr, words') ↦ some (idx, addr, w ∷ words') ])
  FoundIn-behind base_idx w words none found = tt
  FoundIn-behind base_idx w words (some (idx, addr, words')) (i, e, inside, free, changed, chunk) =
      (
        i + 32,
        omega (arith, e),
        omega (arith, inside),
        field_bit-behind w words i ∙ free,
        ap (◌∷◌ w) changed ∙ sym (set_field_bit-behind w words i),
        chunk,
      )

  probe-FoundIn :
      (base_idx w : ℕ) (words : List ℕ) (rest : Option (ℕ × ℕ × List ℕ)) (r : Probe)
      → HitFits base_idx w r
      → FoundIn base_idx (w ∷ words) rest
      → FoundIn base_idx (w ∷ words) (elim r [
        | hit place idx addr ↦ some (idx, addr, set_bit place w ∷ words)
        | stop ↦ none
        | next_word ↦ rest
      ])
  probe-FoundIn base_idx w words rest (hit place idx addr) (small, free, e, chunk) found = (
    place,
    e,
    omega arith,
    field_bit-first w words place small ∙ free,
    sym (set_field_bit-first w words place small),
    chunk,
  )
  probe-FoundIn base_idx w words rest stop h found = tt
  probe-FoundIn base_idx w words rest next_word h found = found

  first_fit_from-FoundIn :
      (base_idx : ℕ) (words : List ℕ)
      → FoundIn base_idx words
          (first_fit_from page_size base_addr align pg_count pg_align pg_num base_idx words)
  unfolding first_fit_from
  first_fit_from-FoundIn base_idx [] = tt
  first_fit_from-FoundIn base_idx (w ∷ words) =
      let ones = trailing_ones 32 w in
      let behind =
        FoundIn-behind base_idx w words
          (first_fit_from page_size base_addr align pg_count pg_align pg_num (suc base_idx) words)
          (first_fit_from-FoundIn (suc base_idx) words) in
      elim (Bool-cases (w == u32_max)) [
        | inl full ↦ rw full behind
        | inr some_free ↦ rw some_free (
            probe-FoundIn base_idx w words _
              (probe page_size base_addr align pg_count pg_align pg_num (32 - ones) base_idx w ones)
              (probe-HitFits (32 - ones) base_idx w ones (omega (arith, trailing_ones_le 32 w)))
              behind)
      ]

  pub first_fit-FoundIn :
      (bitfield : List ℕ)
      → FoundIn 0 bitfield (first_fit page_size base_addr align pg_count pg_align pg_num bitfield)
  unfolding first_fit
  first_fit-FoundIn bitfield = first_fit_from-FoundIn 0 bitfield
