-- ===== src/SeparateSc/Examples.antt =====
-- An allocator with a full and a partial slab of two chunks.
use uni_alloc.Base.{ℕ, ◌+◌, ◌-◌, ◌^◌, ◌≡◌, refl, none, [], ◌∷◌, arith}
use uni_alloc.Base.Run.{Returns}
use uni_alloc.Radix.Head.{RadixTree}
use uni_alloc.ArrayList.{push}
use uni_alloc.ArrayList
use uni_alloc.SeparatePage.{ObjectPage}
use uni_alloc.SeparatePage
use uni_alloc.SeparateSc.{ScAllocator, lists_empty}
use uni_alloc.SeparateSc.Chunks.{relist}
use uni_alloc.SeparateSc.Relisting.{AreLists, relist-AreLists}

abbrev empty : RadixTree
empty idx = none

-- The backend counts the slabs that are out.
abbrev give : RadixTree × ℕ → ℕ → ℕ × (RadixTree × ℕ)
give (t, b) n = (2 ^ 20, (t, b + 1))

abbrev take_back : RadixTree × ℕ → ℕ → ℕ → RadixTree × ℕ
take_back (t, b) ptr n = (t, b - 1)

abbrev page_of : ℕ → ObjectPage
page_of counter = record SeparatePage.new { counter = counter }

abbrev two_slabs : ScAllocator
two_slabs = record (lists_empty 1 2 2048) {
  full_start = 0;
  full_count = 1;
  partial_start = 1;
  partial_count = 1;
  bitfields = 3 ∷ (1 ∷ []);
  pages = push (push ArrayList.new (page_of 2)) (page_of 1);
}

two_slabs-AreLists : AreLists two_slabs (0 ∷ []) (1 ∷ []) [] []
unfolding push ArrayList.update
two_slabs-AreLists = record {
  full = ((refl, (refl, refl), (refl, tt), λ a h. ground arith), refl);
  partial = ((refl, (refl, refl), (refl, tt), λ a h. ground arith), refl);
  empty = (tt, refl);
  uninit = (tt, refl);
  size = omega arith;
  full_partial = λ a h. ground arith;
  full_empty = λ a h. refl;
  full_uninit = λ a h. refl;
  partial_empty = λ a h. refl;
  partial_uninit = λ a h. refl;
  empty_uninit = λ a h. refl;
}

relist-AreLists_example :
    Returns
      (λ (s', ptr_map', b').
        AreLists s' [] (1 ∷ (0 ∷ [])) [] []
        × (s'.pages.items ≡ two_slabs.pages.items)
        × (ptr_map' ≡ empty)
        × (b' ≡ 2))
      (relist 12 give take_back two_slabs 0 (page_of 2) (page_of 1) empty 2)
unfolding SeparatePage.is_full SeparatePage.is_empty
relist-AreLists_example =
    relist-AreLists 12 give take_back two_slabs 0 (page_of 2) (page_of 1) empty 2 [] [] (1 ∷ []) []
      [] two_slabs-AreLists refl refl
