-- ===== src/SeparateSc/Relisting.antt =====
-- The list of a header in separate_sc.rs after chunks came back to its slab.
use uni_alloc.Base.{
  ℕ, ◌+◌, ◌<◌, ◌≤◌, ◌^◌, ◌≡◌, refl, true, false, List, [], ◌∷◌, ◌++◌, length, arith, length-append,
  le→ltb,
}
use uni_alloc.Base.Run.{Returns, returns, Returns-bind, Returns-map, Returns-nested}
use uni_alloc.Base.Words.{sub64}
use uni_alloc.Memory.Chain.{has, has-append, Apart}
use uni_alloc.SeparatePage.{ObjectPage, is_full, is_empty}
use uni_alloc.Radix.Head.{RadixTree}
use uni_alloc.SeparateSc.{ScAllocator}
use uni_alloc.SeparateSc.Lists.{
  unlink, link_last, remove_full, insert_partial, remove_partial, keep_empty,
}
use uni_alloc.SeparateSc.Rings.{IsCounted}
use uni_alloc.SeparateSc.Moves.{
  Apart-sym, Apart-less, Apart-more, Apart-rest, ring-IsDistinct, IsMoved, move_lem,
}
use uni_alloc.SeparateSc.Chunks.{try_back_ety, back_ety, release, relist}

-- The full, partial, empty and uninit list have these headers, no header two of them, and their lengths
-- fit in 64 bits together.
pub record AreLists (s : ScAllocator) (fs ps es us : List ℕ) : Type 0 where
  pub full : IsCounted s.pages s.full_start s.full_count fs
  pub partial : IsCounted s.pages s.partial_start s.partial_count ps
  pub empty : IsCounted s.pages s.empty_start s.empty_count es
  pub uninit : IsCounted s.pages s.uninit_start s.uninit_count us
  pub size : length fs + length ps + length es + length us < 2 ^ 64
  pub full_partial : Apart fs ps
  pub full_empty : Apart fs es
  pub full_uninit : Apart fs us
  pub partial_empty : Apart ps es
  pub partial_uninit : Apart ps us
  pub empty_uninit : Apart es us

middle : (idx : ℕ) (xs ys : List ℕ) → has idx (xs ++ (idx ∷ ys)) ≡ true
middle idx xs ys = rw (has-append idx xs (idx ∷ ys)) (ground arith)

length-middle :
    (idx : ℕ) (xs ys zs : List ℕ)
    → length (xs ++ (idx ∷ ys)) + length zs ≡ length (xs ++ ys) + length (zs ++ (idx ∷ []))
length-middle idx xs ys zs =
    omega (arith, length-append xs (idx ∷ ys), length-append xs ys, length-append zs (idx ∷ []))

length-some : (idx : ℕ) (xs ys : List ℕ) → 0 < length (xs ++ (idx ∷ ys))
length-some idx xs ys = omega (arith, length-append xs (idx ∷ ys))

module _ {Backend : Type 0} (page_bits : ℕ)
    (alloc : RadixTree × Backend → ℕ → ℕ × (RadixTree × Backend))
    (dealloc : RadixTree × Backend → ℕ → ℕ → RadixTree × Backend) (s : ScAllocator) (idx : ℕ)
    (ptr_map : RadixTree) (b : Backend) where
  -- While at most 2048 slabs are empty, an empty one is kept.
  release-few :
      {P : ScAllocator → Type 0}
      → s.empty_count ≤ 2048
      → Returns P (keep_empty s idx)
      → Returns
          (λ (s', ptr_map', b'). P s' × (ptr_map' ≡ ptr_map) × (b' ≡ b))
          (release page_bits alloc dealloc s idx ptr_map b)
  unfolding release try_back_ety back_ety
  release-few few kept = rw (le→ltb 2048 s.empty_count few) (
      Returns-nested (keep_empty s idx) _ _
        (Returns-bind kept λ s' holds. returns (holds, refl, refl)))

module _ {Backend : Type 0} (page_bits : ℕ)
    (alloc : RadixTree × Backend → ℕ → ℕ × (RadixTree × Backend))
    (dealloc : RadixTree × Backend → ℕ → ℕ → RadixTree × Backend) (s : ScAllocator) (idx : ℕ)
    (page page' : ObjectPage) (ptr_map : RadixTree) (b : Backend) where
  -- If the four lists are rings without a common header and a slab of the full list is not empty after
  -- chunks came back, its header goes to the end of the partial list, and the lists are such rings
  -- again. Items, tree and backend stay.
  pub relist-AreLists :
      (xs ys ps es us : List ℕ)
      → AreLists s (xs ++ (idx ∷ ys)) ps es us
      → is_full page s.pg_count ≡ true
      → is_empty page' ≡ false
      → Returns
          (λ (s', ptr_map', b').
            AreLists s' (xs ++ ys) (ps ++ (idx ∷ [])) es us
            × (s'.pages.items ≡ s.pages.items)
            × (ptr_map' ≡ ptr_map)
            × (b' ≡ b))
          (relist page_bits alloc dealloc s idx page page' ptr_map b)
  unfolding relist remove_full insert_partial
  relist-AreLists xs ys ps es us lists full used =
      let all : List ℕ = xs ++ (idx ∷ ys) in
      let there = middle idx xs ys in
      let some = length-some idx xs ys in
      let size = lists.size in
      let d = (ring-IsDistinct s.pages s.full_start all lists.full.0).0 in
      rw full (
        Returns-nested (unlink s.full_start idx s.pages) _ _ (
          Returns-bind
            (move_lem s.pages idx xs ys ps s.full_start s.partial_start s.full_count s.partial_count
              lists.full lists.partial lists.full_partial (omega (arith, lists.full.1))
              (omega (arith, lists.partial.1)))
            λ (f, l1) inner. rw used (
              Returns-nested (link_last s.partial_start s.partial_count idx l1) _ _ (
                Returns-bind inner λ (p, l2) (m : IsMoved idx xs ys ps s.pages l2 f p _ _).
                  returns (
                    record {
                      full = m.from;
                      partial = m.to;
                      empty = (
                        m.others s.empty_start es (Apart-sym all es lists.full_empty)
                            (Apart-sym ps es lists.partial_empty) lists.empty.0,
                        lists.empty.1,
                      );
                      uninit = (
                        m.others s.uninit_start us (Apart-sym all us lists.full_uninit)
                            (Apart-sym ps us lists.partial_uninit) lists.uninit.0,
                        lists.uninit.1,
                      );
                      size = omega (arith, length-middle idx xs ys ps);
                      full_partial = Apart-rest xs ys ps idx d lists.full_partial;
                      full_empty = Apart-less xs ys es idx lists.full_empty;
                      full_uninit = Apart-less xs ys us idx lists.full_uninit;
                      partial_empty =
                          Apart-more ps es idx lists.partial_empty (lists.full_empty idx there);
                      partial_uninit =
                          Apart-more ps us idx lists.partial_uninit (lists.full_uninit idx there);
                      empty_uninit = lists.empty_uninit;
                    },
                    m.items,
                    refl,
                    refl,
                  )))))

  -- If the four lists are rings without a common header, a slab of the partial list is empty after
  -- chunks came back, and at most 2048 slabs are on the empty list, its header goes to the end of that
  -- list, and the lists are such rings again. Items, tree and backend stay.
  pub relist-keep_empty :
      (fs xs ys es us : List ℕ)
      → AreLists s fs (xs ++ (idx ∷ ys)) es us
      → is_full page s.pg_count ≡ false
      → is_empty page' ≡ true
      → s.empty_count ≤ 2048
      → Returns
          (λ (s', ptr_map', b').
            AreLists s' fs (xs ++ ys) (es ++ (idx ∷ [])) us
            × (s'.pages.items ≡ s.pages.items)
            × (ptr_map' ≡ ptr_map)
            × (b' ≡ b))
          (relist page_bits alloc dealloc s idx page page' ptr_map b)
  unfolding relist remove_partial keep_empty
  relist-keep_empty fs xs ys es us lists partial unused few =
      let all : List ℕ = xs ++ (idx ∷ ys) in
      let there = middle idx xs ys in
      let some = length-some idx xs ys in
      let size = lists.size in
      let d = (ring-IsDistinct s.pages s.partial_start all lists.partial.0).0 in
      let Kept : ScAllocator → Type 0 =
        λ s'. AreLists s' fs (xs ++ ys) (es ++ (idx ∷ [])) us × (s'.pages.items ≡ s.pages.items) in
      let off = Apart-sym fs all lists.full_partial in
      rw (partial, unused)
        (Returns-nested (unlink s.partial_start idx s.pages) _ _ (
          Returns-bind
            (move_lem s.pages idx xs ys es s.partial_start s.empty_start s.partial_count
              s.empty_count lists.partial lists.empty lists.partial_empty
              (omega (arith, lists.partial.1)) (omega (arith, lists.empty.1)))
            λ (p, l1) inner.
              let s2 = record s {
                partial_start = p;
                partial_count = sub64 s.partial_count 1;
                pages = l1;
              } in
              Returns-map
                (release-few page_bits alloc dealloc s2 idx ptr_map b {P = Kept} few (
                  Returns-bind inner λ (e, l2) (m : IsMoved idx xs ys es s.pages l2 p e _ _).
                    returns (
                      record {
                        full = (
                          m.others s.full_start fs lists.full_partial lists.full_empty lists.full.0,
                          lists.full.1,
                        );
                        partial = m.from;
                        empty = m.to;
                        uninit = (
                          m.others s.uninit_start us (Apart-sym all us lists.partial_uninit)
                              (Apart-sym es us lists.empty_uninit) lists.uninit.0,
                          lists.uninit.1,
                        );
                        size = omega (arith, length-middle idx xs ys es);
                        full_partial = Apart-sym (xs ++ ys) fs (Apart-less xs ys fs idx off);
                        full_empty = Apart-sym (es ++ (idx ∷ [])) fs (
                            Apart-more es fs idx (Apart-sym fs es lists.full_empty)
                              (off idx there));
                        full_uninit = lists.full_uninit;
                        partial_empty = Apart-rest xs ys es idx d lists.partial_empty;
                        partial_uninit = Apart-less xs ys us idx lists.partial_uninit;
                        empty_uninit =
                            Apart-more es us idx lists.empty_uninit
                              (lists.partial_uninit idx there);
                      },
                      m.items,
                    )))
                λ (s', ptr_map', b') ((lists', items), same_map, same_b).
                  (lists', items, same_map, same_b)))
