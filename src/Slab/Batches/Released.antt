-- ===== src/Slab/Batches/Released.antt =====
-- An empty slab when 2048 are kept already: it leaves the tree and goes back to the backend.
use mathlib.Core.Path.{subst}
use uni_alloc.Base.{
  ℕ, ◌+◌, ◌/◌, ◌≤◌, ◌<◌, ◌≡◌, ◌≢◌, refl, sym, ap, ◌∙◌, ◌^◌, ◌==◌, true, false, List, [], ◌∷◌, ◌++◌,
  arith, lt→ltb,
}
use uni_alloc.Base.Run.{Run, ok, Returns, returns, Returns-bind, Returns-map, Returns-nested, ◌>>=◌}
use uni_alloc.Base.Words.{mul64}
use uni_alloc.Memory.Chain.{Apart, Apart-right, has, has_ne}
use uni_alloc.Page.{ObjectPage, is_empty, is_inited, get_data_ptr}
use uni_alloc.Page.Backing.{destroy_page}
use uni_alloc.Radix.Head.{RadixTree}
use uni_alloc.Radix.Lookup.{IsUpdate}
use uni_alloc.Radix.Slabs.{handle_rd_tree_remove, handle_rd_tree_remove-IsUpdate}
use uni_alloc.Slab.Defs.{ScAllocator}
use uni_alloc.Slab.Lists.{Headers, remove_partial, try_insert_ety}
use uni_alloc.Slab.Lists.Links.{IsPageList, Kept, link_lem, delete_lem}
use uni_alloc.Slab.World.{World, Platform}
use uni_alloc.Slab.Batches.{relist, insert_uninit, insert_ety, leave_tree}
use uni_alloc.Slab.Batches.Moves.{IsPageList-frame, write_page-IsPageList, write_page_self}
use uni_alloc.Slab.Batches.Returned.{ring-IsDistinct, has_middle, others-Apart}

remove_partial-any :
    (s : ScAllocator) (h : Headers) (idx : ℕ) (xs ys : List ℕ)
    → IsPageList h s.partial_start (xs ++ (idx ∷ ys))
    → Returns
        (λ (s', h').
          ((q : ℕ) × (s' ≡ record s { partial_start = q }) × IsPageList h' q (xs ++ ys))
          × Kept (xs ++ (idx ∷ ys)) h h')
        (remove_partial s idx h)
unfolding remove_partial
remove_partial-any s h idx xs ys f =
    Returns-bind (delete_lem h s.partial_start idx xs ys f)
      λ r q. returns {a = (record s { partial_start = r.0 }, r.1)} ((r.0, refl, q.0), q.1)

module _ {Os Backend : Type 0} (c : Platform Os Backend) (s : ScAllocator) (w : World Os Backend)
    (idx : ℕ) (us : List ℕ) where
  insert_uninit-last :
      IsPageList w.headers s.uninit_start us
      → has idx us ≡ false
      → idx ≢ 0
      → (w.headers idx).data_start ≢ 0
      → Returns
          (λ (ptr, s', w').
            ((hd : ℕ) (xs : List ℕ)
              → Apart xs (us ++ (idx ∷ []))
              → IsPageList w.headers hd xs
              → IsPageList w'.headers hd xs)
            × (s'.partial_start ≡ s.partial_start)
            × IsPageList w'.headers s'.uninit_start (us ++ (idx ∷ []))
            × ((w'.headers idx).data_start ≡ 0)
            × ((w'.ptr_map, w'.backend)
                ≡ c.dealloc
                    (w.ptr_map, w.backend)
                    (w.headers idx).data_start
                    (mul64 (2 ^ c.page_bits) s.pg_num)))
          (insert_uninit c s idx w)
  unfolding insert_uninit destroy_page is_inited
  insert_uninit-last u out ne inited =
      Returns-bind (link_lem w.headers s.uninit_start idx us u out ne) λ (head, h) (u', kept).
        let here : ((h idx).data_start == 0) ≡ false =
          ground (arith, kept.data_start idx, inited) in
        let page = record (h idx) { data_start = 0; ptr = 0; counter = 0 } in
        rw here (
          returns (
            λ hd xs apart q.
                write_page-IsPageList h idx page refl refl hd xs
                  (IsPageList-frame w.headers h hd (us ++ (idx ∷ [])) xs apart kept q),
            refl,
            write_page-IsPageList h idx page refl refl head (us ++ (idx ∷ [])) u',
            ap (λ (p : ObjectPage). p.data_start) (write_page_self h idx page),
            ap (λ (p : ℕ). c.dealloc (w.ptr_map, w.backend) p (mul64 (2 ^ c.page_bits) s.pg_num))
                (kept.data_start idx),
          ))

-- The slab at `idx` has gone back: its header is the last of the uninit list and has no slab, and the
-- backend got the slab with the tree `cleared`, which has no entry for its pages any more.
pub record IsReleased {Os Backend : Type 0} (c : Platform Os Backend) (s : ScAllocator)
    (w : World Os Backend) (idx : ℕ) (xs us : List ℕ) (s' : ScAllocator) (w' : World Os Backend)
    : Type 0 where
  pub partial : IsPageList w'.headers s'.partial_start xs
  pub uninit : IsPageList w'.headers s'.uninit_start (us ++ (idx ∷ []))
  pub no_slab : (w'.headers idx).data_start ≡ 0
  pub cleared : RadixTree
  pub tree : IsUpdate ((w.headers idx).data_start / 2 ^ c.page_bits) s.pg_num 0 w.ptr_map cleared
  pub returned :
      (w'.ptr_map, w'.backend)
      ≡ c.dealloc (cleared, w.backend) (w.headers idx).data_start (mul64 (2 ^ c.page_bits) s.pg_num)

module _ {Os Backend : Type 0} (c : Platform Os Backend) (s : ScAllocator) (w : World Os Backend)
    (idx : ℕ) (us : List ℕ) where
  -- What `relist` does with an empty slab that is on no list any more.
  abbrev released : Run (ScAllocator × World Os Backend)
  released = do
    p ← try_insert_ety s idx w.headers
    w1 ← leave_tree c s p w
    (_, s2, w2) ← insert_ety c s idx w1
    ok (s2, w2)

  released-IsReleased :
      (xs : List ℕ)
      → IsPageList w.headers s.partial_start xs
      → IsPageList w.headers s.uninit_start us
      → has idx us ≡ false
      → Apart xs (us ++ (idx ∷ []))
      → idx ≢ 0
      → 2048 < s.empty_count
      → (w.headers idx).data_start ≢ 0
      → (w.headers idx).data_start / 2 ^ c.page_bits + s.pg_num ≤ 2 ^ 36
      → 0 < s.pg_num
      → s.pg_num ≤ 4096
      → Returns (λ (s', w'). IsReleased c s w idx xs us s' w') released
  unfolding try_insert_ety get_data_ptr is_inited leave_tree insert_ety
  released-IsReleased xs p u out apart ne many inited fits pos small =
      let slab = (w.headers idx).data_start in
      let here : ((w.headers idx).data_start == 0) ≡ false = ground (arith, inited) in
      rw (lt→ltb 2048 s.empty_count many, here)
        (Returns-nested (handle_rd_tree_remove c.page_bits s.pg_num w.ptr_map slab) _ _ (
          Returns-bind
            (handle_rd_tree_remove-IsUpdate c.page_bits s.pg_num slab w.ptr_map fits pos small)
            λ t upd.
              let w1 = record w { ptr_map = t } in
              Returns-nested (insert_uninit c s idx w1) _ _ (
                Returns-bind (insert_uninit-last c s w1 idx us u out ne inited)
                  λ (_, s', w') (others, same, u', none_left, back). returns (record {
                    partial =
                        subst (λ a. IsPageList w'.headers a xs) (sym same)
                          (others s.partial_start xs apart p);
                    uninit = u';
                    no_slab = none_left;
                    cleared = t;
                    tree = upd;
                    returned = back;
                  }))))

module _ {Os Backend : Type 0} (c : Platform Os Backend) (s : ScAllocator) (w : World Os Backend)
    (idx : ℕ) (xs ys us : List ℕ) where
  -- If the partial and the uninit list are rings without a common page, a page of the partial list is
  -- empty and has a slab of 1 to 4096 pages, with page numbers below 2^36, and more than 2048 empty slabs
  -- are kept, then the page leaves the partial ring and becomes the last of the uninit ring without a
  -- slab; the tree loses the entries of exactly the pages of that slab, and with that tree the backend
  -- gets the slab back.
  pub relist-IsReleased :
      IsPageList w.headers s.partial_start (xs ++ (idx ∷ ys))
      → IsPageList w.headers s.uninit_start us
      → Apart us (xs ++ (idx ∷ ys))
      → is_empty (w.headers idx) ≡ true
      → 2048 < s.empty_count
      → (w.headers idx).data_start ≢ 0
      → (w.headers idx).data_start / 2 ^ c.page_bits + s.pg_num ≤ 2 ^ 36
      → 0 < s.pg_num
      → s.pg_num ≤ 4096
      → Returns (λ (s', w'). IsReleased c s w idx (xs ++ ys) us s' w') (relist c s idx false w)
  unfolding relist
  relist-IsReleased p u apart empty many inited fits pos small =
      let all : List ℕ = xs ++ (idx ∷ ys) in
      let (d, n) = ring-IsDistinct w.headers s.partial_start all p in
      let there = has_middle xs ys idx in
      let out = Apart-right us all idx apart there in
      let ne : idx ≢ 0 = ground (arith, has_ne idx 0 all there n) in
      rw empty (
        Returns-bind (remove_partial-any s w.headers idx xs ys p) λ (s1, h1) ((q, e, p1), kept).
          let u1 = IsPageList-frame w.headers h1 s.uninit_start all us apart kept u in
          let same = kept.data_start idx in
          subst
            (λ a.
              Returns (λ (s', w'). IsReleased c s w idx (xs ++ ys) us s' w')
                (released c a (record w { headers = h1 }) idx us))
            (sym e)
            (Returns-map
              (released-IsReleased c (record s { partial_start = q }) (record w { headers = h1 })
                idx us (xs ++ ys) p1 u1 out (others-Apart xs ys us idx d apart) ne many
                (subst (λ a. a ≢ 0) (sym same) inited)
                (subst (λ a. a / 2 ^ c.page_bits + s.pg_num ≤ 2 ^ 36) (sym same) fits) pos small)
              λ (s', w') r. record {
                partial = r.partial;
                uninit = r.uninit;
                no_slab = r.no_slab;
                cleared = r.cleared;
                tree =
                    subst (λ a. IsUpdate (a / 2 ^ c.page_bits) s.pg_num 0 w.ptr_map r.cleared) same
                      r.tree;
                returned =
                    r.returned
                    ∙ ap
                        (λ (a : ℕ).
                          c.dealloc (r.cleared, w.backend) a (mul64 (2 ^ c.page_bits) s.pg_num))
                        same;
              }))
