-- ===== src/Slab/Batches/Renewed.antt =====
-- A batch from a slab that the backend gives now, under a header of the uninit list.
use uni_alloc.Base.{
  ℕ, ◌+◌, ◌/◌, ◌≡◌, ◌≢◌, ◌⊎◌, ◌≤◌, ◌<◌, ◌^◌, refl, ◌∙◌, ap, not, ◌&&◌, true, false, List, [], ◌∷◌,
  ◌++◌, arith, ◌==◌, Option, some, ne→==,
}
use uni_alloc.Base.Run.{Returns, returns, Returns-bind, Returns-nested}
use uni_alloc.Base.Words.{mul64}
use uni_alloc.Memory.Chain.{Apart, has}
use uni_alloc.Page.{ObjectPage}
use uni_alloc.Page.Backing.{allocate_page}
use uni_alloc.Radix.Head.{RadixTree}
use uni_alloc.Radix.Lookup.{IsUpdate}
use uni_alloc.Radix.Slabs.{handle_rd_tree_insert, handle_rd_tree_insert-IsUpdate}
use uni_alloc.Slab.Defs.{ScAllocator}
use uni_alloc.Slab.Lists.{Headers, remove_uninit}
use uni_alloc.Slab.Lists.Links.{delete_lem, IsPageList, Kept}
use uni_alloc.Slab.World.{World, Platform, as_usize, write_page}
use uni_alloc.Slab.Batches.{
  allocate_batch_v2, get_empty, get_uninit, back_page, hand_out, enter_new,
}
use uni_alloc.Slab.Batches.Moves.{IsPageList-frame, write_page-IsPageList, write_page_self}
use uni_alloc.Slab.Batches.Reused.{insert_full-IsHandedOut, allocate_all-unused, rest-Apart}

remove_uninit-head :
    (s : ScAllocator) (h : Headers) (us : List ℕ)
    → IsPageList h s.uninit_start (s.uninit_start ∷ us)
    → Returns
        (λ (idx, s', h').
          (idx ≡ s.uninit_start)
          × ((q : ℕ) × (s' ≡ record s { uninit_start = q }) × IsPageList h' q us)
          × Kept (s.uninit_start ∷ us) h h')
        (remove_uninit s h)
unfolding remove_uninit
remove_uninit-head s h us p =
    Returns-bind (delete_lem h s.uninit_start s.uninit_start [] us p) λ r q.
      returns {a = (s.uninit_start, record s { uninit_start = r.0 }, r.1)}
        (refl, (r.0, refl, q.0), q.1)

module _ {Os Backend : Type 0} (c : Platform Os Backend) (s : ScAllocator) (w : World Os Backend)
    (us fs : List ℕ) where
  -- What the backend answers.
  abbrev pub slab : ℕ × (RadixTree × Backend)
  slab = c.alloc (w.ptr_map, w.backend) (mul64 (2 ^ c.page_bits) s.pg_num)

  -- The first header of the uninit list has the slab and is on no list.
  record IsBacked (r : ℕ × Option ℕ × ScAllocator × World Os Backend) : Type 0 where
    first : r.0 ≡ s.uninit_start
    new_page : r.1 ≡ some slab.0
    head : ℕ
    allocator : r.2 ≡ record s { uninit_start = head }
    h1 : Headers
    ring : IsPageList h1 head us
    kept : Kept (s.uninit_start ∷ us) w.headers h1
    world : r.3 ≡ record w {
      headers =
          write_page h1 s.uninit_start
            (record (h1 s.uninit_start) { data_start = slab.0; ptr = 0; counter = 0 });
      ptr_map = slab.1.0;
      backend = slab.1.1;
    }

  get_empty-IsBacked :
      s.empty_start ≡ 0
      → IsPageList w.headers s.uninit_start (s.uninit_start ∷ us)
      → slab.0 ≢ 0
      → Returns IsBacked (get_empty c s w)
  unfolding get_empty get_uninit back_page allocate_page
  get_empty-IsBacked none_kept p given =
      let no_empty : (s.empty_start == 0) ≡ true = ground arith in
      let some_uninit : (s.uninit_start == 0) ≡ false = ground (arith, p.3) in
      rw (no_empty, some_uninit)
        (Returns-nested (remove_uninit s w.headers) _ _ (
          Returns-bind (remove_uninit-head s w.headers us p)
            λ (idx, s1, h1) (first, (q, same, p1), kept1).
              rw (first, same, ne→== slab.0 0 given)
                (returns (record {
                  first = refl;
                  new_page = refl;
                  head = q;
                  allocator = refl;
                  h1 = h1;
                  ring = p1;
                  kept = kept1;
                  world = refl;
                }))))

  -- The batch: the whole new slab. Its header is the last of the full list, and the tree, which the
  -- backend may have changed, leads from its pages to the header.
  pub record IsRenewed (r : (ℕ × ℕ × Option ℕ) × ScAllocator × World Os Backend) : Type 0 where
    pub batch : r.0 ≡ (slab.0, as_usize s.pg_count, some (as_usize s.pg_align))
    pub uninit : IsPageList r.2.headers r.1.uninit_start us
    pub full : IsPageList r.2.headers r.1.full_start (fs ++ (s.uninit_start ∷ []))
    pub slab_of : (r.2.headers s.uninit_start).data_start ≡ slab.0
    pub taken : (r.2.headers s.uninit_start).counter ≡ as_usize s.pg_count
    pub others :
        (head : ℕ) (xs : List ℕ)
        → Apart xs (s.uninit_start ∷ us)
        → Apart xs (fs ++ (s.uninit_start ∷ []))
        → IsPageList w.headers head xs
        → IsPageList r.2.headers head xs
    pub partial : r.1.partial_start ≡ s.partial_start
    pub empty : r.1.empty_start ≡ s.empty_start
    pub tree : IsUpdate (slab.0 / 2 ^ c.page_bits) s.pg_num s.uninit_start slab.1.0 r.2.ptr_map
    pub backend : r.2.backend ≡ slab.1.1

  -- If no slab is partial or an alignment is asked for, no empty slab is kept, the full and the uninit list
  -- are rings without a common page, the latter with a page, and the backend gives a slab of 1 to 2^16
  -- pages, with page numbers below 2^36: allocate_batch_v2 returns all chunks of that slab, still to be
  -- cut; the first header of the uninit list has it and becomes the last full one; the tree, as the
  -- backend left it, gets that header for exactly the pages of the slab; and every other list keeps its
  -- pages.
  pub allocate_batch_v2-IsRenewed :
      (align : ℕ)
      → (s.partial_start ≡ 0) ⊎ (align ≢ 1)
      → s.empty_start ≡ 0
      → IsPageList w.headers s.uninit_start (s.uninit_start ∷ us)
      → IsPageList w.headers s.full_start fs
      → Apart fs (s.uninit_start ∷ us)
      → slab.0 ≢ 0
      → slab.0 / 2 ^ c.page_bits + s.pg_num ≤ 2 ^ 36
      → 0 < s.pg_num
      → s.pg_num ≤ 2 ^ 16
      → Returns IsRenewed (allocate_batch_v2 c s align w)
  unfolding allocate_batch_v2 hand_out enter_new
  allocate_batch_v2-IsRenewed align no_partial none_kept p f apart given fits pos small =
      let passed_over : (not (s.partial_start == 0) && (align == 1)) ≡ false = ground arith in
      let n = as_usize s.pg_count in
      let a = as_usize s.pg_align in
      let u = s.uninit_start in
      rw passed_over (
        Returns-bind (get_empty-IsBacked none_kept p given) λ (idx, new_page, s1, w1) b.
          let old = record (b.h1 u) { data_start = slab.0; ptr = 0; counter = 0 } in
          let h2 = write_page b.h1 u old in
          let here = write_page_self b.h1 u old in
          let out : has u fs ≡ false = ground (arith, apart u) in
          let step = write_page-IsPageList b.h1 u old refl refl in
          let f2 =
            step s.full_start fs
              (IsPageList-frame w.headers b.h1 s.full_start (u ∷ us) fs apart b.kept f) in
          rw (b.first, b.new_page, b.allocator, b.world)
            (Returns-nested (handle_rd_tree_insert c.page_bits s.pg_num slab.1.0 u slab.0) _ _ (
              Returns-bind
                (handle_rd_tree_insert-IsUpdate c.page_bits s.pg_num slab.0 slab.1.0 u fits pos
                  small)
                λ t tree.
                  Returns-bind
                    (insert_full-IsHandedOut (record s { uninit_start = b.head }) h2 u n a fs f2 out
                      (ground (arith, p.3)))
                    λ (s2, h4) done. rw done.allocator (
                      returns (record {
                        batch =
                            allocate_all-unused (h2 u) n a (ap (λ (o : ObjectPage). o.counter) here)
                            ∙ ap (λ (o : ObjectPage). (o.data_start, n, some a)) here;
                        uninit =
                            done.others b.head us (rest-Apart u us fs p.2.0 apart)
                              (step b.head us b.ring);
                        full = done.full;
                        slab_of = done.slab_of ∙ ap (λ (o : ObjectPage). o.data_start) here;
                        taken = done.taken;
                        others = λ hd xs ap1 ap2 q. done.others hd xs ap2 (
                            step hd xs
                              (IsPageList-frame w.headers b.h1 hd (u ∷ us) xs ap1 b.kept q));
                        partial = refl;
                        empty = refl;
                        tree = tree;
                        backend = refl;
                      })))))
