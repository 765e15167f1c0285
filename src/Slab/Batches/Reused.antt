-- ===== src/Slab/Batches/Reused.antt =====
-- A batch from an empty slab that was kept: all its chunks, still to be cut.
use uni_alloc.Base.{
  ℕ, suc, not, ◌&&◌, ltb, ◌≡◌, ◌≢◌, ◌⊎◌, ◌<◌, ◌^◌, refl, ◌∙◌, ap, true, false, List, [], ◌∷◌, ◌++◌,
  length, arith, ◌==◌, Option, some, eq→==,
}
use uni_alloc.Base.Run.{Returns, returns, Returns-bind, Returns-nested, Returns-map}
use uni_alloc.Base.Words.{sub64}
use uni_alloc.Memory.Chain.{Apart, has, has_ne, has-append}
use uni_alloc.Page.{ObjectPage, allocate_all}
use uni_alloc.Slab.Defs.{ScAllocator}
use uni_alloc.Slab.Lists.{Headers, remove_empty, insert_full}
use uni_alloc.Slab.Lists.Links.{
  link_lem, next_of, prev_of, IsPageList, Kept, unlink-cut, Kept-cut, cut_head,
}
use uni_alloc.Slab.World.{World, Platform, as_usize, write_page}
use uni_alloc.Slab.Batches.{allocate_batch_v2, get_empty, hand_out, enter_new}
use uni_alloc.Slab.Batches.Moves.{
  IsPageList-frame, write_page-IsPageList, write_page_self, allocate_all-links,
}

-- The first empty slab leaves its list.
record IsRemoved (s : ScAllocator) (h : Headers) (e : ℕ) (es : List ℕ)
    (r : ℕ × ScAllocator × Headers) : Type 0 where
  first : r.0 ≡ e
  head : ℕ
  allocator : r.1 ≡ record s { empty_start = head; empty_count = length es }
  ring : IsPageList r.2 head es
  kept : Kept (e ∷ es) h r.2

remove_empty-head :
    (s : ScAllocator) (h : Headers) (e : ℕ) (es : List ℕ)
    → IsPageList h s.empty_start (e ∷ es)
    → s.empty_count ≡ length (e ∷ es)
    → length (e ∷ es) < 2 ^ 64
    → Returns (IsRemoved s h e es) (remove_empty s h)
unfolding remove_empty
remove_empty-head s h e [] r count small =
    let here : (e == 0) ≡ false = ground (arith, r.3) in
    let before : has (prev_of h e) (e ∷ []) ≡ true = ground (arith, r.1.1) in
    let after : has (next_of h e) (e ∷ []) ≡ true = ground (arith, r.1.0) in
    rw (r.0, count, here, unlink-cut h e (e ∷ []) r.3 before after)
      (returns (record {
        first = refl;
        head = 0;
        allocator = refl;
        ring = refl;
        kept = Kept-cut h e (e ∷ []) r.3 before after;
      }))
remove_empty-head s h e (y ∷ ys) r count small =
    let here : (e == 0) ≡ false = ground (arith, r.3) in
    let all : List ℕ = e ∷ (y ∷ ys) in
    let (before, after, ring) = cut_head h e y ys (refl, r.1, r.2, r.3) in
    let some_one : ltb 0 (suc (suc (length ys))) ≡ true = ground arith in
    let several : ltb 1 (suc (suc (length ys))) ≡ true = ground arith in
    let fewer : sub64 (suc (suc (length ys))) 1 ≡ suc (length ys) = omega arith in
    rw (r.0, count, here, unlink-cut h e all r.3 before after, some_one, several, fewer)
      (returns (record {
        first = refl;
        head = next_of h e;
        allocator = refl;
        ring = ring;
        kept = Kept-cut h e all r.3 before after;
      }))

pub allocate_all-unused :
    (s : ObjectPage) (n a : ℕ) → s.counter ≡ 0 → (allocate_all s n a).1 ≡ (s.data_start, n, some a)
unfolding allocate_all
allocate_all-unused s n a h = rw (eq→== s.counter 0 h) refl

insert_full-ring :
    (s : ScAllocator) (h : Headers) (e : ℕ) (fs : List ℕ)
    → IsPageList h s.full_start fs
    → has e fs ≡ false
    → e ≢ 0
    → Returns
        (λ (s', h').
          ((q : ℕ) × (s' ≡ record s { full_start = q }) × IsPageList h' q (fs ++ (e ∷ [])))
          × Kept (fs ++ (e ∷ [])) h h')
        (insert_full s e h)
unfolding insert_full
insert_full-ring s h e fs f out ne =
    Returns-bind (link_lem h s.full_start e fs f out ne)
      λ r q. returns {a = (record s { full_start = r.0 }, r.1)} ((r.0, refl, q.0), q.1)

-- A header that gave all chunks of its slab is the last of the full list.
pub record IsHandedOut (s : ScAllocator) (h : Headers) (e n : ℕ) (fs : List ℕ)
    (r : ScAllocator × Headers) : Type 0 where
  pub head : ℕ
  pub allocator : r.0 ≡ record s { full_start = head }
  pub full : IsPageList r.1 head (fs ++ (e ∷ []))
  pub others :
      (hd : ℕ) (xs : List ℕ) → Apart xs (fs ++ (e ∷ [])) → IsPageList h hd xs → IsPageList r.1 hd xs
  pub taken : (r.1 e).counter ≡ n
  pub slab_of : (r.1 e).data_start ≡ (h e).data_start

pub insert_full-IsHandedOut :
    (s : ScAllocator) (h : Headers) (e n a : ℕ) (fs : List ℕ)
    → IsPageList h s.full_start fs
    → has e fs ≡ false
    → e ≢ 0
    → Returns (IsHandedOut s h e n fs) (insert_full s e (write_page h e (allocate_all (h e) n a).0))
insert_full-IsHandedOut s h e n a fs f out ne =
    let links = allocate_all-links (h e) n a in
    let page = (allocate_all (h e) n a).0 in
    let step = write_page-IsPageList h e page links.0 links.1 in
    Returns-map (insert_full-ring s (write_page h e page) e fs (step s.full_start fs f) out ne)
      λ (s', h') ((head, same, full), kept). record {
        head = head;
        allocator = same;
        full = full;
        others = λ hd xs ap q.
            IsPageList-frame (write_page h e page) h' hd (fs ++ (e ∷ [])) xs ap kept (step hd xs q);
        taken =
            kept.counter e
            ∙ ap (λ (o : ObjectPage). o.counter) (write_page_self h e page)
            ∙ links.3;
        slab_of =
            kept.data_start e
            ∙ ap (λ (o : ObjectPage). o.data_start) (write_page_self h e page)
            ∙ links.2;
      }

-- The pages of a ring behind its first page are apart from a list that is apart from the ring.
pub rest-Apart :
    (e : ℕ) (es fs : List ℕ) → has e es ≡ false → Apart fs (e ∷ es) → Apart es (fs ++ (e ∷ []))
rest-Apart e es fs out apart b i =
    rw (has-append b fs (e ∷ [])) (ground (arith, apart b, has_ne b e es i out))

module _ {Os Backend : Type 0} (c : Platform Os Backend) (s : ScAllocator) (w : World Os Backend)
    (e : ℕ) (es fs : List ℕ) where
  -- The batch: the whole slab. Its header is full and the last of the full list; the other empty slabs and
  -- every list apart from these two stay, and so does what the slab allocators share.
  pub record IsReused (r : (ℕ × ℕ × Option ℕ) × ScAllocator × World Os Backend) : Type 0 where
    pub batch : r.0 ≡ ((w.headers e).data_start, as_usize s.pg_count, some (as_usize s.pg_align))
    pub empty : IsPageList r.2.headers r.1.empty_start es
    pub count : r.1.empty_count ≡ length es
    pub full : IsPageList r.2.headers r.1.full_start (fs ++ (e ∷ []))
    pub taken : (r.2.headers e).counter ≡ as_usize s.pg_count
    pub others :
        (head : ℕ) (xs : List ℕ)
        → Apart xs (e ∷ es)
        → Apart xs (fs ++ (e ∷ []))
        → IsPageList w.headers head xs
        → IsPageList r.2.headers head xs
    pub partial : r.1.partial_start ≡ s.partial_start
    pub uninit : r.1.uninit_start ≡ s.uninit_start
    pub tree : r.2.ptr_map ≡ w.ptr_map
    pub backend : r.2.backend ≡ w.backend

  -- If no slab is partial or an alignment is asked for, the full and the empty list are rings without a
  -- common page, the count of empty slabs is the length of their list, and the first of them has no chunk
  -- out: allocate_batch_v2 returns all chunks of that slab, still to be cut; it becomes the last full slab,
  -- every other list keeps its pages, and tree and backend are as before.
  pub allocate_batch_v2-IsReused :
      (align : ℕ)
      → (s.partial_start ≡ 0) ⊎ (align ≢ 1)
      → IsPageList w.headers s.empty_start (e ∷ es)
      → IsPageList w.headers s.full_start fs
      → Apart fs (e ∷ es)
      → s.empty_count ≡ length (e ∷ es)
      → length (e ∷ es) < 2 ^ 64
      → (w.headers e).counter ≡ 0
      → Returns IsReused (allocate_batch_v2 c s align w)
  unfolding allocate_batch_v2 get_empty hand_out enter_new
  allocate_batch_v2-IsReused align no_partial p f apart count small unused =
      let passed_over : (not (s.partial_start == 0) && (align == 1)) ≡ false = ground arith in
      let kept_one : (s.empty_start == 0) ≡ false = ground (arith, p.0, p.3) in
      let n = as_usize s.pg_count in
      let a = as_usize s.pg_align in
      rw (passed_over, kept_one)
        (Returns-nested (remove_empty s w.headers) _ _ (
          Returns-bind (remove_empty-head s w.headers e es p count small) λ (idx, s1, h1) removed.
            let f1 = IsPageList-frame w.headers h1 s.full_start (e ∷ es) fs apart removed.kept f in
            let out : has e fs ≡ false = ground (arith, apart e) in
            let fresh = allocate_all-unused (h1 e) n a (removed.kept.counter e ∙ unused) in
            rw (removed.first, removed.allocator)
              (Returns-bind (insert_full-IsHandedOut _ h1 e n a fs f1 out (ground (arith, p.3)))
                λ (s2, h3) given. rw given.allocator (
                  returns (record {
                    batch = fresh ∙ ap (λ (d : ℕ). (d, n, some a)) (removed.kept.data_start e);
                    empty =
                        given.others removed.head es (rest-Apart e es fs p.2.0 apart) removed.ring;
                    count = refl;
                    full = given.full;
                    taken = given.taken;
                    others = λ hd xs ap1 ap2 q.
                        given.others hd xs ap2
                          (IsPageList-frame w.headers h1 hd (e ∷ es) xs ap1 removed.kept q);
                    partial = refl;
                    uninit = refl;
                    tree = refl;
                    backend = refl;
                  })))))
