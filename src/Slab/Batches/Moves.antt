-- ===== src/Slab/Batches/Moves.antt =====
-- A slab that moves from one page list to another: both lists are rings before and after.
use mathlib.Core.Path.{fun_ext, subst, subst₂}
use uni_alloc.Base.{
  ℕ, ◌≡◌, ◌≢◌, refl, sym, true, false, List, [], ◌∷◌, ◌++◌, arith, ◌==◌, none, ◌∙◌, ap, eq→==, ◌<◌,
  ◌^◌, length,
}
use uni_alloc.Base.Run.{Returns, returns, Returns-bind, Returns-map, Returns-then, ◌>>=◌}
use uni_alloc.Base.Words.{sub64}
use uni_alloc.Memory.Chain.{Apart, Chain, has, has_ne, has-append}
use uni_alloc.Page.{ObjectPage, allocate_all}
use uni_alloc.Page.Chunks.{IsFree}
use uni_alloc.Ring.{Segment-frame, IsRing}
use uni_alloc.Slab.Defs.{ScAllocator}
use uni_alloc.Slab.Lists.{Headers, modify, remove_partial, insert_full}
use uni_alloc.Slab.Lists.Links.{next_of, prev_of, IsPageList, Kept, link_lem, delete_lem}
use uni_alloc.Slab.World.{World, Platform, as_usize, write_page}
use uni_alloc.Slab.Batches.{hand_out, allocate_batch_v2}

-- A list keeps its ring when links of other pages change.
pub IsPageList-frame :
    (h h' : Headers) (head : ℕ) (xs ys : List ℕ)
    → Apart ys xs
    → Kept xs h h'
    → IsPageList h head ys
    → IsPageList h' head ys
IsPageList-frame h h' head xs [] apart kept r = r
IsPageList-frame h h' head xs (y ∷ ys) apart kept (e, s, d, n) =
    let same_next : (a : ℕ) → has a (y ∷ ys) ≡ true → next_of h' a ≡ next_of h a =
      λ a i. ap (λ (p : ObjectPage). p.next) (kept.same a (apart a i)) in
    let same_prev : (a : ℕ) → has a (y ∷ ys) ≡ true → prev_of h' a ≡ prev_of h a =
      λ a i. ap (λ (p : ObjectPage). p.prev) (kept.same a (apart a i)) in
    (
      e,
      Segment-frame (next_of h) (prev_of h) (next_of h') (prev_of h') y ys y same_next same_prev s,
      d,
      n,
    )

-- A header that keeps its links can change without harm to the rings.
module _ (h : Headers) (idx : ℕ) (page : ObjectPage) (same_next : page.next ≡ next_of h idx)
    (same_prev : page.prev ≡ prev_of h idx) where
  pub write_page-IsPageList :
      (head : ℕ) (xs : List ℕ) → IsPageList h head xs → IsPageList (write_page h idx page) head xs
  write_page-IsPageList head xs r =
      subst₂ (λ f g. IsRing f g head xs) (fun_ext λ a. next a) (fun_ext λ a. prev a) r
    where
      next : (a : ℕ) → next_of h a ≡ next_of (write_page h idx page) a
      next a = unfold write_page modify in ground arith

      prev : (a : ℕ) → prev_of h a ≡ prev_of (write_page h idx page) a
      prev a = unfold write_page modify in ground arith

remove_partial-head :
    (s : ScAllocator) (h : Headers) (idx : ℕ) (ps : List ℕ)
    → IsPageList h s.partial_start (idx ∷ ps)
    → Returns
        (λ (s', h').
          (s'.full_start ≡ s.full_start) × IsPageList h' s'.partial_start ps × Kept (idx ∷ ps) h h')
        (remove_partial s idx h)
unfolding remove_partial
remove_partial-head s h idx ps p =
    Returns-bind (delete_lem h s.partial_start idx [] ps p)
      λ r q. returns {a = (record s { partial_start = r.0 }, r.1)} (refl, q.0, q.1)

pub insert_full-last :
    (s : ScAllocator) (h : Headers) (idx : ℕ) (fs : List ℕ)
    → IsPageList h s.full_start fs
    → has idx fs ≡ false
    → idx ≢ 0
    → Returns
        (λ (s', h').
          (s'.partial_start ≡ s.partial_start)
          × IsPageList h' s'.full_start (fs ++ (idx ∷ []))
          × Kept (fs ++ (idx ∷ [])) h h')
        (insert_full s idx h)
unfolding insert_full
insert_full-last s h idx fs f out ne =
    Returns-bind (link_lem h s.full_start idx fs f out ne)
      λ r q. returns {a = (record s { full_start = r.0 }, r.1)} (refl, q.0, q.1)

-- A page leaves the head of the partial list and becomes the last of the full list.
pub partial-full :
    (s : ScAllocator) (h : Headers) (idx : ℕ) (ps fs : List ℕ)
    → IsPageList h s.partial_start (idx ∷ ps)
    → IsPageList h s.full_start fs
    → Apart fs (idx ∷ ps)
    → Returns
        (λ (s', h').
          IsPageList h' s'.partial_start ps
          × IsPageList h' s'.full_start (fs ++ (idx ∷ []))
          × ((h' idx).counter ≡ (h idx).counter)
          × ((h' idx).ptr ≡ (h idx).ptr)
          × ((h' idx).data_start ≡ (h idx).data_start))
        (remove_partial s idx h >>= λ (s1, h1). insert_full s1 idx h1)
partial-full s h idx ps fs p f apart =
    Returns-bind (remove_partial-head s h idx ps p) λ (s1, h1) (same1, p1, kept1).
      let out : has idx fs ≡ false = ground (arith, apart idx) in
      let f1 =
        subst (λ a. IsPageList h1 a fs) (sym same1)
          (IsPageList-frame h h1 s.full_start (idx ∷ ps) fs apart kept1 f) in
      Returns-map (insert_full-last s1 h1 idx fs f1 out (ground (arith, p.3)))
        λ (s2, h2) (same2, f2, kept2). (
          subst (λ a. IsPageList h2 a ps) (sym same2)
              (IsPageList-frame h1 h2 s1.partial_start (fs ++ (idx ∷ [])) ps
                (λ a i.
                  rw (has-append a fs (idx ∷ []))
                    (ground (arith, apart a, p.2.0, has_ne a idx ps i p.2.0)))
                kept2 p1),
          f2,
          kept2.counter idx ∙ kept1.counter idx,
          kept2.ptr idx ∙ kept1.ptr idx,
          kept2.data_start idx ∙ kept1.data_start idx,
        )

-- `allocate_all` keeps the links and the slab of a header.
pub allocate_all-links :
    (s : ObjectPage) (n a : ℕ)
    → ((allocate_all s n a).0.next ≡ s.next)
      × ((allocate_all s n a).0.prev ≡ s.prev)
      × ((allocate_all s n a).0.data_start ≡ s.data_start)
      × ((allocate_all s n a).0.counter ≡ n)
      × ((allocate_all s n a).0.ptr ≡ 0)
unfolding allocate_all
allocate_all-links s n a = (ground arith, ground arith, ground arith, ground arith, ground arith)

allocate_all-used :
    (s : ObjectPage) (n a : ℕ)
    → 0 < s.counter
    → (allocate_all s n a).1 ≡ (s.ptr, sub64 n s.counter, none)
unfolding allocate_all
allocate_all-used s n a h = let taken : (s.counter == 0) ≡ false = ground arith in rw taken refl

pub write_page_self : (h : Headers) (idx : ℕ) (page : ObjectPage) → write_page h idx page idx ≡ page
unfolding write_page modify
write_page_self h idx page = rw (eq→== idx idx refl) refl

module _ {Os Backend : Type 0} (c : Platform Os Backend) (s : ScAllocator) (w : World Os Backend)
    (ps fs : List ℕ) where
  -- The first partial slab gives all its free chunks, as the chain they form, and becomes the last
  -- full slab; the other slabs stay in their lists.
  pub allocate_batch_v2-partial :
      (bytes : ℕ) (free : List ℕ)
      → IsPageList w.headers s.partial_start (s.partial_start ∷ ps)
      → IsPageList w.headers s.full_start fs
      → Apart fs (s.partial_start ∷ ps)
      → as_usize s.pg_count < 2 ^ 64
      → IsFree w.memory bytes (as_usize s.pg_count) (w.headers s.partial_start) free
      → 0 < (w.headers s.partial_start).counter
      → Returns
          (λ (ans, s', w').
            (ans ≡ ((w.headers s.partial_start).ptr, length free, none))
            × Chain w'.memory (w.headers s.partial_start).ptr free 0
            × IsPageList w'.headers s'.partial_start ps
            × IsPageList w'.headers s'.full_start (fs ++ (s.partial_start ∷ []))
            × IsFree w'.memory bytes (as_usize s.pg_count) (w'.headers s.partial_start) [])
          (allocate_batch_v2 c s 1 w)
  unfolding allocate_batch_v2 hand_out
  allocate_batch_v2-partial bytes free p f apart few is out =
      let n = as_usize s.pg_count in
      let idx = s.partial_start in
      let old = w.headers idx in
      let page = (allocate_all old n (as_usize s.pg_align)).0 in
      let links = allocate_all-links old n (as_usize s.pg_align) in
      let h0 = write_page w.headers idx page in
      let found : (idx == 0) ≡ false = ground (arith, p.3) in
      let p0 = write_page-IsPageList w.headers idx page links.0 links.1 idx (idx ∷ ps) p in
      let f0 = write_page-IsPageList w.headers idx page links.0 links.1 s.full_start fs f in
      let rest : sub64 n old.counter ≡ length free = omega (arith, is.counted) in
      rw found (
        Returns-then (remove_partial s idx h0) (λ r. insert_full r.0 idx r.1) _
          (Returns-bind (partial-full s h0 idx ps fs p0 f0 apart)
            λ (s', h') (p', f', same_counter, same_ptr, same_data). returns (
              rw (allocate_all-used old n (as_usize s.pg_align) out, rest) refl,
              is.chain,
              p',
              f',
              record {
                chain =
                    same_ptr
                    ∙ ap (λ (q : ObjectPage). q.ptr) (write_page_self w.headers idx page)
                    ∙ links.4;
                distinct = tt;
                inside = tt;
                counted = omega (
                  arith,
                  same_counter,
                  ap (λ (q : ObjectPage). q.counter) (write_page_self w.headers idx page),
                  links.3,
                );
              },
            )))
