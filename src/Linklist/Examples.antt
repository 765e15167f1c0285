-- ===== src/Linklist/Examples.antt =====
-- The theorems on the free list at a list of three chunks, of which the middle one is page aligned.
use uni_alloc.Base.{ℕ, ◌≡◌, refl, List, [], ◌∷◌, arith}
use uni_alloc.Base.Run.{ok, Returns}
use uni_alloc.Memory.{Memory, write, is_aligned}
use uni_alloc.Memory.Chain.{SameOutside}
use uni_alloc.Linklist.{Linklist, scan, pop_unchecked_aligned}
use uni_alloc.Linklist.Laws.{IsList, first_aligned, drop_aligned, pop_unchecked_aligned-IsList}

abbrev memory : Memory
memory = write (write (λ a. 0) 0x1008 0x2000) 0x2000 0x2010

abbrev list : Linklist
list = record { link = 0x1008; length = 3 }

abbrev chunks : List ℕ
chunks = 0x1008 ∷ 0x2000 ∷ 0x2010 ∷ []

list-IsList : IsList memory list chunks
unfolding write
list-IsList = record {
  chain = (refl, (refl, (refl, refl)));
  distinct = (refl, (refl, (refl, tt)));
  non_null = refl;
  counted = refl;
}

pop_page :
    pop_unchecked_aligned list 0x1000 memory
    ≡ ok (0x2000, record { link = 0x1008; length = 2 }, write memory 0x1008 0x2010)
unfolding pop_unchecked_aligned scan is_aligned write
pop_page = refl

pop_unchecked_aligned-IsList_example :
    Returns
      (λ (p, l, m).
        (p ≡ first_aligned 0x1000 chunks)
        × IsList m l (drop_aligned 0x1000 chunks)
        × SameOutside chunks memory m)
      (pop_unchecked_aligned list 0x1000 memory)
pop_unchecked_aligned-IsList_example =
    pop_unchecked_aligned-IsList 0x1000 memory list chunks list-IsList (omega arith)
