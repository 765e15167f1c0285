-- ===== src/ArrayList/Examples.antt =====
-- The vector-based list on two nodes.
use uni_alloc.Base.{ℕ, ◌≡◌, refl, arith}
use uni_alloc.Base.Run.{Run, ok, ◌>>=◌}
use uni_alloc.ArrayList.{
  ArrayLinkedList, new, push, insert_to_next, update, set_prev, set_next, get_next,
}
use uni_alloc.ArrayList.Links.{WellLinked, push-WellLinked}

new-WellLinked : WellLinked (new {A = ℕ})
new-WellLinked = record {
  prev_lt = λ i b. absurd (omega arith);
  next_lt = λ i b. absurd (omega arith);
  next-prev = λ i b. absurd (omega arith);
  prev-next = λ i b. absurd (omega arith);
}

unfoldable one : ArrayLinkedList ℕ
one = push new 10

unfoldable two : ArrayLinkedList ℕ
two = push one 20

one-WellLinked : WellLinked one
unfolding one push
one-WellLinked = (push-WellLinked {A = ℕ} new 10 new-WellLinked).0

two-WellLinked : WellLinked two
unfolding two one push
two-WellLinked = (push-WellLinked one 20 one-WellLinked).0

-- Two nodes linked to a ring and followed around.
around : Run ℕ
around = do l ← insert_to_next two 0 1; i ← get_next l 0; get_next l i

around-ok : around ≡ ok 0
unfolding around two one push insert_to_next get_next set_prev set_next update
around-ok = refl
