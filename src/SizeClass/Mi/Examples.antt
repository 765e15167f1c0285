-- ===== src/SizeClass/Mi/Examples.antt =====
-- The formula at 81 bytes: 11 words, class 10, chunks of 96 bytes.
use uni_alloc.Base.{◌≡◌, refl}
use uni_alloc.SizeClass.{base}
use uni_alloc.SizeClass.Mi.{get_size_class, get_num_of_usize, idx_of, bsr, bit_length}

class_of_81 : get_size_class 81 ≡ base 10
unfolding get_size_class get_num_of_usize idx_of bsr bit_length
class_of_81 = refl
