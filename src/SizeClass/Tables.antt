-- ===== src/SizeClass/Tables.antt =====
-- The tables of unialloc/src/size_class/tc_size_class.rs.
use uni_alloc.Base.{ℕ, List, [], ◌∷◌}

-- IDX_ARRAY: the class of each bucket of sizes.
abbrev pub idx_array : List ℕ
idx_array =
    0 ∷ 1 ∷ 2 ∷ 3 ∷ 4 ∷ 5 ∷ 6 ∷ 7 ∷ 8 ∷ 9 ∷ 10 ∷ 11 ∷ 12 ∷ 13 ∷ 14 ∷ 15 ∷ 16 ∷ 17 ∷ 17 ∷ 18 ∷ 18
    ∷ 19 ∷ 19 ∷ 20 ∷ 20 ∷ 21 ∷ 21 ∷ 22 ∷ 22 ∷ 23 ∷ 23 ∷ 24 ∷ 24 ∷ 25 ∷ 25 ∷ 25 ∷ 26 ∷ 26 ∷ 26 ∷ 27
    ∷ 27 ∷ 27 ∷ 27 ∷ 27 ∷ 27 ∷ 28 ∷ 28 ∷ 28 ∷ 28 ∷ 29 ∷ 29 ∷ 29 ∷ 29 ∷ 29 ∷ 30 ∷ 30 ∷ 30 ∷ 30 ∷ 30
    ∷ 30 ∷ 30 ∷ 31 ∷ 31 ∷ 31 ∷ 31 ∷ 32 ∷ 32 ∷ 32 ∷ 32 ∷ 32 ∷ 32 ∷ 32 ∷ 32 ∷ 33 ∷ 33 ∷ 33 ∷ 33 ∷ 33
    ∷ 33 ∷ 33 ∷ 33 ∷ 34 ∷ 34 ∷ 34 ∷ 34 ∷ 34 ∷ 34 ∷ 34 ∷ 34 ∷ 35 ∷ 35 ∷ 35 ∷ 35 ∷ 35 ∷ 35 ∷ 35 ∷ 35
    ∷ 35 ∷ 35 ∷ 35 ∷ 35 ∷ 35 ∷ 35 ∷ 35 ∷ 35 ∷ 36 ∷ 36 ∷ 36 ∷ 36 ∷ 36 ∷ 36 ∷ 36 ∷ 36 ∷ 37 ∷ 37 ∷ 37
    ∷ 37 ∷ 37 ∷ 37 ∷ 37 ∷ 37 ∷ 37 ∷ 37 ∷ 37 ∷ 37 ∷ 37 ∷ 37 ∷ 37 ∷ 37 ∷ 38 ∷ 39 ∷ 40 ∷ 41 ∷ 42 ∷ 42
    ∷ 43 ∷ 43 ∷ 44 ∷ 45 ∷ 46 ∷ 47 ∷ 47 ∷ 47 ∷ 47 ∷ 48 ∷ 48 ∷ 49 ∷ 49 ∷ 49 ∷ 50 ∷ 50 ∷ 50 ∷ 50 ∷ 51
    ∷ 51 ∷ 51 ∷ 51 ∷ 52 ∷ 52 ∷ 52 ∷ 52 ∷ 52 ∷ 52 ∷ 53 ∷ 53 ∷ 53 ∷ 53 ∷ 53 ∷ 53 ∷ 53 ∷ 53 ∷ 53 ∷ 54
    ∷ 54 ∷ 54 ∷ 54 ∷ 54 ∷ 54 ∷ 54 ∷ 54 ∷ 54 ∷ 54 ∷ 54 ∷ 54 ∷ 54 ∷ 55 ∷ 55 ∷ 55 ∷ 55 ∷ 55 ∷ 55 ∷ 55
    ∷ 55 ∷ 55 ∷ 56 ∷ 56 ∷ 56 ∷ 56 ∷ 56 ∷ 56 ∷ 56 ∷ 56 ∷ 56 ∷ 56 ∷ 56 ∷ 56 ∷ 57 ∷ 57 ∷ 57 ∷ 57 ∷ 57
    ∷ 57 ∷ 57 ∷ 57 ∷ 57 ∷ 57 ∷ 57 ∷ 57 ∷ 57 ∷ 57 ∷ 57 ∷ 57 ∷ 57 ∷ 58 ∷ 58 ∷ 58 ∷ 58 ∷ 58 ∷ 58 ∷ 58
    ∷ 59 ∷ 59 ∷ 59 ∷ 59 ∷ 59 ∷ 59 ∷ 59 ∷ 59 ∷ 59 ∷ 59 ∷ 59 ∷ 59 ∷ 59 ∷ 59 ∷ 59 ∷ 59 ∷ 59 ∷ 59 ∷ 59
    ∷ 60 ∷ 60 ∷ 60 ∷ 60 ∷ 60 ∷ 60 ∷ 60 ∷ 60 ∷ 60 ∷ 60 ∷ 60 ∷ 60 ∷ 60 ∷ 60 ∷ 60 ∷ 60 ∷ 60 ∷ 60 ∷ 60
    ∷ 60 ∷ 60 ∷ 61 ∷ 61 ∷ 61 ∷ 61 ∷ 61 ∷ 61 ∷ 61 ∷ 61 ∷ 61 ∷ 61 ∷ 61 ∷ 61 ∷ 61 ∷ 61 ∷ 61 ∷ 61 ∷ 61
    ∷ 61 ∷ 61 ∷ 61 ∷ 61 ∷ 62 ∷ 62 ∷ 62 ∷ 62 ∷ 62 ∷ 62 ∷ 62 ∷ 62 ∷ 62 ∷ 62 ∷ 62 ∷ 62 ∷ 62 ∷ 62 ∷ 62
    ∷ 62 ∷ 62 ∷ 62 ∷ 62 ∷ 62 ∷ 62 ∷ 62 ∷ 63 ∷ 63 ∷ 63 ∷ 63 ∷ 63 ∷ 63 ∷ 63 ∷ 63 ∷ 63 ∷ 63 ∷ 63 ∷ 63
    ∷ 63 ∷ 63 ∷ 63 ∷ 63 ∷ 63 ∷ 63 ∷ 63 ∷ 63 ∷ 63 ∷ 63 ∷ 63 ∷ 63 ∷ 63 ∷ 63 ∷ 63 ∷ []

-- SIZE_ARRAY: the chunk size of each class.
abbrev pub size_array : List ℕ
size_array =
    0 ∷ 8 ∷ 16 ∷ 24 ∷ 32 ∷ 40 ∷ 48 ∷ 56 ∷ 64 ∷ 72 ∷ 80 ∷ 88 ∷ 96 ∷ 104 ∷ 112 ∷ 120 ∷ 128 ∷ 144 ∷ 160
    ∷ 176 ∷ 192 ∷ 208 ∷ 224 ∷ 240 ∷ 256 ∷ 280 ∷ 304 ∷ 352 ∷ 384 ∷ 424 ∷ 480 ∷ 512 ∷ 576 ∷ 640 ∷ 704
    ∷ 832 ∷ 896 ∷ 1024 ∷ 1152 ∷ 1280 ∷ 1408 ∷ 1536 ∷ 1792 ∷ 2048 ∷ 2176 ∷ 2304 ∷ 2432 ∷ 2944 ∷ 3200
    ∷ 3584 ∷ 4096 ∷ 4608 ∷ 5376 ∷ 6528 ∷ 8192 ∷ 9344 ∷ 10880 ∷ 13056 ∷ 13952 ∷ 16384 ∷ 19072 ∷ 21760
    ∷ 24576 ∷ 28032 ∷ []

-- SIZE_CLASSES: the same sizes once more, as `usize`.
abbrev pub size_classes : List ℕ
size_classes =
    0 ∷ 8 ∷ 16 ∷ 24 ∷ 32 ∷ 40 ∷ 48 ∷ 56 ∷ 64 ∷ 72 ∷ 80 ∷ 88 ∷ 96 ∷ 104 ∷ 112 ∷ 120 ∷ 128 ∷ 144 ∷ 160
    ∷ 176 ∷ 192 ∷ 208 ∷ 224 ∷ 240 ∷ 256 ∷ 280 ∷ 304 ∷ 352 ∷ 384 ∷ 424 ∷ 480 ∷ 512 ∷ 576 ∷ 640 ∷ 704
    ∷ 832 ∷ 896 ∷ 1024 ∷ 1152 ∷ 1280 ∷ 1408 ∷ 1536 ∷ 1792 ∷ 2048 ∷ 2176 ∷ 2304 ∷ 2432 ∷ 2944 ∷ 3200
    ∷ 3584 ∷ 4096 ∷ 4608 ∷ 5376 ∷ 6528 ∷ 8192 ∷ 9344 ∷ 10880 ∷ 13056 ∷ 13952 ∷ 16384 ∷ 19072 ∷ 21760
    ∷ 24576 ∷ 28032 ∷ []

-- SIZE_CLASS_PAGES: the pages in a slab of each class.
abbrev pub size_class_pages : List ℕ
size_class_pages =
    0 ∷ 1 ∷ 1 ∷ 1 ∷ 1 ∷ 1 ∷ 1 ∷ 1 ∷ 1 ∷ 1 ∷ 1 ∷ 1 ∷ 1 ∷ 1 ∷ 1 ∷ 1 ∷ 1 ∷ 1 ∷ 1 ∷ 1 ∷ 1 ∷ 1 ∷ 1 ∷ 1
    ∷ 2 ∷ 2 ∷ 2 ∷ 2 ∷ 2 ∷ 2 ∷ 2 ∷ 4 ∷ 4 ∷ 4 ∷ 4 ∷ 4 ∷ 4 ∷ 8 ∷ 8 ∷ 8 ∷ 8 ∷ 8 ∷ 8 ∷ 16 ∷ 16 ∷ 16 ∷ 16
    ∷ 16 ∷ 16 ∷ 16 ∷ 32 ∷ 32 ∷ 32 ∷ 32 ∷ 64 ∷ 64 ∷ 64 ∷ 64 ∷ 64 ∷ 64 ∷ 64 ∷ 64 ∷ 64 ∷ 64 ∷ []

-- The arms of the match in `get_size_class_index`: first size, last size, class.
abbrev pub size_ranges : List (ℕ × ℕ × ℕ)
size_ranges =
    (0, 8, 0)
    ∷ (9, 16, 1)
    ∷ (17, 24, 2)
    ∷ (25, 32, 3)
    ∷ (33, 40, 4)
    ∷ (41, 48, 5)
    ∷ (49, 56, 6)
    ∷ (57, 64, 7)
    ∷ (65, 72, 8)
    ∷ (73, 80, 9)
    ∷ (81, 88, 10)
    ∷ (89, 96, 11)
    ∷ (97, 104, 12)
    ∷ (105, 112, 13)
    ∷ (113, 120, 14)
    ∷ (121, 128, 15)
    ∷ (129, 144, 16)
    ∷ (145, 160, 17)
    ∷ (161, 176, 18)
    ∷ (177, 192, 19)
    ∷ (193, 208, 20)
    ∷ (209, 224, 21)
    ∷ (225, 240, 22)
    ∷ (241, 256, 23)
    ∷ (257, 280, 24)
    ∷ (281, 304, 25)
    ∷ (305, 352, 26)
    ∷ (353, 384, 27)
    ∷ (385, 424, 28)
    ∷ (425, 480, 29)
    ∷ (481, 512, 30)
    ∷ (513, 576, 31)
    ∷ (577, 640, 32)
    ∷ (641, 704, 33)
    ∷ (705, 832, 34)
    ∷ (833, 896, 35)
    ∷ (897, 1024, 36)
    ∷ (1025, 1152, 37)
    ∷ (1153, 1280, 38)
    ∷ (1281, 1408, 39)
    ∷ (1409, 1536, 40)
    ∷ (1537, 1792, 41)
    ∷ (1793, 2048, 42)
    ∷ (2049, 2176, 43)
    ∷ (2177, 2304, 44)
    ∷ (2305, 2432, 45)
    ∷ (2433, 2944, 46)
    ∷ (2945, 3200, 47)
    ∷ (3201, 3584, 48)
    ∷ (3585, 4096, 49)
    ∷ (4097, 4608, 50)
    ∷ (4609, 5376, 51)
    ∷ (5377, 6528, 52)
    ∷ (6529, 8192, 53)
    ∷ (8193, 9344, 54)
    ∷ (9345, 10880, 55)
    ∷ (10881, 13056, 56)
    ∷ (13057, 13952, 57)
    ∷ (13953, 16384, 58)
    ∷ (16385, 19072, 59)
    ∷ (19073, 21760, 60)
    ∷ (21761, 24576, 61)
    ∷ (24577, 28032, 62)
    ∷ []
