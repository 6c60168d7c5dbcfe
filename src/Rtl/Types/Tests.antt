-- ===== src/Rtl/Types/Tests.antt =====
-- A field of five bits, and the theorem on src/zuspec/be/sw/passes/rtl/type_mapper.py at it.
use zuspec_be_sw.Prelude.{◌%◌, ◌^◌, ◌≤◌, ◌≡◌, refl, false, some, arith}
use zuspec_be_sw.Rtl.Types.{c_int, map_rtl_int_type, map_type_with_mask, read_masked, map_int}
use zuspec_be_sw.Rtl.Types.Masked.{map_type_with_mask-map_int}

five_bits : map_type_with_mask (some 5) false ≡ (c_int 8 false, some 31)
unfolding map_type_with_mask
five_bits = refl

no_bits :
    (map_int (some 0) false ≡ c_int 8 false) × (map_rtl_int_type (some 0) false ≡ c_int 32 false)
unfolding map_int map_rtl_int_type
no_bits = (refl, refl)

map_type_with_mask-map_int_example :
    (5 ≤ (map_type_with_mask (some 5) false).0.size)
    × (map_int (some 5) false ≡ (map_type_with_mask (some 5) false).0)
    × (read_masked (map_type_with_mask (some 5) false).1 200 ≡ 200 % 2 ^ 5)
unfolding map_type_with_mask
map_type_with_mask-map_int_example =
    map_type_with_mask-map_int 4 200 false (omega arith) (omega arith)
