-- ===== src/OsMem/Tests.antt =====
-- Tests, and concrete instances of the theorems.
use ely_square.Base.{suc, ◌*◌, ◌≡◌, refl, arith, some, true}
use ely_square.OsMem.{Kernel, get_closest_to4}
use ely_square.OsMem.Rounding.{get_closest_to4_lem}

abbrev kernel : Kernel
kernel = record { mapped = λ n. some (suc n * 0x10000); returned_zero = λ n. true }

one_page : get_closest_to4 1 ≡ 4096
unfolding get_closest_to4
one_page = refl

get_closest_to4_lem_example : get_closest_to4 5000 ≡ 8192
get_closest_to4_lem_example = get_closest_to4_lem 5000 (omega arith)
