-- ===== src/ExBox/Tests.antt =====
-- Tests, and concrete instances of the theorems.
use ely_square.Base.{ℕ, ◌≡◌, ◌↔◌, ◌⊎◌, ◌<◌, ◌≤◌, ◌%◌, arith, refl, ok, some, ◌∷◌, [], true, false}
use ely_square.ExBox.{
  sso_str, extract_tag, box_gc_pointer, extract_gc_pointer, is_gc_pointer, box_sso,
  unbox_sso_string, box_fixnum, unbox_fixnum,
}
use ely_square.ExBox.Words.{extract_gc_pointer-box_gc_pointer_iff, unbox_fixnum-box_fixnum_iff}
use ely_square.ExBox.Strings.{unbox_sso_string-box_sso}

abc : box_sso true (some (97 ∷ 98 ∷ 99 ∷ [])) 3 ≡ ok 0x6362611c
unfolding box_sso
abc = refl

abc_loop : box_sso false (some (97 ∷ 98 ∷ 99 ∷ [])) 3 ≡ ok 0x6362611c
unfolding box_sso
abc_loop = refl

minus_one : unbox_fixnum (box_fixnum 0xffff_ffff_ffff_ffff) ≡ 0xffff_ffff_ffff_ffff
unfolding box_fixnum unbox_fixnum
minus_one = refl

extract_gc_pointer-box_gc_pointer_iff_example :
    ((extract_gc_pointer (box_gc_pointer 0x1008) ≡ 0x1008) ↔ (0x1008 % 8 ≡ 0))
    × (is_gc_pointer (box_gc_pointer 0x1008) ≡ true)
extract_gc_pointer-box_gc_pointer_iff_example =
    extract_gc_pointer-box_gc_pointer_iff 0x1008 (omega arith)

unbox_fixnum-box_fixnum_iff_example :
    (unbox_fixnum (box_fixnum 42) ≡ 42)
    ↔ ((42 < 0x1000_0000_0000_0000) ⊎ (0xf000_0000_0000_0000 ≤ 42))
unbox_fixnum-box_fixnum_iff_example = unbox_fixnum-box_fixnum_iff 42 (omega arith)

unbox_sso_string-box_sso_example :
    (v : ℕ) × (box_sso true (some (97 ∷ 98 ∷ 99 ∷ [])) 3 ≡ ok v)
    × (box_sso false (some (97 ∷ 98 ∷ 99 ∷ [])) 3 ≡ ok v)
    × (extract_tag v ≡ sso_str)
    × (unbox_sso_string true v ≡ ok (97 ∷ 98 ∷ 99 ∷ 0 ∷ []))
    × (unbox_sso_string false v ≡ ok (97 ∷ 98 ∷ 99 ∷ 0 ∷ []))
unbox_sso_string-box_sso_example =
    unbox_sso_string-box_sso (97 ∷ 98 ∷ 99 ∷ []) 3 (omega arith, (omega arith, (omega arith, tt)))
      (omega arith) (omega arith)
