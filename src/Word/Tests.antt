-- ===== src/Word/Tests.antt =====
-- Division and wrap-around at the bounds.
use any_vm.Base.{pos, negsuc, ◌≡◌, refl}
use any_vm.Word.{wrap64, div_ℤ}

cut_towards_zero : div_ℤ (negsuc 6) (pos 2) ≡ negsuc 2
unfolding div_ℤ
cut_towards_zero = refl

wraps : wrap64 (pos 0x8000_0000_0000_0000) ≡ negsuc 0x7fff_ffff_ffff_ffff
unfolding wrap64
wraps = refl
