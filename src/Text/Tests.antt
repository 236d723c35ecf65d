-- ===== src/Text/Tests.antt =====
-- The hash of a short text, and two texts compared.
use any_vm.Base.{ℕ, List, ◌≡◌, ◌↔◌, true, refl, [], ◌∷◌}
use any_vm.Text.{hash_and_length, string_equal}
use any_vm.Text.Laws.{string_equal_iff}

hash_ab : hash_and_length (b'a' ∷ b'b' ∷ []) ≡ (3323, 2)
unfolding hash_and_length
hash_ab = refl

abbrev a : List ℕ
a = b'a' ∷ []

abbrev b : List ℕ
b = b'b' ∷ []

string_equal_iff_example : (string_equal a b ≡ true) ↔ (a ≡ b)
string_equal_iff_example = string_equal_iff a b
