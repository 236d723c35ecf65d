-- ===== src/Text/Laws.antt =====
-- Equality of strings by hash and bytes is equality of the texts.
use any_vm.Base.{ℕ, ◌==◌, ==_iff, ◌&&◌, ◌≡◌, refl, ◌↔◌, Bool, true, false, List, [], ◌∷◌, arith}
use any_vm.Text.{hash_and_length, same_bytes, string_equal}

==_refl : (n : ℕ) → (n == n) ≡ true
==_refl n = (==_iff n n).1 refl

pub same_bytes_sound : (l r : List ℕ) → same_bytes l r ≡ true → l ≡ r
unfolding same_bytes
same_bytes_sound [] [] h = refl
same_bytes_sound [] (d ∷ ds) h = cc
same_bytes_sound (c ∷ cs) [] h = cc
same_bytes_sound (c ∷ cs) (d ∷ ds) h = ground (arith, same_bytes_sound cs ds)

pub same_bytes_refl : (l : List ℕ) → same_bytes l l ≡ true
unfolding same_bytes
same_bytes_refl [] = refl
same_bytes_refl (c ∷ cs) = rw (==_refl c) (same_bytes_refl cs)

both : (b c : Bool) → (b && c) ≡ true → c ≡ true
both true c h = h
both false c h = cc

-- agc_string_compare, which compares the hashes first and the bytes only if they agree, gives 0
-- exactly for equal texts.
pub string_equal_iff : (l r : List ℕ) → (string_equal l r ≡ true) ↔ (l ≡ r)
unfolding string_equal
string_equal_iff l r = (
  (λ h. same_bytes_sound l r (both _ _ h)),
  (λ e. rw e (rw (==_refl (hash_and_length r).0) (same_bytes_refl r))),
)
