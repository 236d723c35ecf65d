-- ===== src/Text.antt =====
-- String values, src/private/std_string.c and src/inc/any/std_string.h: the hash, and equality by
-- `agc_string_compare`. A text is its bytes before the NUL.
pub mod Laws
mod Tests
use Prim.Native.Nat.{bit_xor}
use any_vm.Base.{ℕ, ◌+◌, ◌*◌, ◌/◌, ◌%◌, ◌^◌, ◌==◌, ◌&&◌, Bool, true, false, List, [], ◌∷◌, length}

-- One round of the loop of `ahash_and_length`, on a `uint32_t`.
abbrev mix : ℕ → ℕ → ℕ
mix h c = bit_xor h ((h * 2 ^ 5 % 2 ^ 32 + h / 2 ^ 2 + c) % 2 ^ 32)

hash_from : ℕ → List ℕ → ℕ
hash_from h [] = h
hash_from h (c ∷ cs) = hash_from (mix h c) cs

-- `ahash_and_length`
unfoldable pub hash_and_length : List ℕ → ℕ × ℕ
unfolding hash_from
hash_and_length s = (hash_from 0 s, length s)

-- `strcmp(l, r) == 0`
unfoldable pub same_bytes : List ℕ → List ℕ → Bool
same_bytes [] [] = true
same_bytes [] (_ ∷ _) = false
same_bytes (_ ∷ _) [] = false
same_bytes (c ∷ cs) (d ∷ ds) = (c == d) && same_bytes cs ds

-- `agc_string_compare(l, r) == 0`: the hashes first, the bytes if they agree.
unfoldable pub string_equal : List ℕ → List ℕ → Bool
unfolding hash_and_length same_bytes
string_equal l r = ((hash_and_length l).0 == (hash_and_length r).0) && same_bytes l r
