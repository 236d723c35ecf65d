-- ===== src/Word.antt =====
-- `aint_t` is `int64_t`: sums, differences and products wrap round in two's complement, and
-- division cuts towards zero.
pub mod Quotient
mod Tests
use any_vm.Base.{
  ℕ, ℤ, pos, negsuc, pos_part, neg_part, sub_ℕ, ◌+ℤ◌, ◌-ℤ◌, ◌*ℤ◌, eq_ℤ, ◌+◌, ◌-◌, ◌/◌, ◌%◌, ◌^◌,
  ◌<◌, ◌≡◌, suc, Bool, ◌&&◌, ltb, if◌then◌else◌, arith, Bool-cases, inl, inr,
}

abbrev pub bits64 : ℤ → ℕ
bits64 (pos n) = n % 2 ^ 64
bits64 (negsuc n) = 2 ^ 64 - 1 - n % 2 ^ 64

abbrev pub signed64 : ℕ → ℤ
signed64 w = if ltb w (2 ^ 63) then pos w else negsuc (2 ^ 64 - 1 - w)

-- The `aint_t` that an integer wraps round to.
unfoldable pub wrap64 : ℤ → ℤ
wrap64 z = signed64 (bits64 z)

abbrev pub min64 : ℤ
min64 = negsuc (2 ^ 63 - 1)

abbrev pub IsInt64 : ℤ → Type 0
IsInt64 (pos n) = n < 2 ^ 63
IsInt64 (negsuc n) = n < 2 ^ 63

abbrev pub magnitude : ℤ → ℕ
magnitude z = pos_part z + neg_part z

-- `a / b` for b ≢ 0, and whether it overflows.
unfoldable pub div_ℤ : ℤ → ℤ → ℤ
div_ℤ (pos m) b = elim b [ pos n ↦ pos (m / n) | negsuc n ↦ sub_ℕ 0 (m / suc n) ]
div_ℤ (negsuc m) b = elim b [ pos n ↦ sub_ℕ 0 (suc m / n) | negsuc n ↦ pos (suc m / suc n) ]

abbrev pub div_overflows : ℤ → ℤ → Bool
div_overflows a b = eq_ℤ a min64 && eq_ℤ b (negsuc 0)

signed64-IsInt64 : (w : ℕ) → w < 2 ^ 64 → IsInt64 (signed64 w)
signed64-IsInt64 w h = elim (Bool-cases (ltb w (2 ^ 63))) [
  | inl small ↦ rw small (ground arith)
  | inr big ↦ rw big (ground arith)
]

pub wrap64-IsInt64 : (z : ℤ) → IsInt64 (wrap64 z)
unfolding wrap64
wrap64-IsInt64 (pos n) = signed64-IsInt64 (n % 2 ^ 64) (omega arith)
wrap64-IsInt64 (negsuc n) = signed64-IsInt64 (2 ^ 64 - 1 - n % 2 ^ 64) (omega arith)

-- An integer in range is kept.
pub wrap64_of_IsInt64 : (z : ℤ) → IsInt64 z → wrap64 z ≡ z
unfolding wrap64
wrap64_of_IsInt64 (pos n) h = ground arith
wrap64_of_IsInt64 (negsuc n) h = ground arith
