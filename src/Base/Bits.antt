-- ===== src/Base/Bits.antt =====
-- `|` of C on numbers whose bits do not overlap, for every shift: it is their sum.
use Prim.Native.Nat.{max, digits, bit_or, bit_or-bitwise}
use Prim.Native.Nat.{ℕ, zero, suc, ◌+◌, ◌*◌, ◌/◌, ◌%◌, ◌^◌, ◌≤◌, ◌<◌}
use mathlib.Core.Path.{◌≡◌, refl, ap}
use native.Mathlib.Nat.{pow-suc}
use native.Mathlib.Omega.{arith}

-- The recursion that `bit_or` stands for, with its fuel.
abbrev union : (a b fuel : ℕ) → ℕ
union a b fuel = digits (λ y. y) max fuel a b

-- As much fuel as `a`, or more, is enough.
union_enough : (a b fuel extra : ℕ) → a ≤ fuel → a ≤ extra → union a b fuel ≡ union a b extra
union_enough (suc a) b (suc fuel) (suc extra) h g =
    ap (λ t. t * 2 + max (suc a % 2) (b % 2))
      (union_enough (suc a / 2) (b / 2) fuel extra (omega arith) (omega arith))
union_enough (suc a) b (suc fuel) zero h g = elim g [ ]
union_enough (suc a) b zero extra h g = elim h [ ]
union_enough zero b (suc fuel) (suc extra) h g = refl
union_enough zero b (suc fuel) zero h g = refl
union_enough zero b zero (suc extra) h g = refl
union_enough zero b zero zero h g = refl

zero-bit_or : (b : ℕ) → bit_or 0 b ≡ b
zero-bit_or b = bit_or-bitwise 0 b

-- The lowest digit of `a | b`.
bit_or_lowest : (a b : ℕ) → bit_or a b ≡ bit_or (a / 2) (b / 2) * 2 + max (a % 2) (b % 2)
bit_or_lowest zero b = omega (arith, zero-bit_or b, zero-bit_or (b / 2))
bit_or_lowest (suc a) b = omega (
  arith,
  bit_or-bitwise (suc a) b,
  bit_or-bitwise (suc a / 2) (b / 2),
  union_enough (suc a / 2) (b / 2) a (suc a / 2) (omega arith) (omega arith),
)

bit_or-zero_below : (n a : ℕ) → a ≤ n → bit_or a 0 ≡ a
bit_or-zero_below n zero h = zero-bit_or 0
bit_or-zero_below zero (suc a) h = elim h [ ]
bit_or-zero_below (suc n) (suc a) h =
    omega (arith, bit_or_lowest (suc a) 0, bit_or-zero_below n (suc a / 2) (omega arith))

pub bit_or-zero : (a : ℕ) → bit_or a 0 ≡ a
bit_or-zero a = bit_or-zero_below a a (omega arith)

-- A number shifted left by `k` and one below `2 ^ k` share no bit.
pub bit_or-disjoint : (k a b : ℕ) → b < 2 ^ k → bit_or (a * 2 ^ k) b ≡ a * 2 ^ k + b
bit_or-disjoint zero a zero h = omega (arith, bit_or-zero (a * 2 ^ 0))
bit_or-disjoint zero a (suc b) h = absurd (omega arith)
bit_or-disjoint (suc k) a b h = omega (
  arith,
  bit_or_lowest (a * 2 ^ suc k) b,
  ap (λ (t : ℕ). a * t) (pow-suc 2 k),
  pow-suc 2 k,
  halves,
  bit_or-disjoint k a (b / 2) (omega (arith, pow-suc 2 k)),
)
  where
    halves : bit_or (a * 2 ^ suc k / 2) (b / 2) ≡ bit_or (a * 2 ^ k) (b / 2)
    halves = ap (λ t. bit_or t (b / 2)) (omega (arith, ap (λ (t : ℕ). a * t) (pow-suc 2 k)))
