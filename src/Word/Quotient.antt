-- ===== src/Word/Quotient.antt =====
-- Division of `aint_t` cuts towards zero.
use native.Mathlib.Nat.{div-mul-le_self, lt-div-mul-add}
use any_vm.Base.{
  ℕ, ℤ, pos, negsuc, pos_part, neg_part, sub_ℕ, ◌+◌, ◌*◌, ◌/◌, ◌≤◌, ◌<◌, ◌≡◌, ◌≢◌, ◌↔◌, refl, zero,
  suc, arith,
}
use any_vm.Word.{div_ℤ, magnitude}

-- `q` is the quotient of `a` by `b` cut towards zero: the largest magnitude whose product with `b`
-- is not larger than `a`, of the sign that the signs of `a` and `b` give.
pub record IsQuotient (a b q : ℤ) : Type 0 where
  pub below : magnitude q * magnitude b ≤ magnitude a
  pub next : magnitude a < magnitude q * magnitude b + magnitude b
  pub same_sign : 0 < pos_part q → (neg_part a ≡ 0) ↔ (neg_part b ≡ 0)
  pub other_sign : 0 < neg_part q → (neg_part a ≡ 0) ↔ (0 < neg_part b)

IsQuotient-positive :
    (m n : ℕ) (a b : ℤ)
    → magnitude a ≡ m
    → magnitude b ≡ suc n
    → (neg_part a ≡ 0) ↔ (neg_part b ≡ 0)
    → IsQuotient a b (pos (m / suc n))
IsQuotient-positive m n a b ea eb same = record {
  below = rw (ea, eb) (omega (arith, div-mul-le_self m (suc n)));
  next = rw (ea, eb) (omega (arith, lt-div-mul-add {a = m} {b = suc n} (omega arith)));
  same_sign = λ _. same;
  other_sign = λ lt. absurd (omega arith);
}

magnitude-minus : (n : ℕ) → magnitude (sub_ℕ 0 n) ≡ n
magnitude-minus n = ground arith

minus_not_positive : (n : ℕ) → pos_part (sub_ℕ 0 n) ≡ 0
minus_not_positive n = ground arith

IsQuotient-negative :
    (m n : ℕ) (a b : ℤ)
    → magnitude a ≡ m
    → magnitude b ≡ suc n
    → (neg_part a ≡ 0) ↔ (0 < neg_part b)
    → IsQuotient a b (sub_ℕ 0 (m / suc n))
IsQuotient-negative m n a b ea eb other = record {
  below = rw (magnitude-minus (m / suc n), ea, eb) (omega (arith, div-mul-le_self m (suc n)));
  next =
      rw (magnitude-minus (m / suc n), ea, eb)
        (omega (arith, lt-div-mul-add {a = m} {b = suc n} (omega arith)));
  same_sign = λ lt. absurd (omega (arith, minus_not_positive (m / suc n)));
  other_sign = λ _. other;
}

pub div_ℤ-IsQuotient : (a b : ℤ) → b ≢ pos 0 → IsQuotient a b (div_ℤ a b)
unfolding div_ℤ
div_ℤ-IsQuotient (pos m) (pos zero) h = absurd (h refl)
div_ℤ-IsQuotient (negsuc m) (pos zero) h = absurd (h refl)
div_ℤ-IsQuotient (pos m) (pos (suc n)) h =
    IsQuotient-positive m n (pos m) (pos (suc n)) (omega arith) (omega arith) (λ _. refl, λ _. refl)
div_ℤ-IsQuotient (pos m) (negsuc n) h =
    IsQuotient-negative m n (pos m) (negsuc n) (omega arith) (omega arith)
      (λ _. omega arith, λ _. refl)
div_ℤ-IsQuotient (negsuc m) (pos (suc n)) h =
    IsQuotient-negative (suc m) n (negsuc m) (pos (suc n)) (omega arith) (omega arith)
      (λ e. absurd (omega arith), λ e. absurd (omega arith))
div_ℤ-IsQuotient (negsuc m) (negsuc n) h =
    IsQuotient-positive (suc m) n (negsuc m) (negsuc n) (omega arith) (omega arith)
      (λ e. absurd (omega arith), λ e. absurd (omega arith))
