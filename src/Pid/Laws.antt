-- ===== src/Pid/Laws.antt =====
-- A pid gives back the index and the generation that it was made from.
use Prim.Native.Nat.{bit_or}
use native.Mathlib.Nat.{
  pow-suc, pow-zero, add-zero, mul-one, mul_assoc, mul_comm, mul-lt-mul_of_pos_right,
  mul-le-mul_right, one-le-pow, mul-add-div_right, div-eq_of_lt, mod-eq_of_lt, mul-div_cancel,
  mul-add-mod_self_right, add-mul,
}
use any_vm.Base.{
  ℕ, zero, suc, ◌+◌, ◌-◌, ◌*◌, ◌/◌, ◌%◌, ◌^◌, ◌≤◌, ◌<◌, ◌≡◌, sym, ap, ap₂, ◌∙◌, subst, arith,
}
use any_vm.Base.Bits.{bit_or-disjoint}
use any_vm.Pid.{shl32, apid_from, apid_idx, apid_gen}

pow-add : (m n : ℕ) → 2 ^ (m + n) ≡ 2 ^ m * 2 ^ n
pow-add m zero = rw (add-zero, pow-zero, mul-one)
pow-add m (suc n) =
    ap (λ k. 2 ^ k) (omega arith)
    ∙ pow-suc 2 (m + n)
    ∙ ap (λ t. t * 2) (pow-add m n)
    ∙ mul_assoc (2 ^ m) (2 ^ n) 2
    ∙ ap (λ t. 2 ^ m * t) (sym (pow-suc 2 n))

pow_split : (c a b : ℕ) → a + b ≡ c → 2 ^ a * 2 ^ b ≡ 2 ^ c
pow_split c a b e = sym (pow-add a b) ∙ ap (λ k. 2 ^ k) e

pow_pos : (n : ℕ) → 0 < 2 ^ n
pow_pos n = one-le-pow n 2 (omega arith)

-- A field of `a` bits moved left by `b` has `a + b` bits.
shift_lt : (c a b x : ℕ) → a + b ≡ c → x < 2 ^ a → x * 2 ^ b < 2 ^ c
shift_lt c a b x e lt =
    subst (λ t. x * 2 ^ b < t) (pow_split c a b e) (mul-lt-mul_of_pos_right lt (pow_pos b))

module _ (idx_bits gen_bits idx gen : ℕ) (fits : idx_bits + gen_bits ≤ 32)
    (idx_lt : idx < 2 ^ idx_bits) (gen_lt : gen < 2 ^ gen_bits) where
  abbrev below : ℕ
  below = 32 - idx_bits

  abbrev rest : ℕ
  rest = 32 - idx_bits - gen_bits

  gen_shift_lt : gen * 2 ^ rest < 2 ^ below
  gen_shift_lt = shift_lt below gen_bits rest gen (omega arith) gen_lt

  idx_shift_lt : idx * 2 ^ below < 2 ^ 32
  idx_shift_lt = shift_lt 32 idx_bits below idx (omega arith) idx_lt

  below_le : 2 ^ below ≤ 2 ^ 32
  below_le =
      subst (λ t. 2 ^ below ≤ t)
        (mul_comm (2 ^ below) (2 ^ idx_bits) ∙ pow_split 32 idx_bits below (omega arith))
        (omega (arith, mul-le-mul_right (2 ^ below) (pow_pos idx_bits)))

  -- The two fields side by side.
  apid_from-eq-add : apid_from idx_bits gen_bits idx gen ≡ idx * 2 ^ below + gen * 2 ^ rest
  unfolding apid_from
  apid_from-eq-add =
      ap₂ bit_or (mod-eq_of_lt idx_shift_lt) (mod-eq_of_lt (omega (arith, gen_shift_lt, below_le)))
      ∙ bit_or-disjoint below idx (gen * 2 ^ rest) gen_shift_lt

  pub apid_idx-apid_from : apid_idx idx_bits (apid_from idx_bits gen_bits idx gen) ≡ idx
  unfolding apid_idx
  apid_idx-apid_from =
      ap (λ t. t / 2 ^ below) apid_from-eq-add
      ∙ mul-add-div_right (pow_pos below) idx (gen * 2 ^ rest)
      ∙ omega (arith, div-eq_of_lt gen_shift_lt)

  -- Shifting the index out leaves the generation at the top.
  shl32-apid_from : shl32 (apid_from idx_bits gen_bits idx gen) idx_bits ≡ gen * 2 ^ (32 - gen_bits)
  unfolding shl32
  shl32-apid_from =
      ap (λ t. t * 2 ^ idx_bits % 2 ^ 32) apid_from-eq-add
      ∙ ap (λ t. t % 2 ^ 32) spread
      ∙ mul-add-mod_self_right idx (2 ^ 32) (gen * 2 ^ (32 - gen_bits))
      ∙ mod-eq_of_lt (shift_lt 32 gen_bits (32 - gen_bits) gen (omega arith) gen_lt)
    where
      spread :
          (idx * 2 ^ below + gen * 2 ^ rest) * 2 ^ idx_bits
          ≡ idx * 2 ^ 32 + gen * 2 ^ (32 - gen_bits)
      spread =
          add-mul (idx * 2 ^ below) (gen * 2 ^ rest) (2 ^ idx_bits)
          ∙ ap₂ ◌+◌
              (mul_assoc idx (2 ^ below) (2 ^ idx_bits)
                ∙ ap (λ t. idx * t) (pow_split 32 below idx_bits (omega arith)))
              (mul_assoc gen (2 ^ rest) (2 ^ idx_bits)
                ∙ ap (λ t. gen * t) (pow_split (32 - gen_bits) rest idx_bits (omega arith)))

  pub apid_gen-apid_from : apid_gen idx_bits gen_bits (apid_from idx_bits gen_bits idx gen) ≡ gen
  unfolding apid_gen
  apid_gen-apid_from =
      ap (λ t. t / 2 ^ (32 - gen_bits)) shl32-apid_from
      ∙ mul-div_cancel gen (pow_pos (32 - gen_bits))

-- Where the widths of index and generation are at most 32 bits together, and both numbers fit, a
-- pid gives back the index and the generation that it was made from.
pub apid_from_roundtrip :
    (idx_bits gen_bits idx gen : ℕ)
    → idx_bits + gen_bits ≤ 32
    → idx < 2 ^ idx_bits
    → gen < 2 ^ gen_bits
    → (apid_idx idx_bits (apid_from idx_bits gen_bits idx gen) ≡ idx)
      × (apid_gen idx_bits gen_bits (apid_from idx_bits gen_bits idx gen) ≡ gen)
apid_from_roundtrip idx_bits gen_bits idx gen fits i g = (
  apid_idx-apid_from idx_bits gen_bits idx gen fits i g,
  apid_gen-apid_from idx_bits gen_bits idx gen fits i g,
)
