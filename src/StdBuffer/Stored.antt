-- ===== src/StdBuffer/Stored.antt =====
-- At a whole byte `set_sint_le` of src/private/std_buffer_bits.c stores an integer bit by bit.
use any_vm.Base.{
  ℕ, ℤ, pos, zero, suc, ◌+◌, ◌-◌, ◌*◌, ◌/◌, ◌%◌, ◌^◌, ◌≤◌, ◌<◌, ◌≡◌, refl, ◌∙◌, ap, inl, inr,
  Bool-cases, ◌&&◌, if◌then◌else◌, leb, ltb, lt→ltb, ◌==◌, ==_iff, Option, some, List, arith,
  length,
}
use any_vm.Operand.Checks.{bp_plus}
use any_vm.Word.{bits64}
use any_vm.StdBuffer.{move_bit, le_round, rounds}
use any_vm.StdBuffer.Bits.{Bytes, bit_at, number, move_bit-Wrote}

-- Bit `k` of an integer in two's complement.
abbrev pub digit : ℤ → ℕ → ℕ
digit val k = bits64 val / 2 ^ k % 2

-- `n` bits of the integer, from the bit `cnt` on, stand in the buffer after the byte `q`; the other
-- bits are those of before.
pub record StoredBits (val : ℤ) (q cnt n : ℕ) (bs bs' : List ℕ) : Type 0 where
  pub bytes : Bytes bs'
  pub size : length bs' ≡ length bs
  pub bits :
      (r : ℕ)
      → bit_at bs' r ≡ (
          if leb (8 * q + cnt) r && ltb r (8 * q + cnt + n)
          then digit val (r - 8 * q)
          else bit_at bs r)

number_digit : (d : ℕ) → d < 2 → number (d == 1) ≡ d
number_digit zero h = refl
number_digit (suc zero) h = refl
number_digit (suc (suc d)) h = absurd (omega arith)

pub rounds_step :
    (round : ℕ → List ℕ → Option (List ℕ)) (cnt n : ℕ) (bs : List ℕ) {bs' : List ℕ}
    → round cnt bs ≡ some bs'
    → rounds round cnt (suc n) bs ≡ rounds round (suc cnt) n bs'
unfolding rounds
rounds_step round cnt n bs e = rw (e, rounds) refl

-- One bit at `p` and `n` bits behind it.
glue :
    (p n r z : ℕ) {p' p'' x y d m : ℕ}
    → p' ≡ p + 1
    → p'' ≡ p
    → x ≡ (if leb p' r && ltb r (p' + n) then d else y)
    → y ≡ (if r == p'' then m else z)
    → (r ≡ p → m ≡ d)
    → x ≡ (if leb p r && ltb r (p + suc n) then d else z)
glue p n r z e e' first second same = elim (Bool-cases (r == p)) [
  | inl here ↦ ground (arith, same ((==_iff r p).0 here))
  | inr there ↦ ground arith
]

module _ (val : ℤ) (q : ℕ) where
  le_round-eq :
      (cnt : ℕ) (bs : List ℕ)
      → cnt < 64
      → le_round val (pos (8 * q)) cnt bs
        ≡ move_bit (some (digit val cnt == 1)) (q + cnt / 8) (cnt % 8) (cnt % 8) bs
  unfolding le_round
  le_round-eq cnt bs small =
      rw (bp_plus (8 * q) cnt, bp_plus (8 * q % 8) (cnt % 8), lt→ltb cnt 64 small)
        (ap (λ i. move_bit (some (digit val cnt == 1)) i (8 * q % 8 + cnt % 8) (cnt % 8) bs) byte
          ∙ ap (λ s. move_bit (some (digit val cnt == 1)) (q + cnt / 8) s (cnt % 8) bs) aligned)
    where
      byte : (8 * q + cnt) / 8 ≡ q + cnt / 8
      byte = omega arith

      aligned : 8 * q % 8 + cnt % 8 ≡ cnt % 8
      aligned = omega arith

  pub le-StoredBits :
      (n cnt : ℕ) (bs : List ℕ)
      → Bytes bs
      → cnt + n ≤ 64
      → 8 * q + cnt + n ≤ 8 * length bs
      → (bs' : List ℕ) × (rounds (le_round val (pos (8 * q))) cnt n bs ≡ some bs')
        × StoredBits val q cnt n bs bs'
  unfolding rounds
  le-StoredBits zero cnt bs bytes width room =
      (bs, refl, record { bytes = bytes; size = refl; bits = λ r. none_stored (8 * q + cnt) r })
    where
      none_stored :
          (p r : ℕ)
          → bit_at bs r ≡ (if leb p r && ltb r (p + 0) then digit val (r - 8 * q) else bit_at bs r)
      none_stored p r = ground arith
  le-StoredBits (suc n) cnt bs bytes width room =
      let (bs1, e, w) =
        move_bit-Wrote (digit val cnt == 1) (q + cnt / 8) (cnt % 8) bs bytes (omega arith)
          (omega arith) in
      let (bs2, e', s) =
        le-StoredBits n (suc cnt) bs1 w.bytes (omega arith) (omega (arith, w.size)) in
      (
        bs2,
        rounds_step _ cnt n bs (le_round-eq cnt bs (omega arith) ∙ e) ∙ e',
        record {
          bytes = s.bytes;
          size = s.size ∙ w.size;
          bits = λ r.
              glue (8 * q + cnt) n r (bit_at bs r) (omega arith) (omega arith) (s.bits r) (w.bits r)
                (last r);
        },
      )
    where
      last : (r : ℕ) → r ≡ 8 * q + cnt → number (digit val cnt == 1) ≡ digit val (r - 8 * q)
      last r here = number_digit (digit val cnt) (omega arith) ∙ ap (digit val) (omega arith)
