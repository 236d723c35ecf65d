-- ===== src/StdBuffer/Lost.antt =====
-- `set_sint_be` of src/private/std_buffer_bits.c never stores the lowest bit of an integer: it sets
-- bit 8 of a byte.
use native.Mathlib.Nat.{pow-succ', div-div-eq-div-mul}
use any_vm.Base.{
  ℕ, pos, zero, suc, ◌-ℤ◌, ◌+◌, ◌-◌, ◌*◌, ◌/◌, ◌%◌, ◌^◌, ◌≤◌, ◌<◌, ◌≡◌, refl, sym, ◌∙◌, ap, inl,
  inr, subst, Bool, ltb→lt, get_elem?, Option-cases, passes_under, passes_under_sound, true, false,
  if◌then◌else◌, ltb, ◌==◌, ==_iff, Option, none, some, List, arith,
}
use any_vm.Operand.Checks.{bp_plus}
use any_vm.StdBuffer.{
  cleared, raised, put_bit, put_byte, get_byte, bit_of, move_bit, be_round, rounds,
}
use any_vm.StdBuffer.Stored.{rounds_step}
use any_vm.StdBuffer.Bits.{Bytes}

-- Nothing is set at bit 8 of a byte, and clearing leaves a byte.
lost : ℕ → Bool
lost n = raised n 8 == n

lost_all : passes_under lost 256 ≡ true
unfolding passes_under lost
lost_all = refl

kept_byte : ℕ → Bool
kept_byte n = ltb (cleared (n % 256) (n / 256)) 256

kept_byte_all : passes_under kept_byte 4096 ≡ true
unfolding passes_under kept_byte
kept_byte_all = refl

raised_8 : (b : ℕ) → b < 256 → raised b 8 ≡ b
unfolding lost
raised_8 b h = (==_iff (raised b 8) b).0 (passes_under_sound lost 256 b lost_all h)

cleared_small : (b s : ℕ) → b < 256 → s < 16 → cleared b s < 256
unfolding kept_byte
cleared_small b s h h' =
    let n : ℕ = s * 256 + b in
    let e : n % 256 ≡ b = omega arith in
    let e' : n / 256 ≡ s = omega arith in
    subst (λ x. cleared x s < 256) e
      (subst (λ y. cleared (n % 256) y < 256) e'
        (ltb→lt _ 256 (passes_under_sound kept_byte 4096 n kept_byte_all (omega arith))))

get_byte_small : (bs : List ℕ) (i : ℕ) → Bytes bs → get_byte bs i < 256
get_byte_small bs i bytes = elim (Option-cases (get_elem? bs i)) [
  | inl e ↦ rw (e, get_byte) (omega arith)
  | inr (b, e) ↦ rw (e, get_byte) (bytes i b e)
]

move_bit_lost :
    (on on' : Bool) (i s : ℕ) (bs : List ℕ)
    → Bytes bs
    → s < 16
    → move_bit (some on) i s 8 bs ≡ move_bit (some on') i s 8 bs
unfolding move_bit
move_bit_lost on on' i s bs bytes small = same on ∙ sym (same on')
  where
    same :
        (on : Bool)
        → put_byte bs i (put_bit (some on) (cleared (get_byte bs i) s) 8)
          ≡ put_byte bs i (some (cleared (get_byte bs i) s))
    same true =
        ap (λ b. put_byte bs i (some b))
          (raised_8 _ (cleared_small (get_byte bs i) s (get_byte_small bs i bytes) small))
    same false = refl

rounds_ext :
    (f g : ℕ → List ℕ → Option (List ℕ)) (n cnt : ℕ) (bs : List ℕ)
    → ((c : ℕ) (bs : List ℕ) → cnt ≤ c → f c bs ≡ g c bs)
    → rounds f cnt n bs ≡ rounds g cnt n bs
unfolding rounds
rounds_ext f g zero cnt bs same = refl
rounds_ext f g (suc n) cnt bs same = elim (Option-cases (g cnt bs)) [
  | inl e ↦ rw (same cnt bs (omega arith) ∙ e, rounds) (rw (e, rounds) refl)
  | inr (bs', e) ↦
      rounds_step f cnt n bs (same cnt bs (omega arith) ∙ e)
      ∙ rounds_ext f g n (suc cnt) bs' (λ c cs h. same c cs (omega arith))
      ∙ sym (rounds_step g cnt n bs e)
]

-- The numbers 2 m and 2 m + 1 have the same bits from the second one on.
same_bits : (m c : ℕ) → m < 2 ^ 62 → 1 ≤ c → bit_of (pos (2 * m + 1)) c ≡ bit_of (pos (2 * m)) c
same_bits m zero h h' = absurd (omega arith)
same_bits m (suc c) h h' =
    ap (λ x. if ltb (suc c) 64 then some (x % 2 == 1) else none)
      (halved (2 * m + 1) ∙ ap (λ x. x / 2 ^ c) same ∙ sym (halved (2 * m)))
  where
    halved : (x : ℕ) → x % 2 ^ 64 / 2 ^ suc c ≡ x % 2 ^ 64 / 2 / 2 ^ c
    halved x =
        ap (λ k. x % 2 ^ 64 / k) (pow-succ' 2 c) ∙ sym (div-div-eq-div-mul (x % 2 ^ 64) 2 (2 ^ c))

    same : (2 * m + 1) % 2 ^ 64 / 2 ≡ 2 * m % 2 ^ 64 / 2
    same = omega arith

minus : (m n : ℕ) → n ≤ m → pos m -ℤ pos n ≡ pos (m - n)
unfolding ◌-ℤ◌
minus m n h = ground arith

module _ (m i : ℕ) (small : m < 2 ^ 62) where
  abbrev odd_round : ℕ → List ℕ → Option (List ℕ)
  odd_round = be_round (pos (2 * m + 1)) (pos i)

  abbrev even_round : ℕ → List ℕ → Option (List ℕ)
  even_round = be_round (pos (2 * m)) (pos i)

  first_round : (bs : List ℕ) → Bytes bs → odd_round 0 bs ≡ even_round 0 bs
  unfolding be_round
  first_round bs bytes =
      rw (bp_plus i 0, bp_plus (i % 8) 0, minus 8 (i % 8 + 0) (omega arith))
        (move_bit_lost _ _ ((i + 0) / 8) (8 - (i % 8 + 0)) bs bytes (omega arith))

  later_round : (c : ℕ) (bs : List ℕ) → 1 ≤ c → odd_round c bs ≡ even_round c bs
  unfolding be_round
  later_round c bs h = rw (same_bits m c small h) refl

  -- For a natural number m below 2^62, on a sequence of bytes and from any bit position that is
  -- not negative, the loop of set_sint_be over any number of bits writes the same bytes for 2 m
  -- and for 2 m + 1: the lowest bit of such an integer is never stored.
  pub be_loses_lowest :
      (n : ℕ) (bs : List ℕ) → Bytes bs → rounds odd_round 0 n bs ≡ rounds even_round 0 n bs
  unfolding rounds
  be_loses_lowest zero bs bytes = refl
  be_loses_lowest (suc n) bs bytes = elim (Option-cases (even_round 0 bs)) [
    | inl e ↦ rw (first_round bs bytes ∙ e, rounds) (rw (e, rounds) refl)
    | inr (bs', e) ↦
        rounds_step odd_round 0 n bs (first_round bs bytes ∙ e)
        ∙ rounds_ext odd_round even_round n 1 bs' later_round
        ∙ sym (rounds_step even_round 0 n bs e)
  ]
