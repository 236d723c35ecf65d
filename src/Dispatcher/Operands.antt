-- ===== src/Dispatcher/Operands.antt =====
-- The addresses that an instruction looks up for its operands.
use any_vm.Base.{
  ℕ, ℤ, pos, ◌-ℤ◌, -ℤ_parts, ltb_ℤ, leb_ℤ, neg_part, ◌+◌, ◌-◌, ◌≤◌, ◌<◌, ◌≡◌, ap, ◌∙◌, true, false,
  [], arith,
}
use any_vm.Errno.{AError}
use any_vm.Machine.{Actor, Out, Env}
use any_vm.Safe.{IsActor}
use any_vm.Operand.{error, check_index, count}
use any_vm.Operand.Checks.{valid_address-InFrame, bp_plus}
use any_vm.Dispatcher.{one_operand, two_operands}

above_args : (n : ℕ) (z : ℤ) → neg_part z ≡ 0 → ltb_ℤ (pos n) (pos 0 -ℤ z) ≡ false
above_args n z h = ground (arith, -ℤ_parts (pos 0) z)

below_top : (n sp bp : ℕ) → bp ≤ sp → n < sp - bp → leb_ℤ (pos sp -ℤ pos bp) (pos n) ≡ false
below_top n sp bp le h = ground (arith, -ℤ_parts (pos sp) (pos bp))

top_index : (sp bp k : ℕ) → bp + k ≤ sp → pos sp -ℤ pos bp -ℤ pos k ≡ pos (sp - bp - k)
unfolding ◌-ℤ◌
top_index sp bp k h = ground arith

few : (sp bp k : ℕ) → bp ≤ sp → sp - bp < k → ltb_ℤ (pos sp -ℤ pos bp) (pos k) ≡ true
few sp bp k le h = ground (arith, -ℤ_parts (pos sp) (pos bp))

enough : (sp bp k : ℕ) → bp + k ≤ sp → ltb_ℤ (pos sp -ℤ pos bp) (pos k) ≡ false
enough sp bp k h = ground (arith, -ℤ_parts (pos sp) (pos bp))

module _ (env : Env) (a : Actor) (v : IsActor a) where
  check_index-pos :
      (n : ℕ) → n < a.stack.sp - a.frame.bp → check_index env (pos n) a ≡ Out.ok (a.frame.bp + n) a
  unfolding check_index
  check_index-pos n h = rw (
    above_args n a.frame.nargs v.nonneg,
    below_top n a.stack.sp a.frame.bp v.base h,
    bp_plus a.frame.bp n,
    valid_address-InFrame a (a.frame.bp + n) v (omega arith),
  )

  pub check_index-top :
      (k : ℕ)
      → 0 < k
      → a.frame.bp + k ≤ a.stack.sp
      → check_index env (count a -ℤ pos k) a ≡ Out.ok (a.stack.sp - k) a
  check_index-top k positive h = rw (top_index a.stack.sp a.frame.bp k h) (
      check_index-pos (a.stack.sp - a.frame.bp - k) (omega arith)
      ∙ ap (λ i. Out.ok i a) (omega arith))

  -- The address of the top value, if the frame has one.
  pub one_operand-ok : a.frame.bp + 1 ≤ a.stack.sp → one_operand env a ≡ Out.ok (a.stack.sp - 1) a
  unfolding one_operand
  one_operand-ok h = rw (enough a.stack.sp a.frame.bp 1 h) (check_index-top 1 (omega arith) h)

  pub one_operand-underflow :
      a.stack.sp < a.frame.bp + 1
      → one_operand env a ≡ error env AError.runtime "pop underflow" [] a
  unfolding one_operand
  one_operand-underflow h = rw (few a.stack.sp a.frame.bp 1 v.base (omega arith))

  -- The addresses of the top two values, the left operand first, if the frame has two.
  pub two_operands-ok :
      a.frame.bp + 2 ≤ a.stack.sp → two_operands env a ≡ Out.ok (a.stack.sp - 1, a.stack.sp - 2) a
  unfolding two_operands
  two_operands-ok h = rw (
    enough a.stack.sp a.frame.bp 2 h,
    check_index-top 1 (omega arith) (omega arith),
    check_index-top 2 (omega arith) h,
  )

  pub two_operands-underflow :
      a.stack.sp < a.frame.bp + 2
      → two_operands env a ≡ error env AError.runtime "pop underflow" [] a
  unfolding two_operands
  two_operands-underflow h = rw (few a.stack.sp a.frame.bp 2 v.base (omega arith))
