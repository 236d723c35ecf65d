-- ===== src/Dispatcher/Arithmetic.antt =====
-- What the arithmetic instructions compute.
use any_vm.Base.{
  ℕ, ℤ, pos, ◌+ℤ◌, ◌-ℤ◌, ◌*ℤ◌, ltb_ℤ, leb_ℤ, eq_ℤ, ◌+◌, ◌-◌, ◌≤◌, ◌≡◌, ◌≢◌, refl, sym, ◌∙◌, ap,
  false, Bool-cases, inl, inr, Option, none, some, some_inj, [], arith, get_elem?,
}
use any_vm.Errno.{AError}
use any_vm.Bytecode.{Instr}
use any_vm.Value.{Value}
use any_vm.Word.{wrap64, div_ℤ, div_overflows}
use any_vm.Word.Quotient.{IsQuotient, div_ℤ-IsQuotient}
use any_vm.Machine.{Actor, Out, M, Proto, Env}
use any_vm.Safe.{IsActor}
use any_vm.Operand.{error, at}
use any_vm.Operand.Laws.{error-and_then}
use any_vm.Operand.Checks.{InFrame, at-InFrame}
use any_vm.Operand.Effects.{at_sp, with_value, store-InFrame}
use any_vm.Dispatcher.{
  Flow, bool_value, binary, numeric, by_kind, int_div, compare_op, equal_op, values_equal, exec,
}
use any_vm.Dispatcher.Operands.{two_operands-ok}

-- The state after an instruction on two operands with the result `x`.
abbrev pub reduced : Actor → Value → Actor
reduced a x = at_sp (with_value a (a.stack.sp - 2) x) (a.stack.sp - 1)

-- The frame of `a` holds two integers, the left operand on top.
pub record TwoIntegers (a : Actor) (m n : ℤ) : Type 0 where
  pub room : a.frame.bp + 2 ≤ a.stack.sp
  pub left : get_elem? a.stack.v (a.stack.sp - 1) ≡ some (Value.integer m)
  pub right : get_elem? a.stack.v (a.stack.sp - 2) ≡ some (Value.integer n)

-- The value that an instruction makes of two integers; `none` where it does not apply.
abbrev pub int_result : Instr → ℤ → ℤ → Option Value
int_result Instr.add m n = some (Value.integer (wrap64 (m +ℤ n)))
int_result Instr.sub m n = some (Value.integer (wrap64 (m -ℤ n)))
int_result Instr.mul m n = some (Value.integer (wrap64 (m *ℤ n)))
int_result Instr.lt m n = some (bool_value (ltb_ℤ m n))
int_result Instr.le m n = some (bool_value (leb_ℤ m n))
int_result Instr.gt m n = some (bool_value (ltb_ℤ n m))
int_result Instr.ge m n = some (bool_value (leb_ℤ n m))
int_result Instr.eq m n = some (bool_value (eq_ℤ m n))
int_result _ m n = none

module _ (env : Env) {a : Actor} {m n : ℤ} (v : IsActor a) (two : TwoIntegers a m n) where
  second : InFrame a (a.stack.sp - 2)
  second = record { from = ground (arith, two.room); to = ground (arith, two.room) }

  left_at : at (a.stack.sp - 1) a ≡ Out.ok (Value.integer m) a
  left_at =
      let (x, e, g) =
        at-InFrame env a (a.stack.sp - 1) v
          (record { from = ground (arith, two.room); to = ground (arith, two.room) }) in
      e ∙ ap (λ y. Out.ok y a) (some_inj (sym g ∙ two.left))

  right_at : at (a.stack.sp - 2) a ≡ Out.ok (Value.integer n) a
  right_at =
      let (x, e, g) = at-InFrame env a (a.stack.sp - 2) v second in
      e ∙ ap (λ y. Out.ok y a) (some_inj (sym g ∙ two.right))

  -- An operation whose result is `x`.
  binary-result :
      (op : (lv rv : Value) (l r : ℕ) → M Value) (x : Value)
      → op (Value.integer m) (Value.integer n) (a.stack.sp - 1) (a.stack.sp - 2) a ≡ Out.ok x a
      → binary env op a ≡ Out.ok Flow.next (reduced a x)
  unfolding binary
  binary-result op x e =
      rw (two_operands-ok env a v two.room)
        (rw left_at (rw right_at (rw e (rw (store-InFrame v (a.stack.sp - 2) x second)))))

  -- With the integer m on top of n in the frame of a valid actor, each of ADD, SUB, MUL, LT, LE,
  -- GT, GE and EQ goes on to the next instruction with the operands replaced by one value: the
  -- sum, difference m - n or product wrapped to 64 bits, or the truth of the comparison of m with
  -- n.
  pub arithmetic-result :
      (pt : Proto) (run : ℕ → M (Unit {0})) (i : Instr) (x : Value)
      → int_result i m n ≡ some x
      → exec env pt run i a ≡ Out.ok Flow.next (reduced a x)
  unfolding exec numeric by_kind compare_op equal_op values_equal
  arithmetic-result pt run Instr.add x e = binary-result _ x (ap (λ y. Out.ok y a) (some_inj e))
  arithmetic-result pt run Instr.sub x e = binary-result _ x (ap (λ y. Out.ok y a) (some_inj e))
  arithmetic-result pt run Instr.mul x e = binary-result _ x (ap (λ y. Out.ok y a) (some_inj e))
  arithmetic-result pt run Instr.lt x e = binary-result _ x (ap (λ y. Out.ok y a) (some_inj e))
  arithmetic-result pt run Instr.le x e = binary-result _ x (ap (λ y. Out.ok y a) (some_inj e))
  arithmetic-result pt run Instr.gt x e = binary-result _ x (ap (λ y. Out.ok y a) (some_inj e))
  arithmetic-result pt run Instr.ge x e = binary-result _ x (ap (λ y. Out.ok y a) (some_inj e))
  arithmetic-result pt run Instr.eq x e = binary-result _ x (ap (λ y. Out.ok y a) (some_inj e))
  arithmetic-result pt run Instr.nop x e = absurd (cc e)
  arithmetic-result pt run _ x e = absurd (cc e)

  division-result :
      (pt : Proto) (run : ℕ → M (Unit {0}))
      → n ≢ pos 0
      → div_overflows m n ≡ false
      → exec env pt run Instr.div a ≡ Out.ok Flow.next (reduced a (Value.integer (div_ℤ m n)))
  unfolding exec numeric by_kind int_div
  division-result pt run nonzero fits = binary-result _ _ (elim (Bool-cases (eq_ℤ n (pos 0))) [
    | inl is_zero ↦ absurd (nonzero (ground arith))
    | inr not_zero ↦ rw (not_zero, fits) refl
  ])

  -- With the integer m on top of n in the frame of a valid actor, where n is not 0 and the
  -- quotient does not overflow, DIV goes on to the next instruction with the operands replaced by
  -- one integer q, the quotient cut towards zero: the magnitude of q times that of n is at most
  -- that of m and the next multiple is larger, and q is positive only if the signs agree and
  -- negative only if they differ.
  pub division-IsQuotient :
      (pt : Proto) (run : ℕ → M (Unit {0}))
      → n ≢ pos 0
      → div_overflows m n ≡ false
      → (q : ℤ) × (exec env pt run Instr.div a ≡ Out.ok Flow.next (reduced a (Value.integer q)))
        × IsQuotient m n q
  division-IsQuotient pt run nonzero fits =
      (div_ℤ m n, division-result pt run nonzero fits, div_ℤ-IsQuotient m n nonzero)

  -- A right operand of 0 stops a division.
  int_div-zero : n ≡ pos 0 → int_div env m n a ≡ error env AError.runtime "divide by zero" [] a
  unfolding int_div
  int_div-zero e = rw e refl

  -- With an integer on top of the integer 0 in the frame of a valid actor, DIV raises the
  -- run-time error of a division by zero in the unchanged state, and does nothing else.
  pub division_by_zero :
      (pt : Proto) (run : ℕ → M (Unit {0}))
      → n ≡ pos 0
      → exec env pt run Instr.div a ≡ error env AError.runtime "divide by zero" [] a
  unfolding exec numeric by_kind binary
  division_by_zero pt run e = rw (two_operands-ok env a v two.room) (
      rw left_at (
        rw right_at
          (rw (int_div-zero e) (error-and_then env _ AError.runtime "divide by zero" [] a))))
