-- ===== src/Dispatcher/Safety.antt =====
-- The interpreter is safe: each instruction where its operands are as it assumes, and so every
-- program that leaves out the instructions that assume something.
use any_vm.Base.{
  ℕ, ℤ, pos, negsuc, eq_ℤ, ◌-◌, ◌≤◌, ◌≡◌, ◌≢◌, refl, inl, inr, Bool, false, Bool-cases, not, Option,
  none, some, [], ◌∷◌,
}
use any_vm.Bytecode.{Instr}
use any_vm.Value.{Value}
use any_vm.Word.{div_overflows}
use any_vm.Machine.{Actor, Out, Proto, Env, fuzzy_equals}
use any_vm.Safe.{returns, mono, IsActor, Runs-refl}
use any_vm.Operand.Checks.{error-Safe}
use any_vm.Calls.Laws.{Keeps, BodySafe, NativeSafe, call-Returned}
use any_vm.Operand.Laws.{Unmoved}
use any_vm.Mailbox.Delivery.{
  Sendable, WaitSafe, mbox_send-Keeps, mbox_remove-Keeps, mbox_rewind-Keeps,
}
use any_vm.Dispatcher.{
  elem_at, bool_value, integers, values_equal, int_div, real_div, compared, equal_op, exec,
  push_import, push_closure,
}
use any_vm.Dispatcher.Effects.{
  next_after, Looks, TopTwo, error-Keeps, push-Keeps, push_const-Keeps, pop-Keeps, with_index,
  push_index-Keeps, insert-Keeps, jump_by-Keeps, binary-Keeps, numeric-Keeps, compare_op-Keeps,
  receive-Keeps, jump_if_not-Keeps, negate-Keeps,
}

-- What an instruction assumes: the counts of values that POP, IVK and SND take, a message that
-- can be read, a quotient that fits, and strings that exist.
abbrev pub Ready : Env → Actor → Instr → Type 0
Ready env a (Instr.pop (pos n)) = n ≤ a.stack.sp
Ready env a (Instr.pop (negsuc _)) = ⊥
Ready env a (Instr.ivk (negsuc _)) = ⊥
Ready env a Instr.snd = (2 ≤ a.stack.sp) × Sendable env a
Ready env a Instr.div =
    TopTwo (λ l r. (m n : ℤ) → integers l r ≡ some (m, n) → div_overflows m n ≡ false) a
Ready env a Instr.eq = TopTwo (λ l r. values_equal env.reals a.heap l r ≢ none) a
Ready env a (Instr.llv _) = Unmoved env a
Ready env a _ = Unit

module _ (env : Env) (a : Actor) (v : IsActor a) where
  int_div-Looks : (m n : ℤ) → div_overflows m n ≡ false → Looks a (int_div env m n a)
  unfolding int_div
  int_div-Looks m n fits = elim (Bool-cases (eq_ℤ n (pos 0))) [
    | inl by_zero ↦ rw by_zero (error-Safe env a "divide by zero" [] v.stack v.boxes)
    | inr nonzero ↦ rw (nonzero, fits) (returns refl)
  ]

  real_div-Looks : (x y : ℕ) → Looks a (real_div env x y a)
  unfolding real_div
  real_div-Looks x y = elim (Bool-cases (fuzzy_equals env.reals y 0)) [
    | inl by_zero ↦ rw by_zero (error-Safe env a "divide by zero" [] v.stack v.boxes)
    | inr nonzero ↦ rw nonzero (returns refl)
  ]

  compared-Looks : (r : Option Bool) → r ≢ none → Looks a (compared env r a)
  compared-Looks none sound = absurd (sound refl)
  compared-Looks (some b) sound = returns refl

  equal_op-Looks :
      (lv rv : Value) (l r : ℕ)
      → values_equal env.reals a.heap lv rv ≢ none
      → Looks a (equal_op env lv rv l r a)
  unfolding equal_op
  equal_op-Looks lv rv l r sound = compared-Looks (values_equal env.reals a.heap lv rv) sound

  push_import-Keeps : (x : Option Value) (n : ℤ) → Keeps a (push_import env x n a)
  unfolding push_import
  push_import-Keeps none n = error-Keeps env a v "bad import index %d" (n ∷ [])
  push_import-Keeps (some x) n = next_after (push-Keeps env a v x)

  push_closure-Keeps : (p : Option ℕ) (n : ℤ) → Keeps a (push_closure env p n a)
  unfolding push_closure
  push_closure-Keeps none n = error-Keeps env a v "bad nested index %d" (n ∷ [])
  push_closure-Keeps (some p) n = next_after (push-Keeps env a v (Value.byte_code_func p))

-- Each instruction, run in a valid actor with safe native functions, suspensions and function
-- bodies, and given the operands that it assumes (POP no more values than the stack holds, IVK no
-- negative count, LLV a free slot on the stack or an allocator that extends the array where it
-- stands, SND two values and a message that exists and, if an actor sends a string to itself, is
-- not lost with a heap that must grow, DIV a quotient that fits, EQ strings that exist), never
-- faults: it keeps the invariant, the frame, its callers and the values below the frame, or
-- throws with the error value on a valid stack.
pub exec-Keeps :
    (env : Env) (pt : Proto) {run : ℕ → Actor → Out (Unit {0})} {a : Actor} (i : Instr)
    → NativeSafe env
    → WaitSafe env
    → BodySafe run
    → IsActor a
    → Ready env a i
    → Keeps a (exec env pt run i a)
unfolding exec
exec-Keeps env pt Instr.nop natives waits bodies v h = returns (Runs-refl v)
exec-Keeps env pt Instr.brk natives waits bodies v h = returns (Runs-refl v)
exec-Keeps env pt {a} (Instr.pop (pos n)) natives waits bodies v h =
    next_after (pop-Keeps env a v n h)
exec-Keeps env pt {a} (Instr.pop (negsuc n)) natives waits bodies v h = absurd h
exec-Keeps env pt {a} (Instr.ldk n) natives waits bodies v h =
    push_const-Keeps env a v (elem_at pt.constants n) n
exec-Keeps env pt {a} Instr.nil natives waits bodies v h = next_after (push-Keeps env a v Value.nil)
exec-Keeps env pt {a} (Instr.ldb n) natives waits bodies v h =
    next_after (push-Keeps env a v (bool_value (not (eq_ℤ n (pos 0)))))
exec-Keeps env pt {a} (Instr.lsi n) natives waits bodies v h =
    next_after (push-Keeps env a v (Value.integer n))
exec-Keeps env pt {a} (Instr.llv n) natives waits bodies v h =
    with_index env a v n _ (λ i within. next_after (push_index-Keeps env a v i within h))
exec-Keeps env pt {a} (Instr.slv n) natives waits bodies v h =
    with_index env a v n _ (λ i within. next_after (insert-Keeps env a v i within))
exec-Keeps env pt {a} (Instr.imp n) natives waits bodies v h =
    push_import-Keeps env a v (elem_at pt.import_values n) n
exec-Keeps env pt {a} (Instr.cls n) natives waits bodies v h =
    push_closure-Keeps env a v (elem_at pt.nesteds n) n
exec-Keeps env pt {a} (Instr.jmp d) natives waits bodies v h = jump_by-Keeps env a v pt d
exec-Keeps env pt {a} (Instr.jin d) natives waits bodies v h = jump_if_not-Keeps env a v pt d
exec-Keeps env pt {a} (Instr.ivk (pos n)) natives waits bodies v h =
    next_after (mono (call-Returned env n natives bodies v) (λ _ b q. q.runs) (λ b q. q))
exec-Keeps env pt {a} (Instr.ivk (negsuc n)) natives waits bodies v h = absurd h
exec-Keeps env pt {a} Instr.ret natives waits bodies v h = returns (Runs-refl v)
exec-Keeps env pt {a} Instr.snd natives waits bodies v (two, sound) =
    next_after (mbox_send-Keeps env v two sound)
exec-Keeps env pt {a} (Instr.rcv d) natives waits bodies v h = receive-Keeps env a v waits pt d
exec-Keeps env pt {a} Instr.rmv natives waits bodies v h = next_after (mbox_remove-Keeps env v)
exec-Keeps env pt {a} Instr.rwd natives waits bodies v h = next_after (mbox_rewind-Keeps env v)
exec-Keeps env pt {a} Instr.add natives waits bodies v h =
    numeric-Keeps env a v _ _ (λ l r el er m n e. returns refl) (λ x y. returns refl)
exec-Keeps env pt {a} Instr.sub natives waits bodies v h =
    numeric-Keeps env a v _ _ (λ l r el er m n e. returns refl) (λ x y. returns refl)
exec-Keeps env pt {a} Instr.mul natives waits bodies v h =
    numeric-Keeps env a v _ _ (λ l r el er m n e. returns refl) (λ x y. returns refl)
exec-Keeps env pt {a} Instr.div natives waits bodies v fits =
    numeric-Keeps env a v _ _ (λ l r el er m n e. int_div-Looks env a v m n (fits l r el er m n e))
      (real_div-Looks env a v)
exec-Keeps env pt {a} Instr.not natives waits bodies v h = negate-Keeps env a v pt
exec-Keeps env pt {a} Instr.eq natives waits bodies v sound =
    binary-Keeps env a v _ (λ lv rv el er hl hr.
      equal_op-Looks env a v lv rv (a.stack.sp - 1) (a.stack.sp - 2) (sound lv rv el er))
exec-Keeps env pt {a} Instr.lt natives waits bodies v h = compare_op-Keeps env a v _ _
exec-Keeps env pt {a} Instr.le natives waits bodies v h = compare_op-Keeps env a v _ _
exec-Keeps env pt {a} Instr.gt natives waits bodies v h = compare_op-Keeps env a v _ _
exec-Keeps env pt {a} Instr.ge natives waits bodies v h = compare_op-Keeps env a v _ _
exec-Keeps env pt {a} (Instr.bad op) natives waits bodies v h =
    error-Keeps env a v "bad instruction %u" (pos op ∷ [])
