-- ===== src/Dispatcher.antt =====
-- The bytecode interpreter, `actor_dispatch` of src/private/dispatcher.c, and `any_equals` of
-- src/private/std.c. The debug hook `on_step` is taken to let every step pass, as that of
-- src/private/db.c does.
pub mod Operands
pub mod Effects
pub mod Safety
pub mod Programs
pub mod Arithmetic
mod Tests
use any_vm.Base.{
  ℕ, ℤ, pos, negsuc, zero, suc, ◌+ℤ◌, ◌-ℤ◌, ◌*ℤ◌, ltb_ℤ, leb_ℤ, eq_ℤ, ◌+◌, ◌-◌, leb, ◌==◌, Bool,
  true, false, not, ◌&&◌, ◌||◌, if◌then◌else◌, Option, none, some, List, [], ◌∷◌, length, get_elem?,
}
use any_vm.Errno.{AError}
use any_vm.Bytecode.{Instr}
use any_vm.Value.{AType, Value, Obj, type_of, same_type}
use any_vm.Word.{wrap64, div_ℤ, div_overflows}
use any_vm.Text.{string_equal}
use any_vm.Machine.{Actor, Out, M, pure, fail, ◌>>=◌, ◌>>◌, Const, Proto, Reals, fuzzy_equals, Env}
use any_vm.Operand.{
  error, push, push_string, pop, check_index, at, store, set_sp, insert, push_index, check_integer,
  check_real, to_bool, truth, count,
}
use any_vm.Calls.{call}
use any_vm.Mailbox.{mbox_send, mbox_recv, mbox_remove, mbox_rewind}

-- How an instruction ends: with the next one, with a jump, or with a return.
pub data Flow : Type 0 where
  next : Flow
  jump : ℕ → Flow
  return : Flow

-- `xs[i]` with the bounds check of the dispatcher.
abbrev pub elem_at {ℓ} : {A : Type ℓ} → List A → ℤ → Option A
elem_at xs (pos i) = get_elem? xs i
elem_at xs (negsuc _) = none

abbrev pub bool_value : Bool → Value
bool_value true = Value.boolean (pos 1)
bool_value false = Value.boolean (pos 0)

-- Two integers, if both values are.
abbrev pub integers : Value → Value → Option (ℤ × ℤ)
integers (Value.integer m) (Value.integer n) = some (m, n)
integers _ _ = none

abbrev real_of : Reals → Value → ℕ
real_of r (Value.real x) = x
real_of r (Value.integer n) = r.of_integer n
real_of r _ = 0

abbrev is_number : Value → Bool
is_number (Value.integer _) = true
is_number (Value.real _) = true
is_number _ = false

-- Two string objects; a value that names none is dangling.
abbrev objects_equal : Option Obj → Option Obj → Option Bool
objects_equal (some (Obj.string l)) (some (Obj.string r)) = some (string_equal l r)
objects_equal _ _ = none

-- `any_equals`; `none` is a dangling string.
unfoldable pub values_equal : Reals → List Obj → Value → Value → Option Bool
values_equal r heap (Value.boolean b) (Value.boolean c) = some (eq_ℤ b c)
values_equal r heap (Value.integer m) (Value.integer n) = some (eq_ℤ m n)
values_equal r heap (Value.real x) (Value.real y) = some (fuzzy_equals r x y)
values_equal r heap (Value.collectable AType.string i) (Value.collectable AType.string j) =
    objects_equal (get_elem? heap i) (get_elem? heap j)
values_equal r heap u v =
    if is_number u && is_number v
    then some (fuzzy_equals r (real_of r u) (real_of r v))
    else some false

module _ (env : Env) where
  -- The addresses of the top value, and of the top two, as each instruction looks them up.
  unfoldable pub one_operand : M ℕ
  unfolding error check_index
  one_operand a =
      if ltb_ℤ (count a) (pos 1)
      then error env AError.runtime "pop underflow" [] a
      else check_index env (count a -ℤ pos 1) a

  unfoldable pub two_operands : M (ℕ × ℕ)
  unfolding error check_index
  two_operands a =
      if ltb_ℤ (count a) (pos 2)
      then error env AError.runtime "pop underflow" [] a
      else (do
        l ← check_index env (count a -ℤ pos 1)
        r ← check_index env (count a -ℤ pos 2)
        pure (l, r))
          a

  -- `a->stack.sp -= 1`
  abbrev pub drop_top : M (Unit {0})
  drop_top a = set_sp (a.stack.sp - 1) a

  -- The result goes to the place of the right operand, then the left one is dropped.
  unfoldable pub binary : ((lv rv : Value) (l r : ℕ) → M Value) → M Flow
  unfolding two_operands at store
  binary op = do
    (l, r) ← two_operands
    lv ← at l
    rv ← at r
    x ← op lv rv l r
    store r x
    drop_top
    pure Flow.next

  -- Integers by the first operation, other numbers as reals by the second.
  unfoldable pub by_kind :
      (ℤ → ℤ → M Value) → (ℕ → ℕ → M Value) → (l r : ℕ) → Option (ℤ × ℤ) → M Value
  unfolding check_real
  by_kind on_integers on_reals l r (some (m, n)) = on_integers m n
  by_kind on_integers on_reals l r none = do
    x ← check_real env l
    y ← check_real env r
    on_reals x y

  unfoldable pub numeric : (ℤ → ℤ → M Value) → (ℕ → ℕ → M Value) → M Flow
  unfolding binary by_kind
  numeric on_integers on_reals =
      binary λ lv rv l r. by_kind on_integers on_reals l r (integers lv rv)

  unfoldable pub int_div : ℤ → ℤ → M Value
  unfolding error
  int_div m n =
      if eq_ℤ n (pos 0)
      then error env AError.runtime "divide by zero" []
      else if div_overflows m n
      then fail
      else pure (Value.integer (div_ℤ m n))

  unfoldable pub real_div : ℕ → ℕ → M Value
  unfolding error
  real_div x y =
      if fuzzy_equals env.reals y 0
      then error env AError.runtime "divide by zero" []
      else pure (Value.real (env.reals.div x y))

  abbrev real_op : (ℕ → ℕ → ℕ) → ℕ → ℕ → M Value
  real_op f x y = pure (Value.real (f x y))

  abbrev int_op : (ℤ → ℤ → ℤ) → ℤ → ℤ → M Value
  int_op f m n = pure (Value.integer (wrap64 (f m n)))

  -- LOGICAL_OP
  unfoldable pub compare_op : (ℤ → ℤ → Bool) → (ℕ → ℕ → Bool) → M Flow
  unfolding numeric
  compare_op f g = numeric (λ m n. pure (bool_value (f m n))) (λ x y. pure (bool_value (g x y)))

  abbrev pub compared : Option Bool → M Value
  compared none = fail
  compared (some b) = pure (bool_value b)

  unfoldable pub equal_op : (lv rv : Value) (l r : ℕ) → M Value
  unfolding values_equal
  equal_op lv rv l r a = compared (values_equal env.reals a.heap lv rv) a

  unfoldable pub push_const : Option Const → ℤ → M Flow
  unfolding push push_string error
  push_const none idx = error env AError.runtime "bad constant index %d" (idx ∷ [])
  push_const (some (Const.integer n)) idx = push env (Value.integer n) >> pure Flow.next
  push_const (some (Const.string s)) idx = push_string env s >> pure Flow.next
  push_const (some (Const.real x)) idx = push env (Value.real x) >> pure Flow.next
  push_const (some Const.bad) idx = error env AError.runtime "bad constant type" []

  unfoldable pub push_import : Option Value → ℤ → M Flow
  unfolding push error
  push_import none idx = error env AError.runtime "bad import index %d" (idx ∷ [])
  push_import (some x) idx = push env x >> pure Flow.next

  unfoldable pub push_closure : Option ℕ → ℤ → M Flow
  unfolding push error
  push_closure none idx = error env AError.runtime "bad nested index %d" (idx ∷ [])
  push_closure (some p) idx = push env (Value.byte_code_func p) >> pure Flow.next

  module _ (pt : Proto) where
    -- The label `jmp`, at the new instruction pointer and by a displacement.
    unfoldable pub jump_to : ℤ → M Flow
    unfolding error
    jump_to (negsuc _) = error env AError.runtime "bad jump" []
    jump_to (pos nip) =
        if leb (length pt.instructions) nip
        then error env AError.runtime "bad jump" []
        else pure (Flow.jump nip)

    unfoldable pub jump_by : ℤ → M Flow
    unfolding jump_to
    jump_by d a = jump_to (pos a.frame.ip +ℤ d +ℤ pos 1) a

    unfoldable pub received : ℤ → AError → M Flow
    unfolding jump_by
    received d AError.timeout = jump_by d
    received d _ = pure Flow.next

    unfoldable pub receive : ℤ → M Flow
    unfolding one_operand check_integer mbox_recv received
    receive d = do
      i ← one_operand
      timeout ← check_integer env i
      ec ← mbox_recv env timeout
      received d ec

    unfoldable pub jump_if_not : ℤ → M Flow
    unfolding one_operand to_bool jump_by
    jump_if_not d = do
      i ← one_operand
      cond ← to_bool i
      drop_top
      if cond then pure Flow.next else jump_by d

    unfoldable pub negate : M Flow
    unfolding one_operand to_bool store at
    negate = do i ← one_operand; v ← at i; store i (bool_value (not (truth v))); pure Flow.next

    -- The `switch` of the dispatcher; `run` executes the body of a byte code function.
    unfoldable pub exec : (ℕ → M (Unit {0})) → Instr → M Flow
    unfolding pop push_const push_import push_closure push push_index check_index insert call error
        mbox_send mbox_remove mbox_rewind receive jump_if_not jump_by negate numeric compare_op
        binary equal_op int_div real_div
    exec run Instr.nop = pure Flow.next
    exec run Instr.brk = pure Flow.next
    exec run (Instr.pop n) = pop env n >> pure Flow.next
    exec run (Instr.ldk n) = push_const (elem_at pt.constants n) n
    exec run Instr.nil = push env Value.nil >> pure Flow.next
    exec run (Instr.ldb n) = push env (bool_value (not (eq_ℤ n (pos 0)))) >> pure Flow.next
    exec run (Instr.lsi n) = push env (Value.integer n) >> pure Flow.next
    exec run (Instr.llv n) = do i ← check_index env n; push_index env i; pure Flow.next
    exec run (Instr.slv n) = do i ← check_index env n; insert env i; pure Flow.next
    exec run (Instr.imp n) = push_import (elem_at pt.import_values n) n
    exec run (Instr.cls n) = push_closure (elem_at pt.nesteds n) n
    exec run (Instr.jmp d) = jump_by d
    exec run (Instr.jin d) = jump_if_not d
    exec run (Instr.ivk n) = call env run n >> pure Flow.next
    exec run Instr.ret = pure Flow.return
    exec run Instr.snd = mbox_send env >> pure Flow.next
    exec run (Instr.rcv d) = receive d
    exec run Instr.rmv = mbox_remove env >> pure Flow.next
    exec run Instr.rwd = mbox_rewind >> pure Flow.next
    exec run Instr.add = numeric (int_op ◌+ℤ◌) (real_op env.reals.add)
    exec run Instr.sub = numeric (int_op ◌-ℤ◌) (real_op env.reals.sub)
    exec run Instr.mul = numeric (int_op ◌*ℤ◌) (real_op env.reals.mul)
    exec run Instr.div = numeric int_div real_div
    exec run Instr.not = negate
    exec run Instr.eq = binary equal_op
    exec run Instr.lt = compare_op ltb_ℤ env.reals.lt
    exec run Instr.le = compare_op leb_ℤ env.reals.le
    exec run Instr.gt = compare_op (λ m n. ltb_ℤ n m) env.reals.gt
    exec run Instr.ge = compare_op (λ m n. leb_ℤ n m) env.reals.ge
    exec run (Instr.bad op) = error env AError.runtime "bad instruction %u" (pos op ∷ [])

  unfoldable pub fill_nil : ℕ → M (Unit {0})
  unfolding push
  fill_nil zero = pure tt
  fill_nil (suc n) = do push env Value.nil; fill_nil n

  abbrev set_ip : ℕ → M (Unit {0})
  set_ip ip a = Out.ok tt (record a { frame = record (a.frame) { ip = ip } })

  -- What follows an instruction: `++frame->ip`, the target of a jump, or the end of the loop.
  unfoldable pub continue : M (Unit {0}) → Flow → M (Unit {0})
  continue rest Flow.next a = (set_ip (a.frame.ip + 1) >> rest) a
  continue rest (Flow.jump nip) a = (set_ip nip >> rest) a
  continue rest Flow.return a = Out.ok tt a

  -- One round of the loop: `rest` is the rest of it, `run` executes the body of a function.
  unfoldable pub step :
      (run : ℕ → M (Unit {0})) (rest : M (Unit {0})) → Proto → Option Instr → M (Unit {0})
  unfolding exec continue error
  step run rest pt none = error env AError.runtime "return missing" []
  step run rest pt (some i) = exec pt run i >>= continue rest

  -- The loop of `actor_dispatch`. Fuel bounds the instructions and the depth of the calls.
  unfoldable pub loop : ℕ → ℕ → M (Unit {0})
  unfolding step fill_nil
  loop zero p a = Out.out_of_fuel
  loop (suc fuel) p a =
      step (λ q. fill_nil (env.proto q).num_local_vars >> loop fuel q) (loop fuel p) (env.proto p)
        (get_elem? (env.proto p).instructions a.frame.ip) a

  -- `actor_dispatch`, for the prototype of the frame that `any_call` has made.
  unfoldable pub dispatch : ℕ → ℕ → M (Unit {0})
  unfolding loop fill_nil
  dispatch fuel p = fill_nil (env.proto p).num_local_vars >> loop fuel p
