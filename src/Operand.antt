-- ===== src/Operand.antt =====
-- The operand stack of an actor: the inline functions of src/inc/any/actor.h, with `any_error` of
-- src/private/actor.c and `any_push_string` of src/inc/any/std_string.h. An index is relative to
-- the base of the frame, an address is a position in the array.
pub mod Laws
pub mod Checks
pub mod Effects
mod Tests
use Prim.Native.String.{String}
use any_vm.Base.{
  ℕ, ℤ, pos, negsuc, ◌+ℤ◌, ◌-ℤ◌, ltb_ℤ, leb_ℤ, eq_ℤ, zero, suc, ◌+◌, ◌-◌, ◌*◌, ltb, ◌&&◌, ◌||◌,
  Bool, true, false, if◌then◌else◌, Option, none, some, List, [], ◌∷◌, ◌++◌, length, get_elem?, set,
  take, drop, overwrite,
}
use any_vm.Errno.{AError}
use any_vm.Stack.{Stack, value_bytes, reserve}
use any_vm.Value.{AType, Value, Obj}
use any_vm.Machine.{Actor, Out, M, pure, address, ◌>>=◌, ◌>>◌, Env}

-- `sizeof(agc_string_t)`
abbrev pub string_bytes : ℕ
string_bytes = 16

-- The number of local variables of the running function, 0 for a native one.
abbrev pub num_locals : Env → Option ℕ → ℕ
num_locals env none = 0
num_locals env (some p) = (env.proto p).num_local_vars

-- `a->stack.v[i]`
unfoldable pub load : ℕ → M Value
load i a = elim (get_elem? a.stack.v i) [ none ↦ Out.fault | some x ↦ Out.ok x a ]

-- `a->stack.v[i] = x`
unfoldable pub store : ℕ → Value → M (Unit {0})
store i x a =
    if ltb i (length a.stack.v)
    then Out.ok tt (record a { stack = record (a.stack) { v = set a.stack.v i x } })
    else Out.fault

abbrev pub set_sp : ℕ → M (Unit {0})
set_sp n a = Out.ok tt (record a { stack = record (a.stack) { sp = n } })

-- The assertion ANY_ASSERT_IDX.
unfoldable pub valid_address : Actor → ℤ → Bool
valid_address a i =
    eq_ℤ i (pos 0) || leb_ℤ (pos a.frame.bp -ℤ a.frame.nargs) i && ltb_ℤ i (pos a.stack.sp)

-- `aactor_at`, with its assertion, and the value there.
unfoldable pub at : ℕ → M Value
unfolding load
at i a = if valid_address a (pos i) then load i a else Out.fault

-- `any_remove`. The assertion lets 0 pass on an empty stack, where the count of `memmove` is
-- negative.
unfoldable pub remove : ℕ → M (Unit {0})
remove i a =
    if valid_address a (pos i) && ltb i a.stack.sp
    then Out.ok tt (record a {
      stack = record (a.stack) {
        v = overwrite a.stack.v i (take (a.stack.sp - i - 1) (drop (i + 1) a.stack.v));
        sp = a.stack.sp - 1;
      };
    })
    else Out.fault

module _ (env : Env) where
  -- `aactor_push` up to its error: false if the allocator refuses.
  unfoldable pub try_push : Value → M Bool
  unfolding store
  try_push x a = elim (reserve env.alloc a.stack 1) [
    | none ↦ Out.fault
    | some (AError.ok, s) ↦
        (store s.sp x >>= λ _. set_sp (s.sp + 1) >>= λ _. pure true) (record a { stack = s })
    | some (_, s) ↦ Out.ok false a
  ]

  -- `agc_string_new`: `none` if the heap has no room.
  unfoldable pub string_new : List ℕ → M (Option Value)
  string_new bytes a =
      if env.heap_ok a.heap (string_bytes + length bytes + 1)
      then Out.ok (some (Value.collectable AType.string (length a.heap)))
          (record a { heap = a.heap ++ (Obj.string bytes ∷ []) })
      else Out.ok none a

  -- `any_push_string` up to its errors.
  unfoldable pub try_push_string : List ℕ → M Bool
  unfolding string_new try_push
  try_push_string bytes =
      string_new bytes >>= λ v. elim v [ none ↦ pure false | some x ↦ try_push x ]

  -- `any_error`: push the message and throw. If the message cannot be stored, the nested
  -- `any_error` reports that there is no memory; if that cannot be stored either it recurs for ever.
  abbrev pub nested : {A : Type 0} → Bool → M A
  nested true = Out.throw AError.runtime
  nested false = λ _. Out.no_memory

  unfoldable pub raise : {A : Type 0} → AError → Bool → M A
  unfolding try_push_string
  raise ec true = Out.throw ec
  raise ec false = do nested (← try_push_string (env.format "out of memory" []))

  unfoldable pub error : {A : Type 0} → AError → String → List ℤ → M A
  unfolding try_push_string raise
  error ec text args = do raise ec (← try_push_string (env.format text args))

  unfoldable pub push : Value → M (Unit {0})
  unfolding try_push error
  push x = do
    stored ← try_push x
    elim stored [ true ↦ pure tt | false ↦ error AError.runtime "out of memory" [] ]

  -- `aactor_push` of a pointer to a value of the same stack. It is read after the stack has grown: if
  -- the array has moved, the value is gone.
  unfoldable pub after_growth : Option (AError × Stack) → Value → M (Unit {0})
  unfolding push
  after_growth (some (AError.ok, s)) x a =
      if env.moves (value_bytes * s.cap) then Out.fault else push x a
  after_growth _ x a = push x a

  unfoldable pub push_at : ℕ → M (Unit {0})
  unfolding at push after_growth
  push_at i = at i >>= λ x a.
      if ltb a.stack.sp a.stack.cap
      then push x a
      else after_growth (reserve env.alloc a.stack 1) x a

  unfoldable pub push_string : List ℕ → M (Unit {0})
  unfolding try_push_string error
  push_string bytes = do
    stored ← try_push_string bytes
    elim stored [ true ↦ pure tt | false ↦ error AError.runtime "out of memory" [] ]

  -- `any_pop`. A pointer below the array would be written through by `any_error`.
  unfoldable pub pop : ℤ → M (Unit {0})
  unfolding error
  pop n a = elim (pos a.stack.sp -ℤ n) [
    | negsuc _ ↦ Out.fault
    | pos sp ↦
        (if ltb sp (a.frame.bp + num_locals env a.frame.pt)
          then (set_sp sp >> error AError.runtime "pop underflow" []) a
          else set_sp sp a)
  ]

  -- `any_check_index`, with its assertion.
  unfoldable pub check_index : ℤ → M ℕ
  unfolding error
  check_index idx a =
      if ltb_ℤ idx (pos 0 -ℤ a.frame.nargs) || leb_ℤ (pos a.stack.sp -ℤ pos a.frame.bp) idx
      then error AError.runtime "bad index %lld" (idx ∷ []) a
      else if valid_address a (pos a.frame.bp +ℤ idx)
      then address (pos a.frame.bp +ℤ idx) a
      else Out.fault

  -- `any_insert`
  unfoldable pub insert : ℕ → M (Unit {0})
  unfolding pop load store
  insert i a =
      if valid_address a (pos i)
      then (pop (pos 1) >> λ b. (load b.stack.sp >>= λ x. store i x) b) a
      else Out.fault

  -- `any_push_index`
  unfoldable pub push_index : ℕ → M (Unit {0})
  unfolding push_at
  push_index = push_at

  -- `any_check_integer`
  unfoldable pub as_integer : Value → M ℤ
  unfolding error
  as_integer (Value.integer n) = pure n
  as_integer _ = error AError.runtime "not integer" []

  unfoldable pub check_integer : ℕ → M ℤ
  unfolding at as_integer
  check_integer i = do as_integer (← at i)

  -- `any_check_bool`
  unfoldable pub check_bool : ℕ → M ℤ
  unfolding at error
  check_bool i = do
    v ← at i
    elim v [ Value.boolean b ↦ pure b | _ ↦ error AError.runtime "not boolean" [] ]

  -- `any_check_real`
  unfoldable pub as_real : Value → M ℕ
  unfolding error
  as_real (Value.real r) = pure r
  as_real (Value.integer n) = pure (env.reals.of_integer n)
  as_real _ = error AError.runtime "not number" []

  unfoldable pub check_real : ℕ → M ℕ
  unfolding at as_real
  check_real i = do as_real (← at i)

  -- `any_check_pid`
  unfoldable pub check_pid : ℕ → M ℕ
  unfolding at error
  check_pid i = do v ← at i; elim v [ Value.pid p ↦ pure p | _ ↦ error AError.runtime "not pid" [] ]

-- `any_to_bool`: nil and false are false.
abbrev pub truth : Value → Bool
truth Value.nil = false
truth (Value.boolean b) = elim b [
  | pos n ↦ elim n [ zero ↦ false | suc _ ↦ true ]
  | negsuc _ ↦ true
]
truth _ = true

unfoldable pub to_bool : ℕ → M Bool
unfolding load
to_bool i = do pure (truth (← load i))

-- `any_count`
abbrev pub count : Actor → ℤ
count a = pos a.stack.sp -ℤ pos a.frame.bp
