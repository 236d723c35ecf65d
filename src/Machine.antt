-- ===== src/Machine.antt =====
-- The state that the functions of src/private/actor.c and src/private/dispatcher.c work on, and how
-- such a function ends. A function is a value of `M A`: it takes the state to a result.
use Prim.Native.String.{String}
use any_vm.Base.{ℕ, ℤ, pos, negsuc, Bool, List, Option, ◌&&◌}
use any_vm.Errno.{AError}
use any_vm.Bytecode.{Instr}
use any_vm.Stack.{Stack}
use any_vm.Value.{Value, Obj}

-- `aframe_t`; the frame of a native function has no prototype. `nargs` is as the caller gave it.
pub record Frame : Type 0 where
  pub pt : Option ℕ
  pub ip : ℕ
  pub bp : ℕ
  pub nargs : ℤ

-- What an actor can reach of another one: its mailbox, and the heap that a message is copied to.
pub record Peer : Type 0 where
  pub msbox : Stack
  pub heap : List Obj

-- `aactor_t`. `frame` is `a->frame` and `callers` the chain of its `prev`. `heap` lists the objects
-- by the index that a value holds. `pid`, `peers` and `notified` are its view of the scheduler: its
-- own pid, the other live actors by pid, and the pids for which `ascheduler_got_new_message` was
-- called, the last one first.
pub record Actor : Type 0 where
  pub stack : Stack
  pub msbox : Stack
  pub msg_pp : ℕ
  pub frame : Frame
  pub callers : List Frame
  pub heap : List Obj
  pub pid : ℕ
  pub peers : ℕ → Option Peer
  pub notified : List ℕ

-- How a call ends: it returns, or throws to the enclosing `any_try`. `fault` is undefined
-- behaviour, a failed assertion or an endless loop; `no_memory` is the unbounded recursion of
-- `any_error` when its own message cannot be stored; `out_of_fuel` belongs to the model alone.
pub data Out (A : Type 0) : Type 0 where
  ok : A → Actor → Out A
  throw : AError → Actor → Out A
  fault : Out A
  no_memory : Out A
  out_of_fuel : Out A

abbrev pub M : Type 0 → Type 0
M A = Actor → Out A

abbrev pub pure : {A : Type 0} → A → M A
pure = Out.ok

abbrev pub fail : {A : Type 0} → M A
fail _ = Out.fault

module _ {A B : Type 0} where
  abbrev pub and_then : Out A → (A → M B) → Out B
  and_then (Out.ok x a) k = k x a
  and_then (Out.throw e a) k = Out.throw e a
  and_then Out.fault k = Out.fault
  and_then Out.no_memory k = Out.no_memory
  and_then Out.out_of_fuel k = Out.out_of_fuel

  infixl 5 ◌>>=◌ ◌>>◌
  abbrev pub ◌>>=◌ : M A → (A → M B) → M B
  m >>= k = λ a. and_then (m a) k

  abbrev pub ◌>>◌ : M A → M B → M B
  m >> n = m >>= λ _. n

-- An address that is not negative.
abbrev pub address : ℤ → M ℕ
address (pos n) = pure n
address (negsuc n) = fail

-- `aconstant_t`; `bad` is a type outside `actype_t`. A string is its bytes in the pool.
pub data Const : Type 0 where
  integer : ℤ → Const
  string : List ℕ → Const
  real : ℕ → Const
  bad : Const

-- `aprototype_t` as the loader leaves it; `nesteds` are addresses of prototypes.
pub record Proto : Type 0 where
  pub num_local_vars : ℕ
  pub instructions : List Instr
  pub constants : List Const
  pub import_values : List Value
  pub nesteds : List ℕ

-- `areal_t` is a `double`; its operations on 64-bit patterns are the machine's.
pub record Reals : Type 0 where
  pub add : ℕ → ℕ → ℕ
  pub sub : ℕ → ℕ → ℕ
  pub mul : ℕ → ℕ → ℕ
  pub div : ℕ → ℕ → ℕ
  pub lt : ℕ → ℕ → Bool
  pub le : ℕ → ℕ → Bool
  pub gt : ℕ → ℕ → Bool
  pub ge : ℕ → ℕ → Bool
  pub of_integer : ℤ → ℕ

-- `afuzzy_equals` of src/inc/any/std.h; the number is the pattern of 0.00001.
unfoldable pub fuzzy_equals : Reals → ℕ → ℕ → Bool
fuzzy_equals r a b = r.lt (r.sub a precision) b && r.gt (r.add a precision) b
  where
    precision : ℕ
    precision = 0x3ee4_f8b5_88e3_68f1

-- What the functions are given: the prototypes and the native functions at their addresses, the
-- answers of the allocator (`alloc` for an array of so many bytes and `moves` where the array then
-- stands elsewhere, `heap_ok` for room on a heap and `heap_grows` where the bytes of the heap must
-- first be copied to a larger one),
-- the text that `vsnprintf` makes, and what a suspension in the scheduler does to the state of the
-- actor: it comes back with whatever messages have arrived.
pub record Env : Type 0 where
  pub proto : ℕ → Proto
  pub native : ℕ → Actor → Out (Unit {0})
  pub reals : Reals
  pub alloc : ℕ → Bool
  pub moves : ℕ → Bool
  pub heap_ok : List Obj → ℕ → Bool
  pub heap_grows : List Obj → ℕ → Bool
  pub format : String → List ℤ → List ℕ
  pub wait : ℤ → Actor → Actor
