-- ===== src/Value.antt =====
-- Tagged values, src/inc/any/rt_types.h, and the objects of an actor's heap. An address that the
-- code keeps in a value (a native function, a prototype, a heap index) is a number that names what
-- stands there. A real is its 64-bit pattern.
use any_vm.Base.{ℕ, ℤ, List, Bool, ◌==◌}

-- `atype_t`
pub data AType : Type 0 where
  nil pid boolean integer real native_func byte_code_func : AType
  fixed_buffer buffer string tuple array table : AType

-- `avalue_t`, built by `av_nil` to `av_collectable`.
pub data Value : Type 0 where
  nil : Value
  pid : ℕ → Value
  boolean : ℤ → Value
  integer : ℤ → Value
  real : ℕ → Value
  native_func : ℕ → Value
  byte_code_func : ℕ → Value
  collectable : AType → ℕ → Value

-- `v->tag.type`
abbrev pub type_of : Value → AType
type_of Value.nil = AType.nil
type_of (Value.pid _) = AType.pid
type_of (Value.boolean _) = AType.boolean
type_of (Value.integer _) = AType.integer
type_of (Value.real _) = AType.real
type_of (Value.native_func _) = AType.native_func
type_of (Value.byte_code_func _) = AType.byte_code_func
type_of (Value.collectable t _) = t

-- The number of a tag in the enumeration.
abbrev pub tag : AType → ℕ
tag AType.nil = 0
tag AType.pid = 1
tag AType.boolean = 2
tag AType.integer = 3
tag AType.real = 4
tag AType.native_func = 5
tag AType.byte_code_func = 6
tag AType.fixed_buffer = 7
tag AType.buffer = 8
tag AType.string = 9
tag AType.tuple = 10
tag AType.array = 11
tag AType.table = 12

abbrev pub same_type : AType → AType → Bool
same_type s t = tag s == tag t

-- A growable object with its fixed buffer, as `agc_buffer_t` and `agc_array_t`: `sz` is the number
-- of elements in use, `cap` the capacity, and `slots` what the buffer holds.
pub record Vec (A : Type 0) : Type 0 where
  pub cap : ℕ
  pub sz : ℕ
  pub slots : List A

-- What stands at a heap index: a string is its bytes before the NUL, an entry of a table a key and
-- a value that stand side by side.
pub data Obj : Type 0 where
  string : List ℕ → Obj
  tuple : List Value → Obj
  buffer : Vec ℕ → Obj
  array : Vec Value → Obj
  table : Vec (Value × Value) → Obj
