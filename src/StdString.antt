-- ===== src/StdString.antt =====
-- The library std-string, src/private/std_string.c and src/inc/any/std_string.h. The hash and the
-- length that an object stores are those of its text.
pub mod Elements
mod Tests
use any_vm.Base.{
  ℕ, ℤ, pos, negsuc, ◌+◌, ◌-◌, ltb, if◌then◌else◌, Option, none, some, List, [], ◌∷◌, ◌++◌, length,
  get_elem?,
}
use any_vm.Errno.{AError}
use any_vm.Value.{AType, Value, Obj}
use any_vm.Text.{hash_and_length}
use any_vm.Machine.{Out, M, pure, ◌>>=◌, ◌>>◌, Env}
use any_vm.Operand.{string_bytes, error, push, at, check_index, check_integer}
use any_vm.Growable.{check_bounds, check_type, found, heap_index, object}

abbrev pub as_string : Obj → Option (List ℕ)
as_string (Obj.string s) = some s
as_string _ = none

-- A `char` is signed.
abbrev pub char_value : ℕ → ℤ
char_value c = if ltb c 128 then pos c else negsuc (255 - c)

module _ (env : Env) where
  -- `any_to_string`
  unfoldable pub string_at : ℕ → M (List ℕ)
  unfolding at
  string_at i = do x ← at i; h ← heap_index x; o ← object h; found (as_string o)

  -- `any_check_string`
  unfoldable pub check_string : ℕ → M (List ℕ)
  unfolding string_at
  check_string i = do check_type env AType.string "not string" i; string_at i

  -- `length/1`
  unfoldable pub llength : M (Unit {0})
  unfolding check_string
  llength = do
    self ← check_index env (negsuc 0)
    s ← check_string self
    push env (Value.integer (pos (length s)))

  -- `hash/1`
  unfoldable pub lhash : M (Unit {0})
  unfolding check_string
  lhash = do
    self ← check_index env (negsuc 0)
    s ← check_string self
    push env (Value.integer (pos (hash_and_length s).0))

  -- `get/2`
  unfoldable pub lget : M (Unit {0})
  unfolding check_string check_bounds
  lget = do
    self ← check_index env (negsuc 0)
    j ← check_index env (negsuc 1)
    s ← check_string self
    idx ← check_integer env j
    i ← check_bounds env idx (length s)
    c ← found (get_elem? s i)
    push env (Value.integer (char_value c))

  -- The new object of `concat/2`: `none` if the heap has no room.
  abbrev pub concat_new : (l r : List ℕ) → M (Option Value)
  concat_new l r a =
      if env.heap_ok a.heap (string_bytes + length l + length r + 1)
      then Out.ok (some (Value.collectable AType.string (length a.heap)))
          (record a { heap = a.heap ++ (Obj.string (l ++ r) ∷ []) })
      else Out.ok none a

  -- `concat/2`
  unfoldable pub lconcat : M (Unit {0})
  unfolding check_string
  lconcat = do
    i ← check_index env (negsuc 0)
    j ← check_index env (negsuc 1)
    l ← check_string i
    r ← check_string j
    v ← concat_new l r
    elim v [ none ↦ error env AError.runtime "out of memory" [] | some x ↦ push env x ]
