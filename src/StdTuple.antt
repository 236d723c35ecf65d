-- ===== src/StdTuple.antt =====
-- The library std-tuple, src/private/std_tuple.c and src/inc/any/std_tuple.h.
pub mod Elements
mod Tests
use any_vm.Base.{
  ℕ, ℤ, pos, negsuc, ◌+◌, ◌-◌, ◌*◌, ◌/◌, ltb, leb, Bool, if◌then◌else◌, Option, none, some, List,
  [], ◌∷◌, ◌++◌, length, get_elem?, set, replicate,
}
use any_vm.Errno.{AError}
use any_vm.Value.{AType, Value, Obj}
use any_vm.Word.{wrap64}
use any_vm.Machine.{Actor, Out, M, pure, fail, address, ◌>>=◌, ◌>>◌, Env}
use any_vm.Operand.{error, push, at, check_index, check_integer}
use any_vm.Growable.{check_bounds, check_type, found, heap_index, object, put_object}

-- `sizeof(agc_tuple_t)` and `sizeof(avalue_t)`
abbrev pub tuple_bytes : ℕ
tuple_bytes = 8

abbrev pub value_bytes : ℕ
value_bytes = 16

abbrev pub as_tuple : Obj → Option (List Value)
as_tuple (Obj.tuple xs) = some xs
as_tuple _ = none

module _ (env : Env) where
  -- `agc_tuple_new`: `none` if the heap has no room. The loop writes past the object if the number
  -- of bytes has wrapped round.
  unfoldable pub new : (sz : ℕ) → M (Option Value)
  new sz = do
    bytes ← address (wrap64 (pos (tuple_bytes + sz * value_bytes)))
    λ a.
        if env.heap_ok a.heap bytes
        then (if leb (tuple_bytes + sz * value_bytes) bytes
            then Out.ok (some (Value.collectable AType.tuple (length a.heap)))
                (record a { heap = a.heap ++ (Obj.tuple (replicate sz Value.nil) ∷ []) })
            else Out.fault)
        else Out.ok none a

  -- `any_push_tuple`
  unfoldable pub push_new : (sz : ℕ) → M (Unit {0})
  unfolding new
  push_new sz = do
    v ← new sz
    elim v [ none ↦ error env AError.runtime "out of memory" [] | some x ↦ push env x ]

  -- `any_check_tuple`
  abbrev pub check_tuple : ℕ → M (Unit {0})
  check_tuple = check_type env AType.tuple "not tuple"

  unfoldable pub tuple_at : ℕ → M (ℕ × List Value)
  unfolding at
  tuple_at i = do x ← at i; h ← heap_index x; o ← object h; xs ← found (as_tuple o); pure (h, xs)

  -- `new/1`
  unfoldable pub lnew_of : (sz : ℤ) → M (Unit {0})
  unfolding push_new
  lnew_of (pos n) = push_new n
  lnew_of (negsuc n) = error env AError.runtime "bad size %lld" (negsuc n ∷ [])

  unfoldable pub lnew : M (Unit {0})
  unfolding lnew_of
  lnew = do i ← check_index env (negsuc 0); lnew_of (← check_integer env i)

  -- `get/2`
  unfoldable pub lget : M (Unit {0})
  unfolding tuple_at check_bounds
  lget = do
    self ← check_index env (negsuc 0)
    j ← check_index env (negsuc 1)
    idx ← check_integer env j
    check_tuple self
    (h, xs) ← tuple_at self
    i ← check_bounds env idx (length xs)
    x ← found (get_elem? xs i)
    push env x

  -- `set/3`
  unfoldable pub lset : M (Unit {0})
  unfolding tuple_at check_bounds
  lset = do
    self ← check_index env (negsuc 0)
    j ← check_index env (negsuc 1)
    k ← check_index env (negsuc 2)
    idx ← check_integer env j
    check_tuple self
    (h, xs) ← tuple_at self
    i ← check_bounds env idx (length xs)
    x ← at k
    put_object h (Obj.tuple (set xs i x))
    push env Value.nil

  -- `size/1`
  unfoldable pub lsize : M (Unit {0})
  unfolding tuple_at
  lsize = do
    self ← check_index env (negsuc 0)
    check_tuple self
    (h, xs) ← tuple_at self
    push env (Value.integer (pos (length xs)))
