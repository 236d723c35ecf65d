-- ===== src/StdArray.antt =====
-- The library std-array, src/private/std_array.c and src/inc/any/std_array.h. Slots that no one has
-- written hold nil here.
pub mod Elements
pub mod Sizes
mod Tests
use any_vm.Base.{
  ℕ, ℤ, pos, negsuc, zero, suc, ◌+◌, ◌-◌, ltb, leb, ◌==◌, Bool, if◌then◌else◌, Option, none, some,
  List, [], ◌∷◌, ◌≡◌, refl, length, get_elem?, set, overwrite, replicate,
}
use any_vm.Errno.{AError}
use any_vm.Value.{AType, Value, Vec, Obj}
use any_vm.Machine.{M, pure, fail, ◌>>=◌, ◌>>◌, Env}
use any_vm.Operand.{push_at, error, push, at, check_index, check_integer}
use any_vm.Growable
use any_vm.Growable.{
  Kind, check_bounds, check_type, found, put_object, vec_at, reserve, shrink_to_fit, make_room,
}

abbrev as_array : Obj → Option (Vec Value)
as_array (Obj.array v) = some v
as_array _ = none

-- `agc_array_t`
abbrev pub array_kind : Kind Value
array_kind = record {
  type = AType.array;
  elem_bytes = 16;
  fresh = λ i. Value.nil;
  pack = Obj.array;
  unpack = as_array;
  unpack-pack = λ v. refl;
}

-- `data[i] = nil` for the elements from the old size to the new one, which the buffer must hold.
unfoldable pub filled : (sz : ℕ) → Vec Value → Option (Vec Value)
filled sz v =
    if ltb v.sz sz
    then (if leb sz (length v.slots)
        then some
            (record v { sz = sz; slots = overwrite v.slots v.sz (replicate (sz - v.sz) Value.nil) })
        else none)
    else some (record v { sz = sz })

module _ (env : Env) where
  abbrev pub array_at : ℕ → M (ℕ × Vec Value)
  array_at = vec_at env array_kind

  -- The library function `new/1`.
  abbrev pub lnew : M (Unit {0})
  lnew = Growable.lnew env array_kind

  -- `any_check_array`
  abbrev pub check_array : ℕ → M (Unit {0})
  check_array = check_type env AType.array "not array"

  -- The end of `any_array_resize`, with its assertion.
  unfoldable pub set_size : ℕ → (sz : ℕ) → M (Unit {0})
  unfolding vec_at filled
  set_size i sz = do
    (h, v) ← array_at i
    w ← found (if leb sz v.cap then filled sz v else none)
    put_object h (Obj.array w)

  -- `any_array_resize`
  unfoldable pub resize : ℕ → (sz : ℕ) → M (Unit {0})
  unfolding vec_at make_room set_size
  resize i sz = do
    (h, v) ← array_at i
    if v.sz == sz then pure tt else make_room env array_kind i v sz >> set_size i sz

  -- `reserve/2`
  unfoldable pub lreserve : M (Unit {0})
  unfolding reserve
  lreserve = do
    self ← check_index env (negsuc 0)
    j ← check_index env (negsuc 1)
    cap ← check_integer env j
    check_array self
    reserve env array_kind self cap
    push env Value.nil

  -- `shrink_to_fit/1`
  unfoldable pub lshrink_to_fit : M (Unit {0})
  unfolding shrink_to_fit
  lshrink_to_fit = do
    self ← check_index env (negsuc 0)
    check_array self
    shrink_to_fit env array_kind self
    push env Value.nil

  -- `resize/2`, from the size on.
  unfoldable pub lresize_to : ℕ → (sz : ℤ) → M (Unit {0})
  unfolding resize
  lresize_to self (negsuc n) = error env AError.runtime "bad size %lld" (negsuc n ∷ [])
  lresize_to self (pos sz) = do check_array self; resize self sz; push env Value.nil

  unfoldable pub lresize : M (Unit {0})
  unfolding lresize_to
  lresize = do
    self ← check_index env (negsuc 0)
    j ← check_index env (negsuc 1)
    lresize_to self (← check_integer env j)

  -- `get/2`
  unfoldable pub lget : M (Unit {0})
  unfolding vec_at check_bounds
  lget = do
    self ← check_index env (negsuc 0)
    j ← check_index env (negsuc 1)
    idx ← check_integer env j
    check_array self
    (h, v) ← array_at self
    i ← check_bounds env idx v.sz
    x ← found (get_elem? v.slots i)
    push env x

  -- A write to an element; past the buffer it is undefined.
  abbrev pub write : ℕ → Vec Value → (i : ℕ) → Value → M (Unit {0})
  write h v i x =
      if ltb i (length v.slots)
      then put_object h (Obj.array (record v { slots = set v.slots i x }))
      else fail

  -- `set/3`
  unfoldable pub lset : M (Unit {0})
  unfolding vec_at check_bounds push_at
  lset = do
    self ← check_index env (negsuc 0)
    j ← check_index env (negsuc 1)
    k ← check_index env (negsuc 2)
    idx ← check_integer env j
    check_array self
    (h, v) ← array_at self
    i ← check_bounds env idx v.sz
    write h v i (← at k)
    push_at env k

  -- `size/1`
  unfoldable pub lsize : M (Unit {0})
  unfolding vec_at
  lsize = do
    self ← check_index env (negsuc 0)
    check_array self
    (h, v) ← array_at self
    push env (Value.integer (pos v.sz))

  -- `capacity/1`
  unfoldable pub lcapacity : M (Unit {0})
  unfolding vec_at
  lcapacity = do
    self ← check_index env (negsuc 0)
    check_array self
    (h, v) ← array_at self
    push env (Value.integer (pos v.cap))

  -- `push/2`, which does not check the type of the array: the store of the value, and the whole.
  unfoldable pub push_element : (self k sz : ℕ) → M (Unit {0})
  unfolding vec_at
  push_element self k sz = do
    (h, v) ← array_at self
    write h v sz (← at k)
    push env (Value.integer (pos (sz + 1)))

  unfoldable pub lpush : M (Unit {0})
  unfolding vec_at resize push_element
  lpush = do
    self ← check_index env (negsuc 0)
    k ← check_index env (negsuc 1)
    (h, v) ← array_at self
    if ltb v.cap (v.sz + 1) then resize self (v.sz + 1) else pure tt
    push_element self k v.sz
