-- ===== src/StdBuffer.antt =====
-- The library std-buffer, src/private/std_buffer.c and src/inc/any/std_buffer.h, and std-buffer-bits,
-- src/private/std_buffer_bits.c. The bytes of a buffer that no one has written are given.
pub mod Elements
pub mod Bits
pub mod Stored
pub mod Lost
pub mod Integers
mod Tests
use Prim.Native.Nat.{bit_or, bit_and}
use any_vm.Base.{
  ℕ, ℤ, pos, negsuc, zero, suc, eq_ℤ, ◌+ℤ◌, ◌-ℤ◌, ◌+◌, ◌-◌, ◌*◌, ◌/◌, ◌%◌, ◌^◌, ltb, leb, ◌==◌,
  Bool, true, false, if◌then◌else◌, Option, none, some, List, [], ◌∷◌, ◌≡◌, refl, length, get_elem?,
  set,
}
use any_vm.Errno.{AError}
use any_vm.Value.{AType, Value, Vec, Obj}
use any_vm.Word.{bits64}
use any_vm.Machine.{M, pure, fail, ◌>>=◌, ◌>>◌, Env}
use any_vm.Operand.{error, push, at, check_index, check_integer}
use any_vm.Growable
use any_vm.Growable.{Kind, check_bounds, check_type, found, put_object, vec_at, make_room}

abbrev pub as_buffer : Obj → Option (Vec ℕ)
as_buffer (Obj.buffer v) = some v
as_buffer _ = none

-- A bit of a byte, cleared and set: `b &= ~(1 << k)` and `b |= 1 << k` on a `uint8_t`.
abbrev pub cleared : (b k : ℕ) → ℕ
cleared b k = bit_and b (255 - 2 ^ k % 256)

abbrev pub raised : (b k : ℕ) → ℕ
raised b k = bit_or b (2 ^ k) % 256

-- `(val >> k) & 1`, undefined from the width of `aint_t` on.
abbrev pub bit_of : (val : ℤ) (k : ℕ) → Option Bool
bit_of val k = if ltb k 64 then some (bits64 val / 2 ^ k % 2 == 1) else none

abbrev pub put_bit : (on : Option Bool) (b k : ℕ) → Option ℕ
put_bit none b k = none
put_bit (some true) b k = some (raised b k)
put_bit (some false) b k = some b

-- A write of a byte into the buffer.
abbrev pub put_byte : List ℕ → (i : ℕ) → Option ℕ → Option (List ℕ)
put_byte bs i none = none
put_byte bs i (some b) = if ltb i (length bs) then some (set bs i b) else none

abbrev pub get_byte : List ℕ → ℕ → ℕ
get_byte bs i = elim (get_elem? bs i) [ none ↦ 0 | some b ↦ b ]

-- `idx / 8` as a position, and `idx % 8`, which has the sign of `idx`.
abbrev pub div8 : ℤ → Option ℕ
div8 (pos n) = some (n / 8)
div8 (negsuc n) = if ltb (suc n) 8 then some 0 else none

abbrev pub rem8 : ℤ → ℤ
rem8 (pos n) = pos (n % 8)
rem8 (negsuc n) = pos 0 -ℤ pos (suc n % 8)

-- A bit of the value goes to the byte `i`, in which the bit `s` is cleared and the bit `k` is set.
unfoldable pub move_bit : (bit : Option Bool) (i s k : ℕ) → List ℕ → Option (List ℕ)
move_bit bit i s k bs = put_byte bs i (put_bit bit (cleared (get_byte bs i) s) k)

abbrev pub shifted : (s : ℤ) → (ℕ → Option (List ℕ)) → Option (List ℕ)
shifted (pos s) next = next s
shifted (negsuc _) next = none

abbrev pub placed : Option ℕ → (ℕ → Option (List ℕ)) → Option (List ℕ)
placed none next = none
placed (some i) next = next i

-- One round of the loop of `set_sint_le`, for the bit `cnt` of the value. A shift by a negative
-- number is undefined, and so is a byte before the buffer.
unfoldable pub le_round : (val idx : ℤ) (cnt : ℕ) → List ℕ → Option (List ℕ)
unfolding move_bit
le_round val idx cnt bs =
    placed (div8 (idx +ℤ pos cnt))
      λ i. shifted (rem8 idx +ℤ pos (cnt % 8)) λ s. move_bit (bit_of val cnt) i s (cnt % 8) bs

-- One round of the loop of `set_sint_be`.
unfoldable pub be_round : (val idx : ℤ) (cnt : ℕ) → List ℕ → Option (List ℕ)
unfolding move_bit
be_round val idx cnt bs = placed (div8 (idx +ℤ pos cnt)) λ i.
    shifted (pos 8 -ℤ (rem8 idx +ℤ pos (cnt % 8)))
      λ s. move_bit (bit_of val cnt) i s (8 - cnt % 8) bs

-- The rounds from `cnt` on.
unfoldable pub rounds :
    (round : ℕ → List ℕ → Option (List ℕ)) (cnt left : ℕ) → List ℕ → Option (List ℕ)
rounds round cnt zero bs = some bs
rounds round cnt (suc n) bs = elim (round cnt bs) [
  | none ↦ none
  | some bs' ↦ rounds round (suc cnt) n bs'
]

module _ (fresh : ℕ → ℕ) where
  -- `agc_buffer_t`
  abbrev pub buffer_kind : Kind ℕ
  buffer_kind = record {
    type = AType.buffer;
    elem_bytes = 1;
    fresh = fresh;
    pack = Obj.buffer;
    unpack = as_buffer;
    unpack-pack = λ v. refl;
  }

module _ (env : Env) (fresh : ℕ → ℕ) where
  abbrev pub buffer_at : ℕ → M (ℕ × Vec ℕ)
  buffer_at = vec_at env (buffer_kind fresh)

  -- `set_capacity`
  abbrev pub set_capacity : ℕ → (cap : ℕ) → M (Unit {0})
  set_capacity = Growable.set_capacity env (buffer_kind fresh)

  -- `agc_buffer_new`, `any_push_buffer`, and the library function `new/1`.
  abbrev pub buffer_new : (cap : ℕ) → M (Option Value)
  buffer_new = Growable.new env (buffer_kind fresh)

  abbrev pub push_buffer : (cap : ℕ) → M (Unit {0})
  push_buffer = Growable.push_new env (buffer_kind fresh)

  abbrev pub lnew : M (Unit {0})
  lnew = Growable.lnew env (buffer_kind fresh)

  -- `any_buffer_reserve` and `any_buffer_shrink_to_fit`
  abbrev pub buffer_reserve : ℕ → (cap : ℤ) → M (Unit {0})
  buffer_reserve = Growable.reserve env (buffer_kind fresh)

  abbrev pub buffer_shrink_to_fit : ℕ → M (Unit {0})
  buffer_shrink_to_fit = Growable.shrink_to_fit env (buffer_kind fresh)

  -- `any_check_buffer`
  abbrev pub check_buffer : ℕ → M (Unit {0})
  check_buffer = check_type env AType.buffer "not buffer"

  -- The end of `any_buffer_resize`, with its assertion.
  unfoldable pub set_size : ℕ → (sz : ℕ) → M (Unit {0})
  unfolding vec_at
  set_size i sz = do
    (h, v) ← buffer_at i
    if leb sz v.cap then put_object h (Obj.buffer (record v { sz = sz })) else fail

  -- `any_buffer_resize`
  unfoldable pub resize : ℕ → (sz : ℕ) → M (Unit {0})
  unfolding vec_at make_room set_size
  resize i sz = do (h, v) ← buffer_at i; make_room env (buffer_kind fresh) i v sz; set_size i sz

  -- `reserve/2`
  unfoldable pub lreserve : M (Unit {0})
  lreserve = do
    self ← check_index env (negsuc 0)
    j ← check_index env (negsuc 1)
    cap ← check_integer env j
    check_buffer self
    buffer_reserve self cap
    push env Value.nil

  -- `shrink_to_fit/1`
  unfoldable pub lshrink_to_fit : M (Unit {0})
  lshrink_to_fit = do
    self ← check_index env (negsuc 0)
    check_buffer self
    buffer_shrink_to_fit self
    push env Value.nil

  -- `resize/2`, from the size on.
  unfoldable pub lresize_to : ℕ → (sz : ℤ) → M (Unit {0})
  unfolding resize
  lresize_to self (negsuc n) = error env AError.runtime "bad size %lld" (negsuc n ∷ [])
  lresize_to self (pos sz) = do check_buffer self; resize self sz; push env Value.nil

  unfoldable pub lresize : M (Unit {0})
  unfolding lresize_to
  lresize = do
    self ← check_index env (negsuc 0)
    j ← check_index env (negsuc 1)
    lresize_to self (← check_integer env j)

  -- `get/2`
  unfoldable pub lget : M (Unit {0})
  unfolding vec_at check_bounds
  lget = do
    self ← check_index env (negsuc 0)
    j ← check_index env (negsuc 1)
    check_buffer self
    (h, v) ← buffer_at self
    idx ← check_integer env j
    i ← check_bounds env idx v.sz
    b ← found (get_elem? v.slots i)
    push env (Value.integer (pos b))

  -- A write of a byte; past the buffer it is undefined.
  abbrev pub write : ℕ → Vec ℕ → (i b : ℕ) → M (Unit {0})
  write h v i b =
      if ltb i (length v.slots)
      then put_object h (Obj.buffer (record v { slots = set v.slots i b }))
      else fail

  -- `set/3`: the value is cut to a byte.
  unfoldable pub lset : M (Unit {0})
  unfolding vec_at check_bounds
  lset = do
    self ← check_index env (negsuc 0)
    j ← check_index env (negsuc 1)
    k ← check_index env (negsuc 2)
    check_buffer self
    (h, v) ← buffer_at self
    idx ← check_integer env j
    val ← check_integer env k
    i ← check_bounds env idx v.sz
    write h v i (bits64 val % 2 ^ 8)
    push env Value.nil

  -- `size/1`
  unfoldable pub lsize : M (Unit {0})
  unfolding vec_at
  lsize = do
    self ← check_index env (negsuc 0)
    check_buffer self
    (h, v) ← buffer_at self
    push env (Value.integer (pos v.sz))

  -- `capacity/1`
  unfoldable pub lcapacity : M (Unit {0})
  unfolding vec_at
  lcapacity = do
    self ← check_index env (negsuc 0)
    check_buffer self
    (h, v) ← buffer_at self
    push env (Value.integer (pos v.cap))

  -- `set/3` of std-buffer-bits, which checks no bound. A bit before the buffer is undefined.
  unfoldable pub lset_bit : M (Unit {0})
  unfolding vec_at
  lset_bit = do
    self ← check_index env (negsuc 0)
    j ← check_index env (negsuc 1)
    k ← check_index env (negsuc 2)
    check_buffer self
    (h, v) ← buffer_at self
    val ← check_integer env j
    idx ← check_integer env k
    elim idx [
      | negsuc _ ↦ fail
      | pos i ↦ (do
        b ← found (get_elem? v.slots (i / 8))
        write h v (i / 8) (if eq_ℤ val (pos 0) then cleared b (i % 8) else raised b (i % 8)))
    ]
    push env Value.nil

  -- `set_sint_le/4` and `set_sint_be/4`, which check no bound.
  abbrev set_sint : ((val idx : ℤ) (cnt : ℕ) → List ℕ → Option (List ℕ)) → M (Unit {0})
  set_sint round = do
    self ← check_index env (negsuc 0)
    j ← check_index env (negsuc 1)
    k ← check_index env (negsuc 2)
    l ← check_index env (negsuc 3)
    check_buffer self
    (h, v) ← buffer_at self
    val ← check_integer env j
    idx ← check_integer env k
    len ← check_integer env l
    elim len [
      | negsuc _ ↦ pure tt
      | pos n ↦ (do
        bs ← found (rounds (round val idx) 0 n v.slots)
        put_object h (Obj.buffer (record v { slots = bs })))
    ]
    push env Value.nil

  unfoldable pub lset_sint_le : M (Unit {0})
  unfolding vec_at rounds le_round
  lset_sint_le = set_sint le_round

  unfoldable pub lset_sint_be : M (Unit {0})
  unfolding vec_at rounds be_round
  lset_sint_be = set_sint be_round
