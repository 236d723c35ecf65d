-- ===== src/Stack.antt =====
-- `astack_t`, src/private/stack.c and src/inc/any/stack.h: a growable array of values, used for the
-- operand stack and for the mailbox of an actor. `alloc` says which requests the allocator meets.
-- A request is an `aint_t`: one of 2 ^ 63 bytes or more would be negative, and is not met.
-- The slots that an allocation leaves unset hold `nil` here; no operation reads them.
pub mod Laws
mod Tests
use any_vm.Base.{
  ℕ, ◌+◌, ◌-◌, ◌*◌, ◌^◌, Bool, ◌&&◌, ltb, List, [], ◌++◌, Option, none, some, leb, if◌then◌else◌,
  length, replicate,
}
use any_vm.Errno.{AError}
use any_vm.Growth.{grow}
use any_vm.Value.{Value}

-- `sizeof(avalue_t)`
abbrev pub value_bytes : ℕ
value_bytes = 16

pub record Stack : Type 0 where
  pub v : List Value
  pub sp : ℕ
  pub cap : ℕ

abbrev pub given : (ℕ → Bool) → (bytes : ℕ) → Bool
given alloc bytes = ltb bytes (2 ^ 63) && alloc bytes

-- `realloc` keeps what was there.
abbrev pub realloc : List Value → ℕ → List Value
realloc v cap = v ++ replicate (cap - length v) Value.nil

module _ (alloc : ℕ → Bool) where
  unfoldable pub init : (cap : ℕ) → AError × Stack
  init cap =
      if given alloc (value_bytes * cap)
      then (AError.ok, record { v = replicate cap Value.nil; sp = 0; cap = cap })
      else (AError.full, record { v = []; sp = 0; cap = cap })

  -- `none` is a loop that never ends, or a capacity that overflows as such or in bytes.
  unfoldable pub reserve : Stack → (more : ℕ) → Option (AError × Stack)
  reserve s more =
      if leb (s.sp + more) s.cap
      then some (AError.ok, s)
      else elim (grow (s.sp + more) s.cap (s.sp + more)) [
        | none ↦ none
        | some new_cap ↦
            (if leb (2 ^ 60) new_cap
              then none
              else if given alloc (value_bytes * new_cap)
              then some (AError.ok, record s { v = realloc s.v new_cap; cap = new_cap })
              else some (AError.full, s))
      ]
