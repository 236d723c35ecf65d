-- ===== src/Growable/Args.antt =====
-- The arguments of a native function: `any_check_index` finds each of them, and `aactor_at` reads it.
use Prim.Native.String.{String}
use any_vm.Base.{
  ℕ, ℤ, pos, negsuc, suc, ◌+ℤ◌, ◌-ℤ◌, ltb_ℤ, leb_ℤ, pos_part, -ℤ_parts, ◌-◌, ◌≤◌, ◌<◌, ◌≡◌, refl,
  Bool-cases, inl, inr, ◌⊎◌, ltb, true, false, some, List, [], ◌∷◌, arith, get_elem?,
}
use any_vm.Errno.{AError}
use any_vm.Value.{AType, Value, Obj, type_of, same_type}
use any_vm.Machine.{Actor, Out, Env}
use any_vm.Safe.{IsActor}
use any_vm.Operand.{at, load, check_index, check_integer, as_integer, error}
use any_vm.Operand.Checks.{InFrame, valid_address-InFrame}
use any_vm.Growable.{check_bounds, check_type}

-- The argument number `n`, from 0 for the last one, is `x`.
pub record Arg (a : Actor) (n : ℕ) (x : Value) : Type 0 where
  pub within : suc n ≤ pos_part a.frame.nargs
  pub value : get_elem? a.stack.v (a.frame.bp - suc n) ≡ some x

-- The address of that argument.
abbrev pub arg_at : Actor → ℕ → ℕ
arg_at a n = a.frame.bp - suc n

pub Arg-heap :
    {a : Actor} {n : ℕ} {x : Value} (h : List Obj) → Arg a n x → Arg (record a { heap = h }) n x
Arg-heap h g = record { within = g.within; value = g.value }

pub IsActor-heap : {a : Actor} (h : List Obj) → IsActor a → IsActor (record a { heap = h })
IsActor-heap h v = record {
  stack = v.stack;
  base = v.base;
  nonneg = v.nonneg;
  args = v.args;
  boxes = record { box = v.boxes.box; peek = v.boxes.peek; others = v.boxes.others };
}

bp_minus : (bp n : ℕ) → n < bp → pos bp +ℤ negsuc n ≡ pos (bp - suc n)
unfolding ◌+ℤ◌
bp_minus bp n h = ground arith

module _ (env : Env) {a : Actor} {n : ℕ} {x : Value} (v : IsActor a) (g : Arg a n x) where
  Arg-InFrame : InFrame a (arg_at a n)
  Arg-InFrame = record {
    from = omega (arith, g.within, v.args);
    to = omega (arith, g.within, v.args, v.base);
  }

  pub at-Arg : at (arg_at a n) a ≡ Out.ok x a
  unfolding at load
  at-Arg = rw (valid_address-InFrame a (arg_at a n) v Arg-InFrame) (rw (g.value, load) refl)

  pub check_index-Arg : check_index env (negsuc n) a ≡ Out.ok (arg_at a n) a
  unfolding check_index
  check_index-Arg =
      rw
        (
          not_low,
          not_high,
          bp_minus a.frame.bp n (omega (arith, g.within, v.args)),
          valid_address-InFrame a (arg_at a n) v Arg-InFrame,
        )
        refl
    where
      not_low : ltb_ℤ (negsuc n) (pos 0 -ℤ a.frame.nargs) ≡ false
      not_low = ground (arith, -ℤ_parts (pos 0) a.frame.nargs, v.nonneg, g.within)

      not_high : leb_ℤ (pos a.stack.sp -ℤ pos a.frame.bp) (negsuc n) ≡ false
      not_high = ground (arith, -ℤ_parts (pos a.stack.sp) (pos a.frame.bp), v.base)

  pub check_type-Arg :
      (t : AType) (message : String)
      → same_type (type_of x) t ≡ true
      → check_type env t message (arg_at a n) a ≡ Out.ok tt a
  unfolding check_type
  check_type-Arg t message same = rw (at-Arg, same) refl

pub check_integer-Arg :
    (env : Env) {a : Actor} {n : ℕ} {m : ℤ}
    → IsActor a
    → Arg a n (Value.integer m)
    → check_integer env (arg_at a n) a ≡ Out.ok m a
unfolding check_integer as_integer
check_integer-Arg env v g = rw (at-Arg env v g) refl

-- An index that is no position of a list of `sz` elements.
pub data Outside (sz : ℕ) : ℤ → Type 0 where
  below : {n : ℕ} → Outside sz (negsuc n)
  above : {i : ℕ} → sz ≤ i → Outside sz (pos i)

pub check_bounds-cases :
    (env : Env) (idx : ℤ) (sz : ℕ) (a : Actor)
    → ((j : ℕ) × (idx ≡ pos j) × (j < sz) × (check_bounds env idx sz a ≡ Out.ok j a))
      ⊎ Outside sz idx
        × (check_bounds env idx sz a ≡ error env AError.runtime "bad index %lld" (idx ∷ []) a)
unfolding check_bounds
check_bounds-cases env (negsuc n) sz a = inr (Outside.below, refl)
check_bounds-cases env (pos j) sz a = elim (Bool-cases (ltb j sz)) [
  | inl lt ↦ inl (j, refl, ground arith, rw lt refl)
  | inr ge ↦ inr (Outside.above (ground arith), rw ge refl)
]
