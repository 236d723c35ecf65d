-- ===== src/Growth.antt =====
-- `while (cap < need) cap *= GROW_FACTOR;`, the loop by which the stack, the heap, the buffers and
-- the arrays grow, on an `aint_t`. `none` means that the capacity overflows, or that the fuel ran
-- out: with fuel `need` that happens exactly for a capacity of 0, where the loop of the source never
-- ends.

use any_vm.Base.{
  ℕ, zero, suc, ◌+◌, ◌*◌, ◌^◌, ◌≤◌, ◌<◌, ◌≡◌, ◌⊎◌, inl, inr, Option, none, some, arith, ltb,
  if◌then◌else◌, Bool-cases, lt→ltb,
}

abbrev pub grow_factor : ℕ
grow_factor = 2

unfoldable pub grow : (fuel cap need : ℕ) → Option ℕ
grow zero cap need = if ltb cap need then none else some cap
grow (suc fuel) cap need =
    let rest = grow fuel (cap * grow_factor) need in
    if ltb cap need then (if ltb (cap * grow_factor) (2 ^ 63) then rest else none) else some cap

-- What the loop ends with: enough, no less than before, and less than twice the need if it grew.
pub record Grown (cap need r : ℕ) : Type 0 where
  pub enough : need ≤ r
  pub no_less : cap ≤ r
  pub tight : (r ≡ cap) ⊎ (r < grow_factor * need)

pub grow_total :
    (fuel cap need : ℕ)
    → 0 < cap
    → need ≤ cap + fuel
    → need ≤ 2 ^ 62
    → (r : ℕ) × (grow fuel cap need ≡ some r) × Grown cap need r
unfolding grow
grow_total zero cap need pos fits small = (cap, ground arith, omega arith)
grow_total (suc fuel) cap need pos fits small = elim (Bool-cases (ltb cap need)) [
  | inr done ↦ (cap, rw done, ground arith)
  | inl more ↦
      (let (r, e, g) = grow_total fuel (cap * 2) need (omega arith) (omega arith) small in
        (r, rw (more, lt→ltb (cap * 2) (2 ^ 63) (ground arith)) e, ground (arith, g)))
]

-- From 0 the loop never ends: no fuel is enough.
pub grow-zero : (fuel need : ℕ) → 0 < need → grow fuel 0 need ≡ none
unfolding grow
grow-zero zero need pos = ground arith
grow-zero (suc fuel) need pos = ground (arith, grow-zero fuel need pos)
