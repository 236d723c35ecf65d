-- ===== src/Operand/Effects.antt =====
-- What the operations that move the stack pointer or write a value do to a valid actor.
use any_vm.Base.{
  ℕ, pos, ◌-ℤ◌, ◌+◌, ◌-◌, ◌≤◌, ◌<◌, ◌≡◌, refl, ◌∙◌, inl, inr, Bool-cases, [], arith, ltb, lt→ltb,
  length, length-set, set, get_elem?, get_elem?-some, get_elem?-set_ne, get_elem?-set_self,
}
use any_vm.Stack.{Stack}
use any_vm.Stack.Laws.{IsStack}
use any_vm.Value.{Value}
use any_vm.Machine.{Actor, Out, Env}
use any_vm.Safe.{Safe, returns, bind, mono, Boxes, IsActor, Runs, Broke, Runs-trans}
use any_vm.Operand.{pop, store, load, insert, num_locals}
use any_vm.Operand.Checks.{InFrame, valid_address-InFrame, error-Safe}

-- The state with the stack pointer at `n`, and that with `x` at address `i`.
abbrev pub at_sp : Actor → ℕ → Actor
at_sp a n = record a { stack = record (a.stack) { sp = n } }

abbrev pub with_value : Actor → ℕ → Value → Actor
with_value a i x = record a { stack = record (a.stack) { v = set a.stack.v i x } }

Boxes-at_sp : {a : Actor} (n : ℕ) → Boxes a → Boxes (at_sp a n)
Boxes-at_sp n v = record { box = v.box; peek = v.peek; others = v.others }

IsStack-at_sp : {s : Stack} (n : ℕ) → IsStack s → n ≤ s.sp → IsStack (record s { sp = n })
IsStack-at_sp n v h = record {
  storage = v.storage;
  used = omega arith;
  pos = v.pos;
  small = v.small;
}

Broke-at_sp : {a b : Actor} (n : ℕ) → Broke (at_sp a n) b → Broke a b
Broke-at_sp n q = record { stack = q.stack; top = q.top; cap = q.cap; boxes = q.boxes }

module _ {a : Actor} (v : IsActor a) where
  pub at_sp-Runs : (n : ℕ) → a.frame.bp ≤ n → n ≤ a.stack.sp → Runs a (at_sp a n)
  at_sp-Runs n lo hi = record {
    valid = record {
      stack = record {
        storage = v.stack.storage;
        used = omega arith;
        pos = v.stack.pos;
        small = v.stack.small;
      };
      base = lo;
      nonneg = v.nonneg;
      args = v.args;
      boxes = Boxes-at_sp n v.boxes;
    };
    pt = refl;
    bp = refl;
    nargs = refl;
    callers = refl;
    cap = omega arith;
    below = λ i lt. refl;
  }

  pub with_value-Runs : (i : ℕ) (x : Value) → InFrame a i → Runs a (with_value a i x)
  with_value-Runs i x h = record {
    valid = record {
      stack = record {
        storage = length-set a.stack.v i x ∙ v.stack.storage;
        used = v.stack.used;
        pos = v.stack.pos;
        small = v.stack.small;
      };
      base = v.base;
      nonneg = v.nonneg;
      args = v.args;
      boxes = record { box = v.boxes.box; peek = v.boxes.peek; others = v.boxes.others };
    };
    pt = refl;
    bp = refl;
    nargs = refl;
    callers = refl;
    cap = omega arith;
    below = λ j lt. get_elem?-set_ne a.stack.v x (omega (arith, h.from));
  }

  pub store-InFrame : (i : ℕ) (x : Value) → InFrame a i → store i x a ≡ Out.ok tt (with_value a i x)
  unfolding store
  store-InFrame i x h =
      rw (lt→ltb i (length a.stack.v) (omega (arith, h.to, v.stack.storage, v.stack.used)))

minus : (m n : ℕ) → n ≤ m → pos m -ℤ pos n ≡ pos (m - n)
unfolding ◌-ℤ◌
minus m n h = ground arith

module _ (env : Env) (a : Actor) where
  -- What `any_pop` must leave: the local variables.
  abbrev pub floor : ℕ
  floor = a.frame.bp + num_locals env a.frame.pt

  -- any_pop of n values from a valid actor whose stack holds at least n lowers the stack pointer
  -- by n and changes nothing else if the local variables stay, and otherwise throws with the
  -- error value on a valid stack.
  pub pop-Safe :
      (n : ℕ)
      → IsActor a
      → n ≤ a.stack.sp
      → Safe
          (λ _ b. (b ≡ at_sp a (a.stack.sp - n)) × (floor ≤ a.stack.sp - n))
          (Broke a)
          (pop env (pos n) a)
  unfolding pop
  pop-Safe n v h =
      rw (minus a.stack.sp n h, pop)
        (elim (Bool-cases (ltb (a.stack.sp - n) floor)) [
          | inr keeps ↦ rw keeps (returns (refl, ground arith))
          | inl under ↦ rw under (
              mono
                (error-Safe env (at_sp a (a.stack.sp - n)) "pop underflow" []
                  (IsStack-at_sp _ v.stack (omega arith)) (Boxes-at_sp _ v.boxes))
                (λ x b q. q) (λ b q. Broke-at_sp _ q))
        ])

  -- any_insert at an address of the frame of a valid actor with a value on its stack moves the
  -- top value to that address and lowers the stack pointer by one, keeping the frame and
  -- everything below it, or throws with the error value on a valid stack.
  pub insert-Safe :
      (i : ℕ)
      → IsActor a
      → InFrame a i
      → 0 < a.stack.sp
      → Safe
          (λ _ b.
            Runs a b
            × (b.stack.sp ≡ a.stack.sp - 1)
            × (get_elem? b.stack.v i ≡ get_elem? a.stack.v (a.stack.sp - 1)))
          (Broke a)
          (insert env i a)
  unfolding insert
  insert-Safe i v h more =
      let (x, e) = get_elem?-some a.stack.v (a.stack.sp - 1) (omega arith) in
      let wrote = with_value-Runs v i x h in
      rw (valid_address-InFrame a i v h) (
        bind (pop-Safe 1 v (omega arith)) λ _ b (moved, keeps). rw moved (
          rw (e, load)
            (rw (lt→ltb i (length a.stack.v) (omega arith)) (
              returns (
                Runs-trans wrote
                    (at_sp-Runs wrote.valid (a.stack.sp - 1) (omega arith) (omega arith)),
                refl,
                get_elem?-set_self a.stack.v i x (omega arith),
              )))))
