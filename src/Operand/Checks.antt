-- ===== src/Operand/Checks.antt =====
-- The operations of the operand stack are safe inside a valid actor.
use Prim.Native.String.{String}
use any_vm.Base.{
  ℕ, ℤ, pos, negsuc, suc, ◌+ℤ◌, ◌-ℤ◌, ltb_ℤ, leb_ℤ, pos_part, ◌+◌, ◌-◌, ◌≤◌, ◌<◌, ◌≡◌, sym, subst,
  ◌⊎◌, inl, inr, true, false, Bool-cases, some, List, [], ◌∷◌, arith, get_elem?, get_elem?-some,
  -ℤ_parts, ap,
}
use any_vm.Errno.{AError}
use any_vm.Stack.Laws.{IsStack}
use any_vm.Value.{Value}
use any_vm.Machine.{Actor, Out, Env}
use any_vm.Safe.{Safe, returns, throws, exhausted, Boxes, IsActor, Runs, Broke, low}
use any_vm.Operand.{error, push, check_index, valid_address, at, load}
use any_vm.Operand.Laws.{Pushed, Pushed-heap, try_push-Pushed, try_push_string-cases}

Pushed-Boxes : {a b : Actor} {x : Value} → Boxes a → Pushed a x b → Boxes b
Pushed-Boxes {a} {b} v p =
    subst Boxes (sym p.same) (record { box = v.box; peek = v.peek; others = v.others })

Pushed-Broke : {a b : Actor} {x : Value} → Boxes a → Pushed a x b → Broke a b
Pushed-Broke v p = record {
  stack = p.valid;
  top = omega (arith, p.sp);
  cap = p.cap;
  boxes = Pushed-Boxes v p;
}

pub Pushed-Runs : {a b : Actor} {x : Value} → IsActor a → Pushed a x b → Runs a b
Pushed-Runs {a} {b} v p = record {
  valid = record {
    stack = p.valid;
    base = rw (frame, p.sp) (omega (arith, v.base));
    nonneg = rw frame v.nonneg;
    args = rw frame v.args;
    boxes = Pushed-Boxes v.boxes p;
  };
  pt = ap (λ f. f.pt) frame;
  bp = ap (λ f. f.bp) frame;
  nargs = ap (λ f. f.nargs) frame;
  callers = ap (λ c. c.callers) p.same;
  cap = p.cap;
  below = λ i lt. p.below i (omega (arith, v.base));
}
  where
    frame : b.frame ≡ a.frame
    frame = ap (λ c. c.frame) p.same

-- An address that the running frame may use.
pub record InFrame (a : Actor) (i : ℕ) : Type 0 where
  pub from : low a.frame ≤ i
  pub to : i < a.stack.sp

pub valid_address-InFrame :
    (a : Actor) (i : ℕ) → IsActor a → InFrame a i → valid_address a (pos i) ≡ true
unfolding valid_address
valid_address-InFrame a i v h = ground (arith, -ℤ_parts (pos a.frame.bp) a.frame.nargs)

pub bp_plus : (bp n : ℕ) → pos bp +ℤ pos n ≡ pos (bp + n)
unfolding ◌+ℤ◌
bp_plus bp n = ground arith

bp_minus : (bp n : ℕ) → n < bp → pos bp +ℤ negsuc n ≡ pos (bp - suc n)
unfolding ◌+ℤ◌
bp_minus bp n h = ground arith

module _ (env : Env) (a : Actor) where
  -- `any_error` throws with the message on top, or memory is exhausted.
  pub error-Safe :
      {A : Type 0} {P : A → Actor → Type 0} (text : String) (args : List ℤ)
      → IsStack a.stack
      → Boxes a
      → Safe P (Broke a) (error env AError.runtime text args a)
  unfolding error
  error-Safe text args s boxes = elim (try_push_string-cases env a s (env.format text args)) [
    | inr (x, b, e, p) ↦ rw e (throws tt (Pushed-Broke boxes p))
    | inl (h, e) ↦
        (elim (try_push_string-cases env (record a { heap = h }) s
          (env.format "out of memory" [])) [
            | inr (x, b, e', p) ↦ rw (e, e') (throws tt (Pushed-Broke boxes (Pushed-heap p)))
            | inl (h', e') ↦ rw (e, e') exhausted
          ])
  ]

  pub push-Safe : (x : Value) → IsActor a → Safe (λ _ b. Pushed a x b) (Broke a) (push env x a)
  unfolding push
  push-Safe x v = elim (try_push-Pushed env a x v.stack) [
    | inl e ↦ rw e (error-Safe "out of memory" [] v.stack v.boxes)
    | inr (b, e, p) ↦ rw e (returns p)
  ]

  -- An address in the frame holds a value.
  pub at-InFrame :
      (i : ℕ)
      → IsActor a
      → InFrame a i
      → (x : Value) × (at i a ≡ Out.ok x a) × (get_elem? a.stack.v i ≡ some x)
  unfolding at load
  at-InFrame i v h =
      let (x, e) = get_elem?-some a.stack.v i (omega arith) in
      (x, rw (valid_address-InFrame a i v h) (rw (e, load)), e)

  -- The two tests of `any_check_index`, for an index that passes them.
  InFrame-checked :
      (idx : ℤ)
      → IsActor a
      → ltb_ℤ idx (pos 0 -ℤ a.frame.nargs) ≡ false
      → leb_ℤ (pos a.stack.sp -ℤ pos a.frame.bp) idx ≡ false
      → (i : ℕ) × (pos a.frame.bp +ℤ idx ≡ pos i) × InFrame a i
  InFrame-checked (pos n) v lo hi = (
    a.frame.bp + n,
    bp_plus a.frame.bp n,
    ground (arith, -ℤ_parts (pos a.stack.sp) (pos a.frame.bp)),
  )
  InFrame-checked (negsuc n) v lo hi =
      let within : suc n ≤ pos_part a.frame.nargs =
        ground (arith, -ℤ_parts (pos 0) a.frame.nargs) in
      (a.frame.bp - suc n, bp_minus a.frame.bp n (omega arith), omega arith)

  -- In a valid actor, any_check_index either gives the address base + idx, which lies between the
  -- first argument and the top of the stack, with its assertion holding and the state unchanged,
  -- or raises the error of a bad index.
  pub check_index-cases :
      (idx : ℤ)
      → IsActor a
      → ((i : ℕ) × (check_index env idx a ≡ Out.ok i a)
          × (pos a.frame.bp +ℤ idx ≡ pos i)
          × InFrame a i)
        ⊎ (check_index env idx a ≡ error env AError.runtime "bad index %lld" (idx ∷ []) a)
  unfolding check_index
  check_index-cases idx v = elim (Bool-cases (ltb_ℤ idx (pos 0 -ℤ a.frame.nargs))) [
    | inl small ↦ inr (rw small)
    | inr lo ↦ (elim (Bool-cases (leb_ℤ (pos a.stack.sp -ℤ pos a.frame.bp) idx)) [
      | inl large ↦ inr (rw (lo, large))
      | inr hi ↦
          (let (i, e, f) = InFrame-checked idx v lo hi in
            inl (i, rw (lo, hi, e, valid_address-InFrame a i v f), e, f))
    ])
  ]
