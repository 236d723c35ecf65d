-- ===== src/Calls/Laws.antt =====
-- The calling convention: a call that returns has replaced the function and its arguments by one
-- value, and has left everything below them and the frame of the caller alone.
use any_vm.Base.{
  ℕ, ℤ, pos, ◌-ℤ◌, -ℤ_parts, ltb_ℤ, ◌+◌, ◌-◌, ◌≤◌, ◌<◌, ◌≡◌, refl, ◌∙◌, ap, ap₂, inl, inr,
  Bool-cases, Option, none, some, [], arith, leb, lt→ltb, length, length-set, set, get_elem?,
  get_elem?-some, get_elem?-set_ne,
}
use any_vm.Errno.{AError}
use any_vm.Value.{Value}
use any_vm.Machine.{Actor, Out, and_then, Env}
use any_vm.Safe.{Safe, returns, bind, mono, IsActor, Runs, Broke, Runs-trans, Broke-trans, low}
use any_vm.Operand.{load, store, error}
use any_vm.Operand.Checks.{error-Safe}
use any_vm.Calls.{save_ctx, load_ctx, enter, call}

abbrev pub Keeps : {A : Type 0} → Actor → Out A → Type 0
Keeps a r = Safe (λ _ b. Runs a b) (Broke a) r

-- What a later part keeps, the whole keeps.
pub after-Keeps : {A : Type 0} {a b : Actor} {r : Out A} → Runs a b → Keeps b r → Keeps a r
after-Keeps p s = mono s (λ x c q. Runs-trans p q) (λ c q. Broke-trans p q)

-- What the bodies of functions are asked: safe in their own fresh frame.
abbrev pub BodySafe : (ℕ → Actor → Out (Unit {0})) → Type 0
BodySafe run =
    (p : ℕ) (a : Actor) → IsActor a → a.frame.pt ≡ some p → 0 < a.frame.bp → Keeps a (run p a)

abbrev pub NativeSafe : Env → Type 0
NativeSafe env = (f : ℕ) (a : Actor) → IsActor a → a.frame.pt ≡ none → Keeps a (env.native f a)

Broke-saved : {a b : Actor} (pt : Option ℕ) (n : ℤ) → Broke (save_ctx pt n a) b → Broke a b
Broke-saved pt n q = record { stack = q.stack; top = q.top; cap = q.cap; boxes = q.boxes }

minus : (m n : ℕ) → n ≤ m → pos m -ℤ pos n ≡ pos (m - n)
unfolding ◌-ℤ◌
minus m n h = ground arith

-- The state of the caller after the return of `x` in place of the function and `n` arguments.
abbrev returned : Actor → Actor → ℕ → Value → Actor
returned a b n x = record b {
  stack = record (b.stack) { v = set b.stack.v (a.stack.sp - n - 1) x; sp = a.stack.sp - n };
  frame = a.frame;
  callers = a.callers;
}

-- The caller `a` gets back the value `x` at the place of the function.
pub record Returned (a : Actor) (nargs : ℕ) (c : Actor) : Type 0 where
  pub runs : Runs a c
  pub sp : c.stack.sp ≡ a.stack.sp - nargs
  pub below : (i : ℕ) → i < a.stack.sp - nargs - 1 → get_elem? c.stack.v i ≡ get_elem? a.stack.v i

module _ (env : Env) {a : Actor} (n : ℕ) (v : IsActor a)
    (room : a.frame.bp + n + 1 ≤ a.stack.sp) where
  abbrev fp : ℕ
  fp = a.stack.sp - n - 1

  save_ctx-IsActor : (pt : Option ℕ) → IsActor (save_ctx pt (pos n) a)
  save_ctx-IsActor pt = record {
    stack = v.stack;
    base = omega arith;
    nonneg = refl;
    args = omega arith;
    boxes = record { box = v.boxes.box; peek = v.boxes.peek; others = v.boxes.others };
  }

  module _ (pt : Option ℕ) {b : Actor} (r : Runs (save_ctx pt (pos n) a) b) where
    Returned-returned : (x : Value) → Returned a n (returned a b n x)
    Returned-returned x = record {
      runs = record {
        valid = record {
          stack = record {
            storage = length-set b.stack.v fp x ∙ r.valid.stack.storage;
            used = omega (arith, r.cap, v.stack.used);
            pos = r.valid.stack.pos;
            small = r.valid.stack.small;
          };
          base = omega arith;
          nonneg = v.nonneg;
          args = v.args;
          boxes = record {
            box = r.valid.boxes.box;
            peek = r.valid.boxes.peek;
            others = r.valid.boxes.others;
          };
        };
        pt = refl;
        bp = refl;
        nargs = refl;
        callers = refl;
        cap = r.cap;
        below = λ i lt. get_elem?-set_ne b.stack.v x (omega arith) ∙ r.below i (omega arith);
      };
      sp = refl;
      below = λ i lt. get_elem?-set_ne b.stack.v x (omega arith) ∙ r.below i (omega arith);
    }

    nsp_address : pos b.frame.bp -ℤ b.frame.nargs ≡ pos (a.stack.sp - n)
    nsp_address = ap₂ (λ m z. pos m -ℤ z) r.bp r.nargs ∙ minus a.stack.sp n (omega arith)

    fp_address : pos (a.stack.sp - n) -ℤ pos 1 ≡ pos fp
    fp_address = minus (a.stack.sp - n) 1 (omega arith)

    load_ctx-Returned : Safe (λ _ c. Returned a n c) (Broke a) (load_ctx env b)
    unfolding load_ctx load store
    load_ctx-Returned = elim (Bool-cases (leb b.stack.sp b.frame.bp)) [
      | inl missing ↦ rw missing (
          mono (error-Safe env b "return value missing" [] r.valid.stack r.valid.boxes) (λ x c q. q)
            (λ c q. Broke-saved pt (pos n) (Broke-trans r q)))
      | inr some_value ↦
          (let (x, e) =
              get_elem?-some b.stack.v (b.stack.sp - 1) (ground (arith, r.valid.stack.storage)) in
            rw (some_value, nsp_address, fp_address)
              (rw (e, load)
                (rw
                  (lt→ltb fp (length b.stack.v)
                    (omega (arith, r.valid.stack.storage, r.cap, v.stack.used)))
                  (simp r.callers (returns (Returned-returned x))))))
    ]

  -- A call whose body is safe replaces the function and its arguments by one value, or throws.
  after_body :
      (pt : Option ℕ) {r : Out (Unit {0})}
      → Keeps (save_ctx pt (pos n) a) r
      → Safe (λ _ c. Returned a n c) (Broke a) (and_then r (λ _. load_ctx env))
  after_body pt body =
      bind (mono body (λ _ b q. q) (λ b q. Broke-saved pt (pos n) q))
        (λ _ b q. load_ctx-Returned pt q)

  module _ {run : ℕ → Actor → Out (Unit {0})} (natives : NativeSafe env)
      (bodies : BodySafe run) where
    not_function :
        Safe
          (λ _ c. Returned a n c)
          (Broke a)
          (and_then
            (error env {A = Unit {0}} AError.runtime "attempt to call a non-function" [] a)
            (λ _. load_ctx env))
    not_function =
        bind (error-Safe env a {P = λ _ _. ⊥} "attempt to call a non-function" [] v.stack v.boxes)
          (λ x b q. absurd q)

    enter-Returned :
        (f : Value)
        → Safe
            (λ _ c. Returned a n c)
            (Broke a)
            (and_then (enter env run (pos n) f a) (λ _. load_ctx env))
    unfolding enter
    enter-Returned (Value.native_func f) =
        after_body none (natives f (save_ctx none (pos n) a) (save_ctx-IsActor none) refl)
    enter-Returned (Value.byte_code_func p) =
        after_body (some p)
          (bodies p (save_ctx (some p) (pos n) a) (save_ctx-IsActor (some p)) refl (omega arith))
    enter-Returned Value.nil = not_function
    enter-Returned _ = not_function

-- With safe native functions and safe bodies, any_call with n arguments from a valid actor either
-- throws with the error value on a valid stack, or (unless memory or fuel runs out) replaces the
-- function and its n arguments by one value: the stack pointer falls by n, the frame and its
-- callers are those of before, and every value below the function is unchanged.
pub call-Returned :
    (env : Env) {run : ℕ → Actor → Out (Unit {0})} {a : Actor} (n : ℕ)
    → NativeSafe env
    → BodySafe run
    → IsActor a
    → Safe (λ _ c. Returned a n c) (Broke a) (call env run (pos n) a)
unfolding call load
call-Returned env {run} {a} n natives bodies v =
    elim (Bool-cases (ltb_ℤ (pos a.stack.sp -ℤ pos n -ℤ pos 1) (pos a.frame.bp))) [
      | inl low ↦ rw low (error-Safe env a "no function to call" [] v.stack v.boxes)
      | inr high ↦
          (let room : a.frame.bp + n + 1 ≤ a.stack.sp = ground (
            arith,
            -ℤ_parts (pos a.stack.sp) (pos n),
            -ℤ_parts (pos a.stack.sp -ℤ pos n) (pos 1),
          ) in
            let at_fp : pos a.stack.sp -ℤ pos n -ℤ pos 1 ≡ pos (a.stack.sp - n - 1) =
              ap (λ z. z -ℤ pos 1) (minus a.stack.sp n (omega arith))
              ∙ minus (a.stack.sp - n) 1 (omega arith) in
            let (f, e) =
              get_elem?-some a.stack.v (a.stack.sp - n - 1)
                (omega (arith, v.stack.storage, v.stack.used)) in
            rw (high, at_fp) (rw (e, load) (enter-Returned env n v room natives bodies f)))
    ]
