-- ===== src/Safe.antt =====
-- What it means for a function of the machine to be safe: it does not fault, and the state that it
-- leaves, by a return or by a throw, satisfies what is asked.
use any_vm.Base.{ℕ, ◌-◌, ◌≤◌, ◌<◌, ◌≡◌, refl, some, arith, get_elem?, pos_part, neg_part, ◌∙◌}
use any_vm.Errno.{AError}
use any_vm.Stack.Laws.{IsStack}
use any_vm.Machine.{Actor, Peer, Frame, Out, M, and_then}

-- A status that `any_try` takes for an error.
abbrev pub Raised : AError → Type 0
Raised AError.ok = ⊥
Raised _ = Unit

-- `P` holds of a result and the state that it leaves, `E` of the state that a throw leaves. Running
-- out of memory or of fuel is allowed, a fault is not.
pub data Safe {A : Type 0} (P : A → Actor → Type 0) (E : Actor → Type 0) : Out A → Type 0 where
  returns : {x : A} {a : Actor} → P x a → Safe P E (Out.ok x a)
  throws : {e : AError} {a : Actor} → Raised e → E a → Safe P E (Out.throw e a)
  exhausted : Safe P E Out.no_memory
  unfinished : Safe P E Out.out_of_fuel

module _ {A : Type 0} {P : A → Actor → Type 0} {E : Actor → Type 0} where
  pub bind :
      {B : Type 0} {Q : B → Actor → Type 0} {r : Out A} {k : A → M B}
      → Safe P E r
      → ((x : A) (b : Actor) → P x b → Safe Q E (k x b))
      → Safe Q E (and_then r k)
  bind (returns p) next = next _ _ p
  bind (throws h e) next = throws h e
  bind exhausted next = exhausted
  bind unfinished next = unfinished

  pub mono :
      {Q : A → Actor → Type 0} {F : Actor → Type 0} {r : Out A}
      → Safe P E r
      → ((x : A) (b : Actor) → P x b → Q x b)
      → ((b : Actor) → E b → F b)
      → Safe Q F r
  mono (returns p) f g = returns (f _ _ p)
  mono (throws h e) f g = throws h (g _ e)
  mono exhausted f g = exhausted
  mono unfinished f g = unfinished

-- The mailboxes that an actor reaches are valid.
pub record Boxes (a : Actor) : Type 0 where
  pub box : IsStack a.msbox
  pub peek : a.msg_pp ≤ a.msbox.sp
  pub others : (q : ℕ) (p : Peer) → a.peers q ≡ some p → IsStack p.msbox

-- The first address of the running frame: its arguments lie below its base.
abbrev pub low : Frame → ℕ
low f = f.bp - pos_part f.nargs

-- The invariant of an actor inside a call.
pub record IsActor (a : Actor) : Type 0 where
  pub stack : IsStack a.stack
  pub base : a.frame.bp ≤ a.stack.sp
  pub nonneg : neg_part a.frame.nargs ≡ 0
  pub args : pos_part a.frame.nargs ≤ a.frame.bp
  pub boxes : Boxes a

-- `b` is a state that the running frame can bring `a` to: it is valid, in the same frame (but for
-- the instruction pointer) with the same callers, and no value below the frame has changed.
pub record Runs (a b : Actor) : Type 0 where
  pub valid : IsActor b
  pub pt : b.frame.pt ≡ a.frame.pt
  pub bp : b.frame.bp ≡ a.frame.bp
  pub nargs : b.frame.nargs ≡ a.frame.nargs
  pub callers : b.callers ≡ a.callers
  pub cap : a.stack.cap ≤ b.stack.cap
  pub below : (i : ℕ) → i < low a.frame → get_elem? b.stack.v i ≡ get_elem? a.stack.v i

-- `b` is what a throw from `a` leaves to `any_try`: a stack with the error value on top.
pub record Broke (a b : Actor) : Type 0 where
  pub stack : IsStack b.stack
  pub top : 0 < b.stack.sp
  pub cap : a.stack.cap ≤ b.stack.cap
  pub boxes : Boxes b

pub Runs-refl : {a : Actor} → IsActor a → Runs a a
Runs-refl v = record {
  valid = v;
  pt = refl;
  bp = refl;
  nargs = refl;
  callers = refl;
  cap = omega arith;
  below = λ i lt. refl;
}

pub Runs-trans : {a b c : Actor} → Runs a b → Runs b c → Runs a c
Runs-trans {a} {b} {c} p q = record {
  valid = q.valid;
  pt = q.pt ∙ p.pt;
  bp = q.bp ∙ p.bp;
  nargs = q.nargs ∙ p.nargs;
  callers = q.callers ∙ p.callers;
  cap = omega (arith, p.cap, q.cap);
  below = λ i lt. q.below i (ground (arith, p.bp, p.nargs)) ∙ p.below i lt;
}

pub Broke-trans : {a b c : Actor} → Runs a b → Broke b c → Broke a c
Broke-trans p q = record {
  stack = q.stack;
  top = q.top;
  cap = omega (arith, p.cap, q.cap);
  boxes = q.boxes;
}

-- A later part of a function, safe from the state that an earlier part left.
pub after :
    {A : Type 0} {P : A → Actor → Type 0} {a b : Actor} {r : Out A}
    → Runs a b
    → Safe P (Broke b) r
    → Safe P (Broke a) r
after p s = mono s (λ x c h. h) (λ c h. Broke-trans p h)
