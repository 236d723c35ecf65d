-- ===== src/Calls/Catch.antt =====
-- Error catching: what `any_try` and `any_protected_call` leave.
use any_vm.Base.{
  ℕ, pos, ◌-ℤ◌, ◌+◌, ◌-◌, ◌≤◌, ◌<◌, ◌≡◌, refl, sym, ◌∙◌, ap, ◌⊎◌, inl, inr, false, arith, subst,
  ltb, get_elem?-some,
}
use any_vm.Errno.{AError}
use any_vm.Value.{Value}
use any_vm.Machine.{Frame, Actor, Out, M, Env}
use any_vm.Safe.{
  Safe, Raised, Runs-trans, returns, throws, exhausted, unfinished, bind, mono, IsActor, Runs,
  Broke,
}
use any_vm.Operand.{load, push, pop, num_locals, count}
use any_vm.Operand.Laws.{Pushed, push-cases}
use any_vm.Operand.Checks.{Pushed-Runs}
use any_vm.Operand.Effects.{at_sp, at_sp-Runs}
use any_vm.Calls.{landed, try, protected, protected_call}
use any_vm.Calls.Laws.{Keeps, Returned, NativeSafe, BodySafe, call-Returned}

-- `c` is `a` with an error value pushed, though the values below may have changed: the frame and
-- its callers are those of `a`.
pub record Caught (a : Actor) (c : Actor) : Type 0 where
  pub valid : IsActor c
  pub sp : c.stack.sp ≡ a.stack.sp + 1
  pub frame : c.frame ≡ a.frame
  pub callers : c.callers ≡ a.callers

-- What `any_try` returns with, by its status.
pub data Tried (a : Actor) : AError → Actor → Type 0 where
  returned : {c : Actor} → Runs a c → Tried a AError.ok c
  caught : {ec : AError} {c : Actor} → Caught a c → Tried a ec c

-- `aactor_push` either pushes or exhausts the memory, and never throws.
push-never_throws :
    (env : Env) (a : Actor) (x : Value)
    → IsActor a
    → Safe (λ _ b. Runs a b × Pushed a x b) (λ _. ⊥) (push env x a)
push-never_throws env a x v = elim (push-cases env a x v.stack) [
  | inl e ↦ rw e exhausted
  | inr (b, e, p) ↦ rw e (returns (Pushed-Runs v p, p))
]

minus_one : (n : ℕ) → 0 < n → pos n -ℤ pos 1 ≡ pos (n - 1)
unfolding ◌-ℤ◌
minus_one n h = ground arith

module _ (env : Env) {a : Actor} (v : IsActor a) where
  restored-IsActor :
      {b : Actor}
      → Broke a b
      → IsActor (record b {
        stack = record (b.stack) { sp = a.stack.sp };
        frame = a.frame;
        callers = a.callers;
      })
  restored-IsActor q = record {
    stack = record {
      storage = q.stack.storage;
      used = omega (arith, q.cap, v.stack.used);
      pos = q.stack.pos;
      small = q.stack.small;
    };
    base = v.base;
    nonneg = v.nonneg;
    args = v.args;
    boxes = record { box = q.boxes.box; peek = q.boxes.peek; others = q.boxes.others };
  }

  -- The end of a throw with a status that is an error.
  landed-Caught :
      (ec : AError) {b : Actor}
      → Raised ec
      → Broke a b
      → Safe (λ e c. (e ≡ ec) × Caught a c) (λ _. ⊥) (landed env a ec b)
  unfolding landed load
  landed-Caught AError.ok r q = absurd r
  landed-Caught ec {b} r q =
      let (ev, e) =
        get_elem?-some b.stack.v (b.stack.sp - 1)
          (omega (arith, q.top, q.stack.storage, q.stack.used)) in
      rw (minus_one b.stack.sp q.top) (
        rw (e, load)
          (bind (push-never_throws env _ ev (restored-IsActor q)) (λ _ c (runs, pushed). returns (
            refl,
            record {
              valid = runs.valid;
              sp = pushed.sp;
              frame = ap {A = Actor} (λ d. d.frame) pushed.same;
              callers = ap {A = Actor} (λ d. d.callers) pushed.same;
            },
          ))))

  -- The end of `any_try`, when what it tries is safe.
  tried :
      {r : Out (Unit {0})} → Keeps a r → Safe (λ ec c. Tried a ec c) (λ _. ⊥) (try env (λ _. r) a)
  unfolding try landed
  tried (returns p) =
      bind (push-never_throws env _ Value.nil p.valid)
        (λ _ c (runs, _). returns (Tried.returned (Runs-trans p runs)))
  tried (throws {e = ec} h q) =
      mono (landed-Caught ec h q) (λ e c (same, got). Tried.caught got) (λ b x. x)
  tried exhausted = exhausted
  tried unfinished = unfinished

  -- any_try of a function that is safe in a valid actor never throws. Unless memory or fuel runs
  -- out, it returns AERR_NONE in the same frame with the values below the frame kept, or it
  -- returns after a throw with a valid actor, the frame and the callers of before, and the stack
  -- pointer one above where it was.
  pub try-Tried :
      (f : M (Unit {0})) → Keeps a (f a) → Safe (λ ec c. Tried a ec c) (λ _. ⊥) (try env f a)
  unfolding try
  try-Tried f s = tried s

lt_floor : (bp k : ℕ) → k ≡ 0 → ltb bp (bp + k) ≡ false
lt_floor bp k h = ground arith

counted : (m bp : ℕ) → bp ≤ m → pos m -ℤ (pos m -ℤ pos bp) ≡ pos bp
unfolding ◌-ℤ◌
counted m bp h = ground arith

-- A frame without local variables can be emptied.
pop_all :
    (env : Env) (c : Actor)
    → c.frame.bp ≤ c.stack.sp
    → num_locals env c.frame.pt ≡ 0
    → pop env (count c) c ≡ Out.ok tt (at_sp c c.frame.bp)
unfolding pop
pop_all env c le none_local =
    rw (counted c.stack.sp c.frame.bp le, pop)
      (rw (lt_floor c.frame.bp (num_locals env c.frame.pt) none_local))

-- How `any_protected_call` of `n` arguments ends: the result with a nil on top of it stands in place
-- of the function and the arguments, or the error value is alone in the frame.
pub data Protected (a : Actor) (n : ℕ) (c : Actor) : Type 0 where
  completed : Runs a c → c.stack.sp ≡ a.stack.sp - n + 1 → Protected a n c
  failed :
      IsActor c
      → c.frame ≡ a.frame
      → c.callers ≡ a.callers
      → c.stack.sp ≡ a.frame.bp + 1
      → Protected a n c

module _ (env : Env) {a : Actor} (n : ℕ) (v : IsActor a)
    (free : num_locals env a.frame.pt ≡ 0) where
  -- The status and the state of `any_try`, more exactly.
  abbrev Ended : AError → Actor → Type 0
  Ended ec c = (ec ≡ AError.ok) × Protected a n c ⊎ Raised ec × Caught a c

  ended :
      {r : Out (Unit {0})}
      → Safe (λ _ c. Returned a n c) (Broke a) r
      → Safe Ended (λ _. ⊥) (try env (λ _. r) a)
  unfolding try landed
  ended (returns p) = bind (push-never_throws env _ Value.nil p.runs.valid) (λ _ c (runs, pushed).
      returns
        (inl (refl, Protected.completed (Runs-trans p.runs runs) (omega (arith, pushed.sp, p.sp)))))
  ended (throws {e = ec} h q) =
      mono (landed-Caught env v ec h q) (λ e c (same, got). inr (subst Raised (sym same) h, got))
        (λ b x. x)
  ended exhausted = exhausted
  ended unfinished = unfinished

  protected-failed :
      (ec : AError) {c : Actor}
      → Raised ec
      → Caught a c
      → Safe (λ _ d. Protected a n d) (λ _. ⊥) (protected env ec c)
  unfolding protected load
  protected-failed AError.ok h got = absurd h
  protected-failed ec {c} h got =
      let (ev, e) =
        get_elem?-some c.stack.v (c.stack.sp - 1)
          (omega (arith, got.sp, got.valid.stack.storage, got.valid.stack.used)) in
      let none_local : num_locals env c.frame.pt ≡ 0 =
        ap {A = Frame} (λ f. num_locals env f.pt) got.frame ∙ free in
      let emptied = at_sp-Runs got.valid c.frame.bp (omega arith) got.valid.base in
      rw (e, load)
        (rw (pop_all env c got.valid.base none_local) (
          mono (push-never_throws env (at_sp c c.frame.bp) ev emptied.valid)
            (λ _ d (runs, pushed).
              Protected.failed runs.valid (ap {A = Actor} (λ x. x.frame) pushed.same ∙ got.frame)
                (ap {A = Actor} (λ x. x.callers) pushed.same ∙ got.callers)
                (omega (arith, pushed.sp, ap {A = Frame} (λ f. f.bp) got.frame)))
            (λ d x. x)))

  protected-Protected :
      (ec : AError) (c : Actor)
      → Ended ec c
      → Safe (λ _ d. Protected a n d) (λ _. ⊥) (protected env ec c)
  unfolding protected
  protected-Protected ec c (inl (none_raised, p)) = rw none_raised (returns p)
  protected-Protected ec c (inr (h, got)) = protected-failed ec h got

  -- In a valid actor whose frame has no local variables, with safe native functions and bodies,
  -- any_protected_call of n arguments never throws and (unless memory or fuel runs out) ends in
  -- one of two ways: the stack pointer is n - 1 below where it was, in the same frame; or the
  -- call failed, the frame and its callers are those of before, and the stack pointer is one
  -- above the base, so that every operand of the caller is gone.
  pub protected_call-Protected :
      {run : ℕ → M (Unit {0})}
      → NativeSafe env
      → BodySafe run
      → Safe (λ _ c. Protected a n c) (λ _. ⊥) (protected_call env run (pos n) a)
  unfolding protected_call try
  protected_call-Protected natives bodies =
      bind (ended (call-Returned env n natives bodies v)) protected-Protected
