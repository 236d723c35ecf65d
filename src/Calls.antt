-- ===== src/Calls.antt =====
-- Calls and error catching, src/private/actor.c: `any_call` with `save_ctx` and `load_ctx`,
-- `any_try` and `any_protected_call`. `run` is what executes the body of a byte code function.
pub mod Laws
pub mod Catch
mod Tests
use any_vm.Base.{
  ℕ, ℤ, pos, negsuc, ◌-ℤ◌, ltb_ℤ, leb_ℤ, ◌+◌, ◌-◌, leb, Bool, true, false, if◌then◌else◌, Option,
  none, some, List, [], ◌∷◌,
}
use any_vm.Errno.{AError}
use any_vm.Value.{Value}
use any_vm.Machine.{Frame, Actor, Out, M, pure, fail, ◌>>=◌, ◌>>◌, address, Env}
use any_vm.Operand.{load, store, set_sp, error, push, pop, count}

-- `save_ctx` on the fresh frame of `any_call`: its prototype is set only for byte code.
abbrev pub save_ctx : Option ℕ → ℤ → Actor → Actor
save_ctx pt nargs a = record a {
  frame = record { pt = pt; ip = 0; bp = a.stack.sp; nargs = nargs };
  callers = a.frame ∷ a.callers;
}

-- `a->frame = a->frame->prev`; there is no frame to return to in the outermost one.
abbrev pub leave : M (Unit {0})
leave a = elim a.callers [
  | [] ↦ Out.fault
  | f ∷ fs ↦ Out.ok tt (record a { frame = f; callers = fs })
]

module _ (env : Env) where
  -- The result replaces the function below the arguments.
  unfoldable pub load_ctx : M (Unit {0})
  unfolding error load store
  load_ctx a =
      if leb a.stack.sp a.frame.bp
      then error env AError.runtime "return value missing" [] a
      else (do
        nsp ← address (pos a.frame.bp -ℤ a.frame.nargs)
        to ← address (pos nsp -ℤ pos 1)
        x ← load (a.stack.sp - 1)
        store to x
        set_sp nsp
        leave)
          a

  module _ (run : ℕ → M (Unit {0})) where
    -- The body of the function that a value holds, in its new frame.
    unfoldable pub enter : ℤ → Value → M (Unit {0})
    unfolding error
    enter nargs (Value.native_func f) a = env.native f (save_ctx none nargs a)
    enter nargs (Value.byte_code_func p) a = run p (save_ctx (some p) nargs a)
    enter nargs _ a = error env AError.runtime "attempt to call a non-function" [] a

    unfoldable pub call : ℤ → M (Unit {0})
    unfolding error load enter load_ctx
    call nargs a =
        if ltb_ℤ (pos a.stack.sp -ℤ nargs -ℤ pos 1) (pos a.frame.bp)
        then error env AError.runtime "no function to call" [] a
        else (do
          fp ← address (pos a.stack.sp -ℤ nargs -ℤ pos 1)
          f ← load fp
          enter nargs f
          load_ctx)
            a

  -- The stack pointer and the frame that `any_try` has kept.
  abbrev pub restore : Actor → M (Unit {0})
  restore a b = Out.ok tt (record b {
    stack = record (b.stack) { sp = a.stack.sp };
    frame = a.frame;
    callers = a.callers;
  })

  -- The end of `any_try` that was entered from `a`, by the status: a throw of AERR_NONE counts as a
  -- return. Of the nil that is pushed the source sets the type alone, and leaves the flag that the
  -- collector reads unset; a nil of the model has no such flag.
  unfoldable pub landed : Actor → AError → M AError
  unfolding push load
  landed a AError.ok = push env Value.nil >> pure AError.ok
  landed a ec = do
    i ← (λ b. address (pos b.stack.sp -ℤ pos 1) b)
    ev ← load i
    restore a
    push env ev
    pure ec

  -- `any_try`: a throw is caught, the stack pointer and the frame are restored, and the error value
  -- is pushed; a nil is pushed after a return.
  unfoldable pub try : M (Unit {0}) → M AError
  unfolding landed
  try f a = elim (f a) [
    | Out.ok _ b ↦ landed a AError.ok b
    | Out.throw ec b ↦ landed a ec b
    | Out.fault ↦ Out.fault
    | Out.no_memory ↦ Out.no_memory
    | Out.out_of_fuel ↦ Out.out_of_fuel
  ]

  -- The end of `any_protected_call`. The number `num_pops` that the source computes is not what it
  -- pops.
  unfoldable pub protected : AError → M (Unit {0})
  unfolding load pop push
  protected AError.ok b = Out.ok tt b
  protected _ b = (do ev ← load (b.stack.sp - 1); pop env (count b); push env ev) b

  -- `any_protected_call`
  unfoldable pub protected_call : (ℕ → M (Unit {0})) → ℤ → M (Unit {0})
  unfolding try call protected
  protected_call run nargs = try (call run nargs) >>= protected
