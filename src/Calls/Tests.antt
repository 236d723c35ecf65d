-- ===== src/Calls/Tests.antt =====
-- A call of a native function with one argument, which becomes the result.
use any_vm.Base.{ℕ, pos, refl, none, [], ◌∷◌, arith}
use any_vm.Errno.{AError}
use any_vm.Operand.{error}
use any_vm.Operand.Checks.{error-Safe}
use any_vm.Value.{Value}
use any_vm.Machine.{Actor, Out}
use any_vm.Safe.{Safe, unfinished, IsActor, Broke}
use any_vm.Calls.{call, try, protected_call}
use any_vm.Calls.Laws.{BodySafe, Returned, call-Returned}
use any_vm.Calls.Catch.{Tried, try-Tried, Protected, protected_call-Protected}
use any_vm.Sample.{env, actor, actor-IsActor, natives_safe}

-- Bodies that do not end.
abbrev endless : ℕ → Actor → Out (Unit {0})
endless p a = Out.out_of_fuel

endless_safe : BodySafe endless
endless_safe p a v e h = unfinished

abbrev start : Actor
start = actor (Value.nil ∷ Value.native_func 3 ∷ Value.integer (pos 5) ∷ []) 1 [] 0

start-IsActor : IsActor start
start-IsActor =
    actor-IsActor (Value.nil ∷ Value.native_func 3 ∷ Value.integer (pos 5) ∷ []) 1 [] 0
      (omega arith) (omega arith) (omega arith) (omega arith)

call-Returned_example :
    Safe (λ _ c. Returned start 1 c) (Broke start) (call env endless (pos 1) start)
call-Returned_example = call-Returned env 1 natives_safe endless_safe start-IsActor

-- `any_try` of a function that raises an error.
try-Tried_example :
    Safe (λ ec c. Tried start ec c) (λ _. ⊥) (try env (error env AError.runtime "no" []) start)
try-Tried_example =
    try-Tried env start-IsActor (error env AError.runtime "no" [])
      (error-Safe env start "no" [] start-IsActor.stack start-IsActor.boxes)

-- The frame of a native function, which has no local variables.
abbrev in_native : Actor
in_native = record start { frame = record { pt = none; ip = 0; bp = 1; nargs = pos 0 } }

in_native-IsActor : IsActor in_native
in_native-IsActor = record {
  stack = start-IsActor.stack;
  base = start-IsActor.base;
  nonneg = refl;
  args = omega arith;
  boxes = record {
    box = start-IsActor.boxes.box;
    peek = start-IsActor.boxes.peek;
    others = start-IsActor.boxes.others;
  };
}

protected_call-Protected_example :
    Safe (λ _ c. Protected in_native 0 c) (λ _. ⊥) (protected_call env endless (pos 0) in_native)
protected_call-Protected_example =
    protected_call-Protected env 0 in_native-IsActor refl natives_safe endless_safe
