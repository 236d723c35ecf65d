-- ===== src/Dispatcher/Tests.antt =====
-- Small programs, run by the interpreter.
use any_vm.Base.{
  ℕ, ℤ, pos, negsuc, ◌+ℤ◌, ◌-ℤ◌, zero, suc, ◌-◌, ◌≡◌, ◌≢◌, refl, true, Option, none, some, [], ◌∷◌,
  arith, get_elem?,
}
use any_vm.Bytecode.{Instr}
use any_vm.Value.{Value}
use any_vm.Stack.{reserve}
use any_vm.Word.{wrap64, min64}
use any_vm.Word.Quotient.{IsQuotient}
use any_vm.Machine.{Actor, Out}
use any_vm.Safe.{IsActor}
use any_vm.Operand.{valid_address}
use any_vm.Calls.Laws.{Keeps}
use any_vm.Dispatcher.{Flow, dispatch, exec}
use any_vm.Dispatcher.Programs.{dispatch-Keeps, all_tame}
use any_vm.Dispatcher.Safety.{exec-Keeps}
use any_vm.Dispatcher.Arithmetic.{TwoIntegers, reduced, arithmetic-result, division-IsQuotient}
use any_vm.Sample.{env, actor, actor-IsActor, natives_safe, waits_safe}

abbrev start : Actor
start = actor (Value.byte_code_func 0 ∷ []) 1 [] 0

start-IsActor : IsActor start
start-IsActor =
    actor-IsActor (Value.byte_code_func 0 ∷ []) 1 [] 0 (omega arith) (omega arith) (omega arith)
      (omega arith)

-- The value on top of the stack after a return.
abbrev top_of : Out (Unit {0}) → Option Value
top_of (Out.ok _ a) = get_elem? a.stack.v (a.stack.sp - 1)
top_of _ = none

call_adds : top_of (dispatch env 20 0 start) ≡ some (Value.integer (pos 42))
unfolding dispatch wrap64 reserve valid_address ◌-ℤ◌ ◌+ℤ◌
call_adds = refl

programs_tame : (p : ℕ) → all_tame (env.proto p).instructions ≡ true
unfolding all_tame
programs_tame zero = refl
programs_tame (suc p) = refl

exec-Keeps_example :
    Keeps start (exec env (env.proto 0) (dispatch env 20) (Instr.pop (pos 1)) start)
exec-Keeps_example =
    exec-Keeps env (env.proto 0) (Instr.pop (pos 1)) natives_safe waits_safe
      (dispatch-Keeps env natives_safe waits_safe (λ n. refl) programs_tame 20) start-IsActor
      (omega arith)

ends : dispatch env 20 0 start ≢ Out.out_of_fuel
unfolding dispatch wrap64 reserve valid_address ◌-ℤ◌ ◌+ℤ◌
ends e = cc e

-- 2 below 7, and 0 below 7.
abbrev seven_two : Actor
seven_two = actor (Value.nil ∷ Value.integer (pos 2) ∷ Value.integer (pos 7) ∷ []) 1 [] 0

seven_two-IsActor : IsActor seven_two
seven_two-IsActor =
    actor-IsActor (Value.nil ∷ Value.integer (pos 2) ∷ Value.integer (pos 7) ∷ []) 1 [] 0
      (omega arith) (omega arith) (omega arith) (omega arith)

seven_two-TwoIntegers : TwoIntegers seven_two (pos 7) (pos 2)
seven_two-TwoIntegers = record { room = omega arith; left = refl; right = refl }

abbrev seven_zero : Actor
seven_zero = actor (Value.nil ∷ Value.integer (pos 0) ∷ Value.integer (pos 7) ∷ []) 1 [] 0

seven_zero-IsActor : IsActor seven_zero
seven_zero-IsActor =
    actor-IsActor (Value.nil ∷ Value.integer (pos 0) ∷ Value.integer (pos 7) ∷ []) 1 [] 0
      (omega arith) (omega arith) (omega arith) (omega arith)

seven_zero-TwoIntegers : TwoIntegers seven_zero (pos 7) (pos 0)
seven_zero-TwoIntegers = record { room = omega arith; left = refl; right = refl }

arithmetic-result_example :
    exec env (env.proto 0) (dispatch env 20) Instr.sub seven_two
    ≡ Out.ok Flow.next (reduced seven_two (Value.integer (wrap64 (pos 7 -ℤ pos 2))))
arithmetic-result_example =
    arithmetic-result env seven_two-IsActor seven_two-TwoIntegers (env.proto 0) (dispatch env 20)
      Instr.sub (Value.integer (wrap64 (pos 7 -ℤ pos 2))) refl

division-IsQuotient_example :
    (q : ℤ) × (exec env (env.proto 0) (dispatch env 20) Instr.div seven_two
      ≡ Out.ok Flow.next (reduced seven_two (Value.integer q)))
    × IsQuotient (pos 7) (pos 2) q
division-IsQuotient_example =
    division-IsQuotient env seven_two-IsActor seven_two-TwoIntegers (env.proto 0) (dispatch env 20)
      (λ e. cc e) refl

abbrev smallest : Actor
smallest = actor (Value.nil ∷ Value.integer (negsuc 0) ∷ Value.integer min64 ∷ []) 1 [] 0

smallest-IsActor : IsActor smallest
smallest-IsActor =
    actor-IsActor (Value.nil ∷ Value.integer (negsuc 0) ∷ Value.integer min64 ∷ []) 1 [] 0
      (omega arith) (omega arith) (omega arith) (omega arith)

smallest-TwoIntegers : TwoIntegers smallest min64 (negsuc 0)
smallest-TwoIntegers = record { room = omega arith; left = refl; right = refl }
