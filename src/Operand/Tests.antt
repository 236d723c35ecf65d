-- ===== src/Operand/Tests.antt =====
-- A local variable is loaded on a full stack, by an allocator that moves the array and by one that does
-- not.
use any_vm.Base.{ℕ, pos, ◌≡◌, refl, true, [], ◌∷◌, replicate}
use any_vm.Value.{Value}
use any_vm.Stack.{reserve}
use any_vm.Machine.{Actor, Out, Env}
use any_vm.Operand.{push_index, valid_address}
use any_vm.Sample.{env, actor}

abbrev crowded : Actor
crowded = actor (replicate 8 (Value.integer (pos 7))) 1 [] 0

abbrev moving : Env
moving = record env { moves = λ n. true }

load_faults : push_index moving 1 crowded ≡ Out.fault
unfolding push_index reserve valid_address any_vm.Base.◌-ℤ◌ any_vm.Growth.grow
load_faults = refl

ends_full : Out (Unit {0}) → ℕ
ends_full (Out.ok _ a) = a.stack.sp
ends_full _ = 0

load_works : ends_full (push_index env 1 crowded) ≡ 9
unfolding push_index reserve valid_address any_vm.Base.◌-ℤ◌ any_vm.Growth.grow ends_full
load_works = refl
