-- ===== src/StdTuple/Tests.antt =====
-- A new tuple, and one with two elements.
use any_vm.Base.{ℕ, pos, negsuc, ◌≡◌, ◌⊎◌, refl, [], ◌∷◌, arith, replicate, true, false, ◌*◌, ◌+◌}
use any_vm.Errno.{AError}
use any_vm.Value.{AType, Value, Obj}
use any_vm.Machine.{Actor}
use any_vm.Operand.{push, error}
use any_vm.Sample.{env, native_call, native_call-IsActor}
use any_vm.StdTuple.{lnew}
use any_vm.StdTuple.Elements.{with_new, lnew-cases}

abbrev creating : Actor
creating = native_call (Value.integer (pos 3) ∷ []) []

lnew-cases_example :
    ((n : ℕ) × (pos 3 ≡ pos n)
      × (env.heap_ok creating.heap (8 + n * 16) ≡ true)
      × (lnew env creating
          ≡ push env
              (Value.collectable AType.tuple 0)
              (with_new creating (Obj.tuple (replicate n Value.nil)))))
    ⊎ ((n : ℕ) × (pos 3 ≡ pos n)
        × (env.heap_ok creating.heap (8 + n * 16) ≡ false)
        × (lnew env creating ≡ error env AError.runtime "out of memory" [] creating))
    ⊎ ((n : ℕ) × (pos 3 ≡ negsuc n)
        × (lnew env creating ≡ error env AError.runtime "bad size %lld" (pos 3 ∷ []) creating))
lnew-cases_example =
    lnew-cases env (native_call-IsActor (Value.integer (pos 3) ∷ []) [] (omega arith)) (pos 3)
      (record { within = omega arith; value = refl }) (omega arith)
