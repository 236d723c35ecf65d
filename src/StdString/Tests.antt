-- ===== src/StdString/Tests.antt =====
-- The strings "ab" and "c" one after the other.
use any_vm.Base.{negsuc, ◌+◌, ◌≡◌, ◌⊎◌, refl, false, List, [], ◌∷◌, ◌++◌, arith}
use any_vm.Errno.{AError}
use any_vm.Value.{AType, Value, Obj}
use any_vm.Machine.{Actor}
use any_vm.Operand.{string_bytes, push, error}
use any_vm.Sample.{env, native_call, native_call-IsActor}
use any_vm.StdString.{char_value, lconcat}
use any_vm.StdString.Elements.{lconcat-cases}

abbrev arguments : List Value
arguments = Value.collectable AType.string 1 ∷ Value.collectable AType.string 0 ∷ []

abbrev joining : Actor
joining = native_call arguments (Obj.string (97 ∷ 98 ∷ []) ∷ Obj.string (99 ∷ []) ∷ [])

lconcat-cases_example :
    (lconcat env joining
      ≡ push env
          (Value.collectable AType.string 2)
          (record joining { heap = joining.heap ++ (Obj.string (97 ∷ 98 ∷ 99 ∷ []) ∷ []) }))
    ⊎ (env.heap_ok joining.heap (string_bytes + 2 + 1 + 1) ≡ false)
      × (lconcat env joining ≡ error env AError.runtime "out of memory" [] joining)
lconcat-cases_example =
    lconcat-cases env (native_call-IsActor arguments _ (omega arith)) (97 ∷ 98 ∷ []) (99 ∷ [])
      (record { at_index = 0; arg = record { within = omega arith; value = refl }; here = refl })
      (record { at_index = 1; arg = record { within = omega arith; value = refl }; here = refl })

last_char : char_value 255 ≡ negsuc 0
last_char = refl
