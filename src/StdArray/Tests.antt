-- ===== src/StdArray/Tests.antt =====
-- An array with two elements and room for four, and one that is full.
use any_vm.Base.{ℕ, pos, ◌<◌, ◌≡◌, ◌⊎◌, ◌++◌, refl, [], ◌∷◌, arith, set, true, false}
use any_vm.Errno.{AError}
use any_vm.Value.{AType, Value, Vec, Obj}
use any_vm.Machine.{Actor}
use any_vm.Operand.{push, error}
use any_vm.Safe.{IsActor}
use any_vm.Sample.{env, native_call, native_call-IsActor}
use any_vm.Growable.{with_object}
use any_vm.Growable.Args.{Arg, Outside}
use any_vm.Growable.Laws.{IsVec, contents, Holds}
use any_vm.StdArray.{array_kind, lset, lpush}
use any_vm.Operand.Laws.{Unmoved}
use any_vm.StdArray.Sizes.{Answered}
use any_vm.StdArray.Elements.{lset-cases, lpush-cases}

abbrev seven : Value
seven = Value.integer (pos 7)

abbrev eight : Value
eight = Value.integer (pos 8)

abbrev roomy : Vec Value
roomy = record { cap = 4; sz = 2; slots = seven ∷ eight ∷ Value.nil ∷ Value.nil ∷ [] }

roomy-IsVec : IsVec roomy
roomy-IsVec = record { used = omega arith; storage = refl }

abbrev self : Value
self = Value.collectable AType.array 0

-- A call with an index, or with a value and an index.
abbrev reading : Actor
reading = native_call (Value.integer (pos 1) ∷ self ∷ []) (Obj.array roomy ∷ [])

reading-IsActor : IsActor reading
reading-IsActor =
    native_call-IsActor (Value.integer (pos 1) ∷ self ∷ []) (Obj.array roomy ∷ []) (omega arith)

abbrev writing : Actor
writing = native_call (Value.nil ∷ Value.integer (pos 1) ∷ self ∷ []) (Obj.array roomy ∷ [])

writing-IsActor : IsActor writing
writing-IsActor =
    native_call-IsActor (Value.nil ∷ Value.integer (pos 1) ∷ self ∷ []) (Obj.array roomy ∷ [])
      (omega arith)

reading-Holds : Holds array_kind reading 0 0 roomy
reading-Holds = record { arg = record { within = omega arith; value = refl }; here = refl }

index_given : Arg reading 1 (Value.integer (pos 1))
index_given = record { within = omega arith; value = refl }

lset-cases_example :
    ((j : ℕ) × (w : Vec Value) × (pos 1 ≡ pos j)
      × (j < 2)
      × IsVec w
      × (w.cap ≡ 4)
      × (contents w ≡ set (contents roomy) j Value.nil)
      × (lset env writing ≡ push env Value.nil (with_object writing 0 (Obj.array w))))
    ⊎ Outside 2 (pos 1)
      × (lset env writing ≡ error env AError.runtime "bad index %lld" (pos 1 ∷ []) writing)
lset-cases_example =
    lset-cases env writing-IsActor
      (record { arg = record { within = omega arith; value = refl }; here = refl }) roomy-IsVec
      (pos 1) Value.nil (record { within = omega arith; value = refl })
      (record { within = omega arith; value = refl }) (Unmoved.room (omega arith))

abbrev second : Value
second = Value.integer (pos 1)

lpush-cases_example :
    ((2 < 4)
      × (w : Vec Value) × (contents w ≡ contents roomy)
      × (lpush env reading
          ≡ push env (Value.integer (pos 3)) (with_object reading 0 (Obj.array w))))
    ⊎ ((roomy.sz ≡ 4)
        × Answered env reading roomy 3 false
        × (lpush env reading ≡ error env AError.runtime "out of memory" [] reading))
    ⊎ ((roomy.sz ≡ 4)
        × Answered env reading roomy 3 true
        × (w : Vec Value) × IsVec w
        × (contents w ≡ contents roomy ++ (second ∷ []))
        × (lpush env reading
            ≡ push env (Value.integer (pos 3)) (with_object reading 0 (Obj.array w))))
lpush-cases_example =
    lpush-cases env reading-IsActor reading-Holds roomy-IsVec second index_given (omega arith)
