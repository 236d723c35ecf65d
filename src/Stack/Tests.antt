-- ===== src/Stack/Tests.antt =====
-- A stack that grows.
use any_vm.Base.{ℕ, false, ◌≡◌, ◌⊎◌, refl, some, [], ◌∷◌, arith, true}
use any_vm.Errno.{AError}
use any_vm.Value.{Value}
use any_vm.Growth.{grow}
use any_vm.Stack.{Stack, reserve}
use any_vm.Stack.Laws.{IsStack, Reserved, Asked, reserve-Reserved}

abbrev full : Stack
full = record { v = Value.nil ∷ Value.nil ∷ []; sp = 2; cap = 2 }

full-IsStack : IsStack full
full-IsStack = record { storage = refl; used = omega arith; pos = omega arith; small = omega arith }

doubled :
    reserve (λ n. true) full 1
    ≡ some (
      AError.ok,
      record { v = Value.nil ∷ Value.nil ∷ Value.nil ∷ Value.nil ∷ []; sp = 2; cap = 4 },
    )
unfolding reserve grow
doubled = refl

reserve-Reserved_example :
    ((reserve (λ n. true) full 1 ≡ some (AError.full, full))
      × (c : ℕ) × Asked (λ n. true) full 1 c false)
    ⊎ ((t : Stack) × (reserve (λ n. true) full 1 ≡ some (AError.ok, t))
        × Reserved full 1 t
        × ((t ≡ full) ⊎ Asked (λ n. true) full 1 t.cap true))
reserve-Reserved_example = reserve-Reserved (λ n. true) 1 full-IsStack (omega arith)
