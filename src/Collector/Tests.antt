-- ===== src/Collector/Tests.antt =====
-- A heap with a cycle and an object that nothing names.
use any_vm.Base.{
  ℕ, zero, suc, ◌≤◌, ◌≡◌, true, refl, sym, ◌∙◌, Option, none, some, some_inj, subst, pos, List, [],
  ◌∷◌, arith, length, get_elem?,
}
use any_vm.Value.{AType, Value}
use any_vm.Collector.{Cell, Gc, collect}
use any_vm.Collector.Heap.{AllPlain, Valid, Owns, IsHeap}
use any_vm.Collector.Reach.{everything}
use any_vm.Collector.Collect.{Collected, collect-Collected}
use any_vm.Collector.Space.{Space, aactor_heap_reserve, total, IsSpace}
use any_vm.Collector.Room.{Reserved, aactor_heap_reserve-Reserved}
use any_vm.Collector.After.{collect-IsHeap}

abbrev cycle : List Cell
cycle =
    Cell.bytes (100 ∷ [])
    ∷ Cell.tuple (
        Value.collectable AType.string 2
        ∷ Value.collectable AType.array 3
        ∷ Value.integer (pos 5)
        ∷ [])
    ∷ Cell.bytes (104 ∷ 105 ∷ [])
    ∷ Cell.vec AType.array 2 1 (Value.collectable AType.fixed_buffer 4)
    ∷ Cell.slots (Value.collectable AType.tuple 1 ∷ Value.nil ∷ [])
    ∷ []

abbrev stack : List Value
stack = Value.nil ∷ Value.collectable AType.tuple 1 ∷ []

abbrev Each : (Cell → Type 0) → List Cell → Type 0
Each P [] = Unit
Each P (c ∷ cs) = P c × Each P cs

Each-at :
    (P : Cell → Type 0) (cs : List Cell)
    → Each P cs
    → (i : ℕ) (c : Cell) → get_elem? cs i ≡ some c
    → P c
Each-at P [] all i c e = absurd (cc e)
Each-at P (d ∷ cs) (p, all) zero c e = subst P (some_inj e) p
Each-at P (d ∷ cs) (p, all) (suc i) c e = Each-at P cs all i c e

stack-AllPlain : AllPlain (everything cycle) stack
stack-AllPlain = (tt, ((_, refl, tt, tt), tt))

cycle-Valid : Each (Valid (everything cycle)) cycle
cycle-Valid =
    let named : AllPlain (everything cycle) (
        Value.collectable AType.string 2
        ∷ Value.collectable AType.array 3
        ∷ Value.integer (pos 5)
        ∷ []) =
      ((_, refl, tt, tt), ((_, refl, tt, tt), (tt, tt))) in
    let owner = Valid.vec {sz = 1} {b = 4} refl tt (omega arith) ((_, refl, tt, tt), tt) in
    (Valid.bytes, (Valid.tuple named, (Valid.bytes, (owner, (Valid.slots, tt)))))

only_owner : (i b : ℕ) → Owns (everything cycle) i b → i ≡ 3
only_owner zero b own = absurd (cc own.found)
only_owner (suc zero) b own = absurd (cc own.found)
only_owner (suc (suc zero)) b own = absurd (cc own.found)
only_owner (suc (suc (suc zero))) b own = refl
only_owner (suc (suc (suc (suc zero)))) b own = absurd (cc own.found)
only_owner (suc (suc (suc (suc (suc i))))) b own = absurd (cc own.found)

cycle-IsHeap : IsHeap (everything cycle)
cycle-IsHeap = record {
  valid = λ i c live e. Each-at (Valid (everything cycle)) cycle cycle-Valid i c e;
  owner = λ i j b own own'. only_owner i b own ∙ sym (only_owner j b own');
}

collect-Collected_example :
    (roots' : List Value) × (g : Gc) × (collect cycle stack ≡ some (roots', g))
    × Collected cycle stack roots' g
collect-Collected_example = collect-Collected cycle stack cycle-IsHeap stack-AllPlain

collect-IsHeap_example :
    (roots' : List Value) × (g : Gc) × (collect cycle stack ≡ some (roots', g))
    × (length g.new ≤ length cycle)
    × IsHeap (everything g.new)
    × AllPlain (everything g.new) roots'
collect-IsHeap_example = collect-IsHeap cycle stack cycle-IsHeap stack-AllPlain

new_space : Option (List Value × Gc) → List Cell
new_space none = []
new_space (some (_, g)) = g.new

collect-cycle :
    new_space (collect cycle stack)
    ≡ Cell.tuple (
        Value.collectable AType.string 1
        ∷ Value.collectable AType.array 2
        ∷ Value.integer (pos 5)
        ∷ [])
      ∷ Cell.bytes (104 ∷ 105 ∷ [])
      ∷ Cell.vec AType.array 2 1 (Value.collectable AType.fixed_buffer 3)
      ∷ Cell.slots (Value.collectable AType.tuple 0 ∷ Value.nil ∷ [])
      ∷ []
unfolding collect new_space
collect-cycle = refl

-- A space that two objects do not fit in, and one more that has no room for another one.
abbrev small : Space
small = record { heap_cap = 64; heap_sz = 32 }

small-IsSpace : IsSpace small
small-IsSpace = record { cap_even = refl; sz_even = refl; fits = omega arith; small = omega arith }

aactor_heap_reserve-Reserved_example :
    Reserved (λ n. true) small (32 ∷ 13 ∷ []) (aactor_heap_reserve (λ n. true) 24 small 45 2)
unfolding total
aactor_heap_reserve-Reserved_example =
    aactor_heap_reserve-Reserved (λ n. true) 24 small (32 ∷ 13 ∷ []) small-IsSpace (omega arith)
      (refl, tt) (omega arith) refl (omega arith)
