-- ===== src/Collector/Heap.antt =====
-- Well-formed heaps, and what it means that a heap is a copy of another one.
use any_vm.Base.{
  ℕ, zero, suc, ◌+◌, ◌≤◌, ◌<◌, ◌≡◌, Option, none, some, List, [], ◌∷◌, length, get_elem?, take,
}
use any_vm.Value.{AType, Value}
use any_vm.Collector.{Cell, used_slots}

-- The objects of a heap, and which of them count as live.
pub record Marked : Type 1 where
  pub cells : List Cell
  pub Live : ℕ → Type 0

-- Every object but the fixed buffer of an array or a table, which only its owner may name.
abbrev pub NotSlots : Cell → Type 0
NotSlots (Cell.slots vs) = ⊥
NotSlots _ = Unit

-- A value that the program may hold: if it names an object, the object is there.
abbrev pub Plain : Marked → Value → Type 0
Plain heap (Value.collectable t i) =
    (c : Cell) × (get_elem? heap.cells i ≡ some c) × NotSlots c × heap.Live i
Plain heap _ = Unit

abbrev pub AllPlain : Marked → List Value → Type 0
AllPlain heap [] = Unit
AllPlain heap (v ∷ vs) = Plain heap v × AllPlain heap vs

-- A valid object of a heap.
pub data Valid (heap : Marked) : Cell → Type 0 where
  bytes : {bs : List ℕ} → Valid heap (Cell.bytes bs)
  slots : {vs : List Value} → Valid heap (Cell.slots vs)
  tuple : {vs : List Value} → AllPlain heap vs → Valid heap (Cell.tuple vs)
  buffer : {cap sz : ℕ} {b : Value} → Plain heap b → Valid heap (Cell.buffer cap sz b)
  vec :
      {t u : AType} {cap sz b : ℕ} {vs : List Value}
      → get_elem? heap.cells b ≡ some (Cell.slots vs)
      → heap.Live b
      → used_slots t sz ≤ length vs
      → AllPlain heap (take (used_slots t sz) vs)
      → Valid heap (Cell.vec t cap sz (Value.collectable u b))

-- The object `i` owns the fixed buffer `b`.
pub record Owns (heap : Marked) (i b : ℕ) : Type 0 where
  pub type : AType
  pub cap : ℕ
  pub sz : ℕ
  pub of : AType
  pub live : heap.Live i
  pub found : get_elem? heap.cells i ≡ some (Cell.vec type cap sz (Value.collectable of b))

pub record IsHeap (heap : Marked) : Type 0 where
  pub valid : (i : ℕ) (c : Cell) → heap.Live i → get_elem? heap.cells i ≡ some c → Valid heap c
  pub owner : (i j b : ℕ) → Owns heap i b → Owns heap j b → i ≡ j

-- `v'` is the value `v` after its object has moved.
abbrev pub Relocated : (ℕ → Option ℕ) → Value → Value → Type 0
Relocated f (Value.collectable t i) v' = (o : ℕ) × (f i ≡ some o) × (v' ≡ Value.collectable t o)
Relocated f v v' = v' ≡ v

abbrev pub AllRelocated : (ℕ → Option ℕ) → List Value → List Value → Type 0
AllRelocated f [] [] = Unit
AllRelocated f [] (_ ∷ _) = ⊥
AllRelocated f (_ ∷ _) [] = ⊥
AllRelocated f (v ∷ vs) (w ∷ ws) = Relocated f v w × AllRelocated f vs ws

-- The object number `o` of the new space is the object `c` of the heap with its references moved. Of
-- a fixed buffer that is asked where its owner is.
pub data Image (heap : Marked) (f : ℕ → Option ℕ) (new : List Cell) (o : ℕ) : Cell → Type 0 where
  bytes :
      {bs : List ℕ} → get_elem? new o ≡ some (Cell.bytes bs) → Image heap f new o (Cell.bytes bs)
  slots :
      {vs ws : List Value}
      → get_elem? new o ≡ some (Cell.slots ws)
      → Image heap f new o (Cell.slots vs)
  tuple :
      {vs ws : List Value}
      → get_elem? new o ≡ some (Cell.tuple ws)
      → AllRelocated f vs ws
      → Image heap f new o (Cell.tuple vs)
  buffer :
      {cap sz : ℕ} {b b' : Value}
      → get_elem? new o ≡ some (Cell.buffer cap sz b')
      → Relocated f b b'
      → Image heap f new o (Cell.buffer cap sz b)
  vec :
      {t u : AType} {cap sz b b' : ℕ} {vs ws : List Value}
      → get_elem? new o ≡ some (Cell.vec t cap sz (Value.collectable u b'))
      → f b ≡ some b'
      → get_elem? heap.cells b ≡ some (Cell.slots vs)
      → get_elem? new b' ≡ some (Cell.slots ws)
      → AllRelocated f (take (used_slots t sz) vs) (take (used_slots t sz) ws)
      → Image heap f new o (Cell.vec t cap sz (Value.collectable u b))

-- How many of the first `n` objects have not been copied.
abbrev one_if_none : Option ℕ → ℕ
one_if_none none = 1
one_if_none (some o) = 0

unfoldable pub uncopied : (ℕ → Option ℕ) → ℕ → ℕ
uncopied f zero = 0
uncopied f (suc n) = one_if_none (f n) + uncopied f n

-- What holds of the forwarding addresses at any time.
pub record Forwards (heap : Marked) (f : ℕ → Option ℕ) (new : List Cell) : Type 0 where
  pub inside : (i o : ℕ) → f i ≡ some o → i < length heap.cells
  pub live : (i o : ℕ) → f i ≡ some o → heap.Live i
  pub bound : (i o : ℕ) → f i ≡ some o → o < length new
  pub source : (o : ℕ) → o < length new → (i : ℕ) × (f i ≡ some o)
  pub injective : (i j o : ℕ) → f i ≡ some o → f j ≡ some o → i ≡ j
  pub count : uncopied f (length heap.cells) + length new ≡ length heap.cells
