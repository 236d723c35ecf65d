-- ===== src/Collector.antt =====
-- The copying collector, src/private/gc.c. A heap is the sequence of its objects, and a heap index
-- the number of an object in it: the bytes of the two spaces are not modelled. `none` is undefined
-- behaviour, such as an index of no object.
pub mod Heap
pub mod Forwarding
pub mod Invariant
pub mod Copy
pub mod Advance
pub mod Storage
pub mod Scan
pub mod Reach
pub mod Collect
pub mod Space
pub mod Room
pub mod After
mod Tests
use any_vm.Base.{
  ℕ, zero, suc, ◌+◌, ◌*◌, leb, ◌==◌, if◌then◌else◌, Option, none, some, List, [], ◌∷◌, ◌++◌, length,
  get_elem?, set, take, drop,
}
use any_vm.Value.{AType, Value}

-- An object behind its header. `bytes` is a string or the storage of a buffer, `slots` the fixed
-- buffer of an array or a table, of which `vec` has the capacity, the size and the storage.
pub data Cell : Type 0 where
  bytes : List ℕ → Cell
  slots : List Value → Cell
  tuple : List Value → Cell
  buffer : (cap sz : ℕ) → Value → Cell
  vec : AType → (cap sz : ℕ) → Value → Cell

-- The collector at work: the objects of the current space with the `forwared` fields of their
-- headers, and those of the new space.
pub record Gc : Type 0 where
  pub old : List Cell
  pub forwarded : ℕ → Option ℕ
  pub new : List Cell

abbrev pub update : (ℕ → Option ℕ) → (i o : ℕ) → ℕ → Option ℕ
update f i o j = if j == i then some o else f j

-- An object goes to the end of the new space.
abbrev pub appended : ℕ → Cell → Gc → Gc
appended i c g = record g {
  forwarded = update g.forwarded i (length g.new);
  new = g.new ++ (c ∷ []);
}

abbrev pub forward : AType → ℕ → Cell → Option ℕ → Gc → Value × Gc
forward t i c (some o) g = (Value.collectable t o, g)
forward t i c none g = (Value.collectable t (length g.new), appended i c g)

-- `copy`: the value that stands in the place of the one given, and the state.
unfoldable pub copy : Value → Gc → Option (Value × Gc)
copy (Value.collectable t i) g = elim (get_elem? g.old i) [
  | none ↦ none
  | some c ↦ some (forward t i c (g.forwarded i) g)
]
copy v g = some (v, g)

-- A loop of `copy` over values that stand side by side.
unfoldable pub copy_all : List Value → Gc → Option (List Value × Gc)
copy_all [] g = some ([], g)
copy_all (v ∷ vs) g = elim (copy v g) [
  | none ↦ none
  | some (v', g') ↦ elim (copy_all vs g') [ none ↦ none | some (vs', h) ↦ some (v' ∷ vs', h) ]
]

-- How many values of its storage an array or a table uses.
abbrev pub used_slots : AType → ℕ → ℕ
used_slots AType.table sz = 2 * sz
used_slots _ sz = sz

abbrev pub put_new : ℕ → Cell → Gc → Gc
put_new k c g = record g { new = set g.new k c }

abbrev pub put_old : ℕ → Cell → Gc → Gc
put_old i c g = record g { old = set g.old i c }

-- `copy_array` and `copy_table`: the values are copied where they stand, in the current space.
unfoldable pub copy_slots : (n : ℕ) → ℕ → Option Cell → Gc → Option Gc
unfolding copy_all
copy_slots n b (some (Cell.slots vs)) g =
    if leb n (length vs)
    then elim (copy_all (take n vs) g) [
      | none ↦ none
      | some (vs', h) ↦ some (put_old b (Cell.slots (vs' ++ drop n vs)) h)
    ]
    else none
copy_slots n b _ g = none

-- The object that stands in the new space with its own reference copied.
unfoldable pub copy_buff : ℕ → (Value → Cell) → Value → Gc → Option Gc
unfolding copy
copy_buff k rebuilt b g = elim (copy b g) [
  | none ↦ none
  | some (b', h) ↦ some (put_new k (rebuilt b') h)
]

-- `scan` of the object number `k` of the new space.
unfoldable pub scan_cell : ℕ → Cell → Gc → Option Gc
unfolding copy_all copy_slots copy_buff
scan_cell k (Cell.bytes bs) g = some g
scan_cell k (Cell.slots vs) g = some g
scan_cell k (Cell.tuple vs) g = elim (copy_all vs g) [
  | none ↦ none
  | some (vs', h) ↦ some (put_new k (Cell.tuple vs') h)
]
scan_cell k (Cell.buffer cap sz b) g = copy_buff k (Cell.buffer cap sz) b g
scan_cell k (Cell.vec t cap sz (Value.collectable u b)) g =
    elim (copy_slots (used_slots t sz) b (get_elem? g.old b) g) [
      | none ↦ none
      | some h ↦ copy_buff k (Cell.vec t cap sz) (Value.collectable u b) h
    ]
scan_cell k (Cell.vec t cap sz _) g = none

-- The loop of `agc_collect` over the new space; it ends where nothing is left to scan.
unfoldable pub scan_all : (fuel k : ℕ) → Gc → Option Gc
unfolding scan_cell
scan_all zero k g = none
scan_all (suc fuel) k g = elim (get_elem? g.new k) [
  | none ↦ some g
  | some c ↦ elim (scan_cell k c g) [ none ↦ none | some h ↦ scan_all fuel (suc k) h ]
]

-- `agc_collect` with the roots in one sequence: their new values, and the new space.
unfoldable pub collect : List Cell → List Value → Option (List Value × Gc)
unfolding copy_all scan_all
collect heap roots =
    elim (copy_all roots (record { old = heap; forwarded = λ i. none; new = [] })) [
      | none ↦ none
      | some (roots', g) ↦ elim (scan_all (suc (length heap)) 0 g) [
        | none ↦ none
        | some h ↦ some (roots', h)
      ]
    ]
