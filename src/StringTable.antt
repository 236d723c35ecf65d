-- ===== src/StringTable.antt =====
-- The string table of the assembler, src/private/string_table.c: a hash table with linear probing
-- over the stored strings. A stored string is its hash, its text and a NUL; the table has the
-- strings in order, each with its place, instead of their bytes. `none` is undefined behaviour, a
-- failed assertion or a search without end.
pub mod Slots
pub mod Search
pub mod Entries
pub mod Interning
pub mod Fresh
pub mod Filling
pub mod Rebuild
mod Tests
use any_vm.Base.{
  ℕ, zero, suc, ◌+◌, ◌*◌, ◌%◌, ◌^◌, ltb, leb, ◌==◌, Bool, true, false, if◌then◌else◌, Option, none,
  some, List, [], ◌∷◌, ◌++◌, length, get_elem?, set, drop,
}
use any_vm.Text.{hash_and_length, same_bytes}

pub record Entry : Type 0 where
  pub ref : ℕ
  pub hash : ℕ
  pub text : List ℕ

-- `astring_table_t` with what stands behind it. A slot holds the place of a string, or 0 if it is
-- free; there are `num_hash_slots` of them.
pub record Table : Type 0 where
  pub allocated_bytes : ℕ
  pub count : ℕ
  pub string_bytes : ℕ
  pub slots : List ℕ
  pub entries : List Entry

-- `sizeof(astring_table_t)`, `sizeof(hash_slot_t)`, `sizeof(uint32_t)` and `HASH_FACTOR`.
abbrev pub table_bytes : ℕ
table_bytes = 32

abbrev pub slot_bytes : ℕ
slot_bytes = 8

abbrev pub hash_bytes : ℕ
hash_bytes = 4

abbrev pub hash_factor : ℕ
hash_factor = 2

-- `ANY_ST_MIN_SIZE`
abbrev pub min_size : ℕ
min_size = table_bytes + slot_bytes + hash_bytes + 1

abbrev pub hash_of : List ℕ → ℕ
hash_of s = (hash_and_length s).0

-- `astring_table_to_string` and `astring_table_to_hash`
unfoldable pub entry_at : List Entry → (ref : ℕ) → Option Entry
entry_at [] ref = none
entry_at (e ∷ es) ref = if e.ref == ref then some e else entry_at es ref

unfoldable pub to_string : Table → (ref : ℕ) → Option (List ℕ)
unfolding entry_at
to_string t ref = elim (entry_at t.entries ref) [ none ↦ none | some e ↦ some e.text ]

unfoldable pub to_hash : Table → (ref : ℕ) → Option ℕ
unfolding entry_at
to_hash t ref = elim (entry_at t.entries ref) [ none ↦ none | some e ↦ some e.hash ]

abbrev pub following : (i n : ℕ) → ℕ
following i n = (i + 1) % n

-- How a search ends: at a string, or at a free slot.
pub data Found : Type 0 where
  hit : (ref : ℕ) → Found
  free : (slot : ℕ) → Found

-- The loop over the slots from `i` on.
unfoldable pub probe : (fuel : ℕ) → Table → List ℕ → (i : ℕ) → Option Found
unfolding to_string
probe zero t s i = none
probe (suc fuel) t s i =
    let rest = probe fuel t s (following i (length t.slots)) in
    elim (get_elem? t.slots i) [
      | none ↦ none
      | some ref ↦ if ref == 0 then some (Found.free i) else elim (to_string t ref) [
        | none ↦ none
        | some u ↦ if same_bytes s u then some (Found.hit ref) else rest
      ]
    ]

abbrev pub search : Table → List ℕ → Option Found
search t s = probe (length t.slots) t s (hash_of s % length t.slots)

abbrev pub add_string : Table → (s : List ℕ) → (slot : ℕ) → Table
add_string t s slot = record {
  allocated_bytes = t.allocated_bytes;
  count = t.count + 1;
  string_bytes = t.string_bytes + (hash_bytes + length s + 1);
  slots = set t.slots slot t.string_bytes;
  entries = t.entries ++ (record { ref = t.string_bytes; hash = hash_of s; text = s } ∷ []);
}

-- Too many strings for the slots, or too many bytes. The test on the ratio of the slots to the
-- strings is on numbers that a `float` holds exactly.
abbrev pub full : Table → (s : List ℕ) → Bool
full t s =
    if leb (length t.slots) (t.count + 1)
    then true
    else if ltb (length t.slots) (hash_factor * (t.count + 1))
    then true
    else ltb t.allocated_bytes
        (t.string_bytes + (hash_bytes + length s + 1) + (table_bytes + length t.slots * slot_bytes))

-- `astring_table_to_ref`: an inner `none` is `AERR_FULL`.
unfoldable pub to_ref : Table → List ℕ → Option (Option ℕ × Table)
unfolding probe
to_ref t [] = some (some 0, t)
to_ref t (c ∷ s) = elim (search t (c ∷ s)) [
  | none ↦ none
  | some (Found.hit ref) ↦ some (some ref, t)
  | some (Found.free i) ↦
      if full t (c ∷ s) then some (none, t) else some (some t.string_bytes, add_string t (c ∷ s) i)
]

-- `astring_table_to_ref_const`
unfoldable pub to_ref_const : Table → List ℕ → Option (Option ℕ)
unfolding probe
to_ref_const t [] = some (some 0)
to_ref_const t (c ∷ s) = elim (search t (c ∷ s)) [
  | none ↦ none
  | some (Found.hit ref) ↦ some (some ref)
  | some (Found.free i) ↦ some none
]

unfoldable pub zeros : ℕ → List ℕ
zeros zero = []
zeros (suc n) = 0 ∷ zeros n

abbrev pub empty_string : Entry
empty_string = record { ref = 0; hash = hash_of []; text = [] }

abbrev pub max : ℕ → ℕ → ℕ
max a b = if ltb b a then a else b

-- `astring_table_init`. The number of slots that the sizes ask for, which the code computes with
-- `float`s, is given.
abbrev pub init : (wanted bytes : ℕ) → Option Table
init wanted bytes =
    if leb min_size bytes
    then some (record {
      allocated_bytes = bytes;
      count = 0;
      string_bytes = hash_bytes + 1;
      slots = zeros (max wanted 1);
      entries = empty_string ∷ [];
    })
    else none

-- The inner loop of `rebuild_hash_table`: the first free slot from `i` on.
unfoldable pub free_from : (fuel : ℕ) → List ℕ → (i : ℕ) → Option ℕ
free_from zero slots i = none
free_from (suc fuel) slots i =
    let rest = free_from fuel slots (following i (length slots)) in
    elim (get_elem? slots i) [ none ↦ none | some ref ↦ if ref == 0 then some i else rest ]

unfoldable pub insert_all : List Entry → List ℕ → Option (List ℕ)
unfolding free_from
insert_all [] slots = some slots
insert_all (e ∷ es) slots = elim (free_from (length slots) slots (hash_of e.text % length slots)) [
  | none ↦ none
  | some i ↦ insert_all es (set slots i (e.ref % 2 ^ 32))
]

-- `rebuild_hash_table`, which begins behind the empty string.
unfoldable pub rebuild : (num_hash_slots : ℕ) → Table → Option Table
unfolding insert_all zeros
rebuild n t = elim (insert_all (drop 1 t.entries) (zeros n)) [
  | none ↦ none
  | some slots ↦ some (record t { slots = slots })
]

-- `astring_table_grow`, with `recompute_num_hash_slots`.
unfoldable pub grow : (wanted : ℕ) → Table → (bytes : ℕ) → Option Table
unfolding rebuild
grow wanted t bytes =
    if leb t.allocated_bytes bytes
    then rebuild (max wanted (length t.slots)) (record t { allocated_bytes = bytes })
    else none

-- `astring_table_pack`
unfoldable pub pack : Table → Option Table
unfolding rebuild
pack t =
    let n = t.count * hash_factor in
    let n' = if ltb n 1 then 1 else n in
    let slots = if ltb n' (t.count + 1) then t.count + 1 else n' in
    elim (rebuild slots t) [
      | none ↦ none
      | some u ↦
          some (record u { allocated_bytes = table_bytes + slots * slot_bytes + u.string_bytes })
    ]
