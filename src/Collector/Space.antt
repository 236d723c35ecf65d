-- ===== src/Collector/Space.antt =====
-- The room in the two spaces of the collector: `agc_init`, `agc_check`, `agc_alloc` and `agc_reserve`
-- of src/private/gc.c and src/inc/any/gc.h. Sizes are in bytes; the
-- sum in a check is of an `aint_t`, and right below 2 ^ 63 only.
use any_vm.Base.{
  ℕ, ◌+◌, ◌*◌, ◌/◌, ◌%◌, ◌≤◌, ◌≡◌, Bool, leb, if◌then◌else◌, Option, none, some, List, [], ◌∷◌, ◌^◌,
  ◌<◌,
}
use any_vm.Errno.{AError}
use any_vm.Growth.{grow}

-- How much of a space is used, and how large both are.
pub record Space : Type 0 where
  pub heap_cap : ℕ
  pub heap_sz : ℕ

-- `sizeof(agc_header_t)`
abbrev pub header_bytes : ℕ
header_bytes = 24

-- `AALIGN_FORWARD(v, 8)`
abbrev pub align8 : ℕ → ℕ
align8 v = (v + 7) / 8 * 8

-- The allocator says whether it has the bytes for both spaces.
abbrev pub agc_init : (ℕ → Bool) → ℕ → AError × Option Space
agc_init room cap =
    if room (cap * 2)
    then (AError.ok, some (record { heap_cap = cap; heap_sz = 0 }))
    else (AError.full, none)

abbrev pub agc_check : Space → (sz n : ℕ) → Bool
agc_check s sz n = leb (s.heap_sz + (sz + n * header_bytes)) s.heap_cap

-- The heap index of the new object; `none` where the assertion fails.
unfoldable pub agc_alloc : Space → (sz : ℕ) → Option (ℕ × Space)
agc_alloc s sz =
    let used = s.heap_sz + align8 (sz + header_bytes) in
    if leb used s.heap_cap then some (s.heap_sz, record s { heap_sz = used }) else none

-- `none` is a loop without end, or a size that overflows.
unfoldable pub agc_reserve : (ℕ → Bool) → Space → (more n : ℕ) → Option (AError × Space)
agc_reserve room s more n =
    let need = s.heap_sz + (more + n * header_bytes) in
    elim (grow need s.heap_cap need) [
      | none ↦ none
      | some cap ↦
          (if leb (2 ^ 62) cap
            then none
            else if room (cap * 2)
            then some (AError.ok, record s { heap_cap = cap })
            else some (AError.full, s))
    ]

-- `aactor_heap_reserve`, of src/private/actor.c. How many bytes a collection leaves in use is given.
unfoldable pub aactor_heap_reserve :
    (ℕ → Bool) → (live : ℕ) → Space → (more n : ℕ) → Option (AError × Space)
unfolding agc_reserve
aactor_heap_reserve room live s more n =
    let collected = record s { heap_sz = live } in
    if agc_check s more n
    then some (AError.ok, s)
    else if agc_check collected more n
    then some (AError.ok, collected)
    else agc_reserve room collected more n

-- One allocation after the other.
unfoldable pub alloc_all : Space → List ℕ → Option Space
unfolding agc_alloc
alloc_all s [] = some s
alloc_all s (sz ∷ rest) = elim (agc_alloc s sz) [ none ↦ none | some (_, t) ↦ alloc_all t rest ]

unfoldable pub total : List ℕ → ℕ
total [] = 0
total (sz ∷ rest) = sz + total rest

-- Every size but the last is a multiple of 8.
abbrev pub EvenBefore : List ℕ → Type 0
EvenBefore [] = Unit
EvenBefore (sz ∷ []) = Unit
EvenBefore (sz ∷ rest) = (sz % 8 ≡ 0) × EvenBefore rest

pub record IsSpace (s : Space) : Type 0 where
  pub cap_even : s.heap_cap % 8 ≡ 0
  pub sz_even : s.heap_sz % 8 ≡ 0
  pub fits : s.heap_sz ≤ s.heap_cap
  pub small : s.heap_cap < 2 ^ 62
