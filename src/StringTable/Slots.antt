-- ===== src/StringTable/Slots.antt =====
-- The slots of a hash table with linear probing.
use native.Mathlib.Nat.{mod-eq_of_lt, mod_self}
use any_vm.Base.{
  ℕ, zero, suc, ◌+◌, ◌-◌, ◌%◌, ◌<◌, ◌≡◌, ◌≢◌, refl, sym, ◌∙◌, ap, ◌⊎◌, inl, inr, Bool-cases, leb,
  if◌then◌else◌, some, some_inj, List, [], ◌∷◌, arith, get_elem?, get_elem?-set_ne, set,
}
use any_vm.StringTable.{following}

unfoldable pub free_slots : List ℕ → ℕ
free_slots [] = 0
free_slots (zero ∷ slots) = 1 + free_slots slots
free_slots (suc ref ∷ slots) = free_slots slots

pub free_slots-found :
    (slots : List ℕ) → 0 < free_slots slots → (i : ℕ) × (get_elem? slots i ≡ some 0)
unfolding free_slots
free_slots-found [] h = elim h [ ]
free_slots-found (zero ∷ slots) h = (zero, refl)
free_slots-found (suc ref ∷ slots) h = let (i, e) = free_slots-found slots h in (suc i, e)

pub free_slots-set :
    (slots : List ℕ) (i ref : ℕ)
    → get_elem? slots i ≡ some 0
    → 0 < ref
    → free_slots (set slots i ref) + 1 ≡ free_slots slots
unfolding free_slots
free_slots-set [] i ref e h = absurd (cc e)
free_slots-set (zero ∷ slots) zero (suc ref) e h = omega arith
free_slots-set (zero ∷ slots) zero zero e h = absurd (omega (arith, h))
free_slots-set (suc s ∷ slots) zero ref e h = absurd (omega (arith, some_inj e))
free_slots-set (zero ∷ slots) (suc i) ref e h = omega (arith, free_slots-set slots i ref e h)
free_slots-set (suc s ∷ slots) (suc i) ref e h = omega (arith, free_slots-set slots i ref e h)

-- How many steps lead from slot `i` to slot `j`, around the end.
abbrev pub distance : (n i j : ℕ) → ℕ
distance n i j = if leb i j then j - i else n - i + j

pub following-cases :
    (n i : ℕ)
    → i < n
    → ((i + 1 < n) × (following i n ≡ i + 1)) ⊎ ((i + 1 ≡ n) × (following i n ≡ 0))
following-cases n i h = elim (Bool-cases (leb n (i + 1))) [
  | inl last ↦ (let e : i + 1 ≡ n = ground arith in inr (e, ap (◌% n) e ∙ mod_self n))
  | inr before ↦ inl (ground arith, mod-eq_of_lt (ground arith))
]

pub distance-following :
    (n i j : ℕ)
    → i < n
    → j < n
    → i ≢ j
    → (following i n < n) × (distance n (following i n) j + 1 ≡ distance n i j)
distance-following n i j h h' apart = elim (following-cases n i h) [
  | inl (lt, e) ↦ rw e (lt, ground arith)
  | inr (last, e) ↦ rw e (omega (arith, last), ground (arith, last))
]

-- No slot from `i` up to `j` is free, `j` itself not asked.
pub data Chain (n : ℕ) (slots : List ℕ) (j : ℕ) : ℕ → Type 0 where
  here : Chain n slots j j
  step :
      {i ref : ℕ}
      → get_elem? slots i ≡ some ref
      → 0 < ref
      → Chain n slots j (following i n)
      → Chain n slots j i

-- A free slot that is taken breaks no chain.
pub Chain-set :
    {n : ℕ} {slots : List ℕ} {j i : ℕ} (k ref : ℕ)
    → get_elem? slots k ≡ some 0
    → Chain n slots j i
    → Chain n (set slots k ref) j i
Chain-set k ref e Chain.here = Chain.here
Chain-set {slots = slots} k ref e (Chain.step {i = i} {ref = r} e' h rest) =
    Chain.step
      (get_elem?-set_ne slots ref (λ same.
          absurd (omega (arith, h, some_inj (sym e' ∙ ap (get_elem? slots) (sym same) ∙ e))))
        ∙ e')
      h (Chain-set k ref e rest)
