-- ===== src/StringTable/Filling.antt =====
-- The slots of a string table are filled anew.
use native.Mathlib.Nat.{mod-lt, mod-eq_of_lt}
use any_vm.Base.{
  ℕ, zero, suc, ◌+◌, ◌%◌, ◌^◌, ◌<◌, ◌≡◌, ◌≢◌, refl, sym, ◌∙◌, ap, subst, ◌⊎◌, inl, inr, Bool-cases,
  ◌==◌, ==_iff, Option, some, some_inj, List, [], ◌∷◌, arith, length, length-set, get_elem?,
  get_elem?-lt, get_elem?-some, get_elem?-set_self, get_elem?-set_ne, set,
}
use any_vm.StringTable.{Entry, hash_of, following, free_from, insert_all}
use any_vm.StringTable.Slots.{
  free_slots, free_slots-found, free_slots-set, distance, distance-following, Chain, Chain-set,
}

-- The free slot that a search from slot `i` on ends at.
abbrev pub FreeFrom : (slots : List ℕ) → ℕ → Option ℕ → Type 0
FreeFrom slots i o =
    (j : ℕ) × (o ≡ some j) × (get_elem? slots j ≡ some 0) × Chain (length slots) slots j i

free_from-cases :
    (fuel : ℕ) (slots : List ℕ) (i e : ℕ)
    → i < length slots
    → get_elem? slots e ≡ some 0
    → distance (length slots) i e < fuel
    → FreeFrom slots i (free_from fuel slots i)
unfolding free_from
free_from-cases zero slots i e lt at h = elim h [ ]
free_from-cases (suc fuel) slots i e lt at h =
    let (ref, here) = get_elem?-some slots i lt in
    elim (Bool-cases (ref == 0)) [
      | inl zero_at ↦ (
        i,
        rw (here, free_from) (rw (zero_at, free_from) refl),
        here ∙ ap some ((==_iff ref 0).0 zero_at),
        Chain.here,
      )
      | inr taken ↦
          (let apart : i ≢ e = λ same.
              absurd (ground (arith, some_inj (sym here ∙ ap (get_elem? slots) same ∙ at))) in
            let (lt', closer) =
              distance-following (length slots) i e lt (get_elem?-lt slots e at) apart in
            let (j, found, free, chain) =
              free_from-cases fuel slots (following i (length slots)) e lt' at
                (omega (arith, h, closer)) in
            (
              j,
              rw (here, free_from) (rw (taken, free_from) found),
              free,
              Chain.step here (ground arith) chain,
            ))
    ]

pub free_from-FreeFrom :
    (slots : List ℕ) (h : ℕ)
    → 0 < free_slots slots
    → FreeFrom slots (h % length slots) (free_from (length slots) slots (h % length slots))
free_from-FreeFrom slots h some_free =
    let (e, at) = free_slots-found slots some_free in
    let lt : h % length slots < length slots = mod-lt h (omega (arith, get_elem?-lt slots e at)) in
    free_from-cases (length slots) slots (h % length slots) e lt at
      (ground (arith, get_elem?-lt slots e at))

-- A slot that names `ref`, reached from the start of the search for the text.
abbrev pub Reached : List ℕ → List ℕ → (ref : ℕ) → Type 0
Reached slots s ref =
    (j : ℕ) × Chain (length slots) slots j (hash_of s % length slots)
    × (get_elem? slots j ≡ some ref)

-- The places are nonzero numbers of 32 bits.
abbrev pub AllPlaces : List Entry → Type 0
AllPlaces [] = Unit
AllPlaces (e ∷ es) = (0 < e.ref) × (e.ref < 2 ^ 32) × AllPlaces es

-- The slots after the entries went in.
pub record Filled (es : List Entry) (slots slots' : List ℕ) : Type 0 where
  pub size : length slots' ≡ length slots
  pub left : free_slots slots' + length es ≡ free_slots slots
  pub kept : (s : List ℕ) (ref : ℕ) → 0 < ref → Reached slots s ref → Reached slots' s ref
  pub reached : (p : ℕ) (e : Entry) → get_elem? es p ≡ some e → Reached slots' e.text e.ref
  pub source :
      (i ref : ℕ)
      → get_elem? slots' i ≡ some ref
      → 0 < ref
      → (get_elem? slots i ≡ some ref)
        ⊎ ((p : ℕ) × (e : Entry) × (get_elem? es p ≡ some e) × (e.ref ≡ ref))

-- One more entry.
module _ (slots : List ℕ) (e : Entry) (j : ℕ) (positive : 0 < e.ref)
    (free : get_elem? slots j ≡ some 0)
    (chain : Chain (length slots) slots j (hash_of e.text % length slots)) where
  abbrev next : List ℕ
  next = set slots j e.ref

  same : length next ≡ length slots
  same = length-set slots j e.ref

  Chain-next :
      (k h : ℕ)
      → Chain (length slots) slots k (h % length slots)
      → Chain (length next) next k (h % length next)
  Chain-next k h c = subst (λ n. Chain n next k (h % n)) (sym same) (Chain-set j e.ref free c)

  Reached-next : (s : List ℕ) (ref : ℕ) → 0 < ref → Reached slots s ref → Reached next s ref
  Reached-next s ref h (k, c, at) = (
    k,
    Chain-next k (hash_of s) c,
    get_elem?-set_ne slots e.ref (λ twin.
          absurd (omega (arith, h, some_inj (sym at ∙ ap (get_elem? slots) (sym twin) ∙ free))))
        ∙ at,
  )

  Reached-self : Reached next e.text e.ref
  Reached-self = (
    j,
    Chain-next j (hash_of e.text) chain,
    get_elem?-set_self slots j e.ref (get_elem?-lt slots j free),
  )

  Filled-cons :
      (es : List Entry) (slots' : List ℕ) → Filled es next slots' → Filled (e ∷ es) slots slots'
  Filled-cons es slots' w = record {
    size = w.size ∙ same;
    left = omega (arith, w.left, free_slots-set slots j e.ref free positive);
    kept = λ s ref h r. w.kept s ref h (Reached-next s ref h r);
    reached = λ p d at. first_or_later p d at;
    source = λ i ref at h. elim (w.source i ref at h) [
      | inr (p, d, at', same') ↦ inr (suc p, d, at', same')
      | inl at' ↦ (elim (Bool-cases (j == i)) [
        | inl twin ↦ inr (
          0,
          e,
          refl,
          some_inj (
              sym (get_elem?-set_self slots j e.ref (get_elem?-lt slots j free))
              ∙ ap (get_elem? next) ((==_iff j i).0 twin)
              ∙ at'),
        )
        | inr other ↦ inl (sym (get_elem?-set_ne slots e.ref (λ twin. absurd (ground arith))) ∙ at')
      ])
    ];
  }
    where
      first_or_later :
          (p : ℕ) (d : Entry) → get_elem? (e ∷ es) p ≡ some d → Reached slots' d.text d.ref
      first_or_later zero d at =
          subst (λ x. Reached slots' x.text x.ref) (some_inj at)
            (w.kept e.text e.ref positive Reached-self)
      first_or_later (suc p) d at = w.reached p d at

pub insert_all-Filled :
    (es : List Entry) (slots : List ℕ)
    → AllPlaces es
    → length es < free_slots slots
    → (slots' : List ℕ) × (insert_all es slots ≡ some slots') × Filled es slots slots'
unfolding insert_all
insert_all-Filled [] slots places h = (
  slots,
  refl,
  record {
    size = refl;
    left = omega arith;
    kept = λ s ref positive r. r;
    reached = λ p e at. absurd (cc at);
    source = λ i ref at positive. inl at;
  },
)
insert_all-Filled (e ∷ es) slots (positive, small, places) h =
    let (j, found, free, chain) = free_from-FreeFrom slots (hash_of e.text) (omega (arith, h)) in
    let (slots', rest, w) =
      insert_all-Filled es (set slots j e.ref) places
        (omega (arith, h, free_slots-set slots j e.ref free positive)) in
    (
      slots',
      rw (found, insert_all) (rw (mod-eq_of_lt small) rest),
      Filled-cons slots e j positive free chain es slots' w,
    )
