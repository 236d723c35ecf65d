-- ===== src/StringTable/Interning.antt =====
-- Equal references mean equal texts: what the string table promises.
use any_vm.Base.{
  ℕ, ◌+◌, ◌<◌, ◌≡◌, refl, sym, ◌∙◌, ap, ◌↔◌, inl, inr, Bool-cases, true, false, leb, Option, none,
  some, some_inj, List, [], ◌∷◌, arith, length,
}
use any_vm.StringTable.{Table, to_string, full, to_ref, to_ref_const}
use any_vm.StringTable.Entries.{to_string-new, to_string-kept, add_string-IsTable}
use any_vm.StringTable.Search.{IsTable, search-cases}

-- astring_table_to_ref_const on a valid table gives a reference exactly if the text of that
-- reference is the string asked for.
pub to_ref_const_iff :
    (t : Table) (s : List ℕ) (ref : ℕ)
    → IsTable t
    → (to_ref_const t s ≡ some (some ref)) ↔ (to_string t ref ≡ some s)
unfolding to_ref_const
to_ref_const_iff t [] ref w = (
  (λ e. ap (to_string t) (sym (some_inj (some_inj e))) ∙ w.empty),
  (λ e. ap (λ r. some (some r)) (w.once 0 ref [] w.empty e)),
)
to_ref_const_iff t (c ∷ s) ref w = elim (search-cases w c s) [
  | inl (r, e, named) ↦ (
    (λ h. ap (to_string t) (sym (some_inj (some_inj (rw (e, to_ref_const) at h)))) ∙ named),
    (λ h. rw (e, to_ref_const) (ap (λ x. some (some x)) (w.once r ref (c ∷ s) named h))),
  )
  | inr (j, e, _, _, absent) ↦ (
    (λ h. absurd (none_some (some_inj (rw (e, to_ref_const) at h)))),
    (λ h. absurd (absent ref h)),
  )
]
  where
    none_some : none ≡ some ref → ⊥
    none_some e = cc e

-- What asking for the reference of a string does.
pub data Interned (t : Table) (s : List ℕ) : Option (Option ℕ × Table) → Type 0 where
  known : {ref : ℕ} → to_string t ref ≡ some s → Interned t s (some (some ref, t))
  added :
      {ref : ℕ} {t' : Table}
      → IsTable t'
      → ((r : ℕ) → to_string t r ≡ some s → ⊥)
      → to_string t' ref ≡ some s
      → ((r : ℕ) (u : List ℕ) → to_string t r ≡ some u → to_string t' r ≡ some u)
      → t'.count ≡ t.count + 1
      → Interned t s (some (some ref, t'))
  refused : full t s ≡ true → ((r : ℕ) → to_string t r ≡ some s → ⊥) → Interned t s (some (none, t))

full-spare : (t : Table) (s : List ℕ) → full t s ≡ false → t.count + 1 < length t.slots
full-spare t s h = elim (Bool-cases (leb (length t.slots) (t.count + 1))) [
  | inl many ↦ absurd (true_false (rw many at h))
  | inr room ↦ ground arith
]
  where
    true_false : true ≡ false → ⊥
    true_false e = cc e

-- astring_table_to_ref on a valid table ends. A string that the table has gives its reference,
-- with the table as it was. Any other one is either added, with a valid table, one string more,
-- the reference standing for the new string and all others for the strings of before; or refused
-- with AERR_FULL, with the table as it was, because there are too few slots or bytes.
pub to_ref-Interned : (t : Table) (s : List ℕ) → IsTable t → Interned t s (to_ref t s)
unfolding to_ref
to_ref-Interned t [] w = Interned.known w.empty
to_ref-Interned t (c ∷ s) w = elim (search-cases w c s) [
  | inl (r, e, named) ↦ rw (e, to_ref) (Interned.known named)
  | inr (j, e, at, chain, absent) ↦ (elim (Bool-cases (full t (c ∷ s))) [
    | inl no_room ↦ rw (e, to_ref) (rw (no_room, to_ref) (Interned.refused no_room absent))
    | inr room ↦
        rw (e, to_ref)
          (rw (room, to_ref)
            (Interned.added
              (add_string-IsTable w (c ∷ s) j at chain absent (full-spare t (c ∷ s) room)) absent
              (to_string-new w (c ∷ s) j at chain absent)
              (to_string-kept w (c ∷ s) j at chain absent) refl))
  ])
]
