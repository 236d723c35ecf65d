-- ===== src/StringTable/Rebuild.antt =====
-- Growing and packing a string table keeps every reference.
use any_vm.Base.{
  ℕ, zero, suc, ◌+◌, ◌*◌, ◌^◌, ◌≤◌, ◌<◌, ◌≡◌, refl, sym, ◌∙◌, ap, subst, inl, inr, Bool-cases,
  Option-cases, ltb, le→leb, ◌==◌, ==_iff, if◌then◌else◌, Option, some, some_inj, List, [], ◌∷◌,
  arith, length, get_elem?, drop,
}
use any_vm.StringTable.{
  Entry, Table, entry_at, to_string, zeros, empty_string, insert_all, rebuild, grow, pack, max,
  hash_factor,
}
use any_vm.StringTable.Search.{IsTable}
use any_vm.StringTable.Fresh.{length-zeros, free_slots-zeros, zeros-free}
use any_vm.StringTable.Filling.{AllPlaces, Reached, Filled, insert_all-Filled}

entry_at-index :
    (es : List Entry) (ref : ℕ) (e : Entry)
    → entry_at es ref ≡ some e
    → (p : ℕ) × (get_elem? es p ≡ some e) × (e.ref ≡ ref)
unfolding entry_at
entry_at-index [] ref e h = absurd (cc h)
entry_at-index (d ∷ es) ref e h = elim (Bool-cases (d.ref == ref)) [
  | inl same ↦
      (let twin : d ≡ e = some_inj (rw same at h) in
        (0, ap some twin, ap (λ x. x.ref) (sym twin) ∙ (==_iff d.ref ref).0 same))
  | inr other ↦ (let (p, at, same) = entry_at-index es ref e (rw other at h) in (suc p, at, same))
]

AllPlaces-from :
    (es : List Entry)
    → ((p : ℕ) (e : Entry) → get_elem? es p ≡ some e → (0 < e.ref) × (e.ref < 2 ^ 32))
    → AllPlaces es
AllPlaces-from [] h = tt
AllPlaces-from (e ∷ es) h =
    let (positive, small) = h 0 e refl in
    (positive, small, AllPlaces-from es (λ p d at. h (suc p) d at))

-- The same strings at the same places.
pub data Kept (t : Table) : Option Table → Type 0 where
  kept :
      {t' : Table}
      → IsTable t'
      → t'.count ≡ t.count
      → t'.string_bytes ≡ t.string_bytes
      → ((ref : ℕ) → to_string t' ref ≡ to_string t ref)
      → Kept t (some t')

module _ {t : Table} (w : IsTable t) (small : t.string_bytes ≤ 2 ^ 32) where
  to_string-listed :
      (p : ℕ) (e : Entry) → get_elem? w.listed.others p ≡ some e → to_string t e.ref ≡ some e.text
  unfolding to_string
  to_string-listed p e at = rw ((w.listed.found p e at).1, to_string) refl

  places : AllPlaces w.listed.others
  places = AllPlaces-from w.listed.others (λ p e at. (
    (w.listed.found p e at).0,
    omega (arith, small, w.below e.ref e.text (to_string-listed p e at)),
  ))

  index_of :
      (ref : ℕ) (s : List ℕ)
      → to_string t ref ≡ some s
      → 0 < ref
      → (p : ℕ) × (e : Entry) × (get_elem? w.listed.others p ≡ some e)
        × (e.ref ≡ ref)
        × (e.text ≡ s)
  unfolding to_string
  index_of ref s h positive = elim (Option-cases (entry_at t.entries ref)) [
    | inl nothing ↦ absurd (cc (rw (nothing, to_string) at h))
    | inr (e, at) ↦ behind e (some_inj (rw (at, to_string) at h)) (
        entry_at-index (empty_string ∷ w.listed.others) ref e
          (subst (λ es. entry_at es ref ≡ some e) w.listed.all at))
  ]
    where
      behind :
          (e : Entry)
          → e.text ≡ s
          → (p : ℕ) × (get_elem? (empty_string ∷ w.listed.others) p ≡ some e) × (e.ref ≡ ref)
          → (p : ℕ) × (e : Entry) × (get_elem? w.listed.others p ≡ some e)
            × (e.ref ≡ ref)
            × (e.text ≡ s)
      behind e text (zero, here, same) =
          absurd (omega (arith, positive, same, ap (λ x. x.ref) (some_inj here)))
      behind e text (suc p, here, same) = (p, e, here, same, text)

  -- A table with enough slots, filled anew.
  rebuilt-IsTable :
      (n bytes : ℕ) (slots : List ℕ)
      → t.count < n
      → Filled w.listed.others (zeros n) slots
      → IsTable (record t { slots = slots; allocated_bytes = bytes })
  unfolding to_string
  rebuilt-IsTable n bytes slots h f = record {
    room = omega (arith, h, f.size, length-zeros n);
    unused = omega (arith, f.size, length-zeros n, f.left, free_slots-zeros n, w.listed.number);
    named = λ i ref at positive. elim (f.source i ref at positive) [
      | inl at' ↦ absurd (omega (arith, positive, zeros-free n i at'))
      | inr (p, e, at', same) ↦ (e.text, ap (to_string t) (sym same) ∙ to_string-listed p e at')
    ];
    placed = λ ref s at positive.
        (let (p, e, at', same, text) = index_of ref s at positive in
          subst (λ x. Reached slots x ref) text
            (subst (Reached slots e.text) same (f.reached p e at')));
    once = w.once;
    below = w.below;
    empty = w.empty;
    listed = record {
      others = w.listed.others;
      all = w.listed.all;
      number = w.listed.number;
      found = w.listed.found;
    };
  }

  insert_all-total :
      (n : ℕ)
      → t.count < n
      → (slots : List ℕ) × (insert_all (drop 1 t.entries) (zeros n) ≡ some slots)
        × Filled w.listed.others (zeros n) slots
  insert_all-total n h =
      let (slots, e, f) =
        insert_all-Filled w.listed.others (zeros n) places
          (omega (arith, h, w.listed.number, free_slots-zeros n)) in
      (slots, ap (λ es. insert_all (drop 1 es) (zeros n)) w.listed.all ∙ e, f)

  grow-Kept : (wanted bytes : ℕ) → t.allocated_bytes ≤ bytes → Kept t (grow wanted t bytes)
  unfolding grow rebuild to_string
  grow-Kept wanted bytes h =
      let n = max wanted (length t.slots) in
      let enough : t.count < n = ground (arith, w.room) in
      let (slots, e, f) = insert_all-total n enough in
      rw (le→leb t.allocated_bytes bytes h, grow)
        (rw (e, rebuild)
          (Kept.kept (rebuilt-IsTable n bytes slots enough f) refl refl (λ ref. refl)))

  abbrev packed_slots : ℕ
  packed_slots =
      let n = t.count * hash_factor in
      let n' = if ltb n 1 then 1 else n in if ltb n' (t.count + 1) then t.count + 1 else n'

  pack-Kept : Kept t (pack t)
  unfolding pack rebuild to_string
  pack-Kept =
      let enough : t.count < packed_slots = ground arith in
      let (slots, e, f) = insert_all-total packed_slots enough in
      rw (e, pack, rebuild)
        (Kept.kept (rebuilt-IsTable packed_slots _ slots enough f) refl refl (λ ref. refl))

-- astring_table_grow to no fewer bytes, with any number of slots asked for, and
-- astring_table_pack on a valid table with at most 4 GB of strings end. They leave a valid table
-- with the same strings at the same references.
pub rebuilding-Kept :
    (t : Table)
    → IsTable t
    → t.string_bytes ≤ 2 ^ 32
    → ((wanted bytes : ℕ) → t.allocated_bytes ≤ bytes → Kept t (grow wanted t bytes))
      × Kept t (pack t)
rebuilding-Kept t w small = (grow-Kept w small, pack-Kept w small)
