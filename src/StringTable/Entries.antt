-- ===== src/StringTable/Entries.antt =====
-- A string is added to a string table.
use any_vm.Base.{
  ℕ, ◌+◌, ◌%◌, ◌<◌, ◌≡◌, ◌≢◌, refl, sym, ◌∙◌, ap, subst, ◌⊎◌, inl, inr, Bool-cases, Option-cases,
  ltb, ◌==◌, ==_iff, ==_self, ==_ne, none, some, some_inj, List, [], ◌∷◌, ◌++◌, arith, length,
  length-append, length-set, get_elem?-append_left, get_elem?-append_length, get_elem?,
  get_elem?-lt, get_elem?-set_self, get_elem?-set_ne,
}
use any_vm.StringTable.{Entry, Table, entry_at, to_string, hash_of, add_string}
use any_vm.StringTable.Slots.{free_slots-set, Chain, Chain-set}
use any_vm.StringTable.Search.{Listed, IsTable}

entry_at-append :
    (es : List Entry) (f : Entry) (ref : ℕ) {e : Entry}
    → entry_at es ref ≡ some e
    → entry_at (es ++ (f ∷ [])) ref ≡ some e
unfolding entry_at
entry_at-append [] f ref h = absurd (cc h)
entry_at-append (d ∷ es) f ref h = elim (Bool-cases (d.ref == ref)) [
  | inl same ↦ rw same (rw same at h)
  | inr other ↦ rw other (entry_at-append es f ref (rw other at h))
]

entry_at-last :
    (es : List Entry) (f : Entry)
    → entry_at es f.ref ≡ none
    → entry_at (es ++ (f ∷ [])) f.ref ≡ some f
unfolding entry_at
entry_at-last [] f h = rw (==_self f.ref) refl
entry_at-last (d ∷ es) f h = elim (Bool-cases (d.ref == f.ref)) [
  | inl same ↦ absurd (cc (rw same at h))
  | inr other ↦ rw other (entry_at-last es f (rw other at h))
]

entry_at-other :
    (es : List Entry) (f : Entry) (ref : ℕ)
    → ref ≢ f.ref
    → entry_at (es ++ (f ∷ [])) ref ≡ entry_at es ref
unfolding entry_at
entry_at-other [] f ref h = rw (==_ne (λ e. h (sym e))) refl
entry_at-other (d ∷ es) f ref h = elim (Bool-cases (d.ref == ref)) [
  | inl same ↦ rw same refl
  | inr other ↦ rw other (entry_at-other es f ref h)
]

-- The string `s` goes to the free slot `j`.
module _ {t : Table} (w : IsTable t) (s : List ℕ) (j : ℕ) (at : get_elem? t.slots j ≡ some 0)
    (chain : Chain (length t.slots) t.slots j (hash_of s % length t.slots))
    (absent : (ref : ℕ) → to_string t ref ≡ some s → ⊥) where
  abbrev new : ℕ
  new = t.string_bytes

  abbrev t' : Table
  t' = add_string t s j

  abbrev last_entry : Entry
  last_entry = record { ref = new; hash = hash_of s; text = s }

  positive : 0 < new
  positive = omega (arith, w.below 0 [] w.empty)

  nothing_yet : entry_at t.entries new ≡ none
  unfolding to_string
  nothing_yet = elim (Option-cases (entry_at t.entries new)) [
    | inl e ↦ e
    | inr (f, e) ↦ absurd (omega (arith, w.below new f.text (rw (e, to_string) refl)))
  ]

  pub to_string-new : to_string t' new ≡ some s
  unfolding to_string
  to_string-new = rw (entry_at-last t.entries last_entry nothing_yet, to_string) refl

  to_string-other : (ref : ℕ) → ref ≢ new → to_string t' ref ≡ to_string t ref
  unfolding to_string
  to_string-other ref h = rw (entry_at-other t.entries last_entry ref h, to_string) refl

  -- A string of the new table is an old one, or the new one.
  old_or_new :
      (ref : ℕ) (u : List ℕ)
      → to_string t' ref ≡ some u
      → (to_string t ref ≡ some u) ⊎ (ref ≡ new) × (u ≡ s)
  old_or_new ref u e = elim (Bool-cases (ref == new)) [
    | inl same ↦
        (let e' : ref ≡ new = (==_iff ref new).0 same in
          inr (e', some_inj (sym e ∙ ap (to_string t') e' ∙ to_string-new)))
    | inr other ↦ inl (sym (to_string-other ref (λ same. absurd (ground arith))) ∙ e)
  ]

  pub to_string-kept : (ref : ℕ) (u : List ℕ) → to_string t ref ≡ some u → to_string t' ref ≡ some u
  to_string-kept ref u e =
      to_string-other ref (λ same. absurd (omega (arith, same, w.below ref u e))) ∙ e

  same_length : length t'.slots ≡ length t.slots
  same_length = length-set t.slots j new

  placed_at :
      (k : ℕ) (i : ℕ)
      → Chain (length t.slots) t.slots k (i % length t.slots)
      → Chain (length t'.slots) t'.slots k (i % length t'.slots)
  placed_at k i c = subst (λ n. Chain n t'.slots k (i % n)) (sym same_length) (Chain-set j new at c)

  in_order :
      (p : ℕ) (e : Entry)
      → get_elem? (w.listed.others ++ (last_entry ∷ [])) p ≡ some e
      → (0 < e.ref) × (entry_at t'.entries e.ref ≡ some e)
  in_order p e h = elim (Bool-cases (ltb p (length w.listed.others))) [
    | inl old ↦
        (let h' =
            sym (get_elem?-append_left w.listed.others (last_entry ∷ []) p (ground arith)) ∙ h in
          let (positive', at') = w.listed.found p e h' in
          (positive', entry_at-append t.entries last_entry e.ref at'))
    | inr other ↦
        (let at_end : p ≡ length w.listed.others = ground (
          arith,
          get_elem?-lt (w.listed.others ++ (last_entry ∷ [])) p h,
          length-append w.listed.others (last_entry ∷ []),
        ) in
          let same : last_entry ≡ e = some_inj (
            sym (get_elem?-append_length w.listed.others [] last_entry)
            ∙ ap (get_elem? (w.listed.others ++ (last_entry ∷ []))) (sym at_end)
            ∙ h) in
          subst (λ x. (0 < x.ref) × (entry_at t'.entries x.ref ≡ some x)) same
            (positive, entry_at-last t.entries last_entry nothing_yet))
  ]

  listed' : Listed t'
  listed' = record {
    others = w.listed.others ++ (last_entry ∷ []);
    all = ap (◌++ (last_entry ∷ [])) w.listed.all;
    number = omega (arith, length-append w.listed.others (last_entry ∷ []), w.listed.number);
    found = in_order;
  }

  pub add_string-IsTable : t.count + 1 < length t.slots → IsTable t'
  add_string-IsTable spare = record {
    room = omega (arith, same_length, spare);
    unused = omega (arith, same_length, free_slots-set t.slots j new at positive, w.unused);
    named = λ i ref e h. elim (Bool-cases (j == i)) [
      | inl same ↦
          (let here : get_elem? t'.slots i ≡ some new =
              ap (get_elem? t'.slots) (sym ((==_iff j i).0 same))
              ∙ get_elem?-set_self t.slots j new (get_elem?-lt t.slots j at) in
            (s, ap (to_string t') (some_inj (sym e ∙ here)) ∙ to_string-new))
      | inr other ↦
          (let (u, e') =
              w.named i ref (sym (get_elem?-set_ne t.slots new (λ same. absurd (ground arith))) ∙ e)
                h in
            (u, to_string-kept ref u e'))
    ];
    placed = λ ref u e h. elim (old_or_new ref u e) [
      | inl e' ↦
          (let (k, c, here) = w.placed ref u e' h in
            (
              k,
              placed_at k (hash_of u) c,
              get_elem?-set_ne t.slots new (λ same. absurd (
                    omega (arith, h, some_inj (sym here ∙ ap (get_elem? t.slots) (sym same) ∙ at))))
                  ∙ here,
            ))
      | inr (same, same') ↦ (
        j,
        placed_at j (hash_of u) (
            subst (λ x. Chain (length t.slots) t.slots j (hash_of x % length t.slots)) (sym same')
              chain),
        get_elem?-set_self t.slots j new (get_elem?-lt t.slots j at) ∙ ap some (sym same),
      )
    ];
    once = λ r r' u e e'. elim (old_or_new r u e) [
      | inl o ↦ (elim (old_or_new r' u e') [
        | inl o' ↦ w.once r r' u o o'
        | inr (_, same) ↦ absurd (absent r (o ∙ ap some same))
      ])
      | inr (n, same) ↦ (elim (old_or_new r' u e') [
        | inl o' ↦ absurd (absent r' (o' ∙ ap some same))
        | inr (n', _) ↦ n ∙ sym n'
      ])
    ];
    below = λ ref u e. elim (old_or_new ref u e) [
      | inl e' ↦ omega (arith, w.below ref u e')
      | inr (same, _) ↦ omega (arith, same)
    ];
    empty = to_string-kept 0 [] w.empty;
    listed = listed';
  }
