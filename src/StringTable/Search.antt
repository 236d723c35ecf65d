-- ===== src/StringTable/Search.antt =====
-- A search in a valid string table ends, at the string or at a free slot.
use native.Mathlib.Nat.{mod-lt}
use any_vm.Base.{
  ℕ, zero, suc, ◌+◌, ◌%◌, ◌<◌, ◌≡◌, ◌≢◌, refl, sym, ◌∙◌, ap, ◌⊎◌, inl, inr, Bool-cases, true, false,
  ◌==◌, ==_iff, Option, some, some_inj, List, [], ◌∷◌, arith, length, get_elem?, get_elem?-lt,
  get_elem?-some,
}
use any_vm.Text.{same_bytes}
use any_vm.Text.Laws.{same_bytes_sound, same_bytes_refl}
use any_vm.StringTable.{
  Entry, Table, entry_at, to_string, hash_of, following, Found, probe, search, empty_string,
}
use any_vm.StringTable.Slots.{free_slots, free_slots-found, distance, distance-following, Chain}

-- The strings in order: behind the empty one there are as many as the table counts, and each is what
-- its place leads to.
pub record Listed (t : Table) : Type 0 where
  pub others : List Entry
  pub all : t.entries ≡ empty_string ∷ others
  pub number : length others ≡ t.count
  pub found :
      (p : ℕ) (e : Entry)
      → get_elem? others p ≡ some e
      → (0 < e.ref) × (entry_at t.entries e.ref ≡ some e)

-- A well-formed string table: the slots name strings, every string is in a slot that a search for it
-- reaches, and no text is there twice.
pub record IsTable (t : Table) : Type 0 where
  pub room : t.count < length t.slots
  pub unused : free_slots t.slots + t.count ≡ length t.slots
  pub named :
      (i ref : ℕ)
      → get_elem? t.slots i ≡ some ref
      → 0 < ref
      → (s : List ℕ) × (to_string t ref ≡ some s)
  pub placed :
      (ref : ℕ) (s : List ℕ)
      → to_string t ref ≡ some s
      → 0 < ref
      → (j : ℕ) × Chain (length t.slots) t.slots j (hash_of s % length t.slots)
        × (get_elem? t.slots j ≡ some ref)
  pub once :
      (ref ref' : ℕ) (s : List ℕ)
      → to_string t ref ≡ some s
      → to_string t ref' ≡ some s
      → ref ≡ ref'
  pub below : (ref : ℕ) (s : List ℕ) → to_string t ref ≡ some s → ref < t.string_bytes
  pub empty : to_string t 0 ≡ some []
  pub listed : Listed t

-- No slot that a search from `i` on reaches names the text.
abbrev Missed : Table → List ℕ → ℕ → Type 0
Missed t s i =
    (j ref : ℕ)
    → Chain (length t.slots) t.slots j i
    → get_elem? t.slots j ≡ some ref
    → 0 < ref
    → to_string t ref ≡ some s
    → ⊥

-- How a search from slot `i` on ends.
data Ends (t : Table) (s : List ℕ) (i : ℕ) : Option Found → Type 0 where
  hit : {ref : ℕ} → 0 < ref → to_string t ref ≡ some s → Ends t s i (some (Found.hit ref))
  free :
      {j : ℕ}
      → Chain (length t.slots) t.slots j i
      → get_elem? t.slots j ≡ some 0
      → Missed t s i
      → Ends t s i (some (Found.free j))

module _ {t : Table} (w : IsTable t) (s : List ℕ) where
  -- The string of slot `i` is another one, so the search goes on.
  Ends-step :
      (i ref : ℕ) (u : List ℕ) {o : Option Found}
      → get_elem? t.slots i ≡ some ref
      → 0 < ref
      → to_string t ref ≡ some u
      → u ≢ s
      → Ends t s (following i (length t.slots)) o
      → Ends t s i o
  Ends-step i ref u at h e other (Ends.hit h' e') = Ends.hit h' e'
  Ends-step i ref u at h e other (Ends.free chain zero_at missed) =
      Ends.free (Chain.step at h chain) zero_at go
    where
      go : Missed t s i
      go j r Chain.here at' h' e' =
          let same = some_inj (sym at ∙ at') in
          other (some_inj (sym e ∙ ap (to_string t) same ∙ e'))
      go j r (Chain.step at'' h'' rest) at' h' e' = missed j r rest at' h' e'

  Ends-free : (i : ℕ) → get_elem? t.slots i ≡ some 0 → Ends t s i (some (Found.free i))
  Ends-free i at = Ends.free Chain.here at go
    where
      go : Missed t s i
      go j r Chain.here at' h' e' = absurd (omega (arith, h', some_inj (sym at ∙ at')))
      go j r (Chain.step at'' h'' rest) at' h' e' =
          absurd (omega (arith, h'', some_inj (sym at ∙ at'')))

  probe-Ends :
      (fuel i e : ℕ)
      → i < length t.slots
      → get_elem? t.slots e ≡ some 0
      → distance (length t.slots) i e < fuel
      → Ends t s i (probe fuel t s i)
  unfolding probe
  probe-Ends zero i e lt at h = elim h [ ]
  probe-Ends (suc fuel) i e lt at h =
      let (ref, here) = get_elem?-some t.slots i lt in
      elim (Bool-cases (ref == 0)) [
        | inl zero_at ↦
            (let e' : ref ≡ 0 = (==_iff ref 0).0 zero_at in
              rw (here, probe) (rw (zero_at, probe) (Ends-free i (here ∙ ap some e'))))
        | inr taken ↦
            (let h' : 0 < ref = ground arith in
              let (u, named) = w.named i ref here h' in
              elim (Bool-cases (same_bytes s u)) [
                | inl same ↦
                    rw (here, probe)
                      (rw (taken, named, same, probe)
                        (Ends.hit h' (named ∙ ap some (sym (same_bytes_sound s u same)))))
                | inr other ↦
                    (let apart : i ≢ e = λ same. absurd (
                        omega
                          (arith, h', some_inj (sym here ∙ ap (get_elem? t.slots) same ∙ at))) in
                      let (lt', closer) =
                        distance-following (length t.slots) i e lt (get_elem?-lt t.slots e at)
                          apart in
                      rw (here, probe)
                        (rw (taken, named, other, probe)
                          (Ends-step i ref u here h' named
                            (λ same.
                              false_true (sym other ∙ ap (same_bytes s) same ∙ same_bytes_refl s))
                            (probe-Ends fuel (following i (length t.slots)) e lt' at
                              (omega (arith, h, closer))))))
              ])
      ]
    where
      false_true : false ≡ true → ⊥
      false_true e = cc e

-- The two ends of a search.
abbrev pub SearchHit : Table → List ℕ → Type 0
SearchHit t s = (ref : ℕ) × (search t s ≡ some (Found.hit ref)) × (to_string t ref ≡ some s)

abbrev pub SearchFree : Table → List ℕ → Type 0
SearchFree t s =
    (j : ℕ) × (search t s ≡ some (Found.free j))
    × (get_elem? t.slots j ≡ some 0)
    × Chain (length t.slots) t.slots j (hash_of s % length t.slots)
    × ((ref : ℕ) → to_string t ref ≡ some s → ⊥)

module _ {t : Table} (w : IsTable t) (c : ℕ) (s : List ℕ) where
  start : ℕ
  start = hash_of (c ∷ s) % length t.slots

  absent : Missed t (c ∷ s) start → (ref : ℕ) → to_string t ref ≡ some (c ∷ s) → ⊥
  unfolding start
  absent missed zero e = empty_apart (some_inj (sym w.empty ∙ e))
    where
      empty_apart : [] ≡ c ∷ s → ⊥
      empty_apart e = cc e
  absent missed (suc ref) e =
      let (j, chain, at) = w.placed (suc ref) (c ∷ s) e (omega arith) in
      missed j (suc ref) chain at (omega arith) e

  by_end :
      (o : Option Found)
      → search t (c ∷ s) ≡ o
      → Ends t (c ∷ s) start o
      → SearchHit t (c ∷ s) ⊎ SearchFree t (c ∷ s)
  unfolding start
  by_end _ e (Ends.hit h named) = inl (_, e, named)
  by_end _ e (Ends.free chain at missed) = inr (_, e, at, chain, absent missed)

  pub search-cases : SearchHit t (c ∷ s) ⊎ SearchFree t (c ∷ s)
  unfolding start
  search-cases =
      let some_free : 0 < free_slots t.slots = omega (arith, w.room, w.unused) in
      let (e, at) = free_slots-found t.slots some_free in
      let lt : start < length t.slots = mod-lt (hash_of (c ∷ s)) (omega (arith, w.room)) in
      by_end (search t (c ∷ s)) refl (
        probe-Ends w (c ∷ s) (length t.slots) start e lt at
          (ground (arith, get_elem?-lt t.slots e at)))
