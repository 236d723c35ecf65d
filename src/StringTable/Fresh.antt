-- ===== src/StringTable/Fresh.antt =====
-- An empty string table.
use any_vm.Base.{
  ℕ, zero, suc, ◌+◌, ◌≤◌, ◌<◌, ◌≡◌, refl, sym, ◌∙◌, ap, Bool-cases, inl, inr, some, some_inj, List,
  [], ◌∷◌, arith, le→leb, ◌==◌, ==_iff, length, get_elem?,
}
use any_vm.StringTable.{
  Table, entry_at, to_string, zeros, empty_string, max, min_size, hash_bytes, init,
}
use any_vm.StringTable.Slots.{free_slots}
use any_vm.StringTable.Search.{IsTable}

pub length-zeros : (n : ℕ) → length (zeros n) ≡ n
unfolding zeros
length-zeros zero = refl
length-zeros (suc n) = ap suc (length-zeros n)

pub free_slots-zeros : (n : ℕ) → free_slots (zeros n) ≡ n
unfolding zeros free_slots
free_slots-zeros zero = refl
free_slots-zeros (suc n) = omega (arith, free_slots-zeros n)

pub zeros-free : (n i : ℕ) {ref : ℕ} → get_elem? (zeros n) i ≡ some ref → ref ≡ 0
unfolding zeros
zeros-free zero i e = absurd (cc e)
zeros-free (suc n) zero e = sym (some_inj e)
zeros-free (suc n) (suc i) e = zeros-free n i e

max-positive : (n : ℕ) → 0 < max n 1
max-positive n = ground arith

abbrev pub fresh : (wanted bytes : ℕ) → Table
fresh wanted bytes = record {
  allocated_bytes = bytes;
  count = 0;
  string_bytes = hash_bytes + 1;
  slots = zeros (max wanted 1);
  entries = empty_string ∷ [];
}

only_empty :
    (wanted bytes ref : ℕ) (s : List ℕ)
    → to_string (fresh wanted bytes) ref ≡ some s
    → (ref ≡ 0) × (s ≡ [])
unfolding to_string entry_at
only_empty wanted bytes ref s e = elim (Bool-cases (0 == ref)) [
  | inl same ↦ (sym ((==_iff 0 ref).0 same), sym (some_inj (rw (same, to_string) at e)))
  | inr other ↦ absurd (cc (rw (other, to_string) at e))
]

pub fresh-IsTable : (wanted bytes : ℕ) → IsTable (fresh wanted bytes)
unfolding to_string entry_at
fresh-IsTable wanted bytes = record {
  room = omega (arith, length-zeros (max wanted 1), max-positive wanted);
  unused = omega (arith, length-zeros (max wanted 1), free_slots-zeros (max wanted 1));
  named = λ i ref e h. absurd (omega (arith, h, zeros-free (max wanted 1) i e));
  placed = λ ref s e h. absurd (omega (arith, h, (only_empty wanted bytes ref s e).0));
  once = λ r r' s e e'. (only_empty wanted bytes r s e).0 ∙ sym (only_empty wanted bytes r' s e').0;
  below = λ ref s e. omega (arith, (only_empty wanted bytes ref s e).0);
  empty = refl;
  listed = record { others = []; all = refl; number = refl; found = λ p e h. absurd (cc h) };
}

pub init-IsTable :
    (wanted bytes : ℕ) → min_size ≤ bytes → (t : Table) × (init wanted bytes ≡ some t) × IsTable t
init-IsTable wanted bytes h =
    (fresh wanted bytes, rw (le→leb min_size bytes h) refl, fresh-IsTable wanted bytes)
