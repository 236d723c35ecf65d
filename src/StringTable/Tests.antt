-- ===== src/StringTable/Tests.antt =====
-- A table of eight slots.
use any_vm.Base.{ℕ, ◌≤◌, arith, ◌≡◌, refl, ◌↔◌, Option, none, some, [], ◌∷◌}
use any_vm.StringTable.{Table, to_ref, to_ref_const, to_string, grow, pack}
use any_vm.StringTable.Interning.{to_ref_const_iff, Interned, to_ref-Interned}
use any_vm.StringTable.Rebuild.{Kept, rebuilding-Kept}
use any_vm.StringTable.Fresh.{fresh, fresh-IsTable}

abbrev table : Table
table = fresh 8 200

to_ref-Interned_example : Interned table (97 ∷ 98 ∷ []) (to_ref table (97 ∷ 98 ∷ []))
to_ref-Interned_example = to_ref-Interned table (97 ∷ 98 ∷ []) (fresh-IsTable 8 200)

to_ref_const_iff_example :
    (to_ref_const table (97 ∷ []) ≡ some (some 5)) ↔ (to_string table 5 ≡ some (97 ∷ []))
to_ref_const_iff_example = to_ref_const_iff table (97 ∷ []) 5 (fresh-IsTable 8 200)

rebuilding-Kept_example :
    ((wanted bytes : ℕ) → 200 ≤ bytes → Kept table (grow wanted table bytes))
    × Kept table (pack table)
rebuilding-Kept_example = rebuilding-Kept table (fresh-IsTable 8 200) (omega arith)

ref_of : Option (Option ℕ × Table) → Option ℕ
ref_of none = none
ref_of (some (r, t)) = r

table_of : Option (Option ℕ × Table) → Table
table_of none = table
table_of (some (r, t)) = t

one : Table
one = table_of (to_ref table (97 ∷ 98 ∷ []))

two : Table
two = table_of (to_ref one (99 ∷ []))

two_strings : ref_of (to_ref two (97 ∷ 98 ∷ [])) ≡ some 5
unfolding to_ref table_of ref_of one two any_vm.StringTable.zeros any_vm.Text.hash_and_length
    any_vm.Text.same_bytes
two_strings = refl

second_string : ref_of (to_ref two (99 ∷ [])) ≡ some 12
unfolding to_ref table_of ref_of one two any_vm.StringTable.zeros any_vm.Text.hash_and_length
    any_vm.Text.same_bytes
second_string = refl

rebuilt : Option Table → Table
rebuilt none = table
rebuilt (some t) = t

after_packing : to_ref_const (rebuilt (pack two)) (99 ∷ []) ≡ some (some 12)
unfolding to_ref table_of one two rebuilt pack to_ref_const any_vm.StringTable.zeros
    any_vm.Text.hash_and_length any_vm.Text.same_bytes
after_packing = refl
