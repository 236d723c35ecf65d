-- ===== src/StdTable/Access.antt =====
-- Reading a table is reading its dictionary.
use any_vm.Base.{
  ℕ, ◌<◌, ◌≡◌, refl, sym, ◌∙◌, ◌⊎◌, inl, inr, Option, none, some, List, arith, le→leb, length,
  length-take, get_elem?-take, get_elem?-lt,
}
use any_vm.Value.{AType, Value, Vec, Obj}
use any_vm.Machine.{Actor, Out, Env}
use any_vm.Safe.{IsActor}
use any_vm.Operand.{push}
use any_vm.Growable.Args.{Arg, at-Arg, check_index-Arg, check_type-Arg}
use any_vm.Growable.Laws.{IsVec, contents, Holds, vec_at-Holds}
use any_vm.StdTable.{Entry, table_kind, check_key, search_for, value_at, lget, set_value}
use any_vm.StdTable.Dict.{Key, Dict, lookup, put}
use any_vm.StdTable.Search.{IsKey, Reads, search-cases}

-- What `get/2` gives for a key.
abbrev pub or_nil : Option Value → Value
or_nil none = Value.nil
or_nil (some x) = x

pub check_key-IsKey :
    (env : Env) {heap : List Obj} {k : Value} {q : Key} (a : Actor)
    → IsKey heap k q
    → check_key env k a ≡ Out.ok tt a
unfolding check_key
check_key-IsKey env a IsKey.pid = refl
check_key-IsKey env a IsKey.integer = refl
check_key-IsKey env a (IsKey.text e) = refl

module _ (env : Env) {a : Actor} {h : ℕ} {v : Vec Entry} (valid : IsActor a)
    (g : Holds table_kind a 0 h v) (i : IsVec v) {k : Value} {q : Key} (arg : Arg a 1 k)
    (key : IsKey a.heap k q) (d : Dict) (reads : Reads a.heap (contents v) d) where
  -- The search for the key, and where it leads.
  pub search_for-cases :
      ((search_for env v k a ≡ Out.ok none a) × (lookup q d ≡ none))
      ⊎ ((j : ℕ) × (x : Value) × (search_for env v k a ≡ Out.ok (some j) a)
          × (j < v.sz)
          × (value_at env v.slots (some j) ≡ some x)
          × (lookup q d ≡ some x)
          × ((y : Value) → Reads a.heap (set_value (contents v) j y) (put q y d)))
  unfolding search_for
  search_for-cases = elim (search-cases env.reals k q key (contents v) d reads) [
    | inl (e, absent) ↦
        inl
          (rw (le→leb v.sz (length v.slots) (omega (arith, i.used, i.storage))) (rw e refl), absent)
    | inr (j, l, x, e, at, found, stored) ↦
        (let lt : j < v.sz =
            omega (arith, get_elem?-lt (contents v) j at, length-take v.sz v.slots) in
          inr (
            j,
            x,
            rw (le→leb v.sz (length v.slots) (omega (arith, i.used, i.storage))) (rw e refl),
            lt,
            rw (sym (get_elem?-take v.sz j v.slots lt) ∙ at, value_at) refl,
            found,
            stored,
          ))
  ]

  -- In a native function with a well-formed table and a key as its last two arguments, the key
  -- and those of the entries being pids, integers or strings: get/2 of std-table pushes what the
  -- dictionary holds under the key, or nil if it holds nothing, and changes nothing else.
  pub lget-lookup : lget env a ≡ push env (or_nil (lookup q d)) a
  unfolding lget
  lget-lookup = rw (check_index-Arg env valid g.arg) (
      rw (check_index-Arg env valid arg) (
        rw (check_type-Arg env valid g.arg AType.table "not table" refl) (
          rw (vec_at-Holds env table_kind valid g) (
            rw (at-Arg env valid arg) (
              rw (check_key-IsKey env a key) (elim search_for-cases [
                | inl (e, absent) ↦ rw (e, absent) refl
                | inr (j, x, e, lt, at, found, _) ↦ rw (e, found) (rw at refl)
              ]))))))
