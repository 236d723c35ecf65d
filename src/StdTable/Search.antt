-- ===== src/StdTable/Search.antt =====
-- The search of a table finds what the dictionary holds.
use any_vm.Base.{
  ℕ, ℤ, Bool, suc, ◌≡◌, refl, sym, ◌∙◌, ap, ◌⊎◌, inl, inr, Bool-cases, true, false, Option, none,
  some, List, [], ◌∷◌, ◌++◌, get_elem?,
}
use any_vm.Value.{AType, Value, Obj}
use any_vm.Machine.{Reals}
use any_vm.StdTable.{Entry, same_key, search, shift, set_value}
use any_vm.StdTable.Dict.{Key, key_equal, Dict, lookup, put}

-- The value is this key on a heap.
pub data IsKey (heap : List Obj) : Value → Key → Type 0 where
  pid : {p : ℕ} → IsKey heap (Value.pid p) (Key.pid p)
  integer : {n : ℤ} → IsKey heap (Value.integer n) (Key.integer n)
  text :
      {h : ℕ} {s : List ℕ}
      → get_elem? heap h ≡ some (Obj.string s)
      → IsKey heap (Value.collectable AType.string h) (Key.text s)

-- The entries stand for the dictionary.
abbrev pub Reads : List Obj → List Entry → Dict → Type 0
Reads heap [] [] = Unit
Reads heap [] (_ ∷ _) = ⊥
Reads heap (_ ∷ _) [] = ⊥
Reads heap ((k, x) ∷ es) ((q, y) ∷ d) = IsKey heap k q × (x ≡ y) × Reads heap es d

module _ (test : Value → Option Bool) (l x : Value) (es : List Entry) where
  search-here : test l ≡ some true → search test ((l, x) ∷ es) ≡ some (some 0)
  unfolding search
  search-here e = rw (e, search) refl

  search-there : test l ≡ some false → search test ((l, x) ∷ es) ≡ shift (search test es)
  unfolding search
  search-there e = rw (e, search) refl

some-ne-none : {x : Value} → some x ≡ none → ⊥
some-ne-none h = cc h

module _ (r : Reals) {heap : List Obj} where
  same_key-IsKey :
      {k l : Value} {p q : Key}
      → IsKey heap k p
      → IsKey heap l q
      → same_key r heap k l ≡ some (key_equal p q)
  unfolding same_key
  same_key-IsKey IsKey.pid IsKey.pid = refl
  same_key-IsKey IsKey.pid IsKey.integer = refl
  same_key-IsKey IsKey.pid (IsKey.text e) = refl
  same_key-IsKey IsKey.integer IsKey.pid = refl
  same_key-IsKey IsKey.integer IsKey.integer = refl
  same_key-IsKey IsKey.integer (IsKey.text e) = refl
  same_key-IsKey (IsKey.text e) IsKey.pid = refl
  same_key-IsKey (IsKey.text e) IsKey.integer = refl
  same_key-IsKey (IsKey.text e) (IsKey.text f) = rw (e, f) refl

  module _ (k : Value) (q : Key) (key : IsKey heap k q) where
    abbrev pub test : Value → Option Bool
    test p = same_key r heap p k

    pub Reads-append :
        (y : Value) (es : List Entry) (d : Dict)
        → Reads heap es d
        → lookup q d ≡ none
        → Reads heap (es ++ ((k, y) ∷ [])) (put q y d)
    Reads-append y [] [] reads absent = (key, refl, tt)
    Reads-append y ((l, x) ∷ es) ((p, z) ∷ d) (is, same, reads) absent =
        elim (Bool-cases (key_equal p q)) [
          | inl here ↦ absurd (some-ne-none (rw here at absent))
          | inr there ↦ rw there (is, same, Reads-append y es d reads (rw there at absent))
        ]
    Reads-append y [] (_ ∷ d) reads absent = elim reads [ ]
    Reads-append y (_ ∷ es) [] reads absent = elim reads [ ]

    pub search-cases :
        (es : List Entry) (d : Dict)
        → Reads heap es d
        → ((search test es ≡ some none) × (lookup q d ≡ none))
          ⊎ ((i : ℕ) × (l x : Value) × (search test es ≡ some (some i))
              × (get_elem? es i ≡ some (l, x))
              × (lookup q d ≡ some x)
              × ((y : Value) → Reads heap (set_value es i y) (put q y d)))
    unfolding search
    search-cases [] [] reads = inl (refl, refl)
    search-cases ((l, x) ∷ es) ((p, z) ∷ d) (is, same, reads) = elim (Bool-cases (key_equal p q)) [
      | inl here ↦ inr (
        0,
        l,
        x,
        search-here test l x es (same_key-IsKey is key ∙ ap some here),
        refl,
        rw here (ap some (sym same)),
        λ y. rw here (is, refl, reads),
      )
      | inr there ↦ (elim (search-cases es d reads) [
        | inl (e, absent) ↦ inl (
          search-there test l x es (same_key-IsKey is key ∙ ap some there) ∙ ap shift e,
          rw there absent,
        )
        | inr (i, l', x', e, at, found, stored) ↦ inr (
          suc i,
          l',
          x',
          search-there test l x es (same_key-IsKey is key ∙ ap some there) ∙ ap shift e,
          at,
          rw there found,
          λ y. rw there (is, same, stored y),
        )
      ])
    ]
    search-cases [] (_ ∷ d) reads = elim reads [ ]
    search-cases (_ ∷ es) [] reads = elim reads [ ]
