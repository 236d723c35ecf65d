-- ===== src/StdTable/Tests.antt =====
-- A table with one entry under a text.
use any_vm.Base.{ℕ, pos, ◌≡◌, ◌⊎◌, refl, none, List, [], ◌∷◌, arith, true, false, ◌<◌, ◌*◌, some}
use any_vm.Errno.{AError}
use any_vm.Value.{AType, Value, Vec, Obj}
use any_vm.Machine.{Actor}
use any_vm.Operand.{push, error}
use any_vm.Sample.{env, native_call, native_call-IsActor}
use any_vm.Growable.{with_object}
use any_vm.Growable.Laws.{IsVec, contents}
use any_vm.StdTable.{Entry, lget, lset}
use any_vm.StdTable.Dict.{Key, Dict, lookup, put}
use any_vm.StdTable.Search.{IsKey, Reads}
use any_vm.StdTable.Access.{or_nil, lget-lookup}
use any_vm.StdTable.Writes.{lset-put}

abbrev name : List ℕ
name = b'i' ∷ b'd' ∷ []

abbrev text : Value
text = Value.collectable AType.string 1

abbrev self : Value
self = Value.collectable AType.table 0

abbrev one_entry : Vec Entry
one_entry = record { cap = 1; sz = 1; slots = (text, Value.integer (pos 7)) ∷ [] }

abbrev dict : Dict
dict = (Key.text name, Value.integer (pos 7)) ∷ []

one_entry-IsVec : IsVec one_entry
one_entry-IsVec = record { used = omega arith; storage = refl }

abbrev objects : List Obj
objects = Obj.table one_entry ∷ Obj.string name ∷ Obj.string name ∷ []

-- Another string with the same text is the key.
abbrev asked : Value
asked = Value.collectable AType.string 2

abbrev reading : Actor
reading = native_call (asked ∷ self ∷ []) objects

abbrev writing : Actor
writing = native_call (Value.nil ∷ asked ∷ self ∷ []) objects

lget-lookup_example : lget env reading ≡ push env (or_nil (lookup (Key.text name) dict)) reading
lget-lookup_example =
    lget-lookup env (native_call-IsActor (asked ∷ self ∷ []) objects (omega arith))
      (record { arg = record { within = omega arith; value = refl }; here = refl }) one_entry-IsVec
      (record { within = omega arith; value = refl }) (IsKey.text refl) dict
      (IsKey.text refl, refl, tt)

lset-put_example :
    ((one_entry.sz ≡ 1)
      × (lookup (Key.text name) dict ≡ none)
      × (env.heap_ok writing.heap (2 * 32) ≡ false)
      × (lset env writing ≡ error env AError.runtime "out of memory" [] writing))
    ⊎ ((w : Vec Entry) × IsVec w
        × (((y : Value) × (lookup (Key.text name) dict ≡ some y))
            ⊎ (1 < 1)
            ⊎ (env.heap_ok writing.heap (2 * 32) ≡ true))
        × Reads
            (with_object writing 0 (Obj.table w)).heap
            (contents w)
            (put (Key.text name) Value.nil dict)
        × (lset env writing ≡ push env Value.nil (with_object writing 0 (Obj.table w))))
lset-put_example =
    lset-put env (native_call-IsActor (Value.nil ∷ asked ∷ self ∷ []) objects (omega arith))
      (record { arg = record { within = omega arith; value = refl }; here = refl }) one_entry-IsVec
      (record { within = omega arith; value = refl })
      (record { within = omega arith; value = refl }) (omega arith) dict (IsKey.text refl)
      (IsKey.text refl, refl, tt)
