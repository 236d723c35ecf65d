-- ===== src/StdTable.antt =====
-- The library std-table, src/private/std_table.c and src/inc/any/std_table.h: a list of entries that
-- is searched from the front. Slots that no one has written hold nil here.
pub mod Dict
pub mod Search
pub mod Access
pub mod Writes
mod Tests
use any_vm.Base.{
  ℕ, ℤ, pos, negsuc, zero, suc, ◌+◌, ◌*◌, ltb, leb, eq_ℤ, ◌==◌, ◌&&◌, Bool, true, false,
  if◌then◌else◌, Option, none, some, List, [], ◌∷◌, ◌≡◌, refl, length, get_elem?, set, take,
}
use any_vm.Errno.{AError}
use any_vm.Value.{AType, Value, Vec, Obj, type_of, same_type}
use any_vm.Growth.{grow_factor}
use any_vm.Text.{string_equal}
use any_vm.Machine.{Actor, Out, M, pure, fail, ◌>>=◌, ◌>>◌, Env, Reals, fuzzy_equals}
use any_vm.Operand.{error, push, at, check_index}
use any_vm.Growable
use any_vm.Growable.{Kind, check_type, found, put_object, vec_at, init_grow}

abbrev pub Entry : Type 0
Entry = Value × Value

abbrev as_table : Obj → Option (Vec Entry)
as_table (Obj.table v) = some v
as_table _ = none

-- `agc_table_t`
abbrev pub table_kind : Kind Entry
table_kind = record {
  type = AType.table;
  elem_bytes = 32;
  fresh = λ i. (Value.nil, Value.nil);
  pack = Obj.table;
  unpack = as_table;
  unpack-pack = λ v. refl;
}

-- `VALID_KEYS`
abbrev pub valid_key : AType → Bool
valid_key AType.pid = true
valid_key AType.integer = true
valid_key AType.real = true
valid_key AType.string = true
valid_key _ = false

-- `agc_string_compare(l, r) == 0`; `none` is a value that names no string.
abbrev pub same_string : Option Obj → Option Obj → Option Bool
same_string (some (Obj.string l)) (some (Obj.string r)) = some (string_equal l r)
same_string _ _ = none

-- The comparison of a key of the table with the one that is looked for.
unfoldable pub same_key : Reals → List Obj → Value → Value → Option Bool
same_key r heap (Value.pid p) (Value.pid q) = some (p == q)
same_key r heap (Value.integer m) (Value.integer n) = some (eq_ℤ m n)
same_key r heap (Value.real x) (Value.real y) = some (fuzzy_equals r x y)
same_key r heap (Value.collectable AType.string i) (Value.collectable AType.string j) =
    same_string (get_elem? heap i) (get_elem? heap j)
same_key r heap u v = some false

-- The position of the first entry that passes, if there is one.
abbrev pub shift : Option (Option ℕ) → Option (Option ℕ)
shift (some (some i)) = some (some (suc i))
shift o = o

unfoldable pub search : (Value → Option Bool) → List Entry → Option (Option ℕ)
search test [] = some none
search test ((k, x) ∷ es) = elim (test k) [
  | none ↦ none
  | some true ↦ some (some 0)
  | some false ↦ shift (search test es)
]

-- The value of an entry is replaced.
abbrev pub set_value : List Entry → ℕ → Value → List Entry
set_value [] i x = []
set_value ((k, y) ∷ es) zero x = (k, x) ∷ es
set_value (e ∷ es) (suc i) x = e ∷ set_value es i x

module _ (env : Env) where
  abbrev pub table_at : ℕ → M (ℕ × Vec Entry)
  table_at = vec_at env table_kind

  -- `set_capacity`
  abbrev pub set_capacity : ℕ → (cap : ℕ) → M (Unit {0})
  set_capacity = Growable.set_capacity env table_kind

  -- `agc_table_new`, `any_push_table`, and the library function `new/1`.
  abbrev pub table_new : (cap : ℕ) → M (Option Value)
  table_new = Growable.new env table_kind

  abbrev pub push_table : (cap : ℕ) → M (Unit {0})
  push_table = Growable.push_new env table_kind

  abbrev pub lnew : M (Unit {0})
  lnew = Growable.lnew env table_kind

  -- `any_check_table`
  abbrev pub check_table : ℕ → M (Unit {0})
  check_table = check_type env AType.table "not table"

  unfoldable pub check_key : Value → M (Unit {0})
  check_key k =
      if valid_key (type_of k) then pure tt else error env AError.runtime "bad key type" []

  -- `search_for`: the position of the entry among those in use.
  unfoldable pub search_for : Vec Entry → Value → M (Option ℕ)
  unfolding search same_key
  search_for v k a =
      found
        (if leb v.sz (length v.slots)
          then search (λ p. same_key env.reals a.heap p k) (take v.sz v.slots)
          else none)
        a

  abbrev pub value_at : List Entry → Option ℕ → Option Value
  value_at es none = some Value.nil
  value_at es (some i) = elim (get_elem? es i) [ none ↦ none | some (k, x) ↦ some x ]

  -- `get/2`
  unfoldable pub lget : M (Unit {0})
  unfolding vec_at check_key search_for
  lget = do
    self ← check_index env (negsuc 0)
    j ← check_index env (negsuc 1)
    check_table self
    (h, v) ← table_at self
    k ← at j
    check_key k
    i ← search_for v k
    x ← found (value_at v.slots i)
    push env x

  -- The growth of a full table.
  unfoldable pub grow_full : ℕ → Vec Entry → M (Unit {0})
  grow_full self v =
      if v.sz == v.cap
      then set_capacity self (if v.cap == 0 then init_grow else v.cap * grow_factor)
      else pure tt

  -- The store of a new entry behind those in use, with its assertion.
  unfoldable pub append_entry : (self j k : ℕ) → M (Unit {0})
  unfolding vec_at
  append_entry self j k = do
    (h, v) ← table_at self
    key ← at j
    x ← at k
    if ltb v.sz v.cap && ltb v.sz (length v.slots)
        then put_object h
            (Obj.table (record v { sz = v.sz + 1; slots = set v.slots v.sz (key, x) }))
        else fail

  -- The end of `set/3`: a value is replaced or an entry is added.
  unfoldable pub store_entry : (self j k h : ℕ) → Vec Entry → Option ℕ → M (Unit {0})
  unfolding grow_full append_entry
  store_entry self j k h v none = grow_full self v >> append_entry self j k
  store_entry self j k h v (some i) = do
    x ← at k
    put_object h (Obj.table (record v { slots = set_value v.slots i x }))

  -- `set/3`
  unfoldable pub lset : M (Unit {0})
  unfolding vec_at check_key search_for store_entry
  lset = do
    self ← check_index env (negsuc 0)
    j ← check_index env (negsuc 1)
    k ← check_index env (negsuc 2)
    check_table self
    (h, v) ← table_at self
    key ← at j
    check_key key
    i ← search_for v key
    store_entry self j k h v i
    push env Value.nil

  -- `size/1`
  unfoldable pub lsize : M (Unit {0})
  unfolding vec_at
  lsize = do
    self ← check_index env (negsuc 0)
    check_table self
    (h, v) ← table_at self
    push env (Value.integer (pos v.sz))

  -- `capacity/1`
  unfoldable pub lcapacity : M (Unit {0})
  unfolding vec_at
  lcapacity = do
    self ← check_index env (negsuc 0)
    check_table self
    (h, v) ← table_at self
    push env (Value.integer (pos v.cap))
