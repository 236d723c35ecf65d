-- ===== src/Growable.antt =====
-- The growable objects of the standard library: what src/private/std_array.c, src/private/std_buffer.c
-- and src/private/std_table.c have in common, an object with a capacity, a size and a fixed buffer.
-- An argument of a native function is at an index below the base of its frame.
pub mod Args
pub mod Laws
use Prim.Native.String.{String}
use any_vm.Base.{
  ℕ, ℤ, pos, negsuc, zero, suc, ◌+◌, ◌-◌, ◌*◌, ◌/◌, ◌^◌, ◌≡◌, ltb, leb, ltb_ℤ, ◌==◌, ◌&&◌, Bool,
  true, false, if◌then◌else◌, Option, none, some, List, [], ◌∷◌, ◌++◌, length, get_elem?, set, take,
}
use any_vm.Errno.{AError}
use any_vm.Value.{AType, Value, Vec, Obj, type_of, same_type}
use any_vm.Word.{wrap64}
use any_vm.Growth.{grow}
use any_vm.Machine.{Actor, Out, M, pure, fail, address, ◌>>=◌, ◌>>◌, Env}
use any_vm.Operand.{error, push, at, check_index, check_integer}

-- The C types of the three objects: a tag, the size of an element, what an element holds that no
-- one has written, and the object that the bytes are read as.
pub record Kind (A : Type 0) : Type 0 where
  pub type : AType
  pub elem_bytes : ℕ
  pub fresh : ℕ → A
  pub pack : Vec A → Obj
  pub unpack : Obj → Option (Vec A)
  pub unpack-pack : (v : Vec A) → unpack (pack v) ≡ some v

-- `sizeof(agc_array_t)`, and that of the other two.
abbrev pub vec_bytes : ℕ
vec_bytes = 32

abbrev pub init_grow : ℕ
init_grow = 64

-- The elements from `i` on of a buffer that is not yet written.
unfoldable pub fresh_from : {A : Type 0} → (ℕ → A) → (i n : ℕ) → List A
fresh_from f i zero = []
fresh_from f i (suc n) = f i ∷ fresh_from f (suc i) n

-- The capacity that the doubling loop finds; `none` is an overflow of `aint_t`.
unfoldable pub doubled : (cap sz : ℕ) → Option ℕ
doubled cap sz = grow sz (if cap == 0 then init_grow else cap) sz

-- What the code reads the value at an address as, with `AGC_CAST`.
abbrev pub heap_index : Value → M ℕ
heap_index (Value.collectable t h) = pure h
heap_index _ = fail

abbrev pub object : ℕ → M Obj
object h a = elim (get_elem? a.heap h) [ none ↦ Out.fault | some o ↦ Out.ok o a ]

abbrev pub with_object : Actor → ℕ → Obj → Actor
with_object a h o = record a { heap = set a.heap h o }

abbrev pub put_object : ℕ → Obj → M (Unit {0})
put_object h o a = Out.ok tt (with_object a h o)

abbrev pub found : {A : Type 0} → Option A → M A
found none = fail
found (some x) = pure x

-- The checks of the bounds of an index.
unfoldable pub check_bounds : Env → (idx : ℤ) (sz : ℕ) → M ℕ
check_bounds env (pos i) sz =
    if ltb i sz then pure i else error env AError.runtime "bad index %lld" (pos i ∷ [])
check_bounds env (negsuc n) sz = error env AError.runtime "bad index %lld" (negsuc n ∷ [])

-- A check of the type of an argument, such as `any_check_array`.
unfoldable pub check_type : Env → AType → String → ℕ → M (Unit {0})
unfolding at
check_type env t message i = do
  v ← at i
  if same_type (type_of v) t then pure tt else error env AError.runtime message []

module _ {A : Type 0} (k : Kind A) where
  -- The bytes of `cap` elements, which wrap round.
  abbrev pub bytes_of : ℕ → M ℕ
  bytes_of cap = address (wrap64 (pos (cap * k.elem_bytes)))

  -- The object after its elements in use are copied to a new buffer.
  unfoldable pub moved : (cap cells : ℕ) → Vec A → Option (Vec A)
  unfolding fresh_from
  moved cap cells v =
      if leb v.sz cap && leb v.sz (length v.slots) && leb v.sz cells
      then some (record {
        cap = cap;
        sz = v.sz;
        slots = take v.sz v.slots ++ fresh_from k.fresh v.sz (cells - v.sz);
      })
      else none

module _ (env : Env) {A : Type 0} (k : Kind A) where
  unfoldable pub vec_at : ℕ → M (ℕ × Vec A)
  unfolding at
  vec_at i = do x ← at i; h ← heap_index x; o ← object h; v ← found (k.unpack o); pure (h, v)

  -- `set_capacity`
  unfoldable pub set_capacity : ℕ → (cap : ℕ) → M (Unit {0})
  unfolding vec_at moved
  set_capacity i cap = do
    bytes ← bytes_of k cap
    room ← λ a. Out.ok (env.heap_ok a.heap bytes) a
    elim room [
      | false ↦ error env AError.runtime "out of memory" []
      | true ↦ (do
        (h, v) ← vec_at i
        w ← found (moved k cap (bytes / k.elem_bytes) v)
        put_object h (k.pack w))
    ]

  -- `agc_array_new` and the like: `none` if the heap has no room.
  unfoldable pub new : (cap : ℕ) → M (Option Value)
  unfolding fresh_from
  new cap = do
    bytes ← bytes_of k cap
    total ← address (wrap64 (pos (vec_bytes + bytes)))
    λ a.
        if env.heap_ok a.heap total
        then Out.ok (some (Value.collectable k.type (length a.heap))) (record a {
          heap =
              a.heap
              ++ (k.pack (record {
                cap = cap;
                sz = 0;
                slots = fresh_from k.fresh 0 (bytes / k.elem_bytes);
              })
                  ∷ []);
        })
        else Out.ok none a

  -- `any_push_array` and the like.
  unfoldable pub push_new : (cap : ℕ) → M (Unit {0})
  unfolding new
  push_new cap = do
    v ← new cap
    elim v [ none ↦ error env AError.runtime "out of memory" [] | some x ↦ push env x ]

  -- `any_array_reserve`
  unfoldable pub reserve : ℕ → (cap : ℤ) → M (Unit {0})
  unfolding vec_at set_capacity
  reserve i cap = do
    (h, v) ← vec_at i
    elim cap [ negsuc _ ↦ pure tt | pos c ↦ (if ltb v.cap c then set_capacity i c else pure tt) ]

  -- `any_array_shrink_to_fit`
  unfoldable pub shrink_to_fit : ℕ → M (Unit {0})
  unfolding vec_at set_capacity
  shrink_to_fit i = do (h, v) ← vec_at i; set_capacity i v.sz

  -- The growth in `any_array_resize`.
  unfoldable pub make_room : ℕ → Vec A → (sz : ℕ) → M (Unit {0})
  unfolding set_capacity doubled
  make_room i v sz =
      if ltb v.cap sz then (do cap ← found (doubled v.cap sz); set_capacity i cap) else pure tt

  -- The library function `new/1`.
  unfoldable pub lnew : M (Unit {0})
  unfolding push_new
  lnew = do
    i ← check_index env (negsuc 0)
    cap ← check_integer env i
    elim cap [
      | pos n ↦ push_new n
      | negsuc n ↦ error env AError.runtime "bad capacity %lld" (negsuc n ∷ [])
    ]
