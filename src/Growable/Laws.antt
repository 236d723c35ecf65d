-- ===== src/Growable/Laws.antt =====
-- What the operations on growable objects do inside a native function: a new capacity keeps the
-- elements in use.
use native.Mathlib.Nat.{mul-div_cancel}
use any_vm.Base.{
  true, false, zero, suc, ℕ, pos, ◌+◌, ◌-◌, ◌*◌, ◌^◌, ◌≤◌, ◌<◌, ◌≡◌, refl, sym, ◌∙◌, ap, ◌⊎◌,
  Bool-cases, inl, inr, ◌==◌, if◌then◌else◌, some, List, [], ◌++◌, arith, le→leb, length,
  length-append, length-take, get_elem?, get_elem?-lt, get_elem?-set_self, set, set-set,
  set_unchanged, take, take-append_length,
}
use any_vm.Errno.{AError}
use any_vm.Value.{Value, Vec, Obj}
use any_vm.Word.{wrap64_of_IsInt64}
use any_vm.Growth.{grow_total}
use any_vm.Machine.{Actor, Out, Env}
use any_vm.Safe.{IsActor}
use any_vm.Operand.{error}
use any_vm.Growable.{
  Kind, fresh_from, init_grow, doubled, object, with_object, moved, set_capacity, vec_at,
}
use any_vm.Growable.Args.{Arg, Arg-heap, arg_at, at-Arg}

-- A well-formed object: its buffer has room for its capacity.
pub record IsVec {A : Type 0} (v : Vec A) : Type 0 where
  pub used : v.sz ≤ v.cap
  pub storage : length v.slots ≡ v.cap

-- The elements in use.
abbrev pub contents : {A : Type 0} → Vec A → List A
contents v = take v.sz v.slots

length-fresh_from : {A : Type 0} (f : ℕ → A) (i n : ℕ) → length (fresh_from f i n) ≡ n
unfolding fresh_from
length-fresh_from f i zero = refl
length-fresh_from f i (suc n) = ap suc (length-fresh_from f (suc i) n)

-- The object with a new capacity.
abbrev pub recapped : {A : Type 0} → Kind A → (cap : ℕ) → Vec A → Vec A
recapped k cap v = record {
  cap = cap;
  sz = v.sz;
  slots = take v.sz v.slots ++ fresh_from k.fresh v.sz (cap - v.sz);
}

module _ {A : Type 0} (k : Kind A) {v : Vec A} (w : IsVec v) (cap : ℕ) (fits : v.sz ≤ cap) where
  length-contents : length (contents v) ≡ v.sz
  length-contents = omega (arith, length-take v.sz v.slots, w.used, w.storage)

  pub recapped-IsVec : IsVec (recapped k cap v)
  recapped-IsVec = record {
    used = fits;
    storage = omega (
      arith,
      length-append (contents v) (fresh_from k.fresh v.sz (cap - v.sz)),
      length-contents,
      length-fresh_from k.fresh v.sz (cap - v.sz),
    );
  }

  -- The elements in use are the same.
  pub contents-recapped : contents (recapped k cap v) ≡ contents v
  contents-recapped =
      ap (λ n. take n (contents v ++ fresh_from k.fresh v.sz (cap - v.sz))) (sym length-contents)
      ∙ take-append_length (contents v) (fresh_from k.fresh v.sz (cap - v.sz))

  moved-recapped : moved k cap cap v ≡ some (recapped k cap v)
  unfolding moved
  moved-recapped =
      rw (le→leb v.sz cap fits, le→leb v.sz (length v.slots) (omega (arith, w.used, w.storage)))
        refl

-- The argument number `n` is the object `v` at the heap index `h`.
pub record Holds {A : Type 0} (k : Kind A) (a : Actor) (n h : ℕ) (v : Vec A) : Type 0 where
  pub arg : Arg a n (Value.collectable k.type h)
  pub here : get_elem? a.heap h ≡ some (k.pack v)

-- A write to an object that was just written.
pub with_object_twice :
    (a : Actor) (h : ℕ) (o p : Obj) → with_object (with_object a h o) h p ≡ with_object a h p
with_object_twice a h o p = ap (λ (l : List Obj). record a { heap = l }) (set-set a.heap h o p)

module _ {A : Type 0} {k : Kind A} {a : Actor} {n h : ℕ} {v : Vec A} where
  pub Holds-with_object : (w : Vec A) → Holds k a n h v → Holds k (with_object a h (k.pack w)) n h w
  Holds-with_object w g = record {
    arg = Arg-heap (set a.heap h (k.pack w)) g.arg;
    here = get_elem?-set_self a.heap h (k.pack w) (get_elem?-lt a.heap h g.here);
  }

  pub with_object_unchanged : Holds k a n h v → a ≡ with_object a h (k.pack v)
  with_object_unchanged g =
      ap (λ (l : List Obj). record a { heap = l }) (sym (set_unchanged a.heap h g.here))

module _ (env : Env) {A : Type 0} (k : Kind A) {a : Actor} {n h : ℕ} {v : Vec A} (valid : IsActor a)
    (g : Holds k a n h v) where
  pub vec_at-Holds : vec_at env k (arg_at a n) a ≡ Out.ok (h, v) a
  unfolding vec_at
  vec_at-Holds = rw (at-Arg env valid g.arg) (rw (g.here, object) (rw (k.unpack-pack v) refl))

  -- With room on the heap the object gets its new buffer, without it the error is raised.
  pub set_capacity-cases :
      (cap : ℕ)
      → IsVec v
      → v.sz ≤ cap
      → cap * k.elem_bytes < 2 ^ 63
      → 0 < k.elem_bytes
      → (env.heap_ok a.heap (cap * k.elem_bytes) ≡ true)
          × (set_capacity env k (arg_at a n) cap a
              ≡ Out.ok tt (with_object a h (k.pack (recapped k cap v))))
        ⊎ (env.heap_ok a.heap (cap * k.elem_bytes) ≡ false)
          × (set_capacity env k (arg_at a n) cap a ≡ error env AError.runtime "out of memory" [] a)
  unfolding set_capacity
  set_capacity-cases cap w fits small pos_bytes =
      elim (Bool-cases (env.heap_ok a.heap (cap * k.elem_bytes))) [
        | inl room ↦ inl (
          room,
          rw
              (
                wrap64_of_IsInt64 (pos (cap * k.elem_bytes)) small,
                room,
                vec_at-Holds,
                mul-div_cancel cap pos_bytes,
                moved-recapped k w cap fits,
              )
              refl,
        )
        | inr full ↦ inr (full, rw (wrap64_of_IsInt64 (pos (cap * k.elem_bytes)) small, full) refl)
      ]

-- What the doubling loop ends with: room for the size, at most twice what is needed.
pub record Doubled (cap sz r : ℕ) : Type 0 where
  pub enough : sz ≤ r
  pub no_less : cap ≤ r
  pub small : r < 2 * sz + init_grow + 1

pub doubled-Doubled :
    (cap sz : ℕ) → cap < sz → sz < 2 ^ 58 → (r : ℕ) × (doubled cap sz ≡ some r) × Doubled cap sz r
unfolding doubled
doubled-Doubled cap sz lt small =
    let start : ℕ = if cap == 0 then init_grow else cap in
    let (r, e, g) = grow_total sz start sz (ground arith) (omega arith) (omega arith) in
    let bound : r < 2 * sz + init_grow + 1 = ground (arith, g.tight) in
    (r, e, record { enough = g.enough; no_less = ground (arith, g.no_less); small = bound })
