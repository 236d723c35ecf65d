-- ===== src/StdArray/Sizes.antt =====
-- A resize keeps the elements of an array and fills the new ones with nil.
use any_vm.Base.{
  Bool, ℕ, ◌+◌, ◌-◌, ◌*◌, ◌^◌, ◌≤◌, ◌<◌, ◌≡◌, refl, sym, ◌∙◌, ap, ◌⊎◌, Bool-cases, inl, inr, ltb,
  ◌==◌, ==_iff, some, List, [], ◌++◌, append-nil, arith, le→leb, length, length-overwrite,
  length-replicate, set, take, take-take, take_all, length-take, take-overwrite, overwrite,
  replicate, true, false,
}
use any_vm.Errno.{AError}
use any_vm.Value.{Value, Vec, Obj}
use any_vm.Machine.{Actor, Out, Env}
use any_vm.Safe.{IsActor}
use any_vm.Operand.{error}
use any_vm.Operand.Laws.{error-and_then}
use any_vm.Growable.{doubled, init_grow, with_object, make_room}
use any_vm.Growable.Args.{arg_at, IsActor-heap}
use any_vm.Growable.Laws.{
  Holds-with_object, with_object_unchanged, with_object_twice, doubled-Doubled, IsVec, contents,
  recapped, recapped-IsVec, contents-recapped, Holds, vec_at-Holds, set_capacity-cases,
}
use any_vm.StdArray.{array_kind, filled, set_size, resize}

-- What an array of these elements holds after it is resized.
abbrev pub resized : (sz : ℕ) → Vec Value → List Value
resized sz v = take sz (contents v) ++ replicate (sz - v.sz) Value.nil

pub record Filled (sz : ℕ) (v w : Vec Value) : Type 0 where
  pub valid : IsVec w
  pub size : w.sz ≡ sz
  pub elements : contents w ≡ resized sz v

abbrev zero_minus : (m n : ℕ) → m ≤ n → m - n ≡ 0
zero_minus m n h = omega arith

resized-smaller : (sz : ℕ) (v : Vec Value) → sz ≤ v.sz → resized sz v ≡ take sz v.slots
resized-smaller sz v h =
    rw (zero_minus sz v.sz h) (append-nil (take sz (contents v)) ∙ take-take sz v.sz v.slots h)

filled-Filled :
    (sz : ℕ) {v : Vec Value}
    → IsVec v
    → sz ≤ v.cap
    → (w : Vec Value) × (filled sz v ≡ some w) × (w.cap ≡ v.cap) × Filled sz v w
unfolding filled
filled-Filled sz {v} i fits = elim (Bool-cases (ltb v.sz sz)) [
  | inr smaller ↦ (
    record v { sz = sz },
    rw smaller refl,
    refl,
    record {
      valid = record { used = fits; storage = i.storage };
      size = refl;
      elements = sym (resized-smaller sz v (ground arith));
    },
  )
  | inl larger ↦ (
    record v { sz = sz; slots = overwrite v.slots v.sz (replicate (sz - v.sz) Value.nil) },
    rw (larger, le→leb sz (length v.slots) (omega (arith, i.storage))) refl,
    refl,
    record {
      valid = record {
        used = fits;
        storage = length-overwrite v.slots v.sz (replicate (sz - v.sz) Value.nil) ∙ i.storage;
      };
      size = refl;
      elements = written (ground arith);
    },
  )
]
  where
    news : List Value
    news = replicate (sz - v.sz) Value.nil

    written :
        v.sz < sz
        → take sz (overwrite v.slots v.sz (replicate (sz - v.sz) Value.nil)) ≡ resized sz v
    written larger =
        ap (λ n. take n (overwrite v.slots v.sz news))
          (omega (arith, length-replicate (sz - v.sz) Value.nil))
        ∙ take-overwrite v.slots v.sz news
            (omega (arith, i.storage, length-replicate (sz - v.sz) Value.nil))
        ∙ ap (λ l. l ++ news)
            (sym (take_all sz (contents v) (omega (arith, length-take v.sz v.slots))))

-- `w` is the array `v` after a resize to `sz` elements.
pub record Resized (sz : ℕ) (v w : Vec Value) : Type 0 where
  pub filled : Filled sz v w
  pub capacity : (w.cap ≡ v.cap) × (sz ≤ v.cap) ⊎ (v.cap < sz) × (w.cap < 2 * sz + init_grow + 1)

-- Where an array grows to `sz` elements, whether the heap has room for the doubled capacity.
abbrev pub Answered : Env → Actor → Vec Value → ℕ → Bool → Type 0
Answered env a v sz answer =
    (cap : ℕ) × (doubled v.cap sz ≡ some cap)
    × (env.heap_ok a.heap (cap * array_kind.elem_bytes) ≡ answer)

abbrev ok_with : Actor → Out (Unit {0})
ok_with a = Out.ok tt a

module _ (env : Env) {a : Actor} {n h : ℕ} {v : Vec Value} (valid : IsActor a)
    (g : Holds array_kind a n h v) (i : IsVec v) where
  set_size-Filled :
      (sz : ℕ)
      → sz ≤ v.cap
      → (w : Vec Value) × (set_size env (arg_at a n) sz a
          ≡ Out.ok tt (with_object a h (Obj.array w)))
        × (w.cap ≡ v.cap)
        × Filled sz v w
  unfolding set_size
  set_size-Filled sz fits =
      let (w, e, c, f) = filled-Filled sz i fits in
      (w, rw (vec_at-Holds env array_kind valid g) (rw (le→leb sz v.cap fits) (rw e refl)), c, f)

module _ (env : Env) {a : Actor} {n h : ℕ} {v : Vec Value} (valid : IsActor a)
    (g : Holds array_kind a n h v) (i : IsVec v) where
  pub resize-Resized :
      (sz : ℕ)
      → sz < 2 ^ 57
      → ((w : Vec Value) × (resize env (arg_at a n) sz a
            ≡ Out.ok tt (with_object a h (Obj.array w)))
          × Resized sz v w
          × ((w.cap ≡ v.cap) ⊎ Answered env a v sz true))
        ⊎ (v.cap < sz)
          × Answered env a v sz false
          × (resize env (arg_at a n) sz a ≡ error env AError.runtime "out of memory" [] a)
  unfolding resize make_room
  resize-Resized sz small = elim (Bool-cases (v.sz == sz)) [
    | inl same ↦
        (let size : v.sz ≡ sz = (==_iff v.sz sz).0 same in
          inl (
            v,
            rw (vec_at-Holds env array_kind valid g)
                (rw same (ap ok_with (with_object_unchanged g))),
            record {
              filled = record {
                valid = i;
                size = size;
                elements = ap (λ n. take n v.slots) size ∙ sym (resized-smaller sz v (omega arith));
              };
              capacity = inl (refl, omega (arith, i.used));
            },
            inl refl,
          ))
    | inr other ↦ (elim (Bool-cases (ltb v.cap sz)) [
      | inr fits ↦
          (let (w, e, c, f) = set_size-Filled env valid g i sz (ground arith) in
            inl (
              w,
              rw (vec_at-Holds env array_kind valid g) (rw (other, fits) e),
              record { filled = f; capacity = inl (c, ground arith) },
              inl c,
            ))
      | inl grows ↦
          (let (c, e, d) = doubled-Doubled v.cap sz (ground arith) (omega arith) in
            elim (set_capacity-cases env array_kind valid g c i (omega (arith, i.used, d.no_less))
              (omega (arith, d.small)) (omega arith)) [
                | inr (no_room, full) ↦ inr (
                  ground arith,
                  (c, e, no_room),
                  rw (vec_at-Holds env array_kind valid g)
                      (rw (other, grows, e) (rw full (error-and_then env _ _ _ _ a))),
                )
                | inl (some_room, moved) ↦
                    (let v' : Vec Value = recapped array_kind c v in
                      let i' : IsVec v' =
                        recapped-IsVec array_kind i c (omega (arith, i.used, d.no_less)) in
                      let (w, e', cap', f) =
                        set_size-Filled env (IsActor-heap (set a.heap h (Obj.array v')) valid)
                          (Holds-with_object v' g) i' sz d.enough in
                      inl (
                        w,
                        rw (vec_at-Holds env array_kind valid g) (
                            rw (other, grows, e)
                              (rw moved (
                                e'
                                ∙ ap ok_with
                                    (with_object_twice a h (Obj.array v') (Obj.array w))))),
                        record {
                          filled = record {
                            valid = f.valid;
                            size = f.size;
                            elements =
                                f.elements
                                ∙ ap (λ l. take sz l ++ replicate (sz - v.sz) Value.nil)
                                    (contents-recapped array_kind i c
                                      (omega (arith, i.used, d.no_less)));
                          };
                          capacity = inr (ground arith, omega (arith, cap', d.small));
                        },
                        inr (c, e, some_room),
                      ))
              ])
    ])
  ]
