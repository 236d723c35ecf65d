-- ===== src/StdArray/Elements.antt =====
-- The elements of an array: reading, writing and pushing.
use any_vm.Base.{
  ℕ, ℤ, pos, ◌+◌, ◌-◌, ◌^◌, ◌<◌, ◌≡◌, refl, sym, ◌∙◌, ap, ◌⊎◌, Bool-cases, inl, inr, ltb, true,
  some, List, [], ◌∷◌, ◌++◌, arith, lt→ltb, length, length-set, length-take, get_elem?,
  get_elem?-take, get_elem?-some, set, set-append_length, take_all, replicate, take, take-set_ge,
  take-set_lt, false,
}
use any_vm.Errno.{AError}
use any_vm.Value.{AType, Value, Vec, Obj}
use any_vm.Machine.{Actor, Env}
use any_vm.Safe.{IsActor}
use any_vm.Operand.{error, push}
use any_vm.Operand.Laws.{Unmoved, Unmoved-heap, push_at-Unmoved, error-and_then}
use any_vm.Growable.{with_object}
use any_vm.Growable.Args.{
  Arg, arg_at, at-Arg, check_index-Arg, check_integer-Arg, check_type-Arg, IsActor-heap, Arg-heap,
  Outside, check_bounds-cases,
}
use any_vm.Growable.Laws.{
  Holds-with_object, with_object_twice, IsVec, contents, Holds, vec_at-Holds,
}
use any_vm.StdArray.{array_kind, push_element, lget, lset, lpush}
use any_vm.StdArray.Sizes.{Resized, resize-Resized, resized, Answered}

module _ (env : Env) {a : Actor} {h : ℕ} {v : Vec Value} (valid : IsActor a)
    (g : Holds array_kind a 0 h v) (i : IsVec v) where
  -- The heap after the element `j` is written.
  abbrev written : ℕ → Value → List Obj
  written j x = set a.heap h (Obj.array (record v { slots = set v.slots j x }))

  pub lget-cases :
      (idx : ℤ)
      → Arg a 1 (Value.integer idx)
      → ((j : ℕ) × (x : Value) × (idx ≡ pos j)
          × (get_elem? (contents v) j ≡ some x)
          × (lget env a ≡ push env x a))
        ⊎ Outside v.sz idx × (lget env a ≡ error env AError.runtime "bad index %lld" (idx ∷ []) a)
  unfolding lget
  lget-cases idx arg = rw (check_index-Arg env valid g.arg) (
      rw (check_index-Arg env valid arg) (
        rw (check_integer-Arg env valid arg) (
          rw (check_type-Arg env valid g.arg AType.array "not array" refl) (
            rw (vec_at-Holds env array_kind valid g) (elim (check_bounds-cases env idx v.sz a) [
              | inr (out, e) ↦ inr (out, rw e (error-and_then env _ _ _ _ a))
              | inl (j, same, lt, e) ↦
                  (let (x, e') = get_elem?-some v.slots j (omega (arith, i.used, i.storage)) in
                    inl (j, x, same, get_elem?-take v.sz j v.slots lt ∙ e', rw e (rw e' refl)))
            ])))))

  -- In a native function with a well-formed array, an index and a value as its last three
  -- arguments, and a free slot on the stack or an allocator that extends its array where it
  -- stands (otherwise the pushed value is read from freed memory): for an index below the size
  -- set/3 of std-array replaces exactly that element, keeps the array well-formed with its
  -- capacity, and pushes the value; for any other index it raises the error of a bad index in the
  -- unchanged state.
  pub lset-cases :
      (idx : ℤ) (x : Value)
      → Arg a 1 (Value.integer idx)
      → Arg a 2 x
      → Unmoved env a
      → ((j : ℕ) × (w : Vec Value) × (idx ≡ pos j)
          × (j < v.sz)
          × IsVec w
          × (w.cap ≡ v.cap)
          × (contents w ≡ set (contents v) j x)
          × (lset env a ≡ push env x (with_object a h (Obj.array w))))
        ⊎ Outside v.sz idx × (lset env a ≡ error env AError.runtime "bad index %lld" (idx ∷ []) a)
  unfolding lset
  lset-cases idx x arg last unmoved = rw (check_index-Arg env valid g.arg) (
      rw (check_index-Arg env valid arg) (
        rw (check_index-Arg env valid last) (
          rw (check_integer-Arg env valid arg) (
            rw (check_type-Arg env valid g.arg AType.array "not array" refl) (
              rw (vec_at-Holds env array_kind valid g) (elim (check_bounds-cases env idx v.sz a) [
                | inr (out, e) ↦ inr (out, rw e (error-and_then env _ _ _ _ a))
                | inl (j, same, lt, e) ↦ inl (
                  j,
                  record v { slots = set v.slots j x },
                  same,
                  lt,
                  record { used = i.used; storage = length-set v.slots j x ∙ i.storage },
                  refl,
                  take-set_lt v.sz j v.slots x lt,
                  rw e (
                      rw (at-Arg env valid last) (
                        rw (lt→ltb j (length v.slots) (omega (arith, i.used, i.storage))) (
                          push_at-Unmoved env
                            (with_object a h (Obj.array (record v { slots = set v.slots j x })))
                            (arg_at a 2) x
                            (at-Arg env (IsActor-heap (written j x) valid)
                              (Arg-heap (written j x) last))
                            (Unmoved-heap (written j x) unmoved)))),
                )
              ]))))))

pushed_contents :
    (v w : Vec Value) (x : Value)
    → IsVec v
    → Resized (v.sz + 1) v w
    → take w.sz (set w.slots v.sz x) ≡ contents v ++ (x ∷ [])
pushed_contents v w x i r =
    take-set_lt w.sz v.sz w.slots x (omega (arith, r.filled.size))
    ∙ ap (λ l. set l v.sz x) (r.filled.elements ∙ one_more)
    ∙ ap (λ n. set (contents v ++ (Value.nil ∷ [])) n x) (sym size)
    ∙ set-append_length (contents v) Value.nil x
  where
    size : length (contents v) ≡ v.sz
    size = omega (arith, length-take v.sz v.slots, i.used, i.storage)

    minus_self : (n : ℕ) → n + 1 - n ≡ 1
    minus_self n = omega arith

    one_more : resized (v.sz + 1) v ≡ contents v ++ (Value.nil ∷ [])
    one_more =
        ap (λ l. l ++ replicate (v.sz + 1 - v.sz) Value.nil)
          (take_all (v.sz + 1) (contents v) (omega (arith, size)))
        ∙ ap (λ n. contents v ++ replicate n Value.nil) (minus_self v.sz)

module _ (env : Env) {a : Actor} {h : ℕ} (valid : IsActor a) (x : Value) (last : Arg a 1 x) where
  push_element_lem :
      (v : Vec Value) (sz : ℕ)
      → Holds array_kind a 0 h v
      → sz < length v.slots
      → push_element env (arg_at a 0) (arg_at a 1) sz a
        ≡ push env
            (Value.integer (pos (sz + 1)))
            (with_object a h (Obj.array (record v { slots = set v.slots sz x })))
  unfolding push_element
  push_element_lem v sz g room =
      rw (vec_at-Holds env array_kind valid g)
        (rw (at-Arg env valid last) (rw (lt→ltb sz (length v.slots) room) refl))

module _ (env : Env) {a : Actor} {h : ℕ} {v : Vec Value} (valid : IsActor a)
    (g : Holds array_kind a 0 h v) (i : IsVec v) (x : Value) (last : Arg a 1 x)
    (small : v.cap < 2 ^ 56) where
  -- An array that is full has grown.
  grown :
      ltb v.cap (v.sz + 1) ≡ true
      → (w : Vec Value) → Resized (v.sz + 1) v w
      → (w.cap ≡ v.cap) ⊎ Answered env a v (v.sz + 1) true
      → Answered env a v (v.sz + 1) true
  grown full w r (inl same) =
      absurd (ground (arith, same, r.filled.size, r.filled.valid.used, i.used))
  grown full w r (inr asked) = asked

  -- Without spare capacity the array is resized first.
  lpush-full :
      ltb v.cap (v.sz + 1) ≡ true
      → ((v.sz ≡ v.cap)
          × Answered env a v (v.sz + 1) false
          × (lpush env a ≡ error env AError.runtime "out of memory" [] a))
        ⊎ ((v.sz ≡ v.cap)
            × Answered env a v (v.sz + 1) true
            × (w : Vec Value) × IsVec w
            × (contents w ≡ contents v ++ (x ∷ []))
            × (lpush env a
                ≡ push env (Value.integer (pos (v.sz + 1))) (with_object a h (Obj.array w))))
  unfolding lpush
  lpush-full full = rw (check_index-Arg env valid g.arg) (
      rw (check_index-Arg env valid last) (
        rw (vec_at-Holds env array_kind valid g) (
          rw full (elim (resize-Resized env valid g i (v.sz + 1) (omega (arith, i.used))) [
            | inr (_, no_room, e) ↦
                inl (ground (arith, i.used), no_room, rw e (error-and_then env _ _ _ _ a))
            | inl (w, e, r, asked) ↦
                (let heap' : List Obj = set a.heap h (Obj.array w) in
                  inr (
                    ground (arith, i.used),
                    grown full w r asked,
                    record w { slots = set w.slots v.sz x },
                    record {
                      used = r.filled.valid.used;
                      storage = length-set w.slots v.sz x ∙ r.filled.valid.storage;
                    },
                    pushed_contents v w x i r,
                    rw e (
                        push_element_lem env (IsActor-heap heap' valid) x (Arg-heap heap' last) w
                          v.sz (Holds-with_object w g)
                          (omega
                            (arith, r.filled.size, r.filled.valid.used, r.filled.valid.storage))
                        ∙ ap (push env (Value.integer (pos (v.sz + 1))))
                            (with_object_twice a h (Obj.array w) _)),
                  ))
          ]))))

  -- In a native function with a well-formed array of less than 2^56 slots and a value as its last
  -- two arguments, push/2 of std-array pushes the old size plus one on the stack, but adds the
  -- value to the elements only if the array is full: with a spare slot the elements and the size
  -- are those of before and the value is lost. If the array is full, the heap has room for the
  -- doubled capacity and the value is added, or it has none and the error is raised in the
  -- unchanged state.
  pub lpush-cases :
      ((v.sz < v.cap)
        × (w : Vec Value) × (contents w ≡ contents v)
        × (lpush env a ≡ push env (Value.integer (pos (v.sz + 1))) (with_object a h (Obj.array w))))
      ⊎ ((v.sz ≡ v.cap)
          × Answered env a v (v.sz + 1) false
          × (lpush env a ≡ error env AError.runtime "out of memory" [] a))
      ⊎ ((v.sz ≡ v.cap)
          × Answered env a v (v.sz + 1) true
          × (w : Vec Value) × IsVec w
          × (contents w ≡ contents v ++ (x ∷ []))
          × (lpush env a
              ≡ push env (Value.integer (pos (v.sz + 1))) (with_object a h (Obj.array w))))
  unfolding lpush
  lpush-cases = elim (Bool-cases (ltb v.cap (v.sz + 1))) [
    | inr spare ↦ inl (
      ground arith,
      record v { slots = set v.slots v.sz x },
      take-set_ge v.sz v.sz v.slots x (omega arith),
      rw (check_index-Arg env valid g.arg) (
          rw (check_index-Arg env valid last) (
            rw (vec_at-Holds env array_kind valid g)
              (rw spare (push_element_lem env valid x last v v.sz g (ground (arith, i.storage)))))),
    )
    | inl full ↦ inr (lpush-full full)
  ]
