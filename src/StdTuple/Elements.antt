-- ===== src/StdTuple/Elements.antt =====
-- The elements of a tuple: all nil in a new one, read and written within its size.
use any_vm.Base.{
  Bool, true, false, ℕ, ℤ, ◌≤ℤ◌, pos, negsuc, ◌+◌, ◌*◌, ◌^◌, ◌<◌, ◌≡◌, refl, ◌⊎◌, inl, inr,
  Bool-cases, some, List, [], ◌∷◌, ◌++◌, arith, le→leb, length, get_elem?, get_elem?-some, set,
  replicate,
}
use any_vm.Errno.{AError}
use any_vm.Value.{AType, Value, Obj}
use any_vm.Word.{wrap64_of_IsInt64}
use any_vm.Machine.{Actor, Out, Env}
use any_vm.Safe.{IsActor}
use any_vm.Operand.{error, push}
use any_vm.Operand.Laws.{error-and_then}
use any_vm.Growable.{with_object, object}
use any_vm.Growable.Args.{
  Arg, arg_at, at-Arg, check_index-Arg, check_integer-Arg, check_type-Arg, Outside,
  check_bounds-cases,
}
use any_vm.StdTuple.{tuple_bytes, value_bytes, tuple_at, lnew, push_new, lget, lset}

-- The last argument is the tuple of these values at the heap index `h`.
pub record IsTuple (a : Actor) (h : ℕ) (xs : List Value) : Type 0 where
  pub arg : Arg a 0 (Value.collectable AType.tuple h)
  pub here : get_elem? a.heap h ≡ some (Obj.tuple xs)

-- The state with a new object on the heap.
abbrev pub with_new : Actor → Obj → Actor
with_new a o = record a { heap = a.heap ++ (o ∷ []) }

module _ (env : Env) {a : Actor} (valid : IsActor a) where
  -- Whether the heap has room for a tuple of `n` elements.
  abbrev pub Room : Actor → ℕ → Bool → Type 0
  Room b n answer = env.heap_ok b.heap (tuple_bytes + n * value_bytes) ≡ answer

  push_new-cases :
      (n : ℕ)
      → n < 2 ^ 58
      → Room a n true
          × (push_new env n a
              ≡ push env
                  (Value.collectable AType.tuple (length a.heap))
                  (with_new a (Obj.tuple (replicate n Value.nil))))
        ⊎ Room a n false × (push_new env n a ≡ error env AError.runtime "out of memory" [] a)
  unfolding push_new
  push_new-cases n small =
      let fits : tuple_bytes + n * value_bytes < 2 ^ 63 = omega arith in
      elim (Bool-cases (env.heap_ok a.heap (tuple_bytes + n * value_bytes))) [
        | inl room ↦ inl (
          room,
          rw (wrap64_of_IsInt64 (pos (tuple_bytes + n * value_bytes)) fits) (
              rw
                (
                  room,
                  le→leb (tuple_bytes + n * value_bytes) (tuple_bytes + n * value_bytes)
                      (omega arith),
                )
                refl),
        )
        | inr full ↦
            inr (
              full,
              rw (wrap64_of_IsInt64 (pos (tuple_bytes + n * value_bytes)) fits) (rw full refl),
            )
      ]

  -- In a native function with an integer of at most 2^57 as its last argument, new/1 of std-tuple
  -- raises the error of a bad size if it is negative, and otherwise adds a tuple of that many
  -- nils to the heap and pushes it if the heap has room for its bytes, and raises the error of
  -- exhausted memory in the unchanged state if it has none.
  pub lnew-cases :
      (sz : ℤ)
      → Arg a 0 (Value.integer sz)
      → sz ≤ℤ pos (2 ^ 57)
      → ((n : ℕ) × (sz ≡ pos n)
          × Room a n true
          × (lnew env a
              ≡ push env
                  (Value.collectable AType.tuple (length a.heap))
                  (with_new a (Obj.tuple (replicate n Value.nil)))))
        ⊎ ((n : ℕ) × (sz ≡ pos n)
            × Room a n false
            × (lnew env a ≡ error env AError.runtime "out of memory" [] a))
        ⊎ ((n : ℕ) × (sz ≡ negsuc n)
            × (lnew env a ≡ error env AError.runtime "bad size %lld" (sz ∷ []) a))
  unfolding lnew
  lnew-cases (negsuc n) arg small = inr (
      inr (n, refl, rw (check_index-Arg env valid arg) (rw (check_integer-Arg env valid arg) refl)))
  lnew-cases (pos n) arg small = elim (push_new-cases n (omega arith)) [
    | inl (room, e) ↦
        inl (
          n,
          refl,
          room,
          rw (check_index-Arg env valid arg) (rw (check_integer-Arg env valid arg) e),
        )
    | inr (full, e) ↦ inr (
        inl (
          n,
          refl,
          full,
          rw (check_index-Arg env valid arg) (rw (check_integer-Arg env valid arg) e),
        ))
  ]

module _ (env : Env) {a : Actor} {h : ℕ} {xs : List Value} (valid : IsActor a)
    (g : IsTuple a h xs) where
  tuple_at_lem : tuple_at env (arg_at a 0) a ≡ Out.ok (h, xs) a
  unfolding tuple_at
  tuple_at_lem = rw (at-Arg env valid g.arg) (rw (g.here, object) refl)

  pub lget-cases :
      (idx : ℤ)
      → Arg a 1 (Value.integer idx)
      → ((j : ℕ) × (x : Value) × (idx ≡ pos j)
          × (get_elem? xs j ≡ some x)
          × (lget env a ≡ push env x a))
        ⊎ Outside (length xs) idx
          × (lget env a ≡ error env AError.runtime "bad index %lld" (idx ∷ []) a)
  unfolding lget
  lget-cases idx arg = rw (check_index-Arg env valid g.arg) (
      rw (check_index-Arg env valid arg) (
        rw (check_integer-Arg env valid arg) (
          rw (check_type-Arg env valid g.arg AType.tuple "not tuple" refl) (
            rw tuple_at_lem (elim (check_bounds-cases env idx (length xs) a) [
              | inr (out, e) ↦ inr (out, rw e (error-and_then env _ _ _ _ a))
              | inl (j, same, lt, e) ↦
                  (let (x, e') = get_elem?-some xs j lt in inl (j, x, same, e', rw e (rw e' refl)))
            ])))))

  pub lset-cases :
      (idx : ℤ) (x : Value)
      → Arg a 1 (Value.integer idx)
      → Arg a 2 x
      → ((j : ℕ) × (idx ≡ pos j)
          × (j < length xs)
          × (lset env a ≡ push env Value.nil (with_object a h (Obj.tuple (set xs j x)))))
        ⊎ Outside (length xs) idx
          × (lset env a ≡ error env AError.runtime "bad index %lld" (idx ∷ []) a)
  unfolding lset
  lset-cases idx x arg last = rw (check_index-Arg env valid g.arg) (
      rw (check_index-Arg env valid arg) (
        rw (check_index-Arg env valid last) (
          rw (check_integer-Arg env valid arg) (
            rw (check_type-Arg env valid g.arg AType.tuple "not tuple" refl) (
              rw tuple_at_lem (elim (check_bounds-cases env idx (length xs) a) [
                | inr (out, e) ↦ inr (out, rw e (error-and_then env _ _ _ _ a))
                | inl (j, same, lt, e) ↦ inl (j, same, lt, rw e (rw (at-Arg env valid last) refl))
              ]))))))
