-- ===== src/StdBuffer/Elements.antt =====
-- A byte of a buffer: reading it, and writing the lowest eight bits of an integer.
use any_vm.Base.{
  ℕ, ℤ, pos, ◌%◌, ◌^◌, ◌<◌, ◌≡◌, refl, ◌∙◌, ◌⊎◌, inl, inr, some, [], ◌∷◌, arith, lt→ltb, length,
  length-set, get_elem?, get_elem?-take, get_elem?-some, set, take-set_lt,
}
use any_vm.Errno.{AError}
use any_vm.Value.{AType, Value, Vec, Obj}
use any_vm.Word.{bits64}
use any_vm.Machine.{Actor, Env}
use any_vm.Safe.{IsActor}
use any_vm.Operand.{error, push}
use any_vm.Operand.Laws.{error-and_then}
use any_vm.Growable.{with_object}
use any_vm.Growable.Args.{
  Arg, check_index-Arg, check_integer-Arg, check_type-Arg, Outside, check_bounds-cases,
}
use any_vm.Growable.Laws.{IsVec, contents, Holds, vec_at-Holds}
use any_vm.StdBuffer.{buffer_kind, lget, lset}

module _ (env : Env) (fresh : ℕ → ℕ) {a : Actor} {h : ℕ} {v : Vec ℕ} (valid : IsActor a)
    (g : Holds (buffer_kind fresh) a 0 h v) (i : IsVec v) where
  pub lget-cases :
      (idx : ℤ)
      → Arg a 1 (Value.integer idx)
      → ((j b : ℕ) × (idx ≡ pos j)
          × (get_elem? (contents v) j ≡ some b)
          × (lget env fresh a ≡ push env (Value.integer (pos b)) a))
        ⊎ Outside v.sz idx
          × (lget env fresh a ≡ error env AError.runtime "bad index %lld" (idx ∷ []) a)
  unfolding lget
  lget-cases idx arg = rw (check_index-Arg env valid g.arg) (
      rw (check_index-Arg env valid arg) (
        rw (check_type-Arg env valid g.arg AType.buffer "not buffer" refl) (
          rw (vec_at-Holds env (buffer_kind fresh) valid g) (
            rw (check_integer-Arg env valid arg) (elim (check_bounds-cases env idx v.sz a) [
              | inr (out, e) ↦ inr (out, rw e (error-and_then env _ _ _ _ a))
              | inl (j, same, lt, e) ↦
                  (let (b, e') = get_elem?-some v.slots j (omega (arith, i.used, i.storage)) in
                    inl (j, b, same, get_elem?-take v.sz j v.slots lt ∙ e', rw e (rw e' refl)))
            ])))))

  -- In a native function with a well-formed buffer, an index and an integer as its last three
  -- arguments: for an index below the size set/3 of std-buffer replaces exactly that byte by the
  -- lowest eight bits of the integer, keeps the buffer well-formed and pushes nil; for any other
  -- index it raises the error of a bad index in the unchanged state.
  pub lset-byte :
      (idx val : ℤ)
      → Arg a 1 (Value.integer idx)
      → Arg a 2 (Value.integer val)
      → ((j : ℕ) × (w : Vec ℕ) × (idx ≡ pos j)
          × (j < v.sz)
          × IsVec w
          × (contents w ≡ set (contents v) j (bits64 val % 2 ^ 8))
          × (lset env fresh a ≡ push env Value.nil (with_object a h (Obj.buffer w))))
        ⊎ Outside v.sz idx
          × (lset env fresh a ≡ error env AError.runtime "bad index %lld" (idx ∷ []) a)
  unfolding lset
  lset-byte idx val arg last = rw (check_index-Arg env valid g.arg) (
      rw (check_index-Arg env valid arg) (
        rw (check_index-Arg env valid last) (
          rw (check_type-Arg env valid g.arg AType.buffer "not buffer" refl) (
            rw (vec_at-Holds env (buffer_kind fresh) valid g) (
              rw (check_integer-Arg env valid arg) (
                rw (check_integer-Arg env valid last) (elim (check_bounds-cases env idx v.sz a) [
                  | inr (out, e) ↦ inr (out, rw e (error-and_then env _ _ _ _ a))
                  | inl (j, same, lt, e) ↦ inl (
                    j,
                    record v { slots = set v.slots j (bits64 val % 2 ^ 8) },
                    same,
                    lt,
                    record {
                      used = i.used;
                      storage = length-set v.slots j (bits64 val % 2 ^ 8) ∙ i.storage;
                    },
                    take-set_lt v.sz j v.slots (bits64 val % 2 ^ 8) lt,
                    rw e (rw (lt→ltb j (length v.slots) (omega (arith, i.used, i.storage))) refl),
                  )
                ])))))))
