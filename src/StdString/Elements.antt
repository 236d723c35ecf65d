-- ===== src/StdString/Elements.antt =====
-- The functions on strings, for strings as arguments.
use any_vm.Base.{
  ℕ, ℤ, pos, ◌+◌, ◌≡◌, refl, ◌⊎◌, inl, inr, Bool-cases, false, some, List, [], ◌∷◌, ◌++◌, length,
  get_elem?, get_elem?-some,
}
use any_vm.Errno.{AError}
use any_vm.Value.{AType, Value, Obj}
use any_vm.Machine.{Actor, Out, Env}
use any_vm.Safe.{IsActor}
use any_vm.Operand.{string_bytes, error, push}
use any_vm.Operand.Laws.{error-and_then}
use any_vm.Growable.{object}
use any_vm.Growable.Args.{
  Arg, arg_at, at-Arg, check_index-Arg, check_integer-Arg, check_type-Arg, Outside,
  check_bounds-cases,
}
use any_vm.StdString.{string_at, check_string, char_value, lget, lconcat}

-- The argument number `n` is the string `s`.
pub record IsString (a : Actor) (n : ℕ) (s : List ℕ) : Type 0 where
  pub at_index : ℕ
  pub arg : Arg a n (Value.collectable AType.string at_index)
  pub here : get_elem? a.heap at_index ≡ some (Obj.string s)

module _ (env : Env) {a : Actor} (valid : IsActor a) where
  check_string-IsString :
      (n : ℕ) (s : List ℕ) → IsString a n s → check_string env (arg_at a n) a ≡ Out.ok s a
  unfolding check_string string_at
  check_string-IsString n s g =
      rw (check_type-Arg env valid g.arg AType.string "not string" refl)
        (rw (at-Arg env valid g.arg) (rw (g.here, object) refl))

  pub lget-cases :
      (s : List ℕ) (idx : ℤ)
      → IsString a 0 s
      → Arg a 1 (Value.integer idx)
      → ((j : ℕ) × (c : ℕ) × (idx ≡ pos j)
          × (get_elem? s j ≡ some c)
          × (lget env a ≡ push env (Value.integer (char_value c)) a))
        ⊎ Outside (length s) idx
          × (lget env a ≡ error env AError.runtime "bad index %lld" (idx ∷ []) a)
  unfolding lget
  lget-cases s idx g arg = rw (check_index-Arg env valid g.arg) (
      rw (check_index-Arg env valid arg) (
        rw (check_string-IsString 0 s g) (
          rw (check_integer-Arg env valid arg) (elim (check_bounds-cases env idx (length s) a) [
            | inr (out, e) ↦ inr (out, rw e (error-and_then env _ _ _ _ a))
            | inl (j, same, lt, e) ↦
                (let (c, e') = get_elem?-some s j lt in inl (j, c, same, e', rw e (rw e' refl)))
          ]))))

  -- In a native function with two strings as its last arguments, concat/2 of std-string either
  -- puts a new object on the heap, with the text of the last argument before that of the other
  -- one, and pushes it, with all other objects as they were; or the heap has no room, and it
  -- raises the error in the unchanged state.
  pub lconcat-cases :
      (l r : List ℕ)
      → IsString a 0 l
      → IsString a 1 r
      → (lconcat env a
          ≡ push env
              (Value.collectable AType.string (length a.heap))
              (record a { heap = a.heap ++ (Obj.string (l ++ r) ∷ []) }))
        ⊎ (env.heap_ok a.heap (string_bytes + length l + length r + 1) ≡ false)
          × (lconcat env a ≡ error env AError.runtime "out of memory" [] a)
  unfolding lconcat
  lconcat-cases l r g g' = rw (check_index-Arg env valid g.arg) (
      rw (check_index-Arg env valid g'.arg) (
        rw (check_string-IsString 0 l g) (
          rw (check_string-IsString 1 r g')
            (elim (Bool-cases (env.heap_ok a.heap (string_bytes + length l + length r + 1))) [
              | inl room ↦ inl (rw room refl)
              | inr no_room ↦ inr (no_room, rw no_room refl)
            ]))))
