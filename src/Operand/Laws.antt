-- ===== src/Operand/Laws.antt =====
-- Pushing and raising an error on a valid stack.
use Prim.Native.String.{String}
use any_vm.Errno.{AError}
use any_vm.Stack.{Stack, value_bytes, reserve}
use any_vm.Base.{
  ℤ, ℕ, ◌+◌, ◌*◌, Option, none, ltb, ◌≤◌, ◌<◌, ◌≡◌, refl, ◌⊎◌, inl, inr, Bool, true, false,
  Bool-cases, some, List, [], ◌∷◌, ◌++◌, arith, lt→ltb, length, length-set, get_elem?, set,
  get_elem?-set_self, get_elem?-set_ne, ◌∙◌,
}
use any_vm.Stack.Laws.{IsStack, Reserved, reserve-Reserved}
use any_vm.Value.{Value, AType, Obj}
use any_vm.Machine.{Actor, Out, M, and_then, Env}
use any_vm.Operand.{
  try_push, try_push_string, string_bytes, nested, raise, error, push, at, push_at, after_growth,
}

-- `b` is `a` with `x` pushed: the stack is valid and every value below is kept; only the stack and
-- the heap differ.
pub record Pushed (a : Actor) (x : Value) (b : Actor) : Type 0 where
  pub valid : IsStack b.stack
  pub sp : b.stack.sp ≡ a.stack.sp + 1
  pub top : get_elem? b.stack.v a.stack.sp ≡ some x
  pub below : (i : ℕ) → i < a.stack.sp → get_elem? b.stack.v i ≡ get_elem? a.stack.v i
  pub cap : a.stack.cap ≤ b.stack.cap
  pub same : b ≡ record a { stack = b.stack; heap = b.heap }

abbrev written : Stack → Value → Stack
written t x = record { v = set t.v t.sp x; sp = t.sp + 1; cap = t.cap }

module _ (env : Env) (a : Actor) where
  Pushed-written :
      (x : Value) (t : Stack)
      → IsStack a.stack
      → Reserved a.stack 1 t
      → Pushed a x (record a { stack = written t x })
  Pushed-written x t s r = record {
    valid = record {
      storage = length-set t.v t.sp x ∙ r.valid.storage;
      used = r.room;
      pos = r.valid.pos;
      small = r.valid.small;
    };
    sp = omega arith;
    top = rw r.sp (get_elem?-set_self t.v a.stack.sp x (omega arith));
    below = λ i lt. get_elem?-set_ne t.v x (omega arith) ∙ r.kept i (omega arith);
    cap = r.no_less;
    same = refl;
  }

  pub try_push-Pushed :
      (x : Value)
      → IsStack a.stack
      → (try_push env x a ≡ Out.ok false a)
        ⊎ ((b : Actor) × (try_push env x a ≡ Out.ok true b) × Pushed a x b)
  unfolding try_push
  try_push-Pushed x s = elim (reserve-Reserved env.alloc 1 s (omega (arith, s.used, s.small))) [
    | inl (e, _, _) ↦ inl (rw (e, try_push))
    | inr (t, e, r, _) ↦
        inr (
          _,
          rw (e, try_push) (rw (lt→ltb t.sp (length t.v) (omega arith))),
          Pushed-written x t s r,
        )
  ]

-- What was on the heap before does not matter.
pub Pushed-heap :
    {a b : Actor} {x : Value} {h : List Obj} → Pushed (record a { heap = h }) x b → Pushed a x b
Pushed-heap p = record {
  valid = p.valid;
  sp = p.sp;
  top = p.top;
  below = p.below;
  cap = p.cap;
  same = p.same;
}

module _ (env : Env) (a : Actor) (s : IsStack a.stack) where
  -- A string is stored and pushed, or only the heap may have changed.
  pub try_push_string-cases :
      (bytes : List ℕ)
      → ((h : List Obj) × (try_push_string env bytes a ≡ Out.ok false (record a { heap = h })))
        ⊎ ((x : Value) × (b : Actor) × (try_push_string env bytes a ≡ Out.ok true b) × Pushed a x b)
  unfolding try_push_string
  try_push_string-cases bytes =
      elim (Bool-cases (env.heap_ok a.heap (string_bytes + length bytes + 1))) [
        | inr full ↦ inl (a.heap, rw full)
        | inl room ↦
            (let h : List Obj = a.heap ++ (Obj.string bytes ∷ []) in
              elim (try_push-Pushed env (record a { heap = h })
                (Value.collectable AType.string (length a.heap)) s) [
                  | inl e ↦ inl (h, rw room e)
                  | inr (b, e, p) ↦ inr (_, b, rw room e, Pushed-heap p)
                ])
      ]

module _ (env : Env) (a : Actor)
    (refused : reserve env.alloc a.stack 1 ≡ some (AError.full, a.stack)) where
  no_room :
      (x : Value) (h : List Obj)
      → try_push env x (record a { heap = h }) ≡ Out.ok false (record a { heap = h })
  unfolding try_push
  no_room x h = rw (refused, try_push)

  no_room_string :
      (bytes : List ℕ) (h : List Obj)
      → (k : List Obj) × (try_push_string env bytes (record a { heap = h })
          ≡ Out.ok false (record a { heap = k }))
  unfolding try_push_string
  no_room_string bytes h = elim (Bool-cases (env.heap_ok h (string_bytes + length bytes + 1))) [
    | inl room ↦ (h ++ (Obj.string bytes ∷ []), rw room (no_room _ _))
    | inr full ↦ (h, rw full)
  ]

  -- Without room for a value there is none for a message: the error cannot be raised.
  error-no_memory :
      (ec : AError) (text : String) (args : List ℤ)
      → error env {A = Unit {0}} ec text args a ≡ Out.no_memory
  unfolding error
  error-no_memory ec text args =
      let (h, e) = no_room_string (env.format text args) a.heap in
      let (k, e') = no_room_string (env.format "out of memory" []) h in rw (e, e')

-- On a valid stack aactor_push never throws and never faults: it pushes the value, with the stack
-- valid and every value below kept and nothing else changed but the heap, or memory is exhausted.
pub push-cases :
    (env : Env) (a : Actor) (x : Value)
    → IsStack a.stack
    → (push env x a ≡ Out.no_memory) ⊎ ((b : Actor) × (push env x a ≡ Out.ok tt b) × Pushed a x b)
unfolding push try_push
push-cases env a x s = elim (reserve-Reserved env.alloc 1 s (omega (arith, s.used, s.small))) [
  | inl (refused, _, _) ↦
      inl (rw (no_room env a refused x a.heap) (error-no_memory env a refused _ _ _))
  | inr (t, e, r, _) ↦ inr (
    _,
    rw (e, push, try_push) (rw (lt→ltb t.sp (length t.v) (omega (arith, r.valid.storage, r.room)))),
    Pushed-written env a x t s r,
  )
]

-- The array of the stack stays where it is when one more value is pushed: there is room, or it grows
-- in place.
pub data Unmoved (env : Env) (a : Actor) : Type 0 where
  room : a.stack.sp < a.stack.cap → Unmoved env a
  in_place : ((n : ℕ) → env.moves n ≡ false) → Unmoved env a

pub Unmoved-heap :
    {env : Env} {a : Actor} (h : List Obj) → Unmoved env a → Unmoved env (record a { heap = h })
Unmoved-heap h (Unmoved.room spare) = Unmoved.room spare
Unmoved-heap h (Unmoved.in_place stays) = Unmoved.in_place stays

after_growth-in_place :
    (env : Env) (a : Actor) (x : Value)
    → ((n : ℕ) → env.moves n ≡ false)
    → (o : Option (AError × Stack)) → after_growth env o x a ≡ push env x a
unfolding after_growth
after_growth-in_place env a x h none = refl
after_growth-in_place env a x h (some (AError.ok, s)) = rw (h (value_bytes * s.cap)) refl
after_growth-in_place env a x h (some (_, s)) = refl

-- Then pushing a pointer to a value pushes the value.
pub push_at-Unmoved :
    (env : Env) (a : Actor) (i : ℕ) (x : Value)
    → at i a ≡ Out.ok x a
    → Unmoved env a
    → push_at env i a ≡ push env x a
unfolding push_at
push_at-Unmoved env a i x e (Unmoved.room h) =
    rw (e, push_at) (rw (lt→ltb a.stack.sp a.stack.cap h) refl)
push_at-Unmoved env a i x e (Unmoved.in_place h) = elim (Bool-cases (ltb a.stack.sp a.stack.cap)) [
  | inl spare ↦ rw (e, push_at) (rw spare refl)
  | inr none_left ↦
      rw (e, push_at) (rw none_left (after_growth-in_place env a x h (reserve env.alloc a.stack 1)))
]

module _ (env : Env) {A B : Type 0} (k : A → M B) where
  nested-and_then :
      (r : Out Bool)
      → and_then (and_then r (nested env {A = A})) k ≡ and_then r (nested env {A = B})
  nested-and_then (Out.ok true a) = refl
  nested-and_then (Out.ok false a) = refl
  nested-and_then (Out.throw ec a) = refl
  nested-and_then Out.fault = refl
  nested-and_then Out.no_memory = refl
  nested-and_then Out.out_of_fuel = refl

  raise-and_then :
      (ec : AError) (r : Out Bool)
      → and_then (and_then r (raise env {A = A} ec)) k ≡ and_then r (raise env {A = B} ec)
  unfolding raise
  raise-and_then ec (Out.ok true a) = refl
  raise-and_then ec (Out.ok false a) =
      nested-and_then (try_push_string env (env.format "out of memory" []) a)
  raise-and_then ec (Out.throw e a) = refl
  raise-and_then ec Out.fault = refl
  raise-and_then ec Out.no_memory = refl
  raise-and_then ec Out.out_of_fuel = refl

  -- Nothing is executed after `any_error`.
  pub error-and_then :
      (ec : AError) (text : String) (args : List ℤ) (a : Actor)
      → and_then (error env {A = A} ec text args a) k ≡ error env {A = B} ec text args a
  unfolding error
  error-and_then ec text args a = raise-and_then ec (try_push_string env (env.format text args) a)
