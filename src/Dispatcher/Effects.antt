-- ===== src/Dispatcher/Effects.antt =====
-- Each instruction of the interpreter is safe where its operands are as it assumes.
use Prim.Native.String.{String}
use any_vm.Base.{
  ℕ, ℤ, pos, negsuc, ◌+ℤ◌, ◌+◌, ◌-◌, ◌≤◌, ◌≡◌, refl, sym, subst, inl, inr, Bool, Bool-cases, not,
  Option, none, some, List, [], ◌∷◌, arith, leb, length, get_elem?,
}
use any_vm.Errno.{AError}
use any_vm.Value.{Value}
use any_vm.Machine.{Actor, Out, M, and_then, pure, Const, Proto, Env}
use any_vm.Safe.{Safe, returns, bind, mono, IsActor, Runs, Broke, Runs-refl, Runs-trans}
use any_vm.Operand.{
  error, push, push_string, pop, check_index, push_index, insert, check_integer, check_real,
  as_integer, as_real, to_bool, truth, load,
}
use any_vm.Operand.Laws.{try_push_string-cases, Unmoved, push_at-Unmoved}
use any_vm.Operand.Checks.{
  InFrame, Pushed-Runs, error-Safe, push-Safe, at-InFrame, check_index-cases,
}
use any_vm.Operand.Effects.{at_sp-Runs, with_value-Runs, store-InFrame, pop-Safe, insert-Safe}
use any_vm.Calls.Laws.{Keeps, after-Keeps}
use any_vm.Mailbox.Delivery.{WaitSafe, mbox_recv-Keeps}
use any_vm.Dispatcher.{
  Flow, bool_value, integers, one_operand, binary, numeric, compare_op, push_const, jump_to,
  jump_by, receive, received, by_kind, jump_if_not, negate,
}
use any_vm.Dispatcher.Operands.{
  one_operand-ok, one_operand-underflow, two_operands-ok, two_operands-underflow,
}

pub next_after :
    {A : Type 0} {a : Actor} {r : Out A} → Keeps a r → Keeps a (and_then r (λ _. pure Flow.next))
next_after s = bind s (λ _ b p. returns p)

-- A computation that only looks at the state.
abbrev pub Looks : {A : Type 0} → Actor → Out A → Type 0
Looks a r = Safe (λ _ b. b ≡ a) (Broke a) r

pub look :
    {A B : Type 0} {Q : B → Actor → Type 0} {E : Actor → Type 0} {a : Actor} {r : Out A}
    (k : A → M B)
    → Safe (λ _ b. b ≡ a) E r
    → ((x : A) → Safe Q E (k x a))
    → Safe Q E (and_then r k)
look {Q} {E} k s f = bind s (λ x b e. subst (λ c. Safe Q E (k x c)) (sym e) (f x))

-- What an instruction assumes of its operands.
abbrev pub TopTwo : (Value → Value → Type 0) → Actor → Type 0
TopTwo P a =
    (l r : Value)
    → get_elem? a.stack.v (a.stack.sp - 1) ≡ some l
    → get_elem? a.stack.v (a.stack.sp - 2) ≡ some r
    → P l r

module _ (env : Env) (a : Actor) (v : IsActor a) where
  pub error-Keeps :
      {A : Type 0} (text : String) (args : List ℤ)
      → Keeps {A = A} a (error env AError.runtime text args a)
  error-Keeps text args = error-Safe env a text args v.stack v.boxes

  pub push-Keeps : (x : Value) → Keeps a (push env x a)
  push-Keeps x = mono (push-Safe env a x v) (λ _ b p. Pushed-Runs v p) (λ b q. q)

  push_string-Keeps : (s : List ℕ) → Keeps a (push_string env s a)
  unfolding push_string
  push_string-Keeps s = elim (try_push_string-cases env a v.stack s) [
    | inr (x, b, e, p) ↦ rw e (returns (Pushed-Runs v p))
    | inl (h, e) ↦ rw e (
        mono
          (error-Safe env (record a { heap = h }) "out of memory" [] v.stack
            (record { box = v.boxes.box; peek = v.boxes.peek; others = v.boxes.others }))
          (λ x b q. q)
          (λ b q. record { stack = q.stack; top = q.top; cap = q.cap; boxes = q.boxes }))
  ]

  pub push_const-Keeps : (c : Option Const) (i : ℤ) → Keeps a (push_const env c i a)
  unfolding push_const
  push_const-Keeps none i = error-Keeps "bad constant index %d" (i ∷ [])
  push_const-Keeps (some (Const.integer n)) i = next_after (push-Keeps (Value.integer n))
  push_const-Keeps (some (Const.string s)) i = next_after (push_string-Keeps s)
  push_const-Keeps (some (Const.real x)) i = next_after (push-Keeps (Value.real x))
  push_const-Keeps (some Const.bad) i = error-Keeps "bad constant type" []

  pub pop-Keeps : (n : ℕ) → n ≤ a.stack.sp → Keeps a (pop env (pos n) a)
  pop-Keeps n h =
      mono (pop-Safe env a n v h)
        (λ _ b (e, keeps).
          subst (Runs a) (sym e)
            (at_sp-Runs v (a.stack.sp - n) (omega (arith, keeps)) (omega arith)))
        (λ b q. q)

  -- An index that is looked up, and what is done with the address.
  pub with_index :
      {A : Type 0} (n : ℤ) (k : ℕ → M A)
      → ((i : ℕ) → InFrame a i → Keeps a (k i a))
      → Keeps a (and_then (check_index env n a) k)
  with_index n k f = elim (check_index-cases env a n v) [
    | inl (i, e, _, within) ↦ rw e (f i within)
    | inr e ↦ rw e (
        bind (error-Safe env a {P = λ _ _. ⊥} "bad index %lld" (n ∷ []) v.stack v.boxes)
          (λ x b q. absurd q))
  ]

  pub push_index-Keeps : (i : ℕ) → InFrame a i → Unmoved env a → Keeps a (push_index env i a)
  unfolding push_index
  push_index-Keeps i h unmoved =
      let (x, e, _) = at-InFrame env a i v h in
      subst (Keeps a) (sym (push_at-Unmoved env a i x e unmoved)) (push-Keeps x)

  pub insert-Keeps : (i : ℕ) → InFrame a i → Keeps a (insert env i a)
  insert-Keeps i h = mono (insert-Safe env a i v h (omega (arith, h.to))) (λ _ b q. q.0) (λ b q. q)

  -- The one operand of an instruction, if there is one.
  with_one :
      {A : Type 0} (k : ℕ → M A)
      → ((x : Value)
          → a.frame.bp + 1 ≤ a.stack.sp
          → get_elem? a.stack.v (a.stack.sp - 1) ≡ some x
          → InFrame a (a.stack.sp - 1)
          → Keeps a (k (a.stack.sp - 1) a))
      → Keeps a (and_then (one_operand env a) k)
  with_one k f = elim (Bool-cases (leb (a.frame.bp + 1) a.stack.sp)) [
    | inl has ↦
        (let top : InFrame a (a.stack.sp - 1) = record {
          from = ground (arith, v.base);
          to = ground (arith, v.base);
        } in
          let (x, _, e) = at-InFrame env a (a.stack.sp - 1) v top in
          rw (one_operand-ok env a v (ground (arith, has))) (f x (ground (arith, has)) e top))
    | inr few ↦ rw (one_operand-underflow env a v (ground (arith, few))) (
        bind (error-Safe env a {P = λ _ _. ⊥} "pop underflow" [] v.stack v.boxes)
          (λ x b q. absurd q))
  ]

  jump_to-Keeps : (pt : Proto) (ip : ℤ) → Keeps a (jump_to env pt ip a)
  unfolding jump_to
  jump_to-Keeps pt (negsuc n) = error-Keeps "bad jump" []
  jump_to-Keeps pt (pos nip) = elim (Bool-cases (leb (length pt.instructions) nip)) [
    | inl out ↦ rw out (error-Keeps "bad jump" [])
    | inr inside ↦ rw inside (returns (Runs-refl v))
  ]

  pub jump_by-Keeps : (pt : Proto) (d : ℤ) → Keeps a (jump_by env pt d a)
  unfolding jump_by
  jump_by-Keeps pt d = jump_to-Keeps pt (pos a.frame.ip +ℤ d +ℤ pos 1)

  -- The operands of an arithmetic instruction, and the result in their place.
  pub binary-Keeps :
      (op : (lv rv : Value) (l r : ℕ) → M Value)
      → ((lv rv : Value)
          → get_elem? a.stack.v (a.stack.sp - 1) ≡ some lv
          → get_elem? a.stack.v (a.stack.sp - 2) ≡ some rv
          → InFrame a (a.stack.sp - 1)
          → InFrame a (a.stack.sp - 2)
          → Looks a (op lv rv (a.stack.sp - 1) (a.stack.sp - 2) a))
      → Keeps a (binary env op a)
  unfolding binary
  binary-Keeps op f = elim (Bool-cases (leb (a.frame.bp + 2) a.stack.sp)) [
    | inr few ↦ rw (two_operands-underflow env a v (ground (arith, few))) (
        bind (error-Safe env a {P = λ _ _. ⊥} "pop underflow" [] v.stack v.boxes)
          (λ x b q. absurd q))
    | inl two ↦
        (let top : InFrame a (a.stack.sp - 1) = record { from = ground arith; to = ground arith } in
          let second : InFrame a (a.stack.sp - 2) = record {
            from = ground arith;
            to = ground arith;
          } in
          let (lv, el, gl) = at-InFrame env a (a.stack.sp - 1) v top in
          let (rv, er, gr) = at-InFrame env a (a.stack.sp - 2) v second in
          rw (two_operands-ok env a v (ground (arith, two))) (
            rw el (
              rw er (
                look _ (f lv rv gl gr top second) λ x.
                  (rw (store-InFrame v (a.stack.sp - 2) x second) (
                    returns (
                      let wrote = with_value-Runs v (a.stack.sp - 2) x second in
                      Runs-trans wrote (
                        at_sp-Runs wrote.valid (a.stack.sp - 1) (ground (arith, two))
                          (ground arith)))))))))
  ]

  real_value : (x : Value) → Looks a (as_real env x a)
  unfolding as_real
  real_value (Value.real r) = returns refl
  real_value (Value.integer n) = returns refl
  real_value Value.nil = error-Safe env a "not number" [] v.stack v.boxes
  real_value _ = error-Safe env a "not number" [] v.stack v.boxes

  real_operand : (i : ℕ) → InFrame a i → Looks a (check_real env i a)
  unfolding check_real
  real_operand i h = let (x, e, _) = at-InFrame env a i v h in rw e (real_value x)

  integer_value : (x : Value) → Looks a (as_integer env x a)
  unfolding as_integer
  integer_value (Value.integer n) = returns refl
  integer_value Value.nil = error-Safe env a "not integer" [] v.stack v.boxes
  integer_value _ = error-Safe env a "not integer" [] v.stack v.boxes

  -- An operation on two reals, or two integers.
  by_kind-Looks :
      (f : ℤ → ℤ → M Value) (g : ℕ → ℕ → M Value) (l r : ℕ) (k : Option (ℤ × ℤ))
      → InFrame a l
      → InFrame a r
      → ((m n : ℤ) → k ≡ some (m, n) → Looks a (f m n a))
      → ((x y : ℕ) → Looks a (g x y a))
      → Looks a (by_kind env f g l r k a)
  unfolding by_kind
  by_kind-Looks f g l r (some (m, n)) hl hr safe_f safe_g = safe_f m n refl
  by_kind-Looks f g l r none hl hr safe_f safe_g =
      look _ (real_operand l hl) (λ x. look _ (real_operand r hr) (safe_g x))

  -- What an instruction on two numbers leaves, where its operation on integers is safe.
  pub numeric-Keeps :
      (f : ℤ → ℤ → M Value) (g : ℕ → ℕ → M Value)
      → TopTwo (λ l r. (m n : ℤ) → integers l r ≡ some (m, n) → Looks a (f m n a)) a
      → ((x y : ℕ) → Looks a (g x y a))
      → Keeps a (numeric env f g a)
  unfolding numeric
  numeric-Keeps f g safe_f safe_g =
      binary-Keeps _ λ lv rv gl gr hl hr.
        by_kind-Looks f g _ _ (integers lv rv) hl hr (safe_f lv rv gl gr) safe_g

  received-Keeps : (pt : Proto) (d : ℤ) (ec : AError) → Keeps a (received env pt d ec a)
  unfolding received
  received-Keeps pt d AError.timeout = jump_by-Keeps pt d
  received-Keeps pt d AError.ok = returns (Runs-refl v)
  received-Keeps pt d _ = returns (Runs-refl v)

module _ (env : Env) (a : Actor) (v : IsActor a) where
  pub receive-Keeps : WaitSafe env → (pt : Proto) (d : ℤ) → Keeps a (receive env pt d a)
  unfolding receive check_integer
  receive-Keeps waits pt d = with_one env a v _ λ x has e top.
      let (y, ey, _) = at-InFrame env a (a.stack.sp - 1) v top in
      rw ey (
        look _ (integer_value env a v y) λ t.
          (bind (mbox_recv-Keeps env t waits v)
            λ ec c r. after-Keeps r (received-Keeps env _ r.valid pt d ec)))

  pub jump_if_not-Keeps : (pt : Proto) (d : ℤ) → Keeps a (jump_if_not env pt d a)
  unfolding jump_if_not to_bool load
  jump_if_not-Keeps pt d = with_one env a v _ λ x has e top.
      let popped = at_sp-Runs v (a.stack.sp - 1) (omega (arith, has)) (omega arith) in
      rw (e, load)
        (elim (Bool-cases (truth x)) [
          | inl holds ↦ rw holds (returns popped)
          | inr fails ↦ rw fails (after-Keeps popped (jump_by-Keeps env _ popped.valid pt d))
        ])

  pub negate-Keeps : (pt : Proto) → Keeps a (negate env pt a)
  unfolding negate
  negate-Keeps pt = with_one env a v _ λ x has e top.
      let (y, ey, _) = at-InFrame env a (a.stack.sp - 1) v top in
      let z : Value = bool_value (not (truth y)) in
      rw ey (
        rw (store-InFrame v (a.stack.sp - 1) z top)
          (returns (with_value-Runs v (a.stack.sp - 1) z top)))

  pub compare_op-Keeps : (f : ℤ → ℤ → Bool) (g : ℕ → ℕ → Bool) → Keeps a (compare_op env f g a)
  unfolding compare_op
  compare_op-Keeps f g =
      numeric-Keeps env a v _ _ (λ l r el er m n e. returns refl) (λ x y. returns refl)
