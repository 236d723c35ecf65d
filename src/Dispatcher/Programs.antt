-- ===== src/Dispatcher/Programs.antt =====
-- Programs without the instructions that assume something of the stack: they run safely.
use any_vm.Base.{
  ℕ, pos, negsuc, zero, suc, ◌+◌, ◌<◌, ◌≡◌, refl, subst, Bool, Bool-cases, some_inj, true, false,
  ◌&&◌, some, Option-cases, inl, inr, List, [], ◌∷◌, arith, get_elem?,
}
use any_vm.Bytecode.{Instr}
use any_vm.Value.{Value}
use any_vm.Machine.{Actor, Out, Env}
use any_vm.Safe.{returns, unfinished, bind, IsActor, Runs, Runs-refl}
use any_vm.Calls.Laws.{Keeps, after-Keeps, BodySafe, NativeSafe}
use any_vm.Operand.Laws.{Unmoved}
use any_vm.Mailbox.Delivery.{WaitSafe}
use any_vm.Dispatcher.{Flow, fill_nil, continue, step, loop, dispatch}
use any_vm.Dispatcher.Effects.{error-Keeps, push-Keeps}
use any_vm.Dispatcher.Safety.{Ready, exec-Keeps}

-- Instructions that need no care: not SND, DIV or EQ, no POP of two values or of a negative
-- number, no IVK of a negative number.
unfoldable pub tame : Instr → Bool
tame (Instr.pop (pos zero)) = true
tame (Instr.pop (pos (suc zero))) = true
tame (Instr.pop _) = false
tame (Instr.ivk (negsuc _)) = false
tame Instr.snd = false
tame Instr.div = false
tame Instr.eq = false
tame _ = true

unfoldable pub all_tame : List Instr → Bool
unfolding tame
all_tame [] = true
all_tame (i ∷ is) = tame i && all_tame is

tame-Ready :
    (env : Env) (a : Actor) (i : Instr)
    → ((n : ℕ) → env.moves n ≡ false)
    → 0 < a.stack.sp
    → tame i ≡ true
    → Ready env a i
unfolding tame
tame-Ready env a (Instr.pop (pos zero)) stays h t = omega arith
tame-Ready env a (Instr.pop (pos (suc zero))) stays h t = h
tame-Ready env a (Instr.pop (pos (suc (suc n)))) stays h t = absurd (cc t)
tame-Ready env a (Instr.pop (negsuc n)) stays h t = absurd (cc t)
tame-Ready env a (Instr.ivk (negsuc n)) stays h t = absurd (cc t)
tame-Ready env a (Instr.ivk (pos n)) stays h t = tt
tame-Ready env a Instr.snd stays h t = absurd (cc t)
tame-Ready env a Instr.div stays h t = absurd (cc t)
tame-Ready env a Instr.eq stays h t = absurd (cc t)
tame-Ready env a (Instr.llv n) stays h t = Unmoved.in_place stays
tame-Ready env a _ stays h t = tt

tame_at :
    (is : List Instr) (n : ℕ) (i : Instr)
    → all_tame is ≡ true
    → get_elem? is n ≡ some i
    → tame i ≡ true
unfolding all_tame
tame_at [] n i t e = absurd (cc e)
tame_at (j ∷ is) zero i t e = elim (Bool-cases (tame j)) [
  | inl good ↦ subst (λ k. tame k ≡ true) (some_inj e) good
  | inr bad ↦ absurd (cc (rw bad at t))
]
tame_at (j ∷ is) (suc n) i t e = elim (Bool-cases (tame j)) [
  | inl good ↦ tame_at is n i (rw good at t) e
  | inr bad ↦ absurd (cc (rw bad at t))
]

fill_nil-Keeps : (env : Env) (n : ℕ) (a : Actor) → IsActor a → Keeps a (fill_nil env n a)
unfolding fill_nil
fill_nil-Keeps env zero a v = returns (Runs-refl v)
fill_nil-Keeps env (suc n) a v =
    bind (push-Keeps env a v Value.nil) (λ _ b r. after-Keeps r (fill_nil-Keeps env n b r.valid))

set_ip-Runs :
    {a : Actor} (ip : ℕ) → IsActor a → Runs a (record a { frame = record (a.frame) { ip = ip } })
set_ip-Runs ip v = record {
  valid = record {
    stack = v.stack;
    base = v.base;
    nonneg = v.nonneg;
    args = v.args;
    boxes = record { box = v.boxes.box; peek = v.boxes.peek; others = v.boxes.others };
  };
  pt = refl;
  bp = refl;
  nargs = refl;
  callers = refl;
  cap = omega arith;
  below = λ i lt. refl;
}

module _ (env : Env) (natives : NativeSafe env) (waits : WaitSafe env)
    (stays : (n : ℕ) → env.moves n ≡ false)
    (good : (p : ℕ) → all_tame (env.proto p).instructions ≡ true) where
  continue-Keeps :
      (rest : Actor → Out (Unit {0})) (f : Flow) (a : Actor)
      → IsActor a
      → 0 < a.frame.bp
      → ((b : Actor) → IsActor b → 0 < b.frame.bp → Keeps b (rest b))
      → Keeps a (continue env rest f a)
  unfolding continue
  continue-Keeps rest Flow.next a v h k =
      let r = set_ip-Runs (a.frame.ip + 1) v in after-Keeps r (k _ r.valid h)
  continue-Keeps rest (Flow.jump ip) a v h k =
      let r = set_ip-Runs ip v in after-Keeps r (k _ r.valid h)
  continue-Keeps rest Flow.return a v h k = returns (Runs-refl v)

  step-Keeps :
      (run : ℕ → Actor → Out (Unit {0})) (rest : Actor → Out (Unit {0})) (p : ℕ) (a : Actor)
      → BodySafe run
      → ((b : Actor) → IsActor b → 0 < b.frame.bp → Keeps b (rest b))
      → IsActor a
      → 0 < a.frame.bp
      → Keeps a
          (step env run rest (env.proto p) (get_elem? (env.proto p).instructions a.frame.ip) a)
  unfolding step
  step-Keeps run rest p a bodies k v h =
      elim (Option-cases (get_elem? (env.proto p).instructions a.frame.ip)) [
        | inl off ↦ rw (off, step) (error-Keeps env a v "return missing" [])
        | inr (i, e) ↦
            rw (e, step)
              (bind
                (exec-Keeps env (env.proto p) i natives waits bodies v
                  (tame-Ready env a i stays (omega (arith, h, v.base)) (tame_at _ _ i (good p) e)))
                (λ f b r.
                  after-Keeps r (continue-Keeps rest f b r.valid (omega (arith, h, r.bp)) k)))
      ]

  loop-Keeps : (fuel p : ℕ) (a : Actor) → IsActor a → 0 < a.frame.bp → Keeps a (loop env fuel p a)
  unfolding loop
  loop-Keeps zero p a v h = unfinished
  loop-Keeps (suc fuel) p a v h =
      step-Keeps _ _ p a
        (λ q b w e k.
          bind (fill_nil-Keeps env (env.proto q).num_local_vars b w)
            (λ _ c r. after-Keeps r (loop-Keeps fuel q c r.valid (omega (arith, k, r.bp)))))
        (loop-Keeps fuel p) v h

  pub dispatch-Keeps :
      (fuel p : ℕ) (a : Actor)
      → IsActor a
      → a.frame.pt ≡ some p
      → 0 < a.frame.bp
      → Keeps a (dispatch env fuel p a)
  unfolding dispatch
  dispatch-Keeps fuel p a v e h =
      bind (fill_nil-Keeps env (env.proto p).num_local_vars a v)
        (λ _ b r. after-Keeps r (loop-Keeps fuel p b r.valid (omega (arith, h, r.bp))))
