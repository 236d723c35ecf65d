-- ===== src/Sample.antt =====
-- A small machine for tests: an allocator that always gives, native functions that do nothing, and
-- an actor with a few values on its stack and in its mailbox.
use any_vm.Base.{
  ℕ, pos, negsuc, zero, suc, ◌+◌, ◌-◌, ◌≤◌, refl, true, false, none, some, List, [], ◌∷◌, ◌++◌,
  arith, length, length-append, length-replicate, replicate,
}
use any_vm.Bytecode.{Instr}
use any_vm.Value.{Value, Obj}
use any_vm.Stack.{Stack}
use any_vm.Stack.Laws.{IsStack}
use any_vm.Machine.{Actor, Out, Const, Proto, Reals, Env}
use any_vm.Safe.{returns, IsActor, Runs-refl}
use any_vm.Calls.Laws.{NativeSafe}
use any_vm.Mailbox.Delivery.{WaitSafe}

abbrev pub reals : Reals
reals = record {
  add = λ x y. x + y;
  sub = λ x y. x;
  mul = λ x y. x;
  div = λ x y. x;
  lt = λ x y. false;
  le = λ x y. false;
  gt = λ x y. false;
  ge = λ x y. false;
  of_integer = λ n. 0;
}

abbrev pub proto_of : List Instr → Proto
proto_of is = record {
  num_local_vars = 1;
  instructions = is;
  constants = Const.integer (pos 40) ∷ Const.string (b'h' ∷ b'i' ∷ []) ∷ [];
  import_values = [];
  nesteds = 7 ∷ [];
}

-- Prototype 0 calls prototype 7 with 2; any other one adds its argument to 40.
abbrev pub callee : List Instr
callee = Instr.ldk (pos 0) ∷ Instr.llv (negsuc 0) ∷ Instr.add ∷ Instr.ret ∷ []

abbrev pub caller : List Instr
caller = Instr.cls (pos 0) ∷ Instr.lsi (pos 2) ∷ Instr.ivk (pos 1) ∷ Instr.ret ∷ []

abbrev pub env : Env
env = record {
  proto = λ p. proto_of (elim p [ zero ↦ caller | suc _ ↦ callee ]);
  native = λ f a. Out.ok tt a;
  reals = reals;
  alloc = λ n. true;
  moves = λ n. false;
  heap_ok = λ h n. true;
  heap_grows = λ h n. false;
  format = λ t args. [];
  wait = λ t a. a;
}

abbrev pub stack_of : List Value → Stack
stack_of vs = record { v = vs ++ replicate (8 - length vs) Value.nil; sp = length vs; cap = 8 }

-- An actor in a frame with base `bp` and no arguments, whose stack and mailbox hold these values.
abbrev pub actor : (vs : List Value) (bp : ℕ) (box : List Value) (pp : ℕ) → Actor
actor vs bp box pp = record {
  stack = stack_of vs;
  msbox = stack_of box;
  msg_pp = pp;
  frame = record { pt = some 0; ip = 0; bp = bp; nargs = pos 0 };
  callers = [];
  heap = [];
  pid = 1;
  peers = λ p. none;
  notified = [];
}

pub stack_of-IsStack : (vs : List Value) → length vs ≤ 8 → IsStack (stack_of vs)
stack_of-IsStack vs h = record {
  storage = omega (
    arith,
    length-append vs (replicate (8 - length vs) Value.nil),
    length-replicate (8 - length vs) Value.nil,
  );
  used = h;
  pos = omega arith;
  small = omega arith;
}

pub actor-IsActor :
    (vs : List Value) (bp : ℕ) (box : List Value) (pp : ℕ)
    → length vs ≤ 8
    → bp ≤ length vs
    → length box ≤ 8
    → pp ≤ length box
    → IsActor (actor vs bp box pp)
actor-IsActor vs bp box pp h base h' seen = record {
  stack = stack_of-IsStack vs h;
  base = base;
  nonneg = refl;
  args = omega arith;
  boxes = record { box = stack_of-IsStack box h'; peek = seen; others = λ q p e. absurd (cc e) };
}

pub natives_safe : NativeSafe env
natives_safe f a v e = returns (Runs-refl v)

pub waits_safe : WaitSafe env
waits_safe t a v = Runs-refl v

-- An actor that runs a native function with these arguments, the last one nearest to the base.
abbrev pub native_call : List Value → List Obj → Actor
native_call vs objects = record (actor vs (length vs) [] 0) {
  frame = record { pt = none; ip = 0; bp = length vs; nargs = pos (length vs) };
  heap = objects;
}

pub native_call-IsActor :
    (vs : List Value) (objects : List Obj) → length vs ≤ 8 → IsActor (native_call vs objects)
native_call-IsActor vs objects h = record {
  stack = stack_of-IsStack vs h;
  base = omega arith;
  nonneg = refl;
  args = omega arith;
  boxes = record {
    box = stack_of-IsStack [] (omega arith);
    peek = omega arith;
    others = λ q p e. absurd (cc e);
  };
}
