-- ===== src/Mailbox/Delivery.antt =====
-- The mailbox operations are safe: they keep every reachable mailbox valid, and the stack and the
-- frame of the caller.
use any_vm.Base.{
  ℕ, ℤ, pos, ◌+◌, ◌-◌, ◌==◌, ◌≤◌, ◌≡◌, ◌≢◌, refl, ◌∙◌, ap, subst, inl, inr, ◌||◌, true, Bool-cases,
  Option, some, some_inj, Option-cases, List, [], arith, eq_ℤ, ltb, leb, length-set,
  length-overwrite, get_elem?, get_elem?-some,
}
use any_vm.Stack.{Stack}
use any_vm.Stack.Laws.{IsStack, Reserved, reserve-Reserved}
use any_vm.Value.{Value, Obj}
use any_vm.Machine.{Peer, Actor, Env}
use any_vm.Safe.{returns, bind, after, IsActor, Runs, Runs-refl, Runs-trans}
use any_vm.Operand.{load}
use any_vm.Operand.Checks.{InFrame, error-Safe}
use any_vm.Operand.Effects.{at_sp-Runs, with_value-Runs, store-InFrame, pop-Safe}
use any_vm.Calls.Laws.{Keeps, after-Keeps}
use any_vm.Mailbox.{
  peer, set_peer, Copied, copy_message, enqueue, deliver, send_to, send_value, mbox_send, recv_now,
  mbox_recv, mbox_remove, mbox_rewind,
}

-- New mailboxes do not touch the stack and the frame.
Runs-boxes :
    {a : Actor} (box : Stack) (pp : ℕ) (peers : ℕ → Option Peer) (heap : List Obj) (told : List ℕ)
    → IsActor a
    → IsStack box
    → pp ≤ box.sp
    → ((q : ℕ) (p : Peer) → peers q ≡ some p → IsStack p.msbox)
    → Runs a (record a { msbox = box; msg_pp = pp; peers = peers; heap = heap; notified = told })
Runs-boxes box pp peers heap told v s le others = record {
  valid = record {
    stack = v.stack;
    base = v.base;
    nonneg = v.nonneg;
    args = v.args;
    boxes = record { box = s; peek = le; others = others };
  };
  pt = refl;
  bp = refl;
  nargs = refl;
  callers = refl;
  cap = omega arith;
  below = λ i lt. refl;
}

module _ {a : Actor} (v : IsActor a) where
  own_peer :
      (p : ℕ) (q : Peer)
      → peer a p ≡ some q
      → (p == a.pid) ≡ true
      → ◌≡◌ {A = Peer} (record { msbox = a.msbox; heap = a.heap }) q
  unfolding peer
  own_peer p q e own = some_inj (rw (own, peer) at e)

  peer-IsStack : (p : ℕ) (q : Peer) → peer a p ≡ some q → IsStack q.msbox
  unfolding peer
  peer-IsStack p q e = elim (Bool-cases (p == a.pid)) [
    | inl own ↦ subst {A = Peer} (λ r. IsStack r.msbox) (own_peer p q e own) v.boxes.box
    | inr other ↦ v.boxes.others p q (rw (other, peer) at e)
  ]

  -- A peer whose mailbox has not lost a message may be put back.
  set_peer-Runs :
      (p : ℕ) (q r : Peer) (told : List ℕ)
      → peer a p ≡ some q
      → IsStack r.msbox
      → q.msbox.sp ≤ r.msbox.sp
      → Runs a (record (set_peer a p r) { notified = told })
  unfolding peer set_peer
  set_peer-Runs p q r told e s le = elim (Bool-cases (p == a.pid)) [
    | inl own ↦ rw own (
        Runs-boxes r.msbox a.msg_pp a.peers r.heap told v s
          (omega (arith, ap {A = Peer} (λ t. t.msbox.sp) (own_peer p q e own), v.boxes.peek))
          v.boxes.others)
    | inr other ↦ rw other (
        Runs-boxes a.msbox a.msg_pp _ a.heap told v v.boxes.box v.boxes.peek (λ t u h.
          elim (Bool-cases (t == p)) [
            | inl same ↦ subst {A = Peer} (λ w. IsStack w.msbox) (some_inj (rw same at h)) s
            | inr different ↦ v.boxes.others t u (rw different at h)
          ]))
  ]

IsStack-enqueue : {s : Stack} (x : Value) → IsStack s → s.sp + 1 ≤ s.cap → IsStack (enqueue s x)
IsStack-enqueue {s} x v room = record {
  storage = length-set s.v s.sp x ∙ v.storage;
  used = room;
  pos = v.pos;
  small = v.small;
}

module _ (env : Env) {a : Actor} (v : IsActor a) where
  -- A message on its way to a live actor never harms its mailbox.
  deliver-Keeps :
      (p : ℕ) (q : Peer) (s : Stack) (c : Copied)
      → peer a p ≡ some q
      → Reserved q.msbox 1 s
      → c ≢ Copied.dangling
      → Keeps a (deliver env p s q.heap c a)
  unfolding deliver
  deliver-Keeps p q s (Copied.copied x to) e r sound =
      returns (set_peer-Runs v p q _ _ e (IsStack-enqueue x r.valid r.room) (omega (arith, r.sp)))
  deliver-Keeps p q s Copied.dropped e r sound =
      returns (set_peer-Runs v p q _ _ e r.valid (omega (arith, r.sp)))
  deliver-Keeps p q s Copied.unsupported e r sound =
      let kept = set_peer-Runs v p q _ _ e r.valid (omega (arith, r.sp)) in
      after kept (error-Safe env _ "not supported type" [] kept.valid.stack kept.valid.boxes)
  deliver-Keeps p q s Copied.dangling e r sound = absurd (sound refl)

  send_to-Keeps :
      (p : ℕ) (msg : Value)
      → ((to : List Obj) → copy_message env (p == a.pid) msg a.heap to ≢ Copied.dangling)
      → Keeps a (send_to env p msg a)
  unfolding send_to
  send_to-Keeps p msg sound = elim (Option-cases (peer a p)) [
    | inl nobody ↦ rw (nobody, send_to) (returns (Runs-refl v))
    | inr (q, e) ↦
        (let box = peer-IsStack v p q e in
          elim (reserve-Reserved env.alloc 1 box (omega (arith, box.used, box.small))) [
            | inl (full, _, _) ↦
                rw (e, send_to) (rw full (error-Safe env a "out of memory" [] v.stack v.boxes))
            | inr (s, given, r, _) ↦
                rw (e, send_to) (rw given (deliver-Keeps p q s _ e r (sound q.heap)))
          ])
  ]

  send_value-Keeps :
      (target msg : Value)
      → ((p : ℕ) (to : List Obj)
          → target ≡ Value.pid p
          → copy_message env (p == a.pid) msg a.heap to ≢ Copied.dangling)
      → Keeps a (send_value env target msg a)
  unfolding send_value
  send_value-Keeps (Value.pid p) msg sound = send_to-Keeps p msg (λ to. sound p to refl)
  send_value-Keeps Value.nil msg sound = error-Safe env a "target must be a pid" [] v.stack v.boxes
  send_value-Keeps _ msg sound = error-Safe env a "target must be a pid" [] v.stack v.boxes

-- The message on top of the stack, if it is a string, names a string object, and its text is not lost
-- when an actor sends it to itself.
abbrev pub Sendable : Env → Actor → Type 0
Sendable env a =
    (p : ℕ) (msg : Value) (to : List Obj)
    → get_elem? a.stack.v (a.stack.sp - 2) ≡ some (Value.pid p)
    → get_elem? a.stack.v (a.stack.sp - 1) ≡ some msg
    → copy_message env (p == a.pid) msg a.heap to ≢ Copied.dangling

-- any_mbox_send from a valid actor with at least two values on its stack, the top one of which is
-- no string or one that exists, never faults: it keeps the invariant, with every reachable
-- mailbox valid, the frame, its callers and the values below the frame, or throws with the error
-- value on a valid stack.
pub mbox_send-Keeps :
    (env : Env) {a : Actor}
    → IsActor a
    → 2 ≤ a.stack.sp
    → Sendable env a
    → Keeps a (mbox_send env a)
unfolding mbox_send
mbox_send-Keeps env {a} v two sound = bind (pop-Safe env a 2 v two) λ _ b (moved, keeps).
    let (target, e) =
      get_elem?-some a.stack.v (a.stack.sp - 2) (omega (arith, v.stack.storage, v.stack.used)) in
    let (msg, e') =
      get_elem?-some a.stack.v (a.stack.sp - 2 + 1)
        (omega (arith, v.stack.storage, v.stack.used)) in
    let runs = at_sp-Runs v (a.stack.sp - 2) (omega (arith, keeps)) (omega arith) in
    let top : get_elem? a.stack.v (a.stack.sp - 1) ≡ some msg =
      ap (get_elem? a.stack.v) (omega arith) ∙ e' in
    rw moved (
      rw (e, load)
        (rw (e', load)
          (after-Keeps runs (
            send_value-Keeps env runs.valid target msg
              (λ p to is_pid. sound p msg to (e ∙ ap some is_pid) top)))))

module _ (env : Env) {a : Actor} (v : IsActor a) where
  pub recv_now-Keeps : Keeps a (recv_now env a)
  unfolding recv_now
  recv_now-Keeps = elim (Bool-cases (ltb a.msg_pp a.msbox.sp)) [
    | inr none_left ↦ rw none_left (returns (Runs-refl v))
    | inl more ↦ (elim (Bool-cases (leb a.stack.sp a.frame.bp)) [
      | inl empty ↦ rw (more, empty) (error-Safe env a "receive to empty stack" [] v.stack v.boxes)
      | inr full ↦
          (let (x, e) =
              get_elem?-some a.msbox.v a.msg_pp
                (ground (arith, v.boxes.box.storage, v.boxes.box.used)) in
            let runs =
              Runs-boxes a.msbox (a.msg_pp + 1) a.peers a.heap a.notified v v.boxes.box
                (ground arith) v.boxes.others in
            let top : InFrame _ (a.stack.sp - 1) = record {
              from = ground (arith, v.base);
              to = ground (arith, v.base);
            } in
            rw (more, full)
              (rw e (
                rw (store-InFrame runs.valid (a.stack.sp - 1) x top)
                  (returns (Runs-trans runs (with_value-Runs runs.valid (a.stack.sp - 1) x top))))))
    ])
  ]

  pub mbox_remove-Keeps : Keeps a (mbox_remove env a)
  unfolding mbox_remove
  mbox_remove-Keeps = elim (Bool-cases (a.msg_pp == 0)) [
    | inl nothing ↦ rw nothing (error-Safe env a "no message to remove" [] v.stack v.boxes)
    | inr some_seen ↦ rw some_seen (
        returns (
          Runs-boxes _ 0 a.peers a.heap a.notified v
            (record {
              storage = length-overwrite a.msbox.v _ _ ∙ v.boxes.box.storage;
              used = omega (arith, v.boxes.box.used);
              pos = v.boxes.box.pos;
              small = v.boxes.box.small;
            })
            (omega arith) v.boxes.others))
  ]

  pub mbox_rewind-Keeps : Keeps a (mbox_rewind a)
  unfolding mbox_rewind
  mbox_rewind-Keeps =
      returns
        (Runs-boxes a.msbox 0 a.peers a.heap a.notified v v.boxes.box (omega arith) v.boxes.others)

-- What a suspension is asked: it brings the actor back in the same frame.
abbrev pub WaitSafe : Env → Type 0
WaitSafe env = (t : ℤ) (a : Actor) → IsActor a → Runs a (env.wait t a)

-- any_mbox_recv with any timeout, whatever arrives while it waits as long as the wait brings a
-- valid actor back in its frame, never faults from a valid actor: it keeps the invariant, the
-- frame, its callers and the values below the frame, or throws with the error value on a valid
-- stack.
pub mbox_recv-Keeps :
    (env : Env) {a : Actor} (timeout : ℤ)
    → WaitSafe env
    → IsActor a
    → Keeps a (mbox_recv env timeout a)
unfolding mbox_recv
mbox_recv-Keeps env {a} timeout waits v =
    elim (Bool-cases (ltb a.msg_pp a.msbox.sp || eq_ℤ timeout (pos 0))) [
      | inl now ↦ rw now (recv_now-Keeps env v)
      | inr later ↦
          rw later (after-Keeps (waits timeout a v) (recv_now-Keeps env (waits timeout a v).valid))
    ]
