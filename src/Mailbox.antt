-- ===== src/Mailbox.antt =====
-- Messages between actors, src/private/actor.c: `any_mbox_send`, `any_mbox_recv`,
-- `any_mbox_remove` and `any_mbox_rewind`.
pub mod Inbox
pub mod Arrival
pub mod Delivery
mod Tests
use any_vm.Base.{
  ℕ, ℤ, pos, ◌+◌, ◌-◌, ◌==◌, ◌||◌, ◌&&◌, Bool, eq_ℤ, ltb, leb, if◌then◌else◌, Option, none, some,
  List, [], ◌∷◌, ◌++◌, length, get_elem?, set, take, drop, overwrite,
}
use any_vm.Errno.{AError}
use any_vm.Stack.{Stack, reserve}
use any_vm.Value.{AType, Value, Obj}
use any_vm.Machine.{Peer, Actor, Out, M, pure, ◌>>=◌, ◌>>◌, Env}
use any_vm.Operand.{load, store, error, pop, string_bytes}

-- `ascheduler_actor`: the live actor with that pid, which may be the sender itself.
unfoldable pub peer : Actor → ℕ → Option Peer
peer a p = if p == a.pid then some (record { msbox = a.msbox; heap = a.heap }) else a.peers p

unfoldable pub set_peer : Actor → ℕ → Peer → Actor
set_peer a p q =
    if p == a.pid
    then record a { msbox = q.msbox; heap = q.heap }
    else record a { peers = λ r. if r == p then some q else a.peers r }

-- What becomes of a message on its way: a value to store and the heap of the receiver, nothing as
-- the receiver has no room for the text, or an error of the sender.
pub data Copied : Type 0 where
  copied : Value → List Obj → Copied
  dropped unsupported dangling : Copied

-- The text is read after room was made for the copy: if the receiver is the sender itself and its heap
-- had to grow, the bytes are gone. A collection alone leaves them in the other space.
unfoldable pub copy_string : Env → (own : Bool) → Option Obj → List Obj → Copied
copy_string env own (some (Obj.string bytes)) to =
    if env.heap_ok to (string_bytes + length bytes + 1)
    then if own && env.heap_grows to (string_bytes + length bytes + 1)
      then Copied.dangling
      else Copied.copied (Value.collectable AType.string (length to))
          (to ++ (Obj.string bytes ∷ []))
    else Copied.dropped
copy_string env own _ to = Copied.dangling

-- The `switch` of `any_mbox_send`.
unfoldable pub copy_message : Env → (own : Bool) → Value → (from to : List Obj) → Copied
unfolding copy_string
copy_message env own (Value.native_func _) from to = Copied.unsupported
copy_message env own (Value.byte_code_func _) from to = Copied.unsupported
copy_message env own (Value.collectable AType.string i) from to =
    copy_string env own (get_elem? from i) to
copy_message env own (Value.collectable _ _) from to = Copied.unsupported
copy_message env own v from to = Copied.copied v to

-- The message in the next free slot.
abbrev pub enqueue : Stack → Value → Stack
enqueue s x = record s { v = set s.v s.sp x; sp = s.sp + 1 }

module _ (env : Env) where
  -- The store of a message in the mailbox of `q`, whose storage is `s` by then.
  unfoldable pub deliver : (p : ℕ) → Stack → List Obj → Copied → M (Unit {0})
  unfolding set_peer error
  deliver p s heap (Copied.copied x to) a =
      let b = set_peer a p (record { msbox = enqueue s x; heap = to }) in
      Out.ok tt (record b { notified = p ∷ b.notified })
  deliver p s heap Copied.dropped a = Out.ok tt (set_peer a p (record { msbox = s; heap = heap }))
  deliver p s heap Copied.unsupported a =
      error env AError.runtime "not supported type" []
        (set_peer a p (record { msbox = s; heap = heap }))
  deliver p s heap Copied.dangling a = Out.fault

  unfoldable pub send_to : (p : ℕ) → Value → M (Unit {0})
  unfolding peer copy_message deliver error
  send_to p msg a = elim (peer a p) [
    | none ↦ Out.ok tt a
    | some q ↦ elim (reserve env.alloc q.msbox 1) [
      | none ↦ Out.fault
      | some (AError.ok, s) ↦ deliver p s q.heap (copy_message env (p == a.pid) msg a.heap q.heap) a
      | some (_, s) ↦ error env AError.runtime "out of memory" [] a
    ]
  ]

  unfoldable pub send_value : (target msg : Value) → M (Unit {0})
  unfolding send_to error
  send_value (Value.pid p) msg = send_to p msg
  send_value _ msg = error env AError.runtime "target must be a pid" []

  unfoldable pub mbox_send : M (Unit {0})
  unfolding pop load send_value
  mbox_send = pop env (pos 2) >> λ a.
      (do target ← load a.stack.sp; msg ← load (a.stack.sp + 1); send_value target msg) a

  -- One round of the loop of `any_mbox_recv` with nothing to wait for.
  unfoldable pub recv_now : M AError
  unfolding store error
  recv_now a =
      if ltb a.msg_pp a.msbox.sp
      then if leb a.stack.sp a.frame.bp
        then error env AError.runtime "receive to empty stack" [] a
        else elim (get_elem? a.msbox.v a.msg_pp) [
          | none ↦ Out.fault
          | some x ↦
              (store (a.stack.sp - 1) x >> pure AError.ok) (record a { msg_pp = a.msg_pp + 1 })
        ]
      else Out.ok AError.timeout a

  -- `any_mbox_recv`: after one wait the loop goes round with ADONT_WAIT.
  unfoldable pub mbox_recv : (timeout : ℤ) → M AError
  unfolding recv_now
  mbox_recv timeout a =
      if ltb a.msg_pp a.msbox.sp || eq_ℤ timeout (pos 0)
      then recv_now a
      else recv_now (env.wait timeout a)

  unfoldable pub mbox_remove : M (Unit {0})
  unfolding error
  mbox_remove a =
      if a.msg_pp == 0
      then error env AError.runtime "no message to remove" [] a
      else Out.ok tt (record a {
        msg_pp = 0;
        msbox = record (a.msbox) {
          v =
              overwrite a.msbox.v (a.msg_pp - 1)
                (take (a.msbox.sp - a.msg_pp) (drop a.msg_pp a.msbox.v));
          sp = a.msbox.sp - 1;
        };
      })

-- `any_mbox_rewind`
unfoldable pub mbox_rewind : M (Unit {0})
mbox_rewind a = Out.ok tt (record a { msg_pp = 0 })
