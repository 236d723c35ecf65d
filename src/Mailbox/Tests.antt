-- ===== src/Mailbox/Tests.antt =====
-- A mailbox with two messages, the first of them put off.
use any_vm.Base.{
  false, pos, ◌-◌, ◌==◌, if◌then◌else◌, ◌≡◌, ◌⊎◌, ◌≢◌, subst, some_inj, refl, some, none, List, [],
  ◌∷◌, ◌++◌, arith, get_elem?, ℕ,
}
use any_vm.Errno.{AError}
use any_vm.Value.{AType, Value, Obj}
use any_vm.Machine.{Peer, Actor, Out}
use any_vm.Safe.{IsActor}
use any_vm.Operand.{error}
use any_vm.Stack.Laws.{Asked}
use any_vm.Mailbox.{Copied, copy_string, peer, send_to, recv_now, mbox_remove, copy_message}
use any_vm.Mailbox.Inbox.{Holds, picked, removed, recv_now-next, mbox_remove-last}
use any_vm.Mailbox.Arrival.{Arrived, send_to-Arrived}
use any_vm.Mailbox.Delivery.{Sendable}
use any_vm.Sample.{env, actor, actor-IsActor, stack_of, stack_of-IsStack}

abbrev one : Value
one = Value.integer (pos 1)

abbrev two : Value
two = Value.integer (pos 2)

-- The stack holds a pid and a timeout.
abbrev values : List Value
values = Value.nil ∷ Value.pid 1 ∷ Value.integer (pos 0) ∷ []

abbrev waiting : Actor
waiting = actor values 1 (one ∷ two ∷ []) 1

waiting-IsActor : IsActor waiting
waiting-IsActor =
    actor-IsActor values 1 (one ∷ two ∷ []) 1 (omega arith) (omega arith) (omega arith)
      (omega arith)

waiting-Holds : Holds waiting (one ∷ []) (two ∷ [])
waiting-Holds = record { split = refl; position = refl }

recv_now-next_example :
    (recv_now env waiting ≡ Out.ok AError.ok (picked waiting two))
    × (get_elem? (picked waiting two).stack.v (waiting.stack.sp - 1) ≡ some two)
    × Holds (picked waiting two) ((one ∷ []) ++ (two ∷ [])) []
recv_now-next_example =
    recv_now-next env waiting-IsActor (one ∷ []) [] two waiting-Holds (omega arith)

mbox_remove-last_example :
    (mbox_remove env waiting ≡ Out.ok tt (removed waiting))
    × Holds (removed waiting) [] ([] ++ (two ∷ []))
mbox_remove-last_example = mbox_remove-last env waiting-IsActor [] (two ∷ []) one waiting-Holds

-- An actor that has seen every message.
abbrev idle : Actor
idle = actor values 1 (one ∷ []) 1

idle-IsActor : IsActor idle
idle-IsActor =
    actor-IsActor values 1 (one ∷ []) 1 (omega arith) (omega arith) (omega arith) (omega arith)

-- Actor 2 with an empty mailbox and an empty heap.
abbrev receiver : Peer
receiver = record { msbox = stack_of []; heap = [] }

abbrev hello : Obj
hello = Obj.string (b'h' ∷ b'i' ∷ [])

abbrev sender : Actor
sender = record idle { heap = hello ∷ []; peers = λ p. if p == 2 then some receiver else none }

found : peer sender 2 ≡ some receiver
unfolding peer
found = refl

hello_copied :
    copy_message env false (Value.collectable AType.string 0) sender.heap receiver.heap
    ≡ Copied.copied (Value.collectable AType.string 0) (hello ∷ [])
unfolding copy_message copy_string
hello_copied = refl

send_to-Arrived_example :
    ((send_to env 2 (Value.collectable AType.string 0) sender
        ≡ error env AError.runtime "out of memory" [] sender)
      × (c : ℕ) × Asked env.alloc receiver.msbox 1 c false)
    ⊎ ((b : Actor) × (send_to env 2 (Value.collectable AType.string 0) sender ≡ Out.ok tt b)
        × Arrived sender 2 receiver (Value.collectable AType.string 0) b)
send_to-Arrived_example =
    send_to-Arrived env sender 2 receiver (Value.collectable AType.string 0)
      (Value.collectable AType.string 0) (hello ∷ []) found (stack_of-IsStack [] (omega arith))
      hello_copied

abbrev addressed : Actor
addressed = actor (Value.nil ∷ Value.pid 1 ∷ one ∷ []) 1 [] 0

addressed-IsActor : IsActor addressed
addressed-IsActor =
    actor-IsActor (Value.nil ∷ Value.pid 1 ∷ one ∷ []) 1 [] 0 (omega arith) (omega arith)
      (omega arith) (omega arith)

addressed-Sendable : Sendable env addressed
unfolding copy_message
addressed-Sendable p msg to is_pid e =
    subst (λ m. copy_message env (p == addressed.pid) m [] to ≢ Copied.dangling) (some_inj e)
      (λ h. cc h)
