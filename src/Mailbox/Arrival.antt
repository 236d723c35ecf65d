-- ===== src/Mailbox/Arrival.antt =====
-- A message that is sent to another actor arrives last in its mailbox, as the value that was sent.
use any_vm.Base.{
  Bool, false, ◌&&◌, ℕ, ◌+◌, ◌==◌, ==_self, ==_ne, ==_iff, subst, ◌<◌, ◌≡◌, ◌≢◌, refl, sym, ◌∙◌, ap,
  ◌⊎◌, inl, inr, Bool-cases, Option, none, some, List, [], ◌∷◌, ◌++◌, arith, length, take, take_ext,
  get_elem?, get_elem?-append_left, get_elem?-append_length,
}
use any_vm.Errno.{AError}
use any_vm.Stack.{Stack}
use any_vm.Stack.Laws.{IsStack, Reserved, Asked, reserve-Reserved}
use any_vm.Value.{AType, Value, Obj}
use any_vm.Machine.{Peer, Actor, Out, Env}
use any_vm.Operand.{error, string_bytes}
use any_vm.Mailbox.{peer, set_peer, Copied, copy_string, copy_message, enqueue, deliver, send_to}
use any_vm.Mailbox.Inbox.{messages, messages-enqueue}

-- The value `x` on the heap `to` says what `msg` says on the heap `from`: it is the same value, or
-- a string with the same text.
pub data Carries (from to : List Obj) : Value → Value → Type 0 where
  itself : {x : Value} → Carries from to x x
  text :
      {i j : ℕ} {bytes : List ℕ}
      → get_elem? from i ≡ some (Obj.string bytes)
      → get_elem? to j ≡ some (Obj.string bytes)
      → Carries from to (Value.collectable AType.string i) (Value.collectable AType.string j)

-- What a copy that succeeds is: the receiver's objects are kept.
pub record IsCopy (from to : List Obj) (msg x : Value) (grown : List Obj) : Type 0 where
  pub carries : Carries from grown msg x
  pub kept : (i : ℕ) → i < length to → get_elem? grown i ≡ get_elem? to i

IsCopy-itself : {from to : List Obj} (x : Value) → IsCopy from to x x to
IsCopy-itself x = record { carries = Carries.itself; kept = λ i lt. refl }

pub data CopyCase (from to : List Obj) (msg : Value) : Copied → Type 0 where
  done :
      {x : Value} {grown : List Obj}
      → IsCopy from to msg x grown
      → CopyCase from to msg (Copied.copied x grown)
  lost : CopyCase from to msg Copied.dropped
  refused : CopyCase from to msg Copied.unsupported
  broken : CopyCase from to msg Copied.dangling

is_copy :
    {from to : List Obj} {msg x : Value} {grown : List Obj}
    → CopyCase from to msg (Copied.copied x grown)
    → IsCopy from to msg x grown
is_copy (CopyCase.done c) = c

module _ (env : Env) (own : Bool) (from to : List Obj) where
  copy_string-case :
      (i : ℕ) (o : Option Obj)
      → get_elem? from i ≡ o
      → CopyCase from to (Value.collectable AType.string i) (copy_string env own o to)
  unfolding copy_string
  copy_string-case i none e = CopyCase.broken
  copy_string-case i (some (Obj.string bytes)) e =
      elim (Bool-cases (env.heap_ok to (string_bytes + length bytes + 1))) [
        | inl room ↦
            (elim (Bool-cases (own && env.heap_grows to (string_bytes + length bytes + 1))) [
              | inl moved ↦ rw (room, moved) CopyCase.broken
              | inr stays ↦
                  rw (room, stays)
                    (CopyCase.done (record {
                      carries = Carries.text e (get_elem?-append_length to [] (Obj.string bytes));
                      kept = λ j lt. get_elem?-append_left to _ j lt;
                    }))
            ])
        | inr full ↦ rw full CopyCase.lost
      ]
  copy_string-case i (some _) e = CopyCase.broken

  pub copy_message-case : (msg : Value) → CopyCase from to msg (copy_message env own msg from to)
  unfolding copy_message
  copy_message-case (Value.collectable AType.string i) = copy_string-case i (get_elem? from i) refl
  copy_message-case (Value.collectable _ i) = CopyCase.refused
  copy_message-case (Value.native_func f) = CopyCase.refused
  copy_message-case (Value.byte_code_func p) = CopyCase.refused
  copy_message-case _ = CopyCase.done (IsCopy-itself _)

module _ (a : Actor) (p : ℕ) (r : Peer) where
  peer-set_peer_self :
      (told : List ℕ) → peer (record (set_peer a p r) { notified = told }) p ≡ some r
  unfolding peer set_peer
  peer-set_peer_self told = elim (Bool-cases (p == a.pid)) [
    | inl own ↦ rw own (rw own refl)
    | inr other ↦ rw other (rw other (rw (==_self p) refl))
  ]

  peer-set_peer_ne :
      (told : List ℕ) (t : ℕ)
      → t ≢ p
      → peer (record (set_peer a p r) { notified = told }) t ≡ peer a t
  unfolding peer set_peer
  peer-set_peer_ne told t h = elim (Bool-cases (p == a.pid)) [
    | inl own ↦
        rw own (rw (==_ne {a = t} {b = a.pid} (λ e. h (e ∙ sym ((==_iff p a.pid).0 own)))) refl)
    | inr other ↦ rw other (rw (==_ne h) refl)
  ]

-- A message has arrived at `p`: it stands last in the mailbox, as it was sent, the receiver's
-- objects are kept, the receiver was told, and no other mailbox has changed.
pub record Arrived (a : Actor) (p : ℕ) (q : Peer) (msg : Value) (b : Actor) : Type 0 where
  pub target : Peer
  pub value : Value
  pub found : peer b p ≡ some target
  pub last : messages target.msbox ≡ messages q.msbox ++ (value ∷ [])
  pub copy : IsCopy a.heap q.heap msg value target.heap
  pub told : b.notified ≡ p ∷ a.notified
  pub others : (t : ℕ) → t ≢ p → peer b t ≡ peer a t

set_peer-notified : (a : Actor) (p : ℕ) (r : Peer) → (set_peer a p r).notified ≡ a.notified
unfolding set_peer
set_peer-notified a p r = elim (Bool-cases (p == a.pid)) [
  | inl own ↦ rw own refl
  | inr other ↦ rw other refl
]

messages-Reserved : {s t : Stack} → IsStack s → Reserved s 1 t → messages t ≡ messages s
messages-Reserved {s} {t} v r =
    ap (λ n. take n t.v) r.sp ∙ take_ext s.sp t.v s.v (λ i lt. r.kept i (omega (arith, lt, v.used)))

Arrived-enqueue :
    (a : Actor) (p : ℕ) (q : Peer) (msg x : Value) (s : Stack) (to : List Obj)
    → IsStack q.msbox
    → Reserved q.msbox 1 s
    → IsCopy a.heap q.heap msg x to
    → Arrived a p q msg (record (set_peer a p (record { msbox = enqueue s x; heap = to })) {
      notified = p ∷ (set_peer a p (record { msbox = enqueue s x; heap = to })).notified;
    })
Arrived-enqueue a p q msg x s to v r c =
    let target : Peer = record { msbox = enqueue s x; heap = to } in
    record {
      target = target;
      value = x;
      found = peer-set_peer_self a p target _;
      last =
          messages-enqueue r.valid x (omega (arith, r.room))
          ∙ ap (◌++ (x ∷ [])) (messages-Reserved v r);
      copy = c;
      told = ap (p ∷◌) (set_peer-notified a p target);
      others = peer-set_peer_ne a p target _;
    }

-- If p is the pid of a live actor with a valid mailbox and the message can be copied (a string
-- that an actor sends to itself is lost if its heap must grow for the copy), sending either
-- reports that there is no memory, the mailbox being full and the allocator refusing a larger
-- array, or puts the message last in the mailbox of p: it is the same value, or a string of the
-- same text on the heap of the receiver, whose objects are kept; the scheduler is told once, and
-- no other mailbox changes.
pub send_to-Arrived :
    (env : Env) (a : Actor) (p : ℕ) (q : Peer) (msg x : Value) (to : List Obj)
    → peer a p ≡ some q
    → IsStack q.msbox
    → copy_message env (p == a.pid) msg a.heap q.heap ≡ Copied.copied x to
    → ((send_to env p msg a ≡ error env AError.runtime "out of memory" [] a)
        × (c : ℕ) × Asked env.alloc q.msbox 1 c false)
      ⊎ ((b : Actor) × (send_to env p msg a ≡ Out.ok tt b) × Arrived a p q msg b)
unfolding send_to deliver
send_to-Arrived env a p q msg x to found v copy =
    elim (reserve-Reserved env.alloc 1 v (omega (arith, v.used, v.small))) [
      | inl (full, c, asked) ↦ inl (rw (found, send_to) (rw full), c, asked)
      | inr (s, given, r, _) ↦ inr (
        _,
        rw (found, send_to) (rw given (rw copy)),
        Arrived-enqueue a p q msg x s to v r
            (copied_is_copy (copy_message-case env (p == a.pid) a.heap q.heap msg)),
      )
    ]
  where
    copied_is_copy :
        CopyCase a.heap q.heap msg (copy_message env (p == a.pid) msg a.heap q.heap)
        → IsCopy a.heap q.heap msg x to
    copied_is_copy c = is_copy (subst (CopyCase a.heap q.heap msg) copy c)
