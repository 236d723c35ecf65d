-- ===== src/Mailbox/Inbox.antt =====
-- The mailbox of an actor as a selective receive: the messages that it has seen and put off, and
-- the ones still to come, in the order of arrival.
use any_vm.Base.{
  ◌+◌, ◌-◌, ◌==◌, ◌<◌, ◌≡◌, suc, refl, sym, ◌∙◌, ap, inl, inr, true, false, Bool-cases, some, List,
  [], ◌∷◌, ◌++◌, append_assoc, arith, ltb, leb, lt→ltb, length, length-append, length-take,
  get_elem?, set, get_elem?-set_self, take, drop, overwrite, take-append_length, drop-append_length,
  get_elem?-append_length, take-take, drop-take, get_elem?-take, take-suc-set, take-overwrite,
}
use any_vm.Errno.{AError}
use any_vm.Stack.{Stack}
use any_vm.Stack.Laws.{IsStack}
use any_vm.Value.{Value}
use any_vm.Machine.{Actor, Out, Env}
use any_vm.Safe.{IsActor}
use any_vm.Operand.{error, store}
use any_vm.Operand.Effects.{with_value}
use any_vm.Mailbox.{enqueue, recv_now, mbox_remove, mbox_rewind}

-- The messages of a mailbox.
abbrev pub messages : Stack → List Value
messages s = take s.sp s.v

-- The actor has put off the messages `seen`, and `rest` are to come.
pub record Holds (a : Actor) (seen rest : List Value) : Type 0 where
  pub split : messages a.msbox ≡ seen ++ rest
  pub position : length seen ≡ a.msg_pp

-- The state after the message `x` is picked up.
abbrev pub picked : Actor → Value → Actor
picked a x = with_value (record a { msg_pp = a.msg_pp + 1 }) (a.stack.sp - 1) x

-- The mailbox without the message that was seen last.
abbrev pub removed : Actor → Actor
removed a = record a {
  msg_pp = 0;
  msbox = record (a.msbox) {
    v = overwrite a.msbox.v (a.msg_pp - 1) (take (a.msbox.sp - a.msg_pp) (drop a.msg_pp a.msbox.v));
    sp = a.msbox.sp - 1;
  };
}

module _ {s : Stack} (v : IsStack s) where
  pub length-messages : length (messages s) ≡ s.sp
  length-messages = omega (arith, length-take s.sp s.v, v.storage, v.used)

  -- A message that arrives is the last one.
  pub messages-enqueue :
      (x : Value) → s.sp < s.cap → messages (enqueue s x) ≡ messages s ++ (x ∷ [])
  messages-enqueue x room =
      ap (λ k. take k (set s.v s.sp x)) {y = suc s.sp} (omega arith)
      ∙ take-suc-set s.v s.sp x (omega (arith, v.storage))

module _ (env : Env) {a : Actor} (v : IsActor a) where
  held : (seen rest : List Value) → Holds a seen rest → length seen + length rest ≡ a.msbox.sp
  held seen rest h =
      sym (length-append seen rest) ∙ ap length (sym h.split) ∙ length-messages v.boxes.box

  -- If a valid actor has put off every message of its mailbox, receiving without a wait returns
  -- AERR_TIMEOUT and changes nothing.
  pub recv_now-none :
      (seen : List Value) → Holds a seen [] → recv_now env a ≡ Out.ok AError.timeout a
  unfolding recv_now
  recv_now-none seen h = elim (Bool-cases (ltb a.msg_pp a.msbox.sp)) [
    | inl more ↦ absurd (ground (arith, held seen [] h, h.position))
    | inr over ↦ rw over
  ]

  next_message :
      (seen rest : List Value) (x : Value)
      → Holds a seen (x ∷ rest)
      → get_elem? a.msbox.v a.msg_pp ≡ some x
  next_message seen rest x h =
      sym (
        get_elem?-take a.msbox.sp a.msg_pp a.msbox.v
          (omega (arith, held seen (x ∷ rest) h, h.position)))
      ∙ ap (λ l. get_elem? l a.msg_pp) h.split
      ∙ ap (get_elem? (seen ++ (x ∷ rest))) (sym h.position)
      ∙ get_elem?-append_length seen rest x

  recv_now-picked :
      (seen rest : List Value) (x : Value)
      → Holds a seen (x ∷ rest)
      → a.frame.bp < a.stack.sp
      → recv_now env a ≡ Out.ok AError.ok (picked a x)
  unfolding recv_now store
  recv_now-picked seen rest x h room =
      rw (more, has)
        (rw (next_message seen rest x h) (
          rw (
            lt→ltb (a.stack.sp - 1) (length a.stack.v)
              (omega (arith, v.stack.storage, v.stack.used, room)))))
    where
      more : ltb a.msg_pp a.msbox.sp ≡ true
      more = ground (arith, held seen (x ∷ rest) h, h.position)

      has : leb a.stack.sp a.frame.bp ≡ false
      has = ground arith

  -- If a valid actor has put off the messages seen and x is the next one of those to come, and
  -- its frame holds a value, then receiving returns without an error, stores x in place of the
  -- top of the stack, and leaves the mailbox as one that has put off seen and then x, with the
  -- rest to come.
  pub recv_now-next :
      (seen rest : List Value) (x : Value)
      → Holds a seen (x ∷ rest)
      → a.frame.bp < a.stack.sp
      → (recv_now env a ≡ Out.ok AError.ok (picked a x))
        × (get_elem? (picked a x).stack.v (a.stack.sp - 1) ≡ some x)
        × Holds (picked a x) (seen ++ (x ∷ [])) rest
  recv_now-next seen rest x h room = (
    recv_now-picked seen rest x h room,
    get_elem?-set_self a.stack.v (a.stack.sp - 1) x (omega (arith, v.stack.storage, v.stack.used)),
    record {
      split = h.split ∙ sym (append_assoc seen (x ∷ []) rest);
      position = omega (arith, length-append seen (x ∷ []), h.position);
    },
  )

  -- The messages before and after the one that was seen last.
  before_last :
      (seen rest : List Value) (x : Value)
      → Holds a (seen ++ (x ∷ [])) rest
      → take (a.msg_pp - 1) a.msbox.v ≡ seen
  before_last seen rest x h =
      let n : length seen ≡ a.msg_pp - 1 = omega (arith, length-append seen (x ∷ []), h.position) in
      sym (
        take-take (a.msg_pp - 1) a.msbox.sp a.msbox.v
          (omega (arith, held (seen ++ (x ∷ [])) rest h, h.position)))
      ∙ ap (take (a.msg_pp - 1)) (h.split ∙ append_assoc seen (x ∷ []) rest)
      ∙ ap (λ k. take k (seen ++ (x ∷ rest))) (sym n)
      ∙ take-append_length seen (x ∷ rest)

  after_last :
      (seen rest : List Value)
      → Holds a seen rest
      → take (a.msbox.sp - a.msg_pp) (drop a.msg_pp a.msbox.v) ≡ rest
  after_last seen rest h =
      sym (drop-take a.msg_pp a.msbox.sp a.msbox.v)
      ∙ ap (drop a.msg_pp) h.split
      ∙ ap (λ k. drop k (seen ++ rest)) (sym h.position)
      ∙ drop-append_length seen rest

  total :
      (seen rest : List Value) (x : Value)
      → Holds a (seen ++ (x ∷ [])) rest
      → a.msbox.sp - 1 ≡ a.msg_pp - 1 + length rest
  total seen rest x h =
      omega (arith, held (seen ++ (x ∷ [])) rest h, h.position, length-append seen (x ∷ []))

  Holds-removed :
      (seen rest : List Value) (x : Value)
      → Holds a (seen ++ (x ∷ [])) rest
      → Holds (removed a) [] (seen ++ rest)
  Holds-removed seen rest x h = record {
    split =
        ap (λ l. take (a.msbox.sp - 1) (overwrite a.msbox.v (a.msg_pp - 1) l)) (after_last _ rest h)
        ∙ ap (λ k. take k (overwrite a.msbox.v (a.msg_pp - 1) rest))
            {y = a.msg_pp - 1 + length rest} (total seen rest x h)
        ∙ take-overwrite a.msbox.v (a.msg_pp - 1) rest
            (omega (arith, total seen rest x h, v.boxes.box.storage, v.boxes.box.used))
        ∙ ap (◌++ rest) (before_last seen rest x h);
    position = refl;
  }

  -- If a valid actor has put off the messages seen and, as the last one, x, then any_mbox_remove
  -- takes x out of the mailbox and starts again from the first message: nothing is put off, and
  -- seen followed by the rest are to come, in the order of arrival.
  pub mbox_remove-last :
      (seen rest : List Value) (x : Value)
      → Holds a (seen ++ (x ∷ [])) rest
      → (mbox_remove env a ≡ Out.ok tt (removed a)) × Holds (removed a) [] (seen ++ rest)
  unfolding mbox_remove
  mbox_remove-last seen rest x h = elim (Bool-cases (a.msg_pp == 0)) [
    | inl nothing ↦ absurd (ground (arith, length-append seen (x ∷ []), h.position))
    | inr something ↦ (rw something, Holds-removed seen rest x h)
  ]

  pub mbox_remove-none :
      (rest : List Value)
      → Holds a [] rest
      → mbox_remove env a ≡ error env AError.runtime "no message to remove" [] a
  unfolding mbox_remove
  mbox_remove-none rest h = elim (Bool-cases (a.msg_pp == 0)) [
    | inl nothing ↦ rw nothing
    | inr something ↦ absurd (ground (arith, h.position))
  ]

  -- If a valid actor has put off the messages seen, any_mbox_rewind makes all of them to come
  -- again, before the rest and in the order of arrival.
  pub mbox_rewind-all :
      (seen rest : List Value)
      → Holds a seen rest
      → (mbox_rewind a ≡ Out.ok tt (record a { msg_pp = 0 }))
        × Holds (record a { msg_pp = 0 }) [] (seen ++ rest)
  unfolding mbox_rewind
  mbox_rewind-all seen rest h = (refl, record { split = h.split; position = refl })

  pub Holds-enqueue :
      (seen rest : List Value) (x : Value)
      → Holds a seen rest
      → a.msbox.sp < a.msbox.cap
      → Holds (record a { msbox = enqueue a.msbox x }) seen (rest ++ (x ∷ []))
  Holds-enqueue seen rest x h room = record {
    split =
        messages-enqueue v.boxes.box x room
        ∙ ap (◌++ (x ∷ [])) h.split
        ∙ append_assoc seen rest (x ∷ []);
    position = h.position;
  }
