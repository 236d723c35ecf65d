-- ===== src/Scheduler/Cleanup.antt =====
-- Which processes `cleanup` drops, src/private/scheduler.c.
use any_vm.Base.{
  ℕ, ◌==◌, ==_iff, ◌<◌, ◌≤◌, ◌≡◌, ◌≢◌, refl, sym, ◌∙◌, subst, inl, inr, ◌⊎◌, Bool, Bool-cases, true,
  false, ◌||◌, Option, none, some, List, [], ◌∷◌, arith, get_elem?, get_elem?-set_self,
  get_elem?-set_ne, get_elem?-lt,
}
use any_vm.Scheduler.{Process, Scheduler, free}
use any_vm.Scheduler.Queues.{
  apart_of, occurs, places, IsQueued, places-erase_self, occurs-without_ne,
}
use any_vm.Scheduler.Run.{erase, drop_slot, drop_all, cleanup}

-- The slot `i` and its place in the lists are the same in both.
pub record SameSlot (i : ℕ) (s t : Scheduler) : Type 0 where
  pub slot : get_elem? t.procs i ≡ get_elem? s.procs i
  pub running : occurs i t.runnings ≡ occurs i s.runnings
  pub pending : occurs i t.pendings ≡ occurs i s.pendings
  pub waiting : occurs i t.waitings ≡ occurs i s.waitings

-- The process `p` of the slot `i` is dead, and no list holds it.
pub record Dropped (i : ℕ) (p : Process) (t : Scheduler) : Type 0 where
  pub found : get_elem? t.procs i ≡ some (record p { dead = true })
  pub nowhere : places t i ≡ 0

same_slot : {i : ℕ} (s : Scheduler) → SameSlot i s s
same_slot s = record { slot = refl; running = refl; pending = refl; waiting = refl }

SameSlot-trans : {i : ℕ} {s t u : Scheduler} → SameSlot i s t → SameSlot i t u → SameSlot i s u
SameSlot-trans a b = record {
  slot = b.slot ∙ a.slot;
  running = b.running ∙ a.running;
  pending = b.pending ∙ a.pending;
  waiting = b.waiting ∙ a.waiting;
}

SameSlot-Dropped :
    {i : ℕ} {p : Process} {s t : Scheduler} → SameSlot i s t → Dropped i p s → Dropped i p t
SameSlot-Dropped k d = record {
  found = k.slot ∙ d.found;
  nowhere = omega (arith, k.running, k.pending, k.waiting, d.nowhere);
}

drop_slot-other :
    (all : Bool) {i j : ℕ} (o : Option Process) (s : Scheduler)
    → i ≢ j
    → SameSlot i s (drop_slot all j o s)
unfolding drop_slot free erase
drop_slot-other all none s apart = same_slot s
drop_slot-other all {i} {j} (some p) s apart = elim (Bool-cases (all || p.exit)) [
  | inr stays ↦ rw stays (same_slot s)
  | inl goes ↦ rw goes (record {
    slot = get_elem?-set_ne s.procs _ (λ h. apart (sym h));
    running = occurs-without_ne i j s.runnings apart;
    pending = occurs-without_ne i j s.pendings apart;
    waiting = occurs-without_ne i j s.waitings apart;
  })
]

drop_all-other :
    (all : Bool) {i : ℕ} (is : List ℕ) (s : Scheduler)
    → occurs i is ≡ 0
    → SameSlot i s (drop_all all is s)
unfolding drop_all
drop_all-other all [] s absent = same_slot s
drop_all-other all {i} (j ∷ is) s absent = elim (Bool-cases (j == i)) [
  | inl same ↦ absurd (ground arith)
  | inr other ↦
      SameSlot-trans (drop_slot-other all (get_elem? s.procs j) s (apart_of i j other))
        (drop_all-other all is (drop_slot all j (get_elem? s.procs j) s) (ground arith))
]

drop_slot-Dropped :
    (all : Bool) (i : ℕ) (p : Process) (s : Scheduler)
    → get_elem? s.procs i ≡ some p
    → (all || p.exit) ≡ true
    → Dropped i p (drop_slot all i (some p) s)
unfolding drop_slot free erase
drop_slot-Dropped all i p s found goes = rw goes (record {
  found = get_elem?-set_self s.procs i (record p { dead = true }) (get_elem?-lt s.procs i found);
  nowhere = places-erase_self i s;
})

drop_all-Dropped :
    (all : Bool) {i : ℕ} {p : Process} (is : List ℕ) (s : Scheduler)
    → occurs i is ≡ 1
    → get_elem? s.procs i ≡ some p
    → (all || p.exit) ≡ true
    → Dropped i p (drop_all all is s)
unfolding drop_all
drop_all-Dropped all [] s once found goes = absurd (omega (arith, once))
drop_all-Dropped all {i} {p} (j ∷ is) s once found goes = elim (Bool-cases (j == i)) [
  | inl same ↦
      subst (λ k. Dropped i p (drop_all all is (drop_slot all k (get_elem? s.procs k) s)))
        (sym ((==_iff j i).0 same))
        (rw found (
          SameSlot-Dropped (drop_all-other all is _ (ground arith))
            (drop_slot-Dropped all i p s found goes)))
  | inr other ↦
      drop_all-Dropped all is (drop_slot all j (get_elem? s.procs j) s) (ground arith)
        ((drop_slot-other all (get_elem? s.procs j) s (apart_of i j other)).slot ∙ found) goes
]

drop_all-stays :
    {i : ℕ} {p : Process} (is : List ℕ) (s : Scheduler)
    → get_elem? s.procs i ≡ some p
    → p.exit ≡ false
    → SameSlot i s (drop_all false is s)
unfolding drop_all drop_slot
drop_all-stays [] s found stays = same_slot s
drop_all-stays {i} {p} (j ∷ is) s found stays = elim (Bool-cases (j == i)) [
  | inl same ↦
      subst (λ k. SameSlot i s (drop_all false is (drop_slot false k (get_elem? s.procs k) s)))
        (sym ((==_iff j i).0 same)) (rw (found, stays) (drop_all-stays is s found stays))
  | inr other ↦
      (let k = drop_slot-other false (get_elem? s.procs j) s (apart_of i j other) in
        SameSlot-trans k (drop_all-stays is _ (k.slot ∙ found) stays))
]

module _ {s : Scheduler} (i : ℕ) (p : Process) (v : IsQueued s)
    (found : get_elem? s.procs i ≡ some p) where
  -- If every process in a list is alive and in one place, and the slot i holds the process p,
  -- then cleanup between two runs drops p, which is then dead and in no list, exactly in the case
  -- that it was in the running list and its task has ended; in every other case the slot and its
  -- place in the lists are as before.
  pub cleanup-Dropped :
      ((0 < occurs i s.runnings) × (p.exit ≡ true) × Dropped i p (cleanup false s))
      ⊎ ((occurs i s.runnings ≡ 0) ⊎ (p.exit ≡ false)) × SameSlot i s (cleanup false s)
  unfolding cleanup
  cleanup-Dropped = elim (Bool-cases (occurs i s.runnings == 0)) [
    | inl absent ↦
        (let h : occurs i s.runnings ≡ 0 = ground arith in
          inr (inl h, drop_all-other false s.runnings s h))
    | inr present ↦ (elim (Bool-cases p.exit) [
      | inr stays ↦ inr (inr stays, drop_all-stays s.runnings s found stays)
      | inl exits ↦ inl (
        ground arith,
        exits,
        drop_all-Dropped false s.runnings s (ground (arith, v.once i)) found exits,
      )
    ])
  ]

-- A round over a list that holds the slot at most once drops its process or leaves it alone.
drop_all-cases :
    {i : ℕ} {p : Process} (is : List ℕ) (s : Scheduler)
    → occurs i is ≤ 1
    → get_elem? s.procs i ≡ some p
    → ((0 < occurs i is) × Dropped i p (drop_all true is s))
      ⊎ (occurs i is ≡ 0) × SameSlot i s (drop_all true is s)
drop_all-cases {i} is s most found = elim (Bool-cases (occurs i is == 0)) [
  | inl absent ↦ (let h : occurs i is ≡ 0 = ground arith in inr (h, drop_all-other true is s h))
  | inr present ↦ inl (ground arith, drop_all-Dropped true is s (ground arith) found refl)
]

Dropped-drop_all :
    {i : ℕ} {p : Process} (is : List ℕ) (s : Scheduler)
    → occurs i is ≤ places s i
    → Dropped i p s
    → Dropped i p (drop_all true is s)
Dropped-drop_all is s part d =
    SameSlot-Dropped (drop_all-other true is s (omega (arith, part, d.nowhere))) d

module _ {s : Scheduler} (i : ℕ) (p : Process) (v : IsQueued s)
    (found : get_elem? s.procs i ≡ some p) where
  -- If every process in a list is alive and in one place, and the slot i holds the process p,
  -- then a shutdown leaves p dead and in no list if it was in the running, pending or waiting
  -- list, and otherwise leaves the slot as it was, in no list.
  pub shutdown-Dropped :
      ((0 < places s i) × Dropped i p (cleanup true s))
      ⊎ ((places s i ≡ 0) × SameSlot i s (cleanup true s))
  unfolding cleanup
  shutdown-Dropped = elim (drop_all-cases s.runnings s (omega (arith, v.once i)) found) [
    | inl (some_in, d) ↦ inl (
      omega (arith, some_in),
      Dropped-drop_all b.waitings b (omega arith) (Dropped-drop_all a.pendings a (omega arith) d),
    )
    | inr (no_run, k) ↦
        (elim (drop_all-cases a.pendings a (omega (arith, k.pending, v.once i)) (k.slot ∙ found)) [
          | inl (some_in, d) ↦
              inl (omega (arith, some_in, k.pending), Dropped-drop_all b.waitings b (omega arith) d)
          | inr (no_pend, l) ↦
              (elim (drop_all-cases b.waitings b (omega (arith, l.waiting, k.waiting, v.once i))
                (l.slot ∙ k.slot ∙ found)) [
                  | inl (some_in, d) ↦ inl (omega (arith, some_in, l.waiting, k.waiting), d)
                  | inr (no_wait, m) ↦ inr (
                    omega (arith, no_run, no_pend, no_wait, k.pending, l.waiting, k.waiting),
                    SameSlot-trans k (SameSlot-trans l m),
                  )
                ])
        ])
  ]
    where
      a : Scheduler
      a = drop_all true s.runnings s

      b : Scheduler
      b = drop_all true a.pendings a
