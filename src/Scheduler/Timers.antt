-- ===== src/Scheduler/Timers.antt =====
-- Which processes the timers of `check_waitings` wake, src/private/scheduler.c.
use any_vm.Base.{
  ℕ, ℤ, pos, ◌-ℤ◌, leb_ℤ, ◌==◌, ==_iff, ◌≡◌, ◌≢◌, refl, sym, ◌∙◌, subst, inl, inr, ◌⊎◌, Bool-cases,
  true, false, Option, none, some, List, [], ◌∷◌, arith, get_elem?, get_elem?-set_self,
  get_elem?-set_ne, get_elem?-lt,
}
use any_vm.Scheduler.{Process, Scheduler}
use any_vm.Scheduler.Queues.{
  apart_of, occurs, IsQueued, occurs-append, occurs-one, occurs-other, occurs-without_self,
  occurs-without_ne,
}
use any_vm.Scheduler.Run.{
  without, erase, add_to_runnings, set_process, awake, wake, check_process, check_slot, check_all,
  check_waitings,
}

-- The slot `i` holds `p`, and stands so often in the running and in the waiting list.
pub record At (t : Scheduler) (i : ℕ) (p : Process) (runs waits : ℕ) : Type 0 where
  pub found : get_elem? t.procs i ≡ some p
  pub running : occurs i t.runnings ≡ runs
  pub waiting : occurs i t.waitings ≡ waits

-- What `delta` microseconds do to a process that waits.
pub data Aged (delta : ℤ) (i : ℕ) (p : Process) (t : Scheduler) : Type 0 where
  sleeps_on : leb_ℤ (pos 0) p.wait_for ≡ false → At t i p 0 1 → Aged delta i p t
  woken :
      leb_ℤ (pos 0) p.wait_for ≡ true
      → leb_ℤ (p.wait_for -ℤ delta) (pos 0) ≡ true
      → At t i (awake p) 1 0
      → Aged delta i p t
  counts_down :
      leb_ℤ (pos 0) p.wait_for ≡ true
      → leb_ℤ (p.wait_for -ℤ delta) (pos 0) ≡ false
      → At t i (record p { wait_for = p.wait_for -ℤ delta }) 0 1
      → Aged delta i p t

wake-other :
    {s : Scheduler} {i j : ℕ} {p : Process} {r w : ℕ} (q : Process)
    → i ≢ j
    → At s i p r w
    → At (wake j q s) i p r w
unfolding wake add_to_runnings erase
wake-other {s} {i} {j} q apart a = record {
  found = get_elem?-set_ne s.procs (awake q) (λ h. apart (sym h)) ∙ a.found;
  running = omega (
    arith,
    occurs-append i (without j s.runnings) (j ∷ []),
    occurs-without_ne i j s.runnings apart,
    occurs-other j i apart,
    a.running,
  );
  waiting = occurs-without_ne i j s.waitings apart ∙ a.waiting;
}

set_process-other :
    {s : Scheduler} {i j : ℕ} {p : Process} {r w : ℕ} (q : Process)
    → i ≢ j
    → At s i p r w
    → At (set_process j q s) i p r w
set_process-other {s} q apart a = record {
  found = get_elem?-set_ne s.procs q (λ h. apart (sym h)) ∙ a.found;
  running = a.running;
  waiting = a.waiting;
}

-- A round for another slot changes nothing at this one.
check_slot-other :
    {s : Scheduler} {i j : ℕ} {p : Process} {r w : ℕ} (delta : ℤ) (o : Option Process)
    → i ≢ j
    → At s i p r w
    → At (check_slot delta j o s) i p r w
unfolding check_slot check_process
check_slot-other delta none apart a = a
check_slot-other delta (some q) apart a = elim (Bool-cases (leb_ℤ (pos 0) q.wait_for)) [
  | inr endless ↦ rw endless a
  | inl timed ↦ (elim (Bool-cases (leb_ℤ (q.wait_for -ℤ delta) (pos 0))) [
    | inl over ↦ rw (timed, over) (wake-other q apart a)
    | inr later ↦
        rw (timed, later) (set_process-other (record q { wait_for = q.wait_for -ℤ delta }) apart a)
  ])
]

check_all-other :
    {i : ℕ} {p : Process} {r w : ℕ} (delta : ℤ) (is : List ℕ) {s : Scheduler}
    → occurs i is ≡ 0
    → At s i p r w
    → At (check_all delta is s) i p r w
unfolding check_all
check_all-other delta [] absent a = a
check_all-other {i} delta (j ∷ is) {s} absent a = elim (Bool-cases (j == i)) [
  | inl same ↦ absurd (ground arith)
  | inr other ↦
      check_all-other delta is (omega (arith, absent))
        (check_slot-other delta (get_elem? s.procs j) (apart_of i j other) a)
]

Aged-map :
    {delta : ℤ} {i : ℕ} {p : Process} {s t : Scheduler}
    → ((q : Process) (r w : ℕ) → At s i q r w → At t i q r w)
    → Aged delta i p s
    → Aged delta i p t
Aged-map f (Aged.sleeps_on h a) = Aged.sleeps_on h (f _ _ _ a)
Aged-map f (Aged.woken h k a) = Aged.woken h k (f _ _ _ a)
Aged-map f (Aged.counts_down h k a) = Aged.counts_down h k (f _ _ _ a)

module _ {s : Scheduler} (i : ℕ) (p : Process) (a : At s i p 0 1) where
  set_process-At : (q : Process) → At (set_process i q s) i q 0 1
  set_process-At q = record {
    found = get_elem?-set_self s.procs i q (get_elem?-lt s.procs i a.found);
    running = a.running;
    waiting = a.waiting;
  }

  wake-At : At (wake i p s) i (awake p) 1 0
  unfolding wake add_to_runnings erase
  wake-At = record {
    found = (set_process-At (awake p)).found;
    running = omega (
      arith,
      occurs-append i (without i s.runnings) (i ∷ []),
      occurs-without_self i s.runnings,
      occurs-one i,
    );
    waiting = occurs-without_self i s.waitings;
  }

  check_process-Aged : (delta : ℤ) → Aged delta i p (check_process delta i p s)
  unfolding check_process
  check_process-Aged delta = elim (Bool-cases (leb_ℤ (pos 0) p.wait_for)) [
    | inr endless ↦ rw endless (Aged.sleeps_on endless a)
    | inl timed ↦ (elim (Bool-cases (leb_ℤ (p.wait_for -ℤ delta) (pos 0))) [
      | inl over ↦ rw (timed, over) (Aged.woken timed over wake-At)
      | inr later ↦
          rw (timed, later)
            (Aged.counts_down timed later
              (set_process-At (record p { wait_for = p.wait_for -ℤ delta })))
    ])
  ]

check_all-Aged :
    {i : ℕ} {p : Process} (delta : ℤ) (is : List ℕ) {s : Scheduler}
    → occurs i is ≡ 1
    → At s i p 0 1
    → Aged delta i p (check_all delta is s)
unfolding check_all check_slot
check_all-Aged delta [] once a = absurd (omega (arith, once))
check_all-Aged {i} {p} delta (j ∷ is) {s} once a = elim (Bool-cases (j == i)) [
  | inl same ↦
      subst (λ k. Aged delta i p (check_all delta is (check_slot delta k (get_elem? s.procs k) s)))
        (sym ((==_iff j i).0 same))
        (rw a.found (
          Aged-map (λ q r w. check_all-other delta is (ground arith))
            (check_process-Aged i p a delta)))
  | inr other ↦
      check_all-Aged delta is (ground arith)
        (check_slot-other delta (get_elem? s.procs j) (apart_of i j other) a)
]

-- If every process in a list is alive and in one place, and the slot i holds the process p, then
-- after check_waitings with the time delta: if p was waiting, it either has a negative wait and
-- still waits, unchanged; or its wait is at most delta, and it is in the running list with the
-- wait and the wake-up flag cleared; or it still waits, with delta taken off its wait. If p was
-- not waiting, it is unchanged and as often in the running list as before.
pub check_waitings-Aged :
    (delta : ℤ) {s : Scheduler} (i : ℕ) (p : Process)
    → IsQueued s
    → get_elem? s.procs i ≡ some p
    → Aged delta i p (check_waitings delta s)
      ⊎ At (check_waitings delta s) i p (occurs i s.runnings) 0
unfolding check_waitings
check_waitings-Aged delta {s} i p v found = elim (Bool-cases (occurs i s.waitings == 0)) [
  | inl none_waits ↦ inr (
      check_all-other delta s.waitings (ground arith)
        (record { found = found; running = refl; waiting = ground arith }))
  | inr waits ↦ inl (
      check_all-Aged delta s.waitings (ground (arith, v.once i)) (record {
        found = found;
        running = ground (arith, v.once i);
        waiting = ground (arith, v.once i);
      }))
]
