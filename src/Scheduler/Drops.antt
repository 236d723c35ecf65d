-- ===== src/Scheduler/Drops.antt =====
-- A clean-up, src/private/scheduler.c, keeps the table and the lists well-formed.
use any_vm.Base.{
  ℕ, ◌≤◌, ◌<◌, ◌≢◌, sym, ◌∙◌, ap, inl, inr, Bool, Bool-cases, true, false, ◌||◌, some, List, [],
  ◌∷◌, arith, get_elem?-set_ne,
}
use any_vm.Scheduler.{Scheduler, free}
use any_vm.Scheduler.Table.{IsTable, Alive}
use any_vm.Scheduler.Lookup.{free-gone}
use any_vm.Scheduler.Queues.{occurs, places, IsQueued, occurs-one}
use any_vm.Scheduler.Run.{erase, drop_slot, drop_all, cleanup}
use any_vm.Scheduler.Moves.{IsScheduler, drop_slot-IsQueued}
use any_vm.Scheduler.Upkeep.{IsTable-erase}

-- A list of live processes without a repetition.
record Members (is : List ℕ) (s : Scheduler) : Type 0 where
  once : (i : ℕ) → occurs i is ≤ 1
  alive : (i : ℕ) → 0 < occurs i is → Alive s i

Alive-erase : (i j : ℕ) {s : Scheduler} → Alive s j → Alive (erase i s) j
unfolding erase
Alive-erase i j a = record { process = a.process; found = a.found; live = a.live }

module _ (all : Bool) {s : Scheduler} (i : ℕ) (v : IsScheduler s) (a : Alive s i) where
  drop_slot-IsTable : IsTable (drop_slot all i (some a.process) s)
  unfolding drop_slot Alive-erase
  drop_slot-IsTable = elim (Bool-cases (all || a.process.exit)) [
    | inl goes ↦ rw goes (free-gone (IsTable-erase v.table i) i (Alive-erase i i a)).0
    | inr stays ↦ rw stays v.table
  ]

  drop_slot-others : (j : ℕ) → j ≢ i → Alive s j → Alive (drop_slot all i (some a.process) s) j
  unfolding drop_slot free erase
  drop_slot-others j ne k = elim (Bool-cases (all || a.process.exit)) [
    | inl goes ↦ rw goes (record {
      process = k.process;
      found = get_elem?-set_ne s.procs _ (λ h. ne (sym h)) ∙ k.found;
      live = k.live;
    })
    | inr stays ↦ rw stays k
  ]

drop_all-IsScheduler :
    (all : Bool) (is : List ℕ) {s : Scheduler}
    → IsScheduler s
    → Members is s
    → IsScheduler (drop_all all is s)
unfolding drop_all
drop_all-IsScheduler all [] v m = v
drop_all-IsScheduler all (i ∷ is) {s} v m =
    let a = m.alive i (omega (arith, occurs-one i)) in
    rw a.found (
      drop_all-IsScheduler all is
        (record {
          table = drop_slot-IsTable all i v a;
          queued = drop_slot-IsQueued all i (some a.process) v.queued;
        })
        (record {
          once = λ j. omega (arith, m.once j);
          alive = λ j h.
              drop_slot-others all i v a j
                (λ e. absurd (omega (arith, h, m.once i, occurs-one i, ap (λ k. occurs k is) e)))
                (m.alive j (omega (arith, h)));
        }))

Members-part :
    {s : Scheduler} (is : List ℕ) → IsQueued s → ((i : ℕ) → occurs i is ≤ places s i) → Members is s
Members-part is v part = record {
  once = λ i. omega (arith, part i, v.once i);
  alive = λ i h. v.alive i (omega (arith, part i, h));
}

pub cleanup-IsScheduler :
    (shutdown : Bool) {s : Scheduler} → IsScheduler s → IsScheduler (cleanup shutdown s)
unfolding cleanup
cleanup-IsScheduler false {s} v =
    drop_all-IsScheduler false s.runnings v (Members-part s.runnings v.queued (λ i. omega arith))
cleanup-IsScheduler true {s} v =
    pending_dropped
      (drop_all-IsScheduler true s.runnings v (Members-part s.runnings v.queued (λ i. omega arith)))
  where
    waiting_dropped : {b : Scheduler} → IsScheduler b → IsScheduler (drop_all true b.waitings b)
    waiting_dropped {b} w =
        drop_all-IsScheduler true b.waitings w (Members-part b.waitings w.queued (λ i. omega arith))

    pending_dropped :
        {b : Scheduler}
        → IsScheduler b
        → IsScheduler
            (drop_all true (drop_all true b.pendings b).waitings (drop_all true b.pendings b))
    pending_dropped {b} w = waiting_dropped (
        drop_all-IsScheduler true b.pendings w
          (Members-part b.pendings w.queued (λ i. omega arith)))
