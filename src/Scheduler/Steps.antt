-- ===== src/Scheduler/Steps.antt =====
-- The scheduler as a state machine: whatever its operations do, in whatever order, its table and
-- its lists stay well-formed.
use any_vm.Base.{
  ℕ, ℤ, pos, ◌-ℤ◌, eq_ℤ, zero, suc, ◌+◌, ◌≤◌, ◌<◌, ◌≡◌, refl, sym, ◌∙◌, ap, subst, inl, inr, Bool,
  Bool-cases, true, false, Option, some, some_inj, [], ◌∷◌, ◌++◌, arith, get_elem?, replicate,
  length-replicate, ◌^◌,
}
use any_vm.Errno.{AError}
use any_vm.Scheduler.{Process, Scheduler, init, actor, living}
use any_vm.Scheduler.Table.{Shiftable, IsTable, Taken, alloc-Taken, power_positive, weight_dead}
use any_vm.Scheduler.Lookup.{actor_iff}
use any_vm.Scheduler.Queues.{occurs}
use any_vm.Scheduler.Run.{
  set_process, wait_for, check_waitings, got_new_message, start, cleanup, placed, new_actor, timed,
  run_once,
}
use any_vm.Scheduler.Moves.{
  IsScheduler, start-IsQueued, waiting-IsQueued, got_new_message-IsQueued, check_waitings-IsQueued,
  placed-IsQueued, IsQueued-Idle, IsQueued-set_process,
}
use any_vm.Scheduler.Upkeep.{
  IsTable-set_process, IsTable-start, IsTable-waiting, IsTable-got_new_message, IsTable-check_all,
  IsTable-pendings,
}
use any_vm.Scheduler.Drops.{cleanup-IsScheduler}

-- What the program does to the scheduler: it spawns and starts actors; running actors sleep, wait
-- for a message, exit, and send to live actors; and the owner runs it once more or shuts it down.
pub data Step (s : Scheduler) : Scheduler → Type 0 where
  spawns :
      (created inited ec : AError) {t : Scheduler}
      → new_actor created inited s ≡ some (ec, t)
      → Step s t
  starts : (i : ℕ) → 0 < occurs i s.pendings → Step s (start i s)
  waits :
      (i : ℕ) (p : Process) (usecs : ℤ) (wake_on_msg : Bool) (next : Option ℕ) {t : Scheduler}
      → 0 < occurs i s.runnings
      → get_elem? s.procs i ≡ some p
      → wait_for usecs wake_on_msg i p s ≡ some (next, t)
      → Step s t
  exits :
      (i : ℕ) (p : Process)
      → get_elem? s.procs i ≡ some p
      → Step s (set_process i (record p { exit = true }) s)
  tells :
      (pid i : ℕ) (p : Process)
      → actor s pid ≡ some i
      → get_elem? s.procs i ≡ some p
      → Step s (got_new_message i p s)
  runs : (now : ℤ) → Step s (run_once now s).1
  shuts_down : Step s (cleanup true s)

pub data Reachable (s : Scheduler) : Scheduler → Type 0 where
  here : Reachable s s
  further : {t u : Scheduler} → Reachable s t → Step t u → Reachable s u

IsScheduler-timer :
    {s : Scheduler} (first : Bool) (now : ℤ)
    → IsScheduler s
    → IsScheduler (record s { first_run = first; timer = now })
IsScheduler-timer first now v = record {
  table = record {
    widths = v.table.widths;
    shifts = v.table.shifts;
    size = v.table.size;
    next = v.table.next;
    named = v.table.named;
    counted = v.table.counted;
  };
  queued = record {
    once = v.queued.once;
    alive = λ i h.
        (let a = v.queued.alive i h in
          record { process = a.process; found = a.found; live = a.live });
  };
}

IsTable-placed :
    (created inited : AError) (i : ℕ) {t : Scheduler} {q : Process}
    → IsTable t
    → get_elem? t.procs i ≡ some q
    → IsTable (placed created inited i t).1
unfolding placed
IsTable-placed AError.ok inited i {t} {q} v found = rw found (
    IsTable-pendings (IsTable-set_process i q (record q { exit = false }) v found refl refl)
      (t.pendings ++ (i ∷ [])))
IsTable-placed AError.full inited i v found = v
IsTable-placed _ inited i v found = v

check_waitings-IsScheduler :
    (delta : ℤ) {s : Scheduler} → IsScheduler s → IsScheduler (check_waitings delta s)
unfolding check_waitings
check_waitings-IsScheduler delta {s} v = record {
  table = IsTable-check_all delta s.waitings v.table;
  queued = check_waitings-IsQueued delta v.queued;
}

timed-IsScheduler : (now : ℤ) {s : Scheduler} → IsScheduler s → IsScheduler (timed now s)
unfolding timed
timed-IsScheduler now {s} v = elim (Bool-cases s.first_run) [
  | inl first ↦ rw first (IsScheduler-timer false now v)
  | inr later ↦
      rw later (check_waitings-IsScheduler (now -ℤ s.timer) (IsScheduler-timer false now v))
]

module _ {s : Scheduler} (v : IsScheduler s) where
  placed-IsScheduler :
      (created inited : AError) {i : ℕ} {t : Scheduler}
      → Taken s i t
      → IsScheduler (placed created inited i t).1
  placed-IsScheduler created inited {i} k = record {
    table = IsTable-placed created inited i k.valid k.now;
    queued = placed-IsQueued v k created inited;
  }

  new_actor-IsScheduler :
      (created inited ec : AError) {t : Scheduler}
      → new_actor created inited s ≡ some (ec, t)
      → IsScheduler t
  unfolding new_actor
  new_actor-IsScheduler created inited ec {t} e = elim (alloc-Taken v.table) [
    | inl (i, u, r, k) ↦
        subst IsScheduler
          (ap {A = AError × Scheduler} (λ x. x.1) (some_inj (rw (r, new_actor) at e)))
          (placed-IsScheduler created inited k)
    | inr (u, r, same, all) ↦
        subst IsScheduler
          (ap {A = AError × Scheduler} (λ x. x.1) (some_inj (rw (r, new_actor) at e)))
          (record { table = same.valid; queued = IsQueued-Idle v.queued same })
  ]

  wait_for-IsScheduler :
      (i : ℕ) (p : Process) (usecs : ℤ) (on : Bool) (next : Option ℕ) {t : Scheduler}
      → 0 < occurs i s.runnings
      → get_elem? s.procs i ≡ some p
      → wait_for usecs on i p s ≡ some (next, t)
      → IsScheduler t
  unfolding wait_for
  wait_for-IsScheduler i p usecs on next {t} h found e =
      elim (Bool-cases (eq_ℤ p.wait_for (pos 0))) [
        | inr busy ↦ absurd (cc (rw busy at e))
        | inl idle ↦
            (let a = v.queued.alive i (omega (arith, h)) in
              let live : p.dead ≡ false =
                ap {A = Process} (λ q. q.dead) (some_inj (sym found ∙ a.found)) ∙ a.live in
              subst IsScheduler (ap {A = Option ℕ × Scheduler} (λ x. x.1) (some_inj (rw idle at e)))
                (record {
                  table = IsTable-waiting v.table i p found usecs on;
                  queued = waiting-IsQueued i p v.queued found live usecs on;
                }))
      ]

  run_once-IsScheduler : (now : ℤ) → IsScheduler (run_once now s).1
  unfolding run_once
  run_once-IsScheduler now = timed-IsScheduler now (cleanup-IsScheduler false v)

  Step-IsScheduler : {t : Scheduler} → Step s t → IsScheduler t
  Step-IsScheduler (Step.spawns created inited ec e) = new_actor-IsScheduler created inited ec e
  Step-IsScheduler (Step.starts i h) = record {
    table = IsTable-start v.table i;
    queued = start-IsQueued i v.queued (v.queued.alive i (omega (arith, h)));
  }
  Step-IsScheduler (Step.waits i p usecs on next h found e) =
      wait_for-IsScheduler i p usecs on next h found e
  Step-IsScheduler (Step.exits i p found) = record {
    table = IsTable-set_process i p (record p { exit = true }) v.table found refl refl;
    queued = IsQueued-set_process i p (record p { exit = true }) v.queued found refl;
  }
  Step-IsScheduler (Step.tells pid i p e found) =
      let l = (actor_iff v.table pid i).0 e in
      let live : p.dead ≡ false =
        ap {A = Process} (λ q. q.dead) (some_inj (sym found ∙ l.found)) ∙ l.live in
      record {
        table = IsTable-got_new_message v.table i p found;
        queued = got_new_message-IsQueued i p v.queued found live;
      }
  Step-IsScheduler (Step.runs now) = run_once-IsScheduler now
  Step-IsScheduler Step.shuts_down = cleanup-IsScheduler true v

Reachable-kept : {s t : Scheduler} → IsScheduler s → Reachable s t → IsScheduler t
Reachable-kept v Reachable.here = v
Reachable-kept v (Reachable.further r step) = Step-IsScheduler (Reachable-kept v r) step

get_elem?-replicate :
    {A : Type 0} (n i : ℕ) (a x : A) → get_elem? (replicate n a) i ≡ some x → a ≡ x
get_elem?-replicate zero i a x e = absurd (cc e)
get_elem?-replicate (suc n) zero a x e = some_inj e
get_elem?-replicate (suc n) (suc i) a x e = get_elem?-replicate n i a x e

living-replicate : (n : ℕ) (p : Process) → p.dead ≡ true → living (replicate n p) ≡ 0
living-replicate zero p e = refl
living-replicate (suc n) p e = omega (arith, living-replicate n p e, weight_dead p e)

abbrev unused : Process
unused = record { dead = true; pid = 0; exit = false; wait_for = pos 0; wake_on_msg = false }

init-IsScheduler :
    (idx_bits gen_bits : ℕ)
    → idx_bits + gen_bits ≤ 32
    → Shiftable idx_bits gen_bits
    → IsScheduler (init idx_bits gen_bits)
unfolding init
init-IsScheduler idx_bits gen_bits fits gens = record {
  table = record {
    widths = fits;
    shifts = gens;
    size = length-replicate (2 ^ idx_bits) unused;
    next = power_positive idx_bits;
    named = λ i p e live. absurd (
        cc
          (ap {A = Process} (λ q. q.dead) (get_elem?-replicate (2 ^ idx_bits) i unused p e), live));
    counted = ap pos (sym (living-replicate (2 ^ idx_bits) unused refl));
  };
  queued = record { once = λ i. omega arith; alive = λ i h. absurd (omega (arith, h)) };
}

-- From the initial scheduler, with index and generation at most 32 bits wide together and 1 to 30
-- bits each, whatever sequence of spawns, starts, sleeps and waits of running actors, exits,
-- messages to live actors, runs of the scheduler at any times, and shutdowns has happened: the
-- process table is whole, the pid of every live process names its slot, the number of processes
-- is that of the live ones, and every process in the running, pending and waiting lists is alive
-- and stands in one place of one of them.
pub Reachable-IsScheduler :
    (idx_bits gen_bits : ℕ) {s : Scheduler}
    → idx_bits + gen_bits ≤ 32
    → Shiftable idx_bits gen_bits
    → Reachable (init idx_bits gen_bits) s
    → IsScheduler s
Reachable-IsScheduler idx_bits gen_bits fits gens r =
    Reachable-kept (init-IsScheduler idx_bits gen_bits fits gens) r
