-- ===== src/Scheduler/Tests.antt =====
-- A scheduler with sixteen slots, in which one actor is spawned.
use any_vm.Base.{
  ℕ, pos, ◌^◌, ◌<◌, ◌≡◌, ◌↔◌, ◌⊎◌, refl, true, false, Option, none, some, arith, get_elem?,
}
use any_vm.Errno.{AError}
use any_vm.Pid.{apid_from, apid_idx, apid_gen, shl32}
use any_vm.Scheduler.{Process, Scheduler, init, actor, checked, Alloc, alloc, free, revived}
use any_vm.Scheduler.Table.{Shiftable, IsTable, Alive, Taken, Idle, alloc-Taken}
use any_vm.Scheduler.Lookup.{Lives, actor_iff, alloc-stale, free-gone}
use any_vm.Scheduler.Queues.{occurs, places, IsQueued}
use any_vm.Scheduler.Run.{
  new_actor, placed, erase, add_to_runnings, set_process, start, check_waitings, cleanup,
}
use any_vm.Scheduler.Moves.{
  IsScheduler, waiting, waiting-IsQueued, start-IsQueued, IsQueued-set_process,
}
use any_vm.Scheduler.Cleanup.{SameSlot, Dropped, cleanup-Dropped, shutdown-Dropped}
use any_vm.Scheduler.Timers.{At, Aged, check_waitings-Aged}
use any_vm.Scheduler.Steps.{Step, Reachable, Reachable-IsScheduler}

abbrev empty : Scheduler
empty = init 4 4

abbrev unused : Process
unused = record { dead = true; pid = 0; exit = false; wait_for = pos 0; wake_on_msg = false }

four : Shiftable 4 4
four = record {
  some_idx = omega arith;
  idx = omega arith;
  some_gen = omega arith;
  gen = omega arith;
}

empty-IsScheduler : IsScheduler empty
empty-IsScheduler = Reachable-IsScheduler 4 4 (omega arith) four Reachable.here

-- The scheduler after one actor is spawned.
abbrev state_of : Option (AError × Scheduler) → Scheduler
state_of none = empty
state_of (some (ec, s)) = s

abbrev spawned : Scheduler
spawned = state_of (new_actor AError.ok AError.ok empty)

spawn : new_actor AError.ok AError.ok empty ≡ some (AError.ok, spawned)
unfolding new_actor alloc init
spawn = refl

Reachable-IsScheduler_example : IsScheduler spawned
Reachable-IsScheduler_example =
    Reachable-IsScheduler 4 4 (omega arith) four
      (Reachable.further Reachable.here (Step.spawns AError.ok AError.ok AError.ok spawn))

alloc-Taken_example :
    ((i : ℕ) × (t : Scheduler) × (alloc empty ≡ Alloc.taken i t) × Taken empty i t)
    ⊎ ((t : Scheduler) × (alloc empty ≡ Alloc.full t)
        × Idle empty t
        × ((j : ℕ) → j < 2 ^ empty.idx_bits → Alive empty j))
alloc-Taken_example = alloc-Taken empty-IsScheduler.table

actor_iff_example : (actor empty 7 ≡ some 0) ↔ Lives empty 7 0
actor_iff_example = actor_iff empty-IsScheduler.table 7 0

-- The first slot, taken by an allocation.
abbrev slot_of : Alloc → Scheduler
slot_of (Alloc.taken i t) = t
slot_of _ = empty

abbrev filled : Scheduler
filled = slot_of (alloc empty)

fill : alloc empty ≡ Alloc.taken 0 filled
unfolding alloc init
fill = refl

first_slot : get_elem? empty.procs 0 ≡ some unused
unfolding init
first_slot = refl

zero_names_first : apid_idx empty.idx_bits unused.pid ≡ 0
unfolding apid_idx init
zero_names_first = refl

alloc-stale_example :
    (actor filled (revived empty 0 unused).pid ≡ some 0) × (actor filled unused.pid ≡ none)
alloc-stale_example =
    alloc-stale empty-IsScheduler.table 0 filled fill unused first_slot zero_names_first

abbrev first_pid : ℕ
first_pid = apid_from 4 4 0 1

first_found : actor spawned first_pid ≡ some 0
unfolding new_actor alloc init actor checked apid_from shl32 apid_idx apid_gen placed
first_found = refl

abbrev twice : Scheduler
twice = slot_of (alloc spawned)

fill_again : alloc spawned ≡ Alloc.taken 1 twice
unfolding new_actor alloc init placed
fill_again = refl

abbrev first : Process
first = record {
  dead = false;
  pid = first_pid;
  exit = false;
  wait_for = pos 0;
  wake_on_msg = false;
}

first_Alive : Alive spawned 0
unfolding new_actor alloc init apid_from shl32 apid_gen placed
first_Alive = record { process = first; found = found; live = refl }
  where
    found : get_elem? spawned.procs 0 ≡ some first
    found = refl

free-gone_example :
    IsTable (free 0 first_Alive.process spawned)
    × (actor (free 0 first_Alive.process spawned) first_Alive.process.pid ≡ none)
free-gone_example = free-gone Reachable-IsScheduler_example.table 0 first_Alive

-- The actor waits for ten microseconds, or for a message.
abbrev waited : Process
waited = record first { wait_for = pos 10; wake_on_msg = true }

abbrev asleep : Scheduler
asleep = waiting 0 first spawned (pos 10) true

asleep-IsQueued : IsQueued asleep
unfolding first_Alive
asleep-IsQueued =
    waiting-IsQueued 0 first Reachable-IsScheduler_example.queued first_Alive.found refl (pos 10)
      true

waited_found : get_elem? asleep.procs 0 ≡ some waited
unfolding new_actor alloc init apid_from shl32 apid_gen placed erase
waited_found = refl

check_waitings-Aged_example :
    Aged (pos 20) 0 waited (check_waitings (pos 20) asleep)
    ⊎ At (check_waitings (pos 20) asleep) 0 waited (occurs 0 asleep.runnings) 0
check_waitings-Aged_example = check_waitings-Aged (pos 20) 0 waited asleep-IsQueued waited_found

-- The actor runs, and its task has ended.
abbrev ended : Process
ended = record first { exit = true }

abbrev over : Scheduler
over = set_process 0 ended (start 0 spawned)

over-IsQueued : IsQueued over
unfolding first_Alive add_to_runnings
over-IsQueued =
    IsQueued-set_process 0 first ended
      (start-IsQueued 0 Reachable-IsScheduler_example.queued first_Alive) first_Alive.found refl

ended_found : get_elem? over.procs 0 ≡ some ended
unfolding new_actor alloc init apid_from shl32 apid_gen placed add_to_runnings erase
ended_found = refl

cleanup-Dropped_example :
    ((0 < occurs 0 over.runnings) × (ended.exit ≡ true) × Dropped 0 ended (cleanup false over))
    ⊎ ((occurs 0 over.runnings ≡ 0) ⊎ (ended.exit ≡ false)) × SameSlot 0 over (cleanup false over)
cleanup-Dropped_example = cleanup-Dropped 0 ended over-IsQueued ended_found

shutdown-Dropped_example :
    ((0 < places asleep 0) × Dropped 0 waited (cleanup true asleep))
    ⊎ ((places asleep 0 ≡ 0) × SameSlot 0 asleep (cleanup true asleep))
shutdown-Dropped_example = shutdown-Dropped 0 waited asleep-IsQueued waited_found
