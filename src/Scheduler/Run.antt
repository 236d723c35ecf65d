-- ===== src/Scheduler/Run.antt =====
-- The lists of the scheduler, src/private/scheduler.c: spawning, waiting, waking and cleaning up. A
-- list is the sequence of its slots; the root task follows the last running process. What creating
-- a task and `aactor_init` answer, and the time, are given.
use any_vm.Base.{
  ℕ, ℤ, pos, ◌-ℤ◌, leb_ℤ, eq_ℤ, ◌==◌, Bool, true, false, ◌||◌, if◌then◌else◌, Option, none, some,
  List, [], ◌∷◌, ◌++◌, get_elem?, set,
}
use any_vm.Errno.{AError}
use any_vm.Scheduler.{Process, Scheduler, Alloc, alloc, free}

-- `alist_node_erase`, from the one list that the node is in.
unfoldable pub without : ℕ → List ℕ → List ℕ
without i [] = []
without i (j ∷ js) = if j == i then without i js else j ∷ without i js

unfoldable pub erase : ℕ → Scheduler → Scheduler
unfolding without
erase i s = record s {
  runnings = without i s.runnings;
  pendings = without i s.pendings;
  waitings = without i s.waitings;
}

unfoldable pub add_to_runnings : ℕ → Scheduler → Scheduler
unfolding erase
add_to_runnings i s = record (erase i s) { runnings = (erase i s).runnings ++ (i ∷ []) }

abbrev pub set_process : ℕ → Process → Scheduler → Scheduler
set_process i p s = record s { procs = set s.procs i p }

-- `memset` of the actor in a slot, by `aactor_init`.
abbrev pub reset : ℕ → Option Process → Scheduler → Scheduler
reset i none s = s
reset i (some p) s = set_process i (record p { exit = false }) s

abbrev pub append_pending : ℕ → Scheduler → Scheduler
append_pending i s = record s { pendings = s.pendings ++ (i ∷ []) }

-- The rest of `ascheduler_new_actor`, after the slot. A slot whose task cannot be created stays
-- taken, in no list; one whose actor cannot be initialised is put in the list all the same.
unfoldable pub placed : (created inited : AError) → ℕ → Scheduler → AError × Scheduler
placed AError.ok inited i s = (inited, append_pending i (reset i (get_elem? s.procs i) s))
placed ec inited i s = (ec, s)

-- `ascheduler_new_actor`: the status and the state; `none` is a read past the table.
unfoldable pub new_actor : (created inited : AError) → Scheduler → Option (AError × Scheduler)
unfolding alloc placed
new_actor created inited s = elim (alloc s) [
  | Alloc.outside ↦ none
  | Alloc.full t ↦ some (AError.full, t)
  | Alloc.taken i t ↦ some (placed created inited i t)
]

-- The task after `i` in the running list; `none` is the root task.
abbrev pub head : List ℕ → Option ℕ
head [] = none
head (i ∷ _) = some i

abbrev pub after : ℕ → List ℕ → Option ℕ
after i [] = none
after i (j ∷ js) = if j == i then head js else after i js

-- `ascheduler_yield`: the task to switch to.
abbrev pub yield_to : ℕ → Scheduler → Option ℕ
yield_to i s = after i s.runnings

-- `wait_for`, with its assertion: the task to switch to, and the state.
unfoldable pub wait_for :
    (usecs : ℤ) (wake_on_msg : Bool) → ℕ → Process → Scheduler → Option (Option ℕ × Scheduler)
unfolding erase
wait_for usecs wake i p s =
    if eq_ℤ p.wait_for (pos 0)
    then some (
      after i s.runnings,
      set_process i (record p { wait_for = usecs; wake_on_msg = wake })
          (record (erase i s) { waitings = (erase i s).waitings ++ (i ∷ []) }),
    )
    else none

abbrev pub awake : Process → Process
awake p = record p { wait_for = pos 0; wake_on_msg = false }

unfoldable pub wake : ℕ → Process → Scheduler → Scheduler
unfolding add_to_runnings
wake i p s = add_to_runnings i (set_process i (awake p) s)

-- One round of the loop of `check_waitings`.
unfoldable pub check_process : (delta : ℤ) → ℕ → Process → Scheduler → Scheduler
unfolding wake
check_process delta i p s =
    if leb_ℤ (pos 0) p.wait_for
    then if leb_ℤ (p.wait_for -ℤ delta) (pos 0)
      then wake i p s
      else set_process i (record p { wait_for = p.wait_for -ℤ delta }) s
    else s

unfoldable pub check_slot : (delta : ℤ) → ℕ → Option Process → Scheduler → Scheduler
unfolding check_process
check_slot delta i none s = s
check_slot delta i (some p) s = check_process delta i p s

unfoldable pub check_all : (delta : ℤ) → List ℕ → Scheduler → Scheduler
unfolding check_slot
check_all delta [] s = s
check_all delta (i ∷ is) s = check_all delta is (check_slot delta i (get_elem? s.procs i) s)

-- `check_waitings`
unfoldable pub check_waitings : (delta : ℤ) → Scheduler → Scheduler
unfolding check_all
check_waitings delta s = check_all delta s.waitings s

-- `ascheduler_got_new_message`
unfoldable pub got_new_message : ℕ → Process → Scheduler → Scheduler
unfolding wake
got_new_message i p s = if p.wake_on_msg then wake i p s else s

-- `ascheduler_start`, once the number of arguments is pushed.
abbrev pub start : ℕ → Scheduler → Scheduler
start i s = add_to_runnings i s

-- One round of the loops of `cleanup`.
unfoldable pub drop_slot : (all : Bool) → ℕ → Option Process → Scheduler → Scheduler
unfolding erase free
drop_slot all i none s = s
drop_slot all i (some p) s = if all || p.exit then free i p (erase i s) else s

unfoldable pub drop_all : (all : Bool) → List ℕ → Scheduler → Scheduler
unfolding drop_slot
drop_all all [] s = s
drop_all all (i ∷ is) s = drop_all all is (drop_slot all i (get_elem? s.procs i) s)

-- `cleanup`: the running list, and on a shutdown the other two as well.
unfoldable pub cleanup : (shutdown : Bool) → Scheduler → Scheduler
unfolding drop_all
cleanup false s = drop_all false s.runnings s
cleanup true s =
    let a = drop_all true s.runnings s in
    let b = drop_all true a.pendings a in drop_all true b.waitings b

-- The clock of `ascheduler_run_once`: it is only set in the first run.
unfoldable pub timed : (now : ℤ) → Scheduler → Scheduler
unfolding check_waitings
timed now s =
    if s.first_run
    then record s { first_run = false; timer = now }
    else check_waitings (now -ℤ s.timer) (record s { timer = now })

-- `ascheduler_run_once` at the time `now`: the task that runs, if any, and the state.
unfoldable pub run_once : (now : ℤ) → Scheduler → Option ℕ × Scheduler
unfolding cleanup timed
run_once now s = let t = timed now (cleanup false s) in (head t.runnings, t)
