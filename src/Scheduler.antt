-- ===== src/Scheduler.antt =====
-- The scheduler, src/private/scheduler.c and src/inc/any/scheduler.h: the table of processes and
-- the lists that they wait in. A process is its slot in the table; the root task stands behind the
-- running processes. `1 << idx_bits` and `1 << gen_bits` are of an `int`, so the code needs widths
-- below 31, and `2 ^ idx_bits` stands for them here. Switching tasks, the timer and the contents of
-- an actor are parameters.
pub mod Table
pub mod Run
pub mod Queues
pub mod Moves
pub mod Timers
pub mod Cleanup
pub mod Upkeep
pub mod Drops
pub mod Steps
pub mod Lookup
mod Tests
use any_vm.Base.{
  ℕ, ℤ, pos, ◌+ℤ◌, ◌-ℤ◌, leb_ℤ, zero, suc, ◌+◌, ◌%◌, ◌^◌, ◌==◌, leb, Bool, true, false, not, ◌&&◌,
  ◌||◌, if◌then◌else◌, Option, none, some, List, [], ◌∷◌, ◌++◌, get_elem?, set, replicate,
}
use any_vm.Errno.{AError}
use any_vm.Pid.{apid_from, apid_idx, apid_gen}

-- `aprocess_t`; `exit` is the flag APF_EXIT of its actor.
pub record Process : Type 0 where
  pub dead : Bool
  pub pid : ℕ
  pub exit : Bool
  pub wait_for : ℤ
  pub wake_on_msg : Bool

-- `ascheduler_t`
pub record Scheduler : Type 0 where
  pub idx_bits : ℕ
  pub gen_bits : ℕ
  pub procs : List Process
  pub next_idx : ℕ
  pub num_procs : ℤ
  pub runnings : List ℕ
  pub pendings : List ℕ
  pub waitings : List ℕ
  pub first_run : Bool
  pub timer : ℤ

-- `ascheduler_init`, when the allocator gives the table and the root task can be made.
unfoldable pub init : (idx_bits gen_bits : ℕ) → Scheduler
init idx_bits gen_bits = record {
  idx_bits = idx_bits;
  gen_bits = gen_bits;
  procs =
      replicate (2 ^ idx_bits)
        (record { dead = true; pid = 0; exit = false; wait_for = pos 0; wake_on_msg = false });
  next_idx = 0;
  num_procs = pos 0;
  runnings = [];
  pendings = [];
  waitings = [];
  first_run = true;
  timer = pos 0;
}

-- `ascheduler_actor`: the slot of the live process with that pid.
unfoldable pub checked : (pid idx : ℕ) → Option Process → Option ℕ
checked pid idx none = none
checked pid idx (some p) = if (p.pid == pid) && not p.dead then some idx else none

unfoldable pub actor : Scheduler → (pid : ℕ) → Option ℕ
unfolding checked
actor s pid =
    if leb (2 ^ s.idx_bits) (apid_idx s.idx_bits pid)
    then none
    else checked pid (apid_idx s.idx_bits pid) (get_elem? s.procs (apid_idx s.idx_bits pid))

-- The number of live processes in a table.
abbrev pub weight : Process → ℕ
weight p = if p.dead then 0 else 1

abbrev pub living : List Process → ℕ
living [] = 0
living (p ∷ ps) = weight p + living ps

-- The process that takes the slot `i`, with the next generation.
abbrev pub revived : Scheduler → (i : ℕ) → Process → Process
revived s i p = record p {
  pid =
      apid_from s.idx_bits s.gen_bits i
        ((apid_gen s.idx_bits s.gen_bits p.pid + 1) % 2 ^ s.gen_bits);
  dead = false;
  wait_for = pos 0;
  wake_on_msg = false;
}

-- The result of `ascheduler_alloc`: a slot, or NULL; `outside` is a read past the table.
pub data Alloc : Type 0 where
  taken : (i : ℕ) → Scheduler → Alloc
  full : Scheduler → Alloc
  outside : Alloc

abbrev pub advanced : Scheduler → Scheduler
advanced s = record s { next_idx = (s.next_idx + 1) % 2 ^ s.idx_bits }

abbrev pub taking : Scheduler → Process → Scheduler
taking s p = record (advanced s) {
  procs = set s.procs s.next_idx (revived s s.next_idx p);
  num_procs = s.num_procs +ℤ pos 1;
}

-- The loop of `ascheduler_alloc`, `loop` more times.
unfoldable pub alloc_loop : (loop : ℕ) → Scheduler → Alloc
alloc_loop zero s = Alloc.full s
alloc_loop (suc loop) s =
    let rest = alloc_loop loop (advanced s) in
    elim (get_elem? s.procs s.next_idx) [
      | none ↦ Alloc.outside
      | some p ↦ if p.dead then Alloc.taken s.next_idx (taking s p) else rest
    ]

-- `ascheduler_alloc`
unfoldable pub alloc : Scheduler → Alloc
unfolding alloc_loop
alloc s = alloc_loop (2 ^ s.idx_bits) s

-- `ascheduler_free`
unfoldable pub free : (i : ℕ) → Process → Scheduler → Scheduler
free i p s = record s {
  procs = set s.procs i (record p { dead = true });
  num_procs = s.num_procs -ℤ pos 1;
}
