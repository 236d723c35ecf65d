-- ===== src/Scheduler/Moves.antt =====
-- Every operation on the lists keeps each process alive and in one place.
use any_vm.Base.{
  ℕ, ℤ, pos, ◌-ℤ◌, leb_ℤ, ◌==◌, ==_iff, ◌<◌, ◌≡◌, ◌≢◌, refl, sym, ◌∙◌, ap, inl, inr, Bool,
  Bool-cases, true, false, ◌||◌, Option, none, some, some_inj, List, [], ◌∷◌, ◌++◌, arith,
  get_elem?, get_elem?-set_ne, set,
}
use any_vm.Errno.{AError}
use any_vm.Scheduler.{Process, Scheduler, revived, free}
use any_vm.Scheduler.Table.{IsTable, Alive, Taken, SameLists, Idle}
use any_vm.Scheduler.Queues.{
  occurs, places, IsQueued, occurs-append, Alive-set, places-erase_self, places-erase_ne, Moved,
  Moved-IsQueued, occurs-one, occurs-other, Moved-add_to_runnings,
}
use any_vm.Scheduler.Run.{
  erase, set_process, awake, wake, check_process, check_slot, check_all, check_waitings,
  got_new_message, start, drop_slot, placed, append_pending,
}

same_places : {s t : Scheduler} → SameLists s t → (i : ℕ) → places t i ≡ places s i
same_places k i =
    omega (arith, ap (occurs i) k.runnings, ap (occurs i) k.pendings, ap (occurs i) k.waitings)

-- A change of the fields of a live process that leaves it alive.
Alive-set_process :
    {s : Scheduler} (i : ℕ) (p q : Process)
    → get_elem? s.procs i ≡ some p
    → q.dead ≡ p.dead
    → (j : ℕ) → Alive s j
    → Alive (set_process i q s) j
Alive-set_process i p q found same j a = Alive-set i p q found refl same j a

pub IsQueued-set_process :
    {s : Scheduler} (i : ℕ) (p q : Process)
    → IsQueued s
    → get_elem? s.procs i ≡ some p
    → q.dead ≡ p.dead
    → IsQueued (set_process i q s)
IsQueued-set_process i p q v found same = record {
  once = v.once;
  alive = λ j h. Alive-set_process i p q found same j (v.alive j h);
}

-- The state after the process went to the waiting list.
abbrev pub waiting : ℕ → Process → Scheduler → (usecs : ℤ) (wake_on_msg : Bool) → Scheduler
waiting i p s usecs on =
    set_process i (record p { wait_for = usecs; wake_on_msg = on })
      (record (erase i s) { waitings = (erase i s).waitings ++ (i ∷ []) })

-- `ascheduler_start`
pub start-IsQueued : {s : Scheduler} (i : ℕ) → IsQueued s → Alive s i → IsQueued (start i s)
start-IsQueued i v a = Moved-IsQueued v a (Moved-add_to_runnings v i a)

module _ {s : Scheduler} (i : ℕ) (p : Process) (v : IsQueued s)
    (found : get_elem? s.procs i ≡ some p) (live : p.dead ≡ false) where
  pub alive_here : Alive s i
  alive_here = record { process = p; found = found; live = live }

  wake-IsQueued : IsQueued (wake i p s)
  unfolding wake
  wake-IsQueued =
      start-IsQueued i (IsQueued-set_process i p (awake p) v found refl)
        (Alive-set_process i p (awake p) found refl i alive_here)

  pub got_new_message-IsQueued : IsQueued (got_new_message i p s)
  unfolding got_new_message
  got_new_message-IsQueued = elim (Bool-cases p.wake_on_msg) [
    | inl waiting ↦ rw waiting wake-IsQueued
    | inr busy ↦ rw busy v
  ]

  check_process-IsQueued : (delta : ℤ) → IsQueued (check_process delta i p s)
  unfolding check_process
  check_process-IsQueued delta = elim (Bool-cases (leb_ℤ (pos 0) p.wait_for)) [
    | inr endless ↦ rw endless v
    | inl timed ↦ (elim (Bool-cases (leb_ℤ (p.wait_for -ℤ delta) (pos 0))) [
      | inl over ↦ rw (timed, over) wake-IsQueued
      | inr later ↦
          rw (timed, later)
            (IsQueued-set_process i p (record p { wait_for = p.wait_for -ℤ delta }) v found refl)
    ])
  ]

  pub waiting-Moved : (usecs : ℤ) (on : Bool) → Moved s (waiting i p s usecs on) i
  unfolding erase
  waiting-Moved usecs on = record {
    here =
        omega (
          arith,
          places-erase_self i s,
          occurs-append i (erase i s).waitings (i ∷ []),
          occurs-one i,
        );
    others = λ j h. omega (
      arith,
      places-erase_ne i j s h,
      occurs-append j (erase i s).waitings (i ∷ []),
      occurs-other i j h,
    );
    kept =
        λ j k. Alive-set i p (record p { wait_for = usecs; wake_on_msg = on }) found refl refl j k;
  }

  pub waiting-IsQueued : (usecs : ℤ) (on : Bool) → IsQueued (waiting i p s usecs on)
  waiting-IsQueued usecs on = Moved-IsQueued v alive_here (waiting-Moved usecs on)

  check_process-kept : (delta : ℤ) (j : ℕ) → Alive s j → Alive (check_process delta i p s) j
  unfolding check_process wake
  check_process-kept delta j k = elim (Bool-cases (leb_ℤ (pos 0) p.wait_for)) [
    | inr endless ↦ rw endless k
    | inl timed ↦ (elim (Bool-cases (leb_ℤ (p.wait_for -ℤ delta) (pos 0))) [
      | inl over ↦
          rw (timed, over)
            ((Moved-add_to_runnings (IsQueued-set_process i p (awake p) v found refl) i
                (Alive-set_process i p (awake p) found refl i alive_here)).kept
              j (Alive-set_process i p (awake p) found refl j k))
      | inr later ↦
          rw (timed, later)
            (Alive-set_process i p (record p { wait_for = p.wait_for -ℤ delta }) found refl j k)
    ])
  ]

pub check_all-IsQueued :
    (delta : ℤ) (is : List ℕ) {s : Scheduler}
    → IsQueued s
    → ((i : ℕ) → 0 < occurs i is → Alive s i)
    → IsQueued (check_all delta is s)
unfolding check_all check_slot
check_all-IsQueued delta [] v members = v
check_all-IsQueued delta (i ∷ is) {s} v members =
    let a = members i (omega (arith, occurs-one i)) in
    rw (a.found, check_slot)
      (check_all-IsQueued delta is (check_process-IsQueued i a.process v a.found a.live delta)
        (λ j h.
          check_process-kept i a.process v a.found a.live delta j (members j (omega (arith, h)))))

pub check_waitings-IsQueued :
    (delta : ℤ) {s : Scheduler} → IsQueued s → IsQueued (check_waitings delta s)
unfolding check_waitings
check_waitings-IsQueued delta {s} v =
    check_all-IsQueued delta s.waitings v (λ i h. v.alive i (omega (arith, h)))

pub drop_slot-IsQueued :
    (all : Bool) (i : ℕ) (o : Option Process) {s : Scheduler}
    → IsQueued s
    → IsQueued (drop_slot all i o s)
unfolding drop_slot free erase
drop_slot-IsQueued all i none v = v
drop_slot-IsQueued all i (some p) {s} v = elim (Bool-cases (all || p.exit)) [
  | inr stays ↦ rw stays v
  | inl goes ↦ rw goes (record {
    once = λ j. elim (Bool-cases (j == i)) [
      | inl same ↦
          omega (arith, ap (places (erase i s)) ((==_iff j i).0 same), places-erase_self i s)
      | inr other ↦ omega (arith, places-erase_ne i j s (apart j other), v.once j)
    ];
    alive = λ j h. elim (Bool-cases (j == i)) [
      | inl same ↦
          absurd
            (omega (arith, h, ap (places (erase i s)) ((==_iff j i).0 same), places-erase_self i s))
      | inr other ↦
          (let k = v.alive j (omega (arith, h, places-erase_ne i j s (apart j other))) in
            record {
              process = k.process;
              found = erased_found j k.process k.found other;
              live = k.live;
            })
    ];
  })
]
  where
    apart : (j : ℕ) → (j == i) ≡ false → j ≢ i
    apart j other h = ground arith

    erased_found :
        (j : ℕ) (q : Process)
        → get_elem? s.procs j ≡ some q
        → (j == i) ≡ false
        → get_elem? (set (erase i s).procs i (record p { dead = true })) j ≡ some q
    erased_found j q e other = get_elem?-set_ne s.procs _ (λ h. apart j other (sym h)) ∙ e

-- The lists and the table are both well-formed.
pub record IsScheduler (s : Scheduler) : Type 0 where
  pub table : IsTable s
  pub queued : IsQueued s

pub IsQueued-Idle : {s t : Scheduler} → IsQueued s → Idle s t → IsQueued t
IsQueued-Idle v k = record {
  once = λ i. omega (arith, same_places k.lists i, v.once i);
  alive = λ i h.
      (let a = v.alive i (omega (arith, h, same_places k.lists i)) in
        record {
          process = a.process;
          found = ap (λ l. get_elem? l i) k.procs ∙ a.found;
          live = a.live;
        });
}

module _ {s : Scheduler} (v : IsScheduler s) {i : ℕ} {t : Scheduler} (k : Taken s i t) where
  Taken-kept : (j : ℕ) → Alive s j → (j ≢ i) × Alive t j
  Taken-kept j a =
      let ne : j ≢ i = λ h. cc (
        ap {A = Process} (λ p. p.dead)
            (some_inj (sym a.found ∙ ap (get_elem? s.procs) h ∙ k.found)),
        a.live,
        k.free,
      ) in
      (ne, record { process = a.process; found = k.others j ne ∙ a.found; live = a.live })

  IsQueued-Taken : IsQueued t
  IsQueued-Taken = record {
    once = λ j. omega (arith, same_places k.lists j, v.queued.once j);
    alive = λ j h. (Taken-kept j (v.queued.alive j (omega (arith, h, same_places k.lists j)))).1;
  }

  unplaced : places t i ≡ 0
  unplaced = elim (Bool-cases (places s i == 0)) [
    | inl nowhere ↦ omega (arith, same_places k.lists i, (==_iff (places s i) 0).0 nowhere)
    | inr somewhere ↦ absurd ((Taken-kept i (v.queued.alive i (ground arith))).0 refl)
  ]

module _ {s : Scheduler} (v : IsQueued s) (i : ℕ) (nowhere : places s i ≡ 0) (a : Alive s i) where
  append_pending-IsQueued : IsQueued (append_pending i s)
  append_pending-IsQueued = Moved-IsQueued v a (record {
    here = omega (arith, nowhere, occurs-append i s.pendings (i ∷ []), occurs-one i);
    others = λ j h. omega (arith, occurs-append j s.pendings (i ∷ []), occurs-other i j h);
    kept = λ j k. record { process = k.process; found = k.found; live = k.live };
  })

module _ {s : Scheduler} (v : IsScheduler s) {i : ℕ} {t : Scheduler} (k : Taken s i t) where
  abbrev born : Process
  born = revived s i k.before

  born_alive : Alive t i
  born_alive = record { process = born; found = k.now; live = refl }

  pub placed-IsQueued : (created inited : AError) → IsQueued (placed created inited i t).1
  unfolding placed
  placed-IsQueued AError.ok inited = rw k.now (
      append_pending-IsQueued
        (IsQueued-set_process i born (record born { exit = false }) (IsQueued-Taken v k) k.now refl)
        i (unplaced v k)
        (Alive-set_process i born (record born { exit = false }) k.now refl i born_alive))
  placed-IsQueued AError.full inited = IsQueued-Taken v k
  placed-IsQueued _ inited = IsQueued-Taken v k
