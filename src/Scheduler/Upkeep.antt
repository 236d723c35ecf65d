-- ===== src/Scheduler/Upkeep.antt =====
-- Operations on the lists, and on the fields of a process, keep the table well-formed.
use any_vm.Base.{
  ℕ, ℤ, pos, ◌-ℤ◌, leb_ℤ, ◌==◌, ==_iff, ◌≡◌, refl, sym, ◌∙◌, ap, inl, inr, Bool, Bool-cases, false,
  Option-cases, some, some_inj, List, [], ◌∷◌, arith, get_elem?, get_elem?-set_self,
  get_elem?-set_ne, get_elem?-lt, length-set, set,
}
use any_vm.Pid.{apid_idx}
use any_vm.Scheduler.{Process, Scheduler, weight}
use any_vm.Scheduler.Table.{IsTable, living-set}
use any_vm.Scheduler.Run.{
  erase, set_process, awake, wake, check_process, check_slot, check_all, got_new_message, start,
  add_to_runnings,
}
use any_vm.Scheduler.Moves.{waiting}

-- New fields of a process that keep its pid and its life.
pub IsTable-set_process :
    {s : Scheduler} (i : ℕ) (p q : Process)
    → IsTable s
    → get_elem? s.procs i ≡ some p
    → q.pid ≡ p.pid
    → q.dead ≡ p.dead
    → IsTable (set_process i q s)
IsTable-set_process {s} i p q v found same_pid same_life = record {
  widths = v.widths;
  shifts = v.shifts;
  size = length-set s.procs i q ∙ v.size;
  next = v.next;
  named = named;
  counted = v.counted ∙ ap pos (omega (arith, living-set s.procs i p q found, same_weight));
}
  where
    same_weight : weight q ≡ weight p
    same_weight = rw same_life refl

    named :
        (j : ℕ) (r : Process)
        → get_elem? (set s.procs i q) j ≡ some r
        → r.dead ≡ false
        → apid_idx s.idx_bits r.pid ≡ j
    named j r e live = elim (Bool-cases (j == i)) [
      | inl same ↦
          (let here : j ≡ i = (==_iff j i).0 same in
            let is : r ≡ q = some_inj (
              sym e
              ∙ ap (get_elem? (set s.procs i q)) here
              ∙ get_elem?-set_self s.procs i q (get_elem?-lt s.procs i found)) in
            ap {A = Process} (λ x. apid_idx s.idx_bits x.pid) is
            ∙ ap (apid_idx s.idx_bits) same_pid
            ∙ v.named i p found (sym same_life ∙ ap {A = Process} (λ x. x.dead) (sym is) ∙ live)
            ∙ sym here)
      | inr other ↦ v.named j r (sym (get_elem?-set_ne s.procs q (λ h. apart other h)) ∙ e) live
    ]
      where
        apart : (j == i) ≡ false → i ≡ j → ⊥
        apart other h = ground arith

module _ {s : Scheduler} (v : IsTable s) where
  pub IsTable-erase : (i : ℕ) → IsTable (erase i s)
  unfolding erase
  IsTable-erase i = record {
    widths = v.widths;
    shifts = v.shifts;
    size = v.size;
    next = v.next;
    named = v.named;
    counted = v.counted;
  }

  pub IsTable-start : (i : ℕ) → IsTable (start i s)
  unfolding add_to_runnings erase
  IsTable-start i = record {
    widths = v.widths;
    shifts = v.shifts;
    size = v.size;
    next = v.next;
    named = v.named;
    counted = v.counted;
  }

  pub IsTable-waitings : (w : List ℕ) → IsTable (record s { waitings = w })
  IsTable-waitings w = record {
    widths = v.widths;
    shifts = v.shifts;
    size = v.size;
    next = v.next;
    named = v.named;
    counted = v.counted;
  }

  pub IsTable-pendings : (w : List ℕ) → IsTable (record s { pendings = w })
  IsTable-pendings w = record {
    widths = v.widths;
    shifts = v.shifts;
    size = v.size;
    next = v.next;
    named = v.named;
    counted = v.counted;
  }

  module _ (i : ℕ) (p : Process) (found : get_elem? s.procs i ≡ some p) where
    pub IsTable-waiting : (usecs : ℤ) (on : Bool) → IsTable (waiting i p s usecs on)
    unfolding erase
    IsTable-waiting usecs on =
        IsTable-set_process i p (record p { wait_for = usecs; wake_on_msg = on })
          (record {
            widths = v.widths;
            shifts = v.shifts;
            size = v.size;
            next = v.next;
            named = v.named;
            counted = v.counted;
          })
          found refl refl

    pub IsTable-wake : IsTable (wake i p s)
    unfolding wake add_to_runnings erase
    IsTable-wake =
        let w = IsTable-set_process i p (awake p) v found refl refl in
        record {
          widths = w.widths;
          shifts = w.shifts;
          size = w.size;
          next = w.next;
          named = w.named;
          counted = w.counted;
        }

    pub IsTable-got_new_message : IsTable (got_new_message i p s)
    unfolding got_new_message
    IsTable-got_new_message = elim (Bool-cases p.wake_on_msg) [
      | inl on ↦ rw on IsTable-wake
      | inr off ↦ rw off v
    ]

    pub IsTable-check_process : (delta : ℤ) → IsTable (check_process delta i p s)
    unfolding check_process
    IsTable-check_process delta = elim (Bool-cases (leb_ℤ (pos 0) p.wait_for)) [
      | inr endless ↦ rw endless v
      | inl timed ↦ (elim (Bool-cases (leb_ℤ (p.wait_for -ℤ delta) (pos 0))) [
        | inl over ↦ rw (timed, over) IsTable-wake
        | inr later ↦
            rw (timed, later)
              (IsTable-set_process i p (record p { wait_for = p.wait_for -ℤ delta }) v found refl
                refl)
      ])
    ]

pub IsTable-check_all :
    (delta : ℤ) (is : List ℕ) {s : Scheduler} → IsTable s → IsTable (check_all delta is s)
unfolding check_all check_slot
IsTable-check_all delta [] v = v
IsTable-check_all delta (i ∷ is) {s} v = elim (Option-cases (get_elem? s.procs i)) [
  | inl outside ↦ rw (outside, check_slot) (IsTable-check_all delta is v)
  | inr (p, found) ↦
      rw (found, check_slot) (IsTable-check_all delta is (IsTable-check_process v i p found delta))
]
