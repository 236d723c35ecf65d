-- ===== src/Scheduler/Table.antt =====
-- The table of processes: allocation takes a free slot if there is one, and pids name live
-- processes only.
use native.Mathlib.Nat.{one-le-pow, mod-lt, mod-eq_of_lt, mod_self}
use any_vm.Base.{
  ℕ, pos, ◌+ℤ◌, zero, suc, ◌+◌, ◌%◌, ◌^◌, ◌==◌, ==_iff, leb, ◌≤◌, ◌<◌, ◌≡◌, ◌≢◌, refl, sym, ◌∙◌, ap,
  ◌⊎◌, inl, inr, Bool-cases, true, false, some, some_inj, List, [], ◌∷◌, arith, length, length-set,
  get_elem?, get_elem?-some, get_elem?-set_self, get_elem?-set_ne, set,
}
use any_vm.Pid.{apid_idx, apid_gen}
use any_vm.Pid.Laws.{apid_from_roundtrip}
use any_vm.Scheduler.{
  Process, Scheduler, revived, Alloc, advanced, taking, alloc_loop, alloc, living, weight,
}

-- Widths for which every shift of the code is defined: a `uint32_t` is shifted by less than 32, and
-- the `int` 1 by less than 31.
pub record Shiftable (idx_bits gen_bits : ℕ) : Type 0 where
  pub some_idx : 0 < idx_bits
  pub idx : idx_bits < 31
  pub some_gen : 0 < gen_bits
  pub gen : gen_bits < 31

-- The table is whole, and the pid of a live process names its slot.
pub record IsTable (s : Scheduler) : Type 0 where
  pub widths : s.idx_bits + s.gen_bits ≤ 32
  pub shifts : Shiftable s.idx_bits s.gen_bits
  pub size : length s.procs ≡ 2 ^ s.idx_bits
  pub next : s.next_idx < 2 ^ s.idx_bits
  pub named :
      (i : ℕ) (p : Process)
      → get_elem? s.procs i ≡ some p
      → p.dead ≡ false
      → apid_idx s.idx_bits p.pid ≡ i
  pub counted : s.num_procs ≡ pos (living s.procs)

-- The slot `i` holds a live process.
pub record Alive (s : Scheduler) (i : ℕ) : Type 0 where
  pub process : Process
  pub found : get_elem? s.procs i ≡ some process
  pub live : process.dead ≡ false

-- Slots that a search from `start` for `loop` slots, round the end of the table, has seen.
abbrev Seen : (size start loop j : ℕ) → Type 0
Seen size start loop j =
    (start ≤ j) × (j < start + loop) ⊎ (start ≤ j + size) × (j + size < start + loop)

pub step_inside : (n i : ℕ) → i + 1 < n → (i + 1) % n ≡ i + 1
step_inside n i h = mod-eq_of_lt h

pub step_round : (n i : ℕ) → i + 1 ≡ n → (i + 1) % n ≡ 0
step_round n i h = ap (◌% n) h ∙ mod_self n

Seen-next :
    (size start loop j : ℕ)
    → start < size
    → j < size
    → Seen size start (suc loop) j
    → (j ≡ start) ⊎ Seen size ((start + 1) % size) loop j
Seen-next size start loop j hs hj seen = elim (Bool-cases (leb size (start + 1))) [
  | inl last ↦ rw (step_round size start (ground arith)) (ground (arith, seen))
  | inr inside ↦ rw (step_inside size start (ground arith)) (ground (arith, seen))
]

IsTable-advanced : {s : Scheduler} → IsTable s → IsTable (advanced s)
IsTable-advanced {s} v = record {
  widths = v.widths;
  shifts = v.shifts;
  size = v.size;
  next = mod-lt (s.next_idx + 1) (omega (arith, v.next));
  named = v.named;
  counted = v.counted;
}

-- The three lists of `t` are those of `s`.
pub record SameLists (s t : Scheduler) : Type 0 where
  pub runnings : t.runnings ≡ s.runnings
  pub pendings : t.pendings ≡ s.pendings
  pub waitings : t.waitings ≡ s.waitings

-- `t` is `s`, but for the place where the next search begins.
pub record Idle (s t : Scheduler) : Type 0 where
  pub procs : t.procs ≡ s.procs
  pub lists : SameLists s t
  pub valid : IsTable t

-- `t` is `s` with the free slot `i` taken by a process of the next generation.
pub record Taken (s : Scheduler) (i : ℕ) (t : Scheduler) : Type 0 where
  pub before : Process
  pub found : get_elem? s.procs i ≡ some before
  pub free : before.dead ≡ true
  pub now : get_elem? t.procs i ≡ some (revived s i before)
  pub others : (j : ℕ) → j ≢ i → get_elem? t.procs j ≡ get_elem? s.procs j
  pub width : t.idx_bits ≡ s.idx_bits
  pub lists : SameLists s t
  pub valid : IsTable t

pub weight_dead : (p : Process) → p.dead ≡ true → weight p ≡ 0
weight_dead p dead = rw dead refl

pub living-set :
    (ps : List Process) (i : ℕ) (p q : Process)
    → get_elem? ps i ≡ some p
    → living (set ps i q) + weight p ≡ living ps + weight q
living-set [] i p q e = absurd (cc e)
living-set (r ∷ ps) zero p q e = omega (arith, ap {A = Process} weight (some_inj e))
living-set (r ∷ ps) (suc i) p q e = omega (arith, living-set ps i p q e)

one_more : (n : ℕ) → pos n +ℤ pos 1 ≡ pos (n + 1)
unfolding ◌+ℤ◌
one_more n = ground arith

pub power_positive : (k : ℕ) → 0 < 2 ^ k
power_positive k = one-le-pow k 2 (omega arith)

module _ {s : Scheduler} (v : IsTable s) (p : Process)
    (found : get_elem? s.procs s.next_idx ≡ some p) where
  new_gen : ℕ
  new_gen = (apid_gen s.idx_bits s.gen_bits p.pid + 1) % 2 ^ s.gen_bits

  inside : s.next_idx < length s.procs
  inside = omega (arith, v.size, v.next)

  now_revived : get_elem? (taking s p).procs s.next_idx ≡ some (revived s s.next_idx p)
  now_revived = get_elem?-set_self s.procs s.next_idx (revived s s.next_idx p) inside

  revived_named : apid_idx s.idx_bits (revived s s.next_idx p).pid ≡ s.next_idx
  revived_named =
      (apid_from_roundtrip s.idx_bits s.gen_bits s.next_idx _ v.widths v.next
        (mod-lt (apid_gen s.idx_bits s.gen_bits p.pid + 1) (power_positive s.gen_bits))).0

  named_after :
      (i : ℕ) (q : Process)
      → get_elem? (taking s p).procs i ≡ some q
      → q.dead ≡ false
      → apid_idx s.idx_bits q.pid ≡ i
  named_after i q e live = elim (Bool-cases (i == s.next_idx)) [
    | inl same ↦
        (let here : i ≡ s.next_idx = (==_iff i s.next_idx).0 same in
          let is_new : revived s s.next_idx p ≡ q =
            some_inj (sym now_revived ∙ ap (get_elem? (taking s p).procs) (sym here) ∙ e) in
          sym (ap (λ (r : Process). apid_idx s.idx_bits r.pid) is_new) ∙ revived_named ∙ sym here)
    | inr other ↦
        v.named i q
          (sym (get_elem?-set_ne s.procs (revived s s.next_idx p) (λ h. different other h)) ∙ e)
          live
  ]
    where
      different : (i == s.next_idx) ≡ false → s.next_idx ≡ i → ⊥
      different other h = ground arith

  Taken-taking : p.dead ≡ true → Taken s s.next_idx (taking s p)
  Taken-taking dead = record {
    before = p;
    found = found;
    free = dead;
    now = now_revived;
    others = λ j h. get_elem?-set_ne s.procs (revived s s.next_idx p) (λ e. h (sym e));
    width = refl;
    lists = record { runnings = refl; pendings = refl; waitings = refl };
    valid = record {
      widths = v.widths;
      shifts = v.shifts;
      size = length-set s.procs s.next_idx (revived s s.next_idx p) ∙ v.size;
      next = mod-lt (s.next_idx + 1) (omega (arith, v.next));
      named = named_after;
      counted =
          ap (λ z. z +ℤ pos 1) v.counted
          ∙ one_more (living s.procs)
          ∙ ap pos (
              omega (
                arith,
                living-set s.procs s.next_idx p (revived s s.next_idx p) found,
                weight_dead p dead,
              ));
    };
  }

-- What the loop of the allocation ends with.
abbrev Searched : (loop : ℕ) → Scheduler → Alloc → Type 0
Searched loop s r =
    ((i : ℕ) × (t : Scheduler) × (r ≡ Alloc.taken i t) × Taken s i t)
    ⊎ ((t : Scheduler) × (r ≡ Alloc.full t)
        × Idle s t
        × ((j : ℕ) → j < 2 ^ s.idx_bits → Seen (2 ^ s.idx_bits) s.next_idx loop j → Alive s j))

Taken-advanced : {s : Scheduler} {i : ℕ} {t : Scheduler} → Taken (advanced s) i t → Taken s i t
Taken-advanced k = record {
  before = k.before;
  found = k.found;
  free = k.free;
  now = k.now;
  others = k.others;
  width = k.width;
  lists = record {
    runnings = k.lists.runnings;
    pendings = k.lists.pendings;
    waitings = k.lists.waitings;
  };
  valid = k.valid;
}

nothing-Seen : (size start j : ℕ) → Seen size start 0 j → ⊥
nothing-Seen size start j h = ground arith

Idle-advanced : {s t : Scheduler} → Idle (advanced s) t → Idle s t
Idle-advanced k = record {
  procs = k.procs;
  lists = record {
    runnings = k.lists.runnings;
    pendings = k.lists.pendings;
    waitings = k.lists.waitings;
  };
  valid = k.valid;
}

alloc_loop-Searched : (loop : ℕ) {s : Scheduler} → IsTable s → Searched loop s (alloc_loop loop s)
unfolding alloc_loop
alloc_loop-Searched zero {s} v = inr (
  s,
  refl,
  record {
    procs = refl;
    lists = record { runnings = refl; pendings = refl; waitings = refl };
    valid = v;
  },
  λ j h seen. absurd (nothing-Seen (2 ^ s.idx_bits) s.next_idx j seen),
)
alloc_loop-Searched (suc loop) {s} v =
    let (p, e) = get_elem?-some s.procs s.next_idx (omega (arith, v.size, v.next)) in
    elim (Bool-cases p.dead) [
      | inl dead ↦
          inl (s.next_idx, taking s p, rw (e, alloc_loop) (rw dead refl), Taken-taking v p e dead)
      | inr live ↦ (elim (alloc_loop-Searched loop (IsTable-advanced v)) [
        | inl (i, t, r, k) ↦ inl (i, t, rw (e, alloc_loop) (rw live r), Taken-advanced k)
        | inr (t, r, same, all) ↦ inr (
          t,
          rw (e, alloc_loop) (rw live r),
          Idle-advanced same,
          λ j h seen. elim (Seen-next (2 ^ s.idx_bits) s.next_idx loop j v.next h seen) [
            | inl here ↦ record {
              process = p;
              found = ap (get_elem? s.procs) here ∙ e;
              live = live;
            }
            | inr later ↦
                (let k = all j h later in
                  record { process = k.process; found = k.found; live = k.live })
          ],
        )
      ])
    ]

-- ascheduler_alloc on a well-formed table either takes a slot that was free, for a process of the
-- next generation, with the other slots as they were and the table well-formed; or returns NULL
-- with the table and the lists unchanged, and then every slot holds a live process.
pub alloc-Taken :
    {s : Scheduler}
    → IsTable s
    → ((i : ℕ) × (t : Scheduler) × (alloc s ≡ Alloc.taken i t) × Taken s i t)
      ⊎ ((t : Scheduler) × (alloc s ≡ Alloc.full t)
          × Idle s t
          × ((j : ℕ) → j < 2 ^ s.idx_bits → Alive s j))
unfolding alloc
alloc-Taken {s} v = elim (alloc_loop-Searched (2 ^ s.idx_bits) v) [
  | inl found ↦ inl found
  | inr (t, r, same, all) ↦ inr (t, r, same, λ j h. all j h (ground (arith, v.next)))
]
