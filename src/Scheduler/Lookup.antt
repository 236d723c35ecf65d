-- ===== src/Scheduler/Lookup.antt =====
-- Pids find live processes and no other ones, also after a slot is reused.
use native.Mathlib.Nat.{mod-lt, pow-suc}
use any_vm.Base.{
  ℕ, pos, ◌-ℤ◌, zero, suc, ◌+◌, ◌-◌, ◌%◌, ◌^◌, ◌==◌, ==_iff, ==_self, leb, ◌≤◌, ◌<◌, ◌≡◌, ◌≢◌, ◌↔◌,
  refl, sym, ◌∙◌, ap, subst, inl, inr, Bool-cases, true, false, Option, Option-cases, none, some,
  some_inj, arith, get_elem?, get_elem?-lt, get_elem?-set_self, get_elem?-set_ne, length-set, set,
}
use any_vm.Pid.{apid_idx, apid_gen}
use any_vm.Pid.Laws.{apid_from_roundtrip}
use any_vm.Scheduler.{
  Process, Scheduler, checked, actor, revived, Alloc, alloc, free, living, weight,
}
use any_vm.Scheduler.Table.{
  IsTable, Alive, living-set, Taken, alloc-Taken, power_positive, step_inside, step_round,
}

-- The slot `i` holds a live process with that pid.
pub record Lives (s : Scheduler) (pid i : ℕ) : Type 0 where
  pub process : Process
  pub found : get_elem? s.procs i ≡ some process
  pub named : process.pid ≡ pid
  pub live : process.dead ≡ false

checked-some : (p : Process) (idx : ℕ) → p.dead ≡ false → checked p.pid idx (some p) ≡ some idx
unfolding checked
checked-some p idx live = rw (==_self p.pid) (rw live refl)

checked_sound :
    (pid idx : ℕ) (o : Option Process) (i : ℕ)
    → checked pid idx o ≡ some i
    → (idx ≡ i) × ((p : Process) × (o ≡ some p) × (p.pid ≡ pid) × (p.dead ≡ false))
unfolding checked
checked_sound pid idx none i e = absurd (cc e)
checked_sound pid idx (some p) i e = elim (Bool-cases (p.pid == pid)) [
  | inr other ↦ absurd (cc (rw other at e))
  | inl same ↦ (elim (Bool-cases p.dead) [
    | inl dead ↦ absurd (cc (rw (same, dead) at e))
    | inr live ↦ (some_inj (rw (same, live) at e), (p, refl, (==_iff p.pid pid).0 same, live))
  ])
]

module _ {s : Scheduler} (v : IsTable s) (pid : ℕ) where
  actor-Lives : (i : ℕ) → Lives s pid i → actor s pid ≡ some i
  unfolding actor
  actor-Lives i k =
      let place : apid_idx s.idx_bits pid ≡ i =
        ap (apid_idx s.idx_bits) (sym k.named) ∙ v.named i k.process k.found k.live in
      let within : leb (2 ^ s.idx_bits) i ≡ false =
        ground (arith, get_elem?-lt s.procs i k.found, v.size) in
      rw (place, within)
        (rw k.found (
          subst (λ q. checked q i (some k.process) ≡ some i) k.named
            (checked-some k.process i k.live)))

  Lives-actor : (i : ℕ) → actor s pid ≡ some i → Lives s pid i
  unfolding actor
  Lives-actor i e = elim (Bool-cases (leb (2 ^ s.idx_bits) (apid_idx s.idx_bits pid))) [
    | inl out ↦ absurd (cc (rw out at e))
    | inr within ↦
        (let (here, (p, found, named, live)) =
            checked_sound pid (apid_idx s.idx_bits pid)
              (get_elem? s.procs (apid_idx s.idx_bits pid)) i (rw within at e) in
          record {
            process = p;
            found = ap (get_elem? s.procs) (sym here) ∙ found;
            named = named;
            live = live;
          })
  ]

  -- On a well-formed table, with widths of 1 to 30 bits, ascheduler_actor finds the slot i by a
  -- pid exactly if that slot holds a live process with that pid.
  pub actor_iff : (i : ℕ) → (actor s pid ≡ some i) ↔ Lives s pid i
  actor_iff i = (Lives-actor i, actor-Lives i)

two_generations : (k : ℕ) → 0 < k → 2 ≤ 2 ^ k
two_generations (suc k) h = omega (arith, pow-suc 2 k, power_positive k)
two_generations zero h = elim h [ ]

next_differs : (n x : ℕ) → 2 ≤ n → (x + 1) % n ≢ x
next_differs n x two e =
    let lt : x < n = subst (λ y. y < n) e (mod-lt (x + 1) (omega (arith, two))) in
    elim (Bool-cases (leb n (x + 1))) [
      | inl last ↦ absurd (ground (arith, e, two, lt, step_round n x (ground (arith, lt))))
      | inr inside ↦ absurd (ground (arith, e, step_inside n x (ground arith)))
    ]

module _ {s : Scheduler} (v : IsTable s) {i : ℕ} {t : Scheduler} (k : Taken s i t) where
  Lives-new : Lives t (revived s i k.before).pid i
  Lives-new = record { process = revived s i k.before; found = k.now; named = refl; live = refl }

  -- A live process keeps its pid.
  Taken-keeps : (pid j : ℕ) → actor s pid ≡ some j → actor t pid ≡ some j
  Taken-keeps pid j e =
      let l = (actor_iff v pid j).0 e in
      (actor_iff k.valid pid j).1 (record {
        process = l.process;
        found =
            k.others j (λ h. cc (
              ap {A = Process} (λ p. p.dead)
                  (some_inj (sym l.found ∙ ap (get_elem? s.procs) h ∙ k.found)),
              l.live,
              k.free,
            ))
            ∙ l.found;
        named = l.named;
        live = l.live;
      })

  abbrev old_gen : ℕ
  old_gen = apid_gen s.idx_bits s.gen_bits k.before.pid

  slot_inside : i < 2 ^ s.idx_bits
  slot_inside = omega (arith, get_elem?-lt s.procs i k.found, v.size)

  -- The pid of the process that had the slot before has another generation.
  pid_differs : (revived s i k.before).pid ≢ k.before.pid
  pid_differs same =
      next_differs (2 ^ s.gen_bits) old_gen (two_generations s.gen_bits v.shifts.some_gen) (
        sym
          (apid_from_roundtrip s.idx_bits s.gen_bits i _ v.widths slot_inside
            (mod-lt (old_gen + 1) (power_positive s.gen_bits))).1
        ∙ ap (apid_gen s.idx_bits s.gen_bits) same)

  not_stale : apid_idx s.idx_bits k.before.pid ≡ i → (j : ℕ) → Lives t k.before.pid j → ⊥
  not_stale used j l =
      let here : j ≡ i =
        sym (k.valid.named j l.process l.found l.live)
        ∙ ap (λ w. apid_idx w l.process.pid) k.width
        ∙ ap (apid_idx s.idx_bits) l.named
        ∙ used in
      let same : l.process ≡ revived s i k.before =
        some_inj (sym l.found ∙ ap (get_elem? t.procs) here ∙ k.now) in
      pid_differs (ap {A = Process} (λ p. p.pid) (sym same) ∙ l.named)

  Taken-stale :
      apid_idx s.idx_bits k.before.pid ≡ i
      → (actor t (revived s i k.before).pid ≡ some i) × (actor t k.before.pid ≡ none)
  Taken-stale used = (
    (actor_iff k.valid _ i).1 Lives-new,
    elim (Option-cases (actor t k.before.pid)) [
      | inl nobody ↦ nobody
      | inr (j, e) ↦ absurd (not_stale used j ((actor_iff k.valid k.before.pid j).0 e))
    ],
  )

TakenOf : Scheduler → Alloc → Type 0
TakenOf s (Alloc.taken i t) = Taken s i t
TakenOf s _ = Unit

alloc-TakenOf : {s : Scheduler} → IsTable s → TakenOf s (alloc s)
unfolding TakenOf
alloc-TakenOf {s} v = elim (alloc-Taken v) [
  | inl (i, t, r, k) ↦ subst (TakenOf s) (sym r) k
  | inr (t, r, _, _) ↦ subst (TakenOf s) (sym r) tt
]

module _ {s : Scheduler} (v : IsTable s) (i : ℕ) (t : Scheduler)
    (given : alloc s ≡ Alloc.taken i t) where
  taken : Taken s i t
  unfolding TakenOf
  taken = subst (TakenOf s) given (alloc-TakenOf v)

  -- On a well-formed table, a pid that finds a live process still finds it after another slot is
  -- allocated.
  pub alloc-keeps : (pid j : ℕ) → actor s pid ≡ some j → actor t pid ≡ some j
  alloc-keeps pid j e = Taken-keeps v taken pid j e

  -- When the allocation on a well-formed table, with widths of 1 to 30 bits, takes the slot i of
  -- a process p that was used before, so that its pid names the slot, the new pid finds the slot,
  -- and the pid of p, which has another generation, finds no actor.
  pub alloc-stale :
      (p : Process)
      → get_elem? s.procs i ≡ some p
      → apid_idx s.idx_bits p.pid ≡ i
      → (actor t (revived s i p).pid ≡ some i) × (actor t p.pid ≡ none)
  alloc-stale p found used =
      let same : taken.before ≡ p = some_inj (sym taken.found ∙ found) in
      subst (λ q. (actor t (revived s i q).pid ≡ some i) × (actor t q.pid ≡ none)) same
        (Taken-stale v taken (ap {A = Process} (λ q. apid_idx s.idx_bits q.pid) same ∙ used))

weight_live : (p : Process) → p.dead ≡ false → weight p ≡ 1
weight_live p live = rw live refl

one_less : (n : ℕ) → 1 ≤ n → pos n -ℤ pos 1 ≡ pos (n - 1)
unfolding ◌-ℤ◌
one_less n h = ground arith

module _ {s : Scheduler} (v : IsTable s) (i : ℕ) (a : Alive s i) where
  freed_named :
      (j : ℕ) (q : Process)
      → get_elem? (free i a.process s).procs j ≡ some q
      → q.dead ≡ false
      → (apid_idx s.idx_bits q.pid ≡ j) × (j ≢ i) × (get_elem? s.procs j ≡ some q)
  unfolding free
  freed_named j q e live = elim (Bool-cases (j == i)) [
    | inl same ↦ absurd (
        cc (
          ap {A = Process} (λ p. p.dead)
              (some_inj (
                sym e
                ∙ ap (get_elem? (set s.procs i _)) ((==_iff j i).0 same)
                ∙ get_elem?-set_self s.procs i _ (get_elem?-lt s.procs i a.found))),
          live,
        ))
    | inr other ↦
        (let ne : j ≢ i = λ h. absurd (ground (arith, h, other)) in
          let before = sym (get_elem?-set_ne s.procs _ (λ h. ne (sym h))) ∙ e in
          (v.named j q before live, ne, before))
  ]

  fewer :
      living (set s.procs i (record (a.process) { dead = true })) + weight a.process
      ≡ living s.procs
  fewer = omega (arith, living-set s.procs i a.process (record (a.process) { dead = true }) a.found)

  pub free-IsTable : IsTable (free i a.process s)
  unfolding free
  free-IsTable = record {
    widths = v.widths;
    shifts = v.shifts;
    size = length-set s.procs i _ ∙ v.size;
    next = v.next;
    named = λ j q e live. (freed_named j q e live).0;
    counted =
        ap (λ z. z -ℤ pos 1) v.counted
        ∙ one_less (living s.procs) (omega (arith, fewer, weight_live a.process a.live))
        ∙ ap pos (omega (arith, fewer, weight_live a.process a.live));
  }

  gone : (j : ℕ) → Lives (free i a.process s) a.process.pid j → ⊥
  unfolding free
  gone j l =
      let (named, ne, before) = freed_named j l.process l.found l.live in
      ne (sym named ∙ ap (apid_idx s.idx_bits) l.named ∙ v.named i a.process a.found a.live)

  -- Freeing the slot of a live process of a well-formed table leaves a well-formed table, with
  -- the number of processes lowered, in which the pid of the process finds no actor.
  pub free-gone : IsTable (free i a.process s) × (actor (free i a.process s) a.process.pid ≡ none)
  free-gone = (
    free-IsTable,
    elim (Option-cases (actor (free i a.process s) a.process.pid)) [
      | inl nobody ↦ nobody
      | inr (j, e) ↦ absurd (gone j ((actor_iff free-IsTable a.process.pid j).0 e))
    ],
  )

  pub free-keeps :
      (pid j : ℕ) → j ≢ i → actor s pid ≡ some j → actor (free i a.process s) pid ≡ some j
  unfolding free
  free-keeps pid j ne e = (actor_iff free-IsTable pid j).1 (kept pid j ne ((actor_iff v pid j).0 e))
    where
      kept : (pid j : ℕ) → j ≢ i → Lives s pid j → Lives (free i a.process s) pid j
      kept pid j ne l = record {
        process = l.process;
        found = get_elem?-set_ne s.procs _ (λ h. ne (sym h)) ∙ l.found;
        named = l.named;
        live = l.live;
      }
