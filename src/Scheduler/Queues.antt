-- ===== src/Scheduler/Queues.antt =====
-- Every process that waits or runs is alive and in one list.
use any_vm.Base.{
  ℕ, ◌+◌, ◌==◌, ==_iff, ==_self, ==_ne, ◌≤◌, ◌<◌, ◌≡◌, ◌≢◌, refl, sym, ◌∙◌, ap, subst, inl, inr,
  Bool-cases, true, false, if◌then◌else◌, some, some_inj, List, [], ◌∷◌, ◌++◌, arith, get_elem?,
  get_elem?-set_self, get_elem?-set_ne, get_elem?-lt, set,
}
use any_vm.Scheduler.{Process, Scheduler}
use any_vm.Scheduler.Table.{Alive}
use any_vm.Scheduler.Run.{without, erase, add_to_runnings}

abbrev hit : ℕ → ℕ → ℕ
hit i j = if j == i then 1 else 0

-- How often a slot stands in a list, and in the three lists.
abbrev pub occurs : ℕ → List ℕ → ℕ
occurs i [] = 0
occurs i (j ∷ js) = hit i j + occurs i js

abbrev pub places : Scheduler → ℕ → ℕ
places s i = occurs i s.runnings + occurs i s.pendings + occurs i s.waitings

-- No process is in two places, and each one that is in a list is alive.
pub record IsQueued (s : Scheduler) : Type 0 where
  pub once : (i : ℕ) → places s i ≤ 1
  pub alive : (i : ℕ) → 0 < places s i → Alive s i

pub occurs-append : (i : ℕ) (xs ys : List ℕ) → occurs i (xs ++ ys) ≡ occurs i xs + occurs i ys
occurs-append i [] ys = omega arith
occurs-append i (x ∷ xs) ys = omega (arith, occurs-append i xs ys)

pub occurs-without_self : (i : ℕ) (xs : List ℕ) → occurs i (without i xs) ≡ 0
unfolding without
occurs-without_self i [] = refl
occurs-without_self i (x ∷ xs) = elim (Bool-cases (x == i)) [
  | inl same ↦ rw same (occurs-without_self i xs)
  | inr other ↦ rw other (rw other (omega (arith, occurs-without_self i xs)))
]

pub occurs-without_ne : (i j : ℕ) (xs : List ℕ) → i ≢ j → occurs i (without j xs) ≡ occurs i xs
unfolding without
occurs-without_ne i j [] h = refl
occurs-without_ne i j (x ∷ xs) h = elim (Bool-cases (x == j)) [
  | inl same ↦ rw same (omega (arith, occurs-without_ne i j xs h, not_here x same))
  | inr other ↦ rw other (omega (arith, occurs-without_ne i j xs h))
]
  where
    not_here : (x : ℕ) → (x == j) ≡ true → hit i x ≡ 0
    not_here x same = ground (arith, h)

pub apart_of : (i j : ℕ) → (j == i) ≡ false → i ≢ j
apart_of i j other h = ground arith

-- Only the list of processes decides who is alive.
pub Alive-set :
    {s t : Scheduler} (i : ℕ) (p q : Process)
    → get_elem? s.procs i ≡ some p
    → t.procs ≡ set s.procs i q
    → q.dead ≡ p.dead
    → (j : ℕ) → Alive s j
    → Alive t j
Alive-set {s} {t} i p q found e same j a = elim (Bool-cases (j == i)) [
  | inl here ↦
      (let place : j ≡ i = (==_iff j i).0 here in
        let before : a.process ≡ p =
          some_inj (sym a.found ∙ ap (get_elem? s.procs) place ∙ found) in
        record {
          process = q;
          found =
              ap (get_elem? t.procs) place
              ∙ ap (λ l. get_elem? l i) e
              ∙ get_elem?-set_self s.procs i q (get_elem?-lt s.procs i found);
          live = same ∙ ap {A = Process} (λ r. r.dead) (sym before) ∙ a.live;
        })
  | inr other ↦ record {
    process = a.process;
    found = ap (λ l. get_elem? l j) e ∙ get_elem?-set_ne s.procs q (λ h. apart other h) ∙ a.found;
    live = a.live;
  }
]
  where
    apart : (j == i) ≡ false → i ≡ j → ⊥
    apart other h = ground arith

pub places-erase_self : (i : ℕ) (s : Scheduler) → places (erase i s) i ≡ 0
unfolding erase
places-erase_self i s = omega (
  arith,
  occurs-without_self i s.runnings,
  occurs-without_self i s.pendings,
  occurs-without_self i s.waitings,
)

pub places-erase_ne : (i j : ℕ) (s : Scheduler) → j ≢ i → places (erase i s) j ≡ places s j
unfolding erase
places-erase_ne i j s h = omega (
  arith,
  occurs-without_ne j i s.runnings h,
  occurs-without_ne j i s.pendings h,
  occurs-without_ne j i s.waitings h,
)

-- `t` has the processes of `s` alive, and `i` as the only one that may have changed its place.
pub record Moved (s t : Scheduler) (i : ℕ) : Type 0 where
  pub here : places t i ≤ 1
  pub others : (j : ℕ) → j ≢ i → places t j ≡ places s j
  pub kept : (j : ℕ) → Alive s j → Alive t j

pub Moved-IsQueued : {s t : Scheduler} {i : ℕ} → IsQueued s → Alive s i → Moved s t i → IsQueued t
Moved-IsQueued {s} {t} {i} v a m = record {
  once = λ j. elim (Bool-cases (j == i)) [
    | inl same ↦ subst (λ k. places t k ≤ 1) (sym ((==_iff j i).0 same)) m.here
    | inr other ↦ omega (arith, m.others j (apart j other), v.once j)
  ];
  alive = λ j some_place. elim (Bool-cases (j == i)) [
    | inl same ↦ subst (Alive t) (sym ((==_iff j i).0 same)) (m.kept i a)
    | inr other ↦ m.kept j (v.alive j (omega (arith, m.others j (apart j other), some_place)))
  ];
}
  where
    apart : (j : ℕ) → (j == i) ≡ false → j ≢ i
    apart j other h = ground arith

pub occurs-one : (i : ℕ) → occurs i (i ∷ []) ≡ 1
occurs-one i = rw (==_self i) refl

pub occurs-other : (i j : ℕ) → j ≢ i → occurs j (i ∷ []) ≡ 0
occurs-other i j h = rw (==_ne (λ e. h (sym e))) refl

module _ {s : Scheduler} (v : IsQueued s) (i : ℕ) (a : Alive s i) where
  pub Moved-add_to_runnings : Moved s (add_to_runnings i s) i
  unfolding add_to_runnings erase
  Moved-add_to_runnings = record {
    here =
        omega (
          arith,
          places-erase_self i s,
          occurs-append i (erase i s).runnings (i ∷ []),
          occurs-one i,
        );
    others = λ j h. omega (
      arith,
      places-erase_ne i j s h,
      occurs-append j (erase i s).runnings (i ∷ []),
      occurs-other i j h,
    );
    kept = λ j k. record { process = k.process; found = k.found; live = k.live };
  }
