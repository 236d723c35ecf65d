-- ===== src/Collector/Advance.antt =====
-- The invariant of the collector while an object is scanned, and after its copy is written back.
use any_vm.Base.{
  ℕ, suc, ◌≤◌, ◌<◌, ◌≡◌, ◌≢◌, sym, ◌∙◌, ap, subst, inl, inr, Bool-cases, ◌==◌, ==_iff, Option, none,
  some, some_inj, List, arith, length, length-set, get_elem?, get_elem?-set_ne, set,
}
use any_vm.Value.{Value}
use any_vm.Collector.{Cell, Gc, put_new}
use any_vm.Collector.Heap.{Marked, NotSlots, Owns, Image, Forwards}
use any_vm.Collector.Invariant.{Waits, Inv}

-- The invariant while the object `i`, number `k` of the new space, is scanned: its fixed buffer, if
-- it owns one, may be copied.
pub record Mid (heap : Marked) (k i : ℕ) (g : Gc) : Type 0 where
  pub forwards : Forwards heap g.forwarded g.new
  pub place : g.forwarded i ≡ some k
  pub same :
      (j : ℕ) (c : Cell) → get_elem? heap.cells j ≡ some c → NotSlots c → get_elem? g.old j ≡ some c
  pub pending :
      (j o : ℕ) (c : Cell)
      → g.forwarded j ≡ some o
      → k ≤ o
      → get_elem? heap.cells j ≡ some c
      → NotSlots c
      → get_elem? g.new o ≡ some c
  pub buffers :
      (j o : ℕ) (vs : List Value)
      → g.forwarded j ≡ some o
      → get_elem? heap.cells j ≡ some (Cell.slots vs)
      → (ws : List Value) × (get_elem? g.new o ≡ some (Cell.slots ws))
  pub owners :
      (j b : ℕ)
      → Owns heap j b
      → j ≢ i
      → Waits (g.forwarded j) k
      → (g.forwarded b ≡ none) × (get_elem? g.old b ≡ get_elem? heap.cells b)
  pub done :
      (j o : ℕ) (c : Cell)
      → g.forwarded j ≡ some o
      → o < k
      → get_elem? heap.cells j ≡ some c
      → Image heap g.forwarded g.new o c

pub Mid-Inv :
    {heap : Marked} {k i : ℕ} {g : Gc} → Inv heap k g → g.forwarded i ≡ some k → Mid heap k i g
Mid-Inv w e = record {
  forwards = w.forwards;
  place = e;
  same = w.same;
  pending = w.pending;
  buffers = w.buffers;
  owners = λ j b own apart waits. w.owners j b own waits;
  done = w.done;
}

pub Waits-suc : (o : Option ℕ) (k : ℕ) → Waits o (suc k) → Waits o k
Waits-suc none k h = tt
Waits-suc (some o) k h = omega arith

-- A later object that is written is no part of an image that does not mention it.
Image-put :
    {heap : Marked} {new : List Cell} {f : ℕ → Option ℕ} {o : ℕ} {c : Cell} (k : ℕ) (d e : Cell)
    → get_elem? new k ≡ some e
    → NotSlots e
    → k ≢ o
    → Image heap f new o c
    → Image heap f (set new k d) o c
Image-put {new = new} k d e at whole apart (Image.bytes e') =
    Image.bytes (get_elem?-set_ne new d apart ∙ e')
Image-put {new = new} k d e at whole apart (Image.slots e') =
    Image.slots (get_elem?-set_ne new d apart ∙ e')
Image-put {new = new} k d e at whole apart (Image.tuple e' all) =
    Image.tuple (get_elem?-set_ne new d apart ∙ e') all
Image-put {new = new} k d e at whole apart (Image.buffer e' r) =
    Image.buffer (get_elem?-set_ne new d apart ∙ e') r
Image-put {new = new} k d e at whole apart (Image.vec e' e'' here there all) =
    Image.vec (get_elem?-set_ne new d apart ∙ e') e'' here
      (get_elem?-set_ne new d
          (λ same. subst NotSlots (some_inj (sym at ∙ ap (get_elem? new) same ∙ there)) whole)
        ∙ there)
      all

Forwards-length :
    {heap : Marked} {new new' : List Cell} {f : ℕ → Option ℕ}
    → length new' ≡ length new
    → Forwards heap f new
    → Forwards heap f new'
Forwards-length e w = record {
  inside = w.inside;
  live = w.live;
  bound = λ i o h. omega (arith, e, w.bound i o h);
  source = λ o h. w.source o (omega (arith, e, h));
  injective = w.injective;
  count = omega (arith, e, w.count);
}

module _ {heap : Marked} {k i : ℕ} {g : Gc} (w : Mid heap k i g) (c d : Cell)
    (here : get_elem? heap.cells i ≡ some c) (whole : NotSlots c)
    (image : Image heap g.forwarded (set g.new k d) k c) where
  at_k : (j o : ℕ) → g.forwarded j ≡ some o → o ≡ k → j ≡ i
  at_k j o e same = w.forwards.injective j i k (e ∙ ap some same) w.place

  later : (j o : ℕ) → g.forwarded j ≡ some o → j ≢ i → k ≢ o
  later j o e apart same = apart (at_k j o e (sym same))

  slots_apart : (j : ℕ) (vs : List Value) → get_elem? heap.cells j ≡ some (Cell.slots vs) → j ≢ i
  slots_apart j vs e same =
      subst NotSlots (some_inj (sym here ∙ ap (get_elem? heap.cells) (sym same) ∙ e)) whole

  Waits-apart : (j : ℕ) → Waits (g.forwarded j) (suc k) → j ≢ i
  Waits-apart j waits same =
      absurd (omega (arith, subst (λ o. Waits o (suc k)) (ap g.forwarded same ∙ w.place) waits))

  pub advance : Inv heap (suc k) (put_new k d g)
  advance = record {
    forwards = Forwards-length (length-set g.new k d) w.forwards;
    scanned = omega (arith, length-set g.new k d, w.forwards.bound i k w.place);
    same = w.same;
    pending = λ j o c' e ge e' whole'.
        get_elem?-set_ne g.new d (λ h. absurd (omega (arith, h, ge)))
        ∙ w.pending j o c' e (omega (arith, ge)) e' whole';
    buffers = λ j o vs e e'.
        (let (ws, at) = w.buffers j o vs e e' in
          (ws, get_elem?-set_ne g.new d (later j o e (slots_apart j vs e')) ∙ at));
    owners =
        λ j b own waits. w.owners j b own (Waits-apart j waits) (Waits-suc (g.forwarded j) k waits);
    done = λ j o c' e lt e'. elim (Bool-cases (o == k)) [
      | inl same ↦
          (let at : o ≡ k = (==_iff o k).0 same in
            subst (λ x. Image heap g.forwarded (set g.new k d) x c') (sym at)
              (subst (Image heap g.forwarded (set g.new k d) k)
                (some_inj (sym here ∙ ap (get_elem? heap.cells) (sym (at_k j o e at)) ∙ e')) image))
      | inr other ↦
          Image-put k d c (w.pending i k c w.place (omega arith) here whole) whole
            (λ h. absurd (ground arith)) (w.done j o c' e (ground arith) e')
    ];
  }
