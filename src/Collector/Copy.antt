-- ===== src/Collector/Copy.antt =====
-- Copying values that the program may hold keeps the invariant of the collector.
use any_vm.Base.{
  ℕ, ◌≡◌, ◌≢◌, refl, sym, ◌∙◌, ap, subst, inl, inr, Bool-cases, ◌==◌, ==_iff, Option, none, some,
  some_inj, List, [], ◌∷◌, ◌++◌, arith, length, length-append, get_elem?, get_elem?-lt,
  get_elem?-append_left, get_elem?-append_length,
}
use any_vm.Value.{AType, Value}
use any_vm.Collector.{Cell, Gc, update, appended, forward, copy, copy_all}
use any_vm.Collector.Heap.{
  Marked, NotSlots, Plain, AllPlain, Relocated, AllRelocated, Valid, Owns, IsHeap,
}
use any_vm.Collector.Forwarding.{update_self, update_ne, Forwards-append}
use any_vm.Collector.Invariant.{
  Waits, Inv, Grows, Grows-refl, Grows-trans, Relocated-kept, Image-kept,
}

Valid-vec :
    {heap : Marked} {t u : AType} {cap sz b : ℕ}
    → Valid heap (Cell.vec t cap sz (Value.collectable u b))
    → (vs : List Value) × (get_elem? heap.cells b ≡ some (Cell.slots vs))
Valid-vec (Valid.vec e live fits all) = (_, e)

none-ne-some {ℓ} : {A : Type ℓ} {x : A} → none ≡ some x → ⊥
none-ne-some e = cc e

module _ {heap : Marked} (v : IsHeap heap) where
  pub Owns-slots :
      (i b : ℕ)
      → Owns heap i b
      → (vs : List Value) × (get_elem? heap.cells b ≡ some (Cell.slots vs))
  Owns-slots i b w = Valid-vec (v.valid i _ w.live w.found)

  module _ {k : ℕ} {g : Gc} (w : Inv heap k g) (i : ℕ) (c : Cell)
      (here : get_elem? heap.cells i ≡ some c) (no_slots : NotSlots c) (live : heap.Live i)
      (free : g.forwarded i ≡ none) where
    slots-ne : (j : ℕ) (vs : List Value) → get_elem? heap.cells j ≡ some (Cell.slots vs) → j ≢ i
    slots-ne j vs e same =
        subst NotSlots (some_inj (sym here ∙ ap (get_elem? heap.cells) (sym same) ∙ e)) no_slots

    old_at :
        (o : ℕ) (d : Cell) → get_elem? g.new o ≡ some d → get_elem? (g.new ++ (c ∷ [])) o ≡ some d
    old_at o d e = get_elem?-append_left g.new (c ∷ []) o (get_elem?-lt g.new o e) ∙ e

    kept_at : (j o : ℕ) → g.forwarded j ≡ some o → update g.forwarded i (length g.new) j ≡ some o
    kept_at j o e =
        update_ne g.forwarded i (length g.new) j
          (λ h. none-ne-some (sym free ∙ ap g.forwarded (sym h) ∙ e))
        ∙ e

    Grows-appended : Grows heap g (appended i c g)
    Grows-appended = record {
      old = refl;
      kept = kept_at;
      new = old_at;
      slots = λ j vs e. update_ne g.forwarded i (length g.new) j (slots-ne j vs e);
    }

    Waits-before :
        (j : ℕ) → Waits (update g.forwarded i (length g.new) j) k → Waits (g.forwarded j) k
    Waits-before j waits = elim (Bool-cases (j == i)) [
      | inl same ↦ subst (λ o. Waits o k) (sym (ap g.forwarded ((==_iff j i).0 same) ∙ free)) tt
      | inr other ↦
          subst (λ o. Waits o k)
            (update_ne g.forwarded i (length g.new) j (λ h. absurd (ground arith))) waits
    ]

    at_end : (j o : ℕ) → j ≡ i → update g.forwarded i (length g.new) j ≡ some o → o ≡ length g.new
    at_end j o same e = some_inj (
        sym e
        ∙ ap (update g.forwarded i (length g.new)) same
        ∙ update_self g.forwarded i (length g.new))

    Inv-appended : Inv heap k (appended i c g)
    Inv-appended = record {
      scanned = omega (arith, w.scanned, length-append g.new (c ∷ []));
      forwards = Forwards-append w.forwards i c free (get_elem?-lt heap.cells i here) live;
      same = w.same;
      pending = λ j o d e ge e' whole. elim (Bool-cases (j == i)) [
        | inl same ↦
            (let e'' : j ≡ i = (==_iff j i).0 same in
              ap (get_elem? (g.new ++ (c ∷ []))) (at_end j o e'' e)
              ∙ get_elem?-append_length g.new [] c
              ∙ sym here
              ∙ ap (get_elem? heap.cells) (sym e'')
              ∙ e')
        | inr other ↦ old_at o d (
            w.pending j o d
              (sym (update_ne g.forwarded i (length g.new) j (λ h. absurd (ground arith))) ∙ e) ge
              e' whole)
      ];
      buffers = λ j o vs e e'.
          (let (ws, at) =
              w.buffers j o vs
                (sym (update_ne g.forwarded i (length g.new) j (slots-ne j vs e')) ∙ e) e' in
            (ws, old_at o (Cell.slots ws) at));
      owners = λ j b own waits.
          (let (vs, e) = Owns-slots j b own in
            let (f, e') = w.owners j b own (Waits-before j waits) in
            (update_ne g.forwarded i (length g.new) b (slots-ne b vs e) ∙ f, e'));
      done = λ j o d e lt e'. elim (Bool-cases (j == i)) [
        | inl same ↦ absurd (omega (arith, lt, at_end j o ((==_iff j i).0 same) e, w.scanned))
        | inr other ↦ Image-kept kept_at old_at (
            w.done j o d
              (sym (update_ne g.forwarded i (length g.new) j (λ h. absurd (ground arith))) ∙ e) lt
              e')
      ];
    }

-- What copying a value gives.
pub record Copied (heap : Marked) (k : ℕ) (g h : Gc) : Type 0 where
  pub inv : Inv heap k h
  pub grows : Grows heap g h

module _ {heap : Marked} (v : IsHeap heap) {k : ℕ} where
  forward-Copied :
      {g : Gc} (t : AType) (i : ℕ) (c : Cell) (o : Option ℕ)
      → g.forwarded i ≡ o
      → Inv heap k g
      → get_elem? heap.cells i ≡ some c
      → NotSlots c
      → heap.Live i
      → Copied heap k g (forward t i c o g).1
        × Relocated (forward t i c o g).1.forwarded (Value.collectable t i) (forward t i c o g).0
  forward-Copied {g} t i c (some o) e w here other live =
      (record { inv = w; grows = Grows-refl heap g }, (o, e, refl))
  forward-Copied {g} t i c none e w here other live = (
    record {
      inv = Inv-appended v w i c here other live e;
      grows = Grows-appended v w i c here other live e;
    },
    (length g.new, update_self g.forwarded i (length g.new), refl),
  )

  pub copy-Copied :
      (x : Value) (g : Gc)
      → Plain heap x
      → Inv heap k g
      → (x' : Value) × (h : Gc) × (copy x g ≡ some (x', h))
        × Copied heap k g h
        × Relocated h.forwarded x x'
  unfolding copy
  copy-Copied (Value.collectable t i) g (c, here, other, live) w =
      let (copied, moved) = forward-Copied t i c (g.forwarded i) refl w here other live in
      (_, _, rw (w.same i c here other, copy) refl, copied, moved)
  copy-Copied Value.nil g plain w =
      (_, g, refl, record { inv = w; grows = Grows-refl heap g }, refl)
  copy-Copied (Value.pid p) g plain w =
      (_, g, refl, record { inv = w; grows = Grows-refl heap g }, refl)
  copy-Copied (Value.boolean b) g plain w =
      (_, g, refl, record { inv = w; grows = Grows-refl heap g }, refl)
  copy-Copied (Value.integer n) g plain w =
      (_, g, refl, record { inv = w; grows = Grows-refl heap g }, refl)
  copy-Copied (Value.real x) g plain w =
      (_, g, refl, record { inv = w; grows = Grows-refl heap g }, refl)
  copy-Copied (Value.native_func n) g plain w =
      (_, g, refl, record { inv = w; grows = Grows-refl heap g }, refl)
  copy-Copied (Value.byte_code_func n) g plain w =
      (_, g, refl, record { inv = w; grows = Grows-refl heap g }, refl)

  pub copy_all-Copied :
      (xs : List Value) (g : Gc)
      → AllPlain heap xs
      → Inv heap k g
      → (xs' : List Value) × (h : Gc) × (copy_all xs g ≡ some (xs', h))
        × Copied heap k g h
        × AllRelocated h.forwarded xs xs'
  unfolding copy_all
  copy_all-Copied [] g all w = ([], g, refl, record { inv = w; grows = Grows-refl heap g }, tt)
  copy_all-Copied (x ∷ xs) g (plain, all) w =
      let (x', h, e, c, r) = copy-Copied x g plain w in
      let (xs', l, e', c', r') = copy_all-Copied xs h all c.inv in
      (
        x' ∷ xs',
        l,
        rw (e, copy_all) (rw (e', copy_all) refl),
        record { inv = c'.inv; grows = Grows-trans c.grows c'.grows },
        (Relocated-kept c'.grows.kept x x' r, r'),
      )
