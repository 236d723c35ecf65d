-- ===== src/Collector/Storage.antt =====
-- An array or a table moves together with its fixed buffer.
use any_vm.Base.{
  ℕ, suc, ◌<◌, ◌≡◌, ◌≢◌, refl, sym, ◌∙◌, ap, subst, inl, inr, Bool-cases, ◌==◌, ==_iff, Option,
  none, some, some_inj, List, [], ◌∷◌, ◌++◌, arith, length, length-append, get_elem?, get_elem?-lt,
  get_elem?-append_left, get_elem?-append_length, get_elem?-set_self, get_elem?-set_ne, set, take,
}
use any_vm.Value.{AType, Value}
use any_vm.Collector.{Cell, Gc, update, appended, put_old, used_slots}
use any_vm.Collector.Heap.{Marked, NotSlots, AllRelocated, Owns, IsHeap, Image}
use any_vm.Collector.Forwarding.{update_self, update_ne, Forwards-append}
use any_vm.Collector.Invariant.{Waits, Inv, AllRelocated-kept, Image-kept}
use any_vm.Collector.Advance.{Mid}

none-ne-some {ℓ} : {A : Type ℓ} {x : A} → none ≡ some x → ⊥
none-ne-some e = cc e

pub AllRelocated-length :
    (f : ℕ → Option ℕ) (vs ws : List Value) → AllRelocated f vs ws → length ws ≡ length vs
AllRelocated-length f [] [] all = refl
AllRelocated-length f [] (_ ∷ ws) all = elim all [ ]
AllRelocated-length f (_ ∷ vs) [] all = elim all [ ]
AllRelocated-length f (v ∷ vs) (w ∷ ws) (_, all) = ap suc (AllRelocated-length f vs ws all)

-- The fixed buffer `b` of the object `i` goes to the new space, with other contents.
module _ {heap : Marked} (v : IsHeap heap) {k i b : ℕ} {h : Gc} (w : Inv heap k h)
    (own : Owns heap i b) (place : h.forwarded i ≡ some k) (free : h.forwarded b ≡ none)
    (vs ws : List Value) (here : get_elem? heap.cells b ≡ some (Cell.slots vs))
    (live : heap.Live b) where
  abbrev f' : ℕ → Option ℕ
  f' = update h.forwarded b (length h.new)

  abbrev pub moved : Gc
  moved = appended b (Cell.slots ws) (put_old b (Cell.slots ws) h)

  apart : (j : ℕ) (c : Cell) → get_elem? heap.cells j ≡ some c → NotSlots c → j ≢ b
  apart j c e whole same =
      subst NotSlots (some_inj (sym e ∙ ap (get_elem? heap.cells) same ∙ here)) whole

  Owns-apart : (j b' : ℕ) → Owns heap j b' → j ≢ b
  Owns-apart j b' own' = apart j _ own'.found tt

  unchanged : (j : ℕ) → j ≢ b → f' j ≡ h.forwarded j
  unchanged j ne = update_ne h.forwarded b (length h.new) j ne

  pub moved-kept : (j o : ℕ) → h.forwarded j ≡ some o → f' j ≡ some o
  moved-kept j o e =
      unchanged j (λ same. none-ne-some (sym free ∙ ap h.forwarded (sym same) ∙ e)) ∙ e

  old_at :
      (o : ℕ) (d : Cell)
      → get_elem? h.new o ≡ some d
      → get_elem? (h.new ++ (Cell.slots ws ∷ [])) o ≡ some d
  old_at o d e = get_elem?-append_left h.new (Cell.slots ws ∷ []) o (get_elem?-lt h.new o e) ∙ e

  at_end : (j o : ℕ) → j ≡ b → f' j ≡ some o → o ≡ length h.new
  at_end j o same e = some_inj (sym e ∙ ap f' same ∙ update_self h.forwarded b (length h.new))

  pub moved-Mid : Mid heap k i moved
  moved-Mid = record {
    forwards =
        Forwards-append w.forwards b (Cell.slots ws) free (get_elem?-lt heap.cells b here) live;
    place = moved-kept i k place;
    same = λ j c e whole.
        get_elem?-set_ne h.old (Cell.slots ws) (λ same. apart j c e whole (sym same))
        ∙ w.same j c e whole;
    pending = λ j o c e ge e' whole.
        old_at o c (w.pending j o c (sym (unchanged j (apart j c e' whole)) ∙ e) ge e' whole);
    buffers = λ j o us e e'. elim (Bool-cases (j == b)) [
      | inl same ↦ (
        ws,
        ap (get_elem? (h.new ++ (Cell.slots ws ∷ []))) (at_end j o ((==_iff j b).0 same) e)
            ∙ get_elem?-append_length h.new [] (Cell.slots ws),
      )
      | inr other ↦
          (let (us', at) =
              w.buffers j o us (sym (unchanged j (λ same. absurd (ground arith))) ∙ e) e' in
            (us', old_at o (Cell.slots us') at))
    ];
    owners = λ j b' own' ne waits.
        (let (f, e) =
            w.owners j b' own'
              (subst (λ o. Waits o k) (unchanged j (Owns-apart j b' own')) waits) in
          let ne' : b' ≢ b = λ same. ne (v.owner j i b (subst (Owns heap j) same own') own) in
          (
            unchanged b' ne' ∙ f,
            get_elem?-set_ne h.old (Cell.slots ws) (λ same. ne' (sym same)) ∙ e,
          ));
    done = λ j o d e lt e'. elim (Bool-cases (j == b)) [
      | inl same ↦ absurd (omega (arith, lt, at_end j o ((==_iff j b).0 same) e, w.scanned))
      | inr other ↦
          Image-kept moved-kept old_at
            (w.done j o d (sym (unchanged j (λ same. absurd (ground arith))) ∙ e) lt e')
    ];
  }

  -- The object over its moved buffer, written back.
  module _ (t u : AType) (cap sz : ℕ)
      (fits : AllRelocated h.forwarded
        (take (used_slots t sz) vs)
        (take (used_slots t sz) ws)) where
    abbrev pub owner_at : Cell
    owner_at = Cell.vec t cap sz (Value.collectable u (length h.new))

    pub moved-Image :
        Image heap f' (set moved.new k owner_at) k (Cell.vec t cap sz (Value.collectable u b))
    moved-Image =
        let bound : k < length h.new = w.forwards.bound i k place in
        Image.vec
          (get_elem?-set_self moved.new k owner_at
            (omega (arith, bound, length-append h.new (Cell.slots ws ∷ []))))
          (update_self h.forwarded b (length h.new)) here
          (get_elem?-set_ne moved.new owner_at (λ e. absurd (omega (arith, e, bound)))
            ∙ get_elem?-append_length h.new [] (Cell.slots ws))
          (AllRelocated-kept moved-kept _ _ fits)
