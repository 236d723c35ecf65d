-- ===== src/Collector/Forwarding.antt =====
-- The forwarding addresses when one more object is copied.
use any_vm.Base.{
  ℕ, zero, suc, ◌+◌, ◌≤◌, ◌<◌, ◌≡◌, ◌≢◌, refl, sym, ◌∙◌, ap, subst, ◌⊎◌, inl, inr, Bool-cases,
  false, ◌==◌, ==_iff, ==_self, ==_ne, Option, none, some, some_inj, List, [], ◌∷◌, ◌++◌, arith,
  length, length-append,
}
use any_vm.Collector.{Cell, update}
use any_vm.Collector.Heap.{Marked, uncopied, Forwards}

module _ (f : ℕ → Option ℕ) (i o : ℕ) where
  pub update_self : update f i o i ≡ some o
  update_self = rw (==_self i) refl

  pub update_ne : (j : ℕ) → j ≢ i → update f i o j ≡ f j
  update_ne j h = rw (==_ne h) refl

  uncopied-later : (n : ℕ) → n ≤ i → uncopied (update f i o) n ≡ uncopied f n
  unfolding uncopied
  uncopied-later zero h = refl
  uncopied-later (suc n) h =
      rw (update_ne n (λ e. absurd (omega arith)), uncopied-later n (omega arith)) refl

  pub uncopied-update : (n : ℕ) → i < n → f i ≡ none → uncopied (update f i o) n + 1 ≡ uncopied f n
  unfolding uncopied
  uncopied-update zero h free = elim h [ ]
  uncopied-update (suc n) h free = elim (Bool-cases (n == i)) [
    | inl same ↦
        (let e : n ≡ i = (==_iff n i).0 same in
          rw (ap (update f i o) e ∙ update_self, ap f e ∙ free, uncopied-later n (omega arith))
            (omega arith))
    | inr other ↦
        rw (update_ne n (λ e. absurd (ground arith)))
          (omega (arith, uncopied-update n (ground arith) free))
  ]

-- A free object is added to the new space.
module _ {heap : Marked} {f : ℕ → Option ℕ} {new : List Cell} (w : Forwards heap f new) (i : ℕ)
    (c : Cell) (free : f i ≡ none) (here : i < length heap.cells) (live : heap.Live i) where
  abbrev o : ℕ
  o = length new

  old_or_new : (j p : ℕ) → update f i o j ≡ some p → (j ≡ i) × (p ≡ o) ⊎ (j ≢ i) × (f j ≡ some p)
  old_or_new j p e = elim (Bool-cases (j == i)) [
    | inl same ↦ inl ((==_iff j i).0 same, sym (some_inj (rw same at e)))
    | inr other ↦ inr ((λ h. absurd (ground arith)), rw other at e)
  ]

  free-ne : (j p : ℕ) → f j ≡ some p → j ≢ i
  free-ne j p e h = none-ne-some (sym free ∙ ap f (sym h) ∙ e)
    where
      none-ne-some : {p : ℕ} → none ≡ some p → ⊥
      none-ne-some e = cc e

  pub Forwards-append : Forwards heap (update f i o) (new ++ (c ∷ []))
  Forwards-append = record {
    inside = λ j p e. elim (old_or_new j p e) [
      | inl (same, _) ↦ omega (arith, same)
      | inr (_, e') ↦ w.inside j p e'
    ];
    live = λ j p e. elim (old_or_new j p e) [
      | inl (same, _) ↦ subst heap.Live (sym same) live
      | inr (_, e') ↦ w.live j p e'
    ];
    bound = λ j p e. elim (old_or_new j p e) [
      | inl (_, same) ↦ omega (arith, same, length-append new (c ∷ []))
      | inr (_, e') ↦ omega (arith, w.bound j p e', length-append new (c ∷ []))
    ];
    source = λ p lt. elim (Bool-cases (p == o)) [
      | inl same ↦ (i, update_self f i o ∙ ap some (sym ((==_iff p o).0 same)))
      | inr other ↦
          (let (j, e) = w.source p (before p other lt) in
            (j, update_ne f i o j (free-ne j p e) ∙ e))
    ];
    injective = λ j k p e e'. elim (old_or_new j p e) [
      | inl (same, at_end) ↦ (elim (old_or_new k p e') [
        | inl (same', _) ↦ same ∙ sym same'
        | inr (_, e'') ↦ absurd (omega (arith, at_end, w.bound k p e''))
      ])
      | inr (_, e'') ↦ (elim (old_or_new k p e') [
        | inl (_, at_end) ↦ absurd (omega (arith, at_end, w.bound j p e''))
        | inr (_, e''') ↦ w.injective j k p e'' e'''
      ])
    ];
    count = omega (
      arith,
      uncopied-update f i o (length heap.cells) here free,
      length-append new (c ∷ []),
      w.count,
    );
  }
    where
      before : (p : ℕ) → (p == o) ≡ false → p < length (new ++ (c ∷ [])) → p < o
      before p other lt = ground (arith, length-append new (c ∷ []))
