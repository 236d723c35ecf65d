-- ===== src/Collector/After.antt =====
-- The new space after a collection.
use any_vm.Base.{
  ℕ, ◌≤◌, ◌<◌, ◌≡◌, sym, ◌∙◌, ap, subst, some, some_inj, List, [], ◌∷◌, arith, length, length-take,
  get_elem?, get_elem?-lt, get_elem?-some, take,
}
use any_vm.Value.{AType, Value}
use any_vm.Collector.{Cell, Gc, used_slots, collect}
use any_vm.Collector.Heap.{
  NotSlots, Plain, AllPlain, Relocated, AllRelocated, Valid, Owns, IsHeap, Image,
}
use any_vm.Collector.Storage.{AllRelocated-length}
use any_vm.Collector.Reach.{everything, traced}
use any_vm.Collector.Collect.{Collected, collect-Collected}

module _ {heap : List Cell} {roots roots' : List Value} {g : Gc} (v : IsHeap (everything heap))
    (w : Collected heap roots roots' g) where
  -- What an image of an object is, except its contents.
  Image-whole :
      (o : ℕ) (c : Cell)
      → NotSlots c
      → Image (traced heap roots) g.forwarded g.new o c
      → (d : Cell) × (get_elem? g.new o ≡ some d) × NotSlots d
  Image-whole o _ whole (Image.bytes e) = (_, e, tt)
  Image-whole o _ whole (Image.slots e) = elim whole [ ]
  Image-whole o _ whole (Image.tuple e all) = (_, e, tt)
  Image-whole o _ whole (Image.buffer e r) = (_, e, tt)
  Image-whole o _ whole (Image.vec e _ _ _ _) = (_, e, tt)

  Plain-after :
      (x y : Value)
      → Plain (everything heap) x
      → Relocated g.forwarded x y
      → Plain (everything g.new) y
  Plain-after (Value.collectable t i) y (c, here, whole, _) (o, at, e) =
      let (d, there, whole') = Image-whole o c whole (w.images i o c at here) in
      subst (Plain (everything g.new)) (sym e) (d, there, whole', tt)
  Plain-after Value.nil y plain e = subst (Plain (everything g.new)) (sym e) tt
  Plain-after (Value.pid p) y plain e = subst (Plain (everything g.new)) (sym e) tt
  Plain-after (Value.boolean b) y plain e = subst (Plain (everything g.new)) (sym e) tt
  Plain-after (Value.integer n) y plain e = subst (Plain (everything g.new)) (sym e) tt
  Plain-after (Value.real x) y plain e = subst (Plain (everything g.new)) (sym e) tt
  Plain-after (Value.native_func n) y plain e = subst (Plain (everything g.new)) (sym e) tt
  Plain-after (Value.byte_code_func n) y plain e = subst (Plain (everything g.new)) (sym e) tt

  AllPlain-after :
      (xs ys : List Value)
      → AllPlain (everything heap) xs
      → AllRelocated g.forwarded xs ys
      → AllPlain (everything g.new) ys
  AllPlain-after [] [] plain all = tt
  AllPlain-after [] (_ ∷ ys) plain all = elim all [ ]
  AllPlain-after (_ ∷ xs) [] plain all = elim all [ ]
  AllPlain-after (x ∷ xs) (y ∷ ys) (p, plain) (r, all) =
      (Plain-after x y p r, AllPlain-after xs ys plain all)

  Valid-after :
      (o : ℕ) (c : Cell)
      → Valid (everything heap) c
      → Image (traced heap roots) g.forwarded g.new o c
      → (d : Cell) × (get_elem? g.new o ≡ some d) × Valid (everything g.new) d
  Valid-after o _ valid (Image.bytes e) = (_, e, Valid.bytes)
  Valid-after o _ valid (Image.slots e) = (_, e, Valid.slots)
  Valid-after o _ (Valid.tuple plain) (Image.tuple e all) =
      (_, e, Valid.tuple (AllPlain-after _ _ plain all))
  Valid-after o _ (Valid.buffer plain) (Image.buffer e r) =
      (_, e, Valid.buffer (Plain-after _ _ plain r))
  Valid-after o _ (Valid.vec {t = t} {sz = sz} {vs = vs} here _ fits plain)
        (Image.vec {vs = us} {ws = ws} e at here' there all) =
      let same : us ≡ vs = slots_inj (some_inj (sym here' ∙ here)) in
      let all' =
        subst (λ x. AllRelocated g.forwarded (take (used_slots t sz) x) (take (used_slots t sz) ws))
          same all in
      (
        _,
        e,
        Valid.vec there tt
            (omega (
              arith,
              AllRelocated-length g.forwarded _ _ all',
              length-take (used_slots t sz) vs,
              length-take (used_slots t sz) ws,
              fits,
            ))
            (AllPlain-after _ _ plain all'),
      )
    where
      slots_inj : {vs us : List Value} → Cell.slots vs ≡ Cell.slots us → vs ≡ us
      slots_inj e = cc e

  -- The object of the heap that stands at a place of the new space.
  abbrev Origin : ℕ → Type 0
  Origin o =
      (i : ℕ) × (c : Cell) × (get_elem? heap i ≡ some c)
      × (g.forwarded i ≡ some o)
      × Image (traced heap roots) g.forwarded g.new o c

  origin : (o : ℕ) → o < length g.new → Origin o
  origin o h =
      let (i, at) = w.source o h in
      let (c, here) = get_elem?-some heap i (w.bound i o at).0 in
      (i, c, here, at, w.images i o c at here)

  -- An array or a table of the new space is the image of one, and its buffer of that one's.
  Owns-origin :
      (o b : ℕ) (c : Cell) (i : ℕ)
      → Owns (everything g.new) o b
      → get_elem? heap i ≡ some c
      → Image (traced heap roots) g.forwarded g.new o c
      → (a : ℕ) × Owns (everything heap) i a × (g.forwarded a ≡ some b)
  Owns-origin o b _ i own here (Image.bytes e) = absurd (cc (sym own.found ∙ e))
  Owns-origin o b _ i own here (Image.slots e) = absurd (cc (sym own.found ∙ e))
  Owns-origin o b _ i own here (Image.tuple e all) = absurd (cc (sym own.found ∙ e))
  Owns-origin o b _ i own here (Image.buffer e r) = absurd (cc (sym own.found ∙ e))
  Owns-origin o b _ i own here
        (Image.vec {t = t} {u = u} {cap = cap} {sz = sz} {b = a} {b' = b'} e at there there' all) =
      (
        a,
        record { type = t; cap = cap; sz = sz; of = u; live = tt; found = here },
        at ∙ ap some (storage_inj (some_inj (sym e ∙ own.found))),
      )
    where
      storage_inj :
          {t t' u u' : AType} {m m' n n' b b' : ℕ}
          → Cell.vec t m n (Value.collectable u b) ≡ Cell.vec t' m' n' (Value.collectable u' b')
          → b ≡ b'
      storage_inj e = cc e

  pub IsHeap-after : IsHeap (everything g.new)
  IsHeap-after = record {
    valid = λ o d live there.
        (let (i, c, here, at, image) = origin o (get_elem?-lt g.new o there) in
          let (d', there', valid) = Valid-after o c (v.valid i c tt here) image in
          subst (Valid (everything g.new)) (some_inj (sym there' ∙ there)) valid);
    owner = λ o p b own own'.
        (let (i, c, here, at, image) = origin o (get_elem?-lt g.new o own.found) in
          let (j, c', here', at', image') = origin p (get_elem?-lt g.new p own'.found) in
          let (a, owns, to) = Owns-origin o b c i own here image in
          let (a', owns', to') = Owns-origin p b c' j own' here' image' in
          let same : a ≡ a' = w.injective a a' b to to' in
          let twin : i ≡ j = v.owner i j a' (subst (Owns (everything heap) i) same owns) owns' in
          some_inj (sym at ∙ ap g.forwarded twin ∙ at'));
  }

-- A collection of a valid heap ends and leaves a valid heap that is not larger, in which no two
-- arrays or tables share a fixed buffer, and roots that name objects of it.
pub collect-IsHeap :
    (heap : List Cell) (roots : List Value)
    → IsHeap (everything heap)
    → AllPlain (everything heap) roots
    → (roots' : List Value) × (g : Gc) × (collect heap roots ≡ some (roots', g))
      × (length g.new ≤ length heap)
      × IsHeap (everything g.new)
      × AllPlain (everything g.new) roots'
collect-IsHeap heap roots v plain =
    let (roots', g, e, w) = collect-Collected heap roots v plain in
    (roots', g, e, w.smaller, IsHeap-after v w, AllPlain-after v w roots roots' plain w.moved)
