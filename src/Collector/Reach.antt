-- ===== src/Collector/Reach.antt =====
-- The objects that the roots of a collection reach.
use any_vm.Base.{
  ℕ, zero, suc, ◌≡◌, refl, sym, ◌∙◌, ap, subst, Option, some, some_inj, List, [], ◌∷◌, get_elem?,
  take,
}
use any_vm.Value.{AType, Value}
use any_vm.Collector.{Cell, used_slots}
use any_vm.Collector.Heap.{
  Marked, Plain, AllPlain, Valid, IsHeap, Owns, Relocated, AllRelocated, Image,
}

-- A cell that names the object `j`. An array or a table names what the used part of its fixed buffer
-- does.
pub data Names (heap : List Cell) (j : ℕ) : Cell → Type 0 where
  element :
      {t : AType} {vs : List Value} (p : ℕ)
      → get_elem? vs p ≡ some (Value.collectable t j)
      → Names heap j (Cell.tuple vs)
  storage : {t : AType} {cap sz : ℕ} → Names heap j (Cell.buffer cap sz (Value.collectable t j))
  slots : {t u : AType} {cap sz : ℕ} → Names heap j (Cell.vec t cap sz (Value.collectable u j))
  slot :
      {t u s : AType} {cap sz b : ℕ} {vs : List Value} (p : ℕ)
      → get_elem? heap b ≡ some (Cell.slots vs)
      → get_elem? (take (used_slots t sz) vs) p ≡ some (Value.collectable s j)
      → Names heap j (Cell.vec t cap sz (Value.collectable u b))

pub data Reachable (heap : List Cell) (roots : List Value) : ℕ → Type 0 where
  root :
      {t : AType} {i : ℕ} (p : ℕ)
      → get_elem? roots p ≡ some (Value.collectable t i)
      → Reachable heap roots i
  step :
      {i j : ℕ} {c : Cell}
      → Reachable heap roots i
      → get_elem? heap i ≡ some c
      → Names heap j c
      → Reachable heap roots j

-- A heap of which every object counts as live, and one of which the reachable ones do.
abbrev pub everything : List Cell → Marked
everything heap = record { cells = heap; Live = λ i. Unit }

abbrev pub traced : List Cell → List Value → Marked
traced heap roots = record { cells = heap; Live = Reachable heap roots }

module _ (heap : List Cell) (roots : List Value) where
  Plain-traced :
      (v : Value)
      → ((t : AType) (i : ℕ) → v ≡ Value.collectable t i → Reachable heap roots i)
      → Plain (everything heap) v
      → Plain (traced heap roots) v
  Plain-traced (Value.collectable t i) live (c, here, other, _) = (c, here, other, live t i refl)
  Plain-traced Value.nil live plain = tt
  Plain-traced (Value.pid p) live plain = tt
  Plain-traced (Value.boolean b) live plain = tt
  Plain-traced (Value.integer n) live plain = tt
  Plain-traced (Value.real x) live plain = tt
  Plain-traced (Value.native_func n) live plain = tt
  Plain-traced (Value.byte_code_func n) live plain = tt

  pub AllPlain-traced :
      (vs : List Value)
      → ((t : AType) (i p : ℕ)
          → get_elem? vs p ≡ some (Value.collectable t i)
          → Reachable heap roots i)
      → AllPlain (everything heap) vs
      → AllPlain (traced heap roots) vs
  AllPlain-traced [] live all = tt
  AllPlain-traced (v ∷ vs) live (plain, all) = (
    Plain-traced v (λ t i e. live t i zero (ap some e)) plain,
    AllPlain-traced vs (λ t i p e. live t i (suc p) e) all,
  )

  Valid-traced :
      (i : ℕ) (c : Cell)
      → Reachable heap roots i
      → get_elem? heap i ≡ some c
      → Valid (everything heap) c
      → Valid (traced heap roots) c
  Valid-traced i _ live here Valid.bytes = Valid.bytes
  Valid-traced i _ live here Valid.slots = Valid.slots
  Valid-traced i _ live here (Valid.tuple {vs} all) =
      Valid.tuple (AllPlain-traced vs (λ t j p e. Reachable.step live here (Names.element p e)) all)
  Valid-traced i _ live here (Valid.buffer {cap = cap} {sz = sz} {b = b} plain) = Valid.buffer (
      Plain-traced b
        (λ t j e.
          Reachable.step live here
            (subst (λ x. Names heap j (Cell.buffer cap sz x)) (sym e) Names.storage))
        plain)
  Valid-traced i _ live here (Valid.vec {vs = vs} there _ fits all) =
      Valid.vec there (Reachable.step live here Names.slots) fits
        (AllPlain-traced _ (λ t j p e. Reachable.step live here (Names.slot p there e)) all)

  pub IsHeap-traced : IsHeap (everything heap) → IsHeap (traced heap roots)
  IsHeap-traced v = record {
    valid = λ i c live here. Valid-traced i c live here (v.valid i c tt here);
    owner = λ i j b own own'. v.owner i j b (forget own) (forget own');
  }
    where
      forget : {i b : ℕ} → Owns (traced heap roots) i b → Owns (everything heap) i b
      forget own = record {
        type = own.type;
        cap = own.cap;
        sz = own.sz;
        of = own.of;
        live = tt;
        found = own.found;
      }

-- What a relocated value names has a new place.
module _ (f : ℕ → Option ℕ) where
  AllRelocated-at :
      (vs ws : List Value) (p : ℕ) {t : AType} {i : ℕ}
      → AllRelocated f vs ws
      → get_elem? vs p ≡ some (Value.collectable t i)
      → (o : ℕ) × (f i ≡ some o)
  AllRelocated-at [] ws p all e = absurd (cc e)
  AllRelocated-at (v ∷ vs) [] p all e = elim all [ ]
  AllRelocated-at (v ∷ vs) (w ∷ ws) zero (r, all) e =
      let (o, e', _) = subst (λ x. Relocated f x w) (some_inj e) r in (o, e')
  AllRelocated-at (v ∷ vs) (w ∷ ws) (suc p) (r, all) e = AllRelocated-at vs ws p all e

  pub Image-Names :
      {heap : Marked} {new : List Cell} {o j : ℕ} {c : Cell}
      → Image heap f new o c
      → Names heap.cells j c
      → (o' : ℕ) × (f j ≡ some o')
  Image-Names (Image.bytes e) names = elim names [ ]
  Image-Names (Image.slots e) names = elim names [ ]
  Image-Names (Image.tuple {vs} {ws} e all) (Names.element p at) = AllRelocated-at vs ws p all at
  Image-Names (Image.buffer e r) Names.storage = let (o, at, _) = r in (o, at)
  Image-Names (Image.vec e at there here all) Names.slots = (_, at)
  Image-Names (Image.vec {t = t} {sz = sz} {ws = ws} e at there here all)
        (Names.slot {vs = us} p there' at') =
      AllRelocated-at (take (used_slots t sz) us) (take (used_slots t sz) ws) p
        (subst (λ x. AllRelocated f (take (used_slots t sz) x) (take (used_slots t sz) ws))
          (slots_inj (some_inj (sym there ∙ there'))) all)
        at'
    where
      slots_inj : {vs us : List Value} → Cell.slots vs ≡ Cell.slots us → vs ≡ us
      slots_inj e = cc e

-- What is copied contains the roots and what its objects name, so it contains what the roots reach.
pub Reachable-forwarded :
    {heap : List Cell} (roots roots' : List Value) {f : ℕ → Option ℕ} {new : List Cell}
    → AllRelocated f roots roots'
    → ((i o : ℕ) (c : Cell)
        → f i ≡ some o
        → get_elem? heap i ≡ some c
        → Image (traced heap roots) f new o c)
    → (i : ℕ) → Reachable heap roots i
    → (o : ℕ) × (f i ≡ some o)
Reachable-forwarded roots roots' {f} all images i (Reachable.root p e) =
    AllRelocated-at f roots roots' p all e
Reachable-forwarded roots roots' {f} all images j (Reachable.step {i = i} {c = c} live here names) =
    let (o, e) = Reachable-forwarded roots roots' all images i live in
    Image-Names f (images i o c e here) names
