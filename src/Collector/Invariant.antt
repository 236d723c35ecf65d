-- ===== src/Collector/Invariant.antt =====
-- The invariant of the collector: with `k` objects scanned, the others stand in the new space as in
-- the heap, and a fixed buffer is not touched before its owner is scanned.
use any_vm.Base.{ℕ, ◌≤◌, ◌<◌, ◌≡◌, refl, ◌∙◌, Option, none, some, List, [], ◌∷◌, length, get_elem?}
use any_vm.Value.{Value}
use any_vm.Collector.{Cell, Gc}
use any_vm.Collector.Heap.{Marked, NotSlots, Relocated, AllRelocated, Owns, Image, Forwards}

-- The object that a forwarding address stands for is still to be scanned.
abbrev pub Waits : Option ℕ → ℕ → Type 0
Waits none k = Unit
Waits (some o) k = k ≤ o

pub record Inv (heap : Marked) (k : ℕ) (g : Gc) : Type 0 where
  pub forwards : Forwards heap g.forwarded g.new
  pub scanned : k ≤ length g.new
  pub same :
      (i : ℕ) (c : Cell) → get_elem? heap.cells i ≡ some c → NotSlots c → get_elem? g.old i ≡ some c
  pub pending :
      (i o : ℕ) (c : Cell)
      → g.forwarded i ≡ some o
      → k ≤ o
      → get_elem? heap.cells i ≡ some c
      → NotSlots c
      → get_elem? g.new o ≡ some c
  pub buffers :
      (i o : ℕ) (vs : List Value)
      → g.forwarded i ≡ some o
      → get_elem? heap.cells i ≡ some (Cell.slots vs)
      → (ws : List Value) × (get_elem? g.new o ≡ some (Cell.slots ws))
  pub owners :
      (i b : ℕ)
      → Owns heap i b
      → Waits (g.forwarded i) k
      → (g.forwarded b ≡ none) × (get_elem? g.old b ≡ get_elem? heap.cells b)
  pub done :
      (i o : ℕ) (c : Cell)
      → g.forwarded i ≡ some o
      → o < k
      → get_elem? heap.cells i ≡ some c
      → Image heap g.forwarded g.new o c

-- What a number of copies does: it only adds, and touches no fixed buffer.
pub record Grows (heap : Marked) (g h : Gc) : Type 0 where
  pub old : h.old ≡ g.old
  pub kept : (i o : ℕ) → g.forwarded i ≡ some o → h.forwarded i ≡ some o
  pub new : (o : ℕ) (c : Cell) → get_elem? g.new o ≡ some c → get_elem? h.new o ≡ some c
  pub slots :
      (i : ℕ) (vs : List Value)
      → get_elem? heap.cells i ≡ some (Cell.slots vs)
      → h.forwarded i ≡ g.forwarded i

pub Grows-refl : (heap : Marked) (g : Gc) → Grows heap g g
Grows-refl heap g = record {
  old = refl;
  kept = λ i o e. e;
  new = λ o c e. e;
  slots = λ i vs e. refl;
}

pub Grows-trans : {heap : Marked} {g h l : Gc} → Grows heap g h → Grows heap h l → Grows heap g l
Grows-trans p q = record {
  old = q.old ∙ p.old;
  kept = λ i o e. q.kept i o (p.kept i o e);
  new = λ o c e. q.new o c (p.new o c e);
  slots = λ i vs e. q.slots i vs e ∙ p.slots i vs e;
}

module _ {f f' : ℕ → Option ℕ} (kept : (i o : ℕ) → f i ≡ some o → f' i ≡ some o) where
  pub Relocated-kept : (v w : Value) → Relocated f v w → Relocated f' v w
  Relocated-kept (Value.collectable t i) w (o, e, e') = (o, kept i o e, e')
  Relocated-kept Value.nil w e = e
  Relocated-kept (Value.pid p) w e = e
  Relocated-kept (Value.boolean b) w e = e
  Relocated-kept (Value.integer n) w e = e
  Relocated-kept (Value.real x) w e = e
  Relocated-kept (Value.native_func n) w e = e
  Relocated-kept (Value.byte_code_func n) w e = e

  pub AllRelocated-kept : (vs ws : List Value) → AllRelocated f vs ws → AllRelocated f' vs ws
  AllRelocated-kept [] [] all = tt
  AllRelocated-kept [] (_ ∷ ws) all = elim all [ ]
  AllRelocated-kept (_ ∷ vs) [] all = elim all [ ]
  AllRelocated-kept (v ∷ vs) (w ∷ ws) (r, all) = (Relocated-kept v w r, AllRelocated-kept vs ws all)

  pub Image-kept :
      {heap : Marked} {new new' : List Cell} {o : ℕ} {c : Cell}
      → ((p : ℕ) (d : Cell) → get_elem? new p ≡ some d → get_elem? new' p ≡ some d)
      → Image heap f new o c
      → Image heap f' new' o c
  Image-kept same (Image.bytes e) = Image.bytes (same _ _ e)
  Image-kept same (Image.slots e) = Image.slots (same _ _ e)
  Image-kept same (Image.tuple {vs} {ws} e all) =
      Image.tuple (same _ _ e) (AllRelocated-kept vs ws all)
  Image-kept same (Image.buffer {b = b} {b' = b'} e r) =
      Image.buffer (same _ _ e) (Relocated-kept b b' r)
  Image-kept same (Image.vec e e' here there all) =
      Image.vec (same _ _ e) (kept _ _ e') here (same _ _ there) (AllRelocated-kept _ _ all)
