-- ===== src/Collector/Scan.antt =====
-- Scanning one object keeps the invariant of the collector.
use any_vm.Base.{
  ℕ, suc, ◌≤◌, ◌<◌, ◌≡◌, refl, sym, ◌∙◌, ap, subst, inl, inr, Bool-cases, ◌==◌, ==_iff, Option,
  some, some_inj, List, ◌++◌, arith, le→leb, length, length-take, get_elem?, get_elem?-lt,
  get_elem?-some, get_elem?-set_self, take, drop, take-append_length,
}
use any_vm.Value.{AType, Value}
use any_vm.Collector.{Cell, Gc, copy, copy_slots, copy_buff, scan_cell, put_new, used_slots}
use any_vm.Collector.Heap.{Marked, Plain, AllPlain, AllRelocated, Valid, Owns, IsHeap, Image}
use any_vm.Collector.Invariant.{Waits, Inv}
use any_vm.Collector.Copy.{copy-Copied, copy_all-Copied}
use any_vm.Collector.Advance.{Mid-Inv, Waits-suc, advance}
use any_vm.Collector.Storage.{
  AllRelocated-length, moved, moved-Mid, owner_at, moved-Image, moved-kept,
}

-- What scanning the object number `k` gives.
pub record Scanned (heap : Marked) (k : ℕ) (g : Gc) (result : Option Gc) : Type 0 where
  pub after : Gc
  pub returned : result ≡ some after
  pub inv : Inv heap (suc k) after
  pub kept : (i o : ℕ) → g.forwarded i ≡ some o → after.forwarded i ≡ some o

-- An object that names no other one is scanned as it stands.
module _ {heap : Marked} {k i : ℕ} {g : Gc} (w : Inv heap k g) (c : Cell)
    (place : g.forwarded i ≡ some k) (here : get_elem? heap.cells i ≡ some c)
    (image : Image heap g.forwarded g.new k c) where
  Inv-suc : Inv heap (suc k) g
  Inv-suc = record {
    forwards = w.forwards;
    scanned = w.forwards.bound i k place;
    same = w.same;
    pending = λ j o d e ge. w.pending j o d e (omega (arith, ge));
    buffers = w.buffers;
    owners = λ j b own waits. w.owners j b own (Waits-suc (g.forwarded j) k waits);
    done = λ j o d e lt e'. elim (Bool-cases (o == k)) [
      | inl same ↦
          (let at : o ≡ k = (==_iff o k).0 same in
            let twin : j ≡ i = w.forwards.injective j i k (e ∙ ap some at) place in
            subst (λ x. Image heap g.forwarded g.new x d) (sym at)
              (subst (Image heap g.forwarded g.new k)
                (some_inj (sym here ∙ ap (get_elem? heap.cells) (sym twin) ∙ e')) image))
      | inr other ↦ w.done j o d e (ground arith) e'
    ];
  }

module _ {heap : Marked} (v : IsHeap heap) {k i : ℕ} {g : Gc} (w : Inv heap k g)
    (place : g.forwarded i ≡ some k) where
  scan_cell-tuple :
      (vs : List Value)
      → get_elem? heap.cells i ≡ some (Cell.tuple vs)
      → AllPlain heap vs
      → Scanned heap k g (scan_cell k (Cell.tuple vs) g)
  unfolding scan_cell
  scan_cell-tuple vs here all =
      let (vs', h, e, copied, moved) = copy_all-Copied v vs g all w in
      let at = copied.grows.kept i k place in
      record {
        after = put_new k (Cell.tuple vs') h;
        returned = rw (e, scan_cell) refl;
        inv = advance (Mid-Inv copied.inv at) (Cell.tuple vs) (Cell.tuple vs') here tt (
            Image.tuple
              (get_elem?-set_self h.new k (Cell.tuple vs') (copied.inv.forwards.bound i k at))
              moved);
        kept = copied.grows.kept;
      }

  scan_cell-buffer :
      (cap sz : ℕ) (b : Value)
      → get_elem? heap.cells i ≡ some (Cell.buffer cap sz b)
      → Plain heap b
      → Scanned heap k g (scan_cell k (Cell.buffer cap sz b) g)
  unfolding scan_cell copy_buff
  scan_cell-buffer cap sz b here plain =
      let (b', h, e, copied, moved) = copy-Copied v b g plain w in
      let at = copied.grows.kept i k place in
      record {
        after = put_new k (Cell.buffer cap sz b') h;
        returned = rw (e, scan_cell, copy_buff) refl;
        inv =
            advance (Mid-Inv copied.inv at) (Cell.buffer cap sz b) (Cell.buffer cap sz b') here tt (
              Image.buffer
                (get_elem?-set_self h.new k (Cell.buffer cap sz b')
                  (copied.inv.forwards.bound i k at))
                moved);
        kept = copied.grows.kept;
      }

  scan_cell-vec :
      (t u : AType) (cap sz b : ℕ) (vs : List Value)
      → get_elem? heap.cells i ≡ some (Cell.vec t cap sz (Value.collectable u b))
      → get_elem? heap.cells b ≡ some (Cell.slots vs)
      → heap.Live b
      → used_slots t sz ≤ length vs
      → AllPlain heap (take (used_slots t sz) vs)
      → Scanned heap k g (scan_cell k (Cell.vec t cap sz (Value.collectable u b)) g)
  unfolding scan_cell copy_slots copy_buff copy
  scan_cell-vec t u cap sz b vs here there live fits all =
      let n = used_slots t sz in
      let own : Owns heap i b = record {
        type = t;
        cap = cap;
        sz = sz;
        of = u;
        live = w.forwards.live i k place;
        found = here;
      } in
      let (free, old) = w.owners i b own (subst (λ o. Waits o k) (sym place) (omega arith)) in
      let (vs', h, e, copied, relocated) = copy_all-Copied v (take n vs) g all w in
      let ws = vs' ++ drop n vs in
      let at = copied.grows.kept i k place in
      let free' = copied.grows.slots b vs there ∙ free in
      let whole : length vs' ≡ n = omega (
        arith,
        AllRelocated-length h.forwarded (take n vs) vs' relocated,
        length-take n vs,
        fits,
      ) in
      let front : take n ws ≡ vs' =
        subst (λ m. take m ws ≡ vs') whole (take-append_length vs' (drop n vs)) in
      let images = subst (AllRelocated h.forwarded (take n vs)) (sym front) relocated in
      let stored =
        get_elem?-set_self h.old b (Cell.slots ws)
          (get_elem?-lt h.old b (ap (λ l. get_elem? l b) copied.grows.old ∙ old ∙ there)) in
      record {
        after =
            put_new k (owner_at v copied.inv own at free' vs ws there live t u cap sz images)
              (moved v copied.inv own at free' vs ws there live);
        returned =
            rw (old, there, scan_cell)
              (rw (le→leb n (length vs) fits, e, copy_slots)
                (rw (stored, free', copy_buff, copy) refl));
        inv =
            advance (moved-Mid v copied.inv own at free' vs ws there live) _ _ here tt
              (moved-Image v copied.inv own at free' vs ws there live t u cap sz images);
        kept = λ j o e'.
            (moved-kept v copied.inv own at free' vs ws there live) j o (copied.grows.kept j o e');
      }

  at_k :
      (c : Cell)
      → get_elem? heap.cells i ≡ some c
      → Valid heap c
      → (c' : Cell) × (get_elem? g.new k ≡ some c') × Scanned heap k g (scan_cell k c' g)
  unfolding scan_cell
  at_k _ here (Valid.bytes {bs}) =
      let at = w.pending i k (Cell.bytes bs) place (omega arith) here tt in
      (
        Cell.bytes bs,
        at,
        record {
          after = g;
          returned = refl;
          inv = Inv-suc w (Cell.bytes bs) place here (Image.bytes at);
          kept = λ j o e. e;
        },
      )
  at_k _ here (Valid.slots {vs}) =
      let (ws, at) = w.buffers i k vs place here in
      (
        Cell.slots ws,
        at,
        record {
          after = g;
          returned = refl;
          inv = Inv-suc w (Cell.slots vs) place here (Image.slots at);
          kept = λ j o e. e;
        },
      )
  at_k _ here (Valid.tuple {vs} all) = (
    Cell.tuple vs,
    w.pending i k (Cell.tuple vs) place (omega arith) here tt,
    scan_cell-tuple vs here all,
  )
  at_k _ here (Valid.buffer {cap = cap} {sz = sz} {b = b} plain) = (
    Cell.buffer cap sz b,
    w.pending i k (Cell.buffer cap sz b) place (omega arith) here tt,
    scan_cell-buffer cap sz b here plain,
  )
  at_k _ here
        (Valid.vec {t = t} {u = u} {cap = cap} {sz = sz} {b = b} {vs = vs} there live fits all) =
      (
        _,
        w.pending i k (Cell.vec t cap sz (Value.collectable u b)) place (omega arith) here tt,
        scan_cell-vec t u cap sz b vs here there live fits all,
      )

pub scan_cell-Scanned :
    {heap : Marked} (v : IsHeap heap) {k : ℕ} {g : Gc}
    → Inv heap k g
    → k < length g.new
    → (c : Cell) × (get_elem? g.new k ≡ some c) × Scanned heap k g (scan_cell k c g)
scan_cell-Scanned {heap} v {k} w h =
    let (i, place) = w.forwards.source k h in
    let (c, here) = get_elem?-some heap.cells i (w.forwards.inside i k place) in
    at_k v w place c here (v.valid i c (w.forwards.live i k place) here)
