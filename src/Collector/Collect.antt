-- ===== src/Collector/Collect.antt =====
-- A whole collection, from the roots to the last object.
use any_vm.Base.{
  ℕ, zero, suc, ◌+◌, ◌≤◌, ◌<◌, ◌≡◌, refl, subst, inl, inr, Option-cases, Option, none, some, List,
  [], ◌∷◌, arith, length, get_elem?, get_elem?-lt,
}
use any_vm.Value.{Value}
use any_vm.Collector.{Cell, Gc, scan_all, collect}
use any_vm.Collector.Heap.{Marked, AllPlain, AllRelocated, IsHeap, Image, uncopied}
use any_vm.Collector.Invariant.{Inv, AllRelocated-kept}
use any_vm.Collector.Copy.{copy_all-Copied}
use any_vm.Collector.Scan.{scan_cell-Scanned}
use any_vm.Collector.Reach.{
  Reachable, everything, traced, AllPlain-traced, IsHeap-traced, Reachable-forwarded,
}

-- What a finished collection leaves: the objects of the new space are the images of the reachable
-- ones, each in its own place.
pub record Collected (heap : List Cell) (roots roots' : List Value) (g : Gc) : Type 0 where
  pub moved : AllRelocated g.forwarded roots roots'
  pub images :
      (i o : ℕ) (c : Cell)
      → g.forwarded i ≡ some o
      → get_elem? heap i ≡ some c
      → Image (traced heap roots) g.forwarded g.new o c
  pub injective : (i j o : ℕ) → g.forwarded i ≡ some o → g.forwarded j ≡ some o → i ≡ j
  pub source : (o : ℕ) → o < length g.new → (i : ℕ) × (g.forwarded i ≡ some o)
  pub bound : (i o : ℕ) → g.forwarded i ≡ some o → (i < length heap) × (o < length g.new)
  pub smaller : length g.new ≤ length heap
  pub copied : (i : ℕ) → Reachable heap roots i → (o : ℕ) × (g.forwarded i ≡ some o)
  pub reached : (i o : ℕ) → g.forwarded i ≡ some o → Reachable heap roots i

-- Everything is scanned.
pub record Finished (heap : Marked) (g : Gc) (result : Option Gc) : Type 0 where
  pub after : Gc
  pub returned : result ≡ some after
  pub inv : Inv heap (length after.new) after
  pub kept : (i o : ℕ) → g.forwarded i ≡ some o → after.forwarded i ≡ some o

get_elem?-none {ℓ} : {A : Type ℓ} (xs : List A) (i : ℕ) → get_elem? xs i ≡ none → length xs ≤ i
get_elem?-none [] i e = omega arith
get_elem?-none (x ∷ xs) zero e = absurd (cc e)
get_elem?-none (x ∷ xs) (suc i) e = omega (arith, get_elem?-none xs i e)

module _ {heap : Marked} (v : IsHeap heap) where
  scan_all-Finished :
      (fuel k : ℕ) (g : Gc)
      → length heap.cells < fuel + k
      → Inv heap k g
      → Finished heap g (scan_all fuel k g)
  unfolding scan_all
  scan_all-Finished zero k g h w = absurd (omega (arith, h, w.scanned, w.forwards.count))
  scan_all-Finished (suc fuel) k g h w = elim (Option-cases (get_elem? g.new k)) [
    | inl e ↦ record {
      after = g;
      returned = rw (e, scan_all) refl;
      inv = subst (λ n. Inv heap n g) (at_end e) w;
      kept = λ i o e'. e';
    }
    | inr (c, e) ↦
        (let (c', e', s) = scan_cell-Scanned v w (get_elem?-lt g.new k e) in
          let rest = scan_all-Finished fuel (suc k) s.after (omega (arith, h)) s.inv in
          record {
            after = rest.after;
            returned = rw (e', scan_all) (rw (s.returned, scan_all) rest.returned);
            inv = rest.inv;
            kept = λ i o e''. rest.kept i o (s.kept i o e'');
          })
  ]
    where
      at_end : get_elem? g.new k ≡ none → k ≡ length g.new
      at_end e = omega (arith, get_elem?-none g.new k e, w.scanned)

module _ (heap : Marked) where
  abbrev start : Gc
  start = record { old = heap.cells; forwarded = λ i. none; new = [] }

  uncopied-none : (n : ℕ) → uncopied (λ i. none) n ≡ n
  unfolding uncopied
  uncopied-none zero = refl
  uncopied-none (suc n) = omega (arith, uncopied-none n)

  no_place {ℓ} : {A : Type ℓ} {o : ℕ} → none ≡ some o → A
  no_place e = absurd (cc e)

  Inv-start : Inv heap 0 start
  Inv-start = record {
    forwards = record {
      inside = λ i o e. no_place e;
      live = λ i o e. no_place e;
      bound = λ i o e. no_place e;
      source = λ o h. elim h [ ];
      injective = λ i j o e. no_place e;
      count = omega (arith, uncopied-none (length heap.cells));
    };
    scanned = omega arith;
    same = λ i c e whole. e;
    pending = λ i o c e. no_place e;
    buffers = λ i o vs e. no_place e;
    owners = λ i b own waits. (refl, refl);
    done = λ i o c e. no_place e;
  }

-- agc_collect on a valid heap and roots ends. The new space holds one image of every object that
-- the roots reach and of no other one, each in a place of its own, with every reference moved to
-- the image of what it named, and the roots are moved likewise.
pub collect-Collected :
    (heap : List Cell) (roots : List Value)
    → IsHeap (everything heap)
    → AllPlain (everything heap) roots
    → (roots' : List Value) × (g : Gc) × (collect heap roots ≡ some (roots', g))
      × Collected heap roots roots' g
unfolding collect
collect-Collected heap roots valid plain =
    let v = IsHeap-traced heap roots valid in
    let all = AllPlain-traced heap roots roots (λ t i p e. Reachable.root p e) plain in
    let (roots', g, e, copied, moved) =
      copy_all-Copied v roots (start (traced heap roots)) all (Inv-start (traced heap roots)) in
    let s = scan_all-Finished v (suc (length heap)) 0 g (omega arith) copied.inv in
    let moved' = AllRelocated-kept s.kept roots roots' moved in
    let f = s.inv.forwards in
    let images = λ (i o : ℕ) (c : Cell) (e' : s.after.forwarded i ≡ some o).
      s.inv.done i o c e' (f.bound i o e') in
    (
      roots',
      s.after,
      rw (e, collect) (rw (s.returned, collect) refl),
      record {
        moved = moved';
        images = images;
        injective = f.injective;
        source = f.source;
        bound = λ i o e'. (f.inside i o e', f.bound i o e');
        smaller = omega (arith, f.count);
        copied = Reachable-forwarded roots roots' moved' images;
        reached = f.live;
      },
    )
