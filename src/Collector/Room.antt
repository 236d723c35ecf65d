-- ===== src/Collector/Room.antt =====
-- Room in a space: what a check or a reservation finds suffices for the allocations, although these
-- round every size up.
use any_vm.Base.{
  ℕ, zero, suc, ◌+◌, ◌*◌, ◌%◌, ◌≤◌, ◌<◌, ◌≡◌, refl, subst, some_inj, ◌⊎◌, inl, inr, Bool-cases,
  Bool, ltb, leb→le, le→leb, Option, some, List, [], ◌∷◌, arith, length, ◌^◌, false, leb, true,
}
use any_vm.Errno.{AError}
use any_vm.Growth.{grow, grow_total}
use any_vm.Collector.Space.{
  Space, header_bytes, align8, agc_check, agc_alloc, agc_reserve, aactor_heap_reserve, alloc_all,
  total, EvenBefore, IsSpace,
}

align8-even : (v : ℕ) → align8 v % 8 ≡ 0
align8-even v = omega arith

align8-fits : (a v c : ℕ) → a % 8 ≡ 0 → c % 8 ≡ 0 → a + v ≤ c → a + align8 v ≤ c
align8-fits a v c ha hc h = omega arith

align8-exact : (v : ℕ) → v % 8 ≡ 0 → align8 (v + 24) ≡ v + 24
align8-exact v h = omega arith

-- One object in a space that has room for it.
alloc-fits :
    (s : Space) (sz : ℕ)
    → IsSpace s
    → s.heap_sz + (sz + header_bytes) ≤ s.heap_cap
    → (t : Space) × (agc_alloc s sz ≡ some (s.heap_sz, t))
      × IsSpace t
      × (t.heap_sz ≡ s.heap_sz + align8 (sz + header_bytes))
      × (t.heap_cap ≡ s.heap_cap)
unfolding agc_alloc
alloc-fits s sz w h =
    let fits = align8-fits s.heap_sz (sz + 24) s.heap_cap w.sz_even w.cap_even h in
    (
      record s { heap_sz = s.heap_sz + align8 (sz + 24) },
      rw (le→leb _ _ fits) refl,
      record {
        cap_even = w.cap_even;
        sz_even = omega (arith, w.sz_even);
        fits = fits;
        small = w.small;
      },
      refl,
      refl,
    )

alloc_all-fits :
    (sizes : List ℕ) (s : Space)
    → IsSpace s
    → EvenBefore sizes
    → s.heap_sz + (total sizes + length sizes * header_bytes) ≤ s.heap_cap
    → (t : Space) × (alloc_all s sizes ≡ some t) × IsSpace t
unfolding alloc_all total
alloc_all-fits [] s w even h = (s, refl, w)
alloc_all-fits (sz ∷ []) s w even h =
    let (t, e, w', _, _) = alloc-fits s sz w (omega (arith, h)) in (t, rw (e, alloc_all) refl, w')
alloc_all-fits (sz ∷ next ∷ rest) s w (even, others) h =
    let (t, e, w', used, cap) = alloc-fits s sz w (omega (arith, h)) in
    let (l, e', w'') =
      alloc_all-fits (next ∷ rest) t w' others
        (omega (arith, h, used, cap, align8-exact sz even)) in
    (l, rw (e, alloc_all) e', w'')

grow-even : (fuel cap need r : ℕ) → cap % 8 ≡ 0 → grow fuel cap need ≡ some r → r % 8 ≡ 0
unfolding grow
grow-even zero cap need r even e = elim (Bool-cases (ltb cap need)) [
  | inl more ↦ absurd (cc (rw more at e))
  | inr done ↦ subst (λ x. x % 8 ≡ 0) (some_inj (rw done at e)) even
]
grow-even (suc fuel) cap need r even e = elim (Bool-cases (ltb cap need)) [
  | inl more ↦ (elim (Bool-cases (ltb (cap * 2) (2 ^ 63))) [
    | inl below ↦ grow-even fuel (cap * 2) need r (omega (arith, even)) (rw (more, below) at e)
    | inr above ↦ absurd (cc (rw (more, above) at e))
  ])
  | inr done ↦ subst (λ x. x % 8 ≡ 0) (some_inj (rw done at e)) even
]

-- The reservation ends: either the allocator refuses and the space is as it was, or
-- there is room.
reserve-Reserved :
    (room : ℕ → Bool) (s : Space) (more n : ℕ)
    → IsSpace s
    → 0 < s.heap_cap
    → s.heap_sz + (more + n * header_bytes) ≤ 2 ^ 61
    → ((agc_reserve room s more n ≡ some (AError.full, s))
        × (bytes : ℕ) × (s.heap_sz + (more + n * header_bytes) ≤ bytes)
        × (room bytes ≡ false))
      ⊎ ((t : Space) × (agc_reserve room s more n ≡ some (AError.ok, t))
          × IsSpace t
          × (t.heap_sz ≡ s.heap_sz)
          × (s.heap_cap ≤ t.heap_cap)
          × (room (t.heap_cap * 2) ≡ true)
          × (s.heap_sz + (more + n * header_bytes) ≤ t.heap_cap))
unfolding agc_reserve
reserve-Reserved room s more n w positive bounded =
    let need = s.heap_sz + (more + n * 24) in
    let (cap, e, grown) = grow_total need s.heap_cap need positive (omega arith) (omega arith) in
    let small : cap < 2 ^ 62 = ground (arith, grown.tight, w.small) in
    let whole : leb (2 ^ 62) cap ≡ false = ground arith in
    elim (Bool-cases (room (cap * 2))) [
      | inr refused ↦ inl (
        rw (e, agc_reserve) (rw (whole, refused, agc_reserve) refl),
        cap * 2,
        omega (arith, grown.enough),
        refused,
      )
      | inl given ↦ inr (
        record s { heap_cap = cap },
        rw (e, agc_reserve) (rw (whole, given, agc_reserve) refl),
        record {
          cap_even = grow-even need s.heap_cap need cap w.cap_even e;
          sz_even = w.sz_even;
          fits = omega (arith, w.fits, grown.no_less);
          small = small;
        },
        refl,
        grown.no_less,
        given,
        grown.enough,
      )
    ]

-- What a reservation promises.
pub data Reserved (allocator : ℕ → Bool) (s : Space) (sizes : List ℕ)
    : Option (AError × Space) → Type 0 where
  refused :
      {t : Space} {bytes : ℕ}
      → t.heap_cap ≡ s.heap_cap
      → t.heap_sz ≤ s.heap_sz
      → s.heap_cap < bytes
      → allocator bytes ≡ false
      → Reserved allocator s sizes (some (AError.full, t))
  room :
      {t : Space}
      → s.heap_cap ≤ t.heap_cap
      → t.heap_sz ≤ s.heap_sz
      → (t.heap_cap ≡ s.heap_cap) ⊎ (allocator (t.heap_cap * 2) ≡ true)
      → (l : Space) × (alloc_all t sizes ≡ some l) × IsSpace l
      → Reserved allocator s sizes (some (AError.ok, t))

-- aactor_heap_reserve on a valid space above capacity 0, with what is in use and asked for at
-- most 2^61 bytes in all, ends, if a collection leaves no more bytes in use than before and a
-- multiple of 8. It comes back with AERR_FULL and the capacity of before because the allocator
-- refused a larger space, or there is room, in a space of the capacity of before or one that the
-- allocator gave: the objects can be allocated one after the other without a failed assertion,
-- although every size is then rounded up, as long as the sizes of all but the last are multiples
-- of 8, and the space stays valid.
pub aactor_heap_reserve-Reserved :
    (allocator : ℕ → Bool) (live : ℕ) (s : Space) (sizes : List ℕ)
    → IsSpace s
    → 0 < s.heap_cap
    → EvenBefore sizes
    → live ≤ s.heap_sz
    → live % 8 ≡ 0
    → s.heap_sz + (total sizes + length sizes * header_bytes) ≤ 2 ^ 61
    → Reserved allocator s sizes (aactor_heap_reserve allocator live s (total sizes) (length sizes))
unfolding aactor_heap_reserve
aactor_heap_reserve-Reserved allocator live s sizes w positive even less live_even bounded =
    elim (Bool-cases (agc_check s (total sizes) (length sizes))) [
      | inl fits ↦ rw fits (
          Reserved.room (omega arith) (omega arith) (inl refl)
            (alloc_all-fits sizes s w even (leb→le _ _ fits)))
      | inr full ↦ (elim (Bool-cases (agc_check c (total sizes) (length sizes))) [
        | inl fits ↦
            rw (full, fits)
              (Reserved.room (omega arith) less (inl refl)
                (alloc_all-fits sizes c w' even (leb→le _ _ fits)))
        | inr full' ↦
            (elim (reserve-Reserved allocator c (total sizes) (length sizes) w' positive
              (omega (arith, less, bounded))) [
                | inl (e, bytes, more, denied) ↦
                    rw (full, full', e)
                      (Reserved.refused {bytes = bytes} refl less (ground arith) denied)
                | inr (t, e, w'', same, more, given, h) ↦
                    rw (full, full', e)
                      (Reserved.room more (omega (arith, same, less)) (inr given)
                        (alloc_all-fits sizes t w'' even (omega (arith, same, h))))
              ])
      ])
    ]
  where
    c : Space
    c = record s { heap_sz = live }

    w' : IsSpace c
    w' = record {
      cap_even = w.cap_even;
      sz_even = live_even;
      fits = omega (arith, less, w.fits);
      small = w.small;
    }
