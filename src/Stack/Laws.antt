-- ===== src/Stack/Laws.antt =====
-- A stack keeps its capacity in step with its storage, and a reservation that succeeds makes room
-- and keeps the values.
use any_vm.Base.{
  ℕ, ◌+◌, ◌-◌, ◌*◌, ◌^◌, ◌≤◌, ◌<◌, ◌≡◌, refl, Bool, true, false, ltb, ◌⊎◌, inl, inr, some, List,
  arith, leb, Bool-cases, length, replicate, length-append, length-replicate, get_elem?,
  get_elem?-append_left,
}
use any_vm.Errno.{AError}
use any_vm.Growth.{grow_total, Grown}
use any_vm.Value.{Value}
use any_vm.Stack.{Stack, realloc, reserve, init, value_bytes, given}

pub record IsStack (s : Stack) : Type 0 where
  pub storage : length s.v ≡ s.cap
  pub used : s.sp ≤ s.cap
  pub pos : 0 < s.cap
  pub small : s.cap < 2 ^ 59

pub length-realloc : (v : List Value) (cap : ℕ) → length v ≤ cap → length (realloc v cap) ≡ cap
length-realloc v cap h = omega (
  arith,
  length-append v (replicate (cap - length v) Value.nil),
  length-replicate (cap - length v) Value.nil,
)

-- What a reservation that succeeds leaves: a valid stack with room for `more` values, the pointer
-- and the values kept; untouched if there was room.
pub record Reserved (s : Stack) (more : ℕ) (t : Stack) : Type 0 where
  pub valid : IsStack t
  pub sp : t.sp ≡ s.sp
  pub room : t.sp + more ≤ t.cap
  pub no_less : s.cap ≤ t.cap
  pub kept : (i : ℕ) → i < s.cap → get_elem? t.v i ≡ get_elem? s.v i
  pub untouched : s.sp + more ≤ s.cap → t ≡ s

-- Where a reservation grows the stack `s`, the allocator was asked for the capacity `c`.
pub record Asked (alloc : ℕ → Bool) (s : Stack) (more c : ℕ) (answer : Bool) : Type 0 where
  pub short : s.cap < s.sp + more
  pub enough : s.sp + more ≤ c
  pub tight : c < 2 * (s.sp + more)
  pub answered : given alloc (value_bytes * c) ≡ answer

given-below : (alloc : ℕ → Bool) (c : ℕ) → given alloc (value_bytes * c) ≡ true → c < 2 ^ 59
given-below alloc c met = elim (Bool-cases (ltb (value_bytes * c) (2 ^ 63))) [
  | inl less ↦ ground arith
  | inr more ↦ absurd (cc (rw more at met))
]

module _ (alloc : ℕ → Bool) {s : Stack} (more : ℕ) (v : IsStack s) where
  Reserved-room : s.sp + more ≤ s.cap → Reserved s more s
  Reserved-room h = record {
    valid = v;
    sp = refl;
    room = h;
    no_less = omega arith;
    kept = λ i lt. refl;
    untouched = λ _. refl;
  }

  Reserved-Grown :
      (c : ℕ)
      → Grown s.cap (s.sp + more) c
      → s.cap < s.sp + more
      → c < 2 ^ 59
      → Reserved s more (record s { v = realloc s.v c; cap = c })
  Reserved-Grown c g short below = record {
    valid = record {
      storage = length-realloc s.v c (omega arith);
      used = omega arith;
      pos = omega arith;
      small = below;
    };
    sp = refl;
    room = g.enough;
    no_less = g.no_less;
    kept = λ i lt. get_elem?-append_left s.v _ i (omega arith);
    untouched = λ h. absurd (omega arith);
  }

  -- astack_reserve on a valid stack ends, for at most 2^59 values in all. Either it makes room
  -- for the values asked, with a valid stack, the pointer and all values kept, and nothing is
  -- changed or the allocator has given an array of less than twice the need; or there is no room,
  -- the allocator refuses such an array, and AERR_FULL comes back with the stack unchanged.
  pub reserve-Reserved :
      s.sp + more ≤ 2 ^ 59
      → ((reserve alloc s more ≡ some (AError.full, s)) × (c : ℕ) × Asked alloc s more c false)
        ⊎ ((t : Stack) × (reserve alloc s more ≡ some (AError.ok, t))
            × Reserved s more t
            × ((t ≡ s) ⊎ Asked alloc s more t.cap true))
  unfolding reserve
  reserve-Reserved fits = elim (Bool-cases (leb (s.sp + more) s.cap)) [
    | inl room ↦ inr (s, rw room, Reserved-room (ground arith), inl refl)
    | inr short ↦
        (let (c, e, g) =
            grow_total (s.sp + more) s.cap (s.sp + more) v.pos (omega arith) (omega arith) in
          let less : s.cap < s.sp + more = ground arith in
          let tight : c < 2 * (s.sp + more) = ground (arith, g.tight) in
          let whole : leb (2 ^ 60) c ≡ false = ground arith in
          elim (Bool-cases (given alloc (value_bytes * c))) [
            | inl met ↦ inr (
              _,
              rw (short, e, whole, met),
              Reserved-Grown c g less (given-below alloc c met),
              inr (record { short = less; enough = g.enough; tight = tight; answered = met }),
            )
            | inr refused ↦ inl (
              rw (short, e, whole, refused),
              c,
              record { short = less; enough = g.enough; tight = tight; answered = refused },
            )
          ])
  ]

-- astack_init with a capacity above 0 that the allocator grants returns AERR_NONE with a valid
-- empty stack.
pub init-IsStack :
    (alloc : ℕ → Bool) (cap : ℕ)
    → 0 < cap
    → given alloc (value_bytes * cap) ≡ true
    → ((init alloc cap).0 ≡ AError.ok) × IsStack (init alloc cap).1 × ((init alloc cap).1.sp ≡ 0)
unfolding init
init-IsStack alloc cap pos met = rw met (
  refl,
  record {
    storage = length-replicate cap Value.nil;
    used = omega arith;
    pos = pos;
    small = given-below alloc cap met;
  },
  refl,
)
