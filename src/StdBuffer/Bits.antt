-- ===== src/StdBuffer/Bits.antt =====
-- The bits of a buffer that `set_sint_le` writes, and the bit that `set_sint_be` loses.
use any_vm.Base.{
  ℕ, ◌+◌, ◌*◌, ◌/◌, ◌%◌, ◌^◌, ◌<◌, ◌≡◌, ◌≢◌, refl, sym, ◌∙◌, ap, inl, inr, Bool, Bool-cases, true,
  false, ◌&&◌, if◌then◌else◌, subst, ltb, ltb→lt, lt→ltb, ◌==◌, ==_iff, ==_ne, some, some_inj, List,
  arith, length, length-set, get_elem?, get_elem?-some, get_elem?-set_self, get_elem?-set_ne, set,
  passes_under, passes_under_sound,
}
use any_vm.StdBuffer.{cleared, raised, get_byte, move_bit}

-- Bit `k` of a byte.
abbrev pub bit : ℕ → ℕ → ℕ
bit b k = b / 2 ^ k % 2

-- What the two operations do to each bit, for every byte and every two positions.
abbrev bits_checked : ℕ → Bool
bits_checked n =
    let b = n / 64 in
    let k = n / 8 % 8 in
    let j = n % 8 in
    (bit (cleared b k) j == (if j == k then 0 else bit b j))
    && (bit (raised b k) j == (if j == k then 1 else bit b j))
    && ltb (cleared b k) 256
    && ltb (raised b k) 256

all_checked : passes_under bits_checked 16384 ≡ true
unfolding passes_under
all_checked = refl

abbrev facts : (b k j : ℕ) → Bool
facts b k j =
    (bit (cleared b k) j == (if j == k then 0 else bit b j))
    && (bit (raised b k) j == (if j == k then 1 else bit b j))
    && ltb (cleared b k) 256
    && ltb (raised b k) 256

facts_hold : (b k j : ℕ) → b < 256 → k < 8 → j < 8 → facts b k j ≡ true
facts_hold b k j hb hk hj =
    let n : ℕ = b * 64 + k * 8 + j in
    let e : n / 64 ≡ b = omega arith in
    let e' : n / 8 % 8 ≡ k = omega arith in
    let e'' : n % 8 ≡ j = omega arith in
    subst (λ x. facts x k j ≡ true) e
      (subst (λ y. facts (n / 64) y j ≡ true) e'
        (subst (λ z. facts (n / 64) (n / 8 % 8) z ≡ true) e''
          (passes_under_sound bits_checked 16384 n all_checked (omega arith))))

and_left : (b c : Bool) → (b && c) ≡ true → b ≡ true
and_left true c h = refl
and_left false c h = cc h

and_right : (b c : Bool) → (b && c) ≡ true → c ≡ true
and_right true c h = h
and_right false c h = cc h

-- The bits of a byte after one of them is cleared, or set.
record Byte (b k j : ℕ) : Type 0 where
  cleared_bit : bit (cleared b k) j ≡ (if j == k then 0 else bit b j)
  raised_bit : bit (raised b k) j ≡ (if j == k then 1 else bit b j)
  cleared_byte : cleared b k < 256
  raised_byte : raised b k < 256

byte_lem : (b k j : ℕ) → b < 256 → k < 8 → j < 8 → Byte b k j
byte_lem b k j hb hk hj =
    let h = facts_hold b k j hb hk hj in
    let p = bit (cleared b k) j == (if j == k then 0 else bit b j) in
    let q = bit (raised b k) j == (if j == k then 1 else bit b j) in
    let r = ltb (cleared b k) 256 in
    let s = ltb (raised b k) 256 in
    let h' = and_left (p && q && r) s h in
    let h'' = and_left (p && q) r h' in
    record {
      cleared_bit = (==_iff _ _).0 (and_left p q h'');
      raised_bit = (==_iff _ _).0 (and_right p q h'');
      cleared_byte = ltb→lt (cleared b k) 256 (and_right (p && q) r h');
      raised_byte = ltb→lt (raised b k) 256 (and_right (p && q && r) s h);
    }

-- Every element is a byte.
abbrev pub Bytes : List ℕ → Type 0
Bytes bs = (i b : ℕ) → get_elem? bs i ≡ some b → b < 256

-- The bit at a position of a buffer, counted from the lowest bit of the first byte.
abbrev pub bit_at : List ℕ → ℕ → ℕ
bit_at bs p = bit (get_byte bs (p / 8)) (p % 8)

-- The bit at `p` is `d` in `bs'`, and all others are those of `bs`.
pub record Wrote (p d : ℕ) (bs bs' : List ℕ) : Type 0 where
  pub bytes : Bytes bs'
  pub size : length bs' ≡ length bs
  pub bits : (r : ℕ) → bit_at bs' r ≡ (if r == p then d else bit_at bs r)

abbrev pub number : Bool → ℕ
number true = 1
number false = 0

abbrev new_byte : Bool → (b k : ℕ) → ℕ
new_byte true b k = raised (cleared b k) k
new_byte false b k = cleared b k

new_byte-bit :
    (on : Bool) (b k j : ℕ)
    → b < 256
    → k < 8
    → j < 8
    → (bit (new_byte on b k) j ≡ (if j == k then number on else bit b j)) × (new_byte on b k < 256)
new_byte-bit false b k j hb hk hj =
    let f = byte_lem b k j hb hk hj in (f.cleared_bit, f.cleared_byte)
new_byte-bit true b k j hb hk hj =
    let f = byte_lem b k j hb hk hj in
    let g = byte_lem (cleared b k) k j f.cleared_byte hk hj in
    (
      elim (Bool-cases (j == k)) [
        | inl same ↦ rw same (g.raised_bit ∙ rw same refl)
        | inr other ↦ rw other (g.raised_bit ∙ rw other (f.cleared_bit ∙ rw other refl))
      ],
      g.raised_byte,
    )

get_byte-set_self : (bs : List ℕ) (i b : ℕ) → i < length bs → get_byte (set bs i b) i ≡ b
get_byte-set_self bs i b h = rw (get_elem?-set_self bs i b h, get_byte) refl

get_byte-set_ne : (bs : List ℕ) (i j b : ℕ) → i ≢ j → get_byte (set bs i b) j ≡ get_byte bs j
get_byte-set_ne bs i j b h = rw (get_elem?-set_ne bs {i = i} {j = j} b h, get_byte) refl

get_byte-lt : (bs : List ℕ) (i : ℕ) → Bytes bs → i < length bs → get_byte bs i < 256
get_byte-lt bs i bytes h =
    let (b, e) = get_elem?-some bs i h in
    subst (λ n. n < 256) (sym (rw (e, get_byte) refl)) (bytes i b e)

Bytes-set : (bs : List ℕ) (i b : ℕ) → Bytes bs → b < 256 → i < length bs → Bytes (set bs i b)
Bytes-set bs i b bytes h room j c e = elim (Bool-cases (i == j)) [
  | inl same ↦
      (let here : b ≡ c = some_inj (
          sym (get_elem?-set_self bs i b room)
          ∙ ap (get_elem? (set bs i b)) ((==_iff i j).0 same)
          ∙ e) in
        omega arith)
  | inr other ↦
      bytes j c (sym (get_elem?-set_ne bs {i = i} {j = j} b (λ h'. apart i j other h')) ∙ e)
]
  where
    apart : (i j : ℕ) → (i == j) ≡ false → i ≢ j
    apart i j other h' = ground arith

module _ (on : Bool) (i k : ℕ) (bs : List ℕ) (bytes : Bytes bs) (hk : k < 8)
    (room : i < length bs) where
  abbrev moved_bytes : List ℕ
  moved_bytes = set bs i (new_byte on (get_byte bs i) k)

  moved-bits : (r : ℕ) → bit_at moved_bytes r ≡ (if r == 8 * i + k then number on else bit_at bs r)
  moved-bits r =
      let j : ℕ = r % 8 in
      let small : get_byte bs i < 256 = get_byte-lt bs i bytes room in
      elim (Bool-cases (i == r / 8)) [
        | inr other ↦ rw (==_ne {a = r} {b = 8 * i + k} (elsewhere other)) (
            ap (λ b. bit b j)
              (get_byte-set_ne bs i (r / 8) (new_byte on (get_byte bs i) k)
                (apart i (r / 8) other)))
        | inl same ↦
            (let e : i ≡ r / 8 = (==_iff i (r / 8)).0 same in
              ap (λ b. bit b j) (ap (get_byte moved_bytes) (sym e) ∙ get_byte-set_self bs i _ room)
              ∙ (new_byte-bit on (get_byte bs i) k j small hk (omega arith)).0
              ∙ ap (λ t. if t then number on else bit (get_byte bs i) j) (test e)
              ∙ ap (λ m. if r == 8 * i + k then number on else bit (get_byte bs m) j) e)
      ]
    where
      apart : (i j : ℕ) → (i == j) ≡ false → i ≢ j
      apart i j other h' = ground arith

      elsewhere : (i == r / 8) ≡ false → r ≢ 8 * i + k
      elsewhere other h' = absurd (ground arith)

      test : i ≡ r / 8 → (r % 8 == k) ≡ (r == 8 * i + k)
      test e = ground arith

  pub move_bit-Wrote :
      (bs' : List ℕ) × (move_bit (some on) i k k bs ≡ some bs')
      × Wrote (8 * i + k) (number on) bs bs'
  unfolding move_bit
  move_bit-Wrote = (
    moved_bytes,
    stored on,
    record {
      bytes =
          Bytes-set bs i _ bytes
            (new_byte-bit on (get_byte bs i) k 0 (get_byte-lt bs i bytes room) hk (omega arith)).1
            room;
      size = length-set bs i (new_byte on (get_byte bs i) k);
      bits = moved-bits;
    },
  )
    where
      stored :
          (on : Bool)
          → move_bit (some on) i k k bs ≡ some (set bs i (new_byte on (get_byte bs i) k))
      stored true = rw (lt→ltb i (length bs) room) refl
      stored false = rw (lt→ltb i (length bs) room) refl
