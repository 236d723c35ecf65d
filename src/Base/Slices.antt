-- ===== src/Base/Slices.antt =====
-- Parts of lists: `take`, `drop` and `overwrite` on concatenations.
use any_vm.Base.Lists.{length, get_elem?, set, take, drop, overwrite, length-set}
use any_vm.Base.Tests.{some_inj}
use Prim.Native.Nat.{ℕ, zero, suc, ◌+◌, ◌-◌, ◌≤◌, ◌<◌}
use mathlib.Core.Path.{◌≡◌, refl, sym, ap, ap₂, ◌∙◌}
use mathlib.Core.List.{List, [], ◌∷◌, ◌++◌, append_assoc, append-nil}
use mathlib.Core.Option.{some}
use native.Mathlib.Omega.{arith}

zero_minus : (n : ℕ) → 0 ≡ 0 - n
zero_minus n = omega arith

module _ {ℓ} {A : Type ℓ} where
  pub take-append_length : (xs ys : List A) → take (length xs) (xs ++ ys) ≡ xs
  take-append_length [] ys = refl
  take-append_length (x ∷ xs) ys = ap (x ∷◌) (take-append_length xs ys)

  pub drop-append_length : (xs ys : List A) → drop (length xs) (xs ++ ys) ≡ ys
  drop-append_length [] ys = refl
  drop-append_length (x ∷ xs) ys = drop-append_length xs ys

  pub get_elem?-append_length :
      (xs ys : List A) (y : A) → get_elem? (xs ++ (y ∷ ys)) (length xs) ≡ some y
  get_elem?-append_length [] ys y = refl
  get_elem?-append_length (x ∷ xs) ys y = get_elem?-append_length xs ys y

  pub take-take : (n m : ℕ) (xs : List A) → n ≤ m → take n (take m xs) ≡ take n xs
  take-take zero m xs h = refl
  take-take (suc n) zero xs h = elim h [ ]
  take-take (suc n) (suc m) [] h = refl
  take-take (suc n) (suc m) (x ∷ xs) h = ap (x ∷◌) (take-take n m xs (omega arith))

  take-nil : (n : ℕ) → take {A = A} n [] ≡ []
  take-nil zero = refl
  take-nil (suc n) = refl

  pub drop-take : (n m : ℕ) (xs : List A) → drop n (take m xs) ≡ take (m - n) (drop n xs)
  drop-take zero m xs = ap (λ k. take k xs) (omega arith)
  drop-take (suc n) zero xs = ap (λ k. take k (drop (suc n) xs)) (zero_minus (suc n))
  drop-take (suc n) (suc m) [] = sym (take-nil (suc m - suc n))
  drop-take (suc n) (suc m) (x ∷ xs) = drop-take n m xs ∙ ap (λ k. take k (drop n xs)) (omega arith)

  pub get_elem?-take : (n i : ℕ) (xs : List A) → i < n → get_elem? (take n xs) i ≡ get_elem? xs i
  get_elem?-take zero i xs h = elim h [ ]
  get_elem?-take (suc n) i [] h = refl
  get_elem?-take (suc n) zero (x ∷ xs) h = refl
  get_elem?-take (suc n) (suc i) (x ∷ xs) h = get_elem?-take n i xs (omega arith)

  pub take-suc-set :
      (xs : List A) (i : ℕ) (y : A)
      → i < length xs
      → take (suc i) (set xs i y) ≡ take i xs ++ (y ∷ [])
  take-suc-set [] i y h = elim h [ ]
  take-suc-set (x ∷ xs) zero y h = refl
  take-suc-set (x ∷ xs) (suc i) y h = ap (x ∷◌) (take-suc-set xs i y (omega arith))

  -- The values up to the end of an overwritten part.
  pub take-overwrite :
      (xs : List A) (i : ℕ) (ys : List A)
      → i + length ys ≤ length xs
      → take (i + length ys) (overwrite xs i ys) ≡ take i xs ++ ys
  unfolding overwrite
  take-overwrite xs i [] h = ap (λ k. take k xs) (omega arith) ∙ sym (append-nil (take i xs))
  take-overwrite xs i (y ∷ ys) h =
      ap (λ k. take k (overwrite (set xs i y) (suc i) ys)) (omega arith)
      ∙ take-overwrite (set xs i y) (suc i) ys (omega (arith, length-set xs i y, h))
      ∙ ap (◌++ ys) (take-suc-set xs i y (omega arith))
      ∙ append_assoc (take i xs) (y ∷ []) ys

  -- Lists that agree on the first `n` places.
  pub take_ext :
      (n : ℕ) (xs ys : List A)
      → ((i : ℕ) → i < n → get_elem? xs i ≡ get_elem? ys i)
      → take n xs ≡ take n ys
  take_ext zero xs ys h = refl
  take_ext (suc n) [] [] h = refl
  take_ext (suc n) [] (y ∷ ys) h = absurd (cc (h 0 (omega arith)))
  take_ext (suc n) (x ∷ xs) [] h = absurd (cc (h 0 (omega arith)))
  take_ext (suc n) (x ∷ xs) (y ∷ ys) h =
      let first : x ≡ y = cc (h 0 (omega arith)) in
      ap₂ ◌∷◌ first (take_ext n xs ys (λ i lt. h (suc i) (omega arith)))

module _ {ℓ} {A : Type ℓ} where
  pub take_all : (n : ℕ) (xs : List A) → length xs ≤ n → take n xs ≡ xs
  take_all zero [] h = refl
  take_all zero (x ∷ xs) h = elim h [ ]
  take_all (suc n) [] h = refl
  take_all (suc n) (x ∷ xs) h = ap (x ∷◌) (take_all n xs (omega arith))

  pub set-set : (xs : List A) (i : ℕ) (x y : A) → set (set xs i x) i y ≡ set xs i y
  set-set [] i x y = refl
  set-set (z ∷ xs) zero x y = refl
  set-set (z ∷ xs) (suc i) x y = ap (z ∷◌) (set-set xs i x y)

  pub take-set_ge : (n i : ℕ) (xs : List A) (x : A) → n ≤ i → take n (set xs i x) ≡ take n xs
  take-set_ge zero i xs x h = refl
  take-set_ge (suc n) i [] x h = refl
  take-set_ge (suc n) zero (y ∷ xs) x h = elim h [ ]
  take-set_ge (suc n) (suc i) (y ∷ xs) x h = ap (y ∷◌) (take-set_ge n i xs x (omega arith))

  pub take-set_lt :
      (n i : ℕ) (xs : List A) (x : A) → i < n → take n (set xs i x) ≡ set (take n xs) i x
  take-set_lt zero i xs x h = elim h [ ]
  take-set_lt (suc n) i [] x h = refl
  take-set_lt (suc n) zero (y ∷ xs) x h = refl
  take-set_lt (suc n) (suc i) (y ∷ xs) x h = ap (y ∷◌) (take-set_lt n i xs x (omega arith))

  pub set_unchanged : (xs : List A) (i : ℕ) {x : A} → get_elem? xs i ≡ some x → set xs i x ≡ xs
  set_unchanged [] i e = refl
  set_unchanged (y ∷ xs) zero e = ap (λ z. z ∷ xs) (some_inj (sym e))
  set_unchanged (y ∷ xs) (suc i) e = ap (y ∷◌) (set_unchanged xs i e)

  pub set-append_length :
      (xs : List A) (x y : A) → set (xs ++ (x ∷ [])) (length xs) y ≡ xs ++ (y ∷ [])
  set-append_length [] x y = refl
  set-append_length (z ∷ xs) x y = ap (z ∷◌) (set-append_length xs x y)
