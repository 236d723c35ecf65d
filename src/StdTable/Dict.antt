-- ===== src/StdTable/Dict.antt =====
-- The dictionary that a table stands for. Its keys are the pids, the integers and the texts: a real
-- is compared with a tolerance and is no key of a dictionary.
use any_vm.Base.{
  ℕ, ℤ, eq_ℤ, ◌==◌, ==_iff, Bool, true, false, Bool-cases, if◌then◌else◌, ◌≡◌, refl, sym, ◌∙◌, ap,
  subst, ◌↔◌, inl, inr, Option, none, some, List, [], ◌∷◌, arith,
}
use any_vm.Text.{string_equal}
use any_vm.Text.Laws.{string_equal_iff}
use any_vm.Value.{Value}

pub data Key : Type 0 where
  pid : ℕ → Key
  integer : ℤ → Key
  text : List ℕ → Key

abbrev pub key_equal : Key → Key → Bool
key_equal (Key.pid p) (Key.pid q) = p == q
key_equal (Key.integer m) (Key.integer n) = eq_ℤ m n
key_equal (Key.text s) (Key.text t) = string_equal s t
key_equal _ _ = false

eq_ℤ_iff : (m n : ℤ) → (eq_ℤ m n ≡ true) ↔ (m ≡ n)
eq_ℤ_iff m n = (λ h. ground arith, λ h. ground arith)

pub key_equal_iff : (k q : Key) → (key_equal k q ≡ true) ↔ (k ≡ q)
key_equal_iff (Key.pid p) (Key.pid q) =
    (λ h. ap Key.pid ((==_iff p q).0 h), λ e. (==_iff p q).1 (cc e))
key_equal_iff (Key.integer m) (Key.integer n) =
    (λ h. ap Key.integer ((eq_ℤ_iff m n).0 h), λ e. (eq_ℤ_iff m n).1 (cc e))
key_equal_iff (Key.text s) (Key.text t) =
    (λ h. ap Key.text ((string_equal_iff s t).0 h), λ e. (string_equal_iff s t).1 (cc e))
key_equal_iff (Key.pid p) (Key.integer n) = (λ h. cc h, λ e. cc e)
key_equal_iff (Key.pid p) (Key.text t) = (λ h. cc h, λ e. cc e)
key_equal_iff (Key.integer m) (Key.pid q) = (λ h. cc h, λ e. cc e)
key_equal_iff (Key.integer m) (Key.text t) = (λ h. cc h, λ e. cc e)
key_equal_iff (Key.text s) (Key.pid q) = (λ h. cc h, λ e. cc e)
key_equal_iff (Key.text s) (Key.integer n) = (λ h. cc h, λ e. cc e)

-- A dictionary: its entries, the newest last.
abbrev pub Dict : Type 0
Dict = List (Key × Value)

abbrev pub lookup : Key → Dict → Option Value
lookup q [] = none
lookup q ((k, x) ∷ d) = if key_equal k q then some x else lookup q d

abbrev pub put : Key → Value → Dict → Dict
put q y [] = (q, y) ∷ []
put q y ((k, x) ∷ d) = if key_equal k q then (k, y) ∷ d else (k, x) ∷ put q y d

-- Two keys that agree with a third one agree.
key_equal_apart :
    (k q r : Key) → key_equal k q ≡ false → key_equal k r ≡ true → key_equal q r ≡ false
key_equal_apart k q r other here = elim (Bool-cases (key_equal q r)) [
  | inr apart ↦ apart
  | inl same ↦ absurd (
      false-ne-true (
        sym other
        ∙ (key_equal_iff k q).1 ((key_equal_iff k r).0 here ∙ sym ((key_equal_iff q r).0 same))))
]
  where
    false-ne-true : false ≡ true → ⊥
    false-ne-true h = cc h

pub lookup-put :
    (q r : Key) (y : Value) (d : Dict)
    → lookup r (put q y d) ≡ (if key_equal q r then some y else lookup r d)
lookup-put q r y [] = refl
lookup-put q r y ((k, x) ∷ d) = elim (Bool-cases (key_equal k q)) [
  | inl same ↦ rw same (
      subst
        (λ z.
          (if key_equal k r then some y else lookup r d)
          ≡ (if key_equal z r then some y else if key_equal k r then some x else lookup r d))
        ((key_equal_iff k q).0 same)
        (elim (Bool-cases (key_equal k r)) [ inl here ↦ rw here refl | inr there ↦ rw there refl ]))
  | inr other ↦ rw other (elim (Bool-cases (key_equal k r)) [
    | inl here ↦ rw (here, key_equal_apart k q r other here) refl
    | inr there ↦ rw there (lookup-put q r y d)
  ])
]
