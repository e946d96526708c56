-- ===== src/Common/Lists.antt =====
-- Lists measured by native numbers, Boolean searches in them, and predicates on all their elements.
use Prim.Native.Nat.{ℕ, zero, suc, ◌+◌}
use mathlib.Core.Path.{◌≡◌, refl, sym, ap, ◌∙◌, subst}
use mathlib.Core.Bool.{Bool, true, false, ◌||◌, not}
use mathlib.Core.Logic.{inl, inr}
use mathlib.Core.Option.{Option, none, some}
use mathlib.Core.List.{List, [], ◌∷◌, ◌++◌, map}
use native.Mathlib.Omega.{arith}
use offline_qr_school_attend.Common.Tests.{if◌then◌else◌, ◌==◌, Bool-cases}

module _ {ℓ} {A : Type ℓ} where
  abbrev pub length : List A → ℕ
  length [] = 0
  length (x ∷ xs) = suc (length xs)

  -- `xs.filter(p)`
  abbrev pub filterb : (A → Bool) → List A → List A
  filterb p [] = []
  filterb p (x ∷ xs) = if p x then x ∷ filterb p xs else filterb p xs

  -- `xs.some(p)`
  abbrev pub anyb : (A → Bool) → List A → Bool
  anyb p [] = false
  anyb p (x ∷ xs) = p x || anyb p xs

  -- `xs.find(p)`
  abbrev pub find? : (A → Bool) → List A → Option A
  find? p [] = none
  find? p (x ∷ xs) = if p x then some x else find? p xs

  abbrev pub replicate : ℕ → A → List A
  replicate zero a = []
  replicate (suc n) a = a ∷ replicate n a

  abbrev pub take : ℕ → List A → List A
  take zero xs = []
  take (suc n) [] = []
  take (suc n) (x ∷ xs) = x ∷ take n xs

  abbrev pub drop : ℕ → List A → List A
  drop zero xs = xs
  drop (suc n) [] = []
  drop (suc n) (x ∷ xs) = drop n xs

  pub length-append : (xs ys : List A) → length (xs ++ ys) ≡ length xs + length ys
  length-append [] ys = omega arith
  length-append (x ∷ xs) ys = omega (arith, length-append xs ys)

  -- A filter and its complement share the list out.
  pub length-filterb-not :
      (p : A → Bool) (xs : List A)
      → length (filterb p xs) + length (filterb (λ x. not (p x)) xs) ≡ length xs
  length-filterb-not p [] = omega arith
  length-filterb-not p (x ∷ xs) = ground (arith, length-filterb-not p xs)

pub length-map {ℓ κ} :
    {A : Type ℓ} {B : Type κ} (f : A → B) (xs : List A) → length (map f xs) ≡ length xs
length-map f [] = refl
length-map f (x ∷ xs) = ap suc (length-map f xs)

-- `xs.includes(n)`
abbrev pub elem : ℕ → List ℕ → Bool
elem n [] = false
elem n (x ∷ xs) = (n == x) || elem n xs

module _ {ℓ κ} {A : Type ℓ} (P : A → Type κ) where
  abbrev pub All : List A → Type κ
  All [] = Unit
  All (x ∷ xs) = P x × All xs

  pub All-append : (xs ys : List A) → All xs → All ys → All (xs ++ ys)
  All-append [] ys hx hy = hy
  All-append (x ∷ xs) ys hx hy = (hx.0, All-append xs ys hx.1 hy)

  pub All-take : (n : ℕ) (xs : List A) → All xs → All (take n xs)
  All-take zero xs h = tt
  All-take (suc n) [] h = tt
  All-take (suc n) (x ∷ xs) h = (h.0, All-take n xs h.1)

  pub All-filterb : (q : A → Bool) (xs : List A) → All xs → All (filterb q xs)
  All-filterb q [] h = tt
  All-filterb q (x ∷ xs) h = elim (Bool-cases (q x)) [
    | inl holds ↦ rw holds (h.0, All-filterb q xs h.1)
    | inr fails ↦ rw fails (All-filterb q xs h.1)
  ]

-- What a lookup says of a list that has grown at its end.
module _ {ℓ} {A : Type ℓ} (q : A → Bool) where
  pub find?-holds : (xs : List A) (a : A) → find? q xs ≡ some a → q a ≡ true
  find?-holds [] a h = absurd (cc)
  find?-holds (x ∷ xs) a h = elim (Bool-cases (q x)) [
    | inl holds ↦
        let same : x ≡ a = cc (subst (λ b. (if b then some x else find? q xs) ≡ some a) holds h) in
        ap q (sym same) ∙ holds
    | inr fails ↦
        find?-holds xs a (subst (λ b. (if b then some x else find? q xs) ≡ some a) fails h)
  ]

  pub find?-append_some :
      (xs ys : List A) (a : A) → find? q xs ≡ some a → find? q (xs ++ ys) ≡ some a
  find?-append_some [] ys a h = cc
  find?-append_some (x ∷ xs) ys a h = ground (arith, find?-append_some xs ys a)

  pub find?-append_none : (xs ys : List A) → find? q xs ≡ none → find? q (xs ++ ys) ≡ find? q ys
  find?-append_none [] ys h = refl
  find?-append_none (x ∷ xs) ys h = ground (arith, find?-append_none xs ys)

  pub find?-append_new :
      (xs : List A) (a : A) → find? q xs ≡ none → q a ≡ true → find? q (xs ++ a ∷ []) ≡ some a
  find?-append_new [] a h k = ground arith
  find?-append_new (x ∷ xs) a h k = ground (arith, find?-append_new xs a)

pub append_nil {ℓ} : {A : Type ℓ} (xs : List A) → (xs ++ []) ≡ xs
append_nil [] = refl
append_nil (x ∷ xs) = ap (λ ys. x ∷ ys) (append_nil xs)

pub append_assoc {ℓ} : {A : Type ℓ} (xs ys zs : List A) → ((xs ++ ys) ++ zs) ≡ xs ++ (ys ++ zs)
append_assoc [] ys zs = refl
append_assoc (x ∷ xs) ys zs = ap (λ l. x ∷ l) (append_assoc xs ys zs)
