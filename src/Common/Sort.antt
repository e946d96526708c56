-- ===== src/Common/Sort.antt =====
-- A stable sort by a numeric key: what `Array.prototype.sort` with the comparator
-- `(a, b) => key(a) - key(b)` does.
use Prim.Native.Nat.{ℕ, ◌≤◌, ◌<◌, ◌+◌, suc, zero}
use mathlib.Core.Path.{◌≡◌, refl}
use mathlib.Core.Bool.{Bool, ◌||◌}
use mathlib.Core.Logic.{inl, inr}
use mathlib.Core.List.{List, [], ◌∷◌, ◌++◌, map}
use native.Mathlib.Omega.{arith}
use offline_qr_school_attend.Common.Tests.{if◌then◌else◌, ◌==◌, leb, leb→le, Bool-cases}
use offline_qr_school_attend.Common.Lists.{length, All, anyb}

-- How often a number stands in a list.
abbrev pub count : ℕ → List ℕ → ℕ
count a [] = 0
count a (x ∷ xs) = (if a == x then 1 else 0) + count a xs

module _ {ℓ} {A : Type ℓ} (key : A → ℕ) where
  unfoldable pub place : A → List A → List A
  place x [] = x ∷ []
  place x (y ∷ ys) = if leb (key x) (key y) then x ∷ y ∷ ys else y ∷ place x ys

  unfoldable pub sort_by : List A → List A
  unfolding place
  sort_by [] = []
  sort_by (x ∷ xs) = place x (sort_by xs)

  pub count-place :
      (a : ℕ) (x : A) (xs : List A) → count a (map key (place x xs)) ≡ count a (key x ∷ map key xs)
  unfolding place
  count-place a x [] = refl
  count-place a x (y ∷ ys) = ground (arith, count-place a x ys)

  pub count-sort_by : (a : ℕ) (xs : List A) → count a (map key (sort_by xs)) ≡ count a (map key xs)
  unfolding sort_by
  count-sort_by a [] = refl
  count-sort_by a (x ∷ xs) = omega (arith, count-place a x (sort_by xs), count-sort_by a xs)

-- Every number comes no later than those after it.
abbrev pub IsSorted : List ℕ → Type 0
IsSorted [] = Unit
IsSorted (x ∷ xs) = All (λ y. x ≤ y) xs × IsSorted xs

All-le_trans : (a b : ℕ) (xs : List ℕ) → a ≤ b → All (λ y. b ≤ y) xs → All (λ y. a ≤ y) xs
All-le_trans a b [] h k = tt
All-le_trans a b (x ∷ xs) h (p, k) = (omega arith, All-le_trans a b xs h k)

module _ {ℓ} {A : Type ℓ} (key : A → ℕ) where
  All-place :
      (b : ℕ) (x : A) (xs : List A)
      → b ≤ key x
      → All (λ y. b ≤ y) (map key xs)
      → All (λ y. b ≤ y) (map key (place key x xs))
  unfolding place
  All-place b x [] h k = (h, tt)
  All-place b x (y ∷ ys) h (p, k) = ground (arith, All-place b x ys h k)

  place-IsSorted :
      (x : A) (xs : List A) → IsSorted (map key xs) → IsSorted (map key (place key x xs))
  unfolding place
  place-IsSorted x [] h = (tt, tt)
  place-IsSorted x (y ∷ ys) (p, h) = elim (Bool-cases (leb (key x) (key y))) [
    | inl le ↦
        let lt : key x ≤ key y = leb→le (key x) (key y) le in
        rw le ((lt, All-le_trans (key x) (key y) (map key ys) lt p), (p, h))
    | inr gt ↦ rw gt (All-place (key y) x ys (ground arith) p, place-IsSorted x ys h)
  ]

  pub sort_by-IsSorted : (xs : List A) → IsSorted (map key (sort_by key xs))
  unfolding sort_by
  sort_by-IsSorted [] = tt
  sort_by-IsSorted (x ∷ xs) = place-IsSorted x (sort_by key xs) (sort_by-IsSorted xs)

  length-place : (x : A) (xs : List A) → length (place key x xs) ≡ suc (length xs)
  unfolding place
  length-place x [] = refl
  length-place x (y ∷ ys) = ground (arith, length-place x ys)

  pub length-sort_by : (xs : List A) → length (sort_by key xs) ≡ length xs
  unfolding sort_by
  length-sort_by [] = refl
  length-sort_by (x ∷ xs) = omega (arith, length-place x (sort_by key xs), length-sort_by xs)

le_of_count : (a y : ℕ) (ys : List ℕ) → All (λ z. y ≤ z) ys → 0 < count a ys → y ≤ a
le_of_count a y [] k h = elim h [ ]
le_of_count a y (z ∷ ys) (p, k) h = ground (arith, le_of_count a y ys k)

-- Two sorted lists that hold the same numbers as often are one list.
pub IsSorted-eq_of_count :
    (xs ys : List ℕ) → IsSorted xs → IsSorted ys → ((a : ℕ) → count a xs ≡ count a ys) → xs ≡ ys
IsSorted-eq_of_count [] [] hx hy c = refl
IsSorted-eq_of_count [] (y ∷ ys) hx hy c = absurd (ground (arith, c y))
IsSorted-eq_of_count (x ∷ xs) [] hx hy c = absurd (ground (arith, c x))
IsSorted-eq_of_count (x ∷ xs) (y ∷ ys) (px, hx) (py, hy) c =
    let e : x ≡ y = ground (arith, c x, c y, le_of_count x y ys py, le_of_count y x xs px) in
    let tails : (a : ℕ) → count a xs ≡ count a ys = λ a. ground (arith, c a) in
    cc (IsSorted-eq_of_count xs ys hx hy tails)

-- The numbers from `k` on, `n` of them.
abbrev pub iota : ℕ → ℕ → List ℕ
iota k zero = []
iota k (suc n) = k ∷ iota (suc k) n

All-iota : (b k n : ℕ) → b ≤ k → All (λ y. b ≤ y) (iota k n)
All-iota b k zero h = tt
All-iota b k (suc n) h = (h, All-iota b (suc k) n (omega arith))

pub iota-IsSorted : (k n : ℕ) → IsSorted (iota k n)
iota-IsSorted k zero = tt
iota-IsSorted k (suc n) = (All-iota k (suc k) n (omega arith), iota-IsSorted (suc k) n)

pub count-append :
    (n : ℕ) (front back : List ℕ) → count n (front ++ back) ≡ count n front + count n back
count-append n [] back = ground arith
count-append n (m ∷ front) back = ground (arith, count-append n front back)

module _ {ℓ} {A : Type ℓ} (key : A → ℕ) (p : A → Bool) where
  pub anyb-place : (x : A) (xs : List A) → anyb p (place key x xs) ≡ (p x || anyb p xs)
  unfolding place
  anyb-place x [] = refl
  anyb-place x (y ∷ ys) = ground (arith, anyb-place x ys)

  -- Sorting loses no element.
  pub anyb-sort_by : (xs : List A) → anyb p (sort_by key xs) ≡ anyb p xs
  unfolding sort_by
  anyb-sort_by [] = refl
  anyb-sort_by (x ∷ xs) = ground (arith, anyb-place x (sort_by key xs), anyb-sort_by xs)

module _ {ℓ κ} {A : Type ℓ} (key : A → ℕ) (P : A → Type κ) where
  All-place_lem : (x : A) (xs : List A) → P x → All P xs → All P (place key x xs)
  unfolding place
  All-place_lem x [] p h = (p, tt)
  All-place_lem x (y ∷ ys) p h = elim (Bool-cases (leb (key x) (key y))) [
    | inl le ↦ rw le (p, h)
    | inr gt ↦ rw gt (h.0, All-place_lem x ys p h.1)
  ]

  pub All-sort_by : (xs : List A) → All P xs → All P (sort_by key xs)
  unfolding sort_by
  All-sort_by [] h = tt
  All-sort_by (x ∷ xs) h = All-place_lem x (sort_by key xs) h.0 (All-sort_by xs h.1)
