-- ===== src/Prelude/Lists.antt =====
-- Lists measured by native numbers, filtered by Boolean tests, and read by predicates.
use Prim.Native.Nat.{ℕ, zero, suc, ◌+◌, ◌-◌, min}
use mathlib.Core.Path.{◌≡◌, refl, sym, ap, subst}
use mathlib.Core.Logic.{◌⊎◌, inl, inr}
use mathlib.Core.Bool.{Bool, true, false, ◌&&◌, ◌||◌}
use mathlib.Core.Option.{Option, none, some}
use mathlib.Core.List.{List, [], ◌∷◌, ◌++◌, map}
use native.Mathlib.Omega.{arith}
use mathlib.Core.Logic.{◌↔◌}
use knowledge_graph_mvp.Prelude.Tests.{leb, if◌then◌else◌, Bool-cases}

module _ {ℓ} {A : Type ℓ} where
  abbrev pub length : List A → ℕ
  length [] = 0
  length (x ∷ xs) = suc (length xs)

  abbrev pub take : ℕ → List A → List A
  take zero xs = []
  take (suc n) [] = []
  take (suc n) (x ∷ xs) = x ∷ take n xs

  abbrev pub drop : ℕ → List A → List A
  drop zero xs = xs
  drop (suc n) [] = []
  drop (suc n) (x ∷ xs) = drop n xs

  -- `queryset.filter(test)`, and `[x for x in xs if test(x)]`
  unfoldable pub keep : (A → Bool) → List A → List A
  keep t [] = []
  keep t (x ∷ xs) = if t x then x ∷ keep t xs else keep t xs

  -- `any(test(x) for x in xs)`
  unfoldable pub any : (A → Bool) → List A → Bool
  any t [] = false
  any t (x ∷ xs) = t x || any t xs

  -- `all(test(x) for x in xs)`
  unfoldable pub all : (A → Bool) → List A → Bool
  all t [] = true
  all t (x ∷ xs) = t x && all t xs

  -- `next(iter(xs), None)`, `queryset.first()`
  unfoldable pub first : List A → Option A
  first [] = none
  first (x ∷ xs) = some x

  pub length-append : (xs ys : List A) → length (xs ++ ys) ≡ length xs + length ys
  length-append [] ys = omega arith
  length-append (x ∷ xs) ys = omega (arith, length-append xs ys)

  pub length-take : (n : ℕ) (xs : List A) → length (take n xs) ≡ min n (length xs)
  length-take zero xs = omega arith
  length-take (suc n) [] = omega arith
  length-take (suc n) (x ∷ xs) = omega (arith, length-take n xs)

  pub length-drop : (n : ℕ) (xs : List A) → length (drop n xs) ≡ length xs - n
  length-drop zero xs = omega arith
  length-drop (suc n) [] = omega arith
  length-drop (suc n) (x ∷ xs) = omega (arith, length-drop n xs)

-- Every element has the property.
abbrev pub All {ℓ} : {A : Type ℓ} → (A → Type 0) → List A → Type 0
All P [] = Unit
All P (x ∷ xs) = P x × All P xs

-- `x` is an element.
abbrev pub In : {A : Type 0} → A → List A → Type 0
In x [] = ⊥
In x (y ∷ ys) = (x ≡ y) ⊎ In x ys

module _ {A : Type 0} where
  pub All-at : (P : A → Type 0) (x : A) (xs : List A) → All P xs → In x xs → P x
  All-at P x [] h i = absurd i
  All-at P x (y ∷ ys) h (inl e) = subst P (sym e) h.0
  All-at P x (y ∷ ys) h (inr i) = All-at P x ys h.1 i

  pub All-of : (P : A → Type 0) (xs : List A) → ((x : A) → In x xs → P x) → All P xs
  All-of P [] h = tt
  All-of P (x ∷ xs) h = (h x (inl refl), All-of P xs (λ y i. h y (inr i)))

  pub In-keep : (t : A → Bool) (x : A) (xs : List A) → In x (keep t xs) → In x xs × (t x ≡ true)
  unfolding keep
  In-keep t x [] i = absurd i
  In-keep t x (y ∷ ys) i = elim (Bool-cases (t y)) [
    | inl e ↦
        let k : (x ≡ y) ⊎ In x (keep t ys) = (rw e at i) in
        elim k [ inl p ↦ (inl p, rw p e) | inr j ↦ let (j', h) = In-keep t x ys j in (inr j', h) ]
    | inr e ↦ let (j, h) = In-keep t x ys (rw e at i) in (inr j, h)
  ]

  pub In-keep_of : (t : A → Bool) (x : A) (xs : List A) → In x xs → t x ≡ true → In x (keep t xs)
  unfolding keep
  In-keep_of t x [] i h = i
  In-keep_of t x (y ∷ ys) (inl p) h = ground arith
  In-keep_of t x (y ∷ ys) (inr i) h = elim (Bool-cases (t y)) [
    | inl e ↦ rw e (inr (In-keep_of t x ys i h))
    | inr e ↦ rw e (In-keep_of t x ys i h)
  ]

  pub In-append_left : (x : A) (xs ys : List A) → In x xs → In x (xs ++ ys)
  In-append_left x [] ys i = absurd i
  In-append_left x (z ∷ zs) ys (inl e) = inl e
  In-append_left x (z ∷ zs) ys (inr i) = inr (In-append_left x zs ys i)

  pub In-append_right : (x : A) (xs ys : List A) → In x ys → In x (xs ++ ys)
  In-append_right x [] ys i = i
  In-append_right x (z ∷ zs) ys i = inr (In-append_right x zs ys i)

  pub In-append : (x : A) (xs ys : List A) → In x (xs ++ ys) → In x xs ⊎ In x ys
  In-append x [] ys i = inr i
  In-append x (z ∷ zs) ys (inl e) = inl (inl e)
  In-append x (z ∷ zs) ys (inr i) = elim (In-append x zs ys i) [
    | inl j ↦ inl (inr j)
    | inr j ↦ inr j
  ]

  pub In-map :
      {B : Type 0} (f : A → B) (y : B) (xs : List A)
      → In y (map f xs)
      → (x : A) × In x xs × (y ≡ f x)
  In-map f y [] i = absurd i
  In-map f y (x ∷ xs) (inl e) = (x, inl refl, e)
  In-map f y (x ∷ xs) (inr i) = let (z, j, e) = In-map f y xs i in (z, inr j, e)

  pub In-map_of : {B : Type 0} (f : A → B) (x : A) (xs : List A) → In x xs → In (f x) (map f xs)
  In-map_of f x [] i = absurd i
  In-map_of f x (y ∷ ys) (inl e) = inl (ap f e)
  In-map_of f x (y ∷ ys) (inr i) = inr (In-map_of f x ys i)

  -- A test that every element passes, read off at one of them.
  pub all-at : (t : A → Bool) (x : A) (xs : List A) → all t xs ≡ true → In x xs → t x ≡ true
  unfolding all
  all-at t x [] h i = absurd i
  all-at t x (y ∷ ys) h (inl e) = ground arith
  all-at t x (y ∷ ys) h (inr i) = all-at t x ys (ground arith) i

  pub all-of : (t : A → Bool) (xs : List A) → ((x : A) → In x xs → t x ≡ true) → all t xs ≡ true
  unfolding all
  all-of t [] h = refl
  all-of t (x ∷ xs) h = rw (h x (inl refl)) (all-of t xs (λ y i. h y (inr i)))

  pub any-of : (t : A → Bool) (x : A) (xs : List A) → In x xs → t x ≡ true → any t xs ≡ true
  unfolding any
  any-of t x [] i h = absurd i
  any-of t x (y ∷ ys) (inl e) h = ground arith
  any-of t x (y ∷ ys) (inr i) h = ground (arith, any-of t x ys i h)

  pub any-find : (t : A → Bool) (xs : List A) → any t xs ≡ true → (x : A) × In x xs × (t x ≡ true)
  unfolding any
  any-find t [] h = cc
  any-find t (x ∷ xs) h = elim (Bool-cases (t x)) [
    | inl e ↦ (x, inl refl, e)
    | inr e ↦ let (y, i, e') = any-find t xs (ground arith) in (y, inr i, e')
  ]

-- `sorted(xs, key=key)`: a stable insertion sort.
module _ {A : Type 0} (key : A → ℕ) where
  unfoldable pub insert_by : A → List A → List A
  insert_by x [] = x ∷ []
  insert_by x (y ∷ ys) = if leb (key x) (key y) then x ∷ y ∷ ys else y ∷ insert_by x ys

  unfoldable pub sort_by : List A → List A
  sort_by [] = []
  sort_by (x ∷ xs) = insert_by x (sort_by xs)

  In-insert_by : (z x : A) (ys : List A) → In z (insert_by x ys) ↔ In z (x ∷ ys)
  unfolding insert_by
  In-insert_by z x [] = (λ i. i, λ i. i)
  In-insert_by z x (y ∷ ys) = elim (Bool-cases (leb (key x) (key y))) [
    | inl e ↦ rw e (λ i. i, λ i. i)
    | inr e ↦ rw e (there (In-insert_by z x ys), back (In-insert_by z x ys))
  ]
    where
      there : In z (insert_by x ys) ↔ In z (x ∷ ys) → In z (y ∷ insert_by x ys) → In z (x ∷ y ∷ ys)
      there ih (inl p) = inr (inl p)
      there ih (inr i) = elim (ih.0 i) [ inl p ↦ inl p | inr j ↦ inr (inr j) ]

      back : In z (insert_by x ys) ↔ In z (x ∷ ys) → In z (x ∷ y ∷ ys) → In z (y ∷ insert_by x ys)
      back ih (inl p) = inr (ih.1 (inl p))
      back ih (inr (inl p)) = inl p
      back ih (inr (inr j)) = inr (ih.1 (inr j))

  pub In-sort_by : (z : A) (xs : List A) → In z (sort_by xs) ↔ In z xs
  unfolding sort_by
  In-sort_by z [] = (λ i. i, λ i. i)
  In-sort_by z (x ∷ xs) = (
    λ i. elim ((In-insert_by z x (sort_by xs)).0 i) [
      | inl p ↦ inl p
      | inr j ↦ inr ((In-sort_by z xs).0 j)
    ],
    λ i.
        (In-insert_by z x (sort_by xs)).1
          (elim i [ inl p ↦ inl p | inr j ↦ inr ((In-sort_by z xs).1 j) ]),
  )
