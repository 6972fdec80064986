-- ===== src/Prelude/Sets.antt =====
-- Python sets and dicts as lists: sets are read through membership, a dict through its keys.
use mathlib.Core.Bool.{Bool, true, false, not, ◌&&◌, ◌||◌}
use mathlib.Core.List.{List, [], ◌∷◌}
use mathlib.Core.Logic.{◌⊎◌, inl, inr, ◌↔◌}
use mathlib.Core.Path.{◌≡◌, refl, sym}
use native.Mathlib.Omega.{arith}
use knowledge_graph_mvp.Prelude.Tests.{Eq, ◌==◌, ==-refl, eq_of_==, if◌then◌else◌, Bool-cases}
use knowledge_graph_mvp.Prelude.Lists.{In, keep, all, In-keep, In-keep_of, all-at, all-of}

module _ {A : Type 0} ⦃e : Eq A⦄ where
  -- `x in xs`
  unfoldable pub contains : List A → A → Bool
  contains [] x = false
  contains (y ∷ ys) x = y == x || contains ys x

  pub contains-In : (xs : List A) (x : A) → contains xs x ≡ true → In x xs
  unfolding contains
  contains-In [] x h = cc
  contains-In (y ∷ ys) x h = elim (Bool-cases (y == x)) [
    | inl p ↦ inl (sym (eq_of_== y x p))
    | inr p ↦ inr (contains-In ys x (rw p at h))
  ]

  pub In-contains : (xs : List A) (x : A) → In x xs → contains xs x ≡ true
  unfolding contains
  In-contains [] x i = absurd i
  In-contains (y ∷ ys) x (inl p) = rw (p, ==-refl y) refl
  In-contains (y ∷ ys) x (inr i) = elim (Bool-cases (y == x)) [
    | inl p ↦ rw p refl
    | inr p ↦ rw p (In-contains ys x i)
  ]

  -- `s | {x}`, `s.add(x)`
  unfoldable pub add : A → List A → List A
  add x xs = if contains xs x then xs else x ∷ xs

  pub In-add : (x y : A) (xs : List A) → In y (add x xs) → (y ≡ x) ⊎ In y xs
  unfolding add
  In-add x y xs i = elim (Bool-cases (contains xs x)) [
    | inl h ↦ inr (rw h at i)
    | inr h ↦ rw h at i
  ]

  pub In-add_self : (x : A) (xs : List A) → In x (add x xs)
  unfolding add
  In-add_self x xs = elim (Bool-cases (contains xs x)) [
    | inl h ↦ rw h (contains-In xs x h)
    | inr h ↦ rw h (inl refl)
  ]

  pub In-add_of : (x y : A) (xs : List A) → In y xs → In y (add x xs)
  unfolding add
  In-add_of x y xs i = elim (Bool-cases (contains xs x)) [ inl h ↦ rw h i | inr h ↦ rw h (inr i) ]

  -- `set(xs)`
  unfoldable pub to_set : List A → List A
  to_set [] = []
  to_set (x ∷ xs) = add x (to_set xs)

  pub In-to_set : (x : A) (xs : List A) → In x (to_set xs) ↔ In x xs
  unfolding to_set
  In-to_set x [] = (λ i. i, λ i. i)
  In-to_set x (y ∷ ys) = (
    λ i. elim (In-add y x (to_set ys) i) [ inl p ↦ inl p | inr j ↦ inr ((In-to_set x ys).0 j) ],
    λ i. elim i [
      | inl p ↦ rw p (In-add_self y (to_set ys))
      | inr j ↦ In-add_of y x (to_set ys) ((In-to_set x ys).1 j)
    ],
  )

  -- `xs | ys`, `ys.update(xs)`
  unfoldable pub union : List A → List A → List A
  unfolding add
  union [] ys = ys
  union (x ∷ xs) ys = add x (union xs ys)

  pub In-union : (x : A) (xs ys : List A) → In x (union xs ys) ↔ (In x xs ⊎ In x ys)
  unfolding union
  In-union x [] ys = (λ i. inr i, λ i. elim i [ inl z ↦ absurd z | inr j ↦ j ])
  In-union x (y ∷ xs) ys = (
    λ i. elim (In-add y x (union xs ys) i) [
      | inl p ↦ inl (inl p)
      | inr j ↦ elim ((In-union x xs ys).0 j) [ inl k ↦ inl (inr k) | inr k ↦ inr k ]
    ],
    λ i. elim i [
      | inl (inl p) ↦ rw p (In-add_self y (union xs ys))
      | inl (inr j) ↦ In-add_of y x (union xs ys) ((In-union x xs ys).1 (inl j))
      | inr j ↦ In-add_of y x (union xs ys) ((In-union x xs ys).1 (inr j))
    ],
  )

  -- `xs - ys`
  unfoldable pub minus : List A → List A → List A
  minus xs ys = keep (λ x. not (contains ys x)) xs

  -- `xs <= ys`, `xs.issubset(ys)`
  unfoldable pub subset : List A → List A → Bool
  subset xs ys = all (contains ys) xs

  -- `xs == ys` on sets
  unfoldable pub same_set : List A → List A → Bool
  same_set xs ys = subset xs ys && subset ys xs

  pub subset-In : (xs ys : List A) → subset xs ys ≡ true → (x : A) → In x xs → In x ys
  unfolding subset
  subset-In xs ys h x i = contains-In ys x (all-at (contains ys) x xs h i)

  pub subset_of : (xs ys : List A) → ((x : A) → In x xs → In x ys) → subset xs ys ≡ true
  unfolding subset
  subset_of xs ys h = all-of (contains ys) xs (λ x i. In-contains ys x (h x i))

  pub same_set-In : (xs ys : List A) → same_set xs ys ≡ true → (x : A) → In x xs ↔ In x ys
  unfolding same_set
  same_set-In xs ys h x = (subset-In xs ys (ground arith) x, subset-In ys xs (ground arith) x)

  pub same_set_of : (xs ys : List A) → ((x : A) → In x xs ↔ In x ys) → same_set xs ys ≡ true
  unfolding same_set
  same_set_of xs ys h = rw (subset_of xs ys (λ x. (h x).0), subset_of ys xs (λ x. (h x).1)) refl

  pub In-minus : (x : A) (xs ys : List A) → In x (minus xs ys) → In x xs × ¬ In x ys
  unfolding minus
  In-minus x xs ys i =
      let (j, h) = In-keep (λ x. not (contains ys x)) x xs i in
      (j, λ k. ground (arith, In-contains ys x k))

  pub In-minus_of : (x : A) (xs ys : List A) → In x xs → ¬ In x ys → In x (minus xs ys)
  unfolding minus
  In-minus_of x xs ys i n =
      In-keep_of (λ x. not (contains ys x)) x xs i (absent (Bool-cases (contains ys x)))
    where
      absent : (contains ys x ≡ true) ⊎ (contains ys x ≡ false) → not (contains ys x) ≡ true
      absent (inl h) = absurd (n (contains-In ys x h))
      absent (inr h) = rw h refl
