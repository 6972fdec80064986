-- ===== src/PermissionSync/Hierarchy/Rounds.antt =====
-- The search raises only at a cycle: its rounds are enough, and the stack is a path.
use knowledge_graph_mvp.Prelude.{
  Bool, Bool-cases, In, In-add_of, In-add_self, In-contains, In-keep, In-keep_of, List, Text, [],
  add, ap, arith, contains, contains-In, false, inl, inr, keep, length, list_eq, nat_eq, not, refl,
  string_eq, subst, suc, sym, text_eq_iff, true, zero, ℕ, ◌+◌, ◌==◌, ◌||◌, ◌∷◌, ◌≡◌, ◌≤◌, ◌⊎◌,
}
use knowledge_graph_mvp.PermissionSync.Hierarchy.{Stack, cycle, remove, walk, weights}
use knowledge_graph_mvp.PermissionSync.Hierarchy.Search.{IsAbove, parent, further, nodes, IsChain}

not_in : (xs : List Text) (x : Text) → contains xs x ≡ false → ¬ In x xs
not_in xs x e i = ground (arith, In-contains xs x i)

not_in_of : (xs : List Text) (x : Text) → ¬ In x xs → contains xs x ≡ false
not_in_of xs x n = elim (Bool-cases (contains xs x)) [
  | inl e ↦ absurd (n (contains-In xs x e))
  | inr e ↦ e
]

remove-In : (x y : Text) (xs : List Text) → In x (remove y xs) → In x xs × ¬ (x ≡ y)
unfolding remove
remove-In x y xs i =
    let (j, h) = In-keep (λ z. not (z == y)) x xs i in (j, λ p. ground (arith, text_eq_iff x y))

pub remove-In_of : (x y : Text) (xs : List Text) → In x xs → ¬ (x ≡ y) → In x (remove y xs)
unfolding remove
remove-In_of x y xs i n = In-keep_of (λ z. not (z == y)) x xs i (ground (arith, text_eq_iff x y))

-- A node that the search has not come to.
pub unseen : List Text → List Text → Text → Bool
unseen visiting seen x = not (contains visiting x || contains seen x)

pub unseen-not :
    (visiting seen : List Text) (x : Text)
    → unseen visiting seen x ≡ true
    → (¬ In x visiting) × (¬ In x seen)
unfolding unseen
unseen-not visiting seen x h = (not_in visiting x (ground arith), not_in seen x (ground arith))

pub unseen_of :
    (visiting seen : List Text) (x : Text)
    → ¬ In x visiting
    → ¬ In x seen
    → unseen visiting seen x ≡ true
unfolding unseen
unseen_of visiting seen x n m = rw (not_in_of visiting x n, not_in_of seen x m) refl

unseen-pop :
    (node : Text) (visiting seen : List Text) (x : Text)
    → unseen (remove node visiting) (add node seen) x ≡ true
    → unseen visiting seen x ≡ true
unseen-pop node visiting seen x h =
    let (n, m) = unseen-not (remove node visiting) (add node seen) x h in
    unseen_of visiting seen x
      (λ i. n (
        remove-In_of x node visiting i
          (λ p. m (subst (λ z. In z (add node seen)) (sym p) (In-add_self node seen)))))
      (λ i. m (In-add_of node x seen i))

pub unseen-push :
    (p : Text) (visiting seen : List Text) (x : Text)
    → unseen (p ∷ visiting) seen x ≡ true
    → unseen visiting seen x ≡ true
unseen-push p visiting seen x h =
    let (n, m) = unseen-not (p ∷ visiting) seen x h in unseen_of visiting seen x (λ i. n (inr i)) m

pub unseen-pushed : (p : Text) (visiting seen : List Text) → unseen (p ∷ visiting) seen p ≡ false
unfolding unseen
unseen-pushed p visiting seen = rw (In-contains (p ∷ visiting) p (inl refl)) refl

module _ (edges_of : Text → List Text) where
  -- A node of the stack below its top is above the top.
  nodes-IsAbove :
      (x : Text) (m : Text) (ps : List Text) (stack : Stack)
      → IsChain edges_of ((m, ps) ∷ stack)
      → In x (nodes edges_of ((m, ps) ∷ stack))
      → (x ≡ m) ⊎ IsAbove edges_of x m
  nodes-IsAbove x m ps stack c (inl p) = inl p
  nodes-IsAbove x m ps [] c (inr i) = absurd i
  nodes-IsAbove x m ps ((n, qs) ∷ stack) c (inr i) = elim (nodes-IsAbove x n qs stack (c.2) i) [
    | inl p ↦ inr (parent (subst (λ z. In m (edges_of z)) (sym p) (c.1)))
    | inr a ↦ inr (further a (c.1))
  ]

  pub weights_le :
      (t t' : Text → Bool) (ids : List Text)
      → ((x : Text) → t' x ≡ true → t x ≡ true)
      → weights edges_of (keep t' ids) ≤ weights edges_of (keep t ids)
  unfolding keep weights
  weights_le t t' [] h = omega arith
  weights_le t t' (x ∷ ids) h = ground (arith, weights_le t t' ids h, h x)

  pub weights_lt :
      (t t' : Text → Bool) (ids : List Text) (p : Text)
      → ((x : Text) → t' x ≡ true → t x ≡ true)
      → In p ids
      → t p ≡ true
      → t' p ≡ false
      → weights edges_of (keep t' ids) + suc (length (edges_of p)) ≤ weights edges_of (keep t ids)
  unfolding keep weights
  weights_lt t t' [] p h i e e' = absurd i
  weights_lt t t' (x ∷ ids) p h (inl q) e e' =
      ground (arith, weights_le t t' ids h, rw q at e, rw q at e', ap (λ z. length (edges_of z)) q)
  weights_lt t t' (x ∷ ids) p h (inr i) e e' = ground (arith, weights_lt t t' ids p h i e e', h x)

  pub weights-keep :
      (t : Text → Bool) (ids : List Text) → weights edges_of (keep t ids) ≤ weights edges_of ids
  unfolding keep weights
  weights-keep t [] = omega arith
  weights-keep t (x ∷ ids) = ground (arith, weights-keep t ids)

  stack_weight : Stack → ℕ
  stack_weight [] = 0
  stack_weight ((x, ps) ∷ stack) = suc (length ps) + stack_weight stack

  module _ (ids : List Text) (known : (x y : Text) → In y (edges_of x) → In y ids) where
    -- The rounds that the search may still take.
    measure : List Text → List Text → Stack → ℕ
    unfolding keep stack_weight
    measure visiting seen stack =
        weights edges_of (keep (unseen visiting seen) ids) + stack_weight stack

    pop-measure :
        (node : Text) (visiting seen : List Text) (stack : Stack)
        → suc (measure (remove node visiting) (add node seen) stack)
          ≤ measure visiting seen ((node, []) ∷ stack)
    unfolding measure stack_weight
    pop-measure node visiting seen stack = omega (
      arith,
      weights_le (unseen visiting seen) (unseen (remove node visiting) (add node seen)) ids
          (unseen-pop node visiting seen),
    )

    push-measure :
        (node p : Text) (ps visiting seen : List Text) (stack : Stack)
        → In p ids
        → contains visiting p ≡ false
        → contains seen p ≡ false
        → suc (measure (p ∷ visiting) seen ((p, edges_of p) ∷ (node, ps) ∷ stack))
          ≤ measure visiting seen ((node, p ∷ ps) ∷ stack)
    unfolding measure stack_weight
    push-measure node p ps visiting seen stack i e e' = omega (
      arith,
      weights_lt (unseen visiting seen) (unseen (p ∷ visiting) seen) ids p
          (unseen-push p visiting seen) i
          (unseen_of visiting seen p (not_in visiting p e) (not_in seen p e'))
          (unseen-pushed p visiting seen),
    )

    next-measure :
        (node p : Text) (ps visiting seen : List Text) (stack : Stack)
        → suc (measure visiting seen ((node, ps) ∷ stack))
          ≤ measure visiting seen ((node, p ∷ ps) ∷ stack)
    unfolding measure stack_weight
    next-measure node p ps visiting seen stack = omega arith

    -- Such a search stopped at a node that is above itself.
    walk-IsAbove :
        (fuel : ℕ) (visiting seen : List Text) (stack : Stack)
        → suc (measure visiting seen stack) ≤ fuel
        → ((x : Text) → In x visiting → In x (nodes edges_of stack))
        → IsChain edges_of stack
        → walk edges_of fuel visiting seen stack ≡ cycle
        → (x : Text) × IsAbove edges_of x x
    unfolding walk
    walk-IsAbove zero visiting seen stack enough on c h = absurd (omega arith)
    walk-IsAbove (suc fuel) visiting seen [] enough on c h = absurd (cc)
    walk-IsAbove (suc fuel) visiting seen ((node, []) ∷ stack) enough on c h =
        walk-IsAbove fuel (remove node visiting) (add node seen) stack
          (omega (arith, pop-measure node visiting seen stack))
          (λ x i.
            let (j, n) = remove-In x node visiting i in
            elim (on x j) [ inl p ↦ absurd (n p) | inr k ↦ k ])
          (c.2) h
    walk-IsAbove (suc fuel) visiting seen ((node, p ∷ ps) ∷ stack) enough on c h =
        elim (Bool-cases (contains visiting p)) [
          | inl e ↦ elim (nodes-IsAbove p node (p ∷ ps) stack c (on p (contains-In visiting p e))) [
            | inl q ↦ (node, parent (subst (λ z. In z (edges_of node)) q (c.0 p (inl refl))))
            | inr a ↦ (p, further a (c.0 p (inl refl)))
          ]
          | inr e ↦ elim (Bool-cases (contains seen p)) [
            | inl e' ↦
                walk-IsAbove fuel visiting seen ((node, ps) ∷ stack)
                  (omega (arith, next-measure node p ps visiting seen stack)) on
                  (λ q i. c.0 q (inr i), c.1, c.2) (rw e' at (rw e at h))
            | inr e' ↦
                walk-IsAbove fuel (p ∷ visiting) seen ((p, edges_of p) ∷ (node, ps) ∷ stack)
                  (omega (
                    arith,
                    push-measure node p ps visiting seen stack (known node p (c.0 p (inl refl))) e
                        e',
                  ))
                  (λ x i. elim i [ inl q ↦ inl q | inr j ↦ inr (on x j) ])
                  (λ q i. i, c.0 p (inl refl), (λ q i. c.0 q (inr i), c.1, c.2))
                  (rw e' at (rw e at h))
          ]
        ]

    -- With a round for each node and each edge, a search from a node that raises has met a cycle.
    pub start-IsAbove :
        (start : Text) (seen : List Text)
        → In start ids
        → contains seen start ≡ false
        → walk edges_of
            (suc (weights edges_of ids))
            (start ∷ [])
            seen
            ((start, edges_of start) ∷ [])
          ≡ cycle
        → (x : Text) × IsAbove edges_of x x
    unfolding measure stack_weight
    start-IsAbove start seen i e =
        walk-IsAbove (suc (weights edges_of ids)) (start ∷ []) seen ((start, edges_of start) ∷ [])
          (omega (
            arith,
            weights_lt (unseen [] seen) (unseen (start ∷ []) seen) ids start
                (unseen-push start [] seen) i
                (unseen_of [] seen start (λ z. z) (not_in seen start e))
                (unseen-pushed start [] seen),
            weights-keep (unseen [] seen) ids,
          ))
          (λ x j. j) (λ q j. j, tt, tt)
