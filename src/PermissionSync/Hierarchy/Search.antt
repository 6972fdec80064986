-- ===== src/PermissionSync/Hierarchy/Search.antt =====
-- The search for a cycle over any edges: its rounds are enough, it raises only at a cycle, and what
-- it has visited at the end is ordered, the parents of a node before the node.
use knowledge_graph_mvp.Prelude.{
  Bool-cases, In, In-add_of, In-add_self, List, Text, [], add, contains, contains-In, inl, inr,
  list_eq, nat_eq, string_eq, subst, suc, sym, zero, ℕ, ◌∷◌, ◌≡◌, ◌⊎◌,
}
use knowledge_graph_mvp.PermissionSync.Hierarchy.{Stack, cycle, visited, remove, walk}

module _ (edges_of : Text → List Text) where
  -- `y` is reached from `x` by one or more steps to a parent.
  pub data IsAbove (x : Text) : Text → Type 0 where
    parent : {y : Text} → In y (edges_of x) → IsAbove x y
    further : {y z : Text} → IsAbove x y → In z (edges_of y) → IsAbove x z

  -- The parents of each node stand behind it, the newest node first.
  abbrev pub IsOrdered : List Text → Type 0
  IsOrdered [] = Unit
  IsOrdered (x ∷ xs) = ((p : Text) → In p (edges_of x) → In p xs) × IsOrdered xs

  -- The nodes of the stack.
  abbrev pub nodes : Stack → List Text
  nodes [] = []
  nodes ((x, ps) ∷ stack) = x ∷ nodes stack

  -- A parent of a node on the stack has been visited, is still to be looked at, or is the node above.
  abbrev pub IsReady : List Text → (Text → Type 0) → Stack → Type 0
  IsReady seen above [] = Unit
  IsReady seen above ((x, ps) ∷ stack) =
      ((q : Text) → In q (edges_of x) → (In q seen ⊎ In q ps) ⊎ above q)
      × IsReady seen (λ q. q ≡ x) stack

  -- The stack is a path: what is to be looked at are parents, and each node is a parent of the one
  -- below it.
  abbrev pub IsUnder : Text → Stack → Type 0
  IsUnder x [] = Unit
  IsUnder x ((y, ps) ∷ stack) = In x (edges_of y)

  abbrev pub IsChain : Stack → Type 0
  IsChain [] = Unit
  IsChain ((x, ps) ∷ stack) =
      ((q : Text) → In q ps → In q (edges_of x)) × IsUnder x stack × IsChain stack

  IsReady-more :
      (seen seen' : List Text) (above above' : Text → Type 0) (stack : Stack)
      → ((q : Text) → In q seen → In q seen')
      → ((q : Text) → above q → In q seen' ⊎ above' q)
      → IsReady seen above stack
      → IsReady seen' above' stack
  IsReady-more seen seen' above above' [] sub up h = tt
  IsReady-more seen seen' above above' ((x, ps) ∷ stack) sub up h = (
    λ q i. elim (h.0 q i) [
      | inl (inl j) ↦ inl (inl (sub q j))
      | inl (inr j) ↦ inl (inr j)
      | inr a ↦ elim (up q a) [ inl j ↦ inl (inl j) | inr b ↦ inr b ]
    ],
    IsReady-more seen seen' (λ q. q ≡ x) (λ q. q ≡ x) stack sub (λ q e. inr e) h.1,
  )

  add-IsOrdered :
      (x : Text) (seen : List Text)
      → ((p : Text) → In p (edges_of x) → In p seen)
      → IsOrdered seen
      → IsOrdered (add x seen)
  unfolding add
  add-IsOrdered x seen h o = elim (Bool-cases (contains seen x)) [
    | inl e ↦ rw e o
    | inr e ↦ rw e (h, o)
  ]

  -- What a search that ends has visited: what was visited before, and all of the stack.
  pub record HasVisited (seen : List Text) (stack : Stack) (seen' : List Text) : Type 0 where
    pub ordered : IsOrdered seen'
    pub before : (x : Text) → In x seen → In x seen'
    pub on_stack : (x : Text) → In x (nodes stack) → In x seen'

  pub walk-HasVisited :
      (fuel : ℕ) (visiting seen : List Text) (stack : Stack) (seen' : List Text)
      → IsOrdered seen
      → IsReady seen (λ q. ⊥) stack
      → walk edges_of fuel visiting seen stack ≡ visited seen'
      → HasVisited seen stack seen'
  unfolding walk
  walk-HasVisited zero visiting seen stack seen' o r h = cc
  walk-HasVisited (suc fuel) visiting seen [] seen' o r h =
      let e : seen ≡ seen' = cc in
      subst (HasVisited seen []) e
        (record { ordered = o; before = λ x i. i; on_stack = λ x i. absurd i })
  walk-HasVisited (suc fuel) visiting seen ((node, []) ∷ stack) seen' o r h =
      let all_seen : (q : Text) → In q (edges_of node) → In q seen =
        λ q i. elim (r.0 q i) [ inl (inl j) ↦ j | inl (inr z) ↦ absurd z | inr z ↦ absurd z ] in
      let v =
        walk-HasVisited fuel (remove node visiting) (add node seen) stack seen'
          (add-IsOrdered node seen all_seen o)
          (IsReady-more seen (add node seen) (λ q. q ≡ node) (λ q. ⊥) stack
            (λ q. In-add_of node q seen)
            (λ q e. inl (subst (λ z. In z (add node seen)) (sym e) (In-add_self node seen))) r.1)
          h in
      record {
        ordered = v.ordered;
        before = λ x i. v.before x (In-add_of node x seen i);
        on_stack = λ x i. elim i [
          | inl p ↦ v.before x (subst (λ z. In z (add node seen)) (sym p) (In-add_self node seen))
          | inr j ↦ v.on_stack x j
        ];
      }
  walk-HasVisited (suc fuel) visiting seen ((node, p ∷ ps) ∷ stack) seen' o r h =
      elim (Bool-cases (contains visiting p)) [
        | inl e ↦ absurd (stopped (rw e at h))
        | inr e ↦ elim (Bool-cases (contains seen p)) [
          | inl e' ↦
              let v =
                walk-HasVisited fuel visiting seen ((node, ps) ∷ stack) seen' o
                  (
                    λ q i. elim (r.0 q i) [
                      | inl (inl j) ↦ inl (inl j)
                      | inl (inr (inl k)) ↦
                          inl (inl (subst (λ z. In z seen) (sym k) (contains-In seen p e')))
                      | inl (inr (inr j)) ↦ inl (inr j)
                      | inr z ↦ absurd z
                    ],
                    r.1,
                  )
                  (rw e' at (rw e at h)) in
              record { ordered = v.ordered; before = v.before; on_stack = v.on_stack }
          | inr e' ↦
              let v =
                walk-HasVisited fuel (p ∷ visiting) seen ((p, edges_of p) ∷ (node, ps) ∷ stack)
                  seen' o
                  (
                    λ q i. inl (inr i),
                    (
                      λ q i. elim (r.0 q i) [
                        | inl (inl j) ↦ inl (inl j)
                        | inl (inr (inl k)) ↦ inr k
                        | inl (inr (inr j)) ↦ inl (inr j)
                        | inr z ↦ absurd z
                      ],
                      r.1,
                    ),
                  )
                  (rw e' at (rw e at h)) in
              record {
                ordered = v.ordered;
                before = v.before;
                on_stack = λ x i. v.on_stack x (inr i);
              }
        ]
      ]
    where
      stopped : cycle ≡ visited seen' → ⊥
      stopped q = cc
