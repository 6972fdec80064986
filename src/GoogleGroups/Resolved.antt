-- ===== src/GoogleGroups/Resolved.antt =====
-- What a resolution of groups is, and the order in which the children of a group are looked at.
use knowledge_graph_mvp.Prelude.{
  Bool-cases, In, List, Result, Text, [], contains, contains-In, err, false, inl, inr, list_eq,
  lower, nat_eq, ok, string_eq, strip, subst, sym, texts_ltb, ◌↔◌, ◌∷◌, ◌≡◌, ◌≢◌, ◌⊎◌,
}
use knowledge_graph_mvp.DriveAcl.{sort_on, insert_on}
use knowledge_graph_mvp.GoogleGroups.{
  GroupError, Memberships, resolved_groups, rounds_spent, sorted, unresolved,
}

-- The children of each group were resolved before it, the newest group first.
abbrev pub IsOrdered : Memberships → Type 0
IsOrdered [] = Unit
IsOrdered ((group, m) ∷ rest) =
    ((c : Text) → In c m.child_groups → In c (resolved_groups rest)) × IsOrdered rest

-- The members are returned with those of all their children, or a GroupResolutionError was raised.
abbrev pub IsResolution : List Text → Result GroupError Memberships → Type 0
IsResolution emails (ok resolved) =
    IsOrdered resolved
    × ((e : Text) → In e emails → In (lower (strip e)) (resolved_groups resolved))
IsResolution emails (err e) = e ≢ rounds_spent

In-insert_on :
    (key : Text → List Text) (z x : Text) (ys : List Text)
    → In z (insert_on key x ys) ↔ In z (x ∷ ys)
unfolding insert_on
In-insert_on key z x [] = (λ i. i, λ i. i)
In-insert_on key z x (y ∷ ys) = elim (Bool-cases (texts_ltb (key y) (key x))) [
  | inl e ↦ rw e (
    λ i. elim i [
      | inl p ↦ inr (inl p)
      | inr j ↦ elim ((In-insert_on key z x ys).0 j) [ inl p ↦ inl p | inr k ↦ inr (inr k) ]
    ],
    λ i. elim i [
      | inl p ↦ inr ((In-insert_on key z x ys).1 (inl p))
      | inr (inl p) ↦ inl p
      | inr (inr k) ↦ inr ((In-insert_on key z x ys).1 (inr k))
    ],
  )
  | inr e ↦ rw e (λ i. i, λ i. i)
]

pub In-sorted : (z : Text) (xs : List Text) → In z (sorted xs) ↔ In z xs
unfolding sorted sort_on
In-sorted z [] = (λ i. i, λ i. i)
In-sorted z (x ∷ xs) = (
  λ i. elim ((In-insert_on (λ email. email ∷ []) z x (sorted xs)).0 i) [
    | inl p ↦ inl p
    | inr j ↦ inr ((In-sorted z xs).0 j)
  ],
  λ i.
      (In-insert_on (λ email. email ∷ []) z x (sorted xs)).1
        (elim i [ inl p ↦ inl p | inr j ↦ inr ((In-sorted z xs).1 j) ]),
)

-- What `unresolved` leaves was pending, what it leaves out is resolved, and its head is not resolved.
pub In-unresolved : (q : Text) (groups ps : List Text) → In q (unresolved groups ps) → In q ps
unfolding unresolved
In-unresolved q groups [] i = i
In-unresolved q groups (p ∷ ps) i = elim (Bool-cases (contains groups p)) [
  | inl e ↦ inr (In-unresolved q groups ps (rw e at i))
  | inr e ↦ rw e at i
]

pub In-unresolved_of :
    (q : Text) (groups ps : List Text) → In q ps → In q groups ⊎ In q (unresolved groups ps)
unfolding unresolved
In-unresolved_of q groups [] i = absurd i
In-unresolved_of q groups (p ∷ ps) i = elim (Bool-cases (contains groups p)) [
  | inl e ↦ rw e (elim i [
    | inl h ↦ inl (subst (λ z. In z groups) (sym h) (contains-In groups p e))
    | inr j ↦ In-unresolved_of q groups ps j
  ])
  | inr e ↦ rw e (inr i)
]

pub unresolved-head :
    (groups ps : List Text) (q : Text) (qs : List Text)
    → unresolved groups ps ≡ q ∷ qs
    → contains groups q ≡ false
unfolding unresolved
unresolved-head groups [] q qs h = cc
unresolved-head groups (p ∷ ps) q qs h = elim (Bool-cases (contains groups p)) [
  | inl e ↦ unresolved-head groups ps q qs (rw e at h)
  | inr e ↦ cc (rw e at h)
]
