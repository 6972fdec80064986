-- ===== src/PermissionSync/Hierarchy/Descendants.antt =====
-- The folders below the invalid ones: the worklist ends, and finds exactly them.
use knowledge_graph_mvp.Prelude.{
  ==-refl, Bool-cases, In, In-contains, In-keep, In-keep_of, In-map, In-map_of, In-to_set, List,
  Text, [], arith, contains, contains-In, false, inl, inr, keep, length, list_eq, map, nat_eq, not,
  refl, string_eq, subst, suc, sym, zero, ℕ, ◌+◌, ◌↔◌, ◌∷◌, ◌≡◌, ◌≤◌, ◌⊎◌,
}
use knowledge_graph_mvp.Models.{DriveFolder}
use knowledge_graph_mvp.PermissionSync.Hierarchy.{
  children, descend, folder_ids, include_descendants, spread,
}

-- `child` names `parent` among its parent folders.
abbrev pub IsChild : List DriveFolder → Text → Text → Type 0
IsChild folders parent child =
    (f : DriveFolder) × In f folders × (f.drive_folder_id ≡ child) × In parent f.parent_folder_ids

-- `x` is `top` or below it.
pub data IsBelow (folders : List DriveFolder) (top : Text) : Text → Type 0 where
  same : IsBelow folders top top
  further : {x y : Text} → IsBelow folders top x → IsChild folders x y → IsBelow folders top y

children-In :
    (folders : List DriveFolder) (x y : Text) → In y (children folders x) ↔ IsChild folders x y
unfolding children
children-In folders x y =
    let kept : List DriveFolder = keep (λ f. contains f.parent_folder_ids x) folders in
    (
      λ i.
          let (f, j, e) =
            In-map (λ f. f.drive_folder_id) y kept ((In-to_set y (folder_ids kept)).0 i) in
          let (k, c) = In-keep (λ f. contains f.parent_folder_ids x) f folders j in
          (f, k, sym e, contains-In f.parent_folder_ids x c),
      λ h.
          let (f, i, e, p) = h in
          (In-to_set y (folder_ids kept)).1 (
            subst (λ z. In z (folder_ids kept)) e
              (In-map_of (λ f. f.drive_folder_id) f kept
                (In-keep_of (λ f. contains f.parent_folder_ids x) f folders i
                  (In-contains f.parent_folder_ids x p)))),
    )

-- The invalid and the waiting folders have a property.
record Holds (P : Text → Type 0) (state : List Text × List Text) : Type 0 where
  on_invalid : (x : Text) → In x (state.0) → P x
  on_waiting : (x : Text) → In x (state.1) → P x

spread-Holds :
    (P : Text → Type 0) (cs : List Text) (state : List Text × List Text)
    → ((c : Text) → In c cs → P c)
    → Holds P state
    → Holds P (spread cs state)
unfolding spread
spread-Holds P [] state new h = h
spread-Holds P (c ∷ cs) (invalid, waiting) new h = elim (Bool-cases (contains invalid c)) [
  | inl e ↦ rw e (spread-Holds P cs (invalid, waiting) (λ x i. new x (inr i)) h)
  | inr e ↦ rw e (
      spread-Holds P cs (c ∷ invalid, c ∷ waiting) (λ x i. new x (inr i))
        (record {
          on_invalid = λ x i. elim i [
            | inl p ↦ subst P (sym p) (new c (inl refl))
            | inr k ↦ h.on_invalid x k
          ];
          on_waiting = λ x i. elim i [
            | inl p ↦ subst P (sym p) (new c (inl refl))
            | inr k ↦ h.on_waiting x k
          ];
        }))
]

-- Nothing is lost, every child is in, and what is new is waiting.
record HasSpread (cs : List Text) (before after : List Text × List Text) : Type 0 where
  kept : (x : Text) → In x (before.0) → In x (after.0)
  waits : (x : Text) → In x (before.1) → In x (after.1)
  added : (c : Text) → In c cs → In c (after.0)
  new_waits : (x : Text) → In x (after.0) → In x (before.0) ⊎ In x (after.1)

spread-HasSpread :
    (cs : List Text) (state : List Text × List Text) → HasSpread cs state (spread cs state)
unfolding spread
spread-HasSpread [] state = record {
  kept = λ x i. i;
  waits = λ x i. i;
  added = λ c i. absurd i;
  new_waits = λ x i. inl i;
}
spread-HasSpread (c ∷ cs) (invalid, waiting) = elim (Bool-cases (contains invalid c)) [
  | inl e ↦ rw e (known (contains-In invalid c e) (spread-HasSpread cs (invalid, waiting)))
  | inr e ↦ rw e (fresh (spread-HasSpread cs (c ∷ invalid, c ∷ waiting)))
]
  where
    known :
        In c invalid
        → HasSpread cs (invalid, waiting) (spread cs (invalid, waiting))
        → HasSpread (c ∷ cs) (invalid, waiting) (spread cs (invalid, waiting))
    known i h = record {
      kept = h.kept;
      waits = h.waits;
      added = λ x j. elim j [
        | inl p ↦ h.kept x (subst (λ z. In z invalid) (sym p) i)
        | inr k ↦ h.added x k
      ];
      new_waits = h.new_waits;
    }

    fresh :
        HasSpread cs (c ∷ invalid, c ∷ waiting) (spread cs (c ∷ invalid, c ∷ waiting))
        → HasSpread (c ∷ cs) (invalid, waiting) (spread cs (c ∷ invalid, c ∷ waiting))
    fresh h = record {
      kept = λ x i. h.kept x (inr i);
      waits = λ x i. h.waits x (inr i);
      added = λ x j. elim j [ inl p ↦ h.kept x (inl p) | inr k ↦ h.added x k ];
      new_waits = λ x i. elim (h.new_waits x i) [
        | inl (inl p) ↦ inr (h.waits x (inl p))
        | inl (inr j) ↦ inl j
        | inr j ↦ inr j
      ];
    }

-- The ids of the list that are not yet invalid.
unfoldable left : List Text → List Text → List Text
left ids invalid = keep (λ x. not (contains invalid x)) ids

-- One more invalid id takes at least one out of those that are left.
left_shrinks :
    (ids invalid : List Text) (c : Text)
    → length (left ids (c ∷ invalid)) ≤ length (left ids invalid)
unfolding left keep contains
left_shrinks [] invalid c = omega arith
left_shrinks (x ∷ ids) invalid c = ground (arith, left_shrinks ids invalid c)

left_loses :
    (ids invalid : List Text) (c : Text)
    → In c ids
    → contains invalid c ≡ false
    → suc (length (left ids (c ∷ invalid))) ≤ length (left ids invalid)
unfolding left keep contains
left_loses [] invalid c i h = absurd i
left_loses (x ∷ ids) invalid c (inl p) h = ground (arith, left_shrinks ids invalid c, ==-refl c)
left_loses (x ∷ ids) invalid c (inr i) h = ground (arith, left_loses ids invalid c i h)

-- The rounds that a state may still take.
unfoldable rounds : List Text → List Text × List Text → ℕ
unfolding left
rounds ids state = length (left ids (state.0)) + length (state.1)

spread-rounds :
    (ids cs : List Text) (state : List Text × List Text)
    → ((c : Text) → In c cs → In c ids)
    → rounds ids (spread cs state) ≤ rounds ids state
unfolding spread rounds
spread-rounds ids [] state known = omega arith
spread-rounds ids (c ∷ cs) (invalid, waiting) known = elim (Bool-cases (contains invalid c)) [
  | inl e ↦ rw (e, spread) (spread-rounds ids cs (invalid, waiting) (λ x i. known x (inr i)))
  | inr e ↦
      rw (e, spread)
        (omega (
          arith,
          spread-rounds ids cs (c ∷ invalid, c ∷ waiting) (λ x i. known x (inr i)),
          left_loses ids invalid c (known c (inl refl)) e,
        ))
]

-- An invalid folder is waiting, or its children are invalid too.
abbrev IsOpenOrDone : (Text → List Text) → List Text × List Text → Type 0
IsOpenOrDone children_of state =
    (x : Text)
    → In x (state.0)
    → In x (state.1) ⊎ ((y : Text) → In y (children_of x) → In y (state.0))

module _ (ids : List Text) (children_of : Text → List Text)
    (known : (x y : Text) → In y (children_of x) → In y ids) where
  descend-Holds :
      (P : Text → Type 0) (fuel : ℕ) (state : List Text × List Text)
      → ((x y : Text) → P x → In y (children_of x) → P y)
      → Holds P state
      → (x : Text) → In x (descend children_of fuel state)
      → P x
  unfolding descend
  descend-Holds P zero (invalid, waiting) down h x i = h.on_invalid x i
  descend-Holds P (suc fuel) (invalid, []) down h x i = h.on_invalid x i
  descend-Holds P (suc fuel) (invalid, y ∷ waiting) down h x i =
      descend-Holds P fuel (spread (children_of y) (invalid, waiting)) down
        (spread-Holds P (children_of y) (invalid, waiting)
          (λ c j. down y c (h.on_waiting y (inl refl)) j)
          (record { on_invalid = h.on_invalid; on_waiting = λ z j. h.on_waiting z (inr j) }))
        x i

  -- With enough rounds nothing waits at the end: the result is closed under children.
  descend-closed :
      (fuel : ℕ) (state : List Text × List Text)
      → rounds ids state ≤ fuel
      → IsOpenOrDone children_of state
      → ((x : Text) → In x (state.0) → In x (descend children_of fuel state))
        × ((x y : Text)
            → In x (descend children_of fuel state)
            → In y (children_of x)
            → In y (descend children_of fuel state))
  unfolding descend rounds
  descend-closed zero (invalid, []) enough done =
      (λ x i. i, λ x y i j. elim (done x i) [ inl z ↦ absurd z | inr all_in ↦ all_in y j ])
  descend-closed zero (invalid, y ∷ waiting) enough done = absurd (omega arith)
  descend-closed (suc fuel) (invalid, []) enough done =
      (λ x i. i, λ x y i j. elim (done x i) [ inl z ↦ absurd z | inr all_in ↦ all_in y j ])
  descend-closed (suc fuel) (invalid, x ∷ waiting) enough done =
      let after : List Text × List Text = spread (children_of x) (invalid, waiting) in
      let h = spread-HasSpread (children_of x) (invalid, waiting) in
      let (old, closed) =
        descend-closed fuel after
          (omega (arith, spread-rounds ids (children_of x) (invalid, waiting) (known x)))
          (still x invalid waiting h done) in
      (λ y i. old y (h.kept y i), closed)
    where
      still :
          (x : Text) (invalid waiting : List Text)
          → HasSpread (children_of x) (invalid, waiting) (spread (children_of x) (invalid, waiting))
          → IsOpenOrDone children_of (invalid, x ∷ waiting)
          → IsOpenOrDone children_of (spread (children_of x) (invalid, waiting))
      still x invalid waiting h done y i = elim (h.new_waits y i) [
        | inr j ↦ inl j
        | inl j ↦ elim (done y j) [
          | inl (inl p) ↦ inr (λ z k. h.added z (subst (λ v. In z (children_of v)) p k))
          | inl (inr k) ↦ inl (h.waits y k)
          | inr all_in ↦ inr (λ z k. h.kept z (all_in z k))
        ]
      ]

length-left : (ids invalid : List Text) → length (left ids invalid) ≤ length ids
unfolding left keep
length-left [] invalid = omega arith
length-left (x ∷ ids) invalid = ground (arith, length-left ids invalid)

length-map : {A B : Type 0} (f : A → B) (xs : List A) → length (map f xs) ≡ length xs
length-map f [] = refl
length-map f (x ∷ xs) = omega (arith, length-map f xs)

-- The rounds that are given are enough: the result holds exactly the given folders and those below
-- one of them.
pub include_descendants-IsBelow :
    (invalid : List Text) (folders : List DriveFolder) (x : Text)
    → In x (include_descendants invalid folders)
      ↔ ((top : Text) × In top invalid × IsBelow folders top x)
unfolding include_descendants rounds
include_descendants-IsBelow invalid folders x =
    let ids = folder_ids folders in
    let known : (a b : Text) → In b (children folders a) → In b ids = λ a b i.
      let (f, j, e, p) = (children-In folders a b).0 i in
      subst (λ v. In v ids) e (In-map_of (λ f. f.drive_folder_id) f folders j) in
    let (old, closed) =
      descend-closed ids (children folders) known (length folders + length invalid)
        (invalid, invalid)
        (omega (arith, length-left ids invalid, length-map (λ f. f.drive_folder_id) folders))
        (λ y i. inl i) in
    (
      descend-Holds ids (children folders) known
          (λ y. (top : Text) × In top invalid × IsBelow folders top y)
          (length folders + length invalid) (invalid, invalid)
          (λ a b h i. (h.0, h.1, further h.2 ((children-In folders a b).0 i)))
          (record { on_invalid = λ y i. (y, i, same); on_waiting = λ y i. (y, i, same) }) x,
      λ h.
          below folders (include_descendants invalid folders) (h.0) x (old (h.0) (h.1))
            (λ a b i c. closed a b i ((children-In folders a b).1 c)) (h.2),
    )
  where
    below :
        (folders : List DriveFolder) (result : List Text) (top x : Text)
        → In top result
        → ((a b : Text) → In a result → IsChild folders a b → In b result)
        → IsBelow folders top x
        → In x result
    below folders result top x i closed same = i
    below folders result top x i closed (further h c) =
        closed _ x (below folders result top _ i closed h) c
