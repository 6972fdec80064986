-- ===== src/PermissionSync/Hierarchy/Cycles.antt =====
-- The check of the folder hierarchy is exact: it passes if and only if no folder is above itself.
use knowledge_graph_mvp.Prelude.{
  Bool-cases, In, In-contains, In-keep, List, Result, String, Text, [], arith, contains,
  contains-In, eq_of_==, err, false, if◌then◌else◌, inl, inr, length, list_eq, nat_eq, ok, refl,
  string_eq, subst, suc, sym, ℕ, ◌<◌, ◌==◌, ◌↔◌, ◌∷◌, ◌≡◌, ◌≤◌,
}
use knowledge_graph_mvp.PermissionSync.Hierarchy.Ancestors.{IsAncestor, above_iff}
use knowledge_graph_mvp.Models.{DriveFolder}
use knowledge_graph_mvp.PermissionSync.Hierarchy.{
  Walk, cycle, visited, walk, walks, weights, edges, edges_in, folder_ids, search, validate_acyclic,
}
use knowledge_graph_mvp.PermissionSync.Hierarchy.Search.{
  IsAbove, parent, further, IsOrdered, HasVisited, walk-HasVisited,
}
use knowledge_graph_mvp.PermissionSync.Hierarchy.Rounds.{start-IsAbove}

module _ (edges_of : Text → List Text) where
  -- How many visited nodes stand behind the last place of a node, itself included.
  rank : List Text → Text → ℕ
  unfolding contains
  rank [] x = 0
  rank (y ∷ ys) x = let behind = rank ys x in if contains ys x then behind else suc (length ys)

  rank-le : (xs : List Text) (x : Text) → rank xs x ≤ length xs
  unfolding rank
  rank-le [] x = omega arith
  rank-le (y ∷ ys) x = ground (arith, rank-le ys x)

  rank-In : (x y : Text) (ys : List Text) → In x ys → rank (y ∷ ys) x ≡ rank ys x
  unfolding rank
  rank-In x y ys i = rw (In-contains ys x i) refl

  rank-head :
      (x y : Text) (ys : List Text) → contains ys x ≡ false → rank (y ∷ ys) x ≡ suc (length ys)
  unfolding rank
  rank-head x y ys e = rw e refl

  -- A parent has the smaller rank.
  rank-parent :
      (xs : List Text) (x p : Text)
      → IsOrdered edges_of xs
      → In x xs
      → In p (edges_of x)
      → In p xs × (rank xs p < rank xs x)
  rank-parent [] x p o i e = absurd i
  rank-parent (y ∷ ys) x p o i e = elim (Bool-cases (contains ys x)) [
    | inl h ↦
        let (j, less) = rank-parent ys x p (o.1) (contains-In ys x h) e in
        (inr j, omega (arith, less, rank-In p y ys j, rank-In x y ys (contains-In ys x h)))
    | inr h ↦ elim i [
      | inr k ↦ absurd (ground (arith, In-contains ys x k))
      | inl q ↦
          let j : In p ys = o.0 p (subst (λ z. In p (edges_of z)) q e) in
          (inr j, omega (arith, rank-head x y ys h, rank-In p y ys j, rank-le ys p))
    ]
  ]

  rank-IsAbove :
      (xs : List Text) (x y : Text)
      → IsOrdered edges_of xs
      → In x xs
      → IsAbove edges_of x y
      → In y xs × (rank xs y < rank xs x)
  rank-IsAbove xs x y o i (parent e) = rank-parent xs x y o i e
  rank-IsAbove xs x y o i (further a e) =
      let (j, less) = rank-IsAbove xs x _ o i a in
      let (k, less') = rank-parent xs _ y o j e in (k, omega arith)

  -- Where the visited nodes are ordered, none of them is above itself.
  ordered-acyclic :
      (xs : List Text) (x : Text) → IsOrdered edges_of xs → In x xs → IsAbove edges_of x x → ⊥
  ordered-acyclic xs x o i a = omega (arith, (rank-IsAbove xs x x o i a).1)

  -- The search from one node has visited it, where its own node was not visited before.
  start-HasVisited :
      (fuel : ℕ) (start : Text) (seen seen' : List Text)
      → IsOrdered edges_of seen
      → walk edges_of fuel (start ∷ []) seen ((start, edges_of start) ∷ []) ≡ visited seen'
      → HasVisited edges_of seen ((start, edges_of start) ∷ []) seen'
  start-HasVisited fuel start seen seen' o h =
      walk-HasVisited edges_of fuel (start ∷ []) seen ((start, edges_of start) ∷ []) seen' o
        (λ q i. inl (inr i), tt) h

  -- What the loop over the starting nodes has visited.
  record HasAll (starts seen seen' : List Text) : Type 0 where
    ordered : IsOrdered edges_of seen'
    before : (x : Text) → In x seen → In x seen'
    started : (x : Text) → In x starts → In x seen'

  walks-HasAll :
      (fuel : ℕ) (starts seen seen' : List Text)
      → IsOrdered edges_of seen
      → walks edges_of fuel starts seen ≡ visited seen'
      → HasAll starts seen seen'
  unfolding walks
  walks-HasAll fuel [] seen seen' o h =
      let e : seen ≡ seen' = cc in
      subst (HasAll [] seen) e
        (record { ordered = o; before = λ x i. i; started = λ x i. absurd i })
  walks-HasAll fuel (start ∷ starts) seen seen' o h = elim (Bool-cases (contains seen start)) [
    | inl e ↦
        go seen (λ x i. i) (contains-In seen start e)
          (walks-HasAll fuel starts seen seen' o (rw (e, walks) at h))
    | inr e ↦
        split (walk edges_of fuel (start ∷ []) seen ((start, edges_of start) ∷ [])) refl
          (rw (e, walks) at h) (λ middle o' k. walks-HasAll fuel starts middle seen' o' k)
  ]
    where
      go :
          (middle : List Text)
          → ((x : Text) → In x seen → In x middle)
          → In start middle
          → HasAll starts middle seen'
          → HasAll (start ∷ starts) seen seen'
      go middle sub i v = record {
        ordered = v.ordered;
        before = λ x j. v.before x (sub x j);
        started = λ x j. elim j [
          | inl p ↦ v.before x (subst (λ z. In z middle) (sym p) i)
          | inr k ↦ v.started x k
        ];
      }

      split :
          (w : Walk)
          → walk edges_of fuel (start ∷ []) seen ((start, edges_of start) ∷ []) ≡ w
          → elim w as (λ v. Walk) [
            | cycle ↦ cycle
            | visited middle ↦ walks edges_of fuel starts middle
          ]
            ≡ visited seen'
          → ((middle : List Text)
              → IsOrdered edges_of middle
              → walks edges_of fuel starts middle ≡ visited seen'
              → HasAll starts middle seen')
          → HasAll (start ∷ starts) seen seen'
      split cycle e k rest = absurd (cc)
      split (visited middle) e k rest =
          let v = start-HasVisited fuel start seen middle o e in
          go middle v.before (v.on_stack start (inl refl)) (rest middle v.ordered k)

  module _ (ids : List Text) (known : (x y : Text) → In y (edges_of x) → In y ids) where
    -- What the loop over the starting nodes ends with.
    walks-cycle :
        (starts seen : List Text)
        → ((x : Text) → In x starts → In x ids)
        → walks edges_of (suc (weights edges_of ids)) starts seen ≡ cycle
        → (x : Text) × IsAbove edges_of x x
    unfolding walks
    walks-cycle [] seen in_ids h = absurd (cc)
    walks-cycle (start ∷ starts) seen in_ids h = elim (Bool-cases (contains seen start)) [
      | inl e ↦ walks-cycle starts seen (λ x i. in_ids x (inr i)) (rw (e, walks) at h)
      | inr e ↦
          go
            (walk edges_of (suc (weights edges_of ids)) (start ∷ []) seen
              ((start, edges_of start) ∷ []))
            refl (rw (e, walks) at h)
            (λ seen' k. walks-cycle starts seen' (λ x i. in_ids x (inr i)) k)
            (start-IsAbove edges_of ids known start seen (in_ids start (inl refl)) e)
    ]
      where
        go :
            (w : Walk)
            → walk edges_of
                (suc (weights edges_of ids))
                (start ∷ [])
                seen
                ((start, edges_of start) ∷ [])
              ≡ w
            → elim w as (λ v. Walk) [
              | cycle ↦ cycle
              | visited seen' ↦ walks edges_of (suc (weights edges_of ids)) starts seen'
            ]
              ≡ cycle
            → ((seen' : List Text)
                → walks edges_of (suc (weights edges_of ids)) starts seen' ≡ cycle
                → (x : Text) × IsAbove edges_of x x)
            → (walk edges_of
                    (suc (weights edges_of ids))
                    (start ∷ [])
                    seen
                    ((start, edges_of start) ∷ [])
                  ≡ cycle
                → (x : Text) × IsAbove edges_of x x)
            → (x : Text) × IsAbove edges_of x x
        go cycle e k rest at_start = at_start e
        go (visited seen') e k rest at_start = rest seen' k

-- An edge leads to a folder of the connection.
edges_in-known :
    (ids : List Text) (folders : List DriveFolder) (x y : Text)
    → In y (edges_in ids folders x)
    → In y ids
unfolding edges_in
edges_in-known ids [] x y i = absurd i
edges_in-known ids (f ∷ fs) x y i = elim (Bool-cases (f.drive_folder_id == x)) [
  | inl e ↦
      contains-In ids y (In-keep (contains ids) y f.parent_folder_ids (rw (e, edges_in) at i)).1
  | inr e ↦ edges_in-known ids fs x y (rw (e, edges_in) at i)
]

edges_in-start :
    (ids : List Text) (folders : List DriveFolder) (x y : Text)
    → In y (edges_in ids folders x)
    → In x (folder_ids folders)
unfolding edges_in
edges_in-start ids [] x y i = absurd i
edges_in-start ids (f ∷ fs) x y i = elim (Bool-cases (f.drive_folder_id == x)) [
  | inl e ↦ inl (sym (eq_of_== f.drive_folder_id x e))
  | inr e ↦ inr (edges_in-start ids fs x y (rw (e, edges_in) at i))
]

above-start :
    (folders : List DriveFolder) (x y : Text)
    → IsAbove (edges folders) x y
    → In x (folder_ids folders)
unfolding edges
above-start folders x y (parent i) = edges_in-start (folder_ids folders) folders x y i
above-start folders x y (further a i) = above-start folders x _ a

found :
    (folders : List DriveFolder) → search folders ≡ cycle → (x : Text) × IsAbove (edges folders) x x
unfolding search edges
found folders h =
    walks-cycle (edges folders) (folder_ids folders)
      (λ x y i. edges_in-known (folder_ids folders) folders x y i) (folder_ids folders) []
      (λ x i. i) h

none_above :
    (folders : List DriveFolder) (seen : List Text)
    → search folders ≡ visited seen
    → (x : Text) → IsAbove (edges folders) x x
    → ⊥
unfolding search
none_above folders seen h x a =
    let v =
      walks-HasAll (edges folders) (suc (weights (edges folders) (folder_ids folders)))
        (folder_ids folders) [] seen tt h in
    ordered-acyclic (edges folders) seen x v.ordered (v.started x (above-start folders x x a)) a

-- The check raises `folder_hierarchy_cycle` exactly if a folder of the connection is reached from
-- itself by steps to parents that its row names and that are folders of the connection.
pub validate_acyclic_iff :
    (folders : List DriveFolder)
    → (validate_acyclic folders ≡ err "folder_hierarchy_cycle")
      ↔ ((x : Text) × IsAncestor folders x x)
unfolding validate_acyclic
validate_acyclic_iff folders = go (search folders) refl
  where
    go :
        (w : Walk)
        → search folders ≡ w
        → (elim w as (λ _. Result String (Unit {0})) [
          | cycle ↦ err "folder_hierarchy_cycle"
          | visited seen ↦ ok tt
        ]
            ≡ err "folder_hierarchy_cycle")
          ↔ ((x : Text) × IsAncestor folders x x)
    go cycle e = (λ h. let (x, a) = found folders e in (x, (above_iff folders x x).0 a), λ a. refl)
    go (visited seen) e = (
      λ h. absurd (cc),
      λ a. absurd (none_above folders seen e (a.0) ((above_iff folders (a.0) (a.0)).1 (a.1))),
    )
