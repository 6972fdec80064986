-- ===== src/GoogleGroups/Ended.antt =====
-- The loop of the group resolver over its stack: what it keeps, and the rounds that it may take.
use knowledge_graph_mvp.Prelude.{
  Exec, In, In-contains, List, Result, Text, [], arith, contains, err, false, inl, inr, keep,
  length, list_eq, lower, map, nat_eq, ok, refl, string_eq, strip, suc, true, ℕ, ◌+◌, ◌>>=◌, ◌∷◌,
  ◌≡◌, ◌≢◌, ◌≤◌, ◌⊎◌,
}
use knowledge_graph_mvp.PermissionSync.Hierarchy.{weights, remove, children}
use knowledge_graph_mvp.GoogleGroups.{
  GroupMembership, Frame, GroupError, Memberships, resolved_groups, rounds_spent,
}
use knowledge_graph_mvp.GoogleGroups.Resolved.{IsOrdered}
use knowledge_graph_mvp.PermissionSync.Hierarchy.Rounds.{
  unseen, remove-In_of, unseen-not, unseen-push, unseen-pushed, unseen_of, weights_le, weights_lt,
}

-- A block keeps what its steps keep, whatever they return.
module _ {W E A B : Type 0} (P : Result E A → Type 0) (Q : Result E B → Type 0) where
  pub >>=-keeps :
      (m : Exec W E A) (k : A → Exec W E B) (w : W)
      → P ((m w).0)
      → ((a : A) (w' : W) → P (ok a) → Q ((k a w').0))
      → ((e : E) → P (err e) → Q (err e))
      → Q (((m >>= k) w).0)
  unfolding ◌>>=◌
  >>=-keeps m k w p f g = split (m w) p
    where
      split :
          (x : Result E A × W)
          → P (x.0)
          → Q (
              (let (r, w') = x in
                elim r as (λ _. Result E B × W) [ ok a ↦ k a w' | err e ↦ (err e, w') ]).0)
      split (ok a, w') p = f a w' p
      split (err e, w') p = g e p

-- Children that are known groups, spelled as they are looked up.
abbrev pub AreKnown : List Text → List Text → Type 0
AreKnown known children = (c : Text) → In c children → In c known × (lower (strip c) ≡ c)

abbrev pub IsFetched : List Text → Result GroupError GroupMembership → Type 0
IsFetched known (ok m) = AreKnown known m.child_groups
IsFetched known (err e) = e ≢ rounds_spent

-- A frame as it is pushed.
pub record IsPushed (known : List Text) (email : Text) (visiting : List Text) (f : Frame)
    : Type 0 where
  pub group : f.group_email ≡ lower (strip email)
  pub fresh : contains visiting f.group_email ≡ false
  pub all_pending : (c : Text) → In c f.membership.child_groups → In c f.pending
  pub are_known : AreKnown known f.pending

abbrev pub IsPush : List Text → Text → List Text → Result GroupError Frame → Type 0
IsPush known email visiting (ok f) = IsPushed known email visiting f
IsPush known email visiting (err e) = e ≢ rounds_spent

abbrev pub AllKnown : List Text → List Frame → Type 0
AllKnown known [] = Unit
AllKnown known (f ∷ fs) = AreKnown known f.pending × AllKnown known fs

-- A child of a group on the stack is resolved, still to be looked at, or the group above.
abbrev pub IsReady : List Text → (Text → Type 0) → List Frame → Type 0
IsReady groups above [] = Unit
IsReady groups above (f ∷ fs) =
    ((c : Text) → In c f.membership.child_groups → (In c groups ⊎ In c f.pending) ⊎ above c)
    × IsReady groups (λ c. c ≡ f.group_email) fs

-- What a stack that is unwound leaves.
abbrev pub IsUnwound :
    Memberships → List Frame → Result GroupError (List Text × Memberships) → Type 0
IsUnwound before stack (ok (visiting, after)) =
    IsOrdered after
    × ((x : Text) → In x (resolved_groups before) → In x (resolved_groups after))
    × ((x : Text) → In x (map (λ f. f.group_email) stack) → In x (resolved_groups after))
IsUnwound before stack (err e) = e ≢ rounds_spent

pub IsReady-more :
    (groups groups' : List Text) (above above' : Text → Type 0) (stack : List Frame)
    → ((c : Text) → In c groups → In c groups')
    → ((c : Text) → above c → In c groups' ⊎ above' c)
    → IsReady groups above stack
    → IsReady groups' above' stack
IsReady-more groups groups' above above' [] sub up h = tt
IsReady-more groups groups' above above' (f ∷ fs) sub up h = (
  λ c i. elim (h.0 c i) [
    | inl (inl j) ↦ inl (inl (sub c j))
    | inl (inr j) ↦ inl (inr j)
    | inr a ↦ elim (up c a) [ inl j ↦ inl (inl j) | inr b ↦ inr b ]
  ],
  IsReady-more groups groups' (λ c. c ≡ f.group_email) (λ c. c ≡ f.group_email) fs sub
      (λ c e. inr e) h.1,
)

abbrev pub count : List Text → ℕ
count = weights (λ _. [])

pub count-length : (xs : List Text) → count xs ≡ length xs
unfolding weights
count-length [] = refl
count-length (x ∷ xs) = omega (arith, count-length xs)

-- The rounds that the loop may still take.
unfoldable pub measure : List Text → List Text → Memberships → List Frame → ℕ
unfolding keep
measure known visiting resolved stack =
    count (keep (unseen visiting (resolved_groups resolved)) known)
    + count (keep (unseen visiting (resolved_groups resolved)) known)
    + length stack

unseen-resolved :
    (group : Text) (visiting groups : List Text) (x : Text)
    → unseen (remove group visiting) (group ∷ groups) x ≡ true
    → unseen visiting groups x ≡ true
unseen-resolved group visiting groups x h =
    let (n, m) = unseen-not (remove group visiting) (group ∷ groups) x h in
    unseen_of visiting groups x (λ i. n (remove-In_of x group visiting i (λ p. m (inl p))))
      (λ i. m (inr i))

pub pop-measure :
    (known visiting : List Text) (resolved : Memberships) (f : Frame) (fs : List Frame)
    → suc (
        measure known (remove f.group_email visiting) ((f.group_email, f.membership) ∷ resolved) fs)
      ≤ measure known visiting resolved (f ∷ fs)
unfolding measure
pop-measure known visiting resolved f fs = omega (
  arith,
  weights_le (λ _. []) (unseen visiting (resolved_groups resolved))
      (unseen (remove f.group_email visiting) (f.group_email ∷ resolved_groups resolved)) known
      (unseen-resolved f.group_email visiting (resolved_groups resolved)),
)

pub push-measure :
    (known visiting : List Text) (resolved : Memberships) (g f f' : Frame) (fs : List Frame)
    → In g.group_email known
    → contains visiting g.group_email ≡ false
    → contains (resolved_groups resolved) g.group_email ≡ false
    → suc (measure known (g.group_email ∷ visiting) resolved (g ∷ f' ∷ fs))
      ≤ measure known visiting resolved (f ∷ fs)
unfolding measure
push-measure known visiting resolved g f f' fs i e e' = omega (
  arith,
  weights_lt (λ _. []) (unseen visiting (resolved_groups resolved))
      (unseen (g.group_email ∷ visiting) (resolved_groups resolved)) known g.group_email
      (unseen-push g.group_email visiting (resolved_groups resolved)) i
      (unseen_of visiting (resolved_groups resolved) g.group_email
        (λ j. ground (arith, In-contains visiting g.group_email j))
        (λ j. ground (arith, In-contains (resolved_groups resolved) g.group_email j)))
      (unseen-pushed g.group_email visiting (resolved_groups resolved)),
)
