-- ===== src/GoogleGroups/Unwound.antt =====
-- The loop of the group resolver over its stack ends, with all of the stack resolved.
use knowledge_graph_mvp.Prelude.{
  Bool-cases, Exec, In, List, Result, Text, [], arith, contains, err, false, inl, inr, list_eq,
  lower, nat_eq, ok, pure, refl, string_eq, strip, subst, suc, sym, zero, ℕ, ◌>>=◌, ◌∙◌, ◌∷◌, ◌≡◌,
  ◌≤◌, ◌⊎◌,
}
use knowledge_graph_mvp.PermissionSync.Hierarchy.{remove}
use knowledge_graph_mvp.GoogleGroups.{
  GroupMembership, Frame, GroupError, Memberships, push, resolved_groups, sorted, unresolved,
  unwind,
}
use knowledge_graph_mvp.GoogleGroups.Resolved.{
  IsOrdered, In-sorted, In-unresolved, In-unresolved_of, unresolved-head,
}
use knowledge_graph_mvp.GoogleGroups.Ended.{
  >>=-keeps, AllKnown, IsFetched, IsPush, IsReady, IsUnwound, measure, pop-measure, push-measure,
  IsReady-more,
}

list_cases : {A : Type 0} (xs : List A) → (xs ≡ []) ⊎ ((y : A) × (ys : List A) × (xs ≡ y ∷ ys))
list_cases [] = inl refl
list_cases (x ∷ xs) = inr (x, xs, refl)

IsUnwound-more :
    (resolved : Memberships) (f : Frame) (fs : List Frame)
    (out : Result GroupError (List Text × Memberships))
    → IsUnwound ((f.group_email, f.membership) ∷ resolved) fs out
    → IsUnwound resolved (f ∷ fs) out
IsUnwound-more resolved f fs (ok (visiting, after)) u =
    (u.0, λ x i. u.1 x (inr i), λ x i. elim i [ inl q ↦ u.1 x (inl q) | inr j ↦ u.2 x j ])
IsUnwound-more resolved f fs (err e) u = u

pushed_less :
    (resolved : Memberships) (g f f' : Frame) (fs : List Frame)
    → f.group_email ≡ f'.group_email
    → (out : Result GroupError (List Text × Memberships)) → IsUnwound resolved (g ∷ f ∷ fs) out
    → IsUnwound resolved (f' ∷ fs) out
pushed_less resolved g f f' fs same (ok (visiting, after)) u =
    (u.0, u.1, λ x i. u.2 x (inr (elim i [ inl q ↦ inl (q ∙ sym same) | inr j ↦ inr j ])))
pushed_less resolved g f f' fs same (err e) u = u

still_ready :
    (groups pending ps : List Text) (p group : Text)
    → unresolved groups pending ≡ p ∷ ps
    → group ≡ p
    → (c : Text) → (In c groups ⊎ In c pending) ⊎ ⊥
    → (In c groups ⊎ In c ps) ⊎ (c ≡ group)
still_ready groups pending ps p group e q c (inl (inl j)) = inl (inl j)
still_ready groups pending ps p group e q c (inl (inr j)) =
    elim (In-unresolved_of c groups pending j) [
      | inl z ↦ inl (inl z)
      | inr z ↦ elim (subst (In c) e z) [ inl same ↦ inr (same ∙ sym q) | inr i ↦ inl (inr i) ]
    ]
still_ready groups pending ps p group e q c (inr z) = absurd z

finished :
    (groups pending : List Text)
    → unresolved groups pending ≡ []
    → (c : Text) → (In c groups ⊎ In c pending) ⊎ ⊥
    → In c groups
finished groups pending e c (inl (inl j)) = j
finished groups pending e c (inl (inr j)) = elim (In-unresolved_of c groups pending j) [
  | inl z ↦ z
  | inr z ↦ absurd (subst (In c) e z)
]
finished groups pending e c (inr z) = absurd z

module _ {W : Type 0} (fetch : Text → Exec W GroupError GroupMembership) (known : List Text)
    (fetched : (group : Text) (w : W) → IsFetched known ((fetch group w).0)) where
  pub push-IsPush :
      (email : Text) (visiting : List Text) (w : W)
      → IsPush known email visiting ((push fetch email visiting w).0)
  unfolding push pure
  push-IsPush email visiting w = elim (Bool-cases (contains visiting (lower (strip email)))) [
    | inl e ↦ rw e (λ q. cc)
    | inr e ↦ rw e (
        >>=-keeps (IsFetched known) (IsPush known email visiting) (fetch (lower (strip email)))
          (λ m. pure (record {
            group_email = lower (strip email);
            membership = m;
            pending = sorted m.child_groups;
          }))
          w (fetched (lower (strip email)) w)
          (λ m w' h. record {
            group = refl;
            fresh = e;
            all_pending = λ c. (In-sorted c m.child_groups).1;
            are_known = λ c i. h c ((In-sorted c m.child_groups).0 i);
          })
          (λ e h. h))
  ]

  pub unwind-IsUnwound :
      (rounds : ℕ) (visiting : List Text) (resolved : Memberships) (stack : List Frame) (w : W)
      → suc (measure known visiting resolved stack) ≤ rounds
      → IsOrdered resolved
      → IsReady (resolved_groups resolved) (λ c. ⊥) stack
      → AllKnown known stack
      → IsUnwound resolved stack ((unwind fetch rounds visiting resolved stack w).0)
  unfolding unwind
  unwind-IsUnwound zero visiting resolved stack w enough o r k = absurd (omega arith)
  unwind-IsUnwound (suc rounds) visiting resolved [] w enough o r k = (o, λ x i. i, λ x i. absurd i)
  unwind-IsUnwound (suc rounds) visiting resolved (f ∷ fs) w enough o r k = elim (list_cases left) [
    | inl e ↦
        let u =
          unwind-IsUnwound rounds (remove f.group_email visiting)
            ((f.group_email, f.membership) ∷ resolved) fs w
            (omega (arith, pop-measure known visiting resolved f fs))
            (λ c i. finished groups f.pending e c (r.0 c i), o)
            (IsReady-more groups (f.group_email ∷ groups) (λ c. c ≡ f.group_email) (λ c. ⊥) fs
              (λ c. inr) (λ c q. inl (inl q)) r.1)
            k.1 in
        subst (λ x. IsUnwound resolved (f ∷ fs) ((step x).0)) (sym e)
          (IsUnwound-more resolved f fs
            ((unwind fetch rounds (remove f.group_email visiting)
              ((f.group_email, f.membership) ∷ resolved) fs w).0)
            u)
    | inr (p, ps, e) ↦
        let (i, same) =
          k.0 p (In-unresolved p groups f.pending (subst (In p) (sym e) (inl refl))) in
        subst (λ x. IsUnwound resolved (f ∷ fs) ((step x).0)) (sym e)
          (>>=-keeps (IsPush known p visiting) (IsUnwound resolved (f ∷ fs)) (push fetch p visiting)
            (λ g.
              unwind fetch rounds (g.group_email ∷ visiting) resolved
                (g ∷ record f { pending = ps } ∷ fs))
            w (push-IsPush p visiting w)
            (λ g w' h.
              let q : g.group_email ≡ p = h.group ∙ same in
              pushed_less resolved g (record f { pending = ps }) f fs refl
                ((unwind fetch rounds (g.group_email ∷ visiting) resolved
                  (g ∷ record f { pending = ps } ∷ fs) w').0)
                (unwind-IsUnwound rounds (g.group_email ∷ visiting) resolved
                  (g ∷ record f { pending = ps } ∷ fs) w'
                  (omega (
                    arith,
                    push-measure known visiting resolved g f (record f { pending = ps }) fs
                        (subst (λ z. In z known) (sym q) i) h.fresh
                        (subst (λ z. contains groups z ≡ false) (sym q)
                          (unresolved-head groups f.pending p ps e)),
                  ))
                  o
                  (
                    λ c j. inl (inr (h.all_pending c j)),
                    (λ c j. still_ready groups f.pending ps p g.group_email e q c (r.0 c j), r.1),
                  )
                  (
                    h.are_known,
                    (
                      λ c j.
                          k.0 c (In-unresolved c groups f.pending (subst (In c) (sym e) (inr j))),
                      k.1,
                    ),
                  )))
            (λ e h. h))
  ]
    where
      groups : List Text
      groups = resolved_groups resolved

      left : List Text
      left = unresolved groups f.pending

      step : List Text → Result GroupError (List Text × Memberships) × W
      step x = elim x [
        | [] ↦
            unwind fetch rounds (remove f.group_email visiting)
              ((f.group_email, f.membership) ∷ resolved) fs w
        | p ∷ ps ↦
            (push fetch p visiting >>= λ g.
            unwind fetch rounds (g.group_email ∷ visiting) resolved
              (g ∷ record f { pending = ps } ∷ fs))
              w
      ]
