-- ===== src/GoogleGroups/Closed.antt =====
-- The resolver of groups ends, and each group that it returns was resolved after its children.
use knowledge_graph_mvp.Prelude.{
  Bool-cases, Exec, In, List, Result, Text, [], arith, contains, contains-In, err, inl, inr, length,
  list_eq, lower, nat_eq, ok, pure, refl, string_eq, strip, subst, suc, sym, ℕ, ◌+◌, ◌>>=◌, ◌∷◌,
  ◌≢◌, ◌≤◌,
}
use knowledge_graph_mvp.PermissionSync.Hierarchy.Rounds.{weights-keep, unseen}
use knowledge_graph_mvp.GoogleGroups.{
  GroupMembership, Frame, GroupError, Memberships, push, resolved_groups, sorted, unwind,
  resolve_each, rounds_spent,
}
use knowledge_graph_mvp.GoogleGroups.Resolved.{IsOrdered, IsResolution, In-sorted}
use knowledge_graph_mvp.GoogleGroups.Ended.{
  >>=-keeps, IsFetched, IsPush, IsUnwound, measure, count-length,
}
use knowledge_graph_mvp.GoogleGroups.Unwound.{push-IsPush, unwind-IsUnwound}

module _ {W : Type 0} (fetch : Text → Exec W GroupError GroupMembership) (known : List Text)
    (fetched : (group : Text) (w : W) → IsFetched known ((fetch group w).0)) where
  -- What the loop over the given groups leaves.
  IsEach : Memberships → List Text → Result GroupError Memberships → Type 0
  IsEach before emails (ok after) =
      IsOrdered after
      × ((x : Text) → In x (resolved_groups before) → In x (resolved_groups after))
      × ((e : Text) → In e emails → In (lower (strip e)) (resolved_groups after))
  IsEach before emails (err e) = e ≢ rounds_spent

  IsEach-more :
      (before middle : Memberships) (email : Text) (emails : List Text)
      (out : Result GroupError Memberships)
      → ((x : Text) → In x (resolved_groups before) → In x (resolved_groups middle))
      → In (lower (strip email)) (resolved_groups middle)
      → IsEach middle emails out
      → IsEach before (email ∷ emails) out
  unfolding IsEach
  IsEach-more before middle email emails (ok after) sub i u = (
    u.0,
    λ x j. u.1 x (sub x j),
    λ x j. elim j [
      | inl q ↦
          subst (λ z. In (lower (strip z)) (resolved_groups after)) (sym q)
            (u.1 (lower (strip email)) i)
      | inr j ↦ u.2 x j
    ],
  )
  IsEach-more before middle email emails (err e) sub i u = u

  start-measure :
      (visiting : List Text) (resolved : Memberships) (f : Frame)
      → measure known visiting resolved (f ∷ []) ≤ suc (length known + length known)
  unfolding measure
  start-measure visiting resolved f = omega (
    arith,
    count-length known,
    weights-keep (λ _. []) (unseen visiting (resolved_groups resolved)) known,
  )

  resolve_each-IsEach :
      (rounds : ℕ) (emails visiting : List Text) (resolved : Memberships) (w : W)
      → suc (suc (length known + length known)) ≤ rounds
      → IsOrdered resolved
      → IsEach resolved emails ((resolve_each fetch rounds emails visiting resolved w).0)
  unfolding resolve_each IsEach pure
  resolve_each-IsEach rounds [] visiting resolved w enough o = (o, λ x i. i, λ e i. absurd i)
  resolve_each-IsEach rounds (email ∷ emails) visiting resolved w enough o =
      elim (Bool-cases (contains (resolved_groups resolved) (lower (strip email)))) [
        | inl e ↦ rw e (
            IsEach-more resolved resolved email emails
              ((resolve_each fetch rounds emails visiting resolved w).0) (λ x i. i)
              (contains-In (resolved_groups resolved) (lower (strip email)) e)
              (resolve_each-IsEach rounds emails visiting resolved w enough o))
        | inr e ↦ rw e (
            >>=-keeps (IsPush known email visiting) (IsEach resolved (email ∷ emails))
              (push fetch email visiting)
              (λ f. unwind fetch rounds (f.group_email ∷ visiting) resolved (f ∷ []) >>= λ s.
                resolve_each fetch rounds emails (s.0) (s.1))
              w (push-IsPush fetch known fetched email visiting w)
              (λ f w' h.
                >>=-keeps (IsUnwound resolved (f ∷ [])) (IsEach resolved (email ∷ emails))
                  (unwind fetch rounds (f.group_email ∷ visiting) resolved (f ∷ []))
                  (λ s. resolve_each fetch rounds emails (s.0) (s.1)) w'
                  (unwind-IsUnwound fetch known fetched rounds (f.group_email ∷ visiting) resolved
                    (f ∷ []) w' (omega (arith, start-measure (f.group_email ∷ visiting) resolved f))
                    o (λ c i. inl (inr (h.all_pending c i)), tt) (h.are_known, tt))
                  (λ s w'' u.
                    IsEach-more resolved (s.1) email emails
                      ((resolve_each fetch rounds emails (s.0) (s.1) w'').0) u.1
                      (subst (λ z. In z (resolved_groups (s.1))) h.group
                        (u.2 f.group_email (inl refl)))
                      (resolve_each-IsEach rounds emails (s.0) (s.1) w'' enough u.0))
                  (λ e h. h))
              (λ e h. h))
      ]

  pub resolve_each-IsResolution :
      (rounds : ℕ) (emails : List Text) (w : W)
      → suc (suc (length known + length known)) ≤ rounds
      → IsResolution emails ((resolve_each fetch rounds (sorted emails) [] [] w).0)
  unfolding IsEach
  resolve_each-IsResolution rounds emails w enough =
      settle ((resolve_each fetch rounds (sorted emails) [] [] w).0)
        (resolve_each-IsEach rounds (sorted emails) [] [] w enough tt)
    where
      settle :
          (out : Result GroupError Memberships)
          → IsEach [] (sorted emails) out
          → IsResolution emails out
      settle (ok after) u = (u.0, λ e i. u.2 e ((In-sorted e emails).1 i))
      settle (err e) u = u
