-- ===== src/OauthViewer/Total.antt =====
-- A reconciliation goes through where the server answers.
use mathlib.Core.Bool.{true≢false}
use knowledge_graph_mvp.Prelude.{
  Bool, Bool-cases, In, In-contains, In-minus, In-minus_of, List, Text, [], any, call-bind,
  contains, contains-In, inl, inr, length, lift-bind, list_eq, minus, nat_eq, ok, pure, refl,
  same_set, same_set_of, string_eq, subst, sym, true, ◌↔◌, ◌∙◌, ◌∷◌, ◌≡◌, ◌⊎◌,
}
use knowledge_graph_mvp.SpiceDb.{PermissionTuple, SpiceDb, tuple_eq, is_direct_grant}
use knowledge_graph_mvp.SpiceDb.Laws.{Serves, Answers}
use knowledge_graph_mvp.OauthViewer.{
  OauthViewerReconciliation, touches_of, validate_current_scope, reconcile_scope,
}
use knowledge_graph_mvp.OauthViewer.Reconciled.{touches_of-In, missing-In}

validate_current_scope-ok :
    (prefix user : Text) (ts : List PermissionTuple)
    → ((t : PermissionTuple) → In t ts → is_direct_grant prefix user t ≡ true)
    → validate_current_scope ts prefix user ≡ ok tt
unfolding validate_current_scope any
validate_current_scope-ok prefix user [] h = refl
validate_current_scope-ok prefix user (t ∷ ts) h =
    rw (h t (inl refl)) (validate_current_scope-ok prefix user ts (λ x i. h x (inr i)))

-- After a write that did what it was asked to, the read back is what was desired.
pub verified_same :
    (scope : PermissionTuple → Bool) (desired current verified before after : List PermissionTuple)
    → ((t : PermissionTuple) → In t desired → scope t ≡ true)
    → ((t : PermissionTuple) → In t current ↔ (In t before × (scope t ≡ true)))
    → ((t : PermissionTuple)
        → In t after
          ↔ (In t (touches_of desired current) ⊎ (In t before × ¬ In t (minus current desired))))
    → ((t : PermissionTuple) → In t verified ↔ (In t after × (scope t ≡ true)))
    → same_set verified desired ≡ true
verified_same scope desired current verified before after scoped read write read' =
    same_set_of verified desired λ t. (
      λ i.
          let (j, d) = (read' t).0 i in
          elim ((write t).0 j) [
            | inl k ↦ touches_of-In t desired current k
            | inr k ↦ elim (Bool-cases (contains desired t)) [
              | inl y ↦ contains-In desired t y
              | inr n ↦ absurd (
                  k.1 (
                    In-minus_of t current desired ((read t).1 (k.0, d))
                      (λ m. true≢false (sym (In-contains desired t m) ∙ n))))
            ]
          ],
      λ i. (read' t).1 (
        elim (Bool-cases (contains current t)) [
          | inl y ↦ (write t).1 (
              inr
                (((read t).0 (contains-In current t y)).0, λ m. (In-minus t current desired m).1 i))
          | inr n ↦ (write t).1 (
              inl (
                missing-In t desired current (
                  In-minus_of t desired current i
                    (λ m. true≢false (sym (In-contains current t m) ∙ n)))))
        ],
        scoped t i,
      ),
    )

module _ (s : SpiceDb) (law : Serves s) (answers : Answers s) (prefix user : Text) where
  -- With a server that keeps the laws of `Serves` and answers every call, the comparison at the end
  -- succeeds too: a reconciliation of tuples in the user's scope returns.
  pub reconcile_scope_total :
      (desired : List PermissionTuple)
      → ((t : PermissionTuple) → In t desired → is_direct_grant prefix user t ≡ true)
      → (w : s.World)
      → (r : OauthViewerReconciliation) × (w' : s.World) × (reconcile_scope s prefix user desired w
          ≡ (ok r, w'))
  unfolding reconcile_scope pure
  reconcile_scope_total desired scoped w =
      let (current, w1, e1) = answers.reads prefix user [] w in
      let (p1, read) = law.read_direct prefix user [] w w1 current e1 in
      let (revision, w2, e2) =
        answers.writes (touches_of desired current) (minus current desired) w1 in
      let write = law.write _ _ w1 w2 revision e2 in
      let (verified, w3, e3) = answers.reads prefix user revision w2 in
      let (p3, read') = law.read_direct prefix user revision w2 w3 verified e3 in
      let clean = validate_current_scope-ok prefix user current (λ t i. ((read t).0 i).1) in
      let clean' = validate_current_scope-ok prefix user verified (λ t i. ((read' t).0 i).1) in
      let same : same_set verified desired ≡ true =
        verified_same (is_direct_grant prefix user) desired current verified (law.tuples w)
          (law.tuples w2) scoped read
          (subst
            (λ v.
              (t : PermissionTuple)
              → In t (law.tuples w2) ↔ (
                  In t (touches_of desired current)
                  ⊎ (In t (law.tuples v) × ¬ In t (minus current desired))))
            p1 write)
          read' in
      (
        record {
          revision = revision;
          relationships_touched = length (touches_of desired current);
          relationships_deleted = length (minus current desired);
        },
        w3,
        call-bind _ _ _ w w1 current e1
            ∙ lift-bind _ _ w1 tt clean
            ∙ call-bind _ _ _ w1 w2 revision e2
            ∙ call-bind _ _ _ w2 w3 verified e3
            ∙ lift-bind _ _ w3 tt clean'
            ∙ lift-bind _ _ w3 tt (rw same refl),
      )
