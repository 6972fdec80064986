-- ===== src/PermissionSync/Written.antt =====
-- What a delegated run leaves in a SpiceDB server that keeps its laws.
use knowledge_graph_mvp.Prelude.{
  >>=-ok, In, List, Text, [], any, call-ok, false, lift-ok, list_eq, minus, nat_eq, ok, pure-ok,
  raise_if-ok, starts_with, string_eq, subst, sym, true, true_of_not, ◌==◌, ◌↔◌, ◌∙◌, ◌≡◌, ◌⊎◌,
}
use knowledge_graph_mvp.SpiceDb.{SpiceDb, PermissionTuple, tuple_eq}
use knowledge_graph_mvp.SpiceDb.Laws.{Serves}
use knowledge_graph_mvp.OauthViewer.{touches_of}
use knowledge_graph_mvp.OauthViewer.Reconciled.{exact_of}
use knowledge_graph_mvp.PermissionSync.Run.{Reconciled, reconcile}

module _ (s : SpiceDb) (law : Serves s) (prefix : Text) where
  -- A reconciliation that returns has made the relationships under the prefix exactly the desired
  -- ones, none of them an `oauth_viewer`, and has kept every relationship outside the prefix.
  pub reconcile-exact_written :
      (desired : List PermissionTuple) (w w' : s.World) (r : Reconciled)
      → reconcile s prefix desired w ≡ (ok r, w')
      → (any (λ item. item.relation == "oauth_viewer") desired ≡ false)
        × ((t : PermissionTuple)
            → In t (law.tuples w')
              ↔ (In t desired ⊎ (In t (law.tuples w) × (starts_with prefix t.resource_id ≡ false))))
  unfolding reconcile
  reconcile-exact_written desired w w' r h =
      let (_, w0, e0, h0) = >>=-ok _ _ w r w' h in
      let (current, w1, e1, h1) = >>=-ok _ _ w0 r w' h0 in
      let (revision, w2, e2, h2) = >>=-ok _ _ w1 r w' h1 in
      let (verified, w3, e3, h3) = >>=-ok _ _ w2 r w' h2 in
      let (_, w4, e4, h4) = >>=-ok _ _ w3 r w' h3 in
      let (clean, q0) = lift-ok _ w _ w0 e0 in
      let (p1, read) = law.read_managed prefix [] w0 w1 current (call-ok _ _ w0 current w1 e1) in
      let write = law.write _ _ w1 w2 revision (call-ok _ _ w1 revision w2 e2) in
      let (p3, read') =
        law.read_managed prefix revision w2 w3 verified (call-ok _ _ w2 verified w3 e3) in
      let (same, q4) = lift-ok _ w3 _ w4 e4 in
      let (_, q5) = pure-ok _ r w4 w' h4 in
      let before : w1 ≡ w = p1 ∙ sym q0 in
      let end' : w' ≡ w2 = sym q5 ∙ sym q4 ∙ p3 in
      (
        raise_if-ok _ _ _ clean,
        λ t.
            subst
              (λ v. In t (law.tuples v) ↔ (
                In t desired ⊎ (In t (law.tuples w) × (starts_with prefix t.resource_id ≡ false))))
              (sym end')
              (exact_of (λ x. starts_with prefix x.resource_id) desired current verified
                (law.tuples w) (law.tuples w2)
                (subst
                  (λ v.
                    (x : PermissionTuple)
                    → In x current
                      ↔ (In x (law.tuples v) × (starts_with prefix x.resource_id ≡ true)))
                  (sym q0) read)
                (subst
                  (λ v.
                    (x : PermissionTuple)
                    → In x (law.tuples w2) ↔ (
                        In x (touches_of desired current)
                        ⊎ (In x (law.tuples v) × ¬ In x (minus current desired))))
                  before write)
                read' (true_of_not _ (raise_if-ok _ _ _ same)) t),
      )
