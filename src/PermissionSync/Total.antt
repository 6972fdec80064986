-- ===== src/PermissionSync/Total.antt =====
-- A delegated reconciliation goes through where the server answers.
use knowledge_graph_mvp.Prelude.{
  In, List, Option, Text, [], any, call-bind, false, inl, inr, length, lift-bind, list_eq, minus,
  nat_eq, ok, pure, refl, same_set, starts_with, string_eq, subst, true, ℕ, ◌==◌, ◌↔◌, ◌∙◌, ◌∷◌,
  ◌≡◌, ◌⊎◌,
}
use knowledge_graph_mvp.GoogleGroups.{GroupMembership}
use knowledge_graph_mvp.Models.{Env, AclDb}
use knowledge_graph_mvp.SpiceDb.{PermissionTuple, SpiceDb, tuple_eq}
use knowledge_graph_mvp.SpiceDb.Laws.{Serves, Answers}
use knowledge_graph_mvp.Identifiers.{connection_prefix}
use knowledge_graph_mvp.OauthViewer.{touches_of}
use knowledge_graph_mvp.OauthViewer.Total.{verified_same}
use knowledge_graph_mvp.PermissionSync.State.{build_state}
use knowledge_graph_mvp.PermissionSync.Tuples.{IsManaged}
use knowledge_graph_mvp.PermissionSync.Eligible.{desired-IsManaged}
use knowledge_graph_mvp.PermissionSync.Run.{Reconciled, reconcile}

no_direct :
    (connection_id : ℕ) (ts : List PermissionTuple)
    → ((t : PermissionTuple) → In t ts → IsManaged connection_id t)
    → any (λ item. item.relation == "oauth_viewer") ts ≡ false
unfolding any
no_direct connection_id [] h = refl
no_direct connection_id (t ∷ ts) h =
    rw ((h t (inl refl)).0) (no_direct connection_id ts (λ x i. h x (inr i)))

module _ (s : SpiceDb) (law : Serves s) (answers : Answers s) (connection_id : ℕ) where
  reconcile_managed_total :
      (desired : List PermissionTuple)
      → ((t : PermissionTuple) → In t desired → IsManaged connection_id t)
      → (w : s.World)
      → (r : Reconciled) × (w' : s.World) × (reconcile s (connection_prefix connection_id) desired w
          ≡ (ok r, w'))
  unfolding reconcile pure
  reconcile_managed_total desired managed w =
      let prefix = connection_prefix connection_id in
      let clean = no_direct connection_id desired managed in
      let (current, w1, e1) = answers.reads_managed prefix [] w in
      let (p1, read) = law.read_managed prefix [] w w1 current e1 in
      let (revision, w2, e2) =
        answers.writes (touches_of desired current) (minus current desired) w1 in
      let write = law.write _ _ w1 w2 revision e2 in
      let (verified, w3, e3) = answers.reads_managed prefix revision w2 in
      let (p3, read') = law.read_managed prefix revision w2 w3 verified e3 in
      let same : same_set verified desired ≡ true =
        verified_same (λ t. starts_with prefix t.resource_id) desired current verified
          (law.tuples w) (law.tuples w2) (λ t i. (managed t i).1) read
          (subst
            (λ v.
              (t : PermissionTuple)
              → In t (law.tuples w2) ↔ (
                  In t (touches_of desired current)
                  ⊎ (In t (law.tuples v) × ¬ In t (minus current desired))))
            p1 write)
          read' in
      (
        record {
          revision = revision;
          touched = length (touches_of desired current);
          deleted = length (minus current desired);
        },
        w3,
        lift-bind _ _ w tt (rw clean refl)
            ∙ call-bind _ _ _ w w1 current e1
            ∙ call-bind _ _ _ w1 w2 revision e2
            ∙ call-bind _ _ _ w2 w3 verified e3
            ∙ lift-bind _ _ w3 tt (rw same refl),
      )

  -- With a server that keeps the laws of `Serves` and answers every call, the state that a delegated
  -- run builds goes through: it has no `oauth_viewer`, and the comparison of what was read back
  -- succeeds.
  pub reconcile-build_state_total :
      (env : Env) (db : AclDb) (group_emails : List Text)
      (resolved : Option (List (Text × GroupMembership))) (w : s.World)
      → (r : Reconciled) × (w' : s.World) × (reconcile s
            (connection_prefix connection_id)
            (build_state env connection_id db group_emails resolved).desired
            w
          ≡ (ok r, w'))
  reconcile-build_state_total env db group_emails resolved w =
      reconcile_managed_total (build_state env connection_id db group_emails resolved).desired
        (desired-IsManaged env connection_id db group_emails resolved) w
