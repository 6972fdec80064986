-- ===== src/OauthViewer/Reconciled.antt =====
-- What a reconciliation leaves in a SpiceDB server that keeps its laws.
use knowledge_graph_mvp.Prelude.{
  >>=-ok, Bool, Bool-cases, In, In-minus, List, List-cases, Text, [], call-ok, false, if◌then◌else◌,
  inl, inr, lift-ok, list_eq, minus, nat_eq, ok, pure-ok, raise_if-ok, refl, same_set, same_set-In,
  string_eq, subst, sym, true, true_of_not, ℕ, ◌↔◌, ◌∙◌, ◌∷◌, ◌≡◌, ◌⊎◌,
}
use knowledge_graph_mvp.SpiceDb.Laws.{Serves}
use knowledge_graph_mvp.SpiceDb.{
  SpiceDb, PermissionTuple, tuple_eq, tuple_ltb, min_tuple, SpiceDb, is_direct_grant,
}
use knowledge_graph_mvp.Models.{Env, Db, DriveConnection, SourceDocument}
use knowledge_graph_mvp.Identifiers.{connection_prefix}
use knowledge_graph_mvp.OauthViewer.Desired.{desired_tuples-In}
use knowledge_graph_mvp.OauthViewer.{
  direct_grant, touches_of, OauthViewerReconciliation, reconcile_scope,
  reconcile_oauth_viewer_relationships, validated_connection, validated_user_id,
}

min_step :
    (b : Bool) (t u : PermissionTuple) (us : List PermissionTuple)
    → ((x : PermissionTuple) → In (min_tuple x us) (x ∷ us))
    → In (min_tuple (if b then u else t) us) (t ∷ u ∷ us)
min_step true t u us ih = inr (ih u)
min_step false t u us ih = elim (ih t) [ inl p ↦ inl p | inr i ↦ inr (inr i) ]

min_tuple-In : (t : PermissionTuple) (ts : List PermissionTuple) → In (min_tuple t ts) (t ∷ ts)
unfolding min_tuple
min_tuple-In t [] = inl refl
min_tuple-In t (u ∷ us) = min_step (tuple_ltb u t) t u us (λ x. min_tuple-In x us)

-- What a reconciliation touches is desired, and takes in all that was missing.
pub touches_of-In :
    (t : PermissionTuple) (desired current : List PermissionTuple)
    → In t (touches_of desired current)
    → In t desired
unfolding touches_of
touches_of-In t [] current i = i
touches_of-In t (d ∷ ds) current i = elim (List-cases (minus (d ∷ ds) current)) [
  | inl e ↦ one (rw (e, touches_of) at i)
  | inr (u, us, e) ↦ (In-minus t (d ∷ ds) current (rw e (rw (e, touches_of) at i))).0
]
  where
    one : (t ≡ min_tuple d ds) ⊎ ⊥ → In t (d ∷ ds)
    one (inl p) = subst (λ x. In x (d ∷ ds)) (sym p) (min_tuple-In d ds)
    one (inr z) = absurd z

pub missing-In :
    (t : PermissionTuple) (desired current : List PermissionTuple)
    → In t (minus desired current)
    → In t (touches_of desired current)
unfolding touches_of
missing-In t [] current i = (In-minus t [] current i).0
missing-In t (d ∷ ds) current i = elim (List-cases (minus (d ∷ ds) current)) [
  | inl e ↦ absurd (subst (In t) e i)
  | inr (u, us, e) ↦ rw (e, touches_of) (subst (In t) e i)
]

-- The facts that a successful reconciliation of a scope leaves behind, put together.
pub exact_of :
    (scope : PermissionTuple → Bool) (desired current verified before after : List PermissionTuple)
    → ((x : PermissionTuple) → In x current ↔ (In x before × (scope x ≡ true)))
    → ((x : PermissionTuple)
        → In x after
          ↔ (In x (touches_of desired current) ⊎ (In x before × ¬ In x (minus current desired))))
    → ((x : PermissionTuple) → In x verified ↔ (In x after × (scope x ≡ true)))
    → same_set verified desired ≡ true
    → (t : PermissionTuple) → In t after ↔ (In t desired ⊎ (In t before × (scope t ≡ false)))
exact_of scope desired current verified before after read write read' same t = (
  λ i. elim (Bool-cases (scope t)) [
    | inl d ↦ inl ((same_set-In verified desired same t).0 ((read' t).1 (i, d)))
    | inr d ↦ elim ((write t).0 i) [
      | inl j ↦ inl (touches_of-In t desired current j)
      | inr j ↦ inr (j.0, d)
    ]
  ],
  λ i. elim i [
    | inl j ↦ ((read' t).0 ((same_set-In verified desired same t).1 j)).0
    | inr j ↦
        (write t).1 (inr (j.0, λ m. outside j.1 ((read t).0 (In-minus t current desired m).0)))
  ],
)
  where
    outside : scope t ≡ false → In t before × (scope t ≡ true) → ⊥
    outside no_grant (_, grant) = cc

module _ (s : SpiceDb) (law : Serves s) (prefix user : Text) where
  -- A reconciliation that returns has made the direct grants of the user in the connection exactly
  -- the desired tuples, and has kept every other relationship, whatever the server held before.
  pub reconcile_scope-exact :
      (desired : List PermissionTuple) (w w' : s.World) (r : OauthViewerReconciliation)
      → reconcile_scope s prefix user desired w ≡ (ok r, w')
      → (t : PermissionTuple)
      → In t (law.tuples w')
        ↔ (In t desired ⊎ (In t (law.tuples w) × (is_direct_grant prefix user t ≡ false)))
  unfolding reconcile_scope
  reconcile_scope-exact desired w w' r h t =
      let (current, w1, e1, h1) = >>=-ok _ _ w r w' h in
      let (_, w2, e2, h2) = >>=-ok _ _ w1 r w' h1 in
      let (revision, w3, e3, h3) = >>=-ok _ _ w2 r w' h2 in
      let (verified, w4, e4, h4) = >>=-ok _ _ w3 r w' h3 in
      let (_, w5, e5, h5) = >>=-ok _ _ w4 r w' h4 in
      let (_, w6, e6, h6) = >>=-ok _ _ w5 r w' h5 in
      let (p1, read) = law.read_direct prefix user [] w w1 current (call-ok _ _ w current w1 e1) in
      let (_, p2) = lift-ok _ w1 _ w2 e2 in
      let write = law.write _ _ w2 w3 revision (call-ok _ _ w2 revision w3 e3) in
      let (p4, read') =
        law.read_direct prefix user revision w3 w4 verified (call-ok _ _ w3 verified w4 e4) in
      let (_, p5) = lift-ok _ w4 _ w5 e5 in
      let (same, p6) = lift-ok _ w5 _ w6 e6 in
      let (_, p7) = pure-ok _ r w6 w' h6 in
      let start : w2 ≡ w = sym p2 ∙ p1 in
      let end' : w' ≡ w3 = sym p7 ∙ sym p6 ∙ sym p5 ∙ p4 in
      subst
        (λ v.
          In t (law.tuples v)
          ↔ (In t desired ⊎ (In t (law.tuples w) × (is_direct_grant prefix user t ≡ false))))
        (sym end')
        (exact_of (is_direct_grant prefix user) desired current verified (law.tuples w)
          (law.tuples w3) read
          (subst
            (λ v.
              (x : PermissionTuple)
              → In x (law.tuples w3) ↔ (
                  In x (touches_of desired current)
                  ⊎ (In x (law.tuples v) × ¬ In x (minus current desired))))
            start write)
          read' (true_of_not _ (raise_if-ok _ _ _ same)) t)

module _ (s : SpiceDb) (law : Serves s) (env : Env) (db : Db) where
  -- A run that returns, on a server that keeps the laws of `Serves`: the connection and the user pass
  -- their tests, every given id is an active document of the connection, and afterwards the
  -- relationships are the direct grants of the given documents to the user, beside all that was
  -- there outside the user's scope.
  pub reconcile-exact :
      (connection : DriveConnection) (email : Text) (ids : List ℕ) (w w' : s.World)
      (r : OauthViewerReconciliation)
      → reconcile_oauth_viewer_relationships s env db connection email ids w ≡ (ok r, w')
      → (current : DriveConnection) × (user : Text) × (validated_connection env db connection
          ≡ ok current)
        × (validated_user_id env current email ≡ ok user)
        × ((d : ℕ)
            → In d ids
            → (row : SourceDocument) × In row db.documents
              × (row.pk ≡ d)
              × (row.connection ≡ current.pk)
              × (row.active_in_scope ≡ true))
        × ((t : PermissionTuple)
            → In t (law.tuples w') ↔ (
                ((d : ℕ) × In d ids × (t ≡ direct_grant current.pk user d))
                ⊎ (In t (law.tuples w)
                    × (is_direct_grant (connection_prefix current.pk) user t ≡ false))))
  unfolding reconcile_oauth_viewer_relationships
  reconcile-exact connection email ids w w' r h =
      let (current, w1, e1, h1) = >>=-ok _ _ w r w' h in
      let (user, w2, e2, h2) = >>=-ok _ _ w1 r w' h1 in
      let (desired, w3, e3, h3) = >>=-ok _ _ w2 r w' h2 in
      let (p1, q1) = lift-ok _ w current w1 e1 in
      let (p2, q2) = lift-ok _ w1 user w2 e2 in
      let (p3, q3) = lift-ok _ w2 desired w3 e3 in
      let (asked, indexed) = desired_tuples-In env db current user ids desired p3 in
      let exact =
        reconcile_scope-exact s law (connection_prefix current.pk) user desired w3 w' r h3 in
      let start : w3 ≡ w = sym q3 ∙ sym q2 ∙ sym q1 in
      (
        current,
        user,
        p1,
        p2,
        indexed,
        λ t. (
          λ i. elim ((exact t).0 i) [
            | inl j ↦ inl ((asked t).0 j)
            | inr j ↦ inr (subst (λ v. In t (law.tuples v)) start j.0, j.1)
          ],
          λ i. elim i [
            | inl j ↦ (exact t).1 (inl ((asked t).1 j))
            | inr j ↦ (exact t).1 (inr (subst (λ v. In t (law.tuples v)) (sym start) j.0, j.1))
          ],
        ),
      )
