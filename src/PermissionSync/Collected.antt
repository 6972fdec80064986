-- ===== src/PermissionSync/Collected.antt =====
-- What the state of a delegated run holds: every active document with its reason or its
-- relationships, and nothing but what the groups, the folders and the eligible documents ask for.
use knowledge_graph_mvp.Prelude.{
  In, In-append, In-append_left, In-append_right, In-union, List, String, Text, [], ap, inl, inr,
  refl, subst, sym, ℕ, ◌++◌, ◌↔◌, ◌∙◌, ◌∷◌, ◌≡◌, ◌⊎◌,
}
use knowledge_graph_mvp.Models.{SourceDocument, AclDb, Env}
use knowledge_graph_mvp.SpiceDb.{PermissionTuple, tuple_eq}
use knowledge_graph_mvp.PermissionSync.State.{
  SyncResult, Verdict, excluded, eligible, judge_document, record_verdict, scan_documents,
}

In-end : {A : Type 0} (x y : A) (xs : List A) → In x (xs ++ y ∷ []) ↔ (In x xs ⊎ (x ≡ y))
In-end x y xs = (
  λ i. elim (In-append x xs (y ∷ []) i) [
    | inl j ↦ inl j
    | inr (inl e) ↦ inr e
    | inr (inr z) ↦ absurd z
  ],
  λ i. elim i [
    | inl j ↦ In-append_left x xs (y ∷ []) j
    | inr e ↦ In-append_right x xs (y ∷ []) (inl e)
  ],
)

module _ (judge : SourceDocument → Verdict) where
  -- What the loop over the documents adds to a result.
  pub record HasScanned (before after : SyncResult) (ds : List SourceDocument) : Type 0 where
    pub groups : after.groups_resolved ≡ before.groups_resolved
    pub desired_iff :
        (t : PermissionTuple)
        → In t after.desired ↔ (
            In t before.desired
            ⊎ ((d : SourceDocument) × In d ds
                × ((tuples : List PermissionTuple) × (judge d ≡ eligible tuples) × In t tuples)))
    pub eligible_iff :
        (e : ℕ × Text)
        → In e after.eligible_document_versions ↔ (
            In e before.eligible_document_versions
            ⊎ ((d : SourceDocument) × In d ds
                × ((tuples : List PermissionTuple) × (judge d ≡ eligible tuples)
                    × (e ≡ (d.pk, d.source_permissions_version)))))
    pub excluded_iff :
        (e : ℕ × String)
        → In e after.excluded_document_reasons ↔ (
            In e before.excluded_document_reasons
            ⊎ ((d : SourceDocument) × In d ds
                × ((reason : String) × (judge d ≡ excluded reason) × (e ≡ (d.pk, reason)))))

  -- Membership in what was there, in what the first document adds, and in what the rest adds.
  step_iff :
      (P : SourceDocument → Type 0) (before middle after : Type 0) (d : SourceDocument)
      (ds : List SourceDocument)
      → (middle ↔ (before ⊎ P d))
      → (after ↔ (middle ⊎ ((x : SourceDocument) × In x ds × P x)))
      → after ↔ (before ⊎ ((x : SourceDocument) × In x (d ∷ ds) × P x))
  step_iff P before middle after d ds one rest = (
    λ i. elim (rest.0 i) [
      | inr (x, j, p) ↦ inr (x, inr j, p)
      | inl j ↦ elim (one.0 j) [ inl k ↦ inl k | inr p ↦ inr (d, inl refl, p) ]
    ],
    λ i. elim i [
      | inl k ↦ rest.1 (inl (one.1 (inl k)))
      | inr (x, inl e, p) ↦ rest.1 (inl (one.1 (inr (subst P e p))))
      | inr (x, inr j, p) ↦ rest.1 (inr (x, j, p))
    ],
  )

  -- The first document, by its verdict.
  record HasRecorded (before middle : SyncResult) (d : SourceDocument) : Type 0 where
    groups : middle.groups_resolved ≡ before.groups_resolved
    desired_one :
        (t : PermissionTuple)
        → In t middle.desired ↔ (
            In t before.desired
            ⊎ ((tuples : List PermissionTuple) × (judge d ≡ eligible tuples) × In t tuples))
    eligible_one :
        (e : ℕ × Text)
        → In e middle.eligible_document_versions ↔ (
            In e before.eligible_document_versions
            ⊎ ((tuples : List PermissionTuple) × (judge d ≡ eligible tuples)
                × (e ≡ (d.pk, d.source_permissions_version))))
    excluded_one :
        (e : ℕ × String)
        → In e middle.excluded_document_reasons ↔ (
            In e before.excluded_document_reasons
            ⊎ ((reason : String) × (judge d ≡ excluded reason) × (e ≡ (d.pk, reason))))

  not_both :
      (d : SourceDocument) (reason : String) (tuples : List PermissionTuple)
      → judge d ≡ excluded reason
      → judge d ≡ eligible tuples
      → ⊥
  not_both d reason tuples e e' = apart (sym e ∙ e')
    where
      apart : excluded reason ≡ eligible tuples → ⊥
      apart q = cc

  record_verdict-HasRecorded :
      (before : SyncResult) (d : SourceDocument) (v : Verdict)
      → judge d ≡ v
      → HasRecorded before (record_verdict before d v) d
  unfolding record_verdict
  record_verdict-HasRecorded before d (excluded reason) e = record {
    groups = refl;
    desired_one = λ t. (
      λ i. inl i,
      λ i. elim i [ inl j ↦ j | inr (tuples, e', j) ↦ absurd (not_both d reason tuples e e') ],
    );
    eligible_one = λ x. (
      λ i. inl i,
      λ i. elim i [ inl j ↦ j | inr (tuples, e', j) ↦ absurd (not_both d reason tuples e e') ],
    );
    excluded_one = λ x. (
      λ i. elim ((In-end x (d.pk, reason) before.excluded_document_reasons).0 i) [
        | inl j ↦ inl j
        | inr p ↦ inr (reason, e, p)
      ],
      λ i. (In-end x (d.pk, reason) before.excluded_document_reasons).1 (elim i [
        | inl j ↦ inl j
        | inr (r, e', p) ↦ inr (p ∙ ap (λ z. (d.pk, z)) (same_reason r (sym e' ∙ e)))
      ]),
    );
  }
    where
      same_reason : (r : String) → excluded r ≡ excluded reason → r ≡ reason
      same_reason r q = cc
  record_verdict-HasRecorded before d (eligible ts) e = record {
    groups = refl;
    desired_one = λ t. (
      λ i. elim ((In-union t ts before.desired).0 i) [ inl j ↦ inr (ts, e, j) | inr j ↦ inl j ],
      λ i. (In-union t ts before.desired).1 (elim i [
        | inl j ↦ inr j
        | inr (tuples, e', j) ↦ inl (subst (In t) (same_tuples tuples (sym e' ∙ e)) j)
      ]),
    );
    eligible_one = λ x. (
      λ i.
          elim ((In-end x (d.pk, d.source_permissions_version) before.eligible_document_versions).0
            i) [ inl j ↦ inl j | inr p ↦ inr (ts, e, p) ],
      λ i.
          (In-end x (d.pk, d.source_permissions_version) before.eligible_document_versions).1
            (elim i [ inl j ↦ inl j | inr (tuples, e', p) ↦ inr p ]),
    );
    excluded_one = λ x.
        (λ i. inl i, λ i. elim i [ inl j ↦ j | inr (r, e', p) ↦ absurd (not_both d r ts e' e) ]);
  }
    where
      same_tuples : (us : List PermissionTuple) → eligible us ≡ eligible ts → us ≡ ts
      same_tuples us q = cc

  none_scanned :
      (P : SourceDocument → Type 0) (before : Type 0)
      → before ↔ (before ⊎ ((x : SourceDocument) × In x [] × P x))
  none_scanned P before = (λ i. inl i, λ i. elim i [ inl j ↦ j | inr (x, z, p) ↦ absurd z ])

  -- The loop, from its steps.
  scanned_step :
      (before middle after : SyncResult) (d : SourceDocument) (ds : List SourceDocument)
      → HasRecorded before middle d
      → HasScanned middle after ds
      → HasScanned before after (d ∷ ds)
  scanned_step before middle after d ds one rest = record {
    groups = rest.groups ∙ one.groups;
    desired_iff = λ t. step_iff _ _ _ _ d ds (one.desired_one t) (rest.desired_iff t);
    eligible_iff = λ e. step_iff _ _ _ _ d ds (one.eligible_one e) (rest.eligible_iff e);
    excluded_iff = λ e. step_iff _ _ _ _ d ds (one.excluded_one e) (rest.excluded_iff e);
  }

  scanned_none : (result : SyncResult) → HasScanned result result []
  scanned_none result = record {
    groups = refl;
    desired_iff = λ t. none_scanned _ _;
    eligible_iff = λ e. none_scanned _ _;
    excluded_iff = λ e. none_scanned _ _;
  }

module _ (env : Env) (connection_id : ℕ) (db : AclDb) (unresolved ids invalid : List Text) where
  pub scan_documents-HasScanned :
      (result : SyncResult) (ds : List SourceDocument)
      → HasScanned
          (judge_document env connection_id db unresolved ids invalid)
          result
          (scan_documents env connection_id db unresolved ids invalid result ds)
          ds
  unfolding scan_documents
  scan_documents-HasScanned result [] =
      scanned_none (judge_document env connection_id db unresolved ids invalid) result
  scan_documents-HasScanned result (d ∷ ds) =
      let judge = judge_document env connection_id db unresolved ids invalid in
      let middle = record_verdict result d (judge d) in
      scanned_step judge result middle _ d ds
        (record_verdict-HasRecorded judge result d (judge d) refl)
        (scan_documents-HasScanned middle ds)
