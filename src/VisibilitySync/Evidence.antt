-- ===== src/VisibilitySync/Evidence.antt =====
-- The invalidation of one user's evidence, and what keeps it.
use mathlib.Core.Bool.{true≢false}
use knowledge_graph_mvp.Prelude.{
  Bool, Bool-cases, In, List, String, [], ap, inl, inr, length, list_eq, ltb, nat_eq, none, refl,
  same_key, string_eq, subst, sym, ℕ, ◌&&◌, ◌==◌, ◌∙◌, ◌∷◌, ◌≡◌, ◌⊎◌,
}
use knowledge_graph_mvp.Models.{
  Env, Db, UserDocumentVisibility, UserVisibilitySyncRun, In-update_where, unknown,
}
use knowledge_graph_mvp.VisibilitySync.{
  preinvalidate, candidates_of, invalidate_authorization_evidence, pending_row, prepare_rows,
  update_or_create,
}

-- The row carries no verdict.
abbrev pub Unverified : UserDocumentVisibility → Type 0
Unverified v = (v.state ≡ unknown) × (v.spicedb_verified_at ≡ none) × (v.spicedb_revision ≡ [])

-- No row of the authorization carries a verdict.
abbrev pub AllUnverified : ℕ → List UserDocumentVisibility → Type 0
AllUnverified authorization_id rows =
    (v : UserDocumentVisibility) → In v rows → v.authorization ≡ authorization_id → Unverified v

pub invalidated :
    (now id : ℕ) (reason : String) (db : Db)
    → AllUnverified id (invalidate_authorization_evidence now id reason db).visibilities
unfolding invalidate_authorization_evidence
invalidated now id reason db v i k =
    let (old, j, e) = In-update_where (λ x. x.authorization == id) _ v db.visibilities i in
    elim e [
      | inl (t, p) ↦ subst Unverified (sym p) (refl, refl, refl)
      | inr (t, p) ↦ absurd (
          true≢false
            (sym (same_key old.authorization id (ap (λ x. x.authorization) (sym p) ∙ k)) ∙ t))
    ]

update_or_create-AllUnverified :
    (id : ℕ) (row : UserDocumentVisibility) (rows : List UserDocumentVisibility)
    → Unverified row
    → AllUnverified id rows
    → AllUnverified id (update_or_create row rows)
unfolding update_or_create
update_or_create-AllUnverified id row [] h all_rows v (inl e) k = subst Unverified (sym e) h
update_or_create-AllUnverified id row [] h all_rows v (inr i) k = absurd i
update_or_create-AllUnverified id row (x ∷ xs) h all_rows v i k =
    elim (Bool-cases
      (x.authorization == row.authorization && x.source_document == row.source_document)) [
        | inl e ↦ replaced (rw e at i)
        | inr e ↦
            kept (rw e at i)
              (λ j. update_or_create-AllUnverified id row xs h (λ y l. all_rows y (inr l)) v j k)
      ]
  where
    replaced : (v ≡ row) ⊎ In v xs → Unverified v
    replaced (inl e) = subst Unverified (sym e) h
    replaced (inr j) = all_rows v (inr j) k

    kept :
        (v ≡ x) ⊎ In v (update_or_create row xs)
        → (In v (update_or_create row xs) → Unverified v)
        → Unverified v
    kept (inl e) f = all_rows v (inl e) k
    kept (inr j) f = f j

prepare_rows-AllUnverified :
    (id now marker : ℕ) (run : UserVisibilitySyncRun) (ids : List ℕ)
    (rows : List UserDocumentVisibility)
    → AllUnverified id rows
    → AllUnverified id (prepare_rows now marker run ids rows)
unfolding prepare_rows pending_row
prepare_rows-AllUnverified id now marker run [] rows h = h
prepare_rows-AllUnverified id now marker run (x ∷ xs) rows h =
    prepare_rows-AllUnverified id now marker run xs _
      (update_or_create-AllUnverified id (pending_row now marker run x) rows (refl, refl, refl) h)

-- Whether the cap is kept or not, the first transaction leaves the user no verdict.
pub preinvalidate-AllUnverified :
    (env : Env) (now marker : ℕ) (run : UserVisibilitySyncRun) (db : Db)
    → AllUnverified run.authorization (preinvalidate env now marker run db).1.visibilities
unfolding preinvalidate
preinvalidate-AllUnverified env now marker run db = elim (Bool-cases over) [
  | inl e ↦ rw e (invalidated now run.authorization "refresh_pending" db)
  | inr e ↦ rw e (
      prepare_rows-AllUnverified run.authorization now marker run
        (candidates_of invalid run.connection) invalid.visibilities
        (invalidated now run.authorization "refresh_pending" db))
]
  where
    invalid : Db
    invalid = invalidate_authorization_evidence now run.authorization "refresh_pending" db

    over : Bool
    over =
        ltb env.settings.google_user_visibility_max_documents
          (length (candidates_of invalid run.connection))
