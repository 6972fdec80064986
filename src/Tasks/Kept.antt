-- ===== src/Tasks/Kept.antt =====
-- What an extraction task does to the eligible documents: they stay in scope.
use knowledge_graph_mvp.Prelude.{
  Bool-cases, List, Option, Text, ap, inl, inr, list_eq, nat_eq, refl, string_eq, sym, true, ℕ,
  ◌==◌, ◌∙◌, ◌≡◌,
}
use knowledge_graph_mvp.PermissionSync.Sound.{AllSound}
use knowledge_graph_mvp.Models.{Env, SourceDocument, update_where, per_user_oauth, In-update_where}
use knowledge_graph_mvp.Tasks.{
  TaskDb, Transition, Extracted, transition, is_target, set_graph_extraction_state, is_ready,
  open_gate, mark_per_user_content_ready, queue_document_extraction,
}
use knowledge_graph_mvp.Tasks.Steps.{expected_of, queue-S}
use knowledge_graph_mvp.Tasks.Gate.{is_ready-IsOpened}

moved_sound :
    (document_id time : ℕ) (o : Option Text) (t : Transition) (rows : List SourceDocument)
    → AllSound rows
    → AllSound (update_where (is_target document_id o) (transition time t) rows)
unfolding transition
moved_sound document_id time o t rows sound d i h =
    let (old, j, k) = In-update_where (is_target document_id o) (transition time t) d rows i in
    elim k [
      | inl (e, p) ↦
          ap (λ x. x.active_in_scope) p ∙ sound old j (ap (λ x. x.retrieval_eligible) (sym p) ∙ h)
      | inr (e, p) ↦
          ap (λ x. x.active_in_scope) p ∙ sound old j (ap (λ x. x.retrieval_eligible) (sym p) ∙ h)
    ]

opened_sound :
    (env : Env) (document_id : ℕ) (expected : Text) (time : ℕ) (db : TaskDb)
    (rows : List SourceDocument)
    → (env.settings.google_permission_authority == per_user_oauth) ≡ true
    → AllSound rows
    → AllSound (update_where (is_ready db document_id expected) (open_gate time) rows)
unfolding open_gate
opened_sound env document_id expected time db rows mode sound d i h =
    let (old, j, k) =
      In-update_where (is_ready db document_id expected) (open_gate time) d rows i in
    elim k [
      | inl (e, p) ↦
          ap (λ x. x.active_in_scope) p
          ∙ (is_ready-IsOpened env db document_id expected old mode e).in_scope
      | inr (e, p) ↦
          ap (λ x. x.active_in_scope) p ∙ sound old j (ap (λ x. x.retrieval_eligible) (sym p) ∙ h)
    ]

marked_sound :
    (env : Env) (document_id : ℕ) (expected : Text) (time : ℕ) (a : TaskDb)
    → AllSound a.tables.documents
    → AllSound (mark_per_user_content_ready env time document_id expected a).tables.documents
unfolding mark_per_user_content_ready
marked_sound env document_id expected time a sound =
    elim (Bool-cases (env.settings.google_permission_authority == per_user_oauth)) [
      | inr mode ↦ rw mode sound
      | inl mode ↦
          rw mode (opened_sound env document_id expected time a a.tables.documents mode sound)
    ]

module _ {G : Type 0} (env : Env) (retries now finished_at document_id : ℕ)
    (extract : ℕ → Text → G → Extracted × G) (meanwhile : TaskDb → TaskDb) where
  abbrev after : Text → TaskDb → G → TaskDb
  after content_hash db g =
      (queue_document_extraction env retries now finished_at document_id extract meanwhile
        content_hash db g).1

  -- However an extraction task ends, eligible documents are in scope, if this held before and other
  -- processes keep it.
  pub queue_document_extraction-AllSound :
      (content_hash : Text) (db : TaskDb) (g : G)
      → ((x : TaskDb) → AllSound x.tables.documents → AllSound (meanwhile x).tables.documents)
      → AllSound db.tables.documents
      → AllSound (after content_hash db g).tables.documents
  unfolding set_graph_extraction_state
  queue_document_extraction-AllSound content_hash db g other =
      let expected = expected_of db document_id content_hash in
      let Keeps : TaskDb → TaskDb → Type 0 =
        λ a b. AllSound a.tables.documents → AllSound b.tables.documents in
      queue-S env retries now finished_at document_id expected Keeps Keeps (λ a b c f k h. k (f h))
        (λ a b c f k h. k (f h)) (λ a h. h)
        (λ time o t a. moved_sound document_id time o t a.tables.documents)
        (marked_sound env document_id expected) extract meanwhile other content_hash db g refl
