-- ===== src/Lookup/Fresh.antt =====
-- `fresh_authorized_documents` of apps/backend/authorization/lookup.py: the recheck behind the retrieval.
use knowledge_graph_mvp.Prelude.{
  List, Option, Text, [], contains, if◌then◌else◌, is_empty, keep, list_eq, ltb, map, nat_eq, none,
  some, string_eq, to_set, ℕ, ◌&&◌, ◌++◌, ◌==◌, ◌∷◌,
}
use knowledge_graph_mvp.Models.{
  Env, Db, DriveConnection, SourceDocument, delegated_acl, per_user_oauth, permission_verified,
}
use knowledge_graph_mvp.SpiceDb.{tuple_eq}
use knowledge_graph_mvp.Identity.{normalize_trusted_email}
use knowledge_graph_mvp.Lookup.{
  current_authorization, fresh_per_user_documents, active_mode_connections, connection_ids,
}

module _ (env : Env) (now : ℕ) (db : Db) where
  -- The documents of one connection that still have their evidence; `none` is the `return {}`.
  unfoldable pub current_documents : DriveConnection → Text → List ℕ → Option (List SourceDocument)
  current_documents connection normalized_email connection_ids =
      let authority = env.settings.google_permission_authority in
      if authority == delegated_acl
      then some (
          keep
            (λ d.
              permission_verified env.settings now d
              && (d.connection == connection.pk && contains connection_ids d.pk))
            db.documents)
      else if authority == per_user_oauth
      then elim (current_authorization env db connection normalized_email) [
        | none ↦ some []
        | some authorization ↦
            some
              (fresh_per_user_documents env now db connection authorization (some connection_ids))
      ]
      else none

  -- The loop over the connections, `documents` being the dict so far: a document stands for its
  -- entry, under its key.
  unfoldable pub collect_documents :
      Text → List ℕ → List DriveConnection → List SourceDocument → List SourceDocument
  collect_documents normalized_email ids [] documents = documents
  collect_documents normalized_email ids (connection ∷ rest) documents =
      let connection_ids =
        map (λ d. d.pk)
          (keep (λ d. d.connection == connection.pk && contains ids d.pk) db.documents) in
      let skipped = collect_documents normalized_email ids rest documents in
      if is_empty connection_ids
      then skipped
      else elim (current_documents connection normalized_email connection_ids) [
        | none ↦ []
        | some current ↦ collect_documents normalized_email ids rest (documents ++ current)
      ]

  unfoldable pub fresh_authorized_documents : Text → List ℕ → List SourceDocument
  fresh_authorized_documents user_email source_document_ids =
      let ids = to_set (keep (λ n. ltb 0 n) source_document_ids) in
      if is_empty ids then [] else elim (normalize_trusted_email env user_email) [
        | none ↦ []
        | some normalized_email ↦
            collect_documents normalized_email ids (active_mode_connections env db) []
      ]
