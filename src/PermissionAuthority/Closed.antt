-- ===== src/PermissionAuthority/Closed.antt =====
-- A denied connection is closed to the lookup, whichever mode the service runs in.
use mathlib.Core.Bool.{true≢false}
use knowledge_graph_mvp.Prelude.{In, Text, inl, inr, sym, ℕ, ◌∙◌, ◌≡◌, ◌≢◌}
use knowledge_graph_mvp.Models.{Env, Db, SourceDocument, DriveConnection}
use knowledge_graph_mvp.SpiceDb.{SpiceDb}
use knowledge_graph_mvp.SpiceDb.Laws.{Serves}
use knowledge_graph_mvp.Lookup.{allowed_source_document_ids}
use knowledge_graph_mvp.Lookup.Evidence.{IsOpen}
use knowledge_graph_mvp.Lookup.Access.{allowed-Right}
use knowledge_graph_mvp.PermissionAuthority.Denial.{IsDenied}

-- While a connection is denied, every id that the lookup allows is of a document of another one, with
-- a server that keeps the laws of `Serves`.
pub allowed-Elsewhere :
    (s : SpiceDb) (law : Serves s) (env : Env) (now : ℕ) (db : Db) (connection_id : ℕ)
    → IsDenied connection_id db
    → (user_email : Text) (w : s.World) (id : ℕ)
    → In id (allowed_source_document_ids s env now db user_email w).0
    → (d : SourceDocument) × In d db.documents × (d.pk ≡ id) × (d.connection ≢ connection_id)
allowed-Elsewhere s law env now db connection_id denial user_email w id i =
    let (email, _, right) = allowed-Right s law env now db user_email w id i in
    elim right [
      | inl a ↦ (
        a.document,
        a.evidence.document_stored,
        a.key,
        λ e. elsewhere a.connection a.connection_open (sym a.evidence.of_connection ∙ e),
      )
      | inr a ↦ (
        a.document,
        a.stored,
        a.key,
        λ e. elsewhere a.connection a.connection_open (sym a.of_connection ∙ e),
      )
    ]
  where
    elsewhere : (c : DriveConnection) → IsOpen env db c → c.pk ≡ connection_id → ⊥
    elsewhere c opened e = true≢false (sym opened.enabled ∙ denial.disabled c opened.stored e)
