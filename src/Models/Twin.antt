-- ===== src/Models/Twin.antt =====
-- The two forms of the verification test on a document, of the query set and of the instance.
use knowledge_graph_mvp.Prelude.{
  Text, arith, eq_of_==, list_eq, nat_eq, string_eq, sym, text_eq_iff, true, ℕ, ◌↔◌, ◌∙◌, ◌≡◌,
}
use knowledge_graph_mvp.Models.Settings.{Settings}
use knowledge_graph_mvp.Models.Document.{
  SourceDocument, permission_verified, is_permission_verified,
}

-- A document is permission verified at a version exactly if the query set selects it and its access
-- list has that version.
pub is_permission_verified_iff :
    (settings : Settings) (now : ℕ) (d : SourceDocument) (version : Text)
    → (is_permission_verified settings now d version ≡ true)
      ↔ ((permission_verified settings now d ≡ true) × (d.source_permissions_version ≡ version))
unfolding is_permission_verified permission_verified
is_permission_verified_iff settings now d version = (
  λ h.
      let p : d.source_permissions_version ≡ version = eq_of_== _ version (ground arith) in
      let q : d.spicedb_permissions_version ≡ version = eq_of_== _ version (ground arith) in
      (
        ground (
          arith,
          text_eq_iff d.spicedb_permissions_version d.source_permissions_version,
          q ∙ sym p,
        ),
        p,
      ),
  λ h.
      let p : d.source_permissions_version ≡ version = h.1 in
      let q : d.spicedb_permissions_version ≡ d.source_permissions_version =
        eq_of_== _ d.source_permissions_version (ground (arith, h.0)) in
      ground (
        arith,
        h.0,
        text_eq_iff d.source_permissions_version version,
        text_eq_iff d.spicedb_permissions_version version,
        p,
        q ∙ p,
      ),
)
