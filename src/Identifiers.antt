-- ===== src/Identifiers.antt =====
-- apps/backend/authorization/identifiers.py: SpiceDB object ids. `hashlib.sha256(...).hexdigest()`
-- is the parameter `sha256`, from the hashed text to the hexadecimal digest.
pub mod Decimal
pub mod Scope
use knowledge_graph_mvp.Prelude.{Text, codes, decimal, lower, strip, ℕ, ◌++◌}

unfoldable pub connection_prefix : ℕ → Text
unfolding decimal
connection_prefix connection_id = codes "c" ++ (decimal connection_id ++ codes "_")

unfoldable pub document_object_id : ℕ → ℕ → Text
unfolding decimal
document_object_id connection_id source_document_id =
    codes "c" ++ (decimal connection_id ++ (codes "_d" ++ decimal source_document_id))

module _ (sha256 : Text → Text) where
  unfoldable pub digest : ℕ → Text → Text
  unfolding decimal strip lower
  digest connection_id value = sha256 (decimal connection_id ++ (codes ":" ++ lower (strip value)))

  unfoldable pub folder_object_id : ℕ → Text → Text
  unfolding digest
  folder_object_id connection_id drive_folder_id =
      codes "c" ++ (decimal connection_id ++ (codes "_f" ++ digest connection_id drive_folder_id))

  unfoldable pub user_object_id : ℕ → Text → Text
  unfolding digest
  user_object_id connection_id email =
      codes "c" ++ (decimal connection_id ++ (codes "_u" ++ digest connection_id email))

  unfoldable pub group_object_id : ℕ → Text → Text
  unfolding digest
  group_object_id connection_id email =
      codes "c" ++ (decimal connection_id ++ (codes "_g" ++ digest connection_id email))
