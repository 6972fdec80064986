-- ===== src/Retrieval/Types.antt =====
-- apps/backend/retrieval/types.py. The relevance, a float, and the retrieval modes of an item are
-- read by none of the modelled functions, and are left out.
use knowledge_graph_mvp.Prelude.{List, Text, map, ℕ, ◌++◌}

pub record RetrievedChunk : Type 0 where
  pub source_document_id : ℕ
  pub chunk_id : Text
  pub text : Text

pub record RetrievedFact : Type 0 where
  pub source_document_id : ℕ
  pub chunk_id : Text
  pub source_name : Text
  pub relationship_type : Text
  pub target_name : Text
  pub text : Text

pub record RetrievalEvidence : Type 0 where
  pub chunks : List RetrievedChunk
  pub facts : List RetrievedFact

-- An item of `(*chunks, *facts)`.
pub data Item : Type 0 where
  chunk : RetrievedChunk → Item
  fact : RetrievedFact → Item

unfoldable pub document_of : Item → ℕ
document_of (chunk c) = c.source_document_id
document_of (fact f) = f.source_document_id

unfoldable pub chunk_id_of : Item → Text
chunk_id_of (chunk c) = c.chunk_id
chunk_id_of (fact f) = f.chunk_id

unfoldable pub items : RetrievalEvidence → List Item
items e = map chunk e.chunks ++ map fact e.facts
