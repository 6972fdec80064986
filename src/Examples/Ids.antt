-- ===== src/Examples/Ids.antt =====
-- Concrete runs of the identifiers.
use knowledge_graph_mvp.Prelude.{codes, decimal, refl, starts_with, true, ℕ, ◌↔◌, ◌≡◌}
use knowledge_graph_mvp.Identifiers.{connection_prefix, document_object_id}
use knowledge_graph_mvp.Identifiers.Scope.{document_object_id-injective, connection_prefix_iff}

document_object_id_12_7 : document_object_id 12 7 ≡ codes "c12_d7"
unfolding document_object_id decimal
document_object_id_12_7 = refl

document_object_id-injective_example : (◌≡◌ {A = ℕ} 12 12) × (◌≡◌ {A = ℕ} 7 7)
document_object_id-injective_example = document_object_id-injective 12 12 7 7 refl

connection_prefix_iff_example :
    (starts_with (connection_prefix 1) (document_object_id 12 7) ≡ true) ↔ (◌≡◌ {A = ℕ} 1 12)
connection_prefix_iff_example = connection_prefix_iff 1 12 7
