-- ===== src/Examples/Access.antt =====
-- Concrete runs of the lookup.
use knowledge_graph_mvp.Prelude.{
  In, List, Text, [], add, after_last, all, any, call, codes, contains, decimal, decimal_rounds,
  first, inl, insert_by, is_space, keep, list_eq, lower, lower_char, lstrip, nat_eq, pure, refl,
  some, sort_by, starts_with, string_eq, strip, subset, subst, sym, to_set, ℕ, ◌>>=◌, ◌∷◌, ◌≡◌, ◌⊎◌,
}
use knowledge_graph_mvp.Models.{at_least, effective_root_id, get_authorization, get_document}
use knowledge_graph_mvp.SpiceDb.{PermissionTuple, is_direct_grant}
use knowledge_graph_mvp.SpiceDb.Laws.{list_server, list_server-Serves}
use knowledge_graph_mvp.Identity.{normalize_trusted_email}
use knowledge_graph_mvp.Identifiers.{document_object_id, connection_prefix, digest, user_object_id}
use knowledge_graph_mvp.Lookup.{
  allowed_source_document_ids, active_mode_connections, authorization_joins, authorization_unusable,
  authorized_ids, collect_allowed, conclude, connected_users, connection_ids, current_authorization,
  document_joins, domain_mismatch, fresh_per_user_documents, granted, is_fresh_evidence,
  per_user_allowed_ids, restricted, select_documents, usable_authorization,
  valid_direct_resource_ids, visibility_cutoff,
}
use knowledge_graph_mvp.Lookup.Fresh.{
  fresh_authorized_documents, collect_documents, current_documents,
}
use knowledge_graph_mvp.Lookup.Access.{PerUserAccess, DelegatedAccess, allowed-Right}
use knowledge_graph_mvp.Lookup.Recheck.{IsCurrent, fresh-IsCurrent}
use knowledge_graph_mvp.Examples.{env, db, email, grant, document}

-- The server grants both documents, and there is evidence for document 7 only.
abbrev pub world : List PermissionTuple
world = grant (codes "c1_d7") ∷ grant (codes "c1_d8") ∷ []

pub allowed_run : allowed_source_document_ids list_server env 100 db email world ≡ (7 ∷ [], world)
unfolding allowed_source_document_ids normalize_trusted_email any conclude collect_allowed
    active_mode_connections contains keep ◌>>=◌ connection_ids per_user_allowed_ids
    current_authorization domain_mismatch after_last effective_root_id usable_authorization
    authorization_unusable subset connection_prefix digest document_object_id user_object_id
    authorization_joins authorized_ids connected_users document_joins fresh_per_user_documents
    granted is_fresh_evidence restricted select_documents valid_direct_resource_ids
    visibility_cutoff at_least get_authorization get_document all first insert_by sort_by call pure
    add to_set decimal decimal_rounds is_space lower lower_char lstrip starts_with strip
    is_direct_grant
allowed_run = refl

allowed-Right_example :
    (address : Text) × (normalize_trusted_email env email ≡ some address)
    × (PerUserAccess env 100 db world address 7
        ⊎ DelegatedAccess env 100 db (list_server-Serves.views world) address 7)
allowed-Right_example =
    allowed-Right list_server list_server-Serves env 100 db email world 7
      (subst (λ p. In 7 p.0) (sym allowed_run) (inl refl))

pub fresh_run : fresh_authorized_documents env 120 db email (7 ∷ []) ≡ document 7 ∷ []
unfolding fresh_authorized_documents collect_documents current_documents normalize_trusted_email any
    active_mode_connections contains keep current_authorization domain_mismatch after_last
    effective_root_id usable_authorization authorization_unusable subset authorization_joins
    connected_users document_joins fresh_per_user_documents is_fresh_evidence restricted
    select_documents visibility_cutoff at_least get_authorization get_document all first insert_by
    sort_by add to_set decimal decimal_rounds is_space lower lower_char lstrip strip
fresh_run = refl

fresh-IsCurrent_example :
    In {A = ℕ} 7 (7 ∷ [])
    × ((address : Text) × (normalize_trusted_email env email ≡ some address)
        × IsCurrent env 120 db address (document 7))
fresh-IsCurrent_example =
    fresh-IsCurrent env 120 db email (7 ∷ []) (document 7)
      (subst (In (document 7)) (sym fresh_run) (inl refl))
