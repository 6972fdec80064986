-- ===== src/Lookup/Granted.antt =====
-- What the direct grants and the object ids that the server returns stand for.
-- grant in the per-user mode, verified permissions and the permission `view` in the delegated mode.
use knowledge_graph_mvp.Prelude.{
  Bool, In, In-keep, In-map, In-to_set, List, Text, [], arith, contains, contains-In, false,
  if◌then◌else◌, keep, label_eq_iff, list_eq, nat_eq, string_eq, subst, sym, text_eq_iff, true, ℕ,
  ◌≡◌,
}
use knowledge_graph_mvp.Models.{Env, SourceDocument}
use knowledge_graph_mvp.SpiceDb.{PermissionTuple, tuple_eq, is_direct_grant}
use knowledge_graph_mvp.Identifiers.{connection_prefix, document_object_id}
use knowledge_graph_mvp.OauthViewer.{direct_grant}
use knowledge_graph_mvp.Lookup.{granted, valid_direct_resource_ids}

pub granted-In :
    (c : ℕ) (resources : List Text) (ds : List SourceDocument) (id : ℕ)
    → In id (granted c resources ds)
    → (d : SourceDocument) × In d ds × (d.pk ≡ id) × In (document_object_id c id) resources
unfolding granted
granted-In c resources ds id i =
    let (d, j, e) = In-map (λ x. x.pk) id _ i in
    let (k, t) = In-keep (λ x. contains resources (document_object_id c x.pk)) d ds j in
    (
      d,
      k,
      sym e,
      subst (λ z. In (document_object_id c z) resources) (sym e)
          (contains-In resources (document_object_id c d.pk) t),
    )

-- A tuple in the scope of a user's direct grants is determined by its document.
pub grant_of :
    (c : ℕ) (user : Text) (id : ℕ) (t : PermissionTuple)
    → is_direct_grant (connection_prefix c) user t ≡ true
    → t.resource_id ≡ document_object_id c id
    → t ≡ direct_grant c user id
unfolding is_direct_grant direct_grant
grant_of c user id t h e = ground (
  arith,
  label_eq_iff t.resource_type "kgm/document",
  label_eq_iff t.relation "oauth_viewer",
  label_eq_iff t.subject_type "kgm/user",
  text_eq_iff t.subject_id user,
  label_eq_iff t.subject_relation "",
)

pub valid_direct_resource_ids-In :
    (env : Env) (ts : List PermissionTuple) (c : ℕ) (user : Text) (id : ℕ)
    → In (document_object_id c id) (valid_direct_resource_ids env ts (connection_prefix c) user)
    → In (direct_grant c user id) ts
unfolding valid_direct_resource_ids
valid_direct_resource_ids-In env ts c user id i =
    let (t, j, e) =
      In-map (λ x. x.resource_id) (document_object_id c id)
        (keep (is_direct_grant (connection_prefix c) user) ts)
        ((In-to_set (document_object_id c id) _).0 (listed _ _ i)) in
    let (k, g) = In-keep (is_direct_grant (connection_prefix c) user) t ts j in
    subst (λ z. In z ts) (grant_of c user id t g (sym e)) k
  where
    listed :
        (b : Bool) (xs : List Text)
        → In (document_object_id c id) (if b then [] else xs)
        → In (document_object_id c id) xs
    listed true xs j = absurd j
    listed false xs j = j
