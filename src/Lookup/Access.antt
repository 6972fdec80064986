-- ===== src/Lookup/Access.antt =====
-- The lookup allows nothing without evidence: a usable authorization, fresh evidence and a direct
-- grant in the per-user mode, verified permissions and the permission `view` in the delegated mode.
use knowledge_graph_mvp.Prelude.{
  >>=-ok, All, All-of, Bool, Bool-cases, Exec, In, In-append, In-keep, In-sort_by, In-to_set, List,
  Option, Result, Text, [], arith, call-ok, eq_of_==, err, if◌then◌else◌, inl, inr, is_empty,
  list_eq, nat_eq, none, ok, pure, pure-ok, raise, refl, some, string_eq, subst, sym, to_set, true,
  ℕ, ◌++◌, ◌==◌, ◌∙◌, ◌∷◌, ◌≡◌, ◌⊎◌,
}
use knowledge_graph_mvp.Models.{
  Env, Db, DriveConnection, SourceDocument, GoogleDriveAuthorization, permission_verified,
  delegated_acl, per_user_oauth,
}
use knowledge_graph_mvp.SpiceDb.{PermissionTuple, SpiceDb, tuple_eq}
use knowledge_graph_mvp.SpiceDb.Laws.{Serves}
use knowledge_graph_mvp.Identity.{normalize_trusted_email}
use knowledge_graph_mvp.Identifiers.{connection_prefix, document_object_id, user_object_id}
use knowledge_graph_mvp.OauthViewer.{direct_grant}
use knowledge_graph_mvp.Lookup.Granted.{granted-In, valid_direct_resource_ids-In}
use knowledge_graph_mvp.Lookup.Evidence.{
  IsOpen, HasEvidence, IsUsable, fresh_per_user_documents-HasEvidence,
  current_authorization-IsUsable, active_mode_connections-In,
}
use knowledge_graph_mvp.Lookup.{
  Stop, returned, authorized_ids, connection_ids, delegated_allowed_ids, per_user_allowed_ids,
  valid_direct_resource_ids, current_authorization, active_mode_connections,
  allowed_source_document_ids, collect_allowed, conclude,
}

-- The two rights to a document that the lookup recognises, for the user of a normalized e-mail.
pub record PerUserAccess (env : Env) (now : ℕ) (db : Db) (tuples : List PermissionTuple)
    (email : Text) (id : ℕ) : Type 0 where
  pub mode : env.settings.google_permission_authority ≡ per_user_oauth
  pub connection : DriveConnection
  pub connection_open : IsOpen env db connection
  pub authorization : GoogleDriveAuthorization
  pub usable : IsUsable db connection email authorization
  pub document : SourceDocument
  pub key : document.pk ≡ id
  pub evidence : HasEvidence env now db connection authorization document
  pub grant :
      In (direct_grant connection.pk (user_object_id env.sha256 connection.pk email) id) tuples

pub record DelegatedAccess (env : Env) (now : ℕ) (db : Db) (views : Text → Text → Bool)
    (email : Text) (id : ℕ) : Type 0 where
  pub mode : env.settings.google_permission_authority ≡ delegated_acl
  pub connection : DriveConnection
  pub connection_open : IsOpen env db connection
  pub document : SourceDocument
  pub stored : In document db.documents
  pub key : document.pk ≡ id
  pub of_connection : document.connection ≡ connection.pk
  pub verified : permission_verified env.settings now document ≡ true
  pub view :
      views (user_object_id env.sha256 connection.pk email) (document_object_id connection.pk id)
      ≡ true

module _ (s : SpiceDb) (law : Serves s) (env : Env) (now : ℕ) (db : Db) (email : Text) where
  abbrev Right : s.World → ℕ → Type 0
  Right w id =
      PerUserAccess env now db (law.tuples w) email id
      ⊎ DelegatedAccess env now db (law.views w) email id

  -- One step of the lookup leaves the server as it was, and finds rights only.
  abbrev Finds : s.World → List ℕ → s.World → Type 0
  Finds w ids w' = (w' ≡ w) × ((id : ℕ) → In id ids → Right w id)

  unless_empty :
      (xs : List Text) (ids : List ℕ) (id : ℕ) → In id (if is_empty xs then [] else ids) → In id ids
  unless_empty [] ids id i = absurd i
  unless_empty (x ∷ xs) ids id i = i

  delegated-Finds :
      (c : DriveConnection) (ids : List ℕ) (w w' : s.World)
      → env.settings.google_permission_authority ≡ delegated_acl
      → IsOpen env db c
      → delegated_allowed_ids s env now db c email w ≡ (ok ids, w')
      → Finds w ids w'
  unfolding delegated_allowed_ids
  delegated-Finds c ids w w' mode opened h =
      let (resources, w1, e1, h1) = >>=-ok _ _ w ids w' h in
      let (p, views) = law.lookup _ w w1 resources (call-ok _ _ w resources w1 e1) in
      let (same, q) = pure-ok _ ids w1 w' h1 in
      (
        sym q ∙ p,
        λ id i.
            let (d, j, key, k) =
              granted-In c.pk (to_set resources) _ id
                (unless_empty resources _ id (subst (In id) (sym same) i)) in
            let (stored, t) = In-keep _ d db.documents j in
            inr (record {
              mode = mode;
              connection = c;
              connection_open = opened;
              document = d;
              stored = stored;
              key = key;
              of_connection = eq_of_== d.connection c.pk (ground arith);
              verified = ground arith;
              view = (views _).0 ((In-to_set _ resources).0 k);
            }),
      )

  authorized-Finds :
      (c : DriveConnection) (a : GoogleDriveAuthorization) (ids : List ℕ) (w w' : s.World)
      → env.settings.google_permission_authority ≡ per_user_oauth
      → IsOpen env db c
      → IsUsable db c email a
      → authorized_ids s env now db c email a w ≡ (ok ids, w')
      → Finds w ids w'
  unfolding authorized_ids
  authorized-Finds c a ids w w' mode opened usable h =
      let (tuples, w1, e1, h1) = >>=-ok _ _ w ids w' h in
      let user = user_object_id env.sha256 c.pk email in
      let (p, read) =
        law.read_direct (connection_prefix c.pk) user [] w w1 tuples (call-ok _ _ w tuples w1 e1) in
      let (same, q) = pure-ok _ ids w1 w' h1 in
      (
        sym q ∙ p,
        λ id i.
            let (d, j, key, k) =
              granted-In c.pk (valid_direct_resource_ids env tuples (connection_prefix c.pk) user) _
                id (unless_empty _ _ id (subst (In id) (sym same) i)) in
            inl (record {
              mode = mode;
              connection = c;
              connection_open = opened;
              authorization = a;
              usable = usable;
              document = d;
              key = key;
              evidence = (fresh_per_user_documents-HasEvidence env now db c a none d j).0;
              grant =
                  ((read (direct_grant c.pk user id)).0
                    (valid_direct_resource_ids-In env tuples c.pk user id k)).0;
            }),
      )

  nothing : (ids : List ℕ) (w w' : s.World) → ([] ≡ ids) × (w ≡ w') → Finds w ids w'
  nothing ids w w' (p, q) = (sym q, λ id i. absurd (subst (In id) (sym p) i))

  per_user-Finds :
      (c : DriveConnection) (ids : List ℕ) (w w' : s.World)
      → env.settings.google_permission_authority ≡ per_user_oauth
      → IsOpen env db c
      → per_user_allowed_ids s env now db c email w ≡ (ok ids, w')
      → Finds w ids w'
  unfolding per_user_allowed_ids
  per_user-Finds c ids w w' mode opened h = go (current_authorization env db c email) refl h
    where
      go :
          (o : Option GoogleDriveAuthorization)
          → current_authorization env db c email ≡ o
          → elim o as (λ _. Exec s.World Stop (List ℕ)) [
            | none ↦ pure []
            | some a ↦ authorized_ids s env now db c email a
          ]
              w
            ≡ (ok ids, w')
          → Finds w ids w'
      go none e k = nothing ids w w' (pure-ok [] ids w w' k)
      go (some a) e k =
          authorized-Finds c a ids w w' mode opened
            (current_authorization-IsUsable env db c email a e) k

  connection-Finds :
      (c : DriveConnection) (ids : List ℕ) (w w' : s.World)
      → IsOpen env db c
      → connection_ids s env now db c email w ≡ (ok ids, w')
      → Finds w ids w'
  unfolding connection_ids raise
  connection-Finds c ids w w' opened h =
      elim (Bool-cases (env.settings.google_permission_authority == per_user_oauth)) [
        | inl e ↦ per_user-Finds c ids w w' (eq_of_== _ per_user_oauth e) opened (rw e at h)
        | inr e ↦ elim (Bool-cases (env.settings.google_permission_authority == delegated_acl)) [
          | inl m ↦ delegated-Finds c ids w w' (eq_of_== _ delegated_acl m) opened (rw (e, m) at h)
          | inr m ↦ absurd (stopped (rw (e, m) at h))
        ]
      ]
    where
      stopped : ◌≡◌ {A = Result Stop (List ℕ) × s.World} (err returned, w) (ok ids, w') → ⊥
      stopped k = cc

  collect-Finds :
      (cs : List DriveConnection) (so_far ids : List ℕ) (w w' : s.World)
      → All (IsOpen env db) cs
      → ((id : ℕ) → In id so_far → Right w id)
      → collect_allowed s env now db email cs so_far w ≡ (ok ids, w')
      → Finds w ids w'
  unfolding collect_allowed
  collect-Finds [] so_far ids w w' opened have h =
      let (p, q) = pure-ok so_far ids w w' h in (sym q, λ id i. have id (subst (In id) (sym p) i))
  collect-Finds (c ∷ cs) so_far ids w w' opened have h =
      let (found, w1, e1, h1) = >>=-ok _ _ w ids w' h in
      let (p, rights) = connection-Finds c found w w1 opened.0 e1 in
      let kept : (v : s.World) → v ≡ w → (id : ℕ) → In id (so_far ++ found) → Right v id =
        λ v q id i.
          subst (λ u. Right u id) (sym q)
            (elim (In-append id so_far found i) [ inl j ↦ have id j | inr j ↦ rights id j ]) in
      let (p', rest) = collect-Finds cs (so_far ++ found) ids w1 w' opened.1 (kept w1 p) h1 in
      (p' ∙ p, λ id i. subst (λ u. Right u id) p (rest id i))

conclude-In :
    {W : Type 0} (p : Result Stop (List ℕ) × W) (id : ℕ)
    → In id (conclude p).0
    → (allowed : List ℕ) × (p ≡ (ok allowed, p.1)) × In id allowed
unfolding conclude
conclude-In (ok allowed, w) id i =
    (allowed, refl, (In-to_set id allowed).0 ((In-sort_by (λ n. n) id (to_set allowed)).0 i))
conclude-In (err stop, w) id i = absurd i

-- With a server that keeps the laws of `Serves`, whatever a lookup allows, the user has a right to:
-- the e-mail is normalized, the document's connection is open in the configured mode, and either, in
-- the per-user mode, the user has a usable authorization, fresh evidence and a direct grant in
-- SpiceDB, or, in the delegated mode, the document's permissions are verified and SpiceDB grants the
-- view.
pub allowed-Right :
    (s : SpiceDb) (law : Serves s) (env : Env) (now : ℕ) (db : Db) (user_email : Text) (w : s.World)
    (id : ℕ)
    → In id (allowed_source_document_ids s env now db user_email w).0
    → (email : Text) × (normalize_trusted_email env user_email ≡ some email)
      × (PerUserAccess env now db (law.tuples w) email id
          ⊎ DelegatedAccess env now db (law.views w) email id)
unfolding allowed_source_document_ids
allowed-Right s law env now db user_email w id i =
    go (normalize_trusted_email env user_email) refl i
  where
    go :
        (o : Option Text)
        → normalize_trusted_email env user_email ≡ o
        → In id
            (elim o as (λ _. List ℕ × s.World) [
              | none ↦ ([], w)
              | some email ↦
                  conclude
                    (collect_allowed s env now db email (active_mode_connections env db) [] w)
            ]).0
        → (email : Text) × (normalize_trusted_email env user_email ≡ some email)
          × (PerUserAccess env now db (law.tuples w) email id
              ⊎ DelegatedAccess env now db (law.views w) email id)
    go none e j = absurd j
    go (some email) e j =
        let (allowed, q, k) = conclude-In _ id j in
        (
          email,
          e,
          (collect-Finds s law env now db email (active_mode_connections env db) [] allowed w _
                (All-of (IsOpen env db) _ (λ c. active_mode_connections-In env db c))
                (λ n m. absurd m) q).1
              id k,
        )
