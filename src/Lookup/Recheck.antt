-- ===== src/Lookup/Recheck.antt =====
-- The recheck after the graph retrieval only narrows, and asks for current evidence again.
use knowledge_graph_mvp.Prelude.{
  All, All-of, Bool, Bool-cases, In, In-append, In-keep, In-map, In-to_set, List, Option, Text, [],
  arith, contains, contains-In, eq_of_==, inl, inr, is_empty, keep, list_eq, ltb, map, nat_eq, none,
  refl, some, string_eq, subst, sym, to_set, true, ℕ, ◌&&◌, ◌++◌, ◌==◌, ◌∷◌, ◌≡◌, ◌⊎◌,
}
use knowledge_graph_mvp.Models.{
  Env, Db, DriveConnection, SourceDocument, GoogleDriveAuthorization, delegated_acl, per_user_oauth,
  permission_verified,
}
use knowledge_graph_mvp.Identity.{normalize_trusted_email}
use knowledge_graph_mvp.Lookup.Evidence.{
  IsOpen, HasEvidence, IsUsable, current_authorization-IsUsable,
  fresh_per_user_documents-HasEvidence, active_mode_connections-In,
}
use knowledge_graph_mvp.Lookup.{
  active_mode_connections, current_authorization, fresh_per_user_documents, restricted,
}
use knowledge_graph_mvp.Lookup.Fresh.{
  collect_documents, current_documents, fresh_authorized_documents,
}

-- The evidence that the database holds for a document: verified permissions in the delegated mode,
-- a usable authorization with fresh evidence in the per-user mode.
pub record IsCurrent (env : Env) (now : ℕ) (db : Db) (email : Text) (d : SourceDocument)
    : Type 0 where
  pub connection : DriveConnection
  pub connection_open : IsOpen env db connection
  pub stored : In d db.documents
  pub evidence :
      ((env.settings.google_permission_authority ≡ delegated_acl)
        × (permission_verified env.settings now d ≡ true)
        × (d.connection ≡ connection.pk))
      ⊎ ((env.settings.google_permission_authority ≡ per_user_oauth)
          × ((a : GoogleDriveAuthorization) × IsUsable db connection email a
              × HasEvidence env now db connection a d))

module _ (env : Env) (now : ℕ) (db : Db) (email : Text) (ids : List ℕ) where
  abbrev Kept : SourceDocument → Type 0
  Kept d = In d.pk ids × IsCurrent env now db email d

  ids_of : DriveConnection → List ℕ
  ids_of c = map (λ d. d.pk) (keep (λ d. d.connection == c.pk && contains ids d.pk) db.documents)

  ids_of-In : (c : DriveConnection) (id : ℕ) → In id (ids_of c) → In id ids
  unfolding ids_of
  ids_of-In c id i =
      let (d, j, e) = In-map (λ x. x.pk) id _ i in
      let (_, t) = In-keep (λ x. x.connection == c.pk && contains ids x.pk) d db.documents j in
      subst (λ z. In z ids) (sym e) (contains-In ids d.pk (ground arith))

  current_documents-Kept :
      (c : DriveConnection) (ds : List SourceDocument)
      → IsOpen env db c
      → current_documents env now db c email (ids_of c) ≡ some ds
      → (d : SourceDocument) → In d ds
      → Kept d
  unfolding current_documents
  current_documents-Kept c ds opened h d i =
      elim (Bool-cases (env.settings.google_permission_authority == delegated_acl)) [
        | inl e ↦ delegated e (rw e at h)
        | inr e ↦ elim (Bool-cases (env.settings.google_permission_authority == per_user_oauth)) [
          | inl m ↦ per_user m (current_authorization env db c email) refl (rw (e, m) at h)
          | inr m ↦ absurd (nowhere (rw (e, m) at h))
        ]
      ]
    where
      verified : SourceDocument → Bool
      verified x =
          permission_verified env.settings now x
          && (x.connection == c.pk && contains (ids_of c) x.pk)

      nowhere : ◌≡◌ {A = Option (List SourceDocument)} none (some ds) → ⊥
      nowhere k = cc

      delegated :
          (env.settings.google_permission_authority == delegated_acl) ≡ true
          → ◌≡◌ {A = Option (List SourceDocument)} (some (keep verified db.documents)) (some ds)
          → Kept d
      delegated e k =
          let same : keep verified db.documents ≡ ds = cc in
          let (stored, t) = In-keep verified d db.documents (subst (In d) (sym same) i) in
          (
            ids_of-In c d.pk (contains-In (ids_of c) d.pk (ground arith)),
            record {
              connection = c;
              connection_open = opened;
              stored = stored;
              evidence = inl (
                eq_of_== env.settings.google_permission_authority delegated_acl e,
                ground arith,
                eq_of_== d.connection c.pk (ground arith),
              );
            },
          )

      per_user :
          (env.settings.google_permission_authority == per_user_oauth) ≡ true
          → (o : Option GoogleDriveAuthorization) → current_authorization env db c email ≡ o
          → elim o as (λ _. Option (List SourceDocument)) [
            | none ↦ some []
            | some a ↦ some (fresh_per_user_documents env now db c a (some (ids_of c)))
          ]
            ≡ some ds
          → Kept d
      per_user e none q k = absurd (subst (In d) (sym empty) i)
        where
          empty : [] ≡ ds
          empty = cc
      per_user e (some a) q k =
          let same : fresh_per_user_documents env now db c a (some (ids_of c)) ≡ ds = cc in
          let (evidence, t) =
            fresh_per_user_documents-HasEvidence env now db c a (some (ids_of c)) d
              (subst (In d) (sym same) i) in
          (
            ids_of-In c d.pk (contains-In (ids_of c) d.pk (unfold restricted in t)),
            record {
              connection = c;
              connection_open = opened;
              stored = evidence.document_stored;
              evidence = inr (
                eq_of_== env.settings.google_permission_authority per_user_oauth e,
                (a, current_authorization-IsUsable env db c email a q, evidence),
              );
            },
          )

  collect_documents-Kept :
      (cs : List DriveConnection) (so_far : List SourceDocument)
      → All (IsOpen env db) cs
      → ((d : SourceDocument) → In d so_far → Kept d)
      → (d : SourceDocument) → In d (collect_documents env now db email ids cs so_far)
      → Kept d
  unfolding collect_documents ids_of
  collect_documents-Kept [] so_far opened have d i = have d i
  collect_documents-Kept (c ∷ cs) so_far opened have d i = elim (Bool-cases (is_empty (ids_of c))) [
    | inl e ↦ collect_documents-Kept cs so_far opened.1 have d (rw e at i)
    | inr e ↦
        go (λ documents h. collect_documents-Kept cs documents opened.1 h d)
          (current_documents env now db c email (ids_of c)) refl (rw e at i)
  ]
    where
      go :
          ((documents : List SourceDocument)
            → ((x : SourceDocument) → In x documents → Kept x)
            → In d (collect_documents env now db email ids cs documents)
            → Kept d)
          → (o : Option (List SourceDocument)) → current_documents env now db c email (ids_of c) ≡ o
          → In d (elim o as (λ _. List SourceDocument) [
            | none ↦ []
            | some current ↦ collect_documents env now db email ids cs (so_far ++ current)
          ])
          → Kept d
      go ih none q j = absurd j
      go ih (some current) q j =
          ih (so_far ++ current)
            (λ x k. elim (In-append x so_far current k) [
              | inl l ↦ have x l
              | inr l ↦ current_documents-Kept c current opened.0 q x l
            ])
            j

-- A document that the recheck returns was asked about, and its evidence is current for the user.
pub fresh-IsCurrent :
    (env : Env) (now : ℕ) (db : Db) (user_email : Text) (ids : List ℕ) (d : SourceDocument)
    → In d (fresh_authorized_documents env now db user_email ids)
    → In d.pk ids
      × ((email : Text) × (normalize_trusted_email env user_email ≡ some email)
          × IsCurrent env now db email d)
unfolding fresh_authorized_documents
fresh-IsCurrent env now db user_email ids d i = elim (Bool-cases (is_empty wanted)) [
  | inl e ↦ absurd (rw e at i)
  | inr e ↦ go (normalize_trusted_email env user_email) refl (rw e at i)
]
  where
    wanted : List ℕ
    wanted = to_set (keep (λ n. ltb 0 n) ids)

    go :
        (o : Option Text)
        → normalize_trusted_email env user_email ≡ o
        → In d (elim o as (λ _. List SourceDocument) [
          | none ↦ []
          | some email ↦
              collect_documents env now db email wanted (active_mode_connections env db) []
        ])
        → In d.pk ids
          × ((email : Text) × (normalize_trusted_email env user_email ≡ some email)
              × IsCurrent env now db email d)
    go none q j = absurd j
    go (some email) q j =
        let (k, current) =
          collect_documents-Kept env now db email wanted (active_mode_connections env db) []
            (All-of (IsOpen env db) _ (λ c. active_mode_connections-In env db c)) (λ x l. absurd l)
            d j in
        ((In-keep (λ n. ltb 0 n) d.pk ids ((In-to_set d.pk _).0 k)).0, (email, q, current))
