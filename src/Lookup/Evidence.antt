-- ===== src/Lookup/Evidence.antt =====
-- What the tests on the database establish: independent descriptions of a usable authorization and
-- of fresh evidence, and that the code asks for all of it.
use knowledge_graph_mvp.Prelude.{
  Bool, Bool-cases, In, In-keep, In-sort_by, List, Option, String, Text, [], ap, arith, eq_of_==,
  false, if◌then◌else◌, inl, inr, is_empty, keep, leb→le, list_eq, nat_eq, none, refl, some,
  string_eq, subset-In, subst, suc, sym, take, true, zero, ℕ, ◌&&◌, ◌+◌, ◌==◌, ◌∷◌, ◌≡◌, ◌≤◌, ◌⊎◌,
}
use knowledge_graph_mvp.Models.{
  Env, Db, DriveConnection, GoogleDriveAuthorization, active, required_scopes, AuthorizationStatus,
  is_active, SourceDocument, UserDocumentVisibility, VisibilityState, at_least, get_document,
  get_document-In, is_visible, verified_visible,
}
use knowledge_graph_mvp.Lookup.{
  active_mode_connections, authorization_unusable, current_authorization, usable_authorization,
  document_joins, is_fresh_evidence, restricted, select_documents, visibility_cutoff,
  authorization_joins, fresh_per_user_documents,
}

-- The connection is stored and enabled, in the configured mode.
pub record IsOpen (env : Env) (db : Db) (c : DriveConnection) : Type 0 where
  pub stored : In c db.connections
  pub enabled : c.enabled ≡ true
  pub mode : c.permission_authority ≡ env.settings.google_permission_authority

pub active_mode_connections-In :
    (env : Env) (db : Db) (c : DriveConnection)
    → In c (active_mode_connections env db)
    → IsOpen env db c
unfolding active_mode_connections
active_mode_connections-In env db c i = open_of (In-keep _ c db.connections (listed _ _ _ i))
  where
    listed :
        (a b : Bool) (cs : List DriveConnection)
        → In c (if a then [] else if b then [] else cs)
        → In c cs
    listed true b cs j = absurd j
    listed false true cs j = absurd j
    listed false false cs j = j

    open_of :
        In c db.connections
          × ((c.enabled && c.permission_authority == env.settings.google_permission_authority)
              ≡ true)
        → IsOpen env db c
    open_of (j, e) = record {
      stored = j;
      enabled = ground arith;
      mode =
          eq_of_== c.permission_authority env.settings.google_permission_authority (ground arith);
    }

-- The user's authorization: active, of the connection's present generation, with every scope.
pub record IsUsable (db : Db) (c : DriveConnection) (email : Text) (a : GoogleDriveAuthorization)
    : Type 0 where
  pub stored : In a db.authorizations
  pub of_connection : a.connection ≡ c.pk
  pub of_user : a.normalized_email ≡ email
  pub status : a.status ≡ active
  pub generation : a.connection_generation ≡ c.authorization_generation
  pub scopes : (scope : String) → In scope required_scopes → In scope a.granted_scopes
  pub credential : is_empty a.encrypted_refresh_credential ≡ false

usable_authorization-In :
    (env : Env) (db : Db) (c : DriveConnection) (found : List GoogleDriveAuthorization)
    (a : GoogleDriveAuthorization)
    → usable_authorization env db c found ≡ some a
    → In a found × (authorization_unusable env c a ≡ false)
unfolding usable_authorization
usable_authorization-In env db c [] a h = cc
usable_authorization-In env db c (x ∷ []) a h =
    let e : (x ≡ a) × (authorization_unusable env c x ≡ false) = ground arith in
    (inl (sym e.0), subst (λ z. authorization_unusable env c z ≡ false) e.0 e.1)
usable_authorization-In env db c (x ∷ y ∷ zs) a h = cc

In-take : {A : Type 0} (n : ℕ) (x : A) (xs : List A) → In x (take n xs) → In x xs
In-take zero x xs i = absurd i
In-take (suc n) x [] i = absurd i
In-take (suc n) x (y ∷ ys) (inl e) = inl e
In-take (suc n) x (y ∷ ys) (inr i) = inr (In-take n x ys i)

usable_of :
    (env : Env) (db : Db) (c : DriveConnection) (email : Text) (a : GoogleDriveAuthorization)
    → In a db.authorizations
    → (a.connection == c.pk && a.normalized_email == email) ≡ true
    → authorization_unusable env c a ≡ false
    → IsUsable db c email a
unfolding authorization_unusable
usable_of env db c email a i e u = record {
  stored = i;
  of_connection = eq_of_== a.connection c.pk (ground arith);
  of_user = eq_of_== a.normalized_email email (ground arith);
  status = active_of a.status (ground arith);
  generation = eq_of_== a.connection_generation c.authorization_generation (ground arith);
  scopes = subset-In required_scopes a.granted_scopes (ground arith);
  credential = ground arith;
}
  where
    active_of : (status : AuthorizationStatus) → is_active status ≡ true → status ≡ active
    active_of active h = refl
    active_of _ h = cc

-- A user's authorization that the lookup goes by is usable.
pub current_authorization-IsUsable :
    (env : Env) (db : Db) (c : DriveConnection) (email : Text) (a : GoogleDriveAuthorization)
    → current_authorization env db c email ≡ some a
    → IsUsable db c email a
unfolding current_authorization
current_authorization-IsUsable env db c email a h =
    let (i, fit) =
      usable_authorization-In env db c (take 2 (keep matches db.authorizations)) a (ground arith) in
    let (stored, e) = In-keep matches a db.authorizations (In-take 2 a _ i) in
    usable_of env db c email a stored e fit
  where
    matches : GoogleDriveAuthorization → Bool
    matches x = x.connection == c.pk && x.normalized_email == email

-- Fresh evidence: a row of the user's authorization, of the present generations of connection and
-- authorization, that found the document visible and was checked and verified within the maximal
-- age; and the document is active and eligible.
pub record HasEvidence (env : Env) (now : ℕ) (db : Db) (c : DriveConnection)
    (a : GoogleDriveAuthorization) (d : SourceDocument) : Type 0 where
  pub row : UserDocumentVisibility
  pub row_stored : In row db.visibilities
  pub of_document : row.source_document ≡ d.pk
  pub of_authorization : row.authorization ≡ a.pk
  pub connection_generation : row.connection_generation ≡ c.authorization_generation
  pub authorization_generation : row.authorization_generation ≡ a.authorization_generation
  pub visible : row.state ≡ verified_visible
  pub checked : now ≤ row.checked_at + env.settings.google_user_visibility_max_age_seconds
  pub verified_at : ℕ
  pub verified : row.spicedb_verified_at ≡ some verified_at
  pub verified_lately : now ≤ verified_at + env.settings.google_user_visibility_max_age_seconds
  pub document_stored : In d db.documents
  pub of_connection : d.connection ≡ c.pk
  pub in_scope : d.active_in_scope ≡ true
  pub eligible : d.retrieval_eligible ≡ true

at_least-some :
    (cutoff : ℕ) (time : Option ℕ)
    → at_least cutoff time ≡ true
    → (t : ℕ) × (time ≡ some t) × (cutoff ≤ t)
unfolding at_least
at_least-some cutoff none h = cc
at_least-some cutoff (some t) h = (t, refl, leb→le cutoff t h)

visible_of : (state : VisibilityState) → is_visible state ≡ true → state ≡ verified_visible
visible_of verified_visible h = refl
visible_of _ h = cc

selected :
    (o : Option SourceDocument) (passes : SourceDocument → Bool) (rest : List SourceDocument)
    (d : SourceDocument)
    → In d (elim o [ none ↦ rest | some x ↦ if passes x then x ∷ rest else rest ])
    → In d rest ⊎ ((o ≡ some d) × (passes d ≡ true))
selected none passes rest d i = inl i
selected (some x) passes rest d i = elim (Bool-cases (passes x)) [
  | inl e ↦
      let j : (d ≡ x) ⊎ In d rest = (rw e at i) in
      elim j [
        | inl p ↦ inr (ap some (sym p), subst (λ z. passes z ≡ true) (sym p) e)
        | inr k ↦ inl k
      ]
  | inr e ↦ inl (rw e at i)
]

module _ (env : Env) (now : ℕ) (db : Db) (c : DriveConnection) (a : GoogleDriveAuthorization) where
  evidence_of :
      (v : UserDocumentVisibility) (d : SourceDocument)
      → In v db.visibilities
      → get_document db v.source_document ≡ some d
      → is_fresh_evidence env now c a v ≡ true
      → document_joins c d ≡ true
      → HasEvidence env now db c a d
  unfolding is_fresh_evidence document_joins visibility_cutoff
  evidence_of v d i g e j =
      let (stored, key) = get_document-In db v.source_document d g in
      let (t, at, lately) =
        at_least-some (visibility_cutoff env now) v.spicedb_verified_at (ground arith) in
      record {
        row = v;
        row_stored = i;
        of_document = sym key;
        of_authorization = eq_of_== v.authorization a.pk (ground arith);
        connection_generation =
            eq_of_== v.connection_generation c.authorization_generation (ground arith);
        authorization_generation =
            eq_of_== v.authorization_generation a.authorization_generation (ground arith);
        visible = visible_of v.state (ground arith);
        checked = omega (arith, leb→le (visibility_cutoff env now) v.checked_at (ground arith));
        verified_at = t;
        verified = at;
        verified_lately = omega arith;
        document_stored = stored;
        of_connection = eq_of_== d.connection c.pk (ground arith);
        in_scope = ground arith;
        eligible = ground arith;
      }

  select_documents-HasEvidence :
      (ids : Option (List ℕ)) (vs : List UserDocumentVisibility) (d : SourceDocument)
      → ((v : UserDocumentVisibility) → In v vs → In v db.visibilities)
      → In d (select_documents env now db c a ids vs)
      → HasEvidence env now db c a d × (restricted ids d.pk ≡ true)
  unfolding select_documents
  select_documents-HasEvidence ids [] d sub i = absurd i
  select_documents-HasEvidence ids (v ∷ vs) d sub i =
      elim (selected (get_document db v.source_document) passes
        (select_documents env now db c a ids vs) d i) [
          | inl j ↦ select_documents-HasEvidence ids vs d (λ w k. sub w (inr k)) j
          | inr (g, t) ↦
              (evidence_of v d (sub v (inl refl)) g (ground arith) (ground arith), ground arith)
        ]
    where
      passes : SourceDocument → Bool
      passes x =
          is_fresh_evidence env now c a v
          && (authorization_joins db c a v && (document_joins c x && restricted ids x.pk))

  -- The documents that a user with an authorization may see have fresh evidence.
  pub fresh_per_user_documents-HasEvidence :
      (ids : Option (List ℕ)) (d : SourceDocument)
      → In d (fresh_per_user_documents env now db c a ids)
      → HasEvidence env now db c a d × (restricted ids d.pk ≡ true)
  unfolding fresh_per_user_documents
  fresh_per_user_documents-HasEvidence ids d i =
      select_documents-HasEvidence ids db.visibilities d (λ v j. j)
        ((In-sort_by (λ x. x.pk) d _).0 i)
