-- ===== src/Models/Store.antt =====
-- The database: the tables that the modelled code reads and writes.
use knowledge_graph_mvp.Prelude.{
  Bool, Bool-cases, In, In-keep, In-map, List, Option, [], eq_of_==, false, first, if◌then◌else◌,
  inl, inr, keep, list_eq, map, nat_eq, refl, some, string_eq, true, ℕ, ◌==◌, ◌∙◌, ◌∷◌, ◌≡◌, ◌⊎◌,
}
use knowledge_graph_mvp.Models.Connection.{DriveConnection}
use knowledge_graph_mvp.Models.Document.{SourceDocument, UserDocumentVisibility}
use knowledge_graph_mvp.Models.Authorization.{GoogleDriveAuthorization, UserVisibilitySyncRun}

pub record Db : Type 0 where
  pub connections : List DriveConnection
  pub documents : List SourceDocument
  pub authorizations : List GoogleDriveAuthorization
  pub visibilities : List UserDocumentVisibility
  pub visibility_runs : List UserVisibilitySyncRun

abbrev pub empty_db : Db
empty_db = record {
  connections = [];
  documents = [];
  authorizations = [];
  visibilities = [];
  visibility_runs = [];
}

-- `queryset.filter(test).update(change)` on a table.
unfoldable pub update_where {ℓ} : {A : Type ℓ} → (A → Bool) → (A → A) → List A → List A
update_where test change = map (λ row. if test row then change row else row)

-- `objects.get(pk=pk)`; `none` is `DoesNotExist`.
unfoldable pub get_connection : Db → ℕ → Option DriveConnection
get_connection db pk = first (keep (λ c. c.pk == pk) db.connections)

unfoldable pub get_authorization : Db → ℕ → Option GoogleDriveAuthorization
get_authorization db pk = first (keep (λ a. a.pk == pk) db.authorizations)

unfoldable pub get_visibility_run : Db → ℕ → Option UserVisibilitySyncRun
get_visibility_run db pk = first (keep (λ r. r.pk == pk) db.visibility_runs)

unfoldable pub get_document : Db → ℕ → Option SourceDocument
get_document db pk = first (keep (λ d. d.pk == pk) db.documents)

-- A row that `objects.get` returns is in the table, under the key that was asked for.
pub first-In : {A : Type 0} (row : A) (rows : List A) → first rows ≡ some row → In row rows
unfolding first
first-In row [] h = cc
first-In row (r ∷ rs) h = inl cc

found :
    {A : Type 0} (test : A → Bool) (rows : List A) (row : A)
    → first (keep test rows) ≡ some row
    → In row rows × (test row ≡ true)
found test rows row h = In-keep test row rows (first-In row (keep test rows) h)

pub get_document-In :
    (db : Db) (pk : ℕ) (d : SourceDocument)
    → get_document db pk ≡ some d
    → In d db.documents × (d.pk ≡ pk)
unfolding get_document
get_document-In db pk d h = let (i, e) = found _ db.documents d h in (i, eq_of_== d.pk pk e)

pub get_authorization-In :
    (db : Db) (pk : ℕ) (a : GoogleDriveAuthorization)
    → get_authorization db pk ≡ some a
    → In a db.authorizations × (a.pk ≡ pk)
unfolding get_authorization
get_authorization-In db pk a h =
    let (i, e) = found _ db.authorizations a h in (i, eq_of_== a.pk pk e)

pub get_connection-In :
    (db : Db) (pk : ℕ) (c : DriveConnection)
    → get_connection db pk ≡ some c
    → In c db.connections × (c.pk ≡ pk)
unfolding get_connection
get_connection-In db pk c h = let (i, e) = found _ db.connections c h in (i, eq_of_== c.pk pk e)

-- A row after an update was there before, changed if the test selected it.
pub In-update_where :
    {A : Type 0} (test : A → Bool) (change : A → A) (row : A) (rows : List A)
    → In row (update_where test change rows)
    → (old : A) × In old rows
      × (((test old ≡ true) × (row ≡ change old)) ⊎ ((test old ≡ false) × (row ≡ old)))
unfolding update_where
In-update_where test change row rows i =
    let (old, j, e) = In-map (λ x. if test x then change x else x) row rows i in
    (
      old,
      j,
      elim (Bool-cases (test old)) [
        | inl t ↦ inl (t, e ∙ rw t refl)
        | inr t ↦ inr (t, e ∙ rw t refl)
      ],
    )

pub get_visibility_run-In :
    (db : Db) (pk : ℕ) (r : UserVisibilitySyncRun)
    → get_visibility_run db pk ≡ some r
    → In r db.visibility_runs × (r.pk ≡ pk)
unfolding get_visibility_run
get_visibility_run-In db pk r h =
    let (i, e) = found _ db.visibility_runs r h in (i, eq_of_== r.pk pk e)
