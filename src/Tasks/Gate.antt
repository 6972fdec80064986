-- ===== src/Tasks/Gate.antt =====
-- What an extraction task does to the eligibility of documents: it opens the gate for its own document
-- and content only, in the per-user mode.
use mathlib.Core.Bool.{true≢false}
use knowledge_graph_mvp.Prelude.{
  Bool, Bool-cases, In, List, Option, Text, any, any-find, ap, arith, eq_of_==, false, first, inl,
  inr, is_empty, keep, list_eq, nat_eq, none, refl, some, string_eq, subst, sym, true, ℕ, ◌&&◌,
  ◌==◌, ◌∙◌, ◌≡◌, ◌⊎◌,
}
use knowledge_graph_mvp.Models.{
  Env, SourceDocument, per_user_oauth, is_succeeded, In-update_where, Db, DriveConnection,
  get_connection,
}
use knowledge_graph_mvp.Tasks.{
  TaskDb, Transition, Extracted, transition, is_target, set_graph_extraction_state, is_ready,
  open_gate, mark_per_user_content_ready, queue_document_extraction, SourceDocumentContent,
  is_per_user,
}
use knowledge_graph_mvp.Tasks.Steps.{expected_of, queue-S}

-- What other processes may do meanwhile: an eligible row was one before.
abbrev pub OpensNone : TaskDb → TaskDb → Type 0
OpensNone a b =
    (d : SourceDocument)
    → In d b.tables.documents
    → d.retrieval_eligible ≡ true
    → (old : SourceDocument) × In old a.tables.documents
      × (old.pk ≡ d.pk)
      × (old.retrieval_eligible ≡ true)

-- The gate of a row in the database is open as it should: the row has the document and the content of
-- the task, this content is stored and extracted, and the row is in scope without a reason against
-- it, has an access list's version, and belongs to a connection that is on, in the per-user mode.
pub record IsOpened (env : Env) (document_id : ℕ) (expected : Text) (db : TaskDb)
    (d : SourceDocument) : Type 0 where
  pub per_user_mode : env.settings.google_permission_authority ≡ per_user_oauth
  pub of_task : d.pk ≡ document_id
  pub of_content : d.content_hash ≡ expected
  pub stored : SourceDocumentContent
  pub is_stored : In stored db.contents
  pub stored_for : stored.source_document ≡ document_id
  pub stored_content : stored.content_hash ≡ expected
  pub in_scope : d.active_in_scope ≡ true
  pub no_reason : d.exclusion_reason ≡ ""
  pub is_extracted : is_succeeded d.graph_extraction_status ≡ true
  pub has_version : is_empty d.source_permissions_version ≡ false
  pub connection : DriveConnection
  pub of_connection : get_connection db.tables d.connection ≡ some connection
  pub enabled : connection.enabled ≡ true
  pub per_user : connection.permission_authority ≡ per_user_oauth

abbrev pub OpensOnly : Env → ℕ → Text → TaskDb → TaskDb → Type 0
OpensOnly env document_id expected a b =
    (d : SourceDocument)
    → In d b.tables.documents
    → d.retrieval_eligible ≡ true
    → ((old : SourceDocument) × In old a.tables.documents
        × (old.pk ≡ d.pk)
        × (old.retrieval_eligible ≡ true))
      ⊎ IsOpened env document_id expected b d

OpensNone-trans : (a b c : TaskDb) → OpensNone a b → OpensNone b c → OpensNone a c
OpensNone-trans a b c f g d i h =
    let (m, j, p, q) = g d i h in let (old, k, p', q') = f m j q in (old, k, p' ∙ p, q')

OpensOnly-ends :
    (env : Env) (document_id : ℕ) (expected : Text) (a b c : TaskDb)
    → OpensNone a b
    → OpensOnly env document_id expected b c
    → OpensOnly env document_id expected a c
OpensOnly-ends env document_id expected a b c f g d i h = elim (g d i h) [
  | inr o ↦ inr o
  | inl (m, j, p, q) ↦ let (old, k, p', q') = f m j q in inl (old, k, p' ∙ p, q')
]

moved-OpensNone :
    (document_id time : ℕ) (o : Option Text) (t : Transition) (a : TaskDb)
    → OpensNone a ((set_graph_extraction_state time document_id o t a).1)
unfolding transition set_graph_extraction_state
moved-OpensNone document_id time o t a d i h =
    let (old, j, k) =
      In-update_where (is_target document_id o) (transition time t) d a.tables.documents i in
    (
      old,
      j,
      elim k [ inl (e, p) ↦ ap (λ x. x.pk) (sym p) | inr (e, p) ↦ ap (λ x. x.pk) (sym p) ],
      elim k [
        | inl (e, p) ↦ ap (λ x. x.retrieval_eligible) (sym p) ∙ h
        | inr (e, p) ↦ ap (λ x. x.retrieval_eligible) (sym p) ∙ h
      ],
    )

find_content :
    (pk : ℕ) (expected : Text) (contents : List SourceDocumentContent)
    → any (λ c. c.source_document == pk && c.content_hash == expected) contents ≡ true
    → (c : SourceDocumentContent) × In c contents
      × (c.source_document ≡ pk)
      × (c.content_hash ≡ expected)
find_content pk expected contents h =
    let (c, i, e) =
      any-find (λ c. c.source_document == pk && c.content_hash == expected) contents h in
    (
      c,
      i,
      eq_of_== c.source_document pk (ground arith),
      eq_of_== c.content_hash expected (ground arith),
    )

find_connection :
    (db : Db) (d : SourceDocument)
    → is_per_user db d ≡ true
    → (c : DriveConnection) × (get_connection db d.connection ≡ some c)
      × (c.enabled ≡ true)
      × (c.permission_authority ≡ per_user_oauth)
unfolding is_per_user
find_connection db d h = go (get_connection db d.connection) refl h
  where
    go :
        (o : Option DriveConnection)
        → get_connection db d.connection ≡ o
        → elim o as (λ _. Bool) [
          | none ↦ false
          | some c ↦ c.enabled && c.permission_authority == per_user_oauth
        ]
          ≡ true
        → (c : DriveConnection) × (get_connection db d.connection ≡ some c)
          × (c.enabled ≡ true)
          × (c.permission_authority ≡ per_user_oauth)
    go none p k = absurd (true≢false (sym k))
    go (some c) p k =
        (c, p, ground arith, eq_of_== c.permission_authority per_user_oauth (ground arith))

pub is_ready-IsOpened :
    (env : Env) (db : TaskDb) (document_id : ℕ) (expected : Text) (d : SourceDocument)
    → (env.settings.google_permission_authority == per_user_oauth) ≡ true
    → is_ready db document_id expected d ≡ true
    → IsOpened env document_id expected db d
unfolding is_ready
is_ready-IsOpened env db document_id expected d mode h =
    let q : d.pk ≡ document_id = eq_of_== d.pk document_id (ground arith) in
    let (c, i, p, p') = find_content d.pk expected db.contents (ground arith) in
    let (connection, e, on, per_user) = find_connection db.tables d (ground arith) in
    record {
      per_user_mode = eq_of_== env.settings.google_permission_authority per_user_oauth mode;
      of_task = q;
      of_content = eq_of_== d.content_hash expected (ground arith);
      stored = c;
      is_stored = i;
      stored_for = p ∙ q;
      stored_content = p';
      in_scope = ground arith;
      no_reason = eq_of_== d.exclusion_reason "" (ground arith);
      is_extracted = ground arith;
      has_version = ground arith;
      connection = connection;
      of_connection = e;
      enabled = on;
      per_user = per_user;
    }

-- An update of the gate keeps what its test read.
open_gate-IsOpened :
    (env : Env) (document_id : ℕ) (expected : Text) (time : ℕ) (a b : TaskDb) (d : SourceDocument)
    → b.contents ≡ a.contents
    → b.tables.connections ≡ a.tables.connections
    → IsOpened env document_id expected a d
    → IsOpened env document_id expected b (open_gate time d)
unfolding open_gate get_connection
open_gate-IsOpened env document_id expected time a b d c e o = record {
  per_user_mode = o.per_user_mode;
  of_task = o.of_task;
  of_content = o.of_content;
  stored = o.stored;
  is_stored = subst (In o.stored) (sym c) o.is_stored;
  stored_for = o.stored_for;
  stored_content = o.stored_content;
  in_scope = o.in_scope;
  no_reason = o.no_reason;
  is_extracted = o.is_extracted;
  has_version = o.has_version;
  connection = o.connection;
  of_connection =
      subst (λ rows. first (keep (λ x. x.pk == d.connection) rows) ≡ some o.connection) (sym e)
        o.of_connection;
  enabled = o.enabled;
  per_user = o.per_user;
}

OpensOnly-same :
    (env : Env) (document_id : ℕ) (expected : Text) (a : TaskDb)
    → OpensOnly env document_id expected a a
OpensOnly-same env document_id expected a d i h = inl (d, i, refl, h)

opened-OpensOnly :
    (env : Env) (document_id : ℕ) (expected : Text) (time : ℕ) (a : TaskDb)
    → OpensOnly env document_id expected a
        (mark_per_user_content_ready env time document_id expected a)
unfolding mark_per_user_content_ready
opened-OpensOnly env document_id expected time a =
    elim (Bool-cases (env.settings.google_permission_authority == per_user_oauth)) [
      | inr mode ↦ rw mode (OpensOnly-same env document_id expected a)
      | inl mode ↦ rw mode (λ d i h.
          let (old, j, k) =
            In-update_where (is_ready a document_id expected) (open_gate time) d a.tables.documents
              i in
          elim k [
            | inl (e, p) ↦ inr (
                subst (IsOpened env document_id expected _) (sym p) (
                  open_gate-IsOpened env document_id expected time a _ old refl refl
                    (is_ready-IsOpened env a document_id expected old mode e)))
            | inr (e, p) ↦
                inl (old, j, ap (λ x. x.pk) (sym p), ap (λ x. x.retrieval_eligible) (sym p) ∙ h)
          ])
    ]

module _ {G : Type 0} (env : Env) (retries now finished_at document_id : ℕ)
    (extract : ℕ → Text → G → Extracted × G) (meanwhile : TaskDb → TaskDb) where
  abbrev after : Text → TaskDb → G → TaskDb
  after content_hash db g =
      (queue_document_extraction env retries now finished_at document_id extract meanwhile
        content_hash db g).1

  -- However an extraction task ends, an eligible row was eligible before, or is the one of the task's
  -- document: it has the task's content, which is stored and extracted, is in scope without a reason
  -- against it, has an access list's version, and its connection is on and in the per-user mode, if
  -- other processes open no gate meanwhile.
  pub queue_document_extraction-OpensOnly :
      (content_hash : Text) (db : TaskDb) (g : G)
      → ((x : TaskDb) → OpensNone x (meanwhile x))
      → OpensOnly env document_id
          (expected_of db document_id content_hash)
          db
          (after content_hash db g)
  queue_document_extraction-OpensOnly content_hash db g other =
      let expected = expected_of db document_id content_hash in
      queue-S env retries now finished_at document_id expected OpensNone
        (OpensOnly env document_id expected) OpensNone-trans
        (OpensOnly-ends env document_id expected) (OpensOnly-same env document_id expected)
        (moved-OpensNone document_id) (opened-OpensOnly env document_id expected) extract meanwhile
        other content_hash db g refl
