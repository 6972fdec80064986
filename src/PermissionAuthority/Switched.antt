-- ===== src/PermissionAuthority/Switched.antt =====
-- The outcomes of a switch: denied where it failed behind the denial, cleared where it succeeded.
use mathlib.Core.Bool.{true≢false}
use knowledge_graph_mvp.Prelude.{
  >>=-ok, Bool-cases, In, Option, Result, String, [], ap, call-ok, err, false, if◌then◌else◌, inl,
  inr, is_empty, keep, length, lift-ok, list_eq, nat_eq, none, not, ok, pure-ok, same_key, some,
  starts_with, string_eq, subst, sym, true, ℕ, ◌==◌, ◌↔◌, ◌∙◌, ◌≡◌,
}
use knowledge_graph_mvp.Models.{
  Db, DriveConnection, In-update_where, effective_root_id, get_connection, update_where,
}
use knowledge_graph_mvp.SpiceDb.{SpiceDb, PermissionTuple}
use knowledge_graph_mvp.SpiceDb.Laws.{Serves}
use knowledge_graph_mvp.Identifiers.{connection_prefix}
use knowledge_graph_mvp.PermissionAuthority.Denial.{IsCleared, IsDenied, denied_db-IsDenied}
use knowledge_graph_mvp.PermissionAuthority.{
  Denied, activate, activate_connection, delete_connection_relationships, denied_db,
  deny_connection, disable,
}

-- A cleanup that returns has deleted the connection's relationships and kept all others.
pub delete_connection_relationships-exact :
    (s : SpiceDb) (law : Serves s) (id : ℕ) (w w' : s.World) (count : ℕ)
    → delete_connection_relationships s id w ≡ (ok count, w')
    → (t : PermissionTuple)
    → In t (law.tuples w')
      ↔ (In t (law.tuples w) × (starts_with (connection_prefix id) t.resource_id ≡ false))
unfolding delete_connection_relationships
delete_connection_relationships-exact s law id w w' count h t =
    let (current, w1, e1, h1) = >>=-ok _ _ w count w' h in
    let (revision, w2, e2, h2) = >>=-ok _ _ w1 count w' h1 in
    let (verified, w3, e3, h3) = >>=-ok _ _ w2 count w' h2 in
    let (_, w4, e4, h4) = >>=-ok _ _ w3 count w' h3 in
    let (p1, read) = law.read_managed _ [] w w1 current (call-ok _ _ w current w1 e1) in
    let write = law.write _ _ w1 w2 revision (call-ok _ _ w1 revision w2 e2) t in
    let (p3, _) = law.read_managed _ revision w2 w3 verified (call-ok _ _ w2 verified w3 e3) in
    let (_, p4) = lift-ok _ w3 _ w4 e4 in
    let (_, p5) = pure-ok _ count w4 w' h4 in
    let last : w' ≡ w2 = sym p5 ∙ sym p4 ∙ p3 in
    (
      λ i. elim (write.0 (subst (λ v. In t (law.tuples v)) last i)) [
        | inl z ↦ absurd z
        | inr (j, none_left) ↦
            let stored : In t (law.tuples w) = subst (λ v. In t (law.tuples v)) p1 j in
            (
              stored,
              elim (Bool-cases (starts_with (connection_prefix id) t.resource_id)) [
                | inl e ↦ absurd (none_left ((read t).1 (stored, e)))
                | inr e ↦ e
              ],
            )
      ],
      λ i.
          subst (λ v. In t (law.tuples v)) (sym last)
            (write.1 (
              inr (
                subst (λ v. In t (law.tuples v)) (sym p1) i.0,
                λ m. true≢false (sym ((read t).0 m).1 ∙ i.1),
              ))),
    )

-- Other processes keep the denial while SpiceDB is cleaned up.
abbrev pub KeepsDenial : ℕ → (Db → Db) → Type 0
KeepsDenial id meanwhile = (d : Db) → IsDenied id d → IsDenied id (meanwhile d)

pub deny_connection-IsDenied :
    (fresh : ℕ → ℕ) (generation now id : ℕ) (db : Db) (denial : Denied)
    → deny_connection fresh generation now id db ≡ ok denial
    → IsDenied id denial.database
unfolding deny_connection
deny_connection-IsDenied fresh generation now id db denial h = go (get_connection db id) h
  where
    go :
        (o : Option DriveConnection)
        → elim o as (λ _. Result String Denied) [
          | none ↦ err "connection_unavailable"
          | some connection ↦
              if is_empty (effective_root_id connection)
              then err "selected_root_missing"
              else ok (record {
                connection = disable generation now connection;
                documents_invalidated = length (keep (λ d. d.connection == id) db.documents);
                authorizations_invalidated =
                    length (keep (λ a. a.connection == id) db.authorizations);
                database = denied_db fresh generation now id db;
              })
        ]
          ≡ ok denial
        → IsDenied id denial.database
    go none k = cc
    go (some c) k = elim (Bool-cases (is_empty (effective_root_id c))) [
      | inl e ↦ absurd (refused (rw e at k))
      | inr e ↦
          subst (IsDenied id) (committed c (rw e at k))
            (denied_db-IsDenied fresh generation now id db)
    ]
      where
        refused : ◌≡◌ {A = Result String Denied} (err "selected_root_missing") (ok denial) → ⊥
        refused q = cc

        committed :
            (x : DriveConnection)
            → ◌≡◌ {A = Result String Denied}
                (ok (record {
                  connection = disable generation now x;
                  documents_invalidated = length (keep (λ d. d.connection == id) db.documents);
                  authorizations_invalidated =
                      length (keep (λ a. a.connection == id) db.authorizations);
                  database = denied_db fresh generation now id db;
                }))
                (ok denial)
            → denied_db fresh generation now id db ≡ denial.database
        committed x q = cc

-- The connection is on, in the given mode.
pub record IsActivated (connection_id : ℕ) (target : String) (db : Db) : Type 0 where
  pub enabled :
      (c : DriveConnection)
      → In c db.connections
      → c.pk ≡ connection_id
      → (c.enabled ≡ true) × (c.permission_authority ≡ target)
  pub cleared : IsCleared connection_id db

activated :
    (target : String) (later id : ℕ) (db : Db)
    → IsCleared id db
    → IsActivated id target (record db {
      connections = update_where (λ c. c.pk == id) (activate target later) db.connections;
    })
unfolding activate
activated target later id db cleared = record {
  enabled = λ c i k.
      let (old, j, e) =
        In-update_where (λ x. x.pk == id) (activate target later) c db.connections i in
      elim e [
        | inl (t, p) ↦ (ap (λ x. x.enabled) p, ap (λ x. x.permission_authority) p)
        | inr (t, p) ↦
            absurd (true≢false (sym (same_key old.pk id (ap (λ x. x.pk) (sym p) ∙ k)) ∙ t))
      ];
  cleared = record {
    ineligible = cleared.ineligible;
    ended = cleared.ended;
    forgotten = cleared.forgotten;
  };
}

pub activate_connection-IsActivated :
    (target : String) (generation later id : ℕ) (db db' : Db)
    → IsCleared id db
    → activate_connection target generation later id db ≡ ok db'
    → IsActivated id target db'
unfolding activate_connection
activate_connection-IsActivated target generation later id db db' cleared h =
    go (get_connection db id) h
  where
    on : Db
    on = record db {
      connections = update_where (λ c. c.pk == id) (activate target later) db.connections;
    }

    go :
        (o : Option DriveConnection)
        → elim o as (λ _. Result String Db) [
          | none ↦ err "DoesNotExist"
          | some c ↦
              if not (c.authorization_generation == generation)
              then err "connection_changed_during_cutover"
              else ok on
        ]
          ≡ ok db'
        → IsActivated id target db'
    go none k = cc
    go (some c) k = elim (Bool-cases (not (c.authorization_generation == generation))) [
      | inl e ↦ absurd (refused (rw e at k))
      | inr e ↦
          subst (IsActivated id target) (committed (rw e at k))
            (activated target later id db cleared)
    ]
      where
        refused : ◌≡◌ {A = Result String Db} (err "connection_changed_during_cutover") (ok db') → ⊥
        refused q = cc

        committed : ◌≡◌ {A = Result String Db} (ok on) (ok db') → on ≡ db'
        committed q = cc
