-- ===== src/PermissionAuthority/Outcome.antt =====
-- Every way in which a switch of the permission authority ends.
use knowledge_graph_mvp.Prelude.{
  Bool-cases, In, Option, Result, String, err, false, inl, inr, list_eq, nat_eq, none, ok, refl,
  some, starts_with, string_eq, true, ℕ, ◌==◌, ◌↔◌, ◌≡◌, ◌⊎◌,
}
use knowledge_graph_mvp.Models.{Env, Db, DriveConnection, get_connection}
use knowledge_graph_mvp.SpiceDb.{SpiceDb, PermissionTuple}
use knowledge_graph_mvp.SpiceDb.Laws.{Serves}
use knowledge_graph_mvp.Identifiers.{connection_prefix}
use knowledge_graph_mvp.PermissionAuthority.Denial.{IsDenied}
use knowledge_graph_mvp.PermissionAuthority.Switched.{
  IsActivated, KeepsDenial, delete_connection_relationships-exact, deny_connection-IsDenied,
  activate_connection-IsActivated,
}
use knowledge_graph_mvp.PermissionAuthority.{
  Denied, PermissionAuthoritySwitchResult, switch_permission_authority, activate_connection,
  delete_connection_relationships, deny_connection, finish_switch, switch_connection,
  validate_target,
}

module _ (s : SpiceDb) (law : Serves s) (id : ℕ) (target : String) (db : Db) (w : s.World) where
  -- What a switch may leave behind: after an error the database as it was, or the connection denied;
  -- after a success everything as it was, or the connection on in the new mode, its evidence gone,
  -- and its relationships gone from the server, all others kept.
  abbrev pub Outcome : Result String PermissionAuthoritySwitchResult × Db × s.World → Type 0
  Outcome (err e, db', w') = (db' ≡ db) ⊎ IsDenied id db'
  Outcome (ok r, db', w') =
      ((r.changed ≡ false) × (db' ≡ db) × (w' ≡ w))
      ⊎ ((r.changed ≡ true)
          × IsActivated id target db'
          × ((t : PermissionTuple)
              → In t (law.tuples w') ↔ (
                  In t (law.tuples w)
                  × (starts_with (connection_prefix id) t.resource_id ≡ false))))

  module _ (env : Env) (fresh : ℕ → ℕ) (generation now later : ℕ) (meanwhile : Db → Db)
      (keeps : KeepsDenial id meanwhile) where
    finish_switch-Outcome :
        (previous : String) (denial : Denied)
        → IsDenied id denial.database
        → Outcome
            (finish_switch s env fresh generation now later meanwhile id previous target denial w)
    unfolding finish_switch
    finish_switch-Outcome previous denial d = go (delete_connection_relationships s id w) refl
      where
        left : IsDenied id (meanwhile denial.database)
        left = keeps denial.database d

        result : ℕ → PermissionAuthoritySwitchResult
        result count = record {
          connection_id = id;
          previous_authority = previous;
          permission_authority = target;
          documents_invalidated = denial.documents_invalidated;
          authorizations_invalidated = denial.authorizations_invalidated;
          relationships_deleted = count;
          changed = true;
        }

        last :
            (count : ℕ) (w' : s.World)
            → delete_connection_relationships s id w ≡ (ok count, w')
            → (o : Result String Db)
            → activate_connection target denial.connection.authorization_generation later id
                (meanwhile denial.database)
              ≡ o
            → Outcome
                (elim o as (λ _. Result String PermissionAuthoritySwitchResult × Db × s.World) [
                  | err e ↦ (err e, meanwhile denial.database, w')
                  | ok db' ↦ (ok (result count), db', w')
                ])
        last count w' h (err e) k = inr left
        last count w' h (ok db') k = inr (
          refl,
          activate_connection-IsActivated target _ later id _ db' left.cleared k,
          delete_connection_relationships-exact s law id w w' count h,
        )

        go :
            (p : Result String ℕ × s.World)
            → delete_connection_relationships s id w ≡ p
            → Outcome
                (elim p.0 as (λ _. Result String PermissionAuthoritySwitchResult × Db × s.World) [
                  | err e ↦ (err e, meanwhile denial.database, p.1)
                  | ok count ↦
                      elim (activate_connection target denial.connection.authorization_generation
                          later id
                          (meanwhile denial.database))
                        as (λ _. Result String PermissionAuthoritySwitchResult × Db × s.World) [
                          | err e ↦ (err e, meanwhile denial.database, p.1)
                          | ok db' ↦ (ok (result count), db', p.1)
                        ]
                ])
        go (err e, w') h = inr left
        go (ok count, w') h = last count w' h _ refl

    switch_connection-Outcome :
        (current : DriveConnection)
        → Outcome
            (switch_connection s env fresh generation now later meanwhile current id target db w)
    unfolding switch_connection
    switch_connection-Outcome current = elim (Bool-cases (current.permission_authority == target)) [
      | inl e ↦ rw e (inl (refl, refl, refl))
      | inr e ↦ rw e (go (deny_connection fresh generation now id db) refl)
    ]
      where
        go :
            (o : Result String Denied)
            → deny_connection fresh generation now id db ≡ o
            → Outcome
                (elim o as (λ _. Result String PermissionAuthoritySwitchResult × Db × s.World) [
                  | err e ↦ (err e, db, w)
                  | ok denial ↦
                      finish_switch s env fresh generation now later meanwhile id
                        current.permission_authority target denial w
                ])
        go (err e) h = inl refl
        go (ok denial) h =
            finish_switch-Outcome current.permission_authority denial
              (deny_connection-IsDenied fresh generation now id db denial h)

    -- With a server that keeps the laws of `Serves`, a switch ends in one of its outcomes, whatever
    -- other processes do meanwhile, as long as they keep the denial: an error leaves the database as
    -- it was or the connection denied, and a change is reported only with the connection on in the
    -- new mode, its evidence gone, and exactly its relationships gone from the server.
    pub switch_permission_authority-Outcome :
        Outcome
          (switch_permission_authority s env fresh generation now later meanwhile id target db w)
    unfolding switch_permission_authority
    switch_permission_authority-Outcome = validated (validate_target env target)
      where
        found :
            (o : Option DriveConnection)
            → Outcome
                (elim o as (λ _. Result String PermissionAuthoritySwitchResult × Db × s.World) [
                  | none ↦ (err "connection_unavailable", db, w)
                  | some current ↦
                      switch_connection s env fresh generation now later meanwhile current id target
                        db w
                ])
        found none = inl refl
        found (some current) = switch_connection-Outcome current

        validated :
            (v : Result String (Unit {0}))
            → Outcome
                (elim v as (λ _. Result String PermissionAuthoritySwitchResult × Db × s.World) [
                  | err e ↦ (err e, db, w)
                  | ok _ ↦
                      elim (get_connection db id)
                        as (λ _. Result String PermissionAuthoritySwitchResult × Db × s.World) [
                          | none ↦ (err "connection_unavailable", db, w)
                          | some current ↦
                              switch_connection s env fresh generation now later meanwhile current
                                id target db w
                        ]
                ])
        validated (err e) = inl refl
        validated (ok _) = found (get_connection db id)
