-- ===== src/VisibilitySync/Queue/Owned.antt =====
-- Which run a request to queue ends with, and what was dispatched.
use knowledge_graph_mvp.Prelude.{
  Bool-cases, In, In-append_right, In-keep, List, Option, Text, [], ap, arith, eq_of_==, err, false,
  first, if◌then◌else◌, inl, inr, keep, list_eq, ltb, nat_eq, none, not, ok, refl, some, string_eq,
  subst, sym, true, ℕ, ◌==◌, ◌∙◌, ◌∷◌, ◌≡◌, ◌⊎◌,
}
use knowledge_graph_mvp.Models.{
  Env, Db, DriveConnection, GoogleDriveAuthorization, UserVisibilitySyncRun, AuthorizationStatus,
  create_for_authorization, first-In, is_open, is_running, active, disconnected, get_connection,
  is_active, per_user_oauth, refresh_failed, revoked, scope_missing,
}
use knowledge_graph_mvp.Identity.{normalize_trusted_email}
use knowledge_graph_mvp.Lookup.{connected_users}
use knowledge_graph_mvp.VisibilitySync.Queue.{
  Queued, queue_user_visibility_sync, active_runs, dispatch_run, pick_run, active_authorizations,
  queue_authorization, queue_found, queue_scope_invalid,
}

-- The run is stored and open, and belongs to the authorization. It is under way and nothing was
-- dispatched, or it waits and was dispatched alone.
abbrev pub IsPicked : GoogleDriveAuthorization → Queued → Type 0
IsPicked a (err code, db', dispatched) = dispatched ≡ []
IsPicked a (ok run, db', dispatched) =
    In run db'.visibility_runs
    × (run.authorization ≡ a.pk)
    × (is_open run.status ≡ true)
    × (((is_running run.status ≡ true) × (dispatched ≡ []))
        ⊎ ((is_running run.status ≡ false) × (dispatched ≡ run.pk ∷ [])))

active_runs-In :
    (db : Db) (a : GoogleDriveAuthorization) (r : UserVisibilitySyncRun)
    → In r (active_runs db a)
    → In r db.visibility_runs × (r.authorization ≡ a.pk) × (is_open r.status ≡ true)
unfolding active_runs
active_runs-In db a r i =
    let (j, t) = In-keep _ r db.visibility_runs i in
    (j, eq_of_== r.authorization a.pk (ground arith), ground arith)

pick_run-IsPicked :
    (new_pk : ℕ) (db : Db) (a : GoogleDriveAuthorization) → IsPicked a (pick_run new_pk db a)
unfolding pick_run dispatch_run create_for_authorization first keep
pick_run-IsPicked new_pk db a = go (first (keep (λ r. is_running r.status) (active_runs db a))) refl
  where
    waiting :
        (rs : List UserVisibilitySyncRun)
        → active_runs db a ≡ rs
        → first (keep (λ r. is_running r.status) rs) ≡ none
        → IsPicked a (dispatch_run new_pk db a rs)
    waiting [] e h =
        (In-append_right _ db.visibility_runs _ (inl refl), refl, refl, inr (refl, refl))
    waiting (r ∷ rs) e h =
        let (j, p, q) = active_runs-In db a r (subst (In r) (sym e) (inl refl)) in
        (j, p, q, inr (not_running r rs h, refl))
      where
        not_running :
            (x : UserVisibilitySyncRun) (xs : List UserVisibilitySyncRun)
            → first (keep (λ y. is_running y.status) (x ∷ xs)) ≡ none
            → is_running x.status ≡ false
        not_running x xs k = elim (Bool-cases (is_running x.status)) [
          | inl t ↦ absurd (some_first (rw t at k))
          | inr t ↦ t
        ]
          where
            some_first : some x ≡ none → ⊥
            some_first q = cc

    go :
        (o : Option UserVisibilitySyncRun)
        → first (keep (λ r. is_running r.status) (active_runs db a)) ≡ o
        → IsPicked a (elim o as (λ _. Queued) [
          | some under_way ↦ (ok under_way, db, [])
          | none ↦ dispatch_run new_pk db a (active_runs db a)
        ])
    go (some r) e =
        let (i, t) = In-keep (λ x. is_running x.status) r (active_runs db a) (first-In r _ e) in
        let (j, p, q) = active_runs-In db a r i in (j, p, q, inl (t, refl))
    go none e = waiting (active_runs db a) refl e

-- What a request to queue may end with: an error without a dispatch, or a picked run of an active
-- authorization of the user.
abbrev pub IsOwned : Env → Db → Text → Queued → Type 0
IsOwned env db user_email (err code, db', dispatched) = dispatched ≡ []
IsOwned env db user_email (ok run, db', dispatched) =
    (a : GoogleDriveAuthorization) × In a db.authorizations
    × (normalize_trusted_email env user_email ≡ some a.normalized_email)
    × (a.status ≡ active)
    × IsPicked a (ok run, db', dispatched)

module _ (env : Env) (now new_pk : ℕ) (db : Db) (user_email : Text) where
  -- From what is known of the authorization to what is claimed of the outcome.
  owned :
      (a : GoogleDriveAuthorization)
      → In a db.authorizations
      → normalize_trusted_email env user_email ≡ some a.normalized_email
      → a.status ≡ active
      → (q : Queued) → IsPicked a q
      → IsOwned env db user_email q
  owned a i e s (err code, db', dispatched) h = h
  owned a i e s (ok run, db', dispatched) h = (a, i, e, s, h)

  of_active : (x : AuthorizationStatus) → is_active x ≡ true → x ≡ active
  of_active active e = refl
  of_active scope_missing e = cc
  of_active refresh_failed e = cc
  of_active revoked e = cc
  of_active disconnected e = cc

  queue_authorization-IsPicked :
      (a : GoogleDriveAuthorization) (connection : DriveConnection)
      → IsPicked a (queue_authorization env now new_pk db a connection)
  unfolding queue_authorization
  queue_authorization-IsPicked a connection =
      elim (Bool-cases (queue_scope_invalid env a connection)) [
        | inl e ↦ rw e refl
        | inr e ↦
            elim (Bool-cases
              (ltb env.settings.google_user_visibility_max_users (connected_users db connection))) [
                | inl e' ↦ rw (e, e') refl
                | inr e' ↦ rw (e, e') (pick_run-IsPicked new_pk db a)
              ]
      ]

  queue_found-IsOwned :
      (email : Text) (found : List GoogleDriveAuthorization)
      → normalize_trusted_email env user_email ≡ some email
      → active_authorizations db email ≡ found
      → IsOwned env db user_email (queue_found env now new_pk db found)
  unfolding queue_found active_authorizations
  queue_found-IsOwned email [] n e = refl
  queue_found-IsOwned email (a ∷ b ∷ rest) n e = refl
  queue_found-IsOwned email (a ∷ []) n e = go (get_connection db a.connection)
    where
      go :
          (o : Option DriveConnection)
          → IsOwned env db user_email (elim o as (λ _. Queued) [
            | none ↦ (err "authorization_unavailable", db, [])
            | some connection ↦ queue_authorization env now new_pk db a connection
          ])
      go none = refl
      go (some connection) =
          let (i, t) = In-keep _ a db.authorizations (subst (In a) (sym e) (inl refl)) in
          let mail : a.normalized_email ≡ email =
            eq_of_== a.normalized_email email (ground arith) in
          owned a i (n ∙ ap (λ x. some x) (sym mail)) (of_active a.status (ground arith)) _
            (queue_authorization-IsPicked a connection)

  -- A request to queue ends with an error and no dispatch, or with a stored, open run of an active
  -- authorization of the user who asks: under way already and not dispatched again, or waiting and
  -- dispatched alone.
  pub queue_user_visibility_sync-IsOwned :
      IsOwned env db user_email (queue_user_visibility_sync env now new_pk user_email db)
  unfolding queue_user_visibility_sync
  queue_user_visibility_sync-IsOwned = go (normalize_trusted_email env user_email) refl
    where
      go :
          (o : Option Text)
          → normalize_trusted_email env user_email ≡ o
          → IsOwned env db user_email (elim o as (λ _. Queued) [
            | none ↦ (err "authorization_unavailable", db, [])
            | some normalized_email ↦
                if not (env.settings.google_permission_authority == per_user_oauth)
                then (err "permission_authority_mismatch", db, [])
                else queue_found env now new_pk db (active_authorizations db normalized_email)
          ])
      go none e = refl
      go (some email) e =
          elim (Bool-cases (not (env.settings.google_permission_authority == per_user_oauth))) [
            | inl t ↦ rw t refl
            | inr t ↦ rw t (queue_found-IsOwned email _ e refl)
          ]
