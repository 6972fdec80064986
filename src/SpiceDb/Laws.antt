-- ===== src/SpiceDb/Laws.antt =====
-- What the program relies on in a SpiceDB server that nobody else writes to, and a server that
-- keeps it.
use knowledge_graph_mvp.Prelude.{
  Bool, In, In-append, In-append_left, In-append_right, In-contains, In-keep, In-keep_of, In-minus,
  In-minus_of, List, Option, Text, codes, contains, contains-In, inl, inr, keep, list_eq, map,
  minus, nat_eq, refl, some, starts_with, string_eq, subst, sym, true, ◌++◌, ◌==◌, ◌↔◌, ◌≡◌, ◌⊎◌,
}
use knowledge_graph_mvp.SpiceDb.{PermissionTuple, SpiceDb, is_direct_grant, tuple_eq}

-- `tuples w` are the relationships that the server holds in the state `w`.
pub record Serves (s : SpiceDb) : Type 0 where
  pub tuples : s.World → List PermissionTuple
  -- A read that returns has the relationships of its scope, and leaves the server as it was.
  pub read_direct :
      (prefix user revision : Text) (w w' : s.World) (ts : List PermissionTuple)
      → s.read_oauth_viewer_tuples prefix user revision w ≡ (some ts, w')
      → (w' ≡ w)
        × ((t : PermissionTuple)
            → In t ts ↔ (In t (tuples w) × (is_direct_grant prefix user t ≡ true)))
  pub read_managed :
      (prefix revision : Text) (w w' : s.World) (ts : List PermissionTuple)
      → s.read_managed_tuples prefix revision w ≡ (some ts, w')
      → (w' ≡ w)
        × ((t : PermissionTuple)
            → In t ts ↔ (In t (tuples w) × (starts_with prefix t.resource_id ≡ true)))
  -- `views w user resource`: the schema gives the user the permission `view` on the document.
  pub views : s.World → Text → Text → Bool
  pub lookup :
      (user : Text) (w w' : s.World) (resources : List Text)
      → s.lookup_documents user w ≡ (some resources, w')
      → (w' ≡ w) × ((x : Text) → In x resources ↔ (views w user x ≡ true))
  -- A write that returns has put in what it touches and taken out the other deletions.
  pub write :
      (touches deletes : List PermissionTuple) (w w' : s.World) (revision : Text)
      → s.write_updates touches deletes w ≡ (some revision, w')
      → (t : PermissionTuple)
      → In t (tuples w') ↔ (In t touches ⊎ (In t (tuples w) × ¬ In t deletes))

-- A server that holds its relationships in a list, evaluates no groups or parents, and gives the revision "r".
abbrev pub list_server : SpiceDb
list_server = record {
  World = List PermissionTuple;
  read_managed_tuples =
      λ prefix revision w. (some (keep (λ t. starts_with prefix t.resource_id) w), w);
  read_oauth_viewer_tuples =
      λ prefix user revision w. (some (keep (is_direct_grant prefix user) w), w);
  write_updates = λ touches deletes w. (some (codes "r"), touches ++ minus w deletes);
  lookup_documents =
      λ user w. (some (map (λ t. t.resource_id) (keep (λ t. t.subject_id == user) w)), w);
}

-- The server answers every call.
pub record Answers (s : SpiceDb) : Type 0 where
  pub reads :
      (prefix user revision : Text) (w : s.World)
      → (ts : List PermissionTuple) × (w' : s.World) × (s.read_oauth_viewer_tuples prefix user
            revision w
          ≡ (some ts, w'))
  pub reads_managed :
      (prefix revision : Text) (w : s.World)
      → (ts : List PermissionTuple) × (w' : s.World) × (s.read_managed_tuples prefix revision w
          ≡ (some ts, w'))
  pub writes :
      (touches deletes : List PermissionTuple) (w : s.World)
      → (revision : Text) × (w' : s.World) × (s.write_updates touches deletes w
          ≡ (some revision, w'))

pub list_server-reads :
    (test : PermissionTuple → Bool) (w w' ts : List PermissionTuple)
    → ◌≡◌ {A = Option (List PermissionTuple) × List PermissionTuple}
        (some (keep test w), w)
        (some ts, w')
    → (w' ≡ w) × ((x : PermissionTuple) → In x ts ↔ (In x w × (test x ≡ true)))
list_server-reads test w w' ts h =
    let kept : keep test w ≡ ts = cc in
    (
      cc,
      λ x. (
        λ i. In-keep test x w (subst (In x) (sym kept) i),
        λ i. subst (In x) kept (In-keep_of test x w i.0 i.1),
      ),
    )

pub list_server-writes :
    (touches deletes w w' : List PermissionTuple) (revision : Text)
    → ◌≡◌ {A = Option Text × List PermissionTuple}
        (some (codes "r"), touches ++ minus w deletes)
        (some revision, w')
    → (t : PermissionTuple) → In t w' ↔ (In t touches ⊎ (In t w × ¬ In t deletes))
list_server-writes touches deletes w w' revision h t =
    let after : touches ++ minus w deletes ≡ w' = cc in
    (
      λ i. elim (In-append t touches (minus w deletes) (subst (In t) (sym after) i)) [
        | inl j ↦ inl j
        | inr j ↦ inr (In-minus t w deletes j)
      ],
      λ i. subst (In t) after (elim i [
        | inl j ↦ In-append_left t touches (minus w deletes) j
        | inr j ↦ In-append_right t touches (minus w deletes) (In-minus_of t w deletes j.0 j.1)
      ]),
    )

pub list_server-lookup :
    (user : Text) (w w' : List PermissionTuple) (resources : List Text)
    → ◌≡◌ {A = Option (List Text) × List PermissionTuple}
        (some (map (λ t. t.resource_id) (keep (λ t. t.subject_id == user) w)), w)
        (some resources, w')
    → (w' ≡ w)
      × ((x : Text)
          → In x resources
            ↔ (contains (map (λ t. t.resource_id) (keep (λ t. t.subject_id == user) w)) x ≡ true))
list_server-lookup user w w' resources h =
    let seen : List Text = map (λ t. t.resource_id) (keep (λ t. t.subject_id == user) w) in
    let listed : seen ≡ resources = cc in
    (
      cc,
      λ x. (
        λ i. In-contains seen x (subst (In x) (sym listed) i),
        λ e. subst (In x) listed (contains-In seen x e),
      ),
    )

-- The list server keeps the laws and answers.
abbrev pub list_server-Serves : Serves list_server
list_server-Serves = record {
  tuples = λ w. w;
  read_direct =
      λ prefix user revision w w' ts h. list_server-reads (is_direct_grant prefix user) w w' ts h;
  read_managed = λ prefix revision w w' ts h.
      list_server-reads (λ t. starts_with prefix t.resource_id) w w' ts h;
  views = λ w user x. contains (map (λ t. t.resource_id) (keep (λ t. t.subject_id == user) w)) x;
  lookup = λ user w w' resources h. list_server-lookup user w w' resources h;
  write = λ touches deletes w w' revision h t. list_server-writes touches deletes w w' revision h t;
}

abbrev pub list_server-Answers : Answers list_server
list_server-Answers = record {
  reads = λ prefix user revision w. (keep (is_direct_grant prefix user) w, w, refl);
  reads_managed = λ prefix revision w. (keep (λ t. starts_with prefix t.resource_id) w, w, refl);
  writes = λ touches deletes w. (codes "r", touches ++ minus w deletes, refl);
}
