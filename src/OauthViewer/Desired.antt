-- ===== src/OauthViewer/Desired.antt =====
-- The tuples that a reconciliation asks for: one for each given document, which is indexed.
use knowledge_graph_mvp.Prelude.{
  ==-refl, Bool, In, In-add, In-add_of, In-add_self, In-keep, In-map, In-map_of, In-to_set, List,
  Result, String, Text, [], add, and_then-ok, arith, err, if◌then◌else◌, inl, inr, list_eq, map,
  nat_eq, ok, refl, same_set, same_set-In, string_eq, subst, sym, true, ℕ, ◌↔◌, ◌∷◌, ◌≡◌, ◌⊎◌,
}
use knowledge_graph_mvp.Models.{Env, Db, DriveConnection, SourceDocument}
use knowledge_graph_mvp.SpiceDb.{PermissionTuple, tuple_eq, is_direct_grant}
use knowledge_graph_mvp.Identifiers.{connection_prefix}
use knowledge_graph_mvp.Identifiers.Scope.{connection_prefix_iff}
use knowledge_graph_mvp.OauthViewer.{collect_ids, indexed_ids, direct_grant, desired_tuples}

collect_ids-In :
    (limit : ℕ) (ids xs ys : List ℕ)
    → collect_ids limit ids xs ≡ ok ys
    → (d : ℕ) → In d ys ↔ (In d ids ⊎ In d xs)
unfolding collect_ids
collect_ids-In limit ids [] ys h d = (
  λ i. inl (subst (In d) (sym same) i),
  λ i. elim i [ inl j ↦ subst (In d) same j | inr j ↦ absurd j ],
)
  where
    same : ids ≡ ys
    same = cc
collect_ids-In limit ids (x ∷ xs) ys h d =
    let rest : In d ys ↔ (In d (add x ids) ⊎ In d xs) =
      collect_ids-In limit (add x ids) xs ys (ground arith) d in
    (
      λ i. elim (rest.0 i) [
        | inl j ↦ elim (In-add x d ids j) [ inl p ↦ inr (inl p) | inr k ↦ inl k ]
        | inr j ↦ inr (inr j)
      ],
      λ i. elim i [
        | inl j ↦ rest.1 (inl (In-add_of x d ids j))
        | inr j ↦ elim j [
          | inl p ↦ rest.1 (inl (subst (λ z. In z (add x ids)) (sym p) (In-add_self x ids)))
          | inr k ↦ rest.1 (inr k)
        ]
      ],
    )

-- A direct grant is in the scope of its own connection and user.
pub direct_grant-is_direct_grant :
    (connection : ℕ) (user : Text) (d : ℕ)
    → is_direct_grant (connection_prefix connection) user (direct_grant connection user d) ≡ true
unfolding is_direct_grant direct_grant
direct_grant-is_direct_grant connection user d =
    rw ((connection_prefix_iff connection connection d).1 refl, ==-refl user) refl

indexed_ids-In :
    (db : Db) (connection : ℕ) (ids : List ℕ) (d : ℕ)
    → In d (indexed_ids db connection ids)
    → (row : SourceDocument) × In row db.documents
      × (row.pk ≡ d)
      × (row.connection ≡ connection)
      × (row.active_in_scope ≡ true)
unfolding indexed_ids
indexed_ids-In db connection ids d i =
    let (row, j, e) = In-map (λ r. r.pk) d _ ((In-to_set d _).0 i) in
    let (k, t) = In-keep _ row db.documents j in (row, k, sym e, ground arith, ground arith)

-- What is asked for, where the ids pass: a direct grant for each of them, and each is an active
-- document of the connection.
pub desired_tuples-In :
    (env : Env) (db : Db) (c : DriveConnection) (user : Text) (ids : List ℕ)
    (desired : List PermissionTuple)
    → desired_tuples env db c user ids ≡ ok desired
    → ((t : PermissionTuple) → In t desired ↔ ((d : ℕ) × In d ids × (t ≡ direct_grant c.pk user d)))
      × ((d : ℕ)
          → In d ids
          → (row : SourceDocument) × In row db.documents
            × (row.pk ≡ d)
            × (row.connection ≡ c.pk)
            × (row.active_in_scope ≡ true))
unfolding desired_tuples
desired_tuples-In env db c user ids desired h =
    let (ys, e, k) = and_then-ok (collect_ids _ [] ids) _ desired h in
    let all_of : (d : ℕ) → In d ys ↔ (⊥ ⊎ In d ids) = collect_ids-In _ [] ids ys e in
    let (same, p) = accepted (same_set (indexed_ids db c.pk ys) ys) _ k in
    (
      λ t. (
        λ i.
            let (d, j, q) =
              In-map (direct_grant c.pk user) t ys
                ((In-to_set t (map (direct_grant c.pk user) ys)).0 (subst (In t) (sym p) i)) in
            (d, elim ((all_of d).0 j) [ inl z ↦ absurd z | inr l ↦ l ], q),
        λ i. subst (In t) p (
            (In-to_set t (map (direct_grant c.pk user) ys)).1 (
              subst (λ z. In z (map (direct_grant c.pk user) ys)) (sym i.2)
                (In-map_of (direct_grant c.pk user) i.0 ys ((all_of i.0).1 (inr i.1))))),
      ),
      λ d i.
          indexed_ids-In db c.pk ys d
            ((same_set-In (indexed_ids db c.pk ys) ys same d).1 ((all_of d).1 (inr i))),
    )
  where
    accepted :
        (b : Bool) (ts : List PermissionTuple)
        → if◌then◌else◌ {A = Result String (List PermissionTuple)} b
            (ok ts)
            (err "document_scope_invalid")
          ≡ ok desired
        → (b ≡ true) × (ts ≡ desired)
    accepted b ts k = ground arith
