-- ===== src/PermissionSync/Managed.antt =====
-- The relationships of the desired state: they lie under the connection's prefix, and none of them is
-- a direct grant of the other authority.
use knowledge_graph_mvp.Prelude.{
  All-at, Bool, Bool-cases, In, List, Option, String, Text, [], any, any-find, arith, contains,
  eq_of_==, false, if◌then◌else◌, inl, inr, is_empty, label_eq_iff, list_eq, nat_eq, none, not,
  refl, some, string_eq, subst, sym, true, ◌&&◌, ◌==◌, ◌||◌, ◌∷◌, ◌≡◌,
}
use knowledge_graph_mvp.DriveAcl.{Permission, is_set, is_label}
use knowledge_graph_mvp.SpiceDb.{tuple_eq}
use knowledge_graph_mvp.PermissionSync.{
  supported_roles, permissions_reason, principal_email, role_relation,
}

pub role-managed :
    (role : Option String)
    → any (is_label role) supported_roles ≡ true
    → (role_relation role == "oauth_viewer") ≡ false
unfolding role_relation any
role-managed none h = cc
role-managed (some r) h =
    let (x, i, e) = any-find (is_label (some r)) supported_roles h in
    subst NotDirect (sym (eq_of_== r x e))
      (All-at NotDirect x supported_roles (refl, (refl, (refl, (refl, (refl, (refl, tt)))))) i)
  where
    NotDirect : String → Type 0
    NotDirect z = (role_relation (some z) == "oauth_viewer") ≡ false

-- What an access list without a reason says of each of its entries.
pub record IsAccepted (unresolved : List Text) (p : Permission) : Type 0 where
  pub role_supported : any (is_label p.role) supported_roles ≡ true
  pub type_supported : is_label p.type "user" || is_label p.type "group" ≡ true
  pub has_email : is_empty (principal_email p) ≡ false
  pub not_pending : is_set p.pending_owner ≡ false
  pub resolved : is_label p.type "group" && contains unresolved (principal_email p) ≡ false

-- A test that was passed over on the way to the reason "".
pub unless_label :
    (test : Bool) (reason rest : String)
    → (reason == "") ≡ false
    → if◌then◌else◌ test reason rest ≡ ""
    → (test ≡ false) × (rest ≡ "")
unless_label true reason rest n h = absurd (ground (arith, label_eq_iff reason ""))
unless_label false reason rest n h = (refl, h)

accepted_head :
    (unresolved : List Text) (q : Permission) (qs : List Permission)
    → is_set q.deleted ≡ false
    → permissions_reason unresolved (q ∷ qs) ≡ ""
    → IsAccepted unresolved q × (permissions_reason unresolved qs ≡ "")
unfolding permissions_reason
accepted_head unresolved q qs d h =
    let unsupported : Bool =
      not (any (is_label q.role) supported_roles)
      || (not (is_label q.type "user" || is_label q.type "group")
          || is_empty (principal_email q)) in
    let (a, h1) =
      unless_label unsupported "unsupported_permission" _ refl (rw (d, permissions_reason) at h) in
    let (b, h2) =
      unless_label (is_set q.pending_owner) "permission_metadata_incomplete" _ refl h1 in
    let (c, h3) =
      unless_label (is_label q.type "group" && contains unresolved (principal_email q))
        "group_membership_unresolved" (permissions_reason unresolved qs) refl h2 in
    (
      record {
        role_supported = ground arith;
        type_supported = ground arith;
        has_email = ground arith;
        not_pending = b;
        resolved = c;
      },
      h3,
    )

accepted_tail :
    (unresolved : List Text) (q : Permission) (qs : List Permission)
    → permissions_reason unresolved (q ∷ qs) ≡ ""
    → permissions_reason unresolved qs ≡ ""
unfolding permissions_reason
accepted_tail unresolved q qs h = elim (Bool-cases (is_set q.deleted)) [
  | inl d ↦ rw (d, permissions_reason) at h
  | inr d ↦ (accepted_head unresolved q qs d h).1
]

pub permissions_reason-IsAccepted :
    (unresolved : List Text) (p : Permission) (ps : List Permission)
    → permissions_reason unresolved ps ≡ ""
    → In p ps
    → is_set p.deleted ≡ false
    → IsAccepted unresolved p
permissions_reason-IsAccepted unresolved p [] h i d = absurd i
permissions_reason-IsAccepted unresolved p (q ∷ qs) h (inl e) d =
    subst (IsAccepted unresolved) (sym e)
      (accepted_head unresolved q qs (subst (λ z. is_set z.deleted ≡ false) e d) h).0
permissions_reason-IsAccepted unresolved p (q ∷ qs) h (inr i) d =
    permissions_reason-IsAccepted unresolved p qs (accepted_tail unresolved q qs h) i d
