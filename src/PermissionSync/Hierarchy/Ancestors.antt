-- ===== src/PermissionSync/Hierarchy/Ancestors.antt =====
-- The folders above a folder, in terms of the rows: a parent is named by the folder's row, and is a
-- folder of the connection itself.
use knowledge_graph_mvp.Prelude.{
  Bool-cases, In, In-contains, In-keep, In-keep_of, List, Option, Text, [], contains, contains-In,
  first, inl, inr, keep, list_eq, nat_eq, none, refl, some, string_eq, subst, sym, ◌==◌, ◌↔◌, ◌∷◌,
  ◌≡◌,
}
use knowledge_graph_mvp.Models.{DriveFolder}
use knowledge_graph_mvp.PermissionSync.Hierarchy.{edges, edges_in, folder_ids}
use knowledge_graph_mvp.PermissionSync.Hierarchy.Search.{IsAbove, parent, further}

abbrev pub IsParent : List DriveFolder → Text → Text → Type 0
IsParent folders x y =
    (f : DriveFolder) × (first (keep (λ g. g.drive_folder_id == x) folders) ≡ some f)
    × In y f.parent_folder_ids
    × In y (folder_ids folders)

-- `y` is reached from `x` by one or more steps to a parent.
pub data IsAncestor (folders : List DriveFolder) (x : Text) : Text → Type 0 where
  a_parent : {y : Text} → IsParent folders x y → IsAncestor folders x y
  beyond : {y z : Text} → IsAncestor folders x y → IsParent folders y z → IsAncestor folders x z

In-edges_in :
    (ids : List Text) (folders : List DriveFolder) (x y : Text)
    → In y (edges_in ids folders x) ↔ (
        (f : DriveFolder) × (first (keep (λ g. g.drive_folder_id == x) folders) ≡ some f)
        × In y f.parent_folder_ids
        × In y ids)
unfolding edges_in first keep
In-edges_in ids [] x y = (λ i. absurd i, λ h. absurd (absent h.0 h.1))
  where
    absent : (f : DriveFolder) → ◌≡◌ {A = Option DriveFolder} none (some f) → ⊥
    absent f e = cc
In-edges_in ids (g ∷ gs) x y = elim (Bool-cases (g.drive_folder_id == x)) [
  | inr e ↦ rw e (In-edges_in ids gs x y)
  | inl e ↦ rw e (
    λ i.
        let (j, k) = In-keep (contains ids) y g.parent_folder_ids i in
        (g, refl, j, contains-In ids y k),
    λ (f, q, j, k).
        In-keep_of (contains ids) y g.parent_folder_ids
          (subst (λ z. In y z.parent_folder_ids) (sym (same f q)) j) (In-contains ids y k),
  )
]
  where
    same : (f : DriveFolder) → ◌≡◌ {A = Option DriveFolder} (some g) (some f) → g ≡ f
    same f q = cc

pub above_iff :
    (folders : List DriveFolder) (x y : Text) → IsAbove (edges folders) x y ↔ IsAncestor folders x y
unfolding edges
above_iff folders x y = (there, back)
  where
    there : {z : Text} → IsAbove (edges folders) x z → IsAncestor folders x z
    there (parent i) = a_parent ((In-edges_in (folder_ids folders) folders x _).0 i)
    there (further a i) = beyond (there a) ((In-edges_in (folder_ids folders) folders _ _).0 i)

    back : {z : Text} → IsAncestor folders x z → IsAbove (edges folders) x z
    back (a_parent p) = parent ((In-edges_in (folder_ids folders) folders x _).1 p)
    back (beyond a p) = further (back a) ((In-edges_in (folder_ids folders) folders _ _).1 p)
