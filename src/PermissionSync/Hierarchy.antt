-- ===== src/PermissionSync/Hierarchy.antt =====
-- The folder hierarchy of apps/backend/authorization/sync.py: the search for a cycle, with its stack,
-- and the folders below the invalid ones, with their worklist.
pub mod Search
pub mod Rounds
pub mod Ancestors
pub mod Cycles
pub mod Descendants
use knowledge_graph_mvp.Prelude.{
  List, Result, String, Text, [], add, contains, err, if◌then◌else◌, keep, length, list_eq, map,
  nat_eq, not, ok, string_eq, suc, to_set, zero, ℕ, ◌+◌, ◌==◌, ◌∷◌,
}
use knowledge_graph_mvp.Models.{DriveFolder, pending}

abbrev pub folder_ids : List DriveFolder → List Text
folder_ids = map (λ f. f.drive_folder_id)

-- `edges[x]`: the parents of a folder that are folders of the connection themselves. A connection has
-- one row for each folder id.
unfoldable pub edges_in : List Text → List DriveFolder → Text → List Text
unfolding keep contains
edges_in ids [] x = []
edges_in ids (f ∷ fs) x =
    let rest = edges_in ids fs x in
    if f.drive_folder_id == x then keep (contains ids) f.parent_folder_ids else rest

unfoldable pub edges : List DriveFolder → Text → List Text
unfolding edges_in
edges folders = edges_in (folder_ids folders) folders

-- `visiting.remove(x)`
unfoldable pub remove : Text → List Text → List Text
unfolding keep
remove x = keep (λ y. not (y == x))

-- Nodes and the parents of each that are still to be looked at, the top first.
abbrev pub Stack : Type 0
Stack = List (Text × List Text)

-- The search raised, or ended with the visited nodes.
pub data Walk : Type 0 where
  cycle : Walk
  visited : List Text → Walk

module _ (edges_of : Text → List Text) where
  -- The loop over the stack, a round for each parent and for each node that is done.
  unfoldable pub walk : ℕ → List Text → List Text → Stack → Walk
  unfolding add remove contains
  walk zero visiting seen stack = cycle
  walk (suc fuel) visiting seen [] = visited seen
  walk (suc fuel) visiting seen ((node, []) ∷ stack) =
      walk fuel (remove node visiting) (add node seen) stack
  walk (suc fuel) visiting seen ((node, parent ∷ parents) ∷ stack) =
      if contains visiting parent
      then cycle
      else walk fuel (if contains seen parent then visiting else add parent visiting) seen (
          if contains seen parent
          then (node, parents) ∷ stack
          else (parent, edges_of parent) ∷ (node, parents) ∷ stack)

  -- The loop over the starting nodes.
  unfoldable pub walks : ℕ → List Text → List Text → Walk
  unfolding walk
  walks fuel [] seen = visited seen
  walks fuel (start ∷ starts) seen =
      let found =
        if contains seen start
        then visited seen
        else walk fuel (start ∷ []) seen ((start, edges_of start) ∷ []) in
      elim found [ cycle ↦ cycle | visited seen' ↦ walks fuel starts seen' ]

-- Each node counts one round, and so does each of its parents.
unfoldable pub weights : (Text → List Text) → List Text → ℕ
weights edges_of [] = 0
weights edges_of (x ∷ xs) = suc (length (edges_of x)) + weights edges_of xs

unfoldable pub search : List DriveFolder → Walk
unfolding edges weights walks
search folders =
    walks (edges folders) (suc (weights (edges folders) (folder_ids folders))) (folder_ids folders)
      []

unfoldable pub validate_acyclic : List DriveFolder → Result String (Unit {0})
unfolding search
validate_acyclic folders = elim (search folders) [
  | cycle ↦ err "folder_hierarchy_cycle"
  | visited seen ↦ ok tt
]

-- `children[x]`
unfoldable pub children : List DriveFolder → Text → List Text
unfolding to_set keep contains
children folders x = to_set (folder_ids (keep (λ f. contains f.parent_folder_ids x) folders))

-- The loop over the children of a folder; the newest pending folder is popped first.
unfoldable pub spread : List Text → List Text × List Text → List Text × List Text
unfolding contains
spread [] state = state
spread (child ∷ rest) (invalid, waiting) =
    spread rest
      (if contains invalid child then (invalid, waiting) else (child ∷ invalid, child ∷ waiting))

unfoldable pub descend : (Text → List Text) → ℕ → List Text × List Text → List Text
unfolding spread
descend children_of zero (invalid, waiting) = invalid
descend children_of (suc fuel) (invalid, []) = invalid
descend children_of (suc fuel) (invalid, x ∷ waiting) =
    descend children_of fuel (spread (children_of x) (invalid, waiting))

-- Every folder is pending once, beside those that were at the start.
unfoldable pub include_descendants : List Text → List DriveFolder → List Text
unfolding descend children
include_descendants invalid folders =
    descend (children folders) (length folders + length invalid) (invalid, invalid)
