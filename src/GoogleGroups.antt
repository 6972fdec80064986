-- ===== src/GoogleGroups.antt =====
-- apps/backend/integrations/drive/groups.py: the members of the groups that access lists name, with
-- the groups nested in them. The Directory API is a parameter; `none` is any exception of it.
pub mod Emails
pub mod Resolved
pub mod Ended
pub mod Unwound
pub mod Closed
pub mod Fetched
use knowledge_graph_mvp.Prelude.{
  Bool, Exec, List, Option, String, Text, [], add, contains, err, false, if◌then◌else◌, is_empty,
  list_eq, lower, map, nat_eq, none, not, ok, pure, some, string_eq, strip, suc, true, zero, ℕ,
  ◌&&◌, ◌==◌, ◌>>=◌, ◌∷◌,
}
use knowledge_graph_mvp.PermissionSync.Hierarchy.{remove}
use knowledge_graph_mvp.DriveAcl.{sort_on}

-- Why no members are known: the two messages of a GroupResolutionError, and the end of the rounds that
-- the loops are given.
pub data GroupError : Type 0 where
  lookup_failed : GroupError
  nested_cycle : GroupError
  rounds_spent : GroupError

pub record GroupMembership : Type 0 where
  pub users : List Text
  pub child_groups : List Text

-- One entry of an answer of the API, each key possibly missing.
pub record Member : Type 0 where
  pub email : Option Text
  pub status : Option String
  pub type : Option String

pub record MemberPage : Type 0 where
  pub members : List Member
  pub next_page_token : Option Text

-- `str(member.get("email", "")).strip().lower()`
unfoldable pub member_email : Member → Text
unfolding lower strip
member_email m = elim m.email [ none ↦ [] | some email ↦ lower (strip email) ]

-- `member.get("status", "ACTIVE") == "ACTIVE"`, with an address that is not empty.
unfoldable pub is_active_member : Member → Bool
unfolding member_email
is_active_member m =
    not (is_empty (member_email m))
    && elim m.status as (λ _. Bool) [ none ↦ true | some status ↦ status == "ACTIVE" ]

-- `member.get("type") == type`
unfoldable pub has_type : String → Member → Bool
has_type type m = elim m.type [ none ↦ false | some t ↦ t == type ]

unfoldable pub collect_member : Member → GroupMembership → GroupMembership
unfolding is_active_member has_type add
collect_member m found =
    if is_active_member m
    then if has_type "GROUP" m
      then record found { child_groups = add (member_email m) found.child_groups }
      else if has_type "USER" m
      then record found { users = add (member_email m) found.users }
      else found
    else found

unfoldable pub collect_members : List Member → GroupMembership → GroupMembership
unfolding collect_member
collect_members [] found = found
collect_members (m ∷ ms) found = collect_members ms (collect_member m found)

-- `response.get("nextPageToken")`, where it is not empty.
unfoldable pub next_token : MemberPage → Option Text
next_token page = elim page.next_page_token [
  | none ↦ none
  | some token ↦ if is_empty token then none else some token
]

module _ {W : Type 0} (list_members : Text → Option Text → W → Option MemberPage × W) where
  unfoldable pub fetch_pages :
      ℕ → Text → Option Text → GroupMembership → Exec W GroupError GroupMembership
  unfolding collect_members next_token
  fetch_pages zero group token found w = (err rounds_spent, w)
  fetch_pages (suc rounds) group token found w =
      let (answer, w') = list_members group token w in
      elim answer [
        | none ↦ (err lookup_failed, w')
        | some page ↦
            let found' = collect_members page.members found in
            elim (next_token page) [
              | none ↦ (ok found', w')
              | some token' ↦ fetch_pages rounds group (some token') found' w'
            ]
      ]

  unfoldable pub fetch_membership : ℕ → Text → Exec W GroupError GroupMembership
  unfolding fetch_pages
  fetch_membership rounds group =
      fetch_pages rounds group none (record { users = []; child_groups = [] })

-- A group of the stack, with its children that are still to be looked at.
pub record Frame : Type 0 where
  pub group_email : Text
  pub membership : GroupMembership
  pub pending : List Text

-- The groups that are resolved, the newest first.
abbrev pub Memberships : Type 0
Memberships = List (Text × GroupMembership)

abbrev pub resolved_groups : Memberships → List Text
resolved_groups = map (λ e. e.0)

-- `while pending and pending[0] in resolved: pending.pop(0)`
unfoldable pub unresolved : List Text → List Text → List Text
unfolding contains
unresolved groups [] = []
unresolved groups (p ∷ ps) =
    let rest = unresolved groups ps in if contains groups p then rest else p ∷ ps

-- `sorted(emails)`
unfoldable pub sorted : List Text → List Text
unfolding sort_on
sorted = sort_on (λ email. email ∷ [])

module _ {W : Type 0} (fetch : Text → Exec W GroupError GroupMembership) where
  unfoldable pub push : Text → List Text → Exec W GroupError Frame
  unfolding contains lower strip sorted
  push email visiting w =
      let group = lower (strip email) in
      if contains visiting group
      then (err nested_cycle, w)
      else (fetch group >>= λ m.
            pure (record { group_email = group; membership = m; pending = sorted m.child_groups }))
          w

  -- `while stack:`, with the set `visiting` and the groups that are resolved when it ends.
  unfoldable pub unwind :
      ℕ → List Text → Memberships → List Frame → Exec W GroupError (List Text × Memberships)
  unfolding push remove unresolved
  unwind zero visiting resolved stack w = (err rounds_spent, w)
  unwind (suc rounds) visiting resolved [] w = (ok (visiting, resolved), w)
  unwind (suc rounds) visiting resolved (f ∷ fs) w =
      elim (unresolved (resolved_groups resolved) f.pending) [
        | [] ↦
            unwind rounds (remove f.group_email visiting) ((f.group_email, f.membership) ∷ resolved)
              fs w
        | p ∷ ps ↦
            (push p visiting >>= λ g.
            unwind rounds (g.group_email ∷ visiting) resolved (g ∷ record f { pending = ps } ∷ fs))
              w
      ]

  unfoldable pub resolve_each :
      ℕ → List Text → List Text → Memberships → Exec W GroupError Memberships
  unfolding push unwind contains lower strip
  resolve_each rounds [] visiting resolved = pure resolved
  resolve_each rounds (email ∷ emails) visiting resolved =
      if contains (resolved_groups resolved) (lower (strip email))
      then resolve_each rounds emails visiting resolved
      else (push email visiting >>= λ f.
          unwind rounds (f.group_email ∷ visiting) resolved (f ∷ []) >>= λ s.
          resolve_each rounds emails (s.0) (s.1))

unfoldable pub resolve :
    {W : Type 0}
    → (Text → Option Text → W → Option MemberPage × W)
    → ℕ
    → ℕ
    → List Text
    → Exec W GroupError Memberships
unfolding resolve_each fetch_membership sorted
resolve list_members pages rounds group_emails =
    resolve_each (fetch_membership list_members pages) rounds (sorted group_emails) [] []
