-- ===== src/GoogleGroups/Fetched.antt =====
-- What the pages of the Directory API give of a group, and the whole resolution.
use knowledge_graph_mvp.Prelude.{
  Bool-cases, In, In-add, List, Option, Result, Text, [], add, arith, err, inl, inr, length,
  list_eq, lower, nat_eq, none, ok, refl, some, string_eq, strip, subst, suc, sym, zero, ℕ, ◌+◌,
  ◌∷◌, ◌≡◌, ◌≤◌, ◌⊎◌,
}
use knowledge_graph_mvp.GoogleGroups.{
  GroupMembership, GroupError, Member, MemberPage, collect_members, fetch_membership, fetch_pages,
  lookup_failed, member_email, next_token, resolve, has_type, is_active_member, collect_member,
}
use knowledge_graph_mvp.GoogleGroups.Emails.{normalized-normalized}
use knowledge_graph_mvp.GoogleGroups.Resolved.{IsResolution}
use knowledge_graph_mvp.GoogleGroups.Ended.{AreKnown, IsFetched}
use knowledge_graph_mvp.GoogleGroups.Closed.{resolve_each-IsResolution}

module _ (known : List Text) (rank : Text → Option Text → ℕ) where
  -- An answer for a group: its members are known, and the page that it names is nearer to the last.
  abbrev IsAnswer : Text → Option Text → Option MemberPage → Type 0
  IsAnswer group token none = Unit
  IsAnswer group token (some page) =
      ((m : Member) → In m page.members → In (member_email m) known)
      × ((token' : Text)
          → next_token page ≡ some token'
          → suc (rank group (some token')) ≤ rank group token)

  -- A directory with finitely many addresses, whose listings have at most the given number of pages.
  pub record IsDirectory {W : Type 0} (pages : ℕ)
      (list_members : Text → Option Text → W → Option MemberPage × W) : Type 0 where
    pub answers :
        (group : Text) (token : Option Text) (w : W)
        → IsAnswer group token ((list_members group token w).0)
    pub last_page : (group : Text) → suc (rank group none) ≤ pages

  member_email-normalized : (m : Member) → lower (strip (member_email m)) ≡ member_email m
  unfolding member_email
  member_email-normalized m =
      elim m.email
        as (λ o.
          lower (strip (elim o as (λ _. Text) [ none ↦ [] | some email ↦ lower (strip email) ]))
          ≡ elim o as (λ _. Text) [ none ↦ [] | some email ↦ lower (strip email) ]) [
            | none ↦ normalized-normalized []
            | some email ↦ normalized-normalized email
          ]

  add-AreKnown :
      (m : Member) (children : List Text)
      → In (member_email m) known
      → AreKnown known children
      → AreKnown known (add (member_email m) children)
  add-AreKnown m children i h c j = elim (In-add (member_email m) c children j) [
    | inl q ↦ subst (λ z. In z known × (lower (strip z) ≡ z)) (sym q) (i, member_email-normalized m)
    | inr k ↦ h c k
  ]

  collect_member-AreKnown :
      (m : Member) (found : GroupMembership)
      → In (member_email m) known
      → AreKnown known found.child_groups
      → AreKnown known ((collect_member m found).child_groups)
  unfolding collect_member
  collect_member-AreKnown m found i h = elim (Bool-cases (is_active_member m)) [
    | inr e ↦ rw (e, collect_member) h
    | inl e ↦ elim (Bool-cases (has_type "GROUP" m)) [
      | inl e' ↦ rw (e, e', collect_member) (add-AreKnown m found.child_groups i h)
      | inr e' ↦ elim (Bool-cases (has_type "USER" m)) [
        | inl e'' ↦ rw (e, e', e'', collect_member) h
        | inr e'' ↦ rw (e, e', e'', collect_member) h
      ]
    ]
  ]

  collect_members-AreKnown :
      (ms : List Member) (found : GroupMembership)
      → ((m : Member) → In m ms → In (member_email m) known)
      → AreKnown known found.child_groups
      → AreKnown known ((collect_members ms found).child_groups)
  unfolding collect_members
  collect_members-AreKnown [] found i h = h
  collect_members-AreKnown (m ∷ ms) found i h =
      collect_members-AreKnown ms (collect_member m found) (λ x j. i x (inr j))
        (collect_member-AreKnown m found (i m (inl refl)) h)

  option_cases : (o : Option Text) → (o ≡ none) ⊎ ((t : Text) × (o ≡ some t))
  option_cases none = inl refl
  option_cases (some t) = inr (t, refl)

  module _ {W : Type 0} (list_members : Text → Option Text → W → Option MemberPage × W) (pages : ℕ)
      (directory : IsDirectory pages list_members) where
    fetch_pages-IsFetched :
        (rounds : ℕ) (group : Text) (token : Option Text) (found : GroupMembership) (w : W)
        → suc (rank group token) ≤ rounds
        → AreKnown known found.child_groups
        → IsFetched known ((fetch_pages list_members rounds group token found w).0)
    unfolding fetch_pages
    fetch_pages-IsFetched zero group token found w enough h = absurd (omega arith)
    fetch_pages-IsFetched (suc rounds) group token found w enough h =
        split (list_members group token w) (directory.answers group token w)
          (λ token' found' w'. fetch_pages-IsFetched rounds group (some token') found' w')
      where
        turn : GroupMembership → W → Option Text → Result GroupError GroupMembership × W
        turn found' w' next = elim next [
          | none ↦ (ok found', w')
          | some token' ↦ fetch_pages list_members rounds group (some token') found' w'
        ]

        after : Option MemberPage × W → Result GroupError GroupMembership × W
        after x =
            let (answer, w') = x in
            elim answer [
              | none ↦ (err lookup_failed, w')
              | some page ↦ turn (collect_members page.members found) w' (next_token page)
            ]

        split :
            (x : Option MemberPage × W)
            → IsAnswer group token (x.0)
            → ((token' : Text) (found' : GroupMembership) (w' : W)
                → suc (rank group (some token')) ≤ rounds
                → AreKnown known found'.child_groups
                → IsFetched known
                    ((fetch_pages list_members rounds group (some token') found' w').0))
            → IsFetched known ((after x).0)
        split (none, w') a again = λ q. cc
        split (some page, w') a again =
            let found' = collect_members page.members found in
            let k = collect_members-AreKnown page.members found (a.0) h in
            elim (option_cases (next_token page)) [
              | inl e ↦ subst (λ t. IsFetched known ((turn found' w' t).0)) (sym e) k
              | inr (token', e) ↦
                  subst (λ t. IsFetched known ((turn found' w' t).0)) (sym e)
                    (again token' found' w' (omega (arith, a.1 token' e)) k)
            ]

    -- With a directory of finitely many addresses, whose listings have at most `pages` pages, and two
    -- rounds for each address and two more, a resolution returns each given group, the children of
    -- each returned group resolved before it, or raises a GroupResolutionError.
    pub resolve-IsResolution :
        (rounds : ℕ) (group_emails : List Text) (w : W)
        → suc (suc (length known + length known)) ≤ rounds
        → IsResolution group_emails ((resolve list_members pages rounds group_emails w).0)
    unfolding resolve fetch_membership
    resolve-IsResolution rounds group_emails w enough =
        resolve_each-IsResolution (fetch_membership list_members pages) known
          (λ group w'.
            fetch_pages-IsFetched pages group none (record { users = []; child_groups = [] }) w'
              (directory.last_page group) (λ c i. absurd i))
          rounds group_emails w enough
