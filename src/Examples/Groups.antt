-- ===== src/Examples/Groups.antt =====
-- A directory with a group that is nested in another one, whose members are listed on two pages.
use knowledge_graph_mvp.Prelude.{
  Bool, In, List, Option, String, Text, [], arith, codes, false, inl, inr, is_space, list_eq, lower,
  lower_char, lstrip, nat_eq, none, refl, some, string_eq, strip, subst, suc, sym, true, ℕ, ◌==◌,
  ◌∷◌, ◌≡◌, ◌≤◌,
}
use knowledge_graph_mvp.GoogleGroups.Resolved.{IsResolution}
use knowledge_graph_mvp.GoogleGroups.Fetched.{IsDirectory, resolve-IsResolution}
use knowledge_graph_mvp.GoogleGroups.{Member, MemberPage, member_email, next_token, resolve}

abbrev member : String → Text → Member
member type email = record { email = some email; status = none; type = some type }

abbrev outer : Text
outer = codes "g@x.io"

abbrev inner : Text
inner = codes "h@x.io"

abbrev addresses : List Text
addresses = outer ∷ inner ∷ codes "a@x.io" ∷ []

-- The first page of the outer group names the inner one, everything else one user.
abbrev page_of : Bool → Option Text → MemberPage
page_of true none = record {
  members = member "GROUP" (codes " H@x.io") ∷ [];
  next_page_token = some (codes "2");
}
page_of true (some token) = record {
  members = member "USER" (codes "a@x.io") ∷ [];
  next_page_token = some [];
}
page_of false token = record {
  members = member "USER" (codes "a@x.io") ∷ [];
  next_page_token = none;
}

abbrev directory : Text → Option Text → ℕ → Option MemberPage × ℕ
directory group token calls = (some (page_of (group == outer) token), suc calls)

abbrev pages_left : Text → Option Text → ℕ
pages_left group none = 1
pages_left group (some token) = 0

page_of-IsAnswer :
    (b : Bool) (group : Text) (token : Option Text)
    → ((m : Member) → In m (page_of b token).members → In (member_email m) addresses)
      × ((token' : Text)
          → next_token (page_of b token) ≡ some token'
          → suc (pages_left group (some token')) ≤ pages_left group token)
unfolding member_email next_token lower lower_char strip lstrip is_space
page_of-IsAnswer true group none = (
  λ m i. elim i [
    | inl q ↦ subst (λ x. In (member_email x) addresses) (sym q) (inr (inl refl))
    | inr z ↦ absurd z
  ],
  λ token' e. omega arith,
)
page_of-IsAnswer true group (some token) = (
  λ m i. elim i [
    | inl q ↦ subst (λ x. In (member_email x) addresses) (sym q) (inr (inr (inl refl)))
    | inr z ↦ absurd z
  ],
  λ token' e. cc,
)
page_of-IsAnswer false group token = (
  λ m i. elim i [
    | inl q ↦ subst (λ x. In (member_email x) addresses) (sym q) (inr (inr (inl refl)))
    | inr z ↦ absurd z
  ],
  λ token' e. cc,
)

directory-IsDirectory : IsDirectory addresses pages_left 2 directory
directory-IsDirectory = record {
  answers = λ group token w. page_of-IsAnswer (group == outer) group token;
  last_page = λ group. omega arith;
}

resolve-IsResolution_example : IsResolution (outer ∷ []) ((resolve directory 2 8 (outer ∷ []) 0).0)
resolve-IsResolution_example =
    resolve-IsResolution addresses pages_left directory 2 directory-IsDirectory 8 (outer ∷ []) 0
      (omega arith)
