-- ===== src/PermissionSync/Rows.antt =====
-- Looking up rows behind an `update_or_create`.
use knowledge_graph_mvp.Prelude.{
  Bool, Bool-cases, List, [], any, arith, false, first, inl, inr, keep, refl, some, true, ◌++◌, ◌∷◌,
  ◌≡◌,
}
use knowledge_graph_mvp.Models.{update_where, upsert}

-- Looking up a row behind an `update_or_create` that writes one fixed row.
module _ {A : Type 0} (test : A → Bool) (row : A) (its : test row ≡ true) where
  find_updated :
      (rows : List A)
      → any test rows ≡ true
      → first (keep test (update_where test (λ x. row) rows)) ≡ some row
  unfolding any first keep update_where
  find_updated [] h = cc
  find_updated (x ∷ xs) h = elim (Bool-cases (test x)) [
    | inl e ↦ rw (e, its) refl
    | inr e ↦ rw (e, e) (find_updated xs (rw e at h))
  ]

  find_appended :
      (rows : List A) → any test rows ≡ false → first (keep test (rows ++ row ∷ [])) ≡ some row
  unfolding any first keep
  find_appended [] h = rw its refl
  find_appended (x ∷ xs) h = elim (Bool-cases (test x)) [
    | inl e ↦ absurd (ground arith)
    | inr e ↦ rw e (find_appended xs (rw e at h))
  ]

  pub find-upsert : (rows : List A) → first (keep test (upsert test (λ x. row) row rows)) ≡ some row
  unfolding upsert
  find-upsert rows = elim (Bool-cases (any test rows)) [
    | inl e ↦ rw e (find_updated rows e)
    | inr e ↦ rw e (find_appended rows e)
  ]

-- Another row is found as before.
module _ {A : Type 0} (other test : A → Bool) (row : A) (not_it : other row ≡ false)
    (apart : (x : A) → test x ≡ true → other x ≡ false) where
  other_updated :
      (rows : List A)
      → first (keep other (update_where test (λ x. row) rows)) ≡ first (keep other rows)
  unfolding first keep update_where
  other_updated [] = refl
  other_updated (x ∷ xs) = elim (Bool-cases (test x)) [
    | inl e ↦ rw (e, not_it, apart x e) (other_updated xs)
    | inr e ↦ elim (Bool-cases (other x)) [
      | inl e' ↦ rw (e, e') refl
      | inr e' ↦ rw (e, e') (other_updated xs)
    ]
  ]

  other_appended : (rows : List A) → first (keep other (rows ++ row ∷ [])) ≡ first (keep other rows)
  unfolding first keep
  other_appended [] = rw not_it refl
  other_appended (x ∷ xs) = elim (Bool-cases (other x)) [
    | inl e ↦ rw e refl
    | inr e ↦ rw e (other_appended xs)
  ]

  pub other-upsert :
      (rows : List A)
      → first (keep other (upsert test (λ x. row) row rows)) ≡ first (keep other rows)
  unfolding upsert
  other-upsert rows = elim (Bool-cases (any test rows)) [
    | inl e ↦ rw e (other_updated rows)
    | inr e ↦ rw e (other_appended rows)
  ]
