-- ===== src/Tasks/Sweeps/Exact.antt =====
-- A sweep as an update of the stale rows.
use mathlib.Core.Bool.{true≢false}
use knowledge_graph_mvp.Prelude.{
  Bool, Bool-cases, In, In-map_of, List, false, if◌then◌else◌, inl, inr, refl, subst, sym, true,
  ◌↔◌, ◌∙◌, ◌≡◌, ◌⊎◌,
}
use knowledge_graph_mvp.Models.{In-update_where, update_where}

-- A sweep expires the stale rows and no others: none is left, each row stems from one row before, and
-- each row before has its row.
pub record IsSweep {A : Type 0} (Stale : A → Type 0) (expired : A → A) (before after : List A)
    : Type 0 where
  pub none_left : (row : A) → In row after → ¬ Stale row
  pub source :
      (row : A)
      → In row after
      → (old : A) × In old before
        × ((Stale old × (row ≡ expired old)) ⊎ (¬ Stale old × (row ≡ old)))
  pub expires : (old : A) → In old before → Stale old → In (expired old) after
  pub spares : (old : A) → In old before → ¬ Stale old → In old after

pub update_where-IsSweep :
    {A : Type 0} (test : A → Bool) (Stale : A → Type 0) (expired : A → A) (rows : List A)
    → ((x : A) → (test x ≡ true) ↔ Stale x)
    → ((x : A) → ¬ Stale (expired x))
    → IsSweep Stale expired rows (update_where test expired rows)
unfolding update_where
update_where-IsSweep {A} test Stale expired rows reads ended = record {
  none_left = λ row i s. elim (from row i).2 [
    | inl (h, p) ↦ ended ((from row i).0) (subst Stale p s)
    | inr (h, p) ↦ h (subst Stale p s)
  ];
  source = from;
  expires = λ old i s.
      subst (λ x. In x (update_where test expired rows)) (rw ((reads old).1 s) refl)
        (In-map_of step old rows i);
  spares = λ old i h.
      subst (λ x. In x (update_where test expired rows)) (rw (spared old h) refl)
        (In-map_of step old rows i);
}
  where
    step : A → A
    step x = if test x then expired x else x

    spared : (x : A) → ¬ Stale x → test x ≡ false
    spared x h = elim (Bool-cases (test x)) [ inl e ↦ absurd (h ((reads x).0 e)) | inr e ↦ e ]

    from :
        (row : A)
        → In row (update_where test expired rows)
        → (old : A) × In old rows
          × ((Stale old × (row ≡ expired old)) ⊎ (¬ Stale old × (row ≡ old)))
    from row i =
        let (old, j, k) = In-update_where test expired row rows i in
        (
          old,
          j,
          elim k [
            | inl (e, p) ↦ inl ((reads old).0 e, p)
            | inr (e, p) ↦ inr (λ s. true≢false (sym ((reads old).1 s) ∙ e), p)
          ],
        )
