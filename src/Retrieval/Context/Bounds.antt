-- ===== src/Retrieval/Context/Bounds.antt =====
-- The context stays within its limit, whatever the items, and the search for a fitting line ends.
use knowledge_graph_mvp.Prelude.{
  Bool-cases, List, Option, Text, [], arith, codes, if◌then◌else◌, inl, inr, is_empty, join, leb,
  leb→le, length, length-append, list_eq, ltb, map, nat_eq, none, refl, some, string_eq, subst, suc,
  zero, ℕ, ◌++◌, ◌+◌, ◌-◌, ◌/◌, ◌==◌, ◌||◌, ◌∷◌, ◌≡◌, ◌≤◌,
}
use knowledge_graph_mvp.Retrieval.Types.{RetrievalEvidence, Item, chunk_id_of, items}
use knowledge_graph_mvp.Retrieval.Context.{
  AssembledContext, fit, assemble, assemble_context, candidate_content, compact, fitted_line,
  json_line, kind_of, raw_content, shorten, source_label,
}

-- A line that the search returns fits, where the one that it starts from does.
fit-le :
    (line : Text → Text) (content : Text) (remaining fuel low high : ℕ) (fitted : Text)
    → length fitted ≤ remaining
    → length (fit line content remaining fuel low high fitted) ≤ remaining
unfolding fit
fit-le line content remaining zero low high fitted h = h
fit-le line content remaining (suc fuel) low high fitted h =
    let candidate = line (candidate_content content ((low + high) / 2)) in
    elim (Bool-cases (leb low high)) [
      | inr e ↦ rw e h
      | inl e ↦ rw e (elim (Bool-cases (leb (length candidate) remaining)) [
        | inl y ↦ rw y (
            fit-le line content remaining fuel _ _ candidate
              (leb→le (length candidate) remaining y))
        | inr n ↦ rw n (fit-le line content remaining fuel _ _ fitted h)
      ])
    ]

fitted_line-le :
    (line : Text → Text) (content : Text) (remaining : ℕ)
    → length (fitted_line line content remaining) ≤ remaining
unfolding fitted_line
fitted_line-le line content remaining = elim (Bool-cases (ltb remaining (length (line content)))) [
  | inl e ↦ rw e (fit-le line content remaining _ _ _ [] (omega arith))
  | inr e ↦ rw e (ground arith)
]

-- What the lines take up behind an earlier line, with a line break in front of each.
tail_size : List (Text × Item) → ℕ
tail_size [] = 0
tail_size (p ∷ ps) = suc (length (p.0) + tail_size ps)

text_of : List (Text × Item) → Text
text_of ps = join (codes "\n") (map (λ p. p.0) ps)

text_of-length :
    (p : Text × Item) (ps : List (Text × Item))
    → suc (length (text_of (p ∷ ps))) ≡ tail_size (p ∷ ps)
unfolding text_of tail_size join
text_of-length p [] = omega arith
text_of-length p (q ∷ ps) =
    omega (arith, length-append (p.0) (codes "\n" ++ text_of (q ∷ ps)), text_of-length q ps)

text_of-le : (ps : List (Text × Item)) (m : ℕ) → tail_size ps ≤ suc m → length (text_of ps) ≤ m
unfolding text_of tail_size join
text_of-le [] m h = omega arith
text_of-le (p ∷ ps) m h = omega (arith, h, text_of-length p ps)

assemble-tail_size :
    (max_chars item_max_chars used n : ℕ) (is : List Item)
    → used ≤ max_chars
    → tail_size (assemble max_chars item_max_chars used n is)
      ≤ max_chars - used + (if n == 0 then 1 else 0)
unfolding assemble tail_size
assemble-tail_size m k used n [] h = omega arith
assemble-tail_size m k used n (i ∷ is) h =
    let separator : ℕ = if n == 0 then 0 else 1 in
    let line : Text =
      fitted_line (json_line (source_label n) (kind_of i) (chunk_id_of i))
        (shorten k (compact (raw_content i))) (m - used - separator) in
    let fits : length line ≤ m - used - separator = fitted_line-le _ _ (m - used - separator) in
    elim (Bool-cases (is_empty (compact (raw_content i)))) [
      | inl e ↦ rw e (assemble-tail_size m k used n is h)
      | inr e ↦ rw e (elim (Bool-cases (ltb (m - used - separator) 1)) [
        | inl e' ↦ rw e' (omega arith)
        | inr e' ↦ rw e' (elim (Bool-cases (is_empty line)) [
          | inl e'' ↦ rw e'' (omega arith)
          | inr e'' ↦ rw e'' (
              ground
                (arith, fits, assemble-tail_size m k (used + separator + length line) (n + 1) is))
        ])
      ])
    ]

-- The text of an assembled context has at most `max_chars` characters.
pub assemble_context-length :
    (evidence : RetrievalEvidence) (max_chars item_max_chars : ℕ) (context : AssembledContext)
    → assemble_context evidence max_chars item_max_chars ≡ some context
    → length context.text ≤ max_chars
unfolding assemble_context text_of join
assemble_context-length evidence m k context h = go (assemble m k 0 0 (items evidence)) refl h
  where
    bound :
        (ps : List (Text × Item)) → assemble m k 0 0 (items evidence) ≡ ps → tail_size ps ≤ suc m
    bound ps e =
        subst (λ x. tail_size x ≤ suc m) e
          (omega (arith, assemble-tail_size m k 0 0 (items evidence) (omega arith)))

    go :
        (ps : List (Text × Item))
        → assemble m k 0 0 (items evidence) ≡ ps
        → (if ltb m 1 || ltb k 1
            then none
            else some (record { text = text_of ps; included = map (λ p. p.1) ps }))
          ≡ some context
        → length context.text ≤ m
    go ps e q = elim (Bool-cases (ltb m 1 || ltb k 1)) [
      | inl y ↦ absurd (nothing (rw y at q))
      | inr n ↦ subst (λ x. length x ≤ m) (the_text (rw n at q)) (text_of-le ps m (bound ps e))
    ]
      where
        nothing : ◌≡◌ {A = Option AssembledContext} none (some context) → ⊥
        nothing x = cc

        the_text :
            ◌≡◌ {A = Option AssembledContext}
              (some (record { text = text_of ps; included = map (λ p. p.1) ps }))
              (some context)
            → text_of ps ≡ context.text
        the_text x = cc
