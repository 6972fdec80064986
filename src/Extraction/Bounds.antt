-- ===== src/Extraction/Bounds.antt =====
-- The chunks are bounded, and the loop that cuts them ends.
use mathlib.Core.List.{reverse-cons}
use knowledge_graph_mvp.Prelude.{
  Bool-cases, Option, Text, [], ap, arith, drop, if◌then◌else◌, inl, inr, is_empty, is_space,
  length, length-append, length-take, list_eq, lstrip, ltb, ltb→lt, min, nat_eq, none, refl,
  reverse, some, string_eq, strip, suc, ℕ, ◌+◌, ◌-◌, ◌/◌, ◌<◌, ◌==◌, ◌∙◌, ◌∷◌, ◌≡◌, ◌≤◌,
}
use knowledge_graph_mvp.Extraction.{cut, last_place, latest, preferred_end, rfind, slice}

length-lstrip : (cs : Text) → length (lstrip cs) ≤ length cs
unfolding lstrip
length-lstrip [] = omega arith
length-lstrip (c ∷ cs) = elim (Bool-cases (is_space c)) [
  | inl e ↦ rw e (omega (arith, length-lstrip cs))
  | inr e ↦ rw e (omega arith)
]

length-slice : (start end' : ℕ) (xs : Text) → length (slice start end' xs) ≤ end' - start
unfolding slice
length-slice start end' xs = omega (arith, length-take (end' - start) (drop start xs))

last_place-lt :
    (c at : ℕ) (cs : Text) (place : ℕ) → last_place c at cs ≡ some place → place < at + length cs
unfolding last_place
last_place-lt c at [] place h = cc
last_place-lt c at (x ∷ xs) place h =
    go (last_place-lt c (suc at) xs) (last_place c (suc at) xs) refl h
  where
    go :
        ((p : ℕ) → last_place c (suc at) xs ≡ some p → p < suc at + length xs)
        → (o : Option ℕ) → last_place c (suc at) xs ≡ o
        → elim o as (λ _. Option ℕ) [ some p ↦ some p | none ↦ if x == c then some at else none ]
          ≡ some place
        → place < at + suc (length xs)
    go ih (some p) e k = ground (arith, ih p e)
    go ih none e k = ground arith

last_place-nonempty :
    (c at : ℕ) (cs : Text) (place : ℕ) → last_place c at cs ≡ some place → 0 < length cs
unfolding last_place
last_place-nonempty c at [] place h = cc
last_place-nonempty c at (x ∷ xs) place h = omega arith

rfind-lt : (xs : Text) (c start end' place : ℕ) → rfind xs c start end' ≡ some place → place < end'
unfolding rfind
rfind-lt xs c start end' place h = omega (
  arith,
  last_place-lt c start (slice start end' xs) place h,
  last_place-nonempty c start (slice start end' xs) place h,
  length-slice start end' xs,
)

length-reverse : (cs : Text) → length (reverse cs) ≡ length cs
length-reverse [] = refl
length-reverse (c ∷ cs) =
    ap (λ x. length x) (reverse-cons c cs)
    ∙ omega (arith, length-append (reverse cs) (c ∷ []), length-reverse cs)

length-strip : (cs : Text) → length (strip cs) ≤ length cs
unfolding strip
length-strip cs = omega (
  arith,
  length-lstrip cs,
  length-reverse (lstrip cs),
  length-lstrip (reverse (lstrip cs)),
  length-reverse (lstrip (reverse (lstrip cs))),
)

latest-lt :
    (m n : Option ℕ) (place bound : ℕ)
    → ((p : ℕ) → m ≡ some p → p < bound)
    → ((p : ℕ) → n ≡ some p → p < bound)
    → latest m n ≡ some place
    → place < bound
unfolding latest
latest-lt none n place bound h k e = k place e
latest-lt (some m) none place bound h k e = h place e
latest-lt (some m) (some n) place bound h k e = ground (arith, h m refl, k n refl)

-- A chunk ends behind its beginning, and within the budget and the paragraph.
preferred_end-bounds :
    (max_chars : ℕ) (paragraph : Text) (start : ℕ)
    → 1 ≤ max_chars
    → start < length paragraph
    → (start < preferred_end max_chars paragraph start)
      × (preferred_end max_chars paragraph start ≤ min (start + max_chars) (length paragraph))
unfolding preferred_end
preferred_end-bounds m paragraph start h k = elim (Bool-cases (ltb max_end (length paragraph))) [
  | inl e ↦ rw e (
      go (latest (rfind paragraph 10 half (max_end + 1)) (rfind paragraph 32 half (max_end + 1)))
        refl)
  | inr e ↦ rw e (omega arith, omega arith)
]
  where
    max_end : ℕ
    max_end = min (start + m) (length paragraph)

    half : ℕ
    half = start + m / 2

    go :
        (o : Option ℕ)
        → latest (rfind paragraph 10 half (max_end + 1)) (rfind paragraph 32 half (max_end + 1)) ≡ o
        → let end' = elim o as (λ _. ℕ) [
          | some boundary ↦ if ltb start boundary then boundary else max_end
          | none ↦ max_end
        ] in
          (start < end') × (end' ≤ max_end)
    go none e = (omega arith, omega arith)
    go (some b) e =
        let near : b < max_end + 1 =
          latest-lt _ _ b (max_end + 1) (λ p q. rfind-lt paragraph 10 half (max_end + 1) p q)
            (λ p q. rfind-lt paragraph 32 half (max_end + 1) p q) e in
        elim (Bool-cases (ltb start b)) [
          | inl t ↦ rw t (ltb→lt start b t, omega (arith, near))
          | inr t ↦ rw t (omega arith, omega arith)
        ]

pub cut-bounds :
    (max_chars : ℕ) (paragraph : Text) (start : ℕ)
    → 1 ≤ max_chars
    → start < length paragraph
    → (length (cut max_chars paragraph start).0 ≤ max_chars)
      × (start < (cut max_chars paragraph start).1)
unfolding cut
cut-bounds m paragraph start h k =
    let (after, within) = preferred_end-bounds m paragraph start h k in
    let max_end : ℕ = min (start + m) (length paragraph) in
    let end' : ℕ = preferred_end m paragraph start in
    elim (Bool-cases (is_empty (strip (slice start end' paragraph)))) [
      | inl e ↦ rw e (
        omega (
          arith,
          length-strip (slice start max_end paragraph),
          length-slice start max_end paragraph,
        ),
        omega (arith, after, within),
      )
      | inr e ↦ rw e (
        omega (
          arith,
          length-strip (slice start end' paragraph),
          length-slice start end' paragraph,
          within,
        ),
        after,
      )
    ]
