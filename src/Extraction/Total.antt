-- ===== src/Extraction/Total.antt =====
-- The extraction ends, with chunks within the budget.
use knowledge_graph_mvp.Prelude.{
  All, Bool-cases, List, Option, Text, [], ap, arith, given, if◌then◌else◌, inl, inr, is_empty,
  keep, leb, leb→le, length, ltb, ltb→lt, map, not, refl, some, strip, suc, true, zero, ℕ, ◌++◌,
  ◌+◌, ◌-◌, ◌<◌, ◌∙◌, ◌∷◌, ◌≡◌, ◌≤◌,
}
use knowledge_graph_mvp.Extraction.Bounds.{cut-bounds}
use knowledge_graph_mvp.Extraction.{
  ExtractedChunk, extract, split_from, cut, accepted, number_chunks, split_blocks,
  split_oversized_paragraph, split_paragraphs,
}

-- The texts were found, and each has at most `max_chars` characters.
abbrev Within : ℕ → Option (List Text) → Type 0
Within max_chars o =
    (chunks : List Text) × (o ≡ some chunks) × All (λ t. length t ≤ max_chars) chunks

-- The loop ends on fuel for the places that are left: every round begins further on.
split_from-Within :
    (fuel max_chars overlap_chars : ℕ) (paragraph : Text) (start : ℕ)
    → 1 ≤ max_chars
    → start ≤ length paragraph
    → length paragraph < fuel + start
    → Within max_chars (split_from fuel max_chars overlap_chars paragraph start)
unfolding split_from
split_from-Within zero m o p start h k l = absurd (omega (arith, k, l))
split_from-Within (suc fuel) m o p start h k l = elim (Bool-cases (ltb start (length p))) [
  | inr e ↦ rw e ([], refl, tt)
  | inl e ↦ rw e (
      inside (λ s q r. split_from-Within fuel m o p s h q r) (ltb→lt start (length p) e)
        (cut-bounds m p start h (ltb→lt start (length p) e)))
]
  where
    chunk : Text
    chunk = (cut m p start).0

    end' : ℕ
    end' = (cut m p start).1

    next : ℕ
    next = if ltb (end' - o) (start + 1) then start + 1 else end' - o

    rest_of :
        (x : Option (List Text))
        → length chunk ≤ m
        → Within m x
        → Within m (given x λ rest. some (chunk ∷ rest))
    rest_of x short (rest, e, fit) =
        (chunk ∷ rest, ap (λ y. given y λ r. some (chunk ∷ r)) e, (short, fit))

    inside :
        ((s : ℕ) → s ≤ length p → length p < fuel + s → Within m (split_from fuel m o p s))
        → start < length p
        → (length chunk ≤ m) × (start < end')
        → Within m (
            if leb (length p) end'
            then some (chunk ∷ [])
            else given (split_from fuel m o p next) λ rest. some (chunk ∷ rest))
    inside ih early (short, after) = elim (Bool-cases (leb (length p) end')) [
      | inl e ↦ rw e (chunk ∷ [], refl, (short, tt))
      | inr e ↦ rw e (
          rest_of _ short
            (ih next (ground (arith, early, after)) (ground (arith, l, early, after))))
    ]

paragraph-Within :
    (max_chars overlap_chars : ℕ) (paragraph : Text)
    → 1 ≤ max_chars
    → Within max_chars (split_oversized_paragraph max_chars overlap_chars paragraph)
unfolding split_oversized_paragraph
paragraph-Within m o p h = elim (Bool-cases (leb (length p) m)) [
  | inl e ↦ rw e (p ∷ [], refl, (leb→le (length p) m e, tt))
  | inr e ↦ rw e (split_from-Within (suc (length p)) m o p 0 h (omega arith) (omega arith))
]

All-append : (P : Text → Type 0) (xs ys : List Text) → All P xs → All P ys → All P (xs ++ ys)
All-append P [] ys h k = k
All-append P (x ∷ xs) ys h k = (h.0, All-append P xs ys h.1 k)

paragraphs-Within :
    (max_chars overlap_chars : ℕ) (paragraphs : List Text)
    → 1 ≤ max_chars
    → Within max_chars (split_paragraphs max_chars overlap_chars paragraphs)
unfolding split_paragraphs
paragraphs-Within m o [] h = ([], refl, tt)
paragraphs-Within m o (p ∷ ps) h =
    let (xs, e, short) = paragraph-Within m o p h in
    let (ys, e', short') = paragraphs-Within m o ps h in
    (
      xs ++ ys,
      ap (λ x. given x λ a. given (split_paragraphs m o ps) λ b. some (a ++ b)) e
          ∙ ap (λ x. given x λ b. some (xs ++ b)) e',
      All-append (λ t. length t ≤ m) xs ys short short',
    )

-- The chunks count up from `n`, and each is short.
abbrev pub IsNumbered : ℕ → ℕ → List ExtractedChunk → Type 0
IsNumbered max_chars n [] = Unit
IsNumbered max_chars n (c ∷ cs) =
    (c.index ≡ n) × (length c.text ≤ max_chars) × IsNumbered max_chars (n + 1) cs

number_chunks-IsNumbered :
    (max_chars n : ℕ) (ts : List Text)
    → All (λ t. length t ≤ max_chars) ts
    → IsNumbered max_chars n (number_chunks n ts)
unfolding number_chunks
number_chunks-IsNumbered m n [] h = tt
number_chunks-IsNumbered m n (t ∷ ts) h = (refl, h.0, number_chunks-IsNumbered m (n + 1) ts h.1)

-- With limits that the constructor accepts, the extraction of any text ends, and its chunks are
-- numbered from 0 and have at most `max_chars` characters each.
pub extract_total :
    (max_chars overlap_chars : ℕ) (text : Text)
    → accepted max_chars overlap_chars ≡ true
    → (chunks : List ExtractedChunk) × (extract max_chars overlap_chars text ≡ some chunks)
      × IsNumbered max_chars 0 chunks
unfolding extract accepted
extract_total m o text h =
    let (ts, e, short) =
      paragraphs-Within m o
        (keep (λ block. not (is_empty block)) (map strip (split_blocks [] text))) (ground arith) in
    (
      number_chunks 0 ts,
      ap (λ x. given x λ chunks. some (number_chunks 0 chunks)) e,
      number_chunks-IsNumbered m 0 ts short,
    )
