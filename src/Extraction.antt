-- ===== src/Extraction.antt =====
-- `ParagraphChunkExtractor` of apps/backend/graph/extraction.py: a text is cut into bounded chunks.
pub mod Bounds
pub mod Total
use knowledge_graph_mvp.Prelude.{
  Bool, List, Option, Text, [], drop, given, if◌then◌else◌, is_empty, keep, leb, length, list_eq,
  ltb, map, min, nat_eq, none, not, reverse, some, string_eq, strip, suc, take, zero, ℕ, ◌&&◌, ◌++◌,
  ◌+◌, ◌-◌, ◌/◌, ◌==◌, ◌∷◌,
}

pub record ExtractedChunk : Type 0 where
  pub index : ℕ
  pub text : Text

-- `max_chars` and `overlap_chars`, as the constructor accepts them.
unfoldable pub accepted : ℕ → ℕ → Bool
accepted max_chars overlap_chars = not (ltb max_chars 1) && ltb overlap_chars max_chars

-- `text.split("\n\n")`: `block` is the block so far, backwards.
unfoldable pub split_blocks : Text → Text → List Text
split_blocks block [] = reverse block ∷ []
split_blocks block (c ∷ []) = reverse (c ∷ block) ∷ []
split_blocks block (c ∷ d ∷ cs) =
    if c == 10 && d == 10
    then reverse block ∷ split_blocks [] cs
    else split_blocks (c ∷ block) (d ∷ cs)

-- `xs[start:end]`
unfoldable pub slice : ℕ → ℕ → Text → Text
slice start end' xs = take (end' - start) (drop start xs)

-- The last place of `c` in `cs`, which begins at place `at`; `none` is -1.
unfoldable pub last_place : ℕ → ℕ → Text → Option ℕ
last_place c at [] = none
last_place c at (x ∷ xs) = elim (last_place c (suc at) xs) [
  | some place ↦ some place
  | none ↦ if x == c then some at else none
]

-- `xs.rfind(c, start, end)`
unfoldable pub rfind : Text → ℕ → ℕ → ℕ → Option ℕ
rfind xs c start end' = last_place c start (slice start end' xs)

unfoldable pub latest : Option ℕ → Option ℕ → Option ℕ
latest none n = n
latest m none = m
latest (some m) (some n) = some (if ltb m n then n else m)

-- The end of the chunk that begins at `start`: a boundary near the end of the budget, if there is one.
unfoldable pub preferred_end : ℕ → Text → ℕ → ℕ
preferred_end max_chars paragraph start =
    let max_end = min (start + max_chars) (length paragraph) in
    let preferred_start = start + max_chars / 2 in
    if ltb max_end (length paragraph)
    then elim (latest (rfind paragraph 10 preferred_start (max_end + 1))
        (rfind paragraph 32 preferred_start (max_end + 1))) [
          | some boundary ↦ if ltb start boundary then boundary else max_end
          | none ↦ max_end
        ]
    else max_end

-- The chunk from `start`, with its end; blank text up to a boundary gives way to the whole budget.
unfoldable pub cut : ℕ → Text → ℕ → Text × ℕ
cut max_chars paragraph start =
    let max_end = min (start + max_chars) (length paragraph) in
    let end' = preferred_end max_chars paragraph start in
    let chunk = strip (slice start end' paragraph) in
    if is_empty chunk then (strip (slice start max_end paragraph), max_end) else (chunk, end')

-- The loop, on fuel; `none` is a loop that has not ended.
unfoldable pub split_from : ℕ → ℕ → ℕ → Text → ℕ → Option (List Text)
split_from zero max_chars overlap_chars paragraph start = none
split_from (suc fuel) max_chars overlap_chars paragraph start =
    let (chunk, end') = cut max_chars paragraph start in
    let next = end' - overlap_chars in
    let further =
      split_from fuel max_chars overlap_chars paragraph
        (if ltb next (start + 1) then start + 1 else next) in
    if not (ltb start (length paragraph))
    then some []
    else if leb (length paragraph) end'
    then some (chunk ∷ [])
    else given further λ rest. some (chunk ∷ rest)

unfoldable pub split_oversized_paragraph : ℕ → ℕ → Text → Option (List Text)
split_oversized_paragraph max_chars overlap_chars paragraph =
    if leb (length paragraph) max_chars
    then some (paragraph ∷ [])
    else split_from (suc (length paragraph)) max_chars overlap_chars paragraph 0

unfoldable pub split_paragraphs : ℕ → ℕ → List Text → Option (List Text)
split_paragraphs max_chars overlap_chars [] = some []
split_paragraphs max_chars overlap_chars (paragraph ∷ rest) =
    given (split_oversized_paragraph max_chars overlap_chars paragraph) λ chunks.
      given (split_paragraphs max_chars overlap_chars rest) λ further. some (chunks ++ further)

-- `enumerate`
unfoldable pub number_chunks : ℕ → List Text → List ExtractedChunk
number_chunks n [] = []
number_chunks n (t ∷ ts) = record { index = n; text = t } ∷ number_chunks (n + 1) ts

unfoldable pub extract : ℕ → ℕ → Text → Option (List ExtractedChunk)
extract max_chars overlap_chars text =
    let paragraphs = keep (λ block. not (is_empty block)) (map strip (split_blocks [] text)) in
    given (split_paragraphs max_chars overlap_chars paragraphs)
      λ chunks. some (number_chunks 0 chunks)
