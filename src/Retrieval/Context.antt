-- ===== src/Retrieval/Context.antt =====
-- apps/backend/retrieval/context.py: the bounded JSONL context and the items that it holds. The
-- items stand as one list, chunks first; `chunks` and `facts` of the source are its two kinds.
pub mod Bounds
use knowledge_graph_mvp.Prelude.{
  List, Option, Text, [], codes, decimal, if◌then◌else◌, is_empty, join, json_string, leb, length,
  list_eq, ltb, map, min, nat_eq, none, replace_char, some, string_eq, suc, take, words, zero, ℕ,
  ◌&&◌, ◌++◌, ◌+◌, ◌-◌, ◌/◌, ◌==◌, ◌||◌, ◌∷◌,
}
use knowledge_graph_mvp.Retrieval.Types.{RetrievalEvidence, Item, chunk, fact, items, chunk_id_of}

pub record AssembledContext : Type 0 where
  pub text : Text
  pub included : List Item

unfoldable pub compact : Text → Text
unfolding words join
compact text = join (codes " ") (words text)

unfoldable pub kind_of : Item → Text
kind_of (chunk c) = codes "chunk"
kind_of (fact f) = codes "graph_fact"

unfoldable pub raw_content : Item → Text
unfolding replace_char
raw_content (chunk c) = c.text
raw_content (fact f) =
    f.source_name
    ++ (codes " "
        ++ (replace_char b'_' 32 f.relationship_type
            ++ (codes " " ++ (f.target_name ++ (codes ". Evidence: " ++ f.text)))))

unfoldable pub json_line : Text → Text → Text → Text → Text
unfolding json_string
json_line source kind chunk_id content =
    codes "{\"source\":"
    ++ (json_string source
        ++ (codes ",\"kind\":"
            ++ (json_string kind
                ++ (codes ",\"chunk_id\":"
                    ++ (json_string chunk_id
                        ++ (codes ",\"content\":" ++ (json_string content ++ codes "}")))))))

-- The horizontal ellipsis, one character.
abbrev pub ellipsis : ℕ
ellipsis = 8230

unfoldable pub shorten : ℕ → Text → Text
shorten item_max_chars content =
    if ltb item_max_chars (length content)
    then take (item_max_chars - 1) content ++ ellipsis ∷ []
    else content

-- `candidate_content` at a midpoint.
unfoldable pub candidate_content : Text → ℕ → Text
candidate_content content midpoint =
    if ltb midpoint (length content) && ltb 0 midpoint
    then take (midpoint - 1) content ++ ellipsis ∷ []
    else take midpoint content

-- The binary search for the longest content that fits, with fuel. `line` makes a line of a content.
-- `low` is at least 1, so that `midpoint - 1` is the integer that the source computes.
unfoldable pub fit : (Text → Text) → Text → ℕ → ℕ → ℕ → ℕ → Text → Text
fit line content remaining zero low high fitted = fitted
fit line content remaining (suc fuel) low high fitted =
    let midpoint = (low + high) / 2 in
    let candidate = line (candidate_content content midpoint) in
    let fits = leb (length candidate) remaining in
    let next =
      fit line content remaining fuel (if fits then midpoint + 1 else low)
        (if fits then high else midpoint - 1) (if fits then candidate else fitted) in
    if leb low high then next else fitted

-- The line that an item gets: whole, cut to what remains, or none, `[]`.
unfoldable pub fitted_line : (Text → Text) → Text → ℕ → Text
fitted_line line content remaining =
    if ltb remaining (length (line content))
    then fit line content remaining (suc (length content)) (min 16 (length content))
        (length content) []
    else line content

unfoldable pub source_label : ℕ → Text
source_label n = codes "S" ++ decimal (n + 1)

-- The loop over the items: `used` characters and `n` lines so far. The result pairs each further
-- line with its item; `break` ends the list.
unfoldable pub assemble : ℕ → ℕ → ℕ → ℕ → List Item → List (Text × Item)
assemble max_chars item_max_chars used n [] = []
assemble max_chars item_max_chars used n (item ∷ rest) =
    let compacted = compact (raw_content item) in
    let content = shorten item_max_chars compacted in
    let separator_size : ℕ = if n == 0 then 0 else 1 in
    let remaining = max_chars - used - separator_size in
    let line =
      fitted_line (json_line (source_label n) (kind_of item) (chunk_id_of item)) content
        remaining in
    let skipped = assemble max_chars item_max_chars used n rest in
    let further =
      assemble max_chars item_max_chars (used + separator_size + length line) (n + 1) rest in
    if is_empty compacted
    then skipped
    else if ltb remaining 1
    then []
    else if is_empty line
    then []
    else (line, item) ∷ further

-- `none` is the `ValueError` on limits that are not positive.
unfoldable pub assemble_context : RetrievalEvidence → ℕ → ℕ → Option AssembledContext
assemble_context evidence max_chars item_max_chars =
    let assembled = assemble max_chars item_max_chars 0 0 (items evidence) in
    if ltb max_chars 1 || ltb item_max_chars 1
    then none
    else some (record {
      text = join (codes "\n") (map (λ p. p.0) assembled);
      included = map (λ p. p.1) assembled;
    })

abbrev pub default_context_item_max_chars : ℕ
default_context_item_max_chars = 2000
