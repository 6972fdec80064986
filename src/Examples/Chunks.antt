-- ===== src/Examples/Chunks.antt =====
-- Concrete runs of the chunker.
use knowledge_graph_mvp.Prelude.{
  List, [], codes, is_space, keep, lstrip, refl, some, strip, ◌∷◌, ◌≡◌,
}
use knowledge_graph_mvp.Extraction.{
  ExtractedChunk, extract, accepted, cut, last_place, latest, number_chunks, preferred_end, rfind,
  slice, split_blocks, split_from, split_oversized_paragraph, split_paragraphs,
}
use knowledge_graph_mvp.Extraction.Total.{IsNumbered, extract_total}

-- The second paragraph is cut at its blank first, and each chunk begins in the one before.
extract_run :
    extract 4 1 (codes "hi\n\nab cde")
    ≡ some (
        record { index = 0; text = codes "hi" }
        ∷ record { index = 1; text = codes "ab" }
        ∷ record { index = 2; text = codes "b cd" }
        ∷ record { index = 3; text = codes "de" }
        ∷ [])
unfolding extract split_paragraphs keep split_blocks strip lstrip is_space split_oversized_paragraph
    split_from cut slice preferred_end latest rfind last_place number_chunks
extract_run = refl

extract_total_example :
    (chunks : List ExtractedChunk) × (extract 4 1 (codes "hi\n\nab cde") ≡ some chunks)
    × IsNumbered 4 0 chunks
unfolding accepted
extract_total_example = extract_total 4 1 (codes "hi\n\nab cde") refl
