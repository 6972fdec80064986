-- ===== src/Examples/Answers.antt =====
-- Concrete runs of the query service and of its context.
use knowledge_graph_mvp.Prelude.{
  In, [], add, any, ap, codes, contains, decimal, false, first, join, keep, length, list_eq, nat_eq,
  none, refl, some, string_eq, to_set, ℕ, ◌∷◌, ◌≡◌, ◌≤◌, ◌⊎◌,
}
use knowledge_graph_mvp.Models.{SourceDocument}
use knowledge_graph_mvp.SpiceDb.Laws.{list_server, list_server-Serves}
use knowledge_graph_mvp.Retrieval.Types.{
  RetrievalEvidence, Item, chunk, chunk_id_of, document_of, items,
}
use knowledge_graph_mvp.Retrieval.Context.{
  AssembledContext, assemble_context, assemble, compact, fitted_line, json_line, kind_of,
  raw_content, shorten, source_label,
}
use knowledge_graph_mvp.Retrieval.Context.Bounds.{assemble_context-length}
use knowledge_graph_mvp.Retrieval.Services.{
  QueryResult, Citation, answer_query, permitted_context, answered, citation_of, cite, document_at,
  refusal, safe_evidence,
}
use knowledge_graph_mvp.Retrieval.Services.Permitted.{Permitted, permitted_context-Permitted}
use knowledge_graph_mvp.Retrieval.Services.Answered.{Justified, answer_query-Justified}
use knowledge_graph_mvp.Examples.{env, db, email, document, retrieve, generate}
use knowledge_graph_mvp.Examples.Access.{world, allowed_run, fresh_run}

-- The context holds the passage of document 7 only.
abbrev context : AssembledContext
context = record {
  text =
      codes "{\"source\":\"S1\",\"kind\":\"chunk\",\"chunk_id\":\"p\",\"content\":\"hello there\"}";
  included =
      chunk (record { source_document_id = 7; chunk_id = codes "p"; text = codes "hello  there" })
      ∷ [];
}

abbrev answer : QueryResult
answer = record {
  answer = context.text;
  citations =
      record {
        title = codes "Plan";
        drive_file_id = codes "f7";
        drive_url = codes "https://drive";
        chunk_id = codes "p";
      }
      ∷ [];
  refused = false;
  reason = none;
}

candidates : keep {A = ℕ} (contains (7 ∷ [])) (to_set (7 ∷ 8 ∷ [])) ≡ 7 ∷ []
unfolding keep contains to_set add
candidates = refl

abbrev evidence : RetrievalEvidence
evidence = record {
  chunks =
      record { source_document_id = 7; chunk_id = codes "p"; text = codes "hello  there" } ∷ [];
  facts = [];
}

assembled : assemble_context evidence 200 2000 ≡ some context
unfolding assemble_context join assemble items compact raw_content fitted_line json_line
    source_label decimal kind_of chunk_id_of shorten
assembled = refl

assemble_context-length_example : length context.text ≤ 200
assemble_context-length_example = assemble_context-length evidence 200 2000 context assembled

permitted_run :
    permitted_context list_server env retrieve 100 db 120 db (codes "?") email (7 ∷ [])
    ≡ some (context, document 7 ∷ [])
unfolding permitted_context items document_of safe_evidence keep decimal contains
permitted_run = rw (candidates, fresh_run, assembled) refl

permitted_context-Permitted_example :
    ((d : SourceDocument)
      → In d (document 7 ∷ [])
      → Permitted list_server env retrieve 100 db 120 db email (7 ∷ []) d)
    × ((i : Item)
        → In i context.included
        → (d : SourceDocument) × In d (document 7 ∷ []) × (document_of i ≡ d.pk))
    × (length context.text ≤ 200)
permitted_context-Permitted_example =
    permitted_context-Permitted list_server env retrieve 100 db 120 db (codes "?") email (7 ∷ [])
      context (document 7 ∷ []) permitted_run

answered_run :
    answered list_server env retrieve 100 db 120 db generate (codes "?") (context, document 7 ∷ [])
    ≡ some answer
unfolding answered cite any document_at first keep document_of citation_of chunk_id_of decimal
answered_run = refl

answer_run :
    answer_query list_server env retrieve 100 db 120 db generate (codes "?") email world
    ≡ (answer, world)
unfolding answer_query
answer_run =
    rw (answer_query, allowed_run, permitted_run, answered_run)
      (ap (λ p. (answer, p.1)) allowed_run)

answer_query-Justified_example :
    (answer ≡ refusal)
    ⊎ ((answer.refused ≡ false)
        × ((c : Citation)
            → In c answer.citations
            → Justified list_server env retrieve 100 db 120 db generate list_server-Serves
                (codes "?")
                email
                world
                c))
answer_query-Justified_example =
    answer_query-Justified list_server env retrieve 100 db 120 db generate list_server-Serves
      (codes "?") email world answer world answer_run
