-- ===== src/Retrieval/Services.antt =====
-- apps/backend/retrieval/services.py: `answer_query`. The retriever and the answer generator are
-- parameters, `none` being any exception of theirs; the lookup and the recheck each read the clock
-- and the database at their own time. Any exception inside is a refusal.
pub mod Permitted
pub mod Answered
use knowledge_graph_mvp.Prelude.{
  Bool, List, Option, String, Text, [], any, codes, contains, false, first, given, if◌then◌else◌,
  is_empty, keep, list_eq, map, nat_eq, none, not, some, string_eq, to_set, true, ℕ, ◌&&◌, ◌==◌,
  ◌>>=◌, ◌>>◌, ◌∷◌,
}
use knowledge_graph_mvp.Models.{Env, Db, SourceDocument, skipped}
use knowledge_graph_mvp.SpiceDb.{SpiceDb}
use knowledge_graph_mvp.Lookup.{allowed_source_document_ids}
use knowledge_graph_mvp.Lookup.Fresh.{fresh_authorized_documents}
use knowledge_graph_mvp.Retrieval.Types.{RetrievalEvidence, Item, chunk_id_of, document_of, items}
use knowledge_graph_mvp.Retrieval.Context.{
  AssembledContext, assemble_context, default_context_item_max_chars,
}

pub record GeneratedAnswer : Type 0 where
  pub answer : Text
  pub supported : Bool

pub record Citation : Type 0 where
  pub title : Text
  pub drive_file_id : Text
  pub drive_url : Text
  pub chunk_id : Text

pub record QueryResult : Type 0 where
  pub answer : Text
  pub citations : List Citation
  pub refused : Bool
  pub reason : Option String

unfoldable pub refusal : QueryResult
refusal = record {
  answer = codes "I do not have enough accessible context to answer that.";
  citations = [];
  refused = true;
  reason = some "insufficient_accessible_context";
}

-- `documents[pk]`; `none` is the `KeyError`.
unfoldable pub document_at : List SourceDocument → ℕ → Option SourceDocument
document_at documents pk = first (keep (λ d. d.pk == pk) documents)

unfoldable pub citation_of : SourceDocument → Item → Citation
citation_of d item = record {
  title = d.title;
  drive_file_id = d.drive_file_id;
  drive_url = d.drive_url;
  chunk_id = chunk_id_of item;
}

-- The loop over the context's items; `seen` holds the keys that are cited already.
unfoldable pub cite : List SourceDocument → List (ℕ × Text) → List Item → Option (List Citation)
cite documents seen [] = some []
cite documents seen (item ∷ rest) =
    let skipped = cite documents seen rest in
    let further = cite documents ((document_of item, chunk_id_of item) ∷ seen) rest in
    if any (λ key. key.0 == document_of item && key.1 == chunk_id_of item) seen
    then skipped
    else given (document_at documents (document_of item))
        λ d. given further λ citations. some (citation_of d item ∷ citations)

unfoldable pub safe_evidence : RetrievalEvidence → List SourceDocument → RetrievalEvidence
safe_evidence evidence documents =
    let pks = map (λ d. d.pk) documents in
    record {
      chunks = keep (λ c. contains pks c.source_document_id) evidence.chunks;
      facts = keep (λ f. contains pks f.source_document_id) evidence.facts;
    }

module _ (s : SpiceDb) (env : Env) (retrieve : Text → List ℕ → Option RetrievalEvidence) (now : ℕ)
    (db : Db) (recheck_now : ℕ) (recheck_db : Db) where
  -- The context that the answer is made of, and the documents that it may cite; `none` is a refusal.
  unfoldable pub permitted_context :
      Text → Text → List ℕ → Option (AssembledContext × List SourceDocument)
  permitted_context question user_email allowed_ids =
      if is_empty allowed_ids
      then none
      else given (retrieve question allowed_ids) λ evidence.
        let candidate_ids =
          keep (contains allowed_ids) (to_set (map document_of (items evidence))) in
        if is_empty candidate_ids
        then none
        else let documents =
            fresh_authorized_documents env recheck_now recheck_db user_email candidate_ids in
          let safe = safe_evidence evidence documents in
          if is_empty safe.chunks && is_empty safe.facts
          then none
          else given
              (assemble_context safe env.settings.query_context_max_chars
                default_context_item_max_chars)
              λ context. if is_empty context.text then none else some (context, documents)

  -- The generator's answer with its citations; `none` is a refusal.
  unfoldable pub answered :
      (Text → AssembledContext → Option GeneratedAnswer)
      → Text
      → AssembledContext × List SourceDocument
      → Option QueryResult
  answered generate question (context, documents) = given (generate question context) λ generated.
      if not generated.supported
      then none
      else given (cite documents [] context.included) λ citations. some (record {
        answer = generated.answer;
        citations = citations;
        refused = false;
        reason = none;
      })

  unfoldable pub answer_query :
      (Text → AssembledContext → Option GeneratedAnswer)
      → Text
      → Text
      → s.World
      → QueryResult × s.World
  answer_query generate question user_email w =
      let (allowed_ids, w') = allowed_source_document_ids s env now db user_email w in
      elim (given (permitted_context question user_email allowed_ids)
        (answered generate question)) [ none ↦ (refusal, w') | some result ↦ (result, w') ]
