-- ===== src/Retrieval/Services/Answered.antt =====
-- Whom an answer cites: documents that the user has a right to, before the retrieval and after it.
use knowledge_graph_mvp.Prelude.{
  In, List, Option, Text, [], ap, false, given, given-some, inl, inr, none, refl, some, subst, sym,
  unless-some, ℕ, ◌≡◌, ◌⊎◌,
}
use knowledge_graph_mvp.Models.{Env, Db, SourceDocument}
use knowledge_graph_mvp.SpiceDb.{SpiceDb}
use knowledge_graph_mvp.SpiceDb.Laws.{Serves}
use knowledge_graph_mvp.Identity.{normalize_trusted_email}
use knowledge_graph_mvp.Lookup.{allowed_source_document_ids}
use knowledge_graph_mvp.Lookup.Access.{PerUserAccess, DelegatedAccess, allowed-Right}
use knowledge_graph_mvp.Lookup.Recheck.{IsCurrent}
use knowledge_graph_mvp.Retrieval.Types.{RetrievalEvidence}
use knowledge_graph_mvp.Retrieval.Context.{AssembledContext}
use knowledge_graph_mvp.Retrieval.Services.Permitted.{permitted_context-Permitted, Cited, cite-In}
use knowledge_graph_mvp.Retrieval.Services.{
  GeneratedAnswer, QueryResult, Citation, answer_query, answered, cite, permitted_context, refusal,
  citation_of,
}

module _ (s : SpiceDb) (env : Env) (retrieve : Text → List ℕ → Option RetrievalEvidence) (now : ℕ)
    (db : Db) (recheck_now : ℕ) (recheck_db : Db)
    (generate : Text → AssembledContext → Option GeneratedAnswer) where
  answered-Cited :
      (question : Text) (context : AssembledContext) (documents : List SourceDocument)
      (result : QueryResult)
      → answered s env retrieve now db recheck_now recheck_db generate question (context, documents)
        ≡ some result
      → (result.refused ≡ false)
        × ((c : Citation) → In c result.citations → Cited documents context.included c)
  unfolding answered
  answered-Cited question context documents result h =
      let (generated, _, h1) = given-some (generate question context) _ result h in
      let (_, h2) = unless-some _ _ result h1 in
      let (cs, p, h3) = given-some (cite documents [] context.included) _ result h2 in
      let (open', listed) = parts generated cs h3 in
      (open', λ c j. cite-In documents [] context.included cs c p (subst (In c) (sym listed) j))
    where
      parts :
          (generated : GeneratedAnswer) (cs : List Citation)
          → ◌≡◌ {A = Option QueryResult}
              (some (record {
                answer = generated.answer;
                citations = cs;
                refused = false;
                reason = none;
              }))
              (some result)
          → (result.refused ≡ false) × (cs ≡ result.citations)
      parts generated cs e = (cc, cc)

  module _ (law : Serves s) (question user_email : Text) (w : s.World) where
    -- A citation names a document that the user had a right to at the lookup, and that still has
    -- current evidence for the user at the recheck behind the retrieval.
    abbrev pub Justified : Citation → Type 0
    Justified c =
        (d : SourceDocument) × (c.title ≡ d.title)
        × (c.drive_file_id ≡ d.drive_file_id)
        × (c.drive_url ≡ d.drive_url)
        × ((email : Text) × (normalize_trusted_email env user_email ≡ some email)
            × IsCurrent env recheck_now recheck_db email d)
        × ((email : Text) × (normalize_trusted_email env user_email ≡ some email)
            × (PerUserAccess env now db (law.tuples w) email d.pk
                ⊎ DelegatedAccess env now db (law.views w) email d.pk))

    -- With a server that keeps the laws of `Serves`, a query answers with the refusal, or is not
    -- refused and its citations are all justified, whatever the retriever and the generator return.
    pub answer_query-Justified :
        (result : QueryResult) (w' : s.World)
        → answer_query s env retrieve now db recheck_now recheck_db generate question user_email w
          ≡ (result, w')
        → (result ≡ refusal)
          ⊎ ((result.refused ≡ false) × ((c : Citation) → In c result.citations → Justified c))
    unfolding answer_query citation_of
    answer_query-Justified result w' h =
        go
          (given
            (permitted_context s env retrieve now db recheck_now recheck_db question user_email
              allowed)
            (answered s env retrieve now db recheck_now recheck_db generate question))
          refl h
      where
        allowed : List ℕ
        allowed = (allowed_source_document_ids s env now db user_email w).0

        after : s.World
        after = (allowed_source_document_ids s env now db user_email w).1

        go :
            (o : Option QueryResult)
            → given
                (permitted_context s env retrieve now db recheck_now recheck_db question user_email
                  allowed)
                (answered s env retrieve now db recheck_now recheck_db generate question)
              ≡ o
            → elim o as (λ _. QueryResult × s.World) [
              | none ↦ (refusal, after)
              | some r ↦ (r, after)
            ]
              ≡ (result, w')
            → (result ≡ refusal)
              ⊎ ((result.refused ≡ false) × ((c : Citation) → In c result.citations → Justified c))
        go none p q = inl (sym (ap (λ x. x.0) q))
        go (some r) p q =
            let same : r ≡ result = ap (λ x. x.0) q in
            let ((context, documents), p1, p2) = given-some _ _ r p in
            let (permitted, _, _) =
              permitted_context-Permitted s env retrieve now db recheck_now recheck_db question
                user_email allowed context documents p1 in
            let (open', cited) = answered-Cited question context documents r p2 in
            inr (
              subst (λ x. x.refused ≡ false) same open',
              λ c j.
                  let (d, i, k, _, _, e) = cited c (subst (λ x. In c x.citations) (sym same) j) in
                  let (k1, current) = permitted d k in
                  (
                    d,
                    ap (λ x. x.title) e,
                    ap (λ x. x.drive_file_id) e,
                    ap (λ x. x.drive_url) e,
                    current,
                    allowed-Right s law env now db user_email w d.pk k1,
                  ),
            )
