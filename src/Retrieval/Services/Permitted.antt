-- ===== src/Retrieval/Services/Permitted.antt =====
-- What an answer is made of and what it cites: current documents that the user has a right to.
use knowledge_graph_mvp.Prelude.{
  Bool-cases, In, In-append, In-keep, In-map, List, Option, Text, [], any, ap, codes, contains,
  contains-In, eq_of_==, given-some, if◌then◌else◌, inl, inr, is_empty, join, keep, length, list_eq,
  ltb, map, nat_eq, refl, some, string_eq, subst, sym, to_set, true, unless-some, ℕ, ◌&&◌, ◌+◌, ◌-◌,
  ◌==◌, ◌∙◌, ◌∷◌, ◌≡◌, ◌≤◌, ◌⊎◌,
}
use knowledge_graph_mvp.Models.{Env, Db, SourceDocument, first-In}
use knowledge_graph_mvp.SpiceDb.{SpiceDb}
use knowledge_graph_mvp.Identity.{normalize_trusted_email}
use knowledge_graph_mvp.Lookup.Fresh.{fresh_authorized_documents}
use knowledge_graph_mvp.Lookup.Recheck.{IsCurrent, fresh-IsCurrent}
use knowledge_graph_mvp.Retrieval.Types.{
  RetrievalEvidence, Item, RetrievedChunk, RetrievedFact, items, chunk, fact, document_of,
  chunk_id_of,
}
use knowledge_graph_mvp.Retrieval.Context.Bounds.{assemble_context-length}
use knowledge_graph_mvp.Retrieval.Context.{
  AssembledContext, assemble_context, assemble, compact, fitted_line, json_line, kind_of,
  raw_content, shorten, source_label, default_context_item_max_chars,
}
use knowledge_graph_mvp.Retrieval.Services.{
  Citation, citation_of, cite, document_at, safe_evidence, permitted_context,
}

-- An item of a context is one of the items that it was made of.
assemble-In :
    (m k used n : ℕ) (is : List Item) (i : Item)
    → In i (map (λ p. p.1) (assemble m k used n is))
    → In i is
unfolding assemble
assemble-In m k used n [] i j = j
assemble-In m k used n (x ∷ xs) i j =
    let separator : ℕ = if n == 0 then 0 else 1 in
    let line : Text =
      fitted_line (json_line (source_label n) (kind_of x) (chunk_id_of x))
        (shorten k (compact (raw_content x))) (m - used - separator) in
    elim (Bool-cases (is_empty (compact (raw_content x)))) [
      | inl e ↦ inr (assemble-In m k used n xs i (rw e at j))
      | inr e ↦ elim (Bool-cases (ltb (m - used - separator) 1)) [
        | inl e' ↦ absurd (rw (e, e') at j)
        | inr e' ↦ elim (Bool-cases (is_empty line)) [
          | inl e'' ↦ absurd (rw (e, e', e'') at j)
          | inr e'' ↦
              here (assemble-In m k (used + separator + length line) (n + 1) xs i)
                (rw (e, e', e'') at j)
        ]
      ]
    ]
  where
    here : {P Q : Type 0} → (P → Q) → (i ≡ x) ⊎ P → (i ≡ x) ⊎ Q
    here f (inl p) = inl p
    here f (inr p) = inr (f p)

assemble_context-In :
    (evidence : RetrievalEvidence) (m k : ℕ) (context : AssembledContext) (i : Item)
    → assemble_context evidence m k ≡ some context
    → In i context.included
    → In i (items evidence)
unfolding assemble_context
assemble_context-In evidence m k context i h j =
    assemble-In m k 0 0 (items evidence) i
      (subst (In i) (sym (same (unless-some _ _ context h).1)) j)
  where
    same :
        ◌≡◌ {A = Option AssembledContext}
          (some (record {
            text = join (codes "\n") (map (λ p. p.0) (assemble m k 0 0 (items evidence)));
            included = map (λ p. p.1) (assemble m k 0 0 (items evidence));
          }))
          (some context)
        → map (λ p. p.1) (assemble m k 0 0 (items evidence)) ≡ context.included
    same e = cc

document_at-In :
    (documents : List SourceDocument) (pk : ℕ) (d : SourceDocument)
    → document_at documents pk ≡ some d
    → In d documents × (d.pk ≡ pk)
unfolding document_at
document_at-In documents pk d h =
    let (i, e) = In-keep _ d documents (first-In d _ h) in (i, eq_of_== d.pk pk e)

abbrev pub Cited : List SourceDocument → List Item → Citation → Type 0
Cited documents is c =
    (d : SourceDocument) × (i : Item) × In d documents
    × In i is
    × (d.pk ≡ document_of i)
    × (c ≡ citation_of d i)

pub cite-In :
    (documents : List SourceDocument) (seen : List (ℕ × Text)) (is : List Item) (cs : List Citation)
    (c : Citation)
    → cite documents seen is ≡ some cs
    → In c cs
    → Cited documents is c
unfolding cite
cite-In documents seen [] cs c h j = absurd (subst (In c) (sym (none_cited h)) j)
  where
    none_cited : ◌≡◌ {A = Option (List Citation)} (some []) (some cs) → [] ≡ cs
    none_cited e = cc
cite-In documents seen (x ∷ xs) cs c h j =
    elim (Bool-cases (any (λ key. key.0 == document_of x && key.1 == chunk_id_of x) seen)) [
      | inl e ↦ later (cite-In documents seen xs cs c (rw e at h) j)
      | inr e ↦
          let (d, p, h1) = given-some (document_at documents (document_of x)) _ cs (rw e at h) in
          let (more, q, h2) = given-some (cite documents _ xs) _ cs h1 in
          let (k, same) = document_at-In documents (document_of x) d p in
          elim (subst (In c) (sym (cited d more h2)) j) [
            | inl r ↦ (d, x, k, inl refl, same, r)
            | inr r ↦
                later (cite-In documents ((document_of x, chunk_id_of x) ∷ seen) xs more c q r)
          ]
    ]
  where
    later : Cited documents xs c → Cited documents (x ∷ xs) c
    later (d, i, k, l, same, r) = (d, i, k, inr l, same, r)

    cited :
        (d : SourceDocument) (more : List Citation)
        → ◌≡◌ {A = Option (List Citation)} (some (citation_of d x ∷ more)) (some cs)
        → citation_of d x ∷ more ≡ cs
    cited d more e = cc

safe_evidence-In :
    (evidence : RetrievalEvidence) (documents : List SourceDocument) (i : Item)
    → In i (items (safe_evidence evidence documents))
    → (d : SourceDocument) × In d documents × (document_of i ≡ d.pk)
unfolding safe_evidence items document_of
safe_evidence-In evidence documents i j = elim (In-append i (map chunk chunks) (map fact facts) j) [
  | inl k ↦
      let (c, l, e) = In-map chunk i chunks k in
      let (_, t) = In-keep (λ x. contains pks x.source_document_id) c evidence.chunks l in
      found c.source_document_id (ap document_of e) t
  | inr k ↦
      let (f, l, e) = In-map fact i facts k in
      let (_, t) = In-keep (λ x. contains pks x.source_document_id) f evidence.facts l in
      found f.source_document_id (ap document_of e) t
]
  where
    pks : List ℕ
    pks = map (λ d. d.pk) documents

    chunks : List RetrievedChunk
    chunks = keep (λ x. contains pks x.source_document_id) evidence.chunks

    facts : List RetrievedFact
    facts = keep (λ x. contains pks x.source_document_id) evidence.facts

    found :
        (pk : ℕ)
        → document_of i ≡ pk
        → contains pks pk ≡ true
        → (d : SourceDocument) × In d documents × (document_of i ≡ d.pk)
    found pk e t =
        let (d, k, p) = In-map (λ d. d.pk) pk documents (contains-In pks pk t) in (d, k, e ∙ p)

module _ (s : SpiceDb) (env : Env) (retrieve : Text → List ℕ → Option RetrievalEvidence) (now : ℕ)
    (db : Db) (recheck_now : ℕ) (recheck_db : Db) where
  -- A document that was allowed before the retrieval and has current evidence after it.
  abbrev pub Permitted : Text → List ℕ → SourceDocument → Type 0
  Permitted user_email allowed d =
      In d.pk allowed
      × ((email : Text) × (normalize_trusted_email env user_email ≡ some email)
          × IsCurrent env recheck_now recheck_db email d)

  -- Every item of the context that the answer generator is given belongs to a document that was
  -- allowed before the retrieval and has current evidence after it, and the context stays within
  -- its limit.
  pub permitted_context-Permitted :
      (question user_email : Text) (allowed : List ℕ) (context : AssembledContext)
      (documents : List SourceDocument)
      → permitted_context s env retrieve now db recheck_now recheck_db question user_email allowed
        ≡ some (context, documents)
      → ((d : SourceDocument) → In d documents → Permitted user_email allowed d)
        × ((i : Item)
            → In i context.included
            → (d : SourceDocument) × In d documents × (document_of i ≡ d.pk))
        × (length context.text ≤ env.settings.query_context_max_chars)
  unfolding permitted_context
  permitted_context-Permitted question user_email allowed context documents h =
      let (_, h1) = unless-some _ _ (context, documents) h in
      let (evidence, _, h2) = given-some (retrieve question allowed) _ (context, documents) h1 in
      let (_, h3) = unless-some _ _ (context, documents) h2 in
      let (_, h4) = unless-some _ _ (context, documents) h3 in
      let (assembled, p, h5) = given-some _ _ (context, documents) h4 in
      let (_, h6) = unless-some _ _ (context, documents) h5 in finish evidence assembled p h6
    where
      candidates : RetrievalEvidence → List ℕ
      candidates evidence = keep (contains allowed) (to_set (map document_of (items evidence)))

      rechecked : RetrievalEvidence → List SourceDocument
      rechecked evidence =
          fresh_authorized_documents env recheck_now recheck_db user_email (candidates evidence)

      finish :
          (evidence : RetrievalEvidence) (assembled : AssembledContext)
          → assemble_context
              (safe_evidence evidence (rechecked evidence))
              env.settings.query_context_max_chars
              default_context_item_max_chars
            ≡ some assembled
          → ◌≡◌ {A = Option (AssembledContext × List SourceDocument)}
              (some (assembled, rechecked evidence))
              (some (context, documents))
          → ((d : SourceDocument) → In d documents → Permitted user_email allowed d)
            × ((i : Item)
                → In i context.included
                → (d : SourceDocument) × In d documents × (document_of i ≡ d.pk))
            × (length context.text ≤ env.settings.query_context_max_chars)
      finish evidence assembled p q =
          let q1 : assembled ≡ context = cc in
          let q2 : rechecked evidence ≡ documents = cc in
          (
            λ d j.
                let (k, current) =
                  fresh-IsCurrent env recheck_now recheck_db user_email (candidates evidence) d
                    (subst (In d) (sym q2) j) in
                let (_, t) = In-keep (contains allowed) d.pk _ k in
                (contains-In allowed d.pk t, current),
            λ i j.
                let (d, k, e) = safe_evidence-In evidence (rechecked evidence) i (
                  assemble_context-In _ _ _ assembled i p
                    (subst (λ x. In i x.included) (sym q1) j)) in
                (d, subst (In d) q2 k, e),
            subst (λ x. length x.text ≤ env.settings.query_context_max_chars) q1
                (assemble_context-length _ _ _ assembled p),
          )
