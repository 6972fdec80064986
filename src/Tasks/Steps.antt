-- ===== src/Tasks/Steps.antt =====
-- An extraction task as a sequence of its writes: what each of them keeps, the task keeps.
use knowledge_graph_mvp.Prelude.{
  Bool, Option, String, Text, any, false, if◌then◌else◌, is_empty, list_eq, ltb, nat_eq, none, not,
  some, string_eq, subst, sym, true, ℕ, ◌&&◌, ◌==◌, ◌≡◌,
}
use knowledge_graph_mvp.Models.{Env, GraphExtractionStatus}
use knowledge_graph_mvp.Tasks.{
  TaskDb, Transition, Extracted, extracted, raised, TaskEnd, is_target, set_graph_extraction_state,
  mark_per_user_content_ready, current_content_hash, fail_extraction, succeed_extraction,
  after_extraction, run_extraction, queue_document_extraction, max_retries, retried, returned,
  stale,
}

abbrev pub expected_of : TaskDb → ℕ → Text → Text
expected_of db document_id content_hash =
    if is_empty content_hash then current_content_hash db document_id else content_hash

-- A property of both branches.
pick : {A : Type 0} (b : Bool) (P : A → Type 0) (x y : A) → P x → P y → P (if b then x else y)
pick true P x y p q = p
pick false P x y p q = q

-- The two kinds of step that a task makes: `R` for all but the opening of the gate, which only the last
-- one may be, and `S` for a task that may have opened it.
module _ (env : Env) (retries now finished_at document_id : ℕ) (expected : Text)
    (R S : TaskDb → TaskDb → Type 0) (trans : (a b c : TaskDb) → R a b → R b c → R a c)
    (ends : (a b c : TaskDb) → R a b → S b c → S a c) (same : (a : TaskDb) → S a a)
    (moved : (time : ℕ) (o : Option Text) (t : Transition) (a : TaskDb)
      → R a ((set_graph_extraction_state time document_id o t a).1))
    (opened : (time : ℕ) (a : TaskDb)
      → S a (mark_per_user_content_ready env time document_id expected a)) where
  -- A step that may be the last.
  last : (a b : TaskDb) → R a b → S a b
  last a b h = ends a b b h (same b)

  fail-S :
      (name : String) (db : TaskDb)
      → S db ((fail_extraction env retries now finished_at document_id name expected db).1)
  unfolding fail_extraction
  fail-S name db = last db _ (moved finished_at (some expected) _ db)

  succeed-S :
      (status : String) (db : TaskDb)
      → S db ((succeed_extraction env retries now finished_at document_id status expected db).1)
  unfolding succeed_extraction set_graph_extraction_state
  succeed-S status db =
      let db' =
        (set_graph_extraction_state finished_at document_id (some expected)
          (record {
            status =
                if status == "extracted"
                then GraphExtractionStatus.succeeded
                else GraphExtractionStatus.skipped;
            error_summary = if status == "extracted" then "" else status;
            started_at = none;
            finished_at = some finished_at;
          })
          db).1 in
      let set = moved finished_at (some expected) _ db in
      pick (not (any (is_target document_id (some expected)) db.tables.documents))
        (λ (e : TaskEnd × TaskDb). S db (e.1)) (stale, db') (returned status, _) (last db db' set)
        (ends db db' _ set (
          pick (status == "extracted") (λ (x : TaskDb). S db' x)
            (mark_per_user_content_ready env finished_at document_id expected db') db'
            (opened finished_at db') (same db')))

  after-S :
      (outcome : Extracted) (db : TaskDb)
      → S db ((after_extraction env retries now finished_at document_id outcome expected db).1)
  unfolding after_extraction
  after-S (raised name retryable) db =
      pick (retryable && not (current_content_hash db document_id == expected))
        (λ (e : TaskEnd × TaskDb). S db (e.1)) (stale, db) _ (same db)
        (pick (retryable && ltb retries max_retries) (λ (e : TaskEnd × TaskDb). S db (e.1))
          (retried, db) (fail_extraction env retries now finished_at document_id name expected db)
          (same db) (fail-S name db))
  after-S (extracted status) db =
      pick (status == "skipped_stale_content_version") (λ (e : TaskEnd × TaskDb). S db (e.1))
        (returned status, db)
        (succeed_extraction env retries now finished_at document_id status expected db) (same db)
        (succeed-S status db)

  module _ {G : Type 0} (extract : ℕ → Text → G → Extracted × G) (meanwhile : TaskDb → TaskDb)
      (other : (x : TaskDb) → R x (meanwhile x)) where
    run-S :
        (db : TaskDb) (g : G)
        → S db (
            (run_extraction env retries now finished_at document_id extract meanwhile expected db
              g).1)
    unfolding run_extraction set_graph_extraction_state
    run-S db g =
        let started =
          (set_graph_extraction_state now document_id (some expected)
            (record {
              status = GraphExtractionStatus.running;
              error_summary = "";
              started_at = some now;
              finished_at = none;
            })
            db).1 in
        let outcome = (extract document_id expected g).0 in
        let set = moved now (some expected) _ db in
        pick (not (any (is_target document_id (some expected)) db.tables.documents))
          (λ (e : TaskEnd × TaskDb × G). S db (e.1)) (stale, started, g) _ (last db started set)
          (ends db (meanwhile started) _ (trans db started (meanwhile started) set (other started))
            (after-S outcome (meanwhile started)))

    pub queue-S :
        (content_hash : Text) (db : TaskDb) (g : G)
        → expected_of db document_id content_hash ≡ expected
        → S db (
            (queue_document_extraction env retries now finished_at document_id extract meanwhile
              content_hash db g).1)
    unfolding queue_document_extraction set_graph_extraction_state
    queue-S content_hash db g e =
        pick (is_empty (expected_of db document_id content_hash))
          (λ (x : TaskEnd × TaskDb × G). S db (x.1)) _ _ (last db _ (moved now none _ db))
          (subst
            (λ h.
              S db (
                (run_extraction env retries now finished_at document_id extract meanwhile h db
                  g).1))
            (sym e) (run-S db g))
