-- ===== src/Tasks/Sweeps/Stale.antt =====
-- What it is that the sweeps of apps/backend/integrations/tasks.py look for: running, and started before
-- the cutoff.
use knowledge_graph_mvp.Prelude.{
  Bool, Option, arith, none, refl, some, true, ℕ, ◌&&◌, ◌<◌, ◌↔◌, ◌≡◌,
}
use knowledge_graph_mvp.Models.{RunStatus, GraphExtractionStatus, SourceDocument, is_running}
use knowledge_graph_mvp.Tasks.Sweeps.{is_before, is_stale_extraction, is_running_extraction}

-- A time that is known and before the cutoff.
abbrev pub IsOverdue : ℕ → Option ℕ → Type 0
IsOverdue cutoff started_at = (t : ℕ) × (started_at ≡ some t) × (t < cutoff)

abbrev pub IsStaleRun : ℕ → RunStatus → Option ℕ → Type 0
IsStaleRun cutoff status started_at = (status ≡ RunStatus.running) × IsOverdue cutoff started_at

abbrev pub IsStaleExtraction : ℕ → SourceDocument → Type 0
IsStaleExtraction cutoff d =
    (d.graph_extraction_status ≡ GraphExtractionStatus.running)
    × IsOverdue cutoff d.graph_extraction_started_at

is_before_iff : (cutoff : ℕ) (o : Option ℕ) → (is_before cutoff o ≡ true) ↔ IsOverdue cutoff o
is_before_iff cutoff none = (λ h. cc, λ h. cc)
is_before_iff cutoff (some t) =
    (λ h. (t, refl, ground arith), λ h. let same : t ≡ h.0 = cc in ground (arith, same, h.2))

is_running_iff : (status : RunStatus) → (is_running status ≡ true) ↔ (status ≡ RunStatus.running)
is_running_iff RunStatus.queued = (λ h. cc, λ h. cc)
is_running_iff RunStatus.running = (λ h. refl, λ h. refl)
is_running_iff RunStatus.succeeded = (λ h. cc, λ h. cc)
is_running_iff RunStatus.partial = (λ h. cc, λ h. cc)
is_running_iff RunStatus.failed = (λ h. cc, λ h. cc)

is_running_extraction_iff :
    (status : GraphExtractionStatus)
    → (is_running_extraction status ≡ true) ↔ (status ≡ GraphExtractionStatus.running)
is_running_extraction_iff GraphExtractionStatus.pending = (λ h. cc, λ h. cc)
is_running_extraction_iff GraphExtractionStatus.running = (λ h. refl, λ h. refl)
is_running_extraction_iff GraphExtractionStatus.succeeded = (λ h. cc, λ h. cc)
is_running_extraction_iff GraphExtractionStatus.failed = (λ h. cc, λ h. cc)
is_running_extraction_iff GraphExtractionStatus.skipped = (λ h. cc, λ h. cc)

both : (a b : Bool) → (a && b ≡ true) ↔ ((a ≡ true) × (b ≡ true))
both a b = (λ h. (ground arith, ground arith), λ h. ground (arith, h.0, h.1))

pub is_stale_iff :
    (cutoff : ℕ) (status : RunStatus) (o : Option ℕ)
    → (is_running status && is_before cutoff o ≡ true) ↔ IsStaleRun cutoff status o
is_stale_iff cutoff status o = (
  λ h.
      let (p, q) = (both (is_running status) (is_before cutoff o)).0 h in
      ((is_running_iff status).0 p, (is_before_iff cutoff o).0 q),
  λ h.
      (both (is_running status) (is_before cutoff o)).1
        ((is_running_iff status).1 h.0, (is_before_iff cutoff o).1 h.1),
)

pub is_stale_extraction_iff :
    (cutoff : ℕ) (d : SourceDocument)
    → (is_stale_extraction cutoff d ≡ true) ↔ IsStaleExtraction cutoff d
unfolding is_stale_extraction
is_stale_extraction_iff cutoff d =
    let status = d.graph_extraction_status in
    let o = d.graph_extraction_started_at in
    (
      λ h.
          let (p, q) = (both (is_running_extraction status) (is_before cutoff o)).0 h in
          ((is_running_extraction_iff status).0 p, (is_before_iff cutoff o).0 q),
      λ h.
          (both (is_running_extraction status) (is_before cutoff o)).1
            ((is_running_extraction_iff status).1 h.0, (is_before_iff cutoff o).1 h.1),
    )
