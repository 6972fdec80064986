-- ===== src/VisibilityClient/Checked.antt =====
-- A check of a document: what a report of it means, and that the retries end.
use mathlib.Core.Bool.{true≢false}
use knowledge_graph_mvp.Prelude.{
  Result, String, Text, ap, err, list_eq, nat_eq, ok, refl, string_eq, suc, sym, zero, ℕ, ◌+◌, ◌==◌,
  ◌^◌, ◌∙◌, ◌≡◌,
}
use knowledge_graph_mvp.Models.{SourceDocument, verified_visible}
use knowledge_graph_mvp.VisibilityClient.Verdicts.{
  Shows, is_uncaught, judge-Shows, judge-last, judge-caught, IsExpected,
}
use knowledge_graph_mvp.VisibilityClient.{
  DriveAnswer, Verdict, IndexedVisibilityResult, check_one, judge, retry, settled, uncaught,
}

module _ {D : Type 0} (get : Text → D → DriveAnswer × D) (sleep : ℕ → D → D) where
  -- The states in which the check asks Drive: at first, and after each answer that is tried again.
  pub data IsAttempt (document : SourceDocument) : ℕ → ℕ → D → D → Type 0 where
    this : {left attempt : ℕ} {d : D} → IsAttempt document (suc left) attempt d d
    later :
        {left attempt : ℕ} {d at : D}
        → judge (left == 0) document (get document.drive_file_id d).0 ≡ retry
        → IsAttempt document left
            (attempt + 1)
            (sleep (2 ^ attempt) (get document.drive_file_id d).1)
            at
        → IsAttempt document (suc left) attempt d at

  -- A document is reported visible only if Drive, at one of the attempts of the check, answered the
  -- request for its file with that file's id and `trashed` false; the report names that document.
  pub check_one-Shows :
      (left attempt : ℕ) (document : SourceDocument) (d d' : D) (result : IndexedVisibilityResult)
      → check_one get sleep left attempt document d ≡ (ok result, d')
      → (result.source_document_id ≡ document.pk)
        × (result.state ≡ verified_visible
            → (at : D) × IsAttempt document left attempt d at
              × Shows document (get document.drive_file_id at).0)
  unfolding check_one
  check_one-Shows zero attempt document d d' result h = cc
  check_one-Shows (suc left) attempt document d d' result h =
      go (λ x. check_one-Shows left (attempt + 1) document x d' result)
        (judge (left == 0) document (get document.drive_file_id d).0) refl h
    where
      go :
          ((x : D)
            → check_one get sleep left (attempt + 1) document x ≡ (ok result, d')
            → (result.source_document_id ≡ document.pk)
              × (result.state ≡ verified_visible
                  → (at : D) × IsAttempt document left (attempt + 1) x at
                    × Shows document (get document.drive_file_id at).0))
          → (v : Verdict) → judge (left == 0) document (get document.drive_file_id d).0 ≡ v
          → elim v as (λ _. Result String IndexedVisibilityResult × D) [
            | retry ↦
                check_one get sleep left
                  (attempt + 1)
                  document
                  (sleep (2 ^ attempt) (get document.drive_file_id d).1)
            | settled state reason ↦ (
              ok (record { source_document_id = document.pk; state = state; reason_code = reason }),
              (get document.drive_file_id d).1,
            )
            | uncaught ↦ (err "uncaught", (get document.drive_file_id d).1)
          ]
            ≡ (ok result, d')
          → (result.source_document_id ≡ document.pk)
            × (result.state ≡ verified_visible
                → (at : D) × IsAttempt document (suc left) attempt d at
                  × Shows document (get document.drive_file_id at).0)
      go ih retry e k =
          let (named, seen) = ih _ k in
          (named, λ v. let (at, a, shows) = seen v in (at, later e a, shows))
      go ih (settled state reason) e k =
          let same : record {
            source_document_id = document.pk;
            state = state;
            reason_code = reason;
          }
              ≡ result =
            cc in
          (
            ap (λ x. x.source_document_id) (sym same),
            λ seen. (
              d,
              this,
              judge-Shows (left == 0) document (get document.drive_file_id d).0 reason
                  (e ∙ ap (λ x. settled x reason) (ap (λ x. x.state) same ∙ seen)),
            ),
          )
      go ih uncaught e k = cc

  abbrev Returns : Result String IndexedVisibilityResult × D → Type 0
  Returns p = (result : IndexedVisibilityResult) × (d' : D) × (p ≡ (ok result, d'))

  -- One attempt of the loop, given what a further attempt comes to.
  attempt-Returns :
      ((id : Text) (d : D) → IsExpected (get id d).0)
      → (left attempt : ℕ) (document : SourceDocument) (d : D)
      → (judge (left == 0) document (get document.drive_file_id d).0 ≡ retry
          → Returns (
              check_one get sleep left
                (attempt + 1)
                document
                (sleep (2 ^ attempt) (get document.drive_file_id d).1)))
      → Returns (check_one get sleep (suc left) attempt document d)
  unfolding check_one
  attempt-Returns expected left attempt document d further =
      go (judge (left == 0) document (get document.drive_file_id d).0) refl
    where
      go :
          (v : Verdict)
          → judge (left == 0) document (get document.drive_file_id d).0 ≡ v
          → Returns (elim v as (λ _. Result String IndexedVisibilityResult × D) [
            | retry ↦
                check_one get sleep left
                  (attempt + 1)
                  document
                  (sleep (2 ^ attempt) (get document.drive_file_id d).1)
            | settled state reason ↦ (
              ok (record { source_document_id = document.pk; state = state; reason_code = reason }),
              (get document.drive_file_id d).1,
            )
            | uncaught ↦ (err "uncaught", (get document.drive_file_id d).1)
          ])
      go retry e = further e
      go (settled state reason) e = (_, _, refl)
      go uncaught e = absurd (
          true≢false (
            ap is_uncaught (sym e)
            ∙ judge-caught (left == 0) document _ (expected document.drive_file_id d)))

  -- The attempts that are made are enough: where Drive raises nothing but the errors that the code
  -- expects, and the reasons that it sends are a list, the check of a document returns a result.
  pub check_one_total :
      ((id : Text) (d : D) → IsExpected (get id d).0)
      → (left attempt : ℕ) (document : SourceDocument) (d : D)
      → (result : IndexedVisibilityResult) × (d' : D) × (check_one get sleep
            (suc left)
            attempt
            document
            d
          ≡ (ok result, d'))
  check_one_total expected zero attempt document d =
      attempt-Returns expected zero attempt document d (λ e. absurd (judge-last document _ e))
  check_one_total expected (suc left) attempt document d =
      attempt-Returns expected (suc left) attempt document d
        (λ e. check_one_total expected left (attempt + 1) document _)
