-- ===== src/VisibilityClient/Verdicts.antt =====
-- Which answers of Drive settle a check, and when a document counts as visible.
use knowledge_graph_mvp.Prelude.{
  Bool, Bool-cases, List, Option, String, Text, [], ap, contains, eq_of_==, false, if◌then◌else◌,
  inl, inr, list_eq, nat_eq, none, not, refl, some, string_eq, true, true_of_not, ℕ, ◌&&◌, ◌==◌,
  ◌∷◌, ◌≡◌, ◌≢◌,
}
use knowledge_graph_mvp.Models.{SourceDocument, verified_visible, denied, unknown}
use knowledge_graph_mvp.VisibilityClient.{
  DriveAnswer, Verdict, judge, judge_error, judge_payload, http_error, network_error, not_a_dict,
  other_exception, payload, retry, settled, uncaught, has_transient_reason, judge_http,
  transient_http_statuses,
}

-- The one answer that shows a document: its own id, and `trashed` false.
abbrev pub Shows : SourceDocument → DriveAnswer → Type 0
Shows document answer = answer ≡ payload (some document.drive_file_id) (some false)

judge_payload-Shows :
    (document : SourceDocument) (id : Option Text) (trashed : Option Bool) (reason : String)
    → judge_payload document id trashed ≡ settled verified_visible reason
    → Shows document (payload id trashed)
unfolding judge_payload
judge_payload-Shows document none trashed reason h = cc
judge_payload-Shows document (some id) trashed reason h =
    elim (Bool-cases (not (id == document.drive_file_id))) [
      | inl e ↦ absurd (malformed (rw e at h))
      | inr e ↦
          of_trashed trashed (rw e at h) (eq_of_== id document.drive_file_id (true_of_not _ e))
    ]
  where
    malformed : settled unknown "malformed_response" ≡ settled verified_visible reason → ⊥
    malformed k = cc

    of_trashed :
        (o : Option Bool)
        → elim o as (λ _. Verdict) [
          | some false ↦ settled verified_visible ""
          | _ ↦ settled denied "trashed"
        ]
          ≡ settled verified_visible reason
        → id ≡ document.drive_file_id
        → Shows document (payload (some id) o)
    of_trashed none k p = cc
    of_trashed (some true) k p = cc
    of_trashed (some false) k p = ap (λ x. payload (some x) (some false)) p

judge_error-unseen :
    (is_last transient : Bool) (status : ℕ) (reason : String)
    → judge_error is_last transient status ≡ settled verified_visible reason
    → ⊥
unfolding judge_error
judge_error-unseen is_last transient status reason h =
    elim (Bool-cases (transient && not is_last)) [
      | inl e ↦ again (rw e at h)
      | inr e ↦ elim (Bool-cases (contains (403 ∷ 404 ∷ 410 ∷ []) status && not transient)) [
        | inl e' ↦ hidden (rw (e, e') at h)
        | inr e' ↦ unclear (rw (e, e') at h)
      ]
    ]
  where
    again : retry ≡ settled verified_visible reason → ⊥
    again k = cc

    hidden : settled denied "inaccessible" ≡ settled verified_visible reason → ⊥
    hidden k = cc

    unclear :
        settled unknown (if transient then "transient_failure" else "drive_api_error")
          ≡ settled verified_visible reason
        → ⊥
    unclear k = cc

-- A property of every verdict on an HTTP error.
judge_http-all :
    (P : Verdict → Type 0) (is_last : Bool) (status : ℕ) (body : Option (List String))
    → ((transient : Bool) → P (judge_error is_last transient status))
    → (body ≡ none → P uncaught)
    → P (judge_http is_last status body)
unfolding judge_http
judge_http-all P is_last status body each unread =
    elim (Bool-cases (contains transient_http_statuses status)) [
      | inl e ↦ rw e (each true)
      | inr e ↦ rw e (read body unread)
    ]
  where
    read :
        (o : Option (List String))
        → (o ≡ none → P uncaught)
        → P (elim o as (λ _. Verdict) [
          | none ↦ uncaught
          | some reasons ↦ judge_error is_last (has_transient_reason reasons) status
        ])
    read none f = f refl
    read (some reasons) f = each (has_transient_reason reasons)

judge_http-unseen :
    (is_last : Bool) (status : ℕ) (body : Option (List String)) (reason : String)
    → judge_http is_last status body ≡ settled verified_visible reason
    → ⊥
judge_http-unseen is_last status body reason =
    judge_http-all (λ v. v ≡ settled verified_visible reason → ⊥) is_last status body
      (λ transient. judge_error-unseen is_last transient status reason) (λ e h. cc)

pub judge-Shows :
    (is_last : Bool) (document : SourceDocument) (answer : DriveAnswer) (reason : String)
    → judge is_last document answer ≡ settled verified_visible reason
    → Shows document answer
unfolding judge
judge-Shows is_last document (payload id trashed) reason h =
    judge_payload-Shows document id trashed reason h
judge-Shows is_last document not_a_dict reason h = cc
judge-Shows is_last document (http_error status body) reason h =
    absurd (judge_http-unseen is_last status body reason h)
judge-Shows true document network_error reason h = cc
judge-Shows false document network_error reason h = cc
judge-Shows is_last document other_exception reason h = cc

judge_error-last : (status : ℕ) (transient : Bool) → judge_error true transient status ≡ retry → ⊥
unfolding judge_error
judge_error-last status true k = elim (Bool-cases (contains (403 ∷ 404 ∷ 410 ∷ []) status)) [
  | inl e ↦ rest (rw e at k)
  | inr e ↦ rest (rw e at k)
]
  where
    rest : settled unknown "transient_failure" ≡ retry → ⊥
    rest q = cc
judge_error-last status false k = elim (Bool-cases (contains (403 ∷ 404 ∷ 410 ∷ []) status)) [
  | inl e ↦ hidden (rw e at k)
  | inr e ↦ unclear (rw e at k)
]
  where
    hidden : settled denied "inaccessible" ≡ retry → ⊥
    hidden q = cc

    unclear : settled unknown "drive_api_error" ≡ retry → ⊥
    unclear q = cc

-- At the last attempt nothing is tried again.
pub judge-last :
    (document : SourceDocument) (answer : DriveAnswer) → judge true document answer ≡ retry → ⊥
unfolding judge judge_payload judge_error
judge-last document (payload none trashed) h = cc
judge-last document (payload (some id) trashed) h =
    elim (Bool-cases (not (id == document.drive_file_id))) [
      | inl e ↦ malformed (rw e at h)
      | inr e ↦ of_trashed trashed (rw e at h)
    ]
  where
    malformed : settled unknown "malformed_response" ≡ retry → ⊥
    malformed k = cc

    of_trashed :
        (o : Option Bool)
        → elim o as (λ _. Verdict) [
          | some false ↦ settled verified_visible ""
          | _ ↦ settled denied "trashed"
        ]
          ≡ retry
        → ⊥
    of_trashed none k = cc
    of_trashed (some true) k = cc
    of_trashed (some false) k = cc
judge-last document not_a_dict h = cc
judge-last document (http_error status body) h =
    judge_http-all (λ v. v ≡ retry → ⊥) true status body (judge_error-last status) (λ e q. cc) h
judge-last document network_error h = cc
judge-last document other_exception h = cc

abbrev pub is_uncaught : Verdict → Bool
is_uncaught uncaught = true
is_uncaught _ = false

judge_error-caught :
    (is_last transient : Bool) (status : ℕ)
    → is_uncaught (judge_error is_last transient status) ≡ false
unfolding judge_error
judge_error-caught is_last transient status = elim (Bool-cases (transient && not is_last)) [
  | inl e ↦ rw e refl
  | inr e ↦ elim (Bool-cases (contains (403 ∷ 404 ∷ 410 ∷ []) status && not transient)) [
    | inl e' ↦ rw (e, e') refl
    | inr e' ↦ rw (e, e') refl
  ]
]

judge_payload-caught :
    (document : SourceDocument) (id : Option Text) (trashed : Option Bool)
    → is_uncaught (judge_payload document id trashed) ≡ false
unfolding judge_payload
judge_payload-caught document none trashed = refl
judge_payload-caught document (some id) trashed =
    elim (Bool-cases (not (id == document.drive_file_id))) [
      | inl e ↦ rw e refl
      | inr e ↦ rw e (of_trashed trashed)
    ]
  where
    of_trashed :
        (o : Option Bool)
        → is_uncaught (elim o as (λ _. Verdict) [
          | some false ↦ settled verified_visible ""
          | _ ↦ settled denied "trashed"
        ])
          ≡ false
    of_trashed none = refl
    of_trashed (some true) = refl
    of_trashed (some false) = refl

-- Drive raises only the errors that the code expects, and where it sends reasons they are a list.
pub record IsExpected (answer : DriveAnswer) : Type 0 where
  pub expected_exception : answer ≢ other_exception
  pub reasons_listed : (status : ℕ) → answer ≢ http_error status none

pub judge-caught :
    (is_last : Bool) (document : SourceDocument) (answer : DriveAnswer)
    → IsExpected answer
    → is_uncaught (judge is_last document answer) ≡ false
unfolding judge
judge-caught is_last document (payload id trashed) h = judge_payload-caught document id trashed
judge-caught is_last document not_a_dict h = refl
judge-caught is_last document (http_error status body) h =
    judge_http-all (λ v. is_uncaught v ≡ false) is_last status body
      (λ transient. judge_error-caught is_last transient status)
      (λ e. absurd (h.reasons_listed status (ap (http_error status) e)))
judge-caught true document network_error h = refl
judge-caught false document network_error h = refl
judge-caught is_last document other_exception h = absurd (h.expected_exception refl)
