-- ===== src/ReasoningState/Continuation.antt =====
-- The assessment of a continuation, and the raw Decision View that is kept as its fallback.
use tokenzero.Base.{
  ℕ, Bool, false, not, Option, none, some, Text, codes, ◌==◌, if◌then◌else◌, Result, ok, err, ◌>>=◌,
  ◌>>◌, guard,
}
use tokenzero.ReasoningState.{
  Abi, ReasoningContinuationStatus, exact, scoped_certificate, approximate, unavailable, expired,
  rejected, identity_mismatch,
}
use tokenzero.ReasoningState.Envelope.{has_expired, option_eq, Ref}

pub data ModelStateUnavailableReason : Type 0 where
  provider_unavailable state_expired state_rejected state_identity_mismatch scoped_evidence_absent
        empirical_evidence_absent empirical_evidence_expired :
      ModelStateUnavailableReason

pub data ModelStateContinuationKind : Type 0 where
  exact_neutral_kind scoped_certificate_kind empirical_kind unavailable_kind :
      ModelStateContinuationKind

pub data ModelStateContinuationError : Type 0 where
  zero_identity : Text → ModelStateContinuationError
  invalid_evidence_expiry evidence_status_mismatch scoped_certificate_mismatch
        tokenizer_identity_mismatch tool_schema_identity_mismatch raw_byte_length_overflow
        decision_view_identity_mismatch decision_view_digest_mismatch
        exact_token_map_digest_mismatch raw_baseline_identity_mismatch hub_safepoint_digest_mismatch
        raw_byte_length_mismatch raw_bytes_digest_mismatch :
      ModelStateContinuationError

-- `valid_until_unix_ms == Some(0)`
abbrev pub is_zero : Option ℕ → Bool
is_zero none = false
is_zero (some n) = n == 0

module _ (abi : Abi) where
  open abi use {Digest, zero_digest, same, sha256}

  pub data ModelStateContinuationClass : Type 0 where
    exact_neutral : Digest → ModelStateContinuationClass
    scoped_certificate_class : Digest → Digest → Digest → ModelStateContinuationClass
    empirical_class : Digest → Digest → Digest → Digest → Option ℕ → ModelStateContinuationClass
    unavailable_class : ModelStateUnavailableReason → ModelStateContinuationClass

  unfoldable pub kind : ModelStateContinuationClass → ModelStateContinuationKind
  kind (exact_neutral d) = exact_neutral_kind
  kind (scoped_certificate_class d c s) = scoped_certificate_kind
  kind (empirical_class d f r s v) = empirical_kind
  kind (unavailable_class reason) = unavailable_kind

  pub data ModelStateContinuationEvidence : Type 0 where
    no_evidence : ModelStateContinuationEvidence
    scoped : Digest → Digest → ModelStateContinuationEvidence
    empirical : Digest → Digest → Digest → Option ℕ → ModelStateContinuationEvidence

  -- The fields of a `DecisionViewIdentity` and of a `DecisionView` that are read here.
  pub record DecisionViewIdentity : Type 0 where
    pub source_root_digest : Digest
    pub model_profile_digest : Digest
    pub tokenizer_identity_digest : Digest
    pub tool_schema_digest : Digest
    pub renderer_contract_digest : Digest

  pub record DecisionView : Type 0 where
    pub identity : DecisionViewIdentity
    pub rendered : Text
    pub exact_token_map_digest : Digest
    pub total_tokens : ℕ
    pub digest : Digest

  pub record RawDecisionViewRecoveryRef : Type 0 where
    pub decision_view_identity : DecisionViewIdentity
    pub decision_view_digest : Digest
    pub exact_token_map_digest : Digest
    pub raw_bytes_digest : Digest
    pub raw_byte_len : ℕ
    pub total_tokens : ℕ
    pub caller_raw_baseline_identity_digest : Digest
    pub caller_hub_safepoint_digest : Digest

  pub record RawDecisionViewRecoveryEnvelope : Type 0 where
    pub reference : RawDecisionViewRecoveryRef
    pub raw_decision_view_bytes : Text

  pub record ModelStateContinuationAssessment : Type 0 where
    pub state_reference : Ref abi
    pub class : ModelStateContinuationClass
    pub raw_recovery : RawDecisionViewRecoveryRef

  unfoldable pub require_continuation_digest :
      Text → Digest → Result ModelStateContinuationError (Unit {0})
  require_continuation_digest field digest =
      guard (not (same digest zero_digest)) (zero_identity field)

  unfoldable pub scoped_evidence :
      Digest → Digest → Result ModelStateContinuationError ModelStateContinuationEvidence
  unfolding require_continuation_digest
  scoped_evidence certificate scope =
      require_continuation_digest (codes "certificate") certificate
      >> (require_continuation_digest (codes "declared scope") scope
          >> ok (scoped certificate scope))

  unfoldable pub empirical_evidence :
      Digest
      → Digest
      → Digest
      → Option ℕ
      → Result ModelStateContinuationError ModelStateContinuationEvidence
  unfolding require_continuation_digest
  empirical_evidence distribution receipt scope valid_until =
      require_continuation_digest (codes "frozen distribution") distribution
      >> (require_continuation_digest (codes "evaluation receipt") receipt
          >> (require_continuation_digest (codes "declared scope") scope
              >> (guard (not (is_zero valid_until)) invalid_evidence_expiry
                  >> ok (empirical distribution receipt scope valid_until))))

  unfoldable pub validate_evidence :
      ModelStateContinuationEvidence → Result ModelStateContinuationError (Unit {0})
  unfolding require_continuation_digest
  validate_evidence no_evidence = ok tt
  validate_evidence (scoped certificate scope) =
      require_continuation_digest (codes "certificate") certificate
      >> require_continuation_digest (codes "declared scope") scope
  validate_evidence (empirical distribution receipt scope valid_until) =
      require_continuation_digest (codes "frozen distribution") distribution
      >> (require_continuation_digest (codes "evaluation receipt") receipt
          >> (require_continuation_digest (codes "declared scope") scope
              >> guard (not (is_zero valid_until)) invalid_evidence_expiry))

  abbrev pub evidence_fits :
      Option Digest
      → ReasoningContinuationStatus
      → ModelStateContinuationEvidence
      → Result ModelStateContinuationError (Unit {0})
  evidence_fits held status no_evidence = ok tt
  evidence_fits held approximate (empirical d r s v) = ok tt
  evidence_fits held scoped_certificate (scoped certificate scope) =
      guard (option_eq same held (some certificate)) scoped_certificate_mismatch
  evidence_fits _ _ _ = err evidence_status_mismatch

  unfoldable pub validate_continuation_evidence_for_state :
      Ref abi → ModelStateContinuationEvidence → Result ModelStateContinuationError (Unit {0})
  unfolding validate_evidence
  validate_continuation_evidence_for_state r evidence =
      validate_evidence evidence
      >> evidence_fits r.continuation_certificate_digest r.status evidence

  -- The class of a reference that has not expired.
  unfoldable pub class_of :
      Digest
      → Option Digest
      → ℕ
      → ReasoningContinuationStatus
      → ModelStateContinuationEvidence
      → Result ModelStateContinuationError ModelStateContinuationClass
  class_of content held now exact no_evidence = ok (exact_neutral content)
  class_of content held now scoped_certificate (scoped certificate scope) =
      guard (option_eq same held (some certificate)) scoped_certificate_mismatch
      >> ok (scoped_certificate_class content certificate scope)
  class_of content held now scoped_certificate no_evidence =
      ok (unavailable_class scoped_evidence_absent)
  class_of content held now approximate (empirical distribution receipt scope valid_until) =
      if has_expired valid_until now
      then ok (unavailable_class empirical_evidence_expired)
      else ok (empirical_class content distribution receipt scope valid_until)
  class_of content held now approximate no_evidence =
      ok (unavailable_class empirical_evidence_absent)
  class_of content held now unavailable no_evidence = ok (unavailable_class provider_unavailable)
  class_of content held now expired no_evidence = ok (unavailable_class state_expired)
  class_of content held now rejected no_evidence = ok (unavailable_class state_rejected)
  class_of content held now identity_mismatch no_evidence =
      ok (unavailable_class state_identity_mismatch)
  class_of _ _ _ _ _ = err evidence_status_mismatch

  unfoldable pub assess :
      Ref abi
      → ModelStateContinuationEvidence
      → RawDecisionViewRecoveryRef
      → ℕ
      → Result ModelStateContinuationError ModelStateContinuationAssessment
  unfolding validate_continuation_evidence_for_state class_of
  assess r evidence raw now =
      let view = raw.decision_view_identity in
      validate_continuation_evidence_for_state r evidence
      >> (guard (same r.binding.tokenizer_identity view.tokenizer_identity_digest)
            tokenizer_identity_mismatch
          >> (guard (same r.binding.tool_schema_digest view.tool_schema_digest)
                tool_schema_identity_mismatch
              >> ((if has_expired r.valid_until_unix_ms now
                    then ok (unavailable_class state_expired)
                    else class_of r.content_digest r.continuation_certificate_digest now r.status
                        evidence)
                  >>= λ class.
                      ok (record { state_reference = r; class = class; raw_recovery = raw }))))
