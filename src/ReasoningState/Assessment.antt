-- ===== src/ReasoningState/Assessment.antt =====
-- What an assessment may claim of a state, and how it agrees with the replay of the state's bytes.
use tokenzero.Base.{
  ℕ, ◌≡◌, ◌≢◌, ◌↔◌, ◌⊎◌, inl, inr, refl, subst, true, false, Bool-cases, Option, some, Text, Result,
  ok, >>=-ok, >>-ok, guard->>-ok, if◌then◌else◌, arith,
}
use tokenzero.ReasoningState.{
  Abi, IsLawful, OpaqueReasoningStateKind, ReasoningContinuationStatus, exact, scoped_certificate,
  approximate, unavailable, expired, rejected, identity_mismatch, ReasoningStateBinding,
  ReasoningStateOrder, OpaqueReasoningStateEnvelope,
}
use tokenzero.ReasoningState.Envelope.{has_expired, option_eq, Ref, capture, exact_replay_bytes}
use tokenzero.ReasoningState.Continuation.{
  ModelStateContinuationClass, exact_neutral, scoped_certificate_class, empirical_class,
  unavailable_class, exact_neutral_kind, kind, state_expired, ModelStateUnavailableReason,
  empirical_evidence_expired, ModelStateContinuationError, scoped_certificate_mismatch,
  tokenizer_identity_mismatch, tool_schema_identity_mismatch, ModelStateContinuationEvidence,
  no_evidence, scoped, empirical, RawDecisionViewRecoveryRef, ModelStateContinuationAssessment,
  validate_continuation_evidence_for_state, class_of, assess,
}
use tokenzero.ReasoningState.Equality.{option_eq_iff}
use tokenzero.ReasoningState.Replay.{
  IsLive, has_expired-IsLive, IsLive-has_expired, captured, capture-eq-ok,
  exact_replay_bytes-capture,
}

module _ (abi : Abi) where
  open abi use {Digest}

  -- A class that the status of a state and the evidence carry.
  pub IsCarried :
      Digest
      → Option Digest
      → ℕ
      → ReasoningContinuationStatus
      → ModelStateContinuationEvidence abi
      → ModelStateContinuationClass abi
      → Type 0
  IsCarried content held now status given (exact_neutral d) =
      (status ≡ exact) × (given ≡ no_evidence) × (d ≡ content)
  IsCarried content held now status given (scoped_certificate_class d c s) =
      (status ≡ scoped_certificate) × (given ≡ scoped c s) × (held ≡ some c) × (d ≡ content)
  IsCarried content held now status given (empirical_class d f r s v) =
      (status ≡ approximate) × (given ≡ empirical f r s v) × IsLive v now × (d ≡ content)
  IsCarried content held now status given (unavailable_class reason) = status ≢ exact

  -- An assessment that stands: of the state that was given, by its status and the evidence, unless
  -- the state has expired, which makes it unavailable.
  pub IsWarranted :
      Ref abi
      → ModelStateContinuationEvidence abi
      → ℕ
      → ModelStateContinuationAssessment abi
      → Type 0
  IsWarranted r given now a =
      (a.state_reference ≡ r)
      × ((IsLive r.valid_until_unix_ms now
            × IsCarried r.content_digest r.continuation_certificate_digest now r.status given
                a.class)
          ⊎ ((¬ IsLive r.valid_until_unix_ms now) × (a.class ≡ unavailable_class state_expired)))

module _ (abi : Abi) (lawful : IsLawful abi) where
  open abi use {Digest, same, sha256}

  unavailable-IsCarried :
      (content : Digest) (held : Option Digest) (now : ℕ) (status : ReasoningContinuationStatus)
      (given : ModelStateContinuationEvidence abi) (reason : ModelStateUnavailableReason)
      (class : ModelStateContinuationClass abi)
      → status ≢ exact
      → ◌≡◌ {A = Result ModelStateContinuationError (ModelStateContinuationClass abi)}
          (ok (unavailable_class reason))
          (ok class)
      → IsCarried abi content held now status given class
  unfolding IsCarried
  unavailable-IsCarried content held now status given reason class n h =
      let e : unavailable_class reason ≡ class = cc in
      subst (IsCarried abi content held now status given) e n

  class_of-IsCarried :
      (content : Digest) (held : Option Digest) (now : ℕ) (status : ReasoningContinuationStatus)
      (evidence : ModelStateContinuationEvidence abi) (class : ModelStateContinuationClass abi)
      → class_of abi content held now status evidence ≡ ok class
      → IsCarried abi content held now status evidence class
  unfolding class_of IsCarried
  class_of-IsCarried content held now exact no_evidence class h =
      let e : exact_neutral content ≡ class = cc in
      subst (IsCarried abi content held now exact no_evidence) e (refl, refl, refl)
  class_of-IsCarried content held now scoped_certificate (scoped c s) class h =
      let (q, k) = guard->>-ok (option_eq same held (some c)) scoped_certificate_mismatch h in
      let e : scoped_certificate_class content c s ≡ class = cc in
      subst (IsCarried abi content held now scoped_certificate (scoped c s)) e
        (refl, refl, (option_eq_iff same lawful.same_iff held (some c)).0 q, refl)
  class_of-IsCarried content held now approximate (empirical f r s v) class h =
      elim (Bool-cases (has_expired v now)) [
        | inl late ↦
            unavailable-IsCarried content held now approximate (empirical f r s v)
              empirical_evidence_expired class (λ q. ground arith) (rw late at h)
        | inr live ↦
            let e : empirical_class content f r s v ≡ class = cc in
            subst (IsCarried abi content held now approximate (empirical f r s v)) e
              (refl, refl, has_expired-IsLive v now live, refl)
      ]
  class_of-IsCarried content held now scoped_certificate no_evidence class h =
      unavailable-IsCarried content held now scoped_certificate no_evidence _ class
        (λ q. ground arith) h
  class_of-IsCarried content held now approximate no_evidence class h =
      unavailable-IsCarried content held now approximate no_evidence _ class (λ q. ground arith) h
  class_of-IsCarried content held now unavailable no_evidence class h =
      unavailable-IsCarried content held now unavailable no_evidence _ class (λ q. ground arith) h
  class_of-IsCarried content held now expired no_evidence class h =
      unavailable-IsCarried content held now expired no_evidence _ class (λ q. ground arith) h
  class_of-IsCarried content held now rejected no_evidence class h =
      unavailable-IsCarried content held now rejected no_evidence _ class (λ q. ground arith) h
  class_of-IsCarried content held now identity_mismatch no_evidence class h =
      unavailable-IsCarried content held now identity_mismatch no_evidence _ class
        (λ q. ground arith) h
  class_of-IsCarried _ _ _ _ _ class h = cc

  expired-IsLive : (v : Option ℕ) (now : ℕ) → has_expired v now ≡ true → ¬ IsLive v now
  expired-IsLive v now h live =
      let live' : has_expired v now ≡ false = IsLive-has_expired v now live in cc

  -- An assessment never claims more than the state's status and the evidence carry: a class is
  -- exact-neutral only for a state captured as exact and without evidence, scoped only for a scoped
  -- state whose certificate is the one in evidence, empirical only for an approximate state with
  -- unexpired evidence, and none of these once the state has expired; and a live exact state is
  -- never reported unavailable.
  pub assess-IsWarranted :
      (r : Ref abi) (given : ModelStateContinuationEvidence abi)
      (raw : RawDecisionViewRecoveryRef abi) (now : ℕ) (a : ModelStateContinuationAssessment abi)
      → assess abi r given raw now ≡ ok a
      → IsWarranted abi r given now a
  unfolding assess IsWarranted
  assess-IsWarranted r given raw now a h =
      let view = raw.decision_view_identity in
      let (_, k1) = >>-ok (validate_continuation_evidence_for_state abi r given) h in
      let (_, k2) =
        guard->>-ok (same r.binding.tokenizer_identity view.tokenizer_identity_digest)
          tokenizer_identity_mismatch k1 in
      let (_, k3) =
        guard->>-ok (same r.binding.tool_schema_digest view.tool_schema_digest)
          tool_schema_identity_mismatch k2 in
      let (class, found, made) =
        >>=-ok
          (if has_expired r.valid_until_unix_ms now
            then ok (unavailable_class state_expired)
            else class_of abi r.content_digest r.continuation_certificate_digest now r.status given)
          _ k3 in
      let built : record { state_reference = r; class = class; raw_recovery = raw } ≡ a = cc in
      subst (IsWarranted abi r given now) built
        (elim (Bool-cases (has_expired r.valid_until_unix_ms now)) [
          | inl late ↦
              let found' : ◌≡◌
                  {A = Result ModelStateContinuationError (ModelStateContinuationClass abi)}
                  (ok (unavailable_class state_expired)) (ok class) =
                rw late at found in
              let e : class ≡ unavailable_class state_expired = cc in
              (refl, inr (expired-IsLive r.valid_until_unix_ms now late, e))
          | inr live ↦ (
            refl,
            inl (
              has_expired-IsLive r.valid_until_unix_ms now live,
              class_of-IsCarried r.content_digest r.continuation_certificate_digest now r.status
                  given class (rw live at found),
            ),
          )
        ])

  kind-exact_neutral :
      (c : ModelStateContinuationClass abi)
      → kind abi c ≡ exact_neutral_kind
      → (d : Digest) × (c ≡ exact_neutral d)
  unfolding kind
  kind-exact_neutral (exact_neutral d) n = (d, refl)
  kind-exact_neutral c n = cc

  IsWarranted-exact_neutral :
      (r : Ref abi) (given : ModelStateContinuationEvidence abi) (now : ℕ)
      (a : ModelStateContinuationAssessment abi)
      → IsWarranted abi r given now a
      → kind abi a.class ≡ exact_neutral_kind
      → (r.status ≡ exact) × IsLive r.valid_until_unix_ms now
  unfolding IsWarranted IsCarried
  IsWarranted-exact_neutral r given now a (_, inr (late, e)) n =
      let (d, neutral) = kind-exact_neutral a.class n in cc
  IsWarranted-exact_neutral r given now a (_, inl (live, carried)) n =
      let (d, neutral) = kind-exact_neutral a.class n in
      let held =
        subst (IsCarried abi r.content_digest r.continuation_certificate_digest now r.status given)
          neutral carried in
      (held.0, live)

  -- For a captured envelope and a raw view of the same tokenizer and tool schema, an assessment
  -- without evidence is exact-neutral exactly at the times at which the envelope's bytes replay
  -- under its own binding and order.
  pub assess-exact_replay_bytes :
      (k : OpaqueReasoningStateKind) (status : ReasoningContinuationStatus)
      (binding : ReasoningStateBinding abi) (order : ReasoningStateOrder abi)
      (certificate : Option Digest) (valid_until : Option ℕ) (bytes : Text)
      (envelope : OpaqueReasoningStateEnvelope abi) (raw : RawDecisionViewRecoveryRef abi) (now : ℕ)
      → capture abi k status binding order certificate valid_until bytes ≡ ok envelope
      → binding.tokenizer_identity ≡ raw.decision_view_identity.tokenizer_identity_digest
      → binding.tool_schema_digest ≡ raw.decision_view_identity.tool_schema_digest
      → ((a : ModelStateContinuationAssessment abi) × (assess abi envelope.reference no_evidence raw
              now
            ≡ ok a)
          × (kind abi a.class ≡ exact_neutral_kind))
        ↔ (exact_replay_bytes abi envelope binding order now ≡ ok bytes)
  unfolding assess captured kind class_of
  assess-exact_replay_bytes k status binding order certificate valid_until bytes envelope raw now h
        tokenizer tools =
      let replays =
        exact_replay_bytes-capture abi lawful k status binding order certificate valid_until bytes
          envelope h binding order now bytes in
      let made =
        (capture-eq-ok abi lawful k status binding order certificate valid_until bytes envelope
          h).0 in
      subst
        (λ e.
          ((a : ModelStateContinuationAssessment abi) × (assess abi e.reference no_evidence raw now
              ≡ ok a)
            × (kind abi a.class ≡ exact_neutral_kind))
          ↔ (exact_replay_bytes abi envelope binding order now ≡ ok bytes))
        made
        (
          λ (a, assessed, neutral).
              let (is_exact, live) =
                IsWarranted-exact_neutral _ no_evidence now a
                  (assess-IsWarranted _ no_evidence raw now a assessed) neutral in
              replays.1 (is_exact, refl, refl, live, refl),
          λ replayed.
              let (is_exact, _, _, live, _) = replays.0 replayed in
              (
                record {
                  state_reference =
                      (captured abi k status binding order certificate valid_until bytes).reference;
                  class = exact_neutral (sha256 bytes);
                  raw_recovery = raw;
                },
                rw
                    (
                      is_exact,
                      (lawful.same_iff _ _).1 tokenizer,
                      (lawful.same_iff _ _).1 tools,
                      IsLive-has_expired valid_until now live,
                    )
                    refl,
                refl,
              ),
        )
