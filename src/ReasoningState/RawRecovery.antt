-- ===== src/ReasoningState/RawRecovery.antt =====
-- When the bytes of a captured Decision View are recovered.
use tokenzero.Base.{
  ◌≡◌, ◌↔◌, refl, sym, subst, true, Text, codes, leb, ◌==◌, ==_iff, length, max_u64, ok, >>-ok,
  guard->>-ok,
}
use tokenzero.ReasoningState.{Abi, IsLawful}
use tokenzero.ReasoningState.Continuation.{
  raw_byte_length_overflow, decision_view_identity_mismatch, decision_view_digest_mismatch,
  exact_token_map_digest_mismatch, raw_baseline_identity_mismatch, hub_safepoint_digest_mismatch,
  raw_byte_length_mismatch, raw_bytes_digest_mismatch, DecisionViewIdentity, DecisionView,
  RawDecisionViewRecoveryEnvelope, require_continuation_digest,
}
use tokenzero.ReasoningState.RawView.{identity_eq, capture_view, exact_raw_decision_view_bytes}
use tokenzero.ReasoningState.Equality.{same→≡, same_refl, identity_eq→≡, identity_eq_refl}

module _ (abi : Abi) (lawful : IsLawful abi) where
  open abi use {Digest, same, sha256}

  captured_view : DecisionView abi → Digest → Digest → RawDecisionViewRecoveryEnvelope abi
  captured_view view baseline safepoint = record {
    reference = record {
      decision_view_identity = view.identity;
      decision_view_digest = view.digest;
      exact_token_map_digest = view.exact_token_map_digest;
      raw_bytes_digest = sha256 view.rendered;
      raw_byte_len = length view.rendered;
      total_tokens = view.total_tokens;
      caller_raw_baseline_identity_digest = baseline;
      caller_hub_safepoint_digest = safepoint;
    };
    raw_decision_view_bytes = view.rendered;
  }

  capture_view-eq-ok :
      (view : DecisionView abi) (baseline safepoint : Digest)
      (envelope : RawDecisionViewRecoveryEnvelope abi)
      → capture_view abi view baseline safepoint ≡ ok envelope
      → (captured_view view baseline safepoint ≡ envelope)
        × (leb (length view.rendered) max_u64 ≡ true)
  unfolding capture_view captured_view
  capture_view-eq-ok view baseline safepoint envelope h =
      let (_, k1) =
        >>-ok (require_continuation_digest abi (codes "caller raw-baseline identity") baseline) h in
      let (_, k2) =
        >>-ok (require_continuation_digest abi (codes "caller hub safepoint") safepoint) k1 in
      let (small, k3) =
        guard->>-ok (leb (length view.rendered) max_u64) raw_byte_length_overflow k2 in
      (cc (k3), small)

  -- A captured Decision View is recovered exactly for its own identity, digest and token map and for
  -- the baseline and safepoint that it was captured with; and what is recovered is what was
  -- rendered, byte for byte.
  pub exact_raw_decision_view_bytes-capture_view :
      (view : DecisionView abi) (baseline safepoint : Digest)
      (envelope : RawDecisionViewRecoveryEnvelope abi)
      → capture_view abi view baseline safepoint ≡ ok envelope
      → (identity : DecisionViewIdentity abi) (digest token_map base safe : Digest) (out : Text)
      → (exact_raw_decision_view_bytes abi envelope identity digest token_map base safe ≡ ok out)
        ↔ ((view.identity ≡ identity)
            × (view.digest ≡ digest)
            × (view.exact_token_map_digest ≡ token_map)
            × (baseline ≡ base)
            × (safepoint ≡ safe)
            × (view.rendered ≡ out))
  unfolding exact_raw_decision_view_bytes captured_view
  exact_raw_decision_view_bytes-capture_view view baseline safepoint envelope h identity digest
        token_map base safe out =
      let (same_envelope, small) = capture_view-eq-ok view baseline safepoint envelope h in
      subst
        (λ e. (exact_raw_decision_view_bytes abi e identity digest token_map base safe ≡ ok out) ↔ (
          (view.identity ≡ identity)
          × (view.digest ≡ digest)
          × (view.exact_token_map_digest ≡ token_map)
          × (baseline ≡ base)
          × (safepoint ≡ safe)
          × (view.rendered ≡ out)))
        same_envelope (forth, back small)
    where
      forth :
          exact_raw_decision_view_bytes abi
              (captured_view view baseline safepoint)
              identity
              digest
              token_map
              base
              safe
            ≡ ok out
          → (view.identity ≡ identity)
            × (view.digest ≡ digest)
            × (view.exact_token_map_digest ≡ token_map)
            × (baseline ≡ base)
            × (safepoint ≡ safe)
            × (view.rendered ≡ out)
      forth r =
          let bytes = view.rendered in
          let (q1, r1) =
            guard->>-ok (identity_eq abi view.identity identity) decision_view_identity_mismatch
              r in
          let (q2, r2) = guard->>-ok (same view.digest digest) decision_view_digest_mismatch r1 in
          let (q3, r3) =
            guard->>-ok (same view.exact_token_map_digest token_map) exact_token_map_digest_mismatch
              r2 in
          let (q4, r4) = guard->>-ok (same baseline base) raw_baseline_identity_mismatch r3 in
          let (q5, r5) = guard->>-ok (same safepoint safe) hub_safepoint_digest_mismatch r4 in
          let (_, r6) = guard->>-ok (leb (length bytes) max_u64) raw_byte_length_overflow r5 in
          let (_, r7) = guard->>-ok (length bytes == length bytes) raw_byte_length_mismatch r6 in
          let (_, r8) =
            guard->>-ok (same (sha256 bytes) (sha256 bytes)) raw_bytes_digest_mismatch r7 in
          (
            identity_eq→≡ abi lawful view.identity identity q1,
            same→≡ abi lawful _ _ q2,
            same→≡ abi lawful _ _ q3,
            same→≡ abi lawful _ _ q4,
            same→≡ abi lawful _ _ q5,
            cc (r8),
          )

      back :
          leb (length view.rendered) max_u64 ≡ true
          → (view.identity ≡ identity)
            × (view.digest ≡ digest)
            × (view.exact_token_map_digest ≡ token_map)
            × (baseline ≡ base)
            × (safepoint ≡ safe)
            × (view.rendered ≡ out)
          → exact_raw_decision_view_bytes abi
              (captured_view view baseline safepoint)
              identity
              digest
              token_map
              base
              safe
            ≡ ok out
      back small (e1, e2, e3, e4, e5, e6) =
          rw
            (
              sym e1,
              sym e2,
              sym e3,
              sym e4,
              sym e5,
              identity_eq_refl abi lawful view.identity,
              same_refl abi lawful view.digest,
              same_refl abi lawful view.exact_token_map_digest,
              same_refl abi lawful baseline,
              same_refl abi lawful safepoint,
              small,
              (==_iff (length view.rendered) (length view.rendered)).1 refl,
              same_refl abi lawful (sha256 view.rendered),
              e6,
            )
            refl
