-- ===== src/ReasoningState/Replay.antt =====
-- When the bytes of a captured envelope replay, and when a captured Decision View is recovered.
use tokenzero.Base.{
  ℕ, ◌<◌, ◌≡◌, ◌↔◌, refl, sym, subst, Bool, true, false, not, Option, none, some, Text, leb, ltb,
  length, max_u64, ok, >>-ok, guard->>-ok, arith,
}
use tokenzero.ReasoningState.{
  Abi, IsLawful, max_opaque_reasoning_state_bytes, OpaqueReasoningStateKind,
  ReasoningContinuationStatus, exact, carries_payload, ReasoningStateBinding, ReasoningStateOrder,
  OpaqueReasoningStateEnvelope, validate_native_state_policy, validate_certificate, validate_expiry,
  unavailable_kind_has_payload, payload_status_required, empty_payload, payload_too_large,
  not_exact, binding_mismatch, order_mismatch, state_expired, content_digest_mismatch,
}
use tokenzero.ReasoningState.Envelope.{
  is_available, is_exact, has_expired, binding_eq, order_eq, capture, exact_replay_bytes,
}
use tokenzero.ReasoningState.Equality.{
  same_refl, binding_eq→≡, binding_eq_refl, order_eq→≡, order_eq_refl,
}

-- The state may still be used: it has no expiry, or the expiry lies ahead.
pub IsLive : Option ℕ → ℕ → Type 0
IsLive valid_until now = (expiry : ℕ) → valid_until ≡ some expiry → now < expiry

not-true : (b : Bool) → not b ≡ true → b ≡ false
not-true true h = sym h
not-true false h = refl

pub has_expired-IsLive : (v : Option ℕ) (now : ℕ) → has_expired v now ≡ false → IsLive v now
unfolding IsLive
has_expired-IsLive none now h expiry e = cc
has_expired-IsLive (some x) now h expiry e = let same : x ≡ expiry = cc in ground (arith, h, same)

pub IsLive-has_expired : (v : Option ℕ) (now : ℕ) → IsLive v now → has_expired v now ≡ false
unfolding IsLive
IsLive-has_expired none now live = refl
IsLive-has_expired (some x) now live = ground (arith, live x refl)

is_exact→≡ : (s : ReasoningContinuationStatus) → is_exact s ≡ true → s ≡ exact
is_exact→≡ exact h = refl
is_exact→≡ s h = ground arith

module _ (abi : Abi) where
  open abi use {Digest, sha256}

  -- An envelope as `capture` makes it.
  unfoldable pub captured :
      OpaqueReasoningStateKind
      → ReasoningContinuationStatus
      → ReasoningStateBinding abi
      → ReasoningStateOrder abi
      → Option Digest
      → Option ℕ
      → Text
      → OpaqueReasoningStateEnvelope abi
  captured kind status binding order certificate valid_until bytes = record {
    reference = record {
      kind = kind;
      status = status;
      binding = binding;
      order = order;
      content_digest = sha256 bytes;
      byte_len = length bytes;
      continuation_certificate_digest = certificate;
      valid_until_unix_ms = valid_until;
    };
    opaque_bytes = bytes;
  }

module _ (abi : Abi) (lawful : IsLawful abi) where
  open abi use {Digest, same, sha256}

  pub capture-eq-ok :
      (kind : OpaqueReasoningStateKind) (status : ReasoningContinuationStatus)
      (binding : ReasoningStateBinding abi) (order : ReasoningStateOrder abi)
      (certificate : Option Digest) (valid_until : Option ℕ) (bytes : Text)
      (envelope : OpaqueReasoningStateEnvelope abi)
      → capture abi kind status binding order certificate valid_until bytes ≡ ok envelope
      → (captured abi kind status binding order certificate valid_until bytes ≡ envelope)
        × (validate_certificate abi status certificate ≡ ok tt)
        × (validate_native_state_policy abi binding.native_state_policy status ≡ ok tt)
  unfolding capture captured
  capture-eq-ok kind status binding order certificate valid_until bytes envelope h =
      let (_, k1) = guard->>-ok (is_available kind) unavailable_kind_has_payload h in
      let (_, k2) = guard->>-ok (carries_payload status) payload_status_required k1 in
      let (_, k3) = guard->>-ok (ltb 0 (length bytes)) empty_payload k2 in
      let (_, k4) =
        guard->>-ok (leb (length bytes) max_opaque_reasoning_state_bytes)
          (payload_too_large (length bytes) max_opaque_reasoning_state_bytes) k3 in
      let (certified, k5) = >>-ok (validate_certificate abi status certificate) k4 in
      let (allowed, k6) =
        >>-ok (validate_native_state_policy abi binding.native_state_policy status) k5 in
      let (_, k7) = >>-ok (validate_expiry abi valid_until) k6 in
      let (_, k8) =
        guard->>-ok (leb (length bytes) max_u64)
          (payload_too_large (length bytes) max_opaque_reasoning_state_bytes) k7 in
      (cc (k8), certified, allowed)

  -- The bytes of a captured envelope replay exactly when the state was captured as exact, under the
  -- very binding and order that it was captured with, and before its expiry; and what replays is
  -- what was captured, byte for byte.
  pub exact_replay_bytes-capture :
      (kind : OpaqueReasoningStateKind) (status : ReasoningContinuationStatus)
      (binding : ReasoningStateBinding abi) (order : ReasoningStateOrder abi)
      (certificate : Option Digest) (valid_until : Option ℕ) (bytes : Text)
      (envelope : OpaqueReasoningStateEnvelope abi)
      → capture abi kind status binding order certificate valid_until bytes ≡ ok envelope
      → (b : ReasoningStateBinding abi) (o : ReasoningStateOrder abi) (now : ℕ) (out : Text)
      → (exact_replay_bytes abi envelope b o now ≡ ok out)
        ↔ ((status ≡ exact) × (binding ≡ b) × (order ≡ o) × IsLive valid_until now × (bytes ≡ out))
  unfolding exact_replay_bytes captured
  exact_replay_bytes-capture kind status binding order certificate valid_until bytes envelope h b o
        now out =
      let (same_envelope, _, allowed) =
        capture-eq-ok kind status binding order certificate valid_until bytes envelope h in
      subst
        (λ e. (exact_replay_bytes abi e b o now ≡ ok out) ↔ (
          (status ≡ exact) × (binding ≡ b) × (order ≡ o) × IsLive valid_until now × (bytes ≡ out)))
        same_envelope (forth, back allowed)
    where
      forth :
          exact_replay_bytes abi
              (captured abi kind status binding order certificate valid_until bytes)
              b
              o
              now
            ≡ ok out
          → (status ≡ exact) × (binding ≡ b) × (order ≡ o) × IsLive valid_until now × (bytes ≡ out)
      forth r =
          let (q1, r1) = guard->>-ok (is_exact status) (not_exact status) r in
          let (_, r2) =
            >>-ok (validate_native_state_policy abi binding.native_state_policy status) r1 in
          let (q3, r3) = guard->>-ok (binding_eq abi binding b) binding_mismatch r2 in
          let (q4, r4) = guard->>-ok (order_eq abi order o) order_mismatch r3 in
          let (q5, r5) = guard->>-ok (not (has_expired valid_until now)) state_expired r4 in
          let (_, r6) =
            guard->>-ok (same (sha256 bytes) (sha256 bytes)) content_digest_mismatch r5 in
          (
            is_exact→≡ status q1,
            binding_eq→≡ abi lawful binding b q3,
            order_eq→≡ abi lawful order o q4,
            has_expired-IsLive valid_until now (not-true (has_expired valid_until now) q5),
            cc (r6),
          )

      back :
          validate_native_state_policy abi binding.native_state_policy status ≡ ok tt
          → (status ≡ exact) × (binding ≡ b) × (order ≡ o) × IsLive valid_until now × (bytes ≡ out)
          → exact_replay_bytes abi
              (captured abi kind status binding order certificate valid_until bytes)
              b
              o
              now
            ≡ ok out
      back allowed (e1, e2, e3, live, e5) =
          rw
            (
              sym e2,
              sym e3,
              allowed,
              e1,
              binding_eq_refl abi lawful binding,
              order_eq_refl abi lawful order,
              IsLive-has_expired valid_until now live,
              same_refl abi lawful (sha256 bytes),
              e5,
            )
            refl
