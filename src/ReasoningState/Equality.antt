-- ===== src/ReasoningState/Equality.antt =====
-- The derived equalities of bindings, orders and view identities decide equality.
use tokenzero.Base.{
  ◌≡◌, ◌↔◌, refl, sym, ap, Bool, true, false, ◌==◌, ==_iff, &&-true, Option, none, some,
}
use tokenzero.ReasoningState.{Abi, IsLawful, ReasoningStateBinding, ReasoningStateOrder}
use tokenzero.ReasoningState.Envelope.{option_eq, bool_eq, binding_eq, order_eq}
use tokenzero.ReasoningState.Continuation.{DecisionViewIdentity}
use tokenzero.ReasoningState.RawView.{identity_eq}

bool_eq→≡ : (a b : Bool) → bool_eq a b ≡ true → a ≡ b
bool_eq→≡ true b h = sym h
bool_eq→≡ false true h = h
bool_eq→≡ false false h = refl

bool_eq_refl : (a : Bool) → bool_eq a a ≡ true
bool_eq_refl true = refl
bool_eq_refl false = refl

module _ {A : Type 0} (eq : A → A → Bool) (eq_iff : (a b : A) → (eq a b ≡ true) ↔ (a ≡ b)) where
  pub option_eq_iff : (a b : Option A) → (option_eq eq a b ≡ true) ↔ (a ≡ b)
  option_eq_iff none none = (λ h. refl, λ h. refl)
  option_eq_iff none (some b) = (λ h. cc, λ h. cc)
  option_eq_iff (some a) none = (λ h. cc, λ h. cc)
  option_eq_iff (some a) (some b) = (λ h. ap some ((eq_iff a b).0 h), λ h. (eq_iff a b).1 cc)

module _ (abi : Abi) (lawful : IsLawful abi) where
  open abi use {Digest, same, same_policy}

  pub same_refl : (d : Digest) → same d d ≡ true
  same_refl d = (lawful.same_iff d d).1 refl

  pub same→≡ : (a b : Digest) → same a b ≡ true → a ≡ b
  same→≡ a b h = (lawful.same_iff a b).0 h

  pub order_eq→≡ : (a b : ReasoningStateOrder abi) → order_eq abi a b ≡ true → a ≡ b
  unfolding order_eq
  order_eq→≡ a b h =
      let (index, parent) = &&-true (a.sequence_index == b.sequence_index) _ h in
      let e1 : a.sequence_index ≡ b.sequence_index =
        (==_iff a.sequence_index b.sequence_index).0 index in
      let e2 : a.parent_content_digest ≡ b.parent_content_digest =
        (option_eq_iff same lawful.same_iff a.parent_content_digest b.parent_content_digest).0
          parent in
      cc

  pub order_eq_refl : (a : ReasoningStateOrder abi) → order_eq abi a a ≡ true
  unfolding order_eq
  order_eq_refl a =
      rw
        (
          (==_iff a.sequence_index a.sequence_index).1 refl,
          (option_eq_iff same lawful.same_iff a.parent_content_digest a.parent_content_digest).1
              refl,
        )
        refl

  pub identity_eq→≡ : (a b : DecisionViewIdentity abi) → identity_eq abi a b ≡ true → a ≡ b
  unfolding identity_eq
  identity_eq→≡ a b h =
      let (h1, t1) = &&-true (same a.source_root_digest b.source_root_digest) _ h in
      let (h2, t2) = &&-true (same a.model_profile_digest b.model_profile_digest) _ t1 in
      let (h3, t3) = &&-true (same a.tokenizer_identity_digest b.tokenizer_identity_digest) _ t2 in
      let (h4, h5) = &&-true (same a.tool_schema_digest b.tool_schema_digest) _ t3 in
      let e1 = same→≡ _ _ h1 in
      let e2 = same→≡ _ _ h2 in
      let e3 = same→≡ _ _ h3 in let e4 = same→≡ _ _ h4 in let e5 = same→≡ _ _ h5 in cc

  pub identity_eq_refl : (a : DecisionViewIdentity abi) → identity_eq abi a a ≡ true
  unfolding identity_eq
  identity_eq_refl a = simp same_refl

  pub binding_eq→≡ : (a b : ReasoningStateBinding abi) → binding_eq abi a b ≡ true → a ≡ b
  unfolding binding_eq
  binding_eq→≡ a b h =
      let (h1, t1) = &&-true (same a.provider_identity b.provider_identity) _ h in
      let (h2, t2) = &&-true (same a.model_identity b.model_identity) _ t1 in
      let (h3, t3) = &&-true (same a.backend_identity b.backend_identity) _ t2 in
      let (h4, t4) = &&-true (same a.tokenizer_identity b.tokenizer_identity) _ t3 in
      let (h5, t5) = &&-true (same a.decoder_identity b.decoder_identity) _ t4 in
      let (h6, t6) = &&-true (same a.tool_schema_digest b.tool_schema_digest) _ t5 in
      let (h7, t7) = &&-true (same a.reasoning_contract_digest b.reasoning_contract_digest) _ t6 in
      let (h8, t8) = &&-true (same_policy a.native_state_policy b.native_state_policy) _ t7 in
      let (h9, t9) = &&-true (same a.position_identity b.position_identity) _ t8 in
      let (h10, t10) = &&-true (same a.session_identity b.session_identity) _ t9 in
      let (h11, t11) =
        &&-true (bool_eq a.sampler_identity_required b.sampler_identity_required) _ t10 in
      let e1 = same→≡ _ _ h1 in
      let e2 = same→≡ _ _ h2 in
      let e3 = same→≡ _ _ h3 in
      let e4 = same→≡ _ _ h4 in
      let e5 = same→≡ _ _ h5 in
      let e6 = same→≡ _ _ h6 in
      let e7 = same→≡ _ _ h7 in
      let e8 = (lawful.same_policy_iff _ _).0 h8 in
      let e9 = same→≡ _ _ h9 in
      let e10 = same→≡ _ _ h10 in
      let e11 = bool_eq→≡ a.sampler_identity_required b.sampler_identity_required h11 in
      let e12 = (option_eq_iff same lawful.same_iff a.sampler_identity b.sampler_identity).0 t11 in
      cc

  pub binding_eq_refl : (a : ReasoningStateBinding abi) → binding_eq abi a a ≡ true
  unfolding binding_eq
  binding_eq_refl a =
      rw
        (
          (option_eq_iff same lawful.same_iff a.sampler_identity a.sampler_identity).1 refl,
          (lawful.same_policy_iff a.native_state_policy a.native_state_policy).1 refl,
          bool_eq_refl a.sampler_identity_required,
        )
        (simp same_refl)
