-- ===== src/OutputNovelty/Accounting.antt =====
-- The totals of a receipt are those of the fields, role by role.
use tokenzero.Base.{
  ℕ, ◌+◌, ◌≡◌, ap, subst, Bool, true, false, List, [], ◌∷◌, arith, if◌then◌else◌, length, Result,
  ok, err, >>=-ok,
}
use tokenzero.OutputNovelty.{
  OutputNoveltyFieldRole, referenced, reused, novel, deterministic, OutputNoveltyField,
  OutputNoveltyTotals, default_totals, of_role, add, Coder, Error, OutputNoveltyFieldReceipt,
  OutputNoveltyCoding, tokens_of, fits, account_fields, check, encode_fields, encode,
  reconstruct_fields,
}
use tokenzero.OutputNovelty.Framing.{reconstruct_fields-encode}

abbrev same_role : OutputNoveltyFieldRole → OutputNoveltyFieldRole → Bool
same_role referenced referenced = true
same_role reused reused = true
same_role novel novel = true
same_role deterministic deterministic = true
same_role _ _ = false

-- The fields of a role and their bytes.
pub fields_of : OutputNoveltyFieldRole → List OutputNoveltyField → ℕ
fields_of role [] = 0
fields_of role (f ∷ fs) = (if same_role f.role role then 1 else 0) + fields_of role fs

pub bytes_of : OutputNoveltyFieldRole → List OutputNoveltyField → ℕ
bytes_of role [] = 0
bytes_of role (f ∷ fs) = (if same_role f.role role then length f.bytes else 0) + bytes_of role fs

-- Adding a field counts it under its role, and under no other.
add-of_role :
    {E : Type 0} (t t' : OutputNoveltyTotals) (role : OutputNoveltyFieldRole) (bytes tokens : ℕ)
    → add {E = E} t role bytes tokens ≡ ok t'
    → (r : OutputNoveltyFieldRole)
    → ((of_role r t').fields ≡ (of_role r t).fields + (if same_role role r then 1 else 0))
      × ((of_role r t').payload_bytes
          ≡ (of_role r t).payload_bytes + (if same_role role r then bytes else 0))
unfolding add
add-of_role t t' referenced bytes tokens h referenced = ground (arith, h)
add-of_role t t' role bytes tokens h r = ground (arith, h)

ok_pair-injective :
    {E A B : Type 0} {a a' : A} {b b' : B}
    → ◌≡◌ {A = Result E (A × B)} (ok (a, b)) (ok (a', b'))
    → a ≡ a'
ok_pair-injective h = cc

module _ (coder : Coder) where
  open coder use {Digest, sha256}

  account_fields-totals :
      (t t' : OutputNoveltyTotals) (fs : List OutputNoveltyField)
      (receipts : List (OutputNoveltyFieldReceipt coder))
      → account_fields coder t fs ≡ ok (t', receipts)
      → (r : OutputNoveltyFieldRole)
      → ((of_role r t').fields ≡ (of_role r t).fields + fields_of r fs)
        × ((of_role r t').payload_bytes ≡ (of_role r t).payload_bytes + bytes_of r fs)
  unfolding account_fields fields_of bytes_of
  account_fields-totals t t' [] receipts h r =
      let same : t ≡ t' = ok_pair-injective h in
      (
        subst (λ u. (of_role r u).fields ≡ (of_role r t).fields + 0) same (omega arith),
        subst (λ u. (of_role r u).payload_bytes ≡ (of_role r t).payload_bytes + 0) same
            (omega arith),
      )
  account_fields-totals t t' (f ∷ fs) receipts h r =
      let (tokens, h1, k1) = >>=-ok (tokens_of coder f.bytes) _ h in
      let (n, h2, k2) = >>=-ok (fits coder (length f.bytes)) _ k1 in
      let (m, h3, k3) = >>=-ok (fits coder tokens) _ k2 in
      let (t1, h4, k4) = >>=-ok (add t f.role n m) _ k3 in
      let (rest, h5, k5) = >>=-ok (account_fields coder t1 fs) _ k4 in
      let (fields, bytes) = add-of_role t t1 f.role n m h4 r in
      let (fields', bytes') = account_fields-totals t1 rest.0 fs rest.1 h5 r in
      let same : rest.0 ≡ t' = ok_pair-injective k5 in
      let size : n ≡ length f.bytes = ground (arith, h2) in
      let counted : (if same_role f.role r then n else 0)
          ≡ (if same_role f.role r then length f.bytes else 0) =
        ap (λ k. if same_role f.role r then k else 0) size in
      (
        subst (λ u. (of_role r u).fields ≡ (of_role r t).fields + fields_of r (f ∷ fs)) same
            (omega (arith, fields, fields')),
        subst (λ u. (of_role r u).payload_bytes ≡ (of_role r t).payload_bytes + bytes_of r (f ∷ fs))
            same (omega (arith, bytes, bytes', counted)),
      )

  Counts : List OutputNoveltyField → Result (Error coder) (OutputNoveltyCoding coder) → Type 0
  Counts fs (err e) = Unit {0}
  Counts fs (ok coding) =
      (r : OutputNoveltyFieldRole)
      → ((of_role r coding.receipt.totals).fields ≡ fields_of r fs)
        × ((of_role r coding.receipt.totals).payload_bytes ≡ bytes_of r fs)

  -- The totals of a receipt count, for each role, the fields of the role and their bytes.
  encode-totals :
      (authority effect verification : Digest) (fs : List OutputNoveltyField)
      (coding : OutputNoveltyCoding coder)
      → encode coder authority effect verification fs ≡ ok coding
      → (r : OutputNoveltyFieldRole)
      → ((of_role r coding.receipt.totals).fields ≡ fields_of r fs)
        × ((of_role r coding.receipt.totals).payload_bytes ≡ bytes_of r fs)
  unfolding encode Counts
  encode-totals authority effect verification fs coding h =
      let (u, h1, k1) = >>=-ok (check coder authority effect verification fs) _ h in
      let (out, h2, k2) = >>=-ok (encode_fields coder authority effect verification fs) _ k1 in
      let (tokens, h3, k3) = >>=-ok (tokens_of coder out) _ k2 in
      let (accounted, h4, k4) = >>=-ok (account_fields coder default_totals fs) _ k3 in
      let (encoded_bytes, h5, k5) = >>=-ok (fits coder (length out)) _ k4 in
      let (encoded_tokens, h6, k6) = >>=-ok (fits coder tokens) _ k5 in
      subst (Counts fs) k6 (λ r.
        from_zero accounted.0 r
          (account_fields-totals default_totals accounted.0 fs accounted.1 h4 r))
    where
      from_zero :
          (t : OutputNoveltyTotals) (r : OutputNoveltyFieldRole)
          → ((of_role r t).fields ≡ (of_role r default_totals).fields + fields_of r fs)
            × ((of_role r t).payload_bytes
                ≡ (of_role r default_totals).payload_bytes + bytes_of r fs)
          → ((of_role r t).fields ≡ fields_of r fs) × ((of_role r t).payload_bytes ≡ bytes_of r fs)
      from_zero t referenced p = omega (arith, p)
      from_zero t reused p = omega (arith, p)
      from_zero t novel p = omega (arith, p)
      from_zero t deterministic p = omega (arith, p)

  -- A coding that `encode` made gives its fields back exactly, and the totals of its receipt count, for
  -- each role, the fields of the role and their bytes.
  pub encode-reconstruct_fields-totals :
      (authority effect verification : Digest) (fs : List OutputNoveltyField)
      (coding : OutputNoveltyCoding coder)
      → encode coder authority effect verification fs ≡ ok coding
      → (reconstruct_fields coder coding ≡ ok fs)
        × ((r : OutputNoveltyFieldRole)
            → ((of_role r coding.receipt.totals).fields ≡ fields_of r fs)
              × ((of_role r coding.receipt.totals).payload_bytes ≡ bytes_of r fs))
  encode-reconstruct_fields-totals authority effect verification fs coding h = (
    reconstruct_fields-encode coder authority effect verification fs coding h,
    encode-totals authority effect verification fs coding h,
  )
