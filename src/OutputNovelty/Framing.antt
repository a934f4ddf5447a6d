-- ===== src/OutputNovelty/Framing.antt =====
-- The framing: a coding determines what was encoded, and its length is the one computed before.
use tokenzero.Base.Decimal.{show}
use tokenzero.Base.{
  ℕ, zero, suc, ◌+◌, ◌/◌, ◌%◌, ◌≤◌, ◌≡◌, refl, sym, ap, ◌∙◌, subst, List, [], ◌∷◌, ◌++◌, Text,
  text_eq_refl, arith, length, length-append, append_assoc, append-nil, max_u64, Result, ok, err,
  >>=-ok, All,
}
use tokenzero.OutputNovelty.{
  OutputNoveltyFieldRole, referenced, reused, novel, deterministic, as_str, OutputNoveltyField,
  be_bytes, put_bytes, put_fields, byte_limit, add_length, add_lengths, encoded_len,
  encoding_domain, Coder, header, encode_fields, check, encode, account_fields, Error, tokens_of,
  fits, default_totals, OutputNoveltyCoding, reconstruct_fields,
}

-- Concatenations of equal length on the left agree on both sides.
append-injective :
    {A : Type 0} (a b r s : List A) → length a ≡ length b → a ++ r ≡ b ++ s → (a ≡ b) × (r ≡ s)
append-injective [] [] r s h e = (refl, e)
append-injective [] (y ∷ b) r s h e = absurd (omega (arith, h))
append-injective (x ∷ a) [] r s h e = absurd (omega (arith, h))
append-injective (x ∷ a) (y ∷ b) r s h e =
    let tails : a ++ r ≡ b ++ s = cc in
    let (same, rest) = append-injective a b r s (omega (arith, h)) tails in (cc (same), rest)

length-be_bytes : (k n : ℕ) → length (be_bytes k n) ≡ k
unfolding be_bytes
length-be_bytes zero n = refl
length-be_bytes (suc k) n =
    omega
      (arith, length-append (be_bytes k (n / 256)) ((n % 256) ∷ []), length-be_bytes k (n / 256))

-- Nothing is left of the number behind `k` bytes.
Fits : ℕ → ℕ → Type 0
Fits zero n = n ≡ 0
Fits (suc k) n = Fits k (n / 256)

be_bytes-injective : (k n m : ℕ) → Fits k n → Fits k m → be_bytes k n ≡ be_bytes k m → n ≡ m
unfolding be_bytes Fits
be_bytes-injective zero n m f g e = f ∙ sym g
be_bytes-injective (suc k) n m f g e =
    let (high, low) =
      append-injective (be_bytes k (n / 256)) (be_bytes k (m / 256)) ((n % 256) ∷ [])
        ((m % 256) ∷ []) (length-be_bytes k (n / 256) ∙ sym (length-be_bytes k (m / 256))) e in
    let last : n % 256 ≡ m % 256 = cc in
    omega (arith, be_bytes-injective k (n / 256) (m / 256) f g high, last)

Fits-u64 : (n : ℕ) → n ≤ max_u64 → Fits 8 n
unfolding Fits
Fits-u64 n h = omega arith

frame : Text → Text
frame bytes = be_bytes 8 (length bytes) ++ bytes

frame-injective :
    (a b r s : Text)
    → length a ≤ max_u64
    → length b ≤ max_u64
    → frame a ++ r ≡ frame b ++ s
    → (a ≡ b) × (r ≡ s)
unfolding frame
frame-injective a b r s h k e =
    let split : be_bytes 8 (length a) ++ (a ++ r) ≡ be_bytes 8 (length b) ++ (b ++ s) =
      sym (append_assoc (be_bytes 8 (length a)) a r)
      ∙ e
      ∙ append_assoc (be_bytes 8 (length b)) b s in
    let (lengths, rest) =
      append-injective (be_bytes 8 (length a)) (be_bytes 8 (length b)) (a ++ r) (b ++ s)
        (length-be_bytes 8 (length a) ∙ sym (length-be_bytes 8 (length b))) split in
    append-injective a b r s
      (be_bytes-injective 8 (length a) (length b) (Fits-u64 (length a) h) (Fits-u64 (length b) k)
        lengths)
      rest

as_str-injective : (r s : OutputNoveltyFieldRole) → as_str r ≡ as_str s → r ≡ s
unfolding as_str
as_str-injective referenced referenced e = refl
as_str-injective reused reused e = refl
as_str-injective novel novel e = refl
as_str-injective deterministic deterministic e = refl
as_str-injective r s e = ground arith

frames : OutputNoveltyField → Text
frames f = frame f.name ++ (frame (as_str f.role) ++ frame f.bytes)

body : List OutputNoveltyField → Text
body [] = []
body (f ∷ fs) = frames f ++ body fs

-- The lengths that a field's frames write fit u64.
abbrev FieldFits : OutputNoveltyField → Type 0
FieldFits f =
    (length f.name ≤ max_u64) × (length (as_str f.role) ≤ max_u64) × (length f.bytes ≤ max_u64)

module _ {E : Type 0} where
  put_bytes-frame :
      (out bytes o : Text)
      → put_bytes {E = E} out bytes ≡ ok o
      → (length bytes ≤ max_u64) × (o ≡ out ++ frame bytes)
  unfolding put_bytes frame
  put_bytes-frame out bytes o h = ground (arith, h)

  put_fields-body :
      (out : Text) (fs : List OutputNoveltyField) (o : Text)
      → put_fields {E = E} out fs ≡ ok o
      → All FieldFits fs × (o ≡ out ++ body fs)
  unfolding put_fields body frames
  put_fields-body out [] o h =
      let same : out ≡ o = ground (arith, h) in (tt, sym same ∙ sym (append-nil out))
  put_fields-body out (f ∷ fs) o h =
      let (o1, h1, k1) = >>=-ok (put_bytes {E = E} out f.name) _ h in
      let (o2, h2, k2) = >>=-ok (put_bytes {E = E} o1 (as_str f.role)) _ k1 in
      let (o3, h3, k3) = >>=-ok (put_bytes {E = E} o2 f.bytes) _ k2 in
      let (u, h4, k4) = >>=-ok (byte_limit {E = E} (length o3)) _ k3 in
      let (fit1, e1) = put_bytes-frame out f.name o1 h1 in
      let (fit2, e2) = put_bytes-frame o1 (as_str f.role) o2 h2 in
      let (fit3, e3) = put_bytes-frame o2 f.bytes o3 h3 in
      let (fit, e) = put_fields-body o3 fs o k4 in
      (((fit1, fit2, fit3), fit), e ∙ rw (e3, e2, e1) (simp append_assoc))

length-frame : (bytes : Text) → length (frame bytes) ≡ 8 + length bytes
unfolding frame
length-frame bytes =
    omega (arith, length-append (be_bytes 8 (length bytes)) bytes, length-be_bytes 8 (length bytes))

length-frames :
    (f : OutputNoveltyField)
    → length (frames f)
      ≡ (8 + length f.name) + ((8 + length (as_str f.role)) + (8 + length f.bytes))
unfolding frames
length-frames f = omega (
  arith,
  length-append (frame f.name) (frame (as_str f.role) ++ frame f.bytes),
  length-append (frame (as_str f.role)) (frame f.bytes),
  length-frame f.name,
  length-frame (as_str f.role),
  length-frame f.bytes,
)

length-body : (f : OutputNoveltyField) (fs : List OutputNoveltyField) → 8 ≤ length (body (f ∷ fs))
unfolding body
length-body f fs = omega (arith, length-append (frames f) (body fs), length-frames f)

frames_assoc :
    (f : OutputNoveltyField) (r : Text)
    → frames f ++ r ≡ frame f.name ++ (frame (as_str f.role) ++ (frame f.bytes ++ r))
unfolding frames
frames_assoc f r = simp append_assoc

-- Bodies that agree are those of the same fields.
body-injective :
    (fs gs : List OutputNoveltyField)
    → All FieldFits fs
    → All FieldFits gs
    → body fs ≡ body gs
    → fs ≡ gs
unfolding body frames
body-injective [] [] a b e = refl
body-injective [] (g ∷ gs) a b e = absurd (omega (arith, length-body g gs, ap length e))
body-injective (f ∷ fs) [] a b e = absurd (omega (arith, length-body f fs, ap length e))
body-injective (f ∷ fs) (g ∷ gs) ((n, r, p), a) ((n', r', p'), b) e =
    let e1 : frame f.name ++ (frame (as_str f.role) ++ (frame f.bytes ++ body fs))
        ≡ frame g.name ++ (frame (as_str g.role) ++ (frame g.bytes ++ body gs)) =
      sym (frames_assoc f (body fs)) ∙ e ∙ frames_assoc g (body gs) in
    let (names, e2) = frame-injective f.name g.name _ _ n n' e1 in
    let (roles, e3) = frame-injective (as_str f.role) (as_str g.role) _ _ r r' e2 in
    let (payloads, e4) = frame-injective f.bytes g.bytes _ _ p p' e3 in
    let same : f.role ≡ g.role = as_str-injective f.role g.role roles in
    let rest : fs ≡ gs = body-injective fs gs a b e4 in ground (arith, names, same, payloads, rest)

module _ {E : Type 0} where
  add_length-sum : (a b n : ℕ) → add_length {E = E} a b ≡ ok n → n ≡ a + b
  add_length-sum a b n h = ground (arith, h)

  add_lengths-body :
      (len : ℕ) (fs : List OutputNoveltyField) (n : ℕ)
      → add_lengths {E = E} len fs ≡ ok n
      → n ≡ len + length (body fs)
  unfolding add_lengths body
  add_lengths-body len [] n h = ground (arith, h)
  add_lengths-body len (f ∷ fs) n h =
      let (l1, h1, k1) = >>=-ok (add_length {E = E} len (8 + length f.name)) _ h in
      let (l2, h2, k2) = >>=-ok (add_length {E = E} l1 (8 + length (as_str f.role))) _ k1 in
      let (l3, h3, k3) = >>=-ok (add_length {E = E} l2 (8 + length f.bytes)) _ k2 in
      omega (
        arith,
        add_length-sum len (8 + length f.name) l1 h1,
        add_length-sum l1 (8 + length (as_str f.role)) l2 h2,
        add_length-sum l2 (8 + length f.bytes) l3 h3,
        add_lengths-body l3 fs n k3,
        length-append (frames f) (body fs),
        length-frames f,
      )

module _ (coder : Coder) where
  open coder use {Digest, ModelArtifactError, as_bytes}

  encode_fields-body :
      (authority effect verification : Digest) (fs : List OutputNoveltyField) (out : Text)
      → encode_fields coder authority effect verification fs ≡ ok out
      → (length (show (length fs)) ≤ max_u64)
        × All FieldFits fs
        × (out
            ≡ encoding_domain
              ++ (as_bytes authority
                  ++ (as_bytes effect
                      ++ (as_bytes verification ++ (frame (show (length fs)) ++ body fs)))))
  unfolding encode_fields
  encode_fields-body authority effect verification fs out h =
      let (o1, h1, k1) =
        >>=-ok
          (put_bytes {E = ModelArtifactError} (header coder authority effect verification)
            (show (length fs)))
          _ h in
      let (fit1, e1) =
        put_bytes-frame (header coder authority effect verification) (show (length fs)) o1 h1 in
      let (fit, e) = put_fields-body o1 fs out k1 in (fit1, fit, e ∙ rw e1 (simp append_assoc))

  -- The length that is computed before anything is written is that of the coding.
  pub encoded_len-encode_fields :
      (authority effect verification : Digest) (fs : List OutputNoveltyField) (out : Text) (n : ℕ)
      → ((d : Digest) → length (as_bytes d) ≡ 32)
      → encoded_len {E = ModelArtifactError} fs ≡ ok n
      → encode_fields coder authority effect verification fs ≡ ok out
      → length out ≡ n
  unfolding encoded_len
  encoded_len-encode_fields authority effect verification fs out n sized counted h =
      let (_, fit, e) = encode_fields-body authority effect verification fs out h in
      let (len, h1, k1) =
        >>=-ok (add_length {E = ModelArtifactError} 124 (8 + length (show (length fs))))
          (λ l. add_lengths l fs) counted in
      let tail : Text = frame (show (length fs)) ++ body fs in
      omega (
        arith,
        ap length e,
        length-append encoding_domain
            (as_bytes authority ++ (as_bytes effect ++ (as_bytes verification ++ tail))),
        length-append (as_bytes authority) (as_bytes effect ++ (as_bytes verification ++ tail)),
        length-append (as_bytes effect) (as_bytes verification ++ tail),
        length-append (as_bytes verification) tail,
        length-append (frame (show (length fs))) (body fs),
        length-frame (show (length fs)),
        sized authority,
        sized effect,
        sized verification,
        add_length-sum 124 (8 + length (show (length fs))) len h1,
        add_lengths-body len fs n k1,
      )

  -- A coding determines the digests and the fields that were encoded, their order, names, roles and
  -- bytes, for digests of 32 bytes.
  pub encode_fields-injective :
      (a e v a' e' v' : Digest) (fs gs : List OutputNoveltyField) (out : Text)
      → ((d : Digest) → length (as_bytes d) ≡ 32)
      → encode_fields coder a e v fs ≡ ok out
      → encode_fields coder a' e' v' gs ≡ ok out
      → (as_bytes a ≡ as_bytes a')
        × (as_bytes e ≡ as_bytes e')
        × (as_bytes v ≡ as_bytes v')
        × (fs ≡ gs)
  encode_fields-injective a e v a' e' v' fs gs out sized h k =
      let (small, fit, p) = encode_fields-body a e v fs out h in
      let (small', fit', q) = encode_fields-body a' e' v' gs out k in
      let (_, e0) = append-injective encoding_domain encoding_domain _ _ refl (sym p ∙ q) in
      let (same_a, e1) =
        append-injective (as_bytes a) (as_bytes a') _ _ (sized a ∙ sym (sized a')) e0 in
      let (same_e, e2) =
        append-injective (as_bytes e) (as_bytes e') _ _ (sized e ∙ sym (sized e')) e1 in
      let (same_v, e3) =
        append-injective (as_bytes v) (as_bytes v') _ _ (sized v ∙ sym (sized v')) e2 in
      let (_, e4) = frame-injective (show (length fs)) (show (length gs)) _ _ small small' e3 in
      (same_a, same_e, same_v, body-injective fs gs fit fit' e4)

  Rebuilds : List OutputNoveltyField → Result (Error coder) (OutputNoveltyCoding coder) → Type 0
  Rebuilds fs (err e) = Unit {0}
  Rebuilds fs (ok coding) = reconstruct_fields coder coding ≡ ok fs

  -- The fields of a coding that `encode` made are reconstructed exactly.
  pub reconstruct_fields-encode :
      (authority effect verification : Digest) (fs : List OutputNoveltyField)
      (coding : OutputNoveltyCoding coder)
      → encode coder authority effect verification fs ≡ ok coding
      → reconstruct_fields coder coding ≡ ok fs
  unfolding encode reconstruct_fields Rebuilds
  reconstruct_fields-encode authority effect verification fs coding h =
      let (u, h1, k1) = >>=-ok (check coder authority effect verification fs) _ h in
      let (out, h2, k2) = >>=-ok (encode_fields coder authority effect verification fs) _ k1 in
      let (tokens, h3, k3) = >>=-ok (tokens_of coder out) _ k2 in
      let (accounted, h4, k4) = >>=-ok (account_fields coder default_totals fs) _ k3 in
      let (encoded_bytes, h5, k5) = >>=-ok (fits coder (length out)) _ k4 in
      let (encoded_tokens, h6, k6) = >>=-ok (fits coder tokens) _ k5 in
      subst (Rebuilds fs) k6 (rw (h2, text_eq_refl out) refl)
