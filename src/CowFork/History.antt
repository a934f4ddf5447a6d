-- ===== src/CowFork/History.antt =====
-- What holds of a session after any sequence of operations, failed ones included.
use tokenzero.Base.{
  ◌≡◌, refl, true, false, not, List, [], ◌∷◌, ◌++◌, Text, text_eq, Bool-cases, inl, inr, length,
  Result, ok, err,
}
use tokenzero.CowFork.{
  BranchRecord, BranchLedgerAction, BranchRestorePoint, CowForkError, CowSession, Vault, is_empty,
  rendered, record_refs, Outcome, and_then, persist_json, persist_ledger, persisted, flush, append,
  checkpoint, discarded, discard, recover, restored, restore, entry, append_entry, checkpoint_entry,
  discard_entry, restore_entry,
}

-- A change of state by a caller: an operation and what it is called with.
pub data Operation : Type 0 where
  append_text : Text → Operation
  seal : Operation
  drop_novelty : Operation
  bring_back : BranchRestorePoint → Operation

module _ (vault : Vault) where
  open vault use {
    Store, StoreError, JsonError, store_text_deferred, persist_pending, sha256_hex, entry_json,
  }

  abbrev state_of : {A : Type 0} → Outcome vault A → CowSession × Store
  state_of (r, s, store) = (s, store)

  -- The session and the store after an operation, whether it failed or not.
  abbrev pub step : Operation → CowSession × Store → CowSession × Store
  step (append_text text) (s, store) = state_of (append vault s store text)
  step seal (s, store) = state_of (checkpoint vault s store)
  step drop_novelty (s, store) = state_of (discard vault s store)
  step (bring_back point) (s, store) = state_of (restore vault s store point)

  abbrev pub run : List Operation → CowSession × Store → CowSession × Store
  run [] state = state
  run (o ∷ history) state = run history (step o state)

  -- A session is at a breakpoint exactly while it owns nothing, and its fingerprint is that of the
  -- prefix that it shares.
  pub record IsSealed (s : CowSession) : Type 0 where
    pub breakpoint : s.at_breakpoint ≡ is_empty s.novelty
    pub fingerprint : s.breakpoint_sha256 ≡ sha256_hex s.shared_prefix

  abbrev pub Keeps : {A : Type 0} → (CowSession → Type 0) → Outcome vault A → Type 0
  Keeps P (r, s, store) = P s

  and_then-Keeps :
      {A B : Type 0} (P : CowSession → Type 0) (o : Outcome vault A)
      (f : A → CowSession → Store → Outcome vault B)
      → Keeps P o
      → ((a : A) (s : CowSession) (store : Store) → P s → Keeps P (f a s store))
      → Keeps P (and_then vault o f)
  and_then-Keeps P (err e, s, store) f p next = p
  and_then-Keeps P (ok a, s, store) f p next = next a s store p

  -- The ledger grows, and nothing else changes.
  pub persist_ledger-Keeps :
      (P : CowSession → Type 0) (s : CowSession) (store : Store) (action : BranchLedgerAction)
      (refs : List Text)
      → P s
      → ((l : List Text) → P (record s { ledger_refs = l }))
      → Keeps P (persist_ledger vault s store action refs)
  unfolding persist_ledger
  persist_ledger-Keeps P s store action refs p q = json (entry_json (entry vault s action refs))
    where
      json : (encoded : Result JsonError Text) → Keeps P (persist_json vault s store encoded)
      json (err e) = p
      json (ok text) = q _

  pub flush-Keeps :
      (P : CowSession → Type 0) (s : CowSession) (store : Store)
      → P s
      → Keeps P (flush vault s store)
  unfolding flush
  flush-Keeps P s store p = answered (persist_pending store)
    where
      answered : (a : Result StoreError (Unit {0}) × Store) → Keeps P (persisted vault s a)
      answered (err e, store') = p
      answered (ok _, store') = p

  -- A predicate that does not look at the ledger.
  abbrev pub LedgerFree : (CowSession → Type 0) → Type 0
  LedgerFree P = (s : CowSession) (l : List Text) → P s → P (record s { ledger_refs = l })

  pub noted-Keeps :
      {B : Type 0} (P : CowSession → Type 0) (s : CowSession) (store : Store)
      (action : BranchLedgerAction) (refs : List Text)
      (f : Text → CowSession → Store → Outcome vault B)
      → LedgerFree P
      → P s
      → ((a : Text) (s' : CowSession) (store' : Store) → P s' → Keeps P (f a s' store'))
      → Keeps P (and_then vault (persist_ledger vault s store action refs) f)
  noted-Keeps P s store action refs f free p next =
      and_then-Keeps P (persist_ledger vault s store action refs) f
        (persist_ledger-Keeps P s store action refs p (λ l. free s l p)) next

  pub append-Keeps :
      (P : CowSession → Type 0) (s : CowSession) (store : Store) (text : Text)
      → LedgerFree P
      → P (record s {
        novelty =
            s.novelty
            ++ (
              record { recovery_ref = (store_text_deferred store text).0; bytes = length text },
              text,
            )
              ∷ [];
        at_breakpoint = false;
      })
      → Keeps P (append vault s store text)
  unfolding append
  append-Keeps P s store text free p =
      noted-Keeps P
        (record s {
          novelty =
              s.novelty
              ++ (
                record { recovery_ref = (store_text_deferred store text).0; bytes = length text },
                text,
              )
                ∷ [];
          at_breakpoint = false;
        })
        ((store_text_deferred store text).1) append_entry ((store_text_deferred store text).0 ∷ [])
        (λ _ s2 store2.
          and_then vault (flush vault s2 store2)
            (λ _ s3 store3. (ok ((store_text_deferred store text).0), s3, store3)))
        free p
        (λ a s2 store2 p2.
          and_then-Keeps P (flush vault s2 store2)
            (λ _ s3 store3. (ok ((store_text_deferred store text).0), s3, store3))
            (flush-Keeps P s2 store2 p2) (λ b s3 store3 p3. p3))

  pub checkpoint-Keeps :
      (P : CowSession → Type 0) (s : CowSession) (store : Store)
      → LedgerFree P
      → P (record s {
        shared_prefix = rendered s;
        breakpoint_sha256 = sha256_hex (rendered s);
        novelty = [];
        at_breakpoint = true;
      })
      → Keeps P (checkpoint vault s store)
  unfolding checkpoint
  checkpoint-Keeps P s store free p =
      noted-Keeps P
        (record s {
          shared_prefix = rendered s;
          breakpoint_sha256 = sha256_hex (rendered s);
          novelty = [];
          at_breakpoint = true;
        })
        store checkpoint_entry (record_refs s) (λ _ s2 store2. flush vault s2 store2) free p
        (λ a s2 store2 p2. flush-Keeps P s2 store2 p2)

  pub discard-Keeps :
      (P : CowSession → Type 0) (s : CowSession) (store : Store)
      → LedgerFree P
      → P s
      → ((s' : CowSession) → P s' → P (record s' { novelty = []; at_breakpoint = true }))
      → Keeps P (discard vault s store)
  unfolding discard
  discard-Keeps P s store free p cleared =
      noted-Keeps P s store discard_entry (record_refs s)
        (λ ledger_ref s1 store1.
          and_then vault (flush vault s1 store1)
            (λ _ s2 store2. discarded vault s ledger_ref s2 store2))
        free p
        (λ ledger_ref s1 store1 p1.
          and_then-Keeps P (flush vault s1 store1)
            (λ _ s2 store2. discarded vault s ledger_ref s2 store2) (flush-Keeps P s1 store1 p1)
            (λ b s2 store2 p2. cleared s2 p2))

  restored-Keeps :
      (P : CowSession → Type 0) (s : CowSession)
      (answer : Result (CowForkError StoreError JsonError) (List (BranchRecord × Text)) × Store)
      → LedgerFree P
      → P s
      → ((recovered : List (BranchRecord × Text))
          → answer.0 ≡ ok recovered
          → P (record s { novelty = recovered; at_breakpoint = is_empty recovered }))
      → Keeps P (restored vault s answer)
  restored-Keeps P s (err e, store) free p q = p
  restored-Keeps P s (ok recovered, store) free p q =
      let s1 = record s { novelty = recovered; at_breakpoint = is_empty recovered } in
      noted-Keeps P s1 store restore_entry (record_refs s1) (λ _ s2 store2. flush vault s2 store2)
        free (q recovered refl) (λ a s2 store2 p2. flush-Keeps P s2 store2 p2)

  pub restore-Keeps :
      (P : CowSession → Type 0) (s : CowSession) (store : Store) (point : BranchRestorePoint)
      → LedgerFree P
      → P s
      → ((recovered : List (BranchRecord × Text))
          → (recover vault store point.records).0 ≡ ok recovered
          → P (record s { novelty = recovered; at_breakpoint = is_empty recovered }))
      → Keeps P (restore vault s store point)
  unfolding restore
  restore-Keeps P s store point free p q =
      elim (Bool-cases (not (text_eq point.branch_id s.branch_id))) [
        | inl e ↦ rw e p
        | inr e ↦ rw e (restored-Keeps P s (recover vault store point.records) free p q)
      ]

  IsSealed-ledger : LedgerFree IsSealed
  IsSealed-ledger s l v = record { breakpoint = v.breakpoint; fingerprint = v.fingerprint }

  -- One operation keeps a session sealed.
  step-IsSealed :
      (o : Operation) (s : CowSession) (store : Store)
      → IsSealed s
      → IsSealed ((step o (s, store)).0)
  step-IsSealed (append_text text) s store v =
      append-Keeps IsSealed s store text IsSealed-ledger
        (record { breakpoint = not_empty s.novelty _; fingerprint = v.fingerprint })
    where
      not_empty :
          (rs : List (BranchRecord × Text)) (r : BranchRecord × Text)
          → false ≡ is_empty (rs ++ r ∷ [])
      not_empty [] r = refl
      not_empty (_ ∷ _) r = refl
  step-IsSealed seal s store v =
      checkpoint-Keeps IsSealed s store IsSealed-ledger
        (record { breakpoint = refl; fingerprint = refl })
  step-IsSealed drop_novelty s store v =
      discard-Keeps IsSealed s store IsSealed-ledger v
        (λ s' v'. record { breakpoint = refl; fingerprint = v'.fingerprint })
  step-IsSealed (bring_back point) s store v =
      restore-Keeps IsSealed s store point IsSealed-ledger v
        (λ recovered e. record { breakpoint = refl; fingerprint = v.fingerprint })

  -- After any sequence of operations on a sealed session, failed ones included, it is sealed.
  pub run-IsSealed :
      (history : List Operation) (s : CowSession) (store : Store)
      → IsSealed s
      → IsSealed ((run history (s, store)).0)
  run-IsSealed [] s store v = v
  run-IsSealed (o ∷ history) s store v =
      run-IsSealed history ((step o (s, store)).0) ((step o (s, store)).1)
        (step-IsSealed o s store v)
