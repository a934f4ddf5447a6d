-- ===== src/CowFork/Recovery.antt =====
-- What the operations do to the text that a session renders.
use mathlib.Core.List.{flatten, append_assoc, append-nil}
use tokenzero.Base.{
  subst, ◌≡◌, refl, sym, ap, ◌∙◌, true, some, List, [], ◌∷◌, ◌++◌, map, Text, text_eq_refl,
  Bool-cases, inl, inr, Result, ok, err, arith,
}
use tokenzero.WorkingSet.Host.{ExpansionResult}
use tokenzero.CowFork.{
  BranchRecord, BranchRestorePoint, CowSession, Vault, is_empty, rendered, forked, fork, append,
  checkpoint, discard, recover, recover_step, restore, persist_ledger, fork_entry, restored,
  restore_entry, record_refs, flush, CowForkError, entry, discard_entry, discarded, persisted,
  persist_json, and_then, Outcome,
}
use tokenzero.CowFork.History.{
  IsSealed, Keeps, LedgerFree, append-Keeps, checkpoint-Keeps, noted-Keeps, flush-Keeps,
}

texts_append :
    (rs : List (BranchRecord × Text)) (r : BranchRecord) (text : Text)
    → flatten (map (λ q. q.1) (rs ++ (r, text) ∷ [])) ≡ flatten (map (λ q. q.1) rs) ++ text
unfolding flatten
texts_append [] r text = append-nil text
texts_append ((q, u) ∷ rs) r text =
    ap (◌++◌ u) (texts_append rs r text) ∙ sym (append_assoc u (flatten (map (λ p. p.1) rs)) text)

module _ (vault : Vault) where
  open vault use {
    Store, StoreError, JsonError, store_text_deferred, expand_raw, entry_json, persist_pending,
  }

  -- Appending adds the text at the end, also where the ledger or the store fails.
  append-rendered :
      (s : CowSession) (store : Store) (text : Text)
      → rendered ((append vault s store text).1) ≡ rendered s ++ text
  unfolding rendered
  append-rendered s store text =
      append-Keeps vault (λ s'. rendered s' ≡ rendered s ++ text) s store text (λ s' l p. p)
        (ap (◌++◌ s.shared_prefix) (texts_append s.novelty _ text)
          ∙ sym (append_assoc s.shared_prefix (flatten (map (λ r. r.1) s.novelty)) text))

  -- A checkpoint renders what the session rendered, also where the ledger or the store fails.
  checkpoint-rendered :
      (s : CowSession) (store : Store) → rendered ((checkpoint vault s store).1) ≡ rendered s
  unfolding rendered flatten
  checkpoint-rendered s store =
      checkpoint-Keeps vault (λ s'. rendered s' ≡ rendered s) s store (λ s' l p. p)
        (append-nil (rendered s))

  -- Every text of the novelty is expanded from its ref, one after the other.
  abbrev pub Recovers : Store → List (BranchRecord × Text) → Type 0
  Recovers store [] = Unit {0}
  Recovers store ((r, text) ∷ rest) =
      ((expand_raw store r.recovery_ref).0 ≡ record { found = true; content = text })
      × Recovers ((expand_raw store r.recovery_ref).1) rest

  recover-Recovers :
      (store : Store) (novelty : List (BranchRecord × Text))
      → Recovers store novelty
      → (recover vault store (map (λ r. r.0) novelty)).0 ≡ ok novelty
  unfolding recover
  recover-Recovers store [] h = refl
  recover-Recovers store ((r, text) ∷ rest) (e, h) =
      answered ((expand_raw store r.recovery_ref).0)
        (recover vault ((expand_raw store r.recovery_ref).1) (map (λ q. q.0) rest)) e
        (recover-Recovers ((expand_raw store r.recovery_ref).1) rest h)
    where
      answered :
          (answer : ExpansionResult) (tail : Result _ (List (BranchRecord × Text)) × Store)
          → answer ≡ record { found = true; content = text }
          → tail.0 ≡ ok rest
          → (recover_step vault r answer tail ((expand_raw store r.recovery_ref).1)).0
            ≡ ok ((r, text) ∷ rest)
      answered answer (err e, store') a t = absurd (ground arith)
      answered answer (ok found, store') a t =
          let same : found ≡ rest = ground arith in rw a (ap (λ l. ok ((r, text) ∷ l)) same)

  restored-Keeps :
      (P : CowSession → Type 0) (s : CowSession) (recovered : List (BranchRecord × Text))
      (answer : Result (CowForkError StoreError JsonError) (List (BranchRecord × Text)) × Store)
      → LedgerFree vault P
      → answer.0 ≡ ok recovered
      → P (record s { novelty = recovered; at_breakpoint = is_empty recovered })
      → Keeps vault P (restored vault s answer)
  restored-Keeps P s recovered (err e, store) free a p = absurd (ground arith)
  restored-Keeps P s recovered (ok found, store) free a p =
      let same : recovered ≡ found = ground arith in
      let s1 = record s { novelty = found; at_breakpoint = is_empty found } in
      noted-Keeps vault P s1 store restore_entry (record_refs s1)
        (λ _ s2 store2. flush vault s2 store2) free
        (subst (λ l. P (record s { novelty = l; at_breakpoint = is_empty l })) same p)
        (λ a s2 store2 p2. flush-Keeps vault P s2 store2 p2)

  restore-rendered :
      (s s' : CowSession) (store : Store) (point : BranchRestorePoint)
      → point.branch_id ≡ s'.branch_id
      → point.records ≡ map (λ r. r.0) s.novelty
      → s'.shared_prefix ≡ s.shared_prefix
      → Recovers store s.novelty
      → rendered ((restore vault s' store point).1) ≡ rendered s
  unfolding rendered restore
  restore-rendered s s' store point b records p h =
      rw (b, text_eq_refl s'.branch_id, records)
        (restored-Keeps (λ t. rendered t ≡ rendered s) s' s.novelty
          (recover vault store (map (λ r. r.0) s.novelty)) (λ t l q. q)
          (recover-Recovers store s.novelty h) (rw p refl))

  -- What a discard that succeeds leaves: the point names the branch and its records.
  DiscardDone : CowSession → Outcome vault BranchRestorePoint → Type 0
  DiscardDone s (err e, s', store) = Unit {0}
  DiscardDone s (ok point, s', store) =
      (point.branch_id ≡ s'.branch_id)
      × (point.records ≡ map (λ r. r.0) s.novelty)
      × (s'.shared_prefix ≡ s.shared_prefix)

  discard-DiscardDone : (s : CowSession) (store : Store) → DiscardDone s (discard vault s store)
  unfolding discard persist_ledger flush DiscardDone
  discard-DiscardDone s store = encoded (entry_json (entry vault s discard_entry (record_refs s)))
    where
      flushed :
          (ledger_ref : Text) (s1 : CowSession) (a : Result StoreError (Unit {0}) × Store)
          → s1.shared_prefix ≡ s.shared_prefix
          → DiscardDone s (
              and_then vault
                (persisted vault s1 a)
                (λ _ s2 store2. discarded vault s ledger_ref s2 store2))
      flushed ledger_ref s1 (err e, store1) p = tt
      flushed ledger_ref s1 (ok _, store1) p = (refl, refl, p)

      encoded :
          (json : Result JsonError Text)
          → DiscardDone s (
              and_then vault (persist_json vault s store json) (λ ledger_ref s1 store1.
                and_then vault
                  (flush vault s1 store1)
                  (λ _ s2 store2. discarded vault s ledger_ref s2 store2)))
      encoded (err e) = tt
      encoded (ok json) = flushed _ _ (persist_pending _) refl

  -- Restoring what a session discarded gives its text back: after a discard that succeeded, in any
  -- store that expands every ref of the novelty to the text that was appended, the restored session
  -- renders the old text again, also where the ledger or the store fails at the end.
  pub restore-discard :
      (s s1 : CowSession) (store store1 store2 : Store) (point : BranchRestorePoint)
      → discard vault s store ≡ (ok point, s1, store1)
      → Recovers store2 s.novelty
      → rendered ((restore vault s1 store2 point).1) ≡ rendered s
  unfolding DiscardDone
  restore-discard s s1 store store1 store2 point h recovers =
      let (b, records, p) = subst (DiscardDone s) h (discard-DiscardDone s store) in
      restore-rendered s s1 store2 point b records p recovers

  ForkDone : CowSession → Result (CowForkError StoreError JsonError) CowSession × Store → Type 0
  ForkDone s (err e, store) = Unit {0}
  ForkDone s (ok child, store) = rendered child ≡ rendered s

  none_owned : (rs : List (BranchRecord × Text)) → is_empty rs ≡ true → rs ≡ []
  none_owned [] e = refl
  none_owned (_ ∷ _) e = absurd (ground arith)

  fork-ForkDone :
      (s : CowSession) (store : Store) (id : Text)
      → IsSealed vault s
      → ForkDone s (fork vault s store id)
  unfolding fork persist_ledger rendered ForkDone
  fork-ForkDone s store id v = elim (Bool-cases s.at_breakpoint) [
    | inl e ↦ rw e (encoded (sym v.breakpoint ∙ e) (entry_json (entry vault child fork_entry [])))
    | inr e ↦ rw e tt
  ]
    where
      child : CowSession
      child = record {
        branch_id = id;
        parent_branch_id = some s.branch_id;
        shared_prefix = s.shared_prefix;
        breakpoint_sha256 = s.breakpoint_sha256;
        novelty = [];
        ledger_refs = [];
        at_breakpoint = true;
      }

      encoded :
          is_empty s.novelty ≡ true
          → (json : Result JsonError Text)
          → ForkDone s (forked vault (persist_json vault child store json))
      encoded e (err x) = tt
      encoded e (ok json) = rw (none_owned s.novelty e) refl

  -- A fork that succeeds renders what its parent renders, for a parent that is at a breakpoint
  -- exactly while it owns nothing and has the fingerprint of its shared prefix.
  pub fork-rendered :
      (s child : CowSession) (store store' : Store) (id : Text)
      → IsSealed vault s
      → fork vault s store id ≡ (ok child, store')
      → rendered child ≡ rendered s
  unfolding ForkDone
  fork-rendered s child store store' id v h = subst (ForkDone s) h (fork-ForkDone s store id v)

  -- What any session renders follows its operations: appending adds the text at the end and a
  -- checkpoint changes nothing, whatever the session owns, also where the ledger or the store fails.
  pub rendered-append-checkpoint :
      (s : CowSession) (store : Store) (text : Text)
      → (rendered ((append vault s store text).1) ≡ rendered s ++ text)
        × (rendered ((checkpoint vault s store).1) ≡ rendered s)
  rendered-append-checkpoint s store text =
      (append-rendered s store text, checkpoint-rendered s store)
