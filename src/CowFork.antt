-- ===== src/CowFork.antt =====
-- crates/tokenzero-recovery/src/cow_fork.rs: branches that share a sealed prefix and own what
-- follows it. The store, SHA-256 and JSON encoding are parameters; an operation returns its result
-- beside the session and the store as it leaves them, on errors too.
pub mod History
pub mod Recovery
mod Tests
use mathlib.Core.List.{flatten}
use tokenzero.Base.{
  ℕ, ◌+◌, Bool, true, false, not, Option, none, some, List, [], ◌∷◌, ◌++◌, map, Text, text_eq,
  if◌then◌else◌, length, sum, sat_add, Result, ok, err,
}
use tokenzero.WorkingSet.Host.{ExpansionResult}

pub record BranchRecord : Type 0 where
  pub recovery_ref : Text
  pub bytes : ℕ

pub data BranchLedgerAction : Type 0 where
  fork_entry append_entry checkpoint_entry discard_entry restore_entry : BranchLedgerAction

pub record BranchLedgerEntry : Type 0 where
  pub branch_id : Text
  pub parent_branch_id : Option Text
  pub action : BranchLedgerAction
  pub breakpoint_sha256 : Text
  pub record_refs : List Text

pub record BranchRestorePoint : Type 0 where
  pub branch_id : Text
  pub records : List BranchRecord
  pub discard_ledger_ref : Text

pub record ForkCost : Type 0 where
  pub novelty_bytes : ℕ
  pub shared_prefix_bytes : ℕ
  pub full_replay_bytes : ℕ

pub record CowSession : Type 0 where
  pub branch_id : Text
  pub parent_branch_id : Option Text
  pub shared_prefix : Text
  pub breakpoint_sha256 : Text
  pub novelty : List (BranchRecord × Text)
  pub ledger_refs : List Text
  pub at_breakpoint : Bool

-- What is read of a `ContextProjection`.
pub record ContextProjection : Type 0 where
  pub rendered : Text
  pub cache_breakpoint : Bool

-- The store's operations that a session calls, SHA-256 in hexadecimal, and the JSON of an entry.
pub record Vault : Type 1 where
  pub Store : Type 0
  pub StoreError : Type 0
  pub JsonError : Type 0
  pub store_text_deferred : Store → Text → Text × Store
  pub store_json_deferred : Store → Text → Text × Store
  pub persist_pending : Store → Result StoreError (Unit {0}) × Store
  pub expand_raw : Store → Text → ExpansionResult × Store
  pub sha256_hex : Text → Text
  pub entry_json : BranchLedgerEntry → Result JsonError Text

pub data CowForkError (E J : Type 0) : Type 0 where
  not_at_cache_breakpoint : CowForkError E J
  wrong_branch : Text → Text → CowForkError E J
  missing_recovery : Text → CowForkError E J
  store_failed : E → CowForkError E J
  not_serialized : J → CowForkError E J

abbrev pub is_empty : List (BranchRecord × Text) → Bool
is_empty [] = true
is_empty (_ ∷ _) = false

unfoldable pub rendered : CowSession → Text
rendered s = s.shared_prefix ++ flatten (map (λ r. r.1) s.novelty)

unfoldable pub cost : CowSession → ForkCost
cost s =
    let novelty_bytes = sum (map (λ r. length r.1) s.novelty) in
    record {
      novelty_bytes = novelty_bytes;
      shared_prefix_bytes = length s.shared_prefix;
      full_replay_bytes = sat_add (length s.shared_prefix) novelty_bytes;
    }

abbrev pub record_refs : CowSession → List Text
record_refs s = map (λ r. r.0.recovery_ref) s.novelty

module _ (vault : Vault) where
  open vault use {
    Store, StoreError, JsonError, store_text_deferred, store_json_deferred, persist_pending,
    expand_raw, sha256_hex, entry_json,
  }

  abbrev pub Error : Type 0
  Error = CowForkError StoreError JsonError

  -- A result, the session and the store.
  abbrev pub Outcome : Type 0 → Type 0
  Outcome A = Result Error A × CowSession × Store

  -- The `?` operator.
  abbrev pub and_then :
      {A B : Type 0} → Outcome A → (A → CowSession → Store → Outcome B) → Outcome B
  and_then (err e, s, store) f = (err e, s, store)
  and_then (ok a, s, store) f = f a s store

  unfoldable pub from_breakpoint : Text → ContextProjection → Result Error CowSession
  from_breakpoint branch_id projection =
      if not projection.cache_breakpoint
      then err not_at_cache_breakpoint
      else ok (record {
        branch_id = branch_id;
        parent_branch_id = none;
        shared_prefix = projection.rendered;
        breakpoint_sha256 = sha256_hex projection.rendered;
        novelty = [];
        ledger_refs = [];
        at_breakpoint = true;
      })

  abbrev pub entry : CowSession → BranchLedgerAction → List Text → BranchLedgerEntry
  entry s action refs = record {
    branch_id = s.branch_id;
    parent_branch_id = s.parent_branch_id;
    action = action;
    breakpoint_sha256 = s.breakpoint_sha256;
    record_refs = refs;
  }

  -- `serde_json::to_string(…)?` and what follows it.
  abbrev pub persist_json : CowSession → Store → Result JsonError Text → Outcome Text
  persist_json s store (err e) = (err (not_serialized e), s, store)
  persist_json s store (ok json) =
      let (ledger_ref, store') = store_json_deferred store json in
      (ok ledger_ref, record s { ledger_refs = s.ledger_refs ++ ledger_ref ∷ [] }, store')

  unfoldable pub persist_ledger : CowSession → Store → BranchLedgerAction → List Text → Outcome Text
  persist_ledger s store action refs = persist_json s store (entry_json (entry s action refs))

  -- `persist_pending()?`
  abbrev pub persisted : CowSession → Result StoreError (Unit {0}) × Store → Outcome (Unit {0})
  persisted s (err e, store) = (err (store_failed e), s, store)
  persisted s (ok _, store) = (ok tt, s, store)

  unfoldable pub flush : CowSession → Store → Outcome (Unit {0})
  flush s store = persisted s (persist_pending store)

  abbrev pub forked : Outcome Text → Result Error CowSession × Store
  forked (err e, child, store) = (err e, store)
  forked (ok _, child, store) = (ok child, store)

  unfoldable pub fork : CowSession → Store → Text → Result Error CowSession × Store
  unfolding persist_ledger
  fork s store child_branch_id =
      if not s.at_breakpoint
      then (err not_at_cache_breakpoint, store)
      else forked (
          persist_ledger
            (record {
              branch_id = child_branch_id;
              parent_branch_id = some s.branch_id;
              shared_prefix = s.shared_prefix;
              breakpoint_sha256 = s.breakpoint_sha256;
              novelty = [];
              ledger_refs = [];
              at_breakpoint = true;
            })
            store fork_entry [])

  unfoldable pub append : CowSession → Store → Text → Outcome Text
  unfolding persist_ledger flush
  append s store text =
      let (recovery_ref, store1) = store_text_deferred store text in
      let s1 = record s {
        novelty =
            s.novelty ++ (record { recovery_ref = recovery_ref; bytes = length text }, text) ∷ [];
        at_breakpoint = false;
      } in
      and_then (persist_ledger s1 store1 append_entry (recovery_ref ∷ []))
        (λ _ s2 store2. and_then (flush s2 store2) (λ _ s3 store3. (ok recovery_ref, s3, store3)))

  unfoldable pub checkpoint : CowSession → Store → Outcome (Unit {0})
  unfolding rendered persist_ledger flush
  checkpoint s store =
      let s1 = record s {
        shared_prefix = rendered s;
        breakpoint_sha256 = sha256_hex (rendered s);
        novelty = [];
        at_breakpoint = true;
      } in
      and_then (persist_ledger s1 store checkpoint_entry (record_refs s))
        (λ _ s2 store2. flush s2 store2)

  abbrev pub discarded : CowSession → Text → CowSession → Store → Outcome BranchRestorePoint
  discarded s ledger_ref s2 store2 = (
    ok (record {
      branch_id = s2.branch_id;
      records = map (λ r. r.0) s.novelty;
      discard_ledger_ref = ledger_ref;
    }),
    record s2 { novelty = []; at_breakpoint = true },
    store2,
  )

  unfoldable pub discard : CowSession → Store → Outcome BranchRestorePoint
  unfolding persist_ledger flush
  discard s store =
      and_then (persist_ledger s store discard_entry (record_refs s)) (λ ledger_ref s1 store1.
        and_then (flush s1 store1) (λ _ s2 store2. discarded s ledger_ref s2 store2))

  -- One round of the loop of `restore`, on what the store answers.
  abbrev pub recover_step :
      BranchRecord
      → ExpansionResult
      → Result Error (List (BranchRecord × Text)) × Store
      → Store
      → Result Error (List (BranchRecord × Text)) × Store
  recover_step r answer (err e, store'') store' =
      if answer.found then (err e, store'') else (err (missing_recovery r.recovery_ref), store')
  recover_step r answer (ok rest, store'') store' =
      if answer.found
      then (ok ((r, answer.content) ∷ rest), store'')
      else (err (missing_recovery r.recovery_ref), store')

  -- The loop of `restore`.
  unfoldable pub recover :
      Store → List BranchRecord → Result Error (List (BranchRecord × Text)) × Store
  recover store [] = (ok [], store)
  recover store (r ∷ records) =
      let (answer, store') = expand_raw store r.recovery_ref in
      recover_step r answer (recover store' records) store'

  abbrev pub restored :
      CowSession → Result Error (List (BranchRecord × Text)) × Store → Outcome (Unit {0})
  restored s (err e, store) = (err e, s, store)
  restored s (ok recovered, store) =
      let s1 = record s { novelty = recovered; at_breakpoint = is_empty recovered } in
      and_then (persist_ledger s1 store restore_entry (record_refs s1))
        (λ _ s2 store2. flush s2 store2)

  unfoldable pub restore : CowSession → Store → BranchRestorePoint → Outcome (Unit {0})
  unfolding persist_ledger flush recover
  restore s store point =
      if not (text_eq point.branch_id s.branch_id)
      then (err (wrong_branch s.branch_id point.branch_id), s, store)
      else restored s (recover store point.records)
